-- ===== src/Memory/Manager/Tests.antt =====
-- Ranges in an empty mapping.
use good_os_framework.Base.{ℕ, ◌+◌, ◌/◌, ◌%◌, ◌≤◌, ◌<◌, ◌≡◌, refl, some, done, arith}
use good_os_framework.Data.Bitmap.Bits.{u8_bits}
use good_os_framework.Memory.Frame.{BitmapFrameAllocator, frame_address}
use good_os_framework.Memory.Frame.Supply.{Supply}
use good_os_framework.Memory.Mapper.{ok, user-IsEntry}
use good_os_framework.Memory.Mapper.Samples.{
  Maps, no_pages, maps, nothing_mapped, plenty, plenty-Supply,
}
use good_os_framework.Memory.Manager.{alloc_range}
use good_os_framework.Memory.Manager.Backed.{Backed, page_count}
use good_os_framework.Memory.Manager.Range.{alloc_range_lem}

-- Two bytes on both sides of the end of a page.
alloc_range_lem_example :
    (t' : Maps) × (a' : BitmapFrameAllocator) × (frames : ℕ → ℕ) × (alloc_range 8191 2 7 no_pages
        plenty
      ≡ done (ok, t', a'))
    × ((addr : ℕ)
        → 8191 ≤ addr
        → addr < 8191 + 2
        → (maps.view t').translate addr
          ≡ some (frame_address (frames (addr / 4096)) + addr % 4096, 7))
    × Backed
        (8191 / 4096)
        (page_count 8191 2)
        7
        frames
        plenty
        (maps.view no_pages)
        a'
        (maps.view t')
    × Supply 0 a'
alloc_range_lem_example =
    alloc_range_lem 8191 2 7 0 no_pages plenty (user-IsEntry 0 refl (omega arith)) (omega arith)
      (omega arith) (λ p w. nothing_mapped p) (plenty-Supply 8 (omega arith))
