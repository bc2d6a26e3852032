-- ===== src/Task/Process/Tests.antt =====
-- A program of two segments, the second of which has more room than data.
use good_os_framework.Base.{ℕ, ◌/◌, ◌≡◌, some, none, panics, done, arith, List, [], ◌∷◌, All, inl}
use good_os_framework.Data.Bitmap.Bits.{u8_bits}
use good_os_framework.Memory.Frame.{BitmapFrameAllocator}
use good_os_framework.Memory.Mapper.Samples.{
  Maps, no_pages, identity, identity_small, maps, nothing_mapped, plenty, plenty-Supply,
}
use good_os_framework.Memory.PageTable.Access.{Bytes}
use good_os_framework.Task.Process.{Segment, map_segment, map_segments}
use good_os_framework.Task.Process.Load.{Loaded, map_segment_panics}
use good_os_framework.Memory.Frame.Calls.{Keeps}
use good_os_framework.Task.Process.All.{Outside, map_segments_lem}

abbrev program : List Segment
program =
    record { address = 8190; size = 4; contents = some (1 ∷ 2 ∷ 3 ∷ 4 ∷ []) }
    ∷ record { address = 16384; size = 100; contents = some (5 ∷ []) }
    ∷ []

abbrev blank : Bytes
blank x = 0

map_segments_lem_example :
    (t' : Maps) × (a' : BitmapFrameAllocator) × (m' : Bytes) × (map_segments program
        (no_pages, plenty, blank)
      ≡ done (t', a', m'))
    × All (λ s. Loaded s (maps.view t') a' m') program
    × ((addr : ℕ)
        → All (λ s. Outside s (addr / 4096)) program
        → (maps.view t').translate addr ≡ (maps.view no_pages).translate addr)
    × Keeps plenty a'
map_segments_lem_example =
    map_segments_lem program no_pages plenty blank
      (
        record { some_bytes = omega arith; low = omega arith; fits = omega arith },
        (λ p w. nothing_mapped p),
        (inl (omega arith), tt),
        (
          record { some_bytes = omega arith; low = omega arith; fits = omega arith },
          (λ p w. nothing_mapped p),
          tt,
          tt,
        ),
      )
      (plenty-Supply 12 (omega arith))

map_segment_panics_example :
    map_segment (record { address = 8190; size = 4; contents = none }) (identity, plenty, blank)
    ≡ panics
map_segment_panics_example =
    map_segment_panics (record { address = 8190; size = 4; contents = none }) identity plenty blank
      (omega arith) (omega arith) (identity_small 1) (plenty-Supply 1 (omega arith))
