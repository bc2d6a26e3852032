-- ===== src/Drivers/Nvme/Memory/Allocate.antt =====
-- `Dma::allocate`: whole pages from the frame allocator.
use good_os_framework.Base.{
  ℕ, ◌+◌, ◌/◌, ◌%◌, ◌^◌, ◌≤◌, ◌<◌, ◌≡◌, ◌⊎◌, inl, inr, Outcome, done, panics, arith,
}
use good_os_framework.Data.Bitmap.{BitField}
use good_os_framework.Memory.Address.{convert_physical_to_virtual}
use good_os_framework.Memory.Frame.{BitmapFrameAllocator, frame_address}
use good_os_framework.Memory.Frame.Allocate.{Allocated, Refused, allocate_frames_lem}
use good_os_framework.Drivers.Dma.{alloc_for_dma}
use good_os_framework.Drivers.Nvme.Memory.{Dma, page_size_up, allocate}

-- The rounded size is the least multiple of the page size that is not below the size.
pub page_size_up_lem :
    (size : ℕ)
    → (page_size_up size % 4096 ≡ 0)
      × (size ≤ page_size_up size)
      × (page_size_up size < size + 4096)
unfolding page_size_up
page_size_up_lem size = ground arith

module _ ⦃B : BitField⦄ where
  abbrev pub Answers : ℕ → ℕ → BitmapFrameAllocator → Outcome (Dma × BitmapFrameAllocator) → Type 0
  Answers offset size a r =
      ((s : ℕ) × (a' : BitmapFrameAllocator) × (r
          ≡ done (
            record {
              virt = convert_physical_to_virtual offset (frame_address s);
              phys = frame_address s;
              size = page_size_up size;
            },
            a',
          ))
        × Allocated a (page_size_up size / 2 ^ 12) s a')
      ⊎ ((r ≡ panics) × Refused a (page_size_up size / 2 ^ 12))

  -- `Dma::allocate` takes the first run of as many free frames as the rounded size has pages, and
  -- returns a buffer of that size at the address of the run; it panics if fewer frames are usable or
  -- there is no such run, a size of 0 included.
  pub allocate_lem :
      (offset size : ℕ) (a : BitmapFrameAllocator) → Answers offset size a (allocate offset a size)
  unfolding allocate alloc_for_dma
  allocate_lem offset size a = elim (allocate_frames_lem a (page_size_up size / 2 ^ 12)) [
    | inl (s, a', p, f) ↦ inl (s, a', rw p, f)
    | inr (p, r) ↦ inr (rw p, r)
  ]
