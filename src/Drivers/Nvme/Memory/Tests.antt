-- ===== src/Drivers/Nvme/Memory/Tests.antt =====
-- A buffer of two and a half chunks, and an allocator with one free run of three frames.
use good_os_framework.Base.{◌≡◌, refl, List, [], ◌∷◌, done, arith}
use good_os_framework.Data.Bitmap.Bits.{u8_bits}
use good_os_framework.Memory.Frame.{BitmapFrameAllocator}
use good_os_framework.Drivers.Nvme.Memory.{Dma, DmaChunk, chunks, next, collect}
use good_os_framework.Drivers.Nvme.Memory.Chunks.{Covers, collect-chunks}

abbrev buffer : Dma
buffer = record { virt = 0; phys = 4096; size = 5 }

chunks_run :
    collect 6 (chunks buffer 2)
    ≡ done (
        record { phys_addr = 4096; length = 2 }
        ∷ record { phys_addr = 4098; length = 2 }
        ∷ record { phys_addr = 4100; length = 1 }
        ∷ [])
unfolding collect chunks next
chunks_run = refl

collect-chunks_example :
    (l : List DmaChunk) × (collect 6 (chunks buffer 2) ≡ done l) × Covers 4096 2 0 5 l
collect-chunks_example = collect-chunks buffer 2 (omega arith)

abbrev three_free : BitmapFrameAllocator
three_free = record {
  bitmap = record { inner = 0b1110 ∷ 0 ∷ 0 ∷ 0 ∷ [] };
  usable_frames = 3;
  next_frame = 1;
}
