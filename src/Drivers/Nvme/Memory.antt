-- ===== src/Drivers/Nvme/Memory.antt =====
-- src/drivers/nvme/memory.rs: DMA buffers, and the chunks in which a transfer walks over one.
pub mod Chunks
pub mod Allocate
mod Tests
use good_os_framework.Base.{
  ℕ, zero, suc, ◌+◌, ◌-◌, ◌*◌, ◌/◌, ◌%◌, ◌^◌, min, Bool, true, false, not, Option, none, some, List,
  [], ◌∷◌, leb, ◌==◌, if◌then◌else◌, Outcome, done, spins, ◌>>=◌,
}
use good_os_framework.Data.Bitmap.{BitField}
use good_os_framework.Memory.Frame.{BitmapFrameAllocator}
use good_os_framework.Drivers.Dma.{alloc_for_dma}

pub record Dma : Type 0 where
  pub virt : ℕ
  pub phys : ℕ
  pub size : ℕ

-- A chunk of a byte buffer: its physical address and its length. The bytes stay in the buffer.
pub record DmaChunk : Type 0 where
  pub phys_addr : ℕ
  pub length : ℕ

pub record DmaChunks : Type 0 where
  pub current_offset : ℕ
  pub chunk_size : ℕ
  pub dma : Dma

-- `chunks` of a `Dma<u8>`, and `next` of its iterator.
unfoldable pub chunks : Dma → ℕ → DmaChunks
chunks dma bytes = record { current_offset = 0; chunk_size = bytes; dma = dma }

unfoldable pub next : DmaChunks → Option (DmaChunk × DmaChunks)
next c =
    if leb c.dma.size c.current_offset
    then none
    else (let len = min c.chunk_size (c.dma.size - c.current_offset) in
        some (
          record { phys_addr = c.dma.phys + c.current_offset; length = len },
          record c { current_offset = c.current_offset + len },
        ))

-- All that a `for` loop over the iterator sees.
pub collect : ℕ → DmaChunks → Outcome (List DmaChunk)
collect zero c = spins
collect (suc fuel) c = elim (next c) [
  | none ↦ done []
  | some (chunk, c') ↦ collect fuel c' >>= λ rest. done (chunk ∷ rest)
]

-- The size rounded up to whole pages.
unfoldable pub page_size_up : ℕ → ℕ
page_size_up size = if not (size % 4096 == 0) then (size / 2 ^ 12 + 1) * 2 ^ 12 else size

module _ ⦃B : BitField⦄ where
  pub allocate : ℕ → BitmapFrameAllocator → ℕ → Outcome (Dma × BitmapFrameAllocator)
  allocate offset a size = do
    ((phys, virt), a') ← alloc_for_dma offset a (page_size_up size / 2 ^ 12)
    done (record { virt = virt; phys = phys; size = page_size_up size }, a')
