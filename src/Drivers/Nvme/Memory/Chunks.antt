-- ===== src/Drivers/Nvme/Memory/Chunks.antt =====
-- A transfer in chunks covers its buffer once, in order.
use good_os_framework.Base.{
  ℕ, zero, suc, ◌+◌, ◌-◌, ◌≤◌, ◌<◌, ◌≡◌, refl, min, List, [], ◌∷◌, done, arith, dec_lt,
}
use good_os_framework.Drivers.Nvme.Memory.{Dma, DmaChunk, DmaChunks, chunks, next, collect}

-- The chunks lie end to end from `offset` up to `size`, and none is empty or longer than `limit`.
abbrev pub Covers : ℕ → ℕ → ℕ → ℕ → List DmaChunk → Type 0
Covers phys limit offset size [] = offset ≡ size
Covers phys limit offset size (c ∷ rest) =
    (c.phys_addr ≡ phys + offset)
    × (0 < c.length)
    × (c.length ≤ limit)
    × Covers phys limit (offset + c.length) size rest

-- The next chunk, and the iterator after it.
abbrev chunk_of : DmaChunks → DmaChunk
chunk_of c = record {
  phys_addr = c.dma.phys + c.current_offset;
  length = min c.chunk_size (c.dma.size - c.current_offset);
}

abbrev rest_of : DmaChunks → DmaChunks
rest_of c = record c {
  current_offset = c.current_offset + min c.chunk_size (c.dma.size - c.current_offset);
}

collect_step :
    (fuel : ℕ) (c : DmaChunks) (l : List DmaChunk)
    → c.current_offset < c.dma.size
    → collect fuel (rest_of c) ≡ done l
    → collect (suc fuel) c ≡ done (chunk_of c ∷ l)
unfolding collect next
collect_step fuel c l lt p = ground (arith, p)

collect_lem :
    (fuel : ℕ) (c : DmaChunks)
    → 0 < c.chunk_size
    → c.current_offset ≤ c.dma.size
    → c.dma.size - c.current_offset < fuel
    → (l : List DmaChunk) × (collect fuel c ≡ done l)
      × Covers c.dma.phys c.chunk_size c.current_offset c.dma.size l
unfolding collect next
collect_lem zero c pos le h = absurd (omega arith)
collect_lem (suc fuel) c pos le h = elim (dec_lt c.current_offset c.dma.size) [
  | no end' ↦ ([], ground arith, omega arith)
  | yes lt ↦
      let (l, p, k) = collect_lem fuel (rest_of c) pos (omega arith) (omega arith) in
      (chunk_of c ∷ l, collect_step fuel c l lt p, (refl, omega arith, omega arith, k))
]

-- For every buffer and every chunk size but 0 the iterator ends, and its chunks lie end to end from
-- the start of the buffer to its end, none empty and none longer than the chunk size.
pub collect-chunks :
    (dma : Dma) (bytes : ℕ)
    → 0 < bytes
    → (l : List DmaChunk) × (collect (suc dma.size) (chunks dma bytes) ≡ done l)
      × Covers dma.phys bytes 0 dma.size l
unfolding chunks
collect-chunks dma bytes pos =
    collect_lem (suc dma.size) (chunks dma bytes) pos (omega arith) (omega arith)
