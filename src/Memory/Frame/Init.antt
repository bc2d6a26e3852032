-- ===== src/Memory/Frame/Init.antt =====
-- src/memory/frame.rs: the allocator that starts from the memory map of the boot loader.
use good_os_framework.Base.{
  ℕ, zero, suc, ◌+◌, ◌-◌, ◌*◌, ◌/◌, ◌%◌, ◌^◌, ◌≤◌, ◌<◌, ◌≡◌, ◌⊎◌, inl, inr, refl, min, Bool, true,
  false, Option, none, some, List, [], ◌∷◌, leb, ◌==◌, if◌then◌else◌, Outcome, done, ◌>>=◌, ◌>>◌,
  unwrap, assert, arith, ℕ_discrete,
}
use good_os_framework.Data.Bitmap
use good_os_framework.Data.Bitmap.{BitField, Bitmap}
use good_os_framework.Data.Bitmap.Laws.{
  bit, write, set-eq-write, len-write, bit-write_self, bit-write_ne,
}
use good_os_framework.Memory.Frame.{BitmapFrameAllocator}

-- An entry of the map; `usable` is whether its type is that of usable memory.
pub record Region : Type 0 where
  pub base : ℕ
  pub length : ℕ
  pub usable : Bool

-- The end of the last entry.
unfoldable pub memory_end : List Region → Option ℕ
memory_end [] = none
memory_end (r ∷ []) = some ((r.base + r.length) % 2 ^ 64)
memory_end (r ∷ r' ∷ rest) = memory_end (r' ∷ rest)

-- The base of the first usable entry of at least `size` bytes.
unfoldable pub find_room : List Region → ℕ → Option ℕ
find_room [] size = none
find_room (r ∷ rest) size =
    if (if r.usable then leb size r.length else false) then some r.base else find_room rest size

abbrev pub frame_start : Region → ℕ
frame_start r = r.base / 4096

abbrev pub frame_count : Region → ℕ
frame_count r = r.length / 4096

module _ ⦃B : BitField⦄ where
  -- for i in start..start + n: set i to v.
  unfoldable pub fill : Bool → ℕ → Bitmap → ℕ → Outcome Bitmap
  fill v zero b start = done b
  fill v (suc n) b start = Bitmap.set b start v >>= λ b'. fill v n b' (start + 1)

  -- The loop over the usable entries: the bitmap, the number of frames and the lowest of them.
  unfoldable pub add_regions : List Region → Bitmap → ℕ → ℕ → Outcome (Bitmap × ℕ × ℕ)
  add_regions [] b usable_frames next_frame = done (b, usable_frames, next_frame)
  add_regions (r ∷ rest) b usable_frames next_frame =
      if r.usable
      then (fill true (frame_count r) b (frame_start r) >>= λ b'.
          add_regions rest b' (usable_frames + frame_count r) (min next_frame (frame_start r)))
      else add_regions rest b usable_frames next_frame

  -- `buffer` is what the memory of the bitmap holds before.
  unfoldable pub init : List Region → (ℕ → List ℕ) → Outcome BitmapFrameAllocator
  init regions buffer = do
    memory_size ← unwrap (memory_end regions)
    let bitmap_size = (memory_size / 4096 + 7) / 8
    bitmap_address ← unwrap (find_room regions bitmap_size)
    (b, usable_frames, lowest) ←
        add_regions regions (Bitmap.new (buffer bitmap_size)) 0 (2 ^ 64 - 1)
    let bitmap_frame_start = bitmap_address / 4096
    let bitmap_frame_count = (bitmap_size + 4095) / 4096
    let bitmap_frame_end = bitmap_frame_start + bitmap_frame_count
    assert (leb lowest bitmap_frame_start)
    b' ← fill false bitmap_frame_count b bitmap_frame_start
    done (record {
      bitmap = b';
      usable_frames = (usable_frames + 2 ^ 64 - bitmap_frame_count) % 2 ^ 64;
      next_frame = if lowest == bitmap_frame_start then bitmap_frame_end + 1 else lowest;
    })

  -- `b'` is `b` with the bits from `start` to `start + n` set to `v`.
  pub record Filled (v : Bool) (b : Bitmap) (start n : ℕ) (b' : Bitmap) : Type 0 where
    pub same_len : Bitmap.len b' ≡ Bitmap.len b
    pub inside : (i : ℕ) → start ≤ i → i < start + n → bit b' i ≡ v
    pub others : (i : ℕ) → (i < start) ⊎ (start + n ≤ i) → bit b' i ≡ bit b i

  Filled-more :
      (v : Bool) (b b' : Bitmap) (start n : ℕ)
      → start / 8 < Bitmap.len b
      → Filled v (write b start v) (start + 1) n b'
      → Filled v b start (suc n) b'
  Filled-more v b b' start n h m = record {
    same_len = omega (arith, m.same_len, len-write b start v);
    inside = λ i lo hi. elim (ℕ_discrete start i) [
      | yes e ↦ rw (← e, m.others start (inl (omega arith))) (bit-write_self b start v h)
      | no ne ↦ m.inside i (omega arith) (omega arith)
    ];
    others = λ i o. rw (m.others i (beyond i o)) (bit-write_ne b start i v h (λ e. apart i e o));
  }
    where
      beyond : (i : ℕ) → (i < start) ⊎ (start + suc n ≤ i) → (i < start + 1) ⊎ (start + 1 + n ≤ i)
      beyond i (inl p) = inl (omega arith)
      beyond i (inr p) = inr (omega arith)

      apart : (i : ℕ) → start ≡ i → (i < start) ⊎ (start + suc n ≤ i) → ⊥
      apart i e (inl p) = omega arith
      apart i e (inr p) = omega arith

  -- A run of bits that the bitmap holds is filled.
  pub fill_lem :
      (v : Bool) (n : ℕ) (b : Bitmap) (start : ℕ)
      → start + n ≤ 8 * Bitmap.len b
      → (b' : Bitmap) × (fill v n b start ≡ done b') × Filled v b start n b'
  unfolding fill
  fill_lem v zero b start h = (
    b,
    refl,
    record { same_len = refl; inside = λ i lo hi. absurd (omega arith); others = λ i o. refl },
  )
  fill_lem v (suc n) b start h =
      let (b', p, m) =
        fill_lem v n (write b start v) (start + 1) (omega (arith, len-write b start v)) in
      (b', rw (set-eq-write b start v (omega arith)) p, Filled-more v b b' start n (omega arith) m)
