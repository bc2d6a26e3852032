-- ===== src/Memory/Frame/Supply.antt =====
-- What a client may expect of the allocator: a number of frames, one after the other, each of which was
-- free before.
use good_os_framework.Base.{
  ℕ, zero, suc, ◌+◌, ◌-◌, ◌^◌, ◌≤◌, ◌<◌, ◌≡◌, ◌≢◌, refl, sym, ap, ◌∙◌, inl, inr, true, false, some,
  if◌then◌else◌, done, arith,
}
use good_os_framework.Data.Bitmap
use good_os_framework.Data.Bitmap.{BitField, Bitmap}
use good_os_framework.Data.Bitmap.Laws.{bit}
use good_os_framework.Memory.Frame.{BitmapFrameAllocator, frame_address, allocate_frame}
use good_os_framework.Memory.Frame.Single.{TookOne, IsReady, allocate_frame_lem}

module _ ⦃B : BitField⦄ where
  -- A call of `allocate_frame` hands out the frame `n`, which was free.
  pub record Given (a : BitmapFrameAllocator) (n : ℕ) (a' : BitmapFrameAllocator) : Type 0 where
    pub served : allocate_frame a ≡ done (some (frame_address n), a')
    pub small : n < 2 ^ 40
    pub was_free : bit a.bitmap n ≡ true
    pub taken : bit a'.bitmap n ≡ false
    pub others : (i : ℕ) → i ≢ n → bit a'.bitmap i ≡ bit a.bitmap i

  -- The next `k` calls hand out frames.
  unfoldable pub Supply : ℕ → BitmapFrameAllocator → Type 0
  Supply zero a = Unit
  Supply (suc k) a = (n : ℕ) × (a' : BitmapFrameAllocator) × Given a n a' × Supply k a'

  -- The number of free frames among the `n` from `i` on.
  unfoldable pub free_count : Bitmap → ℕ → ℕ → ℕ
  free_count b zero i = 0
  free_count b (suc n) i = if bit b i then suc (free_count b n (i + 1)) else free_count b n (i + 1)

  free_count-eq :
      (b b' : Bitmap) (n i : ℕ)
      → ((j : ℕ) → i ≤ j → bit b' j ≡ bit b j)
      → free_count b' n i ≡ free_count b n i
  unfolding free_count
  free_count-eq b b' zero i h = refl
  free_count-eq b b' (suc n) i h = rw (h i (omega arith)) (
      ap (λ t. if bit b i then suc t else t)
        (free_count-eq b b' n (i + 1) (λ j lo. h j (omega arith))))

  -- Frames in use at the front do not count.
  free_count-skip :
      (b : Bitmap) (k n i : ℕ)
      → ((j : ℕ) → i ≤ j → j < i + k → bit b j ≡ false)
      → free_count b (k + n) i ≡ free_count b n (i + k)
  unfolding free_count
  free_count-skip b zero n i h =
      ap (λ t. free_count b t i) {x = 0 + n} {y = n} (omega arith)
      ∙ ap (free_count b n) {x = i} {y = i + 0} (omega arith)
  free_count-skip b (suc k) n i h =
      ap (λ t. free_count b t i) {x = suc k + n} {y = suc (k + n)} (omega arith)
      ∙ rw (h i (omega arith) (omega arith)) (
          free_count-skip b k n (i + 1) (λ j lo hi. h j (omega arith) (omega arith))
          ∙ ap (free_count b n) {x = i + 1 + k} {y = i + suc k} (omega arith))

  -- The free frames that the allocator can still reach.
  abbrev pub reachable : BitmapFrameAllocator → ℕ
  reachable a = free_count a.bitmap (Bitmap.len a.bitmap - a.next_frame) a.next_frame

  reachable-took :
      (a a' : BitmapFrameAllocator)
      → TookOne a a'
      → a.next_frame < Bitmap.len a.bitmap
      → bit a.bitmap a.next_frame ≡ true
      → reachable a ≡ suc (reachable a')
  unfolding free_count
  reachable-took a a' t lt free =
      let e = a'.next_frame in
      let len = Bitmap.len a.bitmap in
      let after = a.next_frame + 1 in
      let lo : (after ≤ e) = elim t.next.stop [
        | inl q ↦ omega (arith, t.same_len)
        | inr (q, hi, f) ↦ q
      ] in
      ap (λ n. free_count a.bitmap n a.next_frame) {x = len - a.next_frame} {y = suc (len - after)}
        (omega arith)
      ∙ rw free (
          ap suc (
            sym (
              free_count-eq a.bitmap a'.bitmap (len - after) after
                (λ j q. t.others j (λ r. omega arith)))
            ∙ ap (λ n. free_count a'.bitmap n after) {x = len - after}
                {y = (e - after) + (Bitmap.len a'.bitmap - e)}
                (omega (arith, t.same_len, t.next.inside, lo))
            ∙ free_count-skip a'.bitmap (e - after) (Bitmap.len a'.bitmap - e) after
                (λ j q r. t.next.used j q (omega (arith, lo)))
            ∙ ap (free_count a'.bitmap (Bitmap.len a'.bitmap - e)) {x = after + (e - after)} {y = e}
                (omega (arith, lo))))

  reachable_none : (a : BitmapFrameAllocator) → a.next_frame ≡ Bitmap.len a.bitmap → reachable a ≡ 0
  unfolding free_count
  reachable_none a e =
      ap (λ n. free_count a.bitmap n a.next_frame) {x = Bitmap.len a.bitmap - a.next_frame} {y = 0}
        (omega arith)

  -- A ready allocator serves as many frames as it counts, as long as so many are free from `next_frame` on.
  pub Supply-IsReady :
      (k : ℕ) (a : BitmapFrameAllocator)
      → IsReady a
      → Bitmap.len a.bitmap ≤ 2 ^ 40
      → k ≤ a.usable_frames
      → k ≤ reachable a
      → Supply k a
  unfolding Supply
  Supply-IsReady zero a ready small usable reach = tt
  Supply-IsReady (suc k) a ready small usable reach = elim ready [
    | inl e ↦ absurd (omega (arith, reachable_none a e))
    | inr (lt, free) ↦
        let (a', p, t) = allocate_frame_lem a (omega arith) (omega arith) in
        (
          a.next_frame,
          a',
          record {
            served = p;
            small = omega arith;
            was_free = free;
            taken = t.cleared;
            others = t.others;
          },
          Supply-IsReady k a'
              (elim t.next.stop [ inl out ↦ inl out | inr (lo, hi, f) ↦ inr (hi, f) ])
              (omega (arith, t.same_len)) (omega (arith, t.usable))
              (omega (arith, reachable-took a a' t lt free)),
        )
  ]
