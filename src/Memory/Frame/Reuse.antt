-- ===== src/Memory/Frame/Reuse.antt =====
-- Sequences of calls on the frame allocator.
use good_os_framework.Base.{
  ℕ, ◌+◌, ◌^◌, ◌≤◌, ◌<◌, ◌≡◌, ap, sym, subst, ◌∙◌, inl, inr, false, some, ==_refl, done, arith,
  ℕ_discrete,
}
use good_os_framework.Data.Bitmap
use good_os_framework.Data.Bitmap.{BitField}
use good_os_framework.Data.Bitmap.Laws.{bit}
use good_os_framework.Memory.Frame.{
  BitmapFrameAllocator, frame_address, allocate_frame, allocate_frames, deallocate_frame,
}
use good_os_framework.Memory.Frame.Loops.{Free}
use good_os_framework.Memory.Frame.Allocate.{Allocated, allocate_frames_lem}
use good_os_framework.Memory.Frame.Single.{IsReady, allocate_frame_lem, deallocate_frame_lem}

module _ ⦃B : BitField⦄ where
  -- A frame that is allocated and given back is free again and every other frame is as it was, but
  -- the count of usable frames stays one lower.
  pub allocate_frame-deallocate_frame :
      (a : BitmapFrameAllocator)
      → IsReady a
      → 0 < a.usable_frames
      → a.next_frame < Bitmap.len a.bitmap
      → a.next_frame < 2 ^ 52
      → (a' : BitmapFrameAllocator) × (a'' : BitmapFrameAllocator) × (allocate_frame a
          ≡ done (some (frame_address a.next_frame), a'))
        × (deallocate_frame a' (frame_address a.next_frame) ≡ done a'')
        × ((i : ℕ) → bit a''.bitmap i ≡ bit a.bitmap i)
        × (a''.usable_frames + 1 ≡ a.usable_frames)
  allocate_frame-deallocate_frame a (inl out) pos lt small = absurd (omega arith)
  allocate_frame-deallocate_frame a (inr (_, free)) pos lt small =
      let (a', p, t) = allocate_frame_lem a pos (omega arith) in
      let (a'', q, set, others, usable, next) =
        deallocate_frame_lem a' a.next_frame small (omega (arith, t.same_len)) in
      (
        a',
        a'',
        p,
        q,
        (λ i. elim (ℕ_discrete i a.next_frame) [
          | yes e ↦ subst (λ j. bit a''.bitmap j ≡ bit a.bitmap j) (sym e) (set ∙ sym free)
          | no ne ↦ others i ne ∙ t.others i ne
        ]),
        omega (arith, usable, t.usable),
      )

  -- A run that starts at `next_frame` is the run that `allocate_frames` takes.
  pub takes_next_run :
      (a : BitmapFrameAllocator) (cnt : ℕ)
      → 0 < cnt
      → cnt ≤ a.usable_frames
      → a.next_frame + cnt ≤ Bitmap.len a.bitmap
      → Free a.bitmap a.next_frame (a.next_frame + cnt)
      → (a' : BitmapFrameAllocator) × (allocate_frames a cnt
          ≡ done (some (frame_address a.next_frame), a'))
        × Allocated a cnt a.next_frame a'
  takes_next_run a cnt pos enough fits free = elim (allocate_frames_lem a cnt) [
    | inl (s, a', p, f) ↦ at_next s a' p f (ℕ_discrete a.next_frame s)
    | inr (p, inl few) ↦ absurd (omega arith)
    | inr (p, inr stuck) ↦ absurd (stuck pos a.next_frame (omega arith) (omega arith) fits free)
  ]
    where
      at_next :
          (s : ℕ) (a' : BitmapFrameAllocator)
          → allocate_frames a cnt ≡ done (some (frame_address s), a')
          → Allocated a cnt s a'
          → Dec (a.next_frame ≡ s)
          → (a' : BitmapFrameAllocator) × (allocate_frames a cnt
              ≡ done (some (frame_address a.next_frame), a'))
            × Allocated a cnt a.next_frame a'
      at_next s a' p f (yes e) = (
        a',
        p ∙ ap (λ n. done (some (frame_address n), a')) (sym e),
        subst (λ n. Allocated a cnt n a') (sym e) f,
      )
      at_next s a' p f (no ne) =
          absurd (f.first a.next_frame (omega arith) (omega (arith, f.ahead)) fits free)

  -- When `allocate_frames` takes the whole run of free frames at `next_frame` the frame behind it is
  -- in use and lies inside the bitmap, and more frames are counted as usable than the run has, the next call of `allocate_frame` hands out that frame, which is still in use.
  pub allocate_frame_in_use :
      (a : BitmapFrameAllocator) (cnt : ℕ)
      → 0 < cnt
      → cnt < a.usable_frames
      → a.next_frame + cnt < Bitmap.len a.bitmap
      → Free a.bitmap a.next_frame (a.next_frame + cnt)
      → bit a.bitmap (a.next_frame + cnt) ≡ false
      → (a' : BitmapFrameAllocator) × (a'' : BitmapFrameAllocator) × (allocate_frames a cnt
          ≡ done (some (frame_address a.next_frame), a'))
        × (bit a'.bitmap (a.next_frame + cnt) ≡ false)
        × (allocate_frame a' ≡ done (some (frame_address (a.next_frame + cnt)), a''))
  allocate_frame_in_use a cnt pos enough fits free used =
      let (a', p, f) = takes_next_run a cnt pos (omega arith) (omega arith) free in
      let next : a'.next_frame ≡ a.next_frame + cnt = rw (==_refl a.next_frame) at f.next in
      let (a'', q, t) =
        allocate_frame_lem a' (omega (arith, f.usable)) (omega (arith, next, f.marked.same_len)) in
      (
        a',
        a'',
        p,
        f.marked.others _ (inr (omega arith)) ∙ used,
        q ∙ ap (λ n. done (some (frame_address n), a'')) next,
      )
