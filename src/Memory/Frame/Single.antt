-- ===== src/Memory/Frame/Single.antt =====
-- `allocate_frame` and `deallocate_frame`: one frame at a time, and how they meet `allocate_frames`.
use good_os_framework.Base.{
  ℕ, ◌+◌, ◌-◌, ◌/◌, ◌^◌, ◌≤◌, ◌<◌, ◌≡◌, ◌≢◌, refl, sym, ◌⊎◌, inl, inr, true, false, none, some,
  ==_ne, done, panics, arith,
}
use good_os_framework.Data.Bitmap
use good_os_framework.Data.Bitmap.{BitField, Bitmap}
use good_os_framework.Data.Bitmap.Laws.{
  bit, write, set-eq-write, set_out, len-write, bit-write_self, bit-write_ne,
}
use good_os_framework.Memory.Frame.{
  BitmapFrameAllocator, frame_address, allocate_frame, deallocate_frame,
}
use good_os_framework.Memory.Frame.Loops.{FirstFree, find_free_lem}

module _ ⦃B : BitField⦄ where
  -- What a call of `allocate_frame` that hands out a frame has done.
  pub record TookOne (a a' : BitmapFrameAllocator) : Type 0 where
    pub same_len : Bitmap.len a'.bitmap ≡ Bitmap.len a.bitmap
    pub cleared : bit a'.bitmap a.next_frame ≡ false
    pub others : (i : ℕ) → i ≢ a.next_frame → bit a'.bitmap i ≡ bit a.bitmap i
    pub usable : a'.usable_frames + 1 ≡ a.usable_frames
    pub next : FirstFree a'.bitmap (a.next_frame + 1) a'.next_frame

  took_one :
      (a : BitmapFrameAllocator) (e : ℕ)
      → 0 < a.usable_frames
      → a.next_frame / 8 < Bitmap.len a.bitmap
      → FirstFree (write a.bitmap a.next_frame false) (a.next_frame + 1) e
      → TookOne a (record {
        bitmap = write a.bitmap a.next_frame false;
        usable_frames = a.usable_frames - 1;
        next_frame = e;
      })
  took_one a e pos h f = record {
    same_len = len-write a.bitmap a.next_frame false;
    cleared = bit-write_self a.bitmap a.next_frame false h;
    others = λ i ne. bit-write_ne a.bitmap a.next_frame i false h (λ p. ne (sym p));
    usable = omega arith;
    next = f;
  }

  -- With a usable frame and `next_frame` inside the bitmap, `allocate_frame` returns the address of
  -- the frame `next_frame`, clears its bit alone, counts it off, and moves `next_frame` to the next
  -- set bit below the length of the bitmap, or to that length.
  pub allocate_frame_lem :
      (a : BitmapFrameAllocator)
      → 0 < a.usable_frames
      → a.next_frame / 8 < Bitmap.len a.bitmap
      → (a' : BitmapFrameAllocator) × (allocate_frame a
          ≡ done (some (frame_address a.next_frame), a'))
        × TookOne a a'
  unfolding allocate_frame
  allocate_frame_lem a pos h =
      let b = write a.bitmap a.next_frame false in
      let (e, p, f) = find_free_lem (Bitmap.len b - (a.next_frame + 1)) b (a.next_frame + 1) refl in
      (
        record { bitmap = b; usable_frames = a.usable_frames - 1; next_frame = e },
        rw (==_ne a.usable_frames 0 (omega arith), set-eq-write a.bitmap a.next_frame false h, p),
        took_one a e pos h f,
      )

  -- With no usable frame it returns `None` and changes nothing; otherwise a `next_frame` past the
  -- last byte makes it panic.
  pub allocate_frame_fails :
      (a : BitmapFrameAllocator)
      → (a.usable_frames ≡ 0 → allocate_frame a ≡ done (none, a))
        × (0 < a.usable_frames → Bitmap.len a.bitmap ≤ a.next_frame / 8 → allocate_frame a ≡ panics)
  unfolding allocate_frame
  allocate_frame_fails a = (
    (λ e. ground arith),
    (λ pos out.
        rw (==_ne a.usable_frames 0 (omega arith), set_out a.bitmap a.next_frame false out)),
  )

  -- `next_frame` is free, or lies past the end of the bitmap.
  abbrev pub IsReady : BitmapFrameAllocator → Type 0
  IsReady a =
      (a.next_frame ≡ Bitmap.len a.bitmap)
      ⊎ ((a.next_frame < Bitmap.len a.bitmap) × (bit a.bitmap a.next_frame ≡ true))

  -- From a ready state inside the bitmap, whose count of usable frames is not 0, `allocate_frame` hands out
  -- a frame that was free, marks it as in use, and leaves the allocator ready.
  pub allocate_frame-IsReady :
      (a : BitmapFrameAllocator)
      → IsReady a
      → 0 < a.usable_frames
      → a.next_frame < Bitmap.len a.bitmap
      → (a' : BitmapFrameAllocator) × (allocate_frame a
          ≡ done (some (frame_address a.next_frame), a'))
        × (bit a.bitmap a.next_frame ≡ true)
        × (bit a'.bitmap a.next_frame ≡ false)
        × IsReady a'
  allocate_frame-IsReady a ready pos lt =
      let (a', p, t) = allocate_frame_lem a pos (omega arith) in
      (
        a',
        p,
        was_free ready,
        t.cleared,
        elim t.next.stop [ inl out ↦ inl out | inr (lo, hi, free) ↦ inr (hi, free) ],
      )
    where
      was_free : IsReady a → bit a.bitmap a.next_frame ≡ true
      was_free (inl e) = absurd (omega arith)
      was_free (inr (q, free)) = free

  -- The address of a frame below 2 ^ 52 names that frame again.
  frame_address-div : (n : ℕ) → n < 2 ^ 52 → frame_address n / 4096 ≡ n
  frame_address-div n h = omega arith

  -- `deallocate_frame`, at the address of a frame that the bitmap holds, sets the bit of that frame
  -- alone; the count of usable frames and `next_frame` stay.
  pub deallocate_frame_lem :
      (a : BitmapFrameAllocator) (n : ℕ)
      → n < 2 ^ 52
      → n / 8 < Bitmap.len a.bitmap
      → (a' : BitmapFrameAllocator) × (deallocate_frame a (frame_address n) ≡ done a')
        × (bit a'.bitmap n ≡ true)
        × ((i : ℕ) → i ≢ n → bit a'.bitmap i ≡ bit a.bitmap i)
        × (a'.usable_frames ≡ a.usable_frames)
        × (a'.next_frame ≡ a.next_frame)
  unfolding deallocate_frame
  deallocate_frame_lem a n small h = (
    record a { bitmap = write a.bitmap n true },
    rw (frame_address-div n small, set-eq-write a.bitmap n true h),
    bit-write_self a.bitmap n true h,
    (λ i ne. bit-write_ne a.bitmap n i true h (λ p. ne (sym p))),
    refl,
    refl,
  )
