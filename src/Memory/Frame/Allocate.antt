-- ===== src/Memory/Frame/Allocate.antt =====
-- `allocate_frames`: which run it hands out, and what it changes.
use good_os_framework.Base.{
  ℕ, zero, suc, ◌+◌, ◌-◌, ◌≤◌, ◌<◌, ◌≡◌, ◌≢◌, refl, ap, ◌⊎◌, inl, inr, true, false, Option, none,
  some, ltb-false, lt→ltb, Outcome, done, arith, dec_lt, ℕ_discrete, ◌==◌, ==_refl, ==_ne,
  if◌then◌else◌,
}
use good_os_framework.Data.Bitmap
use good_os_framework.Data.Bitmap.{BitField, Bitmap}
use good_os_framework.Data.Bitmap.Laws.{
  bit, write, set-eq-write, len-write, bit-write_self, bit-write_ne,
}
use good_os_framework.Memory.Frame.{
  BitmapFrameAllocator, frame_address, mark_used, take_run, allocate_frames,
}
use good_os_framework.Memory.Frame.Loops.{Segment, Free, RunFound, RunEnded, count_run_lem}
use good_os_framework.Memory.Frame.Search.{
  NoRun, NoRun-ended, NoRun-append, SearchFound, search_run_lem,
}

module _ ⦃B : BitField⦄ where
  -- `b'` is `b` with the bits from `start` to `start + n` cleared.
  pub record Marked (b : Bitmap) (start n : ℕ) (b' : Bitmap) : Type 0 where
    pub same_len : Bitmap.len b' ≡ Bitmap.len b
    pub cleared : Segment b' false start (start + n)
    pub others : (i : ℕ) → (i < start) ⊎ (start + n ≤ i) → bit b' i ≡ bit b i

  Marked-more :
      (b b' : Bitmap) (start n : ℕ)
      → start < Bitmap.len b
      → Marked (write b start false) (start + 1) n b'
      → Marked b start (suc n) b'
  Marked-more b b' start n h m = record {
    same_len = omega (arith, m.same_len, len-write b start false);
    cleared = λ i lo hi. elim (ℕ_discrete start i) [
      | yes e ↦
          rw (← e, m.others start (inl (omega arith))) (bit-write_self b start false (omega arith))
      | no ne ↦ m.cleared i (omega arith) (omega arith)
    ];
    others = λ i o.
        rw (m.others i (outside i o))
          (bit-write_ne b start i false (omega arith) (λ e. differs i e o));
  }
    where
      outside : (i : ℕ) → (i < start) ⊎ (start + suc n ≤ i) → (i < start + 1) ⊎ (start + 1 + n ≤ i)
      outside i (inl p) = inl (omega arith)
      outside i (inr p) = inr (omega arith)

      differs : (i : ℕ) → start ≡ i → (i < start) ⊎ (start + suc n ≤ i) → ⊥
      differs i e (inl p) = omega arith
      differs i e (inr p) = omega arith

  pub mark_used_lem :
      (n : ℕ) (b : Bitmap) (start : ℕ)
      → start + n ≤ Bitmap.len b
      → (b' : Bitmap) × (mark_used n b start ≡ done b') × Marked b start n b'
  unfolding mark_used
  mark_used_lem zero b start h = (
    b,
    refl,
    record { same_len = refl; cleared = λ i lo hi. absurd (omega arith); others = λ i o. refl },
  )
  mark_used_lem (suc n) b start h =
      let (b', p, m) =
        mark_used_lem n (write b start false) (start + 1)
          (omega (arith, len-write b start false)) in
      (
        b',
        rw (set-eq-write b start false (omega arith)) p,
        Marked-more b b' start n (omega arith) m,
      )

  -- What a successful call has done: the run starts at `s`.
  pub record Allocated (a : BitmapFrameAllocator) (cnt s : ℕ) (a' : BitmapFrameAllocator)
      : Type 0 where
    pub pos : 0 < cnt
    pub ahead : a.next_frame ≤ s
    pub inside : s + cnt ≤ Bitmap.len a.bitmap
    pub free : Free a.bitmap s (s + cnt)
    pub first : NoRun a.bitmap cnt a.next_frame s
    pub marked : Marked a.bitmap s cnt a'.bitmap
    pub usable : a'.usable_frames + cnt ≡ a.usable_frames
    pub next : a'.next_frame ≡ (if s == a.next_frame then s + cnt else a.next_frame)

  abbrev Takes : BitmapFrameAllocator → ℕ → BitmapFrameAllocator → ℕ → Type 0
  Takes a cnt taken e =
      (s : ℕ) × (a' : BitmapFrameAllocator) × (take_run taken cnt e
        ≡ done (some (frame_address s), a'))
      × Allocated a cnt s a'

  take_run-eq :
      (t : BitmapFrameAllocator) (cnt e s : ℕ) (b : Bitmap)
      → e - cnt ≡ s
      → mark_used cnt t.bitmap s ≡ done b
      → take_run t cnt e ≡ done (some (frame_address s), record t { bitmap = b })
  unfolding take_run
  take_run-eq t cnt e s b p q = rw (p, q)

  found_here :
      (a : BitmapFrameAllocator) (cnt e : ℕ)
      → RunFound a.bitmap cnt a.next_frame 0 e
      → cnt ≤ a.usable_frames
      → Takes a cnt (record a { usable_frames = a.usable_frames - cnt; next_frame = e }) e
  found_here a cnt e f enough =
      let here : e - cnt ≡ a.next_frame = omega (arith, f.count) in
      let (b, p, m) = mark_used_lem cnt a.bitmap a.next_frame (omega (arith, f.count, f.inside)) in
      (
        a.next_frame,
        record { bitmap = b; usable_frames = a.usable_frames - cnt; next_frame = e },
        take_run-eq _ cnt e a.next_frame b here p,
        record {
          pos = omega (arith, f.count, f.ahead);
          ahead = omega arith;
          inside = omega (arith, f.count, f.inside);
          free = λ i lo hi. f.free i lo (omega (arith, f.count));
          first = λ i lo hi. absurd (omega arith);
          marked = m;
          usable = omega arith;
          next = rw (==_refl a.next_frame) (omega (arith, f.count));
        },
      )

  -- A run found by the search does not start at `next_frame`: the first loop stopped short of one.
  later-ne-next :
      (a : BitmapFrameAllocator) (cnt e m : ℕ)
      → RunEnded a.bitmap cnt a.next_frame 0 e
      → SearchFound a.bitmap cnt e m
      → m - cnt ≢ a.next_frame
  later-ne-next a cnt e m f g same =
      let at_end : e ≡ a.next_frame = omega (arith, f.reach, g.reach) in
      elim f.stop [
        | inl out ↦ omega (arith, g.pos, g.inside, g.reach)
        | inr used ↦
            let free : bit a.bitmap e ≡ true =
              g.free e (omega arith) (omega (arith, g.pos, g.reach)) in
            cc
      ]

  found_later :
      (a : BitmapFrameAllocator) (cnt e m : ℕ)
      → RunEnded a.bitmap cnt a.next_frame 0 e
      → SearchFound a.bitmap cnt e m
      → cnt ≤ a.usable_frames
      → Takes a cnt (record a { usable_frames = a.usable_frames - cnt }) m
  found_later a cnt e m f g enough =
      let run_end : m - cnt + cnt ≡ m = omega (arith, g.reach) in
      let (b, p, k) = mark_used_lem cnt a.bitmap (m - cnt) (omega (arith, g.inside)) in
      (
        m - cnt,
        record { bitmap = b; usable_frames = a.usable_frames - cnt; next_frame = a.next_frame },
        take_run-eq _ cnt m (m - cnt) b refl p,
        record {
          pos = g.pos;
          ahead = omega (arith, f.reach, g.reach);
          inside = omega (arith, g.inside);
          free = rw run_end g.free;
          first =
              NoRun-append a.bitmap cnt a.next_frame e (m - cnt)
                (NoRun-ended a.bitmap cnt a.next_frame e g.pos f) (g.first g.pos);
          marked = k;
          usable = omega arith;
          next = rw (==_ne (m - cnt) a.next_frame (later-ne-next a cnt e m f g));
        },
      )

  restored :
      (a : BitmapFrameAllocator) (cnt : ℕ)
      → cnt ≤ a.usable_frames
      → ◌≡◌ {A = Outcome (Option ℕ × BitmapFrameAllocator)}
          (done (none, record a { usable_frames = a.usable_frames - cnt + cnt }))
          (done (none, a))
  restored a cnt h = ap (λ n. done (none, record a { usable_frames = n })) (omega arith)

  abbrev pub Refused : BitmapFrameAllocator → ℕ → Type 0
  Refused a cnt =
      (a.usable_frames < cnt) ⊎ (0 < cnt → NoRun a.bitmap cnt a.next_frame (Bitmap.len a.bitmap))

  -- The two ways in which a call can end.
  abbrev pub Answers : BitmapFrameAllocator → ℕ → Outcome (Option ℕ × BitmapFrameAllocator) → Type 0
  Answers a cnt r =
      ((s : ℕ) × (a' : BitmapFrameAllocator) × (r ≡ done (some (frame_address s), a'))
        × Allocated a cnt s a')
      ⊎ ((r ≡ done (none, a)) × Refused a cnt)

  -- `allocate_frames` always returns. Either it hands out the address of the first run of `cnt` free
  -- frames at or after `next_frame` and below the length of the bitmap, clears exactly those bits and
  -- counts them off, moving `next_frame` only where the run starts there; or it returns `None` and
  -- changes nothing, because fewer frames are usable or no such run exists.
  pub allocate_frames_lem :
      (a : BitmapFrameAllocator) (cnt : ℕ) → Answers a cnt (allocate_frames a cnt)
  unfolding allocate_frames
  allocate_frames_lem a cnt = elim (dec_lt a.usable_frames cnt) [
    | yes few ↦ inr (rw (lt→ltb a.usable_frames cnt few), inl few)
    | no enough ↦
        rw (ltb-false a.usable_frames cnt (omega arith))
          (elim (count_run_lem (suc (Bitmap.len a.bitmap - a.next_frame)) a.bitmap cnt a.next_frame
            0 (omega arith)) [
              | inl (e, p, f) ↦ rw p (inl (found_here a cnt e f (omega arith)))
              | inr (e, p, f) ↦
                  rw p
                    (elim (search_run_lem (suc (Bitmap.len a.bitmap - e)) a.bitmap cnt e
                      (omega arith)) [
                        | inl (m, q, g) ↦ rw q (inl (found_later a cnt e m f g (omega arith)))
                        | inr (q, g) ↦ rw q (
                            inr (
                              restored a cnt (omega arith),
                              inr (λ pos.
                                  NoRun-append a.bitmap cnt a.next_frame e (Bitmap.len a.bitmap)
                                    (NoRun-ended a.bitmap cnt a.next_frame e pos f) (g pos)),
                            ))
                      ])
            ])
  ]
