-- ===== src/Memory/Frame/Search.antt =====
-- The outer loop of `allocate_frames`: the first run of free frames, or none.
use good_os_framework.Base.{
  ℕ, zero, suc, ◌+◌, ◌-◌, ◌≤◌, ◌<◌, ◌≡◌, refl, ◌⊎◌, inl, inr, true, false, Option, none, some,
  leb-true, leb-false, Outcome, done, arith, dec_lt, ℕ_discrete,
}
use good_os_framework.Data.Bitmap
use good_os_framework.Data.Bitmap.{BitField, Bitmap}
use good_os_framework.Data.Bitmap.Laws.{bit}
use good_os_framework.Memory.Frame.{search_run}
use good_os_framework.Memory.Frame.Loops.{
  Segment, Free, RunFound, RunEnded, Skipped, count_run_lem, skip_used_lem,
}

module _ ⦃B : BitField⦄ where
  -- No run of `cnt` free frames starts from `s` on and before `e`.
  abbrev pub NoRun : Bitmap → ℕ → ℕ → ℕ → Type 0
  NoRun b cnt s e = (i : ℕ) → s ≤ i → i < e → i + cnt ≤ Bitmap.len b → Free b i (i + cnt) → ⊥

  pub NoRun-append :
      (b : Bitmap) (cnt s m e : ℕ) → NoRun b cnt s m → NoRun b cnt m e → NoRun b cnt s e
  NoRun-append b cnt s m e f g i lo hi fits free = elim (dec_lt i m) [
    | yes p ↦ f i lo p fits free
    | no p ↦ g i (omega arith) hi fits free
  ]

  NoRun-used : (b : Bitmap) (cnt s e : ℕ) → 0 < cnt → Segment b false s e → NoRun b cnt s e
  NoRun-used b cnt s e pos used i lo hi fits free =
      let t : bit b i ≡ true = free i (omega arith) (omega arith) in cc (used i lo hi)

  pub NoRun-ended : (b : Bitmap) (cnt s e : ℕ) → 0 < cnt → RunEnded b cnt s 0 e → NoRun b cnt s e
  NoRun-ended b cnt s e pos r i lo hi fits free = elim r.stop [
    | inl out ↦ omega (arith, r.short pos)
    | inr used ↦ let t : bit b e ≡ true = free e (omega arith) (omega (arith, r.short pos)) in cc
  ]

  pub record SearchFound (b : Bitmap) (cnt next e : ℕ) : Type 0 where
    pub pos : 0 < cnt
    pub reach : next + cnt ≤ e
    pub inside : e ≤ Bitmap.len b
    pub free : Free b (e - cnt) e
    pub first : 0 < cnt → NoRun b cnt next (e - cnt)

  abbrev Searches : Bitmap → ℕ → ℕ → Outcome (Option ℕ) → Type 0
  Searches b cnt next r =
      ((e : ℕ) × (r ≡ done (some e)) × SearchFound b cnt next e)
      ⊎ ((r ≡ done none) × (0 < cnt → NoRun b cnt next (Bitmap.len b)))

  search_here :
      (b : Bitmap) (cnt next start e : ℕ)
      → Skipped b next start
      → RunFound b cnt start 0 e
      → SearchFound b cnt next e
  search_here b cnt next start e k f =
      let at_start : e - cnt ≡ start = omega (arith, f.count) in
      record {
        pos = omega (arith, f.count, f.ahead);
        reach = omega (arith, k.reach, f.count);
        inside = f.inside;
        free = rw at_start f.free;
        first = λ pos. rw at_start (NoRun-used b cnt next start pos k.used);
      }

  search_later :
      (b : Bitmap) (cnt next start m : ℕ) (r : Outcome (Option ℕ))
      → next ≤ Bitmap.len b
      → Skipped b next start
      → RunEnded b cnt start 0 m
      → Searches b cnt m r
      → Searches b cnt next r
  search_later b cnt next start m r lt k f (inl (e, p, g)) = inl (
    e,
    p,
    record {
      pos = g.pos;
      reach = omega (arith, k.reach, f.reach, g.reach);
      inside = g.inside;
      free = g.free;
      first = λ pos.
          NoRun-append b cnt next start (e - cnt) (NoRun-used b cnt next start pos k.used)
            (NoRun-append b cnt start m (e - cnt) (NoRun-ended b cnt start m pos f) (g.first pos));
    },
  )
  search_later b cnt next start m r lt k f (inr (p, g)) = inr (
    p,
    λ pos.
        NoRun-append b cnt next start (Bitmap.len b) (NoRun-used b cnt next start pos k.used)
          (NoRun-append b cnt start m (Bitmap.len b) (NoRun-ended b cnt start m pos f) (g pos)),
  )

  -- The outer loop moves on in every round.
  search_moves :
      (b : Bitmap) (cnt next start m : ℕ)
      → next < Bitmap.len b
      → Skipped b next start
      → RunEnded b cnt start 0 m
      → Bitmap.len b - m < Bitmap.len b - next
  search_moves b cnt next start m lt k f = elim (ℕ_discrete m next) [
    | no ne ↦ omega (arith, k.reach, f.reach)
    | yes e ↦
        let at_start : m ≡ start = omega (arith, k.reach, f.reach) in
        absurd (elim k.stop [
          | inl out ↦ omega (arith, k.reach, f.reach)
          | inr free ↦ elim f.stop [ inl out ↦ omega arith | inr used ↦ cc (at_start) ]
        ])
  ]

  -- The search ends without a panic, at the first run of `cnt` free frames if there is one.
  pub search_run_lem :
      (fuel : ℕ) (b : Bitmap) (cnt next : ℕ)
      → Bitmap.len b - next < fuel
      → Searches b cnt next (search_run fuel b cnt next)
  unfolding search_run
  search_run_lem zero b cnt next h = absurd (omega arith)
  search_run_lem (suc fuel) b cnt next h = elim (dec_lt next (Bitmap.len b)) [
    | no out ↦
        rw (leb-true (Bitmap.len b) next (omega arith))
          (inr (refl, λ pos i lo hi. absurd (omega arith)))
    | yes lt ↦
        let (start, p, k) = skip_used_lem (suc (Bitmap.len b - next)) b next (omega arith) in
        rw (leb-false (Bitmap.len b) next lt, p)
          (elim (count_run_lem (suc (Bitmap.len b - start)) b cnt start 0 (omega arith)) [
            | inl (e, q, f) ↦ rw q (inl (e, refl, search_here b cnt next start e k f))
            | inr (m, q, f) ↦ rw q (
                search_later b cnt next start m _ (omega arith) k f (
                  search_run_lem fuel b cnt m
                    (omega (arith, search_moves b cnt next start m lt k f))))
          ])
  ]
