-- ===== src/Memory/Frame/Loops.antt =====
-- What the loops of frame.rs find: each ends within the fuel that it is given.
use good_os_framework.Base.{
  ℕ, zero, suc, ◌+◌, ◌-◌, ◌≤◌, ◌<◌, ◌≡◌, refl, ◌≢◌, subst, ◌⊎◌, inl, inr, Bool, true, false,
  ltb-false, lt→ltb, ==_ne, ==_refl, ◌==◌, if◌then◌else◌, Outcome, done, arith, Bool-cases, dec_lt,
  ℕ_discrete,
}
use good_os_framework.Data.Bitmap
use good_os_framework.Data.Bitmap.{BitField, Bitmap}
use good_os_framework.Data.Bitmap.Laws.{bit, get-eq-bit}
use good_os_framework.Memory.Frame.{count_run, skip_used, find_free}

module _ ⦃B : BitField⦄ where
  -- Every bit from `s` up to `e`, `e` left out, has one value.
  abbrev pub Segment : Bitmap → Bool → ℕ → ℕ → Type 0
  Segment b v s e = (i : ℕ) → s ≤ i → i < e → bit b i ≡ v

  abbrev pub Free : Bitmap → ℕ → ℕ → Type 0
  Free b = Segment b true

  -- What `count_run` has established when it stops at `e`, with and without a full count.
  pub record RunFound (b : Bitmap) (cnt next k e : ℕ) : Type 0 where
    pub count : e + k ≡ next + cnt
    pub ahead : next < e
    pub inside : e ≤ Bitmap.len b
    pub free : Free b next e

  pub record RunEnded (b : Bitmap) (cnt next k e : ℕ) : Type 0 where
    pub reach : next ≤ e
    pub inside : next ≤ Bitmap.len b → e ≤ Bitmap.len b
    pub short : k < cnt → e + k < next + cnt
    pub free : Free b next e
    pub stop : (Bitmap.len b ≤ e) ⊎ (bit b e ≡ false)

  Segment-extend :
      (b : Bitmap) (v : Bool) (s e : ℕ) → bit b s ≡ v → Segment b v (s + 1) e → Segment b v s e
  Segment-extend b v s e h rest i lo hi = elim (ℕ_discrete s i) [
    | yes p ↦ subst (λ j. bit b j ≡ v) p h
    | no n ↦ rest i (omega arith) hi
  ]

  abbrev Counts : Bitmap → ℕ → ℕ → ℕ → Outcome (ℕ × Bool) → Type 0
  Counts b cnt next k r =
      ((e : ℕ) × (r ≡ done (e, true)) × RunFound b cnt next k e)
      ⊎ ((e : ℕ) × (r ≡ done (e, false)) × RunEnded b cnt next k e)

  count_step :
      (b : Bitmap) (cnt next k : ℕ) (r : Outcome (ℕ × Bool))
      → next < Bitmap.len b
      → bit b next ≡ true
      → k + 1 ≢ cnt
      → Counts b cnt (next + 1) (k + 1) r
      → Counts b cnt next k r
  count_step b cnt next k r lt free ne (inl (e, p, f)) = inl (
    e,
    p,
    record {
      count = omega (arith, f.count);
      ahead = omega (arith, f.ahead);
      inside = f.inside;
      free = Segment-extend b true next e free f.free;
    },
  )
  count_step b cnt next k r lt free ne (inr (e, p, f)) = inr (
    e,
    p,
    record {
      reach = omega (arith, f.reach);
      inside = λ q. f.inside (omega arith);
      short = λ q. omega (arith, f.short (omega arith));
      free = Segment-extend b true next e free f.free;
      stop = f.stop;
    },
  )

  count_free :
      (b : Bitmap) (cnt next k : ℕ) (r : Outcome (ℕ × Bool))
      → next < Bitmap.len b
      → bit b next ≡ true
      → Counts b cnt (next + 1) (k + 1) r
      → Counts b cnt next k (if k + 1 == cnt then done (next + 1, true) else r)
  count_free b cnt next k r lt free rest = elim (ℕ_discrete (k + 1) cnt) [
    | yes p ↦
        rw (← p, ==_refl (k + 1))
          (inl (
            next + 1,
            refl,
            record {
              count = omega arith;
              ahead = omega arith;
              inside = omega arith;
              free = Segment-extend b true next (next + 1) free (λ i lo hi. absurd (omega arith));
            },
          ))
    | no n ↦ rw (==_ne (k + 1) cnt n) (count_step b cnt next k r lt free n rest)
  ]

  -- `count_run` ends, without a panic, either at the end of a full run or at the first frame that
  -- is in use or out of range.
  pub count_run_lem :
      (fuel : ℕ) (b : Bitmap) (cnt next k : ℕ)
      → Bitmap.len b - next < fuel
      → Counts b cnt next k (count_run fuel b cnt next k)
  unfolding count_run
  count_run_lem zero b cnt next k h = absurd (omega arith)
  count_run_lem (suc fuel) b cnt next k h = elim (dec_lt next (Bitmap.len b)) [
    | no out ↦ inr (
      next,
      rw (ltb-false next (Bitmap.len b) (omega arith)),
      record {
        reach = omega arith;
        inside = λ p. p;
        short = λ p. omega arith;
        free = λ i lo hi. absurd (omega arith);
        stop = inl (omega arith);
      },
    )
    | yes lt ↦
        rw (lt→ltb next (Bitmap.len b) lt, get-eq-bit b next (omega arith))
          (elim (Bool-cases (bit b next)) [
            | inl t ↦ rw t (
                count_free b cnt next k _ lt t
                  (count_run_lem fuel b cnt (next + 1) (k + 1) (omega arith)))
            | inr t ↦ rw t (
                inr (
                  next,
                  refl,
                  record {
                    reach = omega arith;
                    inside = λ p. p;
                    short = λ p. omega arith;
                    free = λ i lo hi. absurd (omega arith);
                    stop = inr t;
                  },
                ))
          ])
  ]

  pub record Skipped (b : Bitmap) (next e : ℕ) : Type 0 where
    pub reach : next ≤ e
    pub inside : next ≤ Bitmap.len b → e ≤ Bitmap.len b
    pub used : Segment b false next e
    pub stop : (Bitmap.len b ≤ e) ⊎ (bit b e ≡ true)

  skip_more :
      (b : Bitmap) (next : ℕ) (r : Outcome ℕ)
      → next < Bitmap.len b
      → bit b next ≡ false
      → (e : ℕ) × (r ≡ done e) × Skipped b (next + 1) e
      → (e : ℕ) × (r ≡ done e) × Skipped b next e
  skip_more b next r lt t (e, p, f) = (
    e,
    p,
    record {
      reach = omega (arith, f.reach);
      inside = λ q. f.inside (omega arith);
      used = Segment-extend b false next e t f.used;
      stop = f.stop;
    },
  )

  -- `skip_used` ends, without a panic, at the first free frame or at the end.
  pub skip_used_lem :
      (fuel : ℕ) (b : Bitmap) (next : ℕ)
      → Bitmap.len b - next < fuel
      → (e : ℕ) × (skip_used fuel b next ≡ done e) × Skipped b next e
  unfolding skip_used
  skip_used_lem zero b next h = absurd (omega arith)
  skip_used_lem (suc fuel) b next h = elim (dec_lt next (Bitmap.len b)) [
    | no out ↦ (
      next,
      rw (ltb-false next (Bitmap.len b) (omega arith)),
      record {
        reach = omega arith;
        inside = λ p. p;
        used = λ i lo hi. absurd (omega arith);
        stop = inl (omega arith);
      },
    )
    | yes lt ↦
        rw (lt→ltb next (Bitmap.len b) lt, get-eq-bit b next (omega arith))
          (elim (Bool-cases (bit b next)) [
            | inl t ↦ rw t (
              next,
              refl,
              record {
                reach = omega arith;
                inside = λ p. p;
                used = λ i lo hi. absurd (omega arith);
                stop = inr t;
              },
            )
            | inr t ↦ rw t (skip_more b next _ lt t (skip_used_lem fuel b (next + 1) (omega arith)))
          ])
  ]

  -- What `find` over `index..len` and `unwrap_or(len)` give.
  pub record FirstFree (b : Bitmap) (index e : ℕ) : Type 0 where
    pub inside : e ≤ Bitmap.len b
    pub used : Segment b false index e
    pub stop : (e ≡ Bitmap.len b) ⊎ ((index ≤ e) × (e < Bitmap.len b) × (bit b e ≡ true))

  find_more :
      (b : Bitmap) (index : ℕ) (r : Outcome ℕ)
      → bit b index ≡ false
      → (e : ℕ) × (r ≡ done e) × FirstFree b (index + 1) e
      → (e : ℕ) × (r ≡ done e) × FirstFree b index e
  find_more b index r t (e, p, f) = (
    e,
    p,
    record {
      inside = f.inside;
      used = Segment-extend b false index e t f.used;
      stop = elim f.stop [ inl q ↦ inl q | inr (lo, hi, q) ↦ inr (omega arith, hi, q) ];
    },
  )

  pub find_free_lem :
      (n : ℕ) (b : Bitmap) (index : ℕ)
      → n ≡ Bitmap.len b - index
      → (e : ℕ) × (find_free n b index ≡ done e) × FirstFree b index e
  unfolding find_free
  find_free_lem zero b index h = (
    Bitmap.len b,
    refl,
    record { inside = omega arith; used = λ i lo hi. absurd (omega arith); stop = inl refl },
  )
  find_free_lem (suc n) b index h =
      rw (get-eq-bit b index (omega arith)) (elim (Bool-cases (bit b index)) [
        | inl t ↦ rw t (
          index,
          refl,
          record {
            inside = omega arith;
            used = λ i lo hi. absurd (omega arith);
            stop = inr (omega arith, omega arith, t);
          },
        )
        | inr t ↦ rw t (find_more b index _ t (find_free_lem n b (index + 1) (omega arith)))
      ])
