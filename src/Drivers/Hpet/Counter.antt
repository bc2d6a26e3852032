-- ===== src/Drivers/Hpet/Counter.antt =====
-- The two halves belong together, and the loop ends.
use good_os_framework.Base.{
  ℕ, zero, suc, ◌+◌, ◌*◌, ◌/◌, ◌%◌, ◌^◌, ◌≤◌, ◌<◌, ◌≡◌, ◌≢◌, sym, ap, ◌∙◌, ==_refl, ==_ne, Outcome,
  done, arith, ℕ_discrete,
}
use good_os_framework.Base.Bits.{or_shift}
use good_os_framework.Drivers.Hpet.{Hpet, clock_speed, get_counter, get_time_elapsed}
use Prim.Native.Nat.{bit_or}
use native.Mathlib.Nat.{mul-le-mul_left}

-- A 64-bit counter that only grows, by less than 2 ^ 32 in any six reads.
pub record Runs (count : ℕ → ℕ) : Type 0 where
  pub bounded : (k : ℕ) → count k < 2 ^ 64
  pub grows : (k : ℕ) → count k ≤ count (k + 1)
  pub slow : (k : ℕ) → count (k + 5) < count k + 2 ^ 32

-- A result of a call that began at `time`: a value that the counter had during the call.
pub record Seen (count : ℕ → ℕ) (time : ℕ) (r : Outcome (ℕ × ℕ)) : Type 0 where
  pub at : ℕ
  pub stop : ℕ
  pub after : time ≤ at
  pub before : at < stop
  pub soon : stop ≤ time + 6
  pub result : r ≡ done (count at, stop)

one_read :
    (count : ℕ → ℕ) (fuel time : ℕ)
    → Runs count
    → count time / 2 ^ 32 ≡ count (time + 2) / 2 ^ 32
    → get_counter count (suc fuel) time ≡ done (count (time + 1), time + 3)
unfolding get_counter
one_read count fuel time r same =
    let top = r.bounded time in
    let up = r.grows time in
    let up' = ap count {x = time + 1 + 1} {y = time + 2} (omega arith) in
    let up1 = r.grows (time + 1) in
    rw (sym same, ==_refl (count time / 2 ^ 32))
      (ap (λ v. done (v, time + 3))
        (ap (λ h. bit_or h (count (time + 1) % 2 ^ 32)) {x = count time / 2 ^ 32 * 2 ^ 32 % 2 ^ 64}
            {y = count time / 2 ^ 32 * 2 ^ 32} (omega (arith, top))
          ∙ or_shift 32 (count time / 2 ^ 32) (count (time + 1) % 2 ^ 32) (omega arith)
          ∙ omega (arith, same, up, up', up1)))

monotone : (count : ℕ → ℕ) → Runs count → (k n : ℕ) → count k ≤ count (k + n)
monotone count r k zero = omega (arith, ap count {x = k} {y = k + 0} (omega arith))
monotone count r k (suc n) = omega (
  arith,
  monotone count r k n,
  r.grows (k + n),
  ap count {x = k + n + 1} {y = k + suc n} (omega arith),
)

second_round :
    (count : ℕ → ℕ) (fuel time : ℕ)
    → Runs count
    → count time / 2 ^ 32 ≢ count (time + 2) / 2 ^ 32
    → get_counter count (suc (suc fuel)) time ≡ done (count (time + 3 + 1), time + 3 + 3)
unfolding get_counter
second_round count fuel time r differ =
    let high : (count (time + 3) / 2 ^ 32 ≡ count (time + 3 + 2) / 2 ^ 32) = omega (
      arith,
      differ,
      monotone count r time 2,
      r.grows (time + 2),
      ap count {x = time + 2 + 1} {y = time + 3} (omega arith),
      monotone count r (time + 3) 2,
      r.slow time,
      ap count {x = time + 3 + 2} {y = time + 5} (omega arith),
    ) in
    rw (==_ne (count time / 2 ^ 32) (count (time + 2) / 2 ^ 32) differ)
      (one_read count fuel (time + 3) r high)

-- While the counter runs and grows by less than 2 ^ 32 in six reads, two rounds of the loop are
-- enough, and the value is one that the counter had during the call.
pub get_counter_lem :
    (count : ℕ → ℕ) (fuel time : ℕ)
    → Runs count
    → 2 ≤ fuel
    → Seen count time (get_counter count fuel time)
get_counter_lem count zero time r enough = absurd (omega arith)
get_counter_lem count (suc zero) time r enough = absurd (omega arith)
get_counter_lem count (suc (suc fuel)) time r enough =
    elim (ℕ_discrete (count time / 2 ^ 32) (count (time + 2) / 2 ^ 32)) [
      | yes same ↦ record {
        at = time + 1;
        stop = time + 3;
        after = omega arith;
        before = omega arith;
        soon = omega arith;
        result = one_read count (suc fuel) time r same;
      }
      | no differ ↦ record {
        at = time + 3 + 1;
        stop = time + 3 + 3;
        after = omega arith;
        before = omega arith;
        soon = omega arith;
        result = second_round count fuel time r differ;
      }
    ]

-- While the counter runs, two rounds are enough, and if the product of the counter and the clock speed
-- fits into 64 bits, the time in nanoseconds is that of a value of the counter during the call: it is
-- never ahead of it, and behind by less than a nanosecond for each tick.
pub get_time_elapsed_lem :
    (count : ℕ → ℕ) (h : Hpet) (fuel time : ℕ)
    → Runs count
    → 2 ≤ fuel
    → ((k : ℕ) → count k * clock_speed h < 2 ^ 64)
    → (at : ℕ) × (stop : ℕ) × (elapsed : ℕ) × (get_time_elapsed count h fuel time
        ≡ done (elapsed, stop))
      × (time ≤ at)
      × (at < stop)
      × (elapsed * 1000000 ≤ count at * clock_speed h)
      × (count at * clock_speed h ≤ elapsed * 1000000 + count at * 999999)
unfolding get_time_elapsed
get_time_elapsed_lem count h fuel time r enough small =
    let seen = get_counter_lem count fuel time r enough in
    let c = count seen.at in
    let s = clock_speed h in
    let q = s / 1000000 in
    let split : (c * s ≡ c * q * 1000000 + c * (s % 1000000)) =
      ap (λ t. c * t) {x = s} {y = q * 1000000 + s % 1000000} (omega arith) ∙ omega arith in
    let rest : (c * (s % 1000000) ≤ c * 999999) = mul-le-mul_left c (omega arith) in
    (
      seen.at,
      seen.stop,
      c * q,
      rw seen.result (
          ap (λ t. done (t, seen.stop)) {x = c * q % 2 ^ 64} {y = c * q}
            (omega (arith, small seen.at, split))),
      seen.after,
      seen.before,
      omega (arith, split),
      omega (arith, split, rest),
    )
