-- ===== src/Base/Modulo.antt =====
-- A remainder of a number that passes the divisor at most once.
use Prim.Native.Nat.{ℕ, ◌+◌, ◌-◌, ◌*◌, ◌/◌, ◌%◌, ◌≤◌, ◌<◌}
use mathlib.Core.Path.{◌≡◌, ap, ◌∙◌}
use mathlib.Core.Logic.{◌⊎◌, ◌≢◌, inl, inr}
use native.Mathlib.Nat.{
  mod-eq_of_lt, mod-eq-sub-mod, mod-add-div', div-eq_of_lt-le, add-mul-mod_self_right, mod-lt,
}
use native.Mathlib.Decide.{dec_lt}
use native.Mathlib.Omega.{arith}

pub mod_once : (x n : ℕ) → x < n + n → ((x < n) × (x % n ≡ x)) ⊎ ((n ≤ x) × (x % n ≡ x - n))
mod_once x n h = elim (dec_lt x n) [
  | yes p ↦ inl (p, mod-eq_of_lt p)
  | no p ↦
      inr (omega arith, mod-eq-sub-mod {n = x} {m = n} (omega arith) ∙ mod-eq_of_lt (omega arith))
]

pub divmod_unique : (x q r len : ℕ) → x ≡ r + q * len → r < len → (x / len ≡ q) × (x % len ≡ r)
divmod_unique x q r len e h = (
  div-eq_of_lt-le {k = q} len {m = x} (omega arith) (omega arith),
  ap (λ t. t % len) e ∙ add-mul-mod_self_right r q len ∙ mod-eq_of_lt h,
)

-- A carry into the quotient.
pub div_carry :
    (n d len : ℕ)
    → 0 < len
    → d ≤ len
    → ((n % len + d < len) × ((n + d) / len ≡ n / len) × ((n + d) % len ≡ n % len + d))
      ⊎ ((len ≤ n % len + d) × ((n + d) / len ≡ n / len + 1) × ((n + d) % len ≡ n % len + d - len))
div_carry n d len pos h = elim (dec_lt (n % len + d) len) [
  | yes p ↦
      let u =
        divmod_unique (n + d) (n / len) (n % len + d) len (omega (arith, mod-add-div' n len)) p in
      inl (p, u.0, u.1)
  | no p ↦
      let u =
        divmod_unique (n + d) (n / len + 1) (n % len + d - len) len
          (omega (arith, mod-add-div' n len)) (omega (arith, mod-lt n {m = len} pos)) in
      inr (omega arith, u.0, u.1)
]

-- Two numbers less than `len` apart have different remainders.
pub mod_apart : (k p len : ℕ) → k < p → p < k + len → k % len ≢ p % len
mod_apart k p len h g e = omega (
  arith,
  div_carry k (p - k) len (omega arith) (omega arith),
  ap (λ t. t % len) {x = k + (p - k)} {y = p} (omega arith),
  e,
)
