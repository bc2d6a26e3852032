-- ===== src/Base/Bits.antt =====
-- The source's `|` and `&` at variables: a disjoint `|` is a sum, and `&` with a mask is arithmetic.
use Prim.Native.Nat.{
  ℕ, zero, suc, ◌+◌, ◌-◌, ◌*◌, ◌/◌, ◌%◌, ◌^◌, ◌≤◌, ◌<◌, min, max, bit_and, bit_or, digits,
  bit_and-bitwise, bit_or-bitwise,
}
use mathlib.Core.Path.{◌≡◌, refl, ap, ap₂, ◌∙◌}
use native.Mathlib.Nat.{
  pow-suc, one-le-pow, div-div-eq-div-mul, mod-add-div', add-mul-mod_self_right, mod-eq_of_lt,
  mod-lt,
}
use native.Mathlib.Omega.{arith}

-- `digits` does not depend on its count of digits, once that is large enough.
module _ (z : ℕ → ℕ) (f : ℕ → ℕ → ℕ) where
  digits_count : (n m a b : ℕ) → a ≤ n → a ≤ m → digits z f n a b ≡ digits z f m a b
  digits_count zero zero a b p q = refl
  digits_count zero (suc m) zero b p q = refl
  digits_count zero (suc m) (suc a) b p q = absurd (omega arith)
  digits_count (suc n) zero zero b p q = refl
  digits_count (suc n) zero (suc a) b p q = absurd (omega arith)
  digits_count (suc n) (suc m) zero b p q = refl
  digits_count (suc n) (suc m) (suc a) b p q =
      ap (λ t. t * 2 + f (suc a % 2) (b % 2))
        (digits_count n m (suc a / 2) (b / 2) (omega arith) (omega arith))

or_first : (b : ℕ) → bit_or 0 b ≡ b
or_first b = bit_or-bitwise 0 b

and_first : (b : ℕ) → bit_and 0 b ≡ 0
and_first b = bit_and-bitwise 0 b

or_digit : (a b : ℕ) → bit_or a b ≡ bit_or (a / 2) (b / 2) * 2 + max (a % 2) (b % 2)
or_digit zero b = omega (arith, or_first b, or_first (b / 2))
or_digit (suc a) b = omega (
  arith,
  bit_or-bitwise (suc a) b,
  bit_or-bitwise (suc a / 2) (b / 2),
  digits_count (λ b. b) max a (suc a / 2) (suc a / 2) (b / 2) (omega arith) (omega arith),
)

and_digit : (a b : ℕ) → bit_and a b ≡ bit_and (a / 2) (b / 2) * 2 + min (a % 2) (b % 2)
and_digit zero b = omega (arith, and_first b, and_first (b / 2))
and_digit (suc a) b = omega (
  arith,
  bit_and-bitwise (suc a) b,
  bit_and-bitwise (suc a / 2) (b / 2),
  digits_count (λ b. 0) min a (suc a / 2) (suc a / 2) (b / 2) (omega arith) (omega arith),
)

or_second_count : (n a : ℕ) → a ≤ n → bit_or a 0 ≡ a
or_second_count n zero h = or_first 0
or_second_count zero (suc a) h = absurd (omega arith)
or_second_count (suc n) (suc a) h =
    omega (arith, or_digit (suc a) 0, or_second_count n (suc a / 2) (omega arith))

and_second_count : (n a : ℕ) → a ≤ n → bit_and a 0 ≡ 0
and_second_count n zero h = and_first 0
and_second_count zero (suc a) h = absurd (omega arith)
and_second_count (suc n) (suc a) h =
    omega (arith, and_digit (suc a) 0, and_second_count n (suc a / 2) (omega arith))

double : (q k : ℕ) → q * 2 ^ suc k ≡ q * 2 ^ k * 2
double q k = omega (arith, ap (λ (t : ℕ). q * t) (pow-suc 2 k))

-- `(q << k) | r` for an `r` of at most `k` bits.
pub or_shift : (k q r : ℕ) → r < 2 ^ k → bit_or (q * 2 ^ k) r ≡ q * 2 ^ k + r
or_shift zero q r h = omega (
  arith,
  ap (λ t. bit_or (q * 1) t) {x = r} {y = 0} (omega arith),
  or_second_count (q * 1) (q * 1) (omega arith),
)
or_shift (suc k) q r h = omega (
  arith,
  or_digit (q * 2 ^ suc k) r,
  double q k,
  ap (λ t. bit_or t (r / 2)) {x = q * 2 ^ suc k / 2} {y = q * 2 ^ k} (omega (arith, double q k)),
  or_shift k q (r / 2) (omega (arith, pow-suc 2 k)),
)

halve_first : (a k : ℕ) → a / 2 / 2 ^ k ≡ a / 2 ^ suc k
halve_first a k = div-div-eq-div-mul a 2 (2 ^ k) ∙ ap (λ t. a / t) (omega (arith, pow-suc 2 k))

-- A mask that is a shifted one reads the higher digits.
pub and_shift : (k a m : ℕ) → bit_and a (m * 2 ^ k) ≡ bit_and (a / 2 ^ k) m * 2 ^ k
and_shift zero a m =
    ap₂ bit_and {x = a} {y = a / 2 ^ 0} {u = m * 2 ^ 0} {v = m} (omega arith) (omega arith)
    ∙ omega arith
and_shift (suc k) a m = omega (
  arith,
  and_digit a (m * 2 ^ suc k),
  double m k,
  double (bit_and (a / 2 ^ suc k) m) k,
  ap (bit_and (a / 2)) {x = m * 2 ^ suc k / 2} {y = m * 2 ^ k} (omega (arith, double m k)),
  and_shift k (a / 2) m,
  ap (λ t. bit_and t m * 2 ^ k) (halve_first a k),
)

-- The lowest `k + 1` digits: the lowest one and the `k` above it.
mod_double : (a k : ℕ) → a % 2 ^ suc k ≡ a / 2 % 2 ^ k * 2 + a % 2
mod_double a k =
    ap (λ t. t % 2 ^ suc k) {x = a} {y = a / 2 % 2 ^ k * 2 + a % 2 + a / 2 / 2 ^ k * 2 ^ suc k}
      (omega (arith, double (a / 2 / 2 ^ k) k, mod-add-div' (a / 2) (2 ^ k)))
    ∙ add-mul-mod_self_right _ (a / 2 / 2 ^ k) (2 ^ suc k)
    ∙ mod-eq_of_lt (
        omega (
          arith,
          pow-suc 2 k,
          one-le-pow k 2,
          mod-lt (a / 2) {m = 2 ^ k} (omega (arith, one-le-pow k 2)),
        ))

-- A mask of `k` ones is the remainder by `2 ^ k`.
pub and_low : (k a : ℕ) → bit_and a (2 ^ k - 1) ≡ a % 2 ^ k
and_low zero a = omega (arith, and_second_count a a (omega arith))
and_low (suc k) a = omega (
  arith,
  and_digit a (2 ^ suc k - 1),
  pow-suc 2 k,
  one-le-pow k 2,
  ap (bit_and (a / 2)) {x = (2 ^ suc k - 1) / 2} {y = 2 ^ k - 1}
      (omega (arith, pow-suc 2 k, one-le-pow k 2)),
  and_low k (a / 2),
  mod_double a k,
)

or_comm_count : (n a b : ℕ) → a ≤ n → bit_or a b ≡ bit_or b a
or_comm_count n zero b h = or_first b ∙ omega (arith, or_second_count b b (omega arith))
or_comm_count zero (suc a) b h = absurd (omega arith)
or_comm_count (suc n) (suc a) b h = omega (
  arith,
  or_digit (suc a) b,
  or_digit b (suc a),
  or_comm_count n (suc a / 2) (b / 2) (omega arith),
)

pub or_comm : (a b : ℕ) → bit_or a b ≡ bit_or b a
or_comm a b = or_comm_count a a b (omega arith)

half_parts : (k q r : ℕ) → (q * 2 ^ suc k + r) / 2 ≡ q * 2 ^ k + r / 2
half_parts k q r = omega (arith, double q k)

digit_parts : (k q r : ℕ) → (q * 2 ^ suc k + r) % 2 ≡ r % 2
digit_parts k q r = omega (arith, double q k)

-- `&` acts on the digits above and below the `k`-th one each by themselves.
pub and_parts :
    (k q r c d : ℕ)
    → r < 2 ^ k
    → d < 2 ^ k
    → bit_and (q * 2 ^ k + r) (c * 2 ^ k + d) ≡ bit_and q c * 2 ^ k + bit_and r d
and_parts zero q r c d h h' =
    ap₂ bit_and {x = q * 2 ^ 0 + r} {y = q} {u = c * 2 ^ 0 + d} {v = c} (omega arith) (omega arith)
    ∙ omega (
      arith,
      ap₂ bit_and {x = r} {y = 0} {u = d} {v = 0} (omega arith) (omega arith),
      and_first 0,
    )
and_parts (suc k) q r c d h h' = omega (
  arith,
  and_digit (q * 2 ^ suc k + r) (c * 2 ^ suc k + d),
  ap₂ bit_and (half_parts k q r) (half_parts k c d),
  digit_parts k q r,
  digit_parts k c d,
  and_parts k q (r / 2) c (d / 2) (omega (arith, pow-suc 2 k)) (omega (arith, pow-suc 2 k)),
  double (bit_and q c) k,
  and_digit r d,
)

-- So does `|`.
pub or_parts :
    (k q r c d : ℕ)
    → r < 2 ^ k
    → d < 2 ^ k
    → bit_or (q * 2 ^ k + r) (c * 2 ^ k + d) ≡ bit_or q c * 2 ^ k + bit_or r d
or_parts zero q r c d h h' =
    ap₂ bit_or {x = q * 2 ^ 0 + r} {y = q} {u = c * 2 ^ 0 + d} {v = c} (omega arith) (omega arith)
    ∙ omega
        (arith, ap₂ bit_or {x = r} {y = 0} {u = d} {v = 0} (omega arith) (omega arith), or_first 0)
or_parts (suc k) q r c d h h' = omega (
  arith,
  or_digit (q * 2 ^ suc k + r) (c * 2 ^ suc k + d),
  ap₂ bit_or (half_parts k q r) (half_parts k c d),
  digit_parts k q r,
  digit_parts k c d,
  or_parts k q (r / 2) c (d / 2) (omega (arith, pow-suc 2 k)) (omega (arith, pow-suc 2 k)),
  double (bit_or q c) k,
  or_digit r d,
)
