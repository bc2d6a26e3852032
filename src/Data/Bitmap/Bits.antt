-- ===== src/Data/Bitmap/Bits.antt =====
-- A concrete `BitField`, which the tests run on.
use good_os_framework.Base.{
  ℕ, zero, suc, ◌+◌, ◌-◌, ◌*◌, ◌/◌, ◌%◌, ◌^◌, ◌<◌, ◌≡◌, ◌≢◌, refl, Bool, false, ◌==◌, arith,
  if◌then◌else◌,
}
use good_os_framework.Data.Bitmap.{BitField}

abbrev pub get_bit : ℕ → ℕ → Bool
get_bit x i = x / 2 ^ i % 2 == 1

abbrev pub set_bit : ℕ → ℕ → Bool → ℕ
set_bit x i v = x - x / 2 ^ i % 2 * 2 ^ i + (if v then 2 ^ i else 0)

-- A statement about the eight positions of a byte is one about each.
below_eight {ℓ} :
    (P : ℕ → Type ℓ) → P 0 → P 1 → P 2 → P 3 → P 4 → P 5 → P 6 → P 7 → (i : ℕ) → i < 8 → P i
below_eight P a b c d e f g h zero l = a
below_eight P a b c d e f g h (suc zero) l = b
below_eight P a b c d e f g h (suc (suc zero)) l = c
below_eight P a b c d e f g h (suc (suc (suc zero))) l = d
below_eight P a b c d e f g h (suc (suc (suc (suc zero)))) l = e
below_eight P a b c d e f g h (suc (suc (suc (suc (suc zero))))) l = f
below_eight P a b c d e f g h (suc (suc (suc (suc (suc (suc zero)))))) l = g
below_eight P a b c d e f g h (suc (suc (suc (suc (suc (suc (suc zero))))))) l = h
below_eight P a b c d e f g h (suc (suc (suc (suc (suc (suc (suc (suc i)))))))) l =
    absurd (omega arith)

pub zero_bit : (i : ℕ) → i < 8 → get_bit 0 i ≡ false
zero_bit = below_eight (λ i. get_bit 0 i ≡ false) refl refl refl refl refl refl refl refl

pub self_bit : (x i : ℕ) (v : Bool) → i < 8 → get_bit (set_bit x i v) i ≡ v
self_bit x i v =
    below_eight (λ i. get_bit (set_bit x i v) i ≡ v) (ground arith) (ground arith) (ground arith)
      (ground arith) (ground arith) (ground arith) (ground arith) (ground arith) i

abbrev Keeps : ℕ → Bool → ℕ → Type 0
Keeps x v i = (j : ℕ) → j < 8 → i ≢ j → get_bit (set_bit x i v) j ≡ get_bit x j

stays_0 : (x : ℕ) (v : Bool) → Keeps x v 0
stays_0 x v =
    below_eight (λ j. 0 ≢ j → get_bit (set_bit x 0 v) j ≡ get_bit x j) (λ n. ground arith)
      (λ n. ground arith) (λ n. ground arith) (λ n. ground arith) (λ n. ground arith)
      (λ n. ground arith) (λ n. ground arith) (λ n. ground arith)

stays_1 : (x : ℕ) (v : Bool) → Keeps x v 1
stays_1 x v =
    below_eight (λ j. 1 ≢ j → get_bit (set_bit x 1 v) j ≡ get_bit x j) (λ n. ground arith)
      (λ n. ground arith) (λ n. ground arith) (λ n. ground arith) (λ n. ground arith)
      (λ n. ground arith) (λ n. ground arith) (λ n. ground arith)

stays_2 : (x : ℕ) (v : Bool) → Keeps x v 2
stays_2 x v =
    below_eight (λ j. 2 ≢ j → get_bit (set_bit x 2 v) j ≡ get_bit x j) (λ n. ground arith)
      (λ n. ground arith) (λ n. ground arith) (λ n. ground arith) (λ n. ground arith)
      (λ n. ground arith) (λ n. ground arith) (λ n. ground arith)

stays_3 : (x : ℕ) (v : Bool) → Keeps x v 3
stays_3 x v =
    below_eight (λ j. 3 ≢ j → get_bit (set_bit x 3 v) j ≡ get_bit x j) (λ n. ground arith)
      (λ n. ground arith) (λ n. ground arith) (λ n. ground arith) (λ n. ground arith)
      (λ n. ground arith) (λ n. ground arith) (λ n. ground arith)

stays_4 : (x : ℕ) (v : Bool) → Keeps x v 4
stays_4 x v =
    below_eight (λ j. 4 ≢ j → get_bit (set_bit x 4 v) j ≡ get_bit x j) (λ n. ground arith)
      (λ n. ground arith) (λ n. ground arith) (λ n. ground arith) (λ n. ground arith)
      (λ n. ground arith) (λ n. ground arith) (λ n. ground arith)

stays_5 : (x : ℕ) (v : Bool) → Keeps x v 5
stays_5 x v =
    below_eight (λ j. 5 ≢ j → get_bit (set_bit x 5 v) j ≡ get_bit x j) (λ n. ground arith)
      (λ n. ground arith) (λ n. ground arith) (λ n. ground arith) (λ n. ground arith)
      (λ n. ground arith) (λ n. ground arith) (λ n. ground arith)

stays_6 : (x : ℕ) (v : Bool) → Keeps x v 6
stays_6 x v =
    below_eight (λ j. 6 ≢ j → get_bit (set_bit x 6 v) j ≡ get_bit x j) (λ n. ground arith)
      (λ n. ground arith) (λ n. ground arith) (λ n. ground arith) (λ n. ground arith)
      (λ n. ground arith) (λ n. ground arith) (λ n. ground arith)

stays_7 : (x : ℕ) (v : Bool) → Keeps x v 7
stays_7 x v =
    below_eight (λ j. 7 ≢ j → get_bit (set_bit x 7 v) j ≡ get_bit x j) (λ n. ground arith)
      (λ n. ground arith) (λ n. ground arith) (λ n. ground arith) (λ n. ground arith)
      (λ n. ground arith) (λ n. ground arith) (λ n. ground arith)

pub far_bit :
    (x i j : ℕ) (v : Bool) → i < 8 → j < 8 → i ≢ j → get_bit (set_bit x i v) j ≡ get_bit x j
far_bit x i j v hi =
    below_eight (Keeps x v) (stays_0 x v) (stays_1 x v) (stays_2 x v) (stays_3 x v) (stays_4 x v)
      (stays_5 x v) (stays_6 x v) (stays_7 x v) i hi j

instance abbrev pub u8_bits : BitField
u8_bits = record {
  get_bit = get_bit;
  set_bit = set_bit;
  get_bit-zero = zero_bit;
  get_bit-set_bit_self = self_bit;
  get_bit-set_bit_ne = far_bit;
}
