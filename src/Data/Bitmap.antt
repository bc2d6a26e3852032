-- ===== src/Data/Bitmap.antt =====
-- src/data/bitmap.rs: a bitmap over a slice of bytes. `get_bit` and `set_bit` are methods of the
-- `bit_field` crate, so they are taken as an interface.
pub mod Bits
pub mod Laws
mod Tests
use good_os_framework.Base.{
  ℕ, ◌+◌, ◌/◌, ◌%◌, ◌<◌, ◌≡◌, ◌≢◌, Bool, true, false, Option, none, some, List, map, length,
  get_elem?, Outcome, done, panics,
}
use good_os_framework.Base

-- What `bit_field` documents of a `u8`.
pub record BitField : Type 0 where
  pub get_bit : ℕ → ℕ → Bool
  pub set_bit : ℕ → ℕ → Bool → ℕ
  pub get_bit-zero : (i : ℕ) → i < 8 → get_bit 0 i ≡ false
  pub get_bit-set_bit_self : (x i : ℕ) (v : Bool) → i < 8 → get_bit (set_bit x i v) i ≡ v
  pub get_bit-set_bit_ne :
      (x i j : ℕ) (v : Bool) → i < 8 → j < 8 → i ≢ j → get_bit (set_bit x i v) j ≡ get_bit x j

pub record Bitmap : Type 0 where
  pub inner : List ℕ

-- `inner.fill(0)`
unfoldable pub new : List ℕ → Bitmap
new inner = record { inner = map (λ _. 0) inner }

-- The number of bytes of the slice.
unfoldable pub len : Bitmap → ℕ
len b = length b.inner

module _ ⦃B : BitField⦄ where
  unfoldable pub get : Bitmap → ℕ → Outcome Bool
  get b index = elim (get_elem? b.inner (index / 8)) [
    | none ↦ panics
    | some byte ↦ done (B.get_bit byte (index % 8))
  ]

  unfoldable pub set : Bitmap → ℕ → Bool → Outcome Bitmap
  set b index value = elim (get_elem? b.inner (index / 8)) [
    | none ↦ panics
    | some byte ↦
        done (record { inner = Base.set b.inner (index / 8) (B.set_bit byte (index % 8) value) })
  ]
