-- ===== src/Data/Bitmap/Laws.antt =====
-- The bitmap as a function from indices to bits.
use good_os_framework.Base.{
  ℕ, ◌+◌, ◌*◌, ◌/◌, ◌%◌, ◌≤◌, ◌<◌, ◌≡◌, ◌≢◌, refl, sym, ◌↔◌, ◌∙◌, ◌⊎◌, inl, inr, Bool, true, false,
  List, [], ◌∷◌, ap, map, length, get_elem?, get_or, length-set, get_elem?-eq-get_or,
  get_elem?-none, get_or-set_self, get_or-set_ne, Outcome, done, panics, done-injective,
  done≢panics, arith, ◌==◌, ==_refl, ==_ne, if◌then◌else◌, zero, suc, some, dec_lt, ℕ_discrete,
}
use good_os_framework.Base
use good_os_framework.Data.Bitmap.{BitField, Bitmap, new, len, get, set}

get_elem?-zeros :
    (xs : List ℕ) (i : ℕ) → i < length xs → get_elem? {A = ℕ} (map (λ _. 0) xs) i ≡ some 0
get_elem?-zeros [] i h = absurd (omega arith)
get_elem?-zeros (x ∷ xs) zero h = refl
get_elem?-zeros (x ∷ xs) (suc i) h = get_elem?-zeros xs i (omega arith)

module _ ⦃B : BitField⦄ where
  -- The bit at an index, and the bitmap with one bit changed.
  unfoldable pub bit : Bitmap → ℕ → Bool
  bit b i = B.get_bit (get_or b.inner (i / 8) 0) (i % 8)

  pub write : Bitmap → ℕ → Bool → Bitmap
  write b i v = record {
    inner = Base.set b.inner (i / 8) (B.set_bit (get_or b.inner (i / 8) 0) (i % 8) v);
  }

  pub get-eq-bit : (b : Bitmap) (i : ℕ) → i / 8 < len b → get b i ≡ done (bit b i)
  unfolding get bit len
  get-eq-bit b i h = ground (arith, get_elem?-eq-get_or b.inner (i / 8) 0)

  pub set-eq-write :
      (b : Bitmap) (i : ℕ) (v : Bool) → i / 8 < len b → set b i v ≡ done (write b i v)
  unfolding set write len
  set-eq-write b i v h = ground (arith, get_elem?-eq-get_or b.inner (i / 8) 0)

  pub get_out : (b : Bitmap) (i : ℕ) → len b ≤ i / 8 → get b i ≡ panics
  unfolding get len
  get_out b i h = ground (arith, get_elem?-none b.inner (i / 8))

  pub set_out : (b : Bitmap) (i : ℕ) (v : Bool) → len b ≤ i / 8 → set b i v ≡ panics
  unfolding set len
  set_out b i v h = ground (arith, get_elem?-none b.inner (i / 8))

  pub len-write : (b : Bitmap) (i : ℕ) (v : Bool) → len (write b i v) ≡ len b
  unfolding len write
  len-write b i v = length-set b.inner (i / 8) _

  pub bit-write_self : (b : Bitmap) (i : ℕ) (v : Bool) → i / 8 < len b → bit (write b i v) i ≡ v
  unfolding bit write len
  bit-write_self b i v h =
      rw (bit, get_or-set_self b.inner (i / 8) (B.set_bit (get_or b.inner (i / 8) 0) (i % 8) v) 0 h)
        (B.get_bit-set_bit_self _ (i % 8) v (omega arith))

  pub bit-write_ne :
      (b : Bitmap) (i j : ℕ) (v : Bool) → i / 8 < len b → i ≢ j → bit (write b i v) j ≡ bit b j
  unfolding bit write len
  bit-write_ne b i j v h n = elim (ℕ_discrete (i / 8) (j / 8)) [
    | yes e ↦
        rw
          (
            bit,
            ← e,
            get_or-set_self b.inner (i / 8) (B.set_bit (get_or b.inner (i / 8) 0) (i % 8) v) 0 h,
          )
          (B.get_bit-set_bit_ne _ (i % 8) (j % 8) v (omega arith) (omega arith)
            (λ k. n (omega arith)))
    | no ne ↦ rw (
      bit,
      get_or-set_ne b.inner (i / 8) (j / 8) (B.set_bit (get_or b.inner (i / 8) 0) (i % 8) v) 0 ne,
    )
  ]

  pub get-write :
      (b : Bitmap) (i j : ℕ) (v : Bool)
      → i / 8 < len b
      → get (write b i v) j ≡ (if i == j then done v else get b j)
  get-write b i j v hi = elim (ℕ_discrete i j) [
    | yes e ↦
        rw (← e, ==_refl i)
          (get-eq-bit (write b i v) i (rw (len-write b i v) hi) ∙ ap done (bit-write_self b i v hi))
    | no ne ↦ rw (==_ne i j ne) (elim (dec_lt (j / 8) (len b)) [
      | yes hj ↦
          get-eq-bit (write b i v) j (rw (len-write b i v) hj)
          ∙ ap done (bit-write_ne b i j v hi ne)
          ∙ sym (get-eq-bit b j hj)
      | no hj ↦
          get_out (write b i v) j (omega (arith, len-write b i v)) ∙ sym (get_out b j (omega arith))
    ])
  ]

  -- After a successful `set`, `get` answers the value at the index that was set, and what it
  -- answered before at every other, also where it panics.
  pub get-set :
      (b b' : Bitmap) (i j : ℕ) (v : Bool)
      → set b i v ≡ done b'
      → get b' j ≡ (if i == j then done v else get b j)
  get-set b b' i j v h = elim (dec_lt (i / 8) (len b)) [
    | yes hi ↦ rw (done-injective (sym h ∙ set-eq-write b i v hi)) (get-write b i j v hi)
    | no hi ↦ absurd (done≢panics (sym h ∙ set_out b i v (omega arith)))
  ]

  -- `set` and `get` panic exactly at the indices past the last byte, and `set` keeps the length.
  pub in_range_iff :
      (b : Bitmap) (i : ℕ) (v : Bool)
      → ((i / 8 < len b) ↔ (get b i ≢ panics))
        × ((i / 8 < len b) ↔ ((b' : Bitmap) × (set b i v ≡ done b') × (len b' ≡ len b)))
  in_range_iff b i v = elim (dec_lt (i / 8) (len b)) [
    | yes h ↦ (
      ((λ _ e. done≢panics (sym (get-eq-bit b i h) ∙ e)), (λ _. h)),
      ((λ _. (write b i v, set-eq-write b i v h, len-write b i v)), (λ _. h)),
    )
    | no h ↦ (
      ((λ k. absurd (h k)), (λ e. absurd (e (get_out b i (omega arith))))),
      ((λ k. absurd (h k)), (λ r. absurd (done≢panics (sym r.1 ∙ set_out b i v (omega arith))))),
    )
  ]

  -- A new bitmap has as many bytes as its buffer, and every bit that it can hold is clear.
  pub get-new : (buffer : List ℕ) (i : ℕ) → i / 8 < length buffer → get (new buffer) i ≡ done false
  unfolding get new
  get-new buffer i h =
      ground (arith, get_elem?-zeros buffer (i / 8) h, B.get_bit-zero (i % 8) (omega arith))
