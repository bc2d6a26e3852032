-- ===== src/Memory/Frame/Calls.antt =====
-- What is left of a supply of frames after a number of calls.
use good_os_framework.Base.{
  ℕ, zero, suc, ◌+◌, ◌≤◌, ◌≡◌, ◌≢◌, sym, ap, ◌∙◌, subst, true, false, some, Bool-cases, inl, inr,
  Option, done, done-injective, arith, ℕ_discrete,
}
use good_os_framework.Data.Bitmap.{BitField}
use good_os_framework.Data.Bitmap.Laws.{bit}
use good_os_framework.Memory.Frame.{BitmapFrameAllocator, frame_address, allocate_frame}
use good_os_framework.Memory.Frame.Supply.{Given, Supply}

module _ ⦃B : BitField⦄ where
  -- `n` calls of `allocate_frame` lead from one allocator to the other.
  unfoldable pub Calls : ℕ → BitmapFrameAllocator → BitmapFrameAllocator → Type 0
  Calls zero a a' = a ≡ a'
  Calls (suc n) a a' =
      (frame : Option ℕ) × (a1 : BitmapFrameAllocator) × (allocate_frame a ≡ done (frame, a1))
      × Calls n a1 a'

  -- What is in use stays in use.
  abbrev pub Keeps : BitmapFrameAllocator → BitmapFrameAllocator → Type 0
  Keeps a a' = (i : ℕ) → bit a.bitmap i ≡ false → bit a'.bitmap i ≡ false

  pub Given-Keeps :
      (a : BitmapFrameAllocator) (n : ℕ) (a' : BitmapFrameAllocator) → Given a n a' → Keeps a a'
  Given-Keeps a n a' g i u = elim (ℕ_discrete i n) [
    | yes e ↦ ap (bit a'.bitmap) e ∙ g.taken
    | no ne ↦ g.others i ne ∙ u
  ]

  -- A frame that is free after was free before.
  pub Keeps-free :
      (a a' : BitmapFrameAllocator) (i : ℕ)
      → Keeps a a'
      → bit a'.bitmap i ≡ true
      → bit a.bitmap i ≡ true
  Keeps-free a a' i k f = elim (Bool-cases (bit a.bitmap i)) [
    | inl e ↦ e
    | inr e ↦ absurd (false_true (sym (k i e) ∙ f))
  ]
    where
      false_true : false ≢ true
      false_true h = cc

  pub Supply-mono : (k n : ℕ) (a : BitmapFrameAllocator) → k ≤ n → Supply n a → Supply k a
  unfolding Supply
  Supply-mono zero n a le s = tt
  Supply-mono (suc k) zero a le s = absurd (omega arith)
  Supply-mono (suc k) (suc n) a le (f, a', g, s) = (f, a', g, Supply-mono k n a' (omega arith) s)

  pub Supply-Calls :
      (n k : ℕ) (a a' : BitmapFrameAllocator)
      → Calls n a a'
      → Supply (n + k) a
      → Supply k a' × Keeps a a'
  unfolding Supply Calls
  Supply-Calls zero k a a' e s =
      subst (λ b. Supply k b × Keeps a b) e
        (subst (λ m. Supply m a) {x = 0 + k} {y = k} (omega arith) s, (λ i u. u))
  Supply-Calls (suc n) k a a' (frame, a1, p, c) s =
      let (f, a2, g, s') =
        subst (λ m. Supply m a) {x = suc n + k} {y = suc (n + k)} (omega arith) s in
      let same : (a2 ≡ a1) = second (some (frame_address f), a2) (frame, a1) (sym g.served ∙ p) in
      let (left, keeps) = Supply-Calls n k a1 a' c (subst (Supply (n + k)) same s') in
      (left, (λ i u. keeps i (ap (λ b. bit b.bitmap i) (sym same) ∙ Given-Keeps a f a2 g i u)))
    where
      second : (p q : Option ℕ × BitmapFrameAllocator) → done p ≡ done q → p.1 ≡ q.1
      second p q h = ap (λ r. r.1) (done-injective h)
