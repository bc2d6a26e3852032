-- ===== src/Base/Slices.antt =====
-- Writing a slice into a list.
use Prim.Native.Nat.{ℕ, zero, suc, ◌+◌, ◌-◌, ◌≤◌, ◌<◌}
use mathlib.Core.Path.{◌≡◌, refl, ap, ◌∙◌}
use mathlib.Core.Logic.{◌⊎◌}
use mathlib.Core.Bool.{◌&&◌}
use mathlib.Core.List.{List, [], ◌∷◌}
use native.Mathlib.Omega.{arith}
use good_os_framework.Base.Lists.{length, get_or, set, length-set, get_or-set_self, get_or-set_ne}
use good_os_framework.Base.Tests.{◌==◌, leb, if◌then◌else◌}
use good_os_framework.Base.Faults.{Outcome, done, panics}

module _ {ℓ} {A : Type ℓ} where
  abbrev pub put_all : List A → ℕ → List A → List A
  put_all xs i [] = xs
  put_all xs i (v ∷ vs) = put_all (set xs i v) (i + 1) vs

  -- `xs[start..end].copy_from_slice(vs)`
  unfoldable pub copy_from_slice : List A → ℕ → ℕ → List A → Outcome (List A)
  copy_from_slice xs start end vs =
      if leb start end && leb end (length xs) && (length vs == end - start)
      then done (put_all xs start vs)
      else panics

  pub length-put_all : (xs : List A) (i : ℕ) (vs : List A) → length (put_all xs i vs) ≡ length xs
  length-put_all xs i [] = refl
  length-put_all xs i (v ∷ vs) = length-put_all (set xs i v) (i + 1) vs ∙ length-set xs i v

  pub get_or-put_all_outside :
      (xs : List A) (i : ℕ) (vs : List A) (j : ℕ) (d : A)
      → (j < i) ⊎ (i + length vs ≤ j)
      → get_or (put_all xs i vs) j d ≡ get_or xs j d
  get_or-put_all_outside xs i [] j d out = refl
  get_or-put_all_outside xs i (v ∷ vs) j d out =
      get_or-put_all_outside (set xs i v) (i + 1) vs j d (omega arith)
      ∙ get_or-set_ne xs i j v d (λ e. omega arith)

  pub get_or-put_all_inside :
      (xs : List A) (i : ℕ) (vs : List A) (k : ℕ) (d : A)
      → i + length vs ≤ length xs
      → k < length vs
      → get_or (put_all xs i vs) (i + k) d ≡ get_or vs k d
  get_or-put_all_inside xs i [] k d fits lt = absurd (omega arith)
  get_or-put_all_inside xs i (v ∷ vs) zero d fits lt =
      get_or-put_all_outside (set xs i v) (i + 1) vs (i + 0) d (omega arith)
      ∙ ap (λ j. get_or (set xs i v) j d) {x = i + 0} {y = i} (omega arith)
      ∙ get_or-set_self xs i v d (omega arith)
  get_or-put_all_inside xs i (v ∷ vs) (suc k) d fits lt =
      ap (λ j. get_or (put_all (set xs i v) (i + 1) vs) j d) {x = i + suc k} {y = i + 1 + k}
        (omega arith)
      ∙ get_or-put_all_inside (set xs i v) (i + 1) vs k d (omega (arith, length-set xs i v))
          (omega arith)
