-- ===== src/Task/Signal/Delete.antt =====
-- `delete_signal`: its loop removes while it counts, so it runs past the end.
use mathlib.Core.List.{append_assoc, append-nil}
use good_os_framework.Base.{
  ℕ, zero, suc, ◌+◌, ◌/◌, ◌<◌, ◌≡◌, ◌≢◌, refl, ap, ap₂, sym, ◌∙◌, true, false, List, [], ◌∷◌, ◌++◌,
  length, length-append, get_elem?, get_elem?-none, All, ◌==◌, ==_refl, ==_ne, ℕ_discrete,
  if◌then◌else◌, Outcome, done, panics, ◌>>=◌, arith, Bool-cases, Option-cases, ◌⊎◌, inl, inr,
}
use good_os_framework.Data.Bitmap
use good_os_framework.Data.Bitmap.{BitField}
use good_os_framework.Data.Bitmap.Laws.{bit, write, get-eq-bit, set-eq-write}
use good_os_framework.Task.Signal.{
  Signal, SignalManager, index, remove_at, delete_matches, delete_signal,
}
use good_os_framework.Task.Signal.Laws.{index_lem}

-- What the loop does with the entry at `idx`.
abbrev Shrinks : List Signal → ℕ → Outcome (List Signal) → Type 0
Shrinks l idx r = (r ≡ panics) ⊎ ((l' : List Signal) × (r ≡ done l') × (suc (length l') ≡ length l))

Shrinks-cons :
    (s : Signal) (l : List Signal) (idx : ℕ) (r : Outcome (List Signal))
    → Shrinks l idx r
    → Shrinks (s ∷ l) (suc idx) (r >>= λ r. done (s ∷ r))
Shrinks-cons s l idx r (inl e) = inl (rw e)
Shrinks-cons s l idx r (inr (l', e, n)) = inr (s ∷ l', rw e, ap suc n)

remove_at-Shrinks : (l : List Signal) (idx : ℕ) → Shrinks l idx (remove_at l idx)
unfolding remove_at
remove_at-Shrinks [] idx = inl refl
remove_at-Shrinks (s ∷ l) zero = inr (l, refl, refl)
remove_at-Shrinks (s ∷ l) (suc idx) = Shrinks-cons s l idx _ (remove_at-Shrinks l idx)

-- A loop whose range goes past the end of the list panics.
overrun :
    (n : ℕ) (l : List Signal) (ty idx : ℕ)
    → length l < idx + suc n
    → delete_matches (suc n) l ty idx ≡ panics
unfolding delete_matches index
overrun zero l ty idx h = rw (get_elem?-none l idx (omega arith), index)
overrun (suc n) l ty idx h = elim (Option-cases (get_elem? l idx)) [
  | inl e ↦ rw (e, index)
  | inr (s, e) ↦
      let later : delete_matches (suc n) l ty (idx + 1) ≡ panics =
        overrun n l ty (idx + 1) (omega arith) in
      rw (e, index)
        (elim (Bool-cases (s.ty == ty)) [
          | inr ne ↦ rw (ne, later)
          | inl eq ↦ rw eq (elim (remove_at-Shrinks l idx) [
            | inl p ↦ rw p
            | inr (l', p, k) ↦ rw p (overrun n l' ty (idx + 1) (omega arith))
          ])
        ])
]

pass_one :
    (n : ℕ) (l : List Signal) (ty i : ℕ) (s : Signal)
    → index l i ≡ done s
    → s.ty ≢ ty
    → delete_matches (suc n) l ty i ≡ delete_matches n l ty (i + 1)
unfolding delete_matches
pass_one n l ty i s p ne = rw (p, ==_ne s.ty ty ne)

-- Entries of other types are passed over.
pass_over :
    (seen front rest l : List Signal) (ty n i : ℕ)
    → All (λ s. s.ty ≢ ty) front
    → l ≡ seen ++ (front ++ rest)
    → i ≡ length seen
    → n ≡ length rest
    → delete_matches (length front + n) l ty i ≡ delete_matches n l ty (i + length front)
pass_over seen [] rest l ty n i a p q r =
    ap₂ (λ n i. delete_matches n l ty i) (omega arith) (omega arith)
pass_over seen (s ∷ front) rest l ty n i a p q r =
    ap (λ n. delete_matches n l ty i) {x = suc (length front) + n} {y = suc (length front + n)}
      (omega arith)
    ∙ step
    ∙ pass_over (seen ++ s ∷ []) front rest l ty n (i + 1) a.1
        (p ∙ sym (append_assoc seen (s ∷ []) (front ++ rest)))
        (omega (arith, length-append seen (s ∷ []))) r
    ∙ ap (delete_matches n l ty) (omega arith)
  where
    step :
        delete_matches (suc (length front + n)) l ty i
        ≡ delete_matches (length front + n) l ty (i + 1)
    step = rw (pass_one (length front + n) l ty i s (index_lem seen (front ++ rest) l s i p q) a.0)

remove_at-append :
    (front rest : List Signal) (s : Signal)
    → remove_at (front ++ s ∷ rest) (length front) ≡ done (front ++ rest)
unfolding remove_at
remove_at-append [] rest s = refl
remove_at-append (t ∷ front) rest s = rw (remove_at-append front rest s)

-- The loop at a match: it goes on with the shorter list.
at_match :
    (n : ℕ) (front rest l : List Signal) (s : Signal) (ty i : ℕ)
    → s.ty ≡ ty
    → l ≡ front ++ s ∷ rest
    → i ≡ length front
    → delete_matches (suc n) l ty i ≡ delete_matches n (front ++ rest) ty (i + 1)
unfolding delete_matches
at_match n front rest l s ty i e p q =
    rw (index_lem front rest l s i p q, e, ==_refl ty) (rw (p, q, remove_at-append front rest s))

loop_panics :
    (front rest l : List Signal) (s t : Signal)
    → All (λ u. u.ty ≢ s.ty) front
    → l ≡ front ++ s ∷ t ∷ rest
    → delete_matches (length l) l s.ty 0 ≡ panics
loop_panics front rest l s t a p =
    ap (λ n. delete_matches n l s.ty 0) (ap length p ∙ length-append front (s ∷ t ∷ rest))
    ∙ pass_over [] front (s ∷ t ∷ rest) l s.ty (suc (suc (length rest))) 0 a p refl refl
    ∙ at_match (suc (length rest)) front (t ∷ rest) l s s.ty (0 + length front) refl p (omega arith)
    ∙ overrun (length rest) (front ++ t ∷ rest) s.ty (0 + length front + 1)
        (omega (arith, length-append front (t ∷ rest)))

loop_last :
    (front l : List Signal) (last : Signal) (ty : ℕ)
    → All (λ u. u.ty ≢ ty) front
    → l ≡ front ++ last ∷ []
    → delete_matches (length l) l ty 0 ≡ done (if last.ty == ty then front else l)
unfolding delete_matches
loop_last front l last ty a p = elim (ℕ_discrete last.ty ty) [
  | yes e ↦
      reach
      ∙ at_match 0 front [] l last ty (0 + length front) e p (omega arith)
      ∙ rw (append-nil front, e, ==_refl ty)
  | no ne ↦
      reach
      ∙ pass_one 0 l ty (0 + length front) last (index_lem front [] l last _ p (omega arith)) ne
      ∙ rw (==_ne last.ty ty ne)
]
  where
    reach : delete_matches (length l) l ty 0 ≡ delete_matches 1 l ty (0 + length front)
    reach =
        ap (λ n. delete_matches n l ty 0) (ap length p ∙ length-append front (last ∷ []))
        ∙ pass_over [] front (last ∷ []) l ty 1 0 a p refl refl

module _ ⦃B : BitField⦄ where
  -- If the type is registered and some signal of it is not the last one, `delete_signal` panics: the
  -- loop goes up to the old length of the list.
  pub delete_signal_panics :
      (m : SignalManager) (front rest : List Signal) (s t : Signal)
      → bit m.signal_bitmap s.ty ≡ true
      → s.ty / 8 < Bitmap.len m.signal_bitmap
      → All (λ u. u.ty ≢ s.ty) front
      → m.signals ≡ front ++ s ∷ t ∷ rest
      → delete_signal m s.ty ≡ panics
  unfolding delete_signal
  delete_signal_panics m front rest s t set h a p =
      rw (get-eq-bit m.signal_bitmap s.ty h, set, set-eq-write m.signal_bitmap s.ty false h)
        (rw (loop_panics front rest m.signals s t a p))

  -- If only the last signal can be of the type, `delete_signal` clears the bit of the type alone and
  -- drops the last signal if it is of the type; if the bit is clear it changes nothing.
  pub delete_signal_lem :
      (m : SignalManager) (front : List Signal) (last : Signal) (ty : ℕ)
      → ty / 8 < Bitmap.len m.signal_bitmap
      → All (λ u. u.ty ≢ ty) front
      → m.signals ≡ front ++ last ∷ []
      → delete_signal m ty
        ≡ done (
            if bit m.signal_bitmap ty
            then record m {
              signal_bitmap = write m.signal_bitmap ty false;
              signals = if last.ty == ty then front else m.signals;
            }
            else m)
  unfolding delete_signal
  delete_signal_lem m front last ty h a p = elim (Bool-cases (bit m.signal_bitmap ty)) [
    | inl set ↦
        rw (get-eq-bit m.signal_bitmap ty h, set, set-eq-write m.signal_bitmap ty false h)
          (rw (loop_last front m.signals last ty a p))
    | inr clear ↦ rw (get-eq-bit m.signal_bitmap ty h, clear)
  ]
