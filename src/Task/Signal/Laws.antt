-- ===== src/Task/Signal/Laws.antt =====
-- Registering a signal and reading it back.
use good_os_framework.Base.{
  ℕ, ◌+◌, ◌/◌, ◌≤◌, ◌<◌, ◌≡◌, ◌≢◌, refl, ap, ◌⊎◌, Bool, true, Option, none, some, List, [], ◌∷◌,
  ◌++◌, ◌∙◌, sym, length, length-append, get_elem?, ◌==◌, ==_refl, ==_ne, if◌then◌else◌, done,
  panics, arith, Bool-cases, inl, inr,
}
use mathlib.Core.List.{append_assoc}
use good_os_framework.Data.Bitmap
use good_os_framework.Data.Bitmap.{BitField}
use good_os_framework.Data.Bitmap.Laws.{
  bit, write, get-eq-bit, get_out, set-eq-write, set_out, bit-write_self, bit-write_ne, len-write,
}
use good_os_framework.Task.Signal.{
  Signal, SignalManager, index, find_signal, register_signal, get_signal, has_signal,
}

-- The first signal of a type in the order of registration.
pub first_of_type : ℕ → List Signal → Option Signal
first_of_type ty [] = none
first_of_type ty (s ∷ rest) = if s.ty == ty then some s else first_of_type ty rest

-- The list from an index on.
pub index-append :
    (xs ys : List Signal) (s : Signal) → get_elem? (xs ++ s ∷ ys) (length xs) ≡ some s
index-append [] ys s = refl
index-append (x ∷ xs) ys s = index-append xs ys s

pub index_lem :
    (front rest l : List Signal) (s : Signal) (i : ℕ)
    → l ≡ front ++ s ∷ rest
    → i ≡ length front
    → index l i ≡ done s
unfolding index
index_lem front rest l s i p q = ground (arith, index-append front rest s)

find_signal_lem :
    (front rest l : List Signal) (ty i : ℕ)
    → l ≡ front ++ rest
    → i ≡ length front
    → find_signal (length rest) l ty i ≡ done (first_of_type ty rest)
unfolding find_signal first_of_type
find_signal_lem front [] l ty i p q = refl
find_signal_lem front (s ∷ rest) l ty i p q = rw (index_lem front rest l s i p q) (
    ground (
      arith,
      find_signal_lem (front ++ s ∷ []) rest l ty (i + 1)
          (p ∙ sym (append_assoc front (s ∷ []) rest))
          (omega (arith, q, length-append front (s ∷ []))),
    ))

first-append :
    (l : List Signal) (s : Signal)
    → first_of_type s.ty (l ++ s ∷ [])
      ≡ elim (first_of_type s.ty l) [ none ↦ some s | some older ↦ some older ]
unfolding first_of_type
first-append [] s = rw (==_refl s.ty)
first-append (t ∷ l) s = ground (arith, first-append l s)

module _ ⦃B : BitField⦄ where
  -- `get_signal` returns the first signal of its type in the order of registration if the bit of the
  -- type is set, and `None` if it is clear; `has_signal` reads that bit. Both panic at a type past the
  -- bitmap.
  pub get_signal_lem :
      (m : SignalManager) (ty : ℕ)
      → (ty / 8 < Bitmap.len m.signal_bitmap
          → (has_signal m ty ≡ done (bit m.signal_bitmap ty))
            × (get_signal m ty
                ≡ done (if bit m.signal_bitmap ty then first_of_type ty m.signals else none)))
        × (Bitmap.len m.signal_bitmap ≤ ty / 8
            → (has_signal m ty ≡ panics) × (get_signal m ty ≡ panics))
  unfolding get_signal has_signal
  get_signal_lem m ty = (
    (λ h. (
      get-eq-bit m.signal_bitmap ty h,
      rw (get-eq-bit m.signal_bitmap ty h)
          (ground (arith, find_signal_lem [] m.signals m.signals ty 0 refl refl)),
    )),
    (λ h. (get_out m.signal_bitmap ty h, rw (get_out m.signal_bitmap ty h))),
  )

  -- What a registration has done.
  pub record Registered (m : SignalManager) (ty : ℕ) (s : Signal) (woken : Bool)
      (m' : SignalManager) : Type 0 where
    pub signals : m'.signals ≡ m.signals ++ s ∷ []
    pub same_len : Bitmap.len m'.signal_bitmap ≡ Bitmap.len m.signal_bitmap
    pub set : bit m'.signal_bitmap ty ≡ true
    pub others : (i : ℕ) → i ≢ ty → bit m'.signal_bitmap i ≡ bit m.signal_bitmap i
    pub woken_iff : woken ≡ (ty == m.waiting_for)
    pub waits : m'.waiting_for ≡ (if ty == m.waiting_for then 0 else m.waiting_for)

  -- At a type other than 0 that the bitmap holds, `register_signal` appends the signal, sets the bit
  -- of the type alone, and wakes the process exactly if it waits for that type, which ends the wait.
  pub register_signal_lem :
      (m : SignalManager) (ty : ℕ) (s : Signal)
      → ty ≢ 0
      → ty / 8 < Bitmap.len m.signal_bitmap
      → (woken : Bool) × (m' : SignalManager) × (register_signal m ty s ≡ done (woken, m'))
        × Registered m ty s woken m'
  unfolding register_signal
  register_signal_lem m ty s nz h = (
    ty == m.waiting_for,
    record {
      signal_bitmap = write m.signal_bitmap ty true;
      signals = m.signals ++ s ∷ [];
      waiting_for = if ty == m.waiting_for then 0 else m.waiting_for;
    },
    rw (==_ne ty 0 nz, set-eq-write m.signal_bitmap ty true h) (ground arith),
    record {
      signals = refl;
      same_len = len-write m.signal_bitmap ty true;
      set = bit-write_self m.signal_bitmap ty true h;
      others = λ i ne. bit-write_ne m.signal_bitmap ty i true h (λ e. ne (sym e));
      woken_iff = refl;
      waits = refl;
    },
  )

  -- Type 0 is refused by an assertion, and a type past the bitmap by its index.
  pub register_signal_panics :
      (m : SignalManager) (ty : ℕ) (s : Signal)
      → (ty ≡ 0) ⊎ (Bitmap.len m.signal_bitmap ≤ ty / 8)
      → register_signal m ty s ≡ panics
  unfolding register_signal
  register_signal_panics m ty s (inl e) = ground arith
  register_signal_panics m ty s (inr h) = elim (Bool-cases (ty == 0)) [
    | inl e ↦ ground arith
    | inr e ↦ rw (e, set_out m.signal_bitmap ty true h)
  ]

  -- A signal that is registered under its own type is found again, unless an older one of the type
  -- is still there, which is then found first.
  pub get_signal-register_signal :
      (m : SignalManager) (s : Signal)
      → s.ty ≢ 0
      → s.ty / 8 < Bitmap.len m.signal_bitmap
      → (woken : Bool) × (m' : SignalManager) × (register_signal m s.ty s ≡ done (woken, m'))
        × (get_signal m' s.ty
            ≡ done
                (elim (first_of_type s.ty m.signals) [ none ↦ some s | some older ↦ some older ]))
  get_signal-register_signal m s nz h =
      let (woken, m', p, r) = register_signal_lem m s.ty s nz h in (woken, m', p, found m' r)
    where
      found :
          {woken : Bool} (m' : SignalManager)
          → Registered m s.ty s woken m'
          → get_signal m' s.ty
            ≡ done (elim (first_of_type s.ty m.signals) [ none ↦ some s | some older ↦ some older ])
      found m' r =
          ((get_signal_lem m' s.ty).0 (omega (arith, r.same_len))).1
          ∙ rw (r.set, r.signals) (ap done (first-append m.signals s))
