-- ===== src/Task/Signal.antt =====
-- src/task/signal.rs: the signals of a process.
pub mod Laws
pub mod Delete
mod Tests
use good_os_framework.Base.{
  ℕ, zero, suc, ◌+◌, ◌≡◌, Bool, true, false, not, Option, none, some, List, [], ◌∷◌, ◌++◌, length,
  get_elem?, replicate, ◌==◌, if◌then◌else◌, Outcome, done, panics, ◌>>=◌, ◌>>◌, assert,
}
use good_os_framework.Data.Bitmap
use good_os_framework.Data.Bitmap.{BitField, Bitmap}

-- `data` is `payload` here.
pub record Signal : Type 0 where
  pub ty : ℕ
  pub payload : List ℕ

pub record SignalManager : Type 0 where
  pub signal_bitmap : Bitmap
  pub signals : List Signal
  pub waiting_for : ℕ

-- The bitmap has a byte for each signal type.
unfoldable pub new : ℕ → SignalManager
new signal_type_num = record {
  signal_bitmap = Bitmap.new (replicate signal_type_num 0);
  signals = [];
  waiting_for = 0;
}

-- `Vec::remove`, which panics out of range.
pub remove_at : List Signal → ℕ → Outcome (List Signal)
remove_at [] idx = panics
remove_at (s ∷ rest) zero = done rest
remove_at (s ∷ rest) (suc idx) = remove_at rest idx >>= λ r. done (s ∷ r)

-- `signals[idx]`
pub index : List Signal → ℕ → Outcome Signal
index signals idx = elim (get_elem? signals idx) [ none ↦ panics | some s ↦ done s ]

-- The loop of `get_signal` from `idx` on, with the number of rounds left.
pub find_signal : ℕ → List Signal → ℕ → ℕ → Outcome (Option Signal)
unfolding index
find_signal zero signals ty idx = done none
find_signal (suc n) signals ty idx =
    let rest = find_signal n signals ty (idx + 1) in
    index signals idx >>= λ s. if s.ty == ty then done (some s) else rest

-- The loop of `delete_signal`. Its range is fixed by the length before the loop.
pub delete_matches : ℕ → List Signal → ℕ → ℕ → Outcome (List Signal)
unfolding index
delete_matches zero signals ty idx = done signals
delete_matches (suc n) signals ty idx =
    let again = λ (l : List Signal). delete_matches n l ty (idx + 1) in
    index signals idx >>= λ s.
    if s.ty == ty then (remove_at signals idx >>= again) else again signals

module _ ⦃B : BitField⦄ where
  pub has_signal : SignalManager → ℕ → Outcome Bool
  has_signal m signal_type = Bitmap.get m.signal_bitmap signal_type

  -- The result says whether the process was waiting for this type.
  pub register_signal : SignalManager → ℕ → Signal → Outcome (Bool × SignalManager)
  register_signal m signal_type signal = do
    assert (not (signal_type == 0))
    b ← Bitmap.set m.signal_bitmap signal_type true
    let m' = record m { signal_bitmap = b; signals = m.signals ++ signal ∷ [] }
    if signal_type == m.waiting_for
        then done (true, record m' { waiting_for = 0 })
        else done (false, m')

  unfoldable pub register_wait_for : SignalManager → ℕ → SignalManager
  register_wait_for m signal_type = record m { waiting_for = signal_type }

  pub get_signal : SignalManager → ℕ → Outcome (Option Signal)
  get_signal m signal_type = Bitmap.get m.signal_bitmap signal_type >>= λ registered.
      if registered then find_signal (length m.signals) m.signals signal_type 0 else done none

  pub delete_signal : SignalManager → ℕ → Outcome SignalManager
  delete_signal m signal_type = Bitmap.get m.signal_bitmap signal_type >>= λ registered.
      if registered
      then (do
        b ← Bitmap.set m.signal_bitmap signal_type false
        l ← delete_matches (length m.signals) m.signals signal_type 0
        done (record m { signal_bitmap = b; signals = l }))
      else done m
