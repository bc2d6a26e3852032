-- ===== src/Task/Signal/Tests.antt =====
-- A manager with a bitmap of one byte and signals of the types 1 and 2.
use good_os_framework.Base.{◌≡◌, refl, Bool, none, some, [], ◌∷◌, done, panics, arith}
use good_os_framework.Data.Bitmap
use good_os_framework.Data.Bitmap.Bits.{u8_bits}
use good_os_framework.Data.Bitmap.Laws.{bit}
use good_os_framework.Task.Signal.{
  Signal, SignalManager, register_signal, get_signal, delete_signal, delete_matches, remove_at,
}
use good_os_framework.Task.Signal.Laws.{first_of_type, get_signal-register_signal}
use good_os_framework.Task.Signal.Delete.{delete_signal_panics}

abbrev one : Signal
one = record { ty = 1; payload = [] }

abbrev two : Signal
two = record { ty = 2; payload = 5 ∷ [] }

abbrev waiting : SignalManager
waiting = record {
  signal_bitmap = record { inner = 0b110 ∷ [] };
  signals = one ∷ two ∷ [];
  waiting_for = 3;
}

-- Deleting the older of two signals panics, deleting the last does not.
delete_runs :
    (delete_signal waiting 1 ≡ panics)
    × (delete_signal waiting 2
        ≡ done
            (record waiting { signal_bitmap = record { inner = 0b10 ∷ [] }; signals = one ∷ [] }))
unfolding delete_signal delete_matches remove_at Bitmap.get Bitmap.set
delete_runs = (refl, refl)

get_signal-register_signal_example :
    (woken : Bool) × (m' : SignalManager) × (register_signal waiting 2 two ≡ done (woken, m'))
    × (get_signal m' 2
        ≡ done
            (elim (first_of_type 2 waiting.signals) [ none ↦ some two | some older ↦ some older ]))
unfolding Bitmap.len
get_signal-register_signal_example =
    get_signal-register_signal waiting two (omega arith) (omega arith)

delete_signal_panics_example : delete_signal waiting 1 ≡ panics
unfolding Bitmap.len bit
delete_signal_panics_example = delete_signal_panics waiting [] [] one two refl (omega arith) tt refl
