-- ===== src/Task/Scheduler/Tests.antt =====
-- Three threads on the processor 0, and a fourth that has ended while it was in the queue.
use good_os_framework.Base.{
  ℕ, ◌*◌, ◌≡◌, ◌≢◌, refl, Option, none, some, List, [], ◌∷◌, ◌==◌, if◌then◌else◌, Outcome, done,
  panics, spins, All, arith,
}
use good_os_framework.Task.Scheduler.{
  ready, Thread, Scheduler, current_thread, save_context, keeps_turn, requeue, switch, schedule,
}
use good_os_framework.Task.Scheduler.Turns.{Enters, IsRing, interrupts, AllSaved}
use good_os_framework.Task.Scheduler.Rounds.{round_lem}
use good_os_framework.Task.Scheduler.Removal.{schedule_panics}

abbrev thread_of : ℕ → Option (Thread ℕ)
thread_of id =
    if id == 4
    then none
    else some (record { state = ready; kernel_stack_end = id * 65536; context = 0 })

abbrev three : Scheduler ℕ
three = record {
  current_threads = λ lapic_id. some 1;
  ready_threads = 2 ∷ 3 ∷ [];
  threads = thread_of;
  ring0_rsp = λ lapic_id. 0;
}

abbrev with_dead : Scheduler ℕ
with_dead = record three { ready_threads = 4 ∷ 2 ∷ [] }

abbrev ran : Outcome (ℕ × Scheduler ℕ) → Option (ℕ × List ℕ)
ran (done (next, s)) = some (next, s.ready_threads)
ran panics = none
ran spins = none

one_turn : ran (schedule 0 77 three) ≡ some (2, 3 ∷ 1 ∷ [])
unfolding schedule current_thread save_context switch requeue keeps_turn
one_turn = refl

round_lem_example :
    (s' : Scheduler ℕ) × (interrupts 0 (11 ∷ 12 ∷ 13 ∷ []) three ≡ done (2 ∷ 3 ∷ 1 ∷ [], s'))
    × IsRing 0 (1 ∷ 2 ∷ 3 ∷ []) s'
    × Enters 0 s'
    × AllSaved (1 ∷ 2 ∷ 3 ∷ []) (11 ∷ 12 ∷ 13 ∷ []) three s'
    × ((x : ℕ) → All (λ y. x ≢ y) (1 ∷ 2 ∷ 3 ∷ []) → s'.threads x ≡ three.threads x)
unfolding keeps_turn
round_lem_example =
    round_lem 0 (1 ∷ 2 ∷ 3 ∷ []) (11 ∷ 12 ∷ 13 ∷ []) three refl (refl, refl)
      ((_, refl, refl), ((_, refl, refl), ((_, refl, refl), tt)))
      (
        ((λ e. omega (arith, e)), ((λ e. omega (arith, e)), tt)),
        (((λ e. omega (arith, e)), tt), (tt, tt)),
      )

schedule_panics_example : schedule 0 9 with_dead ≡ panics
schedule_panics_example =
    schedule_panics 0 9 with_dead 1 4 (2 ∷ []) refl refl (λ e. omega (arith, e)) refl
