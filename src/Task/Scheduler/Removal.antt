-- ===== src/Task/Scheduler/Removal.antt =====
-- Taking a thread out of the queue, and what happens to threads that are no longer alive.
use good_os_framework.Base.{
  ℕ, ◌≡◌, ◌≢◌, refl, ap, ◌∙◌, none, some, List, [], ◌∷◌, ◌++◌, ◌==◌, ==_refl, ==_ne, if◌then◌else◌,
  done, panics, ◌>>=◌, All, Option-cases, Bool-cases, inl, inr,
}
use good_os_framework.Task.Scheduler.{
  Thread, Scheduler, add, retain, remove, current_thread, save_context, keeps_turn, requeue, switch,
  schedule,
}

-- The queue without a thread.
unfoldable pub without : ℕ → List ℕ → List ℕ
without thread [] = []
without thread (x ∷ xs) = if x == thread then without thread xs else x ∷ without thread xs

without_absent : (thread : ℕ) (xs : List ℕ) → All (λ y. y ≢ thread) xs → without thread xs ≡ xs
unfolding without
without_absent thread [] h = refl
without_absent thread (x ∷ xs) (ne, h) =
    rw (==_ne x thread ne) (ap {B = List ℕ} (λ l. x ∷ l) (without_absent thread xs h))

module _ {C : Type 0} where
  abbrev pub IsAlive : Scheduler C → ℕ → Type 0
  IsAlive s thread = (t : Thread C) × (s.threads thread ≡ some t)

  retain_lem :
      (s : Scheduler C) (thread : ℕ) (xs : List ℕ)
      → IsAlive s thread
      → All (IsAlive s) xs
      → retain s thread xs ≡ done (without thread xs)
  unfolding retain without
  retain_lem s thread [] live lives = refl
  retain_lem s thread (x ∷ xs) (t, e) ((t', e'), lives) =
      rw (e', e, retain_lem s thread xs (t, e) lives) refl

  -- A thread that has been added is taken out again, if it is alive, it was not in the queue before and all
  -- threads of the queue are alive: the queue is as it was before.
  pub remove-add :
      (s : Scheduler C) (thread : ℕ)
      → IsAlive s thread
      → All (IsAlive s) s.ready_threads
      → All (λ y. y ≢ thread) s.ready_threads
      → remove thread (add thread s) ≡ done s
  unfolding remove add without
  remove-add s thread live lives absent =
      let same : (without thread (thread ∷ s.ready_threads) ≡ s.ready_threads) =
        rw (==_refl thread) (without_absent thread s.ready_threads absent) in
      rw
        (
          retain_lem (record s { ready_threads = thread ∷ s.ready_threads }) thread
              (thread ∷ s.ready_threads) live (live, lives),
          same,
        )
        refl

  abbrev pub Dead : Scheduler C → ℕ → Type 0
  Dead s thread = s.threads thread ≡ none

  retain_panics :
      (s : Scheduler C) (thread dead : ℕ) (before after : List ℕ)
      → Dead s dead
      → retain s thread (before ++ dead ∷ after) ≡ panics
  unfolding retain
  retain_panics s thread dead [] after d = rw d refl
  retain_panics s thread dead (x ∷ xs) after d =
      rw (retain_panics s thread dead xs after d) (elim (Option-cases (s.threads x)) [
        | inl e ↦ rw e refl
        | inr (t, e) ↦ rw e (elim (Option-cases (s.threads thread)) [
          | inl e' ↦ rw e' refl
          | inr (t', e') ↦ rw e' refl
        ])
      ])

  -- A thread of the queue that is no longer alive makes every later call of `remove` panic, whatever
  -- thread is to be removed.
  pub remove_panics :
      (s : Scheduler C) (thread dead : ℕ) (before after : List ℕ)
      → s.ready_threads ≡ before ++ dead ∷ after
      → Dead s dead
      → remove thread s ≡ panics
  unfolding remove
  remove_panics s thread dead before after e d =
      ap (λ l. retain s thread l >>= λ kept. done (record s { ready_threads = kept })) e
      ∙ ap (λ o. o >>= λ kept. done (record s { ready_threads = kept }))
          (retain_panics s thread dead before after d)

  -- A thread other than the current one that is no longer alive when it is at the head of the queue makes
  -- the next call of `schedule` on a processor with a thread panic, whatever the state of that thread.
  pub schedule_panics :
      (lapic_id : ℕ) (context : C) (s : Scheduler C) (current dead : ℕ) (rest : List ℕ)
      → s.current_threads lapic_id ≡ some current
      → s.ready_threads ≡ dead ∷ rest
      → dead ≢ current
      → Dead s dead
      → schedule lapic_id context s ≡ panics
  unfolding schedule current_thread save_context switch requeue
  schedule_panics lapic_id context s current dead rest e q ne d =
      elim (Option-cases (s.threads current)) [
        | inl gone ↦ rw (e, gone, q, ==_refl lapic_id, d) refl
        | inr (t, live) ↦ elim (Bool-cases (keeps_turn t.state)) [
          | inl k ↦
              rw (e, live, q, ==_refl current, k, ==_refl lapic_id, ==_ne dead current ne, d) refl
          | inr k ↦
              rw (e, live, q, ==_refl current, k, ==_refl lapic_id, ==_ne dead current ne, d) refl
        ]
      ]
