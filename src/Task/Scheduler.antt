-- ===== src/Task/Scheduler.antt =====
-- src/task/scheduler.rs, with the states of a thread of src/task/thread.rs. A `Weak` reference to a thread
-- is its id, and `upgrade` looks the id up among the threads that are still alive.
pub mod Turns
pub mod Rounds
pub mod Removal
mod Tests
use good_os_framework.Base.{
  ℕ, zero, suc, ◌+◌, ◌≡◌, Bool, true, false, not, Option, none, some, List, [], ◌∷◌, ◌++◌, ◌==◌,
  if◌then◌else◌, Outcome, done, panics, ◌>>=◌, unwrap,
}

pub data ThreadState : Type 0 where
  running : ThreadState
  ready : ThreadState
  blocked : ThreadState
  waiting : ThreadState
  terminated : ThreadState

unfoldable pub is_active : ThreadState → Bool
is_active running = true
is_active ready = true
is_active blocked = false
is_active waiting = false
is_active terminated = false

-- Whether the last thread goes to the end of the queue.
unfoldable pub keeps_turn : ThreadState → Bool
keeps_turn blocked = false
keeps_turn terminated = false
keeps_turn waiting = false
keeps_turn running = true
keeps_turn ready = true

-- `C` is the saved registers.
pub record Thread (C : Type 0) : Type 0 where
  pub state : ThreadState
  pub kernel_stack_end : ℕ
  pub context : C

-- The scheduler, the threads and the stack that each processor enters the kernel on.
pub record Scheduler (C : Type 0) : Type 0 where
  pub current_threads : ℕ → Option ℕ
  pub ready_threads : List ℕ
  pub threads : ℕ → Option (Thread C)
  pub ring0_rsp : ℕ → ℕ

abbrev pub update : {A : Type 0} → (ℕ → A) → ℕ → A → ℕ → A
update f i a j = if j == i then a else f j

module _ {C : Type 0} where
  unfoldable pub add : ℕ → Scheduler C → Scheduler C
  add thread s = record s { ready_threads = thread ∷ s.ready_threads }

  -- `upgrade` and `unwrap`.
  abbrev pub alive : Scheduler C → ℕ → Outcome (Thread C)
  alive s thread = unwrap (s.threads thread)

  -- `retain` over the queue; the argument is upgraded anew for each entry.
  unfoldable pub retain : Scheduler C → ℕ → List ℕ → Outcome (List ℕ)
  retain s thread [] = done []
  retain s thread (other ∷ others) =
      let rest = retain s thread others in
      alive s other >>= λ o.
      alive s thread >>= λ t. rest >>= λ kept. done (if other == thread then kept else other ∷ kept)

  unfoldable pub remove : ℕ → Scheduler C → Outcome (Scheduler C)
  remove thread s = do
    kept ← retain s thread s.ready_threads
    done (record s { ready_threads = kept })

  -- The thread of a processor; a processor without one is an index past the map.
  unfoldable pub current_thread : ℕ → Scheduler C → Outcome ℕ
  current_thread lapic_id s = unwrap (s.current_threads lapic_id)

  -- The context of the last thread is saved if the thread is alive.
  unfoldable pub save_context : ℕ → C → Scheduler C → Option (Thread C) → Option ℕ × Scheduler C
  save_context last context s none = (none, s)
  save_context last context s (some thread) = (
    some last,
    record s { threads = update s.threads last (some (record thread { context = context })) },
  )

  unfoldable pub requeue : Option ℕ → Scheduler C → Outcome (Scheduler C)
  requeue none s = done s
  requeue (some last) s = alive s last >>= λ thread. done (
      if keeps_turn thread.state
      then record s { ready_threads = s.ready_threads ++ last ∷ [] }
      else s)

  unfoldable pub switch : ℕ → Option ℕ → List ℕ → Scheduler C → Outcome (Scheduler C)
  switch lapic_id last [] s = done s
  switch lapic_id last (next ∷ rest) s = requeue last (record s {
    ready_threads = rest;
    current_threads = update s.current_threads lapic_id (some next);
  })

  -- The thread whose saved context the processor goes on with.
  unfoldable pub schedule : ℕ → C → Scheduler C → Outcome (ℕ × Scheduler C)
  schedule lapic_id context s = do
    current ← current_thread lapic_id s
    let (last, saved) = save_context current context s (s.threads current)
    s' ← switch lapic_id last saved.ready_threads saved
    next ← current_thread lapic_id s'
    thread ← alive s' next
    done (next, record s' { ring0_rsp = update s'.ring0_rsp lapic_id thread.kernel_stack_end })
