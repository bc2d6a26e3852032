-- ===== src/Task/Scheduler/Turns.antt =====
-- The threads take turns: what is preempted goes on later, with the registers it was stopped with.
use good_os_framework.Base.{
  ℕ, ◌≡◌, ◌≢◌, refl, sym, ap, ◌∙◌, true, Option, some, List, [], ◌∷◌, ◌++◌, ==_refl, ==_ne, Outcome,
  done, ◌>>=◌, All, ℕ_discrete,
}
use good_os_framework.Task.Scheduler.{
  Thread, Scheduler, update, current_thread, save_context, keeps_turn, requeue, switch, schedule,
}

abbrev pub Distinct : List ℕ → Type 0
Distinct [] = Unit
Distinct (x ∷ xs) = All (λ y. y ≢ x) xs × Distinct xs

abbrev pub first_of : List ℕ → ℕ
first_of [] = 0
first_of (x ∷ xs) = x

module _ {C : Type 0} where
  -- A thread that is alive and does not wait.
  abbrev pub Runs : Scheduler C → ℕ → Type 0
  Runs s thread = (t : Thread C) × (s.threads thread ≡ some t) × (keeps_turn t.state ≡ true)

  -- The thread of the processor and those behind it.
  abbrev pub IsRing : ℕ → List ℕ → Scheduler C → Type 0
  IsRing lapic_id [] s = ⊥
  IsRing lapic_id (current ∷ rest) s =
      (s.current_threads lapic_id ≡ some current) × (s.ready_threads ≡ rest)

  -- The processor enters the kernel on the stack of its thread.
  pub record Enters (lapic_id : ℕ) (s : Scheduler C) : Type 0 where
    pub thread : ℕ
    pub contents : Thread C
    pub of_processor : s.current_threads lapic_id ≡ some thread
    pub live : s.threads thread ≡ some contents
    pub stack : s.ring0_rsp lapic_id ≡ contents.kernel_stack_end

  -- The thread `current` with a new context, and all others as they were.
  pub record Saved (current : ℕ) (context : C) (s s' : Scheduler C) : Type 0 where
    pub here :
        (t : Thread C)
        → s.threads current ≡ some t
        → s'.threads current ≡ some (record t { context = context })
    pub elsewhere : (other : ℕ) → other ≢ current → s'.threads other ≡ s.threads other

  Saved-Runs :
      (current : ℕ) (context : C) (s s' : Scheduler C) (thread : ℕ)
      → Saved current context s s'
      → Runs s thread
      → Runs s' thread
  Saved-Runs current context s s' thread saved (t, e, k) = elim (ℕ_discrete thread current) [
    | yes same ↦ (
      record t { context = context },
      ap (s'.threads) same ∙ saved.here t (ap (s.threads) (sym same) ∙ e),
      k,
    )
    | no other ↦ (t, saved.elsewhere thread other ∙ e, k)
  ]

  pub All-Runs :
      (current : ℕ) (context : C) (s s' : Scheduler C) (ring : List ℕ)
      → Saved current context s s'
      → All (Runs s) ring
      → All (Runs s') ring
  All-Runs current context s s' [] saved r = tt
  All-Runs current context s s' (x ∷ xs) saved (r, rs) =
      (Saved-Runs current context s s' x saved r, All-Runs current context s s' xs saved rs)

  saved_lem :
      (current : ℕ) (context : C) (s s' : Scheduler C) (t : Thread C)
      → s.threads current ≡ some t
      → s'.threads ≡ update s.threads current (some (record t { context = context }))
      → Saved current context s s'
  saved_lem current context s s' t live same = record {
    here = λ u e.
        ap (λ f. f current) same ∙ rw (==_refl current) (moved t u (some-injective (sym live ∙ e)));
    elsewhere = λ other ne. ap (λ f. f other) same ∙ rw (==_ne other current ne) refl;
  }
    where
      moved :
          (x y : Thread C)
          → x ≡ y
          → some (record x { context = context }) ≡ some (record y { context = context })
      moved x y h =
          ap {A = Thread C} {B = Option (Thread C)} (λ v. some (record v { context = context })) h

      some-injective : {x y : Thread C} → some x ≡ some y → x ≡ y
      some-injective h = cc

  turn_to :
      (lapic_id : ℕ) (context : C) (s : Scheduler C) (current next : ℕ) (rest : List ℕ)
      (t t2 : Thread C)
      → s.current_threads lapic_id ≡ some current
      → s.ready_threads ≡ next ∷ rest
      → s.threads current ≡ some t
      → keeps_turn t.state ≡ true
      → update s.threads current (some (record t { context = context })) next ≡ some t2
      → schedule lapic_id context s
        ≡ done (
          next,
          record {
            threads = update s.threads current (some (record t { context = context }));
            current_threads = update s.current_threads lapic_id (some next);
            ready_threads = rest ++ current ∷ [];
            ring0_rsp = update s.ring0_rsp lapic_id t2.kernel_stack_end;
          },
        )
  unfolding schedule current_thread save_context switch requeue
  turn_to lapic_id context s current next rest t t2 e q live k found =
      rw (e, live, q, ==_refl current, k, ==_refl lapic_id, found) refl

  -- One turn: the ring moves on by one, and the processor enters the kernel on the stack of the next thread.
  pub schedule_turn :
      (lapic_id : ℕ) (context : C) (s : Scheduler C) (current : ℕ) (rest : List ℕ)
      → IsRing lapic_id (current ∷ rest) s
      → All (Runs s) (current ∷ rest)
      → (next : ℕ) × (s' : Scheduler C) × (schedule lapic_id context s ≡ done (next, s'))
        × (next ≡ first_of (rest ++ current ∷ []))
        × IsRing lapic_id (rest ++ current ∷ []) s'
        × Enters lapic_id s'
        × Saved current context s s'
  unfolding schedule current_thread save_context switch requeue
  schedule_turn lapic_id context s current [] (e, q) ((t, live, k), r) =
      let t' = record t { context = context } in
      let after = update s.threads current (some t') in
      (
        current,
        record s { threads = after; ring0_rsp = update s.ring0_rsp lapic_id t.kernel_stack_end },
        rw (e, live, q, e, ==_refl current) refl,
        refl,
        (e, q),
        record {
          thread = current;
          contents = t';
          of_processor = e;
          live = rw (==_refl current) refl;
          stack = rw (==_refl lapic_id) refl;
        },
        saved_lem current context s _ t live refl,
      )
  schedule_turn lapic_id context s current (next ∷ rest) (e, q) ((t, live, k), (r, rs)) =
      let t' = record t { context = context } in
      let after = update s.threads current (some t') in
      let saved = saved_lem current context s (record s { threads = after }) t live refl in
      let (t2, found, k2) =
        Saved-Runs current context s (record s { threads = after }) next saved r in
      (
        next,
        record {
          threads = after;
          current_threads = update s.current_threads lapic_id (some next);
          ready_threads = rest ++ current ∷ [];
          ring0_rsp = update s.ring0_rsp lapic_id t2.kernel_stack_end;
        },
        turn_to lapic_id context s current next rest t t2 e q live k found,
        refl,
        (rw (==_refl lapic_id) refl, refl),
        record {
          thread = next;
          contents = t2;
          of_processor = rw (==_refl lapic_id) refl;
          live = found;
          stack = rw (==_refl lapic_id) refl;
        },
        saved_lem current context s _ t live refl,
      )

  -- The processor is interrupted once for each context; the result lists the threads with whose contexts
  -- it goes on.
  abbrev pub interrupts : ℕ → List C → Scheduler C → Outcome (List ℕ × Scheduler C)
  interrupts lapic_id [] s = done ([], s)
  interrupts lapic_id (context ∷ contexts) s = schedule lapic_id context s >>= λ (next, s').
      interrupts lapic_id contexts s' >>= λ (later, s''). done (next ∷ later, s'')

  -- Each thread of the list has the context at its place of the other list, and is otherwise as it was.
  abbrev pub AllSaved : List ℕ → List C → Scheduler C → Scheduler C → Type 0
  AllSaved [] contexts s s' = Unit
  AllSaved (thread ∷ threads) [] s s' = ⊥
  AllSaved (thread ∷ threads) (context ∷ contexts) s s' =
      ((t : Thread C)
        → s.threads thread ≡ some t
        → s'.threads thread ≡ some (record t { context = context }))
      × AllSaved threads contexts s s'
