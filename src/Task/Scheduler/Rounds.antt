-- ===== src/Task/Scheduler/Rounds.antt =====
-- A whole round of turns.
use mathlib.Core.List.{append_assoc, append-nil}
use good_os_framework.Base.{
  ℕ, ◌≡◌, ◌≢◌, refl, sym, ◌∙◌, ap, subst, List, [], ◌∷◌, ◌++◌, length, done, All, All-append, arith,
}
use good_os_framework.Task.Scheduler.{Scheduler}
use good_os_framework.Task.Scheduler.Turns.{
  first_of, Enters, Runs, IsRing, All-Runs, schedule_turn, interrupts, AllSaved, Distinct,
}

All-left : (P : ℕ → Type 0) (xs ys : List ℕ) → All P (xs ++ ys) → All P xs
All-left P [] ys h = tt
All-left P (x ∷ xs) ys h = (h.0, All-left P xs ys h.1)

All-right : (P : ℕ → Type 0) (xs ys : List ℕ) → All P (xs ++ ys) → All P ys
All-right P [] ys h = h
All-right P (x ∷ xs) ys h = All-right P xs ys h.1

apart_sym : (u : ℕ) (xs : List ℕ) → All (λ y. y ≢ u) xs → All (λ y. u ≢ y) xs
apart_sym u [] h = tt
apart_sym u (x ∷ xs) (ne, h) = ((λ e. ne (sym e)), apart_sym u xs h)

-- The threads that a processor goes on with, when those of the first list end their turns and those of the
-- second list come behind them.
abbrev resumed : List ℕ → List ℕ → List ℕ
resumed [] vs = []
resumed (u ∷ us) [] = us ++ u ∷ []
resumed (u ∷ us) (v ∷ vs) = us ++ v ∷ []

resumed_step :
    (u : ℕ) (us vs : List ℕ)
    → first_of ((us ++ vs) ++ u ∷ []) ∷ resumed us (vs ++ u ∷ []) ≡ resumed (u ∷ us) vs
resumed_step u [] [] = refl
resumed_step u [] (v ∷ vs) = refl
resumed_step u (x ∷ us) [] = refl
resumed_step u (x ∷ us) (v ∷ vs) = refl

-- The threads of a ring from the second one on, and then the first.
abbrev pub rotated : List ℕ → List ℕ
rotated [] = []
rotated (u ∷ us) = us ++ u ∷ []

module _ {C : Type 0} where
  AllSaved-before :
      (u : ℕ) (threads : List ℕ) (contexts : List C) (s s1 s' : Scheduler C)
      → ((other : ℕ) → other ≢ u → s1.threads other ≡ s.threads other)
      → All (λ y. y ≢ u) threads
      → AllSaved threads contexts s1 s'
      → AllSaved threads contexts s s'
  AllSaved-before u [] contexts s s1 s' same apart h = tt
  AllSaved-before u (x ∷ xs) [] s s1 s' same apart h = h
  AllSaved-before u (x ∷ xs) (c ∷ cs) s s1 s' same (ne, apart) (h, hs) =
      ((λ t e. h t (same x ne ∙ e)), AllSaved-before u xs cs s s1 s' same apart hs)

  -- Once a thread has had its turn, the processor enters the kernel on the stack of its thread.
  abbrev Entered : ℕ → List ℕ → Scheduler C → Scheduler C → Type 0
  Entered lapic_id [] s s' = s ≡ s'
  Entered lapic_id (u ∷ us) s s' = Enters lapic_id s'

  Entered-after :
      (lapic_id : ℕ) (us : List ℕ) (s s' : Scheduler C)
      → Enters lapic_id s
      → Entered lapic_id us s s'
      → Enters lapic_id s'
  Entered-after lapic_id [] s s' h same = subst (Enters lapic_id) same h
  Entered-after lapic_id (u ∷ us) s s' h now = now

  -- The threads of `us` have their turns, one after the other, and then come behind those of `vs`.
  turns_lem :
      (lapic_id : ℕ) (us vs : List ℕ) (contexts : List C) (s : Scheduler C)
      → length us ≡ length contexts
      → IsRing lapic_id (us ++ vs) s
      → All (Runs s) (us ++ vs)
      → Distinct us
      → (s' : Scheduler C) × (interrupts lapic_id contexts s ≡ done (resumed us vs, s'))
        × IsRing lapic_id (vs ++ us) s'
        × Entered lapic_id us s s'
        × AllSaved us contexts s s'
        × ((x : ℕ) → All (λ y. x ≢ y) us → s'.threads x ≡ s.threads x)
  turns_lem lapic_id [] vs [] s e ring runs d = (
    s,
    refl,
    subst (λ r. IsRing lapic_id r s) (sym (append-nil vs)) ring,
    refl,
    tt,
    (λ x out. refl),
  )
  turns_lem lapic_id [] vs (c ∷ cs) s e ring runs d = absurd (omega arith)
  turns_lem lapic_id (u ∷ us) vs [] s e ring runs d = absurd (omega arith)
  turns_lem lapic_id (u ∷ us) vs (c ∷ cs) s e ring (r, rs) (fresh, d) =
      let (next, s1, p, at, ring1, enters, saved) =
        schedule_turn lapic_id c s u (us ++ vs) ring (r, rs) in
      let runs1 = All-Runs u c s s1 (u ∷ us ++ vs) saved (r, rs) in
      let (s', q, ring', entered, all, others) =
        turns_lem lapic_id us (vs ++ u ∷ []) cs s1 (omega arith)
          (subst (λ l. IsRing lapic_id l s1) (append_assoc us vs (u ∷ [])) ring1)
          (All-append (Runs s1) us (vs ++ u ∷ []) (All-left (Runs s1) us vs runs1.1)
            (All-append (Runs s1) vs (u ∷ []) (All-right (Runs s1) us vs runs1.1) (runs1.0, tt)))
          d in
      (
        s',
        rw p (
            rw q (
              ap (λ l. done (l, s'))
                (ap (λ n. n ∷ resumed us (vs ++ u ∷ [])) at ∙ resumed_step u us vs))),
        subst (λ l. IsRing lapic_id l s') (append_assoc vs (u ∷ []) us) ring',
        Entered-after lapic_id us s1 s' enters entered,
        (
          (λ t live. others u (apart_sym u us fresh) ∙ saved.here t live),
          AllSaved-before u us cs s s1 s' saved.elsewhere fresh all,
        ),
        (λ x out. others x out.1 ∙ saved.elsewhere x out.0),
      )

  -- If the threads of a processor and of the queue are distinct, alive and do not wait, and the
  -- processor is interrupted once for each of them, it goes on with each in the order of the queue and
  -- at last with the first again: the processor and the queue are as before, the kernel is entered on the
  -- stack of the thread of the processor, every thread has the context with which its turn ended, and no
  -- other thread has changed.
  pub round_lem :
      (lapic_id : ℕ) (ring : List ℕ) (contexts : List C) (s : Scheduler C)
      → length ring ≡ length contexts
      → IsRing lapic_id ring s
      → All (Runs s) ring
      → Distinct ring
      → (s' : Scheduler C) × (interrupts lapic_id contexts s ≡ done (rotated ring, s'))
        × IsRing lapic_id ring s'
        × Enters lapic_id s'
        × AllSaved ring contexts s s'
        × ((x : ℕ) → All (λ y. x ≢ y) ring → s'.threads x ≡ s.threads x)
  round_lem lapic_id [] contexts s e is runs d = absurd is
  round_lem lapic_id (u ∷ us) contexts s e is runs d =
      turns_lem lapic_id (u ∷ us) [] contexts s e
        (subst (λ l. IsRing lapic_id l s) (sym (append-nil (u ∷ us))) is)
        (subst (λ l. All (Runs s) l) (sym (append-nil (u ∷ us))) runs) d
