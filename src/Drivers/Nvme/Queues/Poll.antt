-- ===== src/Drivers/Nvme/Queues/Poll.antt =====
-- Waiting for completions: `complete_spin` polls, `complete_n` takes several entries at once.
use native.Mathlib.Nat.{mod-lt, mod-add-mod}
use good_os_framework.Base.{
  ℕ, zero, suc, ◌+◌, ◌-◌, ◌%◌, ◌≤◌, ◌<◌, ◌≡◌, refl, subst, ap, ap₂, sym, ◌∙◌, not, none, some, List,
  get_or, ==_ne, leb, if◌then◌else◌, done, ◌>>=◌, arith,
}
use good_os_framework.Drivers.Nvme.Queues.{
  NvmeCompletion, NvmeCompQueue, Completed, complete, complete_spin, complete_n,
}
use good_os_framework.Drivers.Nvme.Queues.Complete.{
  Synced, phase_of, blank, complete_lem, complete_at, phase_carry, consume,
}

-- The queue as the `t`-th poll finds it.
abbrev pub at_poll : NvmeCompQueue → (ℕ → List NvmeCompletion) → ℕ → NvmeCompQueue
at_poll q env t = record q { commands = env t }

spin_step :
    (fuel : ℕ) (env : ℕ → List NvmeCompletion) (t : ℕ) (q : NvmeCompQueue)
    → complete (at_poll q env t) ≡ done (none, at_poll q env t)
    → complete_spin (suc fuel) env t q ≡ complete_spin fuel env (t + 1) (at_poll q env t)
unfolding complete_spin
spin_step fuel env t q p = ground (arith, p)

spin_stop :
    (fuel : ℕ) (env : ℕ → List NvmeCompletion) (t : ℕ) (q q' : NvmeCompQueue) (c : Completed)
    → complete (at_poll q env t) ≡ done (some c, q')
    → complete_spin (suc fuel) env t q ≡ done (c, q')
unfolding complete_spin
spin_stop fuel env t q q' c p = ground (arith, p)

abbrev Idle : NvmeCompQueue → (ℕ → List NvmeCompletion) → ℕ → Type 0
Idle q env t = complete (at_poll q env t) ≡ done (none, at_poll q env t)

-- If the first `n` polls find nothing and the next one an entry, polling more than `n` times returns
-- that entry.
pub spin_lem :
    (n fuel : ℕ) (env : ℕ → List NvmeCompletion) (t : ℕ) (q q' : NvmeCompQueue) (c : Completed)
    → n < fuel
    → ((i : ℕ) → i < n → complete (at_poll q env (t + i)) ≡ done (none, at_poll q env (t + i)))
    → complete (at_poll q env (t + n)) ≡ done (some c, q')
    → complete_spin fuel env t q ≡ done (c, q')
spin_lem n zero env t q q' c h idle found = absurd (omega arith)
spin_lem zero (suc fuel) env t q q' c h idle found =
    spin_stop fuel env t q q' c
      (ap (λ i. complete (at_poll q env i)) {x = t} {y = t + 0} (omega arith) ∙ found)
spin_lem (suc n) (suc fuel) env t q q' c h idle found =
    spin_step fuel env t q
      (subst (Idle q env) {x = t + 0} {y = t} (omega arith) (idle 0 (omega arith)))
    ∙ spin_lem n fuel env (t + 1) (at_poll q env t) q' c (omega arith)
        (λ i lt.
          subst (Idle q env) {x = t + suc i} {y = t + 1 + i} (omega arith)
            (idle (suc i) (omega arith)))
        (ap (λ j. complete (at_poll q env j)) {x = t + 1 + n} {y = t + suc n} (omega arith) ∙ found)

-- The queue with the first `m` entries consumed.
abbrev at_entry : NvmeCompQueue → ℕ → NvmeCompQueue
at_entry q m = record q { head = m % q.len; phase = phase_of q.len m }

-- What `complete_n` makes of the head and the phase before it waits.
skip_eq :
    (q : NvmeCompQueue) (n d : ℕ)
    → 0 < q.len
    → d < q.len
    → q.head ≡ n % q.len
    → q.phase ≡ phase_of q.len n
    → record q {
      head = (q.head + (d + 1) - 1) % q.len;
      phase = if leb q.len (q.head + (d + 1) - 1) then not q.phase else q.phase;
    }
      ≡ at_entry q (n + d)
skip_eq q n d pos h hd ph =
    ap₂ (λ x y. record q { head = x; phase = y })
      (ap (λ t. (t + (d + 1) - 1) % q.len) hd
        ∙ ap (λ t. t % q.len) {x = n % q.len + (d + 1) - 1} {y = n % q.len + d} (omega arith)
        ∙ mod-add-mod n q.len d)
      (ap₂ (λ x y. if leb q.len (x + (d + 1) - 1) then not y else y) hd ph
        ∙ ap (λ t. if leb q.len t then not (phase_of q.len n) else phase_of q.len n)
            {x = n % q.len + (d + 1) - 1} {y = n % q.len + d} (omega arith)
        ∙ sym (phase_carry q.len n d pos (omega arith)))

-- A poll finds nothing while the entry is not posted.
poll_idle :
    (q : NvmeCompQueue) (hist : ℕ → NvmeCompletion) (n m posted : ℕ)
    → Synced q hist n posted
    → posted ≤ m
    → m < n + q.len
    → complete (at_entry q m) ≡ done (none, at_entry q m)
poll_idle q hist n m posted s wait near =
    (complete_at (at_entry q m) (get_or q.commands (m % q.len) blank) s.some_slot
        (omega (arith, s.room, mod-lt m s.some_slot)) refl).1
      (s.stale m wait near)

-- `complete_n` for `d + 1` entries, of which the ring can hold as many: if the controller has posted
-- the last of them at the poll `wait` and not before, then more than `wait` polls are enough. It
-- returns the last of them with the new and the old head, and has consumed all of them.
pub complete_n_lem :
    (q : NvmeCompQueue) (hist : ℕ → NvmeCompletion) (env : ℕ → List NvmeCompletion) (posted : ℕ → ℕ)
    (n d wait fuel : ℕ)
    → d < q.len
    → ((t : ℕ) → Synced (at_poll q env t) hist n (posted t))
    → ((t : ℕ) → t < wait → posted t ≤ n + d)
    → n + d < posted wait
    → wait < fuel
    → (q' : NvmeCompQueue) × (complete_n fuel env q (d + 1)
        ≡ done (((n + d + 1) % q.len, hist (n + d), n % q.len), q'))
      × Synced q' hist (n + d + 1) (posted wait)
unfolding complete_n
complete_n_lem q hist env posted n d wait fuel small s idle found enough =
    let now = s wait in
    let (q', p, k) =
      (complete_lem (at_entry (at_poll q env wait) (n + d)) hist (n + d) (posted wait) (
          consume (at_poll q env wait) hist n (posted wait) (n + d) now (omega arith)
            (omega arith))).0
        found in
    (
      q',
      rw (==_ne (d + 1) 0 (omega arith), ==_ne q.len 0 (omega (arith, now.some_slot)))
          (ap (λ w. complete_spin fuel env 0 w >>= λ r. done ((r.0.0, r.0.1, q.head), r.1))
              (skip_eq q n d now.some_slot small now.head now.phase)
            ∙ ap (λ r. r >>= λ r. done ((r.0.0, r.0.1, q.head), r.1))
                (spin_lem wait fuel env 0 (at_entry q (n + d)) q' _ enough
                  (λ t lt.
                    poll_idle (at_poll q env (0 + t)) hist n (n + d) (posted (0 + t)) (s (0 + t))
                      (subst (λ j. posted j ≤ n + d) {x = t} {y = 0 + t} (omega arith) (idle t lt))
                      (omega arith))
                  (ap (λ j. complete (at_poll (at_entry q (n + d)) env j)) {x = 0 + wait} {y = wait}
                      (omega arith)
                    ∙ p))
            ∙ ap (λ x. done (((n + d + 1) % q.len, hist (n + d), x), q')) now.head),
      k,
    )

-- `complete_spin` alone waits for the entry at the head.
pub complete_spin_lem :
    (q : NvmeCompQueue) (hist : ℕ → NvmeCompletion) (env : ℕ → List NvmeCompletion) (posted : ℕ → ℕ)
    (n wait fuel : ℕ)
    → ((t : ℕ) → Synced (at_poll q env t) hist n (posted t))
    → ((t : ℕ) → t < wait → posted t ≤ n)
    → n < posted wait
    → wait < fuel
    → (q' : NvmeCompQueue) × (complete_spin fuel env 0 q
        ≡ done (((n + 1) % q.len, hist n, n % q.len), q'))
      × Synced q' hist (n + 1) (posted wait)
complete_spin_lem q hist env posted n wait fuel s idle found enough =
    let (q', p, k) = (complete_lem (at_poll q env wait) hist n (posted wait) (s wait)).0 found in
    (
      q',
      spin_lem wait fuel env 0 q q' _ enough
          (λ t lt. subst (Idle q env) {x = t} {y = 0 + t} (omega arith) (
            (complete_lem (at_poll q env t) hist n (posted t) (s t)).1
              (omega (arith, idle t lt, (s t).reach))))
          (ap (λ j. complete (at_poll q env j)) {x = 0 + wait} {y = wait} (omega arith) ∙ p),
      k,
    )

-- `complete_n` for one entry.
pub complete_one_lem :
    (q : NvmeCompQueue) (hist : ℕ → NvmeCompletion) (env : ℕ → List NvmeCompletion) (posted : ℕ → ℕ)
    (n wait fuel : ℕ)
    → ((t : ℕ) → Synced (at_poll q env t) hist n (posted t))
    → ((t : ℕ) → t < wait → posted t ≤ n)
    → n < posted wait
    → wait < fuel
    → (q' : NvmeCompQueue) × (complete_n fuel env q 1
        ≡ done (((n + 1) % q.len, hist n, n % q.len), q'))
      × Synced q' hist (n + 1) (posted wait)
complete_one_lem q hist env posted n wait fuel s idle found enough =
    subst
      (λ m.
        (q' : NvmeCompQueue) × (complete_n fuel env q 1
          ≡ done (((m + 1) % q.len, hist m, n % q.len), q'))
        × Synced q' hist (m + 1) (posted wait))
      {x = n + 0} {y = n} (omega arith)
      (complete_n_lem q hist env posted n 0 wait fuel ((s 0).some_slot) s
        (λ t lt. omega (arith, idle t lt)) (omega (arith, found)) enough)
