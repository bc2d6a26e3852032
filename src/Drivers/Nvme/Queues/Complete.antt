-- ===== src/Drivers/Nvme/Queues/Complete.antt =====
-- The completion queue against the controller's side of the protocol: which entries have been posted,
-- and which of them the driver has consumed.
use good_os_framework.Base.{
  ℕ, zero, suc, ◌+◌, ◌-◌, ◌/◌, ◌%◌, ◌≤◌, ◌<◌, ◌≡◌, ◌≢◌, refl, ap, ap₂, sym, ◌∙◌, Bool, true, false,
  not, none, some, List, length, length-set, get_elem?-eq-get_or, get_or, get_or-set_self,
  get_or-set_ne, ◌==◌, ==_ne, ==_refl, leb, leb-true, leb-false, if◌then◌else◌, done, arith, dec_lt,
  ℕ_discrete, Bool-cases, inl, inr,
}
use good_os_framework.Base
use native.Mathlib.Nat.{add-mod_right, mod-lt, mod-add-mod}
use good_os_framework.Base.Modulo.{mod_apart, mod_once, div_carry}
use good_os_framework.Drivers.Nvme.Queues.{NvmeCompletion, NvmeCompQueue, advance, complete}

abbrev pub blank : NvmeCompletion
blank = record { command_specific = 0; rsvd = 0; sq_head = 0; sq_id = 0; c_id = 0; status = 0 }

-- The phase bit of an entry, and the one that the controller gives to its `k`-th entry: it flips in
-- each round of the ring.
abbrev pub phase_bit : NvmeCompletion → Bool
phase_bit e = e.status % 2 == 1

unfoldable pub phase_of : ℕ → ℕ → Bool
phase_of len k = k / len % 2 == 0

-- The controller has posted the first `posted` entries of `hist`, the driver has consumed the first
-- `n`. A slot that is not posted yet keeps the phase bit of the round before.
pub record Synced (q : NvmeCompQueue) (hist : ℕ → NvmeCompletion) (n posted : ℕ) : Type 0 where
  pub some_slot : 0 < q.len
  pub room : q.len ≤ length q.commands
  pub head : q.head ≡ n % q.len
  pub phase : q.phase ≡ phase_of q.len n
  pub reach : n ≤ posted
  pub within : posted ≤ n + q.len
  pub tagged : (k : ℕ) → phase_bit (hist k) ≡ phase_of q.len k
  pub fresh : (k : ℕ) → n ≤ k → k < posted → get_or q.commands (k % q.len) blank ≡ hist k
  pub stale :
      (k : ℕ)
      → posted ≤ k
      → k < n + q.len
      → phase_bit (get_or q.commands (k % q.len) blank) ≡ not (phase_of q.len k)

-- The phase flips where the round ends.
pub phase_carry :
    (len n d : ℕ)
    → 0 < len
    → d ≤ len
    → phase_of len (n + d)
      ≡ (if leb len (n % len + d) then not (phase_of len n) else phase_of len n)
unfolding phase_of
phase_carry len n d pos h = ground (arith, div_carry n d len pos h)

-- An entry and the one that its slot held a round earlier.
same_slot : (len k : ℕ) → 0 < len → len ≤ k → (k - len) % len ≡ k % len
same_slot len k pos h =
    sym (add-mod_right (k - len) len) ∙ ap (λ t. t % len) {x = k - len + len} {y = k} (omega arith)

phase_before : (len k : ℕ) → 0 < len → len ≤ k → phase_of len (k - len) ≡ not (phase_of len k)
phase_before len k pos h = flip (phase_of len (k - len)) (phase_of len k) (
    sym (ap (phase_of len) {x = k - len + len} {y = k} (omega arith))
    ∙ phase_carry len (k - len) len pos (omega arith)
    ∙ rw (leb-true len ((k - len) % len + len) (omega arith)))
  where
    flip : (a b : Bool) → b ≡ not a → a ≡ not b
    flip true b e = ground arith
    flip false b e = ground arith

-- The driver's side of consuming the entries up to `m`.
pub consume :
    (q : NvmeCompQueue) (hist : ℕ → NvmeCompletion) (n posted m : ℕ)
    → Synced q hist n posted
    → n ≤ m
    → m ≤ posted
    → Synced (record q { head = m % q.len; phase = phase_of q.len m }) hist m posted
consume q hist n posted m s lo hi = record {
  some_slot = s.some_slot;
  room = s.room;
  head = refl;
  phase = refl;
  reach = hi;
  within = omega (arith, s.within);
  tagged = s.tagged;
  fresh = λ k a b. s.fresh k (omega arith) b;
  stale = λ k a b. elim (dec_lt k (n + q.len)) [
    | yes p ↦ s.stale k a p
    | no p ↦
        ap (λ i. phase_bit (get_or q.commands i blank))
          (sym (same_slot q.len k s.some_slot (omega arith)))
        ∙ ap phase_bit (s.fresh (k - q.len) (omega arith) (omega (arith, s.within)))
        ∙ s.tagged (k - q.len)
        ∙ phase_before q.len k s.some_slot (omega arith)
  ];
}

-- The controller's side: as long as the ring has room, it posts its next entry, which takes the slot
-- of no entry that waits to be consumed.
pub post_lem :
    (q : NvmeCompQueue) (hist : ℕ → NvmeCompletion) (n posted : ℕ)
    → Synced q hist n posted
    → posted < n + q.len
    → Synced
        (record q { commands = Base.set q.commands (posted % q.len) (hist posted) })
        hist
        n
        (posted + 1)
post_lem q hist n posted s room = record {
  some_slot = s.some_slot;
  room = omega (arith, s.room, length-set q.commands (posted % q.len) (hist posted));
  head = s.head;
  phase = s.phase;
  reach = omega (arith, s.reach);
  within = omega arith;
  tagged = s.tagged;
  fresh = λ k a b. elim (ℕ_discrete k posted) [
    | yes e ↦ rw e (
        get_or-set_self q.commands (posted % q.len) (hist posted) blank
          (omega (arith, s.room, mod-lt posted s.some_slot)))
    | no ne ↦
        get_or-set_ne q.commands (posted % q.len) (k % q.len) (hist posted) blank
          (λ e. mod_apart k posted q.len (omega arith) (omega arith) (sym e))
        ∙ s.fresh k a (omega arith)
  ];
  stale = λ k a b.
      ap phase_bit (
        get_or-set_ne q.commands (posted % q.len) (k % q.len) (hist posted) blank
          (mod_apart posted k q.len (omega arith) (omega (arith, s.reach))))
      ∙ s.stale k (omega arith) b;
}

-- `complete` at a slot: the entry is taken exactly if it carries the phase of the queue.
pub complete_at :
    (q : NvmeCompQueue) (entry : NvmeCompletion)
    → 0 < q.len
    → q.head < length q.commands
    → get_or q.commands q.head blank ≡ entry
    → (phase_bit entry ≡ q.phase
        → complete q
          ≡ done (some ((q.head + 1) % q.len, entry, q.head), advance q ((q.head + 1) % q.len)))
      × (phase_bit entry ≡ not q.phase → complete q ≡ done (none, q))
unfolding complete
complete_at q entry pos h e = (
  (λ p. ground (arith, get_elem?-eq-get_or q.commands q.head blank h)),
  (λ p. ground (arith, get_elem?-eq-get_or q.commands q.head blank h)),
)

-- The head after `n + 1` entries and its phase.
advance-eq :
    (q : NvmeCompQueue) (n : ℕ)
    → 0 < q.len
    → q.head ≡ n % q.len
    → q.phase ≡ phase_of q.len n
    → advance q ((q.head + 1) % q.len)
      ≡ record q { head = (n + 1) % q.len; phase = phase_of q.len (n + 1) }
advance-eq q n pos h p =
    ap₂ (λ x y. record q { head = x; phase = y })
      (ap (λ t. (t + 1) % q.len) h ∙ mod-add-mod n q.len 1)
      (ap₂ (λ x y. if (x + 1) % q.len == 0 then not y else y) h p
        ∙ carry
        ∙ sym (phase_carry q.len n 1 pos (omega arith)))
  where
    carry :
        (if (n % q.len + 1) % q.len == 0 then not (phase_of q.len n) else phase_of q.len n)
        ≡ (if leb q.len (n % q.len + 1) then not (phase_of q.len n) else phase_of q.len n)
    carry =
        let c = mod_once (n % q.len + 1) q.len (omega (arith, mod-lt n {m = q.len} pos)) in
        ground (arith, c, mod-lt n {m = q.len} pos)

-- `complete` returns the oldest entry that waits, with the new and the old head, and moves on by one;
-- with no entry waiting it returns `None` and changes nothing. It never takes a stale entry.
pub complete_lem :
    (q : NvmeCompQueue) (hist : ℕ → NvmeCompletion) (n posted : ℕ)
    → Synced q hist n posted
    → (n < posted
        → (q' : NvmeCompQueue) × (complete q ≡ done (some ((n + 1) % q.len, hist n, n % q.len), q'))
          × Synced q' hist (n + 1) posted)
      × (n ≡ posted → complete q ≡ done (none, q))
complete_lem q hist n posted s = (
  (λ lt. (
    record q { head = (n + 1) % q.len; phase = phase_of q.len (n + 1) },
    (complete_at q (hist n) s.some_slot inside (at_head ∙ s.fresh n (omega arith) lt)).0
          (s.tagged n ∙ sym s.phase)
        ∙ ap₂ (λ x y. done (some (x, hist n, q.head), y))
            (ap (λ t. (t + 1) % q.len) s.head ∙ mod-add-mod n q.len 1)
            (advance-eq q n s.some_slot s.head s.phase)
        ∙ ap
            (λ x. done (
              some ((n + 1) % q.len, hist n, x),
              record q { head = (n + 1) % q.len; phase = phase_of q.len (n + 1) },
            ))
            s.head,
    consume q hist n posted (n + 1) s (omega arith) (omega arith),
  )),
  (λ e. (complete_at q (get_or q.commands q.head blank) s.some_slot inside refl).1 (
      ap phase_bit at_head
      ∙ s.stale n (omega arith) (omega (arith, s.some_slot))
      ∙ ap not (sym s.phase))),
)
  where
    inside : q.head < length q.commands
    inside = omega (arith, s.head, s.room, mod-lt n s.some_slot)

    at_head : get_or q.commands q.head blank ≡ get_or q.commands (n % q.len) blank
    at_head = ap (λ t. get_or q.commands t blank) s.head
