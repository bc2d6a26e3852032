-- ===== src/Drivers/Nvme/Queues/Submit.antt =====
-- The submission queue is a bounded queue of the commands that the controller has not fetched.
use native.Mathlib.Nat.{mod-add-mod, mod-eq_of_lt}
use good_os_framework.Base.{
  ℕ, zero, suc, ◌+◌, ◌-◌, ◌%◌, ◌≤◌, ◌<◌, ◌≡◌, ◌≢◌, ◌↔◌, refl, ap, ap₂, sym, ◌∙◌, Bool, true, false,
  none, some, List, [], ◌∷◌, ◌++◌, drop, ltb, lt→ltb, ==_ne, ==_refl, ◌==◌, length, length-set,
  get_elem?, get_elem?-eq-get_or, get_or, get_or-set_self, get_or-set_ne, if◌then◌else◌, Outcome,
  done, arith, dec_lt, ℕ_discrete,
}
use good_os_framework.Base
use good_os_framework.Base.Modulo.{mod_once}
use good_os_framework.Drivers.Nvme.Cmd.{NvmeCommand, zeroed}
use good_os_framework.Drivers.Nvme.Queues.{NvmeSubQueue, is_empty, submit, submit_checked}

pub record IsValid (q : NvmeSubQueue) : Type 0 where
  pub room : q.len ≤ length q.commands
  pub some_slot : 0 < q.len
  pub head_in : q.head < q.len
  pub tail_in : q.tail < q.len

-- The number of commands from `head` up to `tail`.
abbrev pub pending_count : NvmeSubQueue → ℕ
pending_count q = (q.tail + q.len - q.head) % q.len

-- `n` commands from slot `h` on, going round at `len`.
abbrev pub slots : List NvmeCommand → ℕ → ℕ → ℕ → List NvmeCommand
slots l len h zero = []
slots l len h (suc n) = get_or l h zeroed ∷ slots l len ((h + 1) % len) n

-- The commands that the controller has not fetched, the oldest first.
abbrev pub pending : NvmeSubQueue → List NvmeCommand
pending q = slots q.commands q.len q.head (pending_count q)

pub length-slots : (l : List NvmeCommand) (len h n : ℕ) → length (slots l len h n) ≡ n
length-slots l len h zero = refl
length-slots l len h (suc n) = ap suc (length-slots l len ((h + 1) % len) n)

-- Fewer than `len` steps round the ring do not lead back.
round_ne : (len h k : ℕ) → h < len → suc k < len → (h + suc k) % len ≢ h
round_ne len h k p q = omega (arith, mod_once (h + suc k) len (omega arith))

pub pending_facts :
    (q : NvmeSubQueue)
    → IsValid q
    → (pending_count q < q.len) × ((q.head + pending_count q) % q.len ≡ q.tail)
pending_facts q v =
    let back = mod_once (q.tail + q.len - q.head) q.len (omega arith) in
    (
      omega (arith, back),
      omega (arith, back, mod_once (q.head + pending_count q) q.len (omega (arith, back))),
    )

-- Writing just behind `n` commands adds the command to them.
slots-set :
    (l : List NvmeCommand) (len n h i : ℕ) (c : NvmeCommand)
    → len ≤ length l
    → h < len
    → n < len
    → i ≡ (h + n) % len
    → slots (Base.set l i c) len h (suc n) ≡ slots l len h n ++ c ∷ []
slots-set l len zero h i c room p q e =
    rw (e ∙ ap (λ t. t % len) (omega arith) ∙ mod-eq_of_lt p)
      (rw (get_or-set_self l h c zeroed (omega arith)))
slots-set l len (suc n) h i c room p q e =
    ap₂ ◌∷◌ (get_or-set_ne l i h c zeroed (rw e (round_ne len h n p q)))
      (slots-set l len n ((h + 1) % len) i c room (omega arith) (omega arith) (e ∙ shift))
  where
    shift : (h + suc n) % len ≡ ((h + 1) % len + n) % len
    shift = rw mod-add-mod (ap (λ t. t % len) (omega arith))

-- The slot after `tail` is `head` exactly if one slot alone is left.
full_facts :
    (q : NvmeSubQueue) → IsValid q → (pending_count q + 1 ≡ q.len) ↔ ((q.tail + 1) % q.len ≡ q.head)
full_facts q v =
    let back = mod_once (q.tail + q.len - q.head) q.len (omega arith) in
    let on = mod_once (q.tail + 1) q.len (omega arith) in
    ((λ e. omega (arith, back, on)), (λ e. omega (arith, back, on)))

-- The queue after a submission.
abbrev pub submitted : NvmeSubQueue → NvmeCommand → NvmeSubQueue
submitted q c = record q { commands = Base.set q.commands q.tail c; tail = (q.tail + 1) % q.len }

pub submitted-IsValid : (q : NvmeSubQueue) (c : NvmeCommand) → IsValid q → IsValid (submitted q c)
submitted-IsValid q c v = record {
  room = omega (arith, v.room, length-set q.commands q.tail c);
  some_slot = v.some_slot;
  head_in = v.head_in;
  tail_in = omega (arith, v.tail_in);
}

pub submitted_count :
    (q : NvmeSubQueue) (c : NvmeCommand)
    → IsValid q
    → ((pending_count q + 1 < q.len) → pending_count (submitted q c) ≡ suc (pending_count q))
      × ((pending_count q + 1 ≡ q.len) → pending_count (submitted q c) ≡ 0)
submitted_count q c v =
    let back = mod_once (q.tail + q.len - q.head) q.len (omega arith) in
    let on = mod_once (q.tail + 1) q.len (omega arith) in
    let again = mod_once ((q.tail + 1) % q.len + q.len - q.head) q.len (omega (arith, on)) in
    ((λ e. omega (arith, back, on, again)), (λ e. omega (arith, back, on, again)))

pub submit-eq :
    (q : NvmeSubQueue) (c : NvmeCommand)
    → IsValid q
    → submit q c ≡ done ((q.tail + 1) % q.len, submitted q c)
unfolding submit
submit-eq q c v = rw (lt→ltb q.tail (length q.commands) (omega arith), ==_ne q.len 0 (omega arith))

-- With two slots left the check lets the command through.
pub submit_checked-eq :
    (q : NvmeSubQueue) (c : NvmeCommand)
    → IsValid q
    → pending_count q + 1 ≢ q.len
    → submit_checked q c ≡ done (some ((q.tail + 1) % q.len), submitted q c)
unfolding submit_checked
submit_checked-eq q c v ne = rw (
  ==_ne q.len 0 (omega arith),
  ==_ne q.head ((q.tail + 1) % q.len) (λ e. ne ((full_facts q v).1 (sym e))),
  lt→ltb q.tail (length q.commands) (omega arith),
)

pub submit_checked_full :
    (q : NvmeSubQueue) (c : NvmeCommand)
    → IsValid q
    → pending_count q + 1 ≡ q.len
    → submit_checked q c ≡ done (none, q)
unfolding submit_checked
submit_checked_full q c v e = rw (==_ne q.len 0 (omega arith), (full_facts q v).0 e, ==_refl q.head)

pub pending-submitted :
    (q : NvmeSubQueue) (c : NvmeCommand)
    → IsValid q
    → pending_count q + 1 ≢ q.len
    → pending (submitted q c) ≡ pending q ++ c ∷ []
pending-submitted q c v ne =
    ap (slots (Base.set q.commands q.tail c) q.len q.head)
      ((submitted_count q c v).0 (omega (arith, ne, (pending_facts q v).0)))
    ∙ slots-set q.commands q.len (pending_count q) q.head q.tail c v.room v.head_in
        (pending_facts q v).0 (sym (pending_facts q v).1)

-- `submit_checked` adds the command behind the pending ones and returns the new tail, as long as two
-- slots are left; on the last slot it refuses and changes nothing. The queue stays valid.
pub submit_checked_lem :
    (q : NvmeSubQueue) (c : NvmeCommand)
    → IsValid q
    → ((pending_count q + 1 ≡ q.len) → submit_checked q c ≡ done (none, q))
      × ((pending_count q + 1 ≢ q.len)
          → (q' : NvmeSubQueue) × (submit_checked q c ≡ done (some q'.tail, q'))
            × (pending q' ≡ pending q ++ c ∷ [])
            × (q'.head ≡ q.head)
            × IsValid q')
submit_checked_lem q c v = (
  submit_checked_full q c v,
  (λ ne. (
    submitted q c,
    submit_checked-eq q c v ne,
    pending-submitted q c v ne,
    refl,
    submitted-IsValid q c v,
  )),
)

-- `submit` does not check: on the last slot it makes the queue look empty, and no pending command is
-- left.
pub submit_overflow :
    (q : NvmeSubQueue) (c : NvmeCommand)
    → IsValid q
    → pending_count q + 1 ≡ q.len
    → (q' : NvmeSubQueue) × (submit q c ≡ done (q'.tail, q'))
      × (pending q' ≡ [])
      × (is_empty q' ≡ true)
unfolding is_empty
submit_overflow q c v e = (
  submitted q c,
  submit-eq q c v,
  ap (slots (Base.set q.commands q.tail c) q.len q.head) ((submitted_count q c v).1 e),
  rw ((full_facts q v).0 e) (==_refl q.head),
)

slots-drop :
    (l : List NvmeCommand) (len k n h : ℕ)
    → h < len
    → k ≤ n
    → slots l len ((h + k) % len) (n - k) ≡ drop k (slots l len h n)
slots-drop l len zero n h p q =
    ap₂ (slots l len) (ap (λ t. t % len) (omega arith) ∙ mod-eq_of_lt p) (omega arith)
slots-drop l len (suc k) zero h p q = absurd (omega arith)
slots-drop l len (suc k) (suc n) h p q =
    ap₂ (slots l len) (ap (λ t. t % len) (omega arith) ∙ sym (mod-add-mod (h + 1) len k))
      (omega arith)
    ∙ slots-drop l len k n ((h + 1) % len) (omega arith) (omega arith)

fetched_count :
    (q : NvmeSubQueue) (k : ℕ)
    → IsValid q
    → k ≤ pending_count q
    → (q.tail + q.len - (q.head + k) % q.len) % q.len ≡ pending_count q - k
fetched_count q k v h =
    let back = mod_once (q.tail + q.len - q.head) q.len (omega arith) in
    let on = mod_once (q.head + k) q.len (omega (arith, back)) in
    omega
      (arith, back, on, mod_once (q.tail + q.len - (q.head + k) % q.len) q.len (omega (arith, on)))

-- When the controller reports a head that is `k` slots on, the `k` oldest commands are no longer
-- pending, and the others are as they were; the queue stays valid.
pub fetch_lem :
    (q : NvmeSubQueue) (k : ℕ)
    → IsValid q
    → k ≤ pending_count q
    → let q' = record q { head = (q.head + k) % q.len } in
      (pending q' ≡ drop k (pending q)) × IsValid q'
fetch_lem q k v h = (
  ap (slots q.commands q.len ((q.head + k) % q.len)) (fetched_count q k v h)
      ∙ slots-drop q.commands q.len k (pending_count q) q.head v.head_in h,
  record {
    room = v.room;
    some_slot = v.some_slot;
    head_in = omega (arith, v.some_slot);
    tail_in = v.tail_in;
  },
)
