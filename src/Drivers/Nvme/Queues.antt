-- ===== src/Drivers/Nvme/Queues.antt =====
-- src/drivers/nvme/queues.rs: the submission queue, a ring that the driver fills and the controller
-- empties, and the completion queue, which goes the other way. The entries of a ring are the first
-- `queue_length` elements of its DMA buffer; an array index past them panics, as does a remainder by 0.
pub mod Submit
pub mod Complete
pub mod Poll
pub mod Samples
mod Tests
use good_os_framework.Base.{
  ℕ, zero, suc, ◌+◌, ◌-◌, ◌*◌, ◌/◌, ◌%◌, ◌^◌, min, Bool, true, false, not, Option, none, some, List,
  ltb, leb, ◌==◌, get_elem?, if◌then◌else◌, Outcome, done, panics, spins, ◌>>=◌, unwrap,
}
use good_os_framework.Base
use good_os_framework.Data.Bitmap.{BitField}
use good_os_framework.Memory.Frame.{BitmapFrameAllocator}
use good_os_framework.Drivers.Nvme.Cmd.{NvmeCommand}
use good_os_framework.Drivers.Nvme.Memory
use good_os_framework.Drivers.Nvme.Memory.{Dma}

pub record NvmeCompletion : Type 0 where
  pub command_specific : ℕ
  pub rsvd : ℕ
  pub sq_head : ℕ
  pub sq_id : ℕ
  pub c_id : ℕ
  pub status : ℕ

abbrev pub queue_length : ℕ
queue_length = 1024

pub record NvmeSubQueue : Type 0 where
  pub dma : Dma
  pub commands : List NvmeCommand
  pub head : ℕ
  pub tail : ℕ
  pub len : ℕ
  pub doorbell : ℕ

pub record NvmeCompQueue : Type 0 where
  pub dma : Dma
  pub commands : List NvmeCompletion
  pub head : ℕ
  pub phase : Bool
  pub len : ℕ
  pub doorbell : ℕ

-- `a % b`
abbrev pub remainder : ℕ → ℕ → Outcome ℕ
remainder a b = if b == 0 then panics else done (a % b)

-- `entries` is what the memory of the new buffer holds.
module _ ⦃B : BitField⦄ where
  unfoldable pub new_sub_queue :
      ℕ
      → BitmapFrameAllocator
      → List NvmeCommand
      → ℕ
      → ℕ
      → Outcome (NvmeSubQueue × BitmapFrameAllocator)
  new_sub_queue offset a entries len doorbell = do
    (dma, a') ← Memory.allocate offset a 4096
    done (
      record {
        dma = dma;
        commands = entries;
        head = 0;
        tail = 0;
        len = min len queue_length;
        doorbell = doorbell;
      },
      a',
    )

  unfoldable pub new_comp_queue :
      ℕ
      → BitmapFrameAllocator
      → List NvmeCompletion
      → ℕ
      → ℕ
      → Outcome (NvmeCompQueue × BitmapFrameAllocator)
  new_comp_queue offset a entries len doorbell = do
    (dma, a') ← Memory.allocate offset a 4096
    done (
      record {
        dma = dma;
        commands = entries;
        head = 0;
        phase = true;
        len = min len queue_length;
        doorbell = doorbell;
      },
      a',
    )

unfoldable pub is_empty : NvmeSubQueue → Bool
is_empty q = q.head == q.tail

unfoldable pub is_full : NvmeSubQueue → Outcome Bool
is_full q = remainder (q.tail + 1) q.len >>= λ next. done (q.head == next)

-- The result is the new tail.
unfoldable pub submit : NvmeSubQueue → NvmeCommand → Outcome (ℕ × NvmeSubQueue)
submit q entry =
    if ltb q.tail (Base.length q.commands)
    then (remainder (q.tail + 1) q.len >>= λ next.
        done (next, record q { commands = Base.set q.commands q.tail entry; tail = next }))
    else panics

unfoldable pub submit_checked : NvmeSubQueue → NvmeCommand → Outcome (Option ℕ × NvmeSubQueue)
unfolding is_full submit
submit_checked q entry = do
  full ← is_full q
  if full then done (none, q) else (submit q entry >>= λ r. done (some r.0, r.1))

unfoldable pub get_addr : NvmeSubQueue → ℕ
get_addr q = q.dma.phys

unfoldable pub comp_get_addr : NvmeCompQueue → ℕ
comp_get_addr q = q.dma.phys

-- `==` of two Booleans.
abbrev pub same : Bool → Bool → Bool
same true b = b
same false b = not b

-- What `complete` returns: the new head, the entry and the old head.
abbrev pub Completed : Type 0
Completed = ℕ × NvmeCompletion × ℕ

-- The queue after the entry at `head` is consumed, whose successor is `next`.
abbrev pub advance : NvmeCompQueue → ℕ → NvmeCompQueue
advance q next = record q { head = next; phase = if next == 0 then not q.phase else q.phase }

unfoldable pub complete : NvmeCompQueue → Outcome (Option Completed × NvmeCompQueue)
complete q = do
  entry ← unwrap (get_elem? q.commands q.head)
  if same (entry.status % 2 == 1) q.phase
      then (remainder (q.head + 1) q.len >>= λ next.
          done (some (next, entry, q.head), advance q next))
      else done (none, q)

-- `env t` is what the controller has put into the memory of the queue at the `t`-th poll.
unfoldable pub complete_spin :
    ℕ → (ℕ → List NvmeCompletion) → ℕ → NvmeCompQueue → Outcome (Completed × NvmeCompQueue)
unfolding complete
complete_spin zero env t q = spins
complete_spin (suc fuel) env t q = complete (record q { commands = env t }) >>= λ r. elim r.0 [
  | none ↦ complete_spin fuel env (t + 1) r.1
  | some c ↦ done (c, r.1)
]

-- Skips `commands - 1` entries and waits for the next. For no commands the difference wraps.
unfoldable pub complete_n :
    ℕ → (ℕ → List NvmeCompletion) → NvmeCompQueue → ℕ → Outcome (Completed × NvmeCompQueue)
unfolding complete_spin
complete_n fuel env q commands =
    let head = if commands == 0 then (q.head + (2 ^ 64 - 1)) % 2 ^ 64 else q.head + commands - 1 in
    remainder head q.len >>= λ at.
    (complete_spin fuel env 0
        (record q { head = at; phase = if leb q.len head then not q.phase else q.phase })
      >>= λ r. done ((r.0.0, r.0.1, q.head), r.1))
