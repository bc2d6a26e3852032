-- ===== src/Drivers/Nvme/Queues/Samples.antt =====
-- Rings to try the theorems on: a submission queue of four slots, and a completion queue of two whose
-- controller sets the phase bits.
use good_os_framework.Base.{
  ℕ, zero, suc, ◌%◌, ◌<◌, ◌≤◌, ◌≡◌, refl, Bool, true, false, not, List, [], ◌∷◌, replicate, get_or,
  if◌then◌else◌, arith,
}
use good_os_framework.Drivers.Nvme.Cmd.{NvmeCommand, zeroed}
use good_os_framework.Drivers.Nvme.Memory.{Dma}
use good_os_framework.Drivers.Nvme.Queues.{NvmeCompletion, NvmeSubQueue, NvmeCompQueue}
use good_os_framework.Drivers.Nvme.Queues.Submit.{IsValid}
use good_os_framework.Drivers.Nvme.Queues.Complete.{blank, phase_bit, phase_of, Synced, post_lem}
use good_os_framework.Drivers.Nvme.Queues.Poll.{at_poll}

abbrev pub page : Dma
page = record { virt = 0; phys = 4096; size = 4096 }

abbrev pub command : NvmeCommand
command = record zeroed { opcode = 6; c_id = 7 }

abbrev pub ring : NvmeSubQueue
ring = record {
  dma = page;
  commands = replicate 4 zeroed;
  head = 2;
  tail = 3;
  len = 4;
  doorbell = 4096;
}

abbrev pub full_ring : NvmeSubQueue
full_ring = record ring { tail = 1 }

pub ring-IsValid : IsValid ring
ring-IsValid = record {
  room = omega arith;
  some_slot = omega arith;
  head_in = omega arith;
  tail_in = omega arith;
}

pub full_ring-IsValid : IsValid full_ring
full_ring-IsValid = record {
  room = omega arith;
  some_slot = omega arith;
  head_in = omega arith;
  tail_in = omega arith;
}

-- The entries of a controller on a ring of two slots.
abbrev pub hist : ℕ → NvmeCompletion
hist k = record blank { c_id = k; status = if phase_of 2 k then 1 else 0 }

pub hist_tagged : (k : ℕ) → phase_bit (hist k) ≡ phase_of 2 k
hist_tagged k = tag (phase_of 2 k)
  where
    tag : (b : Bool) → phase_bit (record blank { c_id = k; status = if b then 1 else 0 }) ≡ b
    tag true = refl
    tag false = refl

abbrev pub fresh_ring : NvmeCompQueue
fresh_ring = record {
  dma = page;
  commands = blank ∷ blank ∷ [];
  head = 0;
  phase = true;
  len = 2;
  doorbell = 4100;
}

abbrev pub one_posted : NvmeCompQueue
one_posted = record fresh_ring { commands = hist 0 ∷ blank ∷ [] }

abbrev pub two_posted : NvmeCompQueue
two_posted = record fresh_ring { commands = hist 0 ∷ hist 1 ∷ [] }

pub unposted :
    (k : ℕ) → k < 2 → phase_bit (get_or (blank ∷ blank ∷ []) (k % 2) blank) ≡ not (phase_of 2 k)
unfolding phase_of
unposted zero h = refl
unposted (suc zero) h = refl
unposted (suc (suc k)) h = absurd (omega arith)

pub fresh_ring-Synced : Synced fresh_ring hist 0 0
unfolding phase_of
fresh_ring-Synced = record {
  some_slot = omega arith;
  room = omega arith;
  head = refl;
  phase = refl;
  reach = omega arith;
  within = omega arith;
  tagged = hist_tagged;
  fresh = λ k a b. absurd (omega arith);
  stale = λ k a b. unposted k b;
}

pub two_posted-Synced : Synced two_posted hist 0 2
two_posted-Synced = post_lem one_posted hist 0 1 one_posted-Synced (omega arith)
  where
    one_posted-Synced : Synced one_posted hist 0 1
    one_posted-Synced = post_lem fresh_ring hist 0 0 fresh_ring-Synced (omega arith)

-- The second entry comes with the second poll.
abbrev pub memory : ℕ → List NvmeCompletion
memory zero = hist 0 ∷ blank ∷ []
memory (suc t) = hist 0 ∷ hist 1 ∷ []

abbrev pub posted : ℕ → ℕ
posted zero = 1
posted (suc t) = 2

pub memory-Synced : (t : ℕ) → Synced (at_poll fresh_ring memory t) hist 0 (posted t)
memory-Synced zero = post_lem fresh_ring hist 0 0 fresh_ring-Synced (omega arith)
memory-Synced (suc t) = two_posted-Synced

pub first_poll : (t : ℕ) → t < 1 → posted t ≤ 1
first_poll zero h = omega arith
first_poll (suc t) h = absurd (omega arith)
