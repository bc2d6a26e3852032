-- ===== src/Drivers/Nvme/Device/Move.antt =====
-- A transfer of one chunk against the controller's side.
use good_os_framework.Base.{
  ℕ, ◌+◌, ◌/◌, ◌%◌, ◌^◌, ◌≤◌, ◌<◌, ◌≡◌, ◌≢◌, refl, Bool, List, [], ◌∷◌, ◌++◌, ==_ne, lt→ltb,
  leb-true, done, panics,
}
use good_os_framework.Drivers.Nvme.Cmd.{NvmeCommand}
use good_os_framework.Drivers.Nvme.Queues.{NvmeCompletion, NvmeCompQueue}
use good_os_framework.Drivers.Nvme.Queues.Submit.{IsValid, submitted, submit-eq}
use good_os_framework.Drivers.Nvme.Queues.Complete.{Synced}
use good_os_framework.Drivers.Nvme.Queues.Poll.{at_poll, complete_one_lem}
use good_os_framework.Drivers.Nvme.Device.{
  Write, Controller, NvmeDevice, sqy_tdbl, cqy_hdbl, doorbell, write_reg_idx,
}
use good_os_framework.Drivers.Nvme.Device.Transfer.{
  io_command, second_pointer, complete_io, namespace_io,
}

-- The command for a chunk, and the trace with the doorbell rung for it.
abbrev pub chunk_command : NvmeDevice → ℕ → ℕ → ℕ → ℕ → Bool → NvmeCommand
chunk_command d ns_id blocks lba addr write =
    io_command write (d.io_sq.tail % 2 ^ 16) ns_id lba blocks addr (second_pointer d blocks addr)

abbrev pub rung : NvmeDevice → List Write
rung d = d.writes ++ (doorbell d sqy_tdbl 1, (d.io_sq.tail + 1) % d.io_sq.len % 2 ^ 32) ∷ []

-- What the controller shows in the completion queue at each poll after the doorbell.
abbrev pub answers : Controller → NvmeDevice → ℕ → List NvmeCompletion
answers ctl d = ctl.posted (rung d) d.io_cq.dma.phys

-- What the driver has done when the transfer is complete.
pub record Moved (d : NvmeDevice) (c : NvmeCommand) (hist : ℕ → NvmeCompletion) (n posted : ℕ)
    (d' : NvmeDevice) : Type 0 where
  pub queue : d'.io_sq ≡ record (submitted d.io_sq c) { head = (hist n).sq_head }
  pub writes : d'.writes ≡ rung d ++ (doorbell d cqy_hdbl 1, (n + 1) % d.io_cq.len % 2 ^ 32) ∷ []
  pub submissions : d'.stats.submissions ≡ d.stats.submissions + 1
  pub completions : d'.stats.completions ≡ d.stats.completions + 1
  pub synced : Synced d'.io_cq hist (n + 1) posted

moved : NvmeDevice → NvmeCommand → (ℕ → NvmeCompletion) → ℕ → NvmeCompQueue → NvmeDevice
moved d c hist n cq = record d {
  io_sq = record (submitted d.io_sq c) { head = (hist n).sq_head };
  io_cq = cq;
  stats = record { completions = d.stats.completions + 1; submissions = d.stats.submissions + 1 };
  writes = rung d ++ (doorbell d cqy_hdbl 1, (n + 1) % d.io_cq.len % 2 ^ 32) ∷ [];
}

-- For 1 to 65536 blocks, if the controller posts its next completion at the poll `wait` and not before,
-- and the driver polls more often than that: with a zero status the command lies in the slot of the
-- old tail, both doorbells have been rung, the submission and the completion are counted, and the head
-- of the submission queue is the one reported; with any other status the driver panics.
pub namespace_io_lem :
    (ctl : Controller) (d : NvmeDevice) (ns_id blocks lba addr : ℕ) (write : Bool)
    (hist : ℕ → NvmeCompletion) (posted : ℕ → ℕ) (n wait fuel : ℕ)
    → 0 < blocks
    → blocks ≤ 0x10000
    → IsValid d.io_sq
    → ((t : ℕ) → Synced (at_poll d.io_cq (answers ctl d) t) hist n (posted t))
    → ((t : ℕ) → t < wait → posted t ≤ n)
    → n < posted wait
    → wait < fuel
    → ((hist n).status / 2 ≡ 0
        → (d' : NvmeDevice) × (namespace_io ctl fuel d ns_id blocks lba addr write ≡ done d')
          × Moved d (chunk_command d ns_id blocks lba addr write) hist n (posted wait) d')
      × ((hist n).status / 2 ≢ 0 → namespace_io ctl fuel d ns_id blocks lba addr write ≡ panics)
unfolding namespace_io complete_io write_reg_idx doorbell moved
namespace_io_lem ctl d ns_id blocks lba addr write hist posted n wait fuel low high v s idle found
      enough =
    let c = chunk_command d ns_id blocks lba addr write in
    let (cq, p, k) =
      complete_one_lem d.io_cq hist (answers ctl d) posted n wait fuel s idle found enough in
    (
      (λ ok. (
        moved d c hist n cq,
        rw (lt→ltb 0 blocks low, leb-true blocks 0x10000 high, submit-eq d.io_sq c v, p, ok) refl,
        record { queue = refl; writes = refl; submissions = refl; completions = refl; synced = k },
      )),
      (λ bad.
          rw (lt→ltb 0 blocks low, leb-true blocks 0x10000 high, submit-eq d.io_sq c v, p)
            (rw (==_ne ((hist n).status / 2) 0 bad) refl)),
    )
