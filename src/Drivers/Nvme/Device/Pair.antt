-- ===== src/Drivers/Nvme/Device/Pair.antt =====
-- src/drivers/nvme/nvme.rs: queue pairs beside that of the device.
use Prim.Native.Nat.{bit_or}
use good_os_framework.Base.{
  ℕ, suc, ◌+◌, ◌-◌, ◌*◌, ◌/◌, ◌%◌, ◌^◌, Bool, true, false, not, Option, none, some, List, [], ◌∷◌,
  ◌++◌, ltb, leb, ◌==◌, if◌then◌else◌, Outcome, done, ◌>>=◌, ◌>>◌, assert,
}
use good_os_framework.Data.Bitmap.{BitField}
use good_os_framework.Memory.Frame.{BitmapFrameAllocator}
use good_os_framework.Drivers.Nvme.Cmd
use good_os_framework.Drivers.Nvme.Cmd.{NvmeCommand}
use good_os_framework.Drivers.Nvme.Memory.{Dma, DmaChunk, chunks, collect}
use good_os_framework.Drivers.Nvme.Queues.{
  NvmeCompletion, NvmeSubQueue, NvmeCompQueue, submit_checked, complete, complete_n, new_sub_queue,
  new_comp_queue, get_addr, comp_get_addr,
}
use good_os_framework.Drivers.Nvme.Device.{Write, Controller, NvmeDevice}
use good_os_framework.Drivers.Nvme.Device.Admin.{submit_and_complete_admin}
use good_os_framework.Drivers.Nvme.Device.Transfer.{io_command}

pub record NvmeQueuePair : Type 0 where
  pub id : ℕ
  pub sub_queue : NvmeSubQueue
  pub comp_queue : NvmeCompQueue

-- `id << 11 | tail` on 16 bits.
abbrev pub command_id : NvmeQueuePair → ℕ
command_id p = bit_or (p.id * 2 ^ 11 % 2 ^ 16) (p.sub_queue.tail % 2 ^ 16)

-- The commands of a transfer, one for each chunk, until the queue is full; the result counts them.
unfoldable pub submit_chunks :
    NvmeQueuePair
    → List Write
    → List DmaChunk
    → ℕ
    → Bool
    → ℕ
    → Outcome (ℕ × NvmeQueuePair × List Write)
submit_chunks p writes [] lba write reqs = done (reqs, p, writes)
submit_chunks p writes (chunk ∷ rest) lba write reqs =
    let blocks = (chunk.length + 512 - 1) / 512 in
    let ptr1 = if leb (blocks * 512) 4096 then 0 else chunk.phys_addr + 4096 in
    let entry = io_command write (command_id p) 1 lba blocks chunk.phys_addr ptr1 in
    submit_checked p.sub_queue entry >>= λ r. elim r.0 [
      | none ↦ done (reqs, p, writes)
      | some tail ↦
          submit_chunks (record p { sub_queue = r.1 })
            (writes ++ (p.sub_queue.doorbell, tail % 2 ^ 32) ∷ []) rest ((lba + blocks) % 2 ^ 64)
            write (reqs + 1)
    ]

unfoldable pub submit_io :
    NvmeQueuePair → List Write → Dma → ℕ → Bool → Outcome (ℕ × NvmeQueuePair × List Write)
submit_io p writes data' lba write =
    collect (suc data'.size) (chunks data' (2 * 4096)) >>= λ l. submit_chunks p writes l lba write 0

module _ (ctl : Controller) (fuel : ℕ) where
  unfoldable pub complete_io :
      NvmeQueuePair → List Write → ℕ → Outcome (Option ℕ × NvmeQueuePair × List Write)
  complete_io p writes n = do
    assert (ltb 0 n)
    ((tail, c_entry, prev), cq) ←
        complete_n fuel (ctl.posted writes p.comp_queue.dma.phys) p.comp_queue n
    done (
      if not (c_entry.status / 2 == 0) then none else some c_entry.sq_head,
      record p { comp_queue = cq; sub_queue = record (p.sub_queue) { head = c_entry.sq_head } },
      writes ++ (p.comp_queue.doorbell, tail % 2 ^ 32) ∷ [],
    )

  unfoldable pub quick_poll :
      NvmeQueuePair → List Write → Outcome (Bool × NvmeQueuePair × List Write)
  quick_poll p writes = do
    (r, cq) ←
        complete (record (p.comp_queue) { commands = ctl.posted writes p.comp_queue.dma.phys 0 })
    done (elim r [
      | none ↦ (false, record p { comp_queue = cq }, writes)
      | some (tail, c_entry, prev) ↦ (
        true,
        record p { comp_queue = cq; sub_queue = record (p.sub_queue) { head = c_entry.sq_head } },
        writes ++ (p.comp_queue.doorbell, tail % 2 ^ 32) ∷ [],
      )
    ])

-- The entries of new queues are what their memory holds, and an `Err` is `none`.
module _ ⦃B : BitField⦄ (ctl : Controller) (fuel offset : ℕ) where
  unfoldable pub create_io_queue_pair :
      NvmeDevice
      → BitmapFrameAllocator
      → List NvmeCommand
      → List NvmeCompletion
      → ℕ
      → Outcome (Option NvmeQueuePair × NvmeDevice × BitmapFrameAllocator)
  create_io_queue_pair d a commands completions len = do
    let head_offset = 0x1000 + 4 * 2 ^ d.dstrd * (2 * d.q_id + 1)
    assert (leb head_offset ((d.len + 2 ^ 64 - 4) % 2 ^ 64))
    (comp_queue, a1) ← new_comp_queue offset a completions len (d.addr + head_offset)
    (comp, d1) ← submit_and_complete_admin ctl fuel d (λ c_id ptr.
        Cmd.create_io_completion_queue c_id d.q_id (comp_get_addr comp_queue)
          ((len + 2 ^ 64 - 1) % 2 ^ 16))
    elim comp [
      | none ↦ done (none, d1, a1)
      | some entry ↦ (do
        (sub_queue, a2) ←
            new_sub_queue offset a1 commands len (d.addr + 0x1000 + 4 * 2 ^ d.dstrd * (2 * d.q_id))
        (comp', d2) ← submit_and_complete_admin ctl fuel d1 (λ c_id ptr.
            Cmd.create_io_submission_queue c_id d.q_id (get_addr sub_queue)
              ((len + 2 ^ 64 - 1) % 2 ^ 16) d.q_id)
        elim comp' [
          | none ↦ done (none, d2, a2)
          | some entry' ↦ done (
            some (record { id = d.q_id; sub_queue = sub_queue; comp_queue = comp_queue }),
            record d2 { q_id = (d2.q_id + 1) % 2 ^ 16 },
            a2,
          )
        ])
    ]

-- The completion queue is deleted only after the submission queue was.
module _ (ctl : Controller) (fuel : ℕ) where
  unfoldable pub delete_io_queue_pair : NvmeDevice → NvmeQueuePair → Outcome (Bool × NvmeDevice)
  delete_io_queue_pair d qpair = do
    (r, d1) ←
        submit_and_complete_admin ctl fuel d
          (λ c_id ptr. Cmd.delete_io_submission_queue c_id qpair.id)
    elim r [
      | none ↦ done (false, d1)
      | some entry ↦ (do
        (r', d2) ←
            submit_and_complete_admin ctl fuel d1
              (λ c_id ptr. Cmd.delete_io_completion_queue c_id qpair.id)
        done (elim r' [ none ↦ false | some entry' ↦ true ], d2))
    ]
