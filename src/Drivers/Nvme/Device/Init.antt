-- ===== src/Drivers/Nvme/Device/Init.antt =====
-- src/drivers/nvme/nvme.rs: bringing up a controller.
use Prim.Native.Nat.{bit_or, bit_and}
use good_os_framework.Base.{
  ℕ, zero, suc, ◌+◌, ◌-◌, ◌*◌, ◌/◌, ◌%◌, ◌^◌, Bool, true, false, Option, none, some, List, [], ◌∷◌,
  ◌==◌, if◌then◌else◌, Outcome, done, spins, ◌>>=◌, ◌>>◌,
}
use good_os_framework.Data.Bitmap.{BitField}
use good_os_framework.Memory.Frame.{BitmapFrameAllocator}
use good_os_framework.Drivers.Nvme.Cmd.{
  NvmeCommand, create_io_completion_queue, create_io_submission_queue,
}
use good_os_framework.Drivers.Nvme.Memory
use good_os_framework.Drivers.Nvme.Queues.{
  NvmeCompletion, queue_length, new_sub_queue, new_comp_queue, get_addr, comp_get_addr, same,
}
use good_os_framework.Drivers.Nvme.Device.{
  Controller, NvmeDevice, offset32, offset64, vs, cc, csts, aqa, cap, asq, acq, get_reg32,
  get_reg64, set_reg32, set_reg64,
}
use good_os_framework.Drivers.Nvme.Device.Admin.{submit_and_complete_admin}

-- `prp_list[i - 1] = buffer + i * 4096` for the `n` numbers from `i` on. The last of the 512 entries is
-- not written.
unfoldable pub prp_entries : ℕ → ℕ → ℕ → List ℕ
prp_entries phys i zero = []
prp_entries phys i (suc n) = (phys + i * 4096) ∷ prp_entries phys (i + 1) n

-- The value of the register CC that sets the sizes of the queue entries.
unfoldable pub entry_sizes : ℕ → ℕ
entry_sizes old = bit_or (bit_and old 0xFF00000F) (bit_or (4 * 2 ^ 20) (6 * 2 ^ 16))

module _ (ctl : Controller) (fuel : ℕ) where
  -- Polls CSTS until the ready bit is `ready`; the polls so far are `t`, and `n` are left.
  unfoldable pub wait_status : ℕ → NvmeDevice → Bool → ℕ → Outcome (Unit {0})
  wait_status zero d ready t = spins
  wait_status (suc n) d ready t =
      let rest = wait_status n d ready (t + 1) in
      get_reg32 ctl d (offset32 csts) t >>= λ status.
      if same (status % 2 == 1) ready then done tt else rest

  -- Disables the controller, configures it and enables it.
  unfoldable pub configure : NvmeDevice → Outcome NvmeDevice
  configure d = do
    on ← get_reg32 ctl d (offset32 cc) 0
    d1 ← set_reg32 d (offset32 cc) (bit_and on 0xFFFFFFFE)
    wait_status fuel d1 false 0
    d2 ← set_reg64 d1 (offset64 asq) (get_addr d1.admin_sq)
    d3 ← set_reg64 d2 (offset64 acq) (comp_get_addr d2.admin_cq)
    d4 ← set_reg32 d3 (offset32 aqa) (bit_or ((queue_length - 1) * 2 ^ 16) (queue_length - 1))
    old ← get_reg32 ctl d4 (offset32 cc) 0
    d5 ← set_reg32 d4 (offset32 cc) (entry_sizes old)
    off ← get_reg32 ctl d5 (offset32 cc) 0
    d6 ← set_reg32 d5 (offset32 cc) (bit_or off 1)
    wait_status fuel d6 true 0
    done d6

  -- Asks for the queue pair of the device.
  unfoldable pub create_queues : NvmeDevice → Outcome (Option NvmeDevice)
  create_queues d = do
    (r, d1) ← submit_and_complete_admin ctl fuel d (λ c_id ptr.
        create_io_completion_queue c_id d.q_id (comp_get_addr d.io_cq) (queue_length - 1))
    elim r [
      | none ↦ done none
      | some comp ↦ (do
        (r', d2) ← submit_and_complete_admin ctl fuel d1 (λ c_id ptr.
            create_io_submission_queue c_id d.q_id (get_addr d1.io_sq) (queue_length - 1) d.q_id)
        elim r' [
          | none ↦ done none
          | some comp' ↦ done (some (record d2 { q_id = (d2.q_id + 1) % 2 ^ 16 }))
        ])
    ]

-- The new queues hold `commands` and `completions`. An `Err` is `none`.
module _ ⦃B : BitField⦄ (ctl : Controller) (fuel offset : ℕ) where
  unfoldable pub init :
      BitmapFrameAllocator
      → List NvmeCommand
      → List NvmeCompletion
      → ℕ
      → ℕ
      → Outcome (Option NvmeDevice × BitmapFrameAllocator)
  init a commands completions addr len = do
    (admin_sq, a1) ← new_sub_queue offset a commands queue_length 0
    (admin_cq, a2) ← new_comp_queue offset a1 completions queue_length 0
    (io_sq, a3) ← new_sub_queue offset a2 commands queue_length 0
    (io_cq, a4) ← new_comp_queue offset a3 completions queue_length 0
    (buffer, a5) ← Memory.allocate offset a4 4096
    (prp_list, a6) ← Memory.allocate offset a5 (8 * 512)
    let dev : NvmeDevice = record {
      addr = addr;
      dstrd = ctl.reg [] (addr + offset64 cap) 0 / 2 ^ 32 % 2 ^ 4;
      len = len;
      admin_sq = admin_sq;
      admin_cq = admin_cq;
      io_sq = io_sq;
      io_cq = io_cq;
      buffer = buffer;
      prp_list = prp_list;
      prps = prp_entries buffer.phys 1 511;
      namespaces = [];
      stats = record { completions = 0; submissions = 0 };
      q_id = 1;
      writes = [];
    }
    shown_cap ← get_reg64 ctl dev (offset64 cap) 0
    shown_vs ← get_reg32 ctl dev (offset32 vs) 0
    shown_cc ← get_reg32 ctl dev (offset32 cc) 0
    configured ← configure ctl fuel dev
    created ← create_queues ctl fuel configured
    done (created, a6)
