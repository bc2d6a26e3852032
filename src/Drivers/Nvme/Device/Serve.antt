-- ===== src/Drivers/Nvme/Device/Serve.antt =====
-- What an admin command does, and what the driver makes of the controller's answers.
use good_os_framework.Base.{
  ℕ, ◌+◌, ◌/◌, ◌%◌, ◌^◌, ◌≤◌, ◌<◌, ◌≡◌, refl, none, some, List, [], ◌∷◌, ◌++◌, ◌==◌, if◌then◌else◌,
  done,
}
use good_os_framework.Drivers.Nvme.Cmd.{NvmeCommand}
use good_os_framework.Drivers.Nvme.Queues.{NvmeCompletion}
use good_os_framework.Drivers.Nvme.Queues.Submit.{IsValid, submitted, submit-eq, submitted-IsValid}
use good_os_framework.Drivers.Nvme.Queues.Complete.{Synced}
use good_os_framework.Drivers.Nvme.Queues.Poll.{at_poll, complete_spin_lem}
use good_os_framework.Drivers.Nvme.Device.{
  Write, Controller, NvmeDevice, sqy_tdbl, cqy_hdbl, doorbell, write_reg_idx,
}
use good_os_framework.Drivers.Nvme.Device.Admin.{submit_and_complete_admin}

-- The command that `cmd_init` makes, and the trace with the doorbell rung for it.
abbrev pub admin_command : NvmeDevice → (ℕ → ℕ → NvmeCommand) → NvmeCommand
admin_command d cmd_init = cmd_init (d.admin_sq.tail % 2 ^ 16) d.buffer.phys

abbrev pub rung : NvmeDevice → List Write
rung d = d.writes ++ (doorbell d sqy_tdbl 0, (d.admin_sq.tail + 1) % d.admin_sq.len % 2 ^ 32) ∷ []

-- What the controller shows in the admin completion queue at each poll after the doorbell.
abbrev pub answers : Controller → NvmeDevice → ℕ → List NvmeCompletion
answers ctl d = ctl.posted (rung d) d.admin_cq.dma.phys

-- What the driver has done when the command is complete.
pub record Served (ctl : Controller) (d : NvmeDevice) (c : NvmeCommand) (hist : ℕ → NvmeCompletion)
    (n posted : ℕ) (d' : NvmeDevice) : Type 0 where
  pub submitted : d'.admin_sq ≡ submitted d.admin_sq c
  pub writes : d'.writes ≡ rung d ++ (doorbell d cqy_hdbl 0, (n + 1) % d.admin_cq.len % 2 ^ 32) ∷ []
  pub synced : Synced d'.admin_cq hist (n + 1) posted
  pub valid : IsValid d'.admin_sq
  pub same_id : d'.q_id ≡ d.q_id
  pub same_namespaces : d'.namespaces ≡ d.namespaces

-- If the controller posts its next completion at the poll `wait` and not before, then with more polls
-- than that the command lies in the slot of the old tail, the two doorbells have been rung with the new
-- tail and then the new head, and the result is that completion, or an error exactly if its status
-- field is not zero.
pub submit_and_complete_admin_lem :
    (ctl : Controller) (d : NvmeDevice) (cmd_init : ℕ → ℕ → NvmeCommand) (hist : ℕ → NvmeCompletion)
    (posted : ℕ → ℕ) (n wait fuel : ℕ)
    → IsValid d.admin_sq
    → ((t : ℕ) → Synced (at_poll d.admin_cq (answers ctl d) t) hist n (posted t))
    → ((t : ℕ) → t < wait → posted t ≤ n)
    → n < posted wait
    → wait < fuel
    → (d' : NvmeDevice) × (submit_and_complete_admin ctl fuel d cmd_init
        ≡ done (if (hist n).status / 2 == 0 then some (hist n) else none, d'))
      × Served ctl d (admin_command d cmd_init) hist n (posted wait) d'
unfolding submit_and_complete_admin write_reg_idx doorbell
submit_and_complete_admin_lem ctl d cmd_init hist posted n wait fuel v s idle found enough =
    let (cq, p, k) =
      complete_spin_lem d.admin_cq hist (answers ctl d) posted n wait fuel s idle found enough in
    (
      record d {
        admin_sq = submitted d.admin_sq (admin_command d cmd_init);
        admin_cq = cq;
        writes = rung d ++ (doorbell d cqy_hdbl 0, (n + 1) % d.admin_cq.len % 2 ^ 32) ∷ [];
      },
      rw (submit-eq d.admin_sq (admin_command d cmd_init) v, p) refl,
      record {
        submitted = refl;
        writes = refl;
        synced = k;
        valid = submitted-IsValid d.admin_sq (admin_command d cmd_init) v;
        same_id = refl;
        same_namespaces = refl;
      },
    )
