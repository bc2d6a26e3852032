-- ===== src/Drivers/Nvme/Device/Admin.antt =====
-- src/drivers/nvme/nvme.rs: the admin commands. A result `Err` is `none`.
use good_os_framework.Base.{
  ℕ, ◌*◌, ◌/◌, ◌%◌, ◌^◌, false, not, Option, none, some, List, [], ◌∷◌, ltb, leb, ◌==◌, get_elem?,
  if◌then◌else◌, Outcome, done, ◌>>=◌, unwrap,
}
use good_os_framework.Drivers.Nvme.Cmd
use good_os_framework.Drivers.Nvme.Cmd.{NvmeCommand}
use good_os_framework.Drivers.Nvme.Queues.{NvmeCompletion, submit, complete_spin}
use good_os_framework.Drivers.Nvme.Device.{
  Controller, NvmeDevice, NvmeNamespace, sqy_tdbl, cqy_hdbl, write_reg_idx,
}

-- `get` of the map of namespaces.
unfoldable pub lookup : List (ℕ × NvmeNamespace) → ℕ → Option NvmeNamespace
lookup [] id = none
lookup ((k, ns) ∷ rest) id = if k == id then some ns else lookup rest id

-- `insert` of the map, which replaces an older entry.
unfoldable pub insert : List (ℕ × NvmeNamespace) → ℕ → NvmeNamespace → List (ℕ × NvmeNamespace)
insert [] id ns = (id, ns) ∷ []
insert ((k, old) ∷ rest) id ns = if k == id then (id, ns) ∷ rest else (k, old) ∷ insert rest id ns

-- `take_while(|&id| id != 0)`
unfoldable pub until_zero : List ℕ → List ℕ
until_zero [] = []
until_zero (id ∷ rest) = if id == 0 then [] else id ∷ until_zero rest

-- The size of a block from the format's exponent.
unfoldable pub format_size : ℕ → ℕ
format_size flba_data =
    if not (if leb 9 flba_data then ltb flba_data 32 else false) then 0 else 2 ^ flba_data

-- `cmd_init` gets the command's id and the address of the buffer.
module _ (ctl : Controller) (fuel : ℕ) where
  unfoldable pub submit_and_complete_admin :
      NvmeDevice → (ℕ → ℕ → NvmeCommand) → Outcome (Option NvmeCompletion × NvmeDevice)
  submit_and_complete_admin d cmd_init = do
    (tail, sq) ← submit d.admin_sq (cmd_init (d.admin_sq.tail % 2 ^ 16) d.buffer.phys)
    let rung = write_reg_idx (record d { admin_sq = sq }) sqy_tdbl 0 tail
    ((head, entry, prev), cq) ←
        complete_spin fuel (ctl.posted rung.writes d.admin_cq.dma.phys) 0 d.admin_cq
    let seen = write_reg_idx (record rung { admin_cq = cq }) cqy_hdbl 0 head
    done (if entry.status / 2 == 0 then some entry else none, seen)

  -- Only the command: the strings it prints are not kept.
  unfoldable pub identify_controller : NvmeDevice → Outcome NvmeDevice
  identify_controller d = submit_and_complete_admin d Cmd.identify_controller >>= λ r. done r.1

  unfoldable pub identify_namespace_list : NvmeDevice → ℕ → Outcome (List ℕ × NvmeDevice)
  identify_namespace_list d base = do
    (r, d') ← submit_and_complete_admin d (λ c_id ptr. Cmd.identify_namespace_list c_id ptr base)
    done (until_zero (ctl.listed d'.writes), d')

  -- The namespace, and its capacity in bytes.
  unfoldable pub identify_namespace : NvmeDevice → ℕ → Outcome ((NvmeNamespace × ℕ) × NvmeDevice)
  identify_namespace d id = do
    (r, d') ← submit_and_complete_admin d (λ c_id ptr. Cmd.identify_namespace c_id ptr id)
    let data' = ctl.identified d'.writes
    format ← unwrap (get_elem? data'.lba_format_support (data'.flbas % 2 ^ 4))
    let ns : NvmeNamespace = record {
      id = id;
      blocks = data'.ncap;
      block_size = format_size (format / 2 ^ 16 % 2 ^ 8);
    }
    done (
      (ns, ns.blocks * ns.block_size % 2 ^ 64),
      record d' { namespaces = insert d'.namespaces id ns },
    )

  unfoldable pub clear_namespace : NvmeDevice → Option ℕ → Outcome NvmeDevice
  clear_namespace d ns_id = do
    id ← elim ns_id [
      | none ↦ done 0xFFFFFFFF
      | some id ↦ unwrap (lookup d.namespaces id) >>= λ ns. done id
    ]
    (r, d') ← submit_and_complete_admin d (λ c_id ptr. Cmd.format_nvm c_id id)
    done d'
