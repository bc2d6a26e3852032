-- ===== src/Drivers/Nvme/Device.antt =====
-- src/drivers/nvme/nvme.rs: the controller's registers and doorbells, and the state of the driver. All
-- that the driver writes to the controller is kept as a trace. A number that the source keeps in 16, 32
-- or 64 bits wraps as in a build without overflow checks, but sums of addresses are not reduced.
pub mod Doorbells
pub mod Admin
pub mod Transfer
pub mod Pair
pub mod Init
pub mod Serve
pub mod Identify
pub mod Move
pub mod Batch
pub mod Values
pub mod Configure
pub mod Configured
mod Tests
use good_os_framework.Base.{
  ℕ, zero, suc, ◌+◌, ◌-◌, ◌*◌, ◌%◌, ◌^◌, Bool, true, false, Option, List, [], ◌∷◌, ◌++◌, leb, ◌==◌,
  if◌then◌else◌, Outcome, done, spins, ◌>>◌, assert,
}
use good_os_framework.Drivers.Nvme.Memory.{Dma}
use good_os_framework.Drivers.Nvme.Queues.{NvmeCompletion, NvmeSubQueue, NvmeCompQueue}

-- A volatile write: the address and the value.
abbrev pub Write : Type 0
Write = ℕ × ℕ

pub record NvmeNamespace : Type 0 where
  pub id : ℕ
  pub blocks : ℕ
  pub block_size : ℕ

pub record NvmeStats : Type 0 where
  pub completions : ℕ
  pub submissions : ℕ

-- What the driver reads of the answer to an identify command.
pub record IdentifyNamespaceData : Type 0 where
  pub nsze : ℕ
  pub ncap : ℕ
  pub flbas : ℕ
  pub lba_format_support : List ℕ

-- The controller, as the driver sees it after the writes so far: the register at an address at the
-- `t`-th read, the memory of the completion queue at a physical address at the `t`-th poll, and the
-- buffer, read as the answer to an identify command or as a list of namespace ids.
pub record Controller : Type 0 where
  pub reg : List Write → ℕ → ℕ → ℕ
  pub posted : List Write → ℕ → ℕ → List NvmeCompletion
  pub identified : List Write → IdentifyNamespaceData
  pub listed : List Write → List ℕ

-- `namespaces` is an association list; `writes` is the trace.
pub record NvmeDevice : Type 0 where
  pub addr : ℕ
  pub dstrd : ℕ
  pub len : ℕ
  pub admin_sq : NvmeSubQueue
  pub admin_cq : NvmeCompQueue
  pub io_sq : NvmeSubQueue
  pub io_cq : NvmeCompQueue
  pub buffer : Dma
  pub prp_list : Dma
  pub prps : List ℕ
  pub namespaces : List (ℕ × NvmeNamespace)
  pub stats : NvmeStats
  pub q_id : ℕ
  pub writes : List Write

-- The registers of 32 and of 64 bits, by their offsets.
pub data NvmeRegs32 : Type 0 where
  vs : NvmeRegs32
  intms : NvmeRegs32
  intmc : NvmeRegs32
  cc : NvmeRegs32
  csts : NvmeRegs32
  nssr : NvmeRegs32
  aqa : NvmeRegs32
  cmbloc : NvmeRegs32
  cmbsz : NvmeRegs32
  bpinfo : NvmeRegs32
  bprsel : NvmeRegs32
  bpmbl : NvmeRegs32
  cmbsts : NvmeRegs32
  pmrcap : NvmeRegs32
  pmrctl : NvmeRegs32
  pmrsts : NvmeRegs32
  pmrebs : NvmeRegs32
  pmrswtp : NvmeRegs32

pub data NvmeRegs64 : Type 0 where
  cap : NvmeRegs64
  asq : NvmeRegs64
  acq : NvmeRegs64
  cmbmsc : NvmeRegs64
  pmrmsc : NvmeRegs64

abbrev pub offset32 : NvmeRegs32 → ℕ
offset32 vs = 0x8
offset32 intms = 0xc
offset32 intmc = 0x10
offset32 cc = 0x14
offset32 csts = 0x1c
offset32 nssr = 0x20
offset32 aqa = 0x24
offset32 cmbloc = 0x38
offset32 cmbsz = 0x3c
offset32 bpinfo = 0x40
offset32 bprsel = 0x44
offset32 bpmbl = 0x48
offset32 cmbsts = 0x58
offset32 pmrcap = 0xe00
offset32 pmrctl = 0xe04
offset32 pmrsts = 0xe08
offset32 pmrebs = 0xe0c
offset32 pmrswtp = 0xe10

abbrev pub offset64 : NvmeRegs64 → ℕ
offset64 cap = 0x0
offset64 asq = 0x28
offset64 acq = 0x30
offset64 cmbmsc = 0x50
offset64 pmrmsc = 0xe14

pub data NvmeArrayRegs : Type 0 where
  sqy_tdbl : NvmeArrayRegs
  cqy_hdbl : NvmeArrayRegs

-- `(4 << dstrd) * index` on 16 bits, then on the width of an address.
unfoldable pub doorbell_offset : ℕ → ℕ → ℕ
doorbell_offset dstrd index = (4 * 2 ^ dstrd % 2 ^ 16) * index % 2 ^ 16

unfoldable pub doorbell : NvmeDevice → NvmeArrayRegs → ℕ → ℕ
unfolding doorbell_offset
doorbell d sqy_tdbl qid = d.addr + 0x1000 + doorbell_offset d.dstrd (2 * qid)
doorbell d cqy_hdbl qid = d.addr + 0x1000 + doorbell_offset d.dstrd (2 * qid + 1)

unfoldable pub write_reg_idx : NvmeDevice → NvmeArrayRegs → ℕ → ℕ → NvmeDevice
write_reg_idx d reg qid val = record d {
  writes = d.writes ++ (doorbell d reg qid, val % 2 ^ 32) ∷ [];
}

-- `reg <= len - bytes`, where the difference wraps.
unfoldable pub in_bounds : NvmeDevice → ℕ → ℕ → Bool
in_bounds d reg bytes = leb reg ((d.len + 2 ^ 64 - bytes) % 2 ^ 64)

unfoldable pub set_reg32 : NvmeDevice → ℕ → ℕ → Outcome NvmeDevice
set_reg32 d reg value =
    assert (in_bounds d reg 4)
    >> done (record d { writes = d.writes ++ (d.addr + reg, value) ∷ [] })

unfoldable pub set_reg64 : NvmeDevice → ℕ → ℕ → Outcome NvmeDevice
set_reg64 d reg value =
    assert (in_bounds d reg 8)
    >> done (record d { writes = d.writes ++ (d.addr + reg, value) ∷ [] })

module _ (ctl : Controller) where
  unfoldable pub get_reg32 : NvmeDevice → ℕ → ℕ → Outcome ℕ
  get_reg32 d reg t = assert (in_bounds d reg 4) >> done (ctl.reg d.writes (d.addr + reg) t)

  unfoldable pub get_reg64 : NvmeDevice → ℕ → ℕ → Outcome ℕ
  get_reg64 d reg t = assert (in_bounds d reg 8) >> done (ctl.reg d.writes (d.addr + reg) t)
