-- ===== src/Drivers/Pci.antt =====
-- src/drivers/pci.rs and src/arch/mod.rs: the configuration space of PCI devices. The registers belong to
-- the machine: `Hardware` reads and writes them on a state of its own.
pub mod Address
pub mod Header
pub mod Bar
pub mod Sizes
pub mod Restore
pub mod Capability
pub mod Device
pub mod Scan
pub mod Root
mod Tests
use Prim.Native.Nat.{bit_or}
use good_os_framework.Base.{
  ℕ, ◌+◌, ◌*◌, ◌/◌, ◌%◌, ◌^◌, Bool, true, false, Option, none, some, ltb, ◌==◌, if◌then◌else◌,
}

pub data PciError : Type 0 where
  invalid_bar_type : PciError
  get_wrong_header : PciError
  unrecognised_header_type : PciError
  pci_device_structure_transform_error : PciError
  create_mmio_error : PciError
  segment_not_found : PciError

pub data Result (A : Type 0) : Type 0 where
  ok : A → Result A
  err : PciError → Result A

pub record BusDeviceFunction : Type 0 where
  pub bus : ℕ
  pub device : ℕ
  pub function : ℕ

unfoldable pub valid : BusDeviceFunction → Bool
valid b = if ltb b.device 32 then ltb b.function 8 else false

-- The 32-bit address that selects a register.
unfoldable pub config_address : BusDeviceFunction → ℕ → ℕ
config_address b offset =
    bit_or
      (bit_or (bit_or (bit_or (b.bus * 2 ^ 16) (b.device * 2 ^ 11)) (b.function % 8 * 2 ^ 8))
        (offset / 4 % 2 ^ 6 * 4))
      0x80000000

-- The registers by their addresses.
pub record Hardware (S : Type 0) : Type 0 where
  pub read : S → ℕ → ℕ
  pub write : S → ℕ → ℕ → S

module _ {S : Type 0} (hw : Hardware S) where
  abbrev pub read_config : S → BusDeviceFunction → ℕ → ℕ
  read_config s b offset = hw.read s (config_address b offset)

  abbrev pub write_config : S → BusDeviceFunction → ℕ → ℕ → S
  write_config s b offset value = hw.write s (config_address b offset) value
