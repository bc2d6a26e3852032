-- ===== src/Drivers/Pci/Scan.antt =====
-- src/drivers/pci.rs: the scan of the buses. The numbers that the checks return on success are not kept. A
-- bridge leads to another bus, so the scan runs on fuel: one for each bus on the way.
pub mod Found
use mathlib.Core.List.{append_assoc, append-nil}
use good_os_framework.Base.{
  ℕ, zero, suc, ◌+◌, ◌*◌, ◌/◌, ◌%◌, ◌^◌, ◌≤◌, ◌<◌, ◌≡◌, refl, sym, ap, ◌∙◌, ◌⊎◌, inl, inr, Bool,
  true, false, not, ◌&&◌, ◌||◌, Bool-cases, Option, none, some, List, [], ◌∷◌, ◌++◌, ◌==◌,
  if◌then◌else◌, Outcome, done, panics, spins, arith,
}
use good_os_framework.Drivers.Pci.{
  BusDeviceFunction, PciError, Result, ok, err, get_wrong_header,
  pci_device_structure_transform_error, Hardware,
}
use good_os_framework.Drivers.Pci.Header.{PciDeviceStructureHeader, read_common_header}
use good_os_framework.Drivers.Pci.Device.{
  PciDeviceStructure, PciDeviceStructurePciToPciBridge, common_header, as_pci_to_pci_bridge_device,
  bridge, read_by_type, pci_read_header,
}
use Prim.Native.Nat.{bit_and}

abbrev pub Devices : Type 0
Devices = List PciDeviceStructure

-- The result of a check, with the list of devices.
abbrev pub Checked : Type 0
Checked = Outcome (Result (Unit {0}) × Devices)

-- `?` between two checks.
unfoldable pub and_then : Checked → (Devices → Checked) → Checked
and_then (done (ok u, list)) k = k list
and_then (done (err e, list)) k = done (err e, list)
and_then panics k = panics
and_then spins k = spins

-- A device that is not there is no error.
unfoldable pub unless_absent : PciError → Devices → Checked
unless_absent get_wrong_header list = done (ok tt, list)
unless_absent e list = done (err e, list)

unfoldable pub is_bridge : PciDeviceStructureHeader → Bool
is_bridge h = (h.class_code == 0x06) && ((h.subclass == 0x04) || (h.subclass == 0x09))

unfoldable pub is_multi_function : PciDeviceStructure → Bool
is_multi_function d = not (bit_and (common_header d).header_type 0x80 == 0)

module _ {S : Type 0} (hw : Hardware S) (s : S) where
  unfoldable pub check_secondary :
      (ℕ → Devices → Checked) → Option PciDeviceStructurePciToPciBridge → Devices → Checked
  check_secondary again none list = done (err pci_device_structure_transform_error, list)
  check_secondary again (some b) list = again b.secondary_bus_number list

  -- `again` is the check of another bus.
  unfoldable pub check_read :
      (ℕ → Devices → Checked) → Result PciDeviceStructure × Devices → Checked
  check_read again (err e, list) = unless_absent e list
  check_read again (ok d, list) =
      if is_bridge (common_header d)
      then check_secondary again (as_pci_to_pci_bridge_device d) list
      else done (ok tt, list)

  unfoldable pub pci_check_function :
      (ℕ → Devices → Checked) → BusDeviceFunction → Devices → Checked
  pci_check_function again b list = check_read again (pci_read_header hw s b true list)

  -- The loop over the `n` functions from `function` on.
  unfoldable pub check_functions : ℕ → ℕ → (ℕ → Devices → Checked) → ℕ → ℕ → Devices → Checked
  check_functions zero function again bus device list = done (ok tt, list)
  check_functions (suc n) function again bus device list =
      let rest = check_functions n (function + 1) again bus device in
      and_then
        (pci_check_function again (record { bus = bus; device = device; function = function }) list)
        rest

  unfoldable pub check_first :
      (ℕ → Devices → Checked) → ℕ → ℕ → Result PciDeviceStructure × Devices → Checked
  check_first again bus device (err e, list) = unless_absent e list
  check_first again bus device (ok d, list) =
      and_then (pci_check_function again (record { bus = bus; device = device; function = 0 }) list)
        (λ list'.
          if is_multi_function d
          then check_functions 7 1 again bus device list'
          else done (ok tt, list'))

  unfoldable pub pci_check_device : (ℕ → Devices → Checked) → ℕ → ℕ → Devices → Checked
  pci_check_device again bus device list =
      check_first again bus device
        (pci_read_header hw s (record { bus = bus; device = device; function = 0 }) false list)

  -- The loop over the `n` devices from `device` on.
  unfoldable pub check_devices : ℕ → ℕ → (ℕ → Devices → Checked) → ℕ → Devices → Checked
  check_devices zero device again bus list = done (ok tt, list)
  check_devices (suc n) device again bus list =
      let rest = check_devices n (device + 1) again bus in
      and_then (pci_check_device again bus device list) rest

  unfoldable pub pci_check_bus : ℕ → ℕ → Devices → Checked
  pci_check_bus zero bus list = spins
  pci_check_bus (suc fuel) bus list = check_devices 32 0 (pci_check_bus fuel) bus list

  -- The loop over the `n` buses from `bus` on.
  unfoldable pub check_buses : ℕ → ℕ → ℕ → Devices → Checked
  check_buses zero bus fuel list = done (ok tt, list)
  check_buses (suc n) bus fuel list =
      let rest = check_buses n (bus + 1) fuel in and_then (pci_check_bus fuel bus list) rest

  unfoldable pub check_root : ℕ → Result PciDeviceStructure × Devices → Checked
  check_root fuel (err e, list) = done (err e, list)
  check_root fuel (ok d, list) =
      and_then (pci_check_bus fuel 0 list)
        (λ list'. if is_multi_function d then check_buses 7 1 fuel list' else done (ok tt, list'))

  unfoldable pub pci_check_all_buses : ℕ → Devices → Checked
  pci_check_all_buses fuel list =
      check_root fuel
        (pci_read_header hw s (record { bus = 0; device = 0; function = 0 }) false list)
