-- ===== src/Drivers/Pci/Scan/Found.antt =====
-- What a scan finds.
use mathlib.Core.List.{append_assoc, append-nil}
use good_os_framework.Base.{
  ℕ, zero, suc, ◌+◌, ◌≤◌, ◌<◌, ◌≡◌, refl, sym, ap, ◌∙◌, ◌⊎◌, inl, inr, Bool, true, false, [], ◌∷◌,
  ◌++◌, if◌then◌else◌, done, spins, arith,
}
use good_os_framework.Drivers.Pci.{BusDeviceFunction, Result, ok, err, get_wrong_header, Hardware}
use good_os_framework.Drivers.Pci.Header.{read_common_header}
use good_os_framework.Drivers.Pci.Device.{
  PciDeviceStructure, PciDeviceStructurePciToPciBridge, common_header, as_pci_to_pci_bridge_device,
  bridge, read_by_type, pci_read_header,
}
use good_os_framework.Drivers.Pci.Scan.{
  Devices, Checked, and_then, unless_absent, is_bridge, is_multi_function, check_secondary,
  check_read, pci_check_function, check_functions, check_first, pci_check_device, check_devices,
  pci_check_bus,
}

abbrev at : ℕ → ℕ → ℕ → BusDeviceFunction
at bus device function = record { bus = bus; device = device; function = function }

module _ {S : Type 0} (hw : Hardware S) (s : S) where
  -- What a function of a device answers.
  abbrev pub answer : BusDeviceFunction → Result PciDeviceStructure
  answer b = read_by_type hw s (read_common_header hw s b) b

  -- There is nothing, or a device that is read and leads to no other bus.
  abbrev pub IsPlain : BusDeviceFunction → Type 0
  IsPlain b =
      (answer b ≡ err get_wrong_header)
      ⊎ ((d : PciDeviceStructure) × (answer b ≡ ok d) × (is_bridge (common_header d) ≡ false))

  abbrev pub found : Result PciDeviceStructure → Devices
  found (ok d) = d ∷ []
  found (err e) = []

  -- The functions of a device that answer, from `function` on.
  unfoldable pub found_functions : ℕ → ℕ → ℕ → ℕ → Devices
  found_functions zero function bus device = []
  found_functions (suc n) function bus device =
      found (answer (at bus device function)) ++ found_functions n (function + 1) bus device

  -- The first function of a device, and the others if it has several.
  abbrev pub found_first : ℕ → ℕ → Result PciDeviceStructure → Devices
  found_first bus device (ok d) =
      d ∷ (if is_multi_function d then found_functions 7 1 bus device else [])
  found_first bus device (err e) = []

  -- The functions of a bus that answer, from `device` on.
  unfoldable pub found_devices : ℕ → ℕ → ℕ → Devices
  found_devices zero device bus = []
  found_devices (suc n) device bus =
      found_first bus device (answer (at bus device 0)) ++ found_devices n (device + 1) bus

  function_lem :
      (again : ℕ → Devices → Checked) (b : BusDeviceFunction) (list : Devices)
      → IsPlain b
      → pci_check_function hw s again b list ≡ done (ok tt, list ++ found (answer b))
  unfolding pci_check_function check_read pci_read_header unless_absent
  function_lem again b list (inl absent) =
      rw absent (ap (λ l. done (ok tt, l)) (sym (append-nil list)))
  function_lem again b list (inr (d, e, plain)) = rw (e, plain) refl

  -- Two checks that succeed.
  then_lem :
      (c : Checked) (k : Devices → Checked) (list new later : Devices)
      → c ≡ done (ok tt, list ++ new)
      → k (list ++ new) ≡ done (ok tt, list ++ new ++ later)
      → and_then c k ≡ done (ok tt, list ++ (new ++ later))
  unfolding and_then
  then_lem c k list new later e f =
      rw e (f ∙ ap (λ l. done (ok tt, l)) (append_assoc list new later))

  functions_lem :
      (n function : ℕ) (again : ℕ → Devices → Checked) (bus device : ℕ) (list : Devices)
      → function + n ≤ 8
      → ((f : ℕ) → f < 8 → IsPlain (at bus device f))
      → check_functions hw s n function again bus device list
        ≡ done (ok tt, list ++ found_functions n function bus device)
  unfolding check_functions found_functions
  functions_lem zero function again bus device list le plain =
      ap (λ l. done (ok tt, l)) (sym (append-nil list))
  functions_lem (suc n) function again bus device list le plain =
      let new = found (answer (at bus device function)) in
      then_lem _ _ list new (found_functions n (function + 1) bus device)
        (function_lem again (at bus device function) list (plain function (omega arith)))
        (functions_lem n (function + 1) again bus device (list ++ new) (omega arith) plain)

  others_lem :
      (again : ℕ → Devices → Checked) (bus device : ℕ) (list : Devices) (several : Bool)
      → ((f : ℕ) → f < 8 → IsPlain (at bus device f))
      → (if several then check_functions hw s 7 1 again bus device list else done (ok tt, list))
        ≡ done (ok tt, list ++ (if several then found_functions 7 1 bus device else []))
  others_lem again bus device list true plain =
      functions_lem 7 1 again bus device list (omega arith) plain
  others_lem again bus device list false plain = ap (λ l. done (ok tt, l)) (sym (append-nil list))

  device_lem :
      (again : ℕ → Devices → Checked) (bus device : ℕ) (list : Devices)
      → ((f : ℕ) → f < 8 → IsPlain (at bus device f))
      → pci_check_device hw s again bus device list
        ≡ done (ok tt, list ++ found_first bus device (answer (at bus device 0)))
  unfolding pci_check_device check_first pci_read_header unless_absent
  device_lem again bus device list plain = elim (plain 0 (omega arith)) [
    | inl absent ↦ rw absent (ap (λ l. done (ok tt, l)) (sym (append-nil list)))
    | inr (d, e, p) ↦
        let first : (pci_check_function hw s again (at bus device 0) list
            ≡ done (ok tt, list ++ d ∷ [])) =
          function_lem again (at bus device 0) list (inr (d, e, p))
          ∙ ap (λ r. done (ok tt, list ++ found r)) e in
        rw e (
          then_lem _ _ list (d ∷ [])
            (if is_multi_function d then found_functions 7 1 bus device else []) first
            (others_lem again bus device (list ++ d ∷ []) (is_multi_function d) plain))
  ]

  devices_lem :
      (n device : ℕ) (again : ℕ → Devices → Checked) (bus : ℕ) (list : Devices)
      → device + n ≤ 32
      → ((e f : ℕ) → e < 32 → f < 8 → IsPlain (at bus e f))
      → check_devices hw s n device again bus list
        ≡ done (ok tt, list ++ found_devices n device bus)
  unfolding check_devices found_devices
  devices_lem zero device again bus list le plain =
      ap (λ l. done (ok tt, l)) (sym (append-nil list))
  devices_lem (suc n) device again bus list le plain =
      let new = found_first bus device (answer (at bus device 0)) in
      then_lem _ _ list new (found_devices n (device + 1) bus)
        (device_lem again bus device list (λ f lt. plain device f (omega arith) lt))
        (devices_lem n (device + 1) again bus (list ++ new) (omega arith) plain)

  -- On a bus where every function that answers, of its 32 devices and their 8 functions, is of a known type and no bridge, the scan succeeds,
  -- with fuel for this one bus, and adds the functions that answer to the list, in their order: of each
  -- device the first function, and the others if the device says that it has several.
  pub pci_check_bus_lem :
      (fuel bus : ℕ) (list : Devices)
      → ((e f : ℕ) → e < 32 → f < 8 → IsPlain (at bus e f))
      → 1 ≤ fuel
      → pci_check_bus hw s fuel bus list ≡ done (ok tt, list ++ found_devices 32 0 bus)
  unfolding pci_check_bus
  pci_check_bus_lem zero bus list plain enough = absurd (omega arith)
  pci_check_bus_lem (suc fuel) bus list plain enough =
      devices_lem 32 0 (pci_check_bus hw s fuel) bus list (omega arith) plain

  function_spins :
      (again : ℕ → Devices → Checked) (bus : ℕ) (list : Devices)
      (b : PciDeviceStructurePciToPciBridge)
      → answer (at bus 0 0) ≡ ok (bridge b)
      → is_bridge b.common_header ≡ true
      → b.secondary_bus_number ≡ bus
      → pci_check_function hw s again (at bus 0 0) list ≡ again bus (list ++ bridge b ∷ [])
  unfolding pci_check_function check_read pci_read_header check_secondary common_header
      as_pci_to_pci_bridge_device
  function_spins again bus list b e is same =
      rw e (rw is (ap (λ n. again n (list ++ bridge b ∷ [])) same))

  device_spins :
      (again : ℕ → Devices → Checked) (bus : ℕ) (list : Devices)
      (b : PciDeviceStructurePciToPciBridge)
      → answer (at bus 0 0) ≡ ok (bridge b)
      → is_bridge b.common_header ≡ true
      → b.secondary_bus_number ≡ bus
      → again bus (list ++ bridge b ∷ []) ≡ spins
      → pci_check_device hw s again bus 0 list ≡ spins
  unfolding pci_check_device check_first pci_read_header and_then
  device_spins again bus list b e is same loop =
      rw e (rw (function_spins again bus list b e is same ∙ loop) refl)

  -- If the first function of a bus is a bridge to the same bus, the scan of the bus never ends.
  pub pci_check_bus_spins :
      (fuel bus : ℕ) (list : Devices) (b : PciDeviceStructurePciToPciBridge)
      → answer (at bus 0 0) ≡ ok (bridge b)
      → is_bridge b.common_header ≡ true
      → b.secondary_bus_number ≡ bus
      → pci_check_bus hw s fuel bus list ≡ spins
  unfolding pci_check_bus check_devices and_then
  pci_check_bus_spins zero bus list b e is same = refl
  pci_check_bus_spins (suc fuel) bus list b e is same =
      rw
        (device_spins (pci_check_bus hw s fuel) bus list b e is same
          (pci_check_bus_spins fuel bus (list ++ bridge b ∷ []) b e is same))
        refl
