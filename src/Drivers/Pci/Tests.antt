-- ===== src/Drivers/Pci/Tests.antt =====
-- A device with a controller of class 1, and one whose registers all hold the number of a page.
use good_os_framework.Base.{
  ℕ, ◌+◌, ◌^◌, ◌≤◌, ◌*◌, ◌/◌, ◌%◌, ◌≡◌, ◌≢◌, refl, ◌==◌, if◌then◌else◌, arith,
}
use good_os_framework.Base.{inr, done, spins, ◌++◌, some, [], ◌∷◌}
use good_os_framework.Drivers.Pci.Capability.{collect, collect_lem}
use good_os_framework.Drivers.Pci.Device.{
  read_by_type, by_type, pci_read_general_device_header, common_header,
  pci_read_pci_to_pci_bridge_header,
}
use good_os_framework.Drivers.Pci.Header.{header_type_from}
use good_os_framework.Drivers.Pci.Scan.{is_bridge, pci_check_bus}
use good_os_framework.Drivers.Pci.Scan.Found.{found_devices, pci_check_bus_lem, pci_check_bus_spins}
use good_os_framework.Base.{◌⊎◌}
use good_os_framework.Drivers.Pci.Root
use good_os_framework.Drivers.Pci.Root.{PciRoot}
use good_os_framework.Drivers.Pci.Root.Registers.{InRoot, read_config_lem}
use good_os_framework.Drivers.Pci.Root.Registers
use good_os_framework.Drivers.Pci.{
  BusDeviceFunction, ok, err, get_wrong_header, Hardware, config_address,
}
use good_os_framework.Drivers.Pci.Header.{
  PciDeviceStructureHeader, read_common_header, Answers, IsFresh, read_common_header_lem,
}
use good_os_framework.Drivers.Pci.Bar.{pci_bar_init}
use good_os_framework.Drivers.Pci.Restore.{pci_bar_init_restores}

abbrev place : BusDeviceFunction
place = record { bus = 3; device = 31; function = 7 }

abbrev paged : Hardware ℕ
paged = record { read = λ s a. s * 4096; write = λ s a v. v / 4096 }

paged_restores : (s a x : ℕ) → paged.write (paged.write s a x) a (paged.read s a) ≡ s
paged_restores s a x = omega arith

pci_bar_init_restores_example : (pci_bar_init paged 0 place 5).1 ≡ 5
pci_bar_init_restores_example = pci_bar_init_restores paged 0 place paged_restores 5

abbrev header : PciDeviceStructureHeader
header = record {
  msix_mmio_vaddr = 0;
  msix_mmio_size = 0;
  msix_offset = 0;
  msix_table_size = 0;
  bus_device_function = place;
  vendor_id = 0x8086;
  device_id = 0x5845;
  command = 7;
  status = 0x10;
  revision_id = 2;
  prog_if = 2;
  subclass = 8;
  class_code = 1;
  cache_line_size = 0;
  latency_timer = 0;
  header_type = 0x80;
  bist = 0;
}

abbrev answering : Hardware ℕ
answering = record {
  read = λ s a.
      if a % 256 == 0
      then 0x58458086
      else if a % 256 == 4
      then 0x100007
      else if a % 256 == 8
      then 0x1080202
      else 0x800000;
  write = λ s a v. s;
}

answering-Answers : Answers answering 0 header
unfolding config_address
answering-Answers = record { word0 = refl; word1 = refl; word2 = refl; word3 = refl }

header-IsFresh : IsFresh header
header-IsFresh = record {
  vendor = omega arith;
  device = omega arith;
  command = omega arith;
  status = omega arith;
  revision = omega arith;
  prog = omega arith;
  sub = omega arith;
  class = omega arith;
  cache = omega arith;
  latency = omega arith;
  header = omega arith;
  bist_width = omega arith;
  mmio_vaddr = refl;
  mmio_size = refl;
  table_offset = refl;
  table_size = refl;
}

read_common_header_lem_example :
    (header.vendor_id ≢ 0xffff → read_common_header answering 0 place ≡ ok header)
    × (header.vendor_id ≡ 0xffff → read_common_header answering 0 place ≡ err get_wrong_header)
read_common_header_lem_example =
    read_common_header_lem answering 0 header header-IsFresh answering-Answers

-- The capability at 0x40 is followed by the one at 0x50, which is the last.
abbrev two_capabilities : Hardware ℕ
two_capabilities = record {
  read = λ s a. if a % 256 == 0x40 then 0x00125005 else (if a % 256 == 0x50 then 0x00340010 else 0);
  write = λ s a v. s;
}

collect_lem_example :
    collect two_capabilities 0 2 place (some 0x40)
    ≡ done (
        record { offset = 0x40; id = 5; private_header = 0x12 }
        ∷ record { offset = 0x50; id = 16; private_header = 0x34 }
        ∷ [])
unfolding config_address
collect_lem_example =
    collect_lem two_capabilities 0 2 place (record { offset = 0x40; id = 5; private_header = 0x12 })
      (record { offset = 0x50; id = 16; private_header = 0x34 } ∷ [])
      (
        refl,
        omega arith,
        omega arith,
        (omega arith, omega arith, refl),
        (refl, omega arith, omega arith, tt, tt),
      )
      (omega arith)

-- Every word of every function is the same: a standard device with several functions.
abbrev crowded : Hardware ℕ
crowded = record { read = λ s a. 0x00800000; write = λ s a v. s }

pci_check_bus_lem_example :
    pci_check_bus crowded 0 1 3 [] ≡ done (ok tt, [] ++ found_devices crowded 0 32 0 3)
unfolding read_by_type by_type read_common_header header_type_from is_bridge common_header
    pci_read_general_device_header
pci_check_bus_lem_example =
    pci_check_bus_lem crowded 0 1 3 [] (λ e f lt lt'. inr (_, refl, refl)) (omega arith)

-- A bridge to its own bus, as one that has not been set up.
abbrev looping : Hardware ℕ
looping = record {
  read = λ s a. if a % 256 == 8 then 0x06040000 else (if a % 256 == 12 then 0x00010000 else 0);
  write = λ s a v. s;
}

pci_check_bus_spins_example : pci_check_bus looping 0 5 0 [] ≡ spins
unfolding config_address read_by_type by_type read_common_header header_type_from is_bridge
    pci_read_pci_to_pci_bridge_header
pci_check_bus_spins_example = pci_check_bus_spins looping 0 5 0 [] _ refl refl refl

abbrev root : PciRoot
root = record {
  physical_address_base = 0xb0000000;
  mmio_base = some 0x1000;
  segement_group_number = 0;
  bus_begin = 1;
  bus_end = 255;
}

read_config_lem_example :
    (Root.read_config paged 5 root place 0x10 ≡ done (5 * 4096))
    × (Root.write_config paged 5 root place 0x10 7 ≡ done (7 / 4096))
    × (Registers.place root place 0x10 + 4 ≤ 3 * 2 ^ 20)
    × ((b' : BusDeviceFunction) (o : ℕ)
        → InRoot root b' o
        → (b'.bus ≢ 3) ⊎ ((b'.device ≢ 31) ⊎ ((b'.function ≢ 7) ⊎ (o ≢ 0x10)))
        → (Registers.place root b' o + 4 ≤ Registers.place root place 0x10)
          ⊎ (Registers.place root place 0x10 + 4 ≤ Registers.place root b' o))
read_config_lem_example =
    read_config_lem paged 5 root place 0x10 7 0x1000
      (record {
        from = omega arith;
        bus = omega arith;
        device = omega arith;
        function = omega arith;
        register = omega arith;
        aligned = omega arith;
      })
      refl
