-- ===== src/Drivers/Pci/Device.antt =====
-- src/drivers/pci.rs: the headers of the three kinds of devices, after the common part.
use good_os_framework.Base.{
  ℕ, ◌/◌, ◌%◌, ◌^◌, Bool, Option, none, some, List, [], ◌∷◌, ◌++◌, if◌then◌else◌,
}
use good_os_framework.Drivers.Pci.{
  BusDeviceFunction, Result, ok, err, unrecognised_header_type, Hardware, read_config,
}
use good_os_framework.Drivers.Pci.Bar.{PciStandardDeviceBar, default_bars}
use good_os_framework.Drivers.Pci.Header.{
  HeaderType, standard, pci_pci_bridge, pci_cardbus_bridge, unrecognised, header_type_from,
  PciDeviceStructureHeader, read_common_header,
}

pub record PciDeviceStructureGeneralDevice : Type 0 where
  pub common_header : PciDeviceStructureHeader
  pub standard_device_bar : PciStandardDeviceBar
  pub cardbus_cis_pointer : ℕ
  pub subsystem_vendor_id : ℕ
  pub subsystem_id : ℕ
  pub expansion_rom_base_address : ℕ
  pub capabilities_pointer : ℕ
  pub reserved0 : ℕ
  pub reserved1 : ℕ
  pub reserved2 : ℕ
  pub interrupt_line : ℕ
  pub interrupt_pin : ℕ
  pub min_grant : ℕ
  pub max_latency : ℕ

pub record PciDeviceStructurePciToPciBridge : Type 0 where
  pub common_header : PciDeviceStructureHeader
  pub bar0 : ℕ
  pub bar1 : ℕ
  pub primary_bus_number : ℕ
  pub secondary_bus_number : ℕ
  pub subordinate_bus_number : ℕ
  pub secondary_latency_timer : ℕ
  pub io_base : ℕ
  pub io_limit : ℕ
  pub secondary_status : ℕ
  pub memory_base : ℕ
  pub memory_limit : ℕ
  pub prefetchable_memory_base : ℕ
  pub prefetchable_memory_limit : ℕ
  pub prefetchable_base_upper_32_bits : ℕ
  pub prefetchable_limit_upper_32_bits : ℕ
  pub io_base_upper_16_bits : ℕ
  pub io_limit_upper_16_bits : ℕ
  pub capability_pointer : ℕ
  pub reserved0 : ℕ
  pub reserved1 : ℕ
  pub expansion_rom_base_address : ℕ
  pub interrupt_line : ℕ
  pub interrupt_pin : ℕ
  pub bridge_control : ℕ

pub record PciDeviceStructurePciToCardbusBridge : Type 0 where
  pub common_header : PciDeviceStructureHeader
  pub cardbus_socket_ex_ca_base_address : ℕ
  pub offset_of_capabilities_list : ℕ
  pub reserved : ℕ
  pub secondary_status : ℕ
  pub pci_bus_number : ℕ
  pub card_bus_bus_number : ℕ
  pub subordinate_bus_number : ℕ
  pub card_bus_latency_timer : ℕ
  pub memory_base_address0 : ℕ
  pub memory_limit0 : ℕ
  pub memory_base_address1 : ℕ
  pub memory_limit1 : ℕ
  pub io_base_address0 : ℕ
  pub io_limit0 : ℕ
  pub io_base_address1 : ℕ
  pub io_limit1 : ℕ
  pub interrupt_line : ℕ
  pub interrupt_pin : ℕ
  pub bridge_control : ℕ
  pub subsystem_device_id : ℕ
  pub subsystem_vendor_id : ℕ
  pub pc_card_legacy_mode_base_address_16_bit : ℕ

-- The trait object.
pub data PciDeviceStructure : Type 0 where
  general : PciDeviceStructureGeneralDevice → PciDeviceStructure
  bridge : PciDeviceStructurePciToPciBridge → PciDeviceStructure
  cardbus : PciDeviceStructurePciToCardbusBridge → PciDeviceStructure

unfoldable pub common_header : PciDeviceStructure → PciDeviceStructureHeader
common_header (general d) = d.common_header
common_header (bridge d) = d.common_header
common_header (cardbus d) = d.common_header

unfoldable pub as_pci_to_pci_bridge_device :
    PciDeviceStructure → Option PciDeviceStructurePciToPciBridge
as_pci_to_pci_bridge_device (general d) = none
as_pci_to_pci_bridge_device (bridge d) = some d
as_pci_to_pci_bridge_device (cardbus d) = none

-- The casts `as u8` and `as u16`, after a shift in the case of `_at`.
abbrev u8 : ℕ → ℕ
u8 w = w % 2 ^ 8

abbrev u8_at : ℕ → ℕ → ℕ
u8_at k w = w / 2 ^ k % 2 ^ 8

abbrev u16 : ℕ → ℕ
u16 w = w % 2 ^ 16

abbrev u16_at : ℕ → ℕ → ℕ
u16_at k w = w / 2 ^ k % 2 ^ 16

module _ {S : Type 0} (hw : Hardware S) (s : S) where
  unfoldable pub pci_read_general_device_header :
      PciDeviceStructureHeader → BusDeviceFunction → PciDeviceStructureGeneralDevice
  pci_read_general_device_header common_header b =
      let r : (ℕ → ℕ) = read_config hw s b in
      record {
        common_header = common_header;
        standard_device_bar = default_bars;
        cardbus_cis_pointer = r 0x28;
        subsystem_vendor_id = u16 (r 0x2c);
        subsystem_id = u16_at 16 (r 0x2c);
        expansion_rom_base_address = r 0x30;
        capabilities_pointer = u8 (r 0x34);
        reserved0 = u8_at 8 (r 0x34);
        reserved1 = u16_at 16 (r 0x34);
        reserved2 = r 0x38;
        interrupt_line = u8 (r 0x3c);
        interrupt_pin = u8_at 8 (r 0x3c);
        min_grant = u8_at 16 (r 0x3c);
        max_latency = u8_at 24 (r 0x3c);
      }

  unfoldable pub pci_read_pci_to_pci_bridge_header :
      PciDeviceStructureHeader → BusDeviceFunction → PciDeviceStructurePciToPciBridge
  pci_read_pci_to_pci_bridge_header common_header b =
      let r : (ℕ → ℕ) = read_config hw s b in
      record {
        common_header = common_header;
        bar0 = r 0x10;
        bar1 = r 0x14;
        primary_bus_number = u8 (r 0x18);
        secondary_bus_number = u8_at 8 (r 0x18);
        subordinate_bus_number = u8_at 16 (r 0x18);
        secondary_latency_timer = u8_at 24 (r 0x18);
        io_base = u8 (r 0x1c);
        io_limit = u8_at 8 (r 0x1c);
        secondary_status = u16_at 16 (r 0x1c);
        memory_base = u16 (r 0x20);
        memory_limit = u16_at 16 (r 0x20);
        prefetchable_memory_base = u16 (r 0x24);
        prefetchable_memory_limit = u16_at 16 (r 0x24);
        prefetchable_base_upper_32_bits = r 0x28;
        prefetchable_limit_upper_32_bits = r 0x2c;
        io_base_upper_16_bits = u16 (r 0x30);
        io_limit_upper_16_bits = u16_at 16 (r 0x30);
        capability_pointer = u8 (r 0x34);
        reserved0 = u8_at 8 (r 0x34);
        reserved1 = u16_at 16 (r 0x34);
        expansion_rom_base_address = r 0x38;
        interrupt_line = u8 (r 0x3c);
        interrupt_pin = u8_at 8 (r 0x3c);
        bridge_control = u16_at 16 (r 0x3c);
      }

  unfoldable pub pci_read_pci_to_cardbus_bridge_header :
      PciDeviceStructureHeader → BusDeviceFunction → PciDeviceStructurePciToCardbusBridge
  pci_read_pci_to_cardbus_bridge_header common_header b =
      let r : (ℕ → ℕ) = read_config hw s b in
      record {
        common_header = common_header;
        cardbus_socket_ex_ca_base_address = r 0x10;
        offset_of_capabilities_list = u8 (r 0x14);
        reserved = u8_at 8 (r 0x14);
        secondary_status = u16_at 16 (r 0x14);
        pci_bus_number = u8 (r 0x18);
        card_bus_bus_number = u8_at 8 (r 0x18);
        subordinate_bus_number = u8_at 16 (r 0x18);
        card_bus_latency_timer = u8_at 24 (r 0x18);
        memory_base_address0 = r 0x1c;
        memory_limit0 = r 0x20;
        memory_base_address1 = r 0x24;
        memory_limit1 = r 0x28;
        io_base_address0 = r 0x2c;
        io_limit0 = r 0x30;
        io_base_address1 = r 0x34;
        io_limit1 = r 0x38;
        interrupt_line = u8 (r 0x3c);
        interrupt_pin = u8_at 8 (r 0x3c);
        bridge_control = u16_at 16 (r 0x3c);
        subsystem_device_id = u16 (r 0x40);
        subsystem_vendor_id = u16_at 16 (r 0x40);
        pc_card_legacy_mode_base_address_16_bit = r 0x44;
      }

  -- The arms of the match on the type.
  unfoldable pub by_type :
      HeaderType → PciDeviceStructureHeader → BusDeviceFunction → Result PciDeviceStructure
  by_type standard header b = ok (general (pci_read_general_device_header header b))
  by_type pci_pci_bridge header b = ok (bridge (pci_read_pci_to_pci_bridge_header header b))
  by_type pci_cardbus_bridge header b =
      ok (cardbus (pci_read_pci_to_cardbus_bridge_header header b))
  by_type (unrecognised value) header b = err unrecognised_header_type

  unfoldable pub read_by_type :
      Result PciDeviceStructureHeader → BusDeviceFunction → Result PciDeviceStructure
  read_by_type (err e) b = err e
  read_by_type (ok header) b = by_type (header_type_from (header.header_type % 2 ^ 7)) header b

  -- The list of devices grows only when `add_to_list` is set.
  abbrev pushed :
      Bool → Result PciDeviceStructure → List PciDeviceStructure → List PciDeviceStructure
  pushed add_to_list (err e) list = list
  pushed add_to_list (ok d) list = if add_to_list then list ++ d ∷ [] else list

  unfoldable pub pci_read_header :
      BusDeviceFunction
      → Bool
      → List PciDeviceStructure
      → Result PciDeviceStructure × List PciDeviceStructure
  pci_read_header b add_to_list list =
      let device = read_by_type (read_common_header hw s b) b in
      (device, pushed add_to_list device list)
