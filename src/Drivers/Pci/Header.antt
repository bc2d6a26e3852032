-- ===== src/Drivers/Pci/Header.antt =====
-- src/drivers/pci.rs: the first four words of a header.
use good_os_framework.Base.{
  ℕ, ◌+◌, ◌*◌, ◌/◌, ◌%◌, ◌^◌, ◌<◌, ◌≡◌, ◌≢◌, ==_ne, ◌==◌, if◌then◌else◌, arith, ap, sym,
}
use good_os_framework.Drivers.Pci.{
  BusDeviceFunction, Result, ok, err, get_wrong_header, Hardware, read_config,
}

pub data HeaderType : Type 0 where
  standard : HeaderType
  pci_pci_bridge : HeaderType
  pci_cardbus_bridge : HeaderType
  unrecognised : ℕ → HeaderType

unfoldable pub header_type_from : ℕ → HeaderType
header_type_from value =
    if value == 0
    then standard
    else if value == 1
    then pci_pci_bridge
    else if value == 2
    then pci_cardbus_bridge
    else unrecognised value

pub record PciDeviceStructureHeader : Type 0 where
  pub msix_mmio_vaddr : ℕ
  pub msix_mmio_size : ℕ
  pub msix_offset : ℕ
  pub msix_table_size : ℕ
  pub bus_device_function : BusDeviceFunction
  pub vendor_id : ℕ
  pub device_id : ℕ
  pub command : ℕ
  pub status : ℕ
  pub revision_id : ℕ
  pub prog_if : ℕ
  pub subclass : ℕ
  pub class_code : ℕ
  pub cache_line_size : ℕ
  pub latency_timer : ℕ
  pub header_type : ℕ
  pub bist : ℕ

-- The fields of the four words.
abbrev fields : BusDeviceFunction → ℕ → ℕ → ℕ → ℕ → PciDeviceStructureHeader
fields b word0 word1 word2 word3 = record {
  msix_mmio_vaddr = 0;
  msix_mmio_size = 0;
  msix_offset = 0;
  msix_table_size = 0;
  bus_device_function = b;
  vendor_id = word0 % 2 ^ 16;
  device_id = word0 / 2 ^ 16 % 2 ^ 16;
  command = word1 % 2 ^ 16;
  status = word1 / 2 ^ 16 % 2 ^ 16;
  revision_id = word2 % 2 ^ 8;
  prog_if = word2 / 2 ^ 8 % 2 ^ 8;
  subclass = word2 / 2 ^ 16 % 2 ^ 8;
  class_code = word2 / 2 ^ 24 % 2 ^ 8;
  cache_line_size = word3 % 2 ^ 8;
  latency_timer = word3 / 2 ^ 8 % 2 ^ 8;
  header_type = word3 / 2 ^ 16 % 2 ^ 8;
  bist = word3 / 2 ^ 24 % 2 ^ 8;
}

-- The part of a header that all types share.
module _ {S : Type 0} (hw : Hardware S) where
  unfoldable pub read_common_header : S → BusDeviceFunction → Result PciDeviceStructureHeader
  read_common_header s b =
      let word0 = read_config hw s b 0x00 in
      let word1 = read_config hw s b 0x04 in
      let word2 = read_config hw s b 0x08 in
      let word3 = read_config hw s b 0x0c in
      if word0 % 2 ^ 16 == 0xffff
      then err get_wrong_header
      else ok (fields b word0 word1 word2 word3)

-- What a device answers that has the fields of a header: the words are put together from the lowest
-- field up.
pub record Answers {S : Type 0} (hw : Hardware S) (s : S) (h : PciDeviceStructureHeader)
    : Type 0 where
  pub word0 : read_config hw s h.bus_device_function 0x00 ≡ h.vendor_id + h.device_id * 2 ^ 16
  pub word1 : read_config hw s h.bus_device_function 0x04 ≡ h.command + h.status * 2 ^ 16
  pub word2 :
      read_config hw s h.bus_device_function 0x08
      ≡ h.revision_id + h.prog_if * 2 ^ 8 + h.subclass * 2 ^ 16 + h.class_code * 2 ^ 24
  pub word3 :
      read_config hw s h.bus_device_function 0x0c
      ≡ h.cache_line_size + h.latency_timer * 2 ^ 8 + h.header_type * 2 ^ 16 + h.bist * 2 ^ 24

-- The fields have their widths, and no MSI-X table has been found yet.
pub record IsFresh (h : PciDeviceStructureHeader) : Type 0 where
  pub vendor : h.vendor_id < 2 ^ 16
  pub device : h.device_id < 2 ^ 16
  pub command : h.command < 2 ^ 16
  pub status : h.status < 2 ^ 16
  pub revision : h.revision_id < 2 ^ 8
  pub prog : h.prog_if < 2 ^ 8
  pub sub : h.subclass < 2 ^ 8
  pub class : h.class_code < 2 ^ 8
  pub cache : h.cache_line_size < 2 ^ 8
  pub latency : h.latency_timer < 2 ^ 8
  pub header : h.header_type < 2 ^ 8
  pub bist_width : h.bist < 2 ^ 8
  pub mmio_vaddr : h.msix_mmio_vaddr ≡ 0
  pub mmio_size : h.msix_mmio_size ≡ 0
  pub table_offset : h.msix_offset ≡ 0
  pub table_size : h.msix_table_size ≡ 0

-- Taking the fields out of the words gives the header.
same_fields :
    (h : PciDeviceStructureHeader)
    → IsFresh h
    → fields h.bus_device_function
        (h.vendor_id + h.device_id * 2 ^ 16)
        (h.command + h.status * 2 ^ 16)
        (h.revision_id + h.prog_if * 2 ^ 8 + h.subclass * 2 ^ 16 + h.class_code * 2 ^ 24)
        (h.cache_line_size + h.latency_timer * 2 ^ 8 + h.header_type * 2 ^ 16 + h.bist * 2 ^ 24)
      ≡ h
same_fields h f =
    let word0 = h.vendor_id + h.device_id * 2 ^ 16 in
    let word1 = h.command + h.status * 2 ^ 16 in
    let word2 = h.revision_id + h.prog_if * 2 ^ 8 + h.subclass * 2 ^ 16 + h.class_code * 2 ^ 24 in
    let word3 =
      h.cache_line_size + h.latency_timer * 2 ^ 8 + h.header_type * 2 ^ 16 + h.bist * 2 ^ 24 in
    let e1 : (0 ≡ h.msix_mmio_vaddr) = sym f.mmio_vaddr in
    let e2 : (0 ≡ h.msix_mmio_size) = sym f.mmio_size in
    let e3 : (0 ≡ h.msix_offset) = sym f.table_offset in
    let e4 : (0 ≡ h.msix_table_size) = sym f.table_size in
    let e5 : (word0 % 2 ^ 16 ≡ h.vendor_id) = omega arith in
    let e6 : (word0 / 2 ^ 16 % 2 ^ 16 ≡ h.device_id) = omega arith in
    let e7 : (word1 % 2 ^ 16 ≡ h.command) = omega arith in
    let e8 : (word1 / 2 ^ 16 % 2 ^ 16 ≡ h.status) = omega arith in
    let e9 : (word2 % 2 ^ 8 ≡ h.revision_id) = omega arith in
    let e10 : (word2 / 2 ^ 8 % 2 ^ 8 ≡ h.prog_if) = omega arith in
    let e11 : (word2 / 2 ^ 16 % 2 ^ 8 ≡ h.subclass) = omega arith in
    let e12 : (word2 / 2 ^ 24 % 2 ^ 8 ≡ h.class_code) = omega arith in
    let e13 : (word3 % 2 ^ 8 ≡ h.cache_line_size) = omega arith in
    let e14 : (word3 / 2 ^ 8 % 2 ^ 8 ≡ h.latency_timer) = omega arith in
    let e15 : (word3 / 2 ^ 16 % 2 ^ 8 ≡ h.header_type) = omega arith in
    let e16 : (word3 / 2 ^ 24 % 2 ^ 8 ≡ h.bist) = omega arith in
    λ i. record {
      msix_mmio_vaddr = e1 i;
      msix_mmio_size = e2 i;
      msix_offset = e3 i;
      msix_table_size = e4 i;
      bus_device_function = h.bus_device_function;
      vendor_id = e5 i;
      device_id = e6 i;
      command = e7 i;
      status = e8 i;
      revision_id = e9 i;
      prog_if = e10 i;
      subclass = e11 i;
      class_code = e12 i;
      cache_line_size = e13 i;
      latency_timer = e14 i;
      header_type = e15 i;
      bist = e16 i;
    }

-- A device that answers with the fields of a header is read as exactly this header, unless its vendor
-- is 0xffff, which stands for no device and is refused.
pub read_common_header_lem :
    {S : Type 0} (hw : Hardware S) (s : S) (h : PciDeviceStructureHeader)
    → IsFresh h
    → Answers hw s h
    → (h.vendor_id ≢ 0xffff → read_common_header hw s h.bus_device_function ≡ ok h)
      × (h.vendor_id ≡ 0xffff
          → read_common_header hw s h.bus_device_function ≡ err get_wrong_header)
unfolding read_common_header
read_common_header_lem hw s h f a = (
  (λ ne.
      rw (a.word0, a.word1, a.word2, a.word3)
        (rw (==_ne ((h.vendor_id + h.device_id * 2 ^ 16) % 2 ^ 16) 0xffff (omega (arith, ne)))
          (ap ok (same_fields h f)))),
  (λ e. ground (arith, a.word0, e)),
)
