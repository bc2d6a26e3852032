-- ===== src/Drivers/Pci/Bar.antt =====
-- src/drivers/pci.rs: the base address registers of a device.
use Prim.Native.Nat.{bit_or}
use good_os_framework.Base.{
  ℕ, zero, suc, ◌+◌, ◌-◌, ◌*◌, ◌/◌, ◌%◌, ◌^◌, Bool, Option, none, some, List, [], ◌∷◌, ◌++◌, leb,
  ◌==◌, if◌then◌else◌,
}
use good_os_framework.Memory.Address.{convert_physical_to_virtual}
use good_os_framework.Drivers.Pci.{
  BusDeviceFunction, Result, ok, err, invalid_bar_type, Hardware, read_config, write_config,
}

pub data MemoryBarType : Type 0 where
  width32 : MemoryBarType
  below_1mib : MemoryBarType
  width64 : MemoryBarType

-- The fields of `memory` are the type, whether it is prefetchable, the address, the size and the virtual
-- address; those of `io` are the address and the size.
pub data BarInfo : Type 0 where
  memory : MemoryBarType → Bool → ℕ → ℕ → ℕ → BarInfo
  io : ℕ → ℕ → BarInfo
  unused : BarInfo

unfoldable pub memory_bar_type : ℕ → Result MemoryBarType
memory_bar_type value =
    if value == 0
    then ok width32
    else if value == 1
    then ok below_1mib
    else if value == 2
    then ok width64
    else err invalid_bar_type

unfoldable pub memory_address_size : BarInfo → Option (ℕ × ℕ)
memory_address_size (memory ty prefetchable address size virtaddress) = some (address, size)
memory_address_size (io address size) = none
memory_address_size unused = none

unfoldable pub virtual_address : BarInfo → Option ℕ
virtual_address (memory ty prefetchable address size virtaddress) = some virtaddress
virtual_address (io address size) = none
virtual_address unused = none

pub record PciStandardDeviceBar : Type 0 where
  pub bar0 : BarInfo
  pub bar1 : BarInfo
  pub bar2 : BarInfo
  pub bar3 : BarInfo
  pub bar4 : BarInfo
  pub bar5 : BarInfo

abbrev pub default_bars : PciStandardDeviceBar
default_bars = record {
  bar0 = unused;
  bar1 = unused;
  bar2 = unused;
  bar3 = unused;
  bar4 = unused;
  bar5 = unused;
}

unfoldable pub get_bar : PciStandardDeviceBar → ℕ → Result BarInfo
get_bar bars i =
    if i == 0
    then ok bars.bar0
    else if i == 1
    then ok bars.bar1
    else if i == 2
    then ok bars.bar2
    else if i == 3
    then ok bars.bar3
    else if i == 4
    then ok bars.bar4
    else if i == 5
    then ok bars.bar5
    else err invalid_bar_type

unfoldable pub set_bar : PciStandardDeviceBar → ℕ → BarInfo → PciStandardDeviceBar
set_bar bars i info =
    if i == 0
    then record bars { bar0 = info }
    else if i == 1
    then record bars { bar1 = info }
    else if i == 2
    then record bars { bar2 = info }
    else if i == 3
    then record bars { bar3 = info }
    else if i == 4
    then record bars { bar4 = info }
    else if i == 5
    then record bars { bar5 = info }
    else bars

-- `(!(mask & 0xfffffff0)).wrapping_add(1)`
unfoldable pub bar_size : ℕ → ℕ
bar_size size_mask = (2 ^ 32 - 1 - size_mask / 16 * 16 + 1) % 2 ^ 32

-- The pages, virtual and physical, that are mapped for a region.
unfoldable pub pages : ℕ → ℕ → ℕ → List (ℕ × ℕ)
pages zero vaddr paddr = []
pages (suc n) vaddr paddr = (vaddr, paddr) ∷ pages n (vaddr + 4096) (paddr + 4096)

unfoldable pub bar_pages : BarInfo → List (ℕ × ℕ)
bar_pages (memory ty prefetchable address size virtaddress) =
    pages (size / 4096) virtaddress address
bar_pages (io address size) = []
bar_pages unused = []

-- The region of a register from its value, the size and the value of the next register, and the register
-- to leave out after it.
unfoldable pub bar_info : ℕ → ℕ → ℕ → ℕ → ℕ → ℕ → Result (BarInfo × ℕ)
bar_info offset i ignore bar_orig size address_top =
    let low = bar_orig / 16 * 16 in
    let region = λ (ty : MemoryBarType) (address : ℕ).
      memory ty (bar_orig / 8 % 2 == 1) address size (convert_physical_to_virtual offset address) in
    if bar_orig % 2 == 1
    then ok (io (bar_orig / 4 * 4) size, ignore)
    else elim (memory_bar_type (bar_orig / 2 % 4)) [
      | err e ↦ err e
      | ok width32 ↦ ok (region width32 low, ignore)
      | ok below_1mib ↦ ok (region below_1mib low, ignore)
      | ok width64 ↦
          if leb 5 i
          then err invalid_bar_type
          else ok (region width64 (bit_or low (address_top * 2 ^ 32)), i + 1)
    ]

module _ {S : Type 0} (hw : Hardware S) (offset : ℕ) (b : BusDeviceFunction) where
  abbrev bar_register : ℕ → ℕ
  bar_register i = 0x10 + 4 * i

  -- Writes ones, reads the mask and writes the old value back.
  unfoldable pub probe : S → ℕ → ℕ × ℕ × S
  probe s i =
      let bar_orig = read_config hw s b (bar_register i) in
      let s1 = write_config hw s b (bar_register i) 0xffffffff in
      (
        bar_orig,
        read_config hw s1 b (bar_register i),
        write_config hw s1 b (bar_register i) bar_orig,
      )

  -- The loop, with the number of registers left. The pages mapped so far are `maps`.
  unfoldable pub bar_loop :
      ℕ
      → ℕ
      → ℕ
      → PciStandardDeviceBar
      → S
      → List (ℕ × ℕ)
      → Result PciStandardDeviceBar × S × List (ℕ × ℕ)
  bar_loop zero i ignore bars s maps = (ok bars, s, maps)
  bar_loop (suc n) i ignore bars s maps =
      let (bar_orig, size_mask, s') = probe s i in
      let rest = λ (ign : ℕ) (bars' : PciStandardDeviceBar) (t : S) (maps' : List (ℕ × ℕ)).
        bar_loop n (i + 1) ign bars' t maps' in
      if i == ignore
      then rest ignore bars s maps
      else if bar_size size_mask == 0
      then rest ignore bars s' maps
      else elim (bar_info offset i ignore bar_orig (bar_size size_mask)
          (read_config hw s' b (bar_register (i + 1)))) [
            | err e ↦ (err e, s', maps)
            | ok (info, ign) ↦ rest ign (set_bar bars i info) s' (maps ++ bar_pages info)
          ]

  unfoldable pub pci_bar_init : S → Result PciStandardDeviceBar × S × List (ℕ × ℕ)
  pci_bar_init s = bar_loop 6 0 255 default_bars s []
