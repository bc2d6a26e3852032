-- ===== src/Drivers/Pci/Root.antt =====
-- src/drivers/pci.rs: the memory-mapped configuration space of a root. The registers
-- of the devices are a state of the machine, which `Hardware` reads and writes by their addresses; what
-- a register reads after it is written is for the device to say.
pub mod Registers
use Prim.Native.Nat.{bit_and, bit_or}
use good_os_framework.Base.{
  ℕ, zero, suc, ◌+◌, ◌-◌, ◌*◌, ◌/◌, ◌%◌, ◌^◌, ◌≤◌, ◌<◌, ◌≡◌, ◌≢◌, refl, sym, ap, ◌∙◌, ◌⊎◌, inl, inr,
  Bool, true, false, not, ◌||◌, Option, none, some, ◌==◌, ==_refl, ==_ne, ltb, lt→ltb,
  if◌then◌else◌, Outcome, done, panics, ◌>>=◌, ◌>>◌, assert, unwrap, arith,
}
use good_os_framework.Base.Bits.{and_low, or_shift}
use good_os_framework.Data.Bitmap.{BitField}
use good_os_framework.Drivers.Pci.{BusDeviceFunction, valid, Hardware}
use good_os_framework.Memory.Frame.{BitmapFrameAllocator}
use good_os_framework.Memory.Mapper.{Mapper}
use good_os_framework.Memory.PageTable.General.{map_to_with_table_flags_general}

pub record PciRoot : Type 0 where
  pub physical_address_base : ℕ
  pub mmio_base : Option ℕ
  pub segement_group_number : ℕ
  pub bus_begin : ℕ
  pub bus_end : ℕ

unfoldable pub cam_offset : PciRoot → BusDeviceFunction → ℕ → Outcome ℕ
cam_offset r b register_offset = do
  assert (valid b)
  let bus = (b.bus + 2 ^ 8 - r.bus_begin) % 2 ^ 8
  let bdf = bit_or (bit_or (bus * 2 ^ 8) (b.device * 2 ^ 3)) b.function
  let address = bit_or (bdf * 2 ^ 12) register_offset
  assert (bit_and address 0x3 == 0)
  done address

module _ {S : Type 0} (hw : Hardware S) where
  unfoldable pub read_config : S → PciRoot → BusDeviceFunction → ℕ → Outcome ℕ
  read_config s r b register_offset = do
    address ← cam_offset r b register_offset
    base ← unwrap r.mmio_base
    done (hw.read s (base + address / 2 ^ 2 * 4))

  unfoldable pub write_config : S → PciRoot → BusDeviceFunction → ℕ → ℕ → Outcome S
  write_config s r b register_offset value = do
    address ← cam_offset r b register_offset
    base ← unwrap r.mmio_base
    done (hw.write s (base + address / 2 ^ 2 * 4) value)

module _ ⦃B : BitField⦄ {T : Type 0} ⦃M : Mapper T⦄ where
  -- The loop over the `n` pages from the `i`-th on; a page is present and writable.
  unfoldable pub map_pages :
      ℕ → ℕ → ℕ → ℕ → T → BitmapFrameAllocator → Outcome (T × BitmapFrameAllocator)
  map_pages zero i virtual physical t a = done (t, a)
  map_pages (suc n) i virtual physical t a =
      map_to_with_table_flags_general ((virtual + i * 4096) / 4096)
        ((physical + i * 4096) / 4096 * 4096) 3 3 t a
      >>= λ (t', a'). map_pages n (i + 1) virtual physical t' a'

  -- `virtual` is the address at which the kernel sees the base.
  unfoldable pub map :
      ℕ → PciRoot → T → BitmapFrameAllocator → Outcome (PciRoot × T × BitmapFrameAllocator)
  map virtual r t a =
      let bus_number = (r.bus_end + 2 ^ 8 - r.bus_begin + 1) % 2 ^ 8 in
      let bus_number_double = (bus_number + 1) % 2 ^ 8 / 2 in
      map_pages bus_number_double 0 virtual r.physical_address_base t a >>= λ (t', a').
      done (record r { mmio_base = some virtual }, t', a')

pub record ExternalCapabilityInfo : Type 0 where
  pub offset : ℕ
  pub id : ℕ
  pub capability_version : ℕ

-- The offset that follows, if it is valid.
unfoldable pub follow_external : ℕ → Option ℕ
follow_external next_offset =
    if next_offset == 0
    then none
    else (if ltb next_offset 0x100 || not (bit_and next_offset 0x3 == 0)
        then none
        else some next_offset)

module _ {S : Type 0} (hw : Hardware S) where
  -- The item at an offset, and the offset after it.
  unfoldable pub external_next_at :
      S → PciRoot → BusDeviceFunction → ℕ → Outcome (ExternalCapabilityInfo × Option ℕ)
  external_next_at s r b offset = do
    capability_header ← read_config hw s r b offset
    done (
      record {
        offset = offset;
        id = capability_header % 2 ^ 16;
        capability_version = capability_header / 2 ^ 16 % 2 ^ 4;
      },
      follow_external (capability_header / 2 ^ 20 % 2 ^ 16),
    )
