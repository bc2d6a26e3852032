-- ===== src/Drivers/Pci/Root/Registers.antt =====
-- Where registers are read and written: those of different functions do not meet.
use Prim.Native.Nat.{bit_or}
use good_os_framework.Base.{
  ℕ, ◌+◌, ◌-◌, ◌*◌, ◌/◌, ◌%◌, ◌^◌, ◌≤◌, ◌<◌, ◌≡◌, ◌≢◌, refl, ◌∙◌, ◌⊎◌, some, lt→ltb, done, arith,
}
use good_os_framework.Base.Bits.{and_low, or_shift}
use good_os_framework.Drivers.Pci.{BusDeviceFunction, valid, Hardware}
use good_os_framework.Drivers.Pci.Root.{PciRoot, cam_offset, read_config, write_config}

-- A register of a function that belongs to the root.
pub record InRoot (r : PciRoot) (b : BusDeviceFunction) (register_offset : ℕ) : Type 0 where
  pub from : r.bus_begin ≤ b.bus
  pub bus : b.bus < 256
  pub device : b.device < 32
  pub function : b.function < 8
  pub register : register_offset < 4096
  pub aligned : register_offset % 4 ≡ 0

-- The place of a register.
abbrev pub place : PciRoot → BusDeviceFunction → ℕ → ℕ
place r b register_offset =
    (b.bus - r.bus_begin) * 2 ^ 20 + b.device * 2 ^ 15 + b.function * 2 ^ 12 + register_offset

cam_offset_lem :
    (r : PciRoot) (b : BusDeviceFunction) (register_offset : ℕ)
    → InRoot r b register_offset
    → cam_offset r b register_offset ≡ done (place r b register_offset)
unfolding cam_offset valid
cam_offset_lem r b register_offset i =
    let bus = b.bus - r.bus_begin in
    let wrap : ((b.bus + 2 ^ 8 - r.bus_begin) % 2 ^ 8 ≡ bus) = omega (arith, i.from, i.bus) in
    let first : (bit_or (bus * 2 ^ 8) (b.device * 2 ^ 3) ≡ (bus * 2 ^ 5 + b.device) * 2 ^ 3) =
      or_shift 8 bus (b.device * 2 ^ 3) (omega (arith, i.device)) ∙ omega arith in
    let second : (bit_or ((bus * 2 ^ 5 + b.device) * 2 ^ 3) b.function
        ≡ (bus * 2 ^ 5 + b.device) * 2 ^ 3 + b.function) =
      or_shift 3 (bus * 2 ^ 5 + b.device) b.function i.function in
    let third =
      or_shift 12 ((bus * 2 ^ 5 + b.device) * 2 ^ 3 + b.function) register_offset i.register in
    let sum : (((bus * 2 ^ 5 + b.device) * 2 ^ 3 + b.function) * 2 ^ 12 + register_offset
        ≡ place r b register_offset) =
      omega arith in
    let low : (place r b register_offset % 2 ^ 2 ≡ 0) = omega (arith, i.aligned) in
    rw
      (
        lt→ltb b.device 32 i.device,
        lt→ltb b.function 8 i.function,
        wrap,
        first,
        second,
        third,
        sum,
        and_low 2 (place r b register_offset),
        low,
      )
      refl

-- A root that has its base address reads and writes every register of its functions at the place of the
-- register behind the base: 1 MiB for each bus from its first one on, 32 KiB for each device, 4 KiB for each
-- function. The places of two registers are apart, and that of a register lies within the bytes for its
-- bus.
pub read_config_lem :
    {S : Type 0} (hw : Hardware S) (s : S) (r : PciRoot) (b : BusDeviceFunction)
    (register_offset value base : ℕ)
    → InRoot r b register_offset
    → r.mmio_base ≡ some base
    → (read_config hw s r b register_offset ≡ done (hw.read s (base + place r b register_offset)))
      × (write_config hw s r b register_offset value
          ≡ done (hw.write s (base + place r b register_offset) value))
      × (place r b register_offset + 4 ≤ (b.bus - r.bus_begin + 1) * 2 ^ 20)
      × ((b' : BusDeviceFunction) (o : ℕ)
          → InRoot r b' o
          → (b'.bus ≢ b.bus)
            ⊎ ((b'.device ≢ b.device) ⊎ ((b'.function ≢ b.function) ⊎ (o ≢ register_offset)))
          → (place r b' o + 4 ≤ place r b register_offset)
            ⊎ (place r b register_offset + 4 ≤ place r b' o))
unfolding read_config write_config
read_config_lem hw s r b register_offset value base i mapped =
    let word : (place r b register_offset / 2 ^ 2 * 4 ≡ place r b register_offset) =
      omega (arith, i.aligned) in
    (
      rw (cam_offset_lem r b register_offset i, mapped, word) refl,
      rw (cam_offset_lem r b register_offset i, mapped, word) refl,
      omega (arith, i.from, i.device, i.function, i.register, i.aligned),
      (λ b' o i' differ. omega (
        arith, differ, i.from, i.bus, i.device, i.function, i.register, i.aligned, i'.from, i'.bus,
        i'.device, i'.function, i'.register, i'.aligned,
      )),
    )
