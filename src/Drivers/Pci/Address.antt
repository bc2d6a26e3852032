-- ===== src/Drivers/Pci/Address.antt =====
-- The fields of a configuration address.
use Prim.Native.Nat.{bit_or}
use good_os_framework.Base.{ℕ, ◌+◌, ◌*◌, ◌/◌, ◌%◌, ◌^◌, ◌<◌, ◌≡◌, arith, ap, ◌∙◌}
use good_os_framework.Base.Bits.{or_shift, or_comm}
use good_os_framework.Drivers.Pci.{BusDeviceFunction, config_address}

-- The fields of the address side by side.
config_address-sum :
    (b : BusDeviceFunction) (offset : ℕ)
    → b.bus < 256
    → b.device < 32
    → b.function < 8
    → offset < 256
    → config_address b offset
      ≡ 2 ^ 31 + (b.bus * 2 ^ 16 + b.device * 2 ^ 11 + b.function * 2 ^ 8 + offset / 4 * 4)
unfolding config_address
config_address-sum b offset p q r o =
    let high = or_shift 16 b.bus (b.device * 2 ^ 11) (omega arith) in
    let upper = b.bus * 2 ^ 5 + b.device in
    let middle = or_shift 11 upper (b.function % 8 * 2 ^ 8) (omega arith) in
    let inner = upper * 2 ^ 3 + b.function % 8 in
    let low = or_shift 8 inner (offset / 4 % 2 ^ 6 * 4) (omega arith) in
    let all = inner * 2 ^ 8 + offset / 4 % 2 ^ 6 * 4 in
    ap
      (λ t. bit_or (bit_or (bit_or t (b.function % 8 * 2 ^ 8)) (offset / 4 % 2 ^ 6 * 4)) 0x80000000)
      (high ∙ regroup b.bus b.device)
    ∙ ap (λ t. bit_or (bit_or t (offset / 4 % 2 ^ 6 * 4)) 0x80000000) (middle ∙ omega arith)
    ∙ ap (λ t. bit_or t 0x80000000) {y = all} low
    ∙ or_comm all 0x80000000
    ∙ or_shift 31 1 all (omega arith)
    ∙ omega arith
  where
    regroup : (x y : ℕ) → x * 2 ^ 16 + y * 2 ^ 11 ≡ (x * 2 ^ 5 + y) * 2 ^ 11
    regroup x y = omega arith

-- The fields do not overlap: a bus below 256, a device below 32, a function below 8 and a register
-- below 256 give the sum of their places, from which each can be read back.
pub config_address_lem :
    (b : BusDeviceFunction) (offset : ℕ)
    → b.bus < 256
    → b.device < 32
    → b.function < 8
    → offset < 256
    → (config_address b offset / 2 ^ 16 % 2 ^ 8 ≡ b.bus)
      × (config_address b offset / 2 ^ 11 % 2 ^ 5 ≡ b.device)
      × (config_address b offset / 2 ^ 8 % 2 ^ 3 ≡ b.function)
      × (config_address b offset % 2 ^ 8 ≡ offset / 4 * 4)
      × (config_address b offset / 2 ^ 31 ≡ 1)
config_address_lem b offset p q r o =
    let sum = config_address-sum b offset p q r o in
    (
      omega (arith, sum),
      omega (arith, sum),
      omega (arith, sum),
      omega (arith, sum),
      omega (arith, sum),
    )
