-- ===== src/Drivers/Nvme/Device/Values.antt =====
-- The values that the register CC is given, as numbers.
use Prim.Native.Nat.{bit_and, bit_or}
use good_os_framework.Base.{ℕ, ◌+◌, ◌*◌, ◌/◌, ◌%◌, ◌^◌, ◌<◌, ◌≡◌, ap, ◌∙◌, arith}
use good_os_framework.Base.Bits.{and_parts, and_shift, and_low, or_parts, or_shift, or_comm}
use good_os_framework.Drivers.Nvme.Device.Init.{entry_sizes}

-- With the enable bit clear.
pub clear_enable : (old : ℕ) → old < 2 ^ 32 → bit_and old 0xFFFFFFFE ≡ old / 2 * 2
clear_enable old lt = and_shift 1 old 0x7FFFFFFF ∙ omega (arith, and_low 31 (old / 2))

-- With the enable bit set, from a value in which it is clear.
pub set_enable : (half : ℕ) → bit_or (half * 2) 1 ≡ half * 2 + 1
set_enable half = or_shift 1 half 1 (omega arith)

-- The highest 8 bits and the lowest 4 stay; between them the completion entries have 2 ^ 4 bytes, the
-- submission entries 2 ^ 6, and the rest is clear.
pub entry_sizes_lem :
    (old : ℕ)
    → old < 2 ^ 32
    → entry_sizes old ≡ old / 2 ^ 24 * 2 ^ 24 + 4 * 2 ^ 20 + 6 * 2 ^ 16 + old % 2 ^ 4
unfolding entry_sizes
entry_sizes_lem old lt =
    let hi = old / 2 ^ 24 in
    let lo = old % 2 ^ 24 in
    let masked : (bit_and old 0xFF00000F ≡ hi * 2 ^ 24 + old % 2 ^ 4) =
      ap (λ t. bit_and t 0xFF00000F) {x = old} {y = hi * 2 ^ 24 + lo} (omega arith)
      ∙ and_parts 24 hi lo 0xFF 0xF (omega arith) (omega arith)
      ∙ omega (arith, and_low 8 hi, and_low 4 lo, lt) in
    let small = old % 2 ^ 4 in
    let high : (bit_or hi 0 ≡ hi) = or_comm hi 0 ∙ or_shift 8 0 hi (omega arith) ∙ omega arith in
    let low : (bit_or small (70 * 2 ^ 16) ≡ 70 * 2 ^ 16 + small) =
      or_comm small (70 * 2 ^ 16) ∙ or_shift 16 70 small (omega arith) in
    ap (λ t. bit_or t (70 * 2 ^ 16)) masked
    ∙ or_parts 24 hi small 0 (70 * 2 ^ 16) (omega arith) (omega arith)
    ∙ omega (arith, high, low)
