-- ===== src/Drivers/Pci/Sizes.antt =====
-- What the sizing of a register finds.
use native.Mathlib.Nat.{pow-le-pow_right}
use good_os_framework.Base.{ℕ, ◌+◌, ◌-◌, ◌*◌, ◌^◌, ◌<◌, ◌≡◌, refl, arith}
use good_os_framework.Drivers.Pci.Bar.{bar_size}

-- A region of 2 ^ (k + 4) bytes, from 16 bytes on: its mask has the bits from k + 4 up, and the four low
-- bits tell the kind of the region. The size is found again, whatever the low bits are.
pub bar_size_lem :
    (k flags : ℕ) → k < 28 → flags < 16 → bar_size (2 ^ 32 - 16 * 2 ^ k + flags) ≡ 16 * 2 ^ k
unfolding bar_size
bar_size_lem k flags small low =
    let bound = pow-le-pow_right {n = 2} (omega arith) {i = k} {j = 27} (omega arith) in
    let least = pow-le-pow_right {n = 2} (omega arith) {i = 0} {j = k} (omega arith) in
    omega (arith, bound, least)

-- An unused register reads back as 0 and has size 0.
pub bar_size-unused : bar_size 0 ≡ 0
unfolding bar_size
bar_size-unused = refl
