-- ===== src/Memory/Address.antt =====
-- src/memory/mod.rs: the fixed offset between physical addresses and the kernel's view of them. An
-- address is the `u64` that `PhysAddr` or `VirtAddr` of the `x86_64` crate wraps; the offset is what the
-- boot loader answers. That the constructors of the crate refuse an address that is not canonical is
-- left out, and sums wrap as in a build without overflow checks.
use good_os_framework.Base.{ℕ, ◌+◌, ◌-◌, ◌^◌, ◌%◌, ◌<◌, ◌≡◌, arith}

unfoldable pub convert_physical_to_virtual : ℕ → ℕ → ℕ
convert_physical_to_virtual offset physical_address = (physical_address + offset) % 2 ^ 64

unfoldable pub convert_virtual_to_physical : ℕ → ℕ → ℕ
convert_virtual_to_physical offset virtual_address = (virtual_address + 2 ^ 64 - offset) % 2 ^ 64

-- The two conversions undo each other on 64-bit addresses, whatever the offset.
pub convert_inverse :
    (offset a : ℕ)
    → offset < 2 ^ 64
    → a < 2 ^ 64
    → (convert_virtual_to_physical offset (convert_physical_to_virtual offset a) ≡ a)
      × (convert_physical_to_virtual offset (convert_virtual_to_physical offset a) ≡ a)
unfolding convert_physical_to_virtual convert_virtual_to_physical
convert_inverse offset a p q = (omega arith, omega arith)
