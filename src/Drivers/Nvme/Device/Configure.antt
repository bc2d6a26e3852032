-- ===== src/Drivers/Nvme/Device/Configure.antt =====
-- The controller is disabled, configured and enabled, in this order.
use Prim.Native.Nat.{bit_or, bit_and}
use good_os_framework.Base.{
  ℕ, zero, suc, ◌+◌, ◌-◌, ◌%◌, ◌^◌, ◌≤◌, ◌<◌, ◌≡◌, refl, subst, ◌∙◌, Bool, true, false, [], ◌∷◌,
  ◌++◌, ◌==◌, leb-true, if◌then◌else◌, done, arith,
}
use good_os_framework.Drivers.Nvme.Queues.{same, get_addr, comp_get_addr}
use good_os_framework.Drivers.Nvme.Device.{
  Controller, NvmeDevice, in_bounds, get_reg32, set_reg32, set_reg64,
}
use good_os_framework.Drivers.Nvme.Device.Init.{entry_sizes, wait_status, configure}

-- The device after a register is written.
abbrev pub wrote : NvmeDevice → ℕ → ℕ → NvmeDevice
wrote d reg value = record d { writes = d.writes ++ (d.addr + reg, value) ∷ [] }

-- The registers of the controller that the driver uses lie in the mapped memory.
abbrev pub IsMapped : NvmeDevice → Type 0
IsMapped d = (0x38 ≤ d.len) × (d.len < 2 ^ 64)

-- The ready bit is `ready` at the `n`-th poll, and not before.
abbrev pub Responds : Controller → NvmeDevice → Bool → ℕ → Type 0
Responds ctl d ready n =
    ((i : ℕ) → i < n → same (ctl.reg d.writes (d.addr + 0x1c) i % 2 == 1) ready ≡ false)
    × (same (ctl.reg d.writes (d.addr + 0x1c) n % 2 == 1) ready ≡ true)

in_bounds-mapped :
    (d : NvmeDevice) (reg bytes : ℕ)
    → IsMapped d
    → reg ≤ 0x30
    → bytes ≤ 8
    → in_bounds d reg bytes ≡ true
unfolding in_bounds
in_bounds-mapped d reg bytes m small width =
    leb-true reg ((d.len + 2 ^ 64 - bytes) % 2 ^ 64) (omega arith)

get_mapped :
    (ctl : Controller) (d : NvmeDevice) (reg t : ℕ)
    → IsMapped d
    → reg ≤ 0x30
    → get_reg32 ctl d reg t ≡ done (ctl.reg d.writes (d.addr + reg) t)
unfolding get_reg32
get_mapped ctl d reg t m small = rw (in_bounds-mapped d reg 4 m small (omega arith)) refl

set_mapped :
    (d : NvmeDevice) (reg value : ℕ)
    → IsMapped d
    → reg ≤ 0x30
    → (set_reg32 d reg value ≡ done (wrote d reg value))
      × (set_reg64 d reg value ≡ done (wrote d reg value))
unfolding set_reg32 set_reg64
set_mapped d reg value m small = (
  rw (in_bounds-mapped d reg 4 m small (omega arith)) refl,
  rw (in_bounds-mapped d reg 8 m small (omega arith)) refl,
)

wait_step :
    (ctl : Controller) (fuel k : ℕ) (d : NvmeDevice) (ready : Bool) (t : ℕ)
    → IsMapped d
    → wait_status ctl fuel (suc k) d ready t ≡ (
        if same (ctl.reg d.writes (d.addr + 0x1c) t % 2 == 1) ready
        then done tt
        else wait_status ctl fuel k d ready (t + 1))
unfolding wait_status get_reg32
wait_step ctl fuel k d ready t m = rw (in_bounds-mapped d 0x1c 4 m (omega arith) (omega arith)) refl

wait_lem :
    (ctl : Controller) (fuel n k : ℕ) (d : NvmeDevice) (ready : Bool) (t : ℕ)
    → IsMapped d
    → n < k
    → ((i : ℕ) → i < n → same (ctl.reg d.writes (d.addr + 0x1c) (t + i) % 2 == 1) ready ≡ false)
    → same (ctl.reg d.writes (d.addr + 0x1c) (t + n) % 2 == 1) ready ≡ true
    → wait_status ctl fuel k d ready t ≡ done tt
wait_lem ctl fuel n zero d ready t m h before now = absurd (omega arith)
wait_lem ctl fuel zero (suc k) d ready t m h before now =
    wait_step ctl fuel k d ready t m
    ∙ rw
        (subst (λ i. same (ctl.reg d.writes (d.addr + 0x1c) i % 2 == 1) ready ≡ true) {x = t + 0}
          {y = t} (omega arith) now)
        refl
wait_lem ctl fuel (suc n) (suc k) d ready t m h before now =
    wait_step ctl fuel k d ready t m
    ∙ rw
        (subst (λ i. same (ctl.reg d.writes (d.addr + 0x1c) i % 2 == 1) ready ≡ false) {x = t + 0}
          {y = t} (omega arith) (before 0 (omega arith)))
        (wait_lem ctl fuel n k d ready (t + 1) m (omega arith)
          (λ i lt.
            subst (λ i. same (ctl.reg d.writes (d.addr + 0x1c) i % 2 == 1) ready ≡ false)
              {x = t + suc i} {y = t + 1 + i} (omega arith) (before (suc i) (omega arith)))
          (subst (λ i. same (ctl.reg d.writes (d.addr + 0x1c) i % 2 == 1) ready ≡ true)
            {x = t + suc n} {y = t + 1 + n} (omega arith) now))

-- `wait_status` from its first poll.
wait_status-Responds :
    (ctl : Controller) (fuel n : ℕ) (d : NvmeDevice) (ready : Bool)
    → IsMapped d
    → n < fuel
    → Responds ctl d ready n
    → wait_status ctl fuel fuel d ready 0 ≡ done tt
wait_status-Responds ctl fuel n d ready m h (before, now) =
    wait_lem ctl fuel n fuel d ready 0 m h
      (λ i lt.
        subst (λ i. same (ctl.reg d.writes (d.addr + 0x1c) i % 2 == 1) ready ≡ false) {x = i}
          {y = 0 + i} (omega arith) (before i lt))
      (subst (λ i. same (ctl.reg d.writes (d.addr + 0x1c) i % 2 == 1) ready ≡ true) {x = n}
        {y = 0 + n} (omega arith) now)

-- What the register CC holds after the writes of a device.
abbrev pub control : Controller → NvmeDevice → ℕ
control ctl d = ctl.reg d.writes (d.addr + 0x14) 0

-- The device with the controller disabled, then with the admin queues set, then the entry sizes, then
-- enabled.
abbrev pub disabled : Controller → NvmeDevice → NvmeDevice
disabled ctl d = wrote d 0x14 (bit_and (control ctl d) 0xFFFFFFFE)

abbrev pub with_queues : Controller → NvmeDevice → NvmeDevice
with_queues ctl d =
    wrote (wrote (wrote (disabled ctl d) 0x28 d.admin_sq.dma.phys) 0x30 d.admin_cq.dma.phys) 0x24
      0x3FF03FF

abbrev pub sized : Controller → NvmeDevice → NvmeDevice
sized ctl d = wrote (with_queues ctl d) 0x14 (entry_sizes (control ctl (with_queues ctl d)))

abbrev pub enabled : Controller → NvmeDevice → NvmeDevice
enabled ctl d = wrote (sized ctl d) 0x14 (bit_or (control ctl (sized ctl d)) 1)

pub configure-enabled :
    (ctl : Controller) (d : NvmeDevice) (wait_off wait_on fuel : ℕ)
    → IsMapped d
    → Responds ctl (disabled ctl d) false wait_off
    → Responds ctl (enabled ctl d) true wait_on
    → wait_off < fuel
    → wait_on < fuel
    → configure ctl fuel d ≡ done (enabled ctl d)
unfolding configure get_addr comp_get_addr
configure-enabled ctl d wait_off wait_on fuel m off on h k =
    let d1 = disabled ctl d in
    let d2 = wrote d1 0x28 d.admin_sq.dma.phys in
    let d3 = wrote d2 0x30 d.admin_cq.dma.phys in
    let d5 = sized ctl d in
    rw
      (
        get_mapped ctl d 0x14 0 m (omega arith),
        (set_mapped d 0x14 (bit_and (control ctl d) 0xFFFFFFFE) m (omega arith)).0,
        wait_status-Responds ctl fuel wait_off d1 false m h off,
        (set_mapped d1 0x28 d.admin_sq.dma.phys m (omega arith)).1,
        (set_mapped d2 0x30 d.admin_cq.dma.phys m (omega arith)).1,
        (set_mapped d3 0x24 0x3FF03FF m (omega arith)).0,
        get_mapped ctl (with_queues ctl d) 0x14 0 m (omega arith),
        (set_mapped (with_queues ctl d) 0x14 (entry_sizes (control ctl (with_queues ctl d))) m
            (omega arith)).0,
        get_mapped ctl d5 0x14 0 m (omega arith),
        (set_mapped d5 0x14 (bit_or (control ctl d5) 1) m (omega arith)).0,
        wait_status-Responds ctl fuel wait_on (enabled ctl d) true m k on,
      )
      refl
