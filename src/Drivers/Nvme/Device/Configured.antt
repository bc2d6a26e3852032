-- ===== src/Drivers/Nvme/Device/Configured.antt =====
-- The writes of a driver that brings a controller up.
use Prim.Native.Nat.{bit_or, bit_and}
use good_os_framework.Base.{
  ℕ, ◌+◌, ◌*◌, ◌/◌, ◌%◌, ◌^◌, ◌<◌, ◌≡◌, ◌≢◌, ap, ◌∙◌, true, false, List, [], ◌∷◌, ◌++◌, done, arith,
}
use good_os_framework.Drivers.Nvme.Device.{Controller, NvmeDevice, Write}
use good_os_framework.Drivers.Nvme.Device.Init.{entry_sizes, configure}
use good_os_framework.Drivers.Nvme.Device.Values.{clear_enable, set_enable, entry_sizes_lem}
use good_os_framework.Drivers.Nvme.Device.Configure.{
  wrote, IsMapped, Responds, control, disabled, with_queues, sized, enabled, configure-enabled,
}

-- The register CC keeps what is written to it, and other writes do not change it.
pub record KeepsControl (ctl : Controller) (addr : ℕ) : Type 0 where
  pub written :
      (ws : List Write) (value t : ℕ)
      → ctl.reg (ws ++ (addr + 0x14, value) ∷ []) (addr + 0x14) t ≡ value
  pub other :
      (ws : List Write) (at value t : ℕ)
      → at ≢ addr + 0x14
      → ctl.reg (ws ++ (at, value) ∷ []) (addr + 0x14) t ≡ ctl.reg ws (addr + 0x14) t

-- The value of CC with the sizes of the entries: the highest 8 bits stay, completion entries have
-- 2 ^ 4 bytes and submission entries 2 ^ 6, and of the lowest 4 bits the enable bit is clear.
abbrev pub with_sizes : ℕ → ℕ
with_sizes old = old / 2 ^ 24 * 2 ^ 24 + 4 * 2 ^ 20 + 6 * 2 ^ 16 + old % 2 ^ 4 / 2 * 2

-- The admin queues with their addresses and their lengths, less one.
abbrev queues_after : NvmeDevice → ℕ → NvmeDevice
queues_after d off =
    wrote (wrote (wrote (wrote d 0x14 off) 0x28 d.admin_sq.dma.phys) 0x30 d.admin_cq.dma.phys) 0x24
      (1023 * 2 ^ 16 + 1023)

abbrev writes_of : NvmeDevice → ℕ → ℕ → ℕ → NvmeDevice
writes_of d off sizes on = wrote (wrote (queues_after d off) 0x14 sizes) 0x14 on

-- The device after its six writes, from the value that CC had.
abbrev pub configured : NvmeDevice → ℕ → NvmeDevice
configured d old = writes_of d (old / 2 * 2) (with_sizes old) (with_sizes old + 1)

-- The value of CC when the queues have been set.
after_queues :
    (ctl : Controller) (d : NvmeDevice)
    → KeepsControl ctl d.addr
    → control ctl (with_queues ctl d) ≡ bit_and (control ctl d) 0xFFFFFFFE
after_queues ctl d k =
    k.other _ (d.addr + 0x24) _ 0 (λ e. omega (arith, e))
    ∙ k.other _ (d.addr + 0x30) _ 0 (λ e. omega (arith, e))
    ∙ k.other _ (d.addr + 0x28) _ 0 (λ e. omega (arith, e))
    ∙ k.written _ _ 0

enabled_lem :
    (ctl : Controller) (d : NvmeDevice)
    → KeepsControl ctl d.addr
    → control ctl d < 2 ^ 32
    → enabled ctl d ≡ configured d (control ctl d)
enabled_lem ctl d k lt =
    let old = control ctl d in
    let off : (bit_and old 0xFFFFFFFE ≡ old / 2 * 2) = clear_enable old lt in
    let sizes : (entry_sizes (control ctl (with_queues ctl d)) ≡ with_sizes old) =
      ap entry_sizes (after_queues ctl d k ∙ off)
      ∙ entry_sizes_lem (old / 2 * 2) (omega (arith, lt))
      ∙ omega arith in
    let on : (bit_or (control ctl (sized ctl d)) 1 ≡ with_sizes old + 1) =
      ap (λ v. bit_or v 1) (k.written _ _ 0 ∙ sizes)
      ∙ ap (λ v. bit_or v 1) {x = with_sizes old} {y = with_sizes old / 2 * 2} (omega arith)
      ∙ set_enable (with_sizes old / 2)
      ∙ omega arith in
    ap
      (λ v.
        writes_of d v (entry_sizes (control ctl (with_queues ctl d)))
          (bit_or (control ctl (sized ctl d)) 1))
      off
    ∙ ap (λ v. writes_of d (old / 2 * 2) v (bit_or (control ctl (sized ctl d)) 1)) sizes
    ∙ ap (λ v. writes_of d (old / 2 * 2) (with_sizes old) v) on

-- With the registers mapped, a register CC of 32 bits that keeps what is written to it, and a controller
-- that clears its ready bit some polls after it is disabled and sets it some polls after it is enabled,
-- more polls than those are enough: the driver clears the enable bit, writes the addresses of the two
-- admin queues and their length of 1024 each, then CC with 16 bytes for a completion entry and 64 for a
-- submission entry, then the same with the enable bit, and writes nothing else.
pub configure_lem :
    (ctl : Controller) (d : NvmeDevice) (wait_off wait_on fuel : ℕ)
    → IsMapped d
    → KeepsControl ctl d.addr
    → control ctl d < 2 ^ 32
    → Responds ctl (disabled ctl d) false wait_off
    → Responds ctl (enabled ctl d) true wait_on
    → wait_off < fuel
    → wait_on < fuel
    → configure ctl fuel d ≡ done (configured d (control ctl d))
configure_lem ctl d wait_off wait_on fuel m k lt off on h h' =
    configure-enabled ctl d wait_off wait_on fuel m off on h h' ∙ ap done (enabled_lem ctl d k lt)
