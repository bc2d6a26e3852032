-- ===== src/Drivers/Nvme/Device/Doorbells.antt =====
-- Where the doorbells lie.
use native.Mathlib.Nat.{mul-le-mul, mod-eq_of_lt}
use good_os_framework.Base.{
  ℕ, zero, suc, ◌+◌, ◌*◌, ◌%◌, ◌^◌, ◌≤◌, ◌<◌, ◌≡◌, ◌⊎◌, inl, inr, refl, ap, ◌∙◌, arith,
}
use good_os_framework.Drivers.Nvme.Device.{
  NvmeDevice, NvmeArrayRegs, sqy_tdbl, cqy_hdbl, doorbell, doorbell_offset,
}

-- The place of a doorbell in the array of doorbells.
abbrev pub place : NvmeArrayRegs → ℕ → ℕ
place sqy_tdbl qid = 2 * qid
place cqy_hdbl qid = 2 * qid + 1

-- The distance from one doorbell to the next.
abbrev pub stride : ℕ → ℕ
stride dstrd = 4 * 2 ^ dstrd

pub doorbell_at :
    (d : NvmeDevice) (reg : NvmeArrayRegs) (qid : ℕ)
    → doorbell d reg qid ≡ d.addr + 0x1000 + doorbell_offset d.dstrd (place reg qid)
unfolding doorbell
doorbell_at d sqy_tdbl qid = refl
doorbell_at d cqy_hdbl qid = refl

stride_least : (dstrd : ℕ) → 4 ≤ stride dstrd
stride_least zero = omega arith
stride_least (suc n) = omega (arith, stride_least n)

exact : (s i : ℕ) → 4 ≤ s → s * suc i ≤ 2 ^ 16 → (s % 2 ^ 16) * i % 2 ^ 16 ≡ s * i
exact s zero h room = omega arith
exact s (suc i) h room =
    ap (λ t. t * suc i % 2 ^ 16) (mod-eq_of_lt (omega (arith, twice))) ∙ mod-eq_of_lt (omega arith)
  where
    twice : s * 2 ≤ s * suc (suc i)
    twice = mul-le-mul {n₁ = s} {m₁ = 2} {n₂ = s} {m₂ = suc (suc i)} (omega arith) (omega arith)

-- As long as the array of doorbells is no longer than 2 ^ 16 bytes, the 16-bit offset is exact.
pub doorbell_exact :
    (dstrd i : ℕ) → stride dstrd * (i + 1) ≤ 2 ^ 16 → doorbell_offset dstrd i ≡ stride dstrd * i
unfolding doorbell_offset
doorbell_exact dstrd i room = exact (stride dstrd) i (stride_least dstrd) (omega arith)

-- Two different doorbells in the first 2 ^ 16 bytes of the array do not overlap, and none overlaps the
-- registers below it: the later of the two lies at least four bytes after the earlier.
pub doorbells_apart :
    (d : NvmeDevice) (r s : NvmeArrayRegs) (p q : ℕ)
    → place r p < place s q
    → stride d.dstrd * (place s q + 1) ≤ 2 ^ 16
    → (d.addr + 0x1000 ≤ doorbell d r p) × (doorbell d r p + 4 ≤ doorbell d s q)
doorbells_apart d r s p q before room =
    let first = doorbell_at d r p in
    let second = doorbell_at d s q in
    let step =
      mul-le-mul {n₁ = stride d.dstrd} {m₁ = suc (place r p)} {n₂ = stride d.dstrd} {m₂ = place s q}
        (omega arith) before in
    let low = doorbell_exact d.dstrd (place r p) (omega (arith, step)) in
    let high = doorbell_exact d.dstrd (place s q) room in
    (omega (arith, first), omega (arith, first, second, step, low, high, stride_least d.dstrd))

vanish : (k i : ℕ) → (k ≡ 14) ⊎ (k ≡ 15) → doorbell_offset k i ≡ 0
unfolding doorbell_offset
vanish k i (inl p) = rw p (omega arith)
vanish k i (inr p) = rw p (omega arith)

-- With a stride exponent of 14 or 15, which four bits of the capabilities can hold, the 16-bit
-- product vanishes, and every doorbell is written at the place of the first.
pub doorbells_collapse :
    (d : NvmeDevice) (reg : NvmeArrayRegs) (qid : ℕ)
    → (d.dstrd ≡ 14) ⊎ (d.dstrd ≡ 15)
    → doorbell d reg qid ≡ d.addr + 0x1000
doorbells_collapse d reg qid e =
    doorbell_at d reg qid
    ∙ ap (λ t. d.addr + 0x1000 + t) (vanish d.dstrd (place reg qid) e)
    ∙ omega arith
