-- ===== src/Drivers/Pci/Capability.antt =====
-- src/drivers/pci.rs: the capabilities of a device, which form a linked list in its configuration space.
use good_os_framework.Base.{
  ℕ, zero, suc, ◌+◌, ◌*◌, ◌/◌, ◌%◌, ◌^◌, ◌≤◌, ◌<◌, ◌≡◌, refl, ap, ◌∙◌, not, Option, none, some,
  List, [], ◌∷◌, ltb, ltb-false, ◌==◌, ==_ne, ◌||◌, length, if◌then◌else◌, Outcome, done, spins,
  ◌>>=◌, arith,
}
use good_os_framework.Base.Bits.{and_low}
use good_os_framework.Drivers.Pci.{BusDeviceFunction, Hardware, read_config}
use Prim.Native.Nat.{bit_and}

pub record CapabilityInfo : Type 0 where
  pub offset : ℕ
  pub id : ℕ
  pub private_header : ℕ

pub record CapabilityIterator : Type 0 where
  pub bus_device_function : BusDeviceFunction
  pub next_capability_offset : Option ℕ

-- The offset that follows, if it is valid.
unfoldable pub follow : ℕ → Option ℕ
follow next_offset =
    if next_offset == 0
    then none
    else (if ltb next_offset 64 || not (bit_and next_offset 0x3 == 0)
        then none
        else some next_offset)

abbrev pub status_command_offset : ℕ
status_command_offset = 0x04

-- The offset of the first capability of a list.
abbrev pub head_offset : List CapabilityInfo → ℕ
head_offset [] = 0
head_offset (c ∷ cs) = c.offset

abbrev pub Follows : List CapabilityInfo → Type 0
Follows [] = Unit
Follows (c ∷ cs) = (64 ≤ c.offset) × (c.offset < 256) × (c.offset % 4 ≡ 0)

follow_valid : (o : ℕ) → 64 ≤ o → o % 4 ≡ 0 → follow o ≡ some o
unfolding follow
follow_valid o lo aligned =
    rw (==_ne o 0 (λ e. omega (arith, e)), ltb-false o 64 lo, and_low 2 o, aligned) refl

module _ {S : Type 0} (hw : Hardware S) (s : S) where
  -- The item and the iterator after it.
  unfoldable pub next_at : BusDeviceFunction → ℕ → CapabilityInfo × CapabilityIterator
  next_at b offset =
      let capability_header = read_config hw s b offset in
      (
        record {
          offset = offset;
          id = capability_header % 2 ^ 8;
          private_header = capability_header / 2 ^ 16 % 2 ^ 16;
        },
        record {
          bus_device_function = b;
          next_capability_offset = follow (capability_header / 2 ^ 8 % 2 ^ 8);
        },
      )

  unfoldable pub next : CapabilityIterator → Option (CapabilityInfo × CapabilityIterator)
  next it = elim it.next_capability_offset [
    | none ↦ none
    | some offset ↦ some (next_at it.bus_device_function offset)
  ]

  -- The items of an iterator, on fuel.
  unfoldable pub collect : ℕ → BusDeviceFunction → Option ℕ → Outcome (List CapabilityInfo)
  collect zero b none = done []
  collect zero b (some offset) = spins
  collect (suc fuel) b none = done []
  collect (suc fuel) b (some offset) =
      let (info, it) = next_at b offset in
      collect fuel b it.next_capability_offset >>= λ infos. done (info ∷ infos)

  -- The bit 4 of the status says whether there is a list.
  unfoldable pub capabilities_offset : BusDeviceFunction → Option ℕ
  capabilities_offset b =
      let status = read_config hw s b status_command_offset / 2 ^ 16 % 2 ^ 16 in
      if status / 2 ^ 4 % 2 == 1
      then some (bit_and (read_config hw s b 0x34 % 2 ^ 8) 0xfc)
      else none

  -- The device holds a list of capabilities: each word has the identifier, the offset of the next and the
  -- private part, and each offset after the first is a multiple of 4 from 64 on.
  abbrev pub Holds : BusDeviceFunction → List CapabilityInfo → Type 0
  Holds b [] = Unit
  Holds b (c ∷ cs) =
      (read_config hw s b c.offset ≡ c.id + head_offset cs * 2 ^ 8 + c.private_header * 2 ^ 16)
      × (c.id < 2 ^ 8)
      × (c.private_header < 2 ^ 16)
      × Follows cs
      × Holds b cs

  collect_none : (fuel : ℕ) (b : BusDeviceFunction) → collect fuel b (follow 0) ≡ done []
  unfolding collect follow
  collect_none zero b = refl
  collect_none (suc fuel) b = refl

  step_lem :
      (fuel : ℕ) (b : BusDeviceFunction) (c : CapabilityInfo) (cs : List CapabilityInfo)
      → Holds b (c ∷ cs)
      → head_offset cs < 256
      → collect fuel b (follow (head_offset cs)) ≡ done cs
      → collect (suc fuel) b (some c.offset) ≡ done (c ∷ cs)
  unfolding collect next_at
  step_lem fuel b c cs (word, id, private, follows, rest) small later =
      let w = c.id + head_offset cs * 2 ^ 8 + c.private_header * 2 ^ 16 in
      let e1 : (w % 2 ^ 8 ≡ c.id) = omega arith in
      let e2 : (w / 2 ^ 8 % 2 ^ 8 ≡ head_offset cs) = omega arith in
      let e3 : (w / 2 ^ 16 % 2 ^ 16 ≡ c.private_header) = omega arith in
      rw (word, e1, e2, e3, later) refl

  -- The items are the capabilities that a device holds, in their order, if the fuel is at least their
  -- number.
  pub collect_lem :
      (fuel : ℕ) (b : BusDeviceFunction) (c : CapabilityInfo) (cs : List CapabilityInfo)
      → Holds b (c ∷ cs)
      → length (c ∷ cs) ≤ fuel
      → collect fuel b (some c.offset) ≡ done (c ∷ cs)
  collect_lem zero b c cs h enough = absurd (omega arith)
  collect_lem (suc fuel) b c [] h enough =
      step_lem fuel b c [] h (omega arith) (collect_none fuel b)
  collect_lem (suc fuel) b c (c' ∷ cs) h enough =
      let (lo, hi, aligned) = h.3 in
      step_lem fuel b c (c' ∷ cs) h hi (
        ap (collect fuel b) (follow_valid c'.offset lo aligned)
        ∙ collect_lem fuel b c' cs h.4 (omega arith))
