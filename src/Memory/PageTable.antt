-- ===== src/Memory/PageTable.antt =====
-- src/memory/page_table.rs: page tables and their copies. A table is known by its physical address; the
-- fixed offset at which the kernel sees the memory plays no part. The entries are those of the `x86_64`
-- crate, so they are taken as an interface.
pub mod Walk
pub mod Fresh
pub mod Copy
pub mod Tree
pub mod Duplicate
pub mod General
pub mod Access
mod Tests
use good_os_framework.Base.{
  ℕ, zero, suc, ◌+◌, ◌*◌, ◌/◌, ◌%◌, ◌^◌, ◌<◌, ◌≡◌, Bool, true, false, ◌&&◌, ◌||◌, Option, none,
  some, ◌==◌, if◌then◌else◌, Outcome, done, spins, ◌>>=◌, unwrap,
}
use good_os_framework.Data.Bitmap.{BitField}
use good_os_framework.Memory.Frame.{BitmapFrameAllocator, allocate_frame}

-- What `x86_64` documents of an entry: an address of a frame and flags. An entry is unused if it is 0.
pub record Paging (E : Type 0) : Type 0 where
  pub addr : E → ℕ
  pub flags : E → ℕ
  pub is_unused : E → Bool
  pub is_huge : ℕ → Bool
  pub set_addr : ℕ → ℕ → E
  pub addr-set_addr : (a f : ℕ) → a % 4096 ≡ 0 → a < 2 ^ 52 → addr (set_addr a f) ≡ a
  pub flags-set_addr : (a f : ℕ) → a % 4096 ≡ 0 → a < 2 ^ 52 → flags (set_addr a f) ≡ f
  pub set_addr_self : (e : E) → set_addr (addr e) (flags e) ≡ e
  pub is_unused_lem : (e : E) → is_unused e ≡ (addr e == 0) && (flags e == 0)

-- The entries of all tables, by the address of the table and the index.
abbrev pub Tables : Type 0 → Type 0
Tables E = ℕ → ℕ → E

abbrev pub put : {E : Type 0} → Tables E → ℕ → ℕ → E → Tables E
put m table index e t i = if (t == table) && (i == index) then e else m t i

abbrev pub entry_count : ℕ
entry_count = 512

-- The allocator and the memory.
abbrev pub State : Type 0 → Type 0
State E = BitmapFrameAllocator × Tables E

module _ ⦃B : BitField⦄ where
  -- The address of a new table. What its frame held before stays in it.
  unfoldable pub new : BitmapFrameAllocator → Outcome (ℕ × BitmapFrameAllocator)
  new a = do (frame, a') ← allocate_frame a; address ← unwrap frame; done (address, a')

module _ {E : Type 0} ⦃P : Paging E⦄ where
  -- Whether an entry is copied as it stands.
  unfoldable pub is_leaf : ℕ → E → Bool
  is_leaf level entry = (level == 1) || P.is_unused entry || P.is_huge (P.flags entry)

module _ ⦃B : BitField⦄ {E : Type 0} ⦃P : Paging E⦄ where
  -- The loop over the `n` entries from `index` on; `again` is the call for the next level.
  unfoldable pub copy_entries :
      ℕ → (ℕ → ℕ → State E → Outcome (State E)) → ℕ → ℕ → ℕ → ℕ → State E → Outcome (State E)
  copy_entries level again zero index source target (a, m) = done (a, m)
  copy_entries level again (suc n) index source target (a, m) =
      let entry = m source index in
      let rest = copy_entries level again n (index + 1) source target in
      if is_leaf level entry
      then rest (a, put m target index (P.set_addr (P.addr entry) (P.flags entry)))
      else (new a >>= λ (table, a').
          again (P.addr entry) table (a', put m target index (P.set_addr table (P.flags entry)))
          >>= rest)

  -- There is no level 0: all entries of level 1 are copied as they stand.
  unfoldable pub new_from_recursion : ℕ → ℕ → ℕ → State E → Outcome (State E)
  new_from_recursion zero source target s = spins
  new_from_recursion (suc level) source target s =
      copy_entries (suc level) (new_from_recursion level) entry_count 0 source target s

  -- The address of the copy.
  unfoldable pub new_from_address : ℕ → State E → Outcome (ℕ × State E)
  new_from_address physical_address (a, m) = do
    (target, a') ← new a
    s ← new_from_recursion 4 physical_address target (a', m)
    done (target, s)
