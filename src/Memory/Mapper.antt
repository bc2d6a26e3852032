-- ===== src/Memory/Mapper.antt =====
-- What the kernel uses of the page tables and virtual addresses of the `x86_64` crate, as an interface.
pub mod Samples
use good_os_framework.Base.{
  ℕ, zero, suc, ◌+◌, ◌-◌, ◌*◌, ◌/◌, ◌%◌, ◌^◌, ◌≤◌, ◌<◌, ◌≡◌, ◌≢◌, Option, none, some, Outcome, done,
  Bool, true, false, arith,
}
use good_os_framework.Data.Bitmap.{BitField}
use good_os_framework.Memory.Frame.{BitmapFrameAllocator, frame_address}
use good_os_framework.Memory.Frame.Supply.{Supply}
use good_os_framework.Memory.Frame.Calls.{Calls}

pub data MapToError : Type 0 where
  frame_allocation_failed : MapToError
  parent_entry_huge_page : MapToError
  page_already_mapped : ℕ → MapToError

pub data MapResult : Type 0 where
  ok : MapResult
  err : MapToError → MapResult

-- A mapper with the allocator it takes its tables from.
abbrev pub Mapped : Type 0 → Type 0
Mapped T = MapResult × T × BitmapFrameAllocator

-- What the interface shows of a mapper.
pub record View : Type 0 where
  pub translate : ℕ → Option (ℕ × ℕ)
  pub is_vacant : ℕ → Bool
  pub is_small : ℕ → Bool

-- Two views differ at most in one page.
pub record SameBut (page : ℕ) (v v' : View) : Type 0 where
  pub translate : (addr : ℕ) → addr / 4096 ≢ page → v'.translate addr ≡ v.translate addr
  pub vacant : (p : ℕ) → p ≢ page → v'.is_vacant p ≡ v.is_vacant p
  pub small : (p : ℕ) → p ≢ page → v'.is_small p ≡ v.is_small p

-- After `page` has been mapped to the frame at `frame`.
pub record MapsTo (page frame flags : ℕ) (v v' : View) : Type 0 where
  pub here : (o : ℕ) → o < 4096 → v'.translate (page * 4096 + o) ≡ some (frame + o, flags)
  pub small : v'.is_small page ≡ true
  pub others : SameBut page v v'

-- The flags of an entry for the frame at an address: the page is present and not huge, no flag is a bit
-- of the address, and the address is that of a frame. Other flags make the crate panic or map nothing.
pub record IsEntry (frame flags : ℕ) : Type 0 where
  pub present : flags % 2 ≡ 1
  pub not_huge : flags / 128 % 2 ≡ 0
  pub no_address : flags / 4096 % 2 ^ 40 ≡ 0
  pub aligned : frame % 4096 ≡ 0
  pub low : frame < 2 ^ 52

-- Present, writable, for the user.
pub user-IsEntry : (frame : ℕ) → frame % 4096 ≡ 0 → frame < 2 ^ 52 → IsEntry frame 7
user-IsEntry frame aligned low = record {
  present = omega arith;
  not_huge = omega arith;
  no_address = omega arith;
  aligned = aligned;
  low = low;
}

-- Flags that are fit for one frame are fit for any other.
pub IsEntry-at : (n flags : ℕ) → IsEntry 0 flags → n < 2 ^ 40 → IsEntry (frame_address n) flags
IsEntry-at n flags e lt = record {
  present = e.present;
  not_huge = e.not_huge;
  no_address = e.no_address;
  aligned = omega arith;
  low = omega arith;
}

module _ ⦃B : BitField⦄ where
  -- A page is known by its number, a frame by its address. `translate` gives the physical address and the
  -- flags. A page is vacant if neither it nor a huge page around it is mapped, and small if it is mapped
  -- by an entry of its own. The laws are for flags that are fit for an entry. At most three frames are taken for tables. Sums of addresses in the lower
  -- half are as they should be.
  pub record Mapper (T : Type 0) : Type 0 where
    pub view : T → View
    pub map_to : T → ℕ → ℕ → ℕ → BitmapFrameAllocator → Mapped T
    pub map_to_with_table_flags : T → ℕ → ℕ → ℕ → ℕ → BitmapFrameAllocator → Mapped T
    pub unmap : T → ℕ → Option (ℕ × T)
    pub translate_addr : T → ℕ → Option ℕ
    pub virt : ℕ → Outcome ℕ
    pub add : ℕ → ℕ → Outcome ℕ
    pub sub : ℕ → ℕ → Outcome ℕ
    pub map_vacant :
        (t : T) (page frame flags : ℕ) (a : BitmapFrameAllocator)
        → IsEntry frame flags
        → (view t).is_vacant page ≡ true
        → Supply 3 a
        → (t' : T) × (a' : BitmapFrameAllocator) × (n : ℕ) × (map_to t page frame flags a
            ≡ (ok, t', a'))
          × (n ≤ 3)
          × Calls n a a'
          × MapsTo page frame flags (view t) (view t')
    pub map_flags_vacant :
        (t : T) (page frame flags parent_flags : ℕ) (a : BitmapFrameAllocator)
        → IsEntry frame flags
        → IsEntry 0 parent_flags
        → (view t).is_vacant page ≡ true
        → Supply 3 a
        → (t' : T) × (a' : BitmapFrameAllocator) × (n : ℕ) × (map_to_with_table_flags t page frame
              flags parent_flags a
            ≡ (ok, t', a'))
          × (n ≤ 3)
          × Calls n a a'
          × MapsTo page frame flags (view t) (view t')
    pub map_small :
        (t : T) (page frame flags : ℕ) (a : BitmapFrameAllocator)
        → IsEntry frame flags
        → (view t).is_small page ≡ true
        → (t' : T) × (old : ℕ) × (map_to t page frame flags a
            ≡ (err (page_already_mapped old), t', a))
          × (view t' ≡ view t)
    pub map_flags_small :
        (t : T) (page frame flags parent_flags : ℕ) (a : BitmapFrameAllocator)
        → IsEntry frame flags
        → IsEntry 0 parent_flags
        → (view t).is_small page ≡ true
        → (t' : T) × (old : ℕ) × (map_to_with_table_flags t page frame flags parent_flags a
            ≡ (err (page_already_mapped old), t', a))
          × (view t' ≡ view t)
    pub unmap_lem :
        (t : T) (page : ℕ)
        → (view t).is_small page ≡ true
        → (frame : ℕ) × (t' : T) × (unmap t page ≡ some (frame, t'))
          × ((view t').is_vacant page ≡ true)
          × SameBut page (view t) (view t')
    pub translate_some :
        (t : T) (addr x flags : ℕ)
        → (view t).translate addr ≡ some (x, flags)
        → translate_addr t addr ≡ some x
    pub translate_none :
        (t : T) (addr : ℕ) → (view t).translate addr ≡ none → translate_addr t addr ≡ none
    pub virt_lem : (a : ℕ) → a < 2 ^ 47 → virt a ≡ done a
    pub add_lem : (a b : ℕ) → a + b < 2 ^ 47 → add a b ≡ done (a + b)
    pub sub_lem : (a b : ℕ) → a < 2 ^ 47 → b ≤ a → sub a b ≡ done (a - b)
