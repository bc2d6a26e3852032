-- ===== src/Memory/Manager.antt =====
-- src/memory/manager.rs: ranges of pages backed by new frames, and the user stack of src/task/stack.rs.
-- The global allocator that the source locks is passed as a state.
pub mod Backed
pub mod Range
mod Tests
use good_os_framework.Base.{
  ℕ, zero, suc, ◌+◌, ◌-◌, ◌*◌, ◌/◌, ◌%◌, ◌^◌, ◌≤◌, ◌<◌, ◌≡◌, ◌≢◌, Option, none, some, Outcome, done,
  panics, ◌>>=◌, unwrap,
}
use good_os_framework.Data.Bitmap.{BitField}
use good_os_framework.Memory.Frame.{BitmapFrameAllocator, allocate_frame}
use good_os_framework.Memory.Mapper.{Mapper, MapResult, ok, err, Mapped}

-- `?` on the result of a mapping.
unfoldable pub on_ok :
    {T : Type 0} → Mapped T → (T → BitmapFrameAllocator → Outcome (Mapped T)) → Outcome (Mapped T)
on_ok (ok, t, a) k = k t a
on_ok (err e, t, a) k = done (err e, t, a)

-- `unwrap` and `expect` on the result of a mapping.
unfoldable pub unwrap_mapped : {T : Type 0} → Mapped T → Outcome (T × BitmapFrameAllocator)
unwrap_mapped (ok, t, a) = done (t, a)
unwrap_mapped (err e, t, a) = panics

module _ ⦃B : BitField⦄ {T : Type 0} ⦃M : Mapper T⦄ where
  unfoldable pub map_frame_to_page : ℕ → ℕ → ℕ → T → BitmapFrameAllocator → Mapped T
  map_frame_to_page frame page flags t a = M.map_to t page frame flags a

  -- The loop over the `n` pages from `page` on.
  unfoldable pub alloc_pages : ℕ → ℕ → ℕ → T → BitmapFrameAllocator → Outcome (Mapped T)
  alloc_pages zero page flags t a = done (ok, t, a)
  alloc_pages (suc n) page flags t a =
      let rest = alloc_pages n (page + 1) flags in
      allocate_frame a >>= λ (frame, a').
      unwrap frame >>= λ f. on_ok (map_frame_to_page f page flags t a') rest

  unfoldable pub alloc_range : ℕ → ℕ → ℕ → T → BitmapFrameAllocator → Outcome (Mapped T)
  alloc_range start_address length flags t a = do
    past ← M.add start_address length
    end_address ← M.sub past 1
    let start_page = start_address / 4096
    let end_page = end_address / 4096
    alloc_pages (end_page + 1 - start_page) start_page flags t a

abbrev pub user_stack_end : ℕ
user_stack_end = 0x7fff_feff_f000

abbrev pub user_stack_size : ℕ
user_stack_size = 64 * 1024

pub record UserStack : Type 0 where
  pub start_address : ℕ
  pub end_address : ℕ

-- Present, writable, for the user, not to be executed.
abbrev pub stack_flags : ℕ
stack_flags = 2 ^ 63 + 4 + 2 + 1

module _ ⦃B : BitField⦄ {T : Type 0} ⦃M : Mapper T⦄ where
  unfoldable pub new_user_stack :
      T → BitmapFrameAllocator → Outcome (UserStack × T × BitmapFrameAllocator)
  new_user_stack t a = do
    start ← M.sub user_stack_end user_stack_size
    r ← alloc_range start user_stack_size stack_flags t a
    (t', a') ← unwrap_mapped r
    done (record { start_address = start; end_address = user_stack_end }, t', a')
