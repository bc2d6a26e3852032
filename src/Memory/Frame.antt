-- ===== src/Memory/Frame.antt =====
-- src/memory/frame.rs: the allocator of physical frames over a bitmap in which a set bit is a free frame.
pub mod Loops
pub mod Search
pub mod Allocate
pub mod Single
pub mod Reuse
pub mod Supply
pub mod Calls
pub mod Init
pub mod Map
mod Tests
use good_os_framework.Base.{
  ℕ, zero, suc, ◌+◌, ◌-◌, ◌*◌, ◌/◌, ◌%◌, ◌^◌, Bool, true, false, Option, none, some, ltb, leb, ◌==◌,
  if◌then◌else◌, Outcome, done, spins, ◌>>=◌,
}
use good_os_framework.Data.Bitmap
use good_os_framework.Data.Bitmap.{BitField, Bitmap}

-- Numbers of frames and addresses are `usize` and `u64`; a sum or product of them wraps at 2 ^ 64
-- where the comment of the operation says so.
pub record BitmapFrameAllocator : Type 0 where
  pub bitmap : Bitmap
  pub usable_frames : ℕ
  pub next_frame : ℕ

-- An address, from a frame's index.
abbrev pub frame_address : ℕ → ℕ
frame_address n = n * 4096 % 2 ^ 64

module _ ⦃B : BitField⦄ where
  -- The loop that walks over free frames until it has counted `cnt` of them, and whether it did.
  pub count_run : ℕ → Bitmap → ℕ → ℕ → ℕ → Outcome (ℕ × Bool)
  count_run zero b cnt next frame_cnt = spins
  count_run (suc fuel) b cnt next frame_cnt =
      let rest = count_run fuel b cnt (next + 1) (frame_cnt + 1) in
      if ltb next (Bitmap.len b)
      then (Bitmap.get b next >>= λ free.
          if free
          then (if frame_cnt + 1 == cnt then done (next + 1, true) else rest)
          else done (next, false))
      else done (next, false)

  -- The loop that skips the frames in use.
  pub skip_used : ℕ → Bitmap → ℕ → Outcome ℕ
  skip_used zero b next = spins
  skip_used (suc fuel) b next =
      let rest = skip_used fuel b (next + 1) in
      if ltb next (Bitmap.len b)
      then (Bitmap.get b next >>= λ free. if free then done next else rest)
      else done next

  -- for i in start..start + n: set i to false.
  pub mark_used : ℕ → Bitmap → ℕ → Outcome Bitmap
  mark_used zero b start = done b
  mark_used (suc n) b start = Bitmap.set b start false >>= λ b'. mark_used n b' (start + 1)

  -- The outer loop. `none` if no run was found, otherwise the index after the run.
  pub search_run : ℕ → Bitmap → ℕ → ℕ → Outcome (Option ℕ)
  search_run zero b cnt next = spins
  search_run (suc fuel) b cnt next =
      let again = λ (n : ℕ). search_run fuel b cnt n in
      if leb (Bitmap.len b) next then done none else (do
        start ← skip_used (suc (Bitmap.len b - next)) b next
        (end', found) ← count_run (suc (Bitmap.len b - start)) b cnt start 0
        if found then done (some end') else again end')

  -- Marks the run that ends before `end'` as used and returns its address.
  take_run : BitmapFrameAllocator → ℕ → ℕ → Outcome (Option ℕ × BitmapFrameAllocator)
  take_run a cnt end' = mark_used cnt a.bitmap (end' - cnt) >>= λ b.
      done (some (frame_address (end' - cnt)), record a { bitmap = b })

  pub allocate_frames : BitmapFrameAllocator → ℕ → Outcome (Option ℕ × BitmapFrameAllocator)
  unfolding take_run
  allocate_frames a cnt = if ltb a.usable_frames cnt then done (none, a) else (do
    let taken = record a { usable_frames = a.usable_frames - cnt }
    (next, found) ← count_run (suc (Bitmap.len a.bitmap - a.next_frame)) a.bitmap cnt a.next_frame 0
    if found
        then take_run (record taken { next_frame = next }) cnt next
        else (search_run (suc (Bitmap.len a.bitmap - next)) a.bitmap cnt next >>= λ r. elim r [
          | none ↦ done (none, record taken { usable_frames = taken.usable_frames + cnt })
          | some end' ↦ take_run taken cnt end'
        ]))

  -- `(next_frame + 1..len).find(..).unwrap_or(len)`, with the number of indices left.
  pub find_free : ℕ → Bitmap → ℕ → Outcome ℕ
  find_free zero b index = done (Bitmap.len b)
  find_free (suc n) b index =
      let rest = find_free n b (index + 1) in
      Bitmap.get b index >>= λ free. if free then done index else rest

  pub allocate_frame : BitmapFrameAllocator → Outcome (Option ℕ × BitmapFrameAllocator)
  allocate_frame a = if a.usable_frames == 0 then done (none, a) else (do
    b ← Bitmap.set a.bitmap a.next_frame false
    next ← find_free (Bitmap.len b - (a.next_frame + 1)) b (a.next_frame + 1)
    done (
      some (frame_address a.next_frame),
      record { bitmap = b; usable_frames = a.usable_frames - 1; next_frame = next },
    ))

  pub deallocate_frame : BitmapFrameAllocator → ℕ → Outcome BitmapFrameAllocator
  deallocate_frame a address =
      Bitmap.set a.bitmap (address / 4096) true >>= λ b. done (record a { bitmap = b })
