-- ===== src/Task/Process.antt =====
-- src/task/process.rs: the segments of a program, and the list of processes.
pub mod Load
pub mod All
mod Tests
use good_os_framework.Base.{
  ℕ, zero, suc, ◌+◌, ◌*◌, ◌≡◌, Option, none, some, List, [], ◌∷◌, ◌==◌, if◌then◌else◌, Outcome,
  done, panics, ◌>>=◌, unwrap,
}
use good_os_framework.Data.Bitmap.{BitField}
use good_os_framework.Memory.Frame.{BitmapFrameAllocator}
use good_os_framework.Memory.Mapper.{Mapper}
use good_os_framework.Memory.Manager.{alloc_range, unwrap_mapped}
use good_os_framework.Memory.PageTable.Access.{Bytes, write}

-- What the `object` crate gives of a segment; `contents` is `none` if its bytes cannot be read.
pub record Segment : Type 0 where
  pub address : ℕ
  pub size : ℕ
  pub contents : Option (List ℕ)

-- Present, writable, for the user.
abbrev pub segment_flags : ℕ
segment_flags = 4 + 2 + 1

-- The mapper, the allocator and the memory.
abbrev pub Machine : Type 0 → Type 0
Machine T = T × BitmapFrameAllocator × Bytes

module _ ⦃B : BitField⦄ {T : Type 0} ⦃M : Mapper T⦄ where
  unfoldable pub copy_data : Option (List ℕ) → ℕ → Machine T → Outcome (Machine T)
  copy_data none address (t, a, m) = done (t, a, m)
  copy_data (some bytes) address (t, a, m) = do
    (written, m') ← write bytes address t m
    checked ← unwrap written
    done (t, a, m')

  -- The body of the loop.
  unfoldable pub map_segment : Segment → Machine T → Outcome (Machine T)
  map_segment segment (t, a, m) = do
    segment_address ← M.virt segment.address
    result ← alloc_range segment_address segment.size segment_flags t a
    (t', a') ← unwrap_mapped result
    copy_data segment.contents segment_address (t', a', m)

  unfoldable pub map_segments : List Segment → Machine T → Outcome (Machine T)
  map_segments [] s = done s
  map_segments (segment ∷ segments) s = map_segment segment s >>= map_segments segments

-- A process of the list, by its id.
unfoldable pub exit_process : ℕ → List ℕ → List ℕ
exit_process id [] = []
exit_process id (process ∷ processes) =
    let rest = exit_process id processes in if process == id then processes else process ∷ rest
