-- ===== src/Memory/Frame/Tests.antt =====
-- An allocator of four bytes of bitmap, in which the frames 1, 2 and 3 are free, and one in which the
-- frame 3 is in use.
use good_os_framework.Base.{
  replicate, List, ◌-◌, ◌^◌, if◌then◌else◌, ◌/◌, ◌%◌, ℕ, zero, suc, ◌+◌, ◌<◌, ◌≤◌, ◌≡◌, refl, inr,
  true, false, some, [], ◌∷◌, ◌>>=◌, done, arith,
}
use good_os_framework.Data.Bitmap
use good_os_framework.Data.Bitmap.{Bitmap}
use good_os_framework.Data.Bitmap.Bits.{u8_bits}
use good_os_framework.Data.Bitmap.Laws.{bit}
use good_os_framework.Memory.Frame.{
  BitmapFrameAllocator, frame_address, count_run, mark_used, find_free, allocate_frames,
  allocate_frame, deallocate_frame,
}
use good_os_framework.Memory.Frame.Allocate.{Answers, allocate_frames_lem}
use good_os_framework.Memory.Frame.Single.{IsReady, allocate_frame-IsReady}
use good_os_framework.Memory.Frame.Reuse.{allocate_frame-deallocate_frame, allocate_frame_in_use}
use good_os_framework.Memory.Frame.Init.{Region, init, memory_end, find_room}
use good_os_framework.Memory.Frame.Map.{within, in_usable, total, init_map_lem}

abbrev three_free : BitmapFrameAllocator
three_free = record {
  bitmap = record { inner = 0b1110 ∷ 0 ∷ 0 ∷ 0 ∷ [] };
  usable_frames = 3;
  next_frame = 1;
}

abbrev two_free : BitmapFrameAllocator
two_free = record {
  bitmap = record { inner = 0b10110 ∷ 0 ∷ 0 ∷ 0 ∷ 0 ∷ [] };
  usable_frames = 3;
  next_frame = 1;
}

allocate_two :
    allocate_frames three_free 2
    ≡ done (
      some 4096,
      record {
        bitmap = record { inner = 0b1000 ∷ 0 ∷ 0 ∷ 0 ∷ [] };
        usable_frames = 1;
        next_frame = 3;
      },
    )
unfolding allocate_frames count_run mark_used Bitmap.len Bitmap.get Bitmap.set
allocate_two = refl

allocate_frames_lem_example : Answers three_free 2 (allocate_frames three_free 2)
allocate_frames_lem_example = allocate_frames_lem three_free 2

-- The run of two frames at 1 is taken, and the next call hands out the frame 3, which is in use.
in_use_run :
    (allocate_frames two_free 2 >>= λ r. allocate_frame r.1)
    ≡ done (
      some 12288,
      record {
        bitmap = record { inner = 0b10000 ∷ 0 ∷ 0 ∷ 0 ∷ 0 ∷ [] };
        usable_frames = 0;
        next_frame = 4;
      },
    )
unfolding allocate_frames allocate_frame count_run mark_used find_free Bitmap.len Bitmap.get
    Bitmap.set
in_use_run = refl

-- Every bit of `full` is in use and none is counted.
abbrev full : BitmapFrameAllocator
full = record { bitmap = record { inner = 0 ∷ 0 ∷ [] }; usable_frames = 0; next_frame = 16 }

allocate_frame-IsReady_example :
    (a' : BitmapFrameAllocator) × (allocate_frame three_free ≡ done (some (frame_address 1), a'))
    × (bit three_free.bitmap 1 ≡ true)
    × (bit a'.bitmap 1 ≡ false)
    × IsReady a'
unfolding Bitmap.len bit
allocate_frame-IsReady_example =
    allocate_frame-IsReady three_free (inr (omega arith, refl)) (omega arith) (omega arith)

allocate_frame-deallocate_frame_example :
    (a' : BitmapFrameAllocator) × (a'' : BitmapFrameAllocator) × (allocate_frame three_free
      ≡ done (some (frame_address 1), a'))
    × (deallocate_frame a' (frame_address 1) ≡ done a'')
    × ((i : ℕ) → bit a''.bitmap i ≡ bit three_free.bitmap i)
    × (a''.usable_frames + 1 ≡ 3)
unfolding Bitmap.len bit
allocate_frame-deallocate_frame_example =
    allocate_frame-deallocate_frame three_free (inr (omega arith, refl)) (omega arith) (omega arith)
      (omega arith)

free_one_two : (i : ℕ) → 1 ≤ i → i < 3 → bit two_free.bitmap i ≡ true
unfolding bit
free_one_two zero lo hi = absurd (omega arith)
free_one_two (suc zero) lo hi = refl
free_one_two (suc (suc zero)) lo hi = refl
free_one_two (suc (suc (suc i))) lo hi = absurd (omega arith)

allocate_frame_in_use_example :
    (a' : BitmapFrameAllocator) × (a'' : BitmapFrameAllocator) × (allocate_frames two_free 2
      ≡ done (some (frame_address 1), a'))
    × (bit a'.bitmap 3 ≡ false)
    × (allocate_frame a' ≡ done (some (frame_address 3), a''))
unfolding Bitmap.len bit
allocate_frame_in_use_example =
    allocate_frame_in_use two_free 2 (omega arith) (omega arith) (omega arith) free_one_two refl

-- A map of 32 frames, of which the first is not usable; the bitmap takes the second.
abbrev map_of_32 : List Region
map_of_32 =
    record { base = 0; length = 0x1000; usable = false }
    ∷ record { base = 0x1000; length = 0x1F000; usable = true }
    ∷ []

no_frames : false ≡ true → 0 + 1 ≤ 32
no_frames e = omega arith

abbrev replicate_byte : ℕ → ℕ → List ℕ
replicate_byte x n = replicate n x

init_map_lem_example :
    (a : BitmapFrameAllocator) × (init map_of_32 (replicate_byte 7) ≡ done a)
    × ((i : ℕ)
        → i / 8 < 4
        → bit a.bitmap i ≡ (if within 1 1 i then false else in_usable map_of_32 i))
    × (a.usable_frames ≡ (total map_of_32 + 2 ^ 64 - 1) % 2 ^ 64)
unfolding memory_end find_room
init_map_lem_example =
    init_map_lem map_of_32 (replicate_byte 7) 0x20000 0x1000 refl refl refl
      (no_frames, ((λ e. omega arith), tt)) (omega arith)
