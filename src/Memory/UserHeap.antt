-- ===== src/Memory/UserHeap.antt =====
-- src/memory/user_heap.rs: the heap of a process. The allocator of the `talc` crate is an interface; the
-- process that the heap refers to is known by whether it is alive, and its page table is a state.
pub mod Grow
pub mod Serve
mod Tests
use good_os_framework.Base.{
  ℕ, zero, suc, ◌+◌, ◌-◌, ◌*◌, ◌/◌, ◌%◌, ◌^◌, ◌≤◌, ◌<◌, ◌≡◌, Bool, true, false, Option, none, some,
  if◌then◌else◌, Outcome, done, panics, ◌>>=◌, ◌>>◌, unwrap, assert,
}
use good_os_framework.Data.Bitmap.{BitField}
use good_os_framework.Memory.Frame.{BitmapFrameAllocator, allocate_frame, deallocate_frame}
use good_os_framework.Memory.Mapper.{Mapper}
use good_os_framework.Memory.Manager.{unwrap_mapped}

abbrev pub is_some : {A : Type 0} → Option A → Bool
is_some none = false
is_some (some x) = true

pub data HeapType : Type 0 where
  kernel : HeapType
  user : HeapType

abbrev pub heap_start : ℕ
heap_start = 20 * 1024 * 1024 * 1024 * 1024

abbrev pub user_heap_init_size : ℕ
user_heap_init_size = 128 * 1024

-- An allocator over the bytes from `heap_start` on; `span` is the number of bytes that it may hand out.
-- An allocation has a size and an alignment. `extend` is told which of these bytes can be accessed. It
-- has to be, and the old span has to be the one that the allocator has; as the kernel keeps to neither,
-- no law says what `extend` does.
pub record Talc (H : Type 0) : Type 0 where
  pub span : H → ℕ
  pub new : ℕ → H
  pub extend : (ℕ → Bool) → H → ℕ → ℕ → Outcome H
  pub allocate : H → ℕ → ℕ → Option (ℕ × H)
  pub deallocate : H → ℕ → ℕ → ℕ → H
  pub span-new : (size : ℕ) → span (new size) ≡ size
  pub allocate_within :
      (h h' : H) (size align pointer : ℕ)
      → allocate h size align ≡ some (pointer, h')
      → (heap_start ≤ pointer) × (pointer + size ≤ heap_start + span h) × (span h' ≡ span h)

pub record ProcessHeap (H : Type 0) : Type 0 where
  pub heap_type : HeapType
  pub size : ℕ
  pub usable_size : ℕ
  pub allocator : H
  pub process : Bool

unfoldable pub init_size : HeapType → ℕ
init_size kernel = 0
init_size user = user_heap_init_size

-- Present, writable, for the user.
abbrev pub heap_flags : ℕ
heap_flags = 4 + 2 + 1

-- The heap, the page table of the process and the frames.
abbrev pub HeapState : Type 0 → Type 0 → Type 0
HeapState H T = ProcessHeap H × T × BitmapFrameAllocator

module _ {H : Type 0} ⦃A : Talc H⦄ where
  unfoldable pub new : HeapType → ProcessHeap H
  new heap_type = record {
    heap_type = heap_type;
    size = init_size heap_type;
    usable_size = init_size heap_type;
    allocator = A.new (init_size heap_type);
    process = false;
  }

module _ ⦃B : BitField⦄ {T : Type 0} ⦃M : Mapper T⦄ where
  -- The bytes of the heap that can be accessed.
  unfoldable pub accessible : T → ℕ → Bool
  accessible t i = is_some (M.translate_addr t (heap_start + i))

  -- The next frame is mapped to the page of an address.
  unfoldable pub map_new : ℕ → T → BitmapFrameAllocator → Outcome (T × BitmapFrameAllocator)
  map_new address t a = do
    (frame, a') ← allocate_frame a
    f ← unwrap frame
    virtual ← M.virt address
    unwrap_mapped (M.map_to t (virtual / 4096) f heap_flags a')

  -- The loop over the `n` pages from `page` on.
  unfoldable pub init_pages : ℕ → ℕ → T → BitmapFrameAllocator → Outcome (T × BitmapFrameAllocator)
  init_pages zero page t a = done (t, a)
  init_pages (suc n) page t a =
      map_new (heap_start + page * 4096) t a >>= λ (t', a'). init_pages n (page + 1) t' a'

  -- The loop over the `n` pages from `page` on.
  unfoldable pub clear_pages : ℕ → ℕ → T → BitmapFrameAllocator → Outcome (T × BitmapFrameAllocator)
  clear_pages zero page t a = done (t, a)
  clear_pages (suc n) page t a = M.virt (heap_start + page * 4096) >>= λ virtual.
      unwrap (M.unmap t (virtual / 4096)) >>= λ (frame, t').
      deallocate_frame a frame >>= λ a'. clear_pages n (page + 1) t' a'

module _ ⦃B : BitField⦄ {H : Type 0} ⦃A : Talc H⦄ {T : Type 0} ⦃M : Mapper T⦄ where
  -- Each round upgrades the process, and panics if it has ended.
  unfoldable pub init_user : Bool → HeapType → HeapState H T → Outcome (HeapState H T)
  init_user process kernel (h, t, a) = done (h, t, a)
  init_user process user (h, t, a) = do
    assert process
    (t', a') ← init_pages (user_heap_init_size / 4096) 0 t a
    done (record h { process = process }, t', a')

  unfoldable pub init : Bool → HeapState H T → Outcome (HeapState H T)
  init process (h, t, a) = init_user process h.heap_type (h, t, a)

  -- The loop over `n` new pages at the end of the heap.
  unfoldable pub grow : ℕ → HeapState H T → Outcome (HeapState H T)
  grow zero s = done s
  grow (suc n) (h, t, a) = map_new (heap_start + h.size) t a >>= λ (t', a'). grow n (
    record h { size = (h.size + 4096) % 2 ^ 64; usable_size = (h.usable_size + 4096) % 2 ^ 64 },
    t',
    a',
  )

  unfoldable pub sbrk : ℕ → HeapState H T → Outcome (HeapState H T)
  sbrk size (h, t, a) = do
    let page_cnt = (size + 4095) / 4096
    extended ← A.extend (accessible t) h.allocator h.size (h.size + size)
    assert h.process
    grow page_cnt (record h { allocator = extended }, t, a)

  -- The allocator has found room.
  unfoldable pub taken : ℕ → ℕ × H → HeapState H T → Outcome (Option ℕ × HeapState H T)
  taken size (pointer, allocator) (h, t, a) = done (
    some pointer,
    (
      record h { allocator = allocator; usable_size = (h.usable_size + 2 ^ 64 - size) % 2 ^ 64 },
      t,
      a,
    ),
  )

  unfoldable pub allocate_again : ℕ → ℕ → HeapState H T → Outcome (Option ℕ × HeapState H T)
  allocate_again size align (h, t, a) = do
    found ← unwrap (A.allocate h.allocator size align)
    taken size found (h, t, a)

  unfoldable pub serve : ℕ → ℕ → Option (ℕ × H) → HeapState H T → Outcome (Option ℕ × HeapState H T)
  serve size align (some found) s = taken size found s
  serve size align none s = sbrk (size * 2) s >>= allocate_again size align

  unfoldable pub allocate : ℕ → ℕ → HeapState H T → Outcome (Option ℕ × HeapState H T)
  allocate size align (h, t, a) = elim h.heap_type [
    | kernel ↦ panics
    | user ↦ serve size align (A.allocate h.allocator size align) (h, t, a)
  ]

  unfoldable pub deallocate : ℕ → ℕ → ℕ → HeapState H T → Outcome (HeapState H T)
  deallocate pointer size align (h, t, a) = elim h.heap_type [
    | kernel ↦ panics
    | user ↦ done (
      record h {
        allocator = A.deallocate h.allocator pointer size align;
        usable_size = (h.usable_size + size) % 2 ^ 64;
      },
      t,
      a,
    )
  ]

  unfoldable pub clear : HeapState H T → Outcome (HeapState H T)
  clear (h, t, a) =
      assert h.process
      >> (clear_pages ((h.size + 4095) / 4096) 0 t a >>= λ (t', a').
          done (record h { size = 0; usable_size = 0 }, t', a'))
