-- ===== src/Memory/UserHeap/Serve.antt =====
-- What a heap hands out is mapped.
use good_os_framework.Base.{
  ℕ, ◌+◌, ◌-◌, ◌*◌, ◌/◌, ◌%◌, ◌^◌, ◌≤◌, ◌<◌, ◌≡◌, refl, ap, ◌∙◌, true, some, done, panics, ◌>>=◌,
  assert, arith,
}
use good_os_framework.Data.Bitmap.{BitField}
use good_os_framework.Memory.Frame.{BitmapFrameAllocator}
use good_os_framework.Memory.Frame.Supply.{Supply}
use good_os_framework.Memory.Mapper.{Mapper}
use good_os_framework.Memory.UserHeap
use good_os_framework.Memory.UserHeap.{kernel, user}
use good_os_framework.Memory.UserHeap.Grow.{first_page, IsHeap, grow_lem, init_pages_lem}

module _ ⦃B : BitField⦄ {H : Type 0} where
  -- The pages for `size` more bytes are below the limit, and there are four frames for each.
  pub record HasRoom (size limit : ℕ) (h : UserHeap.ProcessHeap H) (a : BitmapFrameAllocator)
      : Type 0 where
    pub low : UserHeap.heap_start + h.size + 4096 * ((size + 4095) / 4096) < 2 ^ 47
    pub pages : h.size / 4096 + (size + 4095) / 4096 ≤ limit
    pub frames : Supply (4 * ((size + 4095) / 4096)) a

module _ ⦃B : BitField⦄ {H : Type 0} ⦃A : UserHeap.Talc H⦄ {T : Type 0} ⦃M : Mapper T⦄ where
  -- A heap of a live process, whose allocator hands out at most what is mapped.
  pub record IsReady (h : UserHeap.ProcessHeap H) (limit : ℕ) (t : T) : Type 0 where
    pub of_user : h.heap_type ≡ user
    pub live : h.process ≡ true
    pub heap : IsHeap h.size limit (M.view t)
    pub span : A.span h.allocator ≤ h.size

  -- If the allocator accepts the new span, a heap that has room grows: it is larger by at least the bytes
  -- asked for and stays mapped as a heap is.
  pub sbrk_lem :
      (size limit : ℕ) (h : UserHeap.ProcessHeap H) (t : T) (a : BitmapFrameAllocator)
      (extended : H)
      → IsReady h limit t
      → HasRoom size limit h a
      → A.extend (UserHeap.accessible t) h.allocator h.size (h.size + size) ≡ done extended
      → (h' : UserHeap.ProcessHeap H) × (t' : T) × (a' : BitmapFrameAllocator) × (UserHeap.sbrk size
            (h, t, a)
          ≡ done (h', t', a'))
        × (h.size + size ≤ h'.size)
        × (h'.allocator ≡ extended)
        × IsHeap h'.size limit (M.view t')
  unfolding UserHeap.sbrk
  sbrk_lem size limit h t a extended ready room accepted =
      let (h', t', a', p, size', allocator, heap) =
        grow_lem ((size + 4095) / 4096) limit (record h { allocator = extended }) t a ready.heap
          room.low room.pages room.frames in
      (
        h',
        t',
        a',
        rw accepted (
            ap
              (λ live. assert live >>= λ u.
                UserHeap.grow ((size + 4095) / 4096) (record h { allocator = extended }, t, a))
              ready.live
            ∙ p),
        omega (arith, size'),
        allocator,
        heap,
      )

  pub heap_allocate_lem :
      (size align limit pointer : ℕ) (allocator : H) (h : UserHeap.ProcessHeap H) (t : T)
      (a : BitmapFrameAllocator)
      → IsReady h limit t
      → A.allocate h.allocator size align ≡ some (pointer, allocator)
      → (h' : UserHeap.ProcessHeap H) × (UserHeap.allocate size align (h, t, a)
          ≡ done (some pointer, (h', t, a)))
        × ((i : ℕ)
            → i < size
            → (x : ℕ) × ((M.view t).translate (pointer + i) ≡ some (x, UserHeap.heap_flags)))
        × (h'.allocator ≡ allocator)
        × (h'.size ≡ h.size)
        × (h'.usable_size ≡ (h.usable_size + 2 ^ 64 - size) % 2 ^ 64)
        × IsReady h' limit t
  unfolding UserHeap.allocate UserHeap.serve UserHeap.taken
  heap_allocate_lem size align limit pointer allocator h t a ready found =
      let (lo, hi, same) = A.allocate_within h.allocator allocator size align pointer found in
      let span = ready.span in
      (
        record h { allocator = allocator; usable_size = (h.usable_size + 2 ^ 64 - size) % 2 ^ 64 },
        ap {A = UserHeap.HeapType}
              (λ ty. elim ty [
                | kernel ↦ panics
                | user ↦ UserHeap.serve size align (A.allocate h.allocator size align) (h, t, a)
              ])
              ready.of_user
            ∙ rw found refl,
        (λ i lt.
            let (x, e) = ready.heap.mapped (pointer + i - UserHeap.heap_start) (omega arith) in
            (
              x,
              ap (M.view t).translate {x = pointer + i}
                    {y = UserHeap.heap_start + (pointer + i - UserHeap.heap_start)} (omega arith)
                  ∙ e,
            )),
        refl,
        refl,
        refl,
        record {
          of_user = ready.of_user;
          live = ready.live;
          heap = ready.heap;
          span = omega (arith, same, span);
        },
      )

  -- A heap that has been set up for a process that is alive is ready, if the 32 pages of its start and those up to the
  -- limit are vacant and the allocator has 128 frames.
  pub heap_init_lem :
      (limit : ℕ) (t : T) (a : BitmapFrameAllocator)
      → 32 ≤ limit
      → ((p : ℕ) → first_page ≤ p → p < first_page + limit → (M.view t).is_vacant p ≡ true)
      → Supply 128 a
      → (h : UserHeap.ProcessHeap H) × (t' : T) × (a' : BitmapFrameAllocator) × (UserHeap.init true
            (UserHeap.new user, t, a)
          ≡ done (h, t', a'))
        × IsReady h limit t'
  unfolding UserHeap.init UserHeap.init_user UserHeap.new UserHeap.init_size
  heap_init_lem limit t a enough vacant s =
      let start : IsHeap 0 limit (M.view t) = record {
        pages = omega arith;
        low = omega arith;
        mapped = λ i lt. absurd (omega arith);
        vacant = λ p lo hi. vacant p (omega arith) hi;
      } in
      let (t', a', p, heap) = init_pages_lem 32 0 limit t a start (omega arith) (omega arith) s in
      (
        record (UserHeap.new user) { process = true },
        t',
        a',
        rw p refl,
        record {
          of_user = refl;
          live = refl;
          heap = heap;
          span = omega (arith, A.span-new UserHeap.user_heap_init_size);
        },
      )
