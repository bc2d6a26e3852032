-- ===== src/Memory/UserHeap/Tests.antt =====
-- An allocator that hands out one byte after the other, and an empty heap over it.
use good_os_framework.Base.{
  ℕ, ◌+◌, ◌≤◌, ◌<◌, ◌≡◌, refl, ap, inl, inr, Bool-cases, true, some, none, Option, done, leb,
  leb→le, if◌then◌else◌, arith,
}
use good_os_framework.Data.Bitmap.Bits.{u8_bits}
use good_os_framework.Memory.Frame.{BitmapFrameAllocator}
use good_os_framework.Memory.Mapper.Samples.{
  Maps, no_pages, maps, identity, identity_flags, nothing_mapped, plenty,
}
use good_os_framework.Memory.Mapper.Samples
use good_os_framework.Memory.UserHeap
use good_os_framework.Memory.UserHeap.{Talc, user, ProcessHeap}
use good_os_framework.Memory.UserHeap.Serve.{IsReady, heap_allocate_lem, heap_init_lem}

record Bump : Type 0 where
  next : ℕ
  end : ℕ

bump : Bump → ℕ → ℕ → Option (ℕ × Bump)
bump h size align =
    if leb (h.next + size) h.end
    then some (UserHeap.heap_start + h.next, record h { next = h.next + size })
    else none

some-injective : (p q : ℕ × Bump) → some p ≡ some q → p ≡ q
some-injective p q h = cc

none≢some : (p : ℕ × Bump) → none ≡ some p → ⊥
none≢some p h = cc

bump_within :
    (h h' : Bump) (size align pointer : ℕ)
    → bump h size align ≡ some (pointer, h')
    → (UserHeap.heap_start ≤ pointer)
      × (pointer + size ≤ UserHeap.heap_start + h.end)
      × (h'.end ≡ h.end)
unfolding bump
bump_within h h' size align pointer e = elim (Bool-cases (leb (h.next + size) h.end)) [
  | inl fits ↦
      let q =
        some-injective (UserHeap.heap_start + h.next, record h { next = h.next + size })
          (pointer, h') (rw fits at e) in
      let at : (UserHeap.heap_start + h.next ≡ pointer) = ap (λ r. r.0) q in
      let end : (h.end ≡ h'.end) = ap (λ r. r.1.end) q in
      (omega (arith, at), omega (arith, at, leb→le (h.next + size) h.end fits), omega (arith, end))
  | inr full ↦ absurd (none≢some (pointer, h') (rw full at e))
]

instance bumps : Talc Bump
bumps = record {
  span = λ h. h.end;
  new = λ size. record { next = 0; end = size };
  extend = λ accessible h old size. done (record h { end = size });
  allocate = bump;
  deallocate = λ h pointer size align. h;
  span-new = λ size. refl;
  allocate_within = λ h h' size align pointer e. bump_within h h' size align pointer e;
}

-- A heap of one page.
abbrev small : ProcessHeap Bump
small = record {
  heap_type = user;
  size = 4096;
  usable_size = 4096;
  allocator = record { next = 0; end = 4096 };
  process = true;
}

small-IsReady : IsReady small 1 identity
unfolding bumps
small-IsReady = record {
  of_user = refl;
  live = refl;
  heap = record {
    pages = omega arith;
    low = omega arith;
    mapped = λ i lt. identity_flags (UserHeap.heap_start + i);
    vacant = λ p lo hi. absurd (omega arith);
  };
  span = omega arith;
}

found_first :
    bumps.allocate small.allocator 100 8
    ≡ some (UserHeap.heap_start, record { next = 100; end = 4096 })
unfolding bumps bump
found_first = refl

heap_allocate_lem_example :
    (h' : ProcessHeap Bump) × (UserHeap.allocate 100 8 (small, identity, plenty)
      ≡ done (some UserHeap.heap_start, (h', identity, plenty)))
    × ((i : ℕ)
        → i < 100
        → (x : ℕ) × ((maps.view identity).translate (UserHeap.heap_start + i)
            ≡ some (x, UserHeap.heap_flags)))
    × (h'.allocator ≡ record { next = 100; end = 4096 })
    × (h'.size ≡ 4096)
    × (h'.usable_size ≡ 3996)
    × IsReady h' 1 identity
heap_allocate_lem_example =
    heap_allocate_lem 100 8 1 UserHeap.heap_start (record { next = 100; end = 4096 }) small identity
      plenty small-IsReady found_first

abbrev start : UserHeap.HeapState Bump Maps
start = (UserHeap.new user, no_pages, plenty)

heap_init_lem_example :
    (h : ProcessHeap Bump) × (t' : Maps) × (a' : BitmapFrameAllocator) × (UserHeap.init true start
      ≡ done (h, t', a'))
    × IsReady h 40 t'
heap_init_lem_example =
    heap_init_lem 40 no_pages plenty (omega arith) (λ p lo hi. nothing_mapped p)
      (Samples.plenty-Supply 128 (omega arith))
