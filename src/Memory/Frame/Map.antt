-- ===== src/Memory/Frame/Map.antt =====
-- The allocator that starts from a memory map: which frames are free in it.
use good_os_framework.Base.{
  subst, Bool-cases, ℕ, ◌+◌, ◌-◌, ◌*◌, ◌/◌, ◌%◌, ◌^◌, ◌≤◌, ◌<◌, ◌≡◌, inl, inr, refl, ap, sym, ◌∙◌,
  min, Bool, true, false, some, List, [], ◌∷◌, leb, ltb, leb-true, ◌==◌, if◌then◌else◌, length,
  done, arith, dec_lt, All,
}
use good_os_framework.Data.Bitmap
use good_os_framework.Data.Bitmap.{BitField, Bitmap}
use good_os_framework.Data.Bitmap.Laws.{bit, get-eq-bit, get-new}
use good_os_framework.Memory.Frame.{BitmapFrameAllocator}
use good_os_framework.Memory.Frame.Init.{
  Region, memory_end, find_room, frame_start, frame_count, add_regions, init, Filled, fill_lem,
}

-- Whether a frame is one of the `n` frames from `start` on.
abbrev pub within : ℕ → ℕ → ℕ → Bool
within start n i = if leb start i then ltb i (start + n) else false

-- Whether a frame lies in a usable entry of the map.
abbrev pub in_usable : List Region → ℕ → Bool
in_usable [] i = false
in_usable (r ∷ rest) i =
    if (if r.usable then within (frame_start r) (frame_count r) i else false)
    then true
    else in_usable rest i

-- The number of frames in usable entries, and the lowest of their starts and of `next`.
abbrev pub total : List Region → ℕ
total [] = 0
total (r ∷ rest) = (if r.usable then frame_count r else 0) + total rest

abbrev pub lowest : List Region → ℕ → ℕ
lowest [] next = next
lowest (r ∷ rest) next = lowest rest (if r.usable then min next (frame_start r) else next)

-- The usable entries end within `n` frames.
abbrev pub Fits : ℕ → List Region → Type 0
Fits n l = All (λ r. r.usable ≡ true → frame_start r + frame_count r ≤ n) l

module _ ⦃B : BitField⦄ where
  Filled-bit :
      (v : Bool) (b b' : Bitmap) (start n i : ℕ)
      → Filled v b start n b'
      → bit b' i ≡ (if within start n i then v else bit b i)
  Filled-bit v b b' start n i f = elim (dec_lt i start) [
    | yes p ↦ f.others i (inl p) ∙ ground arith
    | no p ↦ elim (dec_lt i (start + n)) [
      | yes q ↦ f.inside i (omega arith) q ∙ ground arith
      | no q ↦ f.others i (inr (omega arith)) ∙ ground arith
    ]
  ]

  -- What the loop over the map has done.
  record Added (l : List Region) (b : Bitmap) (next : ℕ) (b' : Bitmap) (next' : ℕ) : Type 0 where
    same_len : Bitmap.len b' ≡ Bitmap.len b
    bits : (i : ℕ) → bit b' i ≡ (if in_usable l i then true else bit b i)
    low : next' ≡ lowest l next

  add_regions_lem :
      (l : List Region) (b : Bitmap) (usable next : ℕ)
      → Fits (8 * Bitmap.len b) l
      → (b' : Bitmap) × (next' : ℕ) × (add_regions l b usable next
          ≡ done (b', usable + total l, next'))
        × Added l b next b' next'
  unfolding add_regions
  add_regions_lem [] b usable next f = (
    b,
    next,
    ap (λ u. done (b, u, next)) {x = usable} {y = usable + 0} (omega arith),
    record { same_len = refl; bits = λ i. refl; low = refl },
  )
  add_regions_lem (r ∷ rest) b usable next (f, fs) = elim (Bool-cases r.usable) [
    | inl e ↦
        let (b1, p, m) = fill_lem true (frame_count r) b (frame_start r) (f e) in
        let (b', next', q, a) =
          add_regions_lem rest b1 (usable + frame_count r) (min next (frame_start r))
            (subst (λ n. Fits (8 * n) rest) (sym m.same_len) fs) in
        (
          b',
          next',
          rw (e, p)
              (q
                ∙ ap (λ u. done (b', u, next')) {x = usable + frame_count r + total rest}
                    {y = usable + (frame_count r + total rest)} (omega arith)),
          record {
            same_len = a.same_len ∙ m.same_len;
            bits = λ i.
                ground
                  (arith, e, a.bits i, Filled-bit true b b1 (frame_start r) (frame_count r) i m);
            low = rw e a.low;
          },
        )
    | inr e ↦
        let (b', next', p, a) = add_regions_lem rest b usable next fs in
        (
          b',
          next',
          rw e (
              p
              ∙ ap (λ u. done (b', u, next')) {x = usable + total rest}
                  {y = usable + (0 + total rest)} (omega arith)),
          record {
            same_len = a.same_len;
            bits = λ i. ground (arith, e, a.bits i);
            low = rw e a.low;
          },
        )
  ]

  lowest_le : (l : List Region) (next : ℕ) → lowest l next ≤ next
  lowest_le [] next = omega arith
  lowest_le (r ∷ rest) next = elim (Bool-cases r.usable) [
    | inl e ↦ rw e (omega (arith, lowest_le rest (min next (frame_start r))))
    | inr e ↦ rw e (lowest_le rest next)
  ]

  -- The memory of the bitmap is not below the lowest usable frame.
  find_room-lowest :
      (l : List Region) (size addr next : ℕ)
      → find_room l size ≡ some addr
      → lowest l next ≤ addr / 4096
  unfolding find_room
  find_room-lowest [] size addr next h = cc
  find_room-lowest (r ∷ rest) size addr next h = elim (Bool-cases r.usable) [
    | inl e ↦ elim (Bool-cases (leb size r.length)) [
      | inl k ↦
          let at : (some r.base ≡ some addr) = rw (e, k) at h in
          let same : (r.base ≡ addr) = cc in
          rw e (omega (arith, lowest_le rest (min next (frame_start r)), same))
      | inr k ↦ rw e (find_room-lowest rest size addr (min next (frame_start r)) (rw (e, k) at h))
    ]
    | inr e ↦ rw e (find_room-lowest rest size addr next (rw e at h))
  ]

  len-new : (l : List ℕ) → Bitmap.len (Bitmap.new l) ≡ length l
  unfolding Bitmap.len Bitmap.new
  len-new [] = refl
  len-new (x ∷ l) = omega (arith, len-new l)

  new-bit : (l : List ℕ) (i : ℕ) → i / 8 < length l → bit (Bitmap.new l) i ≡ false
  new-bit l i h =
      let e : (done (bit (Bitmap.new l) i) ≡ done false) =
        sym (get-eq-bit (Bitmap.new l) i (omega (arith, len-new l))) ∙ get-new l i h in
      cc

  same_test : (c d : Bool) → d ≡ false → (if c then true else d) ≡ c
  same_test true d e = refl
  same_test false d e = e

  -- For a map whose last entry ends at `memory_size`, with a usable entry at `bitmap_address` as the first
  -- that has room for the bitmap, usable entries and bitmap inside that memory, and a buffer of the bitmap's
  -- size: `init` returns, and the free frames are exactly the frames of usable entries that do not hold
  -- the bitmap. The usable frames are counted without those.
  pub init_map_lem :
      (regions : List Region) (buffer : ℕ → List ℕ) (memory_size bitmap_address : ℕ)
      → memory_end regions ≡ some memory_size
      → find_room regions ((memory_size / 4096 + 7) / 8) ≡ some bitmap_address
      → length (buffer ((memory_size / 4096 + 7) / 8)) ≡ (memory_size / 4096 + 7) / 8
      → Fits (8 * ((memory_size / 4096 + 7) / 8)) regions
      → bitmap_address / 4096 + ((memory_size / 4096 + 7) / 8 + 4095) / 4096
        ≤ 8 * ((memory_size / 4096 + 7) / 8)
      → (a : BitmapFrameAllocator) × (init regions buffer ≡ done a)
        × ((i : ℕ)
            → i / 8 < (memory_size / 4096 + 7) / 8
            → bit a.bitmap i ≡ (
                if within (bitmap_address / 4096) (((memory_size / 4096 + 7) / 8 + 4095) / 4096) i
                then false
                else in_usable regions i))
        × (a.usable_frames
            ≡ (total regions + 2 ^ 64 - ((memory_size / 4096 + 7) / 8 + 4095) / 4096) % 2 ^ 64)
  unfolding init
  init_map_lem regions buffer memory_size bitmap_address size room len fits inside =
      let bytes = (memory_size / 4096 + 7) / 8 in
      let start = bitmap_address / 4096 in
      let count = (bytes + 4095) / 4096 in
      let fresh = Bitmap.new (buffer bytes) in
      let held : (Bitmap.len fresh ≡ bytes) = len-new (buffer bytes) ∙ len in
      let (b, next, p, a) =
        add_regions_lem regions fresh 0 (2 ^ 64 - 1)
          (subst (λ n. Fits (8 * n) regions) (sym held) fits) in
      let (b', q, m) = fill_lem false count b start (omega (arith, inside, a.same_len, held)) in
      let low : (next ≤ start) =
        omega (arith, a.low, find_room-lowest regions bytes bitmap_address (2 ^ 64 - 1) room) in
      (
        record {
          bitmap = b';
          usable_frames = (0 + total regions + 2 ^ 64 - count) % 2 ^ 64;
          next_frame = if next == start then start + count + 1 else next;
        },
        rw (size, room, p, leb-true next start low, q) refl,
        (λ i h.
            Filled-bit false b b' start count i m
            ∙ ap (λ t. if within start count i then false else t)
                (a.bits i
                  ∙ same_test (in_usable regions i) (bit fresh i)
                      (new-bit (buffer bytes) i (omega (arith, len, h))))),
        omega arith,
      )
