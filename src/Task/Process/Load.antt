-- ===== src/Task/Process/Load.antt =====
-- What a program finds in memory when its segments are mapped.
use good_os_framework.Base.{
  ℕ, ◌+◌, ◌*◌, ◌/◌, ◌%◌, ◌^◌, ◌≤◌, ◌<◌, ◌≡◌, ◌≢◌, refl, sym, ap, ◌∙◌, ◌⊎◌, true, false, some,
  Option, none, done, panics, arith, ℕ_discrete, List, [], length, get_or,
}
use good_os_framework.Data.Bitmap.{BitField}
use good_os_framework.Data.Bitmap.Laws.{bit}
use good_os_framework.Memory.Frame.{BitmapFrameAllocator, frame_address}
use good_os_framework.Memory.Frame.Supply.{Supply}
use good_os_framework.Memory.Frame.Calls.{Keeps}
use good_os_framework.Memory.Mapper.{Mapper, View, user-IsEntry}
use good_os_framework.Memory.Manager.{unwrap_mapped}
use good_os_framework.Memory.Manager.Backed.{Within, page_count, AllVacant}
use good_os_framework.Memory.Manager.Range.{alloc_range_lem, alloc_range_mapped}
use good_os_framework.Memory.PageTable.Access.{Bytes, write, Resolves, Apart, write_bytes_lem}
use good_os_framework.Task.Process.{Segment, segment_flags, copy_data, map_segment}

abbrev pub first_page : Segment → ℕ
first_page segment = segment.address / 4096

abbrev pub pages : Segment → ℕ
pages segment = page_count segment.address segment.size

abbrev pub bytes_of : Option (List ℕ) → List ℕ
bytes_of none = []
bytes_of (some bytes) = bytes

-- A segment of the lower half with bytes, whose data fit in.
pub record IsSegment (segment : Segment) : Type 0 where
  pub some_bytes : 1 ≤ segment.size
  pub low : segment.address + segment.size < 2 ^ 47
  pub fits : length (bytes_of segment.contents) ≤ segment.size

module _ ⦃B : BitField⦄ where
  -- The data of the segment are found at its addresses, in frames that are in use.
  abbrev pub Loaded : Segment → View → BitmapFrameAllocator → Bytes → Type 0
  Loaded segment v a m =
      (i : ℕ)
      → i < length (bytes_of segment.contents)
      → (x : ℕ) × (v.translate (segment.address + i) ≡ some (x, segment_flags))
        × (bit a.bitmap (x / 4096) ≡ false)
        × (m x ≡ get_or (bytes_of segment.contents) i 0)

  -- One segment has been mapped.
  pub record MappedOne (segment : Segment) (a : BitmapFrameAllocator) (v : View) (m : Bytes)
      (a' : BitmapFrameAllocator) (v' : View) (m' : Bytes) : Type 0 where
    pub loaded : Loaded segment v' a' m'
    pub others :
        (addr : ℕ)
        → (addr / 4096 < first_page segment) ⊎ (first_page segment + pages segment ≤ addr / 4096)
        → v'.translate addr ≡ v.translate addr
    pub vacant :
        (p : ℕ)
        → (p < first_page segment) ⊎ (first_page segment + pages segment ≤ p)
        → v'.is_vacant p ≡ v.is_vacant p
    pub memory : (x : ℕ) → bit a.bitmap (x / 4096) ≡ false → m' x ≡ m x
    pub keeps : Keeps a a'

  -- Where the range of a segment is backed, different addresses lie at different places.
  abbrev place : (ℕ → ℕ) → ℕ → ℕ → ℕ
  place frames address i = frame_address (frames ((address + i) / 4096)) + (address + i) % 4096

  place-Apart :
      (frames : ℕ → ℕ) (address n first count : ℕ)
      → ((i : ℕ) → i < n → Within first count ((address + i) / 4096))
      → ((p : ℕ) → Within first count p → frames p < 2 ^ 40)
      → ((p q : ℕ) → Within first count p → Within first count q → p ≢ q → frames p ≢ frames q)
      → Apart n (place frames address)
  place-Apart frames address n first count inside small apart i j lt lt' ne same =
      let si = small ((address + i) / 4096) (inside i lt) in
      let sj = small ((address + j) / 4096) (inside j lt') in
      elim (ℕ_discrete ((address + i) / 4096) ((address + j) / 4096)) [
        | yes e ↦ omega (arith, ne, same, ap frames e, si, sj)
        | no other ↦
            apart ((address + i) / 4096) ((address + j) / 4096) (inside i lt) (inside j lt') other
              (omega (arith, same, si, sj))
      ]

module _ ⦃B : BitField⦄ {T : Type 0} ⦃M : Mapper T⦄ where
  copy_data_lem :
      (contents : Option (List ℕ)) (address : ℕ) (t : T) (a : BitmapFrameAllocator) (m : Bytes)
      (phys : ℕ → ℕ)
      → Resolves t address (length (bytes_of contents)) phys
      → Apart (length (bytes_of contents)) phys
      → (m' : Bytes) × (copy_data contents address (t, a, m) ≡ done (t, a, m'))
        × ((i : ℕ) → i < length (bytes_of contents) → m' (phys i) ≡ get_or (bytes_of contents) i 0)
        × ((x : ℕ) → ((i : ℕ) → i < length (bytes_of contents) → x ≢ phys i) → m' x ≡ m x)
  unfolding copy_data write
  copy_data_lem none address t a m phys r apart =
      (m, refl, (λ i lt. absurd (omega arith)), (λ x out. refl))
  copy_data_lem (some bytes) address t a m phys r apart =
      let (m', p, new, old) =
        write_bytes_lem bytes 0 address t m phys
          (record { low = omega (arith, r.low); translated = λ i lt. r.translated i (omega arith) })
          (λ i j lt lt' ne. apart i j (omega arith) (omega arith) ne) in
      (
        m',
        rw p refl,
        (λ i lt. ap (λ j. m' (phys j)) {x = i} {y = 0 + i} (omega arith) ∙ new i lt),
        (λ x out. old x (λ i lo hi. out i (omega arith))),
      )

  pub map_segment_lem :
      (segment : Segment) (k : ℕ) (t : T) (a : BitmapFrameAllocator) (m : Bytes)
      → IsSegment segment
      → AllVacant (M.view t) (first_page segment) (pages segment)
      → Supply (4 * pages segment + k) a
      → (t' : T) × (a' : BitmapFrameAllocator) × (m' : Bytes) × (map_segment segment (t, a, m)
          ≡ done (t', a', m'))
        × MappedOne segment a (M.view t) m a' (M.view t') m'
        × Supply k a'
  unfolding map_segment unwrap_mapped
  map_segment_lem segment k t a m fine vacant s =
      let address = segment.address in
      let n = length (bytes_of segment.contents) in
      let (t', a', frames, p, bytes, b, left) =
        alloc_range_lem address segment.size segment_flags k t a (user-IsEntry 0 refl (omega arith))
          fine.some_bytes fine.low vacant s in
      let inside : ((i : ℕ)
          → i < n
          → Within (first_page segment) (pages segment) ((address + i) / 4096)) =
        λ i lt. (omega arith, omega (arith, fine.fits)) in
      let found : ((i : ℕ)
          → i < n
          → (M.view t').translate (address + i) ≡ some (place frames address i, segment_flags)) =
        λ i lt. bytes (address + i) (omega arith) (omega (arith, fine.fits)) in
      let (m', q, new, old) =
        copy_data_lem segment.contents address t' a' m (place frames address)
          (record {
            low = omega (arith, fine.fits, fine.low);
            translated = λ i lt. M.translate_some t' (address + i) _ segment_flags (found i lt);
          })
          (place-Apart frames address n (first_page segment) (pages segment) inside b.small
            b.apart) in
      (
        t',
        a',
        m',
        rw (M.virt_lem address (omega (arith, fine.low)), p) q,
        record {
          loaded = λ i lt. (
            place frames address i,
            found i lt,
            ap (bit a'.bitmap) {x = place frames address i / 4096}
                  {y = frames ((address + i) / 4096)}
                  (omega (arith, b.small ((address + i) / 4096) (inside i lt)))
                ∙ b.taken ((address + i) / 4096) (inside i lt),
            new i lt,
          );
          others = b.others;
          vacant = b.vacant;
          memory = λ x used. old x (λ i lt e. false_true (
              sym used
              ∙ ap (bit a.bitmap) {x = x / 4096} {y = frames ((address + i) / 4096)}
                  (omega (arith, e, b.small ((address + i) / 4096) (inside i lt)))
              ∙ b.was_free ((address + i) / 4096) (inside i lt)));
          keeps = b.keeps;
        },
        left,
      )
    where
      false_true : false ≢ true
      false_true h = cc

  -- The call panics if the first page of the segment is mapped already, as it is when the segment
  -- before ends on that page, if the segment has bytes and lies in the lower half and the allocator
  -- has a frame.
  pub map_segment_panics :
      (segment : Segment) (t : T) (a : BitmapFrameAllocator) (m : Bytes)
      → 1 ≤ segment.size
      → segment.address + segment.size < 2 ^ 47
      → (M.view t).is_small (first_page segment) ≡ true
      → Supply 1 a
      → map_segment segment (t, a, m) ≡ panics
  unfolding map_segment unwrap_mapped
  map_segment_panics segment t a m some_bytes low small s =
      let (e, t', a', p) =
        alloc_range_mapped segment.address segment.size segment_flags t a
          (user-IsEntry 0 refl (omega arith)) some_bytes low small s in
      rw (M.virt_lem segment.address (omega (arith, low)), p) refl
