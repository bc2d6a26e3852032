-- ===== src/Task/Process/All.antt =====
-- All segments of a program.
use good_os_framework.Base.{
  ℕ, ◌+◌, ◌*◌, ◌/◌, ◌≤◌, ◌<◌, ◌≡◌, refl, ◌∙◌, subst, ◌⊎◌, false, done, arith, List, [], ◌∷◌, All,
}
use good_os_framework.Data.Bitmap.{BitField}
use good_os_framework.Data.Bitmap.Laws.{bit}
use good_os_framework.Memory.Frame.{BitmapFrameAllocator}
use good_os_framework.Memory.Frame.Supply.{Supply}
use good_os_framework.Memory.Frame.Calls.{Keeps}
use good_os_framework.Memory.Mapper.{Mapper, View}
use good_os_framework.Memory.Manager.Backed.{Within, AllVacant}
use good_os_framework.Memory.PageTable.Access.{Bytes}
use good_os_framework.Task.Process.{Segment, map_segments}
use good_os_framework.Task.Process.Load.{
  first_page, pages, IsSegment, Loaded, MappedOne, map_segment_lem,
}

-- A page is none of those of a segment.
abbrev pub Outside : Segment → ℕ → Type 0
Outside s p = (p < first_page s) ⊎ (first_page s + pages s ≤ p)

-- No page belongs to two segments.
abbrev pub Disjoint : Segment → Segment → Type 0
Disjoint s s' = (first_page s + pages s ≤ first_page s') ⊎ (first_page s' + pages s' ≤ first_page s)

-- The segments are vacant, and no two of them share a page.
abbrev pub Loadable : View → List Segment → Type 0
Loadable v [] = Unit
Loadable v (s ∷ ss) =
    IsSegment s × AllVacant v (first_page s) (pages s) × All (Disjoint s) ss × Loadable v ss

abbrev pub total_pages : List Segment → ℕ
total_pages [] = 0
total_pages (s ∷ ss) = pages s + total_pages ss

module _ ⦃B : BitField⦄ where
  -- What is outside the segments has not changed, nor have the bytes, other than those of page tables,
  -- that were in use.
  pub record Preserved (ss : List Segment) (a : BitmapFrameAllocator) (v : View) (m : Bytes)
      (a' : BitmapFrameAllocator) (v' : View) (m' : Bytes) : Type 0 where
    pub others :
        (addr : ℕ) → All (λ s. Outside s (addr / 4096)) ss → v'.translate addr ≡ v.translate addr
    pub memory : (x : ℕ) → bit a.bitmap (x / 4096) ≡ false → m' x ≡ m x
    pub keeps : Keeps a a'

  Loadable-after :
      (s : Segment) (ss : List Segment) (a a' : BitmapFrameAllocator) (v v' : View) (m m' : Bytes)
      → MappedOne s a v m a' v' m'
      → All (Disjoint s) ss
      → Loadable v ss
      → Loadable v' ss
  Loadable-after s [] a a' v v' m m' one apart l = tt
  Loadable-after s (s' ∷ ss) a a' v v' m m' one (d, apart) (is, vacant, ds, l) = (
    is,
    (λ p w. one.vacant p (omega (arith, d)) ∙ vacant p w),
    ds,
    Loadable-after s ss a a' v v' m m' one apart l,
  )

  -- A page of a segment lies outside those that are disjoint from it.
  page-Outside :
      (s : Segment) (ss : List Segment) (p : ℕ)
      → Within (first_page s) (pages s) p
      → All (Disjoint s) ss
      → All (λ s'. Outside s' p) ss
  page-Outside s [] p w apart = tt
  page-Outside s (s' ∷ ss) p w (d, apart) = (omega (arith, d), page-Outside s ss p w apart)

  Loaded-after :
      (s : Segment) (ss : List Segment) (a a' : BitmapFrameAllocator) (v v' : View) (m m' : Bytes)
      → IsSegment s
      → All (Disjoint s) ss
      → Loaded s v a m
      → Preserved ss a v m a' v' m'
      → Loaded s v' a' m'
  Loaded-after s ss a a' v v' m m' fine apart loaded kept i lt =
      let (x, e, used, byte) = loaded i lt in
      (
        x,
        kept.others (s.address + i) (
              page-Outside s ss ((s.address + i) / 4096) (omega arith, omega (arith, fine.fits))
                apart)
            ∙ e,
        kept.keeps (x / 4096) used,
        kept.memory x used ∙ byte,
      )

module _ ⦃B : BitField⦄ {T : Type 0} ⦃M : Mapper T⦄ where
  map_segments_bytes :
      (ss : List Segment) (t : T) (a : BitmapFrameAllocator) (m : Bytes)
      → Loadable (M.view t) ss
      → Supply (4 * total_pages ss) a
      → (t' : T) × (a' : BitmapFrameAllocator) × (m' : Bytes) × (map_segments ss (t, a, m)
          ≡ done (t', a', m'))
        × All (λ s. Loaded s (M.view t') a' m') ss
        × Preserved ss a (M.view t) m a' (M.view t') m'
  unfolding map_segments
  map_segments_bytes [] t a m l supply = (
    t,
    a,
    m,
    refl,
    tt,
    record { others = λ addr out. refl; memory = λ x u. refl; keeps = λ i u. u },
  )
  map_segments_bytes (s ∷ ss) t a m (is, vacant, apart, l) supply =
      let (t1, a1, m1, p, one, left) =
        map_segment_lem s (4 * total_pages ss) t a m is vacant
          (subst (λ k. Supply k a) {x = 4 * (pages s + total_pages ss)} (omega arith) supply) in
      let (t', a', m', q, loaded, kept) =
        map_segments_bytes ss t1 a1 m1
          (Loadable-after s ss a a1 (M.view t) (M.view t1) m m1 one apart l) left in
      (
        t',
        a',
        m',
        rw p q,
        (Loaded-after s ss a1 a' (M.view t1) (M.view t') m1 m' is apart one.loaded kept, loaded),
        record {
          others = λ addr out. kept.others addr out.1 ∙ one.others addr out.0;
          memory = λ x u. kept.memory x (one.keeps (x / 4096) u) ∙ one.memory x u;
          keeps = λ i u. kept.keeps i (one.keeps i u);
        },
      )

  -- The segments of a program are loaded, if each has bytes, lies in the lower half and has room for its
  -- data, their pages are vacant and no two segments share one, and the allocator has four frames for each
  -- page. The data of every segment are then found at its addresses, in frames that are in use. Addresses
  -- outside the segments are translated as before, and no frame in use has become free.
  pub map_segments_lem :
      (ss : List Segment) (t : T) (a : BitmapFrameAllocator) (m : Bytes)
      → Loadable (M.view t) ss
      → Supply (4 * total_pages ss) a
      → (t' : T) × (a' : BitmapFrameAllocator) × (m' : Bytes) × (map_segments ss (t, a, m)
          ≡ done (t', a', m'))
        × All (λ s. Loaded s (M.view t') a' m') ss
        × ((addr : ℕ)
            → All (λ s. Outside s (addr / 4096)) ss
            → (M.view t').translate addr ≡ (M.view t).translate addr)
        × Keeps a a'
  map_segments_lem ss t a m l supply =
      let (t', a', m', p, loaded, kept) = map_segments_bytes ss t a m l supply in
      (t', a', m', p, loaded, kept.others, kept.keeps)
