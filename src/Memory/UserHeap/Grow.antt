-- ===== src/Memory/UserHeap/Grow.antt =====
-- The pages of a heap, as it is set up and as it grows.
use good_os_framework.Base.{
  ℕ, zero, suc, ◌+◌, ◌-◌, ◌*◌, ◌/◌, ◌%◌, ◌^◌, ◌≤◌, ◌<◌, ◌≡◌, refl, sym, ap, ◌∙◌, subst, inl, inr,
  true, false, some, done, arith, ltb, Bool-cases, ltb→lt,
}
use good_os_framework.Data.Bitmap.{BitField}
use good_os_framework.Memory.Frame.{BitmapFrameAllocator, frame_address}
use good_os_framework.Memory.Frame.Supply.{Supply}
use good_os_framework.Memory.Frame.Calls.{Supply-mono, Supply-Calls}
use good_os_framework.Memory.Mapper.{Mapper, View, MapsTo, user-IsEntry, IsEntry-at}
use good_os_framework.Memory.Manager.{unwrap_mapped}
use good_os_framework.Memory.UserHeap

abbrev pub first_page : ℕ
first_page = UserHeap.heap_start / 4096

-- The bytes of a heap of `size` bytes are translated with its flags, its size is a number of pages of
-- the lower half, and the pages behind it up to `limit` are vacant.
pub record IsHeap (size limit : ℕ) (v : View) : Type 0 where
  pub pages : size % 4096 ≡ 0
  pub low : UserHeap.heap_start + size < 2 ^ 47
  pub mapped :
      (i : ℕ)
      → i < size
      → (x : ℕ) × (v.translate (UserHeap.heap_start + i) ≡ some (x, UserHeap.heap_flags))
  pub vacant :
      (p : ℕ) → first_page + size / 4096 ≤ p → p < first_page + limit → v.is_vacant p ≡ true

one_more :
    (size limit frame : ℕ) (v v' : View)
    → IsHeap size limit v
    → UserHeap.heap_start + size + 4096 < 2 ^ 47
    → MapsTo (first_page + size / 4096) frame UserHeap.heap_flags v v'
    → IsHeap (size + 4096) limit v'
one_more size limit frame v v' h low m = record {
  pages = omega (arith, h.pages);
  low = omega arith;
  mapped = λ i lt. elim (Bool-cases (ltb i size)) [
    | inl below ↦
        let (x, e) = h.mapped i (ltb→lt i size below) in
        (
          x,
          m.others.translate (UserHeap.heap_start + i)
                (λ e. omega (arith, e, h.pages, ltb→lt i size below))
              ∙ e,
        )
    | inr above ↦
        let up : (size ≤ i) = not_below i size above in
        (
          frame + (i - size),
          ap v'.translate {x = UserHeap.heap_start + i}
                {y = (first_page + size / 4096) * 4096 + (i - size)} (omega (arith, h.pages, up))
              ∙ m.here (i - size) (omega (arith, up)),
        )
  ];
  vacant =
      λ p lo hi. m.others.vacant p (λ e. omega (arith, h.pages, e)) ∙ h.vacant p (omega arith) hi;
}
  where
    not_below : (i size : ℕ) → ltb i size ≡ false → size ≤ i
    not_below i size h = ground arith

module _ ⦃B : BitField⦄ {T : Type 0} ⦃M : Mapper T⦄ where
  map_new_lem :
      (size limit k : ℕ) (t : T) (a : BitmapFrameAllocator)
      → IsHeap size limit (M.view t)
      → UserHeap.heap_start + size + 4096 < 2 ^ 47
      → size / 4096 < limit
      → Supply (4 + k) a
      → (t' : T) × (a' : BitmapFrameAllocator) × (UserHeap.map_new (UserHeap.heap_start + size) t a
          ≡ done (t', a'))
        × IsHeap (size + 4096) limit (M.view t')
        × Supply k a'
  unfolding UserHeap.map_new unwrap_mapped Supply
  map_new_lem size limit k t a h low room s =
      let page = (UserHeap.heap_start + size) / 4096 in
      let (f, a1, g, s1) = subst (λ j. Supply j a) {x = 4 + k} {y = suc (3 + k)} (omega arith) s in
      let here : (first_page + size / 4096 ≡ page) = omega (arith, h.pages) in
      let (t', a', n, p, le, calls, m) =
        M.map_vacant t page (frame_address f) UserHeap.heap_flags a1
          (IsEntry-at f UserHeap.heap_flags (user-IsEntry 0 refl (omega arith)) g.small)
          (h.vacant page (omega (arith, here)) (omega (arith, here)))
          (Supply-mono 3 (3 + k) a1 (omega arith) s1) in
      (
        t',
        a',
        rw (g.served, M.virt_lem (UserHeap.heap_start + size) (omega arith), p) refl,
        one_more size limit (frame_address f) (M.view t) (M.view t') h low (
            subst (λ q. MapsTo q (frame_address f) UserHeap.heap_flags (M.view t) (M.view t'))
              (sym here) m),
        (Supply-Calls n k a1 a' calls (Supply-mono (n + k) (3 + k) a1 (omega arith) s1)).0,
      )

module _ ⦃B : BitField⦄ {H : Type 0} ⦃A : UserHeap.Talc H⦄ {T : Type 0} ⦃M : Mapper T⦄ where
  pub grow_lem :
      (n limit : ℕ) (h : UserHeap.ProcessHeap H) (t : T) (a : BitmapFrameAllocator)
      → IsHeap h.size limit (M.view t)
      → UserHeap.heap_start + h.size + 4096 * n < 2 ^ 47
      → h.size / 4096 + n ≤ limit
      → Supply (4 * n) a
      → (h' : UserHeap.ProcessHeap H) × (t' : T) × (a' : BitmapFrameAllocator) × (UserHeap.grow n
            (h, t, a)
          ≡ done (h', t', a'))
        × (h'.size ≡ h.size + 4096 * n)
        × (h'.allocator ≡ h.allocator)
        × IsHeap h'.size limit (M.view t')
  unfolding UserHeap.grow
  grow_lem zero limit h t a is low room s = (h, t, a, refl, omega arith, refl, is)
  grow_lem (suc n) limit h t a is low room s =
      let (t1, a1, p, is1, s1) =
        map_new_lem h.size limit (4 * n) t a is (omega arith) (omega arith)
          (subst (λ j. Supply j a) {x = 4 * suc n} {y = 4 + 4 * n} (omega arith) s) in
      let h1 = record h {
        size = (h.size + 4096) % 2 ^ 64;
        usable_size = (h.usable_size + 4096) % 2 ^ 64;
      } in
      let same : ((h.size + 4096) % 2 ^ 64 ≡ h.size + 4096) = omega (arith, low) in
      let (h', t', a', q, size, allocator, is') =
        grow_lem n limit h1 t1 a1 (subst (λ z. IsHeap z limit (M.view t1)) (sym same) is1)
          (omega (arith, same)) (omega (arith, same)) s1 in
      (h', t', a', rw p q, omega (arith, size, same), allocator, is')

module _ ⦃B : BitField⦄ {T : Type 0} ⦃M : Mapper T⦄ where
  pub init_pages_lem :
      (n page limit : ℕ) (t : T) (a : BitmapFrameAllocator)
      → IsHeap (page * 4096) limit (M.view t)
      → page + n ≤ limit
      → UserHeap.heap_start + (page + n) * 4096 < 2 ^ 47
      → Supply (4 * n) a
      → (t' : T) × (a' : BitmapFrameAllocator) × (UserHeap.init_pages n page t a ≡ done (t', a'))
        × IsHeap ((page + n) * 4096) limit (M.view t')
  unfolding UserHeap.init_pages
  init_pages_lem zero page limit t a is room low s = (
    t,
    a,
    refl,
    subst (λ z. IsHeap z limit (M.view t)) {x = page * 4096} {y = (page + 0) * 4096} (omega arith)
        is,
  )
  init_pages_lem (suc n) page limit t a is room low s =
      let (t1, a1, p, is1, s1) =
        map_new_lem (page * 4096) limit (4 * n) t a is (omega arith) (omega arith)
          (subst (λ j. Supply j a) {x = 4 * suc n} {y = 4 + 4 * n} (omega arith) s) in
      let (t', a', q, is') =
        init_pages_lem n (page + 1) limit t1 a1
          (subst (λ z. IsHeap z limit (M.view t1)) {x = page * 4096 + 4096} {y = (page + 1) * 4096}
            (omega arith) is1)
          (omega arith) (omega arith) s1 in
      (
        t',
        a',
        rw p q,
        subst (λ z. IsHeap z limit (M.view t')) {x = (page + 1 + n) * 4096}
            {y = (page + suc n) * 4096} (omega arith) is',
      )
