-- ===== src/Memory/PageTable/Copy.antt =====
-- One step of the loop over the entries of a table.
use good_os_framework.Base.{
  ℕ, suc, ◌+◌, ◌<◌, ◌≡◌, ◌≢◌, sym, ap, ◌∙◌, subst, ◌⊎◌, inl, inr, true, false, arith, ℕ_discrete,
}
use good_os_framework.Data.Bitmap.{BitField}
use good_os_framework.Memory.Frame.{BitmapFrameAllocator}
use good_os_framework.Memory.Frame.Supply.{Supply}
use good_os_framework.Memory.PageTable.{Paging, Tables, put, entry_count, is_leaf}
use good_os_framework.Memory.PageTable.Fresh.{
  Taken, Other, Fresh, Grows, NewTable, both, apart, free_before, put_self, put_index, put_table,
  nonleaf-set_addr,
}
use good_os_framework.Memory.PageTable.Walk.{
  lookup, InUse, Agree, InUse-mono, InUse-Agree, lookup-Agree,
}

-- A choice of an index at each level.
abbrev pub IsPath : (ℕ → ℕ) → Type 0
IsPath path = (k : ℕ) → path k < entry_count

module _ ⦃B : BitField⦄ {E : Type 0} ⦃P : Paging E⦄ where
  -- The entry `j` of the copy `t` against that of the table `s`, whose level is `suc l`.
  pub record EntryOk (l : ℕ) (a0 : BitmapFrameAllocator) (m0 : Tables E) (s t : ℕ)
      (a : BitmapFrameAllocator) (m : Tables E) (j : ℕ) : Type 0 where
    pub same_kind : is_leaf (suc l) (m t j) ≡ is_leaf (suc l) (m0 s j)
    pub same_leaf : is_leaf (suc l) (m0 s j) ≡ true → m t j ≡ m0 s j
    pub same_walk :
        is_leaf (suc l) (m0 s j) ≡ false
        → (path : ℕ → ℕ) → IsPath path
        → lookup m l (P.addr (m t j)) path ≡ lookup m0 l (P.addr (m0 s j)) path
    pub fresh : is_leaf (suc l) (m0 s j) ≡ false → InUse (Fresh a0 a) m l (P.addr (m t j))

  -- What has been done when the entries below `i` are copied.
  pub record LoopInv (l : ℕ) (a0 : BitmapFrameAllocator) (m0 : Tables E) (s t : ℕ)
      (a : BitmapFrameAllocator) (m : Tables E) (i : ℕ) : Type 0 where
    pub grows : Grows a0 a
    pub kept : Agree (Other a0 t) m0 m
    pub entries : (j : ℕ) → j < i → EntryOk l a0 m0 s t a m j

  -- What a copy has done: `r` frames are still to be had.
  pub record Copied (l : ℕ) (a : BitmapFrameAllocator) (m : Tables E) (s t r : ℕ)
      (a' : BitmapFrameAllocator) (m' : Tables E) : Type 0 where
    pub left : Supply r a'
    pub grows : Grows a a'
    pub kept : Agree (Other a t) m m'
    pub walk : (path : ℕ → ℕ) → IsPath path → lookup m' l t path ≡ lookup m l s path
    pub fresh : InUse (λ u. (u ≡ t) ⊎ Fresh a a' u) m' l t

  module _ (l : ℕ) (a0 : BitmapFrameAllocator) (m0 : Tables E) (s t : ℕ) (zero_taken : Taken a0 0)
      (target : Taken a0 t) (source : InUse (Other a0 t) m0 (suc l) s) where
    transfer :
        (a a1 : BitmapFrameAllocator) (m m1 : Tables E) (j : ℕ)
        → EntryOk l a0 m0 s t a m j
        → m1 t j ≡ m t j
        → Agree (Fresh a0 a) m m1
        → Grows a a1
        → EntryOk l a0 m0 s t a1 m1 j
    transfer a a1 m m1 j ok same agree grows = record {
      same_kind = ap (is_leaf (suc l)) same ∙ ok.same_kind;
      same_leaf = λ h. same ∙ ok.same_leaf h;
      same_walk = λ h path small.
          ap (λ e. lookup m1 l (P.addr e) path) same
          ∙ lookup-Agree (Fresh a0 a) m m1 l (P.addr (m t j)) path small agree (ok.fresh h)
          ∙ ok.same_walk h path small;
      fresh = λ h.
          subst (λ e. InUse (Fresh a0 a1) m1 l (P.addr e)) (sym same)
            (InUse-mono (Fresh a0 a) (Fresh a0 a1) m1 l (P.addr (m t j))
              (λ u (p, q). (p, grows u q))
              (InUse-Agree (Fresh a0 a) m m1 l (P.addr (m t j)) agree (ok.fresh h)));
    }

    -- A new table, or one that a later copy made.
    new_or_below :
        (a a1 a2 : BitmapFrameAllocator) (table : ℕ)
        → Grows a0 a
        → NewTable a table a1
        → Grows a1 a2
        → (u : ℕ) → (u ≡ table) ⊎ Fresh a1 a2 u
        → Fresh a0 a2 u
    new_or_below a a1 a2 table g n g' u (inl e) =
        subst (Fresh a0 a2) (sym e) (free_before a0 a table g n.fresh.0, g' table n.fresh.1)
    new_or_below a a1 a2 table g n g' u (inr (p, q)) =
        (free_before a0 a1 u (λ v h. n.grows v (g v h)) p, q)

    -- A fresh table is another than the target.
    Fresh-ne : (a : BitmapFrameAllocator) (u : ℕ) → Fresh a0 a u → u ≢ t
    Fresh-ne a u (p, q) e = apart a0 u t p target (sym e)

    pub leaf_step :
        (a : BitmapFrameAllocator) (m : Tables E) (i : ℕ)
        → LoopInv l a0 m0 s t a m i
        → is_leaf (suc l) (m0 s i) ≡ true
        → LoopInv l a0 m0 s t a (put m t i (m0 s i)) (i + 1)
    leaf_step a m i inv leaf = record {
      grows = inv.grows;
      kept = λ u (p, ne) k. put_table m t u i k (m0 s i) ne ∙ inv.kept u (p, ne) k;
      entries = λ j lt. elim (ℕ_discrete j i) [
        | yes e ↦ subst (EntryOk l a0 m0 s t a (put m t i (m0 s i))) (sym e) (record {
          same_kind = ap (is_leaf (suc l)) (put_self m t i (m0 s i));
          same_leaf = λ h. put_self m t i (m0 s i);
          same_walk = λ h. absurd (both leaf h);
          fresh = λ h. absurd (both leaf h);
        })
        | no ne ↦
            transfer a a m (put m t i (m0 s i)) j (inv.entries j (omega arith))
              (put_index m t i j (m0 s i) ne)
              (λ u f k. put_table m t u i k (m0 s i) (Fresh-ne a u f)) (λ u p. p)
      ];
    }

    pub table_step :
        (a a1 a2 : BitmapFrameAllocator) (m m2 : Tables E) (i table r : ℕ)
        → LoopInv l a0 m0 s t a m i
        → i < entry_count
        → is_leaf (suc l) (m0 s i) ≡ false
        → NewTable a table a1
        → Copied l a1
            (put m t i (P.set_addr table (P.flags (m0 s i))))
            (P.addr (m0 s i))
            table
            r
            a2
            m2
        → LoopInv l a0 m0 s t a2 m2 (i + 1)
    unfolding InUse
    table_step a a1 a2 m m2 i table r inv lt nl n c =
        let made = P.set_addr table (P.flags (m0 s i)) in
        let was_free = free_before a0 a table inv.grows n.fresh.0 in
        let other = apart a0 table t was_free target in
        let taken = n.grows t (inv.grows t target) in
        let here : (m2 t i ≡ made) = c.kept t (taken, other) i ∙ put_self m t i made in
        let there : (P.addr made ≡ table) =
          P.addr-set_addr table (P.flags (m0 s i)) n.aligned n.small in
        let before : Agree (Other a0 t) m0 (put m t i made) =
          λ u (p, ne) k. put_table m t u i k made ne ∙ inv.kept u (p, ne) k in
        record {
          grows = λ u p. c.grows u (n.grows u (inv.grows u p));
          kept = λ u (p, ne) k.
              c.kept u (n.grows u (inv.grows u p), apart a0 table u was_free p) k
              ∙ before u (p, ne) k;
          entries = λ j lt'. elim (ℕ_discrete j i) [
            | yes e ↦ subst (EntryOk l a0 m0 s t a2 m2) (sym e) (record {
              same_kind =
                  ap (is_leaf (suc l)) here
                  ∙ nonleaf-set_addr (suc l) table (m0 s i) n.aligned n.small
                      (λ z. apart a0 table 0 was_free zero_taken (sym z)) nl
                  ∙ sym nl;
              same_leaf = λ h. absurd (both h nl);
              same_walk = λ h path small.
                  ap (λ e. lookup m2 l e path) (ap P.addr here ∙ there)
                  ∙ c.walk path small
                  ∙ lookup-Agree (Other a0 t) m0 (put m t i made) l (P.addr (m0 s i)) path small
                      before (source.1 i lt nl);
              fresh = λ h. subst (InUse (Fresh a0 a2) m2 l) (sym (ap P.addr here ∙ there)) (
                  InUse-mono _ (Fresh a0 a2) m2 l table
                    (λ u p. new_or_below a a1 a2 table inv.grows n c.grows u p) c.fresh);
            })
            | no ne ↦
                transfer a a2 m m2 j (inv.entries j (omega arith))
                  (c.kept t (taken, other) j ∙ put_index m t i j made ne)
                  (λ u (p, q) k.
                    c.kept u (n.grows u q, apart a table u n.fresh.0 q) k
                    ∙ put_table m t u i k made (Fresh-ne a u (p, q)))
                  (λ u p. c.grows u (n.grows u p))
          ];
        }
