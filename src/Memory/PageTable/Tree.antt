-- ===== src/Memory/PageTable/Tree.antt =====
-- The loop over the entries of a table, and the copy of a tree of tables.
use good_os_framework.Base.{
  ℕ, zero, suc, ◌+◌, ◌<◌, ◌≡◌, refl, sym, ap, ◌∙◌, subst, inl, inr, true, false, Bool-cases,
  if◌then◌else◌, Outcome, done, arith,
}
use good_os_framework.Data.Bitmap.{BitField}
use good_os_framework.Memory.Frame.{BitmapFrameAllocator}
use good_os_framework.Memory.Frame.Supply.{Supply}
use good_os_framework.Memory.PageTable.{
  Paging, Tables, State, put, entry_count, is_leaf, new, copy_entries, new_from_recursion,
}
use good_os_framework.Memory.PageTable.Fresh.{
  Taken, Other, both, apart, free_before, new_lem, put_table,
}
use good_os_framework.Memory.PageTable.Walk.{
  lookup, tables_below, InUse, Agree, InUse-mono, InUse-Agree, tables_below-Agree, sum_from,
}
use good_os_framework.Memory.PageTable.Copy.{
  IsPath, EntryOk, LoopInv, Copied, leaf_step, table_step,
}

-- The copy of a table of the level `l` works.
unfoldable pub Works : ⦃B : BitField⦄ → (E : Type 0) → ⦃P : Paging E⦄ → ℕ → Type 0
Works E l =
    (a : BitmapFrameAllocator) (m : Tables E) (s t r : ℕ)
    → Taken a 0
    → Taken a t
    → InUse (Other a t) m l s
    → Supply (tables_below m l s + r) a
    → (a' : BitmapFrameAllocator) × (m' : Tables E) × (new_from_recursion l s t (a, m)
        ≡ done (a', m'))
      × Copied l a m s t r a' m'

module _ ⦃B : BitField⦄ {E : Type 0} ⦃P : Paging E⦄ where
  module _ (again : ℕ → ℕ → State E → Outcome (State E)) (level n i s t : ℕ) where
    copy_leaf :
        (a : BitmapFrameAllocator) (m : Tables E) (e : E) (end : State E)
        → m s i ≡ e
        → is_leaf level e ≡ true
        → copy_entries level again n (i + 1) s t (a, put m t i e) ≡ done end
        → copy_entries level again (suc n) i s t (a, m) ≡ done end
    unfolding copy_entries
    copy_leaf a m e end read leaf rest = rw (read, leaf, P.set_addr_self e) rest

    copy_table :
        (a a1 : BitmapFrameAllocator) (m : Tables E) (table : ℕ) (e : E) (s2 end : State E)
        → m s i ≡ e
        → is_leaf level e ≡ false
        → new a ≡ done (table, a1)
        → again (P.addr e) table (a1, put m t i (P.set_addr table (P.flags e))) ≡ done s2
        → copy_entries level again n (i + 1) s t s2 ≡ done end
        → copy_entries level again (suc n) i s t (a, m) ≡ done end
    unfolding copy_entries
    copy_table a a1 m table e s2 end read nl served below rest = rw (read, nl, served, below) rest

  module _ (l : ℕ) (a0 : BitmapFrameAllocator) (m0 : Tables E) (s t : ℕ) (zero_taken : Taken a0 0)
      (target : Taken a0 t) (source : InUse (Other a0 t) m0 (suc l) s) where
    -- The frames that the entry `j` needs.
    abbrev needed : ℕ → ℕ
    needed j = if is_leaf (suc l) (m0 s j) then 0 else suc (tables_below m0 l (P.addr (m0 s j)))

    loop_lem :
        ((j : ℕ) → is_leaf (suc l) (m0 s j) ≡ false → Works E l)
        → (n i r : ℕ) (a : BitmapFrameAllocator) (m : Tables E) → i + n ≡ entry_count
        → LoopInv l a0 m0 s t a m i
        → Supply (sum_from needed n i + r) a
        → (a' : BitmapFrameAllocator) × (m' : Tables E) × (copy_entries
              (suc l)
              (new_from_recursion l)
              n
              i
              s
              t
              (a, m)
            ≡ done (a', m'))
          × Supply r a'
          × LoopInv l a0 m0 s t a' m' entry_count
    unfolding copy_entries sum_from Works InUse
    loop_lem again zero i r a m e inv sup = (
      a,
      m,
      refl,
      subst (λ k. Supply k a) {x = 0 + r} {y = r} (omega arith) sup,
      subst (LoopInv l a0 m0 s t a m) {x = i} {y = entry_count} (omega arith) inv,
    )
    loop_lem again (suc n) i r a m e inv sup =
        let read : (m s i ≡ m0 s i) = inv.kept s source.0 i in
        elim (Bool-cases (is_leaf (suc l) (m0 s i))) [
          | inl leaf ↦
              let (a3, m3, q, sup3, inv3) =
                loop_lem again n (i + 1) r a (put m t i (m0 s i)) (omega arith)
                  (leaf_step l a0 m0 s t zero_taken target source a m i inv leaf)
                  (subst (λ k. Supply k a) {x = needed i + sum_from needed n (i + 1) + r}
                    (ap (λ k. k + sum_from needed n (i + 1) + r) {x = needed i} {y = 0}
                        (rw leaf refl)
                      ∙ omega arith)
                    sup) in
              (
                a3,
                m3,
                copy_leaf (new_from_recursion l) (suc l) n i s t a m (m0 s i) (a3, m3) read leaf q,
                sup3,
                inv3,
              )
          | inr nl ↦
              let below = tables_below m0 l (P.addr (m0 s i)) in
              let later = sum_from needed n (i + 1) + r in
              let enough : Supply (suc (below + later)) a =
                subst (λ k. Supply k a) {x = needed i + sum_from needed n (i + 1) + r}
                  {y = suc (below + later)}
                  (ap (λ k. k + sum_from needed n (i + 1) + r) {x = needed i} {y = suc below}
                      (rw nl refl)
                    ∙ omega arith)
                  sup in
              let (table, a1, new_table, sup1) = new_lem (below + later) a enough in
              let m1 = put m t i (P.set_addr table (P.flags (m0 s i))) in
              let was_free = free_before a0 a table inv.grows new_table.fresh.0 in
              let before : Agree (Other a0 t) m0 m1 =
                λ u (p, ne) k. put_table m t u i k _ ne ∙ inv.kept u (p, ne) k in
              let lt : (i < entry_count) = omega arith in
              let (a2, m2, p, c) =
                again i nl a1 m1 (P.addr (m0 s i)) table later
                  (new_table.grows 0 (inv.grows 0 zero_taken)) new_table.fresh.1
                  (InUse-mono (Other a0 t) (Other a1 table) m1 l (P.addr (m0 s i))
                    (λ u (q, ne). (new_table.grows u (inv.grows u q), apart a0 table u was_free q))
                    (InUse-Agree (Other a0 t) m0 m1 l (P.addr (m0 s i)) before (source.1 i lt nl)))
                  (subst (λ k. Supply (k + later) a1)
                    (sym (
                      tables_below-Agree (Other a0 t) m0 m1 l (P.addr (m0 s i)) before
                        (source.1 i lt nl)))
                    sup1) in
              let (a3, m3, q, sup3, inv3) =
                loop_lem again n (i + 1) r a2 m2 (omega arith)
                  (table_step l a0 m0 s t zero_taken target source a a1 a2 m m2 i table later inv lt
                    nl new_table c)
                  c.left in
              (
                a3,
                m3,
                copy_table (new_from_recursion l) (suc l) n i s t a a1 m table (m0 s i) (a2, m2)
                    (a3, m3) read nl new_table.served p q,
                sup3,
                inv3,
              )
        ]

module _ ⦃B : BitField⦄ {E : Type 0} ⦃P : Paging E⦄ where
  -- At level 1 all entries are leaves.
  leaf_one : (e : E) → is_leaf 1 e ≡ true
  unfolding is_leaf
  leaf_one e = refl

  walk_lem :
      (l : ℕ) (a0 : BitmapFrameAllocator) (m0 : Tables E) (s t : ℕ) (a : BitmapFrameAllocator)
      (m : Tables E) (path : ℕ → ℕ)
      → IsPath path
      → EntryOk l a0 m0 s t a m (path (suc l))
      → lookup m (suc l) t path ≡ lookup m0 (suc l) s path
  unfolding lookup
  walk_lem l a0 m0 s t a m path small ok =
      elim (Bool-cases (is_leaf (suc l) (m0 s (path (suc l))))) [
        | inl leaf ↦ rw (ok.same_kind, leaf) (ok.same_leaf leaf)
        | inr nl ↦ rw (ok.same_kind, nl) (ok.same_walk nl path small)
      ]

  copy_level : (l : ℕ) → ((e : E) → is_leaf (suc l) e ≡ false → Works E l) → Works E (suc l)
  unfolding Works new_from_recursion tables_below InUse
  copy_level l again a m s t r zero_taken target source sup =
      let start : LoopInv l a m s t a m 0 = record {
        grows = λ u p. p;
        kept = λ u p k. refl;
        entries = λ j lt. absurd (omega arith);
      } in
      let (a', m', p, left, inv) =
        loop_lem l a m s t zero_taken target source (λ j nl. again (m s j) nl) entry_count 0 r a m
          refl start sup in
      (
        a',
        m',
        p,
        record {
          left = left;
          grows = inv.grows;
          kept = inv.kept;
          walk = λ path small.
              walk_lem l a m s t a' m' path small (inv.entries (path (suc l)) (small (suc l)));
          fresh = (
            inl refl,
            λ i lt nl.
                let ok = inv.entries i lt in
                InUse-mono _ _ m' l _ (λ u f. inr f) (ok.fresh (sym ok.same_kind ∙ nl)),
          );
        },
      )

pub copy_lem : ⦃B : BitField⦄ → (E : Type 0) → ⦃P : Paging E⦄ → (l : ℕ) → Works E (suc l)
copy_lem E zero = copy_level zero (λ e nl. absurd (both (leaf_one e) nl))
copy_lem E (suc l) = copy_level (suc l) (λ e nl. copy_lem E l)
