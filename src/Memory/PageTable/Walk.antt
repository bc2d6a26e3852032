-- ===== src/Memory/PageTable/Walk.antt =====
-- How an address is looked up in a tree of tables, and what the look-up depends on.
use good_os_framework.Base.{
  ℕ, zero, suc, ◌+◌, ◌<◌, ◌≡◌, refl, sym, ap, subst, false, Bool-cases, inl, inr, if◌then◌else◌,
  arith,
}
use good_os_framework.Memory.PageTable.{Paging, Tables, entry_count, is_leaf}

-- The sum over the `n` indices from `i` on.
unfoldable pub sum_from : (ℕ → ℕ) → ℕ → ℕ → ℕ
sum_from f zero i = 0
sum_from f (suc n) i = f i + sum_from f n (i + 1)

pub sum_from-eq :
    (f g : ℕ → ℕ) (n i bound : ℕ)
    → i + n ≡ bound
    → ((j : ℕ) → j < bound → f j ≡ g j)
    → sum_from f n i ≡ sum_from g n i
unfolding sum_from
sum_from-eq f g zero i bound e h = refl
sum_from-eq f g (suc n) i bound e h =
    omega (arith, h i (omega arith), sum_from-eq f g n (i + 1) bound (omega arith) h)

module _ {E : Type 0} ⦃P : Paging E⦄ where
  -- The entry that ends the walk from a table of a level: the first leaf on the way. `path` gives the
  -- index at each level.
  unfoldable pub lookup : Tables E → ℕ → ℕ → (ℕ → ℕ) → E
  lookup m zero table path = m table (path 0)
  lookup m (suc l) table path =
      let entry = m table (path (suc l)) in
      if is_leaf (suc l) entry then entry else lookup m l (P.addr entry) path

  -- The number of tables below a table of a level.
  unfoldable pub tables_below : Tables E → ℕ → ℕ → ℕ
  tables_below m zero table = 0
  tables_below m (suc l) table =
      sum_from
        (λ i.
          if is_leaf (suc l) (m table i) then 0 else suc (tables_below m l (P.addr (m table i))))
        entry_count 0

  -- The table and all tables below it have a property.
  unfoldable pub InUse : (ℕ → Type 0) → Tables E → ℕ → ℕ → Type 0
  InUse Q m zero table = Q table
  InUse Q m (suc l) table =
      Q table
      × ((i : ℕ)
          → i < entry_count
          → is_leaf (suc l) (m table i) ≡ false
          → InUse Q m l (P.addr (m table i)))

  -- Two memories agree on the tables with a property.
  abbrev pub Agree : (ℕ → Type 0) → Tables E → Tables E → Type 0
  Agree Q m m' = (t : ℕ) → Q t → (i : ℕ) → m' t i ≡ m t i

  pub InUse-mono :
      (Q R : ℕ → Type 0) (m : Tables E) (l table : ℕ)
      → ((t : ℕ) → Q t → R t)
      → InUse Q m l table
      → InUse R m l table
  unfolding InUse
  InUse-mono Q R m zero table h u = h table u
  InUse-mono Q R m (suc l) table h (q, u) =
      (h table q, (λ i lt nl. InUse-mono Q R m l (P.addr (m table i)) h (u i lt nl)))

  pub InUse-root : (Q : ℕ → Type 0) (m : Tables E) (l table : ℕ) → InUse Q m l table → Q table
  unfolding InUse
  InUse-root Q m zero table u = u
  InUse-root Q m (suc l) table u = u.0

  pub InUse-Agree :
      (Q : ℕ → Type 0) (m m' : Tables E) (l table : ℕ)
      → Agree Q m m'
      → InUse Q m l table
      → InUse Q m' l table
  unfolding InUse
  InUse-Agree Q m m' zero table h u = u
  InUse-Agree Q m m' (suc l) table h (q, u) = (
    q,
    (λ i lt nl.
        let same = h table q i in
        subst (λ e. InUse Q m' l (P.addr e)) (sym same)
          (InUse-Agree Q m m' l (P.addr (m table i)) h (u i lt (rw same at nl)))),
  )

  pub lookup-Agree :
      (Q : ℕ → Type 0) (m m' : Tables E) (l table : ℕ) (path : ℕ → ℕ)
      → ((k : ℕ) → path k < entry_count)
      → Agree Q m m'
      → InUse Q m l table
      → lookup m' l table path ≡ lookup m l table path
  unfolding lookup InUse
  lookup-Agree Q m m' zero table path small h u = h table u (path 0)
  lookup-Agree Q m m' (suc l) table path small h (q, u) =
      rw (h table q (path (suc l))) (elim (Bool-cases (is_leaf (suc l) (m table (path (suc l))))) [
        | inl e ↦ rw e refl
        | inr e ↦ rw e (
            lookup-Agree Q m m' l (P.addr (m table (path (suc l)))) path small h
              (u (path (suc l)) (small (suc l)) e))
      ])

  pub tables_below-Agree :
      (Q : ℕ → Type 0) (m m' : Tables E) (l table : ℕ)
      → Agree Q m m'
      → InUse Q m l table
      → tables_below m' l table ≡ tables_below m l table
  unfolding tables_below InUse
  tables_below-Agree Q m m' zero table h u = refl
  tables_below-Agree Q m m' (suc l) table h (q, u) =
      sum_from-eq _ _ entry_count 0 entry_count refl (λ i lt.
        rw (h table q i) (elim (Bool-cases (is_leaf (suc l) (m table i))) [
          | inl e ↦ rw e refl
          | inr e ↦ rw e (ap suc (tables_below-Agree Q m m' l (P.addr (m table i)) h (u i lt e)))
        ]))
