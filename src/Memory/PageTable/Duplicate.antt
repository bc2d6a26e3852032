-- ===== src/Memory/PageTable/Duplicate.antt =====
-- The copy of a page table against its source.
use good_os_framework.Base.{
  ℕ, suc, ◌+◌, ◌^◌, ◌≤◌, ◌≡◌, refl, sym, subst, ◌⊎◌, inl, inr, done, arith,
}
use good_os_framework.Data.Bitmap.{BitField}
use good_os_framework.Memory.Frame.{BitmapFrameAllocator}
use good_os_framework.Data.Bitmap
use good_os_framework.Memory.Frame.Single.{IsReady}
use good_os_framework.Memory.Frame.Supply.{Supply, reachable, Supply-IsReady}
use good_os_framework.Memory.PageTable.{Paging, Tables, new_from_address}
use good_os_framework.Memory.PageTable.Fresh.{
  Taken, Other, Fresh, Grows, NewTable, apart, free_before, new_lem,
}
use good_os_framework.Memory.PageTable.Walk.{lookup, tables_below, InUse, Agree, InUse-mono}
use good_os_framework.Memory.PageTable.Copy.{IsPath}
use good_os_framework.Memory.PageTable.Tree.{Works, copy_lem}

module _ ⦃B : BitField⦄ {E : Type 0} ⦃P : Paging E⦄ where
  -- A copy of the tree of tables at `s` that leaves all tables in use as they are.
  pub record IsCopy (a : BitmapFrameAllocator) (m : Tables E) (s t : ℕ) (a' : BitmapFrameAllocator)
      (m' : Tables E) : Type 0 where
    pub walk : (path : ℕ → ℕ) → IsPath path → lookup m' 4 t path ≡ lookup m 4 s path
    pub kept : Agree (Taken a) m m'
    pub fresh : InUse (Fresh a a') m' 4 t

  -- Copying the page table at `s` ends without a fault, if the allocator is ready, the frame 0 and
  -- the tables of `s` are in use and one frame is left for each of these tables. The copy answers every
  -- look-up as `s` does, its tables all lie in frames that were free, and no table in use has changed.
  pub new_from_address_lem :
      (a : BitmapFrameAllocator) (m : Tables E) (s : ℕ)
      → IsReady a
      → Bitmap.len a.bitmap ≤ 2 ^ 40
      → suc (tables_below m 4 s) ≤ a.usable_frames
      → suc (tables_below m 4 s) ≤ reachable a
      → Taken a 0
      → InUse (Taken a) m 4 s
      → (t : ℕ) × (a' : BitmapFrameAllocator) × (m' : Tables E) × (new_from_address s (a, m)
          ≡ done (t, (a', m')))
        × IsCopy a m s t a' m'
  unfolding new_from_address Works
  new_from_address_lem a m s ready small usable reach zero_taken source =
      let below = tables_below m 4 s in
      let (t, a1, n, sup) =
        new_lem below a (Supply-IsReady (suc below) a ready small usable reach) in
      let (a2, m2, p, c) =
        copy_lem E 3 a1 m s t 0 (n.grows 0 zero_taken) n.fresh.1
          (InUse-mono (Taken a) (Other a1 t) m 4 s (λ u q. (n.grows u q, apart a t u n.fresh.0 q))
            source)
          (subst (λ k. Supply k a1) {x = below} {y = below + 0} (omega arith) sup) in
      (
        t,
        a2,
        m2,
        rw (n.served, p) refl,
        record {
          walk = c.walk;
          kept = λ u q. c.kept u (n.grows u q, apart a t u n.fresh.0 q);
          fresh =
              InUse-mono _ (Fresh a a2) m2 4 t (λ u q. below_or_root a a1 a2 t n c.grows u q)
                c.fresh;
        },
      )
    where
      below_or_root :
          (a a1 a2 : BitmapFrameAllocator) (t : ℕ)
          → NewTable a t a1
          → Grows a1 a2
          → (u : ℕ) → (u ≡ t) ⊎ Fresh a1 a2 u
          → Fresh a a2 u
      below_or_root a a1 a2 t n g u (inl e) = subst (Fresh a a2) (sym e) (n.fresh.0, g t n.fresh.1)
      below_or_root a a1 a2 t n g u (inr (p, q)) = (free_before a a1 u n.grows p, q)
