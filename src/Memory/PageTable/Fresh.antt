-- ===== src/Memory/PageTable/Fresh.antt =====
-- New tables: the frames of a copy were free before, and all that was in use stays so.
use good_os_framework.Base.{
  ℕ, suc, ◌/◌, ◌%◌, ◌^◌, ◌<◌, ◌≡◌, ◌≢◌, refl, ◌∙◌, subst, inl, inr, Bool, true, false, ◌||◌,
  Bool-cases, ◌==◌, ==_refl, ==_ne, done, arith, ℕ_discrete,
}
use good_os_framework.Data.Bitmap.{BitField}
use good_os_framework.Data.Bitmap.Laws.{bit}
use good_os_framework.Memory.Frame.{BitmapFrameAllocator, frame_address}
use good_os_framework.Memory.Frame.Supply.{Supply}
use good_os_framework.Memory.PageTable.{Paging, Tables, put, is_leaf, new}

module _ ⦃B : BitField⦄ where
  -- The frame of a table is in use.
  abbrev pub Taken : BitmapFrameAllocator → ℕ → Type 0
  Taken a t = bit a.bitmap (t / 4096) ≡ false

  -- In use, and another table than `target`.
  abbrev pub Other : BitmapFrameAllocator → ℕ → ℕ → Type 0
  Other a target t = Taken a t × (t ≢ target)

  -- Free before, in use after.
  abbrev pub Fresh : BitmapFrameAllocator → BitmapFrameAllocator → ℕ → Type 0
  Fresh a a' t = (bit a.bitmap (t / 4096) ≡ true) × Taken a' t

  -- What is in use stays in use.
  abbrev pub Grows : BitmapFrameAllocator → BitmapFrameAllocator → Type 0
  Grows a a' = (t : ℕ) → Taken a t → Taken a' t

  pub both : {b : Bool} → b ≡ true → b ≡ false → ⊥
  both p q = cc

  pub apart :
      (a : BitmapFrameAllocator) (t u : ℕ) → bit a.bitmap (t / 4096) ≡ true → Taken a u → u ≢ t
  apart a t u p q e = both p (subst (Taken a) e q)

  pub free_before :
      (a a' : BitmapFrameAllocator) (t : ℕ)
      → Grows a a'
      → bit a'.bitmap (t / 4096) ≡ true
      → bit a.bitmap (t / 4096) ≡ true
  free_before a a' t g p = elim (Bool-cases (bit a.bitmap (t / 4096))) [
    | inl e ↦ e
    | inr e ↦ absurd (both p (g t e))
  ]

  -- A new table lies in a frame that was free, at an address that is not 0 if the frame 0 is in use.
  pub record NewTable (a : BitmapFrameAllocator) (table : ℕ) (a' : BitmapFrameAllocator)
      : Type 0 where
    pub served : new a ≡ done (table, a')
    pub aligned : table % 4096 ≡ 0
    pub small : table < 2 ^ 52
    pub fresh : Fresh a a' table
    pub grows : Grows a a'

  pub new_lem :
      (k : ℕ) (a : BitmapFrameAllocator)
      → Supply (suc k) a
      → (table : ℕ) × (a' : BitmapFrameAllocator) × NewTable a table a' × Supply k a'
  unfolding new Supply
  new_lem k a (n, a', g, rest) =
      let at : (frame_address n / 4096 ≡ n) = omega (arith, g.small) in
      (
        frame_address n,
        a',
        record {
          served = rw g.served refl;
          aligned = omega arith;
          small = omega (arith, g.small);
          fresh = (rw at g.was_free, rw at g.taken);
          grows = λ t u. elim (ℕ_discrete (t / 4096) n) [
            | yes e ↦ rw e g.taken
            | no ne ↦ g.others (t / 4096) ne ∙ u
          ];
        },
        rest,
      )

module _ {E : Type 0} where
  pub put_self : (m : Tables E) (t i : ℕ) (e : E) → put m t i e t i ≡ e
  put_self m t i e = rw (==_refl t, ==_refl i) refl

  pub put_index : (m : Tables E) (t i j : ℕ) (e : E) → j ≢ i → put m t i e t j ≡ m t j
  put_index m t i j e ne = rw (==_refl t, ==_ne j i ne) refl

  pub put_table : (m : Tables E) (t u i j : ℕ) (e : E) → u ≢ t → put m t i e u j ≡ m u j
  put_table m t u i j e ne = rw (==_ne u t ne) refl

module _ {E : Type 0} ⦃P : Paging E⦄ where
  -- The entry of a new table is no leaf, where the entry it is made from was none.
  pub nonleaf-set_addr :
      (level table : ℕ) (e : E)
      → table % 4096 ≡ 0
      → table < 2 ^ 52
      → table ≢ 0
      → is_leaf level e ≡ false
      → is_leaf level (P.set_addr table (P.flags e)) ≡ false
  unfolding is_leaf
  nonleaf-set_addr level table e al sm ne h =
      rw
        (
          P.flags-set_addr table (P.flags e) al sm,
          P.is_unused_lem (P.set_addr table (P.flags e)),
          P.addr-set_addr table (P.flags e) al sm,
          ==_ne table 0 ne,
        )
        (drop_middle (level == 1) (P.is_unused e) (P.is_huge (P.flags e)) h)
    where
      drop_middle : (x y z : Bool) → ((x || y) || z) ≡ false → ((x || false) || z) ≡ false
      drop_middle x y z h = ground arith
