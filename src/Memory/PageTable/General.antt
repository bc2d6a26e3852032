-- ===== src/Memory/PageTable/General.antt =====
-- src/memory/page_table.rs: mapping a page whether it is mapped already or not.
use good_os_framework.Base.{
  ℕ, ◌≡◌, refl, ap, ◌∙◌, subst, ◌⊎◌, inl, inr, true, Outcome, done, panics, ◌>>=◌, unwrap,
}
use good_os_framework.Data.Bitmap.{BitField}
use good_os_framework.Memory.Frame.{BitmapFrameAllocator}
use good_os_framework.Memory.Frame.Supply.{Supply}
use good_os_framework.Memory.Mapper.{
  Mapper, View, SameBut, MapsTo, ok, err, Mapped, frame_allocation_failed, parent_entry_huge_page,
  page_already_mapped, IsEntry,
}
use good_os_framework.Memory.Manager.{unwrap_mapped}

over_same :
    (page frame flags : ℕ) (v v1 v2 : View)
    → SameBut page v v1
    → MapsTo page frame flags v1 v2
    → MapsTo page frame flags v v2
over_same page frame flags v v1 v2 s m = record {
  here = m.here;
  small = m.small;
  others = record {
    translate = λ addr ne. m.others.translate addr ne ∙ s.translate addr ne;
    vacant = λ p ne. m.others.vacant p ne ∙ s.vacant p ne;
    small = λ p ne. m.others.small p ne ∙ s.small p ne;
  };
}

module _ ⦃B : BitField⦄ {T : Type 0} ⦃M : Mapper T⦄ where
  -- What is done with each result; the last clauses are the arms of the match.
  unfoldable pub settle : ℕ → ℕ → ℕ → ℕ → Mapped T → Outcome (T × BitmapFrameAllocator)
  settle page frame flags parent_flags (ok, t, a) = done (t, a)
  settle page frame flags parent_flags (err parent_entry_huge_page, t, a) = done (t, a)
  settle page frame flags parent_flags (err (page_already_mapped old), t, a) =
      unwrap (M.unmap t page) >>= λ (unmapped, t').
      unwrap_mapped (M.map_to_with_table_flags t' page frame flags parent_flags a)
  settle page frame flags parent_flags (err frame_allocation_failed, t, a) = panics

  unfoldable pub map_to_with_table_flags_general :
      ℕ → ℕ → ℕ → ℕ → T → BitmapFrameAllocator → Outcome (T × BitmapFrameAllocator)
  map_to_with_table_flags_general page frame flags parent_flags t a =
      settle page frame flags parent_flags
        (M.map_to_with_table_flags t page frame flags parent_flags a)

  -- A page that is vacant or mapped by an entry of its own is mapped to the frame with the flags, and no
  -- other page changes, if the allocator has three frames, the flags are those of a present page of 4 KiB
  -- and those for the tables those of a present table. The call does not panic.
  pub map_general_lem :
      (page frame flags parent_flags : ℕ) (t : T) (a : BitmapFrameAllocator)
      → IsEntry frame flags
      → IsEntry 0 parent_flags
      → ((M.view t).is_vacant page ≡ true) ⊎ ((M.view t).is_small page ≡ true)
      → Supply 3 a
      → (t' : T) × (a' : BitmapFrameAllocator) × (map_to_with_table_flags_general page frame flags
            parent_flags t a
          ≡ done (t', a'))
        × MapsTo page frame flags (M.view t) (M.view t')
  unfolding map_to_with_table_flags_general settle unwrap_mapped
  map_general_lem page frame flags parent_flags t a fit parents (inl vacant) s =
      let (t', a', n, p, le, calls, m) =
        M.map_flags_vacant t page frame flags parent_flags a fit parents vacant s in
      (t', a', rw p refl, m)
  map_general_lem page frame flags parent_flags t a fit parents (inr small) s =
      let (t1, old, p, same) =
        M.map_flags_small t page frame flags parent_flags a fit parents small in
      let (f, t2, q, vacant, others) =
        M.unmap_lem t1 page (ap (λ v. v.is_small page) same ∙ small) in
      let (t', a', n, r, le, calls, m) =
        M.map_flags_vacant t2 page frame flags parent_flags a fit parents vacant s in
      (
        t',
        a',
        rw (p, q, r) refl,
        over_same page frame flags (M.view t) (M.view t2) (M.view t')
            (subst (λ v. SameBut page v (M.view t2)) same others) m,
      )
