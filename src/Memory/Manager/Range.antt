-- ===== src/Memory/Manager/Range.antt =====
-- A range is backed, page by page, by frames that were free and that no two pages share.
use good_os_framework.Base.{
  ℕ, zero, suc, ◌+◌, ◌-◌, ◌*◌, ◌/◌, ◌%◌, ◌^◌, ◌≤◌, ◌<◌, ◌≡◌, refl, ap, ◌∙◌, subst, true, some, done,
  arith,
}
use good_os_framework.Data.Bitmap.{BitField}
use good_os_framework.Memory.Frame.{BitmapFrameAllocator, frame_address, allocate_frame}
use good_os_framework.Memory.Frame.Supply.{Supply}
use good_os_framework.Memory.Frame.Calls.{Supply-mono, Supply-Calls}
use good_os_framework.Memory.Mapper.{
  Mapper, ok, err, Mapped, MapToError, page_already_mapped, IsEntry, IsEntry-at,
}
use good_os_framework.Memory.Manager.{
  on_ok, map_frame_to_page, alloc_pages, alloc_range, unwrap_mapped, new_user_stack, user_stack_end,
  user_stack_size, stack_flags,
}
use good_os_framework.Memory.Manager.Backed.{
  page_count, AllVacant, Backed, Backed-zero, first_then, Backed-suc,
}

module _ ⦃B : BitField⦄ {T : Type 0} ⦃M : Mapper T⦄ where
  one_page :
      (n first flags frame : ℕ) (t t1 : T) (a a1 a2 : BitmapFrameAllocator) (r : Mapped T)
      → allocate_frame a ≡ done (some frame, a1)
      → M.map_to t first frame flags a1 ≡ (ok, t1, a2)
      → alloc_pages n (first + 1) flags t1 a2 ≡ done r
      → alloc_pages (suc n) first flags t a ≡ done r
  unfolding alloc_pages map_frame_to_page on_ok
  one_page n first flags frame t t1 a a1 a2 r served mapped rest = rw (served, mapped) rest

  pub alloc_pages_lem :
      (n first flags k : ℕ) (t : T) (a : BitmapFrameAllocator)
      → IsEntry 0 flags
      → AllVacant (M.view t) first n
      → Supply (4 * n + k) a
      → (t' : T) × (a' : BitmapFrameAllocator) × (frames : ℕ → ℕ) × (alloc_pages n first flags t a
          ≡ done (ok, t', a'))
        × Backed first n flags frames a (M.view t) a' (M.view t')
        × Supply k a'
  unfolding alloc_pages map_frame_to_page Supply on_ok
  alloc_pages_lem zero first flags k t a fit vacant s = (
    t,
    a,
    (λ p. p),
    refl,
    Backed-zero first flags a (M.view t),
    subst (λ j. Supply j a) {x = 4 * 0 + k} {y = k} (omega arith) s,
  )
  alloc_pages_lem (suc n) first flags k t a fit vacant s =
      let (f, a1, g, s1) =
        subst (λ j. Supply j a) {x = 4 * suc n + k} {y = suc (3 + (4 * n + k))} (omega arith) s in
      let (t1, a2, used, p, le, calls, m) =
        M.map_vacant t first (frame_address f) flags a1 (IsEntry-at f flags fit g.small)
          (vacant first (omega arith, omega arith))
          (Supply-mono 3 (3 + (4 * n + k)) a1 (omega arith) s1) in
      let (s2, kept) =
        Supply-Calls used (4 * n + k) a1 a2 calls
          (Supply-mono (used + (4 * n + k)) (3 + (4 * n + k)) a1 (omega arith) s1) in
      let (t', a', frames, q, b, left) =
        alloc_pages_lem n (first + 1) flags k t1 a2 fit
          (λ p' w. m.others.vacant p' (omega arith) ∙ vacant p' (omega arith, omega arith)) s2 in
      (
        t',
        a',
        first_then first f frames,
        one_page n first flags (frame_address f) t t1 a a1 a2 (ok, t', a') g.served p q,
        Backed-suc first n flags f frames a a1 a2 a' _ _ _ g kept m b,
        left,
      )

  -- The first page of a range is mapped already.
  pub alloc_range_mapped :
      (start length flags : ℕ) (t : T) (a : BitmapFrameAllocator)
      → IsEntry 0 flags
      → 1 ≤ length
      → start + length < 2 ^ 47
      → (M.view t).is_small (start / 4096) ≡ true
      → Supply 1 a
      → (e : MapToError) × (t' : T) × (a' : BitmapFrameAllocator) × (alloc_range start length flags
            t a
          ≡ done (err e, t', a'))
  unfolding alloc_range alloc_pages map_frame_to_page Supply on_ok
  alloc_range_mapped start length flags t a fit some_bytes low small (f, a1, g, rest) =
      let (t', old, p, same) =
        M.map_small t (start / 4096) (frame_address f) flags a1 (IsEntry-at f flags fit g.small)
          small in
      let later = page_count start length - 1 in
      let count : (page_count start length ≡ suc later) = omega arith in
      (
        page_already_mapped old,
        t',
        a1,
        rw
            (
              M.add_lem start length low,
              M.sub_lem (start + length) 1 low (omega arith),
              count,
              g.served,
              p,
            )
            refl,
      )

  -- A range of addresses in the lower half is backed, if it is not empty, its pages are vacant, the
  -- allocator has four frames for each page and the flags are those of a present page of 4 KiB: the call succeeds, each address of the range is
  -- translated with the flags asked for, each page has a frame of its own that was free before, and
  -- no other address is translated in another way than before. At most four frames a page are used.
  pub alloc_range_lem :
      (start length flags k : ℕ) (t : T) (a : BitmapFrameAllocator)
      → IsEntry 0 flags
      → 1 ≤ length
      → start + length < 2 ^ 47
      → AllVacant (M.view t) (start / 4096) (page_count start length)
      → Supply (4 * page_count start length + k) a
      → (t' : T) × (a' : BitmapFrameAllocator) × (frames : ℕ → ℕ) × (alloc_range start length flags
            t a
          ≡ done (ok, t', a'))
        × ((addr : ℕ)
            → start ≤ addr
            → addr < start + length
            → (M.view t').translate addr
              ≡ some (frame_address (frames (addr / 4096)) + addr % 4096, flags))
        × Backed (start / 4096) (page_count start length) flags frames a (M.view t) a' (M.view t')
        × Supply k a'
  unfolding alloc_range
  alloc_range_lem start length flags k t a fit some_bytes low vacant s =
      let (t', a', frames, p, b, left) =
        alloc_pages_lem (page_count start length) (start / 4096) flags k t a fit vacant s in
      (
        t',
        a',
        frames,
        rw (M.add_lem start length low, M.sub_lem (start + length) 1 low (omega arith)) p,
        (λ addr lo hi.
            ap (M.view t').translate {x = addr} {y = addr / 4096 * 4096 + addr % 4096} (omega arith)
            ∙ b.mapped (addr / 4096) (omega arith, omega arith) (addr % 4096) (omega arith)),
        b,
        left,
      )

  -- A new user stack has 16 pages below its end, all backed by frames of their own, if these
  -- pages are vacant and the allocator has 64 frames.
  pub new_user_stack_lem :
      (t : T) (a : BitmapFrameAllocator)
      → AllVacant (M.view t) (user_stack_end / 4096 - 16) 16
      → Supply 64 a
      → (t' : T) × (a' : BitmapFrameAllocator) × (frames : ℕ → ℕ) × (new_user_stack t a
          ≡ done (
            record {
              start_address = user_stack_end - user_stack_size;
              end_address = user_stack_end;
            },
            t',
            a',
          ))
        × Backed (user_stack_end / 4096 - 16) 16 stack_flags frames a (M.view t) a' (M.view t')
  unfolding new_user_stack unwrap_mapped
  new_user_stack_lem t a vacant s =
      let (t', a', frames, p, bytes, b, left) =
        alloc_range_lem (user_stack_end - user_stack_size) user_stack_size stack_flags 0 t a
          (record {
            present = omega arith;
            not_huge = omega arith;
            no_address = omega arith;
            aligned = omega arith;
            low = omega arith;
          })
          (omega arith) (omega arith) vacant s in
      (
        t',
        a',
        frames,
        rw (M.sub_lem user_stack_end user_stack_size (omega arith) (omega arith), p) refl,
        b,
      )
