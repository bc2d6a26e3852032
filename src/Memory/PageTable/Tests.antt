-- ===== src/Memory/PageTable/Tests.antt =====
-- A tree of three tables, in an allocator with three free frames.
use good_os_framework.Base.{
  ℕ, zero, suc, ◌+◌, ◌/◌, ◌%◌, ◌≤◌, ◌<◌, ◌≡◌, refl, true, false, ◌&&◌, [], ◌∷◌, inr, ap, ◌==◌,
  ==_ne, ◌≢◌, ℕ_discrete, if◌then◌else◌, done, some, arith,
}
use good_os_framework.Data.Bitmap
use good_os_framework.Data.Bitmap.Bits.{u8_bits}
use good_os_framework.Data.Bitmap.Laws.{bit}
use good_os_framework.Memory.Frame.{BitmapFrameAllocator}
use good_os_framework.Memory.Frame.Supply.{reachable, free_count}
use good_os_framework.Memory.PageTable.{Paging, Tables, entry_count, is_leaf, new_from_address}
use good_os_framework.Memory.Mapper.{MapsTo, user-IsEntry}
use good_os_framework.Memory.Mapper.Samples.{
  Maps, maps, identity, identity_lem, identity_small, plenty, plenty-Supply,
}
use good_os_framework.Memory.PageTable.General.{map_to_with_table_flags_general, map_general_lem}
use good_os_framework.Memory.PageTable.Access.{Bytes, read, write, read-write}
use good_os_framework.Memory.PageTable.Fresh.{Taken}
use good_os_framework.Memory.PageTable.Walk.{tables_below, InUse, sum_from}
use good_os_framework.Memory.PageTable.Duplicate.{IsCopy, new_from_address_lem}

-- An entry as its address and its flags.
instance entries : Paging (ℕ × ℕ)
entries = record {
  addr = λ e. e.0;
  flags = λ e. e.1;
  is_unused = λ e. (e.0 == 0) && (e.1 == 0);
  is_huge = λ f. (f / 128) % 2 == 1;
  set_addr = λ a f. (a, f);
  addr-set_addr = λ a f p q. refl;
  flags-set_addr = λ a f p q. refl;
  set_addr_self = λ e. refl;
  is_unused_lem = λ e. refl;
}

-- The first entry of the table at 4096 leads to the table at 8192; all others are the same huge page.
abbrev memory : Tables (ℕ × ℕ)
memory t i = if (t == 4096) && (i == 0) then (8192, 3) else (2097152, 131)

abbrev three_frames : BitmapFrameAllocator
three_frames = record {
  bitmap = record { inner = 0b111000 ∷ 0 ∷ 0 ∷ 0 ∷ 0 ∷ 0 ∷ [] };
  usable_frames = 3;
  next_frame = 3;
}

sum_zero : (f : ℕ → ℕ) (n i : ℕ) → ((j : ℕ) → i ≤ j → f j ≡ 0) → sum_from f n i ≡ 0
unfolding sum_from
sum_zero f zero i h = refl
sum_zero f (suc n) i h =
    omega (arith, h i (omega arith), sum_zero f n (i + 1) (λ j lo. h j (omega arith)))

sum_first : (f : ℕ → ℕ) (n c : ℕ) → f 0 ≡ c → ((j : ℕ) → 1 ≤ j → f j ≡ 0) → sum_from f (suc n) 0 ≡ c
unfolding sum_from
sum_first f n c first h = omega (arith, first, sum_zero f n 1 h)

one_below : tables_below memory 4 4096 ≡ 1
unfolding tables_below is_leaf entries
one_below =
    sum_first _ 511 1 (ap suc (sum_zero _ entry_count 0 (λ j lo. refl)))
      (λ j lo. rw (==_ne j 0 (λ e. omega arith)) refl)

in_use : InUse (Taken three_frames) memory 4 4096
unfolding InUse is_leaf bit entries
in_use = (
  refl,
  (λ i lt nl. elim (ℕ_discrete i 0) [
    | yes e ↦ rw e (refl, (λ j lt nl. absurd cc))
    | no ne ↦ absurd (true_false (rw (==_ne i 0 ne) at nl))
  ]),
)
  where
    true_false : true ≢ false
    true_false h = cc

three_reachable : reachable three_frames ≡ 3
unfolding Bitmap.len bit free_count
three_reachable = refl

new_from_address_lem_example :
    (t : ℕ) × (a' : BitmapFrameAllocator) × (m' : Tables (ℕ × ℕ)) × (new_from_address 4096
        (three_frames, memory)
      ≡ done (t, (a', m')))
    × IsCopy three_frames memory 4096 t a' m'
unfolding Bitmap.len bit free_count
new_from_address_lem_example =
    new_from_address_lem three_frames memory 4096 (inr (omega arith, refl)) (omega arith)
      (omega (arith, one_below)) (omega (arith, one_below, three_reachable)) refl in_use

-- Every page is mapped already.
map_general_lem_example :
    (t' : Maps) × (a' : BitmapFrameAllocator) × (map_to_with_table_flags_general 5 4096 7 7 identity
        plenty
      ≡ done (t', a'))
    × MapsTo 5 4096 7 (maps.view identity) (maps.view t')
map_general_lem_example =
    map_general_lem 5 4096 7 7 identity plenty (user-IsEntry 4096 refl (omega arith))
      (user-IsEntry 0 refl (omega arith)) (inr (identity_small 5)) (plenty-Supply 3 (omega arith))

abbrev blank : Bytes
blank x = 0

read-write_example :
    (m' : Bytes) × (write (7 ∷ 8 ∷ []) 4095 identity blank ≡ done (some tt, m'))
    × (read 4095 2 identity m' (1 ∷ 1 ∷ []) ≡ done (some tt, 7 ∷ 8 ∷ []))
    × ((x : ℕ) → ((i : ℕ) → i < 2 → x ≢ 4095 + i) → m' x ≡ blank x)
read-write_example =
    read-write (7 ∷ 8 ∷ []) (1 ∷ 1 ∷ []) 4095 identity blank (λ i. 4095 + i)
      (record { low = omega arith; translated = λ i lt. identity_lem (4095 + i) })
      (λ i j lt lt' ne e. omega (arith, ne, e)) refl
