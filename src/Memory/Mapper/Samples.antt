-- ===== src/Memory/Mapper/Samples.antt =====
-- A mapper whose state is the mapping itself, which takes no frames for tables.
use good_os_framework.Base.{
  ℕ, ◌+◌, ◌-◌, ◌*◌, ◌/◌, ◌%◌, ◌^◌, ◌≤◌, ◌<◌, ◌≡◌, refl, ap, Bool, true, false, Option, none, some,
  Outcome, done, panics, ◌==◌, ==_refl, ==_ne, if◌then◌else◌, arith, inr, ltb, lt→ltb, replicate,
}
use good_os_framework.Data.Bitmap
use good_os_framework.Data.Bitmap.{BitField, Bitmap}
use good_os_framework.Data.Bitmap.Bits.{u8_bits}
use good_os_framework.Memory.Frame.{BitmapFrameAllocator}
use good_os_framework.Memory.Frame.Supply.{Supply, reachable, free_count, Supply-IsReady}
use good_os_framework.Data.Bitmap.Laws.{bit}
use good_os_framework.Memory.Frame.Calls.{Calls}
use good_os_framework.Memory.Mapper.{
  Mapper, View, SameBut, MapsTo, ok, err, Mapped, page_already_mapped,
}

-- The frame and the flags of each page.
pub record Maps : Type 0 where
  pub entry : ℕ → Option (ℕ × ℕ)

abbrev pub no_pages : Maps
no_pages = record { entry = λ p. none }

is_none : Option (ℕ × ℕ) → Bool
is_none none = true
is_none (some e) = false

is_some : Option (ℕ × ℕ) → Bool
is_some none = false
is_some (some e) = true

at_offset : Option (ℕ × ℕ) → ℕ → Option (ℕ × ℕ)
at_offset none o = none
at_offset (some (frame, flags)) o = some (frame + o, flags)

address_of : Option (ℕ × ℕ) → Option ℕ
address_of none = none
address_of (some (x, flags)) = some x

view_of : Maps → View
view_of t = record {
  translate = λ addr. at_offset (t.entry (addr / 4096)) (addr % 4096);
  is_vacant = λ p. is_none (t.entry p);
  is_small = λ p. is_some (t.entry p);
}

put_page : Maps → ℕ → Option (ℕ × ℕ) → Maps
put_page t page e = record { entry = λ p. if p == page then e else t.entry p }

map_page : Maps → ℕ → ℕ → ℕ → Option (ℕ × ℕ) → BitmapFrameAllocator → Mapped Maps
map_page t page frame flags none a = (ok, put_page t page (some (frame, flags)), a)
map_page t page frame flags (some old) a = (err (page_already_mapped old.0), t, a)

unmap_page : Maps → ℕ → Option (ℕ × ℕ) → Option (ℕ × Maps)
unmap_page t page none = none
unmap_page t page (some old) = some (old.0, put_page t page none)

checked : ℕ → Outcome ℕ
checked a = if ltb a (2 ^ 47) then done a else panics

put_page-SameBut :
    (t : Maps) (page : ℕ) (e : Option (ℕ × ℕ))
    → SameBut page (view_of t) (view_of (put_page t page e))
unfolding view_of put_page
put_page-SameBut t page e = record {
  translate = λ addr ne. rw (==_ne (addr / 4096) page ne) refl;
  vacant = λ p ne. rw (==_ne p page ne) refl;
  small = λ p ne. rw (==_ne p page ne) refl;
}

put_page-MapsTo :
    (t : Maps) (page frame flags : ℕ)
    → MapsTo page frame flags (view_of t) (view_of (put_page t page (some (frame, flags))))
unfolding view_of put_page is_some at_offset
put_page-MapsTo t page frame flags = record {
  here = λ o lt.
      let d : ((page * 4096 + o) / 4096 ≡ page) = omega arith in
      let r : ((page * 4096 + o) % 4096 ≡ o) = omega arith in rw (d, r, ==_refl page) refl;
  small = rw (==_refl page) refl;
  others = put_page-SameBut t page (some (frame, flags));
}

map_vacant_lem :
    (t : Maps) (page frame flags : ℕ) (a : BitmapFrameAllocator) (e : Option (ℕ × ℕ))
    → is_none e ≡ true
    → (t' : Maps) × (a' : BitmapFrameAllocator) × (n : ℕ) × (map_page t page frame flags e a
        ≡ (ok, t', a'))
      × (n ≤ 3)
      × Calls n a a'
      × MapsTo page frame flags (view_of t) (view_of t')
unfolding map_page is_none Calls
map_vacant_lem t page frame flags a none h = (
  put_page t page (some (frame, flags)),
  a,
  0,
  refl,
  omega arith,
  refl,
  put_page-MapsTo t page frame flags,
)
map_vacant_lem t page frame flags a (some e) h = cc

map_small_lem :
    (t : Maps) (page frame flags : ℕ) (a : BitmapFrameAllocator) (e : Option (ℕ × ℕ))
    → is_some e ≡ true
    → (old : ℕ) × (map_page t page frame flags e a ≡ (err (page_already_mapped old), t, a))
unfolding map_page is_some
map_small_lem t page frame flags a none h = cc
map_small_lem t page frame flags a (some e) h = (e.0, refl)

unmap_small_lem :
    (t : Maps) (page : ℕ) (e : Option (ℕ × ℕ))
    → is_some e ≡ true
    → (frame : ℕ) × (t' : Maps) × (unmap_page t page e ≡ some (frame, t'))
      × ((view_of t').is_vacant page ≡ true)
      × SameBut page (view_of t) (view_of t')
unfolding unmap_page is_some view_of put_page is_none
unmap_small_lem t page none h = cc
unmap_small_lem t page (some e) h =
    (e.0, put_page t page none, refl, rw (==_refl page) refl, put_page-SameBut t page none)

address_some : (e : Option (ℕ × ℕ)) (x flags : ℕ) → e ≡ some (x, flags) → address_of e ≡ some x
unfolding address_of
address_some none x flags h = cc
address_some (some e) x flags h = cc

address_none : (e : Option (ℕ × ℕ)) → e ≡ none → address_of e ≡ none
unfolding address_of
address_none none h = refl
address_none (some e) h = cc

checked_lem : (a : ℕ) → a < 2 ^ 47 → checked a ≡ done a
unfolding checked
checked_lem a lt = rw (lt→ltb a (2 ^ 47) lt) refl

instance pub maps : Mapper Maps
unfolding view_of
maps = record {
  view = view_of;
  map_to = λ t page frame flags a. map_page t page frame flags (t.entry page) a;
  map_to_with_table_flags =
      λ t page frame flags parent a. map_page t page frame flags (t.entry page) a;
  unmap = λ t page. unmap_page t page (t.entry page);
  translate_addr = λ t addr. address_of ((view_of t).translate addr);
  virt = checked;
  add = λ a b. checked (a + b);
  sub = λ a b. checked (a - b);
  map_vacant = λ t page frame flags a fit h s. map_vacant_lem t page frame flags a (t.entry page) h;
  map_flags_vacant = λ t page frame flags parent a fit fit' h s.
      map_vacant_lem t page frame flags a (t.entry page) h;
  map_small = λ t page frame flags a fit h.
      let (old, p) = map_small_lem t page frame flags a (t.entry page) h in (t, old, p, refl);
  map_flags_small = λ t page frame flags parent a fit fit' h.
      let (old, p) = map_small_lem t page frame flags a (t.entry page) h in (t, old, p, refl);
  unmap_lem = λ t page h. unmap_small_lem t page (t.entry page) h;
  translate_some = λ t addr x flags h. address_some ((view_of t).translate addr) x flags h;
  translate_none = λ t addr h. address_none ((view_of t).translate addr) h;
  virt_lem = checked_lem;
  add_lem = λ a b lt. checked_lem (a + b) lt;
  sub_lem = λ a b lt le. checked_lem (a - b) (omega arith);
}

pub nothing_mapped : (p : ℕ) → (maps.view no_pages).is_vacant p ≡ true
unfolding maps view_of is_none
nothing_mapped p = refl

-- Every page is mapped to the frame of its own number.
abbrev pub identity : Maps
identity = record { entry = λ p. some (p * 4096, 7) }

pub identity_lem : (addr : ℕ) → maps.translate_addr identity addr ≡ some addr
unfolding maps view_of at_offset address_of
identity_lem addr = ap some {x = addr / 4096 * 4096 + addr % 4096} {y = addr} (omega arith)

pub identity_flags : (addr : ℕ) → (x : ℕ) × ((maps.view identity).translate addr ≡ some (x, 7))
unfolding maps view_of at_offset
identity_flags addr = (_, refl)

pub identity_small : (p : ℕ) → (maps.view identity).is_small p ≡ true
unfolding maps view_of is_some
identity_small p = refl

-- An allocator in which all frames are free.
abbrev pub plenty : BitmapFrameAllocator
plenty = record {
  bitmap = record { inner = replicate 136 255 };
  usable_frames = 136;
  next_frame = 0;
}

plenty-reachable : reachable plenty ≡ 136
unfolding Bitmap.len bit free_count
plenty-reachable = refl

pub plenty-Supply : (k : ℕ) → k ≤ 136 → Supply k plenty
unfolding Bitmap.len bit
plenty-Supply k le =
    Supply-IsReady k plenty (inr (omega arith, refl)) (omega arith) (omega arith)
      (omega (arith, plenty-reachable))
