-- ===== src/Memory/Manager/Backed.antt =====
-- A range of pages that are backed, each by a frame of its own.
use good_os_framework.Base.{
  ℕ, suc, ◌+◌, ◌-◌, ◌*◌, ◌/◌, ◌^◌, ◌≤◌, ◌<◌, ◌≡◌, ◌≢◌, refl, sym, ap, ◌∙◌, ◌⊎◌, inl, true, false,
  some, arith, ℕ_discrete, ◌==◌, ==_refl, ==_ne, if◌then◌else◌,
}
use good_os_framework.Data.Bitmap.{BitField}
use good_os_framework.Data.Bitmap.Laws.{bit}
use good_os_framework.Memory.Frame.{BitmapFrameAllocator, frame_address}
use good_os_framework.Memory.Frame.Supply.{Given}
use good_os_framework.Memory.Frame.Calls.{Keeps, Given-Keeps, Keeps-free}
use good_os_framework.Memory.Mapper.{View, MapsTo}

abbrev pub Within : ℕ → ℕ → ℕ → Type 0
Within first n p = (first ≤ p) × (p < first + n)

-- The number of pages of a range.
abbrev pub page_count : ℕ → ℕ → ℕ
page_count start length = (start + length - 1) / 4096 + 1 - start / 4096

-- The `n` pages from `first` on are vacant.
abbrev pub AllVacant : View → ℕ → ℕ → Type 0
AllVacant v first n = (p : ℕ) → Within first n p → v.is_vacant p ≡ true

module _ ⦃B : BitField⦄ where
  -- The `n` pages from `first` on are backed, each by the frame that `frames` says.
  pub record Backed (first n flags : ℕ) (frames : ℕ → ℕ) (a : BitmapFrameAllocator) (v : View)
      (a' : BitmapFrameAllocator) (v' : View) : Type 0 where
    pub mapped :
        (p : ℕ)
        → Within first n p
        → (o : ℕ) → o < 4096
        → v'.translate (p * 4096 + o) ≡ some (frame_address (frames p) + o, flags)
    pub small : (p : ℕ) → Within first n p → frames p < 2 ^ 40
    pub was_free : (p : ℕ) → Within first n p → bit a.bitmap (frames p) ≡ true
    pub taken : (p : ℕ) → Within first n p → bit a'.bitmap (frames p) ≡ false
    pub apart : (p q : ℕ) → Within first n p → Within first n q → p ≢ q → frames p ≢ frames q
    pub others :
        (addr : ℕ)
        → (addr / 4096 < first) ⊎ (first + n ≤ addr / 4096)
        → v'.translate addr ≡ v.translate addr
    pub vacant : (p : ℕ) → (p < first) ⊎ (first + n ≤ p) → v'.is_vacant p ≡ v.is_vacant p
    pub keeps : Keeps a a'

  pub Backed-zero :
      (first flags : ℕ) (a : BitmapFrameAllocator) (v : View)
      → Backed first 0 flags (λ p. p) a v a v
  Backed-zero first flags a v = record {
    mapped = λ p w o lt. absurd (omega arith);
    small = λ p w. absurd (omega arith);
    was_free = λ p w. absurd (omega arith);
    taken = λ p w. absurd (omega arith);
    apart = λ p q w w' ne. absurd (omega arith);
    others = λ addr out. refl;
    vacant = λ p out. refl;
    keeps = λ i u. u;
  }

  -- The frame of the first page before those of the others.
  abbrev pub first_then : ℕ → ℕ → (ℕ → ℕ) → ℕ → ℕ
  first_then first f frames p = if p == first then f else frames p

  pub Backed-suc :
      (first n flags f : ℕ) (frames : ℕ → ℕ) (a a1 a2 a' : BitmapFrameAllocator) (v v1 v' : View)
      → Given a f a1
      → Keeps a1 a2
      → MapsTo first (frame_address f) flags v v1
      → Backed (first + 1) n flags frames a2 v1 a' v'
      → Backed first (suc n) flags (first_then first f frames) a v a' v'
  Backed-suc first n flags f frames a a1 a2 a' v v1 v' g k m b =
      let fs = first_then first f frames in
      let at : (fs first ≡ f) = rw (==_refl first) refl in
      let after : ((p : ℕ) → p ≢ first → fs p ≡ frames p) = λ p ne. rw (==_ne p first ne) refl in
      let k2 : Keeps a a2 = λ i u. k i (Given-Keeps a f a1 g i u) in
      let new : ((p : ℕ) → p ≢ first → Within first (suc n) p → f ≢ frames p) = λ p ne w e.
        false_true
          (sym (k f g.taken) ∙ ap (bit a2.bitmap) e ∙ b.was_free p (omega arith, omega arith)) in
      record {
        mapped = λ p w o lt. elim (ℕ_discrete p first) [
          | yes e ↦ rw e (rw at (b.others (first * 4096 + o) (inl (omega arith)) ∙ m.here o lt))
          | no ne ↦ rw (after p ne) (b.mapped p (omega arith, omega arith) o lt)
        ];
        small = λ p w. elim (ℕ_discrete p first) [
          | yes e ↦ rw e (rw at g.small)
          | no ne ↦ rw (after p ne) (b.small p (omega arith, omega arith))
        ];
        was_free = λ p w. elim (ℕ_discrete p first) [
          | yes e ↦ rw e (rw at g.was_free)
          | no ne ↦
              rw (after p ne)
                (Keeps-free a a2 (frames p) k2 (b.was_free p (omega arith, omega arith)))
        ];
        taken = λ p w. elim (ℕ_discrete p first) [
          | yes e ↦ rw e (rw at (b.keeps f (k f g.taken)))
          | no ne ↦ rw (after p ne) (b.taken p (omega arith, omega arith))
        ];
        apart = λ p q w w' ne. elim (ℕ_discrete p first) [
          | yes e ↦ λ same.
              new q (λ e'. ne (e ∙ sym e')) w'
                (sym at ∙ ap fs (sym e) ∙ same ∙ after q (λ e'. ne (e ∙ sym e')))
          | no np ↦ elim (ℕ_discrete q first) [
            | yes e' ↦ λ same. new p np w (sym at ∙ ap fs (sym e') ∙ sym same ∙ after p np)
            | no nq ↦ λ same.
                b.apart p q (omega arith, omega arith) (omega arith, omega arith) ne
                  (sym (after p np) ∙ same ∙ after q nq)
          ]
        ];
        others =
            λ addr out. b.others addr (omega arith) ∙ m.others.translate addr (λ e. omega arith);
        vacant = λ p out. b.vacant p (omega arith) ∙ m.others.vacant p (λ e. omega arith);
        keeps = λ i u. b.keeps i (k2 i u);
      }
    where
      false_true : false ≢ true
      false_true h = cc
