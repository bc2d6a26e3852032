-- ===== src/Drivers/Pci/Restore.antt =====
-- The sizing of the registers leaves them as they were.
use good_os_framework.Base.{
  ℕ, zero, suc, ◌+◌, ◌*◌, ◌≡◌, refl, ◌∙◌, Bool, true, false, List, ◌++◌, ◌==◌, if◌then◌else◌, [],
}
use good_os_framework.Drivers.Pci.{BusDeviceFunction, Result, ok, err, Hardware, config_address}
use good_os_framework.Drivers.Pci.Bar.{
  BarInfo, PciStandardDeviceBar, default_bars, set_bar, bar_size, bar_pages, probe, bar_loop,
  pci_bar_init,
}

module _ {S : Type 0} (hw : Hardware S) (offset : ℕ) (b : BusDeviceFunction)
    (restores : (s : S) (a x : ℕ) → hw.write (hw.write s a x) a (hw.read s a) ≡ s) where
  abbrev Outcomes : Type 0
  Outcomes = Result PciStandardDeviceBar × S × List (ℕ × ℕ)

  probe_lem : (s : S) (i : ℕ) → (probe hw offset b s i).2 ≡ s
  unfolding probe
  probe_lem s i = restores s (config_address b (0x10 + 4 * i)) 0xffffffff

  if_state : (t : S) (c : Bool) (x y : Outcomes) → x.1 ≡ t → y.1 ≡ t → (if c then x else y).1 ≡ t
  if_state t true x y p q = p
  if_state t false x y p q = q

  -- What the loop does with the region that it has read.
  abbrev settle : S → List (ℕ × ℕ) → (BarInfo → ℕ → Outcomes) → Result (BarInfo × ℕ) → Outcomes
  settle s maps f r = elim r [ err e ↦ (err e, s, maps) | ok (info, ign) ↦ f info ign ]

  result_state :
      (t s : S) (maps : List (ℕ × ℕ)) (r : Result (BarInfo × ℕ)) (f : BarInfo → ℕ → Outcomes)
      → s ≡ t
      → ((info : BarInfo) (ign : ℕ) → (f info ign).1 ≡ t)
      → (settle s maps f r).1 ≡ t
  result_state t s maps (ok (info, ign)) f p q = q info ign
  result_state t s maps (err e) f p q = p

  loop_restores :
      (n i ignore : ℕ) (bars : PciStandardDeviceBar) (s : S) (maps : List (ℕ × ℕ))
      → (bar_loop hw offset b n i ignore bars s maps).1 ≡ s
  unfolding bar_loop
  loop_restores zero i ignore bars s maps = refl
  loop_restores (suc n) i ignore bars s maps =
      let s' = (probe hw offset b s i).2 in
      if_state s (i == ignore) _ _ (loop_restores n (i + 1) ignore bars s maps) (
        if_state s (bar_size (probe hw offset b s i).1 == 0) _ _
          (loop_restores n (i + 1) ignore bars s' maps ∙ probe_lem s i)
          (result_state s s' maps _ _ (probe_lem s i) (λ info ign.
            loop_restores n (i + 1) ign (set_bar bars i info) s' (maps ++ bar_pages info)
            ∙ probe_lem s i)))

  -- If writing back what was read undoes a write, then reading the base address registers leaves the
  -- device as it was, on success and on every error.
  pub pci_bar_init_restores : (s : S) → (pci_bar_init hw offset b s).1 ≡ s
  unfolding pci_bar_init
  pci_bar_init_restores s = loop_restores 6 0 255 default_bars s []
