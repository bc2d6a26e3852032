-- ===== src/Drivers/Mouse/Packets.antt =====
-- A movement arrives in three or four packets.
use good_os_framework.Base.{
  ℕ, zero, suc, ◌/◌, ◌^◌, ◌%◌, ◌≤◌, ◌<◌, ◌≡◌, ◌≢◌, refl, ap, ◌∙◌, ◌⊎◌, inl, inr, Bool, true, false,
  none, some, List, [], ◌∷◌, ◌++◌, Outcome, done, ◌>>=◌, arith,
}
use good_os_framework.Drivers.Mouse.Deltas.{Delivers, movement_lem, additional_lem}
use good_os_framework.Drivers.Mouse.{
  Mouse, MouseState, MouseType, standard, only_scroll, five_button, always_one, x_sign, y_sign,
  x_overflow, y_overflow, contains, packet_count, movement, additional, absorb, finish,
  process_packet,
}

-- The index is that of one of the packets of the mouse's type.
abbrev pub IsValid : Mouse → Type 0
IsValid m = m.current_packet_index < packet_count m.mouse_type

packet_count_bounds : (t : MouseType) → (3 ≤ packet_count t) × (packet_count t ≤ 4)
packet_count_bounds standard = (omega arith, omega arith)
packet_count_bounds only_scroll = (omega arith, omega arith)
packet_count_bounds five_button = (omega arith, omega arith)

absorb_total :
    (i : ℕ) (s : MouseState) (packet : ℕ)
    → i < 4
    → (absorb i s packet ≡ done none) ⊎ ((s' : MouseState) × (absorb i s packet ≡ done (some s')))
unfolding absorb
absorb_total zero s packet h = elim (Bool-split (contains packet always_one)) [
  | inl p ↦ inr (record s { flags = packet }, rw p refl)
  | inr p ↦ inl (rw p refl)
]
  where
    Bool-split : (b : Bool) → (b ≡ true) ⊎ (b ≡ false)
    Bool-split true = inl refl
    Bool-split false = inr refl
absorb_total (suc zero) s packet h = inr (_, refl)
absorb_total (suc (suc zero)) s packet h = inr (_, refl)
absorb_total (suc (suc (suc zero))) s packet h = inr (_, refl)
absorb_total (suc (suc (suc (suc i)))) s packet h = absurd (omega arith)

-- From a valid index no packet reaches the `unreachable!` branch, and the index stays valid. The type
-- of the mouse stays.
pub process_packet-IsValid :
    (m : Mouse) (packet : ℕ)
    → IsValid m
    → (m' : Mouse) × (process_packet m packet ≡ done m')
      × IsValid m'
      × (m'.mouse_type ≡ m.mouse_type)
unfolding process_packet finish
process_packet-IsValid m packet v =
    let (low, high) = packet_count_bounds m.mouse_type in
    elim (absorb_total (m.current_packet_index % packet_count m.mouse_type) m.current_state packet
      (omega (arith, low, high))) [
        | inl p ↦ (m, rw p refl, v, refl)
        | inr (s, p) ↦ (finish m s, rw p refl, omega (arith, low), refl)
      ]

-- The state that a sequence of packets leaves.
abbrev pub process_all : Mouse → List ℕ → Outcome Mouse
process_all m [] = done m
process_all m (packet ∷ rest) = process_packet m packet >>= λ m'. process_all m' rest

-- What the three packets say of the buttons and of the two axes, with the movement before them.
abbrev pub moved : MouseState → ℕ → ℕ → ℕ → MouseState
moved s flags x y = record s {
  flags = flags;
  move_x = movement s.move_x flags x_overflow x_sign x;
  move_y = movement s.move_y flags y_overflow y_sign y;
}

-- A mouse at the start of a movement, of a given type and with a handler.
abbrev at_start : Mouse → MouseType → Mouse
at_start m t = record m { mouse_type = t; current_packet_index = 0; handler = true }

start_eq :
    (m : Mouse) (t : MouseType)
    → m.mouse_type ≡ t
    → m.current_packet_index ≡ 0
    → m.handler ≡ true
    → m ≡ at_start m t
start_eq m t ty start handler =
    ap (λ u. record m { mouse_type = u }) ty
    ∙ ap (λ i. record m { mouse_type = t; current_packet_index = i }) start
    ∙ ap (λ h. record m { mouse_type = t; current_packet_index = 0; handler = h }) handler

-- The mouse when a movement is complete.
abbrev delivered : Mouse → MouseState → Mouse
delivered m s = record m {
  current_state = s;
  current_packet_index = 0;
  delivered = m.delivered ++ s ∷ [];
}

wheel_run :
    (m : Mouse) (t : MouseType) (flags x y z : ℕ)
    → t ≢ standard
    → contains flags always_one ≡ true
    → process_all (at_start m t) (flags ∷ x ∷ y ∷ z ∷ [])
      ≡ done (
          delivered
            (at_start m t)
            (record (moved m.current_state flags x y) { additional_flags = additional z }))
unfolding process_packet finish absorb
wheel_run m standard flags x y z ne one = absurd (ne refl)
wheel_run m only_scroll flags x y z ne one = rw one refl
wheel_run m five_button flags x y z ne one = rw one refl

contains_one : (flags : ℕ) → flags / 8 % 2 ≡ 1 → contains flags always_one ≡ true
unfolding contains
contains_one flags one = rw one refl

-- A mouse with a wheel or further buttons, of any type but `standard`, that has a handler and waits for
-- the first packet delivers one state after the fourth packet of a movement, if the first packet has
-- its fixed bit and the packets are bytes. The state has the first packet as its flags, along each axis
-- the movement of its packet with the sign of the first one, or the movement before where that tells of
-- an overflow, and the scroll direction or the button that the fourth packet stands for.
pub wheel_movement :
    (m : Mouse) (flags x y z : ℕ)
    → m.mouse_type ≢ standard
    → m.current_packet_index ≡ 0
    → m.handler ≡ true
    → flags / 8 % 2 ≡ 1
    → x < 2 ^ 8
    → y < 2 ^ 8
    → (m' : Mouse) × (s : MouseState) × (process_all m (flags ∷ x ∷ y ∷ z ∷ []) ≡ done m')
      × (m'.delivered ≡ m.delivered ++ s ∷ [])
      × Delivers m.current_state flags x y z s
      × (m'.current_packet_index ≡ 0)
wheel_movement m flags x y z ty start handler one byte byte' =
    let s = record (moved m.current_state flags x y) { additional_flags = additional z } in
    (
      delivered (at_start m m.mouse_type) s,
      s,
      ap (λ u. process_all u (flags ∷ x ∷ y ∷ z ∷ [])) (start_eq m m.mouse_type refl start handler)
          ∙ wheel_run m m.mouse_type flags x y z ty (contains_one flags one),
      refl,
      record {
        buttons = refl;
        horizontal = movement_lem m.current_state.move_x flags x_overflow x_sign x byte;
        vertical = movement_lem m.current_state.move_y flags y_overflow y_sign y byte';
        extra = additional_lem z;
      },
      refl,
    )
