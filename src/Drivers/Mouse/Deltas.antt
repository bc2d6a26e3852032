-- ===== src/Drivers/Mouse/Deltas.antt =====
-- What the packets of a movement say, in numbers.
use good_os_framework.Base.{ℕ, ◌+◌, ◌-◌, ◌/◌, ◌%◌, ◌^◌, ◌<◌, ◌≡◌, ◌≢◌, refl, ◌∙◌, ==_ne}
use good_os_framework.Base.Bits.{or_shift, or_comm}
use good_os_framework.Drivers.Mouse.{
  MouseState, MouseAdditionalFlags, first_button, second_button, scroll_up, scroll_down, no_flags,
  MouseFlags, flag_bit, contains, movement, additional,
}

-- The new movement along an axis, from the bits for its overflow and its sign: a negative one is the
-- 16-bit word of `packet - 256`, and after an overflow the movement stays.
pub record Axis (old overflow sign packet new : ℕ) : Type 0 where
  pub stays : overflow ≡ 1 → new ≡ old
  pub positive : overflow ≡ 0 → sign ≡ 0 → new ≡ packet
  pub negative : overflow ≡ 0 → sign ≡ 1 → new ≡ 2 ^ 16 - 2 ^ 8 + packet

-- The fourth packet.
pub record Extra (packet : ℕ) (f : MouseAdditionalFlags) : Type 0 where
  pub up : packet ≡ 1 → f ≡ scroll_up
  pub down_scroll : packet ≡ 255 → f ≡ scroll_down
  pub down_five : packet ≡ 15 → f ≡ scroll_down
  pub first : packet ≡ 65 → f ≡ first_button
  pub second : packet ≡ 127 → f ≡ second_button
  pub other : packet ≢ 1 → packet ≢ 255 → packet ≢ 15 → packet ≢ 65 → packet ≢ 127 → f ≡ no_flags

-- The state after the four packets of a movement.
pub record Delivers (s : MouseState) (flags x y z : ℕ) (s' : MouseState) : Type 0 where
  pub buttons : s'.flags ≡ flags
  pub horizontal : Axis s.move_x (flags / 64 % 2) (flags / 16 % 2) x s'.move_x
  pub vertical : Axis s.move_y (flags / 128 % 2) (flags / 32 % 2) y s'.move_y
  pub extra : Extra z s'.additional_flags

pub movement_lem :
    (old flags : ℕ) (overflow sign : MouseFlags) (packet : ℕ)
    → packet < 2 ^ 8
    → Axis old
        (flags / 2 ^ flag_bit overflow % 2)
        (flags / 2 ^ flag_bit sign % 2)
        packet
        (movement old flags overflow sign packet)
unfolding movement contains
movement_lem old flags overflow sign packet byte = record {
  stays = λ e. rw e refl;
  positive = λ e e'. rw (e, e') refl;
  negative = λ e e'. rw (e, e') (or_comm packet 0xFF00 ∙ or_shift 8 0xFF packet byte);
}

pub additional_lem : (packet : ℕ) → Extra packet (additional packet)
unfolding additional
additional_lem packet = record {
  up = λ e. rw e refl;
  down_scroll = λ e. rw e refl;
  down_five = λ e. rw e refl;
  first = λ e. rw e refl;
  second = λ e. rw e refl;
  other = λ a b c d e.
      rw
        (
          ==_ne packet 65 d,
          ==_ne packet 127 e,
          ==_ne packet 1 a,
          ==_ne packet 255 b,
          ==_ne packet 15 c,
        )
        refl;
}
