-- ===== src/Drivers/Mouse.antt =====
-- src/drivers/mouse.rs: the packets of a PS/2 mouse, and the commands that set it up. An `i16` is its
-- word in two's complement, flags are their byte. The ports belong to the machine: a read answers what
-- `Ports` says, and what is written is kept as a trace.
pub mod Deltas
pub mod Packets
pub mod Commands
mod Tests
use Prim.Native.Nat.{bit_or}
use good_os_framework.Base.{
  ℕ, zero, suc, ◌+◌, ◌-◌, ◌/◌, ◌%◌, ◌^◌, Bool, true, false, not, Option, none, some, List, [], ◌∷◌,
  ◌++◌, ◌==◌, if◌then◌else◌, Outcome, done, panics, ◌>>=◌,
}

abbrev pub port_read_try_times : ℕ
port_read_try_times = 10000

pub data MouseAdditionalFlags : Type 0 where
  first_button : MouseAdditionalFlags
  second_button : MouseAdditionalFlags
  scroll_up : MouseAdditionalFlags
  scroll_down : MouseAdditionalFlags
  no_flags : MouseAdditionalFlags

pub data MouseType : Type 0 where
  standard : MouseType
  only_scroll : MouseType
  five_button : MouseType

pub record MouseState : Type 0 where
  pub flags : ℕ
  pub additional_flags : MouseAdditionalFlags
  pub move_x : ℕ
  pub move_y : ℕ

-- `handler` is whether a complete handler is set, `delivered` what it has been called with, `sent` the
-- writes to the ports and `clock` the number of reads.
pub record Mouse : Type 0 where
  pub current_packet_index : ℕ
  pub current_state : MouseState
  pub mouse_type : MouseType
  pub handler : Bool
  pub delivered : List MouseState
  pub sent : List (ℕ × ℕ)
  pub clock : ℕ

abbrev pub new_state : MouseState
new_state = record { flags = 0; additional_flags = no_flags; move_x = 0; move_y = 0 }

abbrev pub new : Mouse
new = record {
  current_packet_index = 0;
  current_state = new_state;
  mouse_type = standard;
  handler = false;
  delivered = [];
  sent = [];
  clock = 0;
}

-- The flags, by the numbers of their bits.
pub data MouseFlags : Type 0 where
  left_button : MouseFlags
  right_button : MouseFlags
  middle_button : MouseFlags
  always_one : MouseFlags
  x_sign : MouseFlags
  y_sign : MouseFlags
  x_overflow : MouseFlags
  y_overflow : MouseFlags

abbrev pub flag_bit : MouseFlags → ℕ
flag_bit left_button = 0
flag_bit right_button = 1
flag_bit middle_button = 2
flag_bit always_one = 3
flag_bit x_sign = 4
flag_bit y_sign = 5
flag_bit x_overflow = 6
flag_bit y_overflow = 7

unfoldable pub contains : ℕ → MouseFlags → Bool
contains flags f = flags / 2 ^ flag_bit f % 2 == 1

abbrev pub packet_count : MouseType → ℕ
packet_count standard = 3
packet_count only_scroll = 4
packet_count five_button = 4

-- The new movement along an axis.
unfoldable pub movement : ℕ → ℕ → MouseFlags → MouseFlags → ℕ → ℕ
movement old flags overflow sign packet =
    if contains flags overflow
    then old
    else if contains flags sign
    then bit_or packet 0xFF00
    else packet

unfoldable pub additional : ℕ → MouseAdditionalFlags
additional packet =
    if packet == 0b1000001
    then first_button
    else if packet == 0b1111111
    then second_button
    else if packet == 0b1
    then scroll_up
    else if packet == 0b11111111
    then scroll_down
    else if packet == 0b1111
    then scroll_down
    else no_flags

-- The state after a packet, by the index of the packet; `none` where the first is dropped.
unfoldable pub absorb : ℕ → MouseState → ℕ → Outcome (Option MouseState)
absorb zero s packet =
    if not (contains packet always_one)
    then done none
    else done (some (record s { flags = packet }))
absorb (suc zero) s packet =
    done (some (record s { move_x = movement s.move_x s.flags x_overflow x_sign packet }))
absorb (suc (suc zero)) s packet =
    done (some (record s { move_y = movement s.move_y s.flags y_overflow y_sign packet }))
absorb (suc (suc (suc zero))) s packet =
    done (some (record s { additional_flags = additional packet }))
absorb (suc (suc (suc (suc i)))) s packet = panics

-- The end of `process_packet`: the handler gets a complete state, and the index goes on.
unfoldable pub finish : Mouse → MouseState → Mouse
finish m s =
    let count = packet_count m.mouse_type in
    record m {
      current_state = s;
      current_packet_index = (m.current_packet_index + 1) % count;
      delivered =
          if (if m.current_packet_index % count == count - 1 then m.handler else false)
          then m.delivered ++ s ∷ []
          else m.delivered;
    }

unfoldable pub process_packet : Mouse → ℕ → Outcome Mouse
unfolding absorb finish
process_packet m packet =
    absorb (m.current_packet_index % packet_count m.mouse_type) m.current_state packet >>= λ r.
    elim r [ none ↦ done m | some s ↦ done (finish m s) ]

abbrev pub set_complete_handler : Mouse → Mouse
set_complete_handler m = record m { handler = true }

-- Code that returns a `Result` and changes the mouse; `Err` is `none`.
abbrev pub Step : Type 0 → Type 0
Step A = Mouse → Option A × Mouse

infixl 5 ◌then_do◌
abbrev pub ◌then_do◌ : {A B : Type 0} → Step A → (A → Step B) → Step B
(s then_do f) m = elim ((s m).0) [ none ↦ (none, (s m).1) | some a ↦ f a ((s m).1) ]

abbrev pub data_port : ℕ
data_port = 0x60

abbrev pub command_port : ℕ
command_port = 0x64

-- The `n`-th read answers `ports n port`.
abbrev pub Ports : Type 0
Ports = ℕ → ℕ → ℕ

abbrev pub port_write : ℕ → ℕ → Step (Unit {0})
port_write port value m = (some tt, record m { sent = m.sent ++ (port, value) ∷ [] })

module _ (ports : Ports) where
  -- A read that never fails.
  abbrev pub port_read : ℕ → Step ℕ
  port_read port m = (some (ports m.clock port), record m { clock = m.clock + 1 })

  -- Reads the status until the bit has the value, at most `n` times.
  unfoldable pub wait_status : ℕ → ℕ → ℕ → Step (Unit {0})
  wait_status zero bit value m = (none, m)
  wait_status (suc n) bit value m =
      let rest = wait_status n bit value (record m { clock = m.clock + 1 }) in
      if ports m.clock command_port / 2 ^ bit % 2 == value
      then (some tt, record m { clock = m.clock + 1 })
      else rest

  abbrev pub wait_for_read : Step (Unit {0})
  wait_for_read = wait_status port_read_try_times 0 1

  abbrev pub wait_for_write : Step (Unit {0})
  wait_for_write = wait_status port_read_try_times 1 0

  unfoldable pub read_data_port : Step ℕ
  read_data_port = wait_for_read then_do λ _. port_read data_port

  unfoldable pub write_command_port : ℕ → Step (Unit {0})
  write_command_port value = wait_for_write then_do λ _. port_write command_port value

  unfoldable pub write_data_port : ℕ → Step (Unit {0})
  write_data_port value = wait_for_write then_do λ _. port_write data_port value

  -- Reads until the mouse acknowledges, at most `n` times.
  unfoldable pub wait_ack : ℕ → Step (Unit {0})
  wait_ack zero m = (none, m)
  wait_ack (suc n) m =
      (read_data_port then_do λ b. if b == 0xfa then (λ m'. (some tt, m')) else wait_ack n) m

  unfoldable pub send_command : ℕ → Step (Unit {0})
  send_command command =
      write_command_port 0xd4
      then_do (λ _. write_data_port command)
      then_do (λ _. wait_ack port_read_try_times)

  unfoldable pub enable_packet_streaming : Step (Unit {0})
  enable_packet_streaming = send_command 0xf4

  -- The three sample rates, then the question for the mouse's id, which settles the type.
  unfoldable pub knock : ℕ → ℕ → ℕ → ℕ → MouseType → Step (Unit {0})
  knock a b c id ty =
      send_command 0xf3
      then_do (λ _. send_command a)
      then_do (λ _. send_command 0xf3)
      then_do (λ _. send_command b)
      then_do (λ _. send_command 0xf3)
      then_do (λ _. send_command c)
      then_do (λ _. send_command 0xf2)
      then_do (λ _. read_data_port)
      then_do (λ got m. (some tt, if got == id then record m { mouse_type = ty } else m))

  unfoldable pub enable_scroll_wheel : Step (Unit {0})
  enable_scroll_wheel = knock 200 100 80 0x3 only_scroll

  unfoldable pub enable_additional_button : Step (Unit {0})
  enable_additional_button = knock 200 200 80 0x4 five_button

  unfoldable pub init : Step (Unit {0})
  init =
      enable_packet_streaming
      then_do (λ _. enable_scroll_wheel)
      then_do (λ _. enable_additional_button)
