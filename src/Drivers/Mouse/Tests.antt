-- ===== src/Drivers/Mouse/Tests.antt =====
-- A mouse that moves by (-2, 5), and a controller that is always ready and acknowledges all.
use good_os_framework.Base.{◌≡◌, ◌≢◌, refl, [], ◌∷◌, ◌==◌, if◌then◌else◌, done, ◌>>=◌, arith}
use good_os_framework.Drivers.Mouse.{
  Mouse, MouseState, standard, only_scroll, Ports, new, new_state, contains, movement,
  process_packet, absorb, finish, set_complete_handler, init, wait_status, read_data_port,
  write_command_port, write_data_port, wait_ack, send_command, knock, enable_packet_streaming,
  enable_scroll_wheel, enable_additional_button,
}
use good_os_framework.Drivers.Mouse.Packets.{process_all, wheel_movement}
use good_os_framework.Drivers.Mouse.Deltas.{Delivers}
use good_os_framework.Drivers.Mouse.Commands.{commands, init_lem}

abbrev ready : Mouse
ready = set_complete_handler new

abbrev wheel : Mouse
wheel = record ready { mouse_type = only_scroll }

standard_run :
    (process_all ready (0b11000 ∷ 0xfe ∷ 5 ∷ []) >>= λ m. done m.delivered)
    ≡ done (record new_state { flags = 0b11000; move_x = 0xfffe; move_y = 5 } ∷ [])
unfolding process_packet absorb finish contains movement
standard_run = refl

scrolls_ne : only_scroll ≢ standard
scrolls_ne e = cc

wheel_movement_example :
    (m' : Mouse) × (s : MouseState) × (process_all wheel (0b11000 ∷ 0xfe ∷ 5 ∷ 1 ∷ []) ≡ done m')
    × (m'.delivered ≡ s ∷ [])
    × Delivers new_state 0b11000 0xfe 5 1 s
    × (m'.current_packet_index ≡ 0)
wheel_movement_example =
    wheel_movement wheel 0b11000 0xfe 5 1 scrolls_ne refl refl refl (omega arith) (omega arith)

abbrev ports : Ports
ports n port = if port == 0x64 then 1 else 0xfa

init_lem_example :
    (init ports new).1.sent
    ≡ commands (
        0xf4 ∷ 0xf3 ∷ 200 ∷ 0xf3 ∷ 100 ∷ 0xf3 ∷ 80 ∷ 0xf2 ∷ 0xf3 ∷ 200 ∷ 0xf3 ∷ 200 ∷ 0xf3 ∷ 80
        ∷ 0xf2 ∷ [])
unfolding init wait_status read_data_port write_command_port write_data_port wait_ack send_command
    knock enable_packet_streaming enable_scroll_wheel enable_additional_button
init_lem_example = init_lem ports new refl
