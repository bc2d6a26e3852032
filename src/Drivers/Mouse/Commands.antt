-- ===== src/Drivers/Mouse/Commands.antt =====
-- What the driver sends to the mouse.
use mathlib.Core.List.{append_assoc, append-nil}
use good_os_framework.Base.{
  ℕ, zero, suc, ◌+◌, ◌≡◌, refl, ap, sym, ◌∙◌, Bool, true, false, Option, none, some, List, [], ◌∷◌,
  ◌++◌, ◌==◌, if◌then◌else◌, arith,
}
use good_os_framework.Drivers.Mouse.{
  Mouse, Step, ◌then_do◌, Ports, port_write, port_read, data_port, command_port, wait_status,
  read_data_port, write_command_port, write_data_port, wait_ack, MouseType, send_command, knock,
  init, enable_packet_streaming, enable_scroll_wheel, enable_additional_button, port_read_try_times,
  only_scroll, five_button,
}

-- A step that succeeds has written exactly `l`.
abbrev pub Sends : {A : Type 0} → Step A → List (ℕ × ℕ) → Type 0
Sends {A} s l = (m : Mouse) (a : A) → (s m).0 ≡ some a → (s m).1.sent ≡ m.sent ++ l

-- The second step after what the first returned.
abbrev after : {A B : Type 0} → (A → Step B) → Option A × Mouse → Option B × Mouse
after f r = elim (r.0) [ none ↦ (none, r.1) | some a ↦ f a (r.1) ]

after-Sends :
    {A B : Type 0} (f : A → Step B) (sent l k : List (ℕ × ℕ)) (r : Option A × Mouse)
    → ((a : A) → r.0 ≡ some a → r.1.sent ≡ sent ++ l)
    → ((a : A) → Sends (f a) k)
    → (b : B) → (after f r).0 ≡ some b
    → (after f r).1.sent ≡ sent ++ (l ++ k)
after-Sends f sent l k (none, m') p q b h = cc
after-Sends f sent l k (some a, m') p q b h =
    q a m' b h ∙ ap (λ t. t ++ k) (p a refl) ∙ append_assoc sent l k

Sends-then_do :
    {A B : Type 0} (s : Step A) (f : A → Step B) (l k : List (ℕ × ℕ))
    → Sends s l
    → ((a : A) → Sends (f a) k)
    → Sends (s then_do f) (l ++ k)
Sends-then_do s f l k p q m b h = after-Sends f m.sent l k (s m) (p m) q b h

-- The two writes of a command.
abbrev pub command_bytes : ℕ → List (ℕ × ℕ)
command_bytes command = (command_port, 0xd4) ∷ (data_port, command) ∷ []

-- Commands one after the other.
abbrev pub commands : List ℕ → List (ℕ × ℕ)
commands [] = []
commands (c ∷ rest) = command_bytes c ++ commands rest

module _ (ports : Ports) where
  -- A step that writes nothing, whether it succeeds or not.
  Silent : {A : Type 0} → Step A → Type 0
  Silent s = (m : Mouse) → (s m).1.sent ≡ m.sent

  wait_status-silent :
      (n bit value : ℕ) (m : Mouse) → (wait_status ports n bit value m).1.sent ≡ m.sent
  unfolding wait_status
  wait_status-silent zero bit value m = refl
  wait_status-silent (suc n) bit value m =
      ground (arith, wait_status-silent n bit value (record m { clock = m.clock + 1 }))

  wait_status-Sends : (n bit value : ℕ) → Sends (wait_status ports n bit value) []
  wait_status-Sends n bit value m a h = wait_status-silent n bit value m ∙ sym (append-nil m.sent)

  read_data_port-Sends : Sends (read_data_port ports) []
  unfolding read_data_port
  read_data_port-Sends =
      Sends-then_do (wait_status ports port_read_try_times 0 1) (λ _. port_read ports data_port) []
        [] (wait_status-Sends port_read_try_times 0 1) (λ u m a h. sym (append-nil m.sent))

  port_write-Sends : (value port : ℕ) → Sends (port_write port value) ((port, value) ∷ [])
  port_write-Sends value port m a h = refl

  written :
      (value port : ℕ)
      → Sends
          (wait_status ports port_read_try_times 1 0 then_do λ _. port_write port value)
          ((port, value) ∷ [])
  written value port =
      Sends-then_do (wait_status ports port_read_try_times 1 0) (λ _. port_write port value) []
        ((port, value) ∷ []) (wait_status-Sends port_read_try_times 1 0)
        (λ u. port_write-Sends value port)

  acked-Sends :
      (n : ℕ) (b : Bool)
      → Sends (wait_ack ports n) []
      → Sends (if b then (λ m'. (some tt, m')) else wait_ack ports n) []
  acked-Sends n true p m u k = sym (append-nil m.sent)
  acked-Sends n false p m u k = p m u k

  wait_ack-Sends : (n : ℕ) → Sends (wait_ack ports n) []
  unfolding wait_ack
  wait_ack-Sends zero m a h = cc
  wait_ack-Sends (suc n) m a h =
      Sends-then_do (read_data_port ports)
        (λ b. if b == 0xfa then (λ m'. (some tt, m')) else wait_ack ports n) [] []
        read_data_port-Sends (λ b. acked-Sends n (b == 0xfa) (wait_ack-Sends n)) m a h

  pub send_command-Sends :
      (command : ℕ) → Sends (send_command ports command) (command_bytes command)
  unfolding send_command write_command_port write_data_port
  send_command-Sends command =
      Sends-then_do (write_command_port ports 0xd4 then_do (λ _. write_data_port ports command))
        (λ _. wait_ack ports port_read_try_times) (command_bytes command) []
        (Sends-then_do (write_command_port ports 0xd4) (λ _. write_data_port ports command)
          ((command_port, 0xd4) ∷ []) ((data_port, command) ∷ []) (written 0xd4 command_port)
          (λ u. written command data_port))
        (λ u. wait_ack-Sends port_read_try_times)

  -- One command more.
  and_command :
      (s : Step (Unit {0})) (l : List (ℕ × ℕ)) (command : ℕ)
      → Sends s l
      → Sends (s then_do (λ _. send_command ports command)) (l ++ command_bytes command)
  and_command s l command p =
      Sends-then_do s (λ _. send_command ports command) l (command_bytes command) p
        (λ u. send_command-Sends command)

  -- The commands of a knock.
  abbrev knocks : ℕ → ℕ → ℕ → List ℕ
  knocks a b c = 0xf3 ∷ a ∷ 0xf3 ∷ b ∷ 0xf3 ∷ c ∷ 0xf2 ∷ []

  abbrev chain : ℕ → ℕ → ℕ → Step (Unit {0})
  chain a b c =
      send_command ports 0xf3
      then_do (λ _. send_command ports a)
      then_do (λ _. send_command ports 0xf3)
      then_do (λ _. send_command ports b)
      then_do (λ _. send_command ports 0xf3)
      then_do (λ _. send_command ports c)
      then_do (λ _. send_command ports 0xf2)

  chain-Sends : (a b c : ℕ) → Sends (chain a b c) (commands (knocks a b c))
  chain-Sends a b c =
      let s1 = send_command ports 0xf3 in
      let s2 = s1 then_do (λ _. send_command ports a) in
      let s3 = s2 then_do (λ _. send_command ports 0xf3) in
      let s4 = s3 then_do (λ _. send_command ports b) in
      let s5 = s4 then_do (λ _. send_command ports 0xf3) in
      let s6 = s5 then_do (λ _. send_command ports c) in
      and_command s6 (commands (0xf3 ∷ a ∷ 0xf3 ∷ b ∷ 0xf3 ∷ c ∷ [])) 0xf2 (
        and_command s5 (commands (0xf3 ∷ a ∷ 0xf3 ∷ b ∷ 0xf3 ∷ [])) c (
          and_command s4 (commands (0xf3 ∷ a ∷ 0xf3 ∷ b ∷ [])) 0xf3 (
            and_command s3 (commands (0xf3 ∷ a ∷ 0xf3 ∷ [])) b (
              and_command s2 (commands (0xf3 ∷ a ∷ [])) 0xf3
                (and_command s1 (commands (0xf3 ∷ [])) a (send_command-Sends 0xf3))))))

  abbrev settle : ℕ → MouseType → ℕ → Step (Unit {0})
  settle id ty got m = (some tt, if got == id then record m { mouse_type = ty } else m)

  settled :
      (b : Bool) (m : Mouse) (ty : MouseType)
      → (if b then record m { mouse_type = ty } else m).sent ≡ m.sent ++ []
  settled true m ty = sym (append-nil m.sent)
  settled false m ty = sym (append-nil m.sent)

  knock-Sends :
      (a b c id : ℕ) (ty : MouseType) → Sends (knock ports a b c id ty) (commands (knocks a b c))
  unfolding knock
  knock-Sends a b c id ty =
      Sends-then_do (chain a b c then_do (λ _. read_data_port ports)) (settle id ty)
        (commands (knocks a b c)) []
        (Sends-then_do (chain a b c) (λ _. read_data_port ports) (commands (knocks a b c)) []
          (chain-Sends a b c) (λ u. read_data_port-Sends))
        (λ got m u h. settled (got == id) m ty)

  -- When the set-up succeeds, the driver has sent: the enabling of the stream, the three sample rates
  -- 200, 100, 80 that ask for a wheel, the question for the id, the rates 200, 200, 80 that ask for more
  -- buttons, and the question again, each as the prefix 0xd4 to the command port and the byte to the data
  -- port, and nothing else.
  pub init_lem :
      (m : Mouse)
      → (init ports m).0 ≡ some tt
      → (init ports m).1.sent
        ≡ m.sent
          ++ commands (
              0xf4 ∷ 0xf3 ∷ 200 ∷ 0xf3 ∷ 100 ∷ 0xf3 ∷ 80 ∷ 0xf2 ∷ 0xf3 ∷ 200 ∷ 0xf3 ∷ 200 ∷ 0xf3
              ∷ 80 ∷ 0xf2 ∷ [])
  unfolding init enable_packet_streaming enable_scroll_wheel enable_additional_button
  init_lem m h =
      Sends-then_do (send_command ports 0xf4 then_do (λ _. knock ports 200 100 80 0x3 only_scroll))
        (λ _. knock ports 200 200 80 0x4 five_button) (commands (0xf4 ∷ knocks 200 100 80))
        (commands (knocks 200 200 80))
        (Sends-then_do (send_command ports 0xf4) (λ _. knock ports 200 100 80 0x3 only_scroll)
          (command_bytes 0xf4) (commands (knocks 200 100 80)) (send_command-Sends 0xf4)
          (λ u. knock-Sends 200 100 80 0x3 only_scroll))
        (λ u. knock-Sends 200 200 80 0x4 five_button) m tt h
