-- ===== src/Tests/Complete.antt =====
-- Runs of crates/morsh-statesync/src/complete.rs over an emulator that shows what was written to it
-- last.
use morsh.Common.{
  false, true, ℕ, zero, suc, ◌≤◌, ◌≡◌, refl, ap, List, [], ◌∷◌, map, Option, none, some, length,
  unwrap_or, arith, inl,
}
use morsh.Common.Options.{option_map}
use morsh.Terminal.Snapshot.{new_snapshot}
use morsh.Terminal.Emulator.{Vt, VtCell, VtScreen, snapshot}
use morsh.Terminal.Emulator.Shaped.{IsShaped}
use morsh.Network.State.{State}
use morsh.Network.Sync.{
  Event, elapse, update, tick_sender, acknowledge, deliver, Config, start, run,
}
use morsh.Network.Sync.Sending.{Renamed}
use morsh.Network.Sync.Agreement.{AllFaithful}
use morsh.Network.Sync.States.{flight-AllFaithful}
use morsh.Statesync.UserStream.{UserStream}
use morsh.Tests.Toys.{toy_end}
use morsh.Statesync.Complete.{
  complete_state, state_equal, Complete, HostInstruction, HostWire, new, act, register_input_frame,
  set_echo_ack, set_echo_ack_num, resize, apply_string, diff_from, wait_time_ms,
}
use morsh.Statesync.Complete.Echo.{stay, arrived, checked, IsEchoed, run-IsEchoed}
use morsh.Statesync.Complete.Synced.{IsSynced, Reached, started, wrote, numbered, reached-IsSynced}
use morsh.Statesync.Complete.Diffs.{HostWireLaws, updated, apply_string-diff_from}
use morsh.Tests.States.{
  keys_onto, resize_onto, keys_of, resize_of_code, keys_of-keys_onto, resize_of_code-resize_onto,
}

abbrev toy_cell : ℕ → VtCell
toy_cell c = record { graphemes = some (c ∷ []); style = none; width = none }

abbrev toy_screen : List ℕ → VtScreen
toy_screen text = record {
  cursor_viewport = some (length text, 0);
  cursor_visible = none;
  colors = none;
  rows = some (map toy_cell text) ∷ [];
}

abbrev toy_vt : Vt (List ℕ)
toy_vt = record {
  create = λ cols rows max_scrollback. some [];
  vt_write = λ v bytes. bytes;
  set_size = λ v cols rows. (true, v);
  render = λ v. some (toy_screen v);
  title = λ v. none;
  mode = λ v m. none;
}

abbrev echo_onto : Option (Option ℕ) → List ℕ → List ℕ
echo_onto none rest = 0 ∷ rest
echo_onto (some none) rest = 1 ∷ rest
echo_onto (some (some n)) rest = 2 ∷ n ∷ rest

abbrev echo_of : List ℕ → Option (Option ℕ) × List ℕ
echo_of (suc zero ∷ rest) = (some none, rest)
echo_of (suc (suc k) ∷ n ∷ rest) = (some (some n), rest)
echo_of (zero ∷ rest) = (none, rest)
echo_of (suc (suc k) ∷ []) = (none, [])
echo_of [] = (none, [])

abbrev host_code : List HostInstruction → List ℕ
host_code [] = []
host_code (i ∷ is) =
    keys_onto i.hostbytes (resize_onto i.resize (echo_onto i.echoack (host_code is)))

abbrev host_of : ℕ → List ℕ → List HostInstruction
host_of zero code = []
host_of (suc n) code =
    let (bytes, rest) = keys_of code in
    let (size, rest') = resize_of_code rest in
    let (ack, rest'') = echo_of rest' in
    record { hostbytes = bytes; resize = size; echoack = ack } ∷ host_of n rest''

abbrev host_message : List ℕ → Option (List HostInstruction)
host_message [] = none
host_message (n ∷ code) = some (host_of n code)

abbrev toy_host_wire : HostWire
toy_host_wire = record { encode = λ is. length is ∷ host_code is; decode = host_message }

echo_of-echo_onto : (o : Option (Option ℕ)) (rest : List ℕ) → echo_of (echo_onto o rest) ≡ (o, rest)
echo_of-echo_onto none rest = refl
echo_of-echo_onto (some none) rest = refl
echo_of-echo_onto (some (some n)) rest = refl

host_of-host_code : (is : List HostInstruction) → host_of (length is) (host_code is) ≡ is
host_of-host_code [] = refl
host_of-host_code (i ∷ is) =
    rw
      (
        keys_of-keys_onto i.hostbytes (resize_onto i.resize (echo_onto i.echoack (host_code is))),
        resize_of_code-resize_onto i.resize (echo_onto i.echoack (host_code is)),
        echo_of-echo_onto i.echoack (host_code is),
        host_of-host_code is,
      )
      refl

toy_host_wire_laws : HostWireLaws toy_host_wire
toy_host_wire_laws = record { decode-encode = λ is. ap some (host_of-host_code is) }

abbrev blank_state : Complete (List ℕ)
blank_state = record {
  terminal = none;
  screen = new_snapshot 1 1;
  echo_ack = 0;
  input_history = [];
}

-- A terminal of two columns, and one of three on which an A was written.
abbrev toy_narrow : Complete (List ℕ)
toy_narrow = unwrap_or (new toy_vt 2 1) blank_state

abbrev toy_wide : Complete (List ℕ)
toy_wide = unwrap_or (new toy_vt 3 1) blank_state

abbrev toy_written : Complete (List ℕ)
toy_written = unwrap_or (act toy_vt toy_wide (65 ∷ [])) blank_state

abbrev toy_target : Complete (List ℕ)
toy_target = set_echo_ack_num toy_written 4

abbrev toy_patched : Complete (List ℕ)
toy_patched =
    unwrap_or
      (apply_string toy_vt toy_host_wire toy_narrow (diff_from toy_host_wire toy_target toy_narrow))
      blank_state

toy_target-Reached : Reached toy_vt toy_host_wire toy_target
unfolding snapshot act
toy_target-Reached =
    numbered toy_written 4 (wrote toy_wide toy_written (65 ∷ []) (started 3 1 toy_wide refl) refl)

reached-IsSynced_example : IsSynced toy_vt toy_target × IsShaped toy_target.screen
reached-IsSynced_example = reached-IsSynced toy_vt toy_host_wire toy_target toy_target-Reached

apply_string-diff_from_example :
    apply_string toy_vt toy_host_wire toy_narrow (diff_from toy_host_wire toy_target toy_narrow)
    ≡ updated toy_vt toy_target toy_narrow
unfolding snapshot act
apply_string-diff_from_example =
    apply_string-diff_from toy_vt toy_host_wire toy_host_wire_laws toy_target toy_narrow
      (omega arith, omega arith) (omega arith, omega arith)

-- The state that is made has the target's size and echo ack.
patched_size : (toy_patched.screen.cols ≡ 3) × (toy_patched.echo_ack ≡ 4)
unfolding snapshot act apply_string diff_from resize
patched_size = (refl, refl)

-- A diff to a lower echo ack leaves the higher one, so that the result does not equal the target.
lower_ack_kept :
    option_map
      (λ d. state_equal d toy_target)
      (apply_string toy_vt toy_host_wire
        (set_echo_ack_num toy_target 9)
        (diff_from toy_host_wire toy_target (set_echo_ack_num toy_target 9)))
    ≡ some false
unfolding snapshot act apply_string diff_from
lower_ack_kept = refl

-- The server's terminal is written to and sent, and the client takes the instruction twice.
abbrev screen_events : List (Event (Complete (List ℕ)))
screen_events =
    update toy_target
    ∷ elapse 1000000000
    ∷ tick_sender 1000000000 50 true []
    ∷ elapse 1000000000
    ∷ tick_sender 1000000000 50 true []
    ∷ deliver 0 (record { quenched_at = 2000000000; applied_at = 2000000000 })
    ∷ deliver 0 (record { quenched_at = 2000000000; applied_at = 2000000000 })
    ∷ acknowledge 1
    ∷ []

abbrev toy_screens : State (Complete (List ℕ))
toy_screens = complete_state toy_vt toy_host_wire

abbrev first_screens : Config UserStream (Complete (List ℕ))
first_screens = start (toy_end true) [] toy_narrow 0

flight-AllFaithful_example :
    AllFaithful toy_screens
      (run toy_screens first_screens screen_events).log
      (run toy_screens first_screens screen_events).flight
    × Renamed toy_screens (run toy_screens first_screens screen_events).log
flight-AllFaithful_example =
    flight-AllFaithful {M = UserStream} toy_screens refl (toy_end true) [] toy_narrow 0
      screen_events (omega arith)

-- Frame 5 arrives, and 50 ms later the echo is checked.
abbrev toy_echoed : Complete (List ℕ)
toy_echoed = (set_echo_ack (register_input_frame blank_state 5 0) 50000000).1

run-IsEchoed_example : IsEchoed 50000000 toy_echoed × (0 ≤ toy_echoed.echo_ack)
run-IsEchoed_example =
    run-IsEchoed blank_state 0 toy_echoed 50000000
      (checked 50000000 (arrived 5 0 stay (omega arith) (omega arith)) (omega arith))
      (record { rising = tt; echoed = inl refl })

toy_echo_ack : toy_echoed.echo_ack ≡ 5
toy_echo_ack = refl

-- One frame is waiting for its echo, and no wake-up is asked for.
single_frame_wait :
    (wait_time_ms (register_input_frame blank_state 5 0) 0 ≡ none)
    × ((set_echo_ack (register_input_frame blank_state 5 0) 50000000).0 ≡ true)
single_frame_wait = (refl, refl)

-- An emulator that refuses to be resized. The next write reads a screen of the size that it refused.
abbrev stubborn_vt : Vt (List ℕ)
stubborn_vt = record toy_vt { set_size = λ v cols rows. (false, v) }

failed_resize :
    ((resize stubborn_vt toy_narrow 5 1).0 ≡ false)
    × (option_map
          (λ (c : Complete (List ℕ)). c.screen.cols)
          (act stubborn_vt (resize stubborn_vt toy_narrow 5 1).1 (65 ∷ []))
        ≡ some 5)
unfolding snapshot act resize
failed_resize = (refl, refl)
