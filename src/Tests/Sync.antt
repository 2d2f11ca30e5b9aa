-- ===== src/Tests/Sync.antt =====
-- The two ends of the synchronisation protocol in a short run: a line is changed, sent, delivered
-- twice and acknowledged.
use morsh.Common.{ℕ, ◌≡◌, refl, List, [], ◌∷◌, none, true, false, arith, inl}
use morsh.Network.State.{TimestampedState}
use morsh.Network.Rtt.{clamp}
use morsh.Network.Connection.{set_last_roundtrip_success}
use morsh.Network.Sender
use morsh.Network.Sender.{
  TransportSender, sent_at, sent_last, add_sent_state, pushed, culled,
  process_acknowledgment_through, set_current_state, set_ack_num, remote_heard, set_data_ack,
  send_interval,
}
use morsh.Network.Sender.Timers.{
  update_assumed_receiver_state, calculate_timers, rationalize_states, send_deadline, ack_deadline,
}
use morsh.Network.Sender.Tick.{
  tick, tick_due, attempt_prospective_resend_optimization, tick_diff, send_to_receiver,
  number_to_send, record_sent, build_instruction,
}
use morsh.Network.Transport
use morsh.Network.Transport.{
  process_instruction, acknowledged, process_throwaway_until, referenced, quench_started, applied,
  filed, heard,
}
use morsh.Network.Sender.Invariant.{add_sent_state-keeps_assumed}
use morsh.Network.Transport.{Transport, InstructionClock, received_last, process_datagram}
use morsh.Network.Transport.Invariant.{Advance, process_datagram-Advance}
use morsh.Network.Sync.{
  Event, elapse, update, tick_sender, acknowledge, deliver, Config, start, step, run, ticked,
  delivered,
}
use morsh.Tests.Toys.{toy_cipher, toy_wire, toy_state, toy_end, toy_datagram, toy_recv_clock}

abbrev line : List ℕ
line = 104 ∷ 105 ∷ []

abbrev at_one_second : InstructionClock
at_one_second = record { quenched_at = 1000000000; applied_at = 1000000000 }

abbrev events : List (Event (List ℕ))
events =
    update line
    ∷ elapse 1000000000
    ∷ tick_sender 1000000000 50 true []
    ∷ elapse 1000000000
    ∷ tick_sender 1000000000 50 true []
    ∷ deliver 0 at_one_second
    ∷ deliver 0 at_one_second
    ∷ acknowledge 1
    ∷ []

abbrev first_config : Config (List ℕ) (List ℕ)
first_config = start (toy_end true) [] [] 0

-- The second tick sends the line, and the delivery makes it the receiver's newest state.
delivered_line : (received_last (run toy_state first_config events).receiver).state ≡ line
unfolding start Sender.new Transport.new step ticked delivered set_current_state tick
    calculate_timers update_assumed_receiver_state rationalize_states send_deadline ack_deadline
    send_interval clamp tick_due attempt_prospective_resend_optimization tick_diff send_to_receiver
    number_to_send record_sent add_sent_state pushed build_instruction process_instruction
    acknowledged process_acknowledgment_through culled set_last_roundtrip_success
    process_throwaway_until referenced quench_started applied filed heard set_ack_num remote_heard
    set_data_ack
delivered_line = refl

-- A history of two states, the second of which is recent.
abbrev sent : ℕ → ℕ → List ℕ → TimestampedState (List ℕ)
sent timestamp num state = record { timestamp = timestamp; num = num; state = state }

abbrev two_states : TransportSender (List ℕ)
two_states = record {
  current_state = line;
  sent_states = sent 0 0 [] ∷ sent 5000000000 1 line ∷ [];
  assumed_receiver_state = 0;
  next_ack_time = 0;
  next_send_time = none;
  shutdown_in_progress = false;
  shutdown_tries = 0;
  shutdown_start = none;
  ack_num = 0;
  pending_data_ack = false;
  send_mindelay = 8000000;
  last_heard = none;
  mindelay_clock = none;
}

add_sent_state-keeps_assumed_example :
    sent_at
      (add_sent_state two_states 6000000000 2 [])
      (add_sent_state two_states 6000000000 2 []).assumed_receiver_state
    ≡ sent 0 0 []
add_sent_state-keeps_assumed_example =
    add_sent_state-keeps_assumed two_states 6000000000 2 1 [] (inl refl) refl (omega arith)

abbrev first_server : Transport (List ℕ) (List ℕ)
first_server = record {
  connection = toy_end true;
  sender = two_states;
  received_states = sent 0 0 [] ∷ [];
  receiver_quench_timer = none;
  last_receiver_state = [];
}

process_datagram-Advance_example :
    Advance 0
      (process_datagram toy_state toy_wire toy_cipher first_server toy_recv_clock at_one_second
        toy_datagram 9).0
      (process_datagram toy_state toy_wire toy_cipher first_server toy_recv_clock at_one_second
        toy_datagram 9).1
process_datagram-Advance_example =
    process_datagram-Advance toy_state toy_wire toy_cipher first_server toy_recv_clock at_one_second
      toy_datagram 9 ((tt, tt), refl)
