-- ===== src/Network/Sender/Tick.antt =====
-- crates/morsh-network/src/transport.rs, `tick` and what it calls: the instruction to send now.
use morsh.Common.{
  ℕ, ◌+◌, ◌-◌, ◌%◌, ◌^◌, List, [], ◌∷◌, Option, none, some, Bool, true, false, not, ◌&&◌, ◌||◌, ltb,
  leb, ◌==◌, if◌then◌else◌, length, set,
}
use morsh.Proto.{Instruction}
use morsh.Network.Constants.{ms, ack_interval_ms, protocol_version}
use morsh.Network.State.{State}
use morsh.Network.Sender.{TransportSender, sent_at, sent_last, shutdown_num, add_sent_state}
use morsh.Network.Sender.Timers.{calculate_timers}

-- `wrapping_add(1)`
abbrev pub next_num : ℕ → ℕ
next_num n = (n + 1) % 2 ^ 64

module _ {ℓ} {S : Type ℓ} where
  -- The instruction, with the chaff that `make_chaff` gave.
  unfoldable pub build_instruction :
      TransportSender S → List ℕ → ℕ → List ℕ → Instruction × TransportSender S
  build_instruction s diff new_num chaff = (
    record {
      protocol_version = some protocol_version;
      old_num = some (sent_at s s.assumed_receiver_state).num;
      new_num = some new_num;
      ack_num = some s.ack_num;
      throwaway_num = some (sent_at s 0).num;
      diff = some diff;
      chaff = some chaff;
    },
    record s {
      shutdown_tries =
          if new_num == shutdown_num then (s.shutdown_tries + 1) % 2 ^ 32 else s.shutdown_tries;
      pending_data_ack = false;
    },
  )

  -- An ack without a diff still makes a state of its own.
  unfoldable pub send_empty_ack : TransportSender S → ℕ → List ℕ → Instruction × TransportSender S
  send_empty_ack s now chaff =
      let new_num = if s.shutdown_in_progress then shutdown_num else next_num (sent_last s).num in
      let (inst, s') =
        build_instruction (add_sent_state s now new_num s.current_state) [] new_num chaff in
      (inst, record s' { next_ack_time = now + ms ack_interval_ms; next_send_time = none })

module _ {ℓ} {S : Type ℓ} (ops : State S) where
  -- The number of the state that is sent: the last one's, where nothing has changed since.
  unfoldable pub number_to_send : TransportSender S → ℕ
  number_to_send s =
      if s.shutdown_in_progress
      then shutdown_num
      else if ops.state_equal s.current_state (sent_last s).state
      then (sent_last s).num
      else next_num (sent_last s).num

  -- The history with the state that is sent: a new entry, or a new time for the last one.
  unfoldable pub record_sent : TransportSender S → ℕ → ℕ → TransportSender S
  record_sent s now new_num =
      if new_num == (sent_last s).num
      then record s {
        sent_states =
            set s.sent_states (length s.sent_states - 1) (record (sent_last s) { timestamp = now });
      }
      else add_sent_state s now new_num s.current_state

  unfoldable pub send_to_receiver :
      TransportSender S → List ℕ → ℕ → List ℕ → Instruction × TransportSender S
  send_to_receiver s diff now chaff =
      let new_num = number_to_send s in
      let (inst, s') = build_instruction (record_sent s now new_num) diff new_num chaff in
      (
        inst,
        record s' {
          assumed_receiver_state = length s'.sent_states - 1;
          next_ack_time = now + ms ack_interval_ms;
          next_send_time = none;
        },
      )

  -- Whether the diff from the acknowledged state costs little more than the proposed one.
  abbrev pub cheap : List ℕ → List ℕ → Bool
  cheap resend proposed =
      leb (length resend) (length proposed)
      || (ltb (length resend) 1000 && ltb (length resend - length proposed) 100)

  -- A diff from the acknowledged state instead, where it is cheap.
  unfoldable pub attempt_prospective_resend_optimization :
      TransportSender S → List ℕ → List ℕ × TransportSender S
  attempt_prospective_resend_optimization s proposed =
      let resend = ops.diff_from s.current_state (sent_at s 0).state in
      if s.assumed_receiver_state == 0
      then (proposed, s)
      else if cheap resend proposed
      then (resend, record s { assumed_receiver_state = 0 })
      else (proposed, s)

  -- An ack, where one is due.
  unfoldable pub ack_if_due :
      TransportSender S → ℕ → Bool → List ℕ → Option Instruction × TransportSender S
  ack_if_due s now false chaff = (none, s)
  ack_if_due s now true chaff =
      let (inst, t) = send_empty_ack s now chaff in (some inst, record t { mindelay_clock = none })

  -- What `tick` does with the diff: an ack if that is empty, or the diff itself.
  unfoldable pub tick_diff :
      TransportSender S → List ℕ → ℕ → Bool → Bool → List ℕ → Option Instruction × TransportSender S
  tick_diff s [] now send_due ack_due chaff =
      let (acked, t) = ack_if_due s now ack_due chaff in
      (acked, if send_due then record t { next_send_time = none; mindelay_clock = none } else t)
  tick_diff s (b ∷ bs) now send_due ack_due chaff =
      let (inst, t) = send_to_receiver s (b ∷ bs) now chaff in
      (some inst, record t { mindelay_clock = none })

  -- What `tick` does once something is due.
  unfoldable pub tick_due :
      TransportSender S → ℕ → Bool → Bool → List ℕ → Option Instruction × TransportSender S
  tick_due s now send_due ack_due chaff =
      let (diff, t) =
        attempt_prospective_resend_optimization s
          (ops.diff_from s.current_state (sent_at s s.assumed_receiver_state).state) in
      tick_diff t diff now send_due ack_due chaff

  abbrev pub send_is_due : TransportSender S → ℕ → Bool
  send_is_due s now = elim s.next_send_time [ none ↦ false | some t ↦ leb t now ]

  unfoldable pub tick :
      TransportSender S → ℕ → ℕ → ℕ → Bool → List ℕ → Option Instruction × TransportSender S
  tick s now timeout srtt_ms has_remote_addr chaff =
      let s' = calculate_timers ops s now timeout srtt_ms in
      let send_due = send_is_due s' now in
      let ack_due = leb s'.next_ack_time now in
      if not has_remote_addr || (not send_due && not ack_due)
      then (none, s')
      else tick_due s' now send_due ack_due chaff
