-- ===== src/Network/Sender/Timers.antt =====
-- crates/morsh-network/src/transport.rs: the deadlines of the sender.
use morsh.Common.{
  ℕ, ◌+◌, ◌-◌, ◌^◌, max, min, List, [], ◌∷◌, Option, none, some, Bool, false, not, ◌&&◌, ◌||◌, ltb,
  ◌==◌, if◌then◌else◌, drop,
}
use morsh.Network.Constants.{ms, as_millis, ack_delay_ms, active_retry_timeout_ms}
use morsh.Network.State.{State, TimestampedState}
use morsh.Network.Sender.{
  TransportSender, send_interval, sent_at, sent_last, assumed_from, shutdown_num,
}

module _ {ℓ} {S : Type ℓ} (ops : State S) where
  -- The last state of the recent ones, counted from the acknowledged one.
  unfoldable pub update_assumed_receiver_state : TransportSender S → ℕ → ℕ → TransportSender S
  update_assumed_receiver_state s now timeout = record s {
    assumed_receiver_state =
        assumed_from now (timeout + ms ack_delay_ms) 1 0 (drop 1 s.sent_states);
  }

  abbrev pub subtract_all : S → List (TimestampedState S) → List (TimestampedState S)
  subtract_all known [] = []
  subtract_all known (x ∷ xs) =
      record x { state = ops.subtract x.state known } ∷ subtract_all known xs

  unfoldable pub subtract_known : TransportSender S → S → TransportSender S
  subtract_known s known = record s {
    current_state = ops.subtract s.current_state known;
    sent_states = subtract_all known s.sent_states;
  }

  -- Cut the acknowledged state off every state, where states have prefixes.
  unfoldable pub rationalize_states : TransportSender S → TransportSender S
  rationalize_states s = if ops.has_prefix then subtract_known s (sent_at s 0).state else s

  abbrev pub get_or_insert : Option ℕ → ℕ → ℕ
  get_or_insert none now = now
  get_or_insert (some t) now = t

  -- The peer was heard of lately.
  abbrev pub active : TransportSender S → ℕ → Bool
  active s now = elim s.last_heard [
    | none ↦ false
    | some h ↦ ltb now (h + ms active_retry_timeout_ms)
  ]

  -- The deadlines of the three cases in which there is something to send, and the clock that
  -- collects input.
  abbrev pub new_deadline : TransportSender S → ℕ → ℕ → Option ℕ × Option ℕ
  new_deadline s now srtt_ms =
      let clock = get_or_insert s.mindelay_clock now in
      (
        some (max (clock + s.send_mindelay) ((sent_last s).timestamp + send_interval srtt_ms)),
        some clock,
      )

  abbrev pub resend_deadline : TransportSender S → ℕ → Option ℕ × Option ℕ
  resend_deadline s srtt_ms =
      let t = (sent_last s).timestamp + send_interval srtt_ms in
      (
        some (elim s.mindelay_clock [ none ↦ t | some clock ↦ max t (clock + s.send_mindelay) ]),
        s.mindelay_clock,
      )

  abbrev pub probe_deadline : TransportSender S → ℕ → Option ℕ × Option ℕ
  probe_deadline s timeout =
      (some ((sent_last s).timestamp + timeout + ms ack_delay_ms), s.mindelay_clock)

  abbrev pub differs_from : TransportSender S → TimestampedState S → Bool
  differs_from s sent = not (ops.state_equal s.current_state sent.state)

  -- When to send: something new; sent but perhaps not received; received but not acknowledged.
  unfoldable pub send_deadline : TransportSender S → ℕ → ℕ → ℕ → Option ℕ × Option ℕ
  send_deadline s now timeout srtt_ms =
      if differs_from s (sent_last s)
      then new_deadline s now srtt_ms
      else if differs_from s (sent_at s s.assumed_receiver_state) && active s now
      then resend_deadline s srtt_ms
      else if differs_from s (sent_at s 0) && active s now
      then probe_deadline s timeout
      else (none, s.mindelay_clock)

  -- When the next ack is due.
  unfoldable pub ack_deadline : TransportSender S → ℕ → ℕ → ℕ
  ack_deadline s now srtt_ms =
      if s.shutdown_in_progress || s.ack_num == shutdown_num
      then (sent_last s).timestamp + send_interval srtt_ms
      else if s.pending_data_ack && ltb (now + ms ack_delay_ms) s.next_ack_time
      then now + ms ack_delay_ms
      else s.next_ack_time

  unfoldable pub calculate_timers : TransportSender S → ℕ → ℕ → ℕ → TransportSender S
  calculate_timers s now timeout srtt_ms =
      let s' = rationalize_states (update_assumed_receiver_state s now timeout) in
      let (send_time, clock) = send_deadline s' now timeout srtt_ms in
      record s' {
        next_ack_time = ack_deadline s' now srtt_ms;
        next_send_time = send_time;
        mindelay_clock = clock;
      }

  abbrev pub next_deadline : TransportSender S → ℕ
  next_deadline s = elim s.next_send_time [
    | none ↦ s.next_ack_time
    | some send ↦ min s.next_ack_time send
  ]

  -- Milliseconds to the next deadline, `u64::MAX` where there is no peer.
  unfoldable pub wait_time_ms : TransportSender S → ℕ → ℕ → ℕ → Bool → ℕ × TransportSender S
  wait_time_ms s now timeout srtt_ms has_remote_addr =
      let s' = calculate_timers s now timeout srtt_ms in
      if not has_remote_addr then (2 ^ 64 - 1, s') else (as_millis (next_deadline s' - now), s')
