-- ===== src/Network/Sender.antt =====
-- crates/morsh-network/src/transport.rs, `TransportSender`: the history of the states that were
-- sent, and the one that the receiver is assumed to hold.
pub mod Timers
pub mod Tick
pub mod Invariant
use morsh.Common.{
  ℕ, zero, suc, ◌+◌, ◌-◌, ◌*◌, ◌/◌, ◌%◌, ◌^◌, List, [], ◌∷◌, ◌++◌, map, Option, none, some, Bool,
  true, false, not, ◌&&◌, ◌||◌, ltb, leb, ◌==◌, if◌then◌else◌, length, get_or, drop, remove_at,
}
use morsh.Network.Constants.{
  ms, send_interval_min_ms, send_interval_max_ms, send_mindelay_ms, shutdown_retries,
  active_retry_timeout_ms,
}
use morsh.Network.Rtt.{clamp}
use morsh.Network.State.{State, TimestampedState}

-- Mosh's uint64_t(-1).
abbrev pub shutdown_num : ℕ
shutdown_num = 2 ^ 64 - 1

abbrev pub sent_states_max : ℕ
sent_states_max = 32

pub record TransportSender {ℓ} (S : Type ℓ) : Type ℓ where
  pub current_state : S
  pub sent_states : List (TimestampedState S)
  pub assumed_receiver_state : ℕ
  pub next_ack_time : ℕ
  pub next_send_time : Option ℕ
  pub shutdown_in_progress : Bool
  pub shutdown_tries : ℕ
  pub shutdown_start : Option ℕ
  pub ack_num : ℕ
  pub pending_data_ack : Bool
  pub send_mindelay : ℕ
  pub last_heard : Option ℕ
  pub mindelay_clock : Option ℕ

-- `send_interval`: half the round-trip time, within the limits of the frame rate.
unfoldable pub send_interval : ℕ → ℕ
unfolding clamp
send_interval srtt_ms = ms (clamp ((srtt_ms + 1) / 2) send_interval_min_ms send_interval_max_ms)

module _ {ℓ} {S : Type ℓ} where
  unfoldable pub new : S → ℕ → TransportSender S
  new initial_state now = record {
    current_state = initial_state;
    sent_states = record { timestamp = now; num = 0; state = initial_state } ∷ [];
    assumed_receiver_state = 0;
    next_ack_time = now;
    next_send_time = some now;
    shutdown_in_progress = false;
    shutdown_tries = 0;
    shutdown_start = none;
    ack_num = 0;
    pending_data_ack = false;
    send_mindelay = ms send_mindelay_ms;
    last_heard = none;
    mindelay_clock = none;
  }

  -- `sent_states[i]`. An index out of range panics in the code; here it reads a stand-in.
  abbrev pub sent_at : TransportSender S → ℕ → TimestampedState S
  sent_at s i = get_or s.sent_states i (record { timestamp = 0; num = 0; state = s.current_state })

  -- `sent_states.last().unwrap()`
  abbrev pub sent_last : TransportSender S → TimestampedState S
  sent_last s = sent_at s (length s.sent_states - 1)

  unfoldable pub set_current_state : TransportSender S → S → TransportSender S
  set_current_state s state = record s { current_state = state }

  unfoldable pub set_ack_num : TransportSender S → ℕ → TransportSender S
  set_ack_num s ack_num = record s { ack_num = ack_num }

  unfoldable pub set_data_ack : TransportSender S → TransportSender S
  set_data_ack s = record s { pending_data_ack = true }

  unfoldable pub remote_heard : TransportSender S → ℕ → TransportSender S
  remote_heard s when = record s { last_heard = some when }

  unfoldable pub start_shutdown : TransportSender S → ℕ → TransportSender S
  start_shutdown s now =
      if s.shutdown_in_progress
      then s
      else record s { shutdown_start = some now; shutdown_in_progress = true }

  unfoldable pub shutdown_acknowledged : TransportSender S → Bool
  shutdown_acknowledged s = (sent_at s 0).num == shutdown_num

  unfoldable pub shutdown_ack_timed_out : TransportSender S → ℕ → Bool
  shutdown_ack_timed_out s now =
      if not s.shutdown_in_progress
      then false
      else if leb shutdown_retries s.shutdown_tries
      then true
      else elim s.shutdown_start [
        | some start ↦ leb (ms active_retry_timeout_ms) (now - start)
        | none ↦ false
      ]

  -- The loop over the states from index `i`, which stops at the first that is not recent.
  abbrev pub assumed_from : ℕ → ℕ → ℕ → ℕ → List (TimestampedState S) → ℕ
  assumed_from now horizon i assumed [] = assumed
  assumed_from now horizon i assumed (x ∷ xs) =
      let rest = assumed_from now horizon (i + 1) i xs in
      if ltb (now - x.timestamp) horizon then rest else assumed

  -- `retain(|s| s.num >= n)`
  abbrev pub retain_from : ℕ → List (TimestampedState S) → List (TimestampedState S)
  retain_from n [] = []
  retain_from n (x ∷ xs) = if leb n x.num then x ∷ retain_from n xs else retain_from n xs

  -- `iter().any(|s| s.num == n)`
  abbrev pub has_num : ℕ → List (TimestampedState S) → Bool
  has_num n [] = false
  has_num n (x ∷ xs) = x.num == n || has_num n xs

  -- `iter().position(|s| s.num == n)`
  abbrev pub position : ℕ → List (TimestampedState S) → Option ℕ
  position n [] = none
  position n (x ∷ xs) =
      if x.num == n then some 0 else elim (position n xs) [ none ↦ none | some i ↦ some (i + 1) ]

  -- The history from `ack_num` on; the assumed state is found again by its number.
  unfoldable pub culled : TransportSender S → ℕ → TransportSender S
  culled s ack_num =
      let kept = retain_from ack_num s.sent_states in
      record s {
        sent_states = kept;
        assumed_receiver_state = elim (position (sent_at s s.assumed_receiver_state).num kept) [
          | some i ↦ i
          | none ↦ 0
        ];
      }

  -- Drop what the peer has confirmed; an ack for a state that is not held is ignored.
  unfoldable pub process_acknowledgment_through : TransportSender S → ℕ → TransportSender S
  process_acknowledgment_through s ack_num =
      if has_num ack_num s.sent_states then culled s ack_num else s

  -- `remove(victim)`, with the assumed index following its state.
  unfoldable pub without : TransportSender S → ℕ → TransportSender S
  without s victim = record s {
    sent_states = remove_at s.sent_states victim;
    assumed_receiver_state =
        if leb victim s.assumed_receiver_state
        then s.assumed_receiver_state - 1
        else s.assumed_receiver_state;
  }

  unfoldable pub pushed : TransportSender S → ℕ → ℕ → S → TransportSender S
  pushed s timestamp num state = record s {
    sent_states =
        s.sent_states ++ (record { timestamp = timestamp; num = num; state = state } ∷ []);
  }

  -- The history with one more state. Past the limit one from the middle is dropped.
  unfoldable pub add_sent_state : TransportSender S → ℕ → ℕ → S → TransportSender S
  add_sent_state s timestamp num state =
      let s' = pushed s timestamp num state in
      if ltb sent_states_max (length s'.sent_states)
      then without s' (length s'.sent_states - 16)
      else s'
