-- ===== src/Network/Transport/Calls.antt =====
-- crates/morsh-network/src/transport.rs and connection.rs: the calls that read the transport, or pass
-- on to its sender and its connection.
use morsh.Common.{ℕ, Option, Bool, length, Result, ok, err, panicked}
use morsh.Network.Constants.{as_millis}
use morsh.Network.Rtt.{RttEstimator}
use morsh.Network.State.{TimestampedState}
use morsh.Network.Sender
use morsh.Network.Sender.{TransportSender, sent_at, sent_last, send_interval}
use morsh.Network.Connection
use morsh.Network.Connection.{Connection, ConnectionError}
use morsh.Network.Transport.{Transport, received_last}

-- The connection's reads.
abbrev pub has_remote : Connection → Bool
has_remote c = c.has_remote_addr

abbrev pub srtt_ms : Connection → ℕ
srtt_ms c = c.rtt.srtt_ms

abbrev pub socket_count : Connection → ℕ
socket_count c = length c.sockets

abbrev pub peer_addr : Connection → Option ℕ
peer_addr c = c.remote_addr

abbrev pub next_send_seq : Connection → ℕ
next_send_seq c = c.send_seq

abbrev pub estimator : Connection → RttEstimator
estimator c = c.rtt

module _ {ℓ} {S : Type ℓ} where
  -- The sender's reads.
  abbrev pub current : TransportSender S → S
  current s = s.current_state

  abbrev pub shutting_down : TransportSender S → Bool
  shutting_down s = s.shutdown_in_progress

  abbrev pub sent_state_acked_timestamp : TransportSender S → ℕ
  sent_state_acked_timestamp s = (sent_at s 0).timestamp

  abbrev pub sent_state_acked : TransportSender S → ℕ
  sent_state_acked s = (sent_at s 0).num

  abbrev pub sent_state_last : TransportSender S → ℕ
  sent_state_last s = (sent_last s).num

  abbrev pub sent_states_len : TransportSender S → ℕ
  sent_states_len s = length s.sent_states

module _ {ℓ κ} {M : Type ℓ} {R : Type κ} where
  abbrev pub has_remote_addr : Transport M R → Bool
  has_remote_addr t = has_remote t.connection

  abbrev pub received_states_len : Transport M R → ℕ
  received_states_len t = length t.received_states

  abbrev pub get_latest_remote_state : Transport M R → TimestampedState R
  get_latest_remote_state t = received_last t

  unfoldable pub start_shutdown : Transport M R → ℕ → Transport M R
  start_shutdown t now = record t { sender = Sender.start_shutdown t.sender now }

  abbrev pub shutdown_in_progress : Transport M R → Bool
  shutdown_in_progress t = t.sender.shutdown_in_progress

  unfoldable pub shutdown_acknowledged : Transport M R → Bool
  shutdown_acknowledged t = Sender.shutdown_acknowledged t.sender

  unfoldable pub shutdown_ack_timed_out : Transport M R → ℕ → Bool
  shutdown_ack_timed_out t now = Sender.shutdown_ack_timed_out t.sender now

  abbrev pub get_current_state : Transport M R → M
  get_current_state t = t.sender.current_state

  unfoldable pub set_current_state : Transport M R → M → Transport M R
  set_current_state t state = record t { sender = Sender.set_current_state t.sender state }

  abbrev pub send_interval_of : Transport M R → ℕ
  send_interval_of t = as_millis (send_interval (srtt_ms t.connection))

  abbrev pub should_hop_port : Transport M R → ℕ → Bool
  should_hop_port t now = Connection.should_hop_port t.connection now

  -- The hop itself, or the connection's error.
  abbrev pub hopped :
      Transport M R → Result ConnectionError Connection → Result ConnectionError (Transport M R)
  hopped t (ok c) = ok (record t { connection = c })
  hopped t (err e) = err e
  hopped t panicked = panicked

  unfoldable pub hop_port :
      Transport M R → Result ConnectionError ℕ → ℕ → Result ConnectionError (Transport M R)
  hop_port t socket now = hopped t (Connection.hop_port t.connection socket now)
