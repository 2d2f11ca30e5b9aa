-- ===== src/Network/Transport.antt =====
-- crates/morsh-network/src/transport.rs, `Transport`: both halves of the protocol over a connection,
-- and the history of the states that were received.
pub mod Numbers
pub mod Invariant
pub mod Driving
pub mod Calls
use morsh.Common.{
  ℕ, zero, suc, ◌+◌, ◌-◌, min, List, [], ◌∷◌, ◌++◌, Option, none, some, Bool, false, not, ◌&&◌,
  ◌||◌, ltb, ◌==◌, if◌then◌else◌, length, get_or, set, last?, option_eq, Result, ok, err, panicked,
  unwrap_or,
}
use morsh.Proto.{Instruction, Wire}
use morsh.Crypto.Cipher.{Cipher}
use morsh.Network.Constants.{ms, protocol_version}
use morsh.Network.State.{State, TimestampedState}
use morsh.Network.Sender
use morsh.Network.Sender.{
  TransportSender, sent_at, shutdown_num, retain_from, has_num, position,
  process_acknowledgment_through, set_ack_num, remote_heard, set_data_ack,
}
use morsh.Network.Connection.{
  Connection, ConnectionError, set_last_roundtrip_success, fragmenter_last_ack_sent,
}
use morsh.Network.Connection.Incoming.{RecvClock, Received, process_incoming}

abbrev pub received_states_max : ℕ
received_states_max = 1024

abbrev pub receiver_quench_ms : ℕ
receiver_quench_ms = 15000

pub record Transport {ℓ κ} (M : Type ℓ) (R : Type κ) : Type (ℓ ⊔ κ) where
  pub connection : Connection
  pub sender : TransportSender M
  pub received_states : List (TimestampedState R)
  pub receiver_quench_timer : Option ℕ
  pub last_receiver_state : R

pub data RecvOutcome : Type 0 where
  incomplete : RecvOutcome
  ignored : RecvOutcome
  out_of_order_state : ℕ → RecvOutcome
  new_state : ℕ → RecvOutcome

-- The `String` errors, one constructor for each text.
pub data TransportError : Type 0 where
  connection_error : ConnectionError → TransportError
  version_mismatch : Option ℕ → TransportError
  malformed_diff : TransportError

-- The readings of the monotonic clock in `process_instruction`.
pub record InstructionClock : Type 0 where
  pub quenched_at : ℕ
  pub applied_at : ℕ

-- `iter().position(|s| s.num > n)`, and `Vec::insert` there or `push`.
abbrev pub first_above {ℓ} : {R : Type ℓ} → ℕ → List (TimestampedState R) → Option ℕ
first_above n [] = none
first_above n (x ∷ xs) =
    if ltb n x.num then some 0 else elim (first_above n xs) [ none ↦ none | some i ↦ some (i + 1) ]

abbrev pub insert {ℓ} : {A : Type ℓ} → List A → ℕ → A → List A
insert [] i a = a ∷ []
insert (x ∷ xs) zero a = a ∷ x ∷ xs
insert (x ∷ xs) (suc i) a = x ∷ insert xs i a

module _ {ℓ} {M : Type ℓ} where
  -- What the sender learns of a newest state: its number, to acknowledge, and when it came.
  unfoldable pub heard : TransportSender M → ℕ → ℕ → List ℕ → TransportSender M
  unfolding set_ack_num remote_heard set_data_ack
  heard s num when [] = remote_heard (set_ack_num s num) when
  heard s num when (b ∷ bs) = set_data_ack (remote_heard (set_ack_num s num) when)

module _ {ℓ} {R : Type ℓ} (ops : State R) where
  -- An empty diff is not applied.
  abbrev pub patched : R → List ℕ → Option R
  patched s [] = some s
  patched s (b ∷ bs) = ops.apply_string s (b ∷ bs)

  abbrev pub subtract_each : R → List (TimestampedState R) → List (TimestampedState R)
  subtract_each known [] = []
  subtract_each known (x ∷ xs) =
      record x { state = ops.subtract x.state known } ∷ subtract_each known xs

module _ {ℓ κ} {M : Type ℓ} {R : Type κ} where
  unfoldable pub new : Connection → M → R → ℕ → Transport M R
  unfolding Sender.new
  new connection initial_state initial_remote now = record {
    connection = connection;
    sender = Sender.new initial_state now;
    received_states = record { timestamp = now; num = 0; state = initial_remote } ∷ [];
    receiver_quench_timer = none;
    last_receiver_state = initial_remote;
  }

  -- `received_states[i]`, at an index that is in range.
  abbrev pub received_at : Transport M R → ℕ → TimestampedState R
  received_at t i =
      get_or t.received_states i (record { timestamp = 0; num = 0; state = t.last_receiver_state })

  -- `received_states.last().unwrap()`
  abbrev pub received_last : Transport M R → TimestampedState R
  received_last t = received_at t (length t.received_states - 1)

  unfoldable pub get_remote_state_num : Transport M R → ℕ
  get_remote_state_num t = (received_last t).num

  unfoldable pub counterparty_shutdown_ack_sent : Transport M R → Bool
  unfolding fragmenter_last_ack_sent
  counterparty_shutdown_ack_sent t = fragmenter_last_ack_sent t.connection == shutdown_num

  -- Drop what is older than the peer needs, but never the newest state.
  unfoldable pub process_throwaway_until : Transport M R → ℕ → Transport M R
  process_throwaway_until t throwaway_num = elim (last? t.received_states) [
    | none ↦ t
    | some newest ↦ record t {
      received_states = retain_from (min throwaway_num newest.num) t.received_states;
    }
  ]

  -- What the acknowledgment in an instruction does.
  unfoldable pub acknowledged : Transport M R → ℕ → Transport M R
  unfolding process_acknowledgment_through set_last_roundtrip_success
  acknowledged t ack_num =
      let sender = process_acknowledgment_through t.sender ack_num in
      record t {
        sender = sender;
        connection = set_last_roundtrip_success t.connection (sent_at sender 0).timestamp;
      }

  -- The queue is full, and was found full a while ago.
  abbrev pub quenched : Transport M R → ℕ → Bool
  quenched t now =
      ltb received_states_max (length t.received_states)
      && elim t.receiver_quench_timer [ none ↦ false | some until ↦ ltb now until ]

  unfoldable pub quench_started : Transport M R → ℕ → Transport M R
  quench_started t now =
      if ltb received_states_max (length t.received_states)
      then record t { receiver_quench_timer = some (now + ms receiver_quench_ms) }
      else t

  -- File the new state by its number; only a newest one is acknowledged.
  unfoldable pub filed : Transport M R → TimestampedState R → List ℕ → RecvOutcome × Transport M R
  filed t x diff = elim (first_above x.num t.received_states) [
    | some pos ↦
        (out_of_order_state x.num, record t { received_states = insert t.received_states pos x })
    | none ↦ (
      new_state x.num,
      record t {
        received_states = t.received_states ++ (x ∷ []);
        sender = heard t.sender x.num x.timestamp diff;
      },
    )
  ]

-- What the calls return: an outcome or an error, and the transport after it.
abbrev pub Returned {ℓ κ} : Type ℓ → Type κ → Type (ℓ ⊔ κ)
Returned M R = Result TransportError RecvOutcome × Transport M R

module _ {ℓ κ} {M : Type ℓ} {R : Type κ} (ops : State R) where
  -- The copy of the state at `i` adopts what the original holds, and becomes the new state.
  unfoldable pub applied : Transport M R → ℕ → ℕ → List ℕ → ℕ → Returned M R
  applied t i new_num diff now =
      let reference = received_at t i in
      let (mine, theirs) = ops.adopt_from (ops.clone reference.state) reference.state in
      let t' = record t {
        received_states = set t.received_states i (record reference { state = theirs });
      } in
      elim (patched ops mine diff) [
        | none ↦ (err malformed_diff, t')
        | some state ↦
            let (out, u) =
              filed t' (record { timestamp = now; num = new_num; state = state }) diff in
            (ok out, u)
      ]

  -- The reference, found again after the history was culled, and room in the queue.
  unfoldable pub referenced : Transport M R → ℕ → ℕ → List ℕ → InstructionClock → Returned M R
  referenced t old_num new_num diff clock = elim (position old_num t.received_states) [
    | none ↦ (ok ignored, t)
    | some i ↦
        if quenched t clock.quenched_at
        then (ok ignored, t)
        else applied (quench_started t clock.quenched_at) i new_num diff clock.applied_at
  ]

  unfoldable pub process_instruction : Transport M R → Instruction → InstructionClock → Returned M R
  process_instruction t inst clock =
      let new_num = unwrap_or inst.new_num 0 in
      let old_num = unwrap_or inst.old_num 0 in
      let t' = acknowledged t (unwrap_or inst.ack_num 0) in
      if not (option_eq ◌==◌ inst.protocol_version (some protocol_version))
      then (err (version_mismatch inst.protocol_version), t)
      else if has_num new_num t.received_states || not (has_num old_num t.received_states)
      then (ok ignored, t')
      else referenced (process_throwaway_until t' (unwrap_or inst.throwaway_num 0)) old_num new_num
          (unwrap_or inst.diff []) clock

  -- What the connection made of a datagram, and the instruction in it, if one is complete.
  unfoldable pub delivered : Transport M R → Received → InstructionClock → Returned M R
  delivered t (err e, c) clock = (err (connection_error e), record t { connection = c })
  delivered t (panicked, c) clock = (panicked, record t { connection = c })
  delivered t (ok none, c) clock = (ok incomplete, record t { connection = c })
  delivered t (ok (some inst), c) clock =
      process_instruction (record t { connection = c }) inst clock

  unfoldable pub process_datagram :
      Wire → Cipher → Transport M R → RecvClock → InstructionClock → List ℕ → ℕ → Returned M R
  process_datagram wire cipher t recv_clock clock datagram peer =
      delivered t (process_incoming wire cipher t.connection recv_clock datagram peer) clock

  -- The diff since the state that was handed out last, and the history without what all share.
  unfoldable pub get_remote_diff : Transport M R → List ℕ × Transport M R
  get_remote_diff t =
      let ret = ops.diff_from (received_last t).state t.last_receiver_state in
      let received =
        if ops.has_prefix
        then subtract_each ops (received_at t 0).state t.received_states
        else t.received_states in
      let t' = record t { received_states = received } in
      (ret, record t' { last_receiver_state = (received_last t').state })
