-- ===== src/Network/Connection/Incoming.antt =====
-- crates/morsh-network/src/connection.rs, `process_incoming`: one datagram, decrypted, checked and
-- handed to the assembler.
pub mod Guards
pub mod Crossing
pub mod Link
use morsh.Common.{
  ℕ, ◌+◌, ◌-◌, ◌/◌, ◌%◌, ◌^◌, List, Option, none, some, Bool, true, false, not, ◌&&◌, ltb, ◌==◌,
  if◌then◌else◌, length, take, drop, from_be, option_eq, Result, ok, err, panicked, map_err,
}
use morsh.Common.Int.{ℤ, pos, negsuc, ltb_ℤ}
use morsh.Proto.{Instruction, Wire}
use morsh.Crypto.Nonce.{Nonce, val}
use morsh.Crypto.Cipher.{Cipher}
use morsh.Crypto.Session.{Session, Message, CryptoError, decrypt}
use morsh.Network.Rtt
use morsh.Network.Rtt.{RttEstimator}
use morsh.Network.Fragment.{Fragment, FragmentError, from_bytes}
use morsh.Network.Assembly.{Assembly, add_fragment}
use morsh.Network.Connection.{
  Connection, ConnectionError, decryption_error, wrong_direction, message_too_short, fragment_error,
  timestamp16, timestamp_diff, bit63, clear_bit63,
}

-- What the clocks say during one call: the system's in milliseconds, and the monotonic one at its
-- two readings.
pub record RecvClock : Type 0 where
  pub unix_ms : ℕ
  pub saved_at : ℕ
  pub heard_at : ℕ

abbrev pub Received : Type 0
Received = Result ConnectionError (Option Instruction) × Connection

-- `to_client == self.server`
abbrev pub same_side : Bool → Bool → Bool
same_side true b = b
same_side false b = not b

-- The bytes at `i` and `i + 1`.
abbrev pub u16_at : ℕ → List ℕ → ℕ
u16_at i text = from_be (take 2 (drop i text))

-- `rtt as u64`
abbrev pub as_u64 : ℤ → ℕ
as_u64 (pos n) = n
as_u64 (negsuc n) = 2 ^ 64 - n - 1

-- The sample that an echoed timestamp gives, if it is a plausible one.
unfoldable pub sample : RttEstimator → ℤ → RttEstimator
sample r rtt = if ltb_ℤ (pos 0) rtt && ltb_ℤ rtt (pos 5000) then Rtt.update r (as_u64 rtt) else r

-- The checks of an authentic message, in order: its direction, its length, and its fragment.
unfoldable pub gate : Bool → Message → Result ConnectionError Fragment
gate server msg =
    let to_client = bit63 (val msg.nonce) in
    if same_side to_client server
    then err (wrong_direction to_client)
    else if ltb (length msg.text) 4
    then err (message_too_short (length msg.text))
    else map_err fragment_error (from_bytes (drop 4 msg.text))

-- `nonce_val & !TO_CLIENT_BIT`
abbrev pub seq_of : Message → ℕ
seq_of msg = clear_bit63 (val msg.nonce)

-- What a fresh packet does to the timing and to the peer's address.
unfoldable pub refreshed : Connection → RecvClock → Message → ℕ → Connection
refreshed c clock msg peer =
    let timestamp = u16_at 0 msg.text in
    let reply = u16_at 2 msg.text in
    record c {
      expected_receiver_seq = seq_of msg + 1;
      saved_timestamp = if timestamp == 0xffff then c.saved_timestamp else timestamp;
      saved_timestamp_received_at =
          if timestamp == 0xffff then c.saved_timestamp_received_at else clock.saved_at;
      rtt =
          if reply == 0xffff
          then c.rtt
          else sample c.rtt (timestamp_diff (timestamp16 clock.unix_ms) reply);
      last_heard = clock.heard_at;
      has_remote_addr = true;
      remote_addr =
          if c.server && not (option_eq ◌==◌ c.remote_addr (some peer))
          then some peer
          else c.remote_addr;
    }

module _ (wire : Wire) where
  -- `self.assembler.add_fragment(frag)`
  unfoldable pub assembled : Connection → Fragment → Received
  assembled c frag =
      let (r, a) = add_fragment wire c.assembler frag in
      (map_err fragment_error r, record c { assembler = a })

  -- An authentic message. One that is out of order or replayed goes to the assembler alone.
  unfoldable pub accept : Connection → RecvClock → Message → ℕ → Received
  accept c clock msg peer = elim (gate c.server msg) [
    | err e ↦ (err e, c)
    | panicked ↦ (panicked, c)
    | ok frag ↦
        if ltb (seq_of msg) c.expected_receiver_seq
        then assembled c frag
        else assembled (refreshed c clock msg peer) frag
  ]

  unfoldable pub process_incoming : Cipher → Connection → RecvClock → List ℕ → ℕ → Received
  process_incoming cipher c clock datagram peer = elim (decrypt cipher c.session datagram) [
    | err e ↦ (err (decryption_error e), c)
    | panicked ↦ (panicked, c)
    | ok msg ↦ accept c clock msg peer
  ]
