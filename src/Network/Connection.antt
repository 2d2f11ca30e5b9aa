-- ===== src/Network/Connection.antt =====
-- crates/morsh-network/src/connection.rs: the state of an encrypted connection, its timestamps, and
-- the operations that neither send nor receive. A socket and an address are numbers: they are only
-- stored and compared. The sockets' own work is not modelled.
pub mod Outgoing
pub mod Incoming
pub mod Sockets
use morsh.Common.{
  ℕ, ◌+◌, ◌-◌, ◌*◌, ◌/◌, ◌%◌, ◌^◌, List, [], ◌∷◌, ◌++◌, Option, none, some, Bool, true, false, not,
  ◌&&◌, ltb, ◌==◌, if◌then◌else◌, length, Result, ok, err, ◌>>=◌,
}
use morsh.Common.Int.{ℤ, pos, negsuc}
use morsh.Crypto.Session.{Session, CryptoError}
use morsh.Network.Constants.{ms, port_hop_interval_ms, max_ports_open}
use morsh.Network.Rtt.{RttEstimator}
use morsh.Network.Rtt
use morsh.Network.Fragment.{FragmentError}
use morsh.Network.Fragmenter.{Fragmenter, last_ack_sent}
use morsh.Network.Fragmenter
use morsh.Network.Assembly.{Assembly}
use morsh.Network.Assembly

pub record Connection : Type 0 where
  pub sockets : List ℕ
  pub remote_addr : Option ℕ
  pub session : Session
  pub rtt : RttEstimator
  pub fragger : Fragmenter
  pub assembler : Assembly
  pub last_port_choice : ℕ
  pub last_roundtrip_success : ℕ
  pub server : Bool
  pub has_remote_addr : Bool
  pub last_heard : ℕ
  pub send_seq : ℕ
  pub expected_receiver_seq : ℕ
  pub saved_timestamp : ℕ
  pub saved_timestamp_received_at : ℕ

-- The `String` errors of connection.rs, one constructor for each text.
pub data ConnectionError : Type 0 where
  decryption_error : CryptoError → ConnectionError
  wrong_direction : Bool → ConnectionError
  message_too_short : ℕ → ConnectionError
  fragment_error : FragmentError → ConnectionError
  no_remote_address : ConnectionError
  send_error : ConnectionError
  bind_error : ConnectionError

-- The system clock, in milliseconds, as 16 bits that are never 0xFFFF.
unfoldable pub timestamp16 : ℕ → ℕ
timestamp16 unix_ms = let ts = unix_ms % 2 ^ 64 % 65536 in if ts == 0xffff then 0 else ts

-- `a.wrapping_sub(b) as i16 as i32`
unfoldable pub timestamp_diff : ℕ → ℕ → ℤ
timestamp_diff a b =
    let d = (a + 2 ^ 16 - b) % 2 ^ 16 in if ltb d (2 ^ 15) then pos d else negsuc (2 ^ 16 - d - 1)

-- Bit 63 of a u64, the u64 without it, and the u64 with it.
abbrev pub bit63 : ℕ → Bool
bit63 v = (v / 2 ^ 63 % 2) == 1

abbrev pub clear_bit63 : ℕ → ℕ
clear_bit63 v = if bit63 v then v - 2 ^ 63 else v

abbrev pub set_bit63 : ℕ → ℕ
set_bit63 v = if bit63 v then v else v + 2 ^ 63

pub build : ℕ → Session → Bool → ℕ → Connection
build socket session server now = record {
  sockets = socket ∷ [];
  remote_addr = none;
  session = session;
  rtt = Rtt.new;
  fragger = Fragmenter.new;
  assembler = Assembly.new;
  last_port_choice = now;
  last_roundtrip_success = now;
  server = server;
  has_remote_addr = false;
  last_heard = now;
  send_seq = 0;
  expected_receiver_seq = 0;
  saved_timestamp = 0;
  saved_timestamp_received_at = now;
}

unfoldable pub set_remote_addr : Connection → ℕ → Connection
set_remote_addr c addr = record c { remote_addr = some addr; has_remote_addr = true }

-- `Connection::timeout`
unfoldable pub timeout : Connection → ℕ
timeout c = ms (Rtt.rto_ms c.rtt)

unfoldable pub set_last_roundtrip_success : Connection → ℕ → Connection
set_last_roundtrip_success c when = record c { last_roundtrip_success = when }

unfoldable pub fragmenter_last_ack_sent : Connection → ℕ
fragmenter_last_ack_sent c = last_ack_sent c.fragger

unfoldable pub time_since_last_heard : Connection → ℕ → ℕ
time_since_last_heard c now = now - c.last_heard

pub record_rtt : Connection → ℕ → Connection
record_rtt c rtt_ms = record c { rtt = Rtt.update c.rtt rtt_ms }

-- The client hops when neither a hop nor a round trip is recent.
unfoldable pub should_hop_port : Connection → ℕ → Bool
should_hop_port c now =
    not c.server
    && ltb (ms port_hop_interval_ms) (now - c.last_port_choice)
    && ltb (ms port_hop_interval_ms) (now - c.last_roundtrip_success)

-- `while sockets.len() > MAX_PORTS_OPEN { sockets.remove(0) }`
unfoldable pub prune_sockets : List ℕ → List ℕ
prune_sockets [] = []
prune_sockets (s ∷ ss) =
    let rest = prune_sockets ss in if ltb max_ports_open (length (s ∷ ss)) then rest else s ∷ ss

-- `bind_udp` gives the socket, or an error.
unfoldable pub hop_port :
    Connection → Result ConnectionError ℕ → ℕ → Result ConnectionError Connection
hop_port c bound now = do
  socket ← bound
  ok (record c { sockets = prune_sockets (c.sockets ++ (socket ∷ [])); last_port_choice = now })
