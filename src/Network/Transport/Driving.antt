-- ===== src/Network/Transport/Driving.antt =====
-- crates/morsh-network/src/transport.rs: the calls of the event loop, which read the connection's
-- timers for the sender and hand its instruction to the connection.
use morsh.Common.{ℕ, ◌+◌, ◌%◌, ◌==◌, List, [], Option, none, some, Bool, if◌then◌else◌, Result, ok}
use morsh.Proto.{Instruction, Wire}
use morsh.Crypto.Cipher.{Cipher}
use morsh.Network.Constants.{chaff_max}
use morsh.Network.State.{State}
use morsh.Network.Sender.Timers
use morsh.Network.Sender.Tick
use morsh.Network.Connection.{ConnectionError, timeout}
use morsh.Network.Connection.Outgoing.{SendClock, Datagram, send}
use morsh.Network.Transport.{Transport}

-- `make_chaff`, with the random byte that chooses the length and what fills it.
abbrev pub make_chaff : ℕ → (ℕ → List ℕ) → List ℕ
make_chaff random_byte fill =
    let len = random_byte % (chaff_max + 1) in if len == 0 then [] else fill len

module _ {ℓ κ} {M : Type ℓ} {R : Type κ} (ops : State M) where
  -- `wait_time_ms` of the transport
  unfoldable pub wait_time : Transport M R → ℕ → ℕ × Transport M R
  unfolding timeout
  wait_time t now =
      let c = t.connection in
      let (wait, s) =
        Timers.wait_time_ms ops t.sender now (timeout c) c.rtt.srtt_ms c.has_remote_addr in
      (wait, record t { sender = s })

  -- What the connection does with the sender's instruction, if there is one.
  unfoldable pub dispatched :
      Wire
      → Cipher
      → (Datagram → Bool)
      → (ℕ → SendClock)
      → Transport M R
      → Option Instruction
      → Result ConnectionError (Unit {0}) × Transport M R × List Datagram
  dispatched wire cipher accepts clock t none = (ok tt, t, [])
  dispatched wire cipher accepts clock t (some inst) =
      let (r, c, sent) = send cipher wire accepts clock t.connection inst in
      (r, record t { connection = c }, sent)

  unfoldable pub tick_transport :
      Wire
      → Cipher
      → (Datagram → Bool)
      → (ℕ → SendClock)
      → Transport M R
      → ℕ
      → List ℕ
      → Result ConnectionError (Unit {0}) × Transport M R × List Datagram
  unfolding timeout
  tick_transport wire cipher accepts clock t now chaff =
      let c = t.connection in
      let (inst, s) =
        Tick.tick ops t.sender now (timeout c) c.rtt.srtt_ms c.has_remote_addr chaff in
      dispatched wire cipher accepts clock (record t { sender = s }) inst
