-- ===== src/Network/Sync.antt =====
-- crates/morsh-network/src/transport.rs and state.rs, the two ends together: one end's sender, the
-- other end's receiver, and a network that keeps every instruction and delivers any of them at any
-- time, any number of times.
pub mod History
pub mod Sending
pub mod Receiving
pub mod Agreement
pub mod States
use morsh.Common.{
  ℕ, ◌+◌, ◌≡◌, ◌≢◌, refl, List, [], ◌∷◌, Option, none, some, Bool, true, false, ◌⊎◌, unwrap_or,
  get_elem?,
}
use morsh.Proto.{Instruction}
use morsh.Network.State.{State}
use morsh.Network.Connection.{Connection}
use morsh.Network.Sender
use morsh.Network.Sender.{TransportSender, set_current_state, process_acknowledgment_through}
use morsh.Network.Sender.Tick.{tick}
use morsh.Network.Transport
use morsh.Network.Transport.{Transport, InstructionClock, process_instruction}

-- The states as they were sent: numbers, each with the state that it named.
abbrev pub Log {ℓ} : Type ℓ → Type ℓ
Log S = List (ℕ × S)

abbrev pub Logged {ℓ} : {S : Type ℓ} → Log S → ℕ → S → Type ℓ
Logged [] n s = ⊥ × Unit {ℓ}
Logged ((k, a) ∷ log) n s = ((k ≡ n) × (a ≡ s)) ⊎ Logged log n s

-- What happens: time passes, the application changes the state, the sender ticks, an acknowledgment
-- reaches the sender, or the instruction at an index of those sent reaches the receiver.
pub data Event {ℓ} (S : Type ℓ) : Type ℓ where
  elapse : ℕ → Event S
  update : S → Event S
  tick_sender : ℕ → ℕ → Bool → List ℕ → Event S
  acknowledge : ℕ → Event S
  deliver : ℕ → InstructionClock → Event S

pub record Config {ℓ κ} (M : Type ℓ) (S : Type κ) : Type (ℓ ⊔ κ) where
  pub now : ℕ
  pub sender : TransportSender S
  pub receiver : Transport M S
  pub flight : List Instruction
  pub log : Log S

module _ {ℓ κ} {M : Type ℓ} {S : Type κ} where
  -- Both ends with the same first state, which has the number 0.
  unfoldable pub start : Connection → M → S → ℕ → Config M S
  start connection m initial now = record {
    now = now;
    sender = Sender.new initial now;
    receiver = Transport.new connection m initial now;
    flight = [];
    log = (0, initial) ∷ [];
  }

  -- The sender after a tick; an instruction is in flight from then on, and the state that it names is
  -- logged.
  unfoldable pub ticked : Config M S → Option Instruction × TransportSender S → Config M S
  ticked c (none, s) = record c { sender = s }
  ticked c (some inst, s) = record c {
    sender = s;
    flight = inst ∷ c.flight;
    log = (unwrap_or inst.new_num 0, c.sender.current_state) ∷ c.log;
  }

module _ {ℓ κ} {M : Type ℓ} {S : Type κ} (ops : State S) where
  unfoldable pub delivered : Config M S → Option Instruction → InstructionClock → Config M S
  delivered c none clock = c
  delivered c (some inst) clock = record c {
    receiver = (process_instruction ops c.receiver inst clock).1;
  }

  unfoldable pub step : Config M S → Event S → Config M S
  step c (elapse d) = record c { now = c.now + d }
  step c (update s) = record c { sender = set_current_state c.sender s }
  step c (tick_sender timeout srtt_ms has_remote_addr chaff) =
      ticked c (tick ops c.sender c.now timeout srtt_ms has_remote_addr chaff)
  step c (acknowledge n) = record c { sender = process_acknowledgment_through c.sender n }
  step c (deliver i clock) = delivered c (get_elem? c.flight i) clock

  abbrev pub run : Config M S → List (Event S) → Config M S
  run c [] = c
  run c (e ∷ es) = run (step c e) es
