-- ===== src/Network/Sync/Sending.antt =====
-- crates/morsh-network/src/transport.rs: what holds of a sender and of the log of what it sent, and
-- what a tick may do.
pub mod Instructions
pub mod Ticks
use morsh.Common.{
  ℕ, zero, suc, ◌+◌, ◌-◌, ◌%◌, ◌^◌, ◌≤◌, ◌<◌, ◌≡◌, ◌≢◌, refl, sym, ap, ◌∙◌, subst, List, [], ◌∷◌,
  ◌++◌, Option, none, some, Bool, true, false, not, ◌&&◌, ◌||◌, ltb, leb, ◌==◌, if◌then◌else◌,
  length, get_or, set, remove_at, Bool-cases, ◌⊎◌, inl, inr, arith, length-append, length-remove_at,
  length-set, ltb→lt, ltb→le, unwrap_or, ne→==,
}
use morsh.Proto.{Instruction}
use morsh.Network.State.{State, TimestampedState}
use morsh.Network.Sender.{
  TransportSender, sent_at, sent_last, without, pushed, add_sent_state, sent_states_max,
  shutdown_num,
}
use morsh.Network.Sender.Timers.{
  calculate_timers, rationalize_states, update_assumed_receiver_state,
}
use morsh.Network.Sender.Tick.{
  next_num, build_instruction, send_empty_ack, number_to_send, record_sent, send_to_receiver, cheap,
  attempt_prospective_resend_optimization, ack_if_due, tick_diff, tick_due, send_is_due, tick,
}
use morsh.Network.Sender.Invariant.{AtEnd, update_assumed-AtEnd, add_sent_state-keeps_assumed}
use morsh.Network.Transport.{patched}
use morsh.Network.Sync.{Log, Logged}
use morsh.Network.Sync.History.{
  Chain, Chain-push, Chain-remove_at, Chain-set_last, Chain-log, Chain-nonempty, Chain-get_or,
  Chain-last, Chain-Rising,
}

-- A number is used again only for a state that compares equal to one that was sent under it.
abbrev pub Renamed {ℓ} : {S : Type ℓ} → State S → Log S → Type ℓ
Renamed ops [] = Unit {ℓ}
Renamed {S} ops ((k, a) ∷ log) =
    (((s : S) → Logged log k s → ⊥) ⊎ ((s : S) × Logged log k s × (ops.state_equal a s ≡ true)))
    × Renamed ops log

-- Every number is at most `m`.
abbrev pub Below {ℓ} : {S : Type ℓ} → ℕ → Log S → Type 0
Below m [] = Unit {0}
Below m ((k, a) ∷ log) = (k ≤ m) × Below m log

-- The sender outside a shutdown, its last state having the number `m`.
pub record SenderValid {ℓ} {S : Type ℓ} (log : Log S) (m now : ℕ) (s : TransportSender S)
    : Type ℓ where
  pub history : Chain log m now 0 0 s.sent_states
  pub short : length s.sent_states ≤ sent_states_max
  pub running : s.shutdown_in_progress ≡ false

-- The diff is that from a state that was sent under the old number to one that was sent under the
-- new one.
abbrev pub Faithful {ℓ} : {S : Type ℓ} → State S → Log S → Instruction → Type ℓ
Faithful {S} ops log inst =
    (a : S) × (b : S) × Logged log (unwrap_or inst.old_num 0) a
    × Logged log (unwrap_or inst.new_num 0) b
    × (unwrap_or inst.diff [] ≡ ops.diff_from b a)

module _ {ℓ} {S : Type ℓ} where
  pub Logged-le : (log : Log S) (m n : ℕ) (a : S) → Below m log → Logged log n a → n ≤ m
  Logged-le [] m n a below h = absurd h.0
  Logged-le ((k, s) ∷ log) m n a below (inl h) = omega arith
  Logged-le ((k, s) ∷ log) m n a below (inr h) = Logged-le log m n a below.1 h

  pub Below-le : (log : Log S) (m m' : ℕ) → Below m log → m ≤ m' → Below m' log
  Below-le [] m m' h le = tt
  Below-le ((k, s) ∷ log) m m' h le = (omega arith, Below-le log m m' h.1 le)

-- What a tick did: nothing was sent, or an instruction that is faithful to the log with its state.
abbrev pub Effect {ℓ} :
    {S : Type ℓ} → State S → Log S → ℕ → ℕ → S → Option Instruction → TransportSender S → Type ℓ
Effect ops log m now current none s = SenderValid log m now s
Effect ops log m now current (some inst) s =
    (m' : ℕ) × (m ≤ m')
    × (m' ≤ m + 1)
    × Renamed ops ((unwrap_or inst.new_num 0, current) ∷ log)
    × Below m' ((unwrap_or inst.new_num 0, current) ∷ log)
    × SenderValid ((unwrap_or inst.new_num 0, current) ∷ log) m' now s
    × Faithful ops ((unwrap_or inst.new_num 0, current) ∷ log) inst

pub SenderValid-same {ℓ} :
    {S : Type ℓ} (log : Log S) (m now : ℕ) (s s' : TransportSender S)
    → SenderValid log m now s
    → s'.sent_states ≡ s.sent_states
    → s'.shutdown_in_progress ≡ s.shutdown_in_progress
    → SenderValid log m now s'
SenderValid-same log m now s s' v e k = record {
  history = subst (Chain log m now 0 0) (sym e) v.history;
  short = subst (λ xs. length xs ≤ sent_states_max) (sym e) v.short;
  running = k ∙ v.running;
}

-- The timers and the counters of the sender do not matter.
pub Effect-same {ℓ} :
    {S : Type ℓ} (ops : State S) (log : Log S) (m now : ℕ) (current : S) (o : Option Instruction)
    (s s' : TransportSender S)
    → Effect ops log m now current o s
    → s'.sent_states ≡ s.sent_states
    → s'.shutdown_in_progress ≡ s.shutdown_in_progress
    → Effect ops log m now current o s'
Effect-same ops log m now current none s s' h e k = SenderValid-same log m now s s' h e k
Effect-same ops log m now current (some inst) s s' h e k = (
  h.0,
  h.1,
  h.2,
  h.3,
  h.4,
  SenderValid-same ((unwrap_or inst.new_num 0, current) ∷ log) h.0 now s s' h.5 e k,
  h.6,
)
