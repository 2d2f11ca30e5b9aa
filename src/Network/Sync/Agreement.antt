-- ===== src/Network/Sync/Agreement.antt =====
-- crates/morsh-network/src/transport.rs: the two ends together agree on the states, whatever the
-- network loses, repeats, delays or reorders.
use morsh.Common.{
  false, ℕ, zero, suc, ◌+◌, ◌^◌, ◌≤◌, ◌<◌, ◌≡◌, refl, ap, subst, List, [], ◌∷◌, Option, none, some,
  leb, length, get_elem?, Bool-cases, Option-cases, inl, inr, arith, unwrap_or, Result, ok, err,
  panicked,
}
use morsh.Proto.{Instruction}
use morsh.Network.State.{State, TimestampedState}
use morsh.Network.Connection.{Connection}
use morsh.Network.Sender
use morsh.Network.Sender.{
  TransportSender, sent_last, sent_states_max, retain_from, has_num, culled,
  process_acknowledgment_through, set_current_state,
}
use morsh.Network.Sender.Tick.{tick}
use morsh.Network.Transport
use morsh.Network.Transport.{
  Transport, TransportError, RecvOutcome, incomplete, ignored, out_of_order_state, new_state,
  InstructionClock, received_last, process_instruction,
}
use morsh.Network.Transport.Invariant.{IsValid, Advance, new-IsValid, process_instruction-Advance}
use morsh.Network.Sync.{
  Log, Event, elapse, update, tick_sender, acknowledge, deliver, Config, start, ticked, delivered,
  step, run,
}
use morsh.Network.Sync.History.{Chain-retain_from, Chain-later, Chain-has_num}
use morsh.Network.Sync.Sending.{Renamed, Below, SenderValid, Faithful, Effect}
use morsh.Network.Sync.Sending.Ticks.{tick-Effect}
use morsh.Network.Sync.Receiving.{
  Holds, Holds-map, Made, first, Made-log, process_instruction-Holds,
}

-- Every instruction in flight is faithful.
abbrev pub AllFaithful {ℓ} : {S : Type ℓ} → State S → Log S → List Instruction → Type ℓ
AllFaithful ops log [] = Unit {ℓ}
AllFaithful ops log (i ∷ is) = Faithful ops log i × AllFaithful ops log is

-- What holds after `k` events.
pub record Agrees {ℓ κ} {M : Type ℓ} {S : Type κ} (ops : State S) (initial : S) (k : ℕ)
    (c : Config M S) : Type κ where
  pub last : ℕ
  pub few : last ≤ k
  pub valid : SenderValid c.log last c.now c.sender
  pub renamed : Renamed ops c.log
  pub below : Below last c.log
  pub faithful : AllFaithful ops c.log c.flight
  pub held : Holds (Made ops initial c.log) c.receiver.received_states
  pub ordered : IsValid c.receiver

module _ {ℓ} {S : Type ℓ} where
  length-retain_from :
      (c : ℕ) (xs : List (TimestampedState S)) → length (retain_from c xs) ≤ length xs
  length-retain_from c [] = omega arith
  length-retain_from c (x ∷ xs) =
      let rest : _ = length-retain_from c xs in
      elim (Bool-cases (leb c x.num)) [ inl e ↦ rw e (omega arith) | inr e ↦ rw e (omega arith) ]

  -- An acknowledgment, true or false, leaves a history of states that were sent, with the last one.
  pub acknowledged-SenderValid :
      (log : Log S) (m now n : ℕ) (s : TransportSender S)
      → SenderValid log m now s
      → SenderValid log m now (process_acknowledgment_through s n)
  unfolding process_acknowledgment_through culled
  acknowledged-SenderValid log m now n s v = elim (Bool-cases (has_num n s.sent_states)) [
    | inl e ↦
        let le : n ≤ m = Chain-has_num log m now 0 0 n s.sent_states v.history e in
        let fewer : _ = length-retain_from n s.sent_states in
        let short : length s.sent_states ≤ 32 = v.short in
        rw (e, process_acknowledgment_through)
          record {
            history = Chain-retain_from log m now 0 0 n s.sent_states v.history le;
            short = omega arith;
            running = v.running;
          }
    | inr e ↦ rw (e, process_acknowledgment_through) v
  ]

module _ {ℓ} {S : Type ℓ} (ops : State S) where
  AllFaithful-log :
      (log : Log S) (entry : ℕ × S) (is : List Instruction)
      → AllFaithful ops log is
      → AllFaithful ops (entry ∷ log) is
  AllFaithful-log log entry [] h = h
  AllFaithful-log log entry (i ∷ is) ((a, b, la, lb, e), hs) =
      ((a, b, inr la, inr lb, e), AllFaithful-log log entry is hs)

  AllFaithful-get_elem? :
      (log : Log S) (i : ℕ) (inst : Instruction) (is : List Instruction)
      → AllFaithful ops log is
      → get_elem? is i ≡ some inst
      → Faithful ops log inst
  AllFaithful-get_elem? log i inst [] h e = absurd (ground arith)
  AllFaithful-get_elem? log zero inst (j ∷ is) h e =
      subst (Faithful ops log) (ap (λ o. unwrap_or o j) e) h.0
  AllFaithful-get_elem? log (suc i) inst (j ∷ is) h e = AllFaithful-get_elem? log i inst is h.1 e

module _ {ℓ κ} {M : Type ℓ} {S : Type κ} where
  Advance-IsValid :
      (a : ℕ) (r : Result TransportError RecvOutcome) (t : Transport M S)
      → Advance a r t
      → IsValid t
  Advance-IsValid a (ok (new_state n)) t h = h.0
  Advance-IsValid a (ok (out_of_order_state n)) t h = h.0
  Advance-IsValid a (ok ignored) t h = h.0
  Advance-IsValid a (ok incomplete) t h = h.0
  Advance-IsValid a (err e) t h = h.0
  Advance-IsValid a panicked t h = h.0

module _ {ℓ κ} {M : Type ℓ} {S : Type κ} (ops : State S) (no_prefix : ops.has_prefix ≡ false)
    (initial : S) where
  pub start-Agrees :
      (connection : Connection) (m : M) (now : ℕ)
      → Agrees ops initial 0 (start connection m initial now)
  unfolding start Sender.new Transport.new
  start-Agrees connection m now = record {
    last = 0;
    few = omega arith;
    valid = record {
      history = (omega arith, omega arith, inl (refl, refl), (refl, omega arith, tt));
      short = omega arith;
      running = refl;
    };
    renamed = (inl (λ s h. absurd h.0), tt);
    below = (omega arith, tt);
    faithful = tt;
    held = (first, tt);
    ordered = new-IsValid connection m initial now;
  }

  ticked-Agrees :
      (k : ℕ) (c : Config M S) (o : Option Instruction) (s : TransportSender S)
      (a : Agrees ops initial k c)
      → Effect ops c.log a.last c.now c.sender.current_state o s
      → Agrees ops initial (k + 1) (ticked c (o, s))
  unfolding ticked
  ticked-Agrees k c none s a v =
      let few : a.last ≤ k = a.few in
      record {
        last = a.last;
        few = omega arith;
        valid = v;
        renamed = a.renamed;
        below = a.below;
        faithful = a.faithful;
        held = a.held;
        ordered = a.ordered;
      }
  ticked-Agrees k c (some inst) s a (m', le, le', renamed, below, v, faithful) =
      let few : a.last ≤ k = a.few in
      let entry : ℕ × S = (unwrap_or inst.new_num 0, c.sender.current_state) in
      record {
        last = m';
        few = omega arith;
        valid = v;
        renamed = renamed;
        below = below;
        faithful = (faithful, AllFaithful-log ops c.log entry c.flight a.faithful);
        held =
            Holds-map (Made ops initial c.log) (Made ops initial (entry ∷ c.log))
              c.receiver.received_states (Made-log ops initial c.log entry) a.held;
        ordered = a.ordered;
      }

  -- Time, the sender and the receiver may change while the log and what is in flight stay.
  moved :
      (k : ℕ) (c : Config M S) (now' : ℕ) (s' : TransportSender S) (r' : Transport M S)
      (a : Agrees ops initial k c)
      → SenderValid c.log a.last now' s'
      → Holds (Made ops initial c.log) r'.received_states
      → IsValid r'
      → Agrees ops initial (k + 1) (record c { now = now'; sender = s'; receiver = r' })
  moved k c now' s' r' a v h i =
      let few : a.last ≤ k = a.few in
      record {
        last = a.last;
        few = omega arith;
        valid = v;
        renamed = a.renamed;
        below = a.below;
        faithful = a.faithful;
        held = h;
        ordered = i;
      }

  delivered-Agrees :
      (k : ℕ) (c : Config M S) (i : ℕ) (clock : InstructionClock)
      → Agrees ops initial k c
      → Agrees ops initial (k + 1) (delivered ops c (get_elem? c.flight i) clock)
  unfolding delivered
  delivered-Agrees k c i clock a = elim (Option-cases (get_elem? c.flight i)) [
    | inl e ↦ rw (e, delivered) (moved k c c.now c.sender c.receiver a a.valid a.held a.ordered)
    | inr (inst, e) ↦
        let r : _ = process_instruction ops c.receiver inst clock in
        let faithful : _ = AllFaithful-get_elem? ops c.log i inst c.flight a.faithful e in
        rw (e, delivered)
          (moved k c c.now c.sender r.1 a a.valid
            (process_instruction-Holds ops initial c.log c.receiver inst clock a.held faithful)
            (Advance-IsValid c.receiver.sender.ack_num r.0 r.1
              (process_instruction-Advance ops c.receiver inst clock a.ordered)))
  ]

  step-Agrees :
      (k : ℕ) (c : Config M S) (e : Event S)
      → k + 1 < 2 ^ 64
      → Agrees ops initial k c
      → Agrees ops initial (k + 1) (step ops c e)
  unfolding step set_current_state
  step-Agrees k c (elapse d) room a =
      moved k c (c.now + d) c.sender c.receiver a
        record {
          history = Chain-later c.log a.last c.now d 0 0 c.sender.sent_states a.valid.history;
          short = a.valid.short;
          running = a.valid.running;
        }
        a.held a.ordered
  step-Agrees k c (update s) room a =
      moved k c c.now (set_current_state c.sender s) c.receiver a
        record { history = a.valid.history; short = a.valid.short; running = a.valid.running }
        a.held a.ordered
  step-Agrees k c (tick_sender timeout srtt_ms has_remote_addr chaff) room a =
      let few : a.last ≤ k = a.few in
      let out : _ = tick ops c.sender c.now timeout srtt_ms has_remote_addr chaff in
      ticked-Agrees k c out.0 out.1 a (
        tick-Effect ops no_prefix c.log a.last c.now a.renamed a.below (omega arith) c.sender
          timeout srtt_ms has_remote_addr chaff a.valid)
  step-Agrees k c (acknowledge n) room a =
      moved k c c.now (process_acknowledgment_through c.sender n) c.receiver a
        (acknowledged-SenderValid c.log a.last c.now n c.sender a.valid) a.held a.ordered
  step-Agrees k c (deliver i clock) room a = delivered-Agrees k c i clock a

  pub run-Agrees :
      (k : ℕ) (c : Config M S) (es : List (Event S))
      → k + length es < 2 ^ 64
      → Agrees ops initial k c
      → Agrees ops initial (k + length es) (run ops c es)
  run-Agrees k c [] room a = subst (λ j. Agrees ops initial j c) (omega arith) a
  run-Agrees k c (e ∷ es) room a =
      subst (λ j. Agrees ops initial j (run ops (step ops c e) es)) (omega arith)
        (run-Agrees (k + 1) (step ops c e) es (omega arith) (step-Agrees k c e (omega arith) a))
