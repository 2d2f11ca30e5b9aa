-- ===== src/Network/Sync/Sending/Instructions.antt =====
-- crates/morsh-network/src/transport.rs: an instruction for a new state, and one for the last state
-- again.
use morsh.Common.{
  ℕ, zero, suc, ◌+◌, ◌-◌, ◌≤◌, ◌<◌, ◌≡◌, refl, sym, subst, List, [], ◌∷◌, ◌++◌, some, true, ltb,
  ◌==◌, length, get_or, set, Bool-cases, inl, inr, arith, length-append, length-remove_at,
  length-set, ltb→lt, ltb→le,
}
use morsh.Network.State.{State, TimestampedState}
use morsh.Network.Sender.{
  TransportSender, sent_at, sent_last, without, pushed, add_sent_state, sent_states_max,
}
use morsh.Network.Sender.Tick.{build_instruction, record_sent}
use morsh.Network.Sender.Invariant.{AtEnd, add_sent_state-keeps_assumed}
use morsh.Network.Sync.{Log, Logged}
use morsh.Network.Sync.History.{
  Chain, Chain-push, Chain-remove_at, Chain-set_last, Chain-log, Chain-nonempty, Chain-get_or,
  Chain-last,
}
use morsh.Network.Sync.Sending.{Renamed, Below, Logged-le, Below-le, SenderValid, Effect}

eq→== : (a b : ℕ) → a ≡ b → (a == b) ≡ true
eq→== a b h = ground arith

module _ {ℓ} {S : Type ℓ} where
  -- A history with one more state, the log having its number.
  add_sent_state-SenderValid :
      (log : Log S) (m now n : ℕ) (s : TransportSender S) (state : S)
      → SenderValid log m now s
      → m < n
      → Logged log n state
      → SenderValid log n now (add_sent_state s now n state)
  unfolding add_sent_state pushed without
  add_sent_state-SenderValid log m now n s state v above logged =
      let y : TimestampedState S = record { timestamp = now; num = n; state = state } in
      let l : List (TimestampedState S) = s.sent_states ++ (y ∷ []) in
      let len : length l ≡ length s.sent_states + 1 = length-append s.sent_states (y ∷ []) in
      let chain : Chain log n now 0 0 l =
        Chain-push log m now 0 0 s.sent_states y v.history above refl logged in
      let short : length s.sent_states ≤ 32 = v.short in
      elim (Bool-cases (ltb sent_states_max (length l))) [
        | inl e ↦
            let full : 32 < length l = ltb→lt sent_states_max (length l) e in
            let w : ℕ = length l - 16 in
            let less : _ = length-remove_at l w (omega arith) in
            rw (e, add_sent_state)
              record {
                history = Chain-remove_at log n now 0 0 w l chain (omega arith);
                short = omega arith;
                running = v.running;
              }
        | inr e ↦
            rw (e, add_sent_state)
              record {
                history = chain;
                short = ltb→le sent_states_max (length l) e;
                running = v.running;
              }
      ]

  get_or-set_time :
      (xs : List (TimestampedState S)) (i j now : ℕ) (d e : TimestampedState S)
      → (get_or (set xs i (record (get_or xs i d) { timestamp = now })) j e).num
        ≡ (get_or xs j e).num
  get_or-set_time [] i j now d e = refl
  get_or-set_time (x ∷ xs) zero zero now d e = refl
  get_or-set_time (x ∷ xs) zero (suc j) now d e = refl
  get_or-set_time (x ∷ xs) (suc i) zero now d e = refl
  get_or-set_time (x ∷ xs) (suc i) (suc j) now d e = get_or-set_time xs i j now d e

  AtEnd-lt :
      (s : TransportSender S) (n : ℕ)
      → length s.sent_states ≡ n + 1
      → AtEnd s
      → s.assumed_receiver_state < length s.sent_states
  AtEnd-lt s n e (inl h) = omega arith
  AtEnd-lt s n e (inr h) = omega arith

module _ {ℓ} {S : Type ℓ} (ops : State S) (log : Log S) (m now : ℕ) (renamed : Renamed ops log)
    (below : Below m log) where
  -- A new state under the next number.
  pub new_sent :
      (s : TransportSender S) (n : ℕ) (diff chaff : List ℕ)
      → SenderValid log m now s
      → AtEnd s
      → n ≡ m + 1
      → diff ≡ ops.diff_from s.current_state (sent_at s s.assumed_receiver_state).state
      → Effect ops log m now s.current_state
          (some (build_instruction (add_sent_state s now n s.current_state) diff n chaff).0)
          (build_instruction (add_sent_state s now n s.current_state) diff n chaff).1
  unfolding build_instruction
  new_sent s n diff chaff v ends e reaches =
      let log' : Log S = (n, s.current_state) ∷ log in
      let some_n : _ = Chain-nonempty log m now 0 s.sent_states v.history in
      let k : ℕ = length s.sent_states - 1 in
      let d : TimestampedState S = record { timestamp = 0; num = 0; state = s.current_state } in
      let base : TimestampedState S = sent_at s s.assumed_receiver_state in
      let v' : SenderValid log' m now s = record {
        history = Chain-log log (n, s.current_state) m now 0 0 s.sent_states v.history;
        short = v.short;
        running = v.running;
      } in
      let same : _ = add_sent_state-keeps_assumed s now n k s.current_state ends some_n v.short in
      let logged : Logged log base.num base.state =
        Chain-get_or log m now 0 0 s.assumed_receiver_state s.sent_states d v.history
          (AtEnd-lt s k some_n ends) in
      let u : _ =
        add_sent_state-SenderValid log' m now n s s.current_state v' (omega arith)
          (inl (refl, refl)) in
      (
        n,
        omega arith,
        omega arith,
        (inl (λ a h. fresh a h), renamed),
        (omega arith, Below-le log m n below (omega arith)),
        record { history = u.history; short = u.short; running = u.running },
        (
          base.state,
          s.current_state,
          inr (subst (λ x. Logged log x.num base.state) (sym same) logged),
          inl (refl, refl),
          reaches,
        ),
      )
    where
      fresh : (a : S) → Logged log n a → ⊥
      fresh a h = let le : n ≤ m = Logged-le log m n a below h in omega arith

  -- The last state again, with a new time.
  pub resent :
      (s : TransportSender S) (n : ℕ) (diff chaff : List ℕ)
      → SenderValid log m now s
      → AtEnd s
      → n ≡ (sent_last s).num
      → ops.state_equal s.current_state (sent_last s).state ≡ true
      → diff ≡ ops.diff_from s.current_state (sent_at s s.assumed_receiver_state).state
      → Effect ops log m now s.current_state
          (some (build_instruction (record_sent ops s now n) diff n chaff).0)
          (build_instruction (record_sent ops s now n) diff n chaff).1
  unfolding build_instruction record_sent
  resent s n diff chaff v ends e same reaches =
      let log' : Log S = (n, s.current_state) ∷ log in
      let k : ℕ = length s.sent_states - 1 in
      let some_n : length s.sent_states ≡ k + 1 =
        Chain-nonempty log m now 0 s.sent_states v.history in
      let a : ℕ = s.assumed_receiver_state in
      let d : TimestampedState S = record { timestamp = 0; num = 0; state = s.current_state } in
      let base : TimestampedState S = sent_at s a in
      let last : TimestampedState S = sent_last s in
      let is_m : last.num ≡ m = Chain-last log m now 0 0 k s.sent_states d v.history (sym some_n) in
      let logged : Logged log base.num base.state =
        Chain-get_or log m now 0 0 a s.sent_states d v.history (AtEnd-lt s k some_n ends) in
      let last_logged : Logged log last.num last.state =
        Chain-get_or log m now 0 0 k s.sent_states d v.history (omega arith) in
      let again : (n == last.num) ≡ true = eq→== n last.num e in
      let chain : Chain log m now 0 0 s.sent_states = v.history in
      let retimed : List (TimestampedState S) =
        set s.sent_states k (record last { timestamp = now }) in
      let eq : record_sent ops s now n ≡ record s { sent_states = retimed } =
        rw (again, record_sent) refl in
      let len : length retimed ≡ length s.sent_states =
        length-set s.sent_states k (record last { timestamp = now }) in
      let short : length s.sent_states ≤ 32 = v.short in
      subst
        (λ z.
          Effect ops log m now s.current_state (some (build_instruction z diff n chaff).0)
            (build_instruction z diff n chaff).1)
        (sym eq)
        (
          m,
          omega arith,
          omega arith,
          (
            inr (last.state, subst (λ j. Logged log j last.state) (sym e) last_logged, same),
            renamed,
          ),
          (omega arith, below),
          record {
            history =
                Chain-log log (n, s.current_state) m now 0 0 retimed
                  (Chain-set_last log m now 0 0 k s.sent_states d chain (sym some_n));
            short = omega arith;
            running = v.running;
          },
          (
            base.state,
            s.current_state,
            inr (
                subst (λ j. Logged log j base.state)
                  (sym (get_or-set_time s.sent_states k a now d d)) logged),
            inl (refl, refl),
            reaches,
          ),
        )
