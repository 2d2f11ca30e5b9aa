-- ===== src/Network/Sync/Sending/Ticks.antt =====
-- crates/morsh-network/src/transport.rs, `tick`: the instruction leads from a state that was sent to
-- the state that its number names.
use morsh.Common.{
  ℕ, ◌+◌, ◌-◌, ◌^◌, ◌<◌, ◌≡◌, refl, sym, ap, ◌∙◌, subst, List, [], ◌∷◌, some, Bool, true, false,
  not, ◌&&◌, ◌||◌, leb, ◌==◌, if◌then◌else◌, length, Bool-cases, ◌⊎◌, inl, inr, arith, ne→==,
}
use morsh.Network.State.{State, TimestampedState}
use morsh.Network.Sender.{TransportSender, sent_at, sent_last, add_sent_state, shutdown_num}
use morsh.Network.Sender.Timers.{
  calculate_timers, rationalize_states, update_assumed_receiver_state,
}
use morsh.Network.Sender.Tick.{
  next_num, build_instruction, send_empty_ack, number_to_send, record_sent, send_to_receiver, cheap,
  attempt_prospective_resend_optimization, ack_if_due, tick_diff, tick_due, send_is_due, tick,
}
use morsh.Network.Sender.Invariant.{AtEnd, update_assumed-AtEnd}
use morsh.Network.Sync.{Log}
use morsh.Network.Sync.History.{Chain-nonempty, Chain-last, Chain-Rising}
use morsh.Network.Sync.Sending.{Renamed, Below, SenderValid, Effect, SenderValid-same, Effect-same}
use morsh.Network.Sync.Sending.Instructions.{new_sent, resent}

module _ {ℓ} {S : Type ℓ} (ops : State S) where
  record_sent-new :
      (s : TransportSender S) (now n : ℕ)
      → (n == (sent_last s).num) ≡ false
      → record_sent ops s now n ≡ add_sent_state s now n s.current_state
  unfolding record_sent
  record_sent-new s now n other = rw (other, record_sent) refl

  abbrev proposal : TransportSender S → ℕ → List ℕ × TransportSender S
  proposal s i =
      (ops.diff_from s.current_state (sent_at s i).state, record s { assumed_receiver_state = i })

  -- The diff is from the assumed state, or from the acknowledged one, which is assumed then.
  attempt_cases :
      (s : TransportSender S)
      → (attempt_prospective_resend_optimization ops s (proposal s s.assumed_receiver_state).0
          ≡ proposal s s.assumed_receiver_state)
        ⊎ (attempt_prospective_resend_optimization ops s (proposal s s.assumed_receiver_state).0
            ≡ proposal s 0)
  unfolding attempt_prospective_resend_optimization
  attempt_cases s =
      let d : List ℕ = (proposal s s.assumed_receiver_state).0 in
      elim (Bool-cases (s.assumed_receiver_state == 0)) [
        | inl e ↦ inl (rw (e, attempt_prospective_resend_optimization) refl)
        | inr e ↦ elim (Bool-cases (cheap ops (proposal s 0).0 d)) [
          | inl k ↦ inr (rw (e, k, attempt_prospective_resend_optimization) refl)
          | inr k ↦ inl (rw (e, k, attempt_prospective_resend_optimization) refl)
        ]
      ]

  rationalize_states-same :
      (s : TransportSender S) → ops.has_prefix ≡ false → rationalize_states ops s ≡ s
  unfolding rationalize_states
  rationalize_states-same s e = rw (e, rationalize_states) refl

module _ {ℓ} {S : Type ℓ} (ops : State S) (no_prefix : ops.has_prefix ≡ false) (log : Log S)
    (m now : ℕ) (renamed : Renamed ops log) (below : Below m log) (room : m + 1 < 2 ^ 64) where
  last_num : (s : TransportSender S) → SenderValid log m now s → (sent_last s).num ≡ m
  last_num s v =
      Chain-last log m now 0 0 (length s.sent_states - 1) s.sent_states
        (record { timestamp = 0; num = 0; state = s.current_state }) v.history
        (sym (Chain-nonempty log m now 0 s.sent_states v.history))

  next_is : (s : TransportSender S) → SenderValid log m now s → next_num (sent_last s).num ≡ m + 1
  next_is s v = let e : (sent_last s).num ≡ m = last_num s v in ap next_num e ∙ omega arith

  send_to_receiver-Effect :
      (s : TransportSender S) (diff chaff : List ℕ)
      → SenderValid log m now s
      → AtEnd s
      → diff ≡ ops.diff_from s.current_state (sent_at s s.assumed_receiver_state).state
      → Effect ops log m now s.current_state
          (some (send_to_receiver ops s diff now chaff).0)
          (send_to_receiver ops s diff now chaff).1
  unfolding send_to_receiver number_to_send
  send_to_receiver-Effect s diff chaff v ends reaches =
      let n : ℕ = number_to_send ops s in
      let z : TransportSender S = (send_to_receiver ops s diff now chaff).1 in
      let last : TimestampedState S = sent_last s in
      elim (Bool-cases (ops.state_equal s.current_state last.state)) [
        | inl e ↦
            let num : n ≡ last.num = rw (v.running, e, number_to_send) refl in
            Effect-same ops log m now s.current_state
              (some (build_instruction (record_sent ops s now n) diff n chaff).0)
              (build_instruction (record_sent ops s now n) diff n chaff).1 z
              (resent ops log m now renamed below s n diff chaff v ends num e reaches) refl refl
        | inr e ↦
            let num : n ≡ next_num last.num = rw (v.running, e, number_to_send) refl in
            let is_next : n ≡ m + 1 = num ∙ next_is s v in
            let is_m : last.num ≡ m = last_num s v in
            let other : (n == last.num) ≡ false = ne→== n last.num (omega arith) in
            let added : _ = record_sent-new ops s now n other in
            Effect-same ops log m now s.current_state
              (some (build_instruction (record_sent ops s now n) diff n chaff).0)
              (build_instruction (record_sent ops s now n) diff n chaff).1 z
              (subst
                (λ u.
                  Effect ops log m now s.current_state (some (build_instruction u diff n chaff).0)
                    (build_instruction u diff n chaff).1)
                (sym added)
                (new_sent ops log m now renamed below s n diff chaff v ends is_next reaches))
              refl refl
      ]

  send_empty_ack-Effect :
      (s : TransportSender S) (chaff : List ℕ)
      → SenderValid log m now s
      → AtEnd s
      → ops.diff_from s.current_state (sent_at s s.assumed_receiver_state).state ≡ []
      → Effect ops log m now s.current_state
          (some (send_empty_ack s now chaff).0)
          (send_empty_ack s now chaff).1
  unfolding send_empty_ack
  send_empty_ack-Effect s chaff v ends same =
      let n : ℕ = if s.shutdown_in_progress then shutdown_num else next_num (sent_last s).num in
      let num : n ≡ next_num (sent_last s).num = rw v.running refl in
      Effect-same ops log m now s.current_state
        (some (build_instruction (add_sent_state s now n s.current_state) [] n chaff).0)
        (build_instruction (add_sent_state s now n s.current_state) [] n chaff).1
        (send_empty_ack s now chaff).1
        (new_sent ops log m now renamed below s n [] chaff v ends (num ∙ next_is s v) (sym same))
        refl refl

  -- The diff between the assumed state and the current one, sent or known to be empty.
  tick_diff-Effect :
      (s : TransportSender S) (diff : List ℕ) (send_due ack_due : Bool) (chaff : List ℕ)
      → SenderValid log m now s
      → AtEnd s
      → ops.diff_from s.current_state (sent_at s s.assumed_receiver_state).state ≡ diff
      → Effect ops log m now s.current_state
          (tick_diff ops s diff now send_due ack_due chaff).0
          (tick_diff ops s diff now send_due ack_due chaff).1
  unfolding tick_diff ack_if_due
  tick_diff-Effect s [] false false chaff v ends e = v
  tick_diff-Effect s [] true false chaff v ends e = record {
    history = v.history;
    short = v.short;
    running = v.running;
  }
  tick_diff-Effect s [] false true chaff v ends e =
      Effect-same ops log m now s.current_state (some (send_empty_ack s now chaff).0)
        (send_empty_ack s now chaff).1 (tick_diff ops s [] now false true chaff).1
        (send_empty_ack-Effect s chaff v ends e) refl refl
  tick_diff-Effect s [] true true chaff v ends e =
      Effect-same ops log m now s.current_state (some (send_empty_ack s now chaff).0)
        (send_empty_ack s now chaff).1 (tick_diff ops s [] now true true chaff).1
        (send_empty_ack-Effect s chaff v ends e) refl refl
  tick_diff-Effect s (b ∷ bs) send_due ack_due chaff v ends e =
      Effect-same ops log m now s.current_state (some (send_to_receiver ops s (b ∷ bs) now chaff).0)
        (send_to_receiver ops s (b ∷ bs) now chaff).1
        (tick_diff ops s (b ∷ bs) now send_due ack_due chaff).1
        (send_to_receiver-Effect s (b ∷ bs) chaff v ends (sym e)) refl refl

  tick_due-Effect :
      (s : TransportSender S) (send_due ack_due : Bool) (chaff : List ℕ)
      → SenderValid log m now s
      → AtEnd s
      → Effect ops log m now s.current_state
          (tick_due ops s now send_due ack_due chaff).0
          (tick_due ops s now send_due ack_due chaff).1
  unfolding tick_due
  tick_due-Effect s send_due ack_due chaff v ends =
      let a : ℕ = s.assumed_receiver_state in
      let goal : List ℕ × TransportSender S → Type ℓ = λ p.
        Effect ops log m now s.current_state (tick_diff ops p.1 p.0 now send_due ack_due chaff).0
          (tick_diff ops p.1 p.0 now send_due ack_due chaff).1 in
      elim (attempt_cases ops s) [
        | inl e ↦ subst goal (sym e) (
            tick_diff-Effect (proposal ops s a).1 (proposal ops s a).0 send_due ack_due chaff v ends
              refl)
        | inr e ↦ subst goal (sym e) (
            tick_diff-Effect (proposal ops s 0).1 (proposal ops s 0).0 send_due ack_due chaff
              record { history = v.history; short = v.short; running = v.running } (inl refl) refl)
      ]

  -- The deadlines leave the history as it is, and the assumed state at one of its ends.
  calculate_timers-SenderValid :
      (s : TransportSender S) (timeout srtt_ms : ℕ)
      → SenderValid log m now s
      → SenderValid log m now (calculate_timers ops s now timeout srtt_ms)
        × AtEnd (calculate_timers ops s now timeout srtt_ms)
        × ((calculate_timers ops s now timeout srtt_ms).current_state ≡ s.current_state)
  unfolding calculate_timers update_assumed_receiver_state
  calculate_timers-SenderValid s timeout srtt_ms v =
      let u : TransportSender S = update_assumed_receiver_state ops s now timeout in
      let e : rationalize_states ops u ≡ u = rationalize_states-same ops u no_prefix in
      let rising : _ = Chain-Rising log m now 0 0 s.sent_states v.history in
      let ends : AtEnd u =
        update_assumed-AtEnd ops s now timeout (length s.sent_states - 1)
          (Chain-nonempty log m now 0 s.sent_states v.history) rising in
      (
        SenderValid-same log m now s (calculate_timers ops s now timeout srtt_ms) v
            (ap (λ z. z.sent_states) e) (ap (λ z. z.shutdown_in_progress) e),
        subst AtEnd (sym e) ends,
        ap (λ z. z.current_state) e,
      )

  pub tick-Effect :
      (s : TransportSender S) (timeout srtt_ms : ℕ) (has_remote_addr : Bool) (chaff : List ℕ)
      → SenderValid log m now s
      → Effect ops log m now s.current_state
          (tick ops s now timeout srtt_ms has_remote_addr chaff).0
          (tick ops s now timeout srtt_ms has_remote_addr chaff).1
  unfolding tick
  tick-Effect s timeout srtt_ms has_remote_addr chaff v =
      let s' : TransportSender S = calculate_timers ops s now timeout srtt_ms in
      let timed : _ = calculate_timers-SenderValid s timeout srtt_ms v in
      let send_due : Bool = send_is_due ops s' now in
      let ack_due : Bool = leb s'.next_ack_time now in
      elim (Bool-cases (not has_remote_addr || (not send_due && not ack_due))) [
        | inl e ↦ rw (e, tick) timed.0
        | inr e ↦
            rw (e, tick)
              (subst
                (λ current.
                  Effect ops log m now current (tick_due ops s' now send_due ack_due chaff).0
                    (tick_due ops s' now send_due ack_due chaff).1)
                timed.2 (tick_due-Effect s' send_due ack_due chaff timed.0 timed.1))
      ]
