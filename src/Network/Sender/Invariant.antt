-- ===== src/Network/Sender/Invariant.antt =====
-- crates/morsh-network/src/transport.rs: the order of the sender's history in time, and why the
-- assumed state is the acknowledged one or the last.
use morsh.Common.{
  ℕ, zero, suc, ◌+◌, ◌-◌, ◌≤◌, ◌<◌, ◌≡◌, refl, ap, ◌∙◌, List, [], ◌∷◌, ◌++◌, true, false, ltb, leb,
  length, get_or, drop, remove_at, length-drop, lt→ltb, ltb→lt, Bool-cases, ◌⊎◌, inl, inr, arith,
  length-append,
}
use morsh.Network.Constants.{ms, ack_delay_ms}
use morsh.Network.State.{State, TimestampedState}
use morsh.Network.Sender.{
  TransportSender, sent_at, assumed_from, without, pushed, add_sent_state, sent_states_max,
}
use morsh.Network.Sender.Timers.{update_assumed_receiver_state}

-- Every state was sent at `t` or after it.
abbrev pub Since {ℓ} : {S : Type ℓ} → ℕ → List (TimestampedState S) → Type 0
Since t [] = Unit {0}
Since t (x ∷ xs) = (t ≤ x.timestamp) × Since t xs

-- The times of the states do not fall, and the last is not after `now`.
abbrev pub Rising {ℓ} : {S : Type ℓ} → ℕ → List (TimestampedState S) → Type 0
Rising now [] = Unit {0}
Rising now (x ∷ xs) = (x.timestamp ≤ now) × Since x.timestamp xs × Rising now xs

-- The assumed state is the acknowledged one or the last.
abbrev pub AtEnd {ℓ} : {S : Type ℓ} → TransportSender S → Type 0
AtEnd s = (s.assumed_receiver_state ≡ 0) ⊎ (s.assumed_receiver_state + 1 ≡ length s.sent_states)

module _ {ℓ} {S : Type ℓ} where
  -- From a recent state on, all are recent, and the last of them is the one assumed.
  assumed_from_recent :
      (now horizon i a t : ℕ) (xs : List (TimestampedState S))
      → now - t < horizon
      → Since t xs
      → a + 1 ≡ i
      → assumed_from now horizon i a xs + 1 ≡ i + length xs
  assumed_from_recent now horizon i a t [] near since e = omega arith
  assumed_from_recent now horizon i a t (x ∷ xs) near since e =
      let le : t ≤ x.timestamp = since.0 in
      let recent : ltb (now - x.timestamp) horizon ≡ true =
        lt→ltb (now - x.timestamp) horizon (omega arith) in
      let rest : _ = assumed_from_recent now horizon (i + 1) i t xs near since.1 refl in
      rw recent (omega arith)

  assumed_from_end :
      (now horizon : ℕ) (xs : List (TimestampedState S))
      → Rising now xs
      → (assumed_from now horizon 1 0 xs ≡ 0) ⊎ (assumed_from now horizon 1 0 xs ≡ length xs)
  assumed_from_end now horizon [] h = inl refl
  assumed_from_end now horizon (x ∷ xs) h = elim (Bool-cases (ltb (now - x.timestamp) horizon)) [
    | inl e ↦
        let rest : _ =
          assumed_from_recent now horizon 2 1 x.timestamp xs (ltb→lt (now - x.timestamp) horizon e)
            h.1 refl in
        rw e (inr (omega arith))
    | inr e ↦ rw e (inl refl)
  ]

  Rising-drop : (now : ℕ) (xs : List (TimestampedState S)) → Rising now xs → Rising now (drop 1 xs)
  Rising-drop now [] h = tt
  Rising-drop now (x ∷ xs) h = h.2

module _ {ℓ} {S : Type ℓ} (ops : State S) where
  -- For a nonempty history whose times do not fall and are not after now, the state assumed after
  -- an update is the first of the history or the last.
  pub update_assumed-AtEnd :
      (s : TransportSender S) (now timeout n : ℕ)
      → length s.sent_states ≡ n + 1
      → Rising now s.sent_states
      → AtEnd (update_assumed_receiver_state ops s now timeout)
  unfolding update_assumed_receiver_state
  update_assumed-AtEnd s now timeout n nonempty h =
      let len : length (drop 1 s.sent_states) + 1 ≡ length s.sent_states =
        omega (arith, length-drop 1 s.sent_states) in
      elim (assumed_from_end now (timeout + ms ack_delay_ms) (drop 1 s.sent_states)
        (Rising-drop now s.sent_states h)) [ inl e ↦ inl e | inr e ↦ inr (ap (λ k. k + 1) e ∙ len) ]

module _ {ℓ} {A : Type ℓ} where
  get_or-append_left :
      (xs ys : List A) (i : ℕ) (d : A) → i < length xs → get_or (xs ++ ys) i d ≡ get_or xs i d
  get_or-append_left [] ys i d h = absurd (omega arith)
  get_or-append_left (x ∷ xs) ys zero d h = refl
  get_or-append_left (x ∷ xs) ys (suc i) d h = get_or-append_left xs ys i d (omega arith)

  get_or-remove_at_below :
      (xs : List A) (i v : ℕ) (d : A) → i < v → get_or (remove_at xs v) i d ≡ get_or xs i d
  get_or-remove_at_below [] i v d h = refl
  get_or-remove_at_below (x ∷ xs) i zero d h = absurd (omega arith)
  get_or-remove_at_below (x ∷ xs) zero (suc v) d h = refl
  get_or-remove_at_below (x ∷ xs) (suc i) (suc v) d h =
      get_or-remove_at_below xs i v d (omega arith)

  get_or-remove_at_above :
      (xs : List A) (i v : ℕ) (d : A)
      → v ≤ i
      → v < length xs
      → get_or (remove_at xs v) i d ≡ get_or xs (suc i) d
  get_or-remove_at_above [] i v d h k = absurd (omega arith)
  get_or-remove_at_above (x ∷ xs) i zero d h k = refl
  get_or-remove_at_above (x ∷ xs) zero (suc v) d h k = absurd (omega arith)
  get_or-remove_at_above (x ∷ xs) (suc i) (suc v) d h k =
      get_or-remove_at_above xs i v d (omega arith) (omega arith)

lt→leb : (a b : ℕ) → b < a → leb a b ≡ false
lt→leb a b h = ground arith

le→leb : (a b : ℕ) → a ≤ b → leb a b ≡ true
le→leb a b h = ground arith

module _ {ℓ} {S : Type ℓ} where
  without_assumed :
      (s : TransportSender S) (v : ℕ)
      → s.assumed_receiver_state < v ⊎ v < s.assumed_receiver_state
      → v < length s.sent_states
      → sent_at (without s v) (without s v).assumed_receiver_state
        ≡ sent_at s s.assumed_receiver_state
  unfolding without
  without_assumed s v apart low =
      let a : ℕ = s.assumed_receiver_state in
      let d : TimestampedState S = record { timestamp = 0; num = 0; state = s.current_state } in
      elim apart [
        | inl below ↦
            rw (lt→leb v a below, without) (get_or-remove_at_below s.sent_states a v d below)
        | inr above ↦
            let next : suc (a - 1) ≡ a = omega arith in
            rw (le→leb v a (omega arith), without)
              (get_or-remove_at_above s.sent_states (a - 1) v d (omega arith) low
                ∙ ap (λ k. get_or s.sent_states k d) next)
      ]

  -- For a history of one to 32 states of which the first or the last is assumed, adding a state,
  -- which drops one from the middle of a full history, keeps which state is assumed, so that the
  -- next instruction names the state that its diff is from.
  pub add_sent_state-keeps_assumed :
      (s : TransportSender S) (timestamp num n : ℕ) (state : S)
      → AtEnd s
      → length s.sent_states ≡ n + 1
      → length s.sent_states ≤ sent_states_max
      → sent_at
          (add_sent_state s timestamp num state)
          (add_sent_state s timestamp num state).assumed_receiver_state
        ≡ sent_at s s.assumed_receiver_state
  unfolding add_sent_state pushed
  add_sent_state-keeps_assumed s timestamp num n state ends nonempty short =
      let y : TimestampedState S = record { timestamp = timestamp; num = num; state = state } in
      let d : TimestampedState S = record { timestamp = 0; num = 0; state = s.current_state } in
      let l : List (TimestampedState S) = s.sent_states ++ (y ∷ []) in
      let len : length l ≡ length s.sent_states + 1 = length-append s.sent_states (y ∷ []) in
      let a : ℕ = s.assumed_receiver_state in
      let inside : a < length s.sent_states = elim ends [
        | inl e ↦ omega arith
        | inr e ↦ omega arith
      ] in
      let kept : get_or l a d ≡ get_or s.sent_states a d =
        get_or-append_left s.sent_states (y ∷ []) a d inside in
      elim (Bool-cases (ltb sent_states_max (length l))) [
        | inr e ↦ rw (e, add_sent_state) kept
        | inl e ↦
            let full : 32 < length l = ltb→lt sent_states_max (length l) e in
            let apart : (a < length l - 16) ⊎ (length l - 16 < a) = elim ends [
              | inl z ↦ inl (omega arith)
              | inr z ↦ inr (omega arith)
            ] in
            rw (e, add_sent_state)
              (without_assumed (pushed s timestamp num state) (length l - 16) apart (omega arith)
                ∙ kept)
      ]
