-- ===== src/Network/Sync/Receiving.antt =====
-- crates/morsh-network/src/transport.rs, `process_instruction`: what the received states are made of.
use morsh.Common.{
  ℕ, zero, suc, min, ◌≡◌, refl, sym, ap, ◌∙◌, subst, List, [], ◌∷◌, ◌++◌, some, not, ◌||◌, ltb, leb,
  ◌==◌, length, get_or, set, last?, Bool-cases, Option-cases, inl, inr, arith, unwrap_or, option_eq,
  ==→eq,
}
use morsh.Proto.{Instruction}
use morsh.Network.Constants.{protocol_version}
use morsh.Network.State.{State, TimestampedState}
use morsh.Network.Sender.{retain_from, has_num, position}
use morsh.Network.Transport.{
  Transport, InstructionClock, received_states_max, first_above, insert, process_throwaway_until,
  acknowledged, quenched, quench_started, filed, patched, applied, referenced, process_instruction,
}
use morsh.Network.Sync.{Log, Logged}
use morsh.Network.Sync.Sending.{Faithful}

-- How a state comes to stand under a number: it is the common first state under 0; or the diff between
-- two states that were sent made it of one that stood under the old number; or its emulator was moved
-- to such a copy.
pub data Made {ℓ} {S : Type ℓ} (ops : State S) (initial : S) (log : Log S) : ℕ → S → Type ℓ where
  first : Made ops initial log 0 initial
  patched_by :
      (old new : ℕ) (base target held next : S)
      → Made ops initial log old held
      → Logged log old base
      → Logged log new target
      → patched ops (ops.adopt_from (ops.clone held) held).0 (ops.diff_from target base) ≡ some next
      → Made ops initial log new next
  gave :
      (n : ℕ) (held : S)
      → Made ops initial log n held
      → Made ops initial log n (ops.adopt_from (ops.clone held) held).1

pub Made-log {ℓ} :
    {S : Type ℓ} (ops : State S) (initial : S) (log : Log S) (entry : ℕ × S) (n : ℕ) (s : S)
    → Made ops initial log n s
    → Made ops initial (entry ∷ log) n s
Made-log ops initial log entry n s first = first
Made-log ops initial log entry n s (patched_by old m base target held next h la lb e) =
    patched_by old m base target held next (Made-log ops initial log entry old held h) (inr la)
      (inr lb) e
Made-log ops initial log entry n s (gave m held h) =
    gave m held (Made-log ops initial log entry m held h)

-- Every state of the history has a property, with its number.
abbrev pub Holds {ℓ} : {S : Type ℓ} → (ℕ → S → Type ℓ) → List (TimestampedState S) → Type ℓ
Holds P [] = Unit {ℓ}
Holds P (x ∷ xs) = P x.num x.state × Holds P xs

module _ {ℓ} {S : Type ℓ} where
  Holds-retain_from :
      (P : ℕ → S → Type ℓ) (c : ℕ) (xs : List (TimestampedState S))
      → Holds P xs
      → Holds P (retain_from c xs)
  Holds-retain_from P c [] h = h
  Holds-retain_from P c (x ∷ xs) h = elim (Bool-cases (leb c x.num)) [
    | inl e ↦ rw e (h.0, Holds-retain_from P c xs h.1)
    | inr e ↦ rw e (Holds-retain_from P c xs h.1)
  ]

  Holds-push :
      (P : ℕ → S → Type ℓ) (xs : List (TimestampedState S)) (y : TimestampedState S)
      → Holds P xs
      → P y.num y.state
      → Holds P (xs ++ (y ∷ []))
  Holds-push P [] y h k = (k, tt)
  Holds-push P (x ∷ xs) y h k = (h.0, Holds-push P xs y h.1 k)

  Holds-insert :
      (P : ℕ → S → Type ℓ) (xs : List (TimestampedState S)) (i : ℕ) (y : TimestampedState S)
      → Holds P xs
      → P y.num y.state
      → Holds P (insert xs i y)
  Holds-insert P [] i y h k = (k, tt)
  Holds-insert P (x ∷ xs) zero y h k = (k, h)
  Holds-insert P (x ∷ xs) (suc i) y h k = (h.0, Holds-insert P xs i y h.1 k)

  Holds-set :
      (P : ℕ → S → Type ℓ) (xs : List (TimestampedState S)) (i : ℕ) (d : TimestampedState S) (s : S)
      → Holds P xs
      → ((n : ℕ) → P n (get_or xs i d).state → P n s)
      → Holds P (set xs i (record (get_or xs i d) { state = s }))
  Holds-set P [] i d s h e = h
  Holds-set P (x ∷ xs) zero d s h e = (e x.num h.0, h.1)
  Holds-set P (x ∷ xs) (suc i) d s h e = (h.0, Holds-set P xs i d s h.1 e)

  Holds-position :
      (P : ℕ → S → Type ℓ) (n i : ℕ) (xs : List (TimestampedState S)) (d : TimestampedState S)
      → Holds P xs
      → position n xs ≡ some i
      → P n (get_or xs i d).state
  Holds-position P n i [] d h e = absurd (ground arith)
  Holds-position P n zero (x ∷ xs) d h e = elim (Bool-cases (x.num == n)) [
    | inl k ↦ subst (λ j. P j x.state) (==→eq x.num n k) h.0
    | inr k ↦ elim (Option-cases (position n xs)) [
      | inl l ↦ absurd (ground arith)
      | inr (j, l) ↦ absurd (ground arith)
    ]
  ]
  Holds-position P n (suc i) (x ∷ xs) d h e =
      let e' : position n xs ≡ some i = ground arith in Holds-position P n i xs d h.1 e'

  pub Holds-map :
      (P Q : ℕ → S → Type ℓ) (xs : List (TimestampedState S))
      → ((n : ℕ) (s : S) → P n s → Q n s)
      → Holds P xs
      → Holds Q xs
  Holds-map P Q [] f h = h
  Holds-map P Q (x ∷ xs) f h = (f x.num x.state h.0, Holds-map P Q xs f h.1)

module _ {ℓ κ} {M : Type ℓ} {S : Type κ} (P : ℕ → S → Type κ) where
  filed-Holds :
      (t : Transport M S) (x : TimestampedState S) (diff : List ℕ)
      → Holds P t.received_states
      → P x.num x.state
      → Holds P (filed t x diff).1.received_states
  unfolding filed
  filed-Holds t x diff h k = elim (Option-cases (first_above x.num t.received_states)) [
    | inl e ↦ rw (e, filed) (Holds-push P t.received_states x h k)
    | inr (i, e) ↦ rw (e, filed) (Holds-insert P t.received_states i x h k)
  ]

  thrown-Holds :
      (t : Transport M S) (n : ℕ)
      → Holds P t.received_states
      → Holds P (process_throwaway_until t n).received_states
  unfolding process_throwaway_until
  thrown-Holds t n h = elim (Option-cases (last? t.received_states)) [
    | inl e ↦ rw (e, process_throwaway_until) h
    | inr (l, e) ↦
        rw (e, process_throwaway_until) (Holds-retain_from P (min n l.num) t.received_states h)
  ]

  acknowledged-Holds :
      (t : Transport M S) (n : ℕ)
      → Holds P t.received_states
      → Holds P (acknowledged t n).received_states
  unfolding acknowledged
  acknowledged-Holds t n h = h

  started_same :
      (t : Transport M S) (now : ℕ)
      → ((quench_started t now).received_states ≡ t.received_states)
        × ((quench_started t now).last_receiver_state ≡ t.last_receiver_state)
  unfolding quench_started
  started_same t now = elim (Bool-cases (ltb received_states_max (length t.received_states))) [
    | inl e ↦ rw (e, quench_started) (refl, refl)
    | inr e ↦ rw (e, quench_started) (refl, refl)
  ]

module _ {κ} {S : Type κ} (ops : State S) (initial : S) (log : Log S) where
  abbrev MadeBy : ℕ → S → Type κ
  MadeBy = Made ops initial log

module _ {ℓ κ} {M : Type ℓ} {S : Type κ} (ops : State S) (initial : S) (log : Log S) where
  applied-Holds :
      (t : Transport M S) (i old n : ℕ) (diff : List ℕ) (now : ℕ) (a b : S)
      → Holds (MadeBy ops initial log) t.received_states
      → position old t.received_states ≡ some i
      → Logged log old a
      → Logged log n b
      → diff ≡ ops.diff_from b a
      → Holds (MadeBy ops initial log) (applied ops t i n diff now).1.received_states
  unfolding applied
  applied-Holds t i old n diff now a b h at la lb is_diff =
      let d : TimestampedState S = record {
        timestamp = 0;
        num = 0;
        state = t.last_receiver_state;
      } in
      let r : TimestampedState S = get_or t.received_states i d in
      let both : S × S = ops.adopt_from (ops.clone r.state) r.state in
      let made : (MadeBy ops initial log) old r.state =
        Holds-position (MadeBy ops initial log) old i t.received_states d h at in
      let t' : Transport M S = record t {
        received_states = set t.received_states i (record r { state = both.1 });
      } in
      let kept : Holds (MadeBy ops initial log) t'.received_states =
        Holds-set (MadeBy ops initial log) t.received_states i d both.1 h
          (λ n m. gave n r.state m) in
      elim (Option-cases (patched ops both.0 diff)) [
        | inl e ↦ rw (e, applied) kept
        | inr (s, e) ↦
            rw (e, applied)
              (filed-Holds (MadeBy ops initial log) t'
                (record { timestamp = now; num = n; state = s }) diff kept
                (patched_by old n a b r.state s made la lb
                  (ap (patched ops both.0) (sym is_diff) ∙ e)))
      ]

  referenced-Holds :
      (t : Transport M S) (old n : ℕ) (diff : List ℕ) (clock : InstructionClock) (a b : S)
      → Holds (MadeBy ops initial log) t.received_states
      → Logged log old a
      → Logged log n b
      → diff ≡ ops.diff_from b a
      → Holds (MadeBy ops initial log) (referenced ops t old n diff clock).1.received_states
  unfolding referenced
  referenced-Holds t old n diff clock a b h la lb reaches =
      let now : ℕ = clock.quenched_at in
      let t' : Transport M S = quench_started t now in
      let same : t'.received_states ≡ t.received_states =
        (started_same (MadeBy ops initial log) t now).0 in
      elim (Option-cases (position old t.received_states)) [
        | inl e ↦ rw (e, referenced) h
        | inr (i, e) ↦ elim (Bool-cases (quenched t now)) [
          | inl q ↦ rw (e, q, referenced) h
          | inr q ↦
              rw (e, q, referenced)
                (applied-Holds t' i old n diff clock.applied_at a b
                  (subst (Holds (MadeBy ops initial log)) (sym same) h) (ap (position old) same ∙ e)
                  la lb reaches)
        ]
      ]

  pub process_instruction-Holds :
      (t : Transport M S) (inst : Instruction) (clock : InstructionClock)
      → Holds (MadeBy ops initial log) t.received_states
      → Faithful ops log inst
      → Holds (MadeBy ops initial log) (process_instruction ops t inst clock).1.received_states
  unfolding process_instruction
  process_instruction-Holds t inst clock h (a, b, la, lb, reaches) =
      let n : ℕ = unwrap_or inst.new_num 0 in
      let old : ℕ = unwrap_or inst.old_num 0 in
      let t' : Transport M S = acknowledged t (unwrap_or inst.ack_num 0) in
      let t'' : Transport M S = process_throwaway_until t' (unwrap_or inst.throwaway_num 0) in
      let acked : _ = acknowledged-Holds (MadeBy ops initial log) t (unwrap_or inst.ack_num 0) h in
      let thrown : _ =
        thrown-Holds (MadeBy ops initial log) t' (unwrap_or inst.throwaway_num 0) acked in
      elim (Bool-cases (option_eq ◌==◌ inst.protocol_version (some protocol_version))) [
        | inr v ↦ rw (v, process_instruction) h
        | inl v ↦
            elim (Bool-cases (has_num n t.received_states || not (has_num old t.received_states))) [
              | inl k ↦ rw (v, k, process_instruction) acked
              | inr k ↦
                  rw (v, k, process_instruction)
                    (referenced-Holds t'' old n (unwrap_or inst.diff []) clock a b thrown la lb
                      reaches)
            ]
      ]
