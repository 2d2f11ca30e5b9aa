-- ===== src/Network/Transport/Invariant.antt =====
-- crates/morsh-network/src/transport.rs: the received history stays in order, and what it holds last is
-- what the sender acknowledges.
use morsh.Common.{
  ℕ, min, ◌≤◌, ◌<◌, ◌≡◌, refl, sym, ap, ◌∙◌, subst, List, [], ◌∷◌, Option, none, some, false, ltb,
  ◌==◌, length, get_or, set, last?, Bool-cases, Option-cases, inl, inr, arith, Result, ok, err,
  panicked, unwrap_or, option_eq,
}
use morsh.Proto.{Instruction, Wire}
use morsh.Crypto.Cipher.{Cipher}
use morsh.Network.Constants.{protocol_version}
use morsh.Network.State.{State, TimestampedState}
use morsh.Network.Sender
use morsh.Network.Sender.{
  TransportSender, retain_from, has_num, position, culled, process_acknowledgment_through,
  set_ack_num, remote_heard, set_data_ack,
}
use morsh.Network.Connection.{Connection, set_last_roundtrip_success}
use morsh.Network.Connection.Incoming.{RecvClock, Received, process_incoming}
use morsh.Network.Transport.{
  Transport, TransportError, RecvOutcome, incomplete, ignored, out_of_order_state, new_state,
  InstructionClock, received_states_max, first_above, new, received_at, process_throwaway_until,
  acknowledged, quenched, quench_started, heard, filed, patched, applied, referenced,
  process_instruction, delivered, process_datagram,
}
use morsh.Network.Transport.Numbers.{
  Ascending, newest, Ascending-retain_from, Ascending-set, newest-set, has_num-set, Ascending-push,
  Ascending-insert, newest-push, newest-insert, newest-retain_from, newest-last, newest_below,
  has_num-retain_from,
}

clamped : (n a m : ℕ) (o : Option ℕ) → o ≡ some a → o ≡ some m → min n m ≤ a
clamped n a m o e k = ground arith

module _ {ℓ} {M : Type ℓ} where
  ack_num-process :
      (s : TransportSender M) (n : ℕ) → (process_acknowledgment_through s n).ack_num ≡ s.ack_num
  unfolding process_acknowledgment_through culled
  ack_num-process s n = elim (Bool-cases (has_num n s.sent_states)) [
    | inl k ↦ rw k refl
    | inr k ↦ rw k refl
  ]

  heard_ack_num :
      (s : TransportSender M) (n when : ℕ) (diff : List ℕ) → (heard s n when diff).ack_num ≡ n
  unfolding heard set_ack_num remote_heard set_data_ack
  heard_ack_num s n when [] = refl
  heard_ack_num s n when (b ∷ bs) = refl

module _ {ℓ κ} {M : Type ℓ} {R : Type κ} where
  -- The history ascends, and its last number is the one to acknowledge.
  abbrev pub IsValid : Transport M R → Type 0
  IsValid t = Ascending t.received_states × (newest t.received_states ≡ some t.sender.ack_num)

  -- What an outcome says of the transport after it, where `a` was acknowledged before.
  abbrev pub Advance : ℕ → Result TransportError RecvOutcome → Transport M R → Type 0
  Advance a (ok (new_state n)) t = IsValid t × (a < n) × (t.sender.ack_num ≡ n)
  Advance a (ok (out_of_order_state n)) t = IsValid t × (t.sender.ack_num ≡ a)
  Advance a (ok ignored) t = IsValid t × (t.sender.ack_num ≡ a)
  Advance a (ok incomplete) t = IsValid t × (t.sender.ack_num ≡ a)
  Advance a (err e) t = IsValid t × (t.sender.ack_num ≡ a)
  Advance a panicked t = IsValid t × (t.sender.ack_num ≡ a)

  pub new-IsValid : (c : Connection) (m : M) (r : R) (now : ℕ) → IsValid (new c m r now)
  unfolding new Sender.new
  new-IsValid c m r now = ((tt, tt), refl)

  pub acknowledged-IsValid :
      (t : Transport M R) (n : ℕ)
      → IsValid t
      → IsValid (acknowledged t n) × ((acknowledged t n).sender.ack_num ≡ t.sender.ack_num)
  unfolding acknowledged set_last_roundtrip_success
  acknowledged-IsValid t n h =
      let same : _ = ack_num-process t.sender n in ((h.0, h.1 ∙ ap some (sym same)), same)

  pub process_throwaway_until-IsValid :
      (t : Transport M R) (n : ℕ)
      → IsValid t
      → IsValid (process_throwaway_until t n)
        × ((process_throwaway_until t n).sender.ack_num ≡ t.sender.ack_num)
  unfolding process_throwaway_until
  process_throwaway_until-IsValid t n h = elim (Option-cases (last? t.received_states)) [
    | inl e ↦ rw (e, process_throwaway_until) (h, refl)
    | inr (l, e) ↦
        rw (e, process_throwaway_until)
          (
            (
              Ascending-retain_from (min n l.num) t.received_states h.0,
              newest-retain_from (min n l.num) t.sender.ack_num t.received_states h.1 (
                  clamped n t.sender.ack_num l.num (newest t.received_states) h.1
                    (newest-last t.received_states l e)),
            ),
            refl,
          )
  ]

  fresh-throwaway :
      (t : Transport M R) (n m : ℕ)
      → has_num n t.received_states ≡ false
      → has_num n (process_throwaway_until t m).received_states ≡ false
  unfolding process_throwaway_until
  fresh-throwaway t n m h = elim (Option-cases (last? t.received_states)) [
    | inl e ↦ rw (e, process_throwaway_until) h
    | inr (l, e) ↦
        rw (e, process_throwaway_until) (has_num-retain_from n (min m l.num) t.received_states h)
  ]

  fresh-acknowledged :
      (t : Transport M R) (n m : ℕ)
      → has_num n t.received_states ≡ false
      → has_num n (acknowledged t m).received_states ≡ false
  unfolding acknowledged
  fresh-acknowledged t n m h = h

  filed-Advance :
      (t : Transport M R) (x : TimestampedState R) (diff : List ℕ)
      → IsValid t
      → has_num x.num t.received_states ≡ false
      → Advance t.sender.ack_num (ok (filed t x diff).0) (filed t x diff).1
  unfolding filed
  filed-Advance t x diff h fresh = elim (Option-cases (first_above x.num t.received_states)) [
    | inl e ↦
        rw (e, filed, Advance)
          (
            (
              Ascending-push t.received_states x h.0 fresh e,
              newest-push t.received_states x
                  ∙ ap some (sym (heard_ack_num t.sender x.num x.timestamp diff)),
            ),
            newest_below t.received_states x.num t.sender.ack_num fresh e h.1,
            heard_ack_num t.sender x.num x.timestamp diff,
          )
    | inr (i, e) ↦
        rw (e, filed, Advance)
          (
            (
              Ascending-insert t.received_states x i h.0 fresh e,
              newest-insert t.received_states x i t.sender.ack_num e h.1,
            ),
            refl,
          )
  ]

module _ {ℓ κ} {M : Type ℓ} {R : Type κ} (ops : State R) where
  -- The history while the new state is made: the reference may have given up what it held.
  abbrev pub adopted : Transport M R → ℕ → Transport M R
  adopted t i =
      let reference = received_at t i in
      record t {
        received_states = set t.received_states i (record reference {
          state = (ops.adopt_from (ops.clone reference.state) reference.state).1;
        });
      }

  adopted-IsValid : (t : Transport M R) (i : ℕ) → IsValid t → IsValid (adopted t i)
  adopted-IsValid t i h =
      let d : TimestampedState R = record {
        timestamp = 0;
        num = 0;
        state = t.last_receiver_state;
      } in
      let r : TimestampedState R = get_or t.received_states i d in
      let s : R = (ops.adopt_from (ops.clone r.state) r.state).1 in
      (Ascending-set i t.received_states d s h.0, newest-set i t.received_states d s ∙ h.1)

  applied-Advance :
      (t : Transport M R) (i n : ℕ) (diff : List ℕ) (now : ℕ)
      → IsValid t
      → has_num n t.received_states ≡ false
      → Advance t.sender.ack_num (applied ops t i n diff now).0 (applied ops t i n diff now).1
  unfolding applied
  applied-Advance t i n diff now h fresh =
      let d : TimestampedState R = record {
        timestamp = 0;
        num = 0;
        state = t.last_receiver_state;
      } in
      let r : TimestampedState R = get_or t.received_states i d in
      let both : R × R = ops.adopt_from (ops.clone r.state) r.state in
      let valid : _ = adopted-IsValid t i h in
      let fresh' : has_num n (adopted t i).received_states ≡ false =
        has_num-set n i t.received_states d both.1 ∙ fresh in
      elim (Option-cases (patched ops both.0 diff)) [
        | inl e ↦ rw (e, applied, Advance) (valid, refl)
        | inr (state, e) ↦
            rw (e, applied)
              (filed-Advance (adopted t i) (record { timestamp = now; num = n; state = state }) diff
                valid fresh')
      ]

  quench_started-IsValid :
      (t : Transport M R) (now : ℕ)
      → IsValid t
      → IsValid (quench_started t now)
        × ((quench_started t now).sender.ack_num ≡ t.sender.ack_num)
        × ((quench_started t now).received_states ≡ t.received_states)
  unfolding quench_started
  quench_started-IsValid t now h =
      elim (Bool-cases (ltb received_states_max (length t.received_states))) [
        | inl e ↦ rw (e, quench_started) (h, refl, refl)
        | inr e ↦ rw (e, quench_started) (h, refl, refl)
      ]

  referenced-Advance :
      (t : Transport M R) (old n : ℕ) (diff : List ℕ) (clock : InstructionClock)
      → IsValid t
      → has_num n t.received_states ≡ false
      → Advance t.sender.ack_num
          (referenced ops t old n diff clock).0
          (referenced ops t old n diff clock).1
  unfolding referenced
  referenced-Advance t old n diff clock h fresh =
      let now : ℕ = clock.quenched_at in
      let started : _ = quench_started-IsValid t now h in
      elim (Option-cases (position old t.received_states)) [
        | inl e ↦ rw (e, referenced, Advance) (h, refl)
        | inr (i, e) ↦ elim (Bool-cases (quenched t now)) [
          | inl q ↦ rw (e, q, referenced, Advance) (h, refl)
          | inr q ↦
              rw (e, q, referenced)
                (subst
                  (λ a.
                    Advance a (applied ops (quench_started t now) i n diff clock.applied_at).0
                      (applied ops (quench_started t now) i n diff clock.applied_at).1)
                  started.1
                  (applied-Advance (quench_started t now) i n diff clock.applied_at started.0
                    (ap (has_num n) started.2 ∙ fresh)))
        ]
      ]

  -- Whatever the instruction says, the history stays in order and the number to acknowledge is the
  -- last one held; it grows when the outcome is a new state, and stays otherwise.
  pub process_instruction-Advance :
      (t : Transport M R) (inst : Instruction) (clock : InstructionClock)
      → IsValid t
      → Advance t.sender.ack_num
          (process_instruction ops t inst clock).0
          (process_instruction ops t inst clock).1
  unfolding process_instruction
  process_instruction-Advance t inst clock h =
      let n : ℕ = unwrap_or inst.new_num 0 in
      let old : ℕ = unwrap_or inst.old_num 0 in
      let t' : Transport M R = acknowledged t (unwrap_or inst.ack_num 0) in
      let t'' : Transport M R = process_throwaway_until t' (unwrap_or inst.throwaway_num 0) in
      let acked : _ = acknowledged-IsValid t (unwrap_or inst.ack_num 0) h in
      let thrown : _ =
        process_throwaway_until-IsValid t' (unwrap_or inst.throwaway_num 0) acked.0 in
      elim (Bool-cases (option_eq ◌==◌ inst.protocol_version (some protocol_version))) [
        | inr v ↦ rw (v, process_instruction, Advance) (h, refl)
        | inl v ↦ elim (Bool-cases (has_num n t.received_states)) [
          | inl k ↦ rw (v, k, process_instruction, Advance) acked
          | inr k ↦ elim (Bool-cases (has_num old t.received_states)) [
            | inr l ↦ rw (v, k, l, process_instruction, Advance) acked
            | inl l ↦
                rw (v, k, l, process_instruction)
                  (subst
                    (λ a.
                      Advance a (referenced ops t'' old n (unwrap_or inst.diff []) clock).0
                        (referenced ops t'' old n (unwrap_or inst.diff []) clock).1)
                    (thrown.1 ∙ acked.1)
                    (referenced-Advance t'' old n (unwrap_or inst.diff []) clock thrown.0 (
                      fresh-throwaway t' n (unwrap_or inst.throwaway_num 0)
                        (fresh-acknowledged t n (unwrap_or inst.ack_num 0) k))))
          ]
        ]
      ]

  delivered-Advance :
      (t : Transport M R) (r : Received) (clock : InstructionClock)
      → IsValid t
      → Advance t.sender.ack_num (delivered ops t r clock).0 (delivered ops t r clock).1
  unfolding delivered
  delivered-Advance t (err e, c) clock h = (h, refl)
  delivered-Advance t (panicked, c) clock h = (h, refl)
  delivered-Advance t (ok none, c) clock h = (h, refl)
  delivered-Advance t (ok (some inst), c) clock h =
      process_instruction-Advance (record t { connection = c }) inst clock h

  -- For a transport whose received history ascends in number and ends with the number to
  -- acknowledge, and whatever the bytes of a datagram and its sender's address are: afterwards the
  -- history ascends and ends with the number to acknowledge again; that number grows to the
  -- outcome's number when the outcome is a new state, and stays as it was for every other outcome
  -- and every error.
  pub process_datagram-Advance :
      (wire : Wire) (cipher : Cipher) (t : Transport M R) (recv_clock : RecvClock)
      (clock : InstructionClock) (datagram : List ℕ) (peer : ℕ)
      → IsValid t
      → Advance t.sender.ack_num
          (process_datagram ops wire cipher t recv_clock clock datagram peer).0
          (process_datagram ops wire cipher t recv_clock clock datagram peer).1
  unfolding process_datagram
  process_datagram-Advance wire cipher t recv_clock clock datagram peer h =
      delivered-Advance t (process_incoming wire cipher t.connection recv_clock datagram peer) clock
        h
