-- ===== src/Network/Sync/History.antt =====
-- crates/morsh-network/src/transport.rs: the sender's history as a chain. The numbers ascend up to
-- the last one, the times do not fall, and every state is logged under its number.
use morsh.Common.{
  ℕ, zero, suc, ◌+◌, ◌-◌, ◌≤◌, ◌<◌, ◌≡◌, refl, List, [], ◌∷◌, ◌++◌, true, leb, ◌==◌, length, get_or,
  set, remove_at, Bool-cases, inl, inr, arith,
}
use morsh.Network.State.{TimestampedState}
use morsh.Network.Sender.{retain_from, has_num}
use morsh.Network.Sender.Invariant.{Since, Rising}
use morsh.Network.Sync.{Log, Logged}

-- From a number and a time that the first state is not below, to the number `m` of the last.
abbrev pub Chain {ℓ} : {S : Type ℓ} → Log S → ℕ → ℕ → ℕ → ℕ → List (TimestampedState S) → Type ℓ
Chain log m now lo t [] = (lo ≡ suc m) × (t ≤ now) × Unit {ℓ}
Chain log m now lo t (x ∷ xs) =
    (lo ≤ x.num)
    × (t ≤ x.timestamp)
    × Logged log x.num x.state
    × Chain log m now (suc x.num) x.timestamp xs

module _ {ℓ} {S : Type ℓ} where
  pub Chain-bound :
      (log : Log S) (m now lo t : ℕ) (xs : List (TimestampedState S))
      → Chain log m now lo t xs
      → (lo ≤ suc m) × (t ≤ now)
  Chain-bound log m now lo t [] h = (omega arith, h.1)
  Chain-bound log m now lo t (x ∷ xs) h =
      let rest : _ = Chain-bound log m now (suc x.num) x.timestamp xs h.3 in
      (omega arith, omega arith)

  Chain-weaken :
      (log : Log S) (m now lo t lo' t' : ℕ) (xs : List (TimestampedState S))
      → Chain log m now lo t xs
      → lo ≤ m
      → lo' ≤ lo
      → t' ≤ t
      → Chain log m now lo' t' xs
  Chain-weaken log m now lo t lo' t' [] h k l r = absurd (omega arith)
  Chain-weaken log m now lo t lo' t' (x ∷ xs) h k l r = (omega arith, omega arith, h.2, h.3)

  pub Chain-retain_from :
      (log : Log S) (m now lo t c : ℕ) (xs : List (TimestampedState S))
      → Chain log m now lo t xs
      → c ≤ m
      → Chain log m now lo t (retain_from c xs)
  Chain-retain_from log m now lo t c [] h le = h
  Chain-retain_from log m now lo t c (x ∷ xs) h le =
      let rest : _ = Chain-retain_from log m now (suc x.num) x.timestamp c xs h.3 le in
      elim (Bool-cases (leb c x.num)) [
        | inl e ↦ rw e (h.0, h.1, h.2, rest)
        | inr e ↦
            let below : x.num < c = ground arith in
            rw e (
              Chain-weaken log m now (suc x.num) x.timestamp lo t (retain_from c xs) rest
                (omega arith) (omega arith) h.1)
      ]

  pub Chain-push :
      (log : Log S) (m now lo t : ℕ) (xs : List (TimestampedState S)) (y : TimestampedState S)
      → Chain log m now lo t xs
      → m < y.num
      → y.timestamp ≡ now
      → Logged log y.num y.state
      → Chain log y.num now lo t (xs ++ (y ∷ []))
  Chain-push log m now lo t [] y h above e logged =
      (omega arith, omega arith, logged, (refl, omega arith, tt))
  Chain-push log m now lo t (x ∷ xs) y h above e logged =
      (h.0, h.1, h.2, Chain-push log m now (suc x.num) x.timestamp xs y h.3 above e logged)

  pub Chain-remove_at :
      (log : Log S) (m now lo t v : ℕ) (xs : List (TimestampedState S))
      → Chain log m now lo t xs
      → v + 1 < length xs
      → Chain log m now lo t (remove_at xs v)
  Chain-remove_at log m now lo t v [] h le = absurd (omega arith)
  Chain-remove_at log m now lo t zero (x ∷ []) h le = absurd (omega arith)
  Chain-remove_at log m now lo t zero (x ∷ y ∷ xs) h le =
      let bound : _ = Chain-bound log m now (suc y.num) y.timestamp xs h.3.3 in
      let next : suc x.num ≤ y.num = h.3.0 in
      Chain-weaken log m now (suc x.num) x.timestamp lo t (y ∷ xs) h.3 (omega arith) (omega arith)
        h.1
  Chain-remove_at log m now lo t (suc v) (x ∷ xs) h le =
      (h.0, h.1, h.2, Chain-remove_at log m now (suc x.num) x.timestamp v xs h.3 (omega arith))

  -- The last state sent again.
  pub Chain-set_last :
      (log : Log S) (m now lo t i : ℕ) (xs : List (TimestampedState S)) (d : TimestampedState S)
      → Chain log m now lo t xs
      → i + 1 ≡ length xs
      → Chain log m now lo t (set xs i (record (get_or xs i d) { timestamp = now }))
  Chain-set_last log m now lo t i [] d h e = h
  Chain-set_last log m now lo t zero (x ∷ []) d h e =
      (h.0, omega arith, h.2, (h.3.0, omega arith, tt))
  Chain-set_last log m now lo t zero (x ∷ y ∷ xs) d h e = absurd (omega arith)
  Chain-set_last log m now lo t (suc i) (x ∷ xs) d h e =
      (h.0, h.1, h.2, Chain-set_last log m now (suc x.num) x.timestamp i xs d h.3 (omega arith))

  pub Chain-log :
      (log : Log S) (entry : ℕ × S) (m now lo t : ℕ) (xs : List (TimestampedState S))
      → Chain log m now lo t xs
      → Chain (entry ∷ log) m now lo t xs
  Chain-log log entry m now lo t [] h = h
  Chain-log log entry m now lo t (x ∷ xs) h =
      (h.0, h.1, inr h.2, Chain-log log entry m now (suc x.num) x.timestamp xs h.3)

  pub Chain-later :
      (log : Log S) (m now d lo t : ℕ) (xs : List (TimestampedState S))
      → Chain log m now lo t xs
      → Chain log m (now + d) lo t xs
  Chain-later log m now d lo t [] h = (h.0, omega arith, tt)
  Chain-later log m now d lo t (x ∷ xs) h =
      (h.0, h.1, h.2, Chain-later log m now d (suc x.num) x.timestamp xs h.3)

  pub Chain-nonempty :
      (log : Log S) (m now t : ℕ) (xs : List (TimestampedState S))
      → Chain log m now 0 t xs
      → length xs ≡ (length xs - 1) + 1
  Chain-nonempty log m now t [] h = absurd (omega arith)
  Chain-nonempty log m now t (x ∷ xs) h = omega arith

  pub Chain-get_or :
      (log : Log S) (m now lo t i : ℕ) (xs : List (TimestampedState S)) (d : TimestampedState S)
      → Chain log m now lo t xs
      → i < length xs
      → Logged log (get_or xs i d).num (get_or xs i d).state
  Chain-get_or log m now lo t i [] d h le = absurd (omega arith)
  Chain-get_or log m now lo t zero (x ∷ xs) d h le = h.2
  Chain-get_or log m now lo t (suc i) (x ∷ xs) d h le =
      Chain-get_or log m now (suc x.num) x.timestamp i xs d h.3 (omega arith)

  pub Chain-last :
      (log : Log S) (m now lo t i : ℕ) (xs : List (TimestampedState S)) (d : TimestampedState S)
      → Chain log m now lo t xs
      → i + 1 ≡ length xs
      → (get_or xs i d).num ≡ m
  Chain-last log m now lo t i [] d h e = absurd (omega arith)
  Chain-last log m now lo t zero (x ∷ []) d h e = omega arith
  Chain-last log m now lo t zero (x ∷ y ∷ xs) d h e = absurd (omega arith)
  Chain-last log m now lo t (suc i) (x ∷ xs) d h e =
      Chain-last log m now (suc x.num) x.timestamp i xs d h.3 (omega arith)

  pub Chain-has_num :
      (log : Log S) (m now lo t n : ℕ) (xs : List (TimestampedState S))
      → Chain log m now lo t xs
      → has_num n xs ≡ true
      → n ≤ m
  Chain-has_num log m now lo t n [] h e = absurd (ground arith)
  Chain-has_num log m now lo t n (x ∷ xs) h e = elim (Bool-cases (x.num == n)) [
    | inl k ↦
        let bound : _ = Chain-bound log m now (suc x.num) x.timestamp xs h.3 in
        let same : x.num ≡ n = ground arith in omega arith
    | inr k ↦
        let e' : has_num n xs ≡ true = ground arith in
        Chain-has_num log m now (suc x.num) x.timestamp n xs h.3 e'
  ]

  Chain-Since :
      (log : Log S) (m now lo t t' : ℕ) (xs : List (TimestampedState S))
      → Chain log m now lo t xs
      → t' ≤ t
      → Since t' xs
  Chain-Since log m now lo t t' [] h le = tt
  Chain-Since log m now lo t t' (x ∷ xs) h le =
      (omega arith, Chain-Since log m now (suc x.num) x.timestamp t' xs h.3 (omega arith))

  pub Chain-Rising :
      (log : Log S) (m now lo t : ℕ) (xs : List (TimestampedState S))
      → Chain log m now lo t xs
      → Rising now xs
  Chain-Rising log m now lo t [] h = tt
  Chain-Rising log m now lo t (x ∷ xs) h =
      let later : x.timestamp ≤ x.timestamp = omega arith in
      (
        (Chain-bound log m now (suc x.num) x.timestamp xs h.3).1,
        Chain-Since log m now (suc x.num) x.timestamp x.timestamp xs h.3 later,
        Chain-Rising log m now (suc x.num) x.timestamp xs h.3,
      )
