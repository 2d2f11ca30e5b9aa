-- ===== src/Network/Transport/Numbers.antt =====
-- crates/morsh-network/src/transport.rs: the numbers of a history of states, in ascending order.
use morsh.Common.{
  ℕ, zero, suc, ◌≤◌, ◌<◌, ◌≡◌, refl, ap, List, [], ◌∷◌, ◌++◌, Option, none, some, true, false, leb,
  get_or, set, last?, Bool-cases, inl, inr, arith,
}
use morsh.Network.State.{TimestampedState}
use morsh.Network.Sender.{retain_from, has_num}
use morsh.Network.Transport.{first_above, insert}

-- Every number of the history is above `n`.
abbrev pub Above {ℓ} : {R : Type ℓ} → ℕ → List (TimestampedState R) → Type 0
Above n [] = Unit {0}
Above n (x ∷ xs) = (n < x.num) × Above n xs

-- The numbers ascend.
abbrev pub Ascending {ℓ} : {R : Type ℓ} → List (TimestampedState R) → Type 0
Ascending [] = Unit {0}
Ascending (x ∷ xs) = Above x.num xs × Ascending xs

-- The number of the last state.
abbrev pub newest {ℓ} : {R : Type ℓ} → List (TimestampedState R) → Option ℕ
newest [] = none
newest (x ∷ []) = some x.num
newest (x ∷ y ∷ xs) = newest (y ∷ xs)

module _ {ℓ} {R : Type ℓ} where
  Above-le : (m n : ℕ) (xs : List (TimestampedState R)) → m ≤ n → Above n xs → Above m xs
  Above-le m n [] le h = tt
  Above-le m n (x ∷ xs) le h = (omega arith, Above-le m n xs le h.1)

  Above-retain_from :
      (n c : ℕ) (xs : List (TimestampedState R)) → Above n xs → Above n (retain_from c xs)
  Above-retain_from n c [] h = tt
  Above-retain_from n c (x ∷ xs) h = elim (Bool-cases (leb c x.num)) [
    | inl k ↦ rw k (h.0, Above-retain_from n c xs h.1)
    | inr k ↦ rw k (Above-retain_from n c xs h.1)
  ]

  pub Ascending-retain_from :
      (c : ℕ) (xs : List (TimestampedState R)) → Ascending xs → Ascending (retain_from c xs)
  Ascending-retain_from c [] h = tt
  Ascending-retain_from c (x ∷ xs) h = elim (Bool-cases (leb c x.num)) [
    | inl k ↦ rw k (Above-retain_from x.num c xs h.0, Ascending-retain_from c xs h.1)
    | inr k ↦ rw k (Ascending-retain_from c xs h.1)
  ]

  Above-set :
      (n i : ℕ) (xs : List (TimestampedState R)) (d : TimestampedState R) (s : R)
      → Above n xs
      → Above n (set xs i (record (get_or xs i d) { state = s }))
  Above-set n i [] d s h = tt
  Above-set n zero (x ∷ xs) d s h = h
  Above-set n (suc i) (x ∷ xs) d s h = (h.0, Above-set n i xs d s h.1)

  pub Ascending-set :
      (i : ℕ) (xs : List (TimestampedState R)) (d : TimestampedState R) (s : R)
      → Ascending xs
      → Ascending (set xs i (record (get_or xs i d) { state = s }))
  Ascending-set i [] d s h = tt
  Ascending-set zero (x ∷ xs) d s h = h
  Ascending-set (suc i) (x ∷ xs) d s h = (Above-set x.num i xs d s h.0, Ascending-set i xs d s h.1)

  pub newest-set :
      (i : ℕ) (xs : List (TimestampedState R)) (d : TimestampedState R) (s : R)
      → newest (set xs i (record (get_or xs i d) { state = s })) ≡ newest xs
  newest-set i [] d s = refl
  newest-set zero (x ∷ []) d s = refl
  newest-set (suc i) (x ∷ []) d s = refl
  newest-set zero (x ∷ y ∷ xs) d s = refl
  newest-set (suc zero) (x ∷ y ∷ xs) d s = newest-set zero (y ∷ xs) d s
  newest-set (suc (suc i)) (x ∷ y ∷ xs) d s = newest-set (suc i) (y ∷ xs) d s

  pub has_num-set :
      (n i : ℕ) (xs : List (TimestampedState R)) (d : TimestampedState R) (s : R)
      → has_num n (set xs i (record (get_or xs i d) { state = s })) ≡ has_num n xs
  has_num-set n i [] d s = refl
  has_num-set n zero (x ∷ xs) d s = refl
  has_num-set n (suc i) (x ∷ xs) d s = rw (has_num-set n i xs d s) refl

  Above-append :
      (m n : ℕ) (xs : List (TimestampedState R)) (y : TimestampedState R)
      → Above m xs
      → m < y.num
      → Above m (xs ++ (y ∷ []))
  Above-append m n [] y h k = (k, tt)
  Above-append m n (x ∷ xs) y h k = (h.0, Above-append m n xs y h.1 k)

  Above-insert :
      (m i : ℕ) (xs : List (TimestampedState R)) (y : TimestampedState R)
      → Above m xs
      → m < y.num
      → Above m (insert xs i y)
  Above-insert m i [] y h k = (k, tt)
  Above-insert m zero (x ∷ xs) y h k = (k, h)
  Above-insert m (suc i) (x ∷ xs) y h k = (h.0, Above-insert m i xs y h.1 k)

  -- Filing a number that is not held: at the end, or before the first one above it.
  pub Ascending-push :
      (xs : List (TimestampedState R)) (y : TimestampedState R)
      → Ascending xs
      → has_num y.num xs ≡ false
      → first_above y.num xs ≡ none
      → Ascending (xs ++ (y ∷ []))
  Ascending-push [] y h fresh e = (tt, tt)
  Ascending-push (x ∷ xs) y h fresh e =
      let below : x.num < y.num = ground arith in
      let fresh' : has_num y.num xs ≡ false = ground arith in
      let e' : first_above y.num xs ≡ none = ground arith in
      (Above-append x.num x.num xs y h.0 below, Ascending-push xs y h.1 fresh' e')

  pub Ascending-insert :
      (xs : List (TimestampedState R)) (y : TimestampedState R) (i : ℕ)
      → Ascending xs
      → has_num y.num xs ≡ false
      → first_above y.num xs ≡ some i
      → Ascending (insert xs i y)
  Ascending-insert [] y i h fresh e = (tt, tt)
  Ascending-insert (x ∷ xs) y zero h fresh e =
      let above : y.num < x.num = ground arith in
      ((above, Above-le y.num x.num xs (omega arith) h.0), h)
  Ascending-insert (x ∷ xs) y (suc i) h fresh e =
      let below : x.num < y.num = ground arith in
      let fresh' : has_num y.num xs ≡ false = ground arith in
      let e' : first_above y.num xs ≡ some i = ground arith in
      (Above-insert x.num i xs y h.0 below, Ascending-insert xs y i h.1 fresh' e')

  newest_tail :
      (x : TimestampedState R) (xs : List (TimestampedState R)) (m : ℕ)
      → newest xs ≡ some m
      → newest (x ∷ xs) ≡ some m
  newest_tail x [] m e = absurd (ground arith)
  newest_tail x (y ∷ xs) m e = e

  pub newest-push :
      (xs : List (TimestampedState R)) (y : TimestampedState R)
      → newest (xs ++ (y ∷ [])) ≡ some y.num
  newest-push [] y = refl
  newest-push (x ∷ xs) y = newest_tail x (xs ++ (y ∷ [])) y.num (newest-push xs y)

  pub newest-insert :
      (xs : List (TimestampedState R)) (y : TimestampedState R) (i m : ℕ)
      → first_above y.num xs ≡ some i
      → newest xs ≡ some m
      → newest (insert xs i y) ≡ some m
  newest-insert [] y i m e k = absurd (ground arith)
  newest-insert (x ∷ xs) y zero m e k = k
  newest-insert (x ∷ []) y (suc i) m e k = absurd (ground arith)
  newest-insert (x ∷ x' ∷ xs) y (suc i) m e k =
      let e' : first_above y.num (x' ∷ xs) ≡ some i = ground arith in
      newest_tail x (insert (x' ∷ xs) i y) m (newest-insert (x' ∷ xs) y i m e' k)

  pub newest-retain_from :
      (c m : ℕ) (xs : List (TimestampedState R))
      → newest xs ≡ some m
      → c ≤ m
      → newest (retain_from c xs) ≡ some m
  newest-retain_from c m [] e le = absurd (ground arith)
  newest-retain_from c m (x ∷ []) e le = let keep : leb c x.num ≡ true = ground arith in rw keep e
  newest-retain_from c m (x ∷ y ∷ xs) e le = elim (Bool-cases (leb c x.num)) [
    | inl k ↦ rw k (newest_tail x (retain_from c (y ∷ xs)) m (newest-retain_from c m (y ∷ xs) e le))
    | inr k ↦ rw k (newest-retain_from c m (y ∷ xs) e le)
  ]

  pub newest-last :
      (xs : List (TimestampedState R)) (y : TimestampedState R)
      → last? xs ≡ some y
      → newest xs ≡ some y.num
  newest-last [] y e = absurd (ground arith)
  newest-last (x ∷ []) y e = ap (λ o. elim o [ some z ↦ some z.num | none ↦ none ]) e
  newest-last (x ∷ x' ∷ xs) y e = newest-last (x' ∷ xs) y e

  -- Everything held is below a number that goes to the end.
  pub newest_below :
      (xs : List (TimestampedState R)) (n m : ℕ)
      → has_num n xs ≡ false
      → first_above n xs ≡ none
      → newest xs ≡ some m
      → m < n
  newest_below [] n m fresh e k = absurd (ground arith)
  newest_below (x ∷ []) n m fresh e k = ground arith
  newest_below (x ∷ y ∷ xs) n m fresh e k =
      let fresh' : has_num n (y ∷ xs) ≡ false = ground arith in
      let e' : first_above n (y ∷ xs) ≡ none = ground arith in newest_below (y ∷ xs) n m fresh' e' k

  pub has_num-push :
      (xs : List (TimestampedState R)) (y : TimestampedState R)
      → has_num y.num (xs ++ (y ∷ [])) ≡ true
  has_num-push [] y = ground arith
  has_num-push (x ∷ xs) y = let rest : _ = has_num-push xs y in ground arith

  pub has_num-insert :
      (xs : List (TimestampedState R)) (y : TimestampedState R) (i : ℕ)
      → has_num y.num (insert xs i y) ≡ true
  has_num-insert [] y i = ground arith
  has_num-insert (x ∷ xs) y zero = ground arith
  has_num-insert (x ∷ xs) y (suc i) = let rest : _ = has_num-insert xs y i in ground arith

  pub has_num-retain_from :
      (n c : ℕ) (xs : List (TimestampedState R))
      → has_num n xs ≡ false
      → has_num n (retain_from c xs) ≡ false
  has_num-retain_from n c [] h = refl
  has_num-retain_from n c (x ∷ xs) h =
      let rest : _ = has_num-retain_from n c xs (ground arith) in ground arith
