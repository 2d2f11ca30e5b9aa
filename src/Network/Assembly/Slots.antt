-- ===== src/Network/Assembly/Slots.antt =====
-- The slots of the assembler: which are filled, and how the vector grows.
use morsh.Common.{
  ℕ, zero, suc, ◌+◌, ◌-◌, ◌≤◌, ◌<◌, ◌≡◌, max, refl, sym, ap, ◌∙◌, append-nil, ◌==◌, inl, inr, List,
  [], ◌∷◌, ◌++◌, Option, none, some, Bool, true, false, ltb, if◌then◌else◌, length, replicate, set,
  arith, take_all, length-append, length-replicate, length-set, tests, Bool-cases, lt→ltb,
}
use morsh.Network.Fragment.{Fragment}
use morsh.Network.Assembly.{resize, have, grow}

abbrev pub Slots : Type 0
Slots = List (Option Fragment)

-- What stands at an index, with nothing beyond the end.
abbrev pub slot : Slots → ℕ → Option Fragment
slot [] i = none
slot (x ∷ xs) zero = x
slot (x ∷ xs) (suc i) = slot xs i

abbrev pub is_some : Option Fragment → Bool
is_some none = false
is_some (some f) = true

pub have-slot : (xs : Slots) (i : ℕ) → have xs i ≡ is_some (slot xs i)
unfolding have
have-slot [] i = refl
have-slot (none ∷ xs) zero = refl
have-slot (some f ∷ xs) zero = refl
have-slot (x ∷ xs) (suc i) = have-slot xs i

abbrev pub filled : Slots → ℕ
filled [] = 0
filled (none ∷ slots) = filled slots
filled (some f ∷ slots) = suc (filled slots)

pub filled-le : (slots : Slots) → filled slots ≤ length slots
filled-le [] = omega arith
filled-le (none ∷ slots) = omega (arith, filled-le slots)
filled-le (some f ∷ slots) = omega (arith, filled-le slots)

filled-append : (xs ys : Slots) → filled (xs ++ ys) ≡ filled xs + filled ys
filled-append [] ys = omega arith
filled-append (none ∷ xs) ys = filled-append xs ys
filled-append (some f ∷ xs) ys = omega (arith, filled-append xs ys)

filled-replicate : (n : ℕ) → filled (replicate n none) ≡ 0
filled-replicate zero = refl
filled-replicate (suc n) = filled-replicate n

slot-replicate : (n i : ℕ) → slot (replicate n none) i ≡ none
slot-replicate zero i = refl
slot-replicate (suc n) zero = refl
slot-replicate (suc n) (suc i) = slot-replicate n i

slot-append_none : (xs : Slots) (n i : ℕ) → slot (xs ++ replicate n none) i ≡ slot xs i
slot-append_none [] n i = slot-replicate n i
slot-append_none (x ∷ xs) n zero = refl
slot-append_none (x ∷ xs) n (suc i) = slot-append_none xs n i

pub resize_longer :
    (xs : Slots) (n : ℕ) → length xs ≤ n → resize n xs ≡ xs ++ replicate (n - length xs) none
unfolding resize
resize_longer xs n h = rw (take_all n xs h)

-- Growing adds empty slots, as far as the index that is to be written.
grow_form :
    (xs : Slots) (i : ℕ)
    → (n : ℕ) × (grow xs i ≡ xs ++ replicate n none) × (length xs + n ≡ max (length xs) (i + 1))
unfolding grow
grow_form xs i = elim (Bool-cases (ltb (length xs) (i + 1))) [
  | inl e ↦ (i + 1 - length xs, rw e (resize_longer xs (i + 1) (omega tests)), omega tests)
  | inr e ↦ (0, rw e (sym (append-nil xs)), omega tests)
]

module _ (xs : Slots) (i : ℕ) where
  pub filled-grow : filled (grow xs i) ≡ filled xs
  filled-grow =
      let (n, form, len) = grow_form xs i in
      rw (form, filled-append xs (replicate n none), filled-replicate n) (omega arith)

  pub length-grow : length (grow xs i) ≡ max (length xs) (i + 1)
  length-grow =
      let (n, form, len) = grow_form xs i in
      rw form (
        omega (
          arith,
          length-append xs (replicate n none),
          length-replicate {A = Option Fragment} n none,
          len,
        ))

  pub slot-grow : (j : ℕ) → slot (grow xs i) j ≡ slot xs j
  slot-grow j = let (n, form, len) = grow_form xs i in rw form (slot-append_none xs n j)

-- Writing one slot.
pub filled-set :
    (xs : Slots) (i : ℕ) (f : Fragment)
    → i < length xs
    → slot xs i ≡ none
    → filled (set xs i (some f)) ≡ filled xs + 1
filled-set [] i f h e = absurd (omega arith)
filled-set (none ∷ xs) zero f h e = omega arith
filled-set (some g ∷ xs) zero f h e = cc
filled-set (none ∷ xs) (suc i) f h e = filled-set xs i f (omega arith) e
filled-set (some g ∷ xs) (suc i) f h e = omega (arith, filled-set xs i f (omega arith) e)

pub slot-set :
    (xs : Slots) (i j : ℕ) (f : Fragment)
    → i < length xs
    → slot (set xs i (some f)) j ≡ (if i == j then some f else slot xs j)
slot-set [] i j f h = absurd (omega arith)
slot-set (x ∷ xs) zero zero f h = refl
slot-set (x ∷ xs) zero (suc j) f h = ground arith
slot-set (x ∷ xs) (suc i) zero f h = ground arith
slot-set (x ∷ xs) (suc i) (suc j) f h = ground (arith, slot-set xs i j f (omega arith))

-- Storing a fragment at an empty index.
pub filled-store :
    (xs : Slots) (i : ℕ) (f : Fragment)
    → slot xs i ≡ none
    → filled (set (grow xs i) i (some f)) ≡ filled xs + 1
filled-store xs i f e =
    filled-set (grow xs i) i f (omega (arith, length-grow xs i)) (slot-grow xs i i ∙ e)
    ∙ ap (λ n. n + 1) (filled-grow xs i)

pub slot-store :
    (xs : Slots) (i j : ℕ) (f : Fragment)
    → slot (set (grow xs i) i (some f)) j ≡ (if i == j then some f else slot xs j)
slot-store xs i j f =
    slot-set (grow xs i) i j f (omega (arith, length-grow xs i))
    ∙ ap (λ (o : Option Fragment). if i == j then some f else o) (slot-grow xs i j)

pub length-store :
    (xs : Slots) (i : ℕ) (f : Fragment)
    → length (set (grow xs i) i (some f)) ≡ max (length xs) (i + 1)
length-store xs i f = length-set (grow xs i) i (some f) ∙ length-grow xs i

-- A new packet's vector is the empty one, grown.
pub resize_nil : (i : ℕ) → resize (i + 1) [] ≡ grow [] i
unfolding grow
resize_nil i = rw (lt→ltb 0 (i + 1) (omega arith))

pub is_some-false : (o : Option Fragment) → is_some o ≡ false → o ≡ none
is_some-false none e = refl
is_some-false (some f) e = cc
