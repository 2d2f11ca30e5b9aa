-- ===== src/Statesync/Complete/Echo.antt =====
-- crates/morsh-statesync/src/complete.rs: the echo ack does not go back.
use morsh.Common.{
  ℕ, ◌-◌, ◌≤◌, ◌≡◌, refl, sym, subst, ◌⊎◌, inl, inr, List, [], ◌∷◌, ◌++◌, Bool, true, false, leb,
  Bool-cases, leb→le, arith, if◌then◌else◌,
}
use morsh.Statesync.Complete.{
  echo_timeout, Complete, register_input_frame, newest_aged, retained, set_echo_ack,
}

-- The numbers do not fall, and the first is at least `lo`.
abbrev Rising : ℕ → List (ℕ × ℕ) → Type 0
Rising lo [] = Unit
Rising lo ((num, when) ∷ h) = (lo ≤ num) × Rising num h

-- The last number, or `lo`.
abbrev last_number : ℕ → List (ℕ × ℕ) → ℕ
last_number lo [] = lo
last_number lo ((num, when) ∷ h) = last_number num h

-- A frame `n` is in the list and has been there for the timeout.
abbrev Aged : ℕ → ℕ → List (ℕ × ℕ) → Type 0
Aged now n [] = ⊥
Aged now n ((num, when) ∷ h) = ((num ≡ n) × (echo_timeout ≤ now - when)) ⊎ Aged now n h

le→leb : (a b : ℕ) → a ≤ b → leb a b ≡ true
le→leb a b le = ground arith

Rising-weaken : (lo lo' : ℕ) (h : List (ℕ × ℕ)) → lo' ≤ lo → Rising lo h → Rising lo' h
Rising-weaken lo lo' [] le r = tt
Rising-weaken lo lo' ((num, when) ∷ h) le (low, r) = (omega arith, r)

-- What the loop finds is not below the number that it starts with.
newest_aged-ge : (now lo : ℕ) (h : List (ℕ × ℕ)) → Rising lo h → lo ≤ newest_aged now lo h
newest_aged-ge now lo [] r = omega arith
newest_aged-ge now lo ((num, when) ∷ h) (low, r) =
    elim (Bool-cases (leb echo_timeout (now - when))) [
      | inl e ↦ rw e (let more : _ = newest_aged-ge now num h r in omega (arith, more, low))
      | inr e ↦ rw e (newest_aged-ge now lo h (Rising-weaken num lo h low r))
    ]

newest_aged-Aged :
    (now lo n : ℕ) (h : List (ℕ × ℕ)) → Rising lo h → Aged now n h → n ≤ newest_aged now lo h
newest_aged-Aged now lo n [] r a = absurd a
newest_aged-Aged now lo n ((num, when) ∷ h) (low, r) (inl (same, old)) =
    let aged : leb echo_timeout (now - when) ≡ true = le→leb echo_timeout (now - when) old in
    rw aged (subst (λ k. k ≤ newest_aged now num h) same (newest_aged-ge now num h r))
newest_aged-Aged now lo n ((num, when) ∷ h) (low, r) (inr a) =
    elim (Bool-cases (leb echo_timeout (now - when))) [
      | inl e ↦ rw e (newest_aged-Aged now num n h r a)
      | inr e ↦ rw e (newest_aged-Aged now lo n h (Rising-weaken num lo h low r) a)
    ]

newest_aged-cons :
    (now lo num when : ℕ) (h : List (ℕ × ℕ)) (old : Bool)
    → leb echo_timeout (now - when) ≡ old
    → newest_aged now lo ((num, when) ∷ h) ≡ newest_aged now (if old then num else lo) h
newest_aged-cons now lo num when h old e = rw e refl

-- The loop ends with the number that it starts with, or with an aged one.
newest_aged-found :
    (now lo : ℕ) (h : List (ℕ × ℕ))
    → (newest_aged now lo h ≡ lo) ⊎ Aged now (newest_aged now lo h) h
newest_aged-found now lo [] = inl refl
newest_aged-found now lo ((num, when) ∷ h) = elim (Bool-cases (leb echo_timeout (now - when))) [
  | inl e ↦ moved true e (elim (newest_aged-found now num h) [
    | inl same ↦ inr (inl (sym same, leb→le echo_timeout (now - when) e))
    | inr a ↦ inr (inr a)
  ])
  | inr e ↦
      moved false e
        (elim (newest_aged-found now lo h) [ inl same ↦ inl same | inr a ↦ inr (inr a) ])
]
  where
    Found : ℕ → Type 0
    Found k = (k ≡ lo) ⊎ Aged now k ((num, when) ∷ h)

    moved :
        (old : Bool)
        → leb echo_timeout (now - when) ≡ old
        → Found (newest_aged now (if old then num else lo) h)
        → Found (newest_aged now lo ((num, when) ∷ h))
    moved old e f = subst Found (sym (newest_aged-cons now lo num when h old e)) f

retained-Aged : (now n m : ℕ) (h : List (ℕ × ℕ)) → m ≤ n → Aged now n h → Aged now n (retained m h)
retained-Aged now n m [] le a = a
retained-Aged now n m ((num, when) ∷ h) le (inl (same, old)) =
    let keeps : leb m num ≡ true = le→leb m num (omega (arith, same, le)) in
    rw keeps (inl (same, old))
retained-Aged now n m ((num, when) ∷ h) le (inr a) = elim (Bool-cases (leb m num)) [
  | inl e ↦ rw e (inr (retained-Aged now n m h le a))
  | inr e ↦ rw e (retained-Aged now n m h le a)
]

retained-Rising : (lo m : ℕ) (h : List (ℕ × ℕ)) → Rising lo h → Rising lo (retained m h)
retained-Rising lo m [] r = tt
retained-Rising lo m ((num, when) ∷ h) (low, r) = elim (Bool-cases (leb m num)) [
  | inl e ↦ rw e (low, retained-Rising num m h r)
  | inr e ↦ rw e (retained-Rising lo m h (Rising-weaken num lo h low r))
]

later-Aged : (now now' n : ℕ) (h : List (ℕ × ℕ)) → now ≤ now' → Aged now n h → Aged now' n h
later-Aged now now' n [] le a = a
later-Aged now now' n ((num, when) ∷ h) le (inl (same, old)) = inl (same, omega (arith, le, old))
later-Aged now now' n ((num, when) ∷ h) le (inr a) = inr (later-Aged now now' n h le a)

pushed-Aged : (now n : ℕ) (h : List (ℕ × ℕ)) (e : ℕ × ℕ) → Aged now n h → Aged now n (h ++ (e ∷ []))
pushed-Aged now n [] e a = absurd a
pushed-Aged now n ((num, when) ∷ h) e (inl a) = inl a
pushed-Aged now n ((num, when) ∷ h) e (inr a) = inr (pushed-Aged now n h e a)

pushed-Rising :
    (lo n when : ℕ) (h : List (ℕ × ℕ))
    → Rising lo h
    → last_number lo h ≤ n
    → Rising lo (h ++ ((n, when) ∷ []))
pushed-Rising lo n when [] r le = (le, tt)
pushed-Rising lo n when ((num, t) ∷ h) (low, r) le = (low, pushed-Rising num n when h r le)

-- The frames are in order, and the one that is acknowledged is an aged one of them, or none is.
pub record IsEchoed {ℓ} {V : Type ℓ} (now : ℕ) (c : Complete V) : Type 0 where
  pub rising : Rising 0 c.input_history
  pub echoed : (c.echo_ack ≡ 0) ⊎ Aged now c.echo_ack c.input_history

-- The frames that arrive and the checks of the echo, by a clock that does not go back. A frame's number
-- is not below that of the last.
pub data Run {ℓ} {V : Type ℓ} (c : Complete V) (now : ℕ) : Complete V → ℕ → Type ℓ where
  stay : Run c now c now
  arrived :
      {d : Complete V} {t : ℕ} (n t' : ℕ)
      → Run c now d t
      → last_number 0 d.input_history ≤ n
      → t ≤ t'
      → Run c now (register_input_frame d n t') t'
  checked :
      {d : Complete V} {t : ℕ} (t' : ℕ)
      → Run c now d t
      → t ≤ t'
      → Run c now (set_echo_ack d t').1 t'

register-IsEchoed {ℓ} :
    {V : Type ℓ} (c : Complete V) (now n t : ℕ)
    → last_number 0 c.input_history ≤ n
    → now ≤ t
    → IsEchoed now c
    → IsEchoed t (register_input_frame c n t)
register-IsEchoed c now n t next le i = record {
  rising = pushed-Rising 0 n t c.input_history i.rising next;
  echoed = elim i.echoed [
    | inl z ↦ inl z
    | inr a ↦ inr (
        pushed-Aged t c.echo_ack c.input_history (n, t)
          (later-Aged now t c.echo_ack c.input_history le a))
  ];
}

set_echo_ack-IsEchoed {ℓ} :
    {V : Type ℓ} (c : Complete V) (now t : ℕ)
    → now ≤ t
    → IsEchoed now c
    → IsEchoed t (set_echo_ack c t).1 × (c.echo_ack ≤ (set_echo_ack c t).1.echo_ack)
set_echo_ack-IsEchoed c now t le i = (
  record {
    rising = retained-Rising 0 newest c.input_history i.rising;
    echoed = elim (newest_aged-found t 0 c.input_history) [
      | inl z ↦ inl z
      | inr a ↦ inr (retained-Aged t newest newest c.input_history (omega arith) a)
    ];
  },
  elim i.echoed [
    | inl z ↦ omega (arith, z)
    | inr a ↦
        newest_aged-Aged t 0 c.echo_ack c.input_history i.rising
          (later-Aged now t c.echo_ack c.input_history le a)
  ],
)
  where
    newest : ℕ
    newest = newest_aged t 0 c.input_history

-- While input frames arrive in the order of their numbers and the clock does not go back, the echo
-- ack never falls, and it is 0 or the number of a frame that has been there for 50 ms.
pub run-IsEchoed {ℓ} :
    {V : Type ℓ} (c : Complete V) (now : ℕ) (d : Complete V) (t : ℕ)
    → Run c now d t
    → IsEchoed now c
    → IsEchoed t d × (c.echo_ack ≤ d.echo_ack)
run-IsEchoed c now d t stay i = (i, omega arith)
run-IsEchoed c now d t (arrived {d = e} {t = s} n t' r next le) i =
    let (j, grows) = run-IsEchoed c now e s r i in (register-IsEchoed e s n t' next le j, grows)
run-IsEchoed c now d t (checked {d = e} {t = s} t' r le) i =
    let (j, grows) = run-IsEchoed c now e s r i in
    let (k, more) = set_echo_ack-IsEchoed e s t' le j in (k, omega (arith, grows, more))
