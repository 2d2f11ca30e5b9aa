-- ===== src/Crypto/Session/Limit.antt =====
-- crates/morsh-crypto/src/session.rs: the limit on the blocks that one key encrypts, over the life of a
-- session.
use morsh.Common.{
  ℕ, ◌+◌, ◌/◌, ◌^◌, ◌≤◌, ◌<◌, ◌≡◌, refl, ap, subst, ◌∙◌, List, [], ◌∷◌, All, arith, length, Result,
  ok, err, panicked, ◌>>=◌, bind-ok, ok-injective, Option-cases, inl, inr,
}
use morsh.Crypto.Nonce
use morsh.Crypto.Cipher.{Cipher}
use morsh.Crypto.Session.{Message, Session, encrypt}
use morsh.Crypto.Session.RoundTrip.{Encrypted, encrypt-Encrypted}

-- The blocks of the texts, the last of each filled up.
abbrev pub total_blocks : List Message → ℕ
total_blocks [] = 0
total_blocks (m ∷ ms) = (length m.text + 15) / 16 + total_blocks ms

-- The texts fit in memory: a vector is shorter than 2^63.
abbrev pub FitMemory : List Message → Type 0
FitMemory ms = All (λ m. length m.text < 2 ^ 63) ms

module _ {ℓ} (cipher : Cipher) (E : Type ℓ) where
  abbrev put_first : List ℕ → List (List ℕ) × Session → Result E (List (List ℕ) × Session)
  put_first w q = ok (w ∷ q.0, q.1)

  -- The packets of a session, one after another, and the session after them.
  abbrev pub encrypt_each : Session → List Message → Result E (List (List ℕ) × Session)
  encrypt_each s [] = ok ([], s)
  encrypt_each s (m ∷ ms) =
      encrypt cipher {E = E} s m >>= (λ p. encrypt_each p.1 ms >>= put_first p.0)

  -- The session `t` has the key of `s` and has counted the blocks of the texts, all below the limit.
  abbrev Counted : Session → List Message → Session → Type 0
  Counted s ms t =
      (t.key ≡ s.key)
      × (t.blocks_encrypted ≡ s.blocks_encrypted + total_blocks ms)
      × (t.blocks_encrypted < 2 ^ 47)

  encrypt-Counted :
      (s t : Session) (m : Message) (w : List ℕ)
      → length m.text < 2 ^ 63
      → s.blocks_encrypted < 2 ^ 47
      → encrypt cipher {E = E} s m ≡ ok (w, t)
      → Counted s (m ∷ []) t
  encrypt-Counted s t m w fits low e =
      let done : Encrypted cipher s m w t = encrypt-Encrypted cipher E s m w t e in
      (done.key_eq, omega (arith, done.blocks_eq, fits, low), done.below)

  encrypt_no_err : (s : Session) (m : Message) (e : E) → encrypt cipher {E = E} s m ≡ err e → ⊥
  unfolding encrypt
  encrypt_no_err s m e h = elim (Option-cases (cipher.seal s.key (Nonce.contents m.nonce) m.text)) [
    | inl n ↦ ground arith
    | inr (p, n) ↦ ground arith
  ]

  encrypt_each-Counted :
      (s t : Session) (ms : List Message) (ws : List (List ℕ))
      → FitMemory ms
      → s.blocks_encrypted < 2 ^ 47
      → encrypt_each s ms ≡ ok (ws, t)
      → Counted s ms t
  encrypt_each-Counted s t [] ws fits low e =
      let same : s ≡ t = ap (λ p. p.1) (ok-injective ([], s) (ws, t) e) in
      subst (Counted s []) same (refl, omega arith, low)
  encrypt_each-Counted s t (m ∷ ms) ws (fit, fits) low e =
      let (p, one, e₁) = bind-ok (encrypt cipher {E = E} s m) _ (ws, t) e in
      let (q, rest, e₂) = bind-ok (encrypt_each p.1 ms) _ (ws, t) e₁ in
      let (key, count, below) = encrypt-Counted s p.1 m p.0 fit low one in
      let (key', count', below') = encrypt_each-Counted p.1 q.1 ms q.0 fits below rest in
      subst (Counted s (m ∷ ms)) (ap (λ r. r.1) (ok-injective (p.0 ∷ q.0, q.1) (ws, t) e₂))
        (key' ∙ key, omega (arith, count, count'), below')

  encrypt_each_no_err : (s : Session) (ms : List Message) (e : E) → encrypt_each s ms ≡ err e → ⊥
  encrypt_each_no_err s [] e h = cc
  encrypt_each_no_err s (m ∷ ms) e h =
      first (λ u f. encrypt_each_no_err u ms f) (encrypt cipher {E = E} s m) refl h
    where
      NoErr : Type ℓ
      NoErr = (u : Session) (f : E) → encrypt_each u ms ≡ err f → ⊥

      rest : List ℕ × Session → Result E (List (List ℕ) × Session)
      rest p = encrypt_each p.1 ms >>= put_first p.0

      second :
          NoErr
          → (p : List ℕ × Session) (r : Result E (List (List ℕ) × Session))
          → encrypt_each p.1 ms ≡ r
          → (r >>= put_first p.0) ≡ err e
          → ⊥
      second others p (ok q) same h = cc
      second others p (err f) same h = others p.1 f same
      second others p panicked same h = cc

      first :
          NoErr
          → (r : Result E (List ℕ × Session)) → encrypt cipher {E = E} s m ≡ r
          → (r >>= rest) ≡ err e
          → ⊥
      first others (ok p) same h = second others p (encrypt_each p.1 ms) refl h
      first others (err f) same h = encrypt_no_err s m f same
      first others panicked same h = cc

  -- A run of encryptions whose texts, each shorter than 2^63 bytes, would bring a key that is below
  -- 2^47 blocks to that limit panics, wherever in the run that is and however the blocks are spread
  -- over the packets.
  pub encrypt_each-panics :
      (s : Session) (ms : List Message)
      → FitMemory ms
      → s.blocks_encrypted < 2 ^ 47
      → 2 ^ 47 ≤ s.blocks_encrypted + total_blocks ms
      → encrypt_each s ms ≡ panicked
  encrypt_each-panics s ms fits low over = outcome (encrypt_each s ms) refl
    where
      outcome :
          (r : Result E (List (List ℕ) × Session))
          → encrypt_each s ms ≡ r
          → encrypt_each s ms ≡ panicked
      outcome panicked e = e
      outcome (err f) e = absurd (encrypt_each_no_err s ms f e)
      outcome (ok (ws, t)) e =
          let (_, count, below) = encrypt_each-Counted s t ms ws fits low e in
          absurd (omega (arith, over, count, below))
