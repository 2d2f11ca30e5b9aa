-- ===== src/Crypto/Session/RoundTrip.antt =====
-- crates/morsh-crypto/src/session.rs: decryption against encryption.
use morsh.Common.{
  ℕ, ◌+◌, ◌-◌, ◌/◌, ◌%◌, ◌^◌, ◌<◌, ◌≡◌, refl, ap, List, ◌++◌, some, Option-cases, arith, length,
  length-append, take-append, drop-append, ok, inl, inr, le→ltb,
}
use morsh.Crypto.Nonce.{Nonce, cc_str, from_val, from_bytes-cc_str, length-cc_str}
use morsh.Crypto.Nonce
use morsh.Crypto.Cipher.{Cipher, CipherLaws}
use morsh.Crypto.Session.{Message, Session, CryptoError, encrypt, decrypt}

module _ (cipher : Cipher) where
  -- What a run of `encrypt` that does not panic has done.
  pub record Encrypted (s : Session) (msg : Message) (wire : List ℕ) (s' : Session) : Type 0 where
    pub body : List ℕ
    pub tag : List ℕ
    pub seals : cipher.seal s.key (Nonce.contents msg.nonce) msg.text ≡ some (body, tag)
    pub wire_eq : wire ≡ cc_str msg.nonce ++ (body ++ tag)
    pub key_eq : s'.key ≡ s.key
    pub blocks_eq :
        s'.blocks_encrypted ≡ (s.blocks_encrypted + (length msg.text + 15) / 16) % 2 ^ 64
    pub below : s'.blocks_encrypted < 2 ^ 47

  pub encrypt-Encrypted {ℓ} :
      (E : Type ℓ) (s : Session) (msg : Message) (wire : List ℕ) (s' : Session)
      → encrypt cipher {E = E} s msg ≡ ok (wire, s')
      → Encrypted s msg wire s'
  unfolding encrypt
  encrypt-Encrypted E s msg wire s' h =
      elim (Option-cases (cipher.seal s.key (Nonce.contents msg.nonce) msg.text)) [
        | inl e ↦ absurd (ground arith)
        | inr ((body, tag), e) ↦ record {
          body = body;
          tag = tag;
          seals = e;
          wire_eq = ground arith;
          key_eq = ground arith;
          blocks_eq = ground arith;
          below = ground arith;
        }
      ]

  -- If the cipher seals the text and the key stays below 2^47 blocks with it, encryption gives the
  -- nonce, the ciphertext and the tag, and adds the text's blocks to the count.
  pub encrypt_below_limit {ℓ} :
      (E : Type ℓ) (laws : CipherLaws cipher) (s : Session) (msg : Message) (body tag : List ℕ)
      → cipher.seal s.key (Nonce.contents msg.nonce) msg.text ≡ some (body, tag)
      → s.blocks_encrypted + (length msg.text + 15) / 16 < 2 ^ 47
      → encrypt cipher {E = E} s msg
        ≡ ok (
          cc_str msg.nonce ++ (body ++ tag),
          record s { blocks_encrypted = s.blocks_encrypted + (length msg.text + 15) / 16 },
        )
  unfolding encrypt
  encrypt_below_limit E laws s msg body tag e h = ground (
    arith,
    laws.sealed_len s.key (Nonce.contents msg.nonce) msg.text body tag e,
    laws.tag_len s.key (Nonce.contents msg.nonce) msg.text body tag e,
  )

  pub length-wire {ℓ} :
      (E : Type ℓ) (laws : CipherLaws cipher) (s : Session) (v : ℕ) (text wire : List ℕ)
      (s' : Session)
      → encrypt cipher {E = E} s (record { nonce = from_val v; text = text }) ≡ ok (wire, s')
      → length wire ≡ length text + 24
  length-wire E laws s v text wire s' h = omega (
    arith,
    ap length e.wire_eq,
    length-append (cc_str (from_val v)) (e.body ++ e.tag),
    length-cc_str v,
    length-append e.body e.tag,
    laws.sealed_len _ _ _ _ _ e.seals,
    laws.tag_len _ _ _ _ _ e.seals,
  )
    where
      e : Encrypted s (record { nonce = from_val v; text = text }) wire s'
      e = encrypt-Encrypted E s (record { nonce = from_val v; text = text }) wire s' h

  -- The pieces that `decrypt` cuts a packet into.
  decrypt_pieces :
      (s : Session) (v : ℕ) (body tag text : List ℕ)
      → length tag ≡ 16
      → cipher.unseal s.key (Nonce.contents (from_val v)) body tag ≡ some text
      → decrypt cipher s (cc_str (from_val v) ++ (body ++ tag))
        ≡ ok (record { nonce = from_val v; text = text })
  unfolding decrypt
  decrypt_pieces s v body tag text ht hu =
      let w : List ℕ = cc_str (from_val v) in
      let whole : length (w ++ (body ++ tag)) ≡ length body + 24 =
        omega (arith, length-append w (body ++ tag), length-cc_str v, length-append body tag) in
      let inner : length (body ++ tag) - 16 ≡ length body = omega (arith, length-append body tag) in
      rw (
        le→ltb (length (w ++ (body ++ tag))) 24 (omega (arith, whole)),
        take-append 8 w (body ++ tag) (length-cc_str v),
        drop-append 8 w (body ++ tag) (length-cc_str v),
        inner,
        take-append (length body) body tag refl,
        drop-append (length body) body tag refl,
        from_bytes-cc_str CryptoError v,
        hu,
      )

  -- What a session encrypts without an error or a panic, under the nonce of any value, a session
  -- with the same key decrypts to the same nonce and text.
  pub decrypt-encrypt {ℓ} :
      (E : Type ℓ) (laws : CipherLaws cipher) (s t : Session) (v : ℕ) (text wire : List ℕ)
      (s' : Session)
      → t.key ≡ s.key
      → encrypt cipher {E = E} s (record { nonce = from_val v; text = text }) ≡ ok (wire, s')
      → decrypt cipher t wire ≡ ok (record { nonce = from_val v; text = text })
  decrypt-encrypt E laws s t v text wire s' k h =
      let e : Encrypted s (record { nonce = from_val v; text = text }) wire s' =
        encrypt-Encrypted E s (record { nonce = from_val v; text = text }) wire s' h in
      rw e.wire_eq (
        decrypt_pieces t v e.body e.tag text (laws.tag_len _ _ _ _ _ e.seals)
          (rw k (laws.opens _ _ _ _ _ e.seals)))
