-- ===== src/Crypto/Session.antt =====
-- crates/morsh-crypto/src/session.rs: packets encrypted under a nonce of their own. The wire format
-- is the 8 bytes of the nonce, the ciphertext, and the tag of 16 bytes.
pub mod RoundTrip
pub mod Limit
use morsh.Common.{
  ℕ, ◌+◌, ◌-◌, ◌/◌, ◌%◌, ◌^◌, List, ◌++◌, ltb, ◌==◌, if◌then◌else◌, length, take, drop, Result, ok,
  err, ok_or, expect, assert, ◌>>=◌,
}
use morsh.Crypto.Nonce.{Nonce}
use morsh.Crypto.Nonce
use morsh.Crypto.Cipher.{Cipher}

pub record Message : Type 0 where
  pub nonce : Nonce
  pub text : List ℕ

-- The cipher is its key; the algorithm is the parameter `Cipher`.
pub record Session : Type 0 where
  pub key : List ℕ
  pub blocks_encrypted : ℕ

-- The overhead of encryption: the tag.
abbrev pub added_bytes : ℕ
added_bytes = 16

pub data CryptoError : Type 0 where
  too_short integrity_check_failed : CryptoError

abbrev pub new : List ℕ → Session
new key = record { key = key; blocks_encrypted = 0 }

module _ (cipher : Cipher) where
  -- The wire bytes and the session afterwards. Both assertions and the `expect` can panic; the
  -- block count is a u64.
  unfoldable pub encrypt {ℓ} : {E : Type ℓ} → Session → Message → Result E (List ℕ × Session)
  encrypt s msg = do
    let pt_len = length msg.text
    let ct_len = pt_len + added_bytes
    (buffer, tag) ← expect (cipher.seal s.key (Nonce.contents msg.nonce) msg.text)
    let blocks = (s.blocks_encrypted + (pt_len + 15) / 16) % 2 ^ 64
    assert (length buffer + length tag == ct_len) (
        assert (blocks / 2 ^ 47 == 0)
          (ok (Nonce.cc_str msg.nonce ++ (buffer ++ tag), record s { blocks_encrypted = blocks })))

  -- The session is not changed.
  unfoldable pub decrypt : Session → List ℕ → Result CryptoError Message
  decrypt s packet = if ltb (length packet) (8 + added_bytes) then err too_short else do
    let body = drop 8 packet
    let ct_len = length body - added_bytes
    nonce ← Nonce.from_bytes (take 8 packet)
    text ←
        ok_or (cipher.unseal s.key (Nonce.contents nonce) (take ct_len body) (drop ct_len body))
          integrity_check_failed
    ok (record { nonce = nonce; text = text })
