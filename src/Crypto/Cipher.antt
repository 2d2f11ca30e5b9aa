-- ===== src/Crypto/Cipher.antt =====
-- AES-128-OCB3 as crates/morsh-crypto/src/session.rs uses it: the code is in the crates `aes` and
-- `ocb3`, so it is a parameter, with what `session.rs` relies on as laws.
use morsh.Common.{ℕ, ◌≡◌, List, Option, some, length}

-- `encrypt_in_place_detached` gives the ciphertext and the tag, or an error; the arguments are the
-- key, the 12 bytes of the nonce, and the text. `decrypt_in_place_detached` takes the ciphertext
-- and the tag.
pub record Cipher : Type 0 where
  pub seal : List ℕ → List ℕ → List ℕ → Option (List ℕ × List ℕ)
  pub unseal : List ℕ → List ℕ → List ℕ → List ℕ → Option (List ℕ)

-- Sealing keeps the length and adds a tag of 16 bytes; what is sealed can be opened; and what opens
-- is what sealing the result gives, since OCB recomputes the tag and compares.
pub record CipherLaws (c : Cipher) : Type 0 where
  pub sealed_len :
      (key nonce text body tag : List ℕ)
      → c.seal key nonce text ≡ some (body, tag)
      → length body ≡ length text
  pub tag_len :
      (key nonce text body tag : List ℕ)
      → c.seal key nonce text ≡ some (body, tag)
      → length tag ≡ 16
  pub opens :
      (key nonce text body tag : List ℕ)
      → c.seal key nonce text ≡ some (body, tag)
      → c.unseal key nonce body tag ≡ some text
  pub authentic :
      (key nonce body tag text : List ℕ)
      → c.unseal key nonce body tag ≡ some text
      → c.seal key nonce text ≡ some (body, tag)
