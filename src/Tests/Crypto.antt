-- ===== src/Tests/Crypto.antt =====
-- Encryption at concrete inputs.
use morsh.Common.{
  ℕ, ◌-◌, ◌^◌, ◌≡◌, refl, List, [], ◌∷◌, ◌++◌, replicate, arith, ok, panicked, to_be,
}
use morsh.Crypto.Nonce.{from_val, cc_str, contents}
use morsh.Crypto.Session.{Session, Message, encrypt, decrypt}
use morsh.Crypto.Session.RoundTrip.{decrypt-encrypt}
use morsh.Crypto.Session.Limit.{encrypt_each, encrypt_each-panics}
use morsh.Tests.Toys.{toy_cipher, toy_cipher_laws, zero_tag}

abbrev session : ℕ → Session
session blocks = record { key = 1 ∷ 2 ∷ []; blocks_encrypted = blocks }

abbrev five_bytes : Message
five_bytes = record { nonce = from_val 6; text = 1 ∷ 2 ∷ 3 ∷ 4 ∷ 5 ∷ [] }

abbrev packet : List ℕ
packet = replicate 7 0 ++ (6 ∷ 1 ∷ 2 ∷ 3 ∷ 4 ∷ 5 ∷ []) ++ zero_tag

encrypted : encrypt toy_cipher {E = ℕ} (session 8) five_bytes ≡ ok (packet, session 9)
unfolding encrypt from_val cc_str contents to_be
encrypted = refl

decrypt-encrypt_example : decrypt toy_cipher (session 0) packet ≡ ok five_bytes
decrypt-encrypt_example =
    decrypt-encrypt toy_cipher ℕ toy_cipher_laws (session 8) (session 0) 6 (1 ∷ 2 ∷ 3 ∷ 4 ∷ 5 ∷ [])
      packet (session 9) refl encrypted

-- Two texts of one block each on a key that has one block left.
encrypt_each-panics_example :
    encrypt_each toy_cipher ℕ (session (2 ^ 47 - 2)) (five_bytes ∷ five_bytes ∷ []) ≡ panicked
encrypt_each-panics_example =
    encrypt_each-panics toy_cipher ℕ (session (2 ^ 47 - 2)) (five_bytes ∷ five_bytes ∷ [])
      (omega arith, (omega arith, tt)) (omega arith) (omega arith)
