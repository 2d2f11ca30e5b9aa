-- ===== src/Crypto/Base64Key.antt =====
-- crates/morsh-crypto/src/base64_key.rs: a 16-byte key as 22 characters of base64. The crate base64
-- is the parameter `Base64`; a text is its characters.
pub mod Printable
use morsh.Common.{
  ℕ, ◌≡◌, List, [], ◌∷◌, ◌++◌, Option, none, some, ◌==◌, if◌then◌else◌, not, length, take, list_eq,
  Result, ok, err,
}

-- `STANDARD.encode` and `STANDARD.decode`
pub record Base64 : Type 0 where
  pub encode : List ℕ → List ℕ
  pub decode : List ℕ → Option (List ℕ)

-- "=="
abbrev pub padding : List ℕ
padding = 61 ∷ 61 ∷ []

-- Decoding undoes encoding, and 16 bytes take 22 characters and the padding.
pub record Base64Laws (b : Base64) : Type 0 where
  pub decode-encode : (bs : List ℕ) → b.decode (b.encode bs) ≡ some bs
  pub padded :
      (bs : List ℕ)
      → length bs ≡ 16
      → (text : List ℕ) × (length text ≡ 22) × (b.encode bs ≡ text ++ padding)

pub record Base64Key : Type 0 where
  pub data_bytes : List ℕ

pub data KeyError : Type 0 where
  not_22_characters : ℕ → KeyError
  invalid_base64 : KeyError
  not_16_octets : ℕ → KeyError
  not_encoded_key : KeyError

module _ (b : Base64) where
  unfoldable pub printable_key : Base64Key → List ℕ
  printable_key key = take 22 (b.encode key.data_bytes)

  -- The decoded bytes have the right length, and encode to the text again.
  unfoldable pub checked : List ℕ → List ℕ → Result KeyError Base64Key
  checked printable decoded =
      if not (length decoded == 16)
      then err (not_16_octets (length decoded))
      else if not (list_eq ◌==◌ (printable_key (record { data_bytes = decoded })) printable)
      then err not_encoded_key
      else ok (record { data_bytes = decoded })

  unfoldable pub from_printable : List ℕ → Result KeyError Base64Key
  from_printable printable =
      if not (length printable == 22)
      then err (not_22_characters (length printable))
      else elim (b.decode (printable ++ padding)) [
        | none ↦ err invalid_base64
        | some decoded ↦ checked printable decoded
      ]
