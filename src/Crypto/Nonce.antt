-- ===== src/Crypto/Nonce.antt =====
-- crates/morsh-crypto/src/nonce.rs: a 64-bit value as the 12 bytes of an OCB nonce.
use morsh.Common.{
  ℕ, ◌^◌, ◌<◌, ◌≡◌, refl, ap, ◌∙◌, sym, List, ◌++◌, ◌==◌, length, drop, replicate, to_be, from_be,
  length-to_be, from_be-to_be, Result, ok, assert,
}

-- A `Nonce` is its 12 bytes.
pub record Nonce : Type 0 where
  pub bytes : List ℕ

-- Four zeros and the big-endian value.
unfoldable pub from_val : ℕ → Nonce
from_val v = record { bytes = replicate 4 0 ++ to_be 8 v }

-- From the 8 bytes on the wire; another length trips the assertion.
unfoldable pub from_bytes {ℓ} : {E : Type ℓ} → List ℕ → Result E Nonce
from_bytes s_bytes = assert (length s_bytes == 8) (ok (record { bytes = replicate 4 0 ++ s_bytes }))

abbrev pub from_raw : List ℕ → Nonce
from_raw raw = record { bytes = raw }

-- The 8 bytes that go on the wire.
unfoldable pub cc_str : Nonce → List ℕ
cc_str n = drop 4 n.bytes

unfoldable pub contents : Nonce → List ℕ
contents n = n.bytes

unfoldable pub val : Nonce → ℕ
val n = from_be (drop 4 n.bytes)

-- A 64-bit value survives the encoding.
pub val-from_val : (v : ℕ) → v < 2 ^ 64 → val (from_val v) ≡ v
unfolding val from_val
val-from_val v h = from_be-to_be 8 v h

pub cc_str-from_val : (v : ℕ) → cc_str (from_val v) ≡ to_be 8 v
unfolding cc_str from_val
cc_str-from_val v = refl

pub length-cc_str : (v : ℕ) → length (cc_str (from_val v)) ≡ 8
unfolding cc_str from_val
length-cc_str v = length-to_be 8 v

-- What the sender writes on the wire is read back as the same nonce.
pub from_bytes-cc_str {ℓ} :
    (E : Type ℓ) (v : ℕ) → from_bytes {E = E} (cc_str (from_val v)) ≡ ok (from_val v)
unfolding from_bytes from_val cc_str
from_bytes-cc_str E v = rw (length-to_be 8 v) refl

-- Distinct values are encrypted under distinct nonces.
pub from_val-injective : (v w : ℕ) → v < 2 ^ 64 → w < 2 ^ 64 → from_val v ≡ from_val w → v ≡ w
from_val-injective v w hv hw e = sym (val-from_val v hv) ∙ ap val e ∙ val-from_val w hw
