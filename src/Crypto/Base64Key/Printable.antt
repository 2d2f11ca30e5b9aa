-- ===== src/Crypto/Base64Key/Printable.antt =====
-- crates/morsh-crypto/src/base64_key.rs: printing and parsing a key.
use morsh.Common.{
  ℕ, ◌≡◌, refl, sym, ap, ◌∙◌, List, ◌++◌, some, true, ◌==◌, length, take, take-append, list_eq,
  list_eq-Decides, nat_eq-Decides, Bool-cases, Option-cases, inl, inr, ==→eq, arith, ok,
}
use morsh.Crypto.Base64Key.{
  Base64, Base64Laws, padding, Base64Key, printable_key, checked, from_printable,
}

module _ (b : Base64) where
  checked_key :
      (printable decoded : List ℕ) (key : Base64Key)
      → checked b printable decoded ≡ ok key
      → (printable_key b key ≡ printable) × (length key.data_bytes ≡ 16)
  unfolding checked
  checked_key printable decoded key h =
      let k : Base64Key = record { data_bytes = decoded } in
      elim (Bool-cases (length decoded == 16)) [
        | inr e ↦ absurd (ground arith)
        | inl e ↦ elim (Bool-cases (list_eq ◌==◌ (printable_key b k) printable)) [
          | inr l ↦ absurd (ground arith)
          | inl l ↦
              let same : k ≡ key = ground arith in
              (
                sym (ap (printable_key b) same)
                    ∙ (list_eq-Decides ◌==◌ nat_eq-Decides (printable_key b k) printable).0 l,
                ap (λ z. length z.data_bytes) (sym same) ∙ ==→eq (length decoded) 16 e,
              )
        ]
      ]

  -- A text that parses as a key is exactly the printed form of that key, which has 16 bytes,
  -- whatever the base64 code accepts.
  pub printable_key-from_printable :
      (printable : List ℕ) (key : Base64Key)
      → from_printable b printable ≡ ok key
      → (printable_key b key ≡ printable) × (length key.data_bytes ≡ 16)
  unfolding from_printable
  printable_key-from_printable printable key h =
      elim (Option-cases (b.decode (printable ++ padding))) [
        | inl e ↦ absurd (ground arith)
        | inr (decoded, e) ↦ checked_key printable decoded key (ground arith)
      ]

  -- Where the base64 code decodes what it encodes and writes 16 bytes as 22 characters and the
  -- padding, a key of 16 bytes is parsed from its printed form as it was.
  pub from_printable-printable_key :
      (laws : Base64Laws b) (key : Base64Key)
      → length key.data_bytes ≡ 16
      → from_printable b (printable_key b key) ≡ ok key
  unfolding from_printable checked printable_key
  from_printable-printable_key laws key n =
      let bs : List ℕ = key.data_bytes in
      let p : _ = laws.padded bs n in
      let text : List ℕ = p.0 in
      let printed : take 22 (b.encode bs) ≡ text =
        ap (take 22) p.2 ∙ take-append 22 text padding p.1 in
      let decodes : b.decode (text ++ padding) ≡ some bs =
        ap b.decode (sym p.2) ∙ laws.decode-encode bs in
      let again : list_eq ◌==◌ (take 22 (b.encode bs)) text ≡ true =
        (list_eq-Decides ◌==◌ nat_eq-Decides (take 22 (b.encode bs)) text).1 printed in
      ap (from_printable b) printed ∙ parsed text p.1 decodes again
    where
      parsed :
          (text : List ℕ)
          → length text ≡ 22
          → b.decode (text ++ padding) ≡ some key.data_bytes
          → list_eq ◌==◌ (take 22 (b.encode key.data_bytes)) text ≡ true
          → from_printable b text ≡ ok key
      parsed text len decodes again =
          rw (len, from_printable, decodes, checked, n, printable_key, again) refl
