-- ===== src/Client/Utf16/Pairs.antt =====
-- crates/morsh-client/src/input.rs: a text that the console gives in UTF-16, one unit after another, in
-- as many reads as it may be, comes out in UTF-8.
use morsh.Common.{
  ℕ, ◌+◌, ◌-◌, ◌/◌, ◌%◌, ◌≤◌, ◌<◌, ◌≡◌, ◌⊎◌, refl, sym, ap, ◌∙◌, List, [], ◌∷◌, ◌++◌, true, false,
  Option, none, some, ltb, leb, if◌then◌else◌, All, Bool-cases, if-true, if-false, inl, inr, arith,
  append-nil, append_assoc, ltb→le,
}
use morsh.Common.Utf8.{encode_utf8, utf8_text}
use morsh.Client.Utf16.{
  is_high, is_low, paired, decode_utf16, Utf16ToUtf8, new_converter, encode_all, encode, push_first,
  push_after, push, push_all, converted,
}

-- A Unicode scalar value.
abbrev pub IsScalar : ℕ → Type 0
IsScalar c = (c < 0xd800) ⊎ ((0xe000 ≤ c) × (c < 0x110000))

abbrev pub utf16_of : ℕ → List ℕ
utf16_of c =
    if ltb c 0x10000
    then c ∷ []
    else (0xd800 + (c - 0x10000) / 1024) ∷ (0xdc00 + (c - 0x10000) % 1024) ∷ []

abbrev pub utf16_text : List ℕ → List ℕ
utf16_text [] = []
utf16_text (c ∷ cs) = utf16_of c ++ utf16_text cs

-- The converter between two characters, with this output.
abbrev idle : List ℕ → Utf16ToUtf8
idle out = record { pending_high = none; out = out }

push_all-append :
    (t : Utf16ToUtf8) (us vs : List ℕ) → push_all t (us ++ vs) ≡ push_all (push_all t us) vs
push_all-append t [] vs = refl
push_all-append t (u ∷ us) vs = push_all-append (push t u) us vs

no_surrogate : (c : ℕ) → IsScalar c → (is_high c ≡ false) × (is_low c ≡ false)
no_surrogate c (inl h) = (ground arith, ground arith)
no_surrogate c (inr h) = (ground arith, ground arith)

high_half : (d : ℕ) → d < 0x100000 → is_high (0xd800 + d / 1024) ≡ true
high_half d h =
    let small : d / 1024 < 1024 = omega arith in
    let a : leb 0xd800 (0xd800 + d / 1024) ≡ true = ground arith in
    let b : leb (0xd800 + d / 1024) 0xdbff ≡ true = ground arith in rw (a, b) refl

low_half : (d : ℕ) → is_low (0xdc00 + d % 1024) ≡ true
low_half d =
    let small : d % 1024 < 1024 = omega arith in
    let a : leb 0xdc00 (0xdc00 + d % 1024) ≡ true = ground arith in
    let b : leb (0xdc00 + d % 1024) 0xdfff ≡ true = ground arith in rw (a, b) refl

paired_halves :
    (c : ℕ)
    → 0x10000 ≤ c
    → paired (0xd800 + (c - 0x10000) / 1024) (0xdc00 + (c - 0x10000) % 1024) ≡ c
paired_halves c h = omega arith

-- A unit that is no surrogate, and a pair of surrogates.
push_one :
    (c : ℕ) (out : List ℕ)
    → is_high c ≡ false
    → is_low c ≡ false
    → push (idle out) c ≡ idle (out ++ encode_utf8 c)
push_one c out high low = rw (high, low) (ap idle (ap (λ l. out ++ l) (append-nil (encode_utf8 c))))

push_pair :
    (h l : ℕ) (out : List ℕ)
    → is_high h ≡ true
    → is_low l ≡ true
    → push (push (idle out) h) l ≡ idle (out ++ encode_utf8 (paired h l))
push_pair h l out high low =
    ap (λ t. push t l) first
    ∙ rw (low, high) (ap idle (ap (λ u. out ++ u) (append-nil (encode_utf8 (paired h l)))))
  where
    first : push (idle out) h ≡ record { pending_high = some h; out = out }
    first = rw high refl

-- One character.
push_all-utf16_of :
    (c : ℕ) (out : List ℕ)
    → IsScalar c
    → push_all (idle out) (utf16_of c) ≡ idle (out ++ encode_utf8 c)
push_all-utf16_of c out h =
    let high_unit : ℕ = 0xd800 + (c - 0x10000) / 1024 in
    let low_unit : ℕ = 0xdc00 + (c - 0x10000) % 1024 in
    elim (Bool-cases (ltb c 0x10000)) [
      | inl small ↦
          let (high, low) = no_surrogate c h in
          ap (push_all (idle out))
            (if-true (ltb c 0x10000) (c ∷ []) (high_unit ∷ low_unit ∷ []) small)
          ∙ push_one c out high low
      | inr large ↦
          let above : 0x10000 ≤ c = ltb→le c 0x10000 large in
          let below : c < 0x110000 = scalar_below c h in
          ap (push_all (idle out))
            (if-false (ltb c 0x10000) (c ∷ []) (high_unit ∷ low_unit ∷ []) large)
          ∙ push_pair high_unit low_unit out (high_half (c - 0x10000) (omega arith))
              (low_half (c - 0x10000))
          ∙ ap (λ k. idle (out ++ encode_utf8 k)) (paired_halves c above)
    ]
  where
    scalar_below : (c : ℕ) → IsScalar c → c < 0x110000
    scalar_below c (inl l) = omega arith
    scalar_below c (inr r) = r.1

push_all-text :
    (text : List ℕ) (out : List ℕ)
    → All IsScalar text
    → push_all (idle out) (utf16_text text) ≡ idle (out ++ utf8_text text)
push_all-text [] out h = ap idle (sym (append-nil out))
push_all-text (c ∷ cs) out h =
    push_all-append (idle out) (utf16_of c) (utf16_text cs)
    ∙ ap (λ t. push_all t (utf16_text cs)) (push_all-utf16_of c out h.0)
    ∙ push_all-text cs (out ++ encode_utf8 c) h.1
    ∙ ap idle (append_assoc out (encode_utf8 c) (utf8_text cs))

-- A converter with more output before.
abbrev behind : List ℕ → Utf16ToUtf8 → Utf16ToUtf8
behind a t = record t { out = a ++ t.out }

push_first-behind :
    (a : List ℕ) (t : Utf16ToUtf8) (u : ℕ) → push_first (behind a t) u ≡ behind a (push_first t u)
push_first-behind a t u =
    let one : Utf16ToUtf8 → Utf16ToUtf8 = λ q. encode q (u ∷ []) in
    let hold : Utf16ToUtf8 → Utf16ToUtf8 = λ q. record q { pending_high = some u } in
    elim (Bool-cases (is_high u)) [
      | inl e ↦
          if-true (is_high u) (hold (behind a t)) (one (behind a t)) e
          ∙ ap (behind a) (sym (if-true (is_high u) (hold t) (one t) e))
      | inr e ↦
          if-false (is_high u) (hold (behind a t)) (one (behind a t)) e
          ∙ ap (λ o. record t { out = o })
              (append_assoc a t.out (encode_all (decode_utf16 (u ∷ []))))
          ∙ ap (behind a) (sym (if-false (is_high u) (hold t) (one t) e))
    ]

push_after-behind :
    (o : Option ℕ) (a : List ℕ) (t : Utf16ToUtf8) (u : ℕ)
    → push_after o (behind a t) u ≡ behind a (push_after o t u)
push_after-behind none a t u = push_first-behind a t u
push_after-behind (some h) a t u = elim (Bool-cases (is_low u)) [
  | inl e ↦
      if-true (is_low u) (encode (behind a t) (h ∷ u ∷ []))
        (push_first (encode (behind a t) (h ∷ [])) u) e
      ∙ ap (λ o. record t { out = o })
          (append_assoc a t.out (encode_all (decode_utf16 (h ∷ u ∷ []))))
      ∙ ap (behind a)
          (sym (if-true (is_low u) (encode t (h ∷ u ∷ [])) (push_first (encode t (h ∷ [])) u) e))
  | inr e ↦
      if-false (is_low u) (encode (behind a t) (h ∷ u ∷ []))
        (push_first (encode (behind a t) (h ∷ [])) u) e
      ∙ ap (λ o. push_first (record t { out = o }) u)
          (append_assoc a t.out (encode_all (decode_utf16 (h ∷ []))))
      ∙ push_first-behind a (encode t (h ∷ [])) u
      ∙ ap (behind a)
          (sym (if-false (is_low u) (encode t (h ∷ u ∷ [])) (push_first (encode t (h ∷ [])) u) e))
]

push_all-behind :
    (a : List ℕ) (us : List ℕ) (t : Utf16ToUtf8)
    → push_all (behind a t) us ≡ behind a (push_all t us)
push_all-behind a [] t = refl
push_all-behind a (u ∷ us) t =
    ap (λ q. push_all q us)
      (push_after-behind t.pending_high a (record t { pending_high = none }) u)
    ∙ push_all-behind a us (push t u)

abbrev pub concat : List (List ℕ) → List ℕ
concat [] = []
concat (r ∷ rs) = r ++ concat rs

converted-concat :
    (reads : List (List ℕ)) (q : Option ℕ)
    → converted reads (record { pending_high = q; out = [] })
      ≡ (push_all (record { pending_high = q; out = [] }) (concat reads)).out
converted-concat [] q = refl
converted-concat (r ∷ rs) q =
    let t : Utf16ToUtf8 = push_all (record { pending_high = q; out = [] }) r in
    let rest : Utf16ToUtf8 = record { pending_high = t.pending_high; out = [] } in
    ap (λ o. t.out ++ o) (converted-concat rs t.pending_high)
    ∙ ap (λ s. s.out)
        (sym (push_all-behind t.out (concat rs) rest)
          ∙ ap (λ o. push_all (record { pending_high = t.pending_high; out = o }) (concat rs))
              (append-nil t.out)
          ∙ sym (push_all-append (record { pending_high = q; out = [] }) r (concat rs)))

-- However the UTF-16 units of a text are cut into reads, also between the two halves of a surrogate
-- pair, the bytes that come out are the text in UTF-8.
pub converted-text :
    (text : List ℕ) (reads : List (List ℕ))
    → All IsScalar text
    → concat reads ≡ utf16_text text
    → converted reads new_converter ≡ utf8_text text
converted-text text reads h e =
    converted-concat reads none
    ∙ ap (λ us. (push_all new_converter us).out) e
    ∙ ap (λ t. t.out) (push_all-text text [] h)
