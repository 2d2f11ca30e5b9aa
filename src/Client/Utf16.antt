-- ===== src/Client/Utf16.antt =====
-- crates/morsh-client/src/input.rs: `Utf16ToUtf8`. `decode_utf16` is that of the standard
-- library of Rust.
pub mod Pairs
use morsh.Common.{
  ℕ, ◌+◌, ◌-◌, ◌*◌, ◌/◌, ◌%◌, List, [], ◌∷◌, ◌++◌, Bool, true, false, ◌&&◌, Option, none, some, ltb,
  leb, if◌then◌else◌, unwrap_or,
}
use morsh.Common.Utf8.{encode_utf8}

abbrev pub is_high : ℕ → Bool
is_high u = leb 0xd800 u && leb u 0xdbff

abbrev pub is_low : ℕ → Bool
is_low u = leb 0xdc00 u && leb u 0xdfff

-- The character of a pair of surrogates.
abbrev pub paired : ℕ → ℕ → ℕ
paired high low = 0x10000 + ((high - 0xd800) * 1024 + (low - 0xdc00))

-- `char::decode_utf16`: an unpaired surrogate is an error.
abbrev pub decode_utf16 : List ℕ → List (Option ℕ)
decode_utf16 [] = []
decode_utf16 (u ∷ []) = (if is_high u then none else if is_low u then none else some u) ∷ []
decode_utf16 (u ∷ v ∷ us) =
    let after_one = decode_utf16 (v ∷ us) in
    let after_two = decode_utf16 us in
    if is_high u
    then (if is_low v then some (paired u v) ∷ after_two else none ∷ after_one)
    else if is_low u
    then none ∷ after_one
    else some u ∷ after_one

-- `char::REPLACEMENT_CHARACTER`
abbrev pub replacement_character : ℕ
replacement_character = 0xfffd

pub record Utf16ToUtf8 : Type 0 where
  pub pending_high : Option ℕ
  pub out : List ℕ

abbrev pub new_converter : Utf16ToUtf8
new_converter = record { pending_high = none; out = [] }

-- The loop of `encode` over what was decoded.
abbrev pub encode_all : List (Option ℕ) → List ℕ
encode_all [] = []
encode_all (ch ∷ chs) = encode_utf8 (unwrap_or ch replacement_character) ++ encode_all chs

abbrev pub encode : Utf16ToUtf8 → List ℕ → Utf16ToUtf8
encode t units = record t { out = t.out ++ encode_all (decode_utf16 units) }

-- A unit with no high surrogate before it.
abbrev pub push_first : Utf16ToUtf8 → ℕ → Utf16ToUtf8
push_first t unit =
    if is_high unit then record t { pending_high = some unit } else encode t (unit ∷ [])

abbrev pub push_after : Option ℕ → Utf16ToUtf8 → ℕ → Utf16ToUtf8
push_after none t unit = push_first t unit
push_after (some high) t unit =
    if is_low unit then encode t (high ∷ unit ∷ []) else push_first (encode t (high ∷ [])) unit

-- `pending_high.take()` comes first.
abbrev pub push : Utf16ToUtf8 → ℕ → Utf16ToUtf8
push t unit = push_after t.pending_high (record t { pending_high = none }) unit

abbrev pub take_out : Utf16ToUtf8 → List ℕ × Utf16ToUtf8
take_out t = (t.out, record t { out = [] })

abbrev pub push_all : Utf16ToUtf8 → List ℕ → Utf16ToUtf8
push_all t [] = t
push_all t (u ∷ us) = push_all (push t u) us

-- What comes out of one read of units after another.
abbrev pub converted : List (List ℕ) → Utf16ToUtf8 → List ℕ
converted [] t = []
converted (units ∷ reads) t =
    let (bytes, t') = take_out (push_all t units) in bytes ++ converted reads t'
