-- ===== src/Network/Fragment/Codec.antt =====
-- Printing and parsing a fragment are inverse to one another.
use morsh.Common.{
  ℕ, ◌+◌, ◌/◌, ◌%◌, ◌^◌, ◌≤◌, ◌<◌, ◌≡◌, List, ◌++◌, append_assoc, arith, Bool, true, false, ◌==◌,
  length, take, drop, to_be, from_be, length-append, length-to_be, length-take, length-drop,
  take-append, drop-append, take-append-drop, drop-drop, from_be-to_be, to_be-from_be, from_be-lt,
  All, All-take, All-drop, IsByte, ok, le→ltb,
}
use morsh.Network.Fragment.{Fragment, combined, to_bytes, from_bytes}

-- What the fields of the struct hold: a u64, and a number below the flag bit.
pub record IsWire (f : Fragment) : Type 0 where
  pub id_lt : f.id < 2 ^ 64
  pub num_lt : f.fragment_num < 2 ^ 15

combined_flag : (b : Bool) (n : ℕ) → ((combined b n / 2 ^ 15 % 2) == 1) ≡ b
combined_flag true n = ground arith
combined_flag false n = ground arith

combined_num : (b : Bool) (n : ℕ) → combined b n % 2 ^ 15 ≡ n % 2 ^ 15
combined_num true n = omega arith
combined_num false n = omega arith

combined-lt : (b : Bool) (n : ℕ) → combined b n < 2 ^ 16
combined-lt true n = omega arith
combined-lt false n = omega arith

-- The header and the payload are the bytes before and after index 10.
module _ (id word : ℕ) (rest : List ℕ) where
  header_pieces :
      (take 8 (to_be 8 id ++ (to_be 2 word ++ rest)) ≡ to_be 8 id)
      × (take 2 (drop 8 (to_be 8 id ++ (to_be 2 word ++ rest))) ≡ to_be 2 word)
      × (drop 10 (to_be 8 id ++ (to_be 2 word ++ rest)) ≡ rest)
  header_pieces = (
    take-append 8 (to_be 8 id) (to_be 2 word ++ rest) (length-to_be 8 id),
    rw (drop-append 8 (to_be 8 id) (to_be 2 word ++ rest) (length-to_be 8 id))
        (take-append 2 (to_be 2 word) rest (length-to_be 2 word)),
    rw (← append_assoc (to_be 8 id) (to_be 2 word) rest) (
        drop-append 10 (to_be 8 id ++ to_be 2 word) rest (
          omega (
            arith,
            length-append (to_be 8 id) (to_be 2 word),
            length-to_be 8 id,
            length-to_be 2 word,
          ))),
  )

  length-header : length (to_be 8 id ++ (to_be 2 word ++ rest)) ≡ length rest + 10
  length-header = omega (
    arith,
    length-append (to_be 8 id) (to_be 2 word ++ rest),
    length-to_be 8 id,
    length-append (to_be 2 word) rest,
    length-to_be 2 word,
  )

pub length-to_bytes : (f : Fragment) → length (to_bytes f) ≡ length f.payload + 10
unfolding to_bytes
length-to_bytes f = length-header f.id (combined f.final_flag f.fragment_num) f.payload

-- What parsing the printed bytes gives, whatever the number holds: its low 15 bits.
pub from_bytes-to_bytes_low :
    (f : Fragment)
    → f.id < 2 ^ 64
    → from_bytes (to_bytes f) ≡ ok (record f { fragment_num = f.fragment_num % 2 ^ 15 })
unfolding to_bytes from_bytes
from_bytes-to_bytes_low f h =
    let word : ℕ = combined f.final_flag f.fragment_num in
    let pieces : _ = header_pieces f.id word f.payload in
    rw (
      le→ltb (length (to_bytes f)) 10 (omega (arith, length-to_bytes f)),
      pieces.0,
      pieces.1,
      pieces.2,
      from_be-to_be 8 f.id (omega arith),
      from_be-to_be 2 word (omega (arith, combined-lt f.final_flag f.fragment_num)),
      combined_flag f.final_flag f.fragment_num,
      combined_num f.final_flag f.fragment_num,
    )

-- A fragment with a 64-bit id and a 15-bit number is parsed from its bytes as it was.
pub from_bytes-to_bytes : (f : Fragment) → IsWire f → from_bytes (to_bytes f) ≡ ok f
from_bytes-to_bytes f v = rw (from_bytes-to_bytes_low f v.id_lt) (ground arith)

-- The fields of a parsed fragment.
record Parsed (bs : List ℕ) (f : Fragment) : Type 0 where
  long : 10 ≤ length bs
  id_eq : f.id ≡ from_be (take 8 bs)
  word_eq :
      from_be (take 2 (drop 8 bs)) < 2 ^ 16
      → combined f.final_flag f.fragment_num ≡ from_be (take 2 (drop 8 bs))
  num_lt : f.fragment_num < 2 ^ 15
  payload_eq : f.payload ≡ drop 10 bs

from_bytes-Parsed : (bs : List ℕ) (f : Fragment) → from_bytes bs ≡ ok f → Parsed bs f
unfolding from_bytes
from_bytes-Parsed bs f e = record {
  long = ground arith;
  id_eq = ground arith;
  word_eq = λ lt. ground arith;
  num_lt = ground arith;
  payload_eq = ground arith;
}

-- Bytes that parse as a fragment are exactly the bytes of that fragment, whose id is a 64-bit and
-- whose number a 15-bit integer.
pub to_bytes-from_bytes :
    (bs : List ℕ) (f : Fragment)
    → All IsByte bs
    → from_bytes bs ≡ ok f
    → (to_bytes f ≡ bs) × IsWire f
unfolding to_bytes
to_bytes-from_bytes bs f b e =
    let p : Parsed bs f = from_bytes-Parsed bs f e in
    let n8 : length (take 8 bs) ≡ 8 = omega (arith, length-take 8 bs, p.long) in
    let n2 : length (take 2 (drop 8 bs)) ≡ 2 =
      omega (arith, length-take 2 (drop 8 bs), length-drop 8 bs, p.long) in
    let b8 : All IsByte (take 8 bs) = All-take IsByte 8 bs b in
    let b2 : All IsByte (take 2 (drop 8 bs)) =
      All-take IsByte 2 (drop 8 bs) (All-drop IsByte 8 bs b) in
    (
      rw
          (
            p.id_eq,
            p.word_eq (from_be-lt 2 (take 2 (drop 8 bs)) n2 b2),
            p.payload_eq,
            to_be-from_be 8 (take 8 bs) n8 b8,
            to_be-from_be 2 (take 2 (drop 8 bs)) n2 b2,
          )
          (rw (← drop-drop 2 8 bs, take-append-drop 2 (drop 8 bs)) (take-append-drop 8 bs)),
      record { id_lt = rw p.id_eq (from_be-lt 8 (take 8 bs) n8 b8); num_lt = p.num_lt },
    )
