-- ===== src/Network/Fragment.antt =====
-- crates/morsh-network/src/fragment.rs, `Fragment`: the 10-byte header before a payload.
pub mod Codec
use morsh.Common.{
  ℕ, ◌+◌, ◌*◌, ◌/◌, ◌%◌, ◌^◌, List, ◌++◌, Bool, true, false, ltb, ◌==◌, if◌then◌else◌, length, take,
  drop, to_be, from_be, Result, ok, err,
}
use morsh.Network.Constants.{frag_header_len}

pub record Fragment : Type 0 where
  pub id : ℕ
  pub final_flag : Bool
  pub fragment_num : ℕ
  pub payload : List ℕ

-- The `String` errors of fragment.rs, one constructor for each text.
pub data FragmentError : Type 0 where
  fragment_too_short : FragmentError
  max_payload_not_positive : FragmentError
  compression_error : FragmentError
  after_final : ℕ → ℕ → FragmentError
  missing_fragment : FragmentError
  decompression_error : ℕ → FragmentError
  decode_error : FragmentError

-- `(final_flag as u16) << 15 | (fragment_num & 0x7FFF)`: the two parts share no bit.
abbrev pub combined : Bool → ℕ → ℕ
combined final_flag fragment_num = (if final_flag then 2 ^ 15 else 0) + fragment_num % 2 ^ 15

unfoldable pub to_bytes : Fragment → List ℕ
to_bytes f = to_be 8 f.id ++ (to_be 2 (combined f.final_flag f.fragment_num) ++ f.payload)

unfoldable pub from_bytes : List ℕ → Result FragmentError Fragment
from_bytes packet =
    if ltb (length packet) frag_header_len
    then err fragment_too_short
    else let id = from_be (take 8 packet) in
      let word = from_be (take 2 (drop 8 packet)) in
      ok (record {
        id = id;
        final_flag = (word / 2 ^ 15 % 2) == 1;
        fragment_num = word % 2 ^ 15;
        payload = drop frag_header_len packet;
      })
