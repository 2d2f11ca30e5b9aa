-- ===== src/Tests/States.antt =====
-- The user's input, the key and the status bar at concrete inputs.
use morsh.Common.{
  List, Option, [], ap, append_assoc, arith, drop, drop-append, false, length, length-append, none,
  ok, refl, replicate, some, suc, sym, take, take-append, true, zero, ℕ, ◌++◌, ◌-◌, ◌∙◌, ◌∷◌, ◌≡◌,
}
use morsh.Common.Int.{ℤ, pos, negsuc}
use morsh.Crypto.Base64Key.{
  Base64, Base64Laws, Base64Key, padding, printable_key, from_printable, checked,
}
use morsh.Crypto.Base64Key.Printable.{printable_key-from_printable, from_printable-printable_key}
use morsh.Prediction.Notification.{NotificationEngine, show_escape_help, hide_escape_help}
use morsh.Prediction.Notification.Messages.{hide_escape_help-show_escape_help}
use morsh.Statesync.UserStream.{
  user_byte, resized, UserWire, UserWireLaws, ClientInstruction, encode_diff_from, decode_and_apply,
  subtract,
}
use morsh.Statesync.UserStream.Diffs.{decode_and_apply-encode_diff_from, encode_diff_from-subtract}

abbrev engine : NotificationEngine
engine = record {
  last_word_from_server = 0;
  last_acked_state = 0;
  message = [];
  message_is_network_error = false;
  message_expiration = none;
  show_quit_keystroke = true;
  escape_key_string = 94 ∷ [];
  escape_key_help = 104 ∷ 101 ∷ [];
}

hide_escape_help-show_escape_help_example : hide_escape_help (show_escape_help engine 1) ≡ engine
hide_escape_help-show_escape_help_example = hide_escape_help-show_escape_help engine 1

-- A code that adds six zeros and the padding.
abbrev toy_base64 : Base64
toy_base64 = record {
  encode = λ bs. bs ++ (replicate 6 0 ++ padding);
  decode = λ text. some (take (length text - 8) text);
}

toy_base64_laws : Base64Laws toy_base64
toy_base64_laws = record {
  decode-encode = λ bs.
      let len : length (bs ++ (replicate 6 0 ++ padding)) - 8 ≡ length bs =
        omega (arith, length-append bs (replicate 6 0 ++ padding)) in
      ap (λ n. some (take n (bs ++ (replicate 6 0 ++ padding)))) len
      ∙ ap some (take-append (length bs) bs (replicate 6 0 ++ padding) refl);
  padded = λ bs h. (
    bs ++ replicate 6 0,
    omega (arith, length-append bs (replicate 6 0), h),
    sym (append_assoc bs (replicate 6 0) padding),
  );
}

abbrev toy_key : Base64Key
toy_key = record { data_bytes = replicate 16 9 }

from_printable-printable_key_example :
    from_printable toy_base64 (printable_key toy_base64 toy_key) ≡ ok toy_key
from_printable-printable_key_example =
    from_printable-printable_key toy_base64 toy_base64_laws toy_key refl

printable_key-from_printable_example :
    (printable_key toy_base64 toy_key ≡ replicate 16 9 ++ replicate 6 0)
    × (length toy_key.data_bytes ≡ 16)
unfolding from_printable checked printable_key
printable_key-from_printable_example =
    printable_key-from_printable toy_base64 (replicate 16 9 ++ replicate 6 0) toy_key refl

-- A code that keeps the number of instructions alone.
abbrev counting_wire : UserWire
counting_wire = record { encode = λ is. length is ∷ []; decode = λ bs. none }

encode_diff_from-subtract_example :
    encode_diff_from counting_wire
      (subtract (user_byte 1 ∷ user_byte 2 ∷ []) (user_byte 1 ∷ []))
      (subtract (user_byte 1 ∷ []) (user_byte 1 ∷ []))
    ≡ encode_diff_from counting_wire (user_byte 1 ∷ user_byte 2 ∷ []) (user_byte 1 ∷ [])
encode_diff_from-subtract_example =
    encode_diff_from-subtract counting_wire (user_byte 1 ∷ []) (user_byte 2 ∷ []) []

-- A code for messages: the number of instructions, then each with its fields in order.
abbrev pub keys_onto : Option (Option (List ℕ)) → List ℕ → List ℕ
keys_onto none rest = 0 ∷ rest
keys_onto (some none) rest = 1 ∷ rest
keys_onto (some (some bs)) rest = 2 ∷ length bs ∷ (bs ++ rest)

abbrev int_onto : Option ℤ → List ℕ → List ℕ
int_onto none rest = 0 ∷ 0 ∷ rest
int_onto (some (pos n)) rest = 1 ∷ n ∷ rest
int_onto (some (negsuc n)) rest = 2 ∷ n ∷ rest

abbrev pub resize_onto : Option (Option ℤ × Option ℤ) → List ℕ → List ℕ
resize_onto none rest = 0 ∷ rest
resize_onto (some (w, h)) rest = 1 ∷ int_onto w (int_onto h rest)

abbrev instructions_code : List ClientInstruction → List ℕ
instructions_code [] = []
instructions_code (i ∷ is) = keys_onto i.keystroke (resize_onto i.resize (instructions_code is))

abbrev pub keys_of : List ℕ → Option (Option (List ℕ)) × List ℕ
keys_of (suc zero ∷ rest) = (some none, rest)
keys_of (suc (suc k) ∷ n ∷ rest) = (some (some (take n rest)), drop n rest)
keys_of (zero ∷ rest) = (none, rest)
keys_of (suc (suc k) ∷ []) = (none, [])
keys_of [] = (none, [])

abbrev int_of : List ℕ → Option ℤ × List ℕ
int_of (suc zero ∷ n ∷ rest) = (some (pos n), rest)
int_of (suc (suc k) ∷ n ∷ rest) = (some (negsuc n), rest)
int_of (zero ∷ n ∷ rest) = (none, rest)
int_of (k ∷ []) = (none, [])
int_of [] = (none, [])

abbrev pub resize_of_code : List ℕ → Option (Option ℤ × Option ℤ) × List ℕ
resize_of_code (suc k ∷ rest) =
    let (w, rest') = int_of rest in let (h, rest'') = int_of rest' in (some (w, h), rest'')
resize_of_code (zero ∷ rest) = (none, rest)
resize_of_code [] = (none, [])

abbrev instructions_of : ℕ → List ℕ → List ClientInstruction
instructions_of zero code = []
instructions_of (suc n) code =
    let (keys, rest) = keys_of code in
    let (resize, rest') = resize_of_code rest in
    record { keystroke = keys; resize = resize } ∷ instructions_of n rest'

abbrev message_of : List ℕ → Option (List ClientInstruction)
message_of [] = none
message_of (n ∷ code) = some (instructions_of n code)

abbrev toy_user_wire : UserWire
toy_user_wire = record { encode = λ is. length is ∷ instructions_code is; decode = message_of }

pub keys_of-keys_onto :
    (o : Option (Option (List ℕ))) (rest : List ℕ) → keys_of (keys_onto o rest) ≡ (o, rest)
keys_of-keys_onto none rest = refl
keys_of-keys_onto (some none) rest = refl
keys_of-keys_onto (some (some bs)) rest =
    rw (take-append (length bs) bs rest refl, drop-append (length bs) bs rest refl) refl

int_of-int_onto : (o : Option ℤ) (rest : List ℕ) → int_of (int_onto o rest) ≡ (o, rest)
int_of-int_onto none rest = refl
int_of-int_onto (some (pos n)) rest = refl
int_of-int_onto (some (negsuc n)) rest = refl

pub resize_of_code-resize_onto :
    (o : Option (Option ℤ × Option ℤ)) (rest : List ℕ)
    → resize_of_code (resize_onto o rest) ≡ (o, rest)
resize_of_code-resize_onto none rest = refl
resize_of_code-resize_onto (some (w, h)) rest =
    rw (int_of-int_onto w (int_onto h rest), int_of-int_onto h rest) refl

instructions_of-instructions_code :
    (is : List ClientInstruction) → instructions_of (length is) (instructions_code is) ≡ is
instructions_of-instructions_code [] = refl
instructions_of-instructions_code (i ∷ is) =
    rw
      (
        keys_of-keys_onto i.keystroke (resize_onto i.resize (instructions_code is)),
        resize_of_code-resize_onto i.resize (instructions_code is),
        instructions_of-instructions_code is,
      )
      refl

toy_user_wire_laws : UserWireLaws toy_user_wire
toy_user_wire_laws = record { decode-encode = λ is. ap some (instructions_of-instructions_code is) }

decode_and_apply-encode_diff_from_example :
    decode_and_apply toy_user_wire (user_byte 1 ∷ []) (
      encode_diff_from toy_user_wire
        (user_byte 1 ∷ user_byte 2 ∷ user_byte 3 ∷ resized (pos 80) (pos 24) ∷ [])
        (user_byte 1 ∷ []))
    ≡ some (user_byte 1 ∷ user_byte 2 ∷ user_byte 3 ∷ resized (pos 80) (pos 24) ∷ [])
decode_and_apply-encode_diff_from_example =
    decode_and_apply-encode_diff_from toy_user_wire toy_user_wire_laws (user_byte 1 ∷ [])
      (user_byte 2 ∷ user_byte 3 ∷ resized (pos 80) (pos 24) ∷ [])
