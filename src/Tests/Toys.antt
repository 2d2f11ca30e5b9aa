-- ===== src/Tests/Toys.antt =====
-- Stand-ins for the crates that the code calls, with the laws that are asked of them, and the test
-- data: two ends with one key.
use morsh.Common.{
  ℕ, zero, suc, ◌≡◌, refl, sym, ap, ap₂, subst, List, [], ◌∷◌, ◌++◌, Option, none, some, Bool, true,
  false, ◌==◌, if◌then◌else◌, length, take, drop, replicate, take-append, drop-append, take_all,
  list_eq, list_eq-Decides, nat_eq-Decides, Bool-cases, inl, inr, arith,
}
use morsh.Proto.{Instruction, Wire, WireLaws}
use morsh.Crypto.Cipher.{Cipher, CipherLaws}
use morsh.Network.State.{State}
use morsh.Network.Connection.{Connection}
use morsh.Network.Connection.Outgoing.{SendClock}
use morsh.Network.Connection.Incoming.{RecvClock}
use morsh.Network.Fragment.{Fragment}

abbrev pub zero_tag : List ℕ
zero_tag = replicate 16 0

abbrev toy_unseal : List ℕ → List ℕ → Option (List ℕ)
toy_unseal body tag = if list_eq ◌==◌ tag zero_tag then some body else none

-- The cipher that leaves the text as it is.
abbrev pub toy_cipher : Cipher
toy_cipher = record {
  seal = λ key nonce text. some (text, zero_tag);
  unseal = λ key nonce body tag. toy_unseal body tag;
}

toy_opens :
    (body tag text : List ℕ) → toy_unseal body tag ≡ some text → (body ≡ text) × (tag ≡ zero_tag)
toy_opens body tag text h = elim (Bool-cases (list_eq ◌==◌ tag zero_tag)) [
  | inl e ↦ (ground arith, (list_eq-Decides ◌==◌ nat_eq-Decides tag zero_tag).0 e)
  | inr e ↦ absurd (ground arith)
]

-- What the cipher makes of a text.
abbrev sealing : List ℕ → List ℕ → Option (List ℕ × List ℕ)
sealing body tag = some (body, tag)

sealed :
    (text body tag : List ℕ)
    → sealing text zero_tag ≡ sealing body tag
    → (text ≡ body) × (zero_tag ≡ tag)
sealed text body tag h = ground arith

opens_back :
    (text body tag : List ℕ) → (text ≡ body) × (zero_tag ≡ tag) → toy_unseal body tag ≡ some text
opens_back text body tag h =
    subst (λ b. toy_unseal b tag ≡ some text) h.0
      (subst (λ t. toy_unseal text t ≡ some text) h.1 refl)

sealed_back :
    (body tag text : List ℕ)
    → (body ≡ text) × (tag ≡ zero_tag)
    → sealing text zero_tag ≡ sealing body tag
sealed_back body tag text h = ap₂ sealing (sym h.0) (sym h.1)

pub toy_cipher_laws : CipherLaws toy_cipher
toy_cipher_laws = record {
  sealed_len = λ key nonce text body tag h. sym (ap length (sealed text body tag h).0);
  tag_len = λ key nonce text body tag h. sym (ap length (sealed text body tag h).1);
  opens = λ key nonce text body tag h. opens_back text body tag (sealed text body tag h);
  authentic = λ key nonce body tag text h. sealed_back body tag text (toy_opens body tag text h);
}

abbrev number_code : Option ℕ → ℕ
number_code none = 0
number_code (some n) = suc n

abbrev number_of : ℕ → Option ℕ
number_of zero = none
number_of (suc n) = some n

abbrev bytes_code : Option (List ℕ) → List ℕ
bytes_code none = 0 ∷ []
bytes_code (some bs) = suc (length bs) ∷ bs

abbrev bytes_of : List ℕ → Option (List ℕ) × List ℕ
bytes_of [] = (none, [])
bytes_of (zero ∷ rest) = (none, rest)
bytes_of (suc n ∷ rest) = (some (take n rest), drop n rest)

abbrev toy_encode : Instruction → List ℕ
toy_encode i =
    number_code i.protocol_version
    ∷ number_code i.old_num
    ∷ number_code i.new_num
    ∷ number_code i.ack_num
    ∷ number_code i.throwaway_num
    ∷ (bytes_code i.diff ++ bytes_code i.chaff)

abbrev toy_decode : List ℕ → Option Instruction
toy_decode (v ∷ o ∷ n ∷ a ∷ t ∷ rest) =
    let (diff, rest') = bytes_of rest in
    some (record {
      protocol_version = number_of v;
      old_num = number_of o;
      new_num = number_of n;
      ack_num = number_of a;
      throwaway_num = number_of t;
      diff = diff;
      chaff = (bytes_of rest').0;
    })
toy_decode _ = none

-- The encoding that writes each field after the other, and no compression.
abbrev pub toy_wire : Wire
toy_wire = record {
  encode = toy_encode;
  decode = toy_decode;
  compress = λ bs. some bs;
  decompress = λ bs. some bs;
}

number_of-number_code : (o : Option ℕ) → number_of (number_code o) ≡ o
number_of-number_code none = refl
number_of-number_code (some n) = refl

bytes_of-bytes_code :
    (o : Option (List ℕ)) (rest : List ℕ) → bytes_of (bytes_code o ++ rest) ≡ (o, rest)
bytes_of-bytes_code none rest = refl
bytes_of-bytes_code (some bs) rest =
    rw (take-append (length bs) bs rest refl, drop-append (length bs) bs rest refl) refl

bytes_of-bytes_code_end : (o : Option (List ℕ)) → (bytes_of (bytes_code o)).0 ≡ o
bytes_of-bytes_code_end none = refl
bytes_of-bytes_code_end (some bs) = ap some (take_all (length bs) bs (omega arith))

toy_decode-toy_encode : (i : Instruction) → toy_decode (toy_encode i) ≡ some i
toy_decode-toy_encode i =
    rw
      (
        number_of-number_code i.protocol_version,
        number_of-number_code i.old_num,
        number_of-number_code i.new_num,
        number_of-number_code i.ack_num,
        number_of-number_code i.throwaway_num,
        bytes_of-bytes_code i.diff (bytes_code i.chaff),
        bytes_of-bytes_code_end i.chaff,
      )
      refl

pub toy_wire_laws : WireLaws toy_wire
toy_wire_laws = record {
  decode-encode = toy_decode-toy_encode;
  decompress-compress = λ bs zs h. sym h;
}

abbrev toy_apply : List ℕ → List ℕ → Option (List ℕ)
toy_apply base [] = some base
toy_apply base (b ∷ bs) = some bs

abbrev toy_diff : List ℕ → List ℕ → List ℕ
toy_diff target base = if list_eq ◌==◌ target base then [] else 1 ∷ target

-- Lines of numbers, whose diffs are the whole new line.
abbrev pub toy_state : State (List ℕ)
toy_state = record {
  has_prefix = false;
  diff_from = toy_diff;
  apply_string = toy_apply;
  subtract = λ s known. s;
  state_equal = list_eq ◌==◌;
  clone = λ a. a;
  adopt_from = λ a b. (a, b);
}

toy_apply-toy_diff : (target base : List ℕ) → toy_apply base (toy_diff target base) ≡ some target
toy_apply-toy_diff target base = elim (Bool-cases (list_eq ◌==◌ target base)) [
  | inl e ↦ rw e (ap some (sym ((list_eq-Decides ◌==◌ nat_eq-Decides target base).0 e)))
  | inr e ↦ rw e refl
]

toy_diff_empty : (target base : List ℕ) → toy_diff target base ≡ [] → base ≡ target
toy_diff_empty target base h = elim (Bool-cases (list_eq ◌==◌ target base)) [
  | inl e ↦ sym ((list_eq-Decides ◌==◌ nat_eq-Decides target base).0 e)
  | inr e ↦ absurd (ground arith)
]

-- One end of a connection: the server or the client.
abbrev pub toy_end : Bool → Connection
toy_end server = record {
  sockets = 4 ∷ [];
  remote_addr = some 7;
  session = record { key = 1 ∷ 2 ∷ []; blocks_encrypted = 0 };
  rtt = record { srtt_ms = 50; rttvar_ms = 25; have_sample = false };
  fragger = record { next_instruction_id = 0; last_instruction = none; last_max_payload = none };
  assembler = record {
    current_id = none;
    fragments = [];
    fragments_arrived = 0;
    fragments_total = none;
  };
  last_port_choice = 0;
  last_roundtrip_success = 0;
  server = server;
  has_remote_addr = true;
  last_heard = 0;
  send_seq = 0;
  expected_receiver_seq = 0;
  saved_timestamp = 0;
  saved_timestamp_received_at = 0;
}

-- An instruction: state 1 is state 0 with the line "hi".
abbrev pub toy_instruction : Instruction
toy_instruction = record {
  protocol_version = some 2;
  old_num = some 0;
  new_num = some 1;
  ack_num = some 0;
  throwaway_num = some 0;
  diff = some (1 ∷ 104 ∷ 105 ∷ []);
  chaff = some [];
}

abbrev pub toy_send_clock : SendClock
toy_send_clock = record { unix_ms = 1000; now = 0 }

abbrev pub toy_recv_clock : RecvClock
toy_recv_clock = record { unix_ms = 1020; saved_at = 0; heard_at = 5 }

-- What it becomes: the compressed bytes, the only fragment, the client's datagram, and the client
-- after it.
abbrev pub toy_packed : List ℕ
toy_packed = 3 ∷ 1 ∷ 2 ∷ 1 ∷ 1 ∷ 4 ∷ 1 ∷ 104 ∷ 105 ∷ 1 ∷ []

abbrev pub toy_fragment : Fragment
toy_fragment = record { id = 1; final_flag = true; fragment_num = 0; payload = toy_packed }

abbrev pub toy_datagram : List ℕ
toy_datagram =
    replicate 8 0
    ++ (3 ∷ 232 ∷ 255 ∷ 255 ∷ [])
    ++ (0 ∷ 0 ∷ 0 ∷ 0 ∷ 0 ∷ 0 ∷ 0 ∷ 1 ∷ 128 ∷ 0 ∷ [])
    ++ toy_packed
    ++ zero_tag

abbrev pub toy_client_after : Connection
toy_client_after = record (toy_end false) {
  session = record { key = 1 ∷ 2 ∷ []; blocks_encrypted = 2 };
  send_seq = 1;
}
