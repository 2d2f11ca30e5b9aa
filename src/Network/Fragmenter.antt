-- ===== src/Network/Fragmenter.antt =====
-- crates/morsh-network/src/fragment.rs, `Fragmenter`: an instruction, compressed and cut into
-- fragments. An id is used again for an instruction that is sent again.
pub mod Packet
pub mod Made
pub mod Ids
use morsh.Common.{
  ℕ, zero, suc, ◌+◌, ◌-◌, ◌/◌, ◌%◌, ◌^◌, max, List, [], ◌∷◌, Option, none, some, Bool, true, false,
  not, ◌||◌, ◌==◌, if◌then◌else◌, length, take, drop, option_eq, list_eq, unwrap_or, Result, ok,
  err,
}
use morsh.Proto.{Instruction, Wire}
use morsh.Network.Fragment.{Fragment, FragmentError, max_payload_not_positive, compression_error}

pub record Fragmenter : Type 0 where
  pub next_instruction_id : ℕ
  pub last_instruction : Option Instruction
  pub last_max_payload : Option ℕ

pub new : Fragmenter
new = record { next_instruction_id = 0; last_instruction = none; last_max_payload = none }

-- The numbering and the chaff, by `!=` field by field; the diff is not compared.
unfoldable pub differs : Instruction → Instruction → Bool
differs inst last =
    not (option_eq ◌==◌ inst.old_num last.old_num)
    || not (option_eq ◌==◌ inst.new_num last.new_num)
    || not (option_eq ◌==◌ inst.ack_num last.ack_num)
    || not (option_eq ◌==◌ inst.throwaway_num last.throwaway_num)
    || not (option_eq (list_eq ◌==◌) inst.chaff last.chaff)
    || not (option_eq ◌==◌ inst.protocol_version last.protocol_version)

unfoldable pub is_new_instruction : Fragmenter → Instruction → ℕ → Bool
is_new_instruction f inst max_payload = elim f.last_instruction [
  | none ↦ true
  | some last ↦ not (option_eq ◌==◌ f.last_max_payload (some max_payload)) || differs inst last
]

unfoldable pub last_ack_sent : Fragmenter → ℕ
last_ack_sent f = elim f.last_instruction [ none ↦ 0 | some last ↦ unwrap_or last.ack_num 0 ]

-- `chunks(n)`, with the length of the list for fuel.
abbrev pub chunks_fuel {ℓ} : {A : Type ℓ} → ℕ → ℕ → List A → List (List A)
chunks_fuel zero n xs = []
chunks_fuel (suc fuel) n [] = []
chunks_fuel (suc fuel) n (x ∷ xs) = take n (x ∷ xs) ∷ chunks_fuel fuel n (drop n (x ∷ xs))

unfoldable pub chunks {ℓ} : {A : Type ℓ} → ℕ → List A → List (List A)
chunks n xs = chunks_fuel (length xs) n xs

-- The loop over the chunks, from index `i`; the number is `i as u16`.
abbrev pub number : ℕ → ℕ → ℕ → List (List ℕ) → List Fragment
number id total i [] = []
number id total i (c ∷ cs) =
    record { id = id; final_flag = i == total - 1; fragment_num = i % 2 ^ 16; payload = c }
    ∷ number id total (i + 1) cs

-- `div_ceil(max_payload).max(1)`
abbrev pub total_of : List ℕ → ℕ → ℕ
total_of compressed max_payload = max ((length compressed + (max_payload - 1)) / max_payload) 1

-- An empty stream still makes one fragment.
abbrev pub or_empty : ℕ → List Fragment → List Fragment
or_empty id [] = record { id = id; final_flag = true; fragment_num = 0; payload = [] } ∷ []
or_empty id (f ∷ fs) = f ∷ fs

unfoldable pub cut : ℕ → List ℕ → ℕ → List Fragment
cut id compressed max_payload =
    or_empty id (number id (total_of compressed max_payload) 0 (chunks max_payload compressed))

-- The state after the instruction is accepted; the id is a u64.
unfoldable pub advance : Fragmenter → Instruction → ℕ → Fragmenter
advance f inst max_payload = record {
  next_instruction_id =
      if is_new_instruction f inst max_payload
      then (f.next_instruction_id + 1) % 2 ^ 64
      else f.next_instruction_id;
  last_instruction = some inst;
  last_max_payload = some max_payload;
}

module _ (wire : Wire) where
  -- A compression that fails comes after the state has advanced.
  unfoldable pub make_fragments :
      Fragmenter → Instruction → ℕ → Result FragmentError (List Fragment) × Fragmenter
  make_fragments f inst max_payload =
      if max_payload == 0
      then (err max_payload_not_positive, f)
      else let f' = advance f inst max_payload in
        elim (wire.compress (wire.encode inst)) [
          | none ↦ (err compression_error, f')
          | some compressed ↦ (ok (cut f'.next_instruction_id compressed max_payload), f')
        ]
