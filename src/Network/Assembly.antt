-- ===== src/Network/Assembly.antt =====
-- crates/morsh-network/src/fragment.rs, `FragmentAssembly`: one instruction under assembly at a
-- time. A fragment of another id abandons what was in progress.
pub mod Slots
pub mod InRange
pub mod Invariant
pub mod Collector
pub mod Delivery
pub mod Transfer
use morsh.Common.{
  ℕ, ◌+◌, ◌-◌, List, [], ◌∷◌, ◌++◌, Option, none, some, Bool, true, false, ltb, ◌==◌, if◌then◌else◌,
  length, take, replicate, get_elem?, set, option_eq, Result, ok, err, panicked, ◌>>=◌, map_ok,
  ok_or,
}
use morsh.Proto.{Instruction, Wire}
use morsh.Network.Fragment.{
  Fragment, FragmentError, after_final, missing_fragment, decompression_error, decode_error,
}

pub record Assembly : Type 0 where
  pub fragments : List (Option Fragment)
  pub current_id : Option ℕ
  pub fragments_arrived : ℕ
  pub fragments_total : Option ℕ

pub new : Assembly
new = record { fragments = []; current_id = none; fragments_arrived = 0; fragments_total = none }

-- `resize(n, None)`
pub resize : ℕ → List (Option Fragment) → List (Option Fragment)
resize n xs = take n xs ++ replicate (n - length xs) none

-- `get(index).map(is_some).unwrap_or(false)`
pub have : List (Option Fragment) → ℕ → Bool
have slots index = elim (get_elem? slots index) [
  | some (some f) ↦ true
  | some none ↦ false
  | none ↦ false
]

-- The vector with room for the index.
pub grow : List (Option Fragment) → ℕ → List (Option Fragment)
grow slots index = if ltb (length slots) (index + 1) then resize (index + 1) slots else slots

abbrev pub total_after : Fragment → Option ℕ → Option ℕ
total_after frag total = if frag.final_flag then some (frag.fragment_num + 1) else total

-- The first fragment of another packet.
pub start : Fragment → Assembly
start frag = record {
  fragments = set (resize (frag.fragment_num + 1) []) frag.fragment_num (some frag);
  current_id = some frag.id;
  fragments_arrived = 1;
  fragments_total = total_after frag none;
}

-- A fragment of the packet in progress: a copy of one that has arrived is not stored again.
pub store : Assembly → Fragment → Assembly
store a frag =
    if have a.fragments frag.fragment_num
    then record a { fragments_total = total_after frag a.fragments_total }
    else record a {
      fragments = set (grow a.fragments frag.fragment_num) frag.fragment_num (some frag);
      fragments_total = total_after frag a.fragments_total;
      fragments_arrived = a.fragments_arrived + 1;
    }

pub place : Assembly → Fragment → Assembly
place a frag = if option_eq ◌==◌ a.current_id (some frag.id) then store a frag else start frag

-- The payloads of the slots, which must all be filled.
abbrev pub gather : List (Option Fragment) → Result FragmentError (List ℕ)
gather [] = ok []
gather (none ∷ slots) = err missing_fragment
gather (some f ∷ slots) = do rest ← gather slots; ok (f.payload ++ rest)

module _ (wire : Wire) where
  pub read_instruction : List ℕ → Result FragmentError Instruction
  read_instruction content = do
    plain ← ok_or (wire.decompress content) (decompression_error (length content))
    ok_or (wire.decode plain) decode_error

  -- The slots are emptied once the payloads are gathered, whatever becomes of these.
  pub assemble : Assembly → ℕ → Result FragmentError Instruction × Assembly
  assemble a total = elim (gather (take total a.fragments)) [
    | ok content ↦ (
      read_instruction content,
      record a { fragments = []; fragments_arrived = 0; fragments_total = none },
    )
    | err e ↦ (err e, a)
    | panicked ↦ (panicked, a)
  ]

  -- The second half of `add_fragment`.
  pub finish : Assembly → Result FragmentError (Option Instruction) × Assembly
  finish a = elim a.fragments_total [
    | none ↦ (ok none, a)
    | some total ↦
        if ltb total (length a.fragments)
        then (err (after_final (length a.fragments - 1) (total - 1)), a)
        else if a.fragments_arrived == total
        then (map_ok some (assemble a total).0, (assemble a total).1)
        else (ok none, a)
  ]

  -- The write of a slot panics past the end; it leaves the length as it is.
  pub add_fragment : Assembly → Fragment → Result FragmentError (Option Instruction) × Assembly
  add_fragment a frag =
      let b = place a frag in
      if ltb frag.fragment_num (length b.fragments) then finish b else (panicked, b)
