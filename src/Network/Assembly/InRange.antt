-- ===== src/Network/Assembly/InRange.antt =====
-- crates/morsh-network/src/fragment.rs, `add_fragment`: a slot is written within the vector, which was
-- made long enough before.
use morsh.Common.{
  ◌-◌, [], ap, ◌∙◌, Bool, false, if◌then◌else◌, ℕ, ◌+◌, ◌<◌, ◌≡◌, refl, List, Option, none, some,
  true, Bool-cases, inl, inr, ◌==◌, option_eq, length, get_elem?, get_elem?-lt, length-set,
  length-replicate, Option-cases, arith, lt→ltb,
}
use morsh.Proto.{Wire}
use morsh.Network.Fragment.{Fragment}
use morsh.Network.Assembly.{Assembly, resize, have, grow, start, store, place, finish, add_fragment}
use morsh.Network.Assembly.Slots.{resize_longer, length-grow}

have-lt : (xs : List (Option Fragment)) (i : ℕ) → have xs i ≡ true → i < length xs
unfolding have
have-lt xs i e = elim (Option-cases (get_elem? xs i)) [
  | inl n ↦ absurd (ground arith)
  | inr (o, n) ↦ get_elem?-lt xs i o n
]

start_in_range : (frag : Fragment) → frag.fragment_num < length (start frag).fragments
unfolding start
start_in_range frag =
    let i : ℕ = frag.fragment_num in
    let empty : Option Fragment = none in
    let long : length (resize (i + 1) []) ≡ i + 1 =
      ap length (resize_longer [] (i + 1) (omega arith))
      ∙ length-replicate (i + 1 - 0) empty
      ∙ omega arith in
    let all : length (start frag).fragments ≡ i + 1 =
      length-set (resize (i + 1) []) i (some frag) ∙ long in
    omega (arith, all)

store_in_range :
    (a : Assembly) (frag : Fragment) → frag.fragment_num < length (store a frag).fragments
unfolding store
store_in_range a frag = elim (Bool-cases (have a.fragments frag.fragment_num)) [
  | inl h ↦ rw h (have-lt a.fragments frag.fragment_num h)
  | inr h ↦
      let i : ℕ = frag.fragment_num in
      let kept : _ = length-set (grow a.fragments i) i (some frag) in
      let grown : _ = length-grow a.fragments i in rw h (omega (arith, kept, grown))
]

place_in_range :
    (a : Assembly) (frag : Fragment) → frag.fragment_num < length (place a frag).fragments
unfolding place
place_in_range a frag = chosen (option_eq ◌==◌ a.current_id (some frag.id))
  where
    chosen :
        (same : Bool)
        → frag.fragment_num < length (if same then store a frag else start frag).fragments
    chosen true = store_in_range a frag
    chosen false = start_in_range frag

pub add_fragment-finish :
    (wire : Wire) (a : Assembly) (frag : Fragment)
    → add_fragment wire a frag ≡ finish wire (place a frag)
unfolding add_fragment
add_fragment-finish wire a frag =
    rw (lt→ltb frag.fragment_num (length (place a frag).fragments) (place_in_range a frag)) refl
