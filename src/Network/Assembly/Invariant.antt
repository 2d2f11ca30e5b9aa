-- ===== src/Network/Assembly/Invariant.antt =====
-- The count of arrived fragments is the number of filled slots, so a complete packet has no gap.
use morsh.Common.{
  sym, ap, subst, ◌∙◌, ℕ, ◌-◌, ◌^◌, ◌≤◌, ◌<◌, ◌≡◌, ◌≢◌, refl, ◌⊎◌, inl, inr, List, [], ◌∷◌, ◌++◌,
  Option, none, some, ltb, ◌==◌, length, take, arith, take_all, Result, ok, err, panicked, map_ok,
  All, ltb→le, ==→eq, Bool-cases, Option-cases, option_eq,
}
use morsh.Proto.{Instruction, Wire}
use morsh.Network.Fragment.{Fragment, FragmentError, missing_fragment, after_final}
use morsh.Network.Assembly.{
  Assembly, new, have, start, store, place, gather, read_instruction, assemble, finish,
  add_fragment,
}
use morsh.Network.Assembly.InRange.{add_fragment-finish}
use morsh.Network.Assembly.Slots.{
  Slots, slot, have-slot, filled, filled-le, filled-store, length-store, resize_nil, is_some-false,
}

pub record IsValid (a : Assembly) : Type 0 where
  pub counted : a.fragments_arrived ≡ filled a.fragments
  pub bounded : length a.fragments ≤ 2 ^ 15

pub new-IsValid : IsValid new
unfolding new
new-IsValid = omega arith

start-IsValid : (frag : Fragment) → frag.fragment_num < 2 ^ 15 → IsValid (start frag)
unfolding start
start-IsValid frag h =
    let i : ℕ = frag.fragment_num in
    rw (resize_nil i) (omega (arith, filled-store [] i frag refl, length-store [] i frag))

store-IsValid :
    (a : Assembly) (frag : Fragment)
    → frag.fragment_num < 2 ^ 15
    → IsValid a
    → IsValid (store a frag)
unfolding store
store-IsValid a frag h v =
    let i : ℕ = frag.fragment_num in
    elim (Bool-cases (have a.fragments i)) [
      | inl e ↦ rw e (record { counted = v.counted; bounded = v.bounded })
      | inr e ↦ rw e (
          omega (
            arith,
            filled-store a.fragments i frag
                (is_some-false (slot a.fragments i) (sym (have-slot a.fragments i) ∙ e)),
            length-store a.fragments i frag,
          ))
    ]

place-IsValid :
    (a : Assembly) (frag : Fragment)
    → frag.fragment_num < 2 ^ 15
    → IsValid a
    → IsValid (place a frag)
unfolding place
place-IsValid a frag h v = elim (Bool-cases (option_eq ◌==◌ a.current_id (some frag.id))) [
  | inl e ↦ rw e (store-IsValid a frag h v)
  | inr e ↦ rw e (start-IsValid frag h)
]

-- If every slot counts, the payloads can be gathered.
pub gather_full :
    (slots : Slots) → length slots ≤ filled slots → (bs : List ℕ) × (gather slots ≡ ok bs)
gather_full [] h = ([], refl)
gather_full (none ∷ slots) h = absurd (omega (arith, filled-le slots))
gather_full (some f ∷ slots) h =
    let (bs, e) = gather_full slots (omega arith) in (f.payload ++ bs, rw e)

module _ (wire : Wire) where
  -- A packet that counts as complete is taken apart: its payloads are read as an instruction.
  assemble_valid :
      (a : Assembly) (total : ℕ)
      → IsValid a
      → length a.fragments ≤ total
      → a.fragments_arrived ≡ total
      → (bs : List ℕ) × (assemble wire a total ≡ (
        read_instruction wire bs,
        record a { fragments = []; fragments_arrived = 0; fragments_total = none },
      ))
  unfolding assemble
  assemble_valid a total v short full =
      let (bs, e) = gather_full a.fragments (omega (arith, v.counted)) in
      let g : gather (take total a.fragments) ≡ ok bs = rw (take_all total a.fragments short) e in
      (bs, rw (g, assemble))

  -- What `finish` does to a valid assembler: it waits, refuses a fragment after the final one, or
  -- empties the slots and reads what they held.
  abbrev pub Finished : Assembly → Result FragmentError (Option Instruction) × Assembly → Type 0
  Finished a r =
      (r ≡ (ok none, a))
      ⊎ ((m : ℕ) × (n : ℕ) × (r ≡ (err (after_final m n), a)))
      ⊎ ((bs : List ℕ) × (r ≡ (
        map_ok some (read_instruction wire bs),
        record a { fragments = []; fragments_arrived = 0; fragments_total = none },
      )))

  finish_total :
      (a : Assembly) (total : ℕ)
      → IsValid a
      → a.fragments_total ≡ some total
      → Finished a (finish wire a)
  unfolding finish
  finish_total a total v e = elim (Bool-cases (ltb total (length a.fragments))) [
    | inl long ↦ inr (inl (length a.fragments - 1, total - 1, ground arith))
    | inr short ↦ elim (Bool-cases (a.fragments_arrived == total)) [
      | inl full ↦
          let (bs, run) = assemble_valid a total v (ltb→le _ _ short) (==→eq _ _ full) in
          inr (inr (bs, ground (arith, run)))
      | inr part ↦ inl (ground arith)
    ]
  ]

  finish-Finished : (a : Assembly) → IsValid a → Finished a (finish wire a)
  unfolding finish
  finish-Finished a v = elim (Option-cases a.fragments_total) [
    | inl e ↦ inl (ground arith)
    | inr (total, e) ↦ finish_total a total v e
  ]

  finish-IsValid : (a : Assembly) → IsValid a → IsValid (finish wire a).1
  finish-IsValid a v = elim (finish-Finished a v) [
    | inl e ↦ rw e v
    | inr (inl (m, n, e)) ↦ rw e v
    | inr (inr (bs, e)) ↦ rw e (omega arith)
  ]

  -- Reading can fail in two ways, and neither is a missing fragment.
  read-ne-missing :
      (bs : List ℕ)
      → (map_ok some (read_instruction wire bs) ≢ err missing_fragment)
        × (map_ok some (read_instruction wire bs) ≢ panicked)
  unfolding read_instruction
  read-ne-missing bs = (λ e. ground arith, λ e. ground arith)

  finish-ne-missing :
      (a : Assembly)
      → IsValid a
      → ((finish wire a).0 ≢ err missing_fragment) × ((finish wire a).0 ≢ panicked)
  finish-ne-missing a v = elim (finish-Finished a v) [
    | inl e ↦ rw e (λ x. cc, λ x. cc)
    | inr (inl (m, n, e)) ↦ rw e (λ x. cc, λ x. cc)
    | inr (inr (bs, e)) ↦ rw e (read-ne-missing bs)
  ]

  pub add_fragment-IsValid :
      (a : Assembly) (frag : Fragment)
      → frag.fragment_num < 2 ^ 15
      → IsValid a
      → IsValid (add_fragment wire a frag).1
  add_fragment-IsValid a frag h v =
      subst (λ r. IsValid r.1) (sym (add_fragment-finish wire a frag))
        (finish-IsValid (place a frag) (place-IsValid a frag h v))

  -- The assembler after the fragments of a list, in order.
  abbrev pub fed : Assembly → List Fragment → Assembly
  fed a [] = a
  fed a (f ∷ fs) = fed (add_fragment wire a f).1 fs

  pub fed-IsValid :
      (a : Assembly) (fs : List Fragment)
      → All (λ f. f.fragment_num < 2 ^ 15) fs
      → IsValid a
      → IsValid (fed a fs)
  fed-IsValid a [] h v = v
  fed-IsValid a (f ∷ fs) h v =
      fed-IsValid (add_fragment wire a f).1 fs h.1 (add_fragment-IsValid a f h.0 v)

  -- After any sequence of fragments with 15-bit numbers, from whatever packets and in whatever
  -- order, the assembler holds at most 2^15 slots, and one more such fragment never makes it report
  -- a missing fragment nor panic.
  pub assembler_robust :
      (fs : List Fragment) (f : Fragment)
      → All (λ g. g.fragment_num < 2 ^ 15) fs
      → f.fragment_num < 2 ^ 15
      → (length (fed new fs).fragments ≤ 2 ^ 15)
        × ((add_fragment wire (fed new fs) f).0 ≢ err missing_fragment)
        × ((add_fragment wire (fed new fs) f).0 ≢ panicked)
  assembler_robust fs f h k =
      let v : IsValid (fed new fs) = fed-IsValid new fs h new-IsValid in
      let (a, b) = finish-ne-missing (place (fed new fs) f) (place-IsValid (fed new fs) f k v) in
      let report : (add_fragment wire (fed new fs) f).0 ≡ (finish wire (place (fed new fs) f)).0 =
        ap (λ r. r.0) (add_fragment-finish wire (fed new fs) f) in
      (v.bounded, λ e. a (sym report ∙ e), λ e. b (sym report ∙ e))
