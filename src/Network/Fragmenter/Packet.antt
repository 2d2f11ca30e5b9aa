-- ===== src/Network/Fragmenter/Packet.antt =====
-- What the fragments of one instruction are, for the assembler on the other side.
use morsh.Common.{
  ℕ, zero, suc, ◌+◌, ◌-◌, ◌/◌, ◌%◌, ◌^◌, ◌≤◌, ◌<◌, ◌≡◌, refl, sym, ap, subst, ◌∙◌, List, [], ◌∷◌,
  ◌++◌, some, true, ◌==◌, length, drop, get_elem?, get_elem?-lt, arith, length-take, length-drop,
  take-append-drop, dec_le, All,
}
use native.Mathlib.Nat.{div-eq-sub-div, div-eq_of_lt, zero-add}
use morsh.Network.Fragment.{Fragment}
use morsh.Network.Fragmenter.{chunks_fuel, chunks, number, total_of, cut}

-- The payloads in order.
abbrev pub joined : List Fragment → List ℕ
joined [] = []
joined (f ∷ fs) = f.payload ++ joined fs

abbrev concat : List (List ℕ) → List ℕ
concat [] = []
concat (c ∷ cs) = c ++ concat cs

-- The fragments of one packet: index `i` stands at place `i`, and the last one alone is final.
pub record IsPacket (id : ℕ) (content : List ℕ) (fs : List Fragment) : Type 0 where
  pub nonempty : 0 < length fs
  pub content_eq : joined fs ≡ content
  pub ids : (i : ℕ) (f : Fragment) → get_elem? fs i ≡ some f → f.id ≡ id
  pub nums : (i : ℕ) (f : Fragment) → get_elem? fs i ≡ some f → f.fragment_num ≡ i
  pub finals :
      (i : ℕ) (f : Fragment) → get_elem? fs i ≡ some f → f.final_flag ≡ (i == length fs - 1)

-- `chunks` loses nothing and makes ⌈length / n⌉ parts.
concat-chunks_fuel :
    (fuel n : ℕ) (xs : List ℕ) → 0 < n → length xs ≤ fuel → concat (chunks_fuel fuel n xs) ≡ xs
concat-chunks_fuel zero n [] p h = refl
concat-chunks_fuel zero n (x ∷ xs) p h = absurd (omega arith)
concat-chunks_fuel (suc fuel) n [] p h = refl
concat-chunks_fuel (suc fuel) n (x ∷ xs) p h =
    rw (concat-chunks_fuel fuel n (drop n (x ∷ xs)) p (omega (arith, length-drop n (x ∷ xs))))
      (take-append-drop n (x ∷ xs))

length-chunks_fuel :
    (fuel n : ℕ) (xs : List ℕ)
    → 0 < n
    → length xs ≤ fuel
    → length (chunks_fuel fuel n xs) ≡ (length xs + (n - 1)) / n
length-chunks_fuel zero n [] p h = sym (div-eq_of_lt (omega arith))
length-chunks_fuel zero n (x ∷ xs) p h = absurd (omega arith)
length-chunks_fuel (suc fuel) n [] p h = sym (div-eq_of_lt (omega arith))
length-chunks_fuel (suc fuel) n (x ∷ xs) p h =
    let rest : List ℕ = drop n (x ∷ xs) in
    let rounds : (suc (length xs) + (n - 1)) / n ≡ (suc (length xs) + (n - 1) - n) / n + 1 =
      div-eq-sub-div p (omega arith) in
    let ih : length (chunks_fuel fuel n rest) ≡ (length rest + (n - 1)) / n =
      length-chunks_fuel fuel n rest p (omega (arith, length-drop n (x ∷ xs))) in
    elim (dec_le n (length (x ∷ xs))) [
      | yes long ↦ omega (
        arith,
        ih,
        rounds,
        ap (λ k. k / n)
            (let e : length rest + (n - 1) ≡ suc (length xs) + (n - 1) - n =
                omega (arith, length-drop n (x ∷ xs)) in
              e),
      )
      | no short ↦ omega (
        arith,
        ih,
        rounds,
        div-eq_of_lt {n = length rest + (n - 1)} {m = n} (omega (arith, length-drop n (x ∷ xs))),
        div-eq_of_lt {n = suc (length xs) + (n - 1) - n} {m = n} (omega arith),
      )
    ]

-- `number` keeps the contents, and says of each index what stands there.
joined-number : (id total i : ℕ) (cs : List (List ℕ)) → joined (number id total i cs) ≡ concat cs
joined-number id total i [] = refl
joined-number id total i (c ∷ cs) = ap (◌++◌ c) (joined-number id total (i + 1) cs)

length-number : (id total i : ℕ) (cs : List (List ℕ)) → length (number id total i cs) ≡ length cs
length-number id total i [] = refl
length-number id total i (c ∷ cs) = ap suc (length-number id total (i + 1) cs)

record Numbered (id total i : ℕ) (f : Fragment) : Type 0 where
  id_eq : f.id ≡ id
  num_eq : f.fragment_num ≡ i % 2 ^ 16
  final_eq : f.final_flag ≡ (i == total - 1)

get-number :
    (id total i j : ℕ) (cs : List (List ℕ)) (f : Fragment)
    → get_elem? (number id total i cs) j ≡ some f
    → Numbered id total (i + j) f
get-number id total i j [] f e = cc
get-number id total i zero (c ∷ cs) f e = ground arith
get-number id total i (suc j) (c ∷ cs) f e =
    let ih : Numbered id total (i + 1 + j) f = get-number id total (i + 1) j cs f e in
    let shift : i + 1 + j ≡ i + suc j = omega arith in subst (λ k. Numbered id total k f) shift ih

-- No chunk is longer than `n`.
abbrev pub Fits : ℕ → List Fragment → Type 0
Fits n fs = All (λ f. length f.payload ≤ n) fs

number-Fits :
    (n id total i : ℕ) (cs : List (List ℕ))
    → All (λ c. length c ≤ n) cs
    → Fits n (number id total i cs)
number-Fits n id total i [] h = tt
number-Fits n id total i (c ∷ cs) h = (h.0, number-Fits n id total (i + 1) cs h.1)

chunks_fuel-le : (fuel n : ℕ) (xs : List ℕ) → All (λ c. length c ≤ n) (chunks_fuel fuel n xs)
chunks_fuel-le zero n xs = tt
chunks_fuel-le (suc fuel) n [] = tt
chunks_fuel-le (suc fuel) n (x ∷ xs) =
    (omega (arith, length-take n (x ∷ xs)), chunks_fuel-le fuel n (drop n (x ∷ xs)))

-- The list that `number` makes of all the chunks of a stream that is not empty.
module _ (id n : ℕ) (z : ℕ) (zs : List ℕ) (p : 0 < n) (small : total_of (z ∷ zs) n ≤ 2 ^ 15) where
  pieces : List (List ℕ)
  pieces = chunks_fuel (suc (length zs)) n (z ∷ zs)

  length-pieces : length pieces ≡ total_of (z ∷ zs) n
  unfolding pieces
  length-pieces =
      let e : length (chunks_fuel (suc (length zs)) n (z ∷ zs)) ≡ (suc (length zs) + (n - 1)) / n =
        length-chunks_fuel (suc (length zs)) n (z ∷ zs) p (omega arith) in
      omega (arith, e)

  concat-pieces : concat pieces ≡ z ∷ zs
  unfolding pieces
  concat-pieces = concat-chunks_fuel (suc (length zs)) n (z ∷ zs) p (omega arith)

  cut-pieces : cut id (z ∷ zs) n ≡ number id (total_of (z ∷ zs) n) 0 pieces
  unfolding pieces cut chunks
  cut-pieces = refl

  cut_cons-IsPacket : IsPacket id (z ∷ zs) (cut id (z ∷ zs) n)
  cut_cons-IsPacket =
      let total : ℕ = total_of (z ∷ zs) n in
      let fs : List Fragment = number id total 0 pieces in
      let len : length fs ≡ total = length-number id total 0 pieces ∙ length-pieces in
      let at : (i : ℕ) (f : Fragment) → get_elem? fs i ≡ some f → Numbered id total i f = λ i f e.
        subst (λ k. Numbered id total k f) (zero-add i) (get-number id total 0 i pieces f e) in
      rw cut-pieces (record {
        nonempty = omega (arith, len);
        content_eq = joined-number id total 0 pieces ∙ concat-pieces;
        ids = λ i f e. (at i f e).id_eq;
        nums = λ i f e. omega (arith, (at i f e).num_eq, get_elem?-lt fs i f e, len);
        finals = λ i f e. (at i f e).final_eq ∙ ap (λ k. i == k - 1) (sym len);
      })

record Lone (id i : ℕ) (f : Fragment) : Type 0 where
  id_eq : f.id ≡ id
  num_eq : f.fragment_num ≡ i
  final_eq : f.final_flag ≡ (i == 0)

-- Cutting a stream for the wire makes a packet of that stream, if its fragments can be numbered in
-- 15 bits.
pub cut-IsPacket :
    (id n : ℕ) (zs : List ℕ) → 0 < n → total_of zs n ≤ 2 ^ 15 → IsPacket id zs (cut id zs n)
unfolding cut chunks
cut-IsPacket id n [] p h = record {
  nonempty = omega arith;
  content_eq = refl;
  ids = λ i f e. (lone i f e).id_eq;
  nums = λ i f e. (lone i f e).num_eq;
  finals = λ i f e. (lone i f e).final_eq;
}
  where
    lone :
        (i : ℕ) (f : Fragment)
        → get_elem? (record { id = id; final_flag = true; fragment_num = 0; payload = [] } ∷ []) i
          ≡ some f
        → Lone id i f
    lone zero f e = ground arith
    lone (suc i) f e = cc
cut-IsPacket id n (z ∷ zs) p h = cut_cons-IsPacket id n z zs p h

pub cut-Fits : (id n : ℕ) (zs : List ℕ) → Fits n (cut id zs n)
unfolding cut chunks
cut-Fits id n [] = (omega arith, tt)
cut-Fits id n (z ∷ zs) =
    number-Fits n id (total_of (z ∷ zs) n) 0 (chunks_fuel (suc (length zs)) n (z ∷ zs))
      (chunks_fuel-le (suc (length zs)) n (z ∷ zs))
