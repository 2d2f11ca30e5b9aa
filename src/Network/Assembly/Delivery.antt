-- ===== src/Network/Assembly/Delivery.antt =====
-- Fragments of one packet, in any order and any number of times: the assembler is the collector.
use morsh.Common.{
  ℕ, zero, suc, ◌-◌, ◌≤◌, ◌<◌, ◌≡◌, ◌≢◌, refl, sym, ap, ◌∙◌, ap₂, subst, inl, inr, List, [], ◌∷◌,
  map, Option, none, some, Bool, true, false, ◌==◌, if◌then◌else◌, length, take, get_elem?,
  get_elem?-lt, arith, Result, ok, ==→eq, ==_refl, ne→==, Bool-cases, option_eq,
}
use morsh.Proto.{Instruction, Wire}
use morsh.Network.Fragment.{Fragment, FragmentError}
use morsh.Network.Fragmenter.Packet.{IsPacket, joined}
use morsh.Network.Assembly.{
  Assembly, have, total_after, start, store, place, gather, read_instruction, assemble, finish,
  add_fragment,
}
use morsh.Network.Assembly.InRange.{add_fragment-finish}
use morsh.Network.Assembly.Slots.{
  Slots, slot, is_some, have-slot, filled, filled-store, slot-store, length-store, resize_nil,
  is_some-false,
}
use morsh.Network.Assembly.Collector.{
  IndexSet, no_index, with_index, all_below, collect, count, all_below-count, all_below-true,
  count_ext,
}

-- The number of filled slots, as a count over the indices.
filled-count : (n : ℕ) (xs : Slots) → length xs ≤ n → filled xs ≡ count n (λ j. is_some (slot xs j))
unfolding count
filled-count zero [] h = refl
filled-count zero (x ∷ xs) h = absurd (omega arith)
filled-count (suc n) [] h = omega (arith, filled-count n [] (omega arith))
filled-count (suc n) (none ∷ xs) h = omega (arith, filled-count n xs (omega arith))
filled-count (suc n) (some f ∷ xs) h = omega (arith, filled-count n xs (omega arith))

-- Slots that agree with a list give back its payloads.
gather_all :
    (fs : List Fragment) (xs : Slots)
    → ((j : ℕ) → j < length fs → slot xs j ≡ get_elem? fs j)
    → gather (take (length fs) xs) ≡ ok (joined fs)
gather_all [] xs h = refl
gather_all (f ∷ fs) [] h = let bad : none ≡ some f = h 0 (omega arith) in cc
gather_all (f ∷ fs) (none ∷ xs) h = let bad : none ≡ some f = h 0 (omega arith) in cc
gather_all (f ∷ fs) (some g ∷ xs) h =
    let head : some g ≡ some f = h 0 (omega arith) in
    let rest : gather (take (length fs) xs) ≡ ok (joined fs) =
      gather_all fs xs (λ j k. h (suc j) (omega arith)) in
    rw rest (ground (arith, head))

get_elem?-some : (fs : List Fragment) (j : ℕ) → j < length fs → is_some (get_elem? fs j) ≡ true
get_elem?-some [] j h = absurd (omega arith)
get_elem?-some (f ∷ fs) zero h = refl
get_elem?-some (f ∷ fs) (suc j) h = get_elem?-some fs j (omega arith)

-- A fragment of the packet `fs`, found at its own number.
abbrev pub Belongs : List Fragment → Fragment → Type 0
Belongs fs f = get_elem? fs f.fragment_num ≡ some f

abbrev pub AllBelong : List Fragment → List Fragment → Type 0
AllBelong fs [] = Unit {0}
AllBelong fs (g ∷ gs) = Belongs fs g × AllBelong fs gs

abbrev pub numbers : List Fragment → List ℕ
numbers [] = []
numbers (g ∷ gs) = g.fragment_num ∷ numbers gs

-- What the assembler reports: the instruction, or nothing yet.
abbrev pub report : Instruction → Bool → Result FragmentError (Option Instruction)
report inst b = ok (if b then some inst else none)

-- The reports on a list of arrivals, one after the other.
abbrev pub reports :
    Wire → Assembly → List Fragment → List (Result FragmentError (Option Instruction))
reports wire a [] = []
reports wire a (g ∷ gs) = (add_fragment wire a g).0 ∷ reports wire (add_fragment wire a g).1 gs

module _ (id : ℕ) (content : List ℕ) (fs : List Fragment) (packet : IsPacket id content fs) where
  abbrev size : ℕ
  size = length fs

  -- The assembler has the indices of `s` and no others.
  pub record Holds (s : IndexSet) (a : Assembly) : Type 0 where
    pub ident : a.current_id ≡ some id
    pub short : length a.fragments ≤ length fs
    pub slots : (j : ℕ) → slot a.fragments j ≡ (if s j then get_elem? fs j else none)
    pub total : a.fragments_total ≡ (if s (length fs - 1) then some (length fs) else none)
    pub counted : a.fragments_arrived ≡ filled a.fragments

  total_after-at :
      (s : IndexSet) (t : Option ℕ) (f : Fragment)
      → Belongs fs f
      → t ≡ (if s (length fs - 1) then some (length fs) else none)
      → total_after f t
        ≡ (if with_index f.fragment_num s (length fs - 1) then some (length fs) else none)
  total_after-at s t f e h =
      ground (arith, packet.finals f.fragment_num f e, get_elem?-lt fs f.fragment_num f e)

  slots-at :
      (s : IndexSet) (xs : Slots) (f : Fragment)
      → Belongs fs f
      → ((j : ℕ) → slot xs j ≡ (if s j then get_elem? fs j else none))
      → (j : ℕ)
      → (if f.fragment_num == j then some f else slot xs j)
        ≡ (if with_index f.fragment_num s j then get_elem? fs j else none)
  slots-at s xs f e h j = elim (Bool-cases (f.fragment_num == j)) [
    | inl same ↦ rw same (sym e ∙ ap (get_elem? fs) (==→eq f.fragment_num j same))
    | inr other ↦ rw other (h j)
  ]

  start-Holds : (f : Fragment) → Belongs fs f → Holds (with_index f.fragment_num no_index) (start f)
  unfolding start
  start-Holds f e =
      let i : ℕ = f.fragment_num in
      rw (resize_nil i) (record {
        ident = ap some (packet.ids i f e);
        short = omega (arith, length-store [] i f, get_elem?-lt fs i f e);
        slots = λ j. slot-store [] i j f ∙ slots-at no_index [] f e (λ k. refl) j;
        total = total_after-at no_index none f e refl;
        counted = omega (arith, filled-store [] i f refl);
      })

  -- A fragment whose index is in the set is in its slot, and the other way round.
  have-at :
      (s : IndexSet) (a : Assembly) (f : Fragment)
      → Belongs fs f
      → Holds s a
      → have a.fragments f.fragment_num ≡ s f.fragment_num
  have-at s a f e h =
      have-slot a.fragments f.fragment_num
      ∙ ap is_some (h.slots f.fragment_num)
      ∙ pick (s f.fragment_num)
    where
      pick : (b : Bool) → is_some (if b then get_elem? fs f.fragment_num else none) ≡ b
      pick true = rw e
      pick false = refl

  store-Holds :
      (s : IndexSet) (a : Assembly) (f : Fragment)
      → Belongs fs f
      → Holds s a
      → Holds (with_index f.fragment_num s) (store a f)
  unfolding store
  store-Holds s a f e h =
      let i : ℕ = f.fragment_num in
      let known : have a.fragments i ≡ s i = have-at s a f e h in
      elim (Bool-cases (have a.fragments i)) [
        | inl old ↦ rw old (record {
          ident = h.ident;
          short = h.short;
          slots = λ j. again (sym known ∙ old) j ∙ slots-at s a.fragments f e h.slots j;
          total = total_after-at s a.fragments_total f e h.total;
          counted = h.counted;
        })
        | inr fresh ↦
            let free : slot a.fragments i ≡ none =
              is_some-false (slot a.fragments i) (sym (have-slot a.fragments i) ∙ fresh) in
            rw fresh (record {
              ident = h.ident;
              short = omega (arith, h.short, length-store a.fragments i f, get_elem?-lt fs i f e);
              slots = λ j. slot-store a.fragments i j f ∙ slots-at s a.fragments f e h.slots j;
              total = total_after-at s a.fragments_total f e h.total;
              counted = omega (arith, h.counted, filled-store a.fragments i f free);
            })
      ]
    where
      -- A copy that is not stored again would have been stored in the same place.
      again :
          s f.fragment_num ≡ true
          → (j : ℕ)
          → slot a.fragments j ≡ (if f.fragment_num == j then some f else slot a.fragments j)
      again seen j = elim (Bool-cases (f.fragment_num == j)) [
        | inl same ↦ rw same (
            h.slots j
            ∙ rw (subst (λ k. s k ≡ true) (==→eq f.fragment_num j same) seen)
                (subst (λ k. get_elem? fs k ≡ some f) (==→eq f.fragment_num j same) e))
        | inr other ↦ rw other
      ]

  place-Holds :
      (s : IndexSet) (a : Assembly) (f : Fragment)
      → Belongs fs f
      → Holds s a
      → Holds (with_index f.fragment_num s) (place a f)
  unfolding place
  place-Holds s a f e h =
      let same : option_eq ◌==◌ a.current_id (some f.id) ≡ true =
        rw (h.ident, packet.ids f.fragment_num f e) (==_refl id) in
      rw same (store-Holds s a f e h)

  -- The count of arrivals is the size of the set.
  arrived-count :
      (s : IndexSet) (a : Assembly) → Holds s a → a.fragments_arrived ≡ count (length fs) s
  arrived-count s a h =
      h.counted
      ∙ filled-count (length fs) a.fragments h.short
      ∙ count_ext (length fs) (λ j. is_some (slot a.fragments j)) s
          (λ j k. ap is_some (h.slots j) ∙ pick j k (s j))
    where
      pick : (j : ℕ) → j < length fs → (b : Bool) → is_some (if b then get_elem? fs j else none) ≡ b
      pick j k true = get_elem?-some fs j k
      pick j k false = refl

  module _ (wire : Wire) (inst : Instruction)
      (reads : read_instruction wire content ≡ ok inst) where
    assemble_all :
        (s : IndexSet) (a : Assembly)
        → Holds s a
        → all_below (length fs) s ≡ true
        → assemble wire a (length fs)
          ≡ (ok inst, record a { fragments = []; fragments_arrived = 0; fragments_total = none })
    unfolding assemble
    assemble_all s a h full =
        let g : gather (take (length fs) a.fragments) ≡ ok (joined fs) =
          gather_all fs a.fragments (λ j k.
            h.slots j
            ∙ ap (λ b. if b then get_elem? fs j else none)
                (all_below-true (length fs) s full j k)) in
        rw (g, assemble, packet.content_eq, reads)

    -- The assembler once the slots are empty.
    abbrev emptied : Assembly → Assembly
    emptied a = record a { fragments = []; fragments_arrived = 0; fragments_total = none }

    emptied-Holds : (a : Assembly) → a.current_id ≡ some id → Holds no_index (emptied a)
    emptied-Holds a e = record {
      ident = e;
      short = omega arith;
      slots = λ j. refl;
      total = refl;
      counted = refl;
    }

    finish_full :
        (s : IndexSet) (a : Assembly)
        → Holds s a
        → all_below (length fs) s ≡ true
        → finish wire a ≡ (ok (some inst), emptied a)
    unfolding finish
    finish_full s a h full =
        let last : s (length fs - 1) ≡ true =
          all_below-true (length fs) s full (length fs - 1) (omega (arith, packet.nonempty)) in
        let n : (count (length fs) s == length fs) ≡ true =
          sym (all_below-count (length fs) s) ∙ full in
        ground (arith, h.total, h.short, last, arrived-count s a h, n, assemble_all s a h full)

    finish_part :
        (s : IndexSet) (a : Assembly)
        → Holds s a
        → all_below (length fs) s ≡ false
        → finish wire a ≡ (ok none, a)
    unfolding finish
    finish_part s a h part =
        let n : (count (length fs) s == length fs) ≡ false =
          sym (all_below-count (length fs) s) ∙ part in
        ground (arith, h.total, h.short, arrived-count s a h, n)

    -- One arrival, once the fragment is in place.
    arrival :
        (t : IndexSet) (a : Assembly) (g : Fragment)
        → Holds t (place a g)
        → let full = all_below (length fs) t in
          ((add_fragment wire a g).0 ≡ report inst full)
          × Holds (if full then no_index else t) (add_fragment wire a g).1
    arrival t a g placed = elim (Bool-cases (all_below (length fs) t)) [
      | inl full ↦
          let run : finish wire (place a g) ≡ (ok (some inst), emptied (place a g)) =
            finish_full t (place a g) placed full in
          rw (add_fragment-finish wire a g, run, full)
            (refl, emptied-Holds (place a g) placed.ident)
      | inr part ↦
          let run : finish wire (place a g) ≡ (ok none, place a g) =
            finish_part t (place a g) placed part in
          rw (add_fragment-finish wire a g, run, part) (refl, placed)
    ]

    -- The reports from an assembler that holds a set are those of the collector.
    reports-Holds :
        (s : IndexSet) (a : Assembly) (gs : List Fragment)
        → AllBelong fs gs
        → Holds s a
        → reports wire a gs ≡ map (report inst) (collect (length fs) s (numbers gs))
    unfolding collect
    reports-Holds s a [] bs h = refl
    reports-Holds s a (g ∷ gs) bs h =
        let t : IndexSet = with_index g.fragment_num s in
        let (r, h') = arrival t a g (place-Holds s a g bs.0 h) in
        let next : IndexSet = if all_below (length fs) t then no_index else t in
        ap₂ ◌∷◌ r (reports-Holds next (add_fragment wire a g).1 gs bs.1 h')

    -- So are they from an assembler that is at work on another packet.
    pub reports-collect :
        (a : Assembly) (gs : List Fragment)
        → a.current_id ≢ some id
        → AllBelong fs gs
        → reports wire a gs ≡ map (report inst) (collect (length fs) no_index (numbers gs))
    unfolding collect place
    reports-collect a [] other bs = refl
    reports-collect a (g ∷ gs) other bs =
        let t : IndexSet = with_index g.fragment_num no_index in
        let new_id : option_eq ◌==◌ a.current_id (some g.id) ≡ false =
          rw (packet.ids g.fragment_num g bs.0) (differ a.current_id other) in
        let (r, h') = arrival t a g (rw (place, new_id) (start-Holds g bs.0)) in
        ap₂ ◌∷◌ r (reports-Holds _ (add_fragment wire a g).1 gs bs.1 h')
      where
        differ : (o : Option ℕ) → o ≢ some id → option_eq ◌==◌ o (some id) ≡ false
        differ none h = refl
        differ (some j) h = ne→== j id (λ e. h (ap some e))
