-- ===== src/Prediction/Engine/Shifts.antt =====
-- crates/morsh-prediction/src/prediction.rs: the loops over the cells of a row, cell by cell. In range
-- they do not panic.
use morsh.Common.{
  ℕ, zero, suc, ◌+◌, ◌≤◌, ◌<◌, ◌≡◌, ◌≢◌, refl, ap, List, [], ◌∷◌, Option, none, some, inl, inr,
  length, get_elem?, get_or, arith, subst, sym, ◌∙◌, dec_lt, Option-cases,
}
use morsh.Common.Options.{option_map}
use morsh.Prediction.Overlay.{ConditionalOverlayCell}
use morsh.Prediction.Engine.Cells.{CellState, modify, collect, ascending, descending}

abbrev pub Cells : Type 0
Cells = List ConditionalOverlayCell

abbrev pub Body : Type 0
Body = ℕ → ConditionalOverlayCell → ConditionalOverlayCell

-- The cells `lo..lo + n` are rewritten by the body of the loop, the others are kept.
pub record Shifted (body : Body) (lo n : ℕ) (cells cells' : Cells) : Type 0 where
  pub same_length : length cells' ≡ length cells
  pub inside :
      (j : ℕ) (c : ConditionalOverlayCell)
      → lo ≤ j
      → j < lo + n
      → get_elem? cells j ≡ some c
      → get_elem? cells' j ≡ some (body j c)
  pub below : (j : ℕ) → j < lo → get_elem? cells' j ≡ get_elem? cells j
  pub above : (j : ℕ) → lo + n ≤ j → get_elem? cells' j ≡ get_elem? cells j

-- A run that does not panic and rewrites just these cells.
abbrev pub Shifts : Body → ℕ → ℕ → Cells → Option Cells → Type 0
Shifts body lo n cells r = (cells' : Cells) × (r ≡ some cells') × Shifted body lo n cells cells'

pub get_elem?-in :
    (cells : Cells) (i : ℕ)
    → i < length cells
    → (c : ConditionalOverlayCell) × (get_elem? cells i ≡ some c)
get_elem?-in [] i h = absurd (omega arith)
get_elem?-in (c ∷ cs) zero h = (c, refl)
get_elem?-in (c ∷ cs) (suc i) h = get_elem?-in cs i (omega arith)

one_more : (n : ℕ) → 1 + n ≡ suc n
one_more n = omega arith

more_one : (n : ℕ) → suc n ≡ n + 1
more_one n = omega arith

-- One cell.
pub modify-Shifts :
    (body : Body) (cells : Cells) (i : ℕ)
    → i < length cells
    → Shifts body i 1 cells (modify cells i (body i))
modify-Shifts body [] i h = absurd (omega arith)
modify-Shifts body (c ∷ cs) zero h = (
  body 0 c ∷ cs,
  refl,
  record {
    same_length = refl;
    inside = λ j d l u e. one j d u e;
    below = λ j l. absurd (omega arith);
    above = λ j l. beyond j l;
  },
)
  where
    one :
        (j : ℕ) (d : ConditionalOverlayCell)
        → j < 0 + 1
        → get_elem? (c ∷ cs) j ≡ some d
        → get_elem? (body 0 c ∷ cs) j ≡ some (body j d)
    one zero d u e = cc
    one (suc j) d u e = absurd (omega arith)

    beyond : (j : ℕ) → 0 + 1 ≤ j → get_elem? (body 0 c ∷ cs) j ≡ get_elem? (c ∷ cs) j
    beyond zero l = absurd (omega arith)
    beyond (suc j) l = refl
modify-Shifts body (c ∷ cs) (suc i) h =
    let (cs', e, s) = modify-Shifts (λ j. body (suc j)) cs i (omega arith) in
    (
      c ∷ cs',
      ap (option_map (◌∷◌ c)) e,
      record {
        same_length = ap suc s.same_length;
        inside = λ j d l u at. inside j d l u at s;
        below = λ j l. below j l s;
        above = λ j l. above j l s;
      },
    )
  where
    inside :
        {cs' : Cells} (j : ℕ) (d : ConditionalOverlayCell)
        → suc i ≤ j
        → j < suc i + 1
        → get_elem? (c ∷ cs) j ≡ some d
        → Shifted (λ j. body (suc j)) i 1 cs cs'
        → get_elem? (c ∷ cs') j ≡ some (body j d)
    inside zero d l u at s = absurd (omega arith)
    inside (suc j) d l u at s = s.inside j d (omega arith) (omega arith) at

    below :
        {cs' : Cells} (j : ℕ)
        → j < suc i
        → Shifted (λ j. body (suc j)) i 1 cs cs'
        → get_elem? (c ∷ cs') j ≡ get_elem? (c ∷ cs) j
    below zero l s = refl
    below (suc j) l s = s.below j (omega arith)

    above :
        {cs' : Cells} (j : ℕ)
        → suc i + 1 ≤ j
        → Shifted (λ j. body (suc j)) i 1 cs cs'
        → get_elem? (c ∷ cs') j ≡ get_elem? (c ∷ cs) j
    above zero l s = absurd (omega arith)
    above (suc j) l s = s.above j (omega arith)

module _ (body : Body) where
  empty-Shifts : (lo : ℕ) (cells : Cells) → Shifts body lo 0 cells (some cells)
  empty-Shifts lo cells = (
    cells,
    refl,
    record {
      same_length = refl;
      inside = λ j d l u at. absurd (omega arith);
      below = λ j l. refl;
      above = λ j l. refl;
    },
  )

  -- One range and then the next, or the other way round.
  joined :
      (lo n m : ℕ) (a b c : Cells)
      → Shifted body lo n a b
      → Shifted body (lo + n) m b c
      → Shifted body lo (n + m) a c
  joined lo n m a b c s t = record {
    same_length = omega (arith, s.same_length, t.same_length);
    inside = λ j d l u at. elim (dec_lt j (lo + n)) [
      | yes h ↦ cc (t.below j h, s.inside j d l h at)
      | no h ↦ t.inside j d (omega arith) (omega arith) (s.above j (omega arith) ∙ at)
    ];
    below = λ j l. t.below j (omega arith) ∙ s.below j l;
    above = λ j l. t.above j (omega arith) ∙ s.above j (omega arith);
  }

  joined_back :
      (lo n m : ℕ) (a b c : Cells)
      → Shifted body (lo + n) m a b
      → Shifted body lo n b c
      → Shifted body lo (n + m) a c
  joined_back lo n m a b c s t = record {
    same_length = omega (arith, s.same_length, t.same_length);
    inside = λ j d l u at. elim (dec_lt j (lo + n)) [
      | yes h ↦ t.inside j d l h (s.below j h ∙ at)
      | no h ↦ t.above j (omega arith) ∙ s.inside j d (omega arith) (omega arith) at
    ];
    below = λ j l. t.below j l ∙ s.below j (omega arith);
    above = λ j l. t.above j (omega arith) ∙ s.above j (omega arith);
  }

  pub ascending-Shifts :
      (lo n : ℕ) (cells : Cells)
      → lo + n ≤ length cells
      → Shifts body lo n cells (ascending body lo n cells)
  ascending-Shifts lo zero cells h = empty-Shifts lo cells
  ascending-Shifts lo (suc n) cells h =
      let (cells₁, e, s) = modify-Shifts body cells lo (omega arith) in
      let (cells₂, e', t) = ascending-Shifts (suc lo) n cells₁ (omega (arith, s.same_length)) in
      (
        cells₂,
        rw e e',
        subst (λ k. Shifted body lo k cells cells₂) (one_more n)
            (joined lo 1 n cells cells₁ cells₂ s
              (subst (λ k. Shifted body k n cells₁ cells₂) (more_one lo) t)),
      )

  pub descending-Shifts :
      (lo n : ℕ) (cells : Cells)
      → lo + n ≤ length cells
      → Shifts body lo n cells (descending body lo n cells)
  descending-Shifts lo zero cells h = empty-Shifts lo cells
  descending-Shifts lo (suc n) cells h =
      let (cells₁, e, s) = modify-Shifts body cells (lo + n) (omega arith) in
      let (cells₂, e', t) = descending-Shifts lo n cells₁ (omega (arith, s.same_length)) in
      (
        cells₂,
        rw e e',
        subst (λ k. Shifted body lo k cells cells₂) (sym (more_one n))
            (joined_back lo n 1 cells cells₁ cells₂ s t),
      )

-- The states that are read are those of the function, each in its place.
pub collect-get_or :
    (f : ℕ → Option CellState) (n : ℕ) (d : CellState)
    → ((i : ℕ) → i < n → f i ≢ none)
    → (states : List CellState) × (collect f n ≡ some states)
      × ((i : ℕ) → i < n → f i ≡ some (get_or states i d))
collect-get_or f zero d h = ([], refl, λ i l. absurd (omega arith))
collect-get_or f (suc n) d h =
    let (states, e, at) = collect-get_or (λ i. f (suc i)) n d (λ i l. h (suc i) (omega arith)) in
    elim (Option-cases (f 0)) [
      | inl stuck ↦ absurd (h 0 (omega arith) stuck)
      | inr (s, first) ↦ (
        s ∷ states,
        rw (first, e) refl,
        λ i. elim i as (λ k. k < suc n → f k ≡ some (get_or (s ∷ states) k d)) [
          | zero ↦ λ l. first
          | suc k ↦ λ l. at k (omega arith)
        ],
      )
    ]
