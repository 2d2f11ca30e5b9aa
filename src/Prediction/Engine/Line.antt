-- ===== src/Prediction/Engine/Line.antt =====
-- crates/morsh-prediction/src/prediction.rs: what the predictions make of the line of the cursor,
-- against the editing of a line.
use morsh.Common.{
  ℕ, zero, suc, ◌+◌, ◌-◌, ◌<◌, ◌≡◌, ◌≢◌, refl, sym, ap, Bool, true, false, Option, none, some, ltb,
  ◌==◌, if◌then◌else◌, length, get_elem?, arith, ◌∙◌, dec_lt, lt→ltb, le→ltb,
}
use morsh.Common.Options.{option_map}
use morsh.Prediction.Overlay.{space, ConditionalOverlayCell}
use morsh.Prediction.Engine.Cells.{
  CellState, state_of, predicted, take_over, right_state, left_state,
}
use morsh.Prediction.Engine.Shifts.{Cells, get_elem?-in}
use morsh.Prediction.Engine.Shape.{RowShape}

-- A line as a reader sees it: `none` is a character that is not known.
abbrev pub Line : Type 0
Line = ℕ → Option ℕ

abbrev pub shown_state : CellState → ℕ → Option ℕ
shown_state (true, true, ch) server = none
shown_state (true, false, ch) server = some ch
shown_state (false, u, ch) server = some server

abbrev pub shown_cell : Option ConditionalOverlayCell → ℕ → Option ℕ
shown_cell none server = some server
shown_cell (some c) server = shown_state (state_of c) server

-- What the server put at each column, with the predictions over it.
abbrev pub shown : (ℕ → ℕ) → Cells → Line
shown server cells j = shown_cell (get_elem? cells j) (server j)

-- The line after a character is typed at `col`: in overwrite mode over the one there, otherwise with
-- the characters from there on one to the right, and the last column unknown.
abbrev pub typed : Bool → ℕ → ℕ → ℕ → Line → Line
typed true num_cols col ch line j = if j == col then some ch else line j
typed false num_cols col ch line j =
    if ltb j col
    then line j
    else if j == col
    then some ch
    else if j == num_cols - 1
    then none
    else line (j - 1)

-- The line after the character at `col` is deleted: in overwrite mode blanked, otherwise with the
-- characters after it one to the left, and the last two columns unknown.
abbrev pub deleted : Bool → ℕ → ℕ → Line → Line
deleted true num_cols col line j = if j == col then some space else line j
deleted false num_cols col line j =
    if ltb j col then line j else if ltb (j + 2) num_cols then line (j + 1) else none

-- A row of the shape that shows a line.
pub record Shows (num_cols : ℕ) (server : ℕ → ℕ) (line : Line) (cells : Cells) : Type 0 where
  pub shape : RowShape num_cols cells
  pub reads : (j : ℕ) → j < num_cols → shown server cells j ≡ line j

pub take_over-shown :
    (s : CellState) (server here epoch frame now : ℕ) (c : ConditionalOverlayCell)
    → shown_state (state_of (take_over s server (predicted epoch frame now c))) here
      ≡ shown_state s server
take_over-shown (true, true, ch) server here epoch frame now c = refl
take_over-shown (true, false, ch) server here epoch frame now c = refl
take_over-shown (false, u, ch) server here epoch frame now c = refl

module _ (server : ℕ → ℕ) (cells cells' : Cells) where
  pub same-shown :
      (j : ℕ)
      → get_elem? cells' j ≡ get_elem? cells j
      → shown server cells' j ≡ shown server cells j
  same-shown j e = ap (λ o. shown_cell o (server j)) e

  pub at-shown :
      (j : ℕ) (c : ConditionalOverlayCell)
      → get_elem? cells' j ≡ some c
      → shown server cells' j ≡ shown_state (state_of c) (server j)
  at-shown j c e = ap (λ o. shown_cell o (server j)) e

pub suc-sub : (k : ℕ) → suc k - 1 ≡ k
suc-sub k = omega arith

pub left_state-none : (cells : Cells) (i : ℕ) → i < length cells + 1 → left_state cells i ≢ none
left_state-none cells zero h = λ e. cc
left_state-none cells (suc i) h = λ e. let (c, at) = get_elem?-in cells i (omega arith) in cc

pub right_state-none :
    (cells : Cells) (num_cols i : ℕ) → length cells ≡ num_cols → right_state cells num_cols i ≢ none
right_state-none cells num_cols i h = λ e. elim (dec_lt (i + 1) num_cols) [
  | yes l ↦
      let (c, at) = get_elem?-in cells (i + 1) (omega arith) in
      let t : _ = lt→ltb (i + 1) num_cols l in ground (arith, t, at, e)
  | no l ↦ let t : _ = le→ltb (i + 1) num_cols (omega arith) in ground (arith, t, e)
]

module _ (epoch frame now : ℕ) (server : ℕ → ℕ) where
  -- A cell that takes over what its neighbour showed.
  pub neighbour-shown :
      (cells : Cells) (s : CellState) (k here : ℕ) (c : ConditionalOverlayCell)
      → k < length cells
      → option_map state_of (get_elem? cells k) ≡ some s
      → shown_state (state_of (take_over s (server k) (predicted epoch frame now c))) here
        ≡ shown server cells k
  neighbour-shown cells s k here c h e =
      let (d, at) = get_elem?-in cells k h in
      let same : state_of d ≡ s = ground (arith, at, e) in
      take_over-shown s (server k) here epoch frame now c ∙ (rw (sym same, at) refl)
