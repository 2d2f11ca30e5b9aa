-- ===== src/Prediction/Engine/Cells.antt =====
-- crates/morsh-prediction/src/prediction.rs: the cells that an insertion and a backspace rewrite. `none`
-- is a panic: a cell past the end of its row, or `num_cols - 1` of no columns.
use morsh.Common.{
  ℕ, zero, suc, ◌+◌, ◌-◌, List, [], ◌∷◌, Bool, true, false, Option, none, some, ltb, ◌==◌,
  if◌then◌else◌, get_elem?, get_or,
}
use morsh.Common.Options.{◌>>=◌, option_map}
use morsh.Prediction.Overlay.{space, ConditionalOverlayCell, reset_with_orig, expire}

-- A cell that may be read as (active, unknown, replacement).
abbrev pub CellState : Type 0
CellState = Bool × Bool × ℕ

abbrev pub no_state : CellState
no_state = (false, false, space)

abbrev pub state_of : ConditionalOverlayCell → CellState
state_of c = (c.active, c.unknown, c.replacement)

-- `&mut row.cells[i]`
abbrev pub modify :
    List ConditionalOverlayCell
    → ℕ
    → (ConditionalOverlayCell → ConditionalOverlayCell)
    → Option (List ConditionalOverlayCell)
modify [] i f = none
modify (c ∷ cs) zero f = some (f c ∷ cs)
modify (c ∷ cs) (suc i) f = option_map (◌∷◌ c) (modify cs i f)

-- `reset_with_orig`, `active`, the epoch and `expire`, as each prediction begins
abbrev pub predicted : ℕ → ℕ → ℕ → ConditionalOverlayCell → ConditionalOverlayCell
predicted epoch frame now c =
    expire (record (reset_with_orig c) { active = true; tentative_until_epoch = epoch }) frame now

abbrev pub predict_char : ℕ → ℕ → ℕ → ℕ → ConditionalOverlayCell → ConditionalOverlayCell
predict_char epoch frame now ch c = record (predicted epoch frame now c) {
  unknown = false;
  replacement = ch;
}

-- A cell of the last row's blank prediction.
abbrev pub blank : ℕ → ℕ → ℕ → ConditionalOverlayCell → ConditionalOverlayCell
blank epoch frame now c =
    record (expire (record c { active = true; tentative_until_epoch = epoch }) frame now) {
      unknown = false;
      replacement = space;
    }

-- `(0..n).map(f).collect()`, where `f` may panic
abbrev pub collect : (ℕ → Option CellState) → ℕ → Option (List CellState)
collect f zero = some []
collect f (suc n) = do s ← f 0; rest ← collect (λ i. f (suc i)) n; some (s ∷ rest)

abbrev pub right_state : List ConditionalOverlayCell → ℕ → ℕ → Option CellState
right_state cells num_cols i =
    if ltb (i + 1) num_cols then option_map state_of (get_elem? cells (i + 1)) else some no_state

abbrev pub left_state : List ConditionalOverlayCell → ℕ → Option CellState
left_state cells zero = some no_state
left_state cells (suc i) = option_map state_of (get_elem? cells i)

-- What a shifted cell takes over from its neighbour, or from the server where nothing is predicted.
abbrev pub take_over : CellState → ℕ → ConditionalOverlayCell → ConditionalOverlayCell
take_over (true, true, ch) server c = record c { unknown = true }
take_over (true, false, ch) server c = record c { unknown = false; replacement = ch }
take_over (false, u, ch) server c = record c { unknown = false; replacement = server }

-- The body of the loop of `predict_backspace`.
abbrev pub shift_left :
    ℕ → ℕ → ℕ → List CellState → (ℕ → ℕ) → ℕ → ℕ → ConditionalOverlayCell → ConditionalOverlayCell
shift_left epoch frame now states server num_cols i c =
    let cell = predicted epoch frame now c in
    if ltb (i + 2) num_cols
    then take_over (get_or states i no_state) (server (i + 1)) cell
    else record cell { unknown = true }

-- The body of the loop of `predict_insert`.
abbrev pub shift_right :
    ℕ → ℕ → ℕ → List CellState → (ℕ → ℕ) → ℕ → ℕ → ConditionalOverlayCell → ConditionalOverlayCell
shift_right epoch frame now states server num_cols i c =
    let cell = predicted epoch frame now c in
    if i == num_cols - 1
    then record cell { unknown = true }
    else take_over (get_or states i no_state) (server (i - 1)) cell

-- `for i in first..first + n`
abbrev pub ascending :
    (ℕ → ConditionalOverlayCell → ConditionalOverlayCell)
    → ℕ
    → ℕ
    → List ConditionalOverlayCell
    → Option (List ConditionalOverlayCell)
ascending body first zero cells = some cells
ascending body first (suc n) cells = do
  cells' ← modify cells first (body first)
  ascending body (suc first) n cells'

-- `for i in (first..first + n).rev()`
abbrev pub descending :
    (ℕ → ConditionalOverlayCell → ConditionalOverlayCell)
    → ℕ
    → ℕ
    → List ConditionalOverlayCell
    → Option (List ConditionalOverlayCell)
descending body first zero cells = some cells
descending body first (suc n) cells = do
  cells' ← modify cells (first + n) (body (first + n))
  descending body first n cells'

-- The cells of the row after a backspace to the column `new_col`.
abbrev pub backspace_cells :
    Bool
    → ℕ
    → ℕ
    → ℕ
    → (ℕ → ℕ)
    → ℕ
    → ℕ
    → List ConditionalOverlayCell
    → Option (List ConditionalOverlayCell)
backspace_cells true epoch frame now server num_cols new_col cells =
    modify cells new_col (predict_char epoch frame now space)
backspace_cells false epoch frame now server num_cols new_col cells = do
  states ← collect (right_state cells num_cols) num_cols
  ascending (shift_left epoch frame now states server num_cols) new_col (num_cols - new_col) cells

-- The last column that an insertion changes.
abbrev pub rightmost : Bool → ℕ → ℕ → Option ℕ
rightmost true cursor_col num_cols = some cursor_col
rightmost false cursor_col zero = none
rightmost false cursor_col (suc n) = some n

-- The cells of the row after an insertion at the column `cursor_col`.
abbrev pub insert_cells :
    Bool
    → ℕ
    → ℕ
    → ℕ
    → (ℕ → ℕ)
    → ℕ
    → ℕ
    → ℕ
    → List ConditionalOverlayCell
    → Option (List ConditionalOverlayCell)
insert_cells overwrite epoch frame now server num_cols cursor_col ch cells = do
  right ← rightmost overwrite cursor_col num_cols
  states ← collect (left_state cells) (right + 1)
  shifted ←
      descending (shift_right epoch frame now states server num_cols) (cursor_col + 1)
        (right - cursor_col) cells
  modify shifted cursor_col (predict_char epoch frame now ch)
