-- ===== src/Prediction/Overlay.antt =====
-- crates/morsh-prediction/src/overlay.rs. A character is its code point, an `Instant` a number of
-- nanoseconds. The map of rows is the list of its rows in the order of their numbers, the order in
-- which `rows` and `rows_mut` read it.
use morsh.Common.{
  ℕ, zero, suc, ◌-◌, ◌^◌, List, [], ◌∷◌, ◌++◌, Bool, false, not, ◌&&◌, ◌||◌, Option, none, some,
  ltb, leb, ◌==◌, if◌then◌else◌, unwrap_or,
}

-- `u64::MAX`
abbrev pub u64_max : ℕ
u64_max = 2 ^ 64 - 1

-- ' '
abbrev pub space : ℕ
space = 32

pub data Validity : Type 0 where
  pending : Validity
  correct : Validity
  correct_no_credit : Validity
  incorrect_or_expired : Validity
  inactive : Validity

pub record ConditionalOverlayCell : Type 0 where
  pub expiration_frame : ℕ
  pub col : ℕ
  pub active : Bool
  pub tentative_until_epoch : ℕ
  pub prediction_time : ℕ
  pub replacement : ℕ
  pub unknown : Bool
  pub original_contents : List ℕ

-- `ConditionalOverlayCell::new`, at the time `now`
abbrev pub new_cell : ℕ → ℕ → ℕ → ConditionalOverlayCell
new_cell col epoch now = record {
  expiration_frame = 0;
  col = col;
  active = false;
  tentative_until_epoch = epoch;
  prediction_time = now;
  replacement = space;
  unknown = false;
  original_contents = [];
}

abbrev pub cell_is_tentative : ConditionalOverlayCell → ℕ → Bool
cell_is_tentative c confirmed_epoch = ltb confirmed_epoch c.tentative_until_epoch

abbrev pub reset_cell : ConditionalOverlayCell → ConditionalOverlayCell
reset_cell c = record c {
  active = false;
  expiration_frame = u64_max;
  tentative_until_epoch = u64_max;
  unknown = false;
  original_contents = [];
}

abbrev pub reset_with_orig : ConditionalOverlayCell → ConditionalOverlayCell
reset_with_orig c = if not c.active || c.unknown then reset_cell c else record c {
  original_contents = c.original_contents ++ c.replacement ∷ [];
  active = false;
  expiration_frame = u64_max;
  tentative_until_epoch = u64_max;
}

abbrev pub expire : ConditionalOverlayCell → ℕ → ℕ → ConditionalOverlayCell
expire c frame time = record c { expiration_frame = frame; prediction_time = time }

abbrev pub contains : List ℕ → ℕ → Bool
contains [] a = false
contains (b ∷ bs) a = (b == a) || contains bs a

-- `get_validity` of a cell; the early acknowledgment is not read
abbrev pub cell_validity : ConditionalOverlayCell → ℕ → ℕ → ℕ → ℕ → Validity
cell_validity c actual row_height col_width late_ack =
    if not c.active
    then inactive
    else if (row_height == 0) || leb col_width c.col
    then incorrect_or_expired
    else if ltb late_ack c.expiration_frame
    then pending
    else if c.unknown
    then correct_no_credit
    else if (c.replacement == space) && (actual == space)
    then correct_no_credit
    else if actual == c.replacement
    then (if contains c.original_contents actual then correct_no_credit else correct)
    else incorrect_or_expired

pub record ConditionalCursorMove : Type 0 where
  pub expiration_frame : ℕ
  pub row : ℕ
  pub col : ℕ
  pub active : Bool
  pub tentative_until_epoch : ℕ

-- `ConditionalCursorMove::new`
abbrev pub new_cursor : ℕ → ℕ → ℕ → ConditionalCursorMove
new_cursor row col epoch = record {
  expiration_frame = 0;
  row = row;
  col = col;
  active = false;
  tentative_until_epoch = epoch;
}

abbrev pub cursor_is_tentative : ConditionalCursorMove → ℕ → Bool
cursor_is_tentative c confirmed_epoch = ltb confirmed_epoch c.tentative_until_epoch

-- `get_validity` of a cursor
abbrev pub cursor_validity : ConditionalCursorMove → ℕ → ℕ → ℕ → ℕ → ℕ → Validity
cursor_validity c actual_row actual_col row_height col_width late_ack =
    if not c.active
    then inactive
    else if leb row_height c.row || leb col_width c.col
    then incorrect_or_expired
    else if leb c.expiration_frame late_ack
    then (if (actual_row == c.row) && (actual_col == c.col) then correct else incorrect_or_expired)
    else pending

pub record OverlayRow : Type 0 where
  pub row_num : ℕ
  pub cells : List ConditionalOverlayCell

-- The cells of the columns from `col`, `n` of them.
abbrev pub new_cells : ℕ → ℕ → ℕ → ℕ → List ConditionalOverlayCell
new_cells zero col epoch now = []
new_cells (suc n) col epoch now = new_cell col epoch now ∷ new_cells n (suc col) epoch now

-- `OverlayRow::new`
abbrev pub new_row : ℕ → ℕ → ℕ → ℕ → OverlayRow
new_row row_num num_cols epoch now = record {
  row_num = row_num;
  cells = new_cells num_cols 0 epoch now;
}

pub record Overlay : Type 0 where
  pub rows : List OverlayRow

abbrev pub new_overlay : Overlay
new_overlay = record { rows = [] }

-- `HashMap::get` and `HashMap::insert`
abbrev pub find_row : List OverlayRow → ℕ → Option OverlayRow
find_row [] n = none
find_row (r ∷ rs) n = if r.row_num == n then some r else find_row rs n

abbrev pub insert_row : List OverlayRow → OverlayRow → List OverlayRow
insert_row [] r = r ∷ []
insert_row (x ∷ xs) r =
    if x.row_num == r.row_num
    then r ∷ xs
    else if ltb r.row_num x.row_num
    then r ∷ x ∷ xs
    else x ∷ insert_row xs r

abbrev pub get_row : Overlay → ℕ → Option OverlayRow
get_row o row_num = find_row o.rows row_num

-- What a write through a reference to a row leaves.
abbrev pub put_row : Overlay → OverlayRow → Overlay
put_row o r = record { rows = insert_row o.rows r }

-- The row and the overlay that holds it.
abbrev pub get_or_make_row : Overlay → ℕ → ℕ → ℕ → ℕ → OverlayRow × Overlay
get_or_make_row o row_num num_cols epoch now =
    let row = unwrap_or (get_row o row_num) (new_row row_num num_cols epoch now) in
    (row, put_row o row)

abbrev pub retain_below : ℕ → List OverlayRow → List OverlayRow
retain_below max_row [] = []
retain_below max_row (r ∷ rs) =
    let rest = retain_below max_row rs in if ltb r.row_num max_row then r ∷ rest else rest

abbrev pub prune : Overlay → ℕ → Overlay
prune o max_row = record { rows = retain_below max_row o.rows }

abbrev pub any_active : List ConditionalOverlayCell → Bool
any_active [] = false
any_active (c ∷ cs) = c.active || any_active cs

-- `rows().any(|r| r.cells.iter().any(|c| c.active))`
abbrev pub rows_active : List OverlayRow → Bool
rows_active [] = false
rows_active (r ∷ rs) = any_active r.cells || rows_active rs

-- `rows.is_empty()`, or no cell of them is active
abbrev pub is_empty : Overlay → Bool
is_empty o = not (rows_active o.rows)

abbrev pub map_cells :
    (ConditionalOverlayCell → ConditionalOverlayCell)
    → List ConditionalOverlayCell
    → List ConditionalOverlayCell
map_cells f [] = []
map_cells f (c ∷ cs) = f c ∷ map_cells f cs

abbrev pub map_rows :
    (ConditionalOverlayCell → ConditionalOverlayCell) → List OverlayRow → List OverlayRow
map_rows f [] = []
map_rows f (r ∷ rs) = record r { cells = map_cells f r.cells } ∷ map_rows f rs

abbrev pub kill_epoch : Overlay → ℕ → Overlay
kill_epoch o epoch = record {
  rows =
      map_rows (λ c. if c.active && leb c.tentative_until_epoch epoch then reset_cell c else c)
        o.rows;
}

abbrev pub reset_all : Overlay → Overlay
reset_all o = record { rows = map_rows reset_cell o.rows }
