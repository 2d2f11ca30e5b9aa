-- ===== src/Terminal/Display.antt =====
-- crates/morsh-terminal/src/display.rs: the escape sequences that turn one screen into another. A text
-- is its characters. The rows of a snapshot are as many and as long as it says; where an index past
-- them would panic, an empty row is read.
pub mod Drawing
pub mod Scrolling
pub mod Idle
use morsh.Common.{
  ℕ, zero, suc, ◌+◌, ◌-◌, ◌/◌, ◌%◌, List, [], ◌∷◌, ◌++◌, Bool, true, false, not, ◌&&◌, ◌||◌, Option,
  none, some, ltb, leb, ◌==◌, if◌then◌else◌, length, get_or, set, replicate, list_eq, option_eq,
}
use morsh.Common.Options.{option_map}
use morsh.Terminal.Snapshot.{
  CellData, empty_cell, MouseReporting, reporting_number, MouseEncoding, encoding_number,
  ScreenSnapshot,
}
use morsh.Terminal.Equality.{bool_eq, row_eq}

-- The decimal digits of a number, at most `n + 1` of them.
abbrev pub digits : ℕ → ℕ → List ℕ
digits zero k = (48 + k % 10) ∷ []
digits (suc n) k = elim (ltb k 10) [
  | true ↦ (48 + k) ∷ []
  | false ↦ digits n (k / 10) ++ ((48 + k % 10) ∷ [])
]

-- A number below 2^64 has at most 20 digits.
abbrev pub decimal : ℕ → List ℕ
decimal k = digits 19 k

-- ESC [
abbrev pub csi : List ℕ
csi = 27 ∷ 91 ∷ []

abbrev pub mode : ℕ → Bool → List ℕ
mode number on = csi ++ 63 ∷ decimal number ++ (if on then 104 else 108) ∷ []

-- ESC ] 0 ; and a BEL at the end
abbrev pub set_title : List ℕ → List ℕ
set_title text = 27 ∷ 93 ∷ 48 ∷ 59 ∷ text ++ 7 ∷ []

-- `old.map(f) != Some(f(new))`
abbrev pub changed {ℓ} :
    {A : Type ℓ}
    → (A → A → Bool)
    → (ScreenSnapshot → A)
    → Option ScreenSnapshot
    → ScreenSnapshot
    → Bool
changed eq f old new = not (option_eq eq (option_map f old) (some (f new)))

abbrev pub title_change : Option ScreenSnapshot → ScreenSnapshot → List ℕ
title_change none new = if list_eq ◌==◌ new.title [] then [] else set_title new.title
title_change (some o) new = if list_eq ◌==◌ o.title new.title then [] else set_title new.title

-- The number of a mode that is written where it is not the new one.
abbrev pub turned_off : ℕ → List ℕ → List ℕ
turned_off now [] = []
turned_off now (m ∷ ms) =
    let rest = turned_off now ms in if m == now then rest else mode m false ++ rest

-- The other modes off, and the new one on, if it is one.
abbrev pub switched : ℕ → List ℕ → List ℕ
switched now all = turned_off now all ++ (if now == 0 then [] else mode now true)

abbrev pub reporting_eq : MouseReporting → MouseReporting → Bool
reporting_eq a b = reporting_number a == reporting_number b

abbrev pub encoding_eq : MouseEncoding → MouseEncoding → Bool
encoding_eq a b = encoding_number a == encoding_number b

abbrev pub state_changes : Option ScreenSnapshot → ScreenSnapshot → List ℕ
state_changes old new =
    title_change old new
    ++ (if changed bool_eq (λ s. s.bracketed_paste) old new
        then mode 2004 new.bracketed_paste
        else [])
    ++ (if changed bool_eq (λ s. s.mouse_focus_event) old new
        then mode 1004 new.mouse_focus_event
        else [])
    ++ (if changed bool_eq (λ s. s.mouse_alternate_scroll) old new
        then mode 1007 new.mouse_alternate_scroll
        else [])
    ++ (if changed reporting_eq (λ s. s.mouse_reporting) old new
        then switched (reporting_number new.mouse_reporting) (9 ∷ 1000 ∷ 1002 ∷ 1003 ∷ [])
        else [])
    ++ (if changed encoding_eq (λ s. s.mouse_encoding) old new
        then switched (encoding_number new.mouse_encoding) (1005 ∷ 1006 ∷ 1015 ∷ [])
        else [])

pub record Scroll : Type 0 where
  pub lines : ℕ
  pub height : ℕ

abbrev pub row_at : List (List CellData) → ℕ → List CellData
row_at rows i = get_or rows i []

-- The first of the `n` rows from `i` on that is the given one.
abbrev pub first_match : List CellData → List (List CellData) → ℕ → ℕ → Option ℕ
first_match top old i zero = none
first_match top old i (suc n) = elim (row_eq top (row_at old i)) [
  | true ↦ some i
  | false ↦ first_match top old (suc i) n
]

-- How many rows from `r` on go on matching, of `n` that are left.
abbrev pub region : List (List CellData) → List (List CellData) → ℕ → ℕ → ℕ → ℕ
region old new lines r zero = r
region old new lines r (suc n) = elim (row_eq (row_at new r) (row_at old (lines + r))) [
  | true ↦ region old new lines (suc r) n
  | false ↦ r
]

abbrev pub scroll_by : List (List CellData) → List (List CellData) → ℕ → Option ℕ → Option Scroll
scroll_by old new height none = none
scroll_by old new height (some zero) = none
scroll_by old new height (some (suc l)) =
    some (record { lines = suc l; height = region old new (suc l) 1 (height - (suc l + 1)) })

abbrev pub detect_scroll : List (List CellData) → ScreenSnapshot → Option Scroll
detect_scroll old new =
    if (new.rows_count == 0) || ltb (length old) new.rows_count
    then none
    else scroll_by old new.rows new.rows_count
        (first_match (row_at new.rows 0) old 0 new.rows_count)

-- The line feeds of a scroll.
abbrev pub line_feeds : ℕ → List ℕ
line_feeds n = replicate n 10

-- ESC [ y ; x H
abbrev pub move_to : ℕ → ℕ → List ℕ
move_to y x = csi ++ decimal y ++ 59 ∷ decimal x ++ 72 ∷ []

-- ESC [ 0 m
abbrev pub reset_style : List ℕ
reset_style = csi ++ 48 ∷ 109 ∷ []

abbrev pub emit_scroll : Scroll → ScreenSnapshot → ℕ → List ℕ
emit_scroll scroll new old_cursor_y =
    let bottom = scroll.lines + scroll.height - 1 in
    reset_style
    ++ (if (bottom + 1 == new.rows_count) && (old_cursor_y + 1 == new.rows_count)
        then 13 ∷ line_feeds scroll.lines
        else csi
          ++ 49 ∷ 59 ∷ decimal (bottom + 1)
          ++ 114 ∷ move_to (bottom + 1) 1
          ++ line_feeds scroll.lines
          ++ csi
          ++ 114 ∷ [])

-- The loop over the rows `i..i + n`, which looks ahead by the lines of the scroll.
abbrev pub shift_from : ℕ → ℕ → List CellData → ℕ → ℕ → List (List CellData) → List (List CellData)
shift_from lines bottom blank i zero rows = rows
shift_from lines bottom blank i (suc n) rows =
    let row = if leb (i + lines) bottom then row_at rows (i + lines) else blank in
    shift_from lines bottom blank (suc i) n (set rows i row)

abbrev pub shift_rows : List (List CellData) → Scroll → ScreenSnapshot → List (List CellData)
shift_rows old scroll new =
    let bottom = scroll.lines + scroll.height - 1 in
    shift_from scroll.lines bottom (replicate new.cols empty_cell) 0 (bottom + 1) old
