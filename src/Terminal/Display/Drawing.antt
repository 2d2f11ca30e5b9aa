-- ===== src/Terminal/Display/Drawing.antt =====
-- crates/morsh-terminal/src/display.rs: the styles, the whole redraw and the diff of two screens.
use morsh.Common.{
  ℕ, zero, suc, ◌+◌, ◌-◌, List, [], ◌∷◌, ◌++◌, Bool, true, false, not, ◌&&◌, ◌||◌, Option, none,
  some, ◌==◌, if◌then◌else◌, get_elem?, take, list_eq, option_eq,
}
use morsh.Terminal.Snapshot.{
  StyleColor, default, rgb, palette, CellStyle, default_style, CellData, ScreenSnapshot,
}
use morsh.Terminal.Equality.{bool_eq, style_eq, cell_eq, row_eq}
use morsh.Terminal.Display.{
  decimal, csi, mode, state_changes, Scroll, row_at, detect_scroll, move_to, reset_style,
  emit_scroll, shift_rows,
}

-- The parameters of a colour, after 38 for the foreground or 48 for the background.
abbrev pub colour_params : ℕ → StyleColor → List ℕ
colour_params which default = []
colour_params which (rgb c) = which ∷ 2 ∷ c.r ∷ c.g ∷ c.b ∷ []
colour_params which (palette i) = which ∷ 5 ∷ i ∷ []

abbrev pub param_if : Bool → ℕ → List ℕ
param_if b n = if b then n ∷ [] else []

abbrev pub params_of : CellStyle → List ℕ
params_of s =
    param_if s.bold 1
    ++ param_if s.faint 2
    ++ param_if s.italic 3
    ++ param_if s.underline 4
    ++ param_if s.blink 5
    ++ param_if s.inverse 7
    ++ param_if s.invisible 8
    ++ param_if s.strikethrough 9
    ++ param_if s.overline 53
    ++ colour_params 38 s.fg
    ++ colour_params 48 s.bg

-- `join(";")`
abbrev pub joined : List ℕ → List ℕ
joined [] = []
joined (p ∷ []) = decimal p
joined (p ∷ q ∷ ps) = decimal p ++ 59 ∷ joined (q ∷ ps)

abbrev pub sgr_of : List ℕ → List ℕ
sgr_of [] = []
sgr_of (p ∷ ps) = csi ++ joined (p ∷ ps) ++ 109 ∷ []

abbrev pub style_on : CellStyle → List ℕ
style_on s = sgr_of (params_of s)

-- Reset, and the style if it is not the default.
abbrev pub set_style : CellStyle → List ℕ
set_style s = reset_style ++ (if style_eq s default_style then [] else style_on s)

abbrev pub text_or_space : List ℕ → List ℕ
text_or_space [] = 32 ∷ []
text_or_space (c ∷ cs) = c ∷ cs

-- What is written for a cell: its style, if it is not the last one, and its text.
abbrev pub draw_cell : CellStyle → CellData → List ℕ
draw_cell last c = (if style_eq c.style last then [] else set_style c.style) ++ text_or_space c.text

-- The loop over a row of `full_redraw`. A wide cell covers the next.
abbrev pub draw_cells : CellStyle → List CellData → List ℕ
draw_cells last [] = if style_eq last default_style then [] else reset_style
draw_cells last (c ∷ []) = draw_cell last c ++ draw_cells c.style []
draw_cells last (c ∷ d ∷ ds) =
    draw_cell last c
    ++ elim c.wide [ false ↦ draw_cells c.style (d ∷ ds) | true ↦ draw_cells c.style ds ]

abbrev pub draw_rows : ℕ → List (List CellData) → List ℕ
draw_rows y [] = []
draw_rows y (row ∷ rows) =
    move_to (y + 1) 1 ++ draw_cells default_style row ++ draw_rows (suc y) rows

-- ESC [ ? 25 l and ESC [ ? 25 h
abbrev pub cursor_mode : Bool → List ℕ
cursor_mode on = mode 25 on

-- The cursor hidden; ESC [ r, ESC [ 0 m, ESC [ H and ESC [ 2 J; the modes, the rows and the cursor.
abbrev pub full_redraw : ScreenSnapshot → List ℕ
full_redraw snap =
    cursor_mode false
    ++ (csi ++ 114 ∷ [])
    ++ reset_style
    ++ (csi ++ 72 ∷ [])
    ++ (csi ++ 50 ∷ 74 ∷ [])
    ++ state_changes none snap
    ++ draw_rows 0 snap.rows
    ++ move_to (snap.cursor_y + 1) (snap.cursor_x + 1)
    ++ (if snap.cursor_visible then cursor_mode true else [])

-- Where the cursor of the terminal is known to be.
abbrev pub at_position : Option (ℕ × ℕ) → ℕ → ℕ → Bool
at_position none y x = false
at_position (some p) y x = (p.0 == y) && (p.1 == x)

abbrev pub after_style : CellStyle → CellData → ℕ → ℕ → Option (ℕ × ℕ) → Option (ℕ × ℕ)
after_style pen c y x pos = if style_eq pen c.style then pos else some (y + 1, x + 1)

-- What the loop of `diff` writes at the column `x` of the row `y`.
abbrev pub diff_cell : CellStyle → CellData → Option CellData → ℕ → ℕ → Option (ℕ × ℕ) → List ℕ
diff_cell pen c old y x pos =
    (if style_eq pen c.style then [] else move_to (y + 1) (x + 1) ++ set_style c.style)
    ++ (if option_eq cell_eq old (some c)
        then []
        else (if at_position (after_style pen c y x pos) (y + 1) (x + 1)
            then []
            else move_to (y + 1) (x + 1))
          ++ text_or_space c.text)

-- Where the cursor is after that: past a cell that was written, otherwise not tracked.
abbrev pub next_position : CellData → Option CellData → ℕ → ℕ → Option (ℕ × ℕ)
next_position c old y x =
    if option_eq cell_eq old (some c) then none else some (y + 1, x + 1 + (if c.wide then 2 else 1))

-- The loop over the cells of a row from the column `x` on; after a wide cell the next is passed over,
-- and the pen is its style.
abbrev pub diff_cells : List CellData → ℕ → ℕ → CellStyle → Option (ℕ × ℕ) → List CellData → List ℕ
diff_cells old y x pen pos [] = []
diff_cells old y x pen pos (c ∷ []) = diff_cell pen c (get_elem? old x) y x pos
diff_cells old y x pen pos (c ∷ d ∷ ds) =
    let pos' = next_position c (get_elem? old x) y x in
    diff_cell pen c (get_elem? old x) y x pos ++ elim c.wide [
      | false ↦ diff_cells old y (suc x) c.style pos' (d ∷ ds)
      | true ↦ diff_cells old y (suc (suc x)) d.style pos' ds
    ]

abbrev pub diff_row : List CellData → List CellData → ℕ → ℕ → List ℕ
diff_row old new cols y =
    if row_eq old new
    then []
    else reset_style ++ diff_cells old y 0 default_style none (take cols new)

-- The rows `y..y + n`
abbrev pub diff_rows : List (List CellData) → List (List CellData) → ℕ → ℕ → ℕ → List ℕ
diff_rows old new cols y zero = []
diff_rows old new cols y (suc n) =
    diff_row (row_at old y) (row_at new y) cols y ++ diff_rows old new cols (suc y) n

-- The sequences of a scroll, and the rows that differ after it.
abbrev pub diff_scrolled : Option Scroll → ScreenSnapshot → ScreenSnapshot → List ℕ
diff_scrolled none old new = diff_rows old.rows new.rows new.cols 0 new.rows_count
diff_scrolled (some scroll) old new =
    emit_scroll scroll new old.cursor_y
    ++ diff_rows (shift_rows old.rows scroll new) new.rows new.cols scroll.height
        (new.rows_count - scroll.height)

-- The cursor at the end: moved if anything was written or it moved, shown or hidden if that changed.
abbrev pub diff_cursor : ScreenSnapshot → ScreenSnapshot → List ℕ → List ℕ
diff_cursor old new out =
    let moved = not (old.cursor_y == new.cursor_y) || not (old.cursor_x == new.cursor_x) in
    out
    ++ (if not (list_eq ◌==◌ out []) || moved
        then move_to (new.cursor_y + 1) (new.cursor_x + 1)
        else [])
    ++ (if bool_eq old.cursor_visible new.cursor_visible
        then []
        else cursor_mode new.cursor_visible)

abbrev pub diff : ScreenSnapshot → ScreenSnapshot → List ℕ
diff old new =
    if not (old.cols == new.cols) || not (old.rows_count == new.rows_count)
    then full_redraw new
    else diff_cursor old new
        (state_changes (some old) new ++ diff_scrolled (detect_scroll old.rows new) old new)
