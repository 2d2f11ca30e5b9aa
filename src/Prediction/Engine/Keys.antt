-- ===== src/Prediction/Engine/Keys.antt =====
-- crates/morsh-prediction/src/prediction.rs: `new_user_byte` and the predictions it makes. `none` is a
-- panic of the cells.
use morsh.Common.{
  ℕ, zero, suc, ◌+◌, ◌-◌, List, [], ◌∷◌, Bool, not, ◌&&◌, ◌||◌, Option, none, some, ltb, leb, ◌==◌,
  if◌then◌else◌,
}
use morsh.Common.Options.{◌>>=◌}
use morsh.Prediction.Overlay.{
  space, ConditionalOverlayCell, ConditionalCursorMove, Overlay, get_or_make_row, put_row,
  map_cells,
}
use morsh.Prediction.Engine.{
  PredictionEngine, InputState, ground_state, escape, csi, ss3, next64, become_tentative,
  unknown_input, init_cursor, reset, is_never, cull,
}
use morsh.Prediction.Engine.Cells.{blank, backspace_cells, insert_cells}

abbrev pub map_last :
    (ConditionalCursorMove → ConditionalCursorMove)
    → List ConditionalCursorMove
    → List ConditionalCursorMove
map_last f [] = []
map_last f (c ∷ []) = f c ∷ []
map_last f (c ∷ d ∷ cs) = c ∷ map_last f (d ∷ cs)

-- The cursor of a key `C` or `D`, where there is one.
abbrev pub arrow : ℕ → ℕ → ℕ → Option (ConditionalCursorMove → ConditionalCursorMove)
arrow final_byte num_cols frame =
    if final_byte == 67
    then some (λ c.
      if ltb (c.col + 1) num_cols
      then record c { col = c.col + 1; expiration_frame = frame }
      else c)
    else if final_byte == 68
    then some
        (λ c. if ltb 0 c.col then record c { col = c.col - 1; expiration_frame = frame } else c)
    else none

abbrev pub arrow_key :
    PredictionEngine
    → Option (ConditionalCursorMove → ConditionalCursorMove)
    → List ConditionalCursorMove
    → PredictionEngine
arrow_key e none cs = unknown_input e
arrow_key e (some f) [] = unknown_input e
arrow_key e (some f) (c ∷ cs) = record e { cursors = map_last f (c ∷ cs) }

abbrev pub predict_cursor_key : PredictionEngine → ℕ → ℕ → PredictionEngine
predict_cursor_key e final_byte num_cols =
    arrow_key e (arrow final_byte num_cols (next64 e.local_frame_sent)) e.cursors

abbrev pub blank_row : PredictionEngine → ℕ → ℕ → ℕ → Overlay
blank_row e cursor_row num_cols now =
    let frame = next64 e.local_frame_sent in
    let epoch = e.prediction_epoch in
    let (row, o) = get_or_make_row e.overlay cursor_row num_cols epoch now in
    put_row o (record row { cells = map_cells (blank epoch frame now) row.cells })

-- The cursor of `newline_carriage_return`.
abbrev pub return_cursor : ℕ → ℕ → ConditionalCursorMove → ConditionalCursorMove
return_cursor frame num_rows c = record c {
  col = 0;
  row = if ltb (c.row + 1) num_rows then c.row + 1 else c.row;
  expiration_frame = frame;
}

abbrev pub newline_carriage_return : PredictionEngine → ℕ → ℕ → ℕ → ℕ → PredictionEngine
newline_carriage_return e cursor_row num_cols num_rows now = record e {
  cursors = map_last (return_cursor (next64 e.local_frame_sent) num_rows) e.cursors;
  overlay =
      if leb num_rows (cursor_row + 1) then blank_row e cursor_row num_cols now else e.overlay;
}

-- The cursor of an insertion or a backspace.
abbrev pub to_column : ℕ → ℕ → ConditionalCursorMove → ConditionalCursorMove
to_column col frame c = record c { col = col; expiration_frame = frame }

-- The overlay with a row rewritten, made first where it is missing.
abbrev pub rewrite_row :
    PredictionEngine
    → ℕ
    → ℕ
    → ℕ
    → (List ConditionalOverlayCell → Option (List ConditionalOverlayCell))
    → Option Overlay
rewrite_row e cursor_row num_cols now f = do
  let (row, o) = get_or_make_row e.overlay cursor_row num_cols e.prediction_epoch now
  cells ← f row.cells
  some (put_row o (record row { cells = cells }))

abbrev pub predict_backspace :
    PredictionEngine → ℕ → ℕ → ℕ → (ℕ → ℕ → ℕ) → ℕ → Option PredictionEngine
predict_backspace e cursor_row zero num_cols cell_at now = some e
predict_backspace e cursor_row (suc new_col) num_cols cell_at now = do
  let frame = next64 e.local_frame_sent
  overlay ← rewrite_row e cursor_row num_cols now (
      backspace_cells e.predict_overwrite e.prediction_epoch frame now (cell_at cursor_row) num_cols
        new_col)
  some (record e { overlay = overlay; cursors = map_last (to_column new_col frame) e.cursors })

abbrev pub predict_insert :
    PredictionEngine → ℕ → ℕ → ℕ → ℕ → ℕ → (ℕ → ℕ → ℕ) → ℕ → Option PredictionEngine
predict_insert e ch cursor_row cursor_col num_cols num_rows cell_at now = do
  let e₁ = if leb num_cols (cursor_col + 1) then become_tentative e else e
  let frame = next64 e₁.local_frame_sent
  overlay ← rewrite_row e₁ cursor_row num_cols now (
      insert_cells e₁.predict_overwrite e₁.prediction_epoch frame now (cell_at cursor_row) num_cols
        cursor_col ch)
  let e₂ = record e₁ { overlay = overlay }
  some (
      if ltb (cursor_col + 1) num_cols
      then record e₂ { cursors = map_last (to_column (cursor_col + 1) frame) e₂.cursors }
      else newline_carriage_return (become_tentative e₂) cursor_row num_cols num_rows now)

-- Not printable: `is_control`, or neither `is_ascii_graphic` nor a space. Every control character
-- is outside the second range.
abbrev pub is_control : ℕ → Bool
is_control ch = ltb ch 32 || leb 127 ch && ltb ch 160

abbrev pub is_ascii_graphic : ℕ → Bool
is_ascii_graphic ch = leb 33 ch && leb ch 126

-- A character outside an escape sequence.
abbrev pub ground_byte :
    PredictionEngine → ℕ → ℕ → ℕ → ℕ → ℕ → (ℕ → ℕ → ℕ) → ℕ → Option PredictionEngine
ground_byte e ch cursor_row cursor_col num_cols num_rows cell_at now =
    if ch == 27
    then some (record e { input_state = escape })
    else if ch == 127
    then predict_backspace e cursor_row cursor_col num_cols cell_at now
    else if is_control ch || not (is_ascii_graphic ch) && not (ch == space)
    then some (unknown_input e)
    else predict_insert e ch cursor_row cursor_col num_cols num_rows cell_at now

-- The second character of an escape sequence.
abbrev pub escape_byte : PredictionEngine → ℕ → PredictionEngine
escape_byte e ch =
    if ch == 91
    then record e { input_state = csi }
    else if ch == 79
    then record e { input_state = ss3 }
    else record (unknown_input e) { input_state = ground_state }

abbrev pub is_final : ℕ → Bool
is_final ch = leb 64 ch && leb ch 126

-- The `match` on the state of the input, and what follows it.
abbrev pub input_byte :
    InputState → PredictionEngine → ℕ → ℕ → ℕ → ℕ → ℕ → (ℕ → ℕ → ℕ) → ℕ → Option PredictionEngine
input_byte ground_state e ch cursor_row cursor_col num_cols num_rows cell_at now =
    ground_byte e ch cursor_row cursor_col num_cols num_rows cell_at now
input_byte escape e ch cursor_row cursor_col num_cols num_rows cell_at now = some (escape_byte e ch)
input_byte csi e ch cursor_row cursor_col num_cols num_rows cell_at now = some (
    if is_final ch
    then predict_cursor_key (record e { input_state = ground_state }) ch num_cols
    else e)
input_byte ss3 e ch cursor_row cursor_col num_cols num_rows cell_at now =
    some (predict_cursor_key (record e { input_state = ground_state }) ch num_cols)

-- A change of the size of the terminal drops the predictions.
abbrev pub resized : PredictionEngine → ℕ → ℕ → PredictionEngine
resized e num_cols num_rows =
    if not (e.last_height == num_rows) || not (e.last_width == num_cols)
    then reset (record e { last_height = num_rows; last_width = num_cols })
    else e

abbrev pub new_user_byte :
    PredictionEngine → ℕ → ℕ → ℕ → ℕ → ℕ → (ℕ → ℕ → ℕ) → ℕ → Option PredictionEngine
new_user_byte e ch cursor_row cursor_col num_cols num_rows cell_at now =
    if is_never e.display_preference
    then some e
    else let e₁ = init_cursor (cull (resized e num_cols num_rows) num_rows) cursor_row cursor_col in
      input_byte e₁.input_state e₁ ch cursor_row cursor_col num_cols num_rows cell_at now
