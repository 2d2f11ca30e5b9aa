-- ===== src/Client/Frame.antt =====
-- crates/morsh-client/src/frame.rs: the predictions folded into a frame.
pub mod Painted
use morsh.Common.{
  ℕ, ◌+◌, ◌%◌, List, [], ◌∷◌, Option, none, some, Bool, true, false, not, ◌&&◌, ◌||◌, ltb, leb,
  if◌then◌else◌,
}
use morsh.Prediction.Overlay.{ConditionalOverlayCell, OverlayRow, cell_is_tentative}
use morsh.Prediction.Engine.{PredictionEngine, should_display, display_cursor}
use morsh.Terminal.Snapshot.{CellData, ScreenSnapshot, update_cell}

-- `as u16`
abbrev pub as_u16 : ℕ → ℕ
as_u16 n = n % 65536

-- Inactive, tentative or in the last column: the loop goes on to the next cell.
abbrev pub skips : PredictionEngine → ℕ → ConditionalOverlayCell → Bool
skips p cols c = not c.active || cell_is_tentative c p.confirmed_epoch || leb cols (c.col + 1)

abbrev pub underlined : CellData → CellData
underlined d = record d { style = record d.style { underline = true } }

abbrev pub painted : PredictionEngine → ConditionalOverlayCell → CellData → CellData
painted p c d =
    let flagged = p.flagging && ltb p.local_frame_late_acked c.expiration_frame in
    let d' =
      if c.unknown
      then d
      else record d { text = c.replacement ∷ []; wide = false; spacer = false } in
    if flagged then underlined d' else d'

abbrev pub paint_cell :
    PredictionEngine → ℕ → ConditionalOverlayCell → ScreenSnapshot → ScreenSnapshot
paint_cell p row_num c frame =
    if skips p frame.cols c
    then frame
    else update_cell frame (as_u16 c.col) (as_u16 row_num) (painted p c)

abbrev pub paint_cells :
    PredictionEngine → ℕ → List ConditionalOverlayCell → ScreenSnapshot → ScreenSnapshot
paint_cells p row_num [] frame = frame
paint_cells p row_num (c ∷ cs) frame = paint_cells p row_num cs (paint_cell p row_num c frame)

abbrev pub paint_row : PredictionEngine → OverlayRow → ScreenSnapshot → ScreenSnapshot
paint_row p r frame =
    if leb frame.rows_count r.row_num then frame else paint_cells p r.row_num r.cells frame

abbrev pub paint_rows : PredictionEngine → List OverlayRow → ScreenSnapshot → ScreenSnapshot
paint_rows p [] frame = frame
paint_rows p (r ∷ rs) frame = paint_rows p rs (paint_row p r frame)

-- The predicted cursor, where there is one on the screen.
abbrev pub place_cursor : Option (ℕ × ℕ) → ScreenSnapshot → ScreenSnapshot
place_cursor none frame = frame
place_cursor (some (row, col)) frame =
    if ltb row frame.rows_count && ltb col frame.cols
    then record frame { cursor_y = as_u16 row; cursor_x = as_u16 col }
    else frame

abbrev pub apply_overlay : ScreenSnapshot → PredictionEngine → ScreenSnapshot
apply_overlay frame p =
    if not (should_display p)
    then frame
    else place_cursor (display_cursor p) (paint_rows p p.overlay.rows frame)
