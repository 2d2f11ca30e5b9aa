-- ===== src/Prediction/Engine/Validate.antt =====
-- crates/morsh-prediction/src/prediction.rs: `validate_predictions`, against a new state of the
-- server.
use morsh.Common.{
  ℕ, ◌-◌, ◌*◌, List, [], ◌∷◌, Bool, true, false, ◌&&◌, ◌||◌, Option, none, some, ltb, leb,
  if◌then◌else◌, last?,
}
use morsh.Network.Constants.{as_millis}
use morsh.Prediction.Overlay.{
  Validity, pending, correct, correct_no_credit, incorrect_or_expired, inactive,
  ConditionalOverlayCell, ConditionalCursorMove, OverlayRow, reset_cell, cell_validity,
  cursor_validity,
}
use morsh.Prediction.Engine.{
  PredictionEngine, glitch_threshold_ms, glitch_repair_count, glitch_repair_mininterval_ms,
  glitch_flag_threshold_ms, reset,
}

-- What the loops over the cells change besides the cells.
pub record Scan : Type 0 where
  pub should_reset : Bool
  pub max_confirmed : ℕ
  pub glitch_trigger : ℕ
  pub last_quick_confirmation : ℕ

-- Milliseconds since the cell was predicted.
abbrev pub age : ℕ → ConditionalOverlayCell → ℕ
age now c = as_millis (now - c.prediction_time)

-- A confirmation that came soon repairs the glitch trigger, at most once in an interval.
abbrev pub is_quick : ℕ → ConditionalOverlayCell → Scan → Bool
is_quick now c s =
    ltb (age now c) glitch_threshold_ms
    && (ltb 0 s.glitch_trigger
        && leb glitch_repair_mininterval_ms (as_millis (now - s.last_quick_confirmation)))

abbrev pub confirm : ℕ → ConditionalOverlayCell → Scan → Scan
confirm now c s =
    let s₁ = record s {
      max_confirmed =
          if ltb s.max_confirmed c.tentative_until_epoch
          then c.tentative_until_epoch
          else s.max_confirmed;
    } in
    if is_quick now c s₁
    then record s₁ { glitch_trigger = s₁.glitch_trigger - 1; last_quick_confirmation = now }
    else s₁

-- A prediction that waits long raises the glitch trigger.
abbrev pub wait : ℕ → ConditionalOverlayCell → Scan → Scan
wait now c s =
    if leb glitch_flag_threshold_ms (age now c)
    then record s { glitch_trigger = glitch_repair_count * 2 }
    else if leb glitch_threshold_ms (age now c) && ltb s.glitch_trigger glitch_repair_count
    then record s { glitch_trigger = glitch_repair_count }
    else s

-- The `match` on the validity of a cell.
abbrev pub judge : Validity → ℕ → ConditionalOverlayCell → Scan → Scan × ConditionalOverlayCell
judge incorrect_or_expired now c s = (record s { should_reset = true }, c)
judge correct now c s = (confirm now c s, reset_cell c)
judge correct_no_credit now c s = (s, reset_cell c)
judge pending now c s = (wait now c s, c)
judge inactive now c s = (s, c)

abbrev pub validity_in : PredictionEngine → (ℕ → ℕ → ℕ) → ℕ → ConditionalOverlayCell → Validity
validity_in e get_cell rn c =
    cell_validity c (get_cell rn c.col) e.last_height e.last_width e.local_frame_late_acked

abbrev pub validate_cells :
    PredictionEngine
    → (ℕ → ℕ → ℕ)
    → ℕ
    → ℕ
    → List ConditionalOverlayCell
    → Scan
    → Scan × List ConditionalOverlayCell
validate_cells e get_cell rn now [] s = (s, [])
validate_cells e get_cell rn now (c ∷ cs) s =
    let (s₁, c') = judge (validity_in e get_cell rn c) now c s in
    let (s₂, cs') = validate_cells e get_cell rn now cs s₁ in (s₂, c' ∷ cs')

abbrev pub validate_rows :
    PredictionEngine → (ℕ → ℕ → ℕ) → ℕ → List OverlayRow → Scan → Scan × List OverlayRow
validate_rows e get_cell now [] s = (s, [])
validate_rows e get_cell now (r ∷ rs) s =
    let (s₁, cells) = validate_cells e get_cell r.row_num now r.cells s in
    let (s₂, rs') = validate_rows e get_cell now rs s₁ in (s₂, record r { cells = cells } ∷ rs')

abbrev pub cursor_validity_in : PredictionEngine → ℕ → ℕ → ConditionalCursorMove → Validity
cursor_validity_in e cursor_row cursor_col c =
    cursor_validity c cursor_row cursor_col e.last_height e.last_width e.local_frame_late_acked

abbrev pub is_pending : Validity → Bool
is_pending pending = true
is_pending correct = false
is_pending correct_no_credit = false
is_pending incorrect_or_expired = false
is_pending inactive = false

abbrev pub is_incorrect : Validity → Bool
is_incorrect incorrect_or_expired = true
is_incorrect pending = false
is_incorrect correct = false
is_incorrect correct_no_credit = false
is_incorrect inactive = false

-- The last cursor is active and wrong; only an active one is.
abbrev pub cursor_fails : (ConditionalCursorMove → Validity) → Option ConditionalCursorMove → Bool
cursor_fails v none = false
cursor_fails v (some c) = c.active && is_incorrect (v c)

-- `retain`
abbrev pub retain_pending :
    (ConditionalCursorMove → Validity) → List ConditionalCursorMove → List ConditionalCursorMove
retain_pending v [] = []
retain_pending v (c ∷ cs) =
    let rest = retain_pending v cs in if is_pending (v c) then c ∷ rest else rest

abbrev pub initial_scan : PredictionEngine → Scan
initial_scan e = record {
  should_reset = false;
  max_confirmed = e.confirmed_epoch;
  glitch_trigger = e.glitch_trigger;
  last_quick_confirmation = e.last_quick_confirmation;
}

-- The engine after the loops over the cells and the cursors.
abbrev pub scanned :
    PredictionEngine → Scan → List OverlayRow → List ConditionalCursorMove → PredictionEngine
scanned e s rows cursors = record e {
  overlay = record { rows = rows };
  cursors = cursors;
  confirmed_epoch = s.max_confirmed;
  glitch_trigger = s.glitch_trigger;
  last_quick_confirmation = s.last_quick_confirmation;
}

abbrev pub validate_predictions : PredictionEngine → (ℕ → ℕ → ℕ) → ℕ → ℕ → ℕ → PredictionEngine
validate_predictions e get_cell cursor_row cursor_col now =
    let (s, rows) = validate_rows e get_cell now e.overlay.rows (initial_scan e) in
    let v = cursor_validity_in e cursor_row cursor_col in
    let e' = scanned e s rows (retain_pending v e.cursors) in
    if s.should_reset || cursor_fails v (last? e.cursors) then reset e' else e'
