-- ===== src/Tests/Prediction.antt =====
-- The prediction engine on a small screen: typing, deleting, keys, and an answer of the server.
use morsh.Common.{
  ℕ, suc, ◌+◌, ◌<◌, ◌≡◌, refl, [], ◌∷◌, none, some, false, get_elem?, unwrap_or, All, arith,
}
use morsh.Prediction.Overlay.{
  u64_max, pending, ConditionalOverlayCell, OverlayRow, new_cell, new_row, new_overlay, space,
}
use morsh.Prediction.Engine.{
  PredictionEngine, new_engine, next64, is_active, wait_time_ms, ground_state,
  set_local_frame_late_acked,
}
use morsh.Prediction.Engine.Keys.{new_user_byte}
use morsh.Prediction.Engine.Validate.{validity_in, cursor_validity_in, validate_predictions}
use morsh.Prediction.Engine.Validating.{
  Waits, validate_predictions-Waits, validate_predictions-incorrect,
}
use morsh.Prediction.Engine.Settling.{validate_predictions-settles}
use morsh.Prediction.Engine.Calls.{IsValid, new_user_byte-IsValid}
use morsh.Prediction.Engine.Line.{typed}
use morsh.Prediction.Engine.Typing.{shown_line}
use morsh.Prediction.Engine.Editing.{Ready, new_user_byte-typed}
use morsh.Prediction.Engine.Restoring.{new_user_byte-typed_deleted}
use morsh.Prediction.Engine.Escapes.{
  csi_sequence, bytes_of, Screen, type_bytes, Quietly, type_bytes-KeySequence,
}
use morsh.Prediction.Engine.Overrun.{new_user_byte-overrun}

abbrev blank_screen : ℕ → ℕ → ℕ
blank_screen r c = space

-- An engine that has seen a screen of 5 columns and 2 rows.
abbrev sized : PredictionEngine
sized = record (new_engine 0) { last_width = 5; last_height = 2 }

sized-Ready : Ready 5 2 sized
sized-Ready = record {
  steady = record { predicts = refl; width = refl; height = refl };
  shape = tt;
  input = refl;
}

-- An "a" in the corner.
abbrev with_a : PredictionEngine
with_a = unwrap_or (new_user_byte sized 97 0 0 5 2 blank_screen 0) sized

abbrev acked : PredictionEngine
acked = set_local_frame_late_acked with_a 5

abbrev row_of_a : OverlayRow
row_of_a = unwrap_or (get_elem? acked.overlay.rows 0) (new_row 0 5 0 0)

abbrev cell_of_a : ConditionalOverlayCell
cell_of_a = unwrap_or (get_elem? row_of_a.cells 0) (new_cell 0 0 0)

-- The row shows the "a" before anything has come from the server.
a_is_shown : shown_line blank_screen with_a.overlay 0 0 ≡ some 97
a_is_shown = refl

validate_predictions-Waits_example :
    All
      (λ r. All (λ c. Waits (validity_in with_a blank_screen r.row_num c)) r.cells)
      (validate_predictions with_a blank_screen 0 0 9).overlay.rows
    × All
        (λ c. cursor_validity_in with_a 0 0 c ≡ pending)
        (validate_predictions with_a blank_screen 0 0 9).cursors
validate_predictions-Waits_example = validate_predictions-Waits with_a blank_screen 0 0 9

validate_predictions-incorrect_example :
    let e' = validate_predictions acked blank_screen 0 1 9 in
    (e'.overlay ≡ new_overlay)
    × (e'.cursors ≡ [])
    × (e'.prediction_epoch ≡ next64 acked.prediction_epoch)
unfolding next64
validate_predictions-incorrect_example =
    validate_predictions-incorrect acked blank_screen 0 1 9 0 0 row_of_a cell_of_a refl refl refl

new_user_byte-IsValid_example :
    (e' : PredictionEngine) × (new_user_byte (new_engine 0) 127 1 3 5 2 blank_screen 0 ≡ some e')
    × IsValid e'
new_user_byte-IsValid_example =
    new_user_byte-IsValid (new_engine 0) 127 1 3 5 2 blank_screen 0 tt (omega arith)

new_user_byte-typed_example :
    (e' : PredictionEngine) × (new_user_byte sized 97 1 2 5 2 blank_screen 0 ≡ some e')
    × Ready 5 2 e'
    × (e'.predict_overwrite ≡ false)
    × ((j : ℕ)
        → j < 5
        → shown_line blank_screen e'.overlay 1 j
          ≡ typed false 5 2 97 (shown_line blank_screen sized.overlay 1) j)
new_user_byte-typed_example =
    new_user_byte-typed 5 2 1 2 sized sized-Ready 97 blank_screen 0 (omega arith) refl (omega arith)

new_user_byte-typed_deleted_example :
    (e₁ : PredictionEngine) × (e₂ : PredictionEngine) × (new_user_byte sized 97 0 2 5 2 blank_screen
        0
      ≡ some e₁)
    × (new_user_byte e₁ 127 0 (suc 2) 5 2 blank_screen 7 ≡ some e₂)
    × ((j : ℕ)
        → j + 2 < 5
        → shown_line blank_screen e₂.overlay 0 j ≡ shown_line blank_screen sized.overlay 0 j)
new_user_byte-typed_deleted_example =
    new_user_byte-typed_deleted 5 2 0 2 sized 97 blank_screen 0 7 (omega arith) sized-Ready refl
      refl (omega arith)

abbrev screen : Screen
screen = record {
  cursor_row = 0;
  cursor_col = 0;
  num_cols = 5;
  num_rows = 2;
  cell_at = blank_screen;
}

-- ESC [ 1 C
type_bytes-KeySequence_example :
    Quietly screen sized ground_state
      (type_bytes sized (bytes_of (csi_sequence (49 ∷ []) 67 (refl, tt) refl)) screen 0)
type_bytes-KeySequence_example =
    type_bytes-KeySequence screen sized 0 (csi_sequence (49 ∷ []) 67 (refl, tt) refl)
      sized-Ready.steady refl

-- The cursor is where it was on a wider screen.
new_user_byte-overrun_example : new_user_byte sized 97 0 4 3 2 blank_screen 0 ≡ none
new_user_byte-overrun_example =
    new_user_byte-overrun 0 4 3 2 blank_screen 0 (omega arith) sized 97 tt refl refl refl

validate_predictions-settles_example :
    let e' = validate_predictions acked blank_screen 0 1 9 in
    (is_active e' ≡ false) × (e'.cursors ≡ []) × (wait_time_ms e' ≡ u64_max)
unfolding next64
validate_predictions-settles_example =
    validate_predictions-settles acked blank_screen 0 1 9
      ((refl, (refl, (refl, (refl, (refl, tt))))), tt) (refl, tt)
