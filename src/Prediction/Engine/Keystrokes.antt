-- ===== src/Prediction/Engine/Keystrokes.antt =====
-- crates/morsh-prediction/src/prediction.rs: the keys that `new_user_byte` tells apart, each in the
-- screen. None of them panics.
use morsh.Common.{
  ℕ, suc, ◌+◌, ◌<◌, ◌≡◌, refl, List, [], ◌∷◌, true, false, Option, none, some, ltb, leb, arith,
  Bool-cases, inl, inr,
}
use morsh.Prediction.Overlay.{ConditionalCursorMove, Overlay, get_or_make_row, map_cells}
use morsh.Prediction.Engine.{PredictionEngine, ground_state, next64, become_tentative}
use morsh.Prediction.Engine.Cells.{blank, backspace_cells, insert_cells}
use morsh.Prediction.Engine.Keys.{
  arrow, arrow_key, map_last, to_column, predict_cursor_key, blank_row, newline_carriage_return,
  rewrite_row, predict_backspace, predict_insert,
}
use morsh.Prediction.Engine.Shape.{RowShape, OverlayShape, map_cells-RowShape, put_row-OverlayShape}
use morsh.Prediction.Engine.Line.{typed, deleted}
use morsh.Prediction.Engine.Inserting.{insert_cells-typed}
use morsh.Prediction.Engine.Deleting.{backspace_cells-deleted}
use morsh.Prediction.Engine.Typing.{Rewritten, rewrite_row-Rewritten, made_row-RowShape}

-- The last width seen is `num_cols`, and the rows have it.
pub record Sized (num_cols : ℕ) (e : PredictionEngine) : Type 0 where
  pub width : e.last_width ≡ num_cols
  pub shape : OverlayShape num_cols e.overlay

-- What a prediction leaves of the settings and of the state of the input.
pub record Kept (e e' : PredictionEngine) : Type 0 where
  pub display : e'.display_preference ≡ e.display_preference
  pub overwrite : e'.predict_overwrite ≡ e.predict_overwrite
  pub height : e'.last_height ≡ e.last_height
  pub width : e'.last_width ≡ e.last_width
  pub input : e'.input_state ≡ e.input_state

-- The call does not panic, and leaves such an engine.
abbrev pub Works : ℕ → Option PredictionEngine → Type 0
Works num_cols r = (e' : PredictionEngine) × (r ≡ some e') × Sized num_cols e'

newline-Sized :
    (num_cols cursor_row num_rows now : ℕ) (e : PredictionEngine)
    → Sized num_cols e
    → Sized num_cols (newline_carriage_return e cursor_row num_cols num_rows now)
newline-Sized num_cols cursor_row num_rows now e h =
    let frame : ℕ = next64 e.local_frame_sent in
    let epoch : ℕ = e.prediction_epoch in
    let (row, o) = get_or_make_row e.overlay cursor_row num_cols epoch now in
    let shape : RowShape num_cols row.cells =
      made_row-RowShape e.overlay cursor_row num_cols epoch now h.shape in
    let blanked : OverlayShape num_cols (blank_row e cursor_row num_cols now) =
      put_row-OverlayShape num_cols o
        (record row { cells = map_cells (blank epoch frame now) row.cells })
        (map_cells-RowShape (blank epoch frame now) num_cols row.cells (λ c. refl) shape)
        (put_row-OverlayShape num_cols e.overlay row shape h.shape) in
    record {
      width = h.width;
      shape = elim (Bool-cases (leb num_rows (cursor_row + 1))) [
        | inl l ↦ rw l blanked
        | inr l ↦ rw l h.shape
      ];
    }

-- An insertion in the screen, and the line it leaves short of the last column.
pub predict_insert-Sized :
    (e : PredictionEngine) (ch cursor_row cursor_col num_cols num_rows : ℕ) (cell_at : ℕ → ℕ → ℕ)
    (now : ℕ)
    → cursor_col < num_cols
    → Sized num_cols e
    → (e' : PredictionEngine) × (predict_insert e ch cursor_row cursor_col num_cols num_rows cell_at
          now
        ≡ some e')
      × Sized num_cols e'
      × (cursor_col + 1 < num_cols
          → Kept e e'
            × Rewritten num_cols cursor_row cell_at
                (typed e.predict_overwrite num_cols cursor_col ch)
                e.overlay
                e'.overlay)
predict_insert-Sized e ch cursor_row cursor_col num_cols num_rows cell_at now h s =
    elim (Bool-cases (leb num_cols (cursor_col + 1))) [
      | inl l ↦
          let e₁ : PredictionEngine = become_tentative e in
          let (o, eq, r) = rewritten e₁ s.shape in
          let last : ltb (cursor_col + 1) num_cols ≡ false = ground arith in
          let e₂ : PredictionEngine = become_tentative (record e₁ { overlay = o }) in
          (
            newline_carriage_return e₂ cursor_row num_cols num_rows now,
            rw (l, eq, last) refl,
            newline-Sized num_cols cursor_row num_rows now e₂
                (record { width = s.width; shape = r.shape }),
            λ u. absurd (ground arith),
          )
      | inr l ↦
          let (o, eq, r) = rewritten e s.shape in
          let inner : ltb (cursor_col + 1) num_cols ≡ true = ground arith in
          let frame : ℕ = next64 e.local_frame_sent in
          (
            record e {
              overlay = o;
              cursors = map_last (to_column (cursor_col + 1) frame) e.cursors;
            },
            rw (l, eq, inner) refl,
            record { width = s.width; shape = r.shape },
            λ u. (
              record {
                display = refl;
                overwrite = refl;
                height = refl;
                width = refl;
                input = refl;
              },
              r,
            ),
          )
    ]
  where
    rewritten :
        (e₁ : PredictionEngine)
        → OverlayShape num_cols e₁.overlay
        → (o' : Overlay) × (rewrite_row e₁ cursor_row num_cols now (
              insert_cells e₁.predict_overwrite e₁.prediction_epoch
                (next64 e₁.local_frame_sent)
                now
                (cell_at cursor_row)
                num_cols
                cursor_col
                ch)
            ≡ some o')
          × Rewritten num_cols cursor_row cell_at
              (typed e₁.predict_overwrite num_cols cursor_col ch)
              e₁.overlay
              o'
    rewritten e₁ k =
        rewrite_row-Rewritten num_cols cursor_row cell_at
          (typed e₁.predict_overwrite num_cols cursor_col ch) e₁ now
          (insert_cells e₁.predict_overwrite e₁.prediction_epoch (next64 e₁.local_frame_sent) now
            (cell_at cursor_row) num_cols cursor_col ch)
          k
          (λ cells shape.
            insert_cells-typed e₁.prediction_epoch (next64 e₁.local_frame_sent) now
              (cell_at cursor_row) e₁.predict_overwrite num_cols cursor_col ch cells h shape)

-- A backspace in the screen.
pub predict_backspace-Sized :
    (e : PredictionEngine) (cursor_row new_col num_cols : ℕ) (cell_at : ℕ → ℕ → ℕ) (now : ℕ)
    → new_col < num_cols
    → Sized num_cols e
    → (e' : PredictionEngine) × (predict_backspace e cursor_row (suc new_col) num_cols cell_at now
        ≡ some e')
      × Sized num_cols e'
      × Kept e e'
      × Rewritten num_cols cursor_row cell_at
          (deleted e.predict_overwrite num_cols new_col)
          e.overlay
          e'.overlay
predict_backspace-Sized e cursor_row new_col num_cols cell_at now h s =
    let frame : ℕ = next64 e.local_frame_sent in
    let (o, eq, r) =
      rewrite_row-Rewritten num_cols cursor_row cell_at
        (deleted e.predict_overwrite num_cols new_col) e now
        (backspace_cells e.predict_overwrite e.prediction_epoch frame now (cell_at cursor_row)
          num_cols new_col)
        s.shape
        (λ cells shape.
          backspace_cells-deleted e.prediction_epoch frame now (cell_at cursor_row)
            e.predict_overwrite num_cols new_col cells h shape) in
    (
      record e { overlay = o; cursors = map_last (to_column new_col frame) e.cursors },
      rw eq refl,
      record { width = s.width; shape = r.shape },
      record { display = refl; overwrite = refl; height = refl; width = refl; input = refl },
      r,
    )

arrow_key-Sized :
    (num_cols : ℕ) (e : PredictionEngine)
    (f : Option (ConditionalCursorMove → ConditionalCursorMove)) (cs : List ConditionalCursorMove)
    → Sized num_cols e
    → Sized num_cols (arrow_key e f cs)
arrow_key-Sized num_cols e none cs s = record { width = s.width; shape = s.shape }
arrow_key-Sized num_cols e (some f) [] s = record { width = s.width; shape = s.shape }
arrow_key-Sized num_cols e (some f) (c ∷ cs) s = record { width = s.width; shape = s.shape }

pub cursor_key-Sized :
    (num_cols ch : ℕ) (e : PredictionEngine)
    → Sized num_cols e
    → Sized num_cols (predict_cursor_key (record e { input_state = ground_state }) ch num_cols)
cursor_key-Sized num_cols ch e s =
    let e₀ : PredictionEngine = record e { input_state = ground_state } in
    arrow_key-Sized num_cols e₀ (arrow ch num_cols (next64 e₀.local_frame_sent)) e₀.cursors
      (record { width = s.width; shape = s.shape })
