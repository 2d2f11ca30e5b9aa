-- ===== src/Prediction/Engine/Deleting.antt =====
-- crates/morsh-prediction/src/prediction.rs: the cells that `predict_backspace` leaves show the line
-- with the character deleted.
use morsh.Common.{
  ℕ, ◌+◌, ◌-◌, ◌<◌, ◌≡◌, refl, List, Bool, true, false, none, some, ltb, if◌then◌else◌, length,
  get_elem?, get_or, arith, ◌∙◌, dec_lt, ℕ_discrete, Bool-cases, inl, inr, lt→ltb, le→ltb, ltb→lt,
  ==_refl, ne→==,
}
use morsh.Common.Options.{option_map}
use morsh.Prediction.Overlay.{space, ConditionalOverlayCell}
use morsh.Prediction.Engine.Cells.{
  CellState, no_state, state_of, predict_char, right_state, shift_left, backspace_cells,
}
use morsh.Prediction.Engine.Shifts.{
  Cells, Body, get_elem?-in, modify-Shifts, ascending-Shifts, collect-get_or,
}
use morsh.Prediction.Engine.Shape.{
  RowShape, Shifted-RowShape, predict_char-KeepsColumn, shift_left-KeepsColumn,
}
use morsh.Prediction.Engine.Line.{
  shown_state, shown, deleted, Shows, same-shown, at-shown, right_state-none, neighbour-shown,
}

module _ (epoch frame now : ℕ) (server : ℕ → ℕ) where
  -- A shifted cell of a backspace.
  shift_left-shown :
      (cells : Cells) (states : List CellState) (num_cols i here : ℕ) (c : ConditionalOverlayCell)
      → length cells ≡ num_cols
      → right_state cells num_cols i ≡ some (get_or states i no_state)
      → shown_state (state_of (shift_left epoch frame now states server num_cols i c)) here
        ≡ (if ltb (i + 2) num_cols then shown server cells (i + 1) else none)
  shift_left-shown cells states num_cols i here c h e = elim (Bool-cases (ltb (i + 2) num_cols)) [
    | inl l ↦
        let far : i + 2 < num_cols = ltb→lt (i + 2) num_cols l in
        let near : ltb (i + 1) num_cols ≡ true = lt→ltb (i + 1) num_cols (omega arith) in
        let read : option_map state_of (get_elem? cells (i + 1)) ≡ some (get_or states i no_state) =
          ground (arith, near, e) in
        rw l (
          neighbour-shown epoch frame now server cells (get_or states i no_state) (i + 1) here c
            (omega arith) read)
    | inr l ↦ rw l refl
  ]

  -- In range a backspace does not panic, and the row then shows the line with the character deleted.
  pub backspace_cells-deleted :
      (overwrite : Bool) (num_cols new_col : ℕ) (cells : Cells)
      → new_col < num_cols
      → RowShape num_cols cells
      → (cells' : Cells) × (backspace_cells overwrite epoch frame now server num_cols new_col cells
          ≡ some cells')
        × Shows num_cols server (deleted overwrite num_cols new_col (shown server cells)) cells'
  backspace_cells-deleted true num_cols new_col cells h shape =
      let put : Body = λ j. predict_char epoch frame now space in
      let size : length cells ≡ num_cols = shape.same_length in
      let (cells', e, s) = modify-Shifts put cells new_col (omega arith) in
      (
        cells',
        e,
        record {
          shape = Shifted-RowShape (predict_char-KeepsColumn epoch frame now space) shape s;
          reads = λ j l. elim (ℕ_discrete j new_col) [
            | yes same ↦
                let (c, there) = get_elem?-in cells new_col (omega arith) in
                rw (same, ==_refl new_col)
                  (at-shown server cells cells' new_col (put new_col c)
                    (s.inside new_col c (omega arith) (omega arith) there))
            | no other ↦ rw (ne→== j new_col other) (
                same-shown server cells cells' j (elim (dec_lt j new_col) [
                  | yes l ↦ s.below j l
                  | no l ↦ s.above j (omega arith)
                ]))
          ];
        },
      )
  backspace_cells-deleted false num_cols new_col cells h shape =
      let size : length cells ≡ num_cols = shape.same_length in
      let (states, read, at) =
        collect-get_or (right_state cells num_cols) num_cols no_state
          (λ i l. right_state-none cells num_cols i size) in
      let body : Body = shift_left epoch frame now states server num_cols in
      let (cells', e, s) = ascending-Shifts body new_col (num_cols - new_col) cells (omega arith) in
      (
        cells',
        rw read e,
        record {
          shape =
              Shifted-RowShape (shift_left-KeepsColumn epoch frame now states server num_cols) shape
                s;
          reads = λ j l. elim (dec_lt j new_col) [
            | yes u ↦ rw (lt→ltb j new_col u) (same-shown server cells cells' j (s.below j u))
            | no u ↦
                let (c, there) = get_elem?-in cells j (omega arith) in
                rw (le→ltb j new_col (omega arith)) (
                  at-shown server cells cells' j (body j c)
                    (s.inside j c (omega arith) (omega arith) there)
                  ∙ shift_left-shown cells states num_cols j (server j) c size (at j l))
          ];
        },
      )
