-- ===== src/Prediction/Engine/Overrun.antt =====
-- crates/morsh-prediction/src/prediction.rs: text typed with the cursor past the right edge.
use morsh.Common.{
  ℕ, zero, suc, ◌+◌, ◌-◌, ◌≤◌, ◌≡◌, refl, ap, ◌∙◌, [], ◌∷◌, none, some, Bool, true, false, not,
  ◌||◌, leb, ◌==◌, if-false, length, Bool-cases, Option-cases, inl, inr, arith, last?,
}
use morsh.Common.Options.{◌>>=◌, option_map}
use morsh.Prediction.Overlay.{ConditionalOverlayCell, get_or_make_row}
use morsh.Prediction.Engine.{
  PredictionEngine, ground_state, next64, become_tentative, init_cursor, in_epoch, is_never, cull,
}
use morsh.Prediction.Engine.Cells.{
  modify, predict_char, collect, left_state, descending, shift_right, insert_cells,
}
use morsh.Prediction.Engine.Keys.{rewrite_row, predict_insert, input_byte, resized, new_user_byte}
use morsh.Prediction.Engine.Shifts.{Cells}
use morsh.Prediction.Engine.Shape.{OverlayShape}
use morsh.Prediction.Engine.Typing.{made_row-RowShape}
use morsh.Prediction.Engine.Keystrokes.{Sized}
use morsh.Prediction.Engine.Calls.{IsValid, resized-Sized, cull-Sized, init_cursor-Sized}
use morsh.Prediction.Engine.Editing.{is_printable, printable-inserts}

modify-none :
    (f : ConditionalOverlayCell → ConditionalOverlayCell) (cells : Cells) (i : ℕ)
    → length cells ≤ i
    → modify cells i f ≡ none
modify-none f [] i h = refl
modify-none f (c ∷ cs) zero h = absurd (omega arith)
modify-none f (c ∷ cs) (suc i) h = ap (option_map (◌∷◌ c)) (modify-none f cs i (omega arith))

module _ (epoch frame now : ℕ) (server : ℕ → ℕ) (num_cols col ch : ℕ) (cells : Cells)
    (size : length cells ≡ num_cols) (past : num_cols ≤ col) where
  -- With no cell to shift, the write at the cursor.
  last_write-none :
      (right n : ℕ)
      → n ≡ 0
      → (collect (left_state cells) (right + 1) >>= (λ states.
          descending (shift_right epoch frame now states server num_cols) (col + 1) n cells
          >>= (λ shifted. modify shifted col (predict_char epoch frame now ch))))
        ≡ none
  last_write-none right n z = elim (Option-cases (collect (left_state cells) (right + 1))) [
    | inl e ↦ rw e refl
    | inr (states, e) ↦
        rw (e, z) (modify-none (predict_char epoch frame now ch) cells col (omega arith))
  ]

insert_cells-none :
    (overwrite : Bool) (epoch frame now : ℕ) (server : ℕ → ℕ) (num_cols col ch : ℕ) (cells : Cells)
    → length cells ≡ num_cols
    → num_cols ≤ col
    → insert_cells overwrite epoch frame now server num_cols col ch cells ≡ none
insert_cells-none true epoch frame now server num_cols col ch cells size past =
    last_write-none epoch frame now server num_cols col ch cells size past col (col - col)
      (omega arith)
insert_cells-none false epoch frame now server zero col ch cells size past = refl
insert_cells-none false epoch frame now server (suc m) col ch cells size past =
    last_write-none epoch frame now server (suc m) col ch cells size past m (m - col) (omega arith)

module _ (cursor_row cursor_col num_cols num_rows : ℕ) (cell_at : ℕ → ℕ → ℕ) (now : ℕ)
    (past : num_cols ≤ cursor_col) where
  row-none :
      (e : PredictionEngine) (ch : ℕ)
      → OverlayShape num_cols e.overlay
      → rewrite_row e cursor_row num_cols now (
          insert_cells e.predict_overwrite e.prediction_epoch
            (next64 e.local_frame_sent)
            now
            (cell_at cursor_row)
            num_cols
            cursor_col
            ch)
        ≡ none
  row-none e ch h =
      let shape : _ = made_row-RowShape e.overlay cursor_row num_cols e.prediction_epoch now h in
      let none_there : _ =
        insert_cells-none e.predict_overwrite e.prediction_epoch (next64 e.local_frame_sent) now
          (cell_at cursor_row) num_cols cursor_col ch
          (get_or_make_row e.overlay cursor_row num_cols e.prediction_epoch now).0.cells
          shape.same_length past in
      rw none_there refl

  predict_insert-none :
      (e : PredictionEngine) (ch : ℕ)
      → OverlayShape num_cols e.overlay
      → predict_insert e ch cursor_row cursor_col num_cols num_rows cell_at now ≡ none
  predict_insert-none e ch h =
      let last : leb num_cols (cursor_col + 1) ≡ true = ground arith in
      rw (last, row-none (become_tentative e) ch h) refl

  same_input :
      (e : PredictionEngine)
      → (init_cursor
          (cull (resized e num_cols num_rows) num_rows)
          cursor_row
          cursor_col).input_state
        ≡ e.input_state
  same_input e =
      let r : PredictionEngine = resized e num_cols num_rows in
      started (cull r num_rows) ∙ culled r ∙ sized
    where
      started :
          (q : PredictionEngine) → (init_cursor q cursor_row cursor_col).input_state ≡ q.input_state
      started q = elim (Bool-cases (in_epoch (last? q.cursors) q.prediction_epoch)) [
        | inl a ↦ rw a refl
        | inr a ↦ rw a refl
      ]

      culled : (q : PredictionEngine) → (cull q num_rows).input_state ≡ q.input_state
      culled q = elim (Bool-cases (is_never q.display_preference)) [
        | inl a ↦ rw a refl
        | inr a ↦ rw a refl
      ]

      sized : (resized e num_cols num_rows).input_state ≡ e.input_state
      sized =
          elim (Bool-cases (not (e.last_height == num_rows) || not (e.last_width == num_cols))) [
            | inl a ↦ rw a refl
            | inr a ↦ rw a refl
          ]

  -- On an engine that predicts, outside an escape sequence, with rows of the last width seen: a
  -- printable character typed with the cursor at or past the number of columns makes the call
  -- panic, whatever the size of the terminal was before.
  pub new_user_byte-overrun :
      (e : PredictionEngine) (ch : ℕ)
      → IsValid e
      → is_never e.display_preference ≡ false
      → e.input_state ≡ ground_state
      → is_printable ch ≡ true
      → new_user_byte e ch cursor_row cursor_col num_cols num_rows cell_at now ≡ none
  new_user_byte-overrun e ch v predicts input p =
      let r : PredictionEngine = resized e num_cols num_rows in
      let e₁ : PredictionEngine = init_cursor (cull r num_rows) cursor_row cursor_col in
      let s : Sized num_cols e₁ =
        init_cursor-Sized num_cols cursor_row cursor_col (cull r num_rows)
          (cull-Sized num_cols num_rows r (resized-Sized e num_cols num_rows v)) in
      if-false (is_never e.display_preference) (some e)
        (input_byte e₁.input_state e₁ ch cursor_row cursor_col num_cols num_rows cell_at now)
        predicts
      ∙ ap (λ i. input_byte i e₁ ch cursor_row cursor_col num_cols num_rows cell_at now)
          (same_input e ∙ input)
      ∙ printable-inserts cursor_row cursor_col num_cols num_rows ch cell_at now e₁ p
      ∙ predict_insert-none e₁ ch s.shape
