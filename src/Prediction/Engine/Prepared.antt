-- ===== src/Prediction/Engine/Prepared.antt =====
-- crates/morsh-prediction/src/prediction.rs: what `new_user_byte` does before it reads the byte, where
-- the terminal has the size it last had.
use morsh.Common.{
  ℕ, ◌<◌, ◌≡◌, refl, ap, true, false, Option, some, ◌==◌, if-false, ◌∙◌, Bool-cases, inl, inr,
  ==_refl, last?,
}
use morsh.Prediction.Overlay.{get_row}
use morsh.Prediction.Engine.{PredictionEngine, InputState, init_cursor, is_never, cull, in_epoch}
use morsh.Prediction.Engine.Keys.{input_byte, resized, new_user_byte}
use morsh.Prediction.Engine.Typing.{find_row-retain_below}
use morsh.Prediction.Engine.Keystrokes.{Kept}

-- An engine that predicts, on a terminal of the size it last saw.
pub record Steady (num_cols num_rows : ℕ) (e : PredictionEngine) : Type 0 where
  pub predicts : is_never e.display_preference ≡ false
  pub width : e.last_width ≡ num_cols
  pub height : e.last_height ≡ num_rows

module _ (num_cols num_rows cursor_row cursor_col : ℕ) (e : PredictionEngine)
    (r : Steady num_cols num_rows e) where
  -- The engine that the `match` on the state of the input sees.
  abbrev pub prepared : PredictionEngine
  prepared = init_cursor (cull e num_rows) cursor_row cursor_col

  resized-same : resized e num_cols num_rows ≡ e
  resized-same =
      let h : (e.last_height == num_rows) ≡ true = rw (r.height, ==_refl num_rows) refl in
      let w : (e.last_width == num_cols) ≡ true = rw (r.width, ==_refl num_cols) refl in
      rw (h, w) refl

  culled-Kept : Kept e (cull e num_rows)
  culled-Kept =
      rw r.predicts
        (record { display = refl; overwrite = refl; height = refl; width = refl; input = refl })

  init_cursor-Kept :
      (e₁ : PredictionEngine) → Kept e e₁ → Kept e (init_cursor e₁ cursor_row cursor_col)
  init_cursor-Kept e₁ k = elim (Bool-cases (in_epoch (last? e₁.cursors) e₁.prediction_epoch)) [
    | inl a ↦ rw a k
    | inr a ↦ rw a (record {
      display = k.display;
      overwrite = k.overwrite;
      height = k.height;
      width = k.width;
      input = k.input;
    })
  ]

  pub prepared-Kept : Kept e prepared
  prepared-Kept = init_cursor-Kept (cull e num_rows) culled-Kept

  init_cursor-overlay :
      (e₁ : PredictionEngine) → (init_cursor e₁ cursor_row cursor_col).overlay ≡ e₁.overlay
  init_cursor-overlay e₁ = elim (Bool-cases (in_epoch (last? e₁.cursors) e₁.prediction_epoch)) [
    | inl a ↦ rw a refl
    | inr a ↦ rw a refl
  ]

  pub prepared-row : (n : ℕ) → n < num_rows → get_row prepared.overlay n ≡ get_row e.overlay n
  prepared-row n row_in =
      ap (λ o. get_row o n) (init_cursor-overlay (cull e num_rows))
      ∙ rw r.predicts (find_row-retain_below e.overlay.rows n num_rows row_in)

  -- A keystroke is the byte that the prepared engine sees.
  pub new_user_byte-prepared :
      (ch : ℕ) (cell_at : ℕ → ℕ → ℕ) (now : ℕ)
      → new_user_byte e ch cursor_row cursor_col num_cols num_rows cell_at now
        ≡ input_byte e.input_state prepared ch cursor_row cursor_col num_cols num_rows cell_at now
  new_user_byte-prepared ch cell_at now =
      let seen : PredictionEngine → PredictionEngine =
        λ q. init_cursor (cull q num_rows) cursor_row cursor_col in
      let byte : InputState → PredictionEngine → Option PredictionEngine =
        λ i q. input_byte i q ch cursor_row cursor_col num_cols num_rows cell_at now in
      let resizing : PredictionEngine = seen (resized e num_cols num_rows) in
      if-false (is_never e.display_preference) (some e) (byte resizing.input_state resizing)
        r.predicts
      ∙ ap (λ q. byte (seen q).input_state (seen q)) resized-same
      ∙ ap (λ i. byte i prepared) prepared-Kept.input
