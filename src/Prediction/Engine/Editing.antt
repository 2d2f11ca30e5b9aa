-- ===== src/Prediction/Engine/Editing.antt =====
-- crates/morsh-prediction/src/prediction.rs: typing and deleting with the cursor in the screen edit the
-- line that is shown.
use morsh.Common.{
  ℕ, suc, ◌+◌, ◌<◌, ◌≡◌, refl, ap, Bool, true, false, not, ◌||◌, ◌&&◌, some, leb, ◌==◌, arith, ◌∙◌,
}
use morsh.Prediction.Overlay.{get_row, space}
use morsh.Prediction.Engine.{PredictionEngine, ground_state, cull}
use morsh.Prediction.Engine.Keys.{
  predict_insert, ground_byte, input_byte, new_user_byte, is_control, is_ascii_graphic,
}
use morsh.Prediction.Engine.Line.{typed, deleted}
use morsh.Prediction.Engine.Typing.{shown_line, row_line}
use morsh.Prediction.Engine.Keystrokes.{Sized, Kept, predict_insert-Sized, predict_backspace-Sized}
use morsh.Prediction.Engine.Calls.{cull-Sized, init_cursor-Sized}
use morsh.Prediction.Engine.Shape.{OverlayShape}
use morsh.Prediction.Engine.Prepared.{
  Steady, prepared, prepared-Kept, prepared-row, new_user_byte-prepared,
}

-- Such an engine outside an escape sequence, with rows of the terminal's width.
pub record Ready (num_cols num_rows : ℕ) (e : PredictionEngine) : Type 0 where
  pub steady : Steady num_cols num_rows e
  pub shape : OverlayShape num_cols e.overlay
  pub input : e.input_state ≡ ground_state

-- What the keys of this file keep of it.
Kept-Ready :
    (num_cols num_rows : ℕ) (e e₁ e' : PredictionEngine)
    → Ready num_cols num_rows e
    → Kept e e₁
    → Kept e₁ e'
    → Sized num_cols e'
    → Ready num_cols num_rows e'
Kept-Ready num_cols num_rows e e₁ e' r k k' s = record {
  steady = record {
    predicts = rw (k'.display ∙ k.display) r.steady.predicts;
    width = s.width;
    height = k'.height ∙ k.height ∙ r.steady.height;
  };
  shape = s.shape;
  input = k'.input ∙ k.input ∙ r.input;
}

-- The characters that are predicted as text.
abbrev pub is_printable : ℕ → Bool
is_printable ch = leb 32 ch && leb ch 126

-- Printable characters take the branch of an insertion.
pub printable-inserts :
    (cursor_row cursor_col num_cols num_rows ch : ℕ) (cell_at : ℕ → ℕ → ℕ) (now : ℕ)
    (e₁ : PredictionEngine)
    → is_printable ch ≡ true
    → ground_byte e₁ ch cursor_row cursor_col num_cols num_rows cell_at now
      ≡ predict_insert e₁ ch cursor_row cursor_col num_cols num_rows cell_at now
printable-inserts cursor_row cursor_col num_cols num_rows ch cell_at now e₁ p =
    let a : (ch == 27) ≡ false = ground arith in
    let b : (ch == 127) ≡ false = ground arith in
    let c : (is_control ch || not (is_ascii_graphic ch) && not (ch == space)) ≡ false =
      ground arith in
    rw (a, b, c) refl

module _ (num_cols num_rows cursor_row cursor_col : ℕ) (e : PredictionEngine)
    (r : Ready num_cols num_rows e) where
  -- The engine that sees the byte.
  abbrev seen : PredictionEngine
  seen = prepared num_cols num_rows cursor_row cursor_col e r.steady

  seen-Kept : Kept e seen
  seen-Kept = prepared-Kept num_cols num_rows cursor_row cursor_col e r.steady

  seen-Sized : Sized num_cols seen
  seen-Sized =
      init_cursor-Sized num_cols cursor_row cursor_col (cull e num_rows)
        (cull-Sized num_cols num_rows e (record { width = r.steady.width; shape = r.shape }))

  seen-row : (n : ℕ) → n < num_rows → get_row seen.overlay n ≡ get_row e.overlay n
  seen-row = prepared-row num_cols num_rows cursor_row cursor_col e r.steady

  new_user_byte-seen :
      (ch : ℕ) (cell_at : ℕ → ℕ → ℕ) (now : ℕ)
      → new_user_byte e ch cursor_row cursor_col num_cols num_rows cell_at now
        ≡ ground_byte seen ch cursor_row cursor_col num_cols num_rows cell_at now
  new_user_byte-seen ch cell_at now =
      new_user_byte-prepared num_cols num_rows cursor_row cursor_col e r.steady ch cell_at now
      ∙ ap (λ i. input_byte i seen ch cursor_row cursor_col num_cols num_rows cell_at now) r.input

  -- A printable character typed left of the last column, with the cursor's row on the screen, on an
  -- engine that predicts, on a terminal of the size it last saw, with rows of its width and outside
  -- an escape sequence: the call does not panic, it leaves such an engine in the same mode, and the
  -- line of the cursor then shows the line it showed with the character typed, in insert or in
  -- overwrite mode.
  pub new_user_byte-typed :
      (ch : ℕ) (cell_at : ℕ → ℕ → ℕ) (now : ℕ)
      → cursor_row < num_rows
      → is_printable ch ≡ true
      → cursor_col + 1 < num_cols
      → (e' : PredictionEngine) × (new_user_byte e ch cursor_row cursor_col num_cols num_rows
            cell_at now
          ≡ some e')
        × Ready num_cols num_rows e'
        × (e'.predict_overwrite ≡ e.predict_overwrite)
        × ((j : ℕ)
            → j < num_cols
            → shown_line cell_at e'.overlay cursor_row j
              ≡ typed e.predict_overwrite num_cols cursor_col ch
                  (shown_line cell_at e.overlay cursor_row)
                  j)
  new_user_byte-typed ch cell_at now row_in p h =
      let k : Kept e seen = seen-Kept in
      let (e', eq, s, rest) =
        predict_insert-Sized seen ch cursor_row cursor_col num_cols num_rows cell_at now
          (omega arith) seen-Sized in
      let (k', w) = rest h in
      (
        e',
        new_user_byte-seen ch cell_at now
            ∙ printable-inserts cursor_row cursor_col num_cols num_rows ch cell_at now seen p
            ∙ eq,
        Kept-Ready num_cols num_rows e seen e' r k k' s,
        k'.overwrite ∙ k.overwrite,
        λ j l.
            w.line j l
            ∙ ap
                (λ o. typed o num_cols cursor_col ch (shown_line cell_at seen.overlay cursor_row) j)
                k.overwrite
            ∙ ap
                (λ q.
                  typed e.predict_overwrite num_cols cursor_col ch (row_line (cell_at cursor_row) q)
                    j)
                (seen-row cursor_row row_in),
      )

-- A backspace right of the first column, on such an engine: the call does not panic, and the line of
-- the cursor then shows the line it showed with the character left of the cursor deleted.
pub new_user_byte-deleted :
    (num_cols num_rows cursor_row col : ℕ) (e : PredictionEngine) (cell_at : ℕ → ℕ → ℕ) (now : ℕ)
    → cursor_row < num_rows
    → Ready num_cols num_rows e
    → col < num_cols
    → (e' : PredictionEngine) × (new_user_byte e 127 cursor_row
          (suc col)
          num_cols
          num_rows
          cell_at
          now
        ≡ some e')
      × Ready num_cols num_rows e'
      × ((j : ℕ)
          → j < num_cols
          → shown_line cell_at e'.overlay cursor_row j
            ≡ deleted e.predict_overwrite num_cols col (shown_line cell_at e.overlay cursor_row) j)
new_user_byte-deleted num_cols num_rows cursor_row col e cell_at now row_in r h =
    let e₁ : PredictionEngine = seen num_cols num_rows cursor_row (suc col) e r in
    let k : Kept e e₁ = seen-Kept num_cols num_rows cursor_row (suc col) e r in
    let (e', eq, s, k', w) =
      predict_backspace-Sized e₁ cursor_row col num_cols cell_at now h
        (seen-Sized num_cols num_rows cursor_row (suc col) e r) in
    (
      e',
      new_user_byte-seen num_cols num_rows cursor_row (suc col) e r 127 cell_at now ∙ eq,
      Kept-Ready num_cols num_rows e e₁ e' r k k' s,
      λ j l.
          w.line j l
          ∙ ap (λ o. deleted o num_cols col (shown_line cell_at e₁.overlay cursor_row) j)
              k.overwrite
          ∙ ap (λ q. deleted e.predict_overwrite num_cols col (row_line (cell_at cursor_row) q) j)
              (seen-row num_cols num_rows cursor_row (suc col) e r cursor_row row_in),
    )
