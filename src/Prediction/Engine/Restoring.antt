-- ===== src/Prediction/Engine/Restoring.antt =====
-- crates/morsh-prediction/src/prediction.rs: typing and then deleting, in the screen.
use morsh.Common.{
  ℕ, suc, ◌+◌, ◌-◌, ◌<◌, ◌≡◌, refl, ap, true, false, some, ltb, arith, ◌∙◌, Bool-cases, inl, inr,
  ltb→lt, lt→ltb, le→ltb, ne→==, dec_lt,
}
use morsh.Prediction.Engine.{PredictionEngine}
use morsh.Prediction.Engine.Keys.{new_user_byte}
use morsh.Prediction.Engine.Line.{Line, typed, deleted}
use morsh.Prediction.Engine.Typing.{shown_line}
use morsh.Prediction.Engine.Editing.{
  Ready, is_printable, new_user_byte-typed, new_user_byte-deleted,
}

deleted_cong :
    (num_cols col : ℕ) (f g : Line)
    → ((j : ℕ) → j < num_cols → f j ≡ g j)
    → (j : ℕ) → j < num_cols
    → deleted false num_cols col f j ≡ deleted false num_cols col g j
deleted_cong num_cols col f g same j h = elim (Bool-cases (ltb j col)) [
  | inl a ↦ rw a (same j h)
  | inr a ↦ elim (Bool-cases (ltb (j + 2) num_cols)) [
    | inl b ↦
        let near : j + 2 < num_cols = ltb→lt (j + 2) num_cols b in
        rw (a, b) (same (j + 1) (omega arith))
    | inr b ↦ rw (a, b) refl
  ]
]

deleted-typed :
    (num_cols col ch : ℕ) (line : Line) (j : ℕ)
    → j + 2 < num_cols
    → deleted false num_cols col (typed false num_cols col ch line) j ≡ line j
deleted-typed num_cols col ch line j h = elim (dec_lt j col) [
  | yes l ↦ rw (lt→ltb j col l) refl
  | no l ↦
      let back : j + 1 - 1 ≡ j = omega arith in
      rw
        (
          le→ltb j col (omega arith),
          lt→ltb (j + 2) num_cols h,
          le→ltb (j + 1) col (omega arith),
          ne→== (j + 1) col (λ e. omega arith),
          ne→== (j + 1) (num_cols - 1) (λ e. omega arith),
          back,
        )
        refl
]

-- In insert mode a printable character and then a backspace, neither of which panics, leave the
-- line of the cursor as it was shown, but for the last two columns; for an engine that predicts, on
-- a terminal of the size it last saw, outside an escape sequence and with the character left of the
-- last column.
pub new_user_byte-typed_deleted :
    (num_cols num_rows cursor_row col : ℕ) (e : PredictionEngine) (ch : ℕ) (cell_at : ℕ → ℕ → ℕ)
    (now later : ℕ)
    → cursor_row < num_rows
    → Ready num_cols num_rows e
    → e.predict_overwrite ≡ false
    → is_printable ch ≡ true
    → col + 1 < num_cols
    → (e₁ : PredictionEngine) × (e₂ : PredictionEngine) × (new_user_byte e ch cursor_row col
          num_cols num_rows cell_at now
        ≡ some e₁)
      × (new_user_byte e₁ 127 cursor_row (suc col) num_cols num_rows cell_at later ≡ some e₂)
      × ((j : ℕ)
          → j + 2 < num_cols
          → shown_line cell_at e₂.overlay cursor_row j ≡ shown_line cell_at e.overlay cursor_row j)
new_user_byte-typed_deleted num_cols num_rows cursor_row col e ch cell_at now later row_in r o p h =
    let (e₁, eq₁, r₁, o₁, line₁) =
      new_user_byte-typed num_cols num_rows cursor_row col e r ch cell_at now row_in p h in
    let (e₂, eq₂, r₂, line₂) =
      new_user_byte-deleted num_cols num_rows cursor_row col e₁ cell_at later row_in r₁
        (omega arith) in
    let line : Line = shown_line cell_at e.overlay cursor_row in
    (
      e₁,
      e₂,
      eq₁,
      eq₂,
      λ j l.
          line₂ j (omega arith)
          ∙ ap (λ w. deleted w num_cols col (shown_line cell_at e₁.overlay cursor_row) j) (o₁ ∙ o)
          ∙ deleted_cong num_cols col (shown_line cell_at e₁.overlay cursor_row)
              (typed false num_cols col ch line)
              (λ i u. line₁ i u ∙ ap (λ w. typed w num_cols col ch line i) o) j (omega arith)
          ∙ deleted-typed num_cols col ch line j l,
    )
