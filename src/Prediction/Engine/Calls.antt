-- ===== src/Prediction/Engine/Calls.antt =====
-- crates/morsh-prediction/src/prediction.rs: `new_user_byte` as a whole. A keystroke inside the screen
-- never panics.
use morsh.Common.{
  ℕ, zero, suc, ◌<◌, ◌≡◌, refl, sym, not, ◌||◌, ◌&&◌, some, ◌==◌, arith, Bool-cases, inl, inr,
  subst, last?,
}
use morsh.Prediction.Overlay.{space}
use morsh.Prediction.Engine.{
  PredictionEngine, InputState, ground_state, escape, csi, ss3, unknown_input, init_cursor,
  is_never, cull, in_epoch,
}
use morsh.Prediction.Engine.Keys.{
  predict_cursor_key, predict_backspace, ground_byte, escape_byte, input_byte, resized,
  new_user_byte, is_final, is_control, is_ascii_graphic,
}
use morsh.Prediction.Engine.Shape.{OverlayShape, prune-OverlayShape}
use morsh.Prediction.Engine.Keystrokes.{
  Sized, Works, predict_insert-Sized, predict_backspace-Sized, cursor_key-Sized,
}

-- The rows have the last width seen.
abbrev pub IsValid : PredictionEngine → Type 0
IsValid e = OverlayShape e.last_width e.overlay

module _ (ch cursor_row cursor_col num_cols num_rows : ℕ) (cell_at : ℕ → ℕ → ℕ) (now : ℕ)
    (h : cursor_col < num_cols) where
  backspace-Works :
      (e : PredictionEngine) (col : ℕ)
      → col < num_cols
      → Sized num_cols e
      → Works num_cols (predict_backspace e cursor_row col num_cols cell_at now)
  backspace-Works e zero l s = (e, refl, s)
  backspace-Works e (suc new_col) l s =
      let (e', eq, s', k, r) =
        predict_backspace-Sized e cursor_row new_col num_cols cell_at now (omega arith) s in
      (e', eq, s')

  ground_byte-Works :
      (e : PredictionEngine)
      → Sized num_cols e
      → Works num_cols (ground_byte e ch cursor_row cursor_col num_cols num_rows cell_at now)
  ground_byte-Works e s = elim (Bool-cases (ch == 27)) [
    | inl a ↦
        rw a (record e { input_state = escape }, refl, record { width = s.width; shape = s.shape })
    | inr a ↦ elim (Bool-cases (ch == 127)) [
      | inl b ↦ rw (a, b) (backspace-Works e cursor_col h s)
      | inr b ↦
          elim (Bool-cases (is_control ch || not (is_ascii_graphic ch) && not (ch == space))) [
            | inl c ↦
                rw (a, b, c) (unknown_input e, refl, record { width = s.width; shape = s.shape })
            | inr c ↦
                let (e', eq, s', r) =
                  predict_insert-Sized e ch cursor_row cursor_col num_cols num_rows cell_at now h
                    s in
                rw (a, b, c) (e', eq, s')
          ]
    ]
  ]

  escape_byte-Sized : (e : PredictionEngine) → Sized num_cols e → Sized num_cols (escape_byte e ch)
  escape_byte-Sized e s = elim (Bool-cases (ch == 91)) [
    | inl a ↦ rw a (record { width = s.width; shape = s.shape })
    | inr a ↦ elim (Bool-cases (ch == 79)) [
      | inl b ↦ rw (a, b) (record { width = s.width; shape = s.shape })
      | inr b ↦ rw (a, b) (record { width = s.width; shape = s.shape })
    ]
  ]

  input_byte-Works :
      (i : InputState) (e : PredictionEngine)
      → Sized num_cols e
      → Works num_cols (input_byte i e ch cursor_row cursor_col num_cols num_rows cell_at now)
  input_byte-Works ground_state e s = ground_byte-Works e s
  input_byte-Works escape e s = (escape_byte e ch, refl, escape_byte-Sized e s)
  input_byte-Works csi e s = elim (Bool-cases (is_final ch)) [
    | inl a ↦ rw a (
      predict_cursor_key (record e { input_state = ground_state }) ch num_cols,
      refl,
      cursor_key-Sized num_cols ch e s,
    )
    | inr a ↦ rw a (e, refl, s)
  ]
  input_byte-Works ss3 e s = (
    predict_cursor_key (record e { input_state = ground_state }) ch num_cols,
    refl,
    cursor_key-Sized num_cols ch e s,
  )

pub resized-Sized :
    (e : PredictionEngine) (num_cols num_rows : ℕ)
    → IsValid e
    → Sized num_cols (resized e num_cols num_rows)
resized-Sized e num_cols num_rows v =
    elim (Bool-cases (not (e.last_height == num_rows) || not (e.last_width == num_cols))) [
      | inl a ↦ rw a (record { width = refl; shape = tt })
      | inr a ↦
          let same : e.last_width ≡ num_cols = ground arith in
          rw a (record { width = same; shape = subst (λ w. OverlayShape w e.overlay) same v })
    ]

pub cull-Sized :
    (num_cols num_rows : ℕ) (e : PredictionEngine)
    → Sized num_cols e
    → Sized num_cols (cull e num_rows)
cull-Sized num_cols num_rows e s = elim (Bool-cases (is_never e.display_preference)) [
  | inl a ↦ rw a s
  | inr a ↦
      rw a
        (record { width = s.width; shape = prune-OverlayShape num_cols num_rows e.overlay s.shape })
]

pub init_cursor-Sized :
    (num_cols cursor_row cursor_col : ℕ) (e : PredictionEngine)
    → Sized num_cols e
    → Sized num_cols (init_cursor e cursor_row cursor_col)
init_cursor-Sized num_cols cursor_row cursor_col e s =
    elim (Bool-cases (in_epoch (last? e.cursors) e.prediction_epoch)) [
      | inl a ↦ rw a s
      | inr a ↦ rw a (record { width = s.width; shape = s.shape })
    ]

-- On an engine whose rows have the last width seen, a keystroke with the cursor left of the right
-- edge never panics, whatever the character and the state of the input, and leaves such an engine.
pub new_user_byte-IsValid :
    (e : PredictionEngine) (ch cursor_row cursor_col num_cols num_rows : ℕ) (cell_at : ℕ → ℕ → ℕ)
    (now : ℕ)
    → IsValid e
    → cursor_col < num_cols
    → (e' : PredictionEngine) × (new_user_byte e ch cursor_row cursor_col num_cols num_rows cell_at
          now
        ≡ some e')
      × IsValid e'
new_user_byte-IsValid e ch cursor_row cursor_col num_cols num_rows cell_at now v h =
    elim (Bool-cases (is_never e.display_preference)) [
      | inl a ↦ rw a (e, refl, v)
      | inr a ↦
          let e₁ : PredictionEngine =
            init_cursor (cull (resized e num_cols num_rows) num_rows) cursor_row cursor_col in
          let s : Sized num_cols e₁ =
            init_cursor-Sized num_cols cursor_row cursor_col
              (cull (resized e num_cols num_rows) num_rows)
              (cull-Sized num_cols num_rows (resized e num_cols num_rows)
                (resized-Sized e num_cols num_rows v)) in
          let (e', eq, s') =
            input_byte-Works ch cursor_row cursor_col num_cols num_rows cell_at now h e₁.input_state
              e₁ s in
          rw a (e', eq, subst (λ w. OverlayShape w e'.overlay) (sym s'.width) s'.shape)
    ]
