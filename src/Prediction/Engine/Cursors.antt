-- ===== src/Prediction/Engine/Cursors.antt =====
-- crates/morsh-prediction/src/prediction.rs: the predicted cursors stay left of the right edge, as long
-- as the cursor that is given does.
use morsh.Common.{
  ℕ, zero, suc, ◌+◌, ◌-◌, ◌<◌, List, [], ◌∷◌, Option, none, some, Bool, true, false, not, ◌&&◌,
  ◌||◌, ltb, leb, ◌==◌, if◌then◌else◌, All, All-append, Bool-cases, inl, inr, arith, last?, ltb→lt,
}
use morsh.Common.Options.{◌>>=◌}
use morsh.Prediction.Overlay.{ConditionalCursorMove, space}
use morsh.Prediction.Engine.{
  PredictionEngine, InputState, ground_state, escape, csi, ss3, next64, become_tentative,
  init_cursor, fresh_cursor, in_epoch, is_never, cull,
}
use morsh.Prediction.Engine.Cells.{backspace_cells, insert_cells}
use morsh.Prediction.Engine.Keys.{
  map_last, arrow, arrow_key, predict_cursor_key, return_cursor, newline_carriage_return, to_column,
  rewrite_row, predict_backspace, predict_insert, is_control, is_ascii_graphic, ground_byte,
  escape_byte, is_final, input_byte, resized, new_user_byte,
}

module _ (width : ℕ) where
  -- Every predicted cursor is left of the right edge.
  abbrev pub CursorsIn : PredictionEngine → Type 0
  CursorsIn e = All (λ c. c.col < width) e.cursors

  abbrev pub ResultIn : Option PredictionEngine → Type 0
  ResultIn none = Unit
  ResultIn (some e) = CursorsIn e

  bind-ResultIn :
      {A : Type 0} (o : Option A) (f : A → Option PredictionEngine)
      → ((a : A) → ResultIn (f a))
      → ResultIn (o >>= f)
  bind-ResultIn none f h = tt
  bind-ResultIn (some a) f h = h a

  map_last-In :
      (f : ConditionalCursorMove → ConditionalCursorMove) (cs : List ConditionalCursorMove)
      → ((c : ConditionalCursorMove) → c.col < width → (f c).col < width)
      → All (λ c. c.col < width) cs
      → All (λ c. c.col < width) (map_last f cs)
  map_last-In f [] h k = tt
  map_last-In f (c ∷ []) h k = (h c k.0, tt)
  map_last-In f (c ∷ d ∷ cs) h k = (k.0, map_last-In f (d ∷ cs) h k.1)

  -- A rewriting of cursors that keeps them in.
  abbrev Keeps : Option (ConditionalCursorMove → ConditionalCursorMove) → Type 0
  Keeps none = Unit
  Keeps (some f) = (c : ConditionalCursorMove) → c.col < width → (f c).col < width

  right-Keeps :
      (frame : ℕ) (c : ConditionalCursorMove)
      → c.col < width
      → (if ltb (c.col + 1) width
          then record c { col = c.col + 1; expiration_frame = frame }
          else c).col
        < width
  right-Keeps frame c h = elim (Bool-cases (ltb (c.col + 1) width)) [
    | inl e ↦ let l : _ = ltb→lt (c.col + 1) width e in rw e l
    | inr e ↦ rw e h
  ]

  left-Keeps :
      (frame : ℕ) (c : ConditionalCursorMove)
      → c.col < width
      → (if ltb 0 c.col then record c { col = c.col - 1; expiration_frame = frame } else c).col
        < width
  left-Keeps frame c h =
      let less : c.col - 1 < width = omega arith in
      elim (Bool-cases (ltb 0 c.col)) [ inl e ↦ rw e less | inr e ↦ rw e h ]

  arrow-Keeps : (final_byte frame : ℕ) → Keeps (arrow final_byte width frame)
  arrow-Keeps final_byte frame = elim (Bool-cases (final_byte == 67)) [
    | inl e ↦ rw e (right-Keeps frame)
    | inr e ↦ elim (Bool-cases (final_byte == 68)) [
      | inl d ↦ rw (e, d) (left-Keeps frame)
      | inr d ↦ rw (e, d) tt
    ]
  ]

  arrow_key-CursorsIn :
      (e : PredictionEngine) (f : Option (ConditionalCursorMove → ConditionalCursorMove))
      (cs : List ConditionalCursorMove)
      → Keeps f
      → All (λ c. c.col < width) cs
      → CursorsIn (arrow_key e f cs)
  arrow_key-CursorsIn e none cs k h = tt
  arrow_key-CursorsIn e (some f) [] k h = tt
  arrow_key-CursorsIn e (some f) (c ∷ cs) k h = map_last-In f (c ∷ cs) k h

  cursor_key-CursorsIn :
      (e : PredictionEngine) (b : ℕ) → CursorsIn e → CursorsIn (predict_cursor_key e b width)
  cursor_key-CursorsIn e b h =
      arrow_key-CursorsIn e (arrow b width (next64 e.local_frame_sent)) e.cursors
        (arrow-Keeps b (next64 e.local_frame_sent)) h

  module _ (cursor_row cursor_col num_rows : ℕ) (cell_at : ℕ → ℕ → ℕ) (now : ℕ)
      (inside : cursor_col < width) where
    predict_insert-ResultIn :
        (e : PredictionEngine) (ch : ℕ)
        → CursorsIn e
        → ResultIn (predict_insert e ch cursor_row cursor_col width num_rows cell_at now)
    predict_insert-ResultIn e ch h = elim (Bool-cases (leb width (cursor_col + 1))) [
      | inl l ↦ rw l (moved (become_tentative e) h)
      | inr l ↦ rw l (moved e h)
    ]
      where
        moved :
            (e₁ : PredictionEngine)
            → CursorsIn e₁
            → ResultIn (
                rewrite_row e₁ cursor_row width now (
                  insert_cells e₁.predict_overwrite e₁.prediction_epoch
                    (next64 e₁.local_frame_sent)
                    now
                    (cell_at cursor_row)
                    width
                    cursor_col
                    ch)
                >>= (λ overlay.
                    let e₂ = record e₁ { overlay = overlay } in
                    some (
                      if ltb (cursor_col + 1) width
                      then record e₂ {
                        cursors =
                            map_last
                              (to_column (cursor_col + 1) (next64 e₁.local_frame_sent))
                              e₂.cursors;
                      }
                      else newline_carriage_return
                          (become_tentative e₂)
                          cursor_row
                          width
                          num_rows
                          now)))
        moved e₁ k =
            bind-ResultIn
              (rewrite_row e₁ cursor_row width now (
                insert_cells e₁.predict_overwrite e₁.prediction_epoch (next64 e₁.local_frame_sent)
                  now (cell_at cursor_row) width cursor_col ch))
              _
              (λ o. elim (Bool-cases (ltb (cursor_col + 1) width)) [
                | inl u ↦
                    let l : cursor_col + 1 < width = ltb→lt (cursor_col + 1) width u in
                    rw u (
                      map_last-In (to_column (cursor_col + 1) (next64 e₁.local_frame_sent))
                        e₁.cursors (λ c x. l) k)
                | inr u ↦
                    let z : 0 < width = omega arith in
                    rw u (
                      map_last-In (return_cursor (next64 e₁.local_frame_sent) num_rows) e₁.cursors
                        (λ c x. z) k)
              ])

    predict_backspace-ResultIn :
        (e : PredictionEngine) (col : ℕ)
        → col < width
        → CursorsIn e
        → ResultIn (predict_backspace e cursor_row col width cell_at now)
    predict_backspace-ResultIn e zero l h = h
    predict_backspace-ResultIn e (suc new_col) l h =
        let frame : ℕ = next64 e.local_frame_sent in
        let less : new_col < width = omega arith in
        bind-ResultIn
          (rewrite_row e cursor_row width now (
            backspace_cells e.predict_overwrite e.prediction_epoch frame now (cell_at cursor_row)
              width new_col))
          _ (λ o. map_last-In (to_column new_col frame) e.cursors (λ c x. less) h)

    ground_byte-ResultIn :
        (e : PredictionEngine) (ch : ℕ)
        → CursorsIn e
        → ResultIn (ground_byte e ch cursor_row cursor_col width num_rows cell_at now)
    ground_byte-ResultIn e ch h = elim (Bool-cases (ch == 27)) [
      | inl a ↦ rw a h
      | inr a ↦ elim (Bool-cases (ch == 127)) [
        | inl b ↦ rw (a, b) (predict_backspace-ResultIn e cursor_col inside h)
        | inr b ↦
            elim (Bool-cases (is_control ch || not (is_ascii_graphic ch) && not (ch == space))) [
              | inl c ↦ rw (a, b, c) tt
              | inr c ↦ rw (a, b, c) (predict_insert-ResultIn e ch h)
            ]
      ]
    ]

    escape_byte-CursorsIn :
        (e : PredictionEngine) (ch : ℕ) → CursorsIn e → CursorsIn (escape_byte e ch)
    escape_byte-CursorsIn e ch h = elim (Bool-cases (ch == 91)) [
      | inl a ↦ rw a h
      | inr a ↦ elim (Bool-cases (ch == 79)) [ inl b ↦ rw (a, b) h | inr b ↦ rw (a, b) tt ]
    ]

    input_byte-ResultIn :
        (i : InputState) (e : PredictionEngine) (ch : ℕ)
        → CursorsIn e
        → ResultIn (input_byte i e ch cursor_row cursor_col width num_rows cell_at now)
    input_byte-ResultIn ground_state e ch h = ground_byte-ResultIn e ch h
    input_byte-ResultIn escape e ch h = escape_byte-CursorsIn e ch h
    input_byte-ResultIn csi e ch h = elim (Bool-cases (is_final ch)) [
      | inl a ↦ rw a (cursor_key-CursorsIn (record e { input_state = ground_state }) ch h)
      | inr a ↦ rw a h
    ]
    input_byte-ResultIn ss3 e ch h =
        cursor_key-CursorsIn (record e { input_state = ground_state }) ch h

    resized-CursorsIn : (e : PredictionEngine) → CursorsIn e → CursorsIn (resized e width num_rows)
    resized-CursorsIn e h =
        elim (Bool-cases (not (e.last_height == num_rows) || not (e.last_width == width))) [
          | inl a ↦ rw a tt
          | inr a ↦ rw a h
        ]

    cull-CursorsIn : (e : PredictionEngine) → CursorsIn e → CursorsIn (cull e num_rows)
    cull-CursorsIn e h = elim (Bool-cases (is_never e.display_preference)) [
      | inl a ↦ rw a h
      | inr a ↦ rw a h
    ]

    init_cursor-CursorsIn :
        (e : PredictionEngine) → CursorsIn e → CursorsIn (init_cursor e cursor_row cursor_col)
    init_cursor-CursorsIn e h = elim (Bool-cases (in_epoch (last? e.cursors) e.prediction_epoch)) [
      | inl a ↦ rw a h
      | inr a ↦
          let more : _ =
            All-append (λ c. c.col < width) e.cursors (fresh_cursor e cursor_row cursor_col ∷ []) h
              (inside, tt) in
          rw a more
    ]

    pub new_user_byte-ResultIn :
        (e : PredictionEngine) (ch : ℕ)
        → CursorsIn e
        → ResultIn (new_user_byte e ch cursor_row cursor_col width num_rows cell_at now)
    new_user_byte-ResultIn e ch h =
        let r : PredictionEngine = resized e width num_rows in
        let e₁ : PredictionEngine = init_cursor (cull r num_rows) cursor_row cursor_col in
        let k : CursorsIn e₁ =
          init_cursor-CursorsIn (cull r num_rows) (cull-CursorsIn r (resized-CursorsIn e h)) in
        seen (is_never e.display_preference) e e₁ h k
      where
        seen :
            (b : Bool) (e e₁ : PredictionEngine)
            → CursorsIn e
            → CursorsIn e₁
            → ResultIn (
                if b
                then some e
                else input_byte e₁.input_state e₁ ch cursor_row cursor_col width num_rows cell_at
                    now)
        seen true e e₁ h k = h
        seen false e e₁ h k = input_byte-ResultIn e₁.input_state e₁ ch k
