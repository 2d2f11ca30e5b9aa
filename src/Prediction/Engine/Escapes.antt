-- ===== src/Prediction/Engine/Escapes.antt =====
-- crates/morsh-prediction/src/prediction.rs: the keys that a terminal sends as escape sequences.
use morsh.Common.{
  ℕ, ◌<◌, ◌≡◌, refl, ap, List, [], ◌∷◌, ◌++◌, true, false, Option, none, some, ◌==◌, All, ◌∙◌,
}
use morsh.Common.Options.{◌>>=◌}
use morsh.Prediction.Overlay.{ConditionalCursorMove, get_row}
use morsh.Prediction.Engine.{
  PredictionEngine, InputState, ground_state, escape, csi, ss3, next64, unknown_input,
}
use morsh.Prediction.Engine.Keys.{
  arrow, arrow_key, predict_cursor_key, escape_byte, input_byte, new_user_byte, is_final,
}
use morsh.Prediction.Engine.Keystrokes.{Kept}
use morsh.Prediction.Engine.Prepared.{
  Steady, prepared, prepared-Kept, prepared-row, new_user_byte-prepared,
}

-- ESC [ and a final byte, with parameters between; ESC O and a byte; ESC and another byte.
pub data KeySequence : Type 0 where
  csi_sequence :
      (params : List ℕ) (final : ℕ)
      → All (λ b. is_final b ≡ false) params
      → is_final final ≡ true
      → KeySequence
  ss3_sequence : (final : ℕ) → KeySequence
  alt_key : (key : ℕ) → (key == 91) ≡ false → (key == 79) ≡ false → KeySequence

abbrev pub bytes_of : KeySequence → List ℕ
bytes_of (csi_sequence params final p f) = 27 ∷ 91 ∷ params ++ final ∷ []
bytes_of (ss3_sequence final) = 27 ∷ 79 ∷ final ∷ []
bytes_of (alt_key key a b) = 27 ∷ key ∷ []

-- A screen, and where its cursor is.
pub record Screen : Type 0 where
  pub cursor_row : ℕ
  pub cursor_col : ℕ
  pub num_cols : ℕ
  pub num_rows : ℕ
  pub cell_at : ℕ → ℕ → ℕ

-- One keystroke after another, on the same screen.
abbrev pub type_bytes : PredictionEngine → List ℕ → Screen → ℕ → Option PredictionEngine
type_bytes e [] s now = some e
type_bytes e (b ∷ bs) s now =
    new_user_byte e b s.cursor_row s.cursor_col s.num_cols s.num_rows s.cell_at now
    >>= (λ e'. type_bytes e' bs s now)

-- An engine in the state `i` of the input, with the rows of the screen that `e` has.
pub record Quiet (s : Screen) (e : PredictionEngine) (i : InputState) (e' : PredictionEngine)
    : Type 0 where
  pub steady : Steady s.num_cols s.num_rows e'
  pub input : e'.input_state ≡ i
  pub rows : (n : ℕ) → n < s.num_rows → get_row e'.overlay n ≡ get_row e.overlay n

abbrev pub Quietly : Screen → PredictionEngine → InputState → Option PredictionEngine → Type 0
Quietly s e i r = (e' : PredictionEngine) × (r ≡ some e') × Quiet s e i e'

module _ (s : Screen) (e : PredictionEngine) (now : ℕ) where
  -- The engine that sees a byte is as quiet.
  prepared-Quiet :
      (i : InputState) (q : PredictionEngine) (h : Quiet s e i q)
      → Quiet s e i (prepared s.num_cols s.num_rows s.cursor_row s.cursor_col q h.steady)
  prepared-Quiet i q h =
      let k : Kept q (prepared s.num_cols s.num_rows s.cursor_row s.cursor_col q h.steady) =
        prepared-Kept s.num_cols s.num_rows s.cursor_row s.cursor_col q h.steady in
      record {
        steady = record {
          predicts = rw k.display h.steady.predicts;
          width = k.width ∙ h.steady.width;
          height = k.height ∙ h.steady.height;
        };
        input = k.input ∙ h.input;
        rows = λ n l.
            prepared-row s.num_cols s.num_rows s.cursor_row s.cursor_col q h.steady n l
            ∙ h.rows n l;
      }

  -- A byte, after what the state of the input makes of it.
  byte-Quietly :
      (i j : InputState) (b : ℕ)
      → ((q : PredictionEngine)
          → Quiet s e i q
          → Quietly s e j
              (input_byte i q b s.cursor_row s.cursor_col s.num_cols s.num_rows s.cell_at now))
      → (q : PredictionEngine) (h : Quiet s e i q)
      → Quietly s e j
          (new_user_byte q b s.cursor_row s.cursor_col s.num_cols s.num_rows s.cell_at now)
  byte-Quietly i j b works q h =
      let seen : PredictionEngine =
        prepared s.num_cols s.num_rows s.cursor_row s.cursor_col q h.steady in
      let (e', eq, quiet) = works seen (prepared-Quiet i q h) in
      (
        e',
        new_user_byte-prepared s.num_cols s.num_rows s.cursor_row s.cursor_col q h.steady b
              s.cell_at now
            ∙ ap
                (λ k.
                  input_byte k seen b s.cursor_row s.cursor_col s.num_cols s.num_rows s.cell_at now)
                h.input
            ∙ eq,
        quiet,
      )

  to_state :
      (i j : InputState) (q : PredictionEngine)
      → Quiet s e i q
      → Quiet s e j (record q { input_state = j })
  to_state i j q h = record {
    steady = record {
      predicts = h.steady.predicts;
      width = h.steady.width;
      height = h.steady.height;
    };
    input = refl;
    rows = h.rows;
  }

  unknown-Quiet :
      (i : InputState) (q : PredictionEngine) → Quiet s e i q → Quiet s e i (unknown_input q)
  unknown-Quiet i q h = record {
    steady = record {
      predicts = h.steady.predicts;
      width = h.steady.width;
      height = h.steady.height;
    };
    input = h.input;
    rows = h.rows;
  }

  arrow_key-Quiet :
      (i : InputState) (q : PredictionEngine)
      (f : Option (ConditionalCursorMove → ConditionalCursorMove)) (cs : List ConditionalCursorMove)
      → Quiet s e i q
      → Quiet s e i (arrow_key q f cs)
  arrow_key-Quiet i q none cs h = unknown-Quiet i q h
  arrow_key-Quiet i q (some f) [] h = unknown-Quiet i q h
  arrow_key-Quiet i q (some f) (c ∷ cs) h = record {
    steady = record {
      predicts = h.steady.predicts;
      width = h.steady.width;
      height = h.steady.height;
    };
    input = h.input;
    rows = h.rows;
  }

  cursor_key-Quietly :
      (i : InputState) (q : PredictionEngine) (b : ℕ)
      → Quiet s e i q
      → Quietly s e ground_state
          (some (predict_cursor_key (record q { input_state = ground_state }) b s.num_cols))
  cursor_key-Quietly i q b h =
      let q₀ : PredictionEngine = record q { input_state = ground_state } in
      (
        predict_cursor_key q₀ b s.num_cols,
        refl,
        arrow_key-Quiet ground_state q₀ (arrow b s.num_cols (next64 q₀.local_frame_sent)) q₀.cursors
            (to_state i ground_state q h),
      )

  -- The bytes of the sequences, one by one.
  esc-Quietly :
      (q : PredictionEngine)
      → Quiet s e ground_state q
      → Quietly s e escape
          (new_user_byte q 27 s.cursor_row s.cursor_col s.num_cols s.num_rows s.cell_at now)
  esc-Quietly =
      byte-Quietly ground_state escape 27
        (λ q h. (record q { input_state = escape }, refl, to_state ground_state escape q h))

  second-Quietly :
      (j : InputState) (b : ℕ)
      → ((q : PredictionEngine) → Quiet s e escape q → Quiet s e j (escape_byte q b))
      → (q : PredictionEngine) → Quiet s e escape q
      → Quietly s e j
          (new_user_byte q b s.cursor_row s.cursor_col s.num_cols s.num_rows s.cell_at now)
  second-Quietly j b works = byte-Quietly escape j b (λ q h. (escape_byte q b, refl, works q h))

  alt-Quiet :
      (b : ℕ)
      → (b == 91) ≡ false
      → (b == 79) ≡ false
      → (q : PredictionEngine) → Quiet s e escape q
      → Quiet s e ground_state (escape_byte q b)
  alt-Quiet b x y q h =
      rw (x, y) (to_state escape ground_state (unknown_input q) (unknown-Quiet escape q h))

  final-Quietly :
      (b : ℕ)
      → is_final b ≡ true
      → (q : PredictionEngine) → Quiet s e csi q
      → Quietly s e ground_state
          (new_user_byte q b s.cursor_row s.cursor_col s.num_cols s.num_rows s.cell_at now)
  final-Quietly b f = byte-Quietly csi ground_state b (λ q h. rw f (cursor_key-Quietly csi q b h))

  -- Parameters and the final byte.
  params-Quietly :
      (params : List ℕ) (b : ℕ)
      → All (λ p. is_final p ≡ false) params
      → is_final b ≡ true
      → (q : PredictionEngine) → Quiet s e csi q
      → Quietly s e ground_state (type_bytes q (params ++ b ∷ []) s now)
  params-Quietly [] b p f q h =
      let (e', eq, quiet) = final-Quietly b f q h in (e', rw eq refl, quiet)
  params-Quietly (c ∷ cs) b p f q h =
      let (q', eq, quiet) = byte-Quietly csi csi c (λ r k. rw p.0 (r, refl, k)) q h in
      let (e', eq', quiet') = params-Quietly cs b p.1 f q' quiet in (e', rw eq eq', quiet')

  start : Steady s.num_cols s.num_rows e → e.input_state ≡ ground_state → Quiet s e ground_state e
  start st g = record { steady = st; input = g; rows = λ n l. refl }

  -- The bytes of a key's escape sequence, typed one by one on an engine that predicts, on a
  -- terminal of the size it last saw and outside a sequence, never panic, wherever the cursor is.
  -- They leave the engine outside a sequence, with no text predicted: every row of the screen keeps
  -- its cells.
  pub type_bytes-KeySequence :
      (k : KeySequence)
      → Steady s.num_cols s.num_rows e
      → e.input_state ≡ ground_state
      → Quietly s e ground_state (type_bytes e (bytes_of k) s now)
  type_bytes-KeySequence (csi_sequence params final p f) st g =
      let (q₁, eq₁, h₁) = esc-Quietly e (start st g) in
      let (q₂, eq₂, h₂) = second-Quietly csi 91 (to_state escape csi) q₁ h₁ in
      let (e', eq', h') = params-Quietly params final p f q₂ h₂ in (e', rw eq₁ (rw eq₂ eq'), h')
  type_bytes-KeySequence (ss3_sequence final) st g =
      let (q₁, eq₁, h₁) = esc-Quietly e (start st g) in
      let (q₂, eq₂, h₂) = second-Quietly ss3 79 (to_state escape ss3) q₁ h₁ in
      let (e', eq', h') =
        byte-Quietly ss3 ground_state final (λ q h. cursor_key-Quietly ss3 q final h) q₂ h₂ in
      (e', rw eq₁ (rw eq₂ (rw eq' refl)), h')
  type_bytes-KeySequence (alt_key key a b) st g =
      let (q₁, eq₁, h₁) = esc-Quietly e (start st g) in
      let (e', eq', h') = second-Quietly ground_state key (alt-Quiet key a b) q₁ h₁ in
      (e', rw eq₁ (rw eq' refl), h')
