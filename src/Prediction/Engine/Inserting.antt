-- ===== src/Prediction/Engine/Inserting.antt =====
-- crates/morsh-prediction/src/prediction.rs: the cells that `predict_insert` leaves show the line with
-- the character typed.
use morsh.Common.{
  ℕ, zero, suc, ◌+◌, ◌-◌, ◌≤◌, ◌<◌, ◌≡◌, refl, List, Bool, true, false, none, some, ◌==◌,
  if◌then◌else◌, length, get_or, arith, ◌∙◌, dec_lt, subst, ℕ_discrete, Bool-cases, inl, inr,
  lt→ltb, le→ltb, ==_refl, ne→==,
}
use morsh.Common.Options.{◌>>=◌}
use morsh.Prediction.Overlay.{ConditionalOverlayCell}
use morsh.Prediction.Engine.Cells.{
  CellState, no_state, state_of, predict_char, left_state, shift_right, modify, collect, descending,
  insert_cells,
}
use morsh.Prediction.Engine.Shifts.{
  Cells, Body, get_elem?-in, modify-Shifts, descending-Shifts, collect-get_or,
}
use morsh.Prediction.Engine.Shape.{
  RowShape, Shifted-RowShape, predict_char-KeepsColumn, shift_right-KeepsColumn,
}
use morsh.Prediction.Engine.Line.{
  shown_state, shown, typed, Shows, same-shown, at-shown, suc-sub, left_state-none, neighbour-shown,
}

module _ (epoch frame now : ℕ) (server : ℕ → ℕ) where
  -- A shifted cell of an insertion.
  shift_right-shown :
      (cells : Cells) (states : List CellState) (num_cols k here : ℕ) (c : ConditionalOverlayCell)
      → k < length cells
      → left_state cells (suc k) ≡ some (get_or states (suc k) no_state)
      → shown_state (state_of (shift_right epoch frame now states server num_cols (suc k) c)) here
        ≡ (if suc k == num_cols - 1 then none else shown server cells (suc k - 1))
  shift_right-shown cells states num_cols k here c h e = elim (Bool-cases (suc k == num_cols - 1)) [
    | inl l ↦ rw l refl
    | inr l ↦
        rw (l, suc-sub k)
          (neighbour-shown epoch frame now server cells (get_or states (suc k) no_state) k here c h
            e)
  ]

  -- What an insertion at `col` leaves that rewrites the cells up to `right`.
  record Inserted (num_cols right col ch : ℕ) (cells cells' : Cells) : Type 0 where
    shape : RowShape num_cols cells'
    left_part : (j : ℕ) → j < col → shown server cells' j ≡ shown server cells j
    at_cursor : shown server cells' col ≡ some ch
    moved :
        (k : ℕ)
        → col ≤ k
        → k < right
        → shown server cells' (suc k)
          ≡ (if suc k == num_cols - 1 then none else shown server cells (suc k - 1))
    beyond : (j : ℕ) → col < j → right < j → shown server cells' j ≡ shown server cells j

  -- The part of an insertion that follows the choice of the last column.
  insert_upto-Inserted :
      (num_cols right col ch : ℕ) (cells : Cells)
      → col ≤ right
      → right < num_cols
      → RowShape num_cols cells
      → (cells' : Cells) × ((collect (left_state cells) (right + 1) >>= (λ states.
            descending
              (shift_right epoch frame now states server num_cols)
              (col + 1)
              (right - col)
              cells
            >>= (λ shifted. modify shifted col (predict_char epoch frame now ch))))
          ≡ some cells')
        × Inserted num_cols right col ch cells cells'
  insert_upto-Inserted num_cols right col ch cells lo hi shape =
      let size : length cells ≡ num_cols = shape.same_length in
      let (states, read, at) =
        collect-get_or (left_state cells) (right + 1) no_state
          (λ i l. left_state-none cells i (omega arith)) in
      let body : Body = shift_right epoch frame now states server num_cols in
      let (cells₁, e₁, s₁) = descending-Shifts body (col + 1) (right - col) cells (omega arith) in
      let put : Body = λ j. predict_char epoch frame now ch in
      let (cells₂, e₂, s₂) = modify-Shifts put cells₁ col (omega (arith, s₁.same_length)) in
      (
        cells₂,
        rw (read, e₁) e₂,
        record {
          shape =
              Shifted-RowShape (predict_char-KeepsColumn epoch frame now ch)
                (Shifted-RowShape (shift_right-KeepsColumn epoch frame now states server num_cols)
                  shape s₁)
                s₂;
          left_part =
              λ j l. same-shown server cells cells₂ j (s₂.below j l ∙ s₁.below j (omega arith));
          at_cursor =
              let (c, there) = get_elem?-in cells₁ col (omega (arith, s₁.same_length)) in
              at-shown server cells₁ cells₂ col (put col c)
                (s₂.inside col c (omega arith) (omega arith) there);
          moved = λ k l u.
              let (c, there) = get_elem?-in cells (suc k) (omega arith) in
              at-shown server cells cells₂ (suc k) (body (suc k) c) (
                s₂.above (suc k) (omega arith)
                ∙ s₁.inside (suc k) c (omega arith) (omega arith) there)
              ∙ shift_right-shown cells states num_cols k (server (suc k)) c (omega arith)
                  (at (suc k) (omega arith));
          beyond = λ j l u.
              same-shown server cells cells₂ j
                (s₂.above j (omega arith) ∙ s₁.above j (omega arith));
        },
      )

  typed-over :
      (num_cols col ch j : ℕ) (cells cells' : Cells)
      → Inserted num_cols col col ch cells cells'
      → shown server cells' j ≡ typed true num_cols col ch (shown server cells) j
  typed-over num_cols col ch j cells cells' s = elim (dec_lt j col) [
    | yes l ↦ rw (ne→== j col (λ e. omega arith)) (s.left_part j l)
    | no l ↦ elim (ℕ_discrete j col) [
      | yes e ↦ rw (e, ==_refl col) s.at_cursor
      | no e ↦ rw (ne→== j col e) (s.beyond j (omega arith) (omega arith))
    ]
  ]

  typed-shift :
      (m col ch j : ℕ) (cells cells' : Cells)
      → Inserted (suc m) m col ch cells cells'
      → j < suc m
      → shown server cells' j ≡ typed false (suc m) col ch (shown server cells) j
  typed-shift m col ch zero cells cells' s u = elim (dec_lt 0 col) [
    | yes l ↦ rw (lt→ltb 0 col l) (s.left_part 0 l)
    | no l ↦
        let e : col ≡ 0 = omega arith in
        rw e (subst (λ k. shown server cells' k ≡ some ch) e s.at_cursor)
  ]
  typed-shift m col ch (suc k) cells cells' s u = elim (dec_lt (suc k) col) [
    | yes l ↦ rw (lt→ltb (suc k) col l) (s.left_part (suc k) l)
    | no l ↦ elim (ℕ_discrete (suc k) col) [
      | yes e ↦ rw (le→ltb (suc k) col (omega arith), e, ==_refl col) s.at_cursor
      | no e ↦
          rw (le→ltb (suc k) col (omega arith), ne→== (suc k) col e)
            (s.moved k (omega arith) (omega arith))
    ]
  ]

  -- In range an insertion does not panic, and the row then shows the line with the character typed.
  pub insert_cells-typed :
      (overwrite : Bool) (num_cols col ch : ℕ) (cells : Cells)
      → col < num_cols
      → RowShape num_cols cells
      → (cells' : Cells) × (insert_cells overwrite epoch frame now server num_cols col ch cells
          ≡ some cells')
        × Shows num_cols server (typed overwrite num_cols col ch (shown server cells)) cells'
  insert_cells-typed true num_cols col ch cells h shape =
      let (cells', e, s) = insert_upto-Inserted num_cols col col ch cells (omega arith) h shape in
      (
        cells',
        e,
        record { shape = s.shape; reads = λ j l. typed-over num_cols col ch j cells cells' s },
      )
  insert_cells-typed false zero col ch cells h shape = absurd (omega arith)
  insert_cells-typed false (suc m) col ch cells h shape =
      let (cells', e, s) =
        insert_upto-Inserted (suc m) m col ch cells (omega arith) (omega arith) shape in
      (
        cells',
        e,
        record { shape = s.shape; reads = λ j l. typed-shift m col ch j cells cells' s l },
      )
