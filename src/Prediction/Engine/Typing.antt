-- ===== src/Prediction/Engine/Typing.antt =====
-- crates/morsh-prediction/src/prediction.rs: keystrokes on an engine whose rows have the terminal's
-- width. None of them panics.
use morsh.Common.{
  ℕ, zero, suc, ◌<◌, ◌≡◌, refl, sym, ap, List, [], ◌∷◌, false, Option, none, some, ltb, ◌==◌, arith,
  ◌∙◌, fun_ext, get_elem?, Bool-cases, Option-cases, inl, inr, ==→eq, ==_refl, subst,
}
use morsh.Prediction.Overlay.{
  OverlayRow, Overlay, new_cells, find_row, insert_row, get_row, put_row, get_or_make_row,
  retain_below,
}
use morsh.Prediction.Engine.{PredictionEngine}
use morsh.Prediction.Engine.Keys.{rewrite_row}
use morsh.Prediction.Engine.Shifts.{Cells}
use morsh.Prediction.Engine.Shape.{
  RowShape, OverlayShape, new_row-RowShape, put_row-OverlayShape, find_row-RowShape,
}
use morsh.Prediction.Engine.Line.{Line, shown, shown_cell, Shows}

-- The line of a row, with what is predicted of it.
abbrev pub row_line : (ℕ → ℕ) → Option OverlayRow → Line
row_line server none j = some (server j)
row_line server (some r) j = shown server r.cells j

abbrev pub shown_line : (ℕ → ℕ → ℕ) → Overlay → ℕ → Line
shown_line cell_at o row = row_line (cell_at row) (get_row o row)

-- A row that is put in is found, and the others stay.
find_row-insert_row :
    (rs : List OverlayRow) (r : OverlayRow) → find_row (insert_row rs r) r.row_num ≡ some r
find_row-insert_row [] r = rw (==_refl r.row_num) refl
find_row-insert_row (q ∷ qs) r = elim (Bool-cases (q.row_num == r.row_num)) [
  | inl e ↦ rw (e, ==_refl r.row_num) refl
  | inr e ↦ elim (Bool-cases (ltb r.row_num q.row_num)) [
    | inl l ↦ rw (e, l, ==_refl r.row_num) refl
    | inr l ↦ rw (e, l) (rw e (find_row-insert_row qs r))
  ]
]

find_row-insert_row_ne :
    (rs : List OverlayRow) (r : OverlayRow) (n : ℕ)
    → (r.row_num == n) ≡ false
    → find_row (insert_row rs r) n ≡ find_row rs n
find_row-insert_row_ne [] r n h = rw h refl
find_row-insert_row_ne (q ∷ qs) r n h =
    let rest : _ = find_row-insert_row_ne qs r n h in
    elim (Bool-cases (q.row_num == r.row_num)) [
      | inl e ↦
          let other : (q.row_num == n) ≡ false = rw (==→eq q.row_num r.row_num e) h in
          rw (e, h, other) refl
      | inr e ↦ elim (Bool-cases (ltb r.row_num q.row_num)) [
        | inl l ↦ rw (e, l, h) refl
        | inr l ↦ rw (e, l, rest) refl
      ]
    ]

find_row-row_num :
    (rs : List OverlayRow) (n : ℕ) (r : OverlayRow) → find_row rs n ≡ some r → r.row_num ≡ n
find_row-row_num [] n r e = absurd (ground arith)
find_row-row_num (q ∷ qs) n r e = elim (Bool-cases (q.row_num == n)) [
  | inl same ↦ let eq : q ≡ r = ground (arith, same, e) in rw (sym eq) (==→eq q.row_num n same)
  | inr other ↦ find_row-row_num qs n r (ground (arith, other, e))
]

pub find_row-retain_below :
    (rs : List OverlayRow) (n max_row : ℕ)
    → n < max_row
    → find_row (retain_below max_row rs) n ≡ find_row rs n
find_row-retain_below [] n max_row h = refl
find_row-retain_below (q ∷ qs) n max_row h =
    let rest : _ = find_row-retain_below qs n max_row h in
    elim (Bool-cases (ltb q.row_num max_row)) [
      | inl l ↦ rw (l, rest) refl
      | inr l ↦ let other : (q.row_num == n) ≡ false = ground arith in rw (l, other) rest
    ]

-- The row that a keystroke works on.
made_row-row_num :
    (o : Overlay) (row_num num_cols epoch now : ℕ)
    → (get_or_make_row o row_num num_cols epoch now).0.row_num ≡ row_num
made_row-row_num o row_num num_cols epoch now = elim (Option-cases (find_row o.rows row_num)) [
  | inl e ↦ rw e refl
  | inr (r, e) ↦ rw e (find_row-row_num o.rows row_num r e)
]

pub made_row-RowShape :
    (o : Overlay) (row_num num_cols epoch now : ℕ)
    → OverlayShape num_cols o
    → RowShape num_cols (get_or_make_row o row_num num_cols epoch now).0.cells
made_row-RowShape o row_num num_cols epoch now h = elim (Option-cases (find_row o.rows row_num)) [
  | inl e ↦ rw e (new_row-RowShape row_num num_cols epoch now)
  | inr (r, e) ↦ rw e (find_row-RowShape num_cols row_num o.rows r h e)
]

new_cells-shown :
    (n col epoch now j x : ℕ) → shown_cell (get_elem? (new_cells n col epoch now) j) x ≡ some x
new_cells-shown zero col epoch now j x = refl
new_cells-shown (suc n) col epoch now zero x = refl
new_cells-shown (suc n) col epoch now (suc j) x = new_cells-shown n (suc col) epoch now j x

made_row-line :
    (o : Overlay) (row_num num_cols epoch now : ℕ) (server : ℕ → ℕ)
    → shown server (get_or_make_row o row_num num_cols epoch now).0.cells
      ≡ row_line server (get_row o row_num)
made_row-line o row_num num_cols epoch now server = elim (Option-cases (find_row o.rows row_num)) [
  | inl e ↦ rw e (fun_ext (λ j. new_cells-shown num_cols 0 epoch now j (server j)))
  | inr (r, e) ↦ rw e refl
]

-- What a rewriting of the row of the cursor leaves: the row shows `edit` of its line, the other rows
-- are what they were.
pub record Rewritten (num_cols row_num : ℕ) (cell_at : ℕ → ℕ → ℕ) (edit : Line → Line)
    (o o' : Overlay) : Type 0 where
  pub shape : OverlayShape num_cols o'
  pub line :
      (j : ℕ)
      → j < num_cols
      → shown_line cell_at o' row_num j ≡ edit (shown_line cell_at o row_num) j
  pub others : (n : ℕ) → (row_num == n) ≡ false → get_row o' n ≡ get_row o n

module _ (num_cols row_num : ℕ) (cell_at : ℕ → ℕ → ℕ) (edit : Line → Line) where
  pub rewrite_row-Rewritten :
      (e : PredictionEngine) (now : ℕ) (f : Cells → Option Cells)
      → OverlayShape num_cols e.overlay
      → ((cells : Cells)
          → RowShape num_cols cells
          → (cells' : Cells) × (f cells ≡ some cells')
            × Shows num_cols (cell_at row_num) (edit (shown (cell_at row_num) cells)) cells')
      → (o' : Overlay) × (rewrite_row e row_num num_cols now f ≡ some o')
        × Rewritten num_cols row_num cell_at edit e.overlay o'
  rewrite_row-Rewritten e now f h works =
      let (row, o) = get_or_make_row e.overlay row_num num_cols e.prediction_epoch now in
      let num : row.row_num ≡ row_num =
        made_row-row_num e.overlay row_num num_cols e.prediction_epoch now in
      let shape : RowShape num_cols row.cells =
        made_row-RowShape e.overlay row_num num_cols e.prediction_epoch now h in
      let line : shown (cell_at row_num) row.cells ≡ shown_line cell_at e.overlay row_num =
        made_row-line e.overlay row_num num_cols e.prediction_epoch now (cell_at row_num) in
      let (cells', e', shows) = works row.cells shape in
      let row' : OverlayRow = record row { cells = cells' } in
      let there : get_row (put_row o row') row_num ≡ some row' =
        subst (λ n. find_row (insert_row o.rows row') n ≡ some row') num
          (find_row-insert_row o.rows row') in
      (
        put_row o row',
        rw e' refl,
        record {
          shape =
              put_row-OverlayShape num_cols o row' shows.shape
                (put_row-OverlayShape num_cols e.overlay row shape h);
          line = λ j l.
              ap (λ r. row_line (cell_at row_num) r j) there
              ∙ shows.reads j l
              ∙ ap (λ ln. edit ln j) line;
          others = λ n other.
              let ne : (row.row_num == n) ≡ false = rw num other in
              find_row-insert_row_ne o.rows row' n ne
              ∙ find_row-insert_row_ne e.overlay.rows row n ne;
        },
      )
