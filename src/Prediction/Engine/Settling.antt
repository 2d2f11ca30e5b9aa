-- ===== src/Prediction/Engine/Settling.antt =====
-- crates/morsh-prediction/src/prediction.rs: predictions do not outlive their acknowledgment.
use morsh.Common.{
  ℕ, ◌≡◌, refl, List, [], ◌∷◌, Bool, true, false, ◌&&◌, ◌||◌, ltb, leb, ◌==◌, if◌then◌else◌, All,
  Bool-cases, ◌⊎◌, inl, inr, arith, last?,
}
use morsh.Prediction.Overlay.{
  Validity, correct, correct_no_credit, incorrect_or_expired, inactive, ConditionalOverlayCell,
  ConditionalCursorMove, OverlayRow, any_active, rows_active, cell_validity, cursor_validity,
  contains, space, u64_max,
}
use morsh.Prediction.Engine.{PredictionEngine, is_active, wait_time_ms, timing_tests_necessary}
use morsh.Prediction.Engine.Validate.{
  Scan, judge, validity_in, validate_cells, validate_rows, cursor_validity_in, is_pending,
  is_incorrect, cursor_fails, retain_pending, initial_scan, validate_predictions,
}
use morsh.Prediction.Engine.Validating.{judge-should_reset, cells-should_reset, rows-should_reset}

-- The frame of a prediction is acknowledged, if it is active at all.
abbrev pub CellAcked : ℕ → ConditionalOverlayCell → Type 0
CellAcked late_ack c = (c.active && ltb late_ack c.expiration_frame) ≡ false

abbrev pub CursorAcked : ℕ → ConditionalCursorMove → Type 0
CursorAcked late_ack c = (c.active && ltb late_ack c.expiration_frame) ≡ false

-- What a validation finds of such a cell: it is inactive, wrong, or right.
abbrev Outcome : ConditionalOverlayCell → Validity → Type 0
Outcome c v =
    ((v ≡ inactive) × (c.active ≡ false))
    ⊎ ((v ≡ incorrect_or_expired) ⊎ ((v ≡ correct) ⊎ (v ≡ correct_no_credit)))

cell_validity-Outcome :
    (c : ConditionalOverlayCell) (actual row_height col_width late_ack : ℕ)
    → CellAcked late_ack c
    → Outcome c (cell_validity c actual row_height col_width late_ack)
cell_validity-Outcome c actual row_height col_width late_ack h = elim (Bool-cases c.active) [
  | inr off ↦ rw off (inl (refl, refl))
  | inl on ↦
      let due : ltb late_ack c.expiration_frame ≡ false = ground (arith, on, h) in
      elim (Bool-cases ((row_height == 0) || leb col_width c.col)) [
        | inl out ↦ rw (on, out) (inr (inl refl))
        | inr inside ↦ elim (Bool-cases c.unknown) [
          | inl u ↦ rw (on, inside, due, u) (inr (inr (inr refl)))
          | inr u ↦ elim (Bool-cases ((c.replacement == space) && (actual == space))) [
            | inl b ↦ rw (on, inside, due, u, b) (inr (inr (inr refl)))
            | inr b ↦ elim (Bool-cases (actual == c.replacement)) [
              | inr r ↦ rw (on, inside, due, u, b, r) (inr (inl refl))
              | inl r ↦ elim (Bool-cases (contains c.original_contents actual)) [
                | inl o ↦ rw (on, inside, due, u, b, r, o) (inr (inr (inr refl)))
                | inr o ↦ rw (on, inside, due, u, b, r, o) (inr (inr (inl refl)))
              ]
            ]
          ]
        ]
      ]
]

cursor_validity-pending :
    (c : ConditionalCursorMove) (row col row_height col_width late_ack : ℕ)
    → CursorAcked late_ack c
    → is_pending (cursor_validity c row col row_height col_width late_ack) ≡ false
cursor_validity-pending c row col row_height col_width late_ack h = elim (Bool-cases c.active) [
  | inr off ↦ rw off refl
  | inl on ↦
      let due : leb c.expiration_frame late_ack ≡ true = ground (arith, on, h) in
      elim (Bool-cases (leb row_height c.row || leb col_width c.col)) [
        | inl out ↦ rw (on, out) refl
        | inr inside ↦ elim (Bool-cases ((row == c.row) && (col == c.col))) [
          | inl s ↦ rw (on, inside, due, s) refl
          | inr s ↦ rw (on, inside, due, s) refl
        ]
      ]
]

judge-settled :
    (v : Validity) (now : ℕ) (c : ConditionalOverlayCell) (s : Scan)
    → Outcome c v
    → is_incorrect v ≡ false
    → (judge v now c s).1.active ≡ false
judge-settled v now c s (inl (e, off)) k = rw e off
judge-settled v now c s (inr (inl e)) k = absurd (ground (arith, e, k))
judge-settled v now c s (inr (inr (inl e))) k = rw e refl
judge-settled v now c s (inr (inr (inr e))) k = rw e refl

module _ (e : PredictionEngine) (get_cell : ℕ → ℕ → ℕ) (now : ℕ) where
  cells-settled :
      (rn : ℕ) (cs : List ConditionalOverlayCell) (s : Scan)
      → All (CellAcked e.local_frame_late_acked) cs
      → (validate_cells e get_cell rn now cs s).0.should_reset ≡ false
      → any_active (validate_cells e get_cell rn now cs s).1 ≡ false
  cells-settled rn [] s h k = refl
  cells-settled rn (c ∷ cs) s h k =
      let v : Validity = validity_in e get_cell rn c in
      let s₁ : Scan = (judge v now c s).0 in
      let one : _ = judge-should_reset v now c s in
      let rest : s₁.should_reset ≡ false = cells-should_reset e get_cell now rn cs s₁ k in
      let found : Outcome c v =
        cell_validity-Outcome c (get_cell rn c.col) e.last_height e.last_width
          e.local_frame_late_acked h.0 in
      let off : (judge v now c s).1.active ≡ false =
        judge-settled v now c s found (ground (arith, one, rest)) in
      rw off (cells-settled rn cs s₁ h.1 k)

  rows-settled :
      (rs : List OverlayRow) (s : Scan)
      → All (λ r. All (CellAcked e.local_frame_late_acked) r.cells) rs
      → (validate_rows e get_cell now rs s).0.should_reset ≡ false
      → rows_active (validate_rows e get_cell now rs s).1 ≡ false
  rows-settled [] s h k = refl
  rows-settled (r ∷ rs) s h k =
      let s₁ : Scan = (validate_cells e get_cell r.row_num now r.cells s).0 in
      let row : _ =
        cells-settled r.row_num r.cells s h.0 (rows-should_reset e get_cell now rs s₁ k) in
      rw row (rows-settled rs s₁ h.1 k)

retain-settled :
    (v : ConditionalCursorMove → Validity) (cs : List ConditionalCursorMove)
    → All (λ c. is_pending (v c) ≡ false) cs
    → retain_pending v cs ≡ []
retain-settled v [] h = refl
retain-settled v (c ∷ cs) h = rw h.0 (retain-settled v cs h.1)

module _ (e : PredictionEngine) (get_cell : ℕ → ℕ → ℕ) (cursor_row cursor_col now : ℕ) where
  cursors-settled :
      (cs : List ConditionalCursorMove)
      → All (CursorAcked e.local_frame_late_acked) cs
      → All (λ c. is_pending (cursor_validity_in e cursor_row cursor_col c) ≡ false) cs
  cursors-settled [] h = tt
  cursors-settled (c ∷ cs) h = (
    cursor_validity-pending c cursor_row cursor_col e.last_height e.last_width
        e.local_frame_late_acked h.0,
    cursors-settled cs h.1,
  )

  -- Once the server has acknowledged the frames of all active predictions, a validation ends them
  -- all, right or wrong: no cell of the overlay is active, no cursor is predicted, and the engine
  -- asks for no more timing checks.
  pub validate_predictions-settles :
      All (λ r. All (CellAcked e.local_frame_late_acked) r.cells) e.overlay.rows
      → All (CursorAcked e.local_frame_late_acked) e.cursors
      → let e' = validate_predictions e get_cell cursor_row cursor_col now in
        (is_active e' ≡ false) × (e'.cursors ≡ []) × (wait_time_ms e' ≡ u64_max)
  validate_predictions-settles cells cursors =
      let out : _ = validate_rows e get_cell now e.overlay.rows (initial_scan e) in
      let v : _ = cursor_validity_in e cursor_row cursor_col in
      let gone : retain_pending v e.cursors ≡ [] =
        retain-settled v e.cursors (cursors-settled e.cursors cursors) in
      ended (validate_predictions e get_cell cursor_row cursor_col now)
        (elim (Bool-cases (out.0.should_reset || cursor_fails v (last? e.cursors))) [
          | inl r ↦ rw r (refl, refl)
          | inr k ↦
              let off : rows_active out.1 ≡ false =
                rows-settled e get_cell now e.overlay.rows (initial_scan e) cells
                  (ground (arith, k)) in
              rw k (off, gone)
        ])
    where
      no_wait : (b t : Bool) → b ≡ false → (if t && b then 50 else u64_max) ≡ u64_max
      no_wait b true h = rw h refl
      no_wait b false h = refl

      ended :
          (q : PredictionEngine)
          → (is_active q ≡ false) × (q.cursors ≡ [])
          → (is_active q ≡ false) × (q.cursors ≡ []) × (wait_time_ms q ≡ u64_max)
      ended q (off, none_left) =
          (off, none_left, no_wait (is_active q) (timing_tests_necessary q) off)
