-- ===== src/Prediction/Engine/Validating.antt =====
-- crates/morsh-prediction/src/prediction.rs: what `validate_predictions` leaves of the predictions.
use morsh.Common.{
  ℕ, zero, suc, ◌≤◌, ◌≡◌, ◌≢◌, refl, List, [], ◌∷◌, true, false, ◌||◌, some, ◌⊎◌, inl, inr,
  if◌then◌else◌, last?, get_elem?, All, Bool-cases, arith,
}
use morsh.Prediction.Overlay.{
  Validity, pending, correct, correct_no_credit, incorrect_or_expired, inactive,
  ConditionalOverlayCell, ConditionalCursorMove, OverlayRow, new_overlay,
}
use morsh.Prediction.Engine.{PredictionEngine, next64}
use morsh.Prediction.Engine.Validate.{
  Scan, confirm, wait, judge, validity_in, validate_cells, validate_rows, cursor_validity_in,
  is_pending, is_incorrect, cursor_fails, retain_pending, initial_scan, validate_predictions,
}

-- A prediction that shows nothing, or that the server has not answered yet.
abbrev pub Waits : Validity → Type 0
Waits v = (v ≡ pending) ⊎ (v ≡ inactive)

wait-should_reset :
    (now : ℕ) (c : ConditionalOverlayCell) (s : Scan) → (wait now c s).should_reset ≡ s.should_reset
wait-should_reset now c s = ground arith

confirm-should_reset :
    (now : ℕ) (c : ConditionalOverlayCell) (s : Scan)
    → (confirm now c s).should_reset ≡ s.should_reset
confirm-should_reset now c s = ground arith

wait-max_confirmed :
    (now : ℕ) (c : ConditionalOverlayCell) (s : Scan)
    → (wait now c s).max_confirmed ≡ s.max_confirmed
wait-max_confirmed now c s = ground arith

confirm-max_confirmed :
    (now : ℕ) (c : ConditionalOverlayCell) (s : Scan)
    → s.max_confirmed ≤ (confirm now c s).max_confirmed
confirm-max_confirmed now c s = ground arith

pub judge-should_reset :
    (v : Validity) (now : ℕ) (c : ConditionalOverlayCell) (s : Scan)
    → (judge v now c s).0.should_reset ≡ (s.should_reset || is_incorrect v)
judge-should_reset pending now c s = ground (arith, wait-should_reset now c s)
judge-should_reset correct now c s = ground (arith, confirm-should_reset now c s)
judge-should_reset correct_no_credit now c s = ground arith
judge-should_reset incorrect_or_expired now c s = ground arith
judge-should_reset inactive now c s = ground arith

judge-max_confirmed :
    (v : Validity) (now : ℕ) (c : ConditionalOverlayCell) (s : Scan)
    → s.max_confirmed ≤ (judge v now c s).0.max_confirmed
judge-max_confirmed pending now c s = omega (arith, wait-max_confirmed now c s)
judge-max_confirmed correct now c s = confirm-max_confirmed now c s
judge-max_confirmed correct_no_credit now c s = omega arith
judge-max_confirmed incorrect_or_expired now c s = omega arith
judge-max_confirmed inactive now c s = omega arith

module _ (e : PredictionEngine) (get_cell : ℕ → ℕ → ℕ) (now : ℕ) where
  judge-Waits :
      (rn : ℕ) (c : ConditionalOverlayCell) (s : Scan) (v : Validity)
      → validity_in e get_cell rn c ≡ v
      → is_incorrect v ≡ false
      → Waits (validity_in e get_cell rn (judge v now c s).1)
  judge-Waits rn c s pending h k = inl h
  judge-Waits rn c s correct h k = inr refl
  judge-Waits rn c s correct_no_credit h k = inr refl
  judge-Waits rn c s incorrect_or_expired h k = absurd (ground arith)
  judge-Waits rn c s inactive h k = inr h

  -- The mark that something is wrong stays.
  pub cells-should_reset :
      (rn : ℕ) (cs : List ConditionalOverlayCell) (s : Scan)
      → (validate_cells e get_cell rn now cs s).0.should_reset ≡ false
      → s.should_reset ≡ false
  cells-should_reset rn [] s h = h
  cells-should_reset rn (c ∷ cs) s h =
      let v : _ = validity_in e get_cell rn c in
      let s₁ : _ = (judge v now c s).0 in
      let one : _ = judge-should_reset v now c s in
      let rest : _ = cells-should_reset rn cs s₁ h in ground (arith, one, rest)

  cells-Waits :
      (rn : ℕ) (cs : List ConditionalOverlayCell) (s : Scan)
      → (validate_cells e get_cell rn now cs s).0.should_reset ≡ false
      → All (λ c. Waits (validity_in e get_cell rn c)) (validate_cells e get_cell rn now cs s).1
  cells-Waits rn [] s h = tt
  cells-Waits rn (c ∷ cs) s h =
      let v : Validity = validity_in e get_cell rn c in
      let s₁ : Scan = (judge v now c s).0 in
      let one : _ = judge-should_reset v now c s in
      let rest : _ = cells-should_reset rn cs s₁ h in
      (judge-Waits rn c s v refl (ground (arith, one, rest)), cells-Waits rn cs s₁ h)

  pub rows-should_reset :
      (rs : List OverlayRow) (s : Scan)
      → (validate_rows e get_cell now rs s).0.should_reset ≡ false
      → s.should_reset ≡ false
  rows-should_reset [] s h = h
  rows-should_reset (r ∷ rs) s h =
      let s₁ : Scan = (validate_cells e get_cell r.row_num now r.cells s).0 in
      cells-should_reset r.row_num r.cells s (rows-should_reset rs s₁ h)

  rows-Waits :
      (rs : List OverlayRow) (s : Scan)
      → (validate_rows e get_cell now rs s).0.should_reset ≡ false
      → All
          (λ r. All (λ c. Waits (validity_in e get_cell r.row_num c)) r.cells)
          (validate_rows e get_cell now rs s).1
  rows-Waits [] s h = tt
  rows-Waits (r ∷ rs) s h =
      let s₁ : Scan = (validate_cells e get_cell r.row_num now r.cells s).0 in
      (cells-Waits r.row_num r.cells s (rows-should_reset rs s₁ h), rows-Waits rs s₁ h)

  -- A wrong cell sets the mark.
  cells-incorrect :
      (rn : ℕ) (cs : List ConditionalOverlayCell) (s : Scan) (j : ℕ) (c : ConditionalOverlayCell)
      → get_elem? cs j ≡ some c
      → is_incorrect (validity_in e get_cell rn c) ≡ true
      → (validate_cells e get_cell rn now cs s).0.should_reset ≢ false
  cells-incorrect rn [] s j c at wrong = absurd (ground arith)
  cells-incorrect rn (d ∷ ds) s zero c at wrong = λ kept.
      let one : _ = judge-should_reset (validity_in e get_cell rn d) now d s in
      let rest : _ =
        cells-should_reset rn ds (judge (validity_in e get_cell rn d) now d s).0 kept in
      let same : d ≡ c = ground arith in
      let bad : is_incorrect (validity_in e get_cell rn d) ≡ true = rw same wrong in
      ground (arith, one, rest, bad)
  cells-incorrect rn (d ∷ ds) s (suc j) c at wrong =
      cells-incorrect rn ds (judge (validity_in e get_cell rn d) now d s).0 j c at wrong

  rows-incorrect :
      (rs : List OverlayRow) (s : Scan) (i j : ℕ) (r : OverlayRow) (c : ConditionalOverlayCell)
      → get_elem? rs i ≡ some r
      → get_elem? r.cells j ≡ some c
      → is_incorrect (validity_in e get_cell r.row_num c) ≡ true
      → (validate_rows e get_cell now rs s).0.should_reset ≢ false
  rows-incorrect [] s i j r c at there wrong = absurd (ground arith)
  rows-incorrect (q ∷ qs) s zero j r c at there wrong = λ kept.
      let same : q ≡ r = ground arith in
      cells-incorrect q.row_num q.cells s j c (rw same there) (rw same wrong)
        (rows-should_reset qs (validate_cells e get_cell q.row_num now q.cells s).0 kept)
  rows-incorrect (q ∷ qs) s (suc i) j r c at there wrong =
      rows-incorrect qs (validate_cells e get_cell q.row_num now q.cells s).0 i j r c at there wrong

  cells-max_confirmed :
      (rn : ℕ) (cs : List ConditionalOverlayCell) (s : Scan)
      → s.max_confirmed ≤ (validate_cells e get_cell rn now cs s).0.max_confirmed
  cells-max_confirmed rn [] s = omega arith
  cells-max_confirmed rn (c ∷ cs) s =
      let v : Validity = validity_in e get_cell rn c in
      omega (arith, judge-max_confirmed v now c s, cells-max_confirmed rn cs (judge v now c s).0)

  rows-max_confirmed :
      (rs : List OverlayRow) (s : Scan)
      → s.max_confirmed ≤ (validate_rows e get_cell now rs s).0.max_confirmed
  rows-max_confirmed [] s = omega arith
  rows-max_confirmed (r ∷ rs) s =
      let s₁ : Scan = (validate_cells e get_cell r.row_num now r.cells s).0 in
      omega (arith, cells-max_confirmed r.row_num r.cells s, rows-max_confirmed rs s₁)

module _ (v : ConditionalCursorMove → Validity) where
  retain-pending_step :
      (c : ConditionalCursorMove) (rest : List ConditionalCursorMove) (w : Validity)
      → v c ≡ w
      → All (λ d. v d ≡ pending) rest
      → All (λ d. v d ≡ pending) (if is_pending w then c ∷ rest else rest)
  retain-pending_step c rest pending h k = (h, k)
  retain-pending_step c rest correct h k = k
  retain-pending_step c rest correct_no_credit h k = k
  retain-pending_step c rest incorrect_or_expired h k = k
  retain-pending_step c rest inactive h k = k

  retain-pending :
      (cs : List ConditionalCursorMove) → All (λ c. v c ≡ pending) (retain_pending v cs)
  retain-pending [] = tt
  retain-pending (c ∷ cs) =
      retain-pending_step c (retain_pending v cs) (v c) refl (retain-pending cs)

module _ (e : PredictionEngine) (get_cell : ℕ → ℕ → ℕ) (cursor_row cursor_col now : ℕ) where
  -- After a validation every cell of the overlay is inactive or waits for an acknowledgment that
  -- has not come, and so does every predicted cursor.
  pub validate_predictions-Waits :
      All
        (λ r. All (λ c. Waits (validity_in e get_cell r.row_num c)) r.cells)
        (validate_predictions e get_cell cursor_row cursor_col now).overlay.rows
      × All
          (λ c. cursor_validity_in e cursor_row cursor_col c ≡ pending)
          (validate_predictions e get_cell cursor_row cursor_col now).cursors
  validate_predictions-Waits =
      let out : _ = validate_rows e get_cell now e.overlay.rows (initial_scan e) in
      let v : _ = cursor_validity_in e cursor_row cursor_col in
      elim (Bool-cases (out.0.should_reset || cursor_fails v (last? e.cursors))) [
        | inl gone ↦ rw gone (tt, tt)
        | inr kept ↦ rw kept (
          rows-Waits e get_cell now e.overlay.rows (initial_scan e) (ground arith),
          retain-pending v e.cursors,
        )
      ]

  -- One active cell that a validation finds wrong takes every prediction with it, cells and
  -- cursors, and begins an epoch.
  pub validate_predictions-incorrect :
      (i j : ℕ) (r : OverlayRow) (c : ConditionalOverlayCell)
      → get_elem? e.overlay.rows i ≡ some r
      → get_elem? r.cells j ≡ some c
      → validity_in e get_cell r.row_num c ≡ incorrect_or_expired
      → let e' = validate_predictions e get_cell cursor_row cursor_col now in
        (e'.overlay ≡ new_overlay)
        × (e'.cursors ≡ [])
        × (e'.prediction_epoch ≡ next64 e.prediction_epoch)
  validate_predictions-incorrect i j r c at there wrong =
      let out : _ = validate_rows e get_cell now e.overlay.rows (initial_scan e) in
      let bad : is_incorrect (validity_in e get_cell r.row_num c) ≡ true = rw wrong refl in
      elim (Bool-cases out.0.should_reset) [
        | inl gone ↦ rw gone (refl, refl, refl)
        | inr kept ↦ absurd (
            rows-incorrect e get_cell now e.overlay.rows (initial_scan e) i j r c at there bad kept)
      ]

  -- The confirmed epoch never falls.
  pub validate_predictions-confirmed_epoch :
      e.confirmed_epoch
      ≤ (validate_predictions e get_cell cursor_row cursor_col now).confirmed_epoch
  validate_predictions-confirmed_epoch =
      let out : _ = validate_rows e get_cell now e.overlay.rows (initial_scan e) in
      let v : _ = cursor_validity_in e cursor_row cursor_col in
      let up : _ = rows-max_confirmed e get_cell now e.overlay.rows (initial_scan e) in
      elim (Bool-cases (out.0.should_reset || cursor_fails v (last? e.cursors))) [
        | inl gone ↦ rw gone up
        | inr kept ↦ rw kept up
      ]
