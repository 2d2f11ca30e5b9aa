-- ===== src/Client/Frame/Painted.antt =====
-- crates/morsh-client/src/frame.rs: a frame shows what the server sent, but for the predictions that
-- may be displayed.
use morsh.Common.{
  ℕ, zero, suc, ◌+◌, ◌<◌, ◌≡◌, ◌≢◌, ◌⊎◌, inl, inr, refl, sym, ap, ◌∙◌, List, [], ◌∷◌, Option, none,
  some, Bool, false, not, ◌&&◌, ◌||◌, ltb, leb, ◌==◌, Bool-cases, true, false, if◌then◌else◌,
  Option-cases, get_elem?, arith, ==→ne, ℕ_discrete,
}
use morsh.Common.Options.{◌>>=◌, option_map}
use morsh.Prediction.Overlay.{ConditionalOverlayCell, OverlayRow}
use morsh.Prediction.Engine.{PredictionEngine, should_display, display_cursor}
use morsh.Terminal.Snapshot.{CellData, ScreenSnapshot, cell, cell_in, at_index}
use morsh.Client.Frame.{
  as_u16, skips, painted, paint_cell, paint_cells, paint_row, paint_rows, place_cursor,
  apply_overlay,
}

module _ {ℓ} {A : Type ℓ} (f : A → A) where
  get_elem?-at_index :
      (xs : List A) (i : ℕ) → get_elem? (at_index f xs i) i ≡ option_map f (get_elem? xs i)
  get_elem?-at_index [] i = refl
  get_elem?-at_index (x ∷ xs) zero = refl
  get_elem?-at_index (x ∷ xs) (suc i) = get_elem?-at_index xs i

  get_elem?-at_index_ne :
      (xs : List A) (i j : ℕ) → i ≢ j → get_elem? (at_index f xs i) j ≡ get_elem? xs j
  get_elem?-at_index_ne [] i j ne = refl
  get_elem?-at_index_ne (x ∷ xs) zero zero ne = absurd (ne refl)
  get_elem?-at_index_ne (x ∷ xs) zero (suc j) ne = refl
  get_elem?-at_index_ne (x ∷ xs) (suc i) zero ne = refl
  get_elem?-at_index_ne (x ∷ xs) (suc i) (suc j) ne =
      get_elem?-at_index_ne xs i j (λ e. ne (ap suc e))

-- A write elsewhere.
module _ (f : CellData → CellData) (rows : List (List CellData)) (a b x y : ℕ) where
  other_row : b ≢ y → cell_in (at_index (λ row. at_index f row a) rows b) x y ≡ cell_in rows x y
  other_row ne =
      ap (λ o. o >>= (λ row. get_elem? row x))
        (get_elem?-at_index_ne (λ row. at_index f row a) rows b y ne)

  other_column : a ≢ x → cell_in (at_index (λ row. at_index f row a) rows y) x y ≡ cell_in rows x y
  other_column ne =
      let at : _ = get_elem?-at_index (λ row. at_index f row a) rows y in
      elim (Option-cases (get_elem? rows y)) [
        | inl e ↦ rw (at, e) refl
        | inr (row, e) ↦ rw (at, e) (get_elem?-at_index_ne f row a x ne)
      ]

  cell_in-elsewhere :
      (a ≢ x) ⊎ (b ≢ y) → cell_in (at_index (λ row. at_index f row a) rows b) x y ≡ cell_in rows x y
  cell_in-elsewhere (inr ne) = other_row ne
  cell_in-elsewhere (inl ne) = elim (ℕ_discrete b y) [
    | no other ↦ other_row other
    | yes same ↦ rw same (other_column ne)
  ]

-- Active, confirmed, and left of the last column.
abbrev pub may_show : PredictionEngine → ℕ → ConditionalOverlayCell → Bool
may_show p cols c =
    c.active && (leb c.tentative_until_epoch p.confirmed_epoch && ltb (c.col + 1) cols)

may_show-skips :
    (p : PredictionEngine) (cols : ℕ) (c : ConditionalOverlayCell)
    → skips p cols c ≡ false
    → may_show p cols c ≡ true
may_show-skips p cols c e = ground arith

-- A prediction of the cells may be displayed at the column.
abbrev pub cells_cover : PredictionEngine → ℕ → List ConditionalOverlayCell → ℕ → Bool
cells_cover p cols [] x = false
cells_cover p cols (c ∷ cs) x = (may_show p cols c && (c.col == x)) || cells_cover p cols cs x

-- One of the overlay may be displayed at the column `x` of the row `y`.
abbrev pub rows_cover : PredictionEngine → ℕ → List OverlayRow → ℕ → ℕ → Bool
rows_cover p cols [] x y = false
rows_cover p cols (r ∷ rs) x y =
    ((r.row_num == y) && cells_cover p cols r.cells x) || rows_cover p cols rs x y

-- The frame has the size it had, and the same cell there.
record SameCell (x y : ℕ) (frame frame' : ScreenSnapshot) : Type 0 where
  cols : frame'.cols ≡ frame.cols
  rows_count : frame'.rows_count ≡ frame.rows_count
  there : cell frame' x y ≡ cell frame x y

small : (n m : ℕ) → n < m → m < 65536 → as_u16 n ≡ n
small n m h k = omega arith

module _ (p : PredictionEngine) (x y : ℕ) where
  same : (frame : ScreenSnapshot) → SameCell x y frame frame
  same frame = record { cols = refl; rows_count = refl; there = refl }

  chained : (a b c : ScreenSnapshot) → SameCell x y a b → SameCell x y b c → SameCell x y a c
  chained a b c s t = record {
    cols = t.cols ∙ s.cols;
    rows_count = t.rows_count ∙ s.rows_count;
    there = t.there ∙ s.there;
  }

  paint_cell-SameCell :
      (row_num : ℕ) (c : ConditionalOverlayCell) (frame : ScreenSnapshot)
      → frame.cols < 65536
      → row_num < 65536
      → (row_num ≢ y) ⊎ ((may_show p frame.cols c && (c.col == x)) ≡ false)
      → SameCell x y frame (paint_cell p row_num c frame)
  paint_cell-SameCell row_num c frame w r h = elim (Bool-cases (skips p frame.cols c)) [
    | inl s ↦ rw s (same frame)
    | inr s ↦
        let inside : c.col + 1 < frame.cols = ground arith in
        let col : as_u16 c.col ≡ c.col = omega arith in
        let row : as_u16 row_num ≡ row_num = omega arith in
        let apart : (as_u16 c.col ≢ x) ⊎ (as_u16 row_num ≢ y) = elim h [
          | inl ne ↦ inr (λ e. ne (sym row ∙ e))
          | inr un ↦
              let shows : may_show p frame.cols c ≡ true = may_show-skips p frame.cols c s in
              let ne : (c.col == x) ≡ false = sym (ap (λ b. b && (c.col == x)) shows) ∙ un in
              inl (λ e. ==→ne c.col x ne (sym col ∙ e))
        ] in
        rw s (record {
          cols = refl;
          rows_count = refl;
          there =
              cell_in-elsewhere (painted p c) frame.rows (as_u16 c.col) (as_u16 row_num) x y apart;
        })
  ]

  -- The cells of a row whose predictions do not cover the position.
  paint_cells-SameCell :
      (row_num : ℕ) (cs : List ConditionalOverlayCell) (frame : ScreenSnapshot)
      → frame.cols < 65536
      → row_num < 65536
      → (row_num ≢ y) ⊎ (cells_cover p frame.cols cs x ≡ false)
      → SameCell x y frame (paint_cells p row_num cs frame)
  paint_cells-SameCell row_num [] frame w r h = same frame
  paint_cells-SameCell row_num (c ∷ cs) frame w r h =
      let first : SameCell x y frame (paint_cell p row_num c frame) =
        paint_cell-SameCell row_num c frame w r
          (elim h [ inl ne ↦ inl ne | inr un ↦ inr (ground (arith, un)) ]) in
      let frame' : ScreenSnapshot = paint_cell p row_num c frame in
      chained frame frame' (paint_cells p row_num cs frame') first (
        paint_cells-SameCell row_num cs frame' (omega (arith, first.cols)) r (elim h [
          | inl ne ↦ inl ne
          | inr un ↦
              let rest : cells_cover p frame.cols cs x ≡ false = ground (arith, un) in
              inr (ap (λ n. cells_cover p n cs x) first.cols ∙ rest)
        ]))

  paint_row-SameCell :
      (r : OverlayRow) (frame : ScreenSnapshot)
      → frame.cols < 65536
      → frame.rows_count < 65536
      → ((r.row_num == y) && cells_cover p frame.cols r.cells x) ≡ false
      → SameCell x y frame (paint_row p r frame)
  paint_row-SameCell r frame w h un = elim (Bool-cases (leb frame.rows_count r.row_num)) [
    | inl l ↦ rw l (same frame)
    | inr l ↦
        let small : r.row_num < 65536 = ground arith in
        rw l (
          paint_cells-SameCell r.row_num r.cells frame w small (elim (Bool-cases (r.row_num == y)) [
            | inl e ↦ inr (ground (arith, e, un))
            | inr e ↦ inl (==→ne r.row_num y e)
          ]))
  ]

  paint_rows-SameCell :
      (rs : List OverlayRow) (frame : ScreenSnapshot)
      → frame.cols < 65536
      → frame.rows_count < 65536
      → rows_cover p frame.cols rs x y ≡ false
      → SameCell x y frame (paint_rows p rs frame)
  paint_rows-SameCell [] frame w h un = same frame
  paint_rows-SameCell (r ∷ rs) frame w h un =
      let frame' : ScreenSnapshot = paint_row p r frame in
      let first : SameCell x y frame frame' = paint_row-SameCell r frame w h (ground (arith, un)) in
      let rest : rows_cover p frame.cols rs x y ≡ false = ground (arith, un) in
      chained frame frame' (paint_rows p rs frame') first (
        paint_rows-SameCell rs frame' (omega (arith, first.cols)) (omega (arith, first.rows_count))
          (ap (λ n. rows_cover p n rs x y) first.cols ∙ rest))

  place_cursor-SameCell :
      (o : Option (ℕ × ℕ)) (frame : ScreenSnapshot) → SameCell x y frame (place_cursor o frame)
  place_cursor-SameCell none frame = same frame
  place_cursor-SameCell (some (row, col)) frame =
      elim (Bool-cases (ltb row frame.rows_count && ltb col frame.cols)) [
        | inl e ↦ rw e (record { cols = refl; rows_count = refl; there = refl })
        | inr e ↦ rw e (same frame)
      ]

  displayed :
      (b : Bool) (frame drawn : ScreenSnapshot)
      → SameCell x y frame drawn
      → SameCell x y frame (if not b then frame else drawn)
  displayed true frame drawn s = s
  displayed false frame drawn s = same frame

  -- On a frame of 16-bit size, a cell over which no active prediction stands that is confirmed and
  -- left of the last column shows what the server sent, whatever else is predicted.
  pub apply_overlay-uncovered :
      (frame : ScreenSnapshot)
      → frame.cols < 65536
      → frame.rows_count < 65536
      → rows_cover p frame.cols p.overlay.rows x y ≡ false
      → cell (apply_overlay frame p) x y ≡ cell frame x y
  apply_overlay-uncovered frame w h un =
      let painting : _ = paint_rows-SameCell p.overlay.rows frame w h un in
      let cursor : _ =
        place_cursor-SameCell (display_cursor p) (paint_rows p p.overlay.rows frame) in
      let drawn : ScreenSnapshot = paint_rows p p.overlay.rows frame in
      (displayed (should_display p) frame (place_cursor (display_cursor p) drawn)
        (chained frame drawn (place_cursor (display_cursor p) drawn) painting cursor)).there
