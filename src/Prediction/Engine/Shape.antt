-- ===== src/Prediction/Engine/Shape.antt =====
-- crates/morsh-prediction/src/prediction.rs: the cells of a row stand in their columns, as many as the
-- terminal has, and the predictions keep it so.
use morsh.Common.{
  ℕ, zero, suc, ◌+◌, ◌≡◌, refl, sym, ap, List, [], ◌∷◌, true, false, some, inl, inr, length,
  get_elem?, get_or, ◌-◌, All, arith, Option-cases, ltb, ◌==◌, ◌∙◌, dec_lt, Bool-cases,
  get_elem?-lt,
}
use morsh.Common.Options.{option_map}
use morsh.Prediction.Overlay.{
  ConditionalOverlayCell, OverlayRow, Overlay, new_cells, new_row, find_row, insert_row, put_row,
  retain_below, prune, map_cells, reset_with_orig,
}
use morsh.Prediction.Engine.Cells.{
  CellState, no_state, predicted, predict_char, take_over, shift_left, shift_right,
}
use morsh.Prediction.Engine.Shifts.{Cells, Body, Shifted, get_elem?-in}

pub record RowShape (width : ℕ) (cells : Cells) : Type 0 where
  pub same_length : length cells ≡ width
  pub columns : (j : ℕ) (c : ConditionalOverlayCell) → get_elem? cells j ≡ some c → c.col ≡ j

-- Every row of an overlay has the shape.
abbrev pub OverlayShape : ℕ → Overlay → Type 0
OverlayShape width o = All (λ r. RowShape width r.cells) o.rows

-- A rewriting of cells that leaves them in their columns.
abbrev pub KeepsColumn : Body → Type 0
KeepsColumn body = (j : ℕ) (c : ConditionalOverlayCell) → (body j c).col ≡ c.col

new_cells-length : (n col epoch now : ℕ) → length (new_cells n col epoch now) ≡ n
new_cells-length zero col epoch now = refl
new_cells-length (suc n) col epoch now = ap suc (new_cells-length n (suc col) epoch now)

new_cells-col :
    (n col epoch now j : ℕ) (c : ConditionalOverlayCell)
    → get_elem? (new_cells n col epoch now) j ≡ some c
    → c.col ≡ col + j
new_cells-col zero col epoch now j c e = absurd (ground arith)
new_cells-col (suc n) col epoch now zero c e = ground arith
new_cells-col (suc n) col epoch now (suc j) c e =
    omega (arith, new_cells-col n (suc col) epoch now j c e)

pub new_row-RowShape :
    (row_num width epoch now : ℕ) → RowShape width (new_row row_num width epoch now).cells
new_row-RowShape row_num width epoch now = record {
  same_length = new_cells-length width 0 epoch now;
  columns = λ j c e. omega (arith, new_cells-col width 0 epoch now j c e);
}

reset_with_orig-col : (c : ConditionalOverlayCell) → (reset_with_orig c).col ≡ c.col
reset_with_orig-col c = ground arith

take_over-col :
    (s : CellState) (server : ℕ) (c : ConditionalOverlayCell) → (take_over s server c).col ≡ c.col
take_over-col (true, true, ch) server c = refl
take_over-col (true, false, ch) server c = refl
take_over-col (false, u, ch) server c = refl

pub predict_char-KeepsColumn :
    (epoch frame now ch : ℕ) → KeepsColumn (λ j. predict_char epoch frame now ch)
predict_char-KeepsColumn epoch frame now ch j c = reset_with_orig-col c

pub shift_left-KeepsColumn :
    (epoch frame now : ℕ) (states : List CellState) (server : ℕ → ℕ) (num_cols : ℕ)
    → KeepsColumn (shift_left epoch frame now states server num_cols)
shift_left-KeepsColumn epoch frame now states server num_cols j c =
    elim (Bool-cases (ltb (j + 2) num_cols)) [
      | inl e ↦ rw e (
          take_over-col (get_or states j no_state) (server (j + 1)) (predicted epoch frame now c)
          ∙ reset_with_orig-col c)
      | inr e ↦ rw e (reset_with_orig-col c)
    ]

pub shift_right-KeepsColumn :
    (epoch frame now : ℕ) (states : List CellState) (server : ℕ → ℕ) (num_cols : ℕ)
    → KeepsColumn (shift_right epoch frame now states server num_cols)
shift_right-KeepsColumn epoch frame now states server num_cols j c =
    elim (Bool-cases (j == num_cols - 1)) [
      | inl e ↦ rw e (reset_with_orig-col c)
      | inr e ↦ rw e (
          take_over-col (get_or states j no_state) (server (j - 1)) (predicted epoch frame now c)
          ∙ reset_with_orig-col c)
    ]

-- The rewritten cells have the shape the cells had.
pub Shifted-RowShape :
    {body : Body} {width lo n : ℕ} {cells cells' : Cells}
    → KeepsColumn body
    → RowShape width cells
    → Shifted body lo n cells cells'
    → RowShape width cells'
Shifted-RowShape {body} {width} {lo} {n} {cells} {cells'} keeps h s = record {
  same_length = s.same_length ∙ h.same_length;
  columns = λ j d at.
      let there = get_elem?-in cells j (omega (arith, get_elem?-lt cells' j d at, s.same_length)) in
      let old : _ = h.columns j there.0 there.1 in
      elim (dec_lt j lo) [
        | yes l ↦ h.columns j d (sym (s.below j l) ∙ at)
        | no l ↦ elim (dec_lt j (lo + n)) [
          | yes u ↦
              let new : _ = s.inside j there.0 (omega arith) u there.1 in
              let same : d ≡ body j there.0 = cc in rw same (keeps j there.0 ∙ old)
          | no u ↦ h.columns j d (sym (s.above j (omega arith)) ∙ at)
        ]
      ];
}

length-map_cells :
    (f : ConditionalOverlayCell → ConditionalOverlayCell) (cs : Cells)
    → length (map_cells f cs) ≡ length cs
length-map_cells f [] = refl
length-map_cells f (c ∷ cs) = ap suc (length-map_cells f cs)

get_elem?-map_cells :
    (f : ConditionalOverlayCell → ConditionalOverlayCell) (cs : Cells) (j : ℕ)
    → get_elem? (map_cells f cs) j ≡ option_map f (get_elem? cs j)
get_elem?-map_cells f [] j = refl
get_elem?-map_cells f (c ∷ cs) zero = refl
get_elem?-map_cells f (c ∷ cs) (suc j) = get_elem?-map_cells f cs j

pub map_cells-RowShape :
    (f : ConditionalOverlayCell → ConditionalOverlayCell) (width : ℕ) (cells : Cells)
    → ((c : ConditionalOverlayCell) → (f c).col ≡ c.col)
    → RowShape width cells
    → RowShape width (map_cells f cells)
map_cells-RowShape f width cells keeps h = record {
  same_length = length-map_cells f cells ∙ h.same_length;
  columns = λ j d at.
      let read : _ = get_elem?-map_cells f cells j in
      elim (Option-cases (get_elem? cells j)) [
        | inl e ↦ absurd (ground (arith, read, e, at))
        | inr (c, e) ↦
            let same : f c ≡ d = ground (arith, read, e, at) in
            rw (sym same) (keeps c ∙ h.columns j c e)
      ];
}

-- A row of the shape put in, and one read.
pub put_row-OverlayShape :
    (width : ℕ) (o : Overlay) (r : OverlayRow)
    → RowShape width r.cells
    → OverlayShape width o
    → OverlayShape width (put_row o r)
put_row-OverlayShape width o r h k = inserted o.rows k
  where
    inserted :
        (rs : List OverlayRow)
        → All (λ q. RowShape width q.cells) rs
        → All (λ q. RowShape width q.cells) (insert_row rs r)
    inserted [] k = (h, tt)
    inserted (q ∷ qs) k =
        let rest : _ = inserted qs k.1 in
        elim (Bool-cases (q.row_num == r.row_num)) [
          | inl e ↦ rw e (h, k.1)
          | inr e ↦ elim (Bool-cases (ltb r.row_num q.row_num)) [
            | inl l ↦ rw (e, l) (h, k)
            | inr l ↦ rw (e, l) (k.0, rest)
          ]
        ]

pub find_row-RowShape :
    (width n : ℕ) (rs : List OverlayRow) (r : OverlayRow)
    → All (λ q. RowShape width q.cells) rs
    → find_row rs n ≡ some r
    → RowShape width r.cells
find_row-RowShape width n [] r k e = absurd (ground arith)
find_row-RowShape width n (q ∷ qs) r k e = elim (Bool-cases (q.row_num == n)) [
  | inl same ↦ let eq : q ≡ r = ground (arith, same, e) in rw (sym eq) k.0
  | inr other ↦ find_row-RowShape width n qs r k.1 (ground (arith, other, e))
]

pub prune-OverlayShape :
    (width max_row : ℕ) (o : Overlay) → OverlayShape width o → OverlayShape width (prune o max_row)
prune-OverlayShape width max_row o k = retained o.rows k
  where
    retained :
        (rs : List OverlayRow)
        → All (λ q. RowShape width q.cells) rs
        → All (λ q. RowShape width q.cells) (retain_below max_row rs)
    retained [] k = tt
    retained (q ∷ qs) k =
        let rest : _ = retained qs k.1 in
        elim (Bool-cases (ltb q.row_num max_row)) [ inl e ↦ rw e (k.0, rest) | inr e ↦ rw e rest ]
