-- ===== src/Terminal/Display/Scrolling.antt =====
-- crates/morsh-terminal/src/display.rs: the rows that a detected scroll accounts for are those of the
-- new screen.
use morsh.Common.{
  ℕ, zero, suc, ◌+◌, ◌-◌, ◌≤◌, ◌<◌, ◌≡◌, ◌≢◌, refl, sym, ap, subst, ◌∙◌, List, [], ◌∷◌, true, ◌||◌,
  Option, none, some, ltb, leb, ◌==◌, if◌then◌else◌, length, length-set, get_or, set, replicate,
  Bool-cases, inl, inr, arith, ℕ_discrete,
}
use morsh.Terminal.Snapshot.{CellData, empty_cell, ScreenSnapshot}
use morsh.Terminal.Equality.{row_eq, row_eq-Decides}
use morsh.Terminal.Display.{
  Scroll, row_at, first_match, region, scroll_by, detect_scroll, shift_from, shift_rows,
}

abbrev Rows : Type 0
Rows = List (List CellData)

module _ {ℓ} {A : Type ℓ} where
  get_or-set_self : (xs : List A) (i : ℕ) (v d : A) → i < length xs → get_or (set xs i v) i d ≡ v
  get_or-set_self [] i v d h = absurd (omega arith)
  get_or-set_self (x ∷ xs) zero v d h = refl
  get_or-set_self (x ∷ xs) (suc i) v d h = get_or-set_self xs i v d (omega arith)

  get_or-set_ne :
      (xs : List A) (i j : ℕ) (v d : A) → i ≢ j → get_or (set xs i v) j d ≡ get_or xs j d
  get_or-set_ne [] i j v d h = refl
  get_or-set_ne (x ∷ xs) zero zero v d h = absurd (h refl)
  get_or-set_ne (x ∷ xs) zero (suc j) v d h = refl
  get_or-set_ne (x ∷ xs) (suc i) zero v d h = refl
  get_or-set_ne (x ∷ xs) (suc i) (suc j) v d h = get_or-set_ne xs i j v d (λ e. h (ap suc e))

-- The row that is found is in the range, and is the given one.
first_match-row :
    (top : List CellData) (old : Rows) (i n k : ℕ)
    → first_match top old i n ≡ some k
    → (k < i + n) × (top ≡ row_at old k)
first_match-row top old i zero k e = absurd (ground arith)
first_match-row top old i (suc n) k e = elim (Bool-cases (row_eq top (row_at old i))) [
  | inl t ↦
      let same : i ≡ k = ground (arith, t, e) in
      (omega arith, (row_eq-Decides top (row_at old i)).0 t ∙ ap (row_at old) same)
  | inr f ↦
      let rest : first_match top old (suc i) n ≡ some k = ground (arith, f, e) in
      let (less, row) = first_match-row top old (suc i) n k rest in (omega arith, row)
]

-- The region that goes on matching.
record Region (old new : Rows) (lines r n result : ℕ) : Type 0 where
  low : r ≤ result
  high : result ≤ r + n
  rows : (y : ℕ) → r ≤ y → y < result → row_at new y ≡ row_at old (lines + y)

region-Region :
    (old new : Rows) (lines r n : ℕ) → Region old new lines r n (region old new lines r n)
region-Region old new lines r zero = record {
  low = omega arith;
  high = omega arith;
  rows = λ y l u. absurd (omega arith);
}
region-Region old new lines r (suc n) =
    elim (Bool-cases (row_eq (row_at new r) (row_at old (lines + r)))) [
      | inl t ↦
          let rest : Region old new lines (suc r) n (region old new lines (suc r) n) =
            region-Region old new lines (suc r) n in
          let first : row_at new r ≡ row_at old (lines + r) =
            (row_eq-Decides (row_at new r) (row_at old (lines + r))).0 t in
          rw (t, region)
            (record {
              low = omega (arith, rest.low);
              high = omega (arith, rest.high);
              rows = λ y l u. elim (ℕ_discrete r y) [
                | yes same ↦ rw (sym same) first
                | no other ↦ rest.rows y (omega arith) u
              ];
            })
      | inr f ↦
          rw (f, region)
            (record { low = omega arith; high = omega arith; rows = λ y l u. absurd (omega arith) })
    ]

-- What a detected scroll says of the two screens.
pub record Scrolled (old : Rows) (new : ScreenSnapshot) (s : Scroll) : Type 0 where
  pub moves : 1 ≤ s.lines
  pub fits : s.lines + s.height ≤ new.rows_count
  pub held : new.rows_count ≤ length old
  pub rows : (y : ℕ) → y < s.height → row_at new.rows y ≡ row_at old (s.lines + y)

scroll_by-Scrolled :
    (old : Rows) (new : ScreenSnapshot) (o : Option ℕ) (s : Scroll)
    → new.rows_count ≤ length old
    → first_match (row_at new.rows 0) old 0 new.rows_count ≡ o
    → scroll_by old new.rows new.rows_count o ≡ some s
    → Scrolled old new s
scroll_by-Scrolled old new none s h m e = absurd (ground arith)
scroll_by-Scrolled old new (some zero) s h m e = absurd (ground arith)
scroll_by-Scrolled old new (some (suc l)) s h m e =
    let n : ℕ = new.rows_count - (suc l + 1) in
    let built : Scroll = record { lines = suc l; height = region old new.rows (suc l) 1 n } in
    let same : built ≡ s = ground (arith, e) in
    let (less, top) = first_match-row (row_at new.rows 0) old 0 new.rows_count (suc l) m in
    let reg : Region old new.rows (suc l) 1 n built.height =
      region-Region old new.rows (suc l) 1 n in
    subst (λ t. Scrolled old new t) same
      (record {
        moves = omega arith;
        fits = omega (arith, reg.high);
        held = h;
        rows = λ y u. row y u reg top;
      })
  where
    row :
        {height n : ℕ} (y : ℕ)
        → y < height
        → Region old new.rows (suc l) 1 n height
        → row_at new.rows 0 ≡ row_at old (suc l)
        → row_at new.rows y ≡ row_at old (suc l + y)
    row zero u reg top = top ∙ ap (row_at old) (omega arith)
    row (suc y) u reg top = reg.rows (suc y) (omega arith) u

pub detect_scroll-Scrolled :
    (old : Rows) (new : ScreenSnapshot) (s : Scroll)
    → detect_scroll old new ≡ some s
    → Scrolled old new s
detect_scroll-Scrolled old new s e =
    elim (Bool-cases ((new.rows_count == 0) || ltb (length old) new.rows_count)) [
      | inl t ↦ absurd (ground (arith, t, e))
      | inr f ↦
          let held : new.rows_count ≤ length old = ground arith in
          let o : Option ℕ = first_match (row_at new.rows 0) old 0 new.rows_count in
          let found : scroll_by old new.rows new.rows_count o ≡ some s = ground (arith, f, e) in
          scroll_by-Scrolled old new o s held refl found
    ]

-- The shift in place, at a row.
record Shifting (lines bottom i n : ℕ) (blank : List CellData) (rows rows' : Rows) : Type 0 where
  before : (y : ℕ) → y < i → row_at rows' y ≡ row_at rows y
  moved :
      (y : ℕ) → i ≤ y → y < i + n → y + lines ≤ bottom → row_at rows' y ≡ row_at rows (y + lines)

shift_from-Shifting :
    (lines bottom i n : ℕ) (blank : List CellData) (rows : Rows)
    → 1 ≤ lines
    → i + n ≤ length rows
    → Shifting lines bottom i n blank rows (shift_from lines bottom blank i n rows)
shift_from-Shifting lines bottom i zero blank rows h k = record {
  before = λ y l. refl;
  moved = λ y l u. absurd (omega arith);
}
shift_from-Shifting lines bottom i (suc n) blank rows h k =
    let row : List CellData = if leb (i + lines) bottom then row_at rows (i + lines) else blank in
    let rows₁ : Rows = set rows i row in
    let rest : Shifting lines bottom (suc i) n blank rows₁
        (shift_from lines bottom blank (suc i) n rows₁) =
      shift_from-Shifting lines bottom (suc i) n blank rows₁ h
        (omega (arith, length-set rows i row)) in
    record {
      before =
          λ y l. rest.before y (omega arith) ∙ get_or-set_ne rows i y row [] (λ e. omega arith);
      moved = λ y l u b. elim (ℕ_discrete i y) [
        | yes same ↦
            let seen : leb (i + lines) bottom ≡ true = ground arith in
            let taken : row ≡ row_at rows (i + lines) = rw seen refl in
            ap (row_at (shift_from lines bottom blank (suc i) n rows₁)) (sym same)
            ∙ rest.before i (omega arith)
            ∙ get_or-set_self rows i row [] (omega arith)
            ∙ taken
            ∙ ap (λ z. row_at rows (z + lines)) same
        | no other ↦
            rest.moved y (omega arith) (omega arith) b
            ∙ get_or-set_ne rows i (y + lines) row [] (λ e. omega arith)
      ];
    }

-- A scroll that is detected moves the screen by at least one line and stays on it, and once the old
-- rows are shifted by it, the rows that it accounts for, which the diff then leaves out, are
-- exactly those of the new screen.
pub detect_scroll-shift_rows :
    (old : List (List CellData)) (new : ScreenSnapshot) (s : Scroll)
    → detect_scroll old new ≡ some s
    → (1 ≤ s.lines)
      × (s.lines + s.height ≤ new.rows_count)
      × ((y : ℕ) → y < s.height → row_at (shift_rows old s new) y ≡ row_at new.rows y)
detect_scroll-shift_rows old new s e =
    let d : Scrolled old new s = detect_scroll-Scrolled old new s e in
    let bottom : ℕ = s.lines + s.height - 1 in
    let blank : List CellData = replicate new.cols empty_cell in
    (
      d.moves,
      d.fits,
      λ y u.
          let sh : Shifting s.lines bottom 0 (bottom + 1) blank old (shift_rows old s new) =
            shift_from-Shifting s.lines bottom 0 (bottom + 1) blank old d.moves
              (omega (arith, d.moves, d.fits, d.held)) in
          let there : y + s.lines ≡ s.lines + y = omega arith in
          sh.moved y (omega arith) (omega (arith, d.moves)) (omega (arith, d.moves))
          ∙ ap (row_at old) there
          ∙ sym (d.rows y u),
    )
