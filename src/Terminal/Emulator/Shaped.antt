-- ===== src/Terminal/Emulator/Shaped.antt =====
-- crates/morsh-terminal/src/terminal.rs: the size of the screen that is read.
use morsh.Common.{
  ℕ, zero, suc, ◌+◌, ◌-◌, ◌≤◌, ◌≡◌, refl, ap, subst, ◌∙◌, List, [], ◌∷◌, Option, none, some, length,
  take, replicate, length-append, length-replicate, length-take, All, All-append, All-take, arith,
}
use mathlib.Core.Option.{some-injective}
use morsh.Common.Options.{◌>>=◌, option_map, bind-some, option_map-some}
use morsh.Terminal.Snapshot.{CellData, empty_cell, ScreenSnapshot}
use morsh.Terminal.Emulator.{
  VtCell, VtScreen, Vt, MoshTerminal, read_cells, read_rows, pad, fit_rows, screen_of, snapshot,
  VtColors, cursor_position, read_colors, black,
}

-- A screen has the rows that it says, each with at least the columns that it says, and its cursor
-- stands on it.
pub record IsShaped (s : ScreenSnapshot) : Type 0 where
  pub rows : length s.rows ≡ s.rows_count
  pub row : All (λ r. s.cols ≤ length r) s.rows
  pub cursor_x : s.cursor_x ≤ s.cols - 1
  pub cursor_y : s.cursor_y ≤ s.rows_count - 1
  pub palette : length s.palette ≡ 256

length-pad {ℓ} :
    {A : Type ℓ} (n : ℕ) (d : A) (xs : List A) → length (pad n d xs) ≡ length xs + (n - length xs)
length-pad n d xs =
    length-append xs (replicate (n - length xs) d)
    ∙ ap (λ k. length xs + k) (length-replicate (n - length xs) d)

length-pad-take {ℓ} : {A : Type ℓ} (n : ℕ) (d : A) (xs : List A) → length (pad n d (take n xs)) ≡ n
length-pad-take n d xs =
    let pads : _ = length-pad n d (take n xs) in
    let cut : _ = length-take n xs in omega (arith, pads, cut)

All-replicate {ℓ κ} : {A : Type ℓ} (P : A → Type κ) (n : ℕ) (a : A) → P a → All P (replicate n a)
All-replicate P zero a p = tt
All-replicate P (suc n) a p = (p, All-replicate P n a p)

abbrev Wide : ℕ → List (List CellData) → Type 0
Wide cols rows = All (λ r. cols ≤ length r) rows

read_rows-Wide :
    (cols : ℕ) (rs : List (Option (List VtCell))) (rows : List (List CellData))
    → read_rows cols rs ≡ some rows
    → Wide cols rows
read_rows-Wide cols [] rows e = subst (Wide cols) (some-injective [] rows e) tt
read_rows-Wide cols (r ∷ rs) rows e =
    let (row, _, e₁) = bind-some (r >>= read_cells) (after_row) rows e in
    let (rest, e₂, e₃) = bind-some (read_rows cols rs) (λ rest. some (padded row ∷ rest)) rows e₁ in
    let pads : _ = length-pad cols empty_cell row in
    subst (Wide cols) (some-injective (padded row ∷ rest) rows e₃)
      (omega (arith, pads), read_rows-Wide cols rs rest e₂)
  where
    padded : List CellData → List CellData
    padded row = pad cols empty_cell row

    after_row : List CellData → Option (List (List CellData))
    after_row row = read_rows cols rs >>= (λ rest. some (padded row ∷ rest))

cursor-InRange :
    (cols rows : ℕ) (p : Option (ℕ × ℕ))
    → ((cursor_position cols rows p).0 ≤ cols - 1) × ((cursor_position cols rows p).1 ≤ rows - 1)
cursor-InRange cols rows none = (omega arith, omega arith)
cursor-InRange cols rows (some (x, y)) = (omega arith, omega arith)

length-palette : (c : Option VtColors) → length ((read_colors c).palette) ≡ 256
length-palette none = length-replicate 256 black
length-palette (some c) = length-pad-take 256 black c.palette

module _ {ℓ} {V : Type ℓ} (vt : Vt V) where
  screen_of-IsShaped :
      (t : MoshTerminal V) (s : VtScreen) (rows : List (List CellData))
      → Wide t.cols rows
      → IsShaped (screen_of vt t s rows)
  screen_of-IsShaped t s rows w = record {
    rows = length-pad-take t.rows (replicate t.cols empty_cell) rows;
    row = fit;
    cursor_x = (cursor-InRange t.cols t.rows s.cursor_viewport).0;
    cursor_y = (cursor-InRange t.cols t.rows s.cursor_viewport).1;
    palette = length-palette s.colors;
  }
    where
      blank : List CellData
      blank = replicate t.cols empty_cell

      cut : List (List CellData)
      cut = take t.rows rows

      fit : Wide t.cols (fit_rows t.cols t.rows rows)
      fit =
          let full : _ = length-replicate t.cols empty_cell in
          All-append (λ r. t.cols ≤ length r) cut (replicate (t.rows - length cut) blank)
            (All-take (λ r. t.cols ≤ length r) t.rows rows w)
            (All-replicate (λ r. t.cols ≤ length r) (t.rows - length cut) blank
              (omega (arith, full)))

  -- Every screen that is read from the emulator has the rows that it says, none of them shorter than
  -- the columns that it says, and its cursor on it, whatever the emulator reports.
  pub snapshot-IsShaped :
      (t : MoshTerminal V) (s : ScreenSnapshot)
      → snapshot vt t ≡ some s
      → IsShaped s × (s.cols ≡ t.cols) × (s.rows_count ≡ t.rows)
  unfolding snapshot
  snapshot-IsShaped t s e =
      let (v, _, e₁) =
        bind-some (vt.render t.terminal)
          (λ v. option_map (screen_of vt t v) (read_rows t.cols v.rows)) s e in
      let (rows, e₂, same) = option_map-some (screen_of vt t v) (read_rows t.cols v.rows) s e₁ in
      subst (λ s. IsShaped s × (s.cols ≡ t.cols) × (s.rows_count ≡ t.rows)) same
        (screen_of-IsShaped t v rows (read_rows-Wide t.cols v.rows rows e₂), refl, refl)
