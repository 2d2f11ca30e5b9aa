-- ===== src/Terminal/Snapshot.antt =====
-- crates/morsh-terminal/src/snapshot.rs: what the protocol synchronizes of a terminal. A text is its
-- characters, a colour of the crate libghostty-vt its three components.
use morsh.Common.{
  ℕ, zero, suc, ◌+◌, ◌*◌, ◌/◌, ◌%◌, List, [], ◌∷◌, ◌++◌, Option, Bool, true, false, replicate,
  get_elem?,
}
use morsh.Common.Options.{◌>>=◌}

pub record RgbColor : Type 0 where
  pub r : ℕ
  pub g : ℕ
  pub b : ℕ

pub data StyleColor : Type 0 where
  default : StyleColor
  rgb : RgbColor → StyleColor
  palette : ℕ → StyleColor

pub record CellStyle : Type 0 where
  pub fg : StyleColor
  pub bg : StyleColor
  pub bold : Bool
  pub italic : Bool
  pub faint : Bool
  pub blink : Bool
  pub inverse : Bool
  pub invisible : Bool
  pub strikethrough : Bool
  pub overline : Bool
  pub underline : Bool

abbrev pub default_style : CellStyle
default_style = record {
  fg = default;
  bg = default;
  bold = false;
  italic = false;
  faint = false;
  blink = false;
  inverse = false;
  invisible = false;
  strikethrough = false;
  overline = false;
  underline = false;
}

pub record CellData : Type 0 where
  pub text : List ℕ
  pub wide : Bool
  pub spacer : Bool
  pub style : CellStyle

abbrev pub empty_cell : CellData
empty_cell = record { text = []; wide = false; spacer = false; style = default_style }

-- A mode is its DEC number.
pub data MouseReporting : Type 0 where
  no_reporting : MouseReporting
  x10 : MouseReporting
  vt200 : MouseReporting
  button_event : MouseReporting
  any_event : MouseReporting

abbrev pub reporting_number : MouseReporting → ℕ
reporting_number no_reporting = 0
reporting_number x10 = 9
reporting_number vt200 = 1000
reporting_number button_event = 1002
reporting_number any_event = 1003

pub data MouseEncoding : Type 0 where
  default_encoding : MouseEncoding
  utf8 : MouseEncoding
  sgr : MouseEncoding
  urxvt : MouseEncoding

abbrev pub encoding_number : MouseEncoding → ℕ
encoding_number default_encoding = 0
encoding_number utf8 = 1005
encoding_number sgr = 1006
encoding_number urxvt = 1015

pub record ScreenSnapshot : Type 0 where
  pub rows : List (List CellData)
  pub cols : ℕ
  pub rows_count : ℕ
  pub cursor_x : ℕ
  pub cursor_y : ℕ
  pub cursor_visible : Bool
  pub title : List ℕ
  pub bracketed_paste : Bool
  pub mouse_reporting : MouseReporting
  pub mouse_encoding : MouseEncoding
  pub mouse_focus_event : Bool
  pub mouse_alternate_scroll : Bool
  pub fg : RgbColor
  pub bg : RgbColor
  pub palette : List RgbColor

abbrev pub colour : ℕ → ℕ → ℕ → RgbColor
colour r g b = record { r = r; g = g; b = b }

abbrev pub standard : List RgbColor
standard =
    colour 0 0 0
    ∷ colour 205 49 49
    ∷ colour 13 188 121
    ∷ colour 229 229 16
    ∷ colour 36 114 200
    ∷ colour 188 63 188
    ∷ colour 17 168 205
    ∷ colour 229 229 229
    ∷ colour 102 102 102
    ∷ colour 241 76 76
    ∷ colour 35 209 139
    ∷ colour 245 245 67
    ∷ colour 59 142 234
    ∷ colour 214 112 214
    ∷ colour 41 184 219
    ∷ colour 255 255 255
    ∷ []

-- The colours of the indices `i..i + n`.
abbrev pub ramp : (ℕ → RgbColor) → ℕ → ℕ → List RgbColor
ramp f i zero = []
ramp f i (suc n) = f i ∷ ramp f (suc i) n

abbrev pub cube_colour : ℕ → RgbColor
cube_colour i = colour (i / 36 * 51) (i / 6 % 6 * 51) (i % 6 * 51)

abbrev pub grey : ℕ → RgbColor
grey i = colour (8 + i * 10) (8 + i * 10) (8 + i * 10)

abbrev pub default_palette : List RgbColor
default_palette = standard ++ ramp cube_colour 0 216 ++ ramp grey 0 24

abbrev pub new_snapshot : ℕ → ℕ → ScreenSnapshot
new_snapshot cols rows = record {
  rows = replicate rows (replicate cols empty_cell);
  cols = cols;
  rows_count = rows;
  cursor_x = 0;
  cursor_y = 0;
  cursor_visible = true;
  title = [];
  bracketed_paste = false;
  mouse_reporting = no_reporting;
  mouse_encoding = default_encoding;
  mouse_focus_event = false;
  mouse_alternate_scroll = false;
  fg = colour 255 255 255;
  bg = colour 0 0 0;
  palette = default_palette;
}

abbrev pub cell_in : List (List CellData) → ℕ → ℕ → Option CellData
cell_in rows x y = get_elem? rows y >>= (λ row. get_elem? row x)

abbrev pub cell : ScreenSnapshot → ℕ → ℕ → Option CellData
cell s x y = cell_in s.rows x y

-- A write through `cell_mut`, where there is a cell.
abbrev pub at_index {ℓ} : {A : Type ℓ} → (A → A) → List A → ℕ → List A
at_index f [] i = []
at_index f (x ∷ xs) zero = f x ∷ xs
at_index f (x ∷ xs) (suc i) = x ∷ at_index f xs i

abbrev pub update_cell : ScreenSnapshot → ℕ → ℕ → (CellData → CellData) → ScreenSnapshot
update_cell s x y f = record s { rows = at_index (λ row. at_index f row x) s.rows y }
