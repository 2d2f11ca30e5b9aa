-- ===== src/Terminal/Emulator.antt =====
-- crates/morsh-terminal/src/terminal.rs: the emulator of the crate libghostty-vt, and the screen read
-- from it. A String error is `none`.
pub mod Shaped
use morsh.Common.{
  ℕ, ◌+◌, ◌-◌, ◌%◌, ◌^◌, min, List, [], ◌∷◌, ◌++◌, Bool, true, false, ◌||◌, Option, none, some,
  ◌==◌, if◌then◌else◌, length, take, replicate, list_eq, unwrap_or,
}
use morsh.Common.Options.{◌>>=◌, option_map}
use morsh.Terminal.Snapshot.{
  RgbColor, StyleColor, default, rgb, palette, CellStyle, default_style, CellData, empty_cell,
  MouseReporting, no_reporting, x10, vt200, button_event, any_event, MouseEncoding,
  default_encoding, utf8, sgr, urxvt, ScreenSnapshot, colour,
}

-- What libghostty-vt reports of a cell, a row and a screen. The underline is whether there is one.
pub data VtColor : Type 0 where
  no_color : VtColor
  palette_color : ℕ → VtColor
  rgb_color : RgbColor → VtColor

pub record VtStyle : Type 0 where
  pub fg_color : VtColor
  pub bg_color : VtColor
  pub bold : Bool
  pub italic : Bool
  pub faint : Bool
  pub blink : Bool
  pub inverse : Bool
  pub invisible : Bool
  pub strikethrough : Bool
  pub overline : Bool
  pub underline : Bool

pub data CellWide : Type 0 where
  narrow : CellWide
  wide : CellWide
  spacer_tail : CellWide
  spacer_head : CellWide

pub data Mode : Type 0 where
  bracketed_paste : Mode
  focus_event : Mode
  alt_scroll : Mode
  any_mouse : Mode
  button_mouse : Mode
  normal_mouse : Mode
  x10_mouse : Mode
  sgr_mouse : Mode
  urxvt_mouse : Mode
  utf8_mouse : Mode

-- A value that the crate could not give is `none`; `width` is what a raw cell says of it.
pub record VtCell : Type 0 where
  pub graphemes : Option (List ℕ)
  pub style : Option VtStyle
  pub width : Option CellWide

pub record VtColors : Type 0 where
  pub foreground : RgbColor
  pub background : RgbColor
  pub palette : List RgbColor

pub record VtScreen : Type 0 where
  pub cursor_viewport : Option (ℕ × ℕ)
  pub cursor_visible : Option Bool
  pub colors : Option VtColors
  pub rows : List (Option (List VtCell))

-- The crate's terminal: made for a number of columns, rows and lines of scrollback, fed with bytes,
-- resized, which may fail, rendered, and asked for its title and its modes.
pub record Vt {ℓ} (V : Type ℓ) : Type ℓ where
  pub create : ℕ → ℕ → ℕ → Option V
  pub vt_write : V → List ℕ → V
  pub set_size : V → ℕ → ℕ → Bool × V
  pub render : V → Option VtScreen
  pub title : V → Option (List ℕ)
  pub mode : V → Mode → Option Bool

pub record MoshTerminal {ℓ} (V : Type ℓ) : Type ℓ where
  pub terminal : V
  pub cols : ℕ
  pub rows : ℕ
  pub frame : ℕ

abbrev pub convert_color : VtColor → StyleColor
convert_color no_color = default
convert_color (palette_color i) = palette i
convert_color (rgb_color c) = rgb c

abbrev pub convert_style : VtStyle → CellStyle
convert_style s = record {
  fg = convert_color s.fg_color;
  bg = convert_color s.bg_color;
  bold = s.bold;
  italic = s.italic;
  faint = s.faint;
  blink = s.blink;
  inverse = s.inverse;
  invisible = s.invisible;
  strikethrough = s.strikethrough;
  overline = s.overline;
  underline = s.underline;
}

abbrev pub is_wide : CellWide → Bool
is_wide narrow = false
is_wide wide = true
is_wide spacer_tail = false
is_wide spacer_head = false

abbrev pub is_spacer : CellWide → Bool
is_spacer narrow = false
is_spacer wide = false
is_spacer spacer_tail = true
is_spacer spacer_head = true

-- A blank is the empty text.
abbrev pub canonical : Bool → List ℕ → List ℕ
canonical spacer text = if spacer || list_eq ◌==◌ text (32 ∷ []) then [] else text

abbrev pub read_style : Option VtStyle → CellStyle
read_style none = default_style
read_style (some s) = convert_style s

abbrev pub read_cell : VtCell → Option CellData
read_cell c =
    let width = unwrap_or c.width narrow in
    option_map
      (λ text. record {
        text = canonical (is_spacer width) text;
        wide = is_wide width;
        spacer = is_spacer width;
        style = read_style c.style;
      })
      c.graphemes

abbrev pub read_cells : List VtCell → Option (List CellData)
read_cells [] = some []
read_cells (c ∷ cs) = read_cell c >>= (λ x. read_cells cs >>= (λ xs. some (x ∷ xs)))

abbrev pub pad {ℓ} : {A : Type ℓ} → ℕ → A → List A → List A
pad n d xs = xs ++ replicate (n - length xs) d

-- The loop over the rows; a short row is padded.
abbrev pub read_rows : ℕ → List (Option (List VtCell)) → Option (List (List CellData))
read_rows cols [] = some []
read_rows cols (r ∷ rs) =
    r
    >>= read_cells
    >>= (λ row. read_rows cols rs >>= (λ rows. some (pad cols empty_cell row ∷ rows)))

abbrev pub fit_rows : ℕ → ℕ → List (List CellData) → List (List CellData)
fit_rows cols n rows = pad n (replicate cols empty_cell) (take n rows)

abbrev pub cursor_position : ℕ → ℕ → Option (ℕ × ℕ) → ℕ × ℕ
cursor_position cols rows none = (0, 0)
cursor_position cols rows (some (x, y)) = (min x (cols - 1), min y (rows - 1))

abbrev pub black : RgbColor
black = colour 0 0 0

abbrev pub read_colors : Option VtColors → VtColors
read_colors none = record {
  foreground = colour 255 255 255;
  background = black;
  palette = replicate 256 black;
}
read_colors (some c) = record c { palette = pad 256 black (take 256 c.palette) }

module _ {ℓ} {V : Type ℓ} (vt : Vt V) where
  abbrev pub new : ℕ → ℕ → ℕ → Option (MoshTerminal V)
  new cols rows max_scrollback =
      option_map (λ v. record { terminal = v; cols = cols; rows = rows; frame = 0 })
        (vt.create cols rows max_scrollback)

  abbrev pub write : MoshTerminal V → List ℕ → MoshTerminal V
  write t bytes = record t { terminal = vt.vt_write t.terminal bytes }

  -- Whether it succeeded, and the terminal: the numbers change also when it did not.
  abbrev pub resize : MoshTerminal V → ℕ → ℕ → Bool × MoshTerminal V
  resize t cols rows =
      let (done, v) = vt.set_size t.terminal cols rows in
      (done, record t { terminal = v; cols = cols; rows = rows })

  abbrev pub mode_of : MoshTerminal V → Mode → Bool
  mode_of t m = unwrap_or (vt.mode t.terminal m) false

  -- The value of the first mode of a table that is on.
  abbrev pub first_on {κ} : {A : Type κ} → MoshTerminal V → A → List (Mode × A) → A
  first_on t d [] = d
  first_on t d ((m, a) ∷ rest) = if mode_of t m then a else first_on t d rest

  abbrev pub mouse_reporting : MoshTerminal V → MouseReporting
  mouse_reporting t = first_on t no_reporting (
      (any_mouse, any_event)
      ∷ (button_mouse, button_event)
      ∷ (normal_mouse, vt200)
      ∷ (x10_mouse, x10)
      ∷ [])

  abbrev pub mouse_encoding : MoshTerminal V → MouseEncoding
  mouse_encoding t =
      first_on t default_encoding
        ((sgr_mouse, sgr) ∷ (urxvt_mouse, urxvt) ∷ (utf8_mouse, utf8) ∷ [])

  abbrev pub screen_of : MoshTerminal V → VtScreen → List (List CellData) → ScreenSnapshot
  screen_of t s rows =
      let cursor = cursor_position t.cols t.rows s.cursor_viewport in
      let colors = read_colors s.colors in
      record {
        rows = fit_rows t.cols t.rows rows;
        cols = t.cols;
        rows_count = t.rows;
        cursor_x = cursor.0;
        cursor_y = cursor.1;
        cursor_visible = unwrap_or s.cursor_visible true;
        title = unwrap_or (vt.title t.terminal) [];
        bracketed_paste = mode_of t bracketed_paste;
        mouse_reporting = mouse_reporting t;
        mouse_encoding = mouse_encoding t;
        mouse_focus_event = mode_of t focus_event;
        mouse_alternate_scroll = mode_of t alt_scroll;
        fg = colors.foreground;
        bg = colors.background;
        palette = colors.palette;
      }

  unfoldable pub snapshot : MoshTerminal V → Option ScreenSnapshot
  snapshot t = vt.render t.terminal >>= (λ s. option_map (screen_of t s) (read_rows t.cols s.rows))

abbrev pub next_frame {ℓ} : {V : Type ℓ} → MoshTerminal V → ℕ × MoshTerminal V
next_frame t = (t.frame, record t { frame = (t.frame + 1) % 2 ^ 64 })

abbrev pub dimensions {ℓ} : {V : Type ℓ} → MoshTerminal V → ℕ × ℕ
dimensions t = (t.cols, t.rows)
