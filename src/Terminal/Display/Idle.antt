-- ===== src/Terminal/Display/Idle.antt =====
-- crates/morsh-terminal/src/display.rs: a screen that has not changed.
use morsh.Common.{
  ℕ, zero, suc, ◌≡◌, refl, ap, ◌∙◌, List, [], ◌++◌, Bool, true, ◌||◌, none, some, ltb, ◌==◌,
  ==_refl, length, Bool-cases, inl, inr,
}
use morsh.Terminal.Snapshot.{CellData, ScreenSnapshot, reporting_number, encoding_number}
use morsh.Terminal.Equality.{bool_eq, bool_eq-Decides, text_eq-Decides, row_eq, row_eq-Decides}
use morsh.Terminal.Display.{state_changes, row_at, first_match, scroll_by, detect_scroll}
use morsh.Terminal.Display.Drawing.{diff_rows, diff_scrolled, diff_cursor, diff}

bool_eq_refl : (b : Bool) → bool_eq b b ≡ true
bool_eq_refl b = (bool_eq-Decides b b).1 refl

state_changes-same : (s : ScreenSnapshot) → state_changes (some s) s ≡ []
state_changes-same s =
    rw
      (
        (text_eq-Decides s.title s.title).1 refl,
        bool_eq_refl s.bracketed_paste,
        bool_eq_refl s.mouse_focus_event,
        bool_eq_refl s.mouse_alternate_scroll,
        ==_refl (reporting_number s.mouse_reporting),
        ==_refl (encoding_number s.mouse_encoding),
      )
      refl

no_match :
    (rows : List (List CellData)) (h n : ℕ)
    → scroll_by rows rows h (first_match (row_at rows 0) rows 0 n) ≡ none
no_match rows h zero = refl
no_match rows h (suc n) =
    let top : row_eq (row_at rows 0) (row_at rows 0) ≡ true =
      (row_eq-Decides (row_at rows 0) (row_at rows 0)).1 refl in
    rw (top, first_match) refl

detect_scroll-same : (s : ScreenSnapshot) → detect_scroll s.rows s ≡ none
detect_scroll-same s = elim (Bool-cases ((s.rows_count == 0) || ltb (length s.rows) s.rows_count)) [
  | inl e ↦ rw e refl
  | inr e ↦ rw e (no_match s.rows s.rows_count s.rows_count)
]

diff_rows-same : (rows : List (List CellData)) (cols y n : ℕ) → diff_rows rows rows cols y n ≡ []
diff_rows-same rows cols y zero = refl
diff_rows-same rows cols y (suc n) =
    let row : row_eq (row_at rows y) (row_at rows y) ≡ true =
      (row_eq-Decides (row_at rows y) (row_at rows y)).1 refl in
    rw row (diff_rows-same rows cols (suc y) n)

diff_cursor-same : (s : ScreenSnapshot) → diff_cursor s s [] ≡ []
diff_cursor-same s = rw (==_refl s.cursor_y, ==_refl s.cursor_x, bool_eq_refl s.cursor_visible) refl

-- The diff of a screen to itself is empty, so that an idle frame writes nothing to the terminal.
pub diff-same : (s : ScreenSnapshot) → diff s s ≡ []
diff-same s =
    rw (==_refl s.cols, ==_refl s.rows_count)
      (ap (λ o. diff_cursor s s (state_changes (some s) s ++ diff_scrolled o s s))
          (detect_scroll-same s)
        ∙ ap (λ out. diff_cursor s s (out ++ diff_rows s.rows s.rows s.cols 0 s.rows_count))
            (state_changes-same s)
        ∙ ap (diff_cursor s s) (diff_rows-same s.rows s.cols 0 s.rows_count)
        ∙ diff_cursor-same s)
