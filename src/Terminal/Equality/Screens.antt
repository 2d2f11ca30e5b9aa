-- ===== src/Terminal/Equality/Screens.antt =====
-- crates/morsh-terminal/src/snapshot.rs: the derived `==` of a screen.
use morsh.Common.{
  ◌≡◌, refl, sym, ap, ◌∙◌, ℕ, Bool, true, ◌&&◌, ◌==◌, list_eq, list_eq-Decides, nat_eq-Decides,
  if◌then◌else◌,
}
use morsh.Terminal.Snapshot.{
  MouseReporting, no_reporting, x10, vt200, button_event, any_event, reporting_number,
  MouseEncoding, default_encoding, utf8, sgr, urxvt, encoding_number, ScreenSnapshot,
}
use morsh.Terminal.Equality.{
  bool_eq, bool_eq-Decides, rgb_eq, rgb_eq-Decides, text_eq-Decides, row_eq, row_eq-Decides, both,
}

abbrev reporting_eq : MouseReporting → MouseReporting → Bool
reporting_eq a b = reporting_number a == reporting_number b

abbrev encoding_eq : MouseEncoding → MouseEncoding → Bool
encoding_eq a b = encoding_number a == encoding_number b

abbrev pub screen_eq : ScreenSnapshot → ScreenSnapshot → Bool
screen_eq a b =
    list_eq row_eq a.rows b.rows
    && ((a.cols == b.cols)
        && ((a.rows_count == b.rows_count)
            && ((a.cursor_x == b.cursor_x)
                && ((a.cursor_y == b.cursor_y)
                    && (bool_eq a.cursor_visible b.cursor_visible
                        && (list_eq ◌==◌ a.title b.title
                            && (bool_eq a.bracketed_paste b.bracketed_paste
                                && (reporting_eq a.mouse_reporting b.mouse_reporting
                                    && (encoding_eq a.mouse_encoding b.mouse_encoding
                                        && (bool_eq a.mouse_focus_event b.mouse_focus_event
                                            && (bool_eq a.mouse_alternate_scroll
                                                  b.mouse_alternate_scroll
                                                && (rgb_eq a.fg b.fg
                                                    && (rgb_eq a.bg b.bg
                                                        && list_eq rgb_eq a.palette
                                                            b.palette)))))))))))))

abbrev reporting_with : ℕ → MouseReporting
reporting_with n =
    if n == 9
    then x10
    else if n == 1000
    then vt200
    else if n == 1002
    then button_event
    else if n == 1003
    then any_event
    else no_reporting

reporting_with-number : (r : MouseReporting) → reporting_with (reporting_number r) ≡ r
reporting_with-number no_reporting = refl
reporting_with-number x10 = refl
reporting_with-number vt200 = refl
reporting_with-number button_event = refl
reporting_with-number any_event = refl

abbrev encoding_with : ℕ → MouseEncoding
encoding_with n =
    if n == 1005
    then utf8
    else if n == 1006
    then sgr
    else if n == 1015
    then urxvt
    else default_encoding

encoding_with-number : (e : MouseEncoding) → encoding_with (encoding_number e) ≡ e
encoding_with-number default_encoding = refl
encoding_with-number utf8 = refl
encoding_with-number sgr = refl
encoding_with-number urxvt = refl

same_reporting : (a b : MouseReporting) → reporting_eq a b ≡ true → a ≡ b
same_reporting a b e =
    sym (reporting_with-number a)
    ∙ ap reporting_with ((nat_eq-Decides (reporting_number a) (reporting_number b)).0 e)
    ∙ reporting_with-number b

same_encoding : (a b : MouseEncoding) → encoding_eq a b ≡ true → a ≡ b
same_encoding a b e =
    sym (encoding_with-number a)
    ∙ ap encoding_with ((nat_eq-Decides (encoding_number a) (encoding_number b)).0 e)
    ∙ encoding_with-number b

-- Screens that compare equal are the same.
pub same_screen : (a b : ScreenSnapshot) → screen_eq a b ≡ true → a ≡ b
same_screen a b e =
    let (e_rows, rest_rows) = both (list_eq row_eq a.rows b.rows) _ e in
    let (e_cols, rest_cols) = both (a.cols == b.cols) _ rest_rows in
    let (e_rows_count, rest_rows_count) = both (a.rows_count == b.rows_count) _ rest_cols in
    let (e_cursor_x, rest_cursor_x) = both (a.cursor_x == b.cursor_x) _ rest_rows_count in
    let (e_cursor_y, rest_cursor_y) = both (a.cursor_y == b.cursor_y) _ rest_cursor_x in
    let (e_cursor_visible, rest_cursor_visible) =
      both (bool_eq a.cursor_visible b.cursor_visible) _ rest_cursor_y in
    let (e_title, rest_title) = both (list_eq ◌==◌ a.title b.title) _ rest_cursor_visible in
    let (e_bracketed_paste, rest_bracketed_paste) =
      both (bool_eq a.bracketed_paste b.bracketed_paste) _ rest_title in
    let (e_mouse_reporting, rest_mouse_reporting) =
      both (reporting_eq a.mouse_reporting b.mouse_reporting) _ rest_bracketed_paste in
    let (e_mouse_encoding, rest_mouse_encoding) =
      both (encoding_eq a.mouse_encoding b.mouse_encoding) _ rest_mouse_reporting in
    let (e_mouse_focus_event, rest_mouse_focus_event) =
      both (bool_eq a.mouse_focus_event b.mouse_focus_event) _ rest_mouse_encoding in
    let (e_mouse_alternate_scroll, rest_mouse_alternate_scroll) =
      both (bool_eq a.mouse_alternate_scroll b.mouse_alternate_scroll) _ rest_mouse_focus_event in
    let (e_fg, rest_fg) = both (rgb_eq a.fg b.fg) _ rest_mouse_alternate_scroll in
    let (e_bg, rest_bg) = both (rgb_eq a.bg b.bg) (list_eq rgb_eq a.palette b.palette) rest_fg in
    cc (
      (list_eq-Decides row_eq row_eq-Decides a.rows b.rows).0 e_rows,
      (nat_eq-Decides a.cols b.cols).0 e_cols,
      (nat_eq-Decides a.rows_count b.rows_count).0 e_rows_count,
      (nat_eq-Decides a.cursor_x b.cursor_x).0 e_cursor_x,
      (nat_eq-Decides a.cursor_y b.cursor_y).0 e_cursor_y,
      (bool_eq-Decides a.cursor_visible b.cursor_visible).0 e_cursor_visible,
      (text_eq-Decides a.title b.title).0 e_title,
      (bool_eq-Decides a.bracketed_paste b.bracketed_paste).0 e_bracketed_paste,
      same_reporting a.mouse_reporting b.mouse_reporting e_mouse_reporting,
      same_encoding a.mouse_encoding b.mouse_encoding e_mouse_encoding,
      (bool_eq-Decides a.mouse_focus_event b.mouse_focus_event).0 e_mouse_focus_event,
      (bool_eq-Decides a.mouse_alternate_scroll b.mouse_alternate_scroll).0
          e_mouse_alternate_scroll,
      (rgb_eq-Decides a.fg b.fg).0 e_fg,
      (rgb_eq-Decides a.bg b.bg).0 e_bg,
      (list_eq-Decides rgb_eq rgb_eq-Decides a.palette b.palette).0 rest_bg,
    )
