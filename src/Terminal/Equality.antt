-- ===== src/Terminal/Equality.antt =====
-- crates/morsh-terminal/src/snapshot.rs: the derived `==` of what a snapshot holds.
pub mod Screens
use morsh.Common.{
  ◌≡◌, refl, ap, subst, List, Bool, true, false, not, ◌&&◌, ◌==◌, list_eq, list_eq-Decides,
  nat_eq-Decides, Decides, arith,
}
use morsh.Terminal.Snapshot.{RgbColor, StyleColor, default, rgb, palette, CellStyle, CellData}

abbrev pub bool_eq : Bool → Bool → Bool
bool_eq true b = b
bool_eq false b = not b

abbrev pub rgb_eq : RgbColor → RgbColor → Bool
rgb_eq a b = (a.r == b.r) && ((a.g == b.g) && (a.b == b.b))

abbrev pub colour_eq : StyleColor → StyleColor → Bool
colour_eq default default = true
colour_eq default (rgb c) = false
colour_eq default (palette i) = false
colour_eq (rgb c) default = false
colour_eq (rgb c) (rgb d) = rgb_eq c d
colour_eq (rgb c) (palette i) = false
colour_eq (palette i) default = false
colour_eq (palette i) (rgb c) = false
colour_eq (palette i) (palette j) = i == j

abbrev pub style_eq : CellStyle → CellStyle → Bool
style_eq a b =
    colour_eq a.fg b.fg
    && (colour_eq a.bg b.bg
        && (bool_eq a.bold b.bold
            && (bool_eq a.italic b.italic
                && (bool_eq a.faint b.faint
                    && (bool_eq a.blink b.blink
                        && (bool_eq a.inverse b.inverse
                            && (bool_eq a.invisible b.invisible
                                && (bool_eq a.strikethrough b.strikethrough
                                    && (bool_eq a.overline b.overline
                                        && bool_eq a.underline b.underline)))))))))

abbrev pub cell_eq : CellData → CellData → Bool
cell_eq a b =
    list_eq ◌==◌ a.text b.text
    && (bool_eq a.wide b.wide && (bool_eq a.spacer b.spacer && style_eq a.style b.style))

pub bool_eq-Decides : Decides bool_eq
bool_eq-Decides true true = (λ e. refl, λ e. refl)
bool_eq-Decides true false = (λ e. cc, λ e. cc)
bool_eq-Decides false true = (λ e. cc, λ e. cc)
bool_eq-Decides false false = (λ e. refl, λ e. refl)

pub rgb_eq-Decides : Decides rgb_eq
rgb_eq-Decides a b =
    let r : _ = nat_eq-Decides a.r b.r in
    let g : _ = nat_eq-Decides a.g b.g in
    let bl : _ = nat_eq-Decides a.b b.b in
    (λ e. ground (arith, r, g, bl, e), λ e. ground (arith, e))

colour_eq-Decides : Decides colour_eq
colour_eq-Decides default default = (λ e. refl, λ e. refl)
colour_eq-Decides default (rgb c) = (λ e. cc, λ e. cc)
colour_eq-Decides default (palette i) = (λ e. cc, λ e. cc)
colour_eq-Decides (rgb c) default = (λ e. cc, λ e. cc)
colour_eq-Decides (rgb c) (rgb d) =
    let h : _ = rgb_eq-Decides c d in (λ e. ap rgb (h.0 e), λ e. h.1 (cc))
colour_eq-Decides (rgb c) (palette i) = (λ e. cc, λ e. cc)
colour_eq-Decides (palette i) default = (λ e. cc, λ e. cc)
colour_eq-Decides (palette i) (rgb c) = (λ e. cc, λ e. cc)
colour_eq-Decides (palette i) (palette j) =
    let h : _ = nat_eq-Decides i j in (λ e. ap palette (h.0 e), λ e. h.1 (cc))

pub both : (a b : Bool) → (a && b) ≡ true → (a ≡ true) × (b ≡ true)
both true b e = (refl, e)
both false b e = absurd (ground arith)

style_eq-Decides : Decides style_eq
style_eq-Decides a b = (λ e. sound e, λ e. complete e)
  where
    sound : style_eq a b ≡ true → a ≡ b
    sound e =
        let (fg, e₁) = both (colour_eq a.fg b.fg) _ e in
        let (bg, e₂) = both (colour_eq a.bg b.bg) _ e₁ in
        let (bold, e₃) = both (bool_eq a.bold b.bold) _ e₂ in
        let (italic, e₄) = both (bool_eq a.italic b.italic) _ e₃ in
        let (faint, e₅) = both (bool_eq a.faint b.faint) _ e₄ in
        let (blink, e₆) = both (bool_eq a.blink b.blink) _ e₅ in
        let (inverse, e₇) = both (bool_eq a.inverse b.inverse) _ e₆ in
        let (invisible, e₈) = both (bool_eq a.invisible b.invisible) _ e₇ in
        let (strike, e₉) = both (bool_eq a.strikethrough b.strikethrough) _ e₈ in
        let (over, under) =
          both (bool_eq a.overline b.overline) (bool_eq a.underline b.underline) e₉ in
        cc (
          (colour_eq-Decides a.fg b.fg).0 fg,
          (colour_eq-Decides a.bg b.bg).0 bg,
          (bool_eq-Decides a.bold b.bold).0 bold,
          (bool_eq-Decides a.italic b.italic).0 italic,
          (bool_eq-Decides a.faint b.faint).0 faint,
          (bool_eq-Decides a.blink b.blink).0 blink,
          (bool_eq-Decides a.inverse b.inverse).0 inverse,
          (bool_eq-Decides a.invisible b.invisible).0 invisible,
          (bool_eq-Decides a.strikethrough b.strikethrough).0 strike,
          (bool_eq-Decides a.overline b.overline).0 over,
          (bool_eq-Decides a.underline b.underline).0 under,
        )

    complete : a ≡ b → style_eq a b ≡ true
    complete e = subst (λ c. style_eq a c ≡ true) e same
      where
        c_refl : (x : StyleColor) → colour_eq x x ≡ true
        c_refl x = (colour_eq-Decides x x).1 refl

        b_refl : (x : Bool) → bool_eq x x ≡ true
        b_refl x = (bool_eq-Decides x x).1 refl

        same : style_eq a a ≡ true
        same =
            rw
              (
                c_refl a.fg,
                c_refl a.bg,
                b_refl a.bold,
                b_refl a.italic,
                b_refl a.faint,
                b_refl a.blink,
                b_refl a.inverse,
                b_refl a.invisible,
                b_refl a.strikethrough,
                b_refl a.overline,
                b_refl a.underline,
              )
              refl

pub text_eq-Decides : Decides (list_eq ◌==◌)
text_eq-Decides = list_eq-Decides ◌==◌ nat_eq-Decides

cell_eq-Decides : Decides cell_eq
cell_eq-Decides a b = (λ e. sound e, λ e. subst (λ c. cell_eq a c ≡ true) e same)
  where
    sound : cell_eq a b ≡ true → a ≡ b
    sound e =
        let (text, e₁) = both (list_eq ◌==◌ a.text b.text) _ e in
        let (wide, e₂) = both (bool_eq a.wide b.wide) _ e₁ in
        let (spacer, style) = both (bool_eq a.spacer b.spacer) (style_eq a.style b.style) e₂ in
        cc (
          (text_eq-Decides a.text b.text).0 text,
          (bool_eq-Decides a.wide b.wide).0 wide,
          (bool_eq-Decides a.spacer b.spacer).0 spacer,
          (style_eq-Decides a.style b.style).0 style,
        )

    same : cell_eq a a ≡ true
    same =
        rw
          (
            (text_eq-Decides a.text a.text).1 refl,
            (bool_eq-Decides a.wide a.wide).1 refl,
            (bool_eq-Decides a.spacer a.spacer).1 refl,
            (style_eq-Decides a.style a.style).1 refl,
          )
          refl

-- Of rows.
abbrev pub row_eq : List CellData → List CellData → Bool
row_eq a b = list_eq cell_eq a b

pub row_eq-Decides : Decides row_eq
row_eq-Decides = list_eq-Decides cell_eq cell_eq-Decides
