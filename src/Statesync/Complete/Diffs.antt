-- ===== src/Statesync/Complete/Diffs.antt =====
-- crates/morsh-statesync/src/complete.rs: what a diff makes of the state that it is applied to.
use morsh.Common.{
  fun_ext, ℕ, ◌≤◌, max, ◌≡◌, refl, sym, ap, ap₂, ◌∙◌, List, [], ◌∷◌, ◌++◌, Bool, false, not, ◌||◌,
  ◌==◌, Option, none, some, Option-cases, Bool-cases, inl, inr, if◌then◌else◌, ==→eq, arith, true,
}
use morsh.Common.Int.{pos}
use morsh.Common.Utf8.{utf8_text}
use morsh.Common.Options.{◌>>=◌}
use morsh.Terminal.Snapshot.{ScreenSnapshot}
use morsh.Terminal.Equality.Screens.{screen_eq}
use morsh.Terminal.Emulator.{Vt}
use morsh.Terminal.Display.Drawing.{diff}
use morsh.Statesync.Complete.{
  Complete, HostInstruction, HostWire, clamped, act, succeeded, resize, echo_part, resize_part,
  update_part, instructions, diff_from, apply_instructions, apply_string, apply_instruction,
  echo_instruction, resize_instruction,
}

-- What is encoded is decoded.
pub record HostWireLaws (w : HostWire) : Type 0 where
  pub decode-encode : (is : List HostInstruction) → w.decode (w.encode is) ≡ some is

-- A width or a height that fits 16 bits and is not 0.
abbrev pub IsSize : ℕ → Type 0
IsSize n = (1 ≤ n) × (n ≤ 65535)

clamped-size : (n : ℕ) → IsSize n → clamped (pos n) ≡ n
clamped-size n (low, high) = omega (arith, low, high)

module _ {ℓ} {V : Type ℓ} (vt : Vt V) where
  apply_instructions-append :
      (is js : List HostInstruction) (c : Complete V)
      → apply_instructions vt (is ++ js) c
        ≡ (apply_instructions vt is c >>= apply_instructions vt js)
  apply_instructions-append [] js c = refl
  apply_instructions-append (i ∷ is) js c = elim (Option-cases (apply_instruction vt i c)) [
    | inl e ↦ rw e refl
    | inr (d, e) ↦ rw e (apply_instructions-append is js d)
  ]

  echo_part-applied :
      (c e : Complete V)
      → apply_instructions vt (echo_part c e) e
        ≡ some (record e { echo_ack = max e.echo_ack c.echo_ack })
  echo_part-applied c e = elim (Bool-cases (e.echo_ack == c.echo_ack)) [
    | inl same ↦
        let low : c.echo_ack ≡ e.echo_ack = sym (==→eq e.echo_ack c.echo_ack same) in
        ap (λ b. apply_instructions vt (if b then [] else echo_instruction c.echo_ack ∷ []) e) same
        ∙ ap (λ n. some (record e { echo_ack = n })) (omega (arith, low))
    | inr differs ↦
        ap (λ b. apply_instructions vt (if b then [] else echo_instruction c.echo_ack ∷ []) e)
          differs
  ]

  abbrev acked : Complete V → Complete V → Complete V
  acked c e = record e { echo_ack = max e.echo_ack c.echo_ack }

  -- The state resized to the size of `c`, where that is not the size of `old`.
  abbrev sized_like : Complete V → ScreenSnapshot → Complete V → Option (Complete V)
  sized_like c old a =
      if not (old.cols == c.screen.cols) || not (old.rows_count == c.screen.rows_count)
      then succeeded (resize vt a c.screen.cols c.screen.rows_count)
      else some a

  -- The emulator fed with a text, where there is one.
  abbrev drawn : List ℕ → Complete V → Option (Complete V)
  drawn [] a = some a
  drawn (b ∷ bs) a = act vt a (utf8_text (b ∷ bs))

  -- What a state is meant to go through when the diff from `e` to `c` reaches it at `e`.
  abbrev pub updated : Complete V → Complete V → Option (Complete V)
  updated c e =
      if screen_eq e.screen c.screen
      then some (acked c e)
      else sized_like c e.screen (acked c e) >>= drawn (diff e.screen c.screen)

  some_bind : (o : Option (Complete V)) → (o >>= some) ≡ o
  some_bind none = refl
  some_bind (some c) = refl

  update_part-applied :
      (text : List ℕ) (a : Complete V) → apply_instructions vt (update_part text) a ≡ drawn text a
  update_part-applied [] a = refl
  update_part-applied (b ∷ bs) a = some_bind (act vt a (utf8_text (b ∷ bs)))

  resize_part-applied :
      (c e a : Complete V)
      → IsSize c.screen.cols
      → IsSize c.screen.rows_count
      → apply_instructions vt (resize_part c e) a ≡ sized_like c e.screen a
  resize_part-applied c e a w h = by_size test
    where
      test : Bool
      test =
          not (e.screen.cols == c.screen.cols) || not (e.screen.rows_count == c.screen.rows_count)

      by_size :
          (b : Bool)
          → apply_instructions vt (if b then resize_instruction c.screen ∷ [] else []) a
            ≡ (if b then succeeded (resize vt a c.screen.cols c.screen.rows_count) else some a)
      by_size false = refl
      by_size true =
          some_bind (
            succeeded
              (resize vt a (clamped (pos c.screen.cols)) (clamped (pos c.screen.rows_count))))
          ∙ ap₂ (λ w h. succeeded (resize vt a w h)) (clamped-size c.screen.cols w)
              (clamped-size c.screen.rows_count h)

  instructions-applied :
      (c e : Complete V)
      → IsSize c.screen.cols
      → IsSize c.screen.rows_count
      → apply_instructions vt (instructions c e) e ≡ updated c e
  instructions-applied c e w h =
      apply_instructions-append (echo_part c e) (rest (screen_eq e.screen c.screen)) e
      ∙ ap (λ o. o >>= apply_instructions vt (rest (screen_eq e.screen c.screen)))
          (echo_part-applied c e)
      ∙ by_screen (screen_eq e.screen c.screen)
    where
      rest : Bool → List HostInstruction
      rest b = if b then [] else resize_part c e ++ update_part (diff e.screen c.screen)

      by_screen :
          (b : Bool)
          → apply_instructions vt (rest b) (acked c e) ≡ (
              if b
              then some (acked c e)
              else sized_like c e.screen (acked c e) >>= drawn (diff e.screen c.screen))
      by_screen true = refl
      by_screen false =
          apply_instructions-append (resize_part c e) (update_part (diff e.screen c.screen))
            (acked c e)
          ∙ ap (λ o. o >>= apply_instructions vt (update_part (diff e.screen c.screen)))
              (resize_part-applied c e (acked c e) w h)
          ∙ ap (λ f. sized_like c e.screen (acked c e) >>= f)
              (fun_ext (update_part-applied (diff e.screen c.screen)))

  -- If an encoded message is decoded, and the target's size is between 1 and 65535: applying the
  -- diff to a target to the state that it was made from is, failures included, the same as to raise
  -- the echo ack to the target's, and, where the screens differ, to resize to the target's size if
  -- the sizes differ and then to feed the emulator the text that leads from the one screen to the
  -- other, if there is any.
  pub apply_string-diff_from :
      (wire : HostWire) (laws : HostWireLaws wire) (c e : Complete V)
      → IsSize c.screen.cols
      → IsSize c.screen.rows_count
      → apply_string vt wire e (diff_from wire c e) ≡ updated c e
  unfolding apply_string diff_from
  apply_string-diff_from wire laws c e w h =
      ap (λ o. o >>= (λ is. apply_instructions vt is e)) (laws.decode-encode (instructions c e))
      ∙ instructions-applied c e w h
