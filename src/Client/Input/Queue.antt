-- ===== src/Client/Input/Queue.antt =====
-- crates/morsh-client/src/input.rs: what is typed reaches the queue to the server, whatever is
-- predicted, and the predictor does not panic on it.
use morsh.Common.{
  suc, Option, some, if-false, ℕ, ◌<◌, ◌≡◌, refl, sym, ap, ◌∙◌, subst, List, [], ◌∷◌, ◌++◌, some,
  Bool, true, false, ltb, length, map, All, Bool-cases, inl, inr, unwrap_or, last?, append-nil,
  append_assoc,
}
use morsh.Common.Options.{◌>>=◌}
use morsh.Network.Sender
use morsh.Network.Transport.{Transport}
use morsh.Network.Transport.Calls.{shutdown_in_progress, set_current_state, get_current_state}
use morsh.Statesync.UserStream.{UserStream, user_byte}
use morsh.Prediction.Overlay.{ConditionalCursorMove}
use morsh.Prediction.Engine.{PredictionEngine, cursor_pos, position_if}
use morsh.Prediction.Engine.Calls.{IsValid, new_user_byte-IsValid}
use morsh.Prediction.Engine.Cursors.{CursorsIn, ResultIn, new_user_byte-ResultIn}
use morsh.Terminal.Snapshot.{ScreenSnapshot}
use morsh.Client.Escape.{input}
use morsh.Client.Input.{
  paste_threshold, Client, char_at, predict_byte, queue_key, take_bytes, before_input, handle,
  handle_term_event,
}

module _ (width : ℕ) where
  last-In :
      (cs : List ConditionalCursorMove) (d : ℕ × ℕ)
      → All (λ c. c.col < width) cs
      → d.1 < width
      → (unwrap_or (position_if (λ c. c.active) (last? cs)) d).1 < width
  last-In [] d h k = k
  last-In (c ∷ []) d h k = elim (Bool-cases c.active) [ inl e ↦ rw e h.0 | inr e ↦ rw e k ]
  last-In (c ∷ e ∷ cs) d h k = last-In (e ∷ cs) d h.1 k

-- A predictor that a byte on this screen does not make panic.
pub record Fits (frame : ScreenSnapshot) (p : PredictionEngine) : Type 0 where
  pub valid : IsValid p
  pub cursors : CursorsIn frame.cols p

predict_byte-Fits :
    (frame : ScreenSnapshot) (now : ℕ) (p : PredictionEngine) (byte : ℕ)
    → frame.cursor_x < frame.cols
    → Fits frame p
    → (p' : PredictionEngine) × (predict_byte frame now p byte ≡ some p') × Fits frame p'
predict_byte-Fits frame now p byte h f =
    let at : ℕ × ℕ = unwrap_or (cursor_pos p) (frame.cursor_y, frame.cursor_x) in
    let inside : at.1 < frame.cols =
      last-In frame.cols p.cursors (frame.cursor_y, frame.cursor_x) f.cursors h in
    let (p', eq, valid) =
      new_user_byte-IsValid p byte at.0 at.1 frame.cols frame.rows_count (char_at frame) now f.valid
        inside in
    let cursors : _ =
      new_user_byte-ResultIn frame.cols at.0 at.1 frame.rows_count (char_at frame) now inside p byte
        f.cursors in
    (p', eq, record { valid = valid; cursors = subst (ResultIn frame.cols) eq cursors })

module _ {ℓ} {R : Type ℓ} where
  -- Typed bytes are at the end of the queue, and the predictor still fits.
  pub record Queued (frame : ScreenSnapshot) (bytes : List ℕ) (c c' : Client R) : Type ℓ where
    pub queue :
        get_current_state c'.transport ≡ get_current_state c.transport ++ map user_byte bytes
    pub fits : Fits frame c'.prediction

  queue_key-state :
      (t : Transport UserStream R) (b : ℕ)
      → get_current_state (queue_key t b) ≡ get_current_state t ++ user_byte b ∷ []
  unfolding set_current_state Sender.set_current_state
  queue_key-state t b = refl

  -- One byte more in front.
  Queued-front :
      (frame : ScreenSnapshot) (b : ℕ) (bs : List ℕ) (c c₁ c' : Client R)
      → c₁.transport ≡ queue_key c.transport b
      → Queued frame bs c₁ c'
      → Queued frame (b ∷ bs) c c'
  Queued-front frame b bs c c₁ c' e q = record {
    queue =
        q.queue
        ∙ ap (λ t. get_current_state t ++ map user_byte bs) e
        ∙ ap (λ u. u ++ map user_byte bs) (queue_key-state c.transport b)
        ∙ append_assoc (get_current_state c.transport) (user_byte b ∷ []) (map user_byte bs);
    fits = q.fits;
  }

  take_bytes-Queued :
      (paste : Bool) (frame : ScreenSnapshot) (clock : ℕ → ℕ) (bytes : List ℕ) (c : Client R)
      → frame.cursor_x < frame.cols
      → Fits frame c.prediction
      → (c' : Client R) × (take_bytes paste frame clock bytes c ≡ some c') × Queued frame bytes c c'
  take_bytes-Queued paste frame clock [] c h f =
      (c, refl, record { queue = sym (append-nil (get_current_state c.transport)); fits = f })
  take_bytes-Queued true frame clock (b ∷ bs) c h f =
      let c₁ : Client R = record c { transport = queue_key c.transport b } in
      let (c', eq, q) = take_bytes-Queued true frame clock bs c₁ h f in
      (c', eq, Queued-front frame b bs c c₁ c' refl q)
  take_bytes-Queued false frame clock (b ∷ bs) c h f =
      let (p, seen, fits) = predict_byte-Fits frame (clock 0) c.prediction b h f in
      let c₁ : Client R = record c { transport = queue_key c.transport b; prediction = p } in
      let (c', eq, q) = take_bytes-Queued false frame (λ k. clock (suc k)) bs c₁ h fits in
      (c', rw seen eq, Queued-front frame b bs c c₁ c' refl q)

  before_input-Fits :
      (frame : ScreenSnapshot) (paste : Bool) (c : Client R)
      → Fits frame c.prediction
      → Fits frame (before_input paste c).prediction
  before_input-Fits frame true c f = record { valid = tt; cursors = tt }
  before_input-Fits frame false c f = record { valid = f.valid; cursors = f.cursors }

  -- With no shutdown in progress, the cursor of the screen in it, and a predictor whose rows have
  -- the last width seen and whose cursors are left of the right edge: an event with typed bytes is
  -- handled with no panic, be it a paste or not, never ends the client, puts exactly these bytes,
  -- in their order, at the end of the queue to the server, and leaves such a predictor.
  pub handle_term_event-Queued :
      (bytes : List ℕ) (frame : ScreenSnapshot) (clock : ℕ → ℕ) (c : Client R)
      → shutdown_in_progress c.transport ≡ false
      → frame.cursor_x < frame.cols
      → Fits frame c.prediction
      → (c' : Client R) × (handle_term_event (input bytes) frame clock c ≡ some (false, c'))
        × Queued frame bytes c c'
  handle_term_event-Queued bytes frame clock c running h f =
      let paste : Bool = ltb paste_threshold (length bytes) in
      let pack : Client R → Option (Bool × Client R) = λ d. some (false, d) in
      let (c', eq, q) =
        take_bytes-Queued paste frame clock bytes (before_input paste c) h
          (before_input-Fits frame paste c f) in
      (
        c',
        if-false (shutdown_in_progress c.transport) (some (false, c))
              (handle (input bytes) frame clock c) running
            ∙ ap (λ o. o >>= pack) eq,
        record { queue = q.queue; fits = q.fits },
      )
