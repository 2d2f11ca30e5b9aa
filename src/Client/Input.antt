-- ===== src/Client/Input.antt =====
-- crates/morsh-client/src/input.rs: `handle_term_event`, where the keyboard meets the transport, the
-- predictor and the status bar. `none` is a panic of the predictor, or of the assertion that nothing
-- is typed during a shutdown.
pub mod Queue
use morsh.Common.{
  suc, ℕ, List, [], ◌∷◌, Option, none, some, Bool, true, false, ltb, if◌then◌else◌, length,
  unwrap_or,
}
use morsh.Common.Options.{◌>>=◌}
use morsh.Network.Transport.{Transport}
use morsh.Network.Transport.Calls.{
  sent_state_last, has_remote_addr, start_shutdown, shutdown_in_progress, set_current_state,
  get_current_state,
}
use morsh.Statesync.UserStream.{UserStream, push_key, push_resize}
use morsh.Prediction.Notification.{
  NotificationEngine, set_notification, show_escape_help, hide_escape_help,
}
use morsh.Prediction.Overlay.{space}
use morsh.Prediction.Engine.{PredictionEngine, reset, set_local_frame_sent, cursor_pos}
use morsh.Prediction.Engine.Keys.{new_user_byte}
use morsh.Terminal.Snapshot.{CellData, ScreenSnapshot, cell}
use morsh.Client.Escape.{TermEvent, input, resize, escape_help, quit_event}
use morsh.Client.Frame.{as_u16}

abbrev pub paste_threshold : ℕ
paste_threshold = 100

-- "Exiting on user request..."
abbrev pub exiting : List ℕ
exiting =
    69 ∷ 120 ∷ 105 ∷ 116 ∷ 105 ∷ 110 ∷ 103 ∷ 32 ∷ 111 ∷ 110 ∷ 32 ∷ 117 ∷ 115 ∷ 101 ∷ 114 ∷ 32 ∷ 114
    ∷ 101 ∷ 113 ∷ 117 ∷ 101 ∷ 115 ∷ 116 ∷ 46 ∷ 46 ∷ 46 ∷ []

-- What an event changes.
pub record Client {ℓ} (R : Type ℓ) : Type ℓ where
  pub transport : Transport UserStream R
  pub prediction : PredictionEngine
  pub notifications : NotificationEngine

-- The first character of a cell, or a space.
abbrev pub first_char : Option CellData → ℕ
first_char none = space
first_char (some d) = elim d.text [ [] ↦ space | c ∷ cs ↦ c ]

-- What the server last put at a position.
abbrev pub char_at : ScreenSnapshot → ℕ → ℕ → ℕ
char_at frame r c = first_char (cell frame (as_u16 c) (as_u16 r))

-- One byte shown to the predictor: at its own cursor, or else at the screen's.
abbrev pub predict_byte : ScreenSnapshot → ℕ → PredictionEngine → ℕ → Option PredictionEngine
predict_byte frame now p byte =
    let (row, col) = unwrap_or (cursor_pos p) (frame.cursor_y, frame.cursor_x) in
    new_user_byte p byte row col frame.cols frame.rows_count (char_at frame) now

module _ {ℓ} {R : Type ℓ} where
  -- `current_state_mut().push_key(byte)`
  abbrev pub queue_key : Transport UserStream R → ℕ → Transport UserStream R
  queue_key t byte = set_current_state t (push_key (get_current_state t) byte)

  -- The loop over the bytes. The clock is read for each byte that is predicted: its readings, by the
  -- number of the byte.
  abbrev pub take_bytes : Bool → ScreenSnapshot → (ℕ → ℕ) → List ℕ → Client R → Option (Client R)
  take_bytes paste frame clock [] c = some c
  take_bytes true frame clock (b ∷ bs) c =
      take_bytes true frame clock bs (record c { transport = queue_key c.transport b })
  take_bytes false frame clock (b ∷ bs) c = predict_byte frame (clock 0) c.prediction b >>= (λ p.
      take_bytes false frame (λ k. clock (suc k)) bs
        (record c { transport = queue_key c.transport b; prediction = p }))

  -- A paste drops the predictions; the predictor learns the number of the last state sent.
  abbrev pub before_input : Bool → Client R → Client R
  before_input paste c =
      let p = if paste then reset c.prediction else c.prediction in
      record c { prediction = set_local_frame_sent p (sent_state_last c.transport.sender) }

  abbrev pub handle : TermEvent → ScreenSnapshot → (ℕ → ℕ) → Client R → Option (Bool × Client R)
  handle (input bytes) frame clock c =
      let paste = ltb paste_threshold (length bytes) in
      take_bytes paste frame clock bytes (before_input paste c) >>= (λ c'. some (false, c'))
  handle (escape_help shown) frame clock c = some (
    false,
    record c {
      notifications =
          if shown
          then show_escape_help c.notifications (clock 0)
          else hide_escape_help c.notifications;
    },
  )
  handle (resize w h) frame clock c = some (
    false,
    record c {
      transport = set_current_state c.transport (push_resize (get_current_state c.transport) w h);
      prediction = reset c.prediction;
    },
  )
  handle quit_event frame clock c = some (
      if has_remote_addr c.transport
      then (
        false,
        record c {
          notifications = set_notification c.notifications exiting true (clock 0);
          transport = start_shutdown c.transport (clock 0);
        },
      )
      else (true, c))

  -- During a shutdown nothing is done.
  abbrev pub handle_term_event :
      TermEvent → ScreenSnapshot → (ℕ → ℕ) → Client R → Option (Bool × Client R)
  handle_term_event event frame clock c =
      if shutdown_in_progress c.transport then some (false, c) else handle event frame clock c
