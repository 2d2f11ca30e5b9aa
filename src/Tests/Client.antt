-- ===== src/Tests/Client.antt =====
-- The client's part in small runs: the escape key, typed text on its way to the server, and a frame.
use morsh.Common.{
  ◌<◌, ◌+◌, ◌≤◌, inr, ℕ, ◌≡◌, refl, List, [], ◌∷◌, none, some, false, arith, unwrap_or,
}
use morsh.Common.Options.{◌>>=◌}
use morsh.Network.Transport
use morsh.Network.Transport.{Transport}
use morsh.Network.Transport.Calls.{set_current_state}
use morsh.Network.Sender
use morsh.Prediction.Notification
use morsh.Prediction.Engine.{PredictionEngine, new_engine, next64, always}
use morsh.Prediction.Engine.Keys.{new_user_byte}
use morsh.Terminal.Snapshot.{ScreenSnapshot, new_snapshot, cell, CellData, empty_cell}
use morsh.Terminal.Display.{row_at, shift_rows}
use morsh.Terminal.Display.Scrolling.{detect_scroll-shift_rows}
use morsh.Client.Utf16.{converted, new_converter}
use morsh.Common.Utf8.{utf8_text}
use morsh.Client.Utf16.Pairs.{converted-text}
use morsh.Client.Escape.{for_key, new_filter, feed, input}
use morsh.Client.Escape.Feeding.{SameFeed, quoted, feed-append, feed-quoted}
use morsh.Client.Frame.{apply_overlay}
use morsh.Client.Frame.Painted.{apply_overlay-uncovered}
use morsh.Client.Input.{Client, handle_term_event}
use morsh.Client.Input.Queue.{Queued, handle_term_event-Queued}
use morsh.Tests.Toys.{toy_end}

-- "a", the escape key, and a dot in the next read
feed-append_example :
    let f = new_filter (some (for_key 30)) in
    SameFeed
      (feed f (97 ∷ 30 ∷ 46 ∷ []))
      (feed (feed f (97 ∷ 30 ∷ [])).0 (46 ∷ []))
      (feed f (97 ∷ 30 ∷ [])).1
feed-append_example = feed-append (new_filter (some (for_key 30))) (97 ∷ 30 ∷ []) (46 ∷ []) refl

feed-quoted_example :
    let r = feed (new_filter (some (for_key 30))) (quoted (for_key 30) false (97 ∷ 30 ∷ 98 ∷ [])) in
    (r.1.send ≡ 97 ∷ 30 ∷ 98 ∷ []) × (r.1.quit ≡ false) × (r.0.armed ≡ false)
feed-quoted_example = feed-quoted 30 (97 ∷ 30 ∷ 98 ∷ []) (λ e. absurd (omega arith))

abbrev frame : ScreenSnapshot
frame = new_snapshot 5 2

abbrev client : Client (List ℕ)
client = record {
  transport = Transport.new (toy_end false) [] [] 0;
  prediction = new_engine 0;
  notifications = Notification.new 0;
}

handle_term_event-Queued_example :
    (c' : Client (List ℕ)) × (handle_term_event (input (104 ∷ 105 ∷ [])) frame (λ k. k) client
      ≡ some (false, c'))
    × Queued frame (104 ∷ 105 ∷ []) client c'
unfolding Transport.new Sender.new
handle_term_event-Queued_example =
    handle_term_event-Queued (104 ∷ 105 ∷ []) frame (λ k. k) client refl (omega arith)
      (record { valid = tt; cursors = tt })

-- Text typed on a wide screen near its right edge, and more when the narrower screen has come from the
-- server before the acknowledgment of the first: the second event panics.
abbrev wide : ScreenSnapshot
wide = record (new_snapshot 6 2) { cursor_x = 3 }

abbrev narrow : ScreenSnapshot
narrow = new_snapshot 3 2

typed_after_narrowing :
    (handle_term_event (input (104 ∷ [])) wide (λ k. 0) client
      >>= (λ r. handle_term_event (input (105 ∷ [])) narrow (λ k. 9) r.1))
    ≡ none
unfolding Transport.new Sender.new set_current_state Sender.set_current_state
typed_after_narrowing = refl

-- An "h" in the corner, shown.
abbrev showing : PredictionEngine
showing =
    let p = record (new_engine 0) { display_preference = always; confirmed_epoch = 2 } in
    unwrap_or (new_user_byte p 104 0 0 5 2 (λ r c. 32) 0) p

h_is_painted : (cell (apply_overlay frame showing) 0 0 >>= (λ d. some d.text)) ≡ some (104 ∷ [])
unfolding next64
h_is_painted = refl

apply_overlay-uncovered_example : cell (apply_overlay frame showing) 3 1 ≡ cell frame 3 1
unfolding next64
apply_overlay-uncovered_example =
    apply_overlay-uncovered showing 3 1 frame (omega arith) (omega arith) refl

-- Lines "a", "b", "c", and the same scrolled up by one.
abbrev line : ℕ → List CellData
line c = record empty_cell { text = c ∷ [] } ∷ []

abbrev old_lines : List (List CellData)
old_lines = line 97 ∷ line 98 ∷ line 99 ∷ []

abbrev scrolled : ScreenSnapshot
scrolled = record (new_snapshot 1 3) { rows = line 98 ∷ line 99 ∷ line 100 ∷ [] }

detect_scroll-shift_rows_example :
    (1 ≤ 1)
    × (1 + 2 ≤ 3)
    × ((y : ℕ)
        → y < 2
        → row_at (shift_rows old_lines (record { lines = 1; height = 2 }) scrolled) y
          ≡ row_at scrolled.rows y)
detect_scroll-shift_rows_example =
    detect_scroll-shift_rows old_lines scrolled (record { lines = 1; height = 2 }) refl

-- U+1F600 cut in its two halves
converted-text_example :
    converted ((0xd83d ∷ []) ∷ (0xde00 ∷ []) ∷ []) new_converter ≡ utf8_text (0x1f600 ∷ [])
converted-text_example =
    converted-text (0x1f600 ∷ []) ((0xd83d ∷ []) ∷ (0xde00 ∷ []) ∷ [])
      (inr (omega arith, omega arith), tt) refl
