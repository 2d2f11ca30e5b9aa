-- ===== src/Prediction/Engine.antt =====
-- crates/morsh-prediction/src/prediction.rs: the state of the prediction engine, its settings and
-- `cull`. The number of an epoch or of a frame wraps at 64 bits. An operation takes the time at which
-- it reads the clock.
pub mod Cells
pub mod Keys
pub mod Validate
pub mod Validating
pub mod Settling
pub mod Cursors
pub mod Shape
pub mod Line
pub mod Inserting
pub mod Deleting
pub mod Typing
pub mod Keystrokes
pub mod Calls
pub mod Prepared
pub mod Editing
pub mod Restoring
pub mod Escapes
pub mod Overrun
pub mod Shifts
use morsh.Common.{
  ℕ, zero, suc, ◌+◌, ◌%◌, ◌^◌, List, [], ◌∷◌, ◌++◌, Bool, true, false, not, ◌&&◌, ◌||◌, Option,
  none, some, ltb, leb, ◌==◌, if◌then◌else◌, last?,
}
use morsh.Prediction.Overlay.{
  u64_max, ConditionalCursorMove, new_cursor, cursor_is_tentative, Overlay, new_overlay,
  rows_active, prune,
}

pub data DisplayPreference : Type 0 where
  always : DisplayPreference
  never : DisplayPreference
  adaptive : DisplayPreference

pub data InputState : Type 0 where
  ground_state : InputState
  escape : InputState
  csi : InputState
  ss3 : InputState

pub record PredictionEngine : Type 0 where
  pub overlay : Overlay
  pub cursors : List ConditionalCursorMove
  pub local_frame_sent : ℕ
  pub local_frame_acked : ℕ
  pub local_frame_late_acked : ℕ
  pub prediction_epoch : ℕ
  pub confirmed_epoch : ℕ
  pub flagging : Bool
  pub srtt_trigger : Bool
  pub glitch_trigger : ℕ
  pub last_quick_confirmation : ℕ
  pub send_interval_ms : ℕ
  pub display_preference : DisplayPreference
  pub predict_overwrite : Bool
  pub last_height : ℕ
  pub last_width : ℕ
  pub input_state : InputState

abbrev pub srtt_trigger_low : ℕ
srtt_trigger_low = 20

abbrev pub srtt_trigger_high : ℕ
srtt_trigger_high = 30

abbrev pub flag_trigger_low : ℕ
flag_trigger_low = 50

abbrev pub flag_trigger_high : ℕ
flag_trigger_high = 80

abbrev pub glitch_threshold_ms : ℕ
glitch_threshold_ms = 250

abbrev pub glitch_repair_count : ℕ
glitch_repair_count = 10

abbrev pub glitch_repair_mininterval_ms : ℕ
glitch_repair_mininterval_ms = 150

abbrev pub glitch_flag_threshold_ms : ℕ
glitch_flag_threshold_ms = 5000

-- `+ 1` on a `u64`
unfoldable pub next64 : ℕ → ℕ
next64 n = (n + 1) % 2 ^ 64

abbrev pub new_engine : ℕ → PredictionEngine
new_engine now = record {
  overlay = new_overlay;
  cursors = [];
  local_frame_sent = 0;
  local_frame_acked = 0;
  local_frame_late_acked = 0;
  prediction_epoch = 1;
  confirmed_epoch = 0;
  flagging = false;
  srtt_trigger = false;
  glitch_trigger = 0;
  last_quick_confirmation = now;
  send_interval_ms = 250;
  display_preference = adaptive;
  predict_overwrite = false;
  last_height = 0;
  last_width = 0;
  input_state = ground_state;
}

abbrev pub set_display_preference : PredictionEngine → DisplayPreference → PredictionEngine
set_display_preference e pref = record e { display_preference = pref }

abbrev pub set_predict_overwrite : PredictionEngine → Bool → PredictionEngine
set_predict_overwrite e overwrite = record e { predict_overwrite = overwrite }

abbrev pub set_send_interval : PredictionEngine → ℕ → PredictionEngine
set_send_interval e interval = record e { send_interval_ms = interval }

abbrev pub set_local_frame_sent : PredictionEngine → ℕ → PredictionEngine
set_local_frame_sent e frame = record e { local_frame_sent = frame }

abbrev pub set_local_frame_acked : PredictionEngine → ℕ → PredictionEngine
set_local_frame_acked e frame = record e { local_frame_acked = frame }

abbrev pub set_local_frame_late_acked : PredictionEngine → ℕ → PredictionEngine
set_local_frame_late_acked e frame = record e { local_frame_late_acked = frame }

abbrev pub is_active : PredictionEngine → Bool
is_active e = rows_active e.overlay.rows

abbrev pub timing_tests_necessary : PredictionEngine → Bool
timing_tests_necessary e = not (ltb 0 e.glitch_trigger && e.flagging)

abbrev pub wait_time_ms : PredictionEngine → ℕ
wait_time_ms e = if timing_tests_necessary e && is_active e then 50 else u64_max

abbrev pub displays : DisplayPreference → Bool → ℕ → Bool
displays never srtt glitch = false
displays always srtt glitch = true
displays adaptive srtt glitch = srtt || ltb 0 glitch

abbrev pub should_display : PredictionEngine → Bool
should_display e = displays e.display_preference e.srtt_trigger e.glitch_trigger

abbrev pub become_tentative : PredictionEngine → PredictionEngine
become_tentative e = record e { prediction_epoch = next64 e.prediction_epoch }

abbrev pub unknown_input : PredictionEngine → PredictionEngine
unknown_input e = become_tentative (record e { cursors = [] })

-- A cursor that `init_cursor` makes, active and due with the next frame.
abbrev pub fresh_cursor : PredictionEngine → ℕ → ℕ → ConditionalCursorMove
fresh_cursor e cursor_row cursor_col =
    record (new_cursor cursor_row cursor_col e.prediction_epoch) {
      active = true;
      expiration_frame = next64 e.local_frame_sent;
    }

-- `is_some_and`: the last cursor belongs to the epoch.
abbrev pub in_epoch : Option ConditionalCursorMove → ℕ → Bool
in_epoch none epoch = false
in_epoch (some c) epoch = c.tentative_until_epoch == epoch

-- With no cursor at all, none of the epoch is the last one either.
abbrev pub init_cursor : PredictionEngine → ℕ → ℕ → PredictionEngine
init_cursor e cursor_row cursor_col =
    if in_epoch (last? e.cursors) e.prediction_epoch
    then e
    else record e { cursors = e.cursors ++ fresh_cursor e cursor_row cursor_col ∷ [] }

-- `filter` and `map` to the position
abbrev pub position_if :
    (ConditionalCursorMove → Bool) → Option ConditionalCursorMove → Option (ℕ × ℕ)
position_if p none = none
position_if p (some c) = if p c then some (c.row, c.col) else none

abbrev pub cursor_pos : PredictionEngine → Option (ℕ × ℕ)
cursor_pos e = position_if (λ c. c.active) (last? e.cursors)

abbrev pub display_cursor : PredictionEngine → Option (ℕ × ℕ)
display_cursor e =
    if not (should_display e)
    then none
    else position_if (λ c. c.active && not (cursor_is_tentative c e.confirmed_epoch))
        (last? e.cursors)

abbrev pub reset : PredictionEngine → PredictionEngine
reset e = become_tentative (record e { cursors = []; overlay = new_overlay })

abbrev pub is_never : DisplayPreference → Bool
is_never never = true
is_never always = false
is_never adaptive = false

abbrev pub srtt_after : PredictionEngine → Bool
srtt_after e =
    if ltb srtt_trigger_high e.send_interval_ms
    then true
    else if e.srtt_trigger && leb e.send_interval_ms srtt_trigger_low && not (is_active e)
    then false
    else e.srtt_trigger

abbrev pub flagging_after : PredictionEngine → Bool
flagging_after e =
    let flagging =
      if ltb flag_trigger_high e.send_interval_ms
      then true
      else if leb e.send_interval_ms flag_trigger_low
      then false
      else e.flagging in
    if ltb glitch_repair_count e.glitch_trigger then true else flagging

-- The cursor and the number of columns are not read.
abbrev pub cull : PredictionEngine → ℕ → PredictionEngine
cull e num_rows = if is_never e.display_preference then e else record e {
  srtt_trigger = srtt_after e;
  flagging = flagging_after e;
  overlay = prune e.overlay num_rows;
}
