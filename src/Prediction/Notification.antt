-- ===== src/Prediction/Notification.antt =====
-- crates/morsh-prediction/src/notification.rs: the status bar. A text is its characters, and what
-- `elapsed()` reads of the clock is the argument `now`, in nanoseconds.
pub mod Messages
use morsh.Common.{
  ℕ, ◌+◌, ◌-◌, ◌/◌, ◌*◌, min, List, [], ◌∷◌, Option, none, some, Bool, true, false, not, ◌&&◌, ◌||◌,
  ltb, ◌==◌, if◌then◌else◌, list_eq, unwrap_or,
}
use morsh.Network.Constants.{ms, as_millis}

pub record NotificationEngine : Type 0 where
  pub last_word_from_server : ℕ
  pub last_acked_state : ℕ
  pub message : List ℕ
  pub message_is_network_error : Bool
  pub message_expiration : Option ℕ
  pub show_quit_keystroke : Bool
  pub escape_key_string : List ℕ
  pub escape_key_help : List ℕ

unfoldable pub new : ℕ → NotificationEngine
new now = record {
  last_word_from_server = now;
  last_acked_state = now;
  message = [];
  message_is_network_error = false;
  message_expiration = none;
  show_quit_keystroke = true;
  escape_key_string = [];
  escape_key_help = [];
}

abbrev pub server_heard : NotificationEngine → ℕ → NotificationEngine
server_heard e time = record e { last_word_from_server = time }

abbrev pub server_acked : NotificationEngine → ℕ → NotificationEngine
server_acked e time = record e { last_acked_state = time }

abbrev pub set_escape_key_string : NotificationEngine → List ℕ → NotificationEngine
set_escape_key_string e s = record e { escape_key_string = s }

abbrev pub set_escape_key_help : NotificationEngine → List ℕ → NotificationEngine
set_escape_key_help e s = record e { escape_key_help = s }

-- `set_notification(msg, permanent)`
abbrev pub set_notification : NotificationEngine → List ℕ → Bool → ℕ → NotificationEngine
set_notification e msg permanent now = record e {
  message = msg;
  message_is_network_error = false;
  show_quit_keystroke = true;
  message_expiration = if permanent then none else some (now + ms 1000);
}

abbrev pub set_network_error : NotificationEngine → List ℕ → ℕ → NotificationEngine
set_network_error e msg now = record e {
  message = msg;
  message_is_network_error = true;
  show_quit_keystroke = true;
  message_expiration = some (now + ms 3100);
}

abbrev pub show_escape_help : NotificationEngine → ℕ → NotificationEngine
show_escape_help e now = record (set_notification e e.escape_key_help true now) {
  show_quit_keystroke = false;
}

abbrev pub hide_escape_help : NotificationEngine → NotificationEngine
hide_escape_help e =
    if not e.message_is_network_error && list_eq ◌==◌ e.message e.escape_key_help
    then record e { message = []; show_quit_keystroke = true }
    else e

abbrev pub clear_network_error : NotificationEngine → ℕ → NotificationEngine
clear_network_error e now =
    if e.message_is_network_error
    then record e {
      message_expiration = some (min (unwrap_or e.message_expiration now) (now + ms 1000));
    }
    else e

abbrev pub server_late : NotificationEngine → ℕ → Bool
server_late e now = ltb 6500 (as_millis (now - e.last_word_from_server))

abbrev pub reply_late : NotificationEngine → ℕ → Bool
reply_late e now = ltb 10000 (as_millis (now - e.last_acked_state))

abbrev pub need_countup : NotificationEngine → ℕ → Bool
need_countup e now = server_late e now || reply_late e now

abbrev pub seconds_since_heard : NotificationEngine → ℕ → ℕ
seconds_since_heard e now = (now - e.last_word_from_server) / 1_000_000_000

abbrev pub seconds_since_acked : NotificationEngine → ℕ → ℕ
seconds_since_acked e now = (now - e.last_acked_state) / 1_000_000_000

abbrev pub is_empty : List ℕ → Bool
is_empty [] = true
is_empty (x ∷ xs) = false

abbrev pub has_message : NotificationEngine → ℕ → Bool
has_message e now =
    not (is_empty e.message) || (server_late e now && ltb 10 (seconds_since_heard e now))

-- What a count of seconds is of: "reply" or "contact".
pub data Explanation : Type 0 where
  reply contact : Explanation

-- The text as its format string with the arguments: none; "Last {} {} ago"; the message; and the
-- message with "{}s without {}". The last argument is the suffix that says how to quit.
pub data NotificationText : Type 0 where
  no_text : NotificationText
  last_ago : Explanation → ℕ → List ℕ → NotificationText
  plain : List ℕ → List ℕ → NotificationText
  without : List ℕ → ℕ → Explanation → List ℕ → NotificationText

-- The escape key in the suffix " [To quit: {}]", or no suffix.
abbrev pub keystroke_suffix : NotificationEngine → List ℕ
keystroke_suffix e = if e.show_quit_keystroke then e.escape_key_string else []

abbrev pub elapsed : NotificationEngine → ℕ → ℕ × Explanation
elapsed e now =
    if reply_late e now && not (server_late e now)
    then (seconds_since_acked e now, reply)
    else (seconds_since_heard e now, contact)

abbrev pub text_of : List ℕ → Bool → ℕ × Explanation → List ℕ → NotificationText
text_of [] false late suffix = no_text
text_of [] true late suffix = last_ago late.1 late.0 suffix
text_of (c ∷ cs) false late suffix = plain (c ∷ cs) suffix
text_of (c ∷ cs) true late suffix = without (c ∷ cs) late.0 late.1 suffix

abbrev pub get_text : NotificationEngine → ℕ → NotificationText
get_text e now = text_of e.message (need_countup e now) (elapsed e now) (keystroke_suffix e)
