-- ===== src/Prediction/Notification/Messages.antt =====
-- crates/morsh-prediction/src/notification.rs: what the escape help replaces, and what shows.
use morsh.Common.{
  ℕ, ◌≡◌, ◌≢◌, refl, List, [], ◌∷◌, none, Bool, true, false, not, ◌&&◌, ◌||◌, ◌⊎◌, ltb, ◌==◌,
  list_eq, list_eq-Decides, nat_eq-Decides, Bool-cases, inl, inr, arith,
}
use morsh.Prediction.Notification.{
  NotificationEngine, no_text, set_notification, show_escape_help, hide_escape_help, has_message,
  get_text, need_countup, server_late, reply_late, seconds_since_heard, is_empty, Explanation,
  text_of, elapsed, keystroke_suffix,
}

-- hide after show
pub hide_escape_help-show_escape_help :
    (e : NotificationEngine) (now : ℕ)
    → hide_escape_help (show_escape_help e now) ≡ record e {
      message = [];
      message_is_network_error = false;
      message_expiration = none;
      show_quit_keystroke = true;
    }
hide_escape_help-show_escape_help e now =
    let same : list_eq ◌==◌ e.escape_key_help e.escape_key_help ≡ true =
      (list_eq-Decides ◌==◌ nat_eq-Decides e.escape_key_help e.escape_key_help).1 refl in
    rw same refl

-- If a message other than the escape help replaces the help while that is shown, hiding the help
-- afterwards leaves the message up, with the quit keystroke and its expiration, as if the help had
-- never been shown.
pub hide_escape_help-set_notification :
    (e : NotificationEngine) (msg : List ℕ) (permanent : Bool) (shown later : ℕ)
    → msg ≢ e.escape_key_help
    → hide_escape_help (set_notification (show_escape_help e shown) msg permanent later)
      ≡ set_notification e msg permanent later
hide_escape_help-set_notification e msg permanent shown later ne =
    elim (Bool-cases (list_eq ◌==◌ msg e.escape_key_help)) [
      | inl same ↦ absurd (ne ((list_eq-Decides ◌==◌ nat_eq-Decides msg e.escape_key_help).0 same))
      | inr other ↦ rw other refl
    ]

some_text :
    (message : List ℕ) (late : Bool) (l : ℕ × Explanation) (suffix : List ℕ)
    → (is_empty message ≡ false) ⊎ (late ≡ true)
    → text_of message late l suffix ≢ no_text
some_text [] false l suffix (inl h) = absurd (ground arith)
some_text [] false l suffix (inr h) = absurd (ground arith)
some_text [] true l suffix h = λ e. cc
some_text (c ∷ cs) false l suffix h = λ e. cc
some_text (c ∷ cs) true l suffix h = λ e. cc

late_or_message : (m l r s : Bool) → (not m || (l && s)) ≡ true → (m ≡ false) ⊎ ((l || r) ≡ true)
late_or_message true true r s h = inr refl
late_or_message true false r s h = absurd (ground arith)
late_or_message false l r s h = inl refl

-- At any time at which the status bar has a message to show, its text is not the empty one.
pub has_message-text :
    (e : NotificationEngine) (now : ℕ) → has_message e now ≡ true → get_text e now ≢ no_text
has_message-text e now h =
    some_text e.message (need_countup e now) (elapsed e now) (keystroke_suffix e) (
      late_or_message (is_empty e.message) (server_late e now) (reply_late e now)
        (ltb 10 (seconds_since_heard e now)) h)
