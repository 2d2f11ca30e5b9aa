-- ===== src/Statesync/UserStream.antt =====
-- crates/morsh-statesync/src/user_stream.rs: the queue of the user's input, as a state with prefixes.
pub mod Diffs
use morsh.Common.{
  ℕ, zero, suc, ◌+◌, ◌≡◌, refl, List, [], ◌∷◌, ◌++◌, Option, none, some, Bool, true, false, ◌&&◌,
  ◌==◌, if◌then◌else◌, drop, length, get_elem?, list_eq, unwrap_or,
}
use morsh.Common.Int.{ℤ, pos, negsuc}
use morsh.Network.State.{State}

pub data UserEvent : Type 0 where
  user_byte : ℕ → UserEvent
  resized : ℤ → ℤ → UserEvent

abbrev pub UserStream : Type 0
UserStream = List UserEvent

abbrev pub new : UserStream
new = []

-- The stream's reads.
abbrev pub events : UserStream → List UserEvent
events s = s

abbrev pub len : UserStream → ℕ
len s = length s

abbrev pub is_empty : UserStream → Bool
is_empty [] = true
is_empty (e ∷ es) = false

abbrev pub get : UserStream → ℕ → Option UserEvent
get s idx = get_elem? s idx

-- proto/userinput.proto, as prost stores it: a keystroke message has optional keys, and a resize
-- message an optional width and height.
pub record ClientInstruction : Type 0 where
  pub keystroke : Option (Option (List ℕ))
  pub resize : Option (Option ℤ × Option ℤ)

-- The crate prost for `UserMessage`: the instructions as bytes and back.
pub record UserWire : Type 0 where
  pub encode : List ClientInstruction → List ℕ
  pub decode : List ℕ → Option (List ClientInstruction)

pub record UserWireLaws (w : UserWire) : Type 0 where
  pub decode-encode : (is : List ClientInstruction) → w.decode (w.encode is) ≡ some is

-- The derived `==` of an i32 and of an event.
abbrev pub int_eq : ℤ → ℤ → Bool
int_eq (pos a) (pos b) = a == b
int_eq (negsuc a) (negsuc b) = a == b
int_eq (pos a) (negsuc b) = false
int_eq (negsuc a) (pos b) = false

abbrev pub event_eq : UserEvent → UserEvent → Bool
event_eq (user_byte a) (user_byte b) = a == b
event_eq (resized w h) (resized w' h') = int_eq w w' && int_eq h h'
event_eq (user_byte a) (resized w h) = false
event_eq (resized w h) (user_byte a) = false

abbrev pub push_key : UserStream → ℕ → UserStream
push_key s byte = s ++ (user_byte byte ∷ [])

abbrev pub push_resize : UserStream → ℤ → ℤ → UserStream
push_resize s width height = s ++ (resized width height ∷ [])

abbrev pub common_prefix_len : UserStream → UserStream → ℕ
common_prefix_len [] ys = 0
common_prefix_len (x ∷ xs) [] = 0
common_prefix_len (x ∷ xs) (y ∷ ys) =
    let rest = common_prefix_len xs ys in if event_eq x y then rest + 1 else 0

abbrev pub keystroke_of : List ℕ → ClientInstruction
keystroke_of keys = record { keystroke = some (some keys); resize = none }

abbrev pub resize_of : ℤ → ℤ → ClientInstruction
resize_of w h = record { keystroke = none; resize = some (some w, some h) }

-- The loop that groups consecutive keystrokes; `keys` are those of the group in progress.
abbrev pub grouped : Option (List ℕ) → List UserEvent → List ClientInstruction
grouped none [] = []
grouped (some keys) [] = keystroke_of keys ∷ []
grouped none (user_byte b ∷ es) = grouped (some (b ∷ [])) es
grouped (some keys) (user_byte b ∷ es) = grouped (some (keys ++ (b ∷ []))) es
grouped none (resized w h ∷ es) = resize_of w h ∷ grouped none es
grouped (some keys) (resized w h ∷ es) = keystroke_of keys ∷ resize_of w h ∷ grouped none es

abbrev pub key_events : List ℕ → List UserEvent
key_events [] = []
key_events (b ∷ bs) = user_byte b ∷ key_events bs

abbrev pub keystroke_events : Option (Option (List ℕ)) → List UserEvent
keystroke_events none = []
keystroke_events (some keys) = key_events (unwrap_or keys [])

-- A missing width or height is 80 or 24.
abbrev pub resize_events : Option (Option ℤ × Option ℤ) → List UserEvent
resize_events none = []
resize_events (some (w, h)) = resized (unwrap_or w (pos 80)) (unwrap_or h (pos 24)) ∷ []

-- The events that the instructions of a message push.
abbrev pub pushed_events : List ClientInstruction → List UserEvent
pushed_events [] = []
pushed_events (i ∷ is) =
    keystroke_events i.keystroke ++ (resize_events i.resize ++ pushed_events is)

module _ (wire : UserWire) where
  unfoldable pub encode_diff_from : UserStream → UserStream → List ℕ
  encode_diff_from s existing = wire.encode (grouped none (drop (common_prefix_len s existing) s))

  unfoldable pub decode_and_apply : UserStream → List ℕ → Option UserStream
  decode_and_apply s diff = elim (wire.decode diff) [
    | none ↦ none
    | some is ↦ some (s ++ pushed_events is)
  ]

-- `drain(..common)`
unfoldable pub subtract : UserStream → UserStream → UserStream
subtract s prefix = drop (common_prefix_len s prefix) s

-- The trait's implementation; adopting is the trait's own empty body.
abbrev pub user_stream_state : UserWire → State UserStream
user_stream_state wire = record {
  has_prefix = true;
  diff_from = encode_diff_from wire;
  apply_string = decode_and_apply wire;
  subtract = subtract;
  state_equal = list_eq event_eq;
  clone = λ s. s;
  adopt_from = λ s source. (s, source);
}
