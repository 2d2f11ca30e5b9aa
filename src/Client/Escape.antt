-- ===== src/Client/Escape.antt =====
-- crates/morsh-client/src/input.rs: the escape key. A byte is a number, a text its characters.
pub mod Feeding
use morsh.Common.{
  ℕ, ◌+◌, List, [], ◌∷◌, ◌++◌, Bool, true, false, not, ◌&&◌, ◌||◌, Option, none, some, ltb, leb,
  ◌==◌, if◌then◌else◌, ◌-◌,
}
use morsh.Common.Int.{ℤ}

abbrev pub default_escape_key : ℕ
default_escape_key = 0x1e

pub record EscapeConfig : Type 0 where
  pub key : ℕ
  pub pass_key : ℕ
  pub pass_key2 : ℕ
  pub requires_lf : Bool

abbrev pub to_ascii_lowercase : ℕ → ℕ
to_ascii_lowercase b = if leb 65 b && leb b 90 then b + 32 else b

abbrev pub for_key : ℕ → EscapeConfig
for_key key =
    let pass_key = if ltb key 32 then key + 64 else key in
    record {
      key = key;
      pass_key = pass_key;
      pass_key2 = to_ascii_lowercase pass_key;
      requires_lf = leb 32 key;
    }

-- Ctrl-C, Ctrl-D, LF, Ctrl-L and CR
abbrev pub is_easy_to_hit : ℕ → Bool
is_easy_to_hit key = (key == 3) || ((key == 4) || ((key == 10) || ((key == 12) || (key == 13))))

abbrev pub with_key : ℕ → Option EscapeConfig
with_key key = some (for_key (if is_easy_to_hit key then default_escape_key else key))

abbrev pub from_setting : Option (List ℕ) → Option EscapeConfig
from_setting none = with_key default_escape_key
from_setting (some []) = none
from_setting (some (key ∷ [])) =
    with_key (if leb 1 key && ltb key 128 then key else default_escape_key)
from_setting (some (a ∷ b ∷ rest)) = with_key default_escape_key

-- "Ctrl-" and the pass key, or the key in quotes
abbrev pub key_name : EscapeConfig → List ℕ
key_name c =
    if ltb c.key 32 then 67 ∷ 116 ∷ 114 ∷ 108 ∷ 45 ∷ c.pass_key ∷ [] else 34 ∷ c.key ∷ 34 ∷ []

-- The name and " ."
abbrev pub quit_keystroke : EscapeConfig → List ℕ
quit_keystroke c = key_name c ++ 32 ∷ 46 ∷ []

-- 'Commands: Ctrl-Z suspends, "." quits, "'
abbrev help_head : List ℕ
help_head =
    67 ∷ 111 ∷ 109 ∷ 109 ∷ 97 ∷ 110 ∷ 100 ∷ 115 ∷ 58 ∷ 32 ∷ 67 ∷ 116 ∷ 114 ∷ 108 ∷ 45 ∷ 90 ∷ 32
    ∷ 115 ∷ 117 ∷ 115 ∷ 112 ∷ 101 ∷ 110 ∷ 100 ∷ 115 ∷ 44 ∷ 32 ∷ 34 ∷ 46 ∷ 34 ∷ 32 ∷ 113 ∷ 117 ∷ 105
    ∷ 116 ∷ 115 ∷ 44 ∷ 32 ∷ 34 ∷ []

-- '" gives literal '
abbrev help_tail : List ℕ
help_tail =
    34 ∷ 32 ∷ 103 ∷ 105 ∷ 118 ∷ 101 ∷ 115 ∷ 32 ∷ 108 ∷ 105 ∷ 116 ∷ 101 ∷ 114 ∷ 97 ∷ 108 ∷ 32 ∷ []

abbrev pub help_text : EscapeConfig → List ℕ
help_text c = help_head ++ c.pass_key ∷ help_tail ++ key_name c

pub record Filtered : Type 0 where
  pub send : List ℕ
  pub help : Option Bool
  pub quit : Bool

pub record EscapeFilter : Type 0 where
  pub config : Option EscapeConfig
  pub armed : Bool
  pub lf_entered : Bool

abbrev pub new_filter : Option EscapeConfig → EscapeFilter
new_filter config = record { config = config; armed = false; lf_entered = false }

-- What the loop of `feed` carries.
pub record Scan : Type 0 where
  pub armed : Bool
  pub lf_entered : Bool
  pub was_armed : Bool
  pub send : List ℕ

-- A byte after the escape key. `none` is the quit.
abbrev pub second_key : EscapeConfig → Scan → ℕ → Option Scan
second_key c s byte =
    let s' = record s { armed = false } in
    if byte == 46
    then none
    else if byte == 0x1a
    then some s'
    else if (byte == c.pass_key) || (byte == c.pass_key2)
    then some (record s' { send = s.send ++ c.key ∷ [] })
    else some (record s' { send = s.send ++ c.key ∷ byte ∷ [] })

-- A byte that does not follow the escape key.
abbrev pub first_key : EscapeConfig → Scan → ℕ → Scan
first_key c s byte =
    if (byte == c.key) && (s.lf_entered || not c.requires_lf)
    then record s { armed = true; was_armed = true; lf_entered = false }
    else record s { lf_entered = (byte == 10) || (byte == 13); send = s.send ++ byte ∷ [] }

abbrev pub key_when : Bool → EscapeConfig → Scan → ℕ → Option Scan
key_when true c s byte = second_key c s byte
key_when false c s byte = some (first_key c s byte)

abbrev pub scan_byte : EscapeConfig → Scan → ℕ → Option Scan
scan_byte c s byte = key_when s.armed c s byte

-- The help that the end of a chunk shows or takes down.
abbrev pub help_of : Scan → Option Bool
help_of s = if s.armed then some true else if s.was_armed then some false else none

-- The rest of the loop after a byte, or the early return at a quit.
abbrev pub after_byte :
    Scan → (Scan → Bool × Bool × Filtered) → Option Scan → Bool × Bool × Filtered
after_byte s rest none = (false, s.lf_entered, record { send = s.send; help = none; quit = true })
after_byte s rest (some s') = rest s'

-- The loop: the filter's marks and the output.
abbrev pub scan : EscapeConfig → Scan → List ℕ → Bool × Bool × Filtered
scan c s [] = (s.armed, s.lf_entered, record { send = s.send; help = help_of s; quit = false })
scan c s (b ∷ bs) = after_byte s (λ s'. scan c s' bs) (scan_byte c s b)

abbrev pub start_scan : EscapeFilter → Scan
start_scan f = record { armed = f.armed; lf_entered = f.lf_entered; was_armed = f.armed; send = [] }

abbrev pub feed_with : Option EscapeConfig → EscapeFilter → List ℕ → EscapeFilter × Filtered
feed_with none f bytes = (f, record { send = bytes; help = none; quit = false })
feed_with (some c) f bytes =
    let (armed, lf_entered, out) = scan c (start_scan f) bytes in
    (record f { armed = armed; lf_entered = lf_entered }, out)

abbrev pub feed : EscapeFilter → List ℕ → EscapeFilter × Filtered
feed f bytes = feed_with f.config f bytes

pub data TermEvent : Type 0 where
  input : List ℕ → TermEvent
  resize : ℤ → ℤ → TermEvent
  escape_help : Bool → TermEvent
  quit_event : TermEvent

-- The channel to the main loop: what was sent, and how many more sends find its receiver there.
pub record Channel : Type 0 where
  pub events : List TermEvent
  pub open_for : ℕ

abbrev pub blocking_send : Channel → TermEvent → Channel × Bool
blocking_send ch e =
    if ch.open_for == 0
    then (ch, false)
    else (record { events = ch.events ++ e ∷ []; open_for = ch.open_for - 1 }, true)

-- A send that is made, and the rest of `publish` if it succeeds.
abbrev pub and_then : Bool → TermEvent → (Channel → Channel × Bool) → Channel → Channel × Bool
and_then false e rest ch = rest ch
and_then true e rest ch =
    let (ch', sent) = blocking_send ch e in if sent then rest ch' else (ch', false)

abbrev pub is_empty : List ℕ → Bool
is_empty [] = true
is_empty (b ∷ bs) = false

abbrev pub send_help : Option Bool → (Channel → Channel × Bool) → Channel → Channel × Bool
send_help none rest = rest
send_help (some shown) rest = and_then true (escape_help shown) rest

-- The events that a chunk makes, in their order.
abbrev pub publish_filtered : Filtered → Channel → Channel × Bool
publish_filtered out =
    and_then (not (is_empty out.send)) (input out.send)
      (send_help out.help (and_then out.quit quit_event (λ ch. (ch, true))))

abbrev pub publish : EscapeFilter → List ℕ → Channel → EscapeFilter × Channel × Bool
publish f bytes ch =
    let (f', out) = feed f bytes in let (ch', going) = publish_filtered out ch in (f', ch', going)
