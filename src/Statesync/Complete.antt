-- ===== src/Statesync/Complete.antt =====
-- crates/morsh-statesync/src/complete.rs: the terminal, as a state that the protocol synchronises.
pub mod Echo
pub mod Synced
pub mod Diffs
use morsh.Common.{
  true, false, ℕ, ◌+◌, ◌-◌, ◌*◌, ◌/◌, min, max, List, [], ◌∷◌, ◌++◌, Bool, not, ◌&&◌, ◌||◌, Option,
  none, some, leb, ◌==◌, if◌then◌else◌, get_elem?, unwrap_or,
}
use morsh.Common.Int.{ℤ, pos, negsuc}
use morsh.Common.Options.{◌>>=◌, option_map}
use morsh.Common.Utf8.{utf8_text}
use morsh.Terminal.Snapshot.{ScreenSnapshot}
use morsh.Terminal.Equality.Screens.{screen_eq}
use morsh.Terminal.Emulator
use morsh.Terminal.Emulator.{Vt, MoshTerminal, snapshot}
use morsh.Terminal.Display.Drawing.{full_redraw, diff}
use morsh.Network.State.{State}

-- 50 ms, in nanoseconds
abbrev pub echo_timeout : ℕ
echo_timeout = 50 * 1000000

pub record Complete {ℓ} (V : Type ℓ) : Type ℓ where
  pub terminal : Option (MoshTerminal V)
  pub screen : ScreenSnapshot
  pub echo_ack : ℕ
  pub input_history : List (ℕ × ℕ)

-- proto/hostinput.proto, as prost stores it: the messages and their fields are optional.
pub record HostInstruction : Type 0 where
  pub hostbytes : Option (Option (List ℕ))
  pub resize : Option (Option ℤ × Option ℤ)
  pub echoack : Option (Option ℕ)

-- The crate prost for `HostMessage`: the instructions as bytes and back.
pub record HostWire : Type 0 where
  pub encode : List HostInstruction → List ℕ
  pub decode : List ℕ → Option (List HostInstruction)

abbrev pub echo_instruction : ℕ → HostInstruction
echo_instruction n = record { hostbytes = none; resize = none; echoack = some (some n) }

abbrev pub resize_instruction : ScreenSnapshot → HostInstruction
resize_instruction s = record {
  hostbytes = none;
  resize = some (some (pos s.cols), some (pos s.rows_count));
  echoack = none;
}

abbrev pub bytes_instruction : List ℕ → HostInstruction
bytes_instruction bs = record { hostbytes = some (some bs); resize = none; echoack = none }

-- `clamp(1, u16::MAX as i32) as u16`
abbrev pub clamped : ℤ → ℕ
clamped (pos n) = max 1 (min n 65535)
clamped (negsuc n) = 1

module _ {ℓ} {V : Type ℓ} where
  -- `clone`: the emulator is not copied.
  abbrev pub cloned : Complete V → Complete V
  cloned c = record c { terminal = none }

  abbrev pub set_echo_ack_num : Complete V → ℕ → Complete V
  set_echo_ack_num c ack = record c { echo_ack = ack }

  abbrev pub register_input_frame : Complete V → ℕ → ℕ → Complete V
  register_input_frame c n now = record c { input_history = c.input_history ++ ((n, now) ∷ []) }

-- A result of an operation on a state, where a failure gives the state up.
abbrev pub succeeded {ℓ} : {A : Type ℓ} → Bool × A → Option A
succeeded (true, a) = some a
succeeded (false, a) = none

-- The loop of `set_echo_ack`, over the newest number so far.
abbrev pub newest_aged : ℕ → ℕ → List (ℕ × ℕ) → ℕ
newest_aged now newest [] = newest
newest_aged now newest ((num, when) ∷ h) =
    newest_aged now (if leb echo_timeout (now - when) then num else newest) h

-- `retain(|&(num, _)| num >= newest)`
abbrev pub retained : ℕ → List (ℕ × ℕ) → List (ℕ × ℕ)
retained newest [] = []
retained newest ((num, when) ∷ h) =
    let rest = retained newest h in if leb newest num then (num, when) ∷ rest else rest

-- No instruction where nothing is drawn.
abbrev pub update_part : List ℕ → List HostInstruction
update_part [] = []
update_part (b ∷ bs) = bytes_instruction (utf8_text (b ∷ bs)) ∷ []

module _ {ℓ} {V : Type ℓ} where
  abbrev pub set_echo_ack : Complete V → ℕ → Bool × Complete V
  set_echo_ack c now =
      let newest = newest_aged now 0 c.input_history in
      (
        not (c.echo_ack == newest),
        record c { input_history = retained newest c.input_history; echo_ack = newest },
      )

  abbrev pub wait_time_ms : Complete V → ℕ → Option ℕ
  wait_time_ms c now =
      option_map (λ e. (e.1 + echo_timeout - now) / 1000000) (get_elem? c.input_history 1)

  abbrev pub dimensions : Complete V → ℕ × ℕ
  dimensions c = (c.screen.cols, c.screen.rows_count)

  -- `take` on the source's emulator
  abbrev pub adopt_from : Complete V → Complete V → Complete V × Complete V
  adopt_from c source = elim c.terminal [
    | some t ↦ (c, source)
    | none ↦
        if screen_eq source.screen c.screen
        then (record c { terminal = source.terminal }, record source { terminal = none })
        else (c, source)
  ]

  abbrev pub state_equal : Complete V → Complete V → Bool
  state_equal c other = (c.echo_ack == other.echo_ack) && screen_eq c.screen other.screen

  -- The first two parts of a diff, in their order.
  abbrev pub echo_part : Complete V → Complete V → List HostInstruction
  echo_part c existing =
      if existing.echo_ack == c.echo_ack then [] else echo_instruction c.echo_ack ∷ []

  abbrev pub resize_part : Complete V → Complete V → List HostInstruction
  resize_part c existing =
      if not (existing.screen.cols == c.screen.cols)
        || not (existing.screen.rows_count == c.screen.rows_count)
      then resize_instruction c.screen ∷ []
      else []

  abbrev pub instructions : Complete V → Complete V → List HostInstruction
  instructions c existing =
      echo_part c existing
      ++ (if screen_eq existing.screen c.screen
          then []
          else resize_part c existing ++ update_part (diff existing.screen c.screen))

  unfoldable pub diff_from : HostWire → Complete V → Complete V → List ℕ
  diff_from wire c existing = wire.encode (instructions c existing)

module _ {ℓ} {V : Type ℓ} (vt : Vt V) where
  abbrev pub new : ℕ → ℕ → Option (Complete V)
  new cols rows = Emulator.new vt cols rows 0 >>= (λ t.
      option_map (λ s. record { terminal = some t; screen = s; echo_ack = 0; input_history = [] })
        (snapshot vt t))

  -- An emulator is made from the screen where there is none.
  abbrev pub terminal_mut : Complete V → Option (MoshTerminal V)
  terminal_mut c = elim c.terminal [
    | some t ↦ some t
    | none ↦
        option_map (λ t. Emulator.write vt t (utf8_text (full_redraw c.screen)))
          (Emulator.new vt c.screen.cols c.screen.rows_count 0)
  ]

  -- An emulator that cannot be read leaves the screen as it was.
  abbrev pub refresh : MoshTerminal V → Complete V → Complete V
  refresh t c = record c { terminal = some t; screen = unwrap_or (snapshot vt t) c.screen }

  -- A failure leaves the state as it was.
  unfoldable pub act : Complete V → List ℕ → Option (Complete V)
  act c bytes = option_map (λ t. refresh (Emulator.write vt t bytes) c) (terminal_mut c)

  -- An emulator that could not be resized is kept, and the screen with it.
  abbrev pub resized_to : Bool × MoshTerminal V → Complete V → Bool × Complete V
  resized_to (true, t) c = (true, refresh t c)
  resized_to (false, t) c = (false, record c { terminal = some t })

  -- Whether it succeeded, and the state.
  unfoldable pub resize : Complete V → ℕ → ℕ → Bool × Complete V
  resize c cols rows = elim (terminal_mut c) [
    | none ↦ (false, c)
    | some t ↦ resized_to (Emulator.resize vt t cols rows) c
  ]

  abbrev pub init_diff : HostWire → Complete V → Option (List ℕ)
  init_diff wire c = option_map (diff_from wire c) (new c.screen.cols c.screen.rows_count)

  abbrev pub apply_bytes : Option (List ℕ) → Complete V → Option (Complete V)
  apply_bytes none c = some c
  apply_bytes (some bytes) c = act c bytes

  -- What is not there is 80 columns or 24 rows.
  abbrev pub apply_resize : Option ℤ × Option ℤ → Complete V → Option (Complete V)
  apply_resize (w, h) c =
      succeeded (resize c (clamped (unwrap_or w (pos 80))) (clamped (unwrap_or h (pos 24))))

  abbrev pub apply_echo : Option (Option ℕ) → Complete V → Option (Complete V)
  apply_echo none c = some c
  apply_echo (some none) c = some c
  apply_echo (some (some num)) c = some (record c { echo_ack = max c.echo_ack num })

  abbrev pub apply_instruction : HostInstruction → Complete V → Option (Complete V)
  apply_instruction i c = elim i.hostbytes [
    | some bytes ↦ apply_bytes bytes c
    | none ↦ elim i.resize [ some size ↦ apply_resize size c | none ↦ apply_echo i.echoack c ]
  ]

  abbrev pub apply_instructions : List HostInstruction → Complete V → Option (Complete V)
  apply_instructions [] c = some c
  apply_instructions (i ∷ is) c = apply_instruction i c >>= apply_instructions is

  unfoldable pub apply_string : HostWire → Complete V → List ℕ → Option (Complete V)
  apply_string wire c bytes = wire.decode bytes >>= (λ is. apply_instructions is c)

  -- The trait's implementation; there are no prefixes, and nothing to subtract.
  abbrev pub complete_state : HostWire → State (Complete V)
  complete_state wire = record {
    has_prefix = false;
    diff_from = diff_from wire;
    apply_string = apply_string wire;
    subtract = λ c prefix. c;
    state_equal = state_equal;
    clone = cloned;
    adopt_from = adopt_from;
  }
