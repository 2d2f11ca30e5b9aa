-- ===== src/Statesync/Complete/Synced.antt =====
-- crates/morsh-statesync/src/complete.rs: the screen of a state is that of its emulator, through all
-- that happens to the states of a history.
use morsh.Common.{
  unwrap_or, true, false, ℕ, ◌≡◌, refl, sym, ap, subst, ◌∙◌, List, [], ◌∷◌, Bool, Option, none,
  some, Option-cases, Bool-cases, inl, inr, if◌then◌else◌,
}
use mathlib.Core.Option.{some-injective, none-ne-some}
use morsh.Common.Int.{ℤ}
use morsh.Common.Options.{bind-some, option_map-some}
use morsh.Terminal.Snapshot.{ScreenSnapshot}
use morsh.Terminal.Equality.Screens.{screen_eq, same_screen}
use morsh.Terminal.Emulator
use morsh.Terminal.Emulator.{Vt, MoshTerminal, snapshot}
use morsh.Terminal.Emulator.Shaped.{IsShaped, snapshot-IsShaped}
use morsh.Statesync.Complete.{
  Complete, HostInstruction, HostWire, cloned, set_echo_ack_num, register_input_frame, set_echo_ack,
  adopt_from, new, terminal_mut, refresh, act, succeeded, resized_to, resize, apply_echo,
  apply_bytes, apply_instruction, apply_instructions, apply_string,
}

module _ {ℓ} {V : Type ℓ} (vt : Vt V) where
  -- The screen was read from an emulator, and is what a reading of the state's own emulator gives,
  -- where that does not fail. A reading that failed leaves the screen that was read before.
  pub record IsSynced (c : Complete V) : Type ℓ where
    pub reader : MoshTerminal V
    pub was_read : snapshot vt reader ≡ some c.screen
    pub shown :
        (t : MoshTerminal V) (s : ScreenSnapshot)
        → c.terminal ≡ some t
        → snapshot vt t ≡ some s
        → s ≡ c.screen

  -- So it has the form that the diff relies on.
  IsSynced-IsShaped : (c : Complete V) → IsSynced c → IsShaped c.screen
  IsSynced-IsShaped c i = (snapshot-IsShaped vt i.reader c.screen i.was_read).0

  abbrev SyncedOption : Option (Complete V) → Type ℓ
  SyncedOption o = (d : Complete V) → o ≡ some d → IsSynced d

  resized_to-succeeded :
      (p : Bool × MoshTerminal V) (c d : Complete V)
      → succeeded (resized_to vt p c) ≡ some d
      → refresh vt p.1 c ≡ d
  resized_to-succeeded (true, t) c d e = some-injective _ d e
  resized_to-succeeded (false, t) c d e = cc

  -- Where a resize succeeds, the resized emulator was read.
  resize-succeeded :
      (c : Complete V) (cols rows : ℕ) (d : Complete V)
      → succeeded (resize vt c cols rows) ≡ some d
      → (t : MoshTerminal V) × (terminal_mut vt c ≡ some t)
        × (refresh vt (Emulator.resize vt t cols rows).1 c ≡ d)
  unfolding resize
  resize-succeeded c cols rows d e = made (terminal_mut vt c) refl e
    where
      outcome : Option (MoshTerminal V) → Bool × Complete V
      outcome none = (false, c)
      outcome (some t) = resized_to vt (Emulator.resize vt t cols rows) c

      made :
          (o : Option (MoshTerminal V))
          → terminal_mut vt c ≡ o
          → succeeded (outcome o) ≡ some d
          → (t : MoshTerminal V) × (terminal_mut vt c ≡ some t)
            × (refresh vt (Emulator.resize vt t cols rows).1 c ≡ d)
      made none had e = cc
      made (some t) had e = (t, had, resized_to-succeeded (Emulator.resize vt t cols rows) c d e)

  -- A state with an emulator and the screen that was read from it.
  read-IsSynced :
      (t : MoshTerminal V) (s : ScreenSnapshot) (c : Complete V)
      → snapshot vt t ≡ some s
      → c.terminal ≡ some t
      → c.screen ≡ s
      → IsSynced c
  read-IsSynced t s c read live same = record {
    reader = t;
    was_read = read ∙ ap some (sym same);
    shown = λ u r had got. some-injective r c.screen (
        sym got
        ∙ ap (snapshot vt) (some-injective u t (sym had ∙ live))
        ∙ read
        ∙ ap some (sym same));
  }

  refresh-IsSynced : (t : MoshTerminal V) (c : Complete V) → IsSynced c → IsSynced (refresh vt t c)
  refresh-IsSynced t c i = elim (Option-cases (snapshot vt t)) [
    | inr (s, e) ↦ read-IsSynced t s (refresh vt t c) e refl (ap (λ o. unwrap_or o c.screen) e)
    | inl e ↦ record {
      reader = i.reader;
      was_read = i.was_read ∙ ap (λ o. some (unwrap_or o c.screen)) (sym e);
      shown = λ u r had got.
          absurd (none-ne-some r (sym e ∙ ap (snapshot vt) (some-injective t u had) ∙ got));
    }
  ]

  new-IsSynced : (cols rows : ℕ) → SyncedOption (new vt cols rows)
  new-IsSynced cols rows d e =
      let (t, _, e₁) = bind-some (Emulator.new vt cols rows 0) _ d e in
      let (s, read, same) = option_map-some _ (snapshot vt t) d e₁ in
      subst IsSynced same (
        read-IsSynced t s
          (record { terminal = some t; screen = s; echo_ack = 0; input_history = [] }) read refl
          refl)

  act-IsSynced : (c : Complete V) (bytes : List ℕ) → IsSynced c → SyncedOption (act vt c bytes)
  unfolding act
  act-IsSynced c bytes i d e =
      let (t, _, same) =
        option_map-some (λ t. refresh vt (Emulator.write vt t bytes) c) (terminal_mut vt c) d e in
      subst IsSynced same (refresh-IsSynced (Emulator.write vt t bytes) c i)

  resize-IsSynced :
      (c : Complete V) (cols rows : ℕ)
      → IsSynced c
      → SyncedOption (succeeded (resize vt c cols rows))
  resize-IsSynced c cols rows i d e =
      let (t, _, same) = resize-succeeded c cols rows d e in
      subst IsSynced same (refresh-IsSynced (Emulator.resize vt t cols rows).1 c i)

  apply_echo-IsSynced :
      (e : Option (Option ℕ)) (c : Complete V) → IsSynced c → SyncedOption (apply_echo vt e c)
  apply_echo-IsSynced none c i d eq = subst IsSynced (some-injective c d eq) i
  apply_echo-IsSynced (some none) c i d eq = subst IsSynced (some-injective c d eq) i
  apply_echo-IsSynced (some (some num)) c i d eq =
      subst IsSynced (some-injective _ d eq)
        (record { reader = i.reader; was_read = i.was_read; shown = i.shown })

  apply_bytes-IsSynced :
      (bytes : Option (List ℕ)) (c : Complete V)
      → IsSynced c
      → SyncedOption (apply_bytes vt bytes c)
  apply_bytes-IsSynced none c i d e = subst IsSynced (some-injective c d e) i
  apply_bytes-IsSynced (some bs) c i d e = act-IsSynced c bs i d e

  apply_instruction-IsSynced :
      (i : HostInstruction) (c : Complete V) → IsSynced c → SyncedOption (apply_instruction vt i c)
  apply_instruction-IsSynced i c s = elim i.hostbytes as (λ h. SyncedOption (step h i.resize)) [
    | some bytes ↦ apply_bytes-IsSynced bytes c s
    | none ↦ elim i.resize as (λ r. SyncedOption (step none r)) [
      | some size ↦ resize-IsSynced c _ _ s
      | none ↦ apply_echo-IsSynced i.echoack c s
    ]
  ]
    where
      step : Option (Option (List ℕ)) → Option (Option ℤ × Option ℤ) → Option (Complete V)
      step h r = apply_instruction vt (record i { hostbytes = h; resize = r }) c

  apply_instructions-IsSynced :
      (is : List HostInstruction) (c : Complete V)
      → IsSynced c
      → SyncedOption (apply_instructions vt is c)
  apply_instructions-IsSynced [] c s d e = subst IsSynced (some-injective c d e) s
  apply_instructions-IsSynced (i ∷ is) c s d e =
      let (c', e₁, e₂) = bind-some (apply_instruction vt i c) (apply_instructions vt is) d e in
      apply_instructions-IsSynced is c' (apply_instruction-IsSynced i c s c' e₁) d e₂

  apply_string-IsSynced :
      (wire : HostWire) (c : Complete V) (bytes : List ℕ)
      → IsSynced c
      → SyncedOption (apply_string vt wire c bytes)
  unfolding apply_string
  apply_string-IsSynced wire c bytes s d e =
      let (is, _, e₁) = bind-some (wire.decode bytes) (λ is. apply_instructions vt is c) d e in
      apply_instructions-IsSynced is c s d e₁

  abbrev Both : Complete V × Complete V → Type ℓ
  Both p = IsSynced p.0 × IsSynced p.1

  -- The emulator that is moved shows the screen of the state that takes it.
  moved-Both :
      (c s : Complete V)
      → IsSynced c
      → IsSynced s
      → s.screen ≡ c.screen
      → Both (record c { terminal = s.terminal }, record s { terminal = none })
  moved-Both c s i j same = (
    record { reader = i.reader; was_read = i.was_read; shown = λ t r e f. j.shown t r e f ∙ same },
    record { reader = j.reader; was_read = j.was_read; shown = λ t r e f. cc },
  )

  adopt_from-IsSynced : (c s : Complete V) → IsSynced c → IsSynced s → Both (adopt_from c s)
  adopt_from-IsSynced c s i j = elim (Option-cases c.terminal) [
    | inr (t, e) ↦ subst Both (sym (ap picked e)) (i, j)
    | inl e ↦ elim (Bool-cases (screen_eq s.screen c.screen)) [
      | inl same ↦
          subst Both (sym (adopts e true same))
            (moved-Both c s i j (same_screen s.screen c.screen same))
      | inr differs ↦ subst Both (sym (adopts e false differs)) (i, j)
    ]
  ]
    where
      picked : Option (MoshTerminal V) → Complete V × Complete V
      picked none =
          if screen_eq s.screen c.screen
          then (record c { terminal = s.terminal }, record s { terminal = none })
          else (c, s)
      picked (some t) = (c, s)

      adopts :
          c.terminal ≡ none
          → (b : Bool) → screen_eq s.screen c.screen ≡ b
          → adopt_from c s ≡ (
              if b
              then (record c { terminal = s.terminal }, record s { terminal = none })
              else (c, s))
      adopts e b same = ap picked e ∙ rw same refl

  -- The states that the operations make, where they succeed, one after another, from new ones.
  pub data Reached (wire : HostWire) : Complete V → Type ℓ where
    started : (cols rows : ℕ) (c : Complete V) → new vt cols rows ≡ some c → Reached wire c
    copied : (c : Complete V) → Reached wire c → Reached wire (cloned c)
    wrote :
        (c d : Complete V) (bytes : List ℕ)
        → Reached wire c
        → act vt c bytes ≡ some d
        → Reached wire d
    was_resized :
        (c d : Complete V) (cols rows : ℕ)
        → Reached wire c
        → succeeded (resize vt c cols rows) ≡ some d
        → Reached wire d
    patched :
        (c d : Complete V) (bytes : List ℕ)
        → Reached wire c
        → apply_string vt wire c bytes ≡ some d
        → Reached wire d
    frame_arrived :
        (c : Complete V) (n now : ℕ) → Reached wire c → Reached wire (register_input_frame c n now)
    checked : (c : Complete V) (now : ℕ) → Reached wire c → Reached wire (set_echo_ack c now).1
    numbered : (c : Complete V) (ack : ℕ) → Reached wire c → Reached wire (set_echo_ack_num c ack)
    adopter : (c s : Complete V) → Reached wire c → Reached wire s → Reached wire (adopt_from c s).0
    adoptee : (c s : Complete V) → Reached wire c → Reached wire s → Reached wire (adopt_from c s).1

  reached_keeps : (wire : HostWire) (c : Complete V) → Reached wire c → IsSynced c
  reached_keeps wire c (started cols rows d e) = new-IsSynced cols rows c e
  reached_keeps wire c (copied d r) =
      let s : _ = reached_keeps wire d r in
      record { reader = s.reader; was_read = s.was_read; shown = λ t r e f. cc }
  reached_keeps wire c (wrote b d bytes r e) = act-IsSynced b bytes (reached_keeps wire b r) c e
  reached_keeps wire c (was_resized b d cols rows r e) =
      resize-IsSynced b cols rows (reached_keeps wire b r) c e
  reached_keeps wire c (patched b d bytes r e) =
      apply_string-IsSynced wire b bytes (reached_keeps wire b r) c e
  reached_keeps wire c (frame_arrived d n now r) =
      let s : _ = reached_keeps wire d r in
      record { reader = s.reader; was_read = s.was_read; shown = s.shown }
  reached_keeps wire c (checked d now r) =
      let s : _ = reached_keeps wire d r in
      record { reader = s.reader; was_read = s.was_read; shown = s.shown }
  reached_keeps wire c (numbered d ack r) =
      let s : _ = reached_keeps wire d r in
      record { reader = s.reader; was_read = s.was_read; shown = s.shown }
  reached_keeps wire c (adopter d s r q) =
      (adopt_from-IsSynced d s (reached_keeps wire d r) (reached_keeps wire s q)).0
  reached_keeps wire c (adoptee d s r q) =
      (adopt_from-IsSynced d s (reached_keeps wire d r) (reached_keeps wire s q)).1

  -- In every state that the operations make where they succeed, from new ones on and also by
  -- cloning, adopting and applying any bytes of a peer: the screen was read from an emulator, and
  -- is what reading the state's own emulator gives, if it has one and the reading does not fail;
  -- and the screen has exactly the rows that it says, each at least as long as it says, its cursor
  -- on it, and 256 colours.
  pub reached-IsSynced :
      (wire : HostWire) (c : Complete V) → Reached wire c → IsSynced c × IsShaped c.screen
  reached-IsSynced wire c r = (reached_keeps wire c r, IsSynced-IsShaped c (reached_keeps wire c r))
