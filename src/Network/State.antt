-- ===== src/Network/State.antt =====
-- crates/morsh-network/src/state.rs: what the state synchronisation protocol asks of a state.
use morsh.Common.{ℕ, List, Option, Bool}

-- The trait `State`. `clone` is written out where its copy may adopt something or be changed; other
-- copies are only read, and are the state itself. `apply_string` fails on a malformed diff; `adopt_from` may change both the
-- state and its source.
pub record State {ℓ} (S : Type ℓ) : Type ℓ where
  pub has_prefix : Bool
  pub diff_from : S → S → List ℕ
  pub apply_string : S → List ℕ → Option S
  pub subtract : S → S → S
  pub state_equal : S → S → Bool
  pub clone : S → S
  pub adopt_from : S → S → S × S

pub record TimestampedState {ℓ} (S : Type ℓ) : Type ℓ where
  pub timestamp : ℕ
  pub num : ℕ
  pub state : S
