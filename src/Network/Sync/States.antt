-- ===== src/Network/Sync/States.antt =====
-- crates/morsh-network/src/transport.rs: what the two ends make of the states, whatever the network
-- loses, repeats, delays or reorders.
use morsh.Common.{ℕ, ◌+◌, ◌^◌, ◌<◌, ◌≡◌, false, List, length, arith}
use morsh.Network.State.{State}
use morsh.Network.Connection.{Connection}
use morsh.Network.Sync.{Event, start, run}
use morsh.Network.Sync.Sending.{Renamed}
use morsh.Network.Sync.Agreement.{Agrees, AllFaithful, start-Agrees, run-Agrees}

module _ {ℓ κ} {M : Type ℓ} {S : Type κ} (ops : State S) (no_prefix : ops.has_prefix ≡ false) where
  started :
      (connection : Connection) (m : M) (initial : S) (now : ℕ) (es : List (Event S))
      → length es < 2 ^ 64
      → Agrees ops initial (0 + length es) (run ops (start connection m initial now) es)
  started connection m initial now es room =
      run-Agrees ops no_prefix initial 0 (start connection m initial now) es (omega arith)
        (start-Agrees ops no_prefix initial connection m now)

  -- For any state without prefixes, whatever its operations do: after any sequence of fewer than
  -- 2^64 events outside a shutdown (time passing, the application changing the state, sender ticks,
  -- acknowledgments with any number, and deliveries of any instruction in flight, in any order and
  -- any number of times), every instruction in flight, an empty acknowledgment too, carries exactly
  -- the diff from a state that was sent under its old number to one that was sent under its new
  -- number, and a number was used again only for a state that compares equal to one that had been
  -- sent under it.
  pub flight-AllFaithful :
      (connection : Connection) (m : M) (initial : S) (now : ℕ) (es : List (Event S))
      → length es < 2 ^ 64
      → AllFaithful ops
          (run ops (start connection m initial now) es).log
          (run ops (start connection m initial now) es).flight
        × Renamed ops (run ops (start connection m initial now) es).log
  flight-AllFaithful connection m initial now es room =
      let agrees : _ = started connection m initial now es room in (agrees.faithful, agrees.renamed)
