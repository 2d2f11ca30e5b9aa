-- ===== src/Network/Rtt/Bounds.antt =====
-- The range of the estimates, for every run of samples.
use morsh.Common.{ℕ, ◌≤◌, ◌≡◌, List, [], ◌∷◌, arith, min, max, true}
use morsh.Network.Rtt.{RttEstimator, new, update, rto_ms, send_interval_ms}

-- The samples of a connection, in order.
abbrev pub updates : RttEstimator → List ℕ → RttEstimator
updates r [] = r
updates r (s ∷ ss) = updates (update r s) ss

pub record InRange (r : RttEstimator) : Type 0 where
  pub srtt_pos : 1 ≤ r.srtt_ms
  pub srtt_le : r.srtt_ms ≤ 5000
  pub rttvar_le : r.rttvar_ms ≤ 5000

pub new-InRange : InRange new
unfolding new
new-InRange = omega arith

pub update-InRange : (r : RttEstimator) (s : ℕ) → InRange r → InRange (update r s)
unfolding update
update-InRange r s v = ground arith

updates-InRange : (r : RttEstimator) (ss : List ℕ) → InRange r → InRange (updates r ss)
updates-InRange r [] v = v
updates-InRange r (s ∷ ss) v = updates-InRange (update r s) ss (update-InRange r s v)

-- After any round-trip samples the smoothed time is between 1 and 5000 ms and the variance at most
-- 5000 ms, the retransmission timeout is between 50 and 1000 ms, and the send interval between 20
-- and 250 ms.
pub timers-InRange :
    (ss : List ℕ)
    → let r = updates new ss in
      InRange r
      × (50 ≤ rto_ms r)
      × (rto_ms r ≤ 1000)
      × (20 ≤ send_interval_ms r)
      × (send_interval_ms r ≤ 250)
unfolding rto_ms send_interval_ms
timers-InRange ss =
    (updates-InRange new ss new-InRange, ground arith, ground arith, ground arith, ground arith)

-- For an estimate in range that has a sample already, a sample of 1 to 5000 ms moves the smoothed
-- time to a value between the old one and the sample.
pub update_between :
    (r : RttEstimator) (s : ℕ)
    → InRange r
    → r.have_sample ≡ true
    → 1 ≤ s
    → s ≤ 5000
    → (min r.srtt_ms s ≤ (update r s).srtt_ms) × ((update r s).srtt_ms ≤ max r.srtt_ms s)
unfolding update
update_between r s v h lo hi = ground arith
