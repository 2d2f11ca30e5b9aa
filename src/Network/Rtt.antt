-- ===== src/Network/Rtt.antt =====
-- crates/morsh-network/src/rtt.rs: the round-trip time estimator.
pub mod Bounds
use morsh.Common.{
  ℕ, ◌+◌, ◌-◌, ◌*◌, ◌/◌, ◌%◌, ◌^◌, Bool, true, false, ◌||◌, ltb, ◌==◌, if◌then◌else◌,
}
use morsh.Network.Constants.{min_rto_ms, max_rto_ms, send_interval_min_ms, send_interval_max_ms}

pub record RttEstimator : Type 0 where
  pub srtt_ms : ℕ
  pub rttvar_ms : ℕ
  pub have_sample : Bool

pub new : RttEstimator
new = record { srtt_ms = 50; rttvar_ms = 25; have_sample = false }

-- `abs_diff`
abs_diff : ℕ → ℕ → ℕ
abs_diff a b = if ltb a b then b - a else a - b

-- `clamp`; its assertion that the limits are in order holds of the constants.
unfoldable pub clamp : ℕ → ℕ → ℕ → ℕ
clamp x lo hi = if ltb x lo then lo else if ltb hi x then hi else x

-- u64 sums and products, which wrap.
unfoldable pub update : RttEstimator → ℕ → RttEstimator
unfolding abs_diff
update r rtt_ms =
    if rtt_ms == 0 || ltb 5000 rtt_ms
    then r
    else if r.have_sample
    then record r {
      rttvar_ms = (3 * r.rttvar_ms + abs_diff r.srtt_ms rtt_ms) % 2 ^ 64 / 4;
      srtt_ms = (7 * r.srtt_ms + rtt_ms) % 2 ^ 64 / 8;
    }
    else record r { srtt_ms = rtt_ms; rttvar_ms = rtt_ms / 2; have_sample = true }

unfoldable pub rto_ms : RttEstimator → ℕ
unfolding clamp
rto_ms r = clamp ((r.srtt_ms + 4 * r.rttvar_ms) % 2 ^ 64) min_rto_ms max_rto_ms

-- `div_ceil(2)`, clamped
unfoldable pub send_interval_ms : RttEstimator → ℕ
unfolding clamp
send_interval_ms r = clamp ((r.srtt_ms + 1) / 2) send_interval_min_ms send_interval_max_ms

abbrev pub smoothed_ms : RttEstimator → ℕ
smoothed_ms r = r.srtt_ms

abbrev pub variance_ms : RttEstimator → ℕ
variance_ms r = r.rttvar_ms
