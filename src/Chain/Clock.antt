-- ===== src/Chain/Clock.antt =====
-- The cap on the chain's clock (bin/dipper-service/src/network/service/chain_listener.rs).
use dipper.Prelude.{ℕ, ◌+◌, ◌-◌, ◌^◌, ◌≤◌, Bool, true, false, min, max, ltb, arith, if◌then◌else◌}

-- `u64::saturating_add`.
abbrev pub saturating_add : ℕ → ℕ → ℕ
saturating_add a b = min (a + b) (2 ^ 64 - 1)

abbrev pub apply_chain_ts_drift_cap :
    (new_ts cached_ts now_secs chain_ts_drift_tolerance_secs : ℕ) → Bool → ℕ
apply_chain_ts_drift_cap new_ts cached_ts now_secs tolerance true = new_ts
apply_chain_ts_drift_cap new_ts cached_ts now_secs tolerance false =
    let max_allowed = saturating_add now_secs tolerance in
    if ltb max_allowed new_ts then max max_allowed cached_ts else new_ts

-- For a chain time not before the cached one, the capped time is not before the cached one either;
-- it passes neither the chain's time, nor, unless the cap is bypassed, the later of the cached time
-- and the wall clock with its tolerance.
pub apply_chain_ts_drift_cap_bounds :
    (new_ts cached_ts now_secs tolerance : ℕ) (bypass : Bool)
    → cached_ts ≤ new_ts
    → let capped = apply_chain_ts_drift_cap new_ts cached_ts now_secs tolerance bypass in
      (cached_ts ≤ capped)
      × (capped ≤ new_ts)
      × (capped ≤ (if bypass then new_ts else max (now_secs + tolerance) cached_ts))
apply_chain_ts_drift_cap_bounds new_ts cached_ts now_secs tolerance true h =
    (h, omega arith, omega arith)
apply_chain_ts_drift_cap_bounds new_ts cached_ts now_secs tolerance false h =
    (ground arith, ground arith, ground arith)
