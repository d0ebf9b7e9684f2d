-- ===== src/Sweeps/Timing.antt =====
-- When the passes of bin/dipper-service/src/network/service/reassignment.rs run.
use dipper.Prelude.{
  ℕ, zero, suc, ◌+◌, ◌*◌, ◌%◌, ◌≤◌, ◌<◌, max, ◌≡◌, refl, ◌⊎◌, inl, inr, arith, Bool-cases, leb,
  leb→le,
}
use dipper.Sweeps.Reassignment.{duration_until_utc_hour, advance, next_after}

-- The wait for a daily hour ends at that hour of a day, and is shorter than a day.
pub duration_until_utc_hour_lem :
    (now target_hour : ℕ)
    → target_hour < 24
    → ((now + duration_until_utc_hour now target_hour) % 86400 ≡ target_hour * 3600)
      × (duration_until_utc_hour now target_hour < 86400)
unfolding duration_until_utc_hour
duration_until_utc_hour_lem now target_hour h = (ground (arith, h), ground (arith, h))

advance_lem :
    (fuel next every now : ℕ)
    → 0 < every
    → now < next + fuel
    → (now < advance fuel next every now)
      × ((advance fuel next every now ≡ next) ⊎ (advance fuel next every now ≤ now + every))
      × (k : ℕ) × (advance fuel next every now ≡ next + k * every)
unfolding advance
advance_lem zero next every now pos h = (omega (arith, h), inl refl, 0, omega arith)
advance_lem (suc fuel) next every now pos h = elim (Bool-cases (leb next now)) [
  | inr n ↦ rw n (ground (arith, n), inl refl, 0, omega arith)
  | inl y ↦
      let (later, close, k, e) =
        advance_lem fuel (next + every) every now pos (omega (arith, h, pos)) in
      rw y (later, inr (near (leb→le next now y) close), suc k, omega (arith, e))
]
  where
    near :
        next ≤ now
        → (advance fuel (next + every) every now ≡ next + every)
          ⊎ (advance fuel (next + every) every now ≤ now + every)
        → advance fuel (next + every) every now ≤ now + every
    near l (inl q) = omega (arith, l, q)
    near l (inr q) = q

-- The next run after one that was due comes after now, at a whole number of intervals from the last
-- and at least one, and no later than an interval from now unless it is the first such time.
pub next_after_lem :
    (minimum last every now : ℕ)
    → 0 < minimum
    → let next = next_after minimum last every now in
      (now < next)
      × ((next ≡ last + max every minimum) ⊎ (next ≤ now + max every minimum))
      × (k : ℕ) × (next ≡ last + max every minimum + k * max every minimum)
unfolding next_after
next_after_lem minimum last every now h =
    advance_lem now (last + max every minimum) (max every minimum) now (omega (arith, h))
      (omega (arith, h))
