-- ===== src/Examples/Offers.antt =====
-- The theorems on waits and on the caps on offers, on small numbers.
use Prim.Native.Nat.{◌*◌}
use dipper.Prelude.{ℕ, suc, ◌+◌, ◌≤◌, ◌<◌, ◌≡◌, ◌⊎◌, List, [], ◌∷◌, some, length, arith}
use dipper.Worker.Backoff.{
  second, max_retries_per_window, retries_within_window, total_wait, retries_within_window_lem,
}
use dipper.Worker.Pacing.{count, plan_capped_additions}
use dipper.Worker.Caps.{Within, plan_capped_additions-caps}

retries_within_window_lem_example :
    (retries_within_window (300 * second) (5 * second) ≤ max_retries_per_window)
    × (total_wait (5 * second) (retries_within_window (300 * second) (5 * second)) ≤ 300 * second)
    × ((retries_within_window (300 * second) (5 * second) ≡ max_retries_per_window)
        ⊎ (300 * second
            < total_wait (5 * second) (suc (retries_within_window (300 * second) (5 * second)))))
retries_within_window_lem_example =
    retries_within_window_lem (300 * second) (5 * second) (omega arith)

abbrev candidates_1 : List ℕ
candidates_1 = 13 ∷ 11 ∷ 12 ∷ 11 ∷ []

abbrev in_flight_1 : ℕ → ℕ
in_flight_1 id = 1

plan_capped_additions-caps_example :
    let plan = plan_capped_additions candidates_1 in_flight_1 2 (some 2) (some 4) in
    Within (some 4) 2 (length plan.0)
    × Within (some 2) (in_flight_1 11) (count 11 plan.0)
    × (plan.1 + length plan.0 ≡ length candidates_1)
plan_capped_additions-caps_example =
    plan_capped_additions-caps candidates_1 in_flight_1 2 (some 2) (some 4) 11
