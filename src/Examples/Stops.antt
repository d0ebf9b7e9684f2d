-- ===== src/Examples/Stops.antt =====
-- The theorems on the supervisor, on concrete timelines.
use dipper.Prelude.{ℕ, ◌≡◌, false, List, [], ◌∷◌, some}
use mathlib.Core.Logic.{◌↔◌}
use dipper.Supervisor.Drain.{Wake, completed, failed, finished, requested, clean, supervise}
use dipper.Supervisor.Teardown.{outcome, supervise-outcome}
use dipper.Supervisor.Clean.{OrderlyStop, supervise_clean}

-- A task dies, another ends in time, and the third is too late.
abbrev timeline_1 : List (ℕ × Wake)
timeline_1 = (5, finished 1 failed) ∷ (9, finished 2 completed) ∷ (40, finished 3 completed) ∷ []

abbrev timeline_2 : List (ℕ × Wake)
timeline_2 = (5, requested) ∷ (9, finished 2 completed) ∷ (30, finished 1 completed) ∷ []

supervise-outcome_example : supervise 30 0 timeline_1 3 false ≡ outcome 30 timeline_1 3
supervise-outcome_example = supervise-outcome 30 0 timeline_1 3

supervise_clean_example :
    (supervise 30 0 timeline_2 2 false ≡ some clean) ↔ OrderlyStop 30 2 timeline_2
supervise_clean_example = supervise_clean 30 0 timeline_2 1
