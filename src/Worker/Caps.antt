-- ===== src/Worker/Caps.antt =====
-- What the caps on offers in flight promise
-- (bin/dipper-service/src/worker/handlers/reassess_indexing_request.rs).
use Prim.Native.Nat.{◌-◌}
use dipper.Prelude.{ℕ, ◌+◌, ◌≤◌, ◌≡◌, List, Option, none, some, arith, length}
use dipper.Worker.Pacing.{
  sort, admit, plan_capped_additions, count, length-sort, length-admit, admit_global, admit_per,
}

-- `n` more fit beside `used` under a cap, if there is one.
abbrev pub Within : Option ℕ → ℕ → ℕ → Type 0
Within none used n = Unit {0}
Within (some cap) used n = n ≤ cap - used

module _ (candidates : List ℕ) (in_flight : ℕ → ℕ) (global : ℕ)
    (per_cap global_cap : Option ℕ) where
  Within-global :
      Within global_cap global
        (length (admit in_flight global per_cap global_cap (sort candidates) (λ _. 0) 0))
  Within-global =
      elim global_cap
        as (λ c.
          Within c global
            (length (admit in_flight global per_cap c (sort candidates) (λ _. 0) 0))) [
              | none ↦ tt
              | some cap ↦
                  omega
                    (arith, admit_global in_flight global cap per_cap (sort candidates) (λ _. 0) 0)
            ]

  Within-per :
      (k : ℕ)
      → Within per_cap
          (in_flight k)
          (count k (admit in_flight global per_cap global_cap (sort candidates) (λ _. 0) 0))
  Within-per k =
      elim per_cap
        as (λ c.
          Within c (in_flight k)
            (count k (admit in_flight global c global_cap (sort candidates) (λ _. 0) 0))) [
              | none ↦ tt
              | some cap ↦
                  omega (
                    arith,
                    admit_per in_flight global cap global_cap k (sort candidates) (λ _. 0) 0,
                  )
            ]

-- The admitted additions fit beside what is in flight under the global cap, those of each indexer
-- under its own, and every candidate is either admitted or counted as withheld.
pub plan_capped_additions-caps :
    (candidates : List ℕ) (in_flight : ℕ → ℕ) (global : ℕ) (per_cap global_cap : Option ℕ) (k : ℕ)
    → let plan = plan_capped_additions candidates in_flight global per_cap global_cap in
      Within global_cap global (length plan.0)
      × Within per_cap (in_flight k) (count k plan.0)
      × (plan.1 + length plan.0 ≡ length candidates)
unfolding plan_capped_additions
plan_capped_additions-caps candidates in_flight global per_cap global_cap k = (
  Within-global candidates in_flight global per_cap global_cap,
  Within-per candidates in_flight global per_cap global_cap k,
  omega (
    arith,
    length-sort candidates,
    length-admit in_flight global per_cap global_cap (sort candidates) (λ _. 0) 0,
  ),
)
