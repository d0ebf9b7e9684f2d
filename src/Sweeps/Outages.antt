-- ===== src/Sweeps/Outages.antt =====
-- Histories of cycles of the breaker (bin/dipper-service/src/network/service/liveness_checker.rs): what
-- it leaves out, and how long it holds.
use dipper.Prelude.{ℕ, ◌+◌, ◌≤◌, min, ◌≡◌, refl, Bool, true, false, List, [], ◌∷◌, some, arith}
use dipper.Sweeps.Breaker.{
  UnreachablePolicy, hold, judge, time_held, progress_clock, UnreachableBreaker, default_breaker,
  evaluate,
}
use dipper.Sweeps.Grace.{IsReady, Fits, evaluate-IsReady, time_held_bound}

-- One check of the indexers: how many, how many could not be reached, and when.
pub record Cycle : Type 0 where
  pub indexers : ℕ
  pub unreachable : ℕ
  pub now : ℕ

abbrev pub is_hold : UnreachablePolicy → Bool
is_hold hold = true
is_hold (judge held max_grace) = false

-- The clock does not run backwards from `t` through the cycles.
abbrev pub Rising : ℕ → List Cycle → Type 0
Rising t [] = Unit
Rising t (c ∷ cycles) = (t ≤ c.now) × Rising c.now cycles

abbrev pub end_time : ℕ → List Cycle → ℕ
end_time t [] = t
end_time t (c ∷ cycles) = end_time c.now cycles

module _ (reaches_fraction : ℕ → ℕ → Bool) (min_indexers max_hold : ℕ) where
  abbrev pub cycle_of : Cycle → UnreachableBreaker → UnreachableBreaker × UnreachablePolicy
  cycle_of c = evaluate reaches_fraction min_indexers max_hold c.indexers c.unreachable c.now

  unfoldable pub run_cycles : List Cycle → UnreachableBreaker → UnreachableBreaker
  unfolding evaluate
  run_cycles [] b = b
  run_cycles (c ∷ cycles) b = run_cycles cycles (cycle_of c b).0

  run_cycles-IsReady :
      (t : ℕ) (cycles : List Cycle) (b : UnreachableBreaker)
      → IsReady t b
      → Rising t cycles
      → IsReady (end_time t cycles) (run_cycles cycles b)
  unfolding run_cycles
  run_cycles-IsReady t [] b ready rising = ready
  run_cycles-IsReady t (c ∷ cycles) b ready (le, rising) =
      run_cycles-IsReady c.now cycles (cycle_of c b).0
        (evaluate-IsReady reaches_fraction min_indexers max_hold c.indexers c.unreachable c.now t b
          ready le).0
        rising

clock_bounds :
    (max_hold now time : ℕ) (policy : UnreachablePolicy)
    → Fits max_hold now policy
    → time ≤ now
    → (clock : ℕ) × (progress_clock policy (some time) ≡ some clock)
      × (time ≤ clock)
      × (clock ≤ now)
      × (clock ≤ time + max_hold)
unfolding progress_clock
clock_bounds max_hold now time hold fits le = (time, refl, omega arith, le, omega arith)
clock_bounds max_hold now time (judge held max_grace) (spans, e) le = (
  time + min (time_held time held) max_grace,
  refl,
  omega arith,
  omega (arith, time_held_bound now 0 time held spans le),
  omega (arith, e),
)

-- After any history of cycles on a clock that does not run backwards, the policy of the next
-- cycle moves a time of last progress that is not in the future forward, but not past now and
-- by no more than the longest hold.
pub progress_clock_bounds :
    (reaches_fraction : ℕ → ℕ → Bool) (min_indexers max_hold : ℕ) (cycles : List Cycle) (c : Cycle)
    (time : ℕ)
    → Rising 0 cycles
    → end_time 0 cycles ≤ c.now
    → time ≤ c.now
    → let policy =
        (evaluate reaches_fraction min_indexers max_hold c.indexers c.unreachable c.now
          (run_cycles reaches_fraction min_indexers max_hold cycles default_breaker)).1 in
      (clock : ℕ) × (progress_clock policy (some time) ≡ some clock)
      × (time ≤ clock)
      × (clock ≤ c.now)
      × (clock ≤ time + max_hold)
progress_clock_bounds reaches_fraction min_indexers max_hold cycles c time rising last le =
    let start : IsReady 0 default_breaker = omega arith in
    let b = run_cycles reaches_fraction min_indexers max_hold cycles default_breaker in
    clock_bounds max_hold c.now time _
      (evaluate-IsReady reaches_fraction min_indexers max_hold c.indexers c.unreachable c.now
        (end_time 0 cycles) b
        (run_cycles-IsReady reaches_fraction min_indexers max_hold 0 cycles default_breaker start
          rising)
        last).1
      le
