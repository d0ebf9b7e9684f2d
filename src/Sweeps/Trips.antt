-- ===== src/Sweeps/Trips.antt =====
-- How long the breaker of bin/dipper-service/src/network/service/liveness_checker.rs holds in an
-- outage, and what ends one.
use dipper.Prelude.{
  ℕ, ◌≡◌, Bool, true, false, List, [], ◌∷◌, Option, none, some, ltb, suc, ◌<◌, ◌⊎◌, if◌then◌else◌,
}
use dipper.Sweeps.Breaker.{unreachable_trips}
use dipper.Sweeps.Outages.{Cycle}

module _ (reaches_fraction : ℕ → ℕ → Bool) (min_indexers max_hold : ℕ) where
  abbrev pub Trips : Cycle → Type 0
  Trips c = unreachable_trips reaches_fraction min_indexers max_hold c.indexers c.unreachable ≡ true

  abbrev pub Untripped : Cycle → Type 0
  Untripped c =
      unreachable_trips reaches_fraction min_indexers max_hold c.indexers c.unreachable ≡ false

  -- An outage that goes on, after so many calm cycles in a row: never three of them in a row.
  abbrev pub GoesOn : ℕ → List Cycle → Type 0
  GoesOn calm [] = Unit
  GoesOn calm (c ∷ cycles) =
      (Trips c × GoesOn 0 cycles) ⊎ (Untripped c × (suc calm < 3) × GoesOn (suc calm) cycles)

  abbrev pub since_of : ℕ → Option ℕ → ℕ
  since_of now none = now
  since_of now (some since) = since

  -- What three calm cycles in a row leave of a trip.
  abbrev calm_since : ℕ → Option ℕ → Option ℕ
  calm_since q none = none
  calm_since q (some since) = if ltb (suc q) 3 then some since else none

  abbrev calm_count : ℕ → Option ℕ → ℕ
  calm_count q none = q
  calm_count q (some since) = if ltb (suc q) 3 then suc q else 0
