-- ===== src/Sweeps/Breaker.antt =====
-- The breaker of bin/dipper-service/src/network/service/liveness_checker.rs: while too many indexers
-- cannot be reached at once, no agreement is abandoned for that, for a bounded time. Times
-- are in one unit from an origin, and durations too; a difference of times that the source
-- compares is written as a sum. The fields that only time the alerts are left out.
use dipper.Prelude.{
  ℕ, suc, ◌+◌, ◌-◌, ◌*◌, min, max, Bool, ◌&&◌, List, [], ◌∷◌, Option, none, some, is_some, ltb, leb,
  ◌==◌, if◌then◌else◌, select, is_nil,
}

pub record HeldSpan : Type 0 where
  pub from : ℕ
  pub to : ℕ

pub data UnreachablePolicy : Type 0 where
  hold : UnreachablePolicy
  judge : (held : List HeldSpan) (max_grace : ℕ) → UnreachablePolicy

-- How much of a span lies after a time.
abbrev pub span_after : ℕ → HeldSpan → ℕ
span_after time span = span.to - max span.from time

abbrev pub time_held : ℕ → List HeldSpan → ℕ
time_held time [] = 0
time_held time (span ∷ held) = span_after time span + time_held time held

unfoldable pub progress_clock : UnreachablePolicy → Option ℕ → Option ℕ
progress_clock hold last_progress_at = last_progress_at
progress_clock (judge held max_grace) none = none
progress_clock (judge held max_grace) (some time) =
    some (time + min (time_held time held) max_grace)

abbrev pub unreachable_clear_cycles : ℕ
unreachable_clear_cycles = 3

pub record UnreachableBreaker : Type 0 where
  pub tripped_since : Option ℕ
  pub quiet_cycles : ℕ
  pub held_spans : List HeldSpan

abbrev pub default_breaker : UnreachableBreaker
default_breaker = record { tripped_since = none; quiet_cycles = 0; held_spans = [] }

abbrev pub day_seconds : ℕ
day_seconds = 86400

abbrev pub max_hold_of : ℕ → ℕ
max_hold_of max_tolerance_days = max max_tolerance_days 1 * day_seconds

unfoldable pub note_trip : ℕ → UnreachableBreaker → UnreachableBreaker
note_trip now b = record {
  tripped_since = elim b.tripped_since [ none ↦ some now | some since ↦ some since ];
  quiet_cycles = 0;
  held_spans = b.held_spans;
}

unfoldable pub note_quiet_cycle : UnreachableBreaker → UnreachableBreaker
note_quiet_cycle b =
    if ltb (suc b.quiet_cycles) unreachable_clear_cycles
    then record b { quiet_cycles = suc b.quiet_cycles }
    else record b { tripped_since = none; quiet_cycles = 0 }

-- The last span grows when it is of this trip; otherwise a new one is put after it.
unfoldable pub extend_held : (since now : ℕ) → List HeldSpan → List HeldSpan
extend_held since now [] = record { from = since; to = now } ∷ []
extend_held since now (span ∷ rest) =
    let rest' = extend_held since now rest in
    if is_nil rest && span.from == since
    then record { from = span.from; to = now } ∷ []
    else span ∷ rest'

-- The division of the counts and its comparison with the configured fraction are in floating
-- point: a parameter.
module _ (reaches_fraction : (unreachable checked : ℕ) → Bool) (min_indexers max_hold : ℕ) where
  unfoldable pub unreachable_trips : (checked unreachable : ℕ) → Bool
  unreachable_trips checked unreachable =
      ltb 0 checked && leb min_indexers checked && reaches_fraction unreachable checked

  -- The trip or the quiet cycle, and then the spans that are still of use.
  unfoldable pub noted_cycle :
      (checked unreachable now : ℕ) → UnreachableBreaker → UnreachableBreaker
  unfolding unreachable_trips note_trip note_quiet_cycle
  noted_cycle checked unreachable now b =
      if unreachable_trips checked unreachable
      then note_trip now b
      else if is_some b.tripped_since
      then note_quiet_cycle b
      else b

  abbrev pub retained : ℕ → UnreachableBreaker → UnreachableBreaker
  retained now b = record b {
    held_spans = select (λ span. leb now (span.to + (max_hold + max_hold))) b.held_spans;
  }

  unfoldable pub decide_hold : ℕ → UnreachableBreaker → UnreachableBreaker × UnreachablePolicy
  unfolding extend_held
  decide_hold now b = elim b.tripped_since [
    | none ↦ (b, judge b.held_spans max_hold)
    | some since ↦
        if ltb (since + max_hold) now
        then (b, judge b.held_spans max_hold)
        else (record b { held_spans = extend_held since now b.held_spans }, hold)
  ]

  unfoldable pub evaluate :
      (checked unreachable now : ℕ) → UnreachableBreaker → UnreachableBreaker × UnreachablePolicy
  unfolding noted_cycle select decide_hold
  evaluate checked unreachable now b =
      decide_hold now (retained now (noted_cycle checked unreachable now b))
