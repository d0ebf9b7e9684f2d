-- ===== src/Sweeps/Grace.antt =====
-- The time that the breaker of bin/dipper-service/src/network/service/liveness_checker.rs leaves out of
-- an indexer's time without progress, through any history of cycles.
use dipper.Prelude.{
  ℕ, suc, ◌+◌, ◌≤◌, max, ◌≡◌, refl, Bool, true, false, List, [], ◌∷◌, Option, none, some, ◌⊎◌, inl,
  inr, arith, Bool-cases, ltb, ◌==◌, ==_iff, is_nil, select,
}
use dipper.Sweeps.Breaker.{
  HeldSpan, UnreachablePolicy, hold, judge, time_held, UnreachableBreaker, note_trip,
  note_quiet_cycle, extend_held, unreachable_trips, noted_cycle, retained, decide_hold, evaluate,
}

-- Spans one after the other, from `lo` to `now`.
abbrev pub Spans : ℕ → List HeldSpan → ℕ → Type 0
Spans lo [] now = lo ≤ now
Spans lo (s ∷ rest) now = (lo ≤ s.from) × (s.from ≤ s.to) × Spans s.to rest now

-- The same while tripped: the last may be of this trip, and the others end before it.
abbrev pub OpenSpans : ℕ → (since : ℕ) → List HeldSpan → ℕ → Type 0
OpenSpans lo since [] now = (lo ≤ since) × (since ≤ now)
OpenSpans lo since (s ∷ rest) now =
    (lo ≤ s.from)
    × (s.from ≤ s.to)
    × (((s.from ≡ since) × (is_nil rest ≡ true) × (s.to ≤ now)) ⊎ OpenSpans s.to since rest now)

-- The spans of a breaker with or without a trip.
abbrev pub ReadyAt : ℕ → Option ℕ → List HeldSpan → Type 0
ReadyAt now none held = Spans 0 held now
ReadyAt now (some since) held = OpenSpans 0 since held now

abbrev pub IsReady : ℕ → UnreachableBreaker → Type 0
IsReady now b = ReadyAt now b.tripped_since b.held_spans

Spans-later :
    (lo : ℕ) (held : List HeldSpan) (t now : ℕ) → Spans lo held t → t ≤ now → Spans lo held now
Spans-later lo [] t now h le = omega (arith, h, le)
Spans-later lo (s ∷ rest) t now (a, b, c) le = (a, b, Spans-later s.to rest t now c le)

OpenSpans-later :
    (lo since : ℕ) (held : List HeldSpan) (t now : ℕ)
    → OpenSpans lo since held t
    → t ≤ now
    → OpenSpans lo since held now
OpenSpans-later lo since [] t now (a, b) le = (a, omega (arith, b, le))
OpenSpans-later lo since (s ∷ rest) t now (a, b, inl (e, n, c)) le =
    (a, b, inl (e, n, omega (arith, c, le)))
OpenSpans-later lo since (s ∷ rest) t now (a, b, inr c) le =
    (a, b, inr (OpenSpans-later s.to since rest t now c le))

module _ (now : ℕ) where
  Spans-lower :
      (lo lo' : ℕ) (held : List HeldSpan) → Spans lo held now → lo' ≤ lo → Spans lo' held now
  Spans-lower lo lo' [] h le = omega (arith, h, le)
  Spans-lower lo lo' (s ∷ rest) (a, b, c) le = (omega (arith, a, le), b, c)

  OpenSpans-lower :
      (lo lo' since : ℕ) (held : List HeldSpan)
      → OpenSpans lo since held now
      → lo' ≤ lo
      → OpenSpans lo' since held now
  OpenSpans-lower lo lo' since [] (a, b) le = (omega (arith, a, le), b)
  OpenSpans-lower lo lo' since (s ∷ rest) (a, b, c) le = (omega (arith, a, le), b, c)

  OpenSpans-Spans :
      (lo since : ℕ) (held : List HeldSpan) → OpenSpans lo since held now → Spans lo held now
  OpenSpans-Spans lo since [] (a, b) = omega (arith, a, b)
  OpenSpans-Spans lo since (s ∷ []) (a, b, inl (e, n, c)) = (a, b, c)
  OpenSpans-Spans lo since (s ∷ t ∷ rest) (a, b, inl (e, n, c)) = absurd (cc n)
  OpenSpans-Spans lo since (s ∷ rest) (a, b, inr c) = (a, b, OpenSpans-Spans s.to since rest c)

  Spans-OpenSpans : (lo : ℕ) (held : List HeldSpan) → Spans lo held now → OpenSpans lo now held now
  Spans-OpenSpans lo [] h = (h, omega arith)
  Spans-OpenSpans lo (s ∷ rest) (a, b, c) = (a, b, inr (Spans-OpenSpans s.to rest c))

  module _ (p : HeldSpan → Bool) where
    Spans-select :
        (lo : ℕ) (held : List HeldSpan) → Spans lo held now → Spans lo (select p held) now
    unfolding select
    Spans-select lo [] h = h
    Spans-select lo (s ∷ rest) (a, b, c) = elim (Bool-cases (p s)) [
      | inl y ↦ rw y (a, b, Spans-select s.to rest c)
      | inr n ↦
          rw n
            (Spans-lower s.to lo (select p rest) (Spans-select s.to rest c) (omega (arith, a, b)))
    ]

    OpenSpans-select :
        (lo since : ℕ) (held : List HeldSpan)
        → OpenSpans lo since held now
        → OpenSpans lo since (select p held) now
    unfolding select
    OpenSpans-select lo since [] h = h
    OpenSpans-select lo since (s ∷ []) (a, b, inl (e, n, c)) = elim (Bool-cases (p s)) [
      | inl y ↦ rw y (a, b, inl (e, n, c))
      | inr m ↦ rw m (omega (arith, a, e), omega (arith, b, c, e))
    ]
    OpenSpans-select lo since (s ∷ t ∷ rest) (a, b, inl (e, n, c)) = absurd (cc n)
    OpenSpans-select lo since (s ∷ rest) (a, b, inr c) = elim (Bool-cases (p s)) [
      | inl y ↦ rw y (a, b, inr (OpenSpans-select s.to since rest c))
      | inr m ↦ rw m (
          OpenSpans-lower s.to lo since (select p rest) (OpenSpans-select s.to since rest c)
            (omega (arith, a, b)))
    ]

  extend_last :
      (lo since : ℕ) (s : HeldSpan)
      → OpenSpans lo since (s ∷ []) now
      → OpenSpans lo since (extend_held since now (s ∷ [])) now
  unfolding extend_held
  extend_last lo since s (a, b, c) = elim (Bool-cases (s.from == since)) [
    | inl y ↦ rw y (a, fits c, inl ((==_iff s.from since).0 y, refl, omega arith))
    | inr n ↦ rw n (a, b, inr (later n c))
  ]
    where
      fits :
          ((s.from ≡ since) × (true ≡ true) × (s.to ≤ now)) ⊎ OpenSpans s.to since [] now
          → s.from ≤ now
      fits (inl (e, m, k)) = omega (arith, b, k)
      fits (inr (e, k)) = omega (arith, b, e, k)

      later :
          (s.from == since) ≡ false
          → ((s.from ≡ since) × (true ≡ true) × (s.to ≤ now)) ⊎ OpenSpans s.to since [] now
          → OpenSpans s.to since (record { from = since; to = now } ∷ []) now
      later n (inl (e, m, k)) = absurd (cc ((==_iff s.from since).1 e, n))
      later n (inr (e, k)) = (e, k, inl (refl, refl, omega arith))

  extend_held-OpenSpans :
      (lo since : ℕ) (held : List HeldSpan)
      → OpenSpans lo since held now
      → OpenSpans lo since (extend_held since now held) now
  unfolding extend_held
  extend_held-OpenSpans lo since [] (a, b) = (a, b, inl (refl, refl, omega arith))
  extend_held-OpenSpans lo since (s ∷ []) h = extend_last lo since s h
  extend_held-OpenSpans lo since (s ∷ t ∷ rest) (a, b, inl (e, n, c)) = absurd (cc n)
  extend_held-OpenSpans lo since (s ∷ t ∷ rest) (a, b, inr c) =
      (a, b, inr (extend_held-OpenSpans s.to since (t ∷ rest) c))

  -- Disjoint spans that end by `now` hold no more than the time up to it.
  pub time_held_bound :
      (lo time : ℕ) (held : List HeldSpan)
      → Spans lo held now
      → time ≤ now
      → time_held time held + max time lo ≤ now
  time_held_bound lo time [] h le = omega (arith, h, le)
  time_held_bound lo time (s ∷ rest) (a, b, c) le =
      omega (arith, a, b, time_held_bound s.to time rest c le)

-- A policy that judges rests on spans up to now and on the longest hold.
abbrev pub Fits : (max_hold now : ℕ) → UnreachablePolicy → Type 0
Fits max_hold now hold = Unit
Fits max_hold now (judge held max_grace) = Spans 0 held now × (max_grace ≡ max_hold)

module _ (reaches_fraction : ℕ → ℕ → Bool) (min_indexers max_hold : ℕ) where
  module _ (checked unreachable now : ℕ) where
    noted_cycle-IsReady :
        (t q : ℕ) (o : Option ℕ) (held : List HeldSpan)
        → ReadyAt t o held
        → t ≤ now
        → IsReady now (
            noted_cycle reaches_fraction min_indexers max_hold checked unreachable now
              (record { tripped_since = o; quiet_cycles = q; held_spans = held }))
    unfolding noted_cycle note_trip note_quiet_cycle
    noted_cycle-IsReady t q none held h le =
        let later = Spans-later 0 held t now h le in
        elim (Bool-cases
          (unreachable_trips reaches_fraction min_indexers max_hold checked unreachable)) [
            | inl y ↦ rw y (Spans-OpenSpans now 0 held later)
            | inr n ↦ rw n later
          ]
    noted_cycle-IsReady t q (some since) held h le =
        let later = OpenSpans-later 0 since held t now h le in
        elim (Bool-cases
          (unreachable_trips reaches_fraction min_indexers max_hold checked unreachable)) [
            | inl y ↦ rw y later
            | inr n ↦ elim (Bool-cases (ltb (suc q) 3)) [
              | inl y ↦ rw (n, y) later
              | inr m ↦ rw (n, m) (OpenSpans-Spans now 0 since held later)
            ]
          ]

  module _ (now : ℕ) where
    retained-IsReady :
        (q : ℕ) (o : Option ℕ) (held : List HeldSpan)
        → ReadyAt now o held
        → IsReady now (
            retained reaches_fraction min_indexers max_hold now
              (record { tripped_since = o; quiet_cycles = q; held_spans = held }))
    retained-IsReady q none held h = Spans-select now _ 0 held h
    retained-IsReady q (some since) held h = OpenSpans-select now _ 0 since held h

    decide_hold-IsReady :
        (q : ℕ) (o : Option ℕ) (held : List HeldSpan)
        → ReadyAt now o held
        → let out =
            decide_hold reaches_fraction min_indexers max_hold now
              (record { tripped_since = o; quiet_cycles = q; held_spans = held }) in
          IsReady now out.0 × Fits max_hold now out.1
    unfolding decide_hold
    decide_hold-IsReady q none held h = (h, (h, refl))
    decide_hold-IsReady q (some since) held h = elim (Bool-cases (ltb (since + max_hold) now)) [
      | inl y ↦ rw y (h, (OpenSpans-Spans now 0 since held h, refl))
      | inr n ↦ rw n (extend_held-OpenSpans now 0 since held h, tt)
    ]

  pub evaluate-IsReady :
      (checked unreachable now t : ℕ) (b : UnreachableBreaker)
      → IsReady t b
      → t ≤ now
      → let out = evaluate reaches_fraction min_indexers max_hold checked unreachable now b in
        IsReady now out.0 × Fits max_hold now out.1
  unfolding evaluate
  evaluate-IsReady checked unreachable now t b ready le =
      let noted = noted_cycle reaches_fraction min_indexers max_hold checked unreachable now b in
      let kept = retained reaches_fraction min_indexers max_hold now noted in
      decide_hold-IsReady now kept.quiet_cycles kept.tripped_since kept.held_spans (
        retained-IsReady now noted.quiet_cycles noted.tripped_since noted.held_spans (
          noted_cycle-IsReady checked unreachable now t b.quiet_cycles b.tripped_since b.held_spans
            ready le))
