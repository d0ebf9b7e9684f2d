-- ===== src/Supervisor/Teardown.antt =====
-- The answer of the supervisor of the task tree, read off the timeline
-- (bin/dipper-service/src/supervisor.rs).
use dipper.Prelude.{
  ℕ, zero, suc, ◌+◌, ◌-◌, ◌≡◌, refl, sym, ap, true, false, List, [], ◌∷◌, Option, none, some, arith,
  inl, inr, leb, ◌==◌, if◌then◌else◌, Bool-cases, length, take,
}
use dipper.Supervisor.Drain.{
  TaskEnd, completed, failed, panicked, Wake, finished, requested, Cause, task_failed,
  task_panicked, task_exited, Exit, clean, stalled, keep_failure, exit_of, drain, supervise,
}

-- The tasks' ends on a timeline, up to the first event after a deadline.
unfoldable pub ends_until : ℕ → List (ℕ × Wake) → List (ℕ × TaskEnd)
ends_until until [] = []
ends_until until ((at, requested) ∷ events) = if leb at until then ends_until until events else []
ends_until until ((at, finished id end) ∷ events) =
    if leb at until then (id, end) ∷ ends_until until events else []

-- The first of the ends that is a task's error or its panic.
unfoldable pub failure_among : List (ℕ × TaskEnd) → Option Cause
failure_among [] = none
failure_among ((id, completed) ∷ ends) = failure_among ends
failure_among ((id, failed) ∷ ends) = some (task_failed id)
failure_among ((id, panicked) ∷ ends) = some (task_panicked id)

-- A failure from before the ends comes first.
unfoldable pub first_failure : Option Cause → List (ℕ × TaskEnd) → Option Cause
unfolding failure_among
first_failure (some cause) ends = some cause
first_failure none ends = failure_among ends

-- What the supervisor keeps as the tasks end is the first failure.
first_failure-keep_failure :
    (id : ℕ) (end : TaskEnd) (first : Option Cause) (ends : List (ℕ × TaskEnd))
    → first_failure first ((id, end) ∷ ends) ≡ first_failure (keep_failure id end first) ends
unfolding first_failure keep_failure
first_failure-keep_failure id completed none ends = refl
first_failure-keep_failure id completed (some cause) ends = refl
first_failure-keep_failure id failed none ends = refl
first_failure-keep_failure id failed (some cause) ends = refl
first_failure-keep_failure id panicked none ends = refl
first_failure-keep_failure id panicked (some cause) ends = refl

first_failure-nil : (first : Option Cause) → first_failure first [] ≡ first
unfolding first_failure
first_failure-nil none = refl
first_failure-nil (some cause) = refl

-- A teardown of so many tasks whose ends are given.
unfoldable pub verdict : ℕ → Option Cause → List (ℕ × TaskEnd) → Exit
unfolding first_failure
verdict tasks first ends =
    if length ends == tasks
    then exit_of (first_failure first ends)
    else stalled (tasks - length ends) (first_failure first ends)

-- What a teardown that begins at a time with a deadline comes to.
unfoldable pub teardown : ℕ → ℕ → Option Cause → List (ℕ × Wake) → Exit
unfolding verdict ends_until
teardown until tasks first events = verdict tasks first (take tasks (ends_until until events))

verdict-step :
    (tasks id : ℕ) (end : TaskEnd) (first : Option Cause) (ends : List (ℕ × TaskEnd))
    → verdict (suc tasks) first ((id, end) ∷ ends) ≡ verdict tasks (keep_failure id end first) ends
unfolding verdict
verdict-step tasks id end first ends =
    let same : (suc (length ends) == suc tasks) ≡ (length ends == tasks) = ground arith in
    let left : suc tasks - suc (length ends) ≡ tasks - length ends = omega arith in
    rw (same, left, first_failure-keep_failure id end first ends) refl

verdict-nil :
    (tasks : ℕ) (first : Option Cause) → verdict (suc tasks) first [] ≡ stalled (suc tasks) first
unfolding verdict first_failure
verdict-nil tasks first =
    let more : (0 == suc tasks) ≡ false = ground arith in
    let all : suc tasks - 0 ≡ suc tasks = omega arith in
    rw (more, all, first_failure-nil first) refl

teardown-zero :
    (until : ℕ) (first : Option Cause) (events : List (ℕ × Wake))
    → teardown until zero first events ≡ exit_of first
unfolding teardown verdict first_failure
teardown-zero until first events = ap exit_of (first_failure-nil first)

teardown-nil :
    (until tasks : ℕ) (first : Option Cause)
    → teardown until (suc tasks) first [] ≡ stalled (suc tasks) first
unfolding teardown ends_until
teardown-nil until tasks first = verdict-nil tasks first

teardown-late :
    (until at tasks : ℕ) (event : Wake) (first : Option Cause) (events : List (ℕ × Wake))
    → leb at until ≡ false
    → teardown until (suc tasks) first ((at, event) ∷ events) ≡ stalled (suc tasks) first
unfolding teardown ends_until
teardown-late until at tasks requested first events late = rw late (verdict-nil tasks first)
teardown-late until at tasks (finished id end) first events late = rw late (verdict-nil tasks first)

teardown-requested :
    (until at tasks : ℕ) (first : Option Cause) (events : List (ℕ × Wake))
    → leb at until ≡ true
    → teardown until tasks first ((at, requested) ∷ events) ≡ teardown until tasks first events
unfolding teardown ends_until
teardown-requested until at tasks first events early = rw early refl

teardown-finished :
    (until at tasks id : ℕ) (end : TaskEnd) (first : Option Cause) (events : List (ℕ × Wake))
    → leb at until ≡ true
    → teardown until (suc tasks) first ((at, finished id end) ∷ events)
      ≡ teardown until tasks (keep_failure id end first) events
unfolding teardown ends_until
teardown-finished until at tasks id end first events early =
    rw early (verdict-step tasks id end first (take tasks (ends_until until events)))

-- Once its deadline is set, the drain comes to the teardown's verdict.
drain-teardown :
    (grace now until tasks : ℕ) (first : Option Cause) (events : List (ℕ × Wake))
    → drain grace now events tasks first (some until) true
      ≡ some (teardown until tasks first events)
unfolding drain
drain-teardown grace now until zero first events = ap some (sym (teardown-zero until first events))
drain-teardown grace now until (suc tasks) first [] = ap some (sym (teardown-nil until tasks first))
drain-teardown grace now until (suc tasks) first ((at, requested) ∷ events) =
    elim (Bool-cases (leb at until)) [
      | inl early ↦
          rw (early, teardown-requested until at (suc tasks) first events early)
            (drain-teardown grace at until (suc tasks) first events)
      | inr late ↦ rw (late, teardown-late until at tasks requested first events late) refl
    ]
drain-teardown grace now until (suc tasks) first ((at, finished id end) ∷ events) =
    elim (Bool-cases (leb at until)) [
      | inl early ↦
          rw (early, teardown-finished until at tasks id end first events early)
            (drain-teardown grace at until tasks (keep_failure id end first) events)
      | inr late ↦ rw (late, teardown-late until at tasks (finished id end) first events late) refl
    ]

-- The deadline is a grace after the first wait that sees the request.
drain-requested :
    (grace now tasks : ℕ) (first : Option Cause) (events : List (ℕ × Wake))
    → drain grace now events tasks first none true
      ≡ some (teardown (now + grace) tasks first events)
unfolding drain
drain-requested grace now zero first events =
    ap some (sym (teardown-zero (now + grace) first events))
drain-requested grace now (suc tasks) first [] =
    ap some (sym (teardown-nil (now + grace) tasks first))
drain-requested grace now (suc tasks) first ((at, requested) ∷ events) =
    drain-teardown grace now (now + grace) (suc tasks) first ((at, requested) ∷ events)
drain-requested grace now (suc tasks) first ((at, finished id end) ∷ events) =
    drain-teardown grace now (now + grace) (suc tasks) first ((at, finished id end) ∷ events)

-- What the supervisor comes to, by the first thing that happens: a teardown after a request; one
-- with that failure after a task that ended unasked; with tasks and no event, it never returns.
unfoldable pub outcome : ℕ → List (ℕ × Wake) → ℕ → Option Exit
unfolding teardown keep_failure
outcome grace events zero = some clean
outcome grace [] (suc tasks) = none
outcome grace ((at, requested) ∷ events) (suc tasks) =
    some (teardown (at + grace) (suc tasks) none events)
outcome grace ((at, finished id completed) ∷ events) (suc tasks) =
    some (teardown (at + grace) tasks (some (task_exited id)) events)
outcome grace ((at, finished id failed) ∷ events) (suc tasks) =
    some (teardown (at + grace) tasks (some (task_failed id)) events)
outcome grace ((at, finished id panicked) ∷ events) (suc tasks) =
    some (teardown (at + grace) tasks (some (task_panicked id)) events)

-- Supervising a task tree with no shutdown requested yet comes to `outcome`: the first request, or
-- the first task that ends, starts a teardown with one deadline, a grace after it; the answer
-- counts the tasks that end by that deadline and names the first failure, the unasked end
-- included. With tasks left at the deadline it is a stall with their number.
pub supervise-outcome :
    (grace now : ℕ) (events : List (ℕ × Wake)) (tasks : ℕ)
    → supervise grace now events tasks false ≡ outcome grace events tasks
unfolding supervise outcome
supervise-outcome grace now events zero = refl
supervise-outcome grace now [] (suc tasks) = refl
supervise-outcome grace now ((at, requested) ∷ events) (suc tasks) =
    drain-requested grace at (suc tasks) none events
supervise-outcome grace now ((at, finished id completed) ∷ events) (suc tasks) =
    drain-requested grace at tasks (some (task_exited id)) events
supervise-outcome grace now ((at, finished id failed) ∷ events) (suc tasks) =
    drain-requested grace at tasks (some (task_failed id)) events
supervise-outcome grace now ((at, finished id panicked) ∷ events) (suc tasks) =
    drain-requested grace at tasks (some (task_panicked id)) events
