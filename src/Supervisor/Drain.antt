-- ===== src/Supervisor/Drain.antt =====
-- The drain of the task tree (bin/dipper-service/src/supervisor.rs). A timeline has what wakes the
-- supervisor and when: a task that finishes, or a request to shut down. A request and a task's end
-- that race are told apart by their order there. A task tree is its number of running tasks.
use dipper.Prelude.{
  ℕ, zero, suc, ◌+◌, Bool, true, false, List, [], ◌∷◌, Option, none, some, leb, if◌then◌else◌,
}

-- What `join_next_with_id` tells of a task, the error texts left out.
pub data TaskEnd : Type 0 where
  completed failed panicked : TaskEnd

pub data Wake : Type 0 where
  finished : ℕ → TaskEnd → Wake
  requested : Wake

-- The failure that the exit names: a task's error, its panic, or an end that nobody asked for.
pub data Cause : Type 0 where
  task_failed task_panicked task_exited : ℕ → Cause

-- The answer of `supervise`; a stall has the number of tasks that still ran.
pub data Exit : Type 0 where
  clean : Exit
  fatal : Cause → Exit
  stalled : ℕ → Option Cause → Exit

abbrev pub get_or_insert {ℓ} : {A : Type ℓ} → Option A → A → A
get_or_insert none b = b
get_or_insert (some a) b = a

unfoldable pub keep_failure : ℕ → TaskEnd → Option Cause → Option Cause
keep_failure id completed first = first
keep_failure id failed first = some (get_or_insert first (task_failed id))
keep_failure id panicked first = some (get_or_insert first (task_panicked id))

abbrev pub exit_of : Option Cause → Exit
exit_of none = clean
exit_of (some cause) = fatal cause

-- The loop, from the time of its last wake, with the tasks still in the tree, `first_failure`,
-- `teardown_deadline`, and whether shutdown is requested. Without a request it waits for ever:
-- `none` when the timeline ends.
unfoldable pub drain :
    (teardown_grace now : ℕ) → List (ℕ × Wake) → ℕ → Option Cause → Option ℕ → Bool → Option Exit
unfolding keep_failure
drain grace now events zero first deadline is_requested = some (exit_of first)
drain grace now [] (suc tasks) first deadline true = some (stalled (suc tasks) first)
drain grace now [] (suc tasks) first deadline false = none
drain grace now ((at, requested) ∷ events) (suc tasks) first deadline true =
    let until = get_or_insert deadline (now + grace) in
    let rest = drain grace at events (suc tasks) first (some until) true in
    if leb at until then rest else some (stalled (suc tasks) first)
drain grace now ((at, finished id end) ∷ events) (suc tasks) first deadline true =
    let until = get_or_insert deadline (now + grace) in
    let rest = drain grace at events tasks (keep_failure id end first) (some until) true in
    if leb at until then rest else some (stalled (suc tasks) first)
drain grace now ((at, requested) ∷ events) (suc tasks) first deadline false =
    drain grace at events (suc tasks) first deadline true
drain grace now ((at, finished id end) ∷ events) (suc tasks) first deadline false =
    drain grace at events tasks (some (get_or_insert (keep_failure id end first) (task_exited id)))
      deadline true

unfoldable pub supervise :
    (teardown_grace now : ℕ) → List (ℕ × Wake) → (tasks : ℕ) (is_requested : Bool) → Option Exit
unfolding drain
supervise grace now events tasks is_requested = drain grace now events tasks none none is_requested
