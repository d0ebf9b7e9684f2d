-- ===== src/Worker/Loop.antt =====
-- One turn of the worker's loop (bin/dipper-service/src/worker/service.rs, result.rs): pop a job,
-- run it, and consume its guard as the outcome says. What a job does is a parameter. Times are
-- in nanoseconds.
use dipper.Prelude.{ℕ, ◌+◌, ◌*◌, Bool, Option, none, some, String, if◌then◌else◌}
use dipper.Queue.Jobs.{Job}
use dipper.Queue.Store.{
  Guard, PgQueue, Popped, empty, undecodable, popped, pop, Action, remove, mark_as_failed,
  reschedule, consume, drop_guard,
}
use dipper.Worker.Backoff.{second, calculate_backoff_delay}

-- `JobResult<()>`, the error texts left out.
pub data JobOutcome : Type 0 where
  done fatal : JobOutcome
  retryable deferred : ℕ → JobOutcome

abbrev pub job_timeout_retry_base_delay : ℕ
job_timeout_retry_base_delay = 30 * second

-- `none` is a job that ran out of time.
abbrev pub run_job_with_timeout : Option JobOutcome → JobOutcome
run_job_with_timeout none = retryable job_timeout_retry_base_delay
run_job_with_timeout (some outcome) = outcome

-- What the loop does with a job that failed `attempt` times before, at a time of its clock.
unfoldable pub action_of : ℕ → ℕ → JobOutcome → Action
unfolding calculate_backoff_delay
action_of clock attempt done = remove
action_of clock attempt fatal = remove
action_of clock attempt (retryable base_delay) =
    mark_as_failed clock (some (clock + calculate_backoff_delay base_delay attempt))
action_of clock attempt (deferred delay) = reschedule (clock + delay)

-- The transaction commits, or it fails and rolls back.
unfoldable pub settle_job : ℕ → Bool → Option JobOutcome → Guard → PgQueue → PgQueue
unfolding action_of consume drop_guard
settle_job clock commits outcome g q =
    if commits
    then consume g.job.id (action_of clock g.job.attempt_count (run_job_with_timeout outcome)) q
    else drop_guard g.job.id q

module _ (decodes : String → Bool) (process_job : Job → Option JobOutcome) where
  unfoldable pub after_pop : ℕ → Bool → PgQueue × Popped → PgQueue
  unfolding settle_job
  after_pop clock commits (q, empty) = q
  after_pop clock commits (q, undecodable) = q
  after_pop clock commits (q, popped g) = settle_job clock commits (process_job g.job) g q

  unfoldable pub turn : ℕ → ℕ → Bool → PgQueue → PgQueue
  unfolding pop after_pop
  turn now clock commits q = after_pop clock commits (pop decodes now q)
