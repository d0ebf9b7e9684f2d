-- ===== src/Examples/Turns.antt =====
-- The theorem on the worker's turns, on a queue of one job.
use Prim.Native.Nat.{◌*◌}
use dipper.Prelude.{◌≡◌, ◌⊎◌, true, [], ◌∷◌, Option, some}
use dipper.Queue.Jobs.{Job, queued, background}
use dipper.Queue.Store.{PgQueue}
use dipper.Worker.Backoff.{second}
use dipper.Worker.Loop.{JobOutcome, retryable, turn}
use dipper.Worker.Turns.{Served, NothingToServe, turn-Served}

abbrev job_4 : Job
job_4 = record {
  id = 4;
  created_at = 10;
  updated_at = 10;
  scheduled_for = 10;
  status = queued;
  max_attempts = 3;
  attempt_count = 1;
  priority = background;
  descriptor = "reassess";
}

abbrev queue_4 : PgQueue
queue_4 = record { max_attempts = 3; rows = job_4 ∷ []; guards = []; notified = [] }

abbrev provider_down : Job → Option JobOutcome
provider_down j = some (retryable (5 * second))

turn-Served_example :
    ((turn (λ _. true) provider_down 30 31 true queue_4 ≡ queue_4)
      × NothingToServe (λ _. true) 30 queue_4)
    ⊎ ((j : Job) × Served provider_down 30 31 queue_4 j
          (turn (λ _. true) provider_down 30 31 true queue_4))
turn-Served_example = turn-Served (λ _. true) provider_down 30 31 queue_4
