-- ===== src/Examples/Jobs.antt =====
-- The theorems on the job queue, on a queue with a failed, a deferred and a fresh job.
use dipper.Prelude.{ℕ, ◌≡◌, refl, true, List, [], ◌∷◌, some, arith}
use dipper.Queue.Jobs.{
  Job, queued, running, failed, background, interactive, sweep, new_job, with_priority, max_retries,
}
use dipper.Queue.Store.{
  Guard, PgQueue, Event, push_job, pop_job, consume_guard, drop_job, mark_as_failed, reschedule,
  run_queue, pop, next_job, requeued_row,
}
use dipper.Queue.Sound.{QueueIsSound}
use dipper.Queue.Invariant.{run_queue-IsSound}
use dipper.Queue.Ready.{IsNext}
use dipper.Queue.Serving.{Attempt, failure, deferral, after_attempts, pop-first, last_failure}

abbrev job_1 : Job
job_1 = record {
  id = 1;
  created_at = 10;
  updated_at = 10;
  scheduled_for = 10;
  status = queued;
  max_attempts = 3;
  attempt_count = 0;
  priority = background;
  descriptor = "offer";
}

abbrev job_2 : Job
job_2 = record job_1 { id = 2; created_at = 20; scheduled_for = 20; priority = interactive }

abbrev queue_0 : PgQueue
queue_0 = record { max_attempts = 3; rows = job_1 ∷ job_2 ∷ []; guards = []; notified = [] }

queue_0-IsSound : QueueIsSound queue_0
queue_0-IsSound = record {
  config = ground arith;
  key = ground arith;
  one_guard = tt;
  on_record = tt;
  sound = (
    record { limit = ground arith; attempts = ground arith; held_queued = refl },
    (record { limit = ground arith; attempts = ground arith; held_queued = refl }, tt),
  );
}

-- Two workers pop, one defers its job and the other fails, and a third job comes in.
abbrev history_1 : List (ℕ × Event)
history_1 =
    (30, pop_job)
    ∷ (31, pop_job)
    ∷ (32, consume_guard 2 (reschedule 50))
    ∷ (33, consume_guard 1 (mark_as_failed 33 (some 40)))
    ∷ (34, push_job 3 (max_retries 0 (with_priority sweep (new_job "pass"))))
    ∷ (35, pop_job)
    ∷ (36, drop_job 3)
    ∷ []

run_queue-IsSound_example : QueueIsSound (run_queue (λ _. true) history_1 queue_0)
run_queue-IsSound_example =
    run_queue-IsSound (λ _. true) history_1 queue_0
      (tt, (tt, (tt, (tt, ((ground arith, ground arith), (tt, (tt, tt))))))) queue_0-IsSound

abbrev guard_2 : Guard
guard_2 = record { job = record job_2 { status = running; updated_at = 30 } }

pop-first_example :
    (j : Job) × IsNext 30 queue_0 j
    × (guard_2.job ≡ record j { status = running; updated_at = 30 })
    × (record queue_0 { guards = guard_2 ∷ [] }
        ≡ record queue_0 { guards = guard_2 ∷ queue_0.guards })
unfolding pop next_job
pop-first_example =
    pop-first (λ _. true) 30 queue_0 (record queue_0 { guards = guard_2 ∷ [] }) guard_2 refl

abbrev attempts_1 : List Attempt
attempts_1 = deferral 30 40 ∷ failure 40 50 ∷ deferral 50 60 ∷ failure 60 70 ∷ []

last_failure_example :
    let last = requeued_row 80 90 true (after_attempts attempts_1 job_1) in
    (last.status ≡ failed)
    × (last.attempt_count ≡ job_1.max_attempts)
    × (last.scheduled_for ≡ (after_attempts attempts_1 job_1).scheduled_for)
last_failure_example = last_failure attempts_1 job_1 80 90 refl refl
