-- ===== src/Queue/Store.antt =====
-- The operations of the job queue (dipper-pgmq/src/postgres.rs, queue.rs and job.rs). A popped job
-- is held by a transaction that stays open until its guard ends: the row that other
-- transactions see is the committed one, locked. `now` is the database clock.
use dipper.Prelude.{
  ℕ, ◌+◌, Bool, true, false, not, ◌&&◌, ◌||◌, List, [], ◌∷◌, Option, none, some, String, map, ltb,
  leb, ◌==◌, if◌then◌else◌, any_eq, update, select, delete, exists, is_none,
}
use dipper.Queue.Jobs.{JobStatus, queued, running, failed, is_queued, Job, leads, JobBuilder}

-- A `JobGuard`: the row as its transaction left it.
pub record Guard : Type 0 where
  pub job : Job

-- `rows` are the committed rows, `guards` the open ones and `notified` the job ids sent on the
-- channel pgmq_jobs_available.
pub record PgQueue : Type 0 where
  pub max_attempts : ℕ
  pub rows : List Job
  pub guards : List Guard
  pub notified : List ℕ

abbrev pub has_job_id : ℕ → Job → Bool
has_job_id id j = j.id == id

abbrev pub guarded : List Guard → List ℕ
guarded guards = map (λ (g : Guard). g.job.id) guards

-- The row of either INSERT: the columns not named take their defaults.
abbrev pub inserted_row : ℕ → ℕ → ℕ → JobBuilder → Job
inserted_row now id max_attempts b = record {
  id = id;
  created_at = now;
  updated_at = now;
  scheduled_for = elim b.schedule [ none ↦ now | some at ↦ at ];
  status = queued;
  max_attempts = elim b.builder_max_attempts [ none ↦ max_attempts | some n ↦ n ];
  attempt_count = 0;
  priority = b.builder_priority;
  descriptor = b.desc;
}

-- `id` is the one that `Uuid::now_v7()` draws; the primary key refuses a second row with it.
unfoldable pub push : ℕ → ℕ → JobBuilder → PgQueue → Option PgQueue
push now id b q =
    if exists (has_job_id id) q.rows
    then none
    else some (record q {
      rows = inserted_row now id q.max_attempts b ∷ q.rows;
      notified = if is_none b.schedule then id ∷ q.notified else q.notified;
    })

-- `WHERE status = Queued AND scheduled_for <= now()`, of the rows that SKIP LOCKED leaves.
abbrev pub is_ready : ℕ → List ℕ → Job → Bool
is_ready now locked j = is_queued j.status && leb j.scheduled_for now && not (any_eq j.id locked)

abbrev pub leading : Job → Option Job → Job
leading j none = j
leading j (some k) = if leads k j then k else j

-- `ORDER BY … LIMIT 1`.
unfoldable pub next_job : ℕ → List ℕ → List Job → Option Job
next_job now locked [] = none
next_job now locked (j ∷ js) =
    let rest = next_job now locked js in
    if is_ready now locked j then some (leading j rest) else rest

pub data Popped : Type 0 where
  empty undecodable : Popped
  popped : Guard → Popped

-- The open transaction sets the row running; a descriptor that does not decode drops it, which
-- rolls back. `decodes` is the deserialisation of the caller's type.
unfoldable pub pop : (String → Bool) → ℕ → PgQueue → PgQueue × Popped
unfolding next_job
pop decodes now q = elim (next_job now (guarded q.guards) q.rows) [
  | none ↦ (q, empty)
  | some j ↦
      let guard : Guard = record { job = record j { status = running; updated_at = now } } in
      if decodes j.descriptor
      then (record q { guards = guard ∷ q.guards }, popped guard)
      else (q, undecodable)
]

abbrev pub is_unfinished : JobStatus → Bool
is_unfinished queued = true
is_unfinished running = true
is_unfinished failed = false

unfoldable pub unfinished_descriptors : PgQueue → List String
unfinished_descriptors q =
    map (λ (j : Job). j.descriptor) (select (λ j. is_unfinished j.status) q.rows)

-- The SET clause of `requeue`.
unfoldable pub requeued_row : ℕ → ℕ → Bool → Job → Job
requeued_row now scheduled_for count_attempt j =
    let increment = if count_attempt then 1 else 0 in
    record j {
      updated_at = now;
      attempt_count = j.attempt_count + increment;
      status =
          if increment == 1 && leb j.max_attempts (j.attempt_count + 1) then failed else queued;
      scheduled_for =
          if increment == 0 || ltb (j.attempt_count + 1) j.max_attempts
          then scheduled_for
          else j.scheduled_for;
    }

unfoldable pub requeue : ℕ → ℕ → ℕ → Bool → List Job → List Job
unfolding requeued_row
requeue now id scheduled_for count_attempt rows =
    update (has_job_id id) (requeued_row now scheduled_for count_attempt) rows

-- How a guard is consumed. A retry has the time it is scheduled for, if any, with the service's
-- clock that stands in for none.
pub data Action : Type 0 where
  remove : Action
  mark_as_failed : ℕ → Option ℕ → Action
  reschedule : ℕ → Action

unfoldable pub acted : ℕ → ℕ → Action → List Job → List Job
unfolding requeue
acted now id remove rows = delete (has_job_id id) rows
acted now id (mark_as_failed clock none) rows = requeue now id clock true rows
acted now id (mark_as_failed clock (some at)) rows = requeue now id at true rows
acted now id (reschedule at) rows = requeue now id at false rows

abbrev pub holds : ℕ → Guard → Bool
holds id g = g.job.id == id

unfoldable pub held : ℕ → List Guard → Option Guard
held id [] = none
held id (g ∷ gs) = if holds id g then some g else held id gs

-- The guard of the job `id` acts in its transaction and commits it. `now()` is the time at which
-- the transaction began, so it is the one that the pop wrote.
unfoldable pub consume : ℕ → Action → PgQueue → PgQueue
unfolding acted held
consume id action q = elim (held id q.guards) [
  | none ↦ q
  | some g ↦ record q {
    rows = acted g.job.updated_at id action q.rows;
    guards = delete (holds id) q.guards;
  }
]

-- A guard dropped unconsumed, a worker that died, or a commit that failed: the transaction rolls
-- back, so the committed row stands.
unfoldable pub drop_guard : ℕ → PgQueue → PgQueue
drop_guard id q = record q { guards = delete (holds id) q.guards }

-- The DELETE waits for the locks of the open guards, so while there are any it has not run yet.
unfoldable pub clear : PgQueue → PgQueue
clear q = elim q.guards [ [] ↦ record q { rows = [] } | g ∷ gs ↦ q ]

pub data Event : Type 0 where
  push_job : ℕ → JobBuilder → Event
  pop_job : Event
  consume_guard : ℕ → Action → Event
  drop_job : ℕ → Event
  clear_all : Event

-- One event at a time of the database clock; a push that fails changes nothing.
unfoldable pub step : (String → Bool) → ℕ → Event → PgQueue → PgQueue
unfolding push pop consume drop_guard clear
step decodes now (push_job id b) q = elim (push now id b q) [ none ↦ q | some q' ↦ q' ]
step decodes now pop_job q = (pop decodes now q).0
step decodes now (consume_guard id action) q = consume id action q
step decodes now (drop_job id) q = drop_guard id q
step decodes now clear_all q = clear q

unfoldable pub run_queue : (String → Bool) → List (ℕ × Event) → PgQueue → PgQueue
unfolding step
run_queue decodes [] q = q
run_queue decodes ((now, e) ∷ history) q = run_queue decodes history (step decodes now e q)
