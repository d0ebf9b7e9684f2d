-- ===== src/Worker/Turns.antt =====
-- What a turn of the worker's loop (bin/dipper-service/src/worker/service.rs) does to the queue, by
-- what the run of the job came to.
use dipper.Prelude.{
  All, any_eq-NotIn, ℕ, ◌+◌, ◌*◌, ◌≡◌, refl, ◌∙◌, ap, Bool, true, false, List, [], ◌∷◌, Option,
  none, some, String, arith, ◌⊎◌, inl, inr, ◌==◌, if◌then◌else◌, any_eq, delete, update, leb, ltb,
  Bool-cases,
}
use dipper.Queue.Jobs.{Job, running, queued, failed}
use dipper.Queue.Store.{
  Guard, PgQueue, pop, Action, guarded, holds, held, consume, acted, has_job_id, requeued_row,
  requeue,
}
use dipper.Queue.Serving.{guard_of, taken, Ends, pop-Ends}
use dipper.Queue.Ready.{Unready, IsNext}
use dipper.Worker.Backoff.{second, calculate_backoff_delay}
use dipper.Worker.Loop.{
  JobOutcome, done, fatal, retryable, deferred, run_job_with_timeout, action_of, settle_job,
  after_pop, turn,
}

delete-free :
    (id : ℕ) (gs : List Guard) → any_eq id (guarded gs) ≡ false → delete (holds id) gs ≡ gs
unfolding delete
delete-free id [] h = refl
delete-free id (g ∷ gs) h =
    let other : (g.job.id == id) ≡ false = ground (arith, h) in
    rw other (ap (λ xs. g ∷ xs) (delete-free id gs (ground (arith, h))))

held-mine : (g : Guard) (gs : List Guard) → held g.job.id (g ∷ gs) ≡ some g
unfolding held
held-mine g gs = let mine : (g.job.id == g.job.id) ≡ true = ground arith in rw mine

delete-mine :
    (g : Guard) (gs : List Guard)
    → any_eq g.job.id (guarded gs) ≡ false
    → delete (holds g.job.id) (g ∷ gs) ≡ gs
unfolding delete
delete-mine g gs free =
    let mine : (g.job.id == g.job.id) ≡ true = ground arith in
    rw mine (delete-free g.job.id gs free)

-- The guard of the job just popped acts on the rows and leaves the guards before.
consume-fresh :
    (action : Action) (g : Guard) (q : PgQueue)
    → any_eq g.job.id (guarded q.guards) ≡ false
    → consume g.job.id action (record q { guards = g ∷ q.guards })
      ≡ record q { rows = acted g.job.updated_at g.job.id action q.rows }
unfolding consume
consume-fresh action g q free =
    ap
      (λ (o : Option Guard). elim o as (λ _. PgQueue) [
        | none ↦ record q { guards = g ∷ q.guards }
        | some k ↦ record q {
          rows = acted k.job.updated_at g.job.id action q.rows;
          guards = delete (holds g.job.id) (g ∷ q.guards);
        }
      ])
      (held-mine g q.guards)
    ∙ ap (λ gs. record q { rows = acted g.job.updated_at g.job.id action q.rows; guards = gs })
        (delete-mine g q.guards free)

abbrev pub started : ℕ → Job → Job
started now j = record j { status = running; updated_at = now }

-- The row of a job that failed once more, to run again at a time unless that was its last attempt.
abbrev pub failed_once : (now at : ℕ) → Job → Job
failed_once now at j =
    if ltb (j.attempt_count + 1) j.max_attempts
    then record j {
      status = queued;
      updated_at = now;
      attempt_count = j.attempt_count + 1;
      scheduled_for = at;
    }
    else record j { status = failed; updated_at = now; attempt_count = j.attempt_count + 1 }

abbrev pub deferred_to : (now at : ℕ) → Job → Job
deferred_to now at j = record j { status = queued; updated_at = now; scheduled_for = at }

-- What the table is after the run of a job, by what the run came to: a job that is done or failed
-- for good leaves it, one that failed otherwise or ran out of time has one attempt more and
-- waits, and one that is deferred waits with its attempts as they were.
unfoldable pub rows_after : (now clock : ℕ) → Job → Option JobOutcome → List Job → List Job
unfolding calculate_backoff_delay delete update
rows_after now clock j (some done) rows = delete (has_job_id j.id) rows
rows_after now clock j (some fatal) rows = delete (has_job_id j.id) rows
rows_after now clock j (some (retryable base_delay)) rows =
    let at = clock + calculate_backoff_delay base_delay j.attempt_count in
    update (has_job_id j.id) (failed_once now at) rows
rows_after now clock j (some (deferred delay)) rows =
    update (has_job_id j.id) (deferred_to now (clock + delay)) rows
rows_after now clock j none rows =
    let at = clock + calculate_backoff_delay (30 * second) j.attempt_count in
    update (has_job_id j.id) (failed_once now at) rows

failed_once-requeued : (now at : ℕ) (j : Job) → requeued_row now at true j ≡ failed_once now at j
unfolding requeued_row
failed_once-requeued now at j = elim (Bool-cases (ltb (j.attempt_count + 1) j.max_attempts)) [
  | inl y ↦
      let more : leb j.max_attempts (j.attempt_count + 1) ≡ false = ground (arith, y) in
      rw (y, more) refl
  | inr n ↦
      let last : leb j.max_attempts (j.attempt_count + 1) ≡ true = ground (arith, n) in
      rw (n, last) refl
]

deferred_to-requeued : (now at : ℕ) (j : Job) → requeued_row now at false j ≡ deferred_to now at j
unfolding requeued_row
deferred_to-requeued now at j =
    let same : j.attempt_count + 0 ≡ j.attempt_count = omega arith in
    ap (λ n. record (deferred_to now at j) { attempt_count = n }) same

-- The action of an outcome does to the rows what the outcome stands for.
acted-rows_after :
    (now clock : ℕ) (j : Job) (outcome : Option JobOutcome) (rows : List Job)
    → acted now j.id (action_of clock j.attempt_count (run_job_with_timeout outcome)) rows
      ≡ rows_after now clock j outcome rows
unfolding acted action_of rows_after requeue
acted-rows_after now clock j none rows = λ i.
    update (has_job_id j.id)
      (λ r.
        failed_once-requeued now (clock + calculate_backoff_delay (30 * second) j.attempt_count) r
          i)
      rows
acted-rows_after now clock j (some done) rows = refl
acted-rows_after now clock j (some fatal) rows = refl
acted-rows_after now clock j (some (retryable base_delay)) rows = λ i.
    update (has_job_id j.id)
      (λ r.
        failed_once-requeued now (clock + calculate_backoff_delay base_delay j.attempt_count) r i)
      rows
acted-rows_after now clock j (some (deferred delay)) rows =
    λ i. update (has_job_id j.id) (λ r. deferred_to-requeued now (clock + delay) r i) rows

-- Nothing to serve: no row is queued, due and free, or the next one does not decode.
abbrev pub NothingToServe : (String → Bool) → ℕ → PgQueue → Type 0
NothingToServe decodes now q =
    All (Unready now (guarded q.guards)) q.rows
    ⊎ ((j : Job) × IsNext now q j × (decodes j.descriptor ≡ false))

-- The next row was run, set running, and the table is what the outcome stands for.
abbrev pub Served : (Job → Option JobOutcome) → (now clock : ℕ) → PgQueue → Job → PgQueue → Type 0
unfolding rows_after
Served process_job now clock q j q' =
    IsNext now q j
    × (q' ≡ record q { rows = rows_after now clock j (process_job (started now j)) q.rows })

module _ (decodes : String → Bool) (process_job : Job → Option JobOutcome) (now clock : ℕ)
    (q : PgQueue) where
  -- The guard of the job taken acts on the rows.
  settled :
      (j : Job)
      → any_eq j.id (guarded q.guards) ≡ false
      → after_pop decodes process_job clock true (taken now q j)
        ≡ record q { rows = rows_after now clock j (process_job (started now j)) q.rows }
  unfolding after_pop settle_job
  settled j free =
      let outcome = process_job (started now j) in
      consume-fresh (action_of clock j.attempt_count (run_job_with_timeout outcome))
        (guard_of now j) q free
      ∙ ap (λ rows. record q { rows = rows }) (acted-rows_after now clock j outcome q.rows)

-- A turn whose transaction commits serves the next job, the first of the rows that are queued, due
-- and free: its row leaves when the job is done or failed for good, waits with one attempt more, or
-- is failed at its limit, when it failed otherwise or ran out of time, and waits with its attempts
-- as they were when it is deferred; nothing else changes, and the job's guard does not stay open.
-- Only when there is no such row, or the next one does not decode, it leaves the queue alone.
pub turn-Served :
    (decodes : String → Bool) (process_job : Job → Option JobOutcome) (now clock : ℕ) (q : PgQueue)
    → ((turn decodes process_job now clock true q ≡ q) × NothingToServe decodes now q)
      ⊎ ((j : Job) × Served process_job now clock q j (turn decodes process_job now clock true q))
unfolding turn after_pop Served
turn-Served decodes process_job now clock q = go (pop-Ends decodes now q)
  where
    go :
        Ends decodes now q (pop decodes now q)
        → ((turn decodes process_job now clock true q ≡ q) × NothingToServe decodes now q)
          ⊎ ((j : Job) × Served process_job now clock q j
                (turn decodes process_job now clock true q))
    go (inl (idle, e)) = inl (ap (after_pop decodes process_job clock true) e, inl idle)
    go (inr (inl (j, next, bad, e))) =
        inl (ap (after_pop decodes process_job clock true) e, inr (j, next, bad))
    go (inr (inr (j, next, e))) =
        let free = any_eq-NotIn j.id (guarded q.guards) next.1.2 in
        inr (
          j,
          (
            next,
            ap (after_pop decodes process_job clock true) e
                ∙ settled decodes process_job now clock q j free,
          ),
        )
