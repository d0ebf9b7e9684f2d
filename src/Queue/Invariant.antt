-- ===== src/Queue/Invariant.antt =====
-- What every history of the job queue keeps (dipper-pgmq/src): no two open guards hold one job,
-- every held job is on record and queued, and the attempts of a row agree with its status.
use mathlib.Core.Path.{subst}
use dipper.Prelude.{
  ℕ, ◌≡◌, refl, sym, ◌∙◌, Bool, true, false, not, ◌&&◌, List, [], ◌∷◌, Option, none, some, String,
  arith, inl, inr, ◌==◌, if◌then◌else◌, any_eq, Distinct, All, Bool-cases, delete, exists, is_none,
  NotIn-any_eq,
}
use dipper.Queue.Jobs.{running, Job, JobBuilder}
use dipper.Queue.Store.{
  Guard, PgQueue, has_job_id, guarded, inserted_row, push, is_ready, next_job, Popped, empty,
  undecodable, popped, pop, requeue, Action, remove, mark_as_failed, reschedule, acted, holds, held,
  consume, drop_guard, clear, Event, push_job, pop_job, consume_guard, drop_job, clear_all, step,
  run_queue,
}
use dipper.Queue.Ids.{
  job_ids, drop_id, Distinct-drop_id, guarded-delete, job_ids-delete, job_ids-requeue,
  exists-job_ids, exists-All,
}
use dipper.Queue.Picks.{Leads, next_job-Leads}
use dipper.Queue.Sound.{
  All-drop_id, EventIsValid, LimitIsValid, QueueIsSound, RowIsSound, held-any_eq, rows-delete,
  rows-drop_id, rows-requeue, weaken_cons, weaken_drop_id,
}

module _ (q : PgQueue) (s : QueueIsSound q) where
  drop-IsSound : (id : ℕ) → QueueIsSound (drop_guard id q)
  unfolding drop_guard
  drop-IsSound id =
      let ids = guarded-delete id q.guards in
      record {
        config = s.config;
        key = s.key;
        one_guard = subst Distinct (sym ids) (Distinct-drop_id id (guarded q.guards) s.one_guard);
        on_record =
            subst (All (λ i. any_eq i (job_ids q.rows) ≡ true)) (sym ids) (
              weaken_drop_id id (guarded q.guards) (job_ids q.rows) (guarded q.guards) s.on_record);
        sound =
            subst (λ is. All (RowIsSound is) q.rows) (sym ids)
              (rows-drop_id id (guarded q.guards) q.rows s.sound);
      }

  requeue-IsSound :
      (now id at : ℕ) (count : Bool)
      → any_eq id (guarded q.guards) ≡ true
      → QueueIsSound
          (record q { rows = requeue now id at count q.rows; guards = delete (holds id) q.guards })
  requeue-IsSound now id at count h =
      let ids = guarded-delete id q.guards in
      let same = job_ids-requeue now id at count q.rows in
      record {
        config = s.config;
        key = subst Distinct (sym same) s.key;
        one_guard = subst Distinct (sym ids) (Distinct-drop_id id (guarded q.guards) s.one_guard);
        on_record =
            subst (λ js. All (λ i. any_eq i js ≡ true) (guarded (delete (holds id) q.guards)))
              (sym same)
              (subst (All (λ i. any_eq i (job_ids q.rows) ≡ true)) (sym ids) (
                weaken_drop_id id (guarded q.guards) (job_ids q.rows) (guarded q.guards)
                  s.on_record));
        sound =
            subst (λ is. All (RowIsSound is) (requeue now id at count q.rows)) (sym ids)
              (rows-requeue id (guarded q.guards) now at count h q.rows s.sound);
      }

  remove-IsSound :
      (id : ℕ)
      → QueueIsSound
          (record q { rows = delete (has_job_id id) q.rows; guards = delete (holds id) q.guards })
  remove-IsSound id =
      let ids = guarded-delete id q.guards in
      let js = job_ids-delete id q.rows in
      record {
        config = s.config;
        key = subst Distinct (sym js) (Distinct-drop_id id (job_ids q.rows) s.key);
        one_guard = subst Distinct (sym ids) (Distinct-drop_id id (guarded q.guards) s.one_guard);
        on_record =
            subst (λ xs. All (λ i. any_eq i xs ≡ true) (guarded (delete (holds id) q.guards)))
              (sym js)
              (subst (All (λ i. any_eq i (drop_id id (job_ids q.rows)) ≡ true)) (sym ids) (
                All-drop_id id (guarded q.guards) (job_ids q.rows) (guarded q.guards) s.on_record));
        sound =
            subst (λ is. All (RowIsSound is) (delete (has_job_id id) q.rows)) (sym ids)
              (rows-delete id (guarded q.guards) q.rows s.sound);
      }

  consume-IsSound : (id : ℕ) (action : Action) → QueueIsSound (consume id action q)
  unfolding consume acted
  consume-IsSound id action = go (held id q.guards) refl action
    where
      go :
          (o : Option Guard)
          → held id q.guards ≡ o
          → (a : Action)
          → QueueIsSound (elim o as (λ _. PgQueue) [
            | none ↦ q
            | some g ↦ record q {
              rows = acted g.job.updated_at id a q.rows;
              guards = delete (holds id) q.guards;
            }
          ])
      go none e a = s
      go (some g) e remove = remove-IsSound id
      go (some g) e (mark_as_failed clock none) =
          requeue-IsSound g.job.updated_at id clock true (held-any_eq id q.guards {g = g} e)
      go (some g) e (mark_as_failed clock (some at)) =
          requeue-IsSound g.job.updated_at id at true (held-any_eq id q.guards {g = g} e)
      go (some g) e (reschedule at) =
          requeue-IsSound g.job.updated_at id at false (held-any_eq id q.guards {g = g} e)

  -- Under the primary key, a row with the id of a ready one is queued.
  ready_rows :
      (now : ℕ) (j : Job)
      → Leads now (guarded q.guards) q.rows j
      → All (RowIsSound (j.id ∷ guarded q.guards)) q.rows
  ready_rows now j l =
      go q.rows s.sound (exists-All j.id (is_ready now (guarded q.guards)) q.rows s.key l.picked)
    where
      go :
          (rows : List Job)
          → All (RowIsSound (guarded q.guards)) rows
          → All (λ r. (r.id == j.id && not (is_ready now (guarded q.guards) r)) ≡ false) rows
          → All (RowIsSound (j.id ∷ guarded q.guards)) rows
      go [] a b = tt
      go (r ∷ rows) a b = (
        record {
          limit = a.0.limit;
          attempts = a.0.attempts;
          held_queued = ground (arith, a.0.held_queued, b.0);
        },
        go rows a.1 b.1,
      )

  pop-IsSound : (decodes : String → Bool) (now : ℕ) → QueueIsSound (pop decodes now q).0
  unfolding pop
  pop-IsSound decodes now = go (next_job now (guarded q.guards) q.rows) refl
    where
      taken :
          (j : Job)
          → Leads now (guarded q.guards) q.rows j
          → QueueIsSound (record q {
            guards = record { job = record j { status = running; updated_at = now } } ∷ q.guards;
          })
      taken j l = record {
        config = s.config;
        key = s.key;
        one_guard = (NotIn-any_eq j.id (guarded q.guards) (ground (arith, l.ready)), s.one_guard);
        on_record = (l.on_record, s.on_record);
        sound = ready_rows now j l;
      }

      go :
          (o : Option Job)
          → next_job now (guarded q.guards) q.rows ≡ o
          → QueueIsSound
              (elim o as (λ _. PgQueue × Popped) [
                | none ↦ (q, empty)
                | some j ↦
                    let guard : Guard = record {
                      job = record j { status = running; updated_at = now };
                    } in
                    if decodes j.descriptor
                    then (record q { guards = guard ∷ q.guards }, popped guard)
                    else (q, undecodable)
              ]).0
      go none e = s
      go (some j) e =
          let l = next_job-Leads now (guarded q.guards) q.rows j e in
          elim (Bool-cases (decodes j.descriptor)) [ inl y ↦ rw y (taken j l) | inr n ↦ rw n s ]

  push-IsSound :
      (now id : ℕ) (b : JobBuilder)
      → EventIsValid (push_job id b)
      → {q' : PgQueue} → push now id b q ≡ some q'
      → QueueIsSound q'
  unfolding push
  push-IsSound now id b v {q'} e = elim (Bool-cases (exists (has_job_id id) q.rows)) [
    | inl taken ↦ absurd (cc (rw taken at e))
    | inr new ↦
        let row = inserted_row now id q.max_attempts b in
        let fresh : any_eq id (job_ids q.rows) ≡ false = sym (exists-job_ids id q.rows) ∙ new in
        let out : record q {
          rows = row ∷ q.rows;
          notified = if is_none b.schedule then id ∷ q.notified else q.notified;
        }
            ≡ q' =
          ground (arith, new) in
        subst QueueIsSound out (record {
          config = s.config;
          key = (NotIn-any_eq id (job_ids q.rows) fresh, s.key);
          one_guard = s.one_guard;
          on_record = weaken_cons id (job_ids q.rows) (guarded q.guards) s.on_record;
          sound = (new_row b.builder_max_attempts v, s.sound);
        })
  ]
    where
      new_row :
          (o : Option ℕ)
          → elim o as (λ _. Type 0) [ none ↦ Unit {0} | some n ↦ LimitIsValid n ]
          → RowIsSound (guarded q.guards) (record (inserted_row now id q.max_attempts b) {
            max_attempts = elim o as (λ _. ℕ) [ none ↦ q.max_attempts | some n ↦ n ];
          })
      new_row none h = record {
        limit = s.config.1;
        attempts = omega (arith, s.config.0);
        held_queued = ground arith;
      }
      new_row (some n) h = record {
        limit = h.1;
        attempts = omega (arith, h.0);
        held_queued = ground arith;
      }

  clear-IsSound : QueueIsSound (clear q)
  unfolding clear
  clear-IsSound = go q.guards refl
    where
      go :
          (gs : List Guard)
          → q.guards ≡ gs
          → QueueIsSound (elim gs as (λ _. PgQueue) [ [] ↦ record q { rows = [] } | g ∷ rest ↦ q ])
      go [] e = record {
        config = s.config;
        key = tt;
        one_guard = s.one_guard;
        on_record = rw e tt;
        sound = tt;
      }
      go (g ∷ rest) e = s

push_or_same-IsSound :
    (q : PgQueue) (o : Option PgQueue)
    → QueueIsSound q
    → ((q' : PgQueue) → o ≡ some q' → QueueIsSound q')
    → QueueIsSound (elim o as (λ _. PgQueue) [ none ↦ q | some q' ↦ q' ])
push_or_same-IsSound q none s f = s
push_or_same-IsSound q (some q') s f = f q' refl

step-IsSound :
    (decodes : String → Bool) (now : ℕ) (e : Event) (q : PgQueue)
    → EventIsValid e
    → QueueIsSound q
    → QueueIsSound (step decodes now e q)
unfolding step
step-IsSound decodes now (push_job id b) q v s =
    push_or_same-IsSound q (push now id b q) s (λ q' p. push-IsSound q s now id b v p)
step-IsSound decodes now pop_job q v s = pop-IsSound q s decodes now
step-IsSound decodes now (consume_guard id action) q v s = consume-IsSound q s id action
step-IsSound decodes now (drop_job id) q v s = drop-IsSound q s id
step-IsSound decodes now clear_all q v s = clear-IsSound q s

-- Through any history of pushes, pops, consumed and dropped guards, with limits of attempts from 1
-- to `i32::MAX`, a sound queue stays sound: ids are distinct, no two open guards hold one job,
-- every held job is on record and queued, and each row is queued below its limit of attempts or
-- failed exactly at it, never running.
pub run_queue-IsSound :
    (decodes : String → Bool) (history : List (ℕ × Event)) (q : PgQueue)
    → All (λ t. EventIsValid t.1) history
    → QueueIsSound q
    → QueueIsSound (run_queue decodes history q)
unfolding run_queue
run_queue-IsSound decodes [] q v s = s
run_queue-IsSound decodes ((now, e) ∷ history) q v s =
    run_queue-IsSound decodes history (step decodes now e q) v.1
      (step-IsSound decodes now e q v.0 s)
