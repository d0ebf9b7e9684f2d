-- ===== src/Queue/Sound.antt =====
-- When the rows and guards of the job queue agree (dipper-pgmq/src/postgres.rs), and what the
-- statements on one job keep of it.
use mathlib.Core.Path.{subst}
use dipper.Prelude.{
  ℕ, ◌+◌, ◌≤◌, ◌<◌, ◌≡◌, sym, ◌∙◌, Bool, true, false, not, ◌&&◌, List, [], ◌∷◌, none, some, leb,
  arith, inl, inr, ◌==◌, if◌then◌else◌, any_eq, Distinct, All, Bool-cases, update, delete, ==_iff,
}
use dipper.Queue.Jobs.{JobStatus, queued, running, failed, is_queued, Job}
use dipper.Queue.Store.{
  Guard, PgQueue, has_job_id, guarded, requeued_row, requeue, held, Event, push_job, pop_job,
  consume_guard, drop_job, clear_all,
}
use dipper.Queue.Ids.{job_ids, drop_id, any_eq-drop_id}

-- Counted below its limit while it is queued, and at its limit once it failed for good. A row is
-- never running: that status stays inside the transaction of a guard.
abbrev pub Agrees : JobStatus → ℕ → ℕ → Type 0
Agrees queued count limit = count < limit
Agrees running count limit = ⊥
Agrees failed count limit = count ≡ limit

abbrev pub i32_max : ℕ
i32_max = 2147483647

pub record RowIsSound (ids : List ℕ) (j : Job) : Type 0 where
  pub limit : j.max_attempts ≤ i32_max
  pub attempts : Agrees j.status j.attempt_count j.max_attempts
  pub held_queued : (any_eq j.id ids && not (is_queued j.status)) ≡ false

abbrev pub LimitIsValid : ℕ → Type 0
LimitIsValid n = (1 ≤ n) × (n ≤ i32_max)

abbrev pub EventIsValid : Event → Type 0
EventIsValid (push_job id b) = elim b.builder_max_attempts [
  | none ↦ Unit {0}
  | some n ↦ LimitIsValid n
]
EventIsValid pop_job = Unit {0}
EventIsValid (consume_guard id action) = Unit {0}
EventIsValid (drop_job id) = Unit {0}
EventIsValid clear_all = Unit {0}

pub record QueueIsSound (q : PgQueue) : Type 0 where
  pub config : LimitIsValid q.max_attempts
  pub key : Distinct (job_ids q.rows)
  pub one_guard : Distinct (guarded q.guards)
  pub on_record : All (λ i. any_eq i (job_ids q.rows) ≡ true) (guarded q.guards)
  pub sound : All (RowIsSound (guarded q.guards)) q.rows

Agrees-requeued :
    (count : Bool) (status : JobStatus) (attempts limit : ℕ)
    → is_queued status ≡ true
    → Agrees status attempts limit
    → Agrees
        (if (if count then 1 else 0) == 1 && leb limit (attempts + 1) then failed else queued)
        (attempts + (if count then 1 else 0))
        limit
Agrees-requeued true queued attempts limit e a = elim (Bool-cases (leb limit (attempts + 1))) [
  | inl y ↦ rw y (ground (arith, a))
  | inr n ↦ rw n (ground (arith, a))
]
Agrees-requeued false queued attempts limit e a = omega (arith, a)
Agrees-requeued count running attempts limit e a = absurd a
Agrees-requeued count failed attempts limit e a = cc

-- A row away from the lists of held ids.
module _ (id : ℕ) (ids : List ℕ) where
  RowIsSound-drop_id : (j : Job) → RowIsSound ids j → RowIsSound (drop_id id ids) j
  RowIsSound-drop_id j s = record {
    limit = s.limit;
    attempts = s.attempts;
    held_queued = rw (any_eq-drop_id j.id id ids) (ground (arith, s.held_queued));
  }

  pub rows-drop_id :
      (rows : List Job) → All (RowIsSound ids) rows → All (RowIsSound (drop_id id ids)) rows
  rows-drop_id [] s = tt
  rows-drop_id (j ∷ rows) s = (RowIsSound-drop_id j s.0, rows-drop_id rows s.1)

  pub rows-delete :
      (rows : List Job)
      → All (RowIsSound ids) rows
      → All (RowIsSound (drop_id id ids)) (delete (has_job_id id) rows)
  unfolding delete
  rows-delete [] s = tt
  rows-delete (j ∷ rows) s = elim (Bool-cases (j.id == id)) [
    | inl e ↦ rw e (rows-delete rows s.1)
    | inr e ↦ rw e (RowIsSound-drop_id j s.0, rows-delete rows s.1)
  ]

  module _ (now at : ℕ) (count : Bool) (held_id : any_eq id ids ≡ true) where
    requeued_row-IsSound :
        (j : Job)
        → RowIsSound ids j
        → (j.id == id) ≡ true
        → RowIsSound (drop_id id ids) (requeued_row now at count j)
    unfolding requeued_row
    requeued_row-IsSound j s e =
        let same : any_eq j.id ids ≡ true =
          subst (λ i. any_eq i ids ≡ true) (sym ((==_iff j.id id).0 e)) held_id in
        let waiting : is_queued j.status ≡ true = ground (arith, s.held_queued, same) in
        record {
          limit = s.limit;
          attempts =
              Agrees-requeued count j.status j.attempt_count j.max_attempts waiting s.attempts;
          held_queued = rw (any_eq-drop_id j.id id ids, e);
        }

    pub rows-requeue :
        (rows : List Job)
        → All (RowIsSound ids) rows
        → All (RowIsSound (drop_id id ids)) (requeue now id at count rows)
    unfolding requeue update
    rows-requeue [] s = tt
    rows-requeue (j ∷ rows) s = elim (Bool-cases (j.id == id)) [
      | inl e ↦ rw e (requeued_row-IsSound j s.0 e, rows-requeue rows s.1)
      | inr e ↦ rw e (RowIsSound-drop_id j s.0, rows-requeue rows s.1)
    ]

  pub All-drop_id :
      (js : List ℕ) (xs : List ℕ)
      → All (λ i. any_eq i js ≡ true) xs
      → All (λ i. any_eq i (drop_id id js) ≡ true) (drop_id id xs)
  All-drop_id js [] s = tt
  All-drop_id js (x ∷ xs) s = elim (Bool-cases (x == id)) [
    | inl e ↦ rw e (All-drop_id js xs s.1)
    | inr e ↦ rw e (any_eq-drop_id x id js ∙ ground (arith, s.0), All-drop_id js xs s.1)
  ]

  pub weaken_drop_id :
      (js : List ℕ) (xs : List ℕ)
      → All (λ i. any_eq i js ≡ true) xs
      → All (λ i. any_eq i js ≡ true) (drop_id id xs)
  weaken_drop_id js [] s = tt
  weaken_drop_id js (x ∷ xs) s = elim (Bool-cases (x == id)) [
    | inl e ↦ rw e (weaken_drop_id js xs s.1)
    | inr e ↦ rw e (s.0, weaken_drop_id js xs s.1)
  ]

pub weaken_cons :
    (id : ℕ) (js xs : List ℕ)
    → All (λ i. any_eq i js ≡ true) xs
    → All (λ i. any_eq i (id ∷ js) ≡ true) xs
weaken_cons id js [] s = tt
weaken_cons id js (x ∷ xs) s = (ground (arith, s.0), weaken_cons id js xs s.1)

pub held-any_eq :
    (id : ℕ) (gs : List Guard) {g : Guard} → held id gs ≡ some g → any_eq id (guarded gs) ≡ true
unfolding held
held-any_eq id [] e = cc
held-any_eq id (g ∷ gs) {g = g'} e = elim (Bool-cases (g.job.id == id)) [
  | inl y ↦ ground (arith, y)
  | inr n ↦ rw (held-any_eq id gs {g = g'} (rw n at e)) (ground arith)
]
