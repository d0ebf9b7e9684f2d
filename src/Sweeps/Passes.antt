-- ===== src/Sweeps/Passes.antt =====
-- What one wake of the reassignment (bin/dipper-service/src/network/service/reassignment.rs) queues.
use mathlib.Core.Path.{subst}
use dipper.Prelude.{
  ℕ, zero, suc, ◌≡◌, ◌≢◌, refl, sym, ap, Bool, true, false, List, [], ◌∷◌, map, Option, none, some,
  inl, inr, Bool-cases, leb, ◌==◌, if◌then◌else◌, any_eq, select, insert_by, order_by, NotIn,
  Distinct, NotIn-any_eq, All, ◌++◌,
}
use dipper.Registry.Types.{IndexingRequest, Registry}
use dipper.Registry.Declined.{Lookbacks}
use dipper.Registry.Queries.{
  get_open_indexing_requests_for_reassessment, get_short_open_indexing_requests,
}
use dipper.Sweeps.Replace.{Reassessment, freed_job}
use dipper.Sweeps.Reassignment.{
  ChainPool, is_fillable, collect_fillable, not_in, short_requests_with_a_free_indexer,
  max_failed_pushes_in_a_row, Pass, queue_reassessments, full_pass, top_up_pass, after_full,
  already_queued, run_due_passes,
}

abbrev pub ids_of : List IndexingRequest → List ℕ
ids_of = map (λ (r : IndexingRequest). r.id)

abbrev pub requests_of : List Reassessment → List ℕ
requests_of = map (λ (j : Reassessment). j.request_id)

-- No two of the requests, and none of them among `ids`.
abbrev pub Fresh : List ℕ → List IndexingRequest → Type 0
Fresh ids rs = Distinct (ids_of rs) × All (λ (r : IndexingRequest). NotIn r.id ids) rs

module _ (p : IndexingRequest → Bool) where
  NotIn-select :
      (id : ℕ) (rs : List IndexingRequest) → NotIn id (ids_of rs) → NotIn id (ids_of (select p rs))
  unfolding select
  NotIn-select id [] h = tt
  NotIn-select id (r ∷ rs) (h, rest) = elim (Bool-cases (p r)) [
    | inl y ↦ rw y (h, NotIn-select id rs rest)
    | inr n ↦ rw n (NotIn-select id rs rest)
  ]

  Distinct-select :
      (rs : List IndexingRequest) → Distinct (ids_of rs) → Distinct (ids_of (select p rs))
  unfolding select
  Distinct-select [] h = tt
  Distinct-select (r ∷ rs) (h, rest) = elim (Bool-cases (p r)) [
    | inl y ↦ rw y (NotIn-select r.id rs h, Distinct-select rs rest)
    | inr n ↦ rw n (Distinct-select rs rest)
  ]

  NotIn-collect :
      (id batch found : ℕ) (rs : List IndexingRequest)
      → NotIn id (ids_of rs)
      → NotIn id (ids_of (collect_fillable p batch found rs))
  unfolding collect_fillable
  NotIn-collect id batch found [] h = tt
  NotIn-collect id batch found (r ∷ rs) (h, rest) = elim (Bool-cases (p r)) [
    | inr n ↦ rw n (NotIn-collect id batch found rs rest)
    | inl y ↦ elim (Bool-cases (suc found == batch)) [
      | inl e ↦ rw (y, e) (h, tt)
      | inr e ↦ rw (y, e) (h, NotIn-collect id batch (suc found) rs rest)
    ]
  ]

  Distinct-collect :
      (batch found : ℕ) (rs : List IndexingRequest)
      → Distinct (ids_of rs)
      → Distinct (ids_of (collect_fillable p batch found rs))
  unfolding collect_fillable
  Distinct-collect batch found [] h = tt
  Distinct-collect batch found (r ∷ rs) (h, rest) = elim (Bool-cases (p r)) [
    | inr n ↦ rw n (Distinct-collect batch found rs rest)
    | inl y ↦ elim (Bool-cases (suc found == batch)) [
      | inl e ↦ rw (y, e) (tt, tt)
      | inr e ↦
          rw (y, e)
            (NotIn-collect r.id batch (suc found) rs h, Distinct-collect batch (suc found) rs rest)
    ]
  ]

  All-collect :
      (P : IndexingRequest → Type 0) (batch found : ℕ) (rs : List IndexingRequest)
      → All P rs
      → All P (collect_fillable p batch found rs)
  unfolding collect_fillable
  All-collect P batch found [] h = tt
  All-collect P batch found (r ∷ rs) (h, rest) = elim (Bool-cases (p r)) [
    | inr n ↦ rw n (All-collect P batch found rs rest)
    | inl y ↦ elim (Bool-cases (suc found == batch)) [
      | inl e ↦ rw (y, e) (h, tt)
      | inr e ↦ rw (y, e) (h, All-collect P batch (suc found) rs rest)
    ]
  ]

module _ (key : IndexingRequest → ℕ) where
  NotIn-insert :
      (id : ℕ) (x : IndexingRequest) (rs : List IndexingRequest)
      → id ≢ x.id
      → NotIn id (ids_of rs)
      → NotIn id (ids_of (insert_by key x rs))
  unfolding insert_by
  NotIn-insert id x [] ne h = (ne, tt)
  NotIn-insert id x (r ∷ rs) ne (h, rest) = elim (Bool-cases (leb (key x) (key r))) [
    | inl y ↦ rw y (ne, (h, rest))
    | inr n ↦ rw n (h, NotIn-insert id x rs ne rest)
  ]

  Distinct-insert :
      (x : IndexingRequest) (rs : List IndexingRequest)
      → NotIn x.id (ids_of rs)
      → Distinct (ids_of rs)
      → Distinct (ids_of (insert_by key x rs))
  unfolding insert_by
  Distinct-insert x [] n d = (tt, tt)
  Distinct-insert x (r ∷ rs) (ne, n) (m, d) = elim (Bool-cases (leb (key x) (key r))) [
    | inl y ↦ rw y ((ne, n), (m, d))
    | inr k ↦ rw k (NotIn-insert r.id x rs (λ e. ne (sym e)) m, Distinct-insert x rs n d)
  ]

  NotIn-order :
      (id : ℕ) (rs : List IndexingRequest)
      → NotIn id (ids_of rs)
      → NotIn id (ids_of (order_by key rs))
  unfolding order_by
  NotIn-order id [] h = tt
  NotIn-order id (r ∷ rs) (h, rest) = NotIn-insert id r (order_by key rs) h (NotIn-order id rs rest)

  Distinct-order :
      (rs : List IndexingRequest) → Distinct (ids_of rs) → Distinct (ids_of (order_by key rs))
  unfolding order_by
  Distinct-order [] h = tt
  Distinct-order (r ∷ rs) (n, d) =
      Distinct-insert r (order_by key rs) (NotIn-order r.id rs n) (Distinct-order rs d)

not_in-All :
    (skip : List ℕ) (rs : List IndexingRequest)
    → All (λ (r : IndexingRequest). NotIn r.id skip) (select (not_in skip) rs)
unfolding select
not_in-All skip [] = tt
not_in-All skip (r ∷ rs) = elim (Bool-cases (any_eq r.id skip)) [
  | inl y ↦ rw y (not_in-All skip rs)
  | inr n ↦ rw n (NotIn-any_eq r.id skip n, not_in-All skip rs)
]

-- The jobs of a wake so far: for distinct requests, none of them queued before it.
abbrev pub OnceEach : List ℕ → List Reassessment → Type 0
OnceEach already jobs =
    Distinct (requests_of jobs) × All (λ (j : Reassessment). NotIn j.request_id already) jobs

NotIn-more :
    (id : ℕ) (ids : List ℕ) (rs : List IndexingRequest)
    → NotIn id (ids_of rs)
    → All (λ (r : IndexingRequest). NotIn r.id ids) rs
    → All (λ (r : IndexingRequest). NotIn r.id (id ∷ ids)) rs
NotIn-more id ids [] n h = tt
NotIn-more id ids (r ∷ rs) (ne, n) (h, hs) = ((λ e. ne (sym e), h), NotIn-more id ids rs n hs)

NotIn-parts : (id : ℕ) (xs ys : List ℕ) → NotIn id (xs ++ ys) → NotIn id xs × NotIn id ys
NotIn-parts id [] ys h = (tt, h)
NotIn-parts id (x ∷ xs) ys (ne, h) = let (a, b) = NotIn-parts id xs ys h in ((ne, a), b)

All-parts :
    (xs ys : List ℕ) (rs : List IndexingRequest)
    → All (λ (r : IndexingRequest). NotIn r.id (xs ++ ys)) rs
    → All (λ (r : IndexingRequest). NotIn r.id xs) rs
      × All (λ (r : IndexingRequest). NotIn r.id ys) rs
All-parts xs ys [] h = (tt, tt)
All-parts xs ys (r ∷ rs) (h, hs) =
    let (a, b) = NotIn-parts r.id xs ys h in
    let (left, right) = All-parts xs ys rs hs in ((a, left), (b, right))

NotIn-nil : (rs : List IndexingRequest) → All (λ (r : IndexingRequest). NotIn r.id []) rs
NotIn-nil [] = tt
NotIn-nil (r ∷ rs) = (tt, NotIn-nil rs)

module _ (already : List ℕ) (push_fault : ℕ → Bool) where
  queue-OnceEach :
      (budget failed : ℕ) (queued : List ℕ) (rs : List IndexingRequest) (jobs : List Reassessment)
      → Fresh already rs
      → All (λ (r : IndexingRequest). NotIn r.id (requests_of jobs)) rs
      → OnceEach already jobs
      → OnceEach already (queue_reassessments push_fault budget failed queued rs jobs).1
  unfolding queue_reassessments
  queue-OnceEach budget failed queued [] jobs f n once = once
  queue-OnceEach zero failed queued (r ∷ rs) jobs f n once = once
  queue-OnceEach (suc budget) failed queued (r ∷ rs) jobs ((apart, d), (new, f)) (m, n) (dj, aj) =
      elim (Bool-cases (push_fault r.id)) [
        | inr free ↦ rw free (
            queue-OnceEach budget 0 (r.id ∷ queued) rs (freed_job r ∷ jobs) (d, f)
              (NotIn-more r.id (requests_of jobs) rs apart n) ((m, dj), (new, aj)))
        | inl y ↦ elim (Bool-cases (suc failed == max_failed_pushes_in_a_row)) [
          | inl e ↦ rw (y, e) (dj, aj)
          | inr e ↦ rw (y, e) (queue-OnceEach budget (suc failed) queued rs jobs (d, f) n (dj, aj))
        ]
      ]

  -- A pass that starts with no job says which requests it queued.
  queue-ids :
      (budget failed : ℕ) (queued ids : List ℕ) (rs : List IndexingRequest)
      (jobs : List Reassessment)
      → queued ≡ requests_of jobs
      → (queue_reassessments push_fault budget failed queued rs jobs).0 ≡ some ids
      → ids ≡ requests_of (queue_reassessments push_fault budget failed queued rs jobs).1
  unfolding queue_reassessments
  queue-ids budget failed queued ids [] jobs q e = cc (q, e)
  queue-ids zero failed queued ids (r ∷ rs) jobs q e = absurd (cc e)
  queue-ids (suc budget) failed queued ids (r ∷ rs) jobs q e = elim (Bool-cases (push_fault r.id)) [
    | inr free ↦ rw free (
        queue-ids budget 0 (r.id ∷ queued) ids rs (freed_job r ∷ jobs) (ap (λ xs. r.id ∷ xs) q)
          (rw free at e))
    | inl y ↦ elim (Bool-cases (suc failed == max_failed_pushes_in_a_row)) [
      | inl k ↦ rw (y, k) (cc (q, rw (y, k) at e))
      | inr k ↦ rw (y, k) (queue-ids budget (suc failed) queued ids rs jobs q (rw (y, k) at e))
    ]
  ]

module _ (now : ℕ) (lookbacks : Lookbacks) (denylist : List ℕ) (chains : ℕ → Option ChainPool)
    (batch min_age_seconds : ℕ) (reg : Registry) where
  -- The two passes as the wake runs them; `read_fault` is a top-up whose reads fail.
  abbrev pub full_of : Bool → (ℕ → Bool) → ℕ → List ℕ → List Reassessment → Pass
  full_of list_fault push_fault budget skip jobs =
      full_pass now list_fault push_fault budget min_age_seconds skip reg jobs

  abbrev pub top_up_of : Bool → (ℕ → Bool) → ℕ → List ℕ → List Reassessment → Pass
  top_up_of read_fault push_fault budget skip jobs =
      top_up_pass
        (λ skip.
          if read_fault
          then none
          else some
              (short_requests_with_a_free_indexer now lookbacks denylist chains batch skip reg))
        push_fault budget skip jobs

module _ (now : ℕ) (lookbacks : Lookbacks) (denylist : List ℕ) (chains : ℕ → Option ChainPool)
    (batch min_age_seconds : ℕ) (reg : Registry) (unique : Distinct (ids_of reg.requests)) where
  full_listed :
      (skip : List ℕ)
      → Fresh skip (
          select
            (not_in skip)
            (get_open_indexing_requests_for_reassessment now min_age_seconds 0 reg.requests))
  unfolding get_open_indexing_requests_for_reassessment
  full_listed skip = (
    Distinct-select (not_in skip) _
        (Distinct-order (λ r. r.updated_at) _ (Distinct-select _ reg.requests unique)),
    not_in-All skip _,
  )

  short_listed :
      (skip : List ℕ)
      → Fresh skip (short_requests_with_a_free_indexer now lookbacks denylist chains batch skip reg)
  unfolding short_requests_with_a_free_indexer get_short_open_indexing_requests
  short_listed skip =
      let fillable = is_fillable now lookbacks denylist chains reg in
      let listed = select (not_in skip) (get_short_open_indexing_requests 0 reg.requests) in
      (
        Distinct-collect fillable batch 0 listed (
            Distinct-select (not_in skip) _
              (Distinct-order (λ r. r.updated_at) _ (Distinct-select _ reg.requests unique))),
        All-collect fillable (λ r. NotIn r.id skip) batch 0 listed (not_in-All skip _),
      )

  full-OnceEach :
      (list_fault : Bool) (push_fault : ℕ → Bool) (budget : ℕ) (already : List ℕ)
      → OnceEach already
          (full_of now lookbacks denylist chains batch min_age_seconds reg list_fault push_fault
            budget already []).1
  unfolding full_pass
  full-OnceEach true push_fault budget already = (tt, tt)
  full-OnceEach false push_fault budget already =
      queue-OnceEach already push_fault budget 0 [] _ [] (full_listed already) (NotIn-nil _)
        (tt, tt)

  full-ids :
      (list_fault : Bool) (push_fault : ℕ → Bool) (budget : ℕ) (already ids : List ℕ)
      → (full_of now lookbacks denylist chains batch min_age_seconds reg list_fault push_fault
          budget already []).0
        ≡ some ids
      → ids
        ≡ requests_of
            (full_of now lookbacks denylist chains batch min_age_seconds reg list_fault push_fault
              budget already []).1
  unfolding full_pass
  full-ids true push_fault budget already ids e = cc e
  full-ids false push_fault budget already ids e =
      queue-ids already push_fault budget 0 [] ids _ [] refl e

  top_up-OnceEach :
      (read_fault : Bool) (push_fault : ℕ → Bool) (budget : ℕ) (already ids : List ℕ)
      (jobs : List Reassessment)
      → ids ≡ requests_of jobs
      → OnceEach already jobs
      → OnceEach already
          (top_up_of now lookbacks denylist chains batch min_age_seconds reg read_fault push_fault
            budget
            (ids ++ already)
            jobs).1
  unfolding top_up_pass
  top_up-OnceEach true push_fault budget already ids jobs e once = once
  top_up-OnceEach false push_fault budget already ids jobs e once =
      let (d, f) = short_listed (ids ++ already) in
      let (mine, earlier) = All-parts ids already _ f in
      queue-OnceEach already push_fault budget 0 [] _ jobs (d, earlier)
        (subst
          (λ xs.
            All (λ (r : IndexingRequest). NotIn r.id xs)
              (short_requests_with_a_free_indexer now lookbacks denylist chains batch
                (ids ++ already) reg))
          e mine)
        once

  after_full-OnceEach :
      (top_up_due read_fault : Bool) (push_fault : ℕ → Bool) (budget : ℕ) (already : List ℕ)
      (pass : Pass)
      → OnceEach already pass.1
      → ((ids : List ℕ) → pass.0 ≡ some ids → ids ≡ requests_of pass.1)
      → OnceEach already (
          after_full top_up_due
            (top_up_of now lookbacks denylist chains batch min_age_seconds reg read_fault push_fault
              budget)
            already
            pass)
  after_full-OnceEach top_up_due read_fault push_fault budget already (none, jobs) once ids = once
  after_full-OnceEach false read_fault push_fault budget already (some queued, jobs) once ids = once
  after_full-OnceEach true read_fault push_fault budget already (some queued, jobs) once ids =
      top_up-OnceEach read_fault push_fault budget already queued jobs (ids queued refl) once

  due-OnceEach :
      (full_due top_up_due list_fault read_fault : Bool) (push_fault : ℕ → Bool)
      (budget budget' : ℕ) (listed : Option (List ℕ))
      → OnceEach (already_queued listed) (
          run_due_passes full_due top_up_due listed
            (full_of now lookbacks denylist chains batch min_age_seconds reg list_fault push_fault
              budget)
            (top_up_of now lookbacks denylist chains batch min_age_seconds reg read_fault push_fault
              budget')
            [])
  unfolding run_due_passes
  due-OnceEach true top_up_due list_fault read_fault push_fault budget budget' listed =
      let already = already_queued listed in
      after_full-OnceEach top_up_due read_fault push_fault budget' already _
        (full-OnceEach list_fault push_fault budget already)
        (full-ids list_fault push_fault budget already)
  due-OnceEach false top_up_due list_fault read_fault push_fault budget budget' listed =
      after_full-OnceEach top_up_due read_fault push_fault budget' (already_queued listed)
        (some [], []) (tt, tt) (λ ids e. cc e)

-- The jobs of a wake, by what its listing of the queue showed: for distinct requests, and none of
-- them listed; `none` is a queue that could not be listed.
abbrev pub QueuedOnce : Option (List ℕ) → List Reassessment → Type 0
QueuedOnce none jobs = Distinct (requests_of jobs)
QueuedOnce (some ids) jobs = OnceEach ids jobs

-- In one wake of the reassignment, whichever passes are due, whichever reads of the registry and
-- pushes fail and wherever it is stopped, no request is queued twice; and where the wake could list
-- the reassessments on the queue, none of those listed is queued again. Where it could not, one
-- that was on the queue before may be.
pub run_due_passes-OnceEach :
    (now : ℕ) (lookbacks : Lookbacks) (denylist : List ℕ) (chains : ℕ → Option ChainPool)
    (batch min_age_seconds : ℕ) (reg : Registry) (full_due top_up_due list_fault read_fault : Bool)
    (push_fault : ℕ → Bool) (budget budget' : ℕ) (listed : Option (List ℕ))
    → Distinct (ids_of reg.requests)
    → QueuedOnce listed (
        run_due_passes full_due top_up_due listed
          (full_of now lookbacks denylist chains batch min_age_seconds reg list_fault push_fault
            budget)
          (top_up_of now lookbacks denylist chains batch min_age_seconds reg read_fault push_fault
            budget')
          [])
unfolding already_queued
run_due_passes-OnceEach now lookbacks denylist chains batch min_age_seconds reg full_due top_up_due
      list_fault read_fault push_fault budget budget' none unique =
    (due-OnceEach now lookbacks denylist chains batch min_age_seconds reg unique full_due top_up_due
      list_fault read_fault push_fault budget budget' none).0
run_due_passes-OnceEach now lookbacks denylist chains batch min_age_seconds reg full_due top_up_due
      list_fault read_fault push_fault budget budget' (some ids) unique =
    due-OnceEach now lookbacks denylist chains batch min_age_seconds reg unique full_due top_up_due
      list_fault read_fault push_fault budget budget' (some ids)
