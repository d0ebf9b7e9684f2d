-- ===== src/Sweeps/Reassignment.antt =====
-- bin/dipper-service/src/network/service/reassignment.rs: when the passes run, and what each of them
-- queues; offerable_indexers is of worker/handlers/selection_context.rs. The pool of indexers of a
-- chain is the answer of another service; which pushes fail and where a pass is stopped are
-- arguments. Times are in seconds; `start` and `every` of `next_after` in any one unit.
use dipper.Prelude.{
  ℕ, zero, suc, ◌+◌, ◌-◌, ◌*◌, ◌/◌, ◌%◌, max, Bool, true, false, not, ◌&&◌, ◌||◌, List, [], ◌∷◌,
  map, Option, none, some, ltb, leb, ◌==◌, if◌then◌else◌, any_eq, is_nil, length, select, ◌++◌,
}
use dipper.Registry.Types.{is_cancelling, Agreement, IndexingRequest, Registry}
use dipper.Registry.Transitions.{is_active}
use dipper.Registry.Declined.{Lookbacks, get_declined_indexers_by_deployment}
use dipper.Registry.Queries.{
  get_indexing_agreements_by_deployment_id, get_abandoned_indexers_holding_slots,
  get_open_indexing_requests_for_reassessment, get_short_open_indexing_requests,
}
use dipper.Sweeps.Replace.{Reassessment, freed_job}

-- `now` is a number of seconds from a midnight. The subtraction does not go below 0, since the
-- seconds into the hour are counted only where an hour is waited.
unfoldable pub duration_until_utc_hour : (now target_hour : ℕ) → ℕ
duration_until_utc_hour now target_hour =
    let hour = now / 3600 % 24 in
    let minute = now / 60 % 60 in
    let second = now % 60 in
    let hours_until =
      if ltb hour target_hour
      then target_hour - hour
      else if (hour == target_hour) && (minute == 0) && (second == 0)
      then 0
      else 24 - hour + target_hour in
    hours_until * 3600 - (minute * 60 + second)

unfoldable pub until_next_multiple : (since_epoch every : ℕ) → ℕ
until_next_multiple since_epoch every =
    let every' = max every 1 in (every' - since_epoch % every') % every'

-- The loop, with a number of steps.
unfoldable pub advance : (fuel next every now : ℕ) → ℕ
advance zero next every now = next
advance (suc fuel) next every now =
    let rest = advance fuel (next + every) every now in if leb next now then rest else next

-- `minimum` is one second.
unfoldable pub next_after : (minimum last every now : ℕ) → ℕ
unfolding advance
next_after minimum last every now =
    let every' = max every minimum in advance now (last + every') every' now

unfoldable pub offerable_indexers :
    (pool : List ℕ) → List Agreement → (declined denylist unresponsive held : List ℕ) → List ℕ
unfolding select
offerable_indexers pool agreements declined denylist unresponsive held =
    let holding =
      map (λ (a : Agreement). a.indexer_id)
        (select (λ a. is_active a.status || is_cancelling a.status) agreements) in
    select (λ id. not (any_eq id (holding ++ declined ++ denylist ++ unresponsive ++ held))) pool

-- What the pool service and the registry say of a chain; `none` when it cannot be read.
pub record ChainPool : Type 0 where
  pub pool : List ℕ
  pub unresponsive : List ℕ

-- Whether a short request has room and an indexer free to take it.
unfoldable pub is_fillable :
    ℕ
    → Lookbacks
    → (denylist : List ℕ) → (chains : ℕ → Option ChainPool) → Registry
    → IndexingRequest
    → Bool
unfolding get_indexing_agreements_by_deployment_id get_abandoned_indexers_holding_slots
    get_declined_indexers_by_deployment offerable_indexers select
is_fillable now lookbacks denylist chains reg r = elim (chains r.deployment_chain_id) [
  | none ↦ false
  | some chain ↦
      let agreements = get_indexing_agreements_by_deployment_id r.deployment_id reg.agreements in
      let held = get_abandoned_indexers_holding_slots r.id reg.agreements in
      let holding =
        length (select (λ a. (a.indexing_request_id == r.id) && is_active a.status) agreements) in
      let declined =
        get_declined_indexers_by_deployment now lookbacks reg.agreements r.deployment_id in
      not (leb r.num_candidates (holding + length held))
      && not (
          is_nil
            (offerable_indexers chain.pool agreements declined denylist chain.unresponsive held))
]

-- The first requests that are fillable; a batch of 0 takes them all.
unfoldable pub collect_fillable :
    (IndexingRequest → Bool) → (batch found : ℕ) → List IndexingRequest → List IndexingRequest
collect_fillable fillable batch found [] = []
collect_fillable fillable batch found (r ∷ rest) =
    let more = collect_fillable fillable batch (suc found) rest in
    let skipped = collect_fillable fillable batch found rest in
    if fillable r then (if suc found == batch then r ∷ [] else r ∷ more) else skipped

abbrev pub not_in : List ℕ → IndexingRequest → Bool
not_in skip r = not (any_eq r.id skip)

unfoldable pub short_requests_with_a_free_indexer :
    ℕ
    → Lookbacks
    → (denylist : List ℕ) → (chains : ℕ → Option ChainPool) → (batch : ℕ) → (skip : List ℕ)
    → Registry
    → List IndexingRequest
unfolding get_short_open_indexing_requests is_fillable collect_fillable select
short_requests_with_a_free_indexer now lookbacks denylist chains batch skip reg =
    collect_fillable (is_fillable now lookbacks denylist chains reg) batch 0
      (select (not_in skip) (get_short_open_indexing_requests 0 reg.requests))

abbrev pub max_failed_pushes_in_a_row : ℕ
max_failed_pushes_in_a_row = 3

-- The ids queued, or `none` for a pass that was stopped, with the jobs pushed, the newest first.
abbrev pub Pass : Type 0
Pass = Option (List ℕ) × List Reassessment

-- `budget` is how many requests a pass gets to before it is stopped.
unfoldable pub queue_reassessments :
    (push_fault : ℕ → Bool)
    → (budget failed_in_a_row : ℕ) → (queued : List ℕ) → List IndexingRequest
    → List Reassessment
    → Pass
queue_reassessments push_fault budget failed queued [] jobs = (some queued, jobs)
queue_reassessments push_fault zero failed queued (r ∷ rest) jobs = (none, jobs)
queue_reassessments push_fault (suc budget) failed queued (r ∷ rest) jobs =
    let pushed =
      queue_reassessments push_fault budget 0 (r.id ∷ queued) rest (freed_job r ∷ jobs) in
    let missed = queue_reassessments push_fault budget (suc failed) queued rest jobs in
    if push_fault r.id
    then (if suc failed == max_failed_pushes_in_a_row then (some queued, jobs) else missed)
    else pushed

-- The listing of a pass that fails queues nothing.
unfoldable pub full_pass :
    ℕ
    → (list_fault : Bool) → (push_fault : ℕ → Bool) → (budget min_age_seconds : ℕ) → (skip : List ℕ)
    → Registry
    → List Reassessment
    → Pass
unfolding get_open_indexing_requests_for_reassessment queue_reassessments select
full_pass now true push_fault budget min_age_seconds skip reg jobs = (some [], jobs)
full_pass now false push_fault budget min_age_seconds skip reg jobs =
    queue_reassessments push_fault budget 0 []
      (select (not_in skip)
        (get_open_indexing_requests_for_reassessment now min_age_seconds 0 reg.requests))
      jobs

-- `listed` is what the top-up lists for what it skips, `none` when a read of it fails.
unfoldable pub top_up_pass :
    (listed : List ℕ → Option (List IndexingRequest))
    → (push_fault : ℕ → Bool) → (budget : ℕ) → (skip : List ℕ) → List Reassessment
    → Pass
unfolding queue_reassessments
top_up_pass listed push_fault budget skip jobs = elim (listed skip) [
  | none ↦ (some [], jobs)
  | some requests ↦ queue_reassessments push_fault budget 0 [] requests jobs
]

-- After the full pass, the top-up skips what it queued.
abbrev pub after_full :
    Bool → (List ℕ → List Reassessment → Pass) → List ℕ → Pass → List Reassessment
after_full top_up_due top_up skip (none, jobs) = jobs
after_full top_up_due top_up skip (some ids, jobs) =
    if top_up_due then (top_up (ids ++ skip) jobs).1 else jobs

-- `none` is a queue that cannot be listed: the passes go ahead without the check.
unfoldable pub already_queued : Option (List ℕ) → List ℕ
already_queued none = []
already_queued (some ids) = ids

unfoldable pub run_due_passes :
    (full_due top_up_due : Bool)
    → (queued_reassessments : Option (List ℕ)) → (full top_up : List ℕ → List Reassessment → Pass)
    → List Reassessment
    → List Reassessment
unfolding already_queued
run_due_passes full_due top_up_due queued_reassessments full top_up jobs =
    let skip = already_queued queued_reassessments in
    after_full top_up_due top_up skip (if full_due then full skip jobs else (some [], jobs))
