-- ===== src/Registry/Queries.antt =====
-- The reads of dipper-pgregistry/src/postgres.rs: what each SELECT finds in the tables, in which
-- order and up to which number. `now` is the database clock in seconds; a deadline is below
-- 2 ^ 63, as the cast to BIGINT asks. A map by deployment is a function of the deployment.
use dipper.Prelude.{
  ℕ, ◌+◌, ◌*◌, Bool, false, not, ◌&&◌, ◌||◌, List, [], ◌∷◌, none, some, map, ltb, leb, ◌==◌,
  if◌then◌else◌, any_eq, is_none, is_some, length, take, pos_part, select, exists, order_by,
  limit_if_positive, distinct, nulls_first,
}
use dipper.Registry.Types.{
  is_created, is_unresponsive, is_canceled_by_requester, is_canceled_by_indexer, is_expired,
  is_accepted_on_chain, is_abandoned_by_indexer, is_cancelling, Agreement, is_open, is_canceled,
  IndexingRequest, Registry,
}
use dipper.Registry.Transitions.{is_active}

abbrev pub ids_in : List ℕ → Agreement → Bool
ids_in ids a = any_eq a.id ids

unfoldable pub get_indexing_agreements_by_ids : List ℕ → List Agreement → List Agreement
unfolding select
get_indexing_agreements_by_ids ids rows = select (ids_in ids) rows

unfoldable pub get_active_indexing_agreements_by_indexing_request_id :
    ℕ → List Agreement → List Agreement
unfolding select
get_active_indexing_agreements_by_indexing_request_id request_id rows =
    select (λ a. (a.indexing_request_id == request_id) && is_active a.status) rows

unfoldable pub get_indexing_agreements_by_indexing_request_id : ℕ → List Agreement → List Agreement
unfolding select
get_indexing_agreements_by_indexing_request_id request_id rows =
    select (λ a. a.indexing_request_id == request_id) rows

unfoldable pub get_indexing_agreements_by_deployment_id : ℕ → List Agreement → List Agreement
unfolding select
get_indexing_agreements_by_deployment_id deployment_id rows =
    select (λ a. a.deployment_id == deployment_id) rows

unfoldable pub get_indexing_agreements_by_indexer_id : ℕ → List Agreement → List Agreement
unfolding select
get_indexing_agreements_by_indexer_id indexer_id rows =
    select (λ a. a.indexer_id == indexer_id) rows

unfoldable pub count_accepted_agreements_by_deployment : ℕ → List Agreement → ℕ
unfolding select
count_accepted_agreements_by_deployment deployment_id rows =
    length (select (λ a. (a.deployment_id == deployment_id) && is_accepted_on_chain a.status) rows)

abbrev pub indexers_of : List Agreement → List ℕ
indexers_of = map (λ a. a.indexer_id)

unfoldable pub get_pending_agreement_indexers_by_deployment : List ℕ → List Agreement → ℕ → List ℕ
unfolding select
get_pending_agreement_indexers_by_deployment indexer_ids rows deployment_id = indexers_of (
    select
      (λ a.
        any_eq a.indexer_id indexer_ids && is_active a.status && a.deployment_id == deployment_id)
      rows)

abbrev pub day : ℕ
day = 24 * 60 * 60

-- The join finds the request of an agreement, since `id` is its primary key.
unfoldable pub request_holds : (IndexingRequest → Bool) → ℕ → List IndexingRequest → Bool
unfolding exists
request_holds p id requests = exists (λ r. (r.id == id) && p r) requests

unfoldable pub get_unresponsive_indexers : ℕ → ℕ → ℕ → Registry → List ℕ
unfolding select request_holds distinct
get_unresponsive_indexers now lookback_days chain_id reg = distinct (
    indexers_of (
      select
        (λ a.
          is_unresponsive a.status
          && leb now (a.updated_at + lookback_days * day)
          && request_holds (λ r. r.deployment_chain_id == chain_id) a.indexing_request_id
              reg.requests)
        reg.agreements))

-- An agreement that may be paying its indexer counts as checked an hour earlier; the others are
-- put an hour later, which is the same order.
abbrev pub may_be_paying : ℕ → Agreement → Bool
may_be_paying now a = is_some a.accepted_at || ltb a.terms.deadline now

abbrev pub check_order : ℕ → Agreement → ℕ
check_order now a =
    (elim a.cancel_checked_at [ none ↦ a.updated_at | some t ↦ t ])
    + (if may_be_paying now a then 0 else 3600)

-- Below the limit of failed cancels, or last checked over an hour ago.
abbrev pub may_retry : ℕ → ℕ → Agreement → Bool
may_retry now max_attempts a =
    ltb a.cancel_attempts max_attempts
    || (elim a.cancel_checked_at [ none ↦ false | some t ↦ ltb (t + 3600) now ])

-- Checked before, or marked long enough ago.
abbrev pub has_settled : ℕ → ℕ → Agreement → Bool
has_settled now min_age_minutes a =
    is_some a.cancel_checked_at || ltb (a.updated_at + min_age_minutes * 60) now

abbrev pub due_for_check : ℕ → (max_attempts min_age_minutes : ℕ) → Agreement → Bool
due_for_check now max_attempts min_age_minutes a =
    is_cancelling a.status && may_retry now max_attempts a && has_settled now min_age_minutes a

-- The second key, `updated_at`, breaks ties: the rows are put in its order first.
unfoldable pub get_cancelling_agreements :
    ℕ → (batch_size max_attempts min_age_minutes : ℕ) → List Agreement → List Agreement
unfolding select order_by
get_cancelling_agreements now batch_size max_attempts min_age_minutes rows = take batch_size (
    order_by (check_order now)
      (order_by (λ a. a.updated_at) (select (due_for_check now max_attempts min_age_minutes) rows)))

abbrev pub terminated_tx_wait_minutes : ℕ
terminated_tx_wait_minutes = 60

abbrev pub awaits_terminated : ℕ → Agreement → Bool
awaits_terminated now a =
    (is_canceled_by_requester a.status
      || is_canceled_by_indexer a.status
      || is_abandoned_by_indexer a.status)
    && is_some a.accepted_at
    && is_none a.terminated_event_emitted_at
    && (is_some a.canceled_tx || ltb (a.updated_at + terminated_tx_wait_minutes * 60) now)

unfoldable pub get_agreements_pending_terminated_emission : ℕ → ℕ → List Agreement → List Agreement
unfolding select order_by
get_agreements_pending_terminated_emission now limit rows =
    take limit (order_by (λ a. a.updated_at) (select (awaits_terminated now) rows))

abbrev pub awaits_accepted : Agreement → Bool
awaits_accepted a = is_some a.accepted_at && is_none a.accepted_event_emitted_at

-- Accept times are times of the chain, which are not negative.
abbrev pub accept_order : Agreement → ℕ
accept_order a = elim a.accepted_at [ none ↦ 0 | some t ↦ pos_part t ]

unfoldable pub get_agreements_pending_accepted_emission : ℕ → List Agreement → List Agreement
unfolding select order_by
get_agreements_pending_accepted_emission limit rows =
    take limit (order_by accept_order (select awaits_accepted rows))

abbrev pub awaits_expired : Agreement → Bool
awaits_expired a = is_expired a.status && is_none a.expired_event_emitted_at

unfoldable pub get_agreements_pending_expired_emission : ℕ → List Agreement → List Agreement
unfolding select order_by
get_agreements_pending_expired_emission limit rows =
    take limit (order_by (λ a. a.updated_at) (select awaits_expired rows))

unfoldable pub get_open_indexing_requests_for_reassessment :
    ℕ → (min_age_seconds batch_size : ℕ) → List IndexingRequest → List IndexingRequest
unfolding select order_by
get_open_indexing_requests_for_reassessment now min_age_seconds batch_size requests =
    limit_if_positive batch_size (
      order_by (λ r. r.updated_at)
        (select (λ r. is_open r.status && ltb (r.created_at + min_age_seconds) now) requests))

-- An agreement dipper cancelled on a deployment in the last seconds frees its indexer.
abbrev pub frees : ℕ → ℕ → ℕ → Agreement → Bool
frees now since_seconds deployment_id a =
    (a.deployment_id == deployment_id)
    && is_canceled_by_requester a.status
    && leb now (a.updated_at + since_seconds)

unfoldable pub get_short_requests_on_deployments_with_ended_agreements :
    ℕ → (since_seconds batch_size : ℕ) → Registry → List IndexingRequest
unfolding select exists order_by
get_short_requests_on_deployments_with_ended_agreements now since_seconds batch_size reg =
    take batch_size (
      order_by (λ r. r.updated_at)
        (select
          (λ r.
            is_open r.status
            && r.shortfall_active
            && exists (frees now since_seconds r.deployment_id) reg.agreements)
          reg.requests))

unfoldable pub get_short_open_indexing_requests : ℕ → List IndexingRequest → List IndexingRequest
unfolding select order_by
get_short_open_indexing_requests batch_size requests =
    limit_if_positive batch_size
      (order_by (λ r. r.updated_at) (select (λ r. is_open r.status && r.shortfall_active) requests))

unfoldable pub get_expired_created_agreements :
    (batch_size chain_timestamp : ℕ) → List Agreement → List Agreement
unfolding select order_by
get_expired_created_agreements batch_size chain_timestamp rows = limit_if_positive batch_size (
    order_by (λ a. a.terms.deadline)
      (select (λ a. is_created a.status && ltb a.terms.deadline chain_timestamp) rows))

-- DISTINCT ON (indexer_id): the first of each indexer.
unfoldable pub first_per_indexer : List ℕ → List Agreement → List Agreement
first_per_indexer seen [] = []
first_per_indexer seen (a ∷ rest) =
    let again = first_per_indexer (a.indexer_id ∷ seen) rest in
    let skipped = first_per_indexer seen rest in
    if any_eq a.indexer_id seen then skipped else a ∷ again

unfoldable pub get_accepted_on_chain_agreements : ℕ → List Agreement → List Agreement
unfolding select order_by first_per_indexer
get_accepted_on_chain_agreements batch_size rows =
    let accepted =
      order_by (λ a. nulls_first a.last_progress_at)
        (select (λ a. is_accepted_on_chain a.status) rows) in
    let ids = map (λ (a : Agreement). a.id) in
    order_by (λ a. nulls_first a.last_progress_at)
      (select
        (λ a.
          any_eq a.id (ids (limit_if_positive batch_size accepted))
          || any_eq a.id (ids (first_per_indexer [] accepted)))
        rows)

unfoldable pub get_agreements_pending_chain_cancel : ℕ → Registry → List Agreement
unfolding select request_holds order_by
get_agreements_pending_chain_cancel batch_size reg = limit_if_positive batch_size (
    order_by (λ a. a.updated_at)
      (select
        (λ a.
          is_accepted_on_chain a.status
          && request_holds (λ r. is_canceled r.status) a.indexing_request_id reg.requests)
        reg.agreements))

unfoldable pub get_ended_agreements_awaiting_replacement : ℕ → List Agreement → List Agreement
unfolding select order_by
get_ended_agreements_awaiting_replacement batch_size rows = take batch_size (
    order_by (λ a. a.updated_at)
      (select (λ a. a.replacement_pending && not (is_cancelling a.status)) rows))

unfoldable pub get_abandoned_indexers_holding_slots : ℕ → List Agreement → List ℕ
unfolding select
get_abandoned_indexers_holding_slots request_id rows = indexers_of (
    select
      (λ a.
        (a.indexing_request_id == request_id)
        && is_cancelling a.status
        && a.replacement_pending
        && is_none a.ended_seen_at)
      rows)

unfoldable pub count_active_agreements_by_deployment : List Agreement → ℕ → ℕ
unfolding select
count_active_agreements_by_deployment rows deployment_id =
    length (select (λ a. is_active a.status && a.deployment_id == deployment_id) rows)

-- In flight: created, or cancelling and still open to be accepted.
abbrev pub in_flight : ℕ → Agreement → Bool
in_flight now a =
    is_created a.status
    || is_cancelling a.status && is_none a.accepted_at && ltb now a.terms.deadline

unfoldable pub count_created_agreements_by_indexer : ℕ → List Agreement → (ℕ → ℕ) × ℕ
unfolding select
count_created_agreements_by_indexer now rows = (
  (λ indexer. length (select (λ a. in_flight now a && a.indexer_id == indexer) rows)),
  length (select (in_flight now) rows),
)

unfoldable pub exists_active_agreements : List Agreement → Bool
unfolding exists
exists_active_agreements rows = exists (λ a. is_active a.status) rows

unfoldable pub get_indexers_with_accepted_agreements : List Agreement → List ℕ
unfolding select distinct
get_indexers_with_accepted_agreements rows =
    distinct (indexers_of (select (λ a. is_accepted_on_chain a.status) rows))

unfoldable pub get_agreement_fee_rates : List Agreement → List (ℕ × ℕ × ℕ × ℕ × ℕ)
unfolding select
get_agreement_fee_rates rows =
    map
      (λ a. (
        a.id, a.indexer_id, a.terms.subgraph_deployment_id, a.terms.tokens_per_second,
        a.terms.tokens_per_entity_per_second,
      ))
      (select (λ a. is_active a.status || is_cancelling a.status) rows)
