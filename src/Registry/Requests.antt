-- ===== src/Registry/Requests.antt =====
-- Indexing requests (dipper-pgregistry/src/postgres.rs, with the conversion of the target in
-- bin/dipper-service/src/registry.rs).
use dipper.Prelude.{
  ℕ, Bool, true, false, not, ◌&&◌, List, [], ◌∷◌, Option, none, some, ◌==◌, ltb, if◌then◌else◌,
  update, exists,
}
use dipper.Registry.Types.{
  open_, canceled, is_open, IndexingRequest, Result, ok, err, too_large, unique_violation,
}
use dipper.Registry.Registration.{has_request_id}

pub data SetTargetOutcome : Type 0 where
  inserted : ℕ → SetTargetOutcome
  updated : ℕ → ℕ → SetTargetOutcome
  no_op : ℕ → SetTargetOutcome
  canceled_request : ℕ → SetTargetOutcome
  no_op_already_empty : SetTargetOutcome

-- `(requested_by, deployment_id, deployment_chain_id)`.
pub record Key : Type 0 where
  pub requested_by : ℕ
  pub deployment_id : ℕ
  pub deployment_chain_id : ℕ

abbrev pub is_open_for : Key → IndexingRequest → Bool
is_open_for key r =
    r.requested_by == key.requested_by
    && r.deployment_id == key.deployment_id
    && r.deployment_chain_id == key.deployment_chain_id
    && is_open r.status

-- The partial unique index uniq_open_indexing_requests lets at most one row match.
unfoldable pub find_open : Key → List IndexingRequest → Option IndexingRequest
find_open key [] = none
find_open key (r ∷ rest) = if is_open_for key r then some r else find_open key rest

abbrev pub new_request : ℕ → ℕ → Key → ℕ → IndexingRequest
new_request new_id now key n = record {
  id = new_id;
  created_at = now;
  updated_at = now;
  status = open_;
  requested_by = key.requested_by;
  deployment_id = key.deployment_id;
  deployment_chain_id = key.deployment_chain_id;
  num_candidates = n;
  shortfall_active = false;
}

abbrev pub Requests : Type 0
Requests = List IndexingRequest

-- `new_id` is the id that `IndexingRequestId::new()` draws.
unfoldable pub set_target :
    ℕ → ℕ → Key → ℕ → Requests → Option IndexingRequest → Result (Requests × SetTargetOutcome)
set_target new_id now key n rows none =
    if n == 0
    then ok (rows, no_op_already_empty)
    else if exists (has_request_id new_id) rows
    then err unique_violation
    else ok (new_request new_id now key n ∷ rows, inserted new_id)
set_target new_id now key n rows (some r) =
    if r.num_candidates == n
    then ok (rows, no_op r.id)
    else if n == 0
    then ok (
      update (has_request_id r.id) (λ x. record x { status = canceled; updated_at = now }) rows,
      canceled_request r.id,
    )
    else ok (
      update (has_request_id r.id) (λ x. record x { num_candidates = n; updated_at = now }) rows,
      updated r.id n,
    )

-- The service's `usize` is refused above `i32::MAX`, before the transaction.
unfoldable pub set_indexing_target_candidates :
    ℕ → ℕ → Key → ℕ → Requests → Result (Requests × SetTargetOutcome)
unfolding set_target find_open
set_indexing_target_candidates new_id now key n rows =
    if ltb 2147483647 n
    then err too_large
    else set_target new_id now key n rows (find_open key rows)

abbrev pub differs : Bool → Bool → Bool
differs true b = not b
differs false b = b

abbrev pub latch_differs : ℕ → Bool → IndexingRequest → Bool
latch_differs id active r = r.id == id && differs r.shortfall_active active

-- Whether the latch changed.
unfoldable pub set_indexing_request_shortfall_active : ℕ → Bool → Requests → Requests × Bool
set_indexing_request_shortfall_active id active rows = (
  update (latch_differs id active) (λ r. record r { shortfall_active = active }) rows,
  exists (latch_differs id active) rows,
)

unfoldable pub get_indexing_request_by_id : ℕ → Requests → Option IndexingRequest
get_indexing_request_by_id id [] = none
get_indexing_request_by_id id (r ∷ rest) =
    if r.id == id then some r else get_indexing_request_by_id id rest
