-- ===== src/Registry/Types.antt =====
-- The rows of the registry's tables (dipper-pgregistry/src/indexing_agreement.rs,
-- indexing_request.rs and the columns that the migrations give each table), the errors of
-- dipper-pgregistry/src/result.rs, and the statuses with their stored numbers.
--
-- Ids, addresses, deployments, chains and urls are numbers: the code only compares them. Times of
-- the database clock are numbers of seconds. A `u64` stored as BIGINT is a signed column.
use dipper.Prelude.{if◌then◌else◌, ◌==◌, ℕ, Bool, true, false, List, Option, String, ℤ, pos, negsuc}

pub data Status : Type 0 where
  created unresponsive canceled_by_requester canceled_by_indexer expired : Status
  accepted_on_chain rejected abandoned_by_indexer cancelling unknown : Status

-- `#[repr(i32)]` of `Status`.
pub status_to_i32 : Status → ℤ
status_to_i32 created = negsuc 0
status_to_i32 unresponsive = pos 1
status_to_i32 canceled_by_requester = pos 3
status_to_i32 canceled_by_indexer = pos 4
status_to_i32 expired = pos 5
status_to_i32 accepted_on_chain = pos 6
status_to_i32 rejected = pos 7
status_to_i32 abandoned_by_indexer = pos 8
status_to_i32 cancelling = pos 9
status_to_i32 unknown = pos 2147483647

-- `From<i32> for Status`: an unknown number falls back to `Unknown`.
pub status_from_i32 : ℤ → Status
status_from_i32 (pos n) =
    if n == 1
    then unresponsive
    else if n == 3
    then canceled_by_requester
    else if n == 4
    then canceled_by_indexer
    else if n == 5
    then expired
    else if n == 6
    then accepted_on_chain
    else if n == 7
    then rejected
    else if n == 8
    then abandoned_by_indexer
    else if n == 9
    then cancelling
    else unknown
status_from_i32 (negsuc n) = if n == 0 then created else unknown

-- Equality of statuses, as SQL compares the column.
abbrev pub is_created : Status → Bool
is_created created = true
is_created _ = false

abbrev pub is_unresponsive : Status → Bool
is_unresponsive unresponsive = true
is_unresponsive _ = false

abbrev pub is_canceled_by_requester : Status → Bool
is_canceled_by_requester canceled_by_requester = true
is_canceled_by_requester _ = false

abbrev pub is_canceled_by_indexer : Status → Bool
is_canceled_by_indexer canceled_by_indexer = true
is_canceled_by_indexer _ = false

abbrev pub is_expired : Status → Bool
is_expired expired = true
is_expired _ = false

abbrev pub is_accepted_on_chain : Status → Bool
is_accepted_on_chain accepted_on_chain = true
is_accepted_on_chain _ = false

abbrev pub is_rejected : Status → Bool
is_rejected rejected = true
is_rejected _ = false

abbrev pub is_abandoned_by_indexer : Status → Bool
is_abandoned_by_indexer abandoned_by_indexer = true
is_abandoned_by_indexer _ = false

abbrev pub is_cancelling : Status → Bool
is_cancelling cancelling = true
is_cancelling _ = false

-- The texts of the module `rejection_reason`; `other` is any text that is none of them.
pub data RejectionReason : Type 0 where
  price_too_low deadline_expired subgraph_manifest_unavailable unsupported_network : RejectionReason
  unexpected_service_provider agreement_expired unsupported_metadata_version : RejectionReason
  invalid_signature sender_not_trusted capacity_exceeded manifest_too_large : RejectionReason
  replay_detected insufficient_escrow indexer_unavailable unspecified : RejectionReason
  other : String → RejectionReason

-- `Terms` and `TermsMetadata`; the serialised JSON of the column `terms`.
pub record Terms : Type 0 where
  pub payer : ℕ
  pub service_provider : ℕ
  pub data_service : ℕ
  pub deadline : ℕ
  pub ends_at : ℕ
  pub max_initial_tokens : ℕ
  pub max_ongoing_tokens_per_second : ℕ
  pub min_seconds_per_collection : ℕ
  pub max_seconds_per_collection : ℕ
  pub conditions : ℕ
  pub tokens_per_second : ℕ
  pub tokens_per_entity_per_second : ℕ
  pub subgraph_deployment_id : ℕ
  pub protocol_network : ℕ
  pub chain_id : ℕ
  pub proposed_at : ℕ

-- A row of dipper_reg_indexing_agreements.
pub record Agreement : Type 0 where
  pub id : ℕ
  pub nonce_uuid : ℕ
  pub created_at : ℕ
  pub updated_at : ℕ
  pub status : Status
  pub indexing_request_id : ℕ
  pub deployment_id : ℕ
  pub indexer_id : ℕ
  pub indexer_url : ℕ
  pub terms : Terms
  pub terms_version_hash : Option (List ℕ)
  pub last_block_height : Option ℤ
  pub last_progress_at : Option ℕ
  pub rejection_reason : Option RejectionReason
  pub offer_tx_hash : Option ℕ
  pub accepted_at : Option ℤ
  pub accepted_tx : Option String
  pub canceled_at : Option ℤ
  pub canceled_by : Option String
  pub canceled_tx : Option String
  pub accepted_event_emitted_at : Option ℕ
  pub terminated_event_emitted_at : Option ℕ
  pub expired_event_emitted_at : Option ℕ
  pub cancel_attempts : ℕ
  pub cancel_checked_at : Option ℕ
  pub ended_seen_at : Option ℕ
  pub abandoned : Bool
  pub replacement_pending : Bool

pub data RequestStatus : Type 0 where
  open_ canceled unknown_request : RequestStatus

abbrev pub is_open : RequestStatus → Bool
is_open open_ = true
is_open _ = false

abbrev pub is_canceled : RequestStatus → Bool
is_canceled canceled = true
is_canceled _ = false

-- A row of dipper_reg_indexing_requests.
pub record IndexingRequest : Type 0 where
  pub id : ℕ
  pub created_at : ℕ
  pub updated_at : ℕ
  pub status : RequestStatus
  pub requested_by : ℕ
  pub deployment_id : ℕ
  pub deployment_chain_id : ℕ
  pub num_candidates : ℕ
  pub shortfall_active : Bool

-- A row of dipper_pending_cancellations.
pub record PendingCancellation : Type 0 where
  pub new_agreement_id : ℕ
  pub old_agreement_id : ℕ

-- The tables that one call may read or write together.
pub record Registry : Type 0 where
  pub requests : List IndexingRequest
  pub agreements : List Agreement
  pub pending_cancellations : List PendingCancellation

-- `DbError` carries the constraint that PostgreSQL found violated.
pub data Error : Type 0 where
  no_records_updated unique_violation foreign_key_violation too_large connection_lost : Error

pub data Result {ℓ} (A : Type ℓ) : Type ℓ where
  ok : A → Result A
  err : Error → Result A

infixl 5 ◌>>=◌
abbrev pub ◌>>=◌ {ℓ κ} : {A : Type ℓ} {B : Type κ} → Result A → (A → Result B) → Result B
ok a >>= f = f a
err e >>= f = err e

-- The table after a call: an error leaves it as it was.
abbrev pub after {ℓ κ} : {T : Type ℓ} {X : Type κ} → T → Result (T × X) → T
after t (ok (t', x)) = t'
after t (err e) = t

abbrev pub after_write {ℓ} : {T : Type ℓ} → T → Result T → T
after_write t (ok t') = t'
after_write t (err e) = t
