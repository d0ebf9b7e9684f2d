-- ===== src/Registry/Registration.antt =====
-- New agreements and the pending cancellations that pair them with the ones they replace
-- (dipper-pgregistry/src/postgres.rs).
use dipper.Prelude.{
  ℕ, Bool, false, ◌&&◌, List, [], ◌∷◌, Option, none, some, map, ltb, ◌==◌, if◌then◌else◌, select,
  delete, exists, take,
}
use dipper.Registry.Types.{
  created, is_accepted_on_chain, Terms, Agreement, PendingCancellation, IndexingRequest, Registry,
  Result, ok, err, ◌>>=◌, unique_violation, foreign_key_violation,
}
use dipper.Registry.Transitions.{checked}
use dipper.Registry.Ends.{has_id, find}

pub record NewAgreementParams : Type 0 where
  pub agreement_id : ℕ
  pub nonce_uuid : ℕ
  pub request_id : ℕ
  pub deployment_id : ℕ
  pub indexer_id : ℕ
  pub indexer_url : ℕ
  pub terms : Terms
  pub terms_version_hash : Option (List ℕ)

-- The row that the INSERT writes: the columns that it does not name take their defaults.
abbrev pub new_agreement : ℕ → NewAgreementParams → Agreement
new_agreement now params = record {
  id = params.agreement_id;
  nonce_uuid = params.nonce_uuid;
  created_at = now;
  updated_at = now;
  status = created;
  indexing_request_id = params.request_id;
  deployment_id = params.deployment_id;
  indexer_id = params.indexer_id;
  indexer_url = params.indexer_url;
  terms = params.terms;
  terms_version_hash = params.terms_version_hash;
  last_block_height = none;
  last_progress_at = none;
  rejection_reason = none;
  offer_tx_hash = none;
  accepted_at = none;
  accepted_tx = none;
  canceled_at = none;
  canceled_by = none;
  canceled_tx = none;
  accepted_event_emitted_at = none;
  terminated_event_emitted_at = none;
  expired_event_emitted_at = none;
  cancel_attempts = 0;
  cancel_checked_at = none;
  ended_seen_at = none;
  abandoned = false;
  replacement_pending = false;
}

abbrev pub has_request_id : ℕ → IndexingRequest → Bool
has_request_id id r = r.id == id

-- The primary key, the foreign key to the requests and the partial unique index.
unfoldable pub insert_agreement : Agreement → Registry → Result Registry
unfolding checked
insert_agreement a reg =
    if exists (has_id a.id) reg.agreements
    then err unique_violation
    else if exists (has_request_id a.indexing_request_id) reg.requests
    then (checked (a ∷ reg.agreements) >>= λ rows. ok (record reg { agreements = rows }))
    else err foreign_key_violation

unfoldable pub register_new_indexing_agreement :
    ℕ → NewAgreementParams → Registry → Result (Registry × ℕ)
unfolding insert_agreement
register_new_indexing_agreement now params reg = do
  reg' ← insert_agreement (new_agreement now params) reg
  ok (reg', params.agreement_id)

-- `INSERT … ON CONFLICT DO NOTHING`, under the foreign keys of both columns. No unique index is
-- left on the table since its ids were replaced (20260402000000), so no row conflicts.
unfoldable pub insert_pending : ℕ → ℕ → Registry → Result Registry
insert_pending new old reg =
    if exists (has_id new) reg.agreements && exists (has_id old) reg.agreements
    then ok (record reg {
      pending_cancellations =
          record { new_agreement_id = new; old_agreement_id = old } ∷ reg.pending_cancellations;
    })
    else err foreign_key_violation

-- One transaction: an error in either INSERT rolls both back.
unfoldable pub register_agreement_with_pending_cancellation :
    ℕ → NewAgreementParams → ℕ → Registry → Result (Registry × ℕ)
unfolding insert_agreement insert_pending
register_agreement_with_pending_cancellation now params old_agreement_id reg = do
  reg₁ ← insert_agreement (new_agreement now params) reg
  reg₂ ← insert_pending params.agreement_id old_agreement_id reg₁
  ok (reg₂, params.agreement_id)

unfoldable pub get_pending_cancellations_by_new_agreement : ℕ → Registry → List ℕ
get_pending_cancellations_by_new_agreement new reg =
    map (λ (p : PendingCancellation). p.old_agreement_id)
      (select (λ p. p.new_agreement_id == new) reg.pending_cancellations)

unfoldable pub delete_pending_cancellations_by_new_agreement : ℕ → Registry → Registry
delete_pending_cancellations_by_new_agreement new reg = record reg {
  pending_cancellations = delete (λ p. p.new_agreement_id == new) reg.pending_cancellations;
}

abbrev pub is_pending : ℕ → ℕ → PendingCancellation → Bool
is_pending new old p = p.new_agreement_id == new && p.old_agreement_id == old

unfoldable pub delete_pending_cancellation : ℕ → ℕ → Registry → Registry
delete_pending_cancellation new old reg = record reg {
  pending_cancellations = delete (is_pending new old) reg.pending_cancellations;
}

-- `DISTINCT … ORDER BY`: insertion into a rising list without repeats.
unfoldable pub insert_distinct : ℕ → List ℕ → List ℕ
insert_distinct a [] = a ∷ []
insert_distinct a (x ∷ xs) =
    if a == x then x ∷ xs else if ltb a x then a ∷ x ∷ xs else x ∷ insert_distinct a xs

abbrev pub is_accepted_row : Option Agreement → Bool
is_accepted_row none = false
is_accepted_row (some a) = is_accepted_on_chain a.status

-- The join finds at most one agreement for a pending row, since `id` is the primary key.
unfoldable pub executable_ids : List Agreement → List PendingCancellation → List ℕ
unfolding insert_distinct find
executable_ids rows [] = []
executable_ids rows (p ∷ ps) =
    let rest = executable_ids rows ps in
    if is_accepted_row (find p.new_agreement_id rows)
    then insert_distinct p.new_agreement_id rest
    else rest

unfoldable pub list_executable_pending_cancellations : ℕ → Registry → List ℕ
unfolding executable_ids
list_executable_pending_cancellations limit reg =
    take limit (executable_ids reg.agreements reg.pending_cancellations)
