-- ===== src/Registry/Transitions.antt =====
-- The single-row status transitions of `PgRegistry` (dipper-pgregistry/src/postgres.rs), each the
-- UPDATE statement that it sends, on the rows of dipper_reg_indexing_agreements. `now` is the
-- database clock. An error leaves the rows as they were, as the statement or its transaction is
-- rolled back; a lost connection changes nothing and is not modelled.
use dipper.Prelude.{
  ℕ, Bool, true, false, not, ◌&&◌, ◌||◌, List, [], ◌∷◌, Option, some, map, ◌==◌, if◌then◌else◌,
  any_eq, update, select, exists,
}
use dipper.Registry.Types.{
  Status, RejectionReason, unresponsive, canceled_by_requester, expired, rejected,
  abandoned_by_indexer, cancelling, is_created, is_expired, is_accepted_on_chain, is_rejected,
  is_cancelling, Agreement, Result, ok, err, ◌>>=◌, no_records_updated, unique_violation,
}

-- The rows that the partial index idx_unique_active_agreement_per_indexer_deployment covers.
abbrev pub is_active : Status → Bool
is_active s = is_created s || is_accepted_on_chain s

abbrev pub conflicts : Agreement → Agreement → Bool
conflicts a b =
    is_active a.status
    && is_active b.status
    && a.indexer_id == b.indexer_id
    && a.deployment_id == b.deployment_id

unfoldable pub unique_active : List Agreement → Bool
unique_active [] = true
unique_active (a ∷ rest) = not (exists (conflicts a) rest) && unique_active rest

-- PostgreSQL refuses a statement that leaves two rows under one key of the index.
unfoldable pub checked : List Agreement → Result (List Agreement)
checked rows = if unique_active rows then ok rows else err unique_violation

abbrev pub is_empty {ℓ} : {A : Type ℓ} → List A → Bool
is_empty [] = true
is_empty (x ∷ xs) = false

-- `WHERE id = ANY(ids) AND status IN (allowed_from)`.
abbrev pub matches : List ℕ → (Status → Bool) → Agreement → Bool
matches ids allowed_from a = any_eq a.id ids && allowed_from a.status

abbrev pub set_status : ℕ → (Agreement → Status) → Agreement → Agreement
set_status now status_sql a = record a { status = status_sql a; updated_at = now }

-- `status_sql` is the expression that the statement sets, read on the old row.
unfoldable pub batch_set_status :
    ℕ
    → List ℕ
    → (Agreement → Status)
    → (Status → Bool)
    → List Agreement
    → Result (List Agreement × List ℕ)
batch_set_status now ids status_sql allowed_from rows = if is_empty ids then ok (rows, []) else do
  rows' ← checked (update (matches ids allowed_from) (set_status now status_sql) rows)
  ok (rows', map (λ (a : Agreement). a.id) (select (matches ids allowed_from) rows))

unfoldable pub batch_update_status_from :
    ℕ → List ℕ → Status → (Status → Bool) → List Agreement → Result (List Agreement × List ℕ)
unfolding batch_set_status
batch_update_status_from now ids new_status allowed_from rows =
    batch_set_status now ids (λ _. new_status) allowed_from rows

unfoldable pub update_status_from :
    ℕ → ℕ → Status → (Status → Bool) → List Agreement → Result (List Agreement × Bool)
unfolding batch_update_status_from
update_status_from now id new_status allowed_from rows = do
  (rows', moved) ← batch_update_status_from now (id ∷ []) new_status allowed_from rows
  ok (rows', not (is_empty moved))

unfoldable pub set_status_from :
    ℕ → ℕ → Status → (Status → Bool) → List Agreement → Result (List Agreement)
unfolding update_status_from
set_status_from now id new_status allowed_from rows = do
  (rows', updated) ← update_status_from now id new_status allowed_from rows
  if updated then ok rows' else err no_records_updated

-- `CANCEL_BY_REQUESTER_FROM`.
abbrev pub cancel_by_requester_from : Status → Bool
cancel_by_requester_from s =
    is_created s || is_accepted_on_chain s || is_rejected s || is_cancelling s

-- `CANCEL_BY_INDEXER_FROM`.
abbrev pub cancel_by_indexer_from : Status → Bool
cancel_by_indexer_from s = is_accepted_on_chain s || is_cancelling s

abbrev pub cancelling_from : Status → Bool
cancelling_from s = is_created s || is_accepted_on_chain s || is_rejected s || is_expired s

unfoldable pub mark_indexing_agreement_as_canceled_by_requester :
    ℕ → ℕ → List Agreement → Result (List Agreement)
unfolding set_status_from
mark_indexing_agreement_as_canceled_by_requester now id rows =
    set_status_from now id canceled_by_requester cancel_by_requester_from rows

unfoldable pub mark_indexing_agreement_as_abandoned_by_indexer :
    ℕ → ℕ → List Agreement → Result (List Agreement)
unfolding set_status_from
mark_indexing_agreement_as_abandoned_by_indexer now id rows =
    set_status_from now id abandoned_by_indexer is_cancelling rows

unfoldable pub mark_indexing_agreement_as_cancelling :
    ℕ → ℕ → List Agreement → Result (List Agreement)
unfolding set_status_from
mark_indexing_agreement_as_cancelling now id rows =
    set_status_from now id cancelling cancelling_from rows

-- One UPDATE that reports `NoRecordsUpdated` when no row matched.
unfoldable pub update_or_fail :
    (Agreement → Bool) → (Agreement → Agreement) → List Agreement → Result (List Agreement)
update_or_fail p f rows = if exists p rows then ok (update p f rows) else err no_records_updated

abbrev pub at_status : ℕ → (Status → Bool) → Agreement → Bool
at_status id from a = a.id == id && from a.status

unfoldable pub mark_indexing_agreement_as_abandoning :
    ℕ → ℕ → List Agreement → Result (List Agreement)
unfolding update_or_fail
mark_indexing_agreement_as_abandoning now id rows =
    update_or_fail (at_status id is_accepted_on_chain)
      (λ a. record a {
        status = cancelling;
        abandoned = true;
        replacement_pending = true;
        updated_at = now;
      })
      rows

unfoldable pub mark_indexing_agreement_as_unresponsive :
    ℕ → ℕ → List Agreement → Result (List Agreement)
unfolding update_or_fail
mark_indexing_agreement_as_unresponsive now id rows =
    update_or_fail (at_status id is_created) (set_status now (λ _. unresponsive)) rows

unfoldable pub mark_indexing_agreement_as_expired : ℕ → ℕ → List Agreement → Result (List Agreement)
unfolding update_or_fail
mark_indexing_agreement_as_expired now id rows =
    update_or_fail (at_status id is_created) (set_status now (λ _. expired)) rows

unfoldable pub mark_indexing_agreement_as_rejected :
    ℕ → ℕ → Option RejectionReason → List Agreement → Result (List Agreement)
unfolding update_or_fail
mark_indexing_agreement_as_rejected now id reason rows =
    update_or_fail (at_status id is_created)
      (λ a. record a { status = rejected; updated_at = now; rejection_reason = reason }) rows

abbrev pub offer_hash_from : Status → Bool
offer_hash_from s = is_created s || is_accepted_on_chain s || is_cancelling s

-- A `Cancelling` row keeps its `updated_at`.
unfoldable pub update_offer_tx_hash : ℕ → ℕ → ℕ → List Agreement → Result (List Agreement)
unfolding update_or_fail
update_offer_tx_hash now id tx_hash rows =
    update_or_fail (at_status id offer_hash_from)
      (λ a. record a {
        offer_tx_hash = some tx_hash;
        updated_at = if is_cancelling a.status then a.updated_at else now;
      })
      rows
