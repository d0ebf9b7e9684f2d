-- ===== src/Registry/Reconcile.antt =====
-- Reconciliation of rows with the chain (dipper-pgregistry/src/postgres.rs): an accept and a cancel
-- seen on the chain, for one agreement or for a page of them, in one transaction.
use dipper.Prelude.{
  ℕ, Bool, true, false, not, ◌&&◌, List, [], ◌∷◌, Option, none, some, String, as_i64, ◌==◌,
  if◌then◌else◌, update, coalesce, is_none, ◌||◌, ◌||◌,
}
use dipper.Registry.Types.{
  Status, canceled_by_requester, canceled_by_indexer, accepted_on_chain, abandoned_by_indexer,
  is_created, is_expired, Agreement, Result, ok, err, ◌>>=◌, no_records_updated,
}
use dipper.Registry.Transitions.{
  batch_set_status, batch_update_status_from, update_status_from, cancel_by_requester_from,
  cancel_by_indexer_from, is_empty,
}
use dipper.Registry.Ends.{has_id}

pub data CancelKind : Type 0 where
  by_requester by_indexer : CancelKind

pub record ReconciliationOutcome : Type 0 where
  pub did_accept : Bool
  pub did_cancel : Bool

pub record ReconciliationAudit : Type 0 where
  pub accepted_at : Option ℕ
  pub accepted_tx : Option String
  pub canceled_at : Option ℕ
  pub canceled_by : Option String
  pub canceled_tx : Option String

pub record ReconciliationItem : Type 0 where
  pub agreement_id : ℕ
  pub apply_accept : Bool
  pub cancel : Option CancelKind
  pub audit : ReconciliationAudit

abbrev pub accept_from : Status → Bool
accept_from s = is_created s || is_expired s

-- `CASE WHEN abandoned THEN AbandonedByIndexer ELSE CanceledByRequester END`.
abbrev pub requester_end : Agreement → Status
requester_end a = if a.abandoned then abandoned_by_indexer else canceled_by_requester

unfoldable pub batch_apply_cancel :
    ℕ → List ℕ → CancelKind → List Agreement → Result (List Agreement × List ℕ)
unfolding batch_set_status batch_update_status_from
batch_apply_cancel now ids by_requester rows =
    batch_set_status now ids requester_end cancel_by_requester_from rows
batch_apply_cancel now ids by_indexer rows =
    batch_update_status_from now ids canceled_by_indexer cancel_by_indexer_from rows

unfoldable pub apply_cancel : ℕ → ℕ → CancelKind → List Agreement → Result (List Agreement × Bool)
unfolding batch_apply_cancel
apply_cancel now id kind rows = do
  (rows', ended) ← batch_apply_cancel now (id ∷ []) kind rows
  ok (rows', not (is_empty ended))

abbrev pub accept_step : ℕ → ℕ → Bool → List Agreement → Result (List Agreement × Bool)
accept_step now id apply_accept rows =
    if apply_accept
    then update_status_from now id accepted_on_chain accept_from rows
    else ok (rows, false)

abbrev pub cancel_step :
    ℕ
    → ℕ
    → Bool
    → Option CancelKind
    → List Agreement
    → Result (List Agreement × ReconciliationOutcome)
cancel_step now id did_accept none rows =
    ok (rows, record { did_accept = did_accept; did_cancel = false })
cancel_step now id did_accept (some kind) rows = do
  (rows', did_cancel) ← apply_cancel now id kind rows
  if did_accept && not did_cancel
      then err no_records_updated
      else ok (rows', record { did_accept = did_accept; did_cancel = did_cancel })

unfoldable pub apply_reconciliation :
    ℕ
    → ℕ
    → Bool
    → Option CancelKind
    → List Agreement
    → Result (List Agreement × ReconciliationOutcome)
unfolding update_status_from apply_cancel
apply_reconciliation now id apply_accept cancel rows = do
  (rows', did_accept) ← accept_step now id apply_accept rows
  cancel_step now id did_accept cancel rows'

-- The map of outcomes, an association list by agreement id.
abbrev pub Outcomes : Type 0
Outcomes = List (ℕ × ReconciliationOutcome)

abbrev pub default_outcome : ReconciliationOutcome
default_outcome = record { did_accept = false; did_cancel = false }

unfoldable pub outcome_of : ℕ → Outcomes → ReconciliationOutcome
outcome_of id [] = default_outcome
outcome_of id ((k, o) ∷ rest) = if k == id then o else outcome_of id rest

-- `insert`, and `entry(id).or_default()` changed by `f`.
unfoldable pub alter : ℕ → (ReconciliationOutcome → ReconciliationOutcome) → Outcomes → Outcomes
alter id f [] = (id, f default_outcome) ∷ []
alter id f ((k, o) ∷ rest) = if k == id then (k, f o) ∷ rest else (k, o) ∷ alter id f rest

unfoldable pub alter_all :
    List ℕ → (ReconciliationOutcome → ReconciliationOutcome) → Outcomes → Outcomes
unfolding alter
alter_all [] f outcomes = outcomes
alter_all (id ∷ ids) f outcomes = alter_all ids f (alter id f outcomes)

-- The four item shapes of the partition.
abbrev pub is_paired : ReconciliationItem → Bool
is_paired item = item.apply_accept && not (is_none item.cancel)

abbrev pub is_accept_only : ReconciliationItem → Bool
is_accept_only item = item.apply_accept && is_none item.cancel

abbrev pub is_kind : CancelKind → Option CancelKind → Bool
is_kind by_requester (some by_requester) = true
is_kind by_indexer (some by_indexer) = true
is_kind _ _ = false

abbrev pub is_cancel_only : CancelKind → ReconciliationItem → Bool
is_cancel_only kind item = not item.apply_accept && is_kind kind item.cancel

unfoldable pub ids_where : (ReconciliationItem → Bool) → List ReconciliationItem → List ℕ
ids_where p [] = []
ids_where p (item ∷ items) =
    if p item then item.agreement_id ∷ ids_where p items else ids_where p items

-- The loop over the paired items, the others skipped.
unfoldable pub apply_paired :
    ℕ → List ReconciliationItem → List Agreement → Outcomes → Result (List Agreement × Outcomes)
unfolding update_status_from apply_cancel alter
apply_paired now [] rows outcomes = ok (rows, outcomes)
apply_paired now (item ∷ items) rows outcomes = elim (is_paired item) [
  | false ↦ apply_paired now items rows outcomes
  | true ↦ do
    (rows', did_accept) ←
        update_status_from now item.agreement_id accepted_on_chain accept_from rows
    (rows'', outcome) ← cancel_step now item.agreement_id did_accept item.cancel rows'
    apply_paired now items rows'' (alter item.agreement_id (λ _. outcome) outcomes)
]

unfoldable pub persist_accept_audit : ℕ → ReconciliationAudit → List Agreement → List Agreement
persist_accept_audit id audit rows =
    if is_none audit.accepted_at && is_none audit.accepted_tx
    then rows
    else update (has_id id)
        (λ a. record a {
          accepted_at =
              coalesce (elim audit.accepted_at [ none ↦ none | some v ↦ some (as_i64 v) ])
                a.accepted_at;
          accepted_tx = coalesce audit.accepted_tx a.accepted_tx;
        })
        rows

unfoldable pub persist_cancel_audit : ℕ → ReconciliationAudit → List Agreement → List Agreement
persist_cancel_audit id audit rows =
    if is_none audit.canceled_at && is_none audit.canceled_by && is_none audit.canceled_tx
    then rows
    else update (has_id id)
        (λ a. record a {
          canceled_at =
              coalesce (elim audit.canceled_at [ none ↦ none | some v ↦ some (as_i64 v) ])
                a.canceled_at;
          canceled_by = coalesce audit.canceled_by a.canceled_by;
          canceled_tx = coalesce audit.canceled_tx a.canceled_tx;
        })
        rows

-- The audit of every row that moved.
unfoldable pub persist_audits : List ReconciliationItem → Outcomes → List Agreement → List Agreement
unfolding persist_accept_audit persist_cancel_audit outcome_of
persist_audits [] outcomes rows = rows
persist_audits (item ∷ items) outcomes rows =
    let outcome = outcome_of item.agreement_id outcomes in
    let id = item.agreement_id in
    let accepted = if outcome.did_accept then persist_accept_audit id item.audit rows else rows in
    persist_audits items outcomes
      (if outcome.did_cancel then persist_cancel_audit id item.audit accepted else accepted)

unfoldable pub default_outcomes : List ReconciliationItem → Outcomes
default_outcomes [] = []
default_outcomes (item ∷ items) = (item.agreement_id, default_outcome) ∷ default_outcomes items

abbrev pub set_accepted : ReconciliationOutcome → ReconciliationOutcome
set_accepted o = record o { did_accept = true }

abbrev pub set_cancelled : ReconciliationOutcome → ReconciliationOutcome
set_cancelled o = record o { did_cancel = true }

unfoldable pub accept_phase :
    ℕ → List ReconciliationItem → List Agreement × Outcomes → Result (List Agreement × Outcomes)
unfolding batch_update_status_from ids_where alter_all
accept_phase now items (rows, outcomes) = do
  (rows', ids) ←
      batch_update_status_from now (ids_where is_accept_only items) accepted_on_chain accept_from
        rows
  ok (rows', alter_all ids set_accepted outcomes)

unfoldable pub cancel_phase :
    ℕ
    → CancelKind
    → List ReconciliationItem
    → List Agreement × Outcomes
    → Result (List Agreement × Outcomes)
unfolding batch_apply_cancel ids_where alter_all
cancel_phase now kind items (rows, outcomes) = do
  (rows', ids) ← batch_apply_cancel now (ids_where (is_cancel_only kind) items) kind rows
  ok (rows', alter_all ids set_cancelled outcomes)

unfoldable pub audit_phase :
    List ReconciliationItem → List Agreement × Outcomes → Result (List Agreement × Outcomes)
unfolding persist_audits
audit_phase items (rows, outcomes) = ok (persist_audits items outcomes rows, outcomes)

-- The early return for no items is the same value: every phase is then the identity.
unfoldable pub apply_reconciliation_batch :
    ℕ → List ReconciliationItem → List Agreement → Result (List Agreement × Outcomes)
unfolding apply_paired accept_phase cancel_phase audit_phase default_outcomes
apply_reconciliation_batch now items rows =
    apply_paired now items rows (default_outcomes items)
    >>= accept_phase now items
    >>= cancel_phase now by_requester items
    >>= cancel_phase now by_indexer items
    >>= audit_phase items
