-- ===== src/Examples/Agreements.antt =====
-- The theorems on agreements, on concrete histories and reconciliations.
use dipper.Prelude.{
  arith, if◌then◌else◌, ◌==◌, update, select, exists, ℕ, ◌≡◌, refl, true, List, [], ◌∷◌, none, some,
}
use dipper.Registry.Types.{canceled_by_requester, expired, Agreement, unique_violation, ok, ◌>>=◌}
use dipper.Registry.Transitions.{
  unique_active, checked, batch_set_status, batch_update_status_from, update_status_from,
}
use dipper.Registry.Ends.{find, sql_ge, record_cancel_audit, record_accept_and_cancel_audit}
use dipper.Registry.Reconcile.{
  by_requester, ReconciliationAudit, ReconciliationItem, persist_audits, apply_reconciliation_batch,
  apply_reconciliation, apply_cancel, batch_apply_cancel,
}
use dipper.Registry.Batch.{apply_reconciliation_batch-single}
use dipper.Registry.Registration.{new_agreement}
use dipper.Registry.Rows.{PrimaryKey}
use dipper.Registry.Outcome.{
  reconciled_row, reconciled_outcome, apply_reconciliation-row, apply_reconciliation_error,
}
use dipper.Registry.EndAudit.{record_cancel_audit-again, record_accept_and_cancel_audit-order}
use dipper.Registry.Lifecycle.Traces.{
  Write, run, on_rows, register, start_cancelling, cancel_requester, reconcile,
}
use dipper.Registry.Lifecycle.Histories.{Became, run-Became}
use dipper.Registry.Lifecycle.Uniqueness.{run_unique}
use dipper.Examples.Data.{params_of, created_1, created_2, accepted_3, agreements_0, registry_0}

-- One agreement is cancelled, one reconciled as accepted, and two registrations come in, the first
-- for an indexer and deployment that are still taken.
abbrev history_1 : List (ℕ × Write)
history_1 =
    (110, on_rows (start_cancelling 1))
    ∷ (111, on_rows (reconcile 2 true none))
    ∷ (112, register (params_of 4 12))
    ∷ (113, on_rows (cancel_requester 1))
    ∷ (114, register (params_of 5 11))
    ∷ []

-- An agreement that expired while another with the same indexer and deployment took its place.
abbrev rival_rows : List Agreement
rival_rows = record created_1 { status = expired } ∷ new_agreement 100 (params_of 6 11) ∷ []

key_0 : PrimaryKey agreements_0
key_0 = ground arith

rival_key : PrimaryKey rival_rows
rival_key = ground arith

run-Became_example : Became 1 created_1 (run history_1 registry_0).agreements
unfolding find
run-Became_example = run-Became history_1 registry_0 1 created_1 refl

run_unique_example : unique_active (run history_1 registry_0).agreements ≡ true
unfolding unique_active exists
run_unique_example = run_unique history_1 registry_0 refl

-- An accept and the requester's cancel, seen together.
abbrev ended_1 : Agreement
ended_1 = record created_1 { status = canceled_by_requester; updated_at = 120 }

apply_reconciliation-row_example :
    (record { did_accept = true; did_cancel = true }
      ≡ reconciled_outcome 120 true (some by_requester) created_1)
    × (find 2 (ended_1 ∷ created_2 ∷ accepted_3 ∷ []) ≡ (
        if 1 == 2
        then some (reconciled_row 120 true (some by_requester) created_1)
        else find 2 agreements_0))
    × PrimaryKey (ended_1 ∷ created_2 ∷ accepted_3 ∷ [])
unfolding find apply_reconciliation update_status_from batch_update_status_from batch_set_status
    checked unique_active update select exists apply_cancel batch_apply_cancel
apply_reconciliation-row_example =
    apply_reconciliation-row 120 1 true (some by_requester) agreements_0 created_1
      (ended_1 ∷ created_2 ∷ accepted_3 ∷ []) (record { did_accept = true; did_cancel = true }) 2
      key_0 refl refl

apply_reconciliation_error_example : unique_violation ≡ unique_violation
unfolding find apply_reconciliation update_status_from batch_update_status_from batch_set_status
    checked unique_active update select exists
apply_reconciliation_error_example =
    apply_reconciliation_error 120 1 true none rival_rows (record created_1 { status = expired })
      unique_violation rival_key refl refl

record_cancel_audit-again_example :
    record_cancel_audit 3 99 "requester" none
      (record_cancel_audit 3 99 "requester" none agreements_0).0
    ≡ ((record_cancel_audit 3 99 "requester" none agreements_0).0, none)
record_cancel_audit-again_example = record_cancel_audit-again 3 99 "requester" none agreements_0

record_accept_and_cancel_audit-order_example :
    (b : Agreement) × (find 3
        (record_accept_and_cancel_audit 3 96 "0xa" 99 "requester" none agreements_0).0
      ≡ some b)
    × (sql_ge b.canceled_at b.accepted_at ≡ some true)
unfolding find
record_accept_and_cancel_audit-order_example =
    record_accept_and_cancel_audit-order 3 96 "0xa" 99 "requester" none agreements_0 accepted_3 refl
      refl

-- What the chain told of an agreement that was accepted and then cancelled.
abbrev audit_1 : ReconciliationAudit
audit_1 = record {
  accepted_at = some 90;
  accepted_tx = none;
  canceled_at = some 95;
  canceled_by = none;
  canceled_tx = none;
}

abbrev item_1 : ReconciliationItem
item_1 = record {
  agreement_id = 1;
  apply_accept = true;
  cancel = some by_requester;
  audit = audit_1;
}

apply_reconciliation_batch-single_example :
    apply_reconciliation_batch 100 (item_1 ∷ []) agreements_0 ≡ (
      apply_reconciliation 100 1 true (some by_requester) agreements_0 >>= λ t.
      ok (persist_audits (item_1 ∷ []) ((1, t.1) ∷ []) t.0, (1, t.1) ∷ []))
apply_reconciliation_batch-single_example =
    apply_reconciliation_batch-single 100 1 true (some by_requester) audit_1 agreements_0
