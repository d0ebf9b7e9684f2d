-- ===== src/Examples/Snapshots.antt =====
-- The theorems on the chain listener, on concrete snapshots.
use dipper.Prelude.{
  ℕ, ◌≡◌, refl, true, false, List, [], ◌∷◌, some, String, arith, update, select, exists, ◌≤◌, ◌+◌,
  max, if◌then◌else◌,
}
use dipper.Registry.Types.{Agreement, rejected, canceled_by_requester}
use dipper.Registry.Transitions.{
  unique_active, checked, batch_set_status, batch_update_status_from, update_status_from,
}
use dipper.Registry.Ends.{find}
use dipper.Registry.Reconcile.{batch_apply_cancel, apply_cancel, apply_reconciliation}
use dipper.Registry.Rows.{PrimaryKey}
use dipper.Chain.Snapshots.{
  AgreementStateSnapshot, accepted, canceled_by_payer, Listening, prepare_reconciliation, prepared,
}
use dipper.Chain.Follows.{chain_status, prepare_reconciliation-apply}
use dipper.Chain.Clock.{apply_chain_ts_drift_cap, apply_chain_ts_drift_cap_bounds}
use dipper.Chain.LiveChecks.{prepare_reconciliation-again}
use dipper.Examples.Data.{created_1, created_2, accepted_3, agreements_0}

abbrev snapshot_1 : AgreementStateSnapshot
snapshot_1 = record {
  agreement_id = 1;
  indexer = 10;
  state = canceled_by_payer;
  canceled_by = 1;
  last_state_change_block = 77;
  accepted_at = 90;
  accepted_tx = "0xaa";
  canceled_at = 95;
  canceled_tx = "0xbb";
}

abbrev listening_0 : Listening
listening_0 = record { jobs = []; queued = []; agreements = agreements_0 }

abbrev text_of : ℕ → String
text_of address = "0x01"

agreements_key : PrimaryKey agreements_0
agreements_key = ground arith

abbrev rejected_1 : Agreement
rejected_1 = record created_1 { status = rejected }

prepare_reconciliation-again_example :
    let once =
      (prepare_reconciliation text_of true true
        (record snapshot_1 { state = accepted })
        (some rejected_1)
        listening_0).0 in
    (prepare_reconciliation text_of false true
      (record snapshot_1 { state = accepted })
      (some rejected_1)
      once).0.jobs
    ≡ once.jobs
prepare_reconciliation-again_example =
    prepare_reconciliation-again text_of true false true (record snapshot_1 { state = accepted })
      rejected_1 listening_0

abbrev reconciled : List Agreement
reconciled =
    record created_1 { status = canceled_by_requester; updated_at = 120 }
    ∷ created_2
    ∷ accepted_3
    ∷ []

prepare_reconciliation-apply_example :
    (row : Agreement) × (find 1 reconciled ≡ some row)
    × (row.status ≡ chain_status canceled_by_payer created_1)
unfolding find prepare_reconciliation prepared apply_reconciliation update_status_from
    batch_update_status_from batch_set_status checked unique_active update select exists
    apply_cancel batch_apply_cancel
prepare_reconciliation-apply_example =
    prepare_reconciliation-apply text_of true true 120 snapshot_1 created_1 listening_0 listening_0
      (prepared text_of snapshot_1 created_1) agreements_0 reconciled
      (record { did_accept = true; did_cancel = true }) refl refl refl agreements_key refl refl

apply_chain_ts_drift_cap_bounds_example :
    (50 ≤ apply_chain_ts_drift_cap 200 50 100 10 false)
    × (apply_chain_ts_drift_cap 200 50 100 10 false ≤ 200)
    × (apply_chain_ts_drift_cap 200 50 100 10 false ≤ (if false then 200 else max (100 + 10) 50))
apply_chain_ts_drift_cap_bounds_example =
    apply_chain_ts_drift_cap_bounds 200 50 100 10 false (ground arith)
