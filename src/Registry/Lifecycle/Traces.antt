-- ===== src/Registry/Lifecycle/Traces.antt =====
-- Any sequence of the registry's writes on agreements (dipper-pgregistry/src/postgres.rs).
use dipper.Prelude.{ℕ, Bool, List, [], ◌∷◌, Option, String}
use dipper.Registry.Types.{Agreement, RejectionReason, Registry, after, after_write}
use dipper.Registry.Transitions.{
  mark_indexing_agreement_as_canceled_by_requester, mark_indexing_agreement_as_abandoned_by_indexer,
  mark_indexing_agreement_as_cancelling, mark_indexing_agreement_as_abandoning,
  mark_indexing_agreement_as_unresponsive, mark_indexing_agreement_as_expired,
  mark_indexing_agreement_as_rejected, update_offer_tx_hash,
}
use dipper.Registry.Ends.{
  record_accepted_audit, record_cancel_audit, record_accept_and_cancel_audit,
  reopen_indexing_agreement_cancel, record_cancel_check, mark_terminated_event_emitted,
  mark_accepted_event_emitted, mark_expired_event_emitted, mark_replacement_queued,
  update_agreement_sync_progress,
}
use dipper.Registry.Reconcile.{
  CancelKind, ReconciliationItem, apply_reconciliation, apply_reconciliation_batch,
}
use dipper.Registry.Registration.{
  NewAgreementParams, register_new_indexing_agreement, register_agreement_with_pending_cancellation,
  delete_pending_cancellation, delete_pending_cancellations_by_new_agreement,
}

-- Each write on the table of agreements, with its arguments.
pub data RowWrite : Type 0 where
  unresponsive_at expire_at cancel_requester start_cancelling : ℕ → RowWrite
  start_abandoning end_abandoned : ℕ → RowWrite
  reject_at : ℕ → Option RejectionReason → RowWrite
  offer_hash : ℕ → ℕ → RowWrite
  reopen_cancel : ℕ → Bool → RowWrite
  cancel_check : ℕ → ℕ → Option Bool → RowWrite
  reconcile : ℕ → Bool → Option CancelKind → RowWrite
  reconcile_batch : List ReconciliationItem → RowWrite
  accepted_audit : ℕ → ℕ → String → RowWrite
  cancel_audit : ℕ → ℕ → String → Option String → RowWrite
  accept_and_cancel_audit : ℕ → ℕ → String → ℕ → String → Option String → RowWrite
  terminated_emitted accepted_emitted expired_emitted replacement_queued : ℕ → RowWrite
  sync_progress : ℕ → ℕ → ℕ → RowWrite

-- The rows after a write at a time of the database clock; an error leaves them as they were.
unfoldable pub write_rows : ℕ → RowWrite → List Agreement → List Agreement
write_rows now (unresponsive_at id) rows =
    after_write rows (mark_indexing_agreement_as_unresponsive now id rows)
write_rows now (expire_at id) rows =
    after_write rows (mark_indexing_agreement_as_expired now id rows)
write_rows now (cancel_requester id) rows =
    after_write rows (mark_indexing_agreement_as_canceled_by_requester now id rows)
write_rows now (start_cancelling id) rows =
    after_write rows (mark_indexing_agreement_as_cancelling now id rows)
write_rows now (start_abandoning id) rows =
    after_write rows (mark_indexing_agreement_as_abandoning now id rows)
write_rows now (end_abandoned id) rows =
    after_write rows (mark_indexing_agreement_as_abandoned_by_indexer now id rows)
write_rows now (reject_at id reason) rows =
    after_write rows (mark_indexing_agreement_as_rejected now id reason rows)
write_rows now (offer_hash id tx) rows = after_write rows (update_offer_tx_hash now id tx rows)
write_rows now (reopen_cancel id seen_live) rows =
    after rows (reopen_indexing_agreement_cancel now id seen_live rows)
write_rows now (cancel_check id failed ended) rows =
    after rows (record_cancel_check now id failed ended rows)
write_rows now (reconcile id seen cancel) rows =
    after rows (apply_reconciliation now id seen cancel rows)
write_rows now (reconcile_batch items) rows = after rows (apply_reconciliation_batch now items rows)
write_rows now (accepted_audit id at tx) rows = record_accepted_audit id at tx rows
write_rows now (cancel_audit id at by tx) rows = (record_cancel_audit id at by tx rows).0
write_rows now (accept_and_cancel_audit id accepted accepted_tx at by tx) rows =
    (record_accept_and_cancel_audit id accepted accepted_tx at by tx rows).0
write_rows now (terminated_emitted id) rows = mark_terminated_event_emitted now id rows
write_rows now (accepted_emitted id) rows = mark_accepted_event_emitted now id rows
write_rows now (expired_emitted id) rows = mark_expired_event_emitted now id rows
write_rows now (replacement_queued id) rows = mark_replacement_queued id rows
write_rows now (sync_progress id height at) rows = update_agreement_sync_progress id height at rows

-- Each write of the registry that agreements take part in.
pub data Write : Type 0 where
  register : NewAgreementParams → Write
  register_replacing : NewAgreementParams → ℕ → Write
  on_rows : RowWrite → Write
  drop_pending : ℕ → ℕ → Write
  drop_pendings : ℕ → Write

unfoldable pub write : ℕ → Write → Registry → Registry
unfolding delete_pending_cancellation delete_pending_cancellations_by_new_agreement
write now (register params) reg = after reg (register_new_indexing_agreement now params reg)
write now (register_replacing params old) reg =
    after reg (register_agreement_with_pending_cancellation now params old reg)
write now (on_rows w) reg = record reg { agreements = write_rows now w reg.agreements }
write now (drop_pending new old) reg = delete_pending_cancellation new old reg
write now (drop_pendings new) reg = delete_pending_cancellations_by_new_agreement new reg

-- A history of writes, each with its time.
unfoldable pub run : List (ℕ × Write) → Registry → Registry
run [] reg = reg
run ((now, w) ∷ history) reg = run history (write now w reg)
