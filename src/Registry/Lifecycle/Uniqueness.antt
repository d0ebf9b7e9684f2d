-- ===== src/Registry/Lifecycle/Uniqueness.antt =====
-- The partial unique index of dipper-pgregistry's migrations: at most one active agreement for an
-- indexer on a deployment. A write that can make a row active is checked against it; the others
-- are shown never to break it.
use dipper.Prelude.{ℕ, ◌≡◌, refl, Bool, true, List, [], ◌∷◌, Option, inl, inr, Option-cases}
use dipper.Registry.Types.{
  canceled_by_requester, abandoned_by_indexer, cancelling, is_cancelling, Agreement, Registry,
  Result, ok, err, after, ◌>>=◌,
}
use dipper.Registry.Transitions.{
  unique_active, at_status, cancel_by_requester_from, cancelling_from,
  mark_indexing_agreement_as_canceled_by_requester, mark_indexing_agreement_as_abandoned_by_indexer,
  mark_indexing_agreement_as_cancelling, mark_indexing_agreement_as_abandoning,
  mark_indexing_agreement_as_unresponsive, mark_indexing_agreement_as_expired,
  mark_indexing_agreement_as_rejected, update_offer_tx_hash,
}
use dipper.Registry.Ends.{
  find_at, reopen_from, reopen_row, checked_row, update_end, record_accepted_audit,
  record_cancel_audit, record_accept_and_cancel_audit, reopen_indexing_agreement_cancel,
  record_cancel_check, mark_terminated_event_emitted, mark_accepted_event_emitted,
  mark_expired_event_emitted, mark_replacement_queued, update_agreement_sync_progress,
}
use dipper.Registry.Registration.{
  NewAgreementParams, new_agreement, insert_agreement, insert_pending,
  register_new_indexing_agreement, register_agreement_with_pending_cancellation,
  delete_pending_cancellation, delete_pending_cancellations_by_new_agreement,
}
use dipper.Registry.Lifecycle.Traces.{
  RowWrite, Write, write_rows, write, run, unresponsive_at, expire_at, cancel_requester,
  start_cancelling, start_abandoning, end_abandoned, reject_at, offer_hash, reopen_cancel,
  cancel_check, reconcile, reconcile_batch, accepted_audit, cancel_audit, accept_and_cancel_audit,
  terminated_emitted, accepted_emitted, expired_emitted, replacement_queued, sync_progress,
  register, register_replacing, on_rows, drop_pending, drop_pendings,
}
use dipper.Registry.Lifecycle.Inserts.{insert_agreement-Inserted, insert_pending-agreements}
use dipper.Registry.Lifecycle.Shrinks.{
  IsUnique, asleep, kept, update-IsUnique, update_or_fail-IsUnique,
}
use dipper.Registry.Lifecycle.KeepsUnique.{
  batch_reconcile-IsUnique, by_id-IsUnique, reconcile-IsUnique, set-IsUnique,
}

module _ (now : ℕ) (rows : List Agreement) (h : IsUnique rows) where
  reopen-IsUnique :
      (id : ℕ) (seen_live : Bool)
      → IsUnique (after rows (reopen_indexing_agreement_cancel now id seen_live rows))
  unfolding reopen_indexing_agreement_cancel
  reopen-IsUnique id seen_live = elim (Option-cases (find_at id reopen_from rows)) [
    | inl e ↦ rw (e, reopen_indexing_agreement_cancel) h
    | inr (a, e) ↦
        rw (e, reopen_indexing_agreement_cancel)
          (update-IsUnique (at_status id reopen_from) (reopen_row now seen_live)
            (λ b _. asleep b _ refl refl refl) rows h)
  ]

  check-IsUnique :
      (id failed : ℕ) (ended : Option Bool)
      → IsUnique (after rows (record_cancel_check now id failed ended rows))
  unfolding record_cancel_check
  check-IsUnique id failed ended = elim (Option-cases (find_at id is_cancelling rows)) [
    | inl e ↦ rw (e, record_cancel_check) h
    | inr (a, e) ↦
        rw (e, record_cancel_check)
          (update-IsUnique (at_status id is_cancelling) (checked_row now failed ended)
            (λ b _. kept b _ refl refl refl) rows h)
  ]

  rows-IsUnique : (w : RowWrite) → IsUnique (write_rows now w rows)
  unfolding write_rows record_accepted_audit record_cancel_audit record_accept_and_cancel_audit
      update_end mark_terminated_event_emitted mark_accepted_event_emitted
      mark_expired_event_emitted mark_replacement_queued update_agreement_sync_progress
      mark_indexing_agreement_as_unresponsive mark_indexing_agreement_as_expired
      mark_indexing_agreement_as_rejected mark_indexing_agreement_as_abandoning update_offer_tx_hash
      mark_indexing_agreement_as_canceled_by_requester mark_indexing_agreement_as_cancelling
      mark_indexing_agreement_as_abandoned_by_indexer
  rows-IsUnique (unresponsive_at id) =
      update_or_fail-IsUnique _ _ (λ a _. asleep a _ refl refl refl) rows h
  rows-IsUnique (expire_at id) =
      update_or_fail-IsUnique _ _ (λ a _. asleep a _ refl refl refl) rows h
  rows-IsUnique (reject_at id reason) =
      update_or_fail-IsUnique _ _ (λ a _. asleep a _ refl refl refl) rows h
  rows-IsUnique (start_abandoning id) =
      update_or_fail-IsUnique _ _ (λ a _. asleep a _ refl refl refl) rows h
  rows-IsUnique (offer_hash id tx) =
      update_or_fail-IsUnique _ _ (λ a _. kept a _ refl refl refl) rows h
  rows-IsUnique (cancel_requester id) =
      set-IsUnique now id canceled_by_requester cancel_by_requester_from rows h
  rows-IsUnique (start_cancelling id) = set-IsUnique now id cancelling cancelling_from rows h
  rows-IsUnique (end_abandoned id) = set-IsUnique now id abandoned_by_indexer is_cancelling rows h
  rows-IsUnique (reopen_cancel id seen_live) = reopen-IsUnique id seen_live
  rows-IsUnique (cancel_check id failed ended) = check-IsUnique id failed ended
  rows-IsUnique (reconcile id seen cancel) = reconcile-IsUnique now id seen cancel rows h
  rows-IsUnique (reconcile_batch items) = batch_reconcile-IsUnique now items rows h
  rows-IsUnique (accepted_audit id at tx) =
      by_id-IsUnique id _ (λ a. kept a _ refl refl refl) rows h
  rows-IsUnique (cancel_audit id at by tx) =
      by_id-IsUnique id _ (λ a. kept a _ refl refl refl) rows h
  rows-IsUnique (accept_and_cancel_audit id accepted accepted_tx at by tx) =
      by_id-IsUnique id _ (λ a. kept a _ refl refl refl) rows h
  rows-IsUnique (terminated_emitted id) = by_id-IsUnique id _ (λ a. kept a _ refl refl refl) rows h
  rows-IsUnique (accepted_emitted id) = by_id-IsUnique id _ (λ a. kept a _ refl refl refl) rows h
  rows-IsUnique (expired_emitted id) = by_id-IsUnique id _ (λ a. kept a _ refl refl refl) rows h
  rows-IsUnique (replacement_queued id) = by_id-IsUnique id _ (λ a. kept a _ refl refl refl) rows h
  rows-IsUnique (sync_progress id height at) =
      by_id-IsUnique id _ (λ a. kept a _ refl refl refl) rows h

module _ (now : ℕ) (params : NewAgreementParams) (reg : Registry)
    (h : IsUnique reg.agreements) where
  insert-IsUnique :
      {reg' : Registry}
      → insert_agreement (new_agreement now params) reg ≡ ok reg'
      → IsUnique reg'.agreements
  insert-IsUnique q =
      let ins = insert_agreement-Inserted (new_agreement now params) reg q in
      rw ins.added ins.unique

  register-IsUnique :
      IsUnique (after reg (register_new_indexing_agreement now params reg)).agreements
  unfolding register_new_indexing_agreement
  register-IsUnique = go (insert_agreement (new_agreement now params) reg) refl
    where
      go :
          (r : Result Registry)
          → insert_agreement (new_agreement now params) reg ≡ r
          → IsUnique (after reg (r >>= λ reg'. ok (reg', params.agreement_id))).agreements
      go (ok reg') q = insert-IsUnique q
      go (err x) q = h

  replacing-IsUnique :
      (old : ℕ)
      → IsUnique
          (after reg (register_agreement_with_pending_cancellation now params old reg)).agreements
  unfolding register_agreement_with_pending_cancellation
  replacing-IsUnique old = go (insert_agreement (new_agreement now params) reg) refl
    where
      paired :
          (reg₁ : Registry) (r : Result Registry)
          → insert_pending params.agreement_id old reg₁ ≡ r
          → IsUnique reg₁.agreements
          → IsUnique (after reg (r >>= λ reg₂. ok (reg₂, params.agreement_id))).agreements
      paired reg₁ (ok reg₂) q u = rw (insert_pending-agreements params.agreement_id old reg₁ q) u
      paired reg₁ (err x) q u = h

      go :
          (r : Result Registry)
          → insert_agreement (new_agreement now params) reg ≡ r
          → IsUnique
              (after reg (
                r >>= λ reg₁. insert_pending params.agreement_id old reg₁ >>= λ reg₂.
                ok (reg₂, params.agreement_id))).agreements
      go (ok reg₁) q =
          paired reg₁ (insert_pending params.agreement_id old reg₁) refl (insert-IsUnique q)
      go (err x) q = h

-- Through any history of the registry's writes, failed ones included, an indexer holds at most one
-- active agreement (created, or accepted on-chain) on a deployment.
pub run_unique :
    (history : List (ℕ × Write)) (reg : Registry)
    → unique_active reg.agreements ≡ true
    → unique_active (run history reg).agreements ≡ true
unfolding run write
run_unique [] reg h = h
run_unique ((now, register params) ∷ history) reg h =
    run_unique history _ (register-IsUnique now params reg h)
run_unique ((now, register_replacing params old) ∷ history) reg h =
    run_unique history _ (replacing-IsUnique now params reg h old)
run_unique ((now, on_rows w) ∷ history) reg h =
    run_unique history _ (rows-IsUnique now reg.agreements h w)
run_unique ((now, drop_pending new old) ∷ history) reg h =
    run_unique history (delete_pending_cancellation new old reg) h
run_unique ((now, drop_pendings new) ∷ history) reg h =
    run_unique history (delete_pending_cancellations_by_new_agreement new reg) h
