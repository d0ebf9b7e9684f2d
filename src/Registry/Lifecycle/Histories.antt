-- ===== src/Registry/Lifecycle/Histories.antt =====
-- What becomes of an agreement through any history of the registry's writes
-- (dipper-pgregistry/src/postgres.rs).
use mathlib.Core.Path.{subst}
use dipper.Prelude.{
  ℕ, ◌≡◌, refl, sym, true, false, List, [], ◌∷◌, some, arith, inl, inr, Bool-cases, ==_iff,
  Pointwise, exists, ◌==◌,
}
use dipper.Registry.Types.{Agreement, Registry, Result, ok, err, after, ◌>>=◌}
use dipper.Registry.Ends.{
  has_id, find, record_accepted_audit, mark_terminated_event_emitted, mark_accepted_event_emitted,
  mark_expired_event_emitted, mark_replacement_queued, update_agreement_sync_progress,
}
use dipper.Registry.Registration.{
  NewAgreementParams, new_agreement, insert_agreement, insert_pending,
  register_new_indexing_agreement, register_agreement_with_pending_cancellation,
}
use dipper.Registry.Lifecycle.Moves.{Evolves, Evolves-refl, Evolves-trans}
use dipper.Registry.Lifecycle.Edges.{unmoved}
use dipper.Registry.Lifecycle.Writes
use dipper.Registry.Lifecycle.Reconciled
use dipper.Registry.Lifecycle.Traces.{
  RowWrite, Write, accept_and_cancel_audit, accepted_audit, accepted_emitted, cancel_audit,
  cancel_check, cancel_requester, drop_pending, drop_pendings, end_abandoned, expire_at,
  expired_emitted, offer_hash, on_rows, reconcile, reconcile_batch, register, register_replacing,
  reject_at, reopen_cancel, replacement_queued, run, start_abandoning, start_cancelling,
  sync_progress, terminated_emitted, unresponsive_at, write, write_rows,
}
use dipper.Registry.Lifecycle.Inserts.{
  Inserted, find-exists, insert_agreement-Inserted, insert_pending-agreements,
}

module _ (now : ℕ) where
  write_rows-Evolves :
      (w : RowWrite) (rows : List Agreement) → Pointwise Evolves rows (write_rows now w rows)
  unfolding write_rows record_accepted_audit mark_terminated_event_emitted
      mark_accepted_event_emitted mark_expired_event_emitted mark_replacement_queued
      update_agreement_sync_progress
  write_rows-Evolves (unresponsive_at id) rows = Writes.unresponsive-Evolves now id rows
  write_rows-Evolves (expire_at id) rows = Writes.expired-Evolves now id rows
  write_rows-Evolves (cancel_requester id) rows = Writes.requester-Evolves now id rows
  write_rows-Evolves (start_cancelling id) rows = Writes.cancelling-Evolves now id rows
  write_rows-Evolves (start_abandoning id) rows = Writes.abandoning-Evolves now id rows
  write_rows-Evolves (end_abandoned id) rows = Writes.abandoned-Evolves now id rows
  write_rows-Evolves (reject_at id reason) rows = Writes.rejected-Evolves now id rows reason
  write_rows-Evolves (offer_hash id tx) rows = Writes.offer_hash-Evolves now id rows tx
  write_rows-Evolves (reopen_cancel id seen_live) rows = Writes.reopen-Evolves now id rows seen_live
  write_rows-Evolves (cancel_check id failed ended) rows =
      Writes.cancel_check-Evolves now id rows failed ended
  write_rows-Evolves (reconcile id seen cancel) rows =
      Reconciled.apply_reconciliation-Evolves now id seen cancel rows
  write_rows-Evolves (reconcile_batch items) rows =
      Reconciled.apply_reconciliation_batch-Evolves now items rows
  write_rows-Evolves (accepted_audit id at tx) rows =
      Reconciled.by_id-Evolves id rows _ (λ a. unmoved a _ refl refl refl refl refl refl)
  write_rows-Evolves (cancel_audit id at by tx) rows =
      Reconciled.record_cancel_audit-Evolves id rows at by tx
  write_rows-Evolves (accept_and_cancel_audit id accepted accepted_tx at by tx) rows =
      Reconciled.record_accept_and_cancel_audit-Evolves id rows accepted accepted_tx at by tx
  write_rows-Evolves (terminated_emitted id) rows =
      Reconciled.by_id-Evolves id rows _ (λ a. unmoved a _ refl refl refl refl refl refl)
  write_rows-Evolves (accepted_emitted id) rows =
      Reconciled.by_id-Evolves id rows _ (λ a. unmoved a _ refl refl refl refl refl refl)
  write_rows-Evolves (expired_emitted id) rows =
      Reconciled.by_id-Evolves id rows _ (λ a. unmoved a _ refl refl refl refl refl refl)
  write_rows-Evolves (replacement_queued id) rows =
      Reconciled.by_id-Evolves id rows _ (λ a. unmoved a _ refl refl refl refl refl refl)
  write_rows-Evolves (sync_progress id height at) rows =
      Reconciled.by_id-Evolves id rows _ (λ a. unmoved a _ refl refl refl refl refl refl)

-- What became of the row with an id.
abbrev pub Became : ℕ → Agreement → List Agreement → Type 0
Became id a rows = (b : Agreement) × (find id rows ≡ some b) × Evolves a b

find-Became :
    (id : ℕ) (rows rows' : List Agreement) {a : Agreement}
    → Pointwise Evolves rows rows'
    → find id rows ≡ some a
    → Became id a rows'
unfolding find
find-Became id [] rows' p e = cc
find-Became id (r ∷ rs) [] p e = absurd p
find-Became id (r ∷ rs) (r' ∷ rs') {a} p e = elim (Bool-cases (r.id == id)) [
  | inl hit ↦
      let same : r ≡ a = ground (arith, hit) in
      (r', rw (p.0.same_id, hit), subst (λ x. Evolves x r') same p.0)
  | inr miss ↦
      let (b, q, ev) = find-Became id rs rs' {a = a} p.1 (rw miss at e) in
      (b, rw (p.0.same_id, miss) q, ev)
]

-- A row is found as before behind a new one with another id.
find-insert :
    (id : ℕ) (new : Agreement) (rows : List Agreement) {a : Agreement}
    → exists (has_id new.id) rows ≡ false
    → find id rows ≡ some a
    → find id (new ∷ rows) ≡ some a
unfolding find
find-insert id new rows {a} fresh e = elim (Bool-cases (new.id == id)) [
  | inl hit ↦ cc (
    fresh,
    subst (λ k. exists (has_id k) rows ≡ true) (sym ((==_iff new.id id).0 hit))
        (find-exists id rows {a = a} e),
  )
  | inr miss ↦ rw miss e
]

Became-insert :
    (id : ℕ) (a new : Agreement) (reg reg' : Registry)
    → Inserted new reg reg'
    → find id reg.agreements ≡ some a
    → Became id a reg'.agreements
Became-insert id a new reg reg' ins e =
    (a, rw ins.added (find-insert id new reg.agreements ins.new_id e), Evolves-refl a)

-- A registration adds a row, or fails and changes nothing.
module _ (now id : ℕ) (params : NewAgreementParams) (reg : Registry) (a : Agreement)
    (e : find id reg.agreements ≡ some a) where
  stays : Became id a reg.agreements
  stays = (a, e, Evolves-refl a)

  register-Became :
      Became id a (after reg (register_new_indexing_agreement now params reg)).agreements
  unfolding register_new_indexing_agreement
  register-Became = go (insert_agreement (new_agreement now params) reg) refl
    where
      go :
          (r : Result Registry)
          → insert_agreement (new_agreement now params) reg ≡ r
          → Became id a (after reg (r >>= λ reg'. ok (reg', params.agreement_id))).agreements
      go (ok reg') q =
          Became-insert id a (new_agreement now params) reg reg'
            (insert_agreement-Inserted (new_agreement now params) reg q) e
      go (err x) q = stays

  register_replacing-Became :
      (old : ℕ)
      → Became id a
          (after reg (register_agreement_with_pending_cancellation now params old reg)).agreements
  unfolding register_agreement_with_pending_cancellation
  register_replacing-Became old = go (insert_agreement (new_agreement now params) reg) refl
    where
      paired :
          (reg₁ : Registry) (r : Result Registry)
          → insert_pending params.agreement_id old reg₁ ≡ r
          → Became id a reg₁.agreements
          → Became id a (after reg (r >>= λ reg₂. ok (reg₂, params.agreement_id))).agreements
      paired reg₁ (ok reg₂) q b = rw (insert_pending-agreements params.agreement_id old reg₁ q) b
      paired reg₁ (err x) q b = stays

      go :
          (r : Result Registry)
          → insert_agreement (new_agreement now params) reg ≡ r
          → Became id a
              (after reg (
                r >>= λ reg₁. insert_pending params.agreement_id old reg₁ >>= λ reg₂.
                ok (reg₂, params.agreement_id))).agreements
      go (ok reg₁) q = paired reg₁ (insert_pending params.agreement_id old reg₁) refl (
          Became-insert id a (new_agreement now params) reg reg₁
            (insert_agreement-Inserted (new_agreement now params) reg q) e)
      go (err x) q = stays

write-Became :
    (now : ℕ) (w : Write) (reg : Registry) (id : ℕ) (a : Agreement)
    → find id reg.agreements ≡ some a
    → Became id a (write now w reg).agreements
unfolding write
write-Became now (register params) reg id a e = register-Became now id params reg a e
write-Became now (register_replacing params old) reg id a e =
    register_replacing-Became now id params reg a e old
write-Became now (on_rows w) reg id a e =
    find-Became id reg.agreements (write_rows now w reg.agreements) {a = a}
      (write_rows-Evolves now w reg.agreements) e
write-Became now (drop_pending new old) reg id a e = (a, e, Evolves-refl a)
write-Became now (drop_pendings new) reg id a e = (a, e, Evolves-refl a)

-- Through any history of the registry's writes, failed ones included, an agreement stays on record
-- under its id, keeps its request, deployment, indexer and terms, and its status moves only along
-- the diagram.
pub run-Became :
    (history : List (ℕ × Write)) (reg : Registry) (id : ℕ) (a : Agreement)
    → find id reg.agreements ≡ some a
    → Became id a (run history reg).agreements
unfolding run
run-Became [] reg id a e = (a, e, Evolves-refl a)
run-Became ((now, w) ∷ history) reg id a e =
    let (b, found, ab) = write-Became now w reg id a e in
    let (c, last, bc) = run-Became history (write now w reg) id b found in
    (c, last, Evolves-trans a b c ab bc)
