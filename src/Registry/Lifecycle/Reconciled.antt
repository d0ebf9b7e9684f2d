-- ===== src/Registry/Lifecycle/Reconciled.antt =====
-- Reconciliation, batched or not, and the audit writes (dipper-pgregistry/src/postgres.rs) follow
-- the diagram of the statuses.
use dipper.Prelude.{
  ℕ, refl, Bool, true, false, not, ◌&&◌, List, [], ◌∷◌, Option, none, some, String, inl, inr,
  if◌then◌else◌, Bool-cases, is_none, Pointwise, update,
}
use dipper.Registry.Types.{
  canceled_by_indexer, accepted_on_chain, Agreement, ok, err, after, ◌>>=◌, no_records_updated,
}
use dipper.Registry.Transitions.{
  batch_set_status, cancel_by_requester_from, cancel_by_indexer_from, update_status_from,
}
use dipper.Registry.Ends.{has_id, update_end, record_cancel_audit, record_accept_and_cancel_audit}
use dipper.Registry.Reconcile.{
  CancelKind, by_requester, by_indexer, ReconciliationItem, ReconciliationOutcome,
  ReconciliationAudit, accept_from, requester_end, batch_apply_cancel, apply_cancel, cancel_step,
  apply_reconciliation, apply_paired, is_paired, persist_accept_audit, persist_cancel_audit,
  persist_audits, apply_reconciliation_batch, Outcomes, outcome_of, alter, accept_phase,
  cancel_phase, audit_phase, default_outcomes, ids_where, is_accept_only, is_cancel_only,
}
use dipper.Registry.Lifecycle.Moves.{
  Evolves, Tables-refl, Tables-trans, update-Evolves, bind-Evolves, batch_set_status-Evolves,
  update_status_from-Evolves,
}
use dipper.Registry.Lifecycle.Edges.{accept_edge, requester_end_edge, indexer_edge, unmoved}

module _ (now : ℕ) where
  pub accept-Evolves :
      (id : ℕ) (rows : List Agreement)
      → Pointwise Evolves rows
          (after rows (update_status_from now id accepted_on_chain accept_from rows))
  accept-Evolves id rows =
      update_status_from-Evolves now id accepted_on_chain accept_from (λ a. accept_edge a.status)
        rows

  pub batch_apply_cancel-Evolves :
      (ids : List ℕ) (kind : CancelKind) (rows : List Agreement)
      → Pointwise Evolves rows (after rows (batch_apply_cancel now ids kind rows))
  unfolding batch_apply_cancel
  batch_apply_cancel-Evolves ids by_requester rows =
      batch_set_status-Evolves now ids requester_end cancel_by_requester_from requester_end_edge
        rows
  batch_apply_cancel-Evolves ids by_indexer rows =
      batch_set_status-Evolves now ids (λ _. canceled_by_indexer) cancel_by_indexer_from
        (λ a. indexer_edge a.status) rows

  pub apply_cancel-Evolves :
      (id : ℕ) (kind : CancelKind) (rows : List Agreement)
      → Pointwise Evolves rows (after rows (apply_cancel now id kind rows))
  unfolding apply_cancel
  apply_cancel-Evolves id kind rows =
      bind-Evolves rows (batch_apply_cancel now (id ∷ []) kind rows) _
        (batch_apply_cancel-Evolves (id ∷ []) kind rows) (λ mid x. Tables-refl mid)

  pub cancel_step-Evolves :
      (id : ℕ) (did : Bool) (cancel : Option CancelKind) (rows : List Agreement)
      → Pointwise Evolves rows (after rows (cancel_step now id did cancel rows))
  cancel_step-Evolves id did none rows = Tables-refl rows
  cancel_step-Evolves id did (some kind) rows =
      bind-Evolves rows (apply_cancel now id kind rows) _ (apply_cancel-Evolves id kind rows)
        (λ mid x. paired mid x)
    where
      paired :
          (mid : List Agreement) (x : Bool)
          → Pointwise Evolves mid (
              after {X = ReconciliationOutcome} mid (
                if did && not x
                then err no_records_updated
                else ok (mid, record { did_accept = did; did_cancel = x })))
      paired mid x = elim (Bool-cases (did && not x)) [
        | inl e ↦ rw e (Tables-refl mid)
        | inr e ↦ rw e (Tables-refl mid)
      ]

  pub apply_reconciliation-Evolves :
      (id : ℕ) (apply_accept : Bool) (cancel : Option CancelKind) (rows : List Agreement)
      → Pointwise Evolves rows (after rows (apply_reconciliation now id apply_accept cancel rows))
  unfolding apply_reconciliation
  apply_reconciliation-Evolves id true cancel rows =
      bind-Evolves rows (update_status_from now id accepted_on_chain accept_from rows) _
        (accept-Evolves id rows) (λ mid x. cancel_step-Evolves id x cancel mid)
  apply_reconciliation-Evolves id false cancel rows = cancel_step-Evolves id false cancel rows

  pub apply_paired-Evolves :
      (items : List ReconciliationItem) (rows : List Agreement) (outcomes : Outcomes)
      → Pointwise Evolves rows (after rows (apply_paired now items rows outcomes))
  unfolding apply_paired
  apply_paired-Evolves [] rows outcomes = Tables-refl rows
  apply_paired-Evolves (item ∷ items) rows outcomes = elim (Bool-cases (is_paired item)) [
    | inr single ↦ rw (single, apply_paired) (apply_paired-Evolves items rows outcomes)
    | inl paired ↦
        rw (paired, apply_paired)
          (bind-Evolves rows
            (update_status_from now item.agreement_id accepted_on_chain accept_from rows) _
            (accept-Evolves item.agreement_id rows)
            (λ mid x.
              bind-Evolves mid (cancel_step now item.agreement_id x item.cancel mid) _
                (cancel_step-Evolves item.agreement_id x item.cancel mid)
                (λ end o.
                  apply_paired-Evolves items end (alter item.agreement_id (λ _. o) outcomes))))
  ]

-- The audit writes leave keys, terms and statuses alone.
module _ (rows : List Agreement) where
  pub persist_accept_audit-Evolves :
      (id : ℕ) (audit : ReconciliationAudit)
      → Pointwise Evolves rows (persist_accept_audit id audit rows)
  unfolding persist_accept_audit
  persist_accept_audit-Evolves id audit =
      elim (Bool-cases (is_none audit.accepted_at && is_none audit.accepted_tx)) [
        | inl e ↦ rw e (Tables-refl rows)
        | inr e ↦
            rw e
              (update-Evolves (has_id id) _ (λ a h. unmoved a _ refl refl refl refl refl refl) rows)
      ]

  pub persist_cancel_audit-Evolves :
      (id : ℕ) (audit : ReconciliationAudit)
      → Pointwise Evolves rows (persist_cancel_audit id audit rows)
  unfolding persist_cancel_audit
  persist_cancel_audit-Evolves id audit =
      elim (Bool-cases
        (is_none audit.canceled_at && is_none audit.canceled_by && is_none audit.canceled_tx)) [
          | inl e ↦ rw e (Tables-refl rows)
          | inr e ↦
              rw e (
                update-Evolves (has_id id) _ (λ a h. unmoved a _ refl refl refl refl refl refl)
                  rows)
        ]

if-Evolves :
    (b : Bool) (rows yes_rows : List Agreement)
    → Pointwise Evolves rows yes_rows
    → Pointwise Evolves rows (if b then yes_rows else rows)
if-Evolves true rows yes_rows h = h
if-Evolves false rows yes_rows h = Tables-refl rows

pub persist_audits-Evolves :
    (items : List ReconciliationItem) (outcomes : Outcomes) (rows : List Agreement)
    → Pointwise Evolves rows (persist_audits items outcomes rows)
unfolding persist_audits
persist_audits-Evolves [] outcomes rows = Tables-refl rows
persist_audits-Evolves (item ∷ items) outcomes rows =
    let o = outcome_of item.agreement_id outcomes in
    let id = item.agreement_id in
    let accepted = if o.did_accept then persist_accept_audit id item.audit rows else rows in
    let ended = if o.did_cancel then persist_cancel_audit id item.audit accepted else accepted in
    Tables-trans rows accepted _
      (if-Evolves o.did_accept rows _ (persist_accept_audit-Evolves rows id item.audit))
      (Tables-trans accepted ended _
        (if-Evolves o.did_cancel accepted _ (persist_cancel_audit-Evolves accepted id item.audit))
        (persist_audits-Evolves items outcomes ended))

module _ (now : ℕ) (items : List ReconciliationItem) where
  accept_phase-Evolves :
      (rows : List Agreement) (outcomes : Outcomes)
      → Pointwise Evolves rows (after rows (accept_phase now items (rows, outcomes)))
  unfolding accept_phase
  accept_phase-Evolves rows outcomes =
      bind-Evolves rows
        (batch_set_status now (ids_where is_accept_only items) (λ _. accepted_on_chain) accept_from
          rows)
        _
        (batch_set_status-Evolves now (ids_where is_accept_only items) (λ _. accepted_on_chain)
          accept_from (λ a. accept_edge a.status) rows)
        (λ mid x. Tables-refl mid)

  cancel_phase-Evolves :
      (kind : CancelKind) (rows : List Agreement) (outcomes : Outcomes)
      → Pointwise Evolves rows (after rows (cancel_phase now kind items (rows, outcomes)))
  unfolding cancel_phase
  cancel_phase-Evolves kind rows outcomes =
      bind-Evolves rows (batch_apply_cancel now (ids_where (is_cancel_only kind) items) kind rows) _
        (batch_apply_cancel-Evolves now (ids_where (is_cancel_only kind) items) kind rows)
        (λ mid x. Tables-refl mid)

  pub apply_reconciliation_batch-Evolves :
      (rows : List Agreement)
      → Pointwise Evolves rows (after rows (apply_reconciliation_batch now items rows))
  unfolding apply_reconciliation_batch
  apply_reconciliation_batch-Evolves rows =
      let paired = apply_paired now items rows (default_outcomes items) in
      let accepted = paired >>= accept_phase now items in
      let by_us = accepted >>= cancel_phase now by_requester items in
      let by_them = by_us >>= cancel_phase now by_indexer items in
      bind-Evolves rows by_them (audit_phase items)
        (bind-Evolves rows by_us (cancel_phase now by_indexer items)
          (bind-Evolves rows accepted (cancel_phase now by_requester items)
            (bind-Evolves rows paired (accept_phase now items)
              (apply_paired-Evolves now items rows (default_outcomes items)) accept_phase-Evolves)
            (cancel_phase-Evolves by_requester))
          (cancel_phase-Evolves by_indexer))
        (λ mid outcomes. persist_audits-Evolves items outcomes mid)

module _ (id : ℕ) (rows : List Agreement) where
  pub update_end-Evolves :
      (f : Agreement → Agreement)
      → ((a : Agreement) → Evolves a (f a))
      → Pointwise Evolves rows (update_end id f rows).0
  unfolding update_end
  update_end-Evolves f h = update-Evolves (has_id id) f (λ a _. h a) rows

  pub record_cancel_audit-Evolves :
      (at : ℕ) (by : String) (tx : Option String)
      → Pointwise Evolves rows (record_cancel_audit id at by tx rows).0
  unfolding record_cancel_audit
  record_cancel_audit-Evolves at by tx =
      update_end-Evolves _ (λ a. unmoved a _ refl refl refl refl refl refl)

  pub record_accept_and_cancel_audit-Evolves :
      (accepted : ℕ) (accepted_tx : String) (at : ℕ) (by : String) (tx : Option String)
      → Pointwise Evolves rows
          (record_accept_and_cancel_audit id accepted accepted_tx at by tx rows).0
  unfolding record_accept_and_cancel_audit
  record_accept_and_cancel_audit-Evolves accepted accepted_tx at by tx =
      update_end-Evolves _ (λ a. unmoved a _ refl refl refl refl refl refl)

  -- Any update of a row's other columns, by its id.
  pub by_id-Evolves :
      (f : Agreement → Agreement)
      → ((a : Agreement) → Evolves a (f a))
      → Pointwise Evolves rows (update (has_id id) f rows)
  by_id-Evolves f h = update-Evolves (has_id id) f (λ a _. h a) rows
