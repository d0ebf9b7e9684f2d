-- ===== src/Registry/Lifecycle/KeepsUnique.antt =====
-- The status writes and the reconciliations of dipper-pgregistry/src/postgres.rs keep the partial
-- unique index of active agreements.
use dipper.Prelude.{
  ℕ, refl, Bool, true, false, not, ◌&&◌, List, [], ◌∷◌, Option, none, some, inl, inr, if◌then◌else◌,
  Bool-cases, update, is_none,
}
use dipper.Registry.Types.{
  Status, canceled_by_indexer, accepted_on_chain, Agreement, Result, ok, err, after, after_write,
  ◌>>=◌, no_records_updated,
}
use dipper.Registry.Transitions.{
  unique_active, checked, is_empty, matches, set_status, batch_set_status, batch_update_status_from,
  update_status_from, set_status_from, cancel_by_requester_from, cancel_by_indexer_from,
}
use dipper.Registry.Ends.{has_id}
use dipper.Registry.Reconcile.{
  CancelKind, by_requester, by_indexer, ReconciliationItem, ReconciliationOutcome, Outcomes,
  accept_from, requester_end, batch_apply_cancel, apply_cancel, cancel_step, apply_reconciliation,
  is_paired, apply_paired, alter, accept_phase, cancel_phase, audit_phase, default_outcomes,
  ids_where, is_accept_only, is_cancel_only, outcome_of, persist_accept_audit, persist_cancel_audit,
  persist_audits, apply_reconciliation_batch,
}
use dipper.Registry.Lifecycle.Shrinks.{IsUnique, Shrinks, bind-IsUnique, kept, update-IsUnique}

-- A batched write is checked, whatever it sets.
module _ (now : ℕ) where
  batch-IsUnique :
      (ids : List ℕ) (status_sql : Agreement → Status) (from : Status → Bool)
      (rows : List Agreement)
      → IsUnique rows
      → IsUnique (after rows (batch_set_status now ids status_sql from rows))
  unfolding batch_set_status checked
  batch-IsUnique ids status_sql from rows h = elim (Bool-cases (is_empty ids)) [
    | inl none_given ↦ rw none_given h
    | inr given ↦
        rw given elim (Bool-cases (unique_active written)) [ inl u ↦ rw u u | inr d ↦ rw d h ]
  ]
    where
      written : List Agreement
      written = update (matches ids from) (set_status now status_sql) rows

  one-IsUnique :
      (id : ℕ) (new : Status) (from : Status → Bool) (rows : List Agreement)
      → IsUnique rows
      → IsUnique (after rows (update_status_from now id new from rows))
  unfolding update_status_from batch_update_status_from
  one-IsUnique id new from rows h =
      bind-IsUnique rows (batch_set_status now (id ∷ []) (λ _. new) from rows) _ h
        (batch-IsUnique (id ∷ []) (λ _. new) from rows h) (λ mid x u. u)

  pub set-IsUnique :
      (id : ℕ) (new : Status) (from : Status → Bool) (rows : List Agreement)
      → IsUnique rows
      → IsUnique (after_write rows (set_status_from now id new from rows))
  unfolding set_status_from
  set-IsUnique id new from rows h =
      moved (update_status_from now id new from rows) (one-IsUnique id new from rows h)
    where
      moved :
          (r : Result (List Agreement × Bool))
          → IsUnique (after rows r)
          → IsUnique (
              after_write rows
                (r >>= λ (rows', updated). if updated then ok rows' else err no_records_updated))
      moved (ok (rows', true)) q = q
      moved (ok (rows', false)) q = h
      moved (err e) q = h

  cancels-IsUnique :
      (ids : List ℕ) (kind : CancelKind) (rows : List Agreement)
      → IsUnique rows
      → IsUnique (after rows (batch_apply_cancel now ids kind rows))
  unfolding batch_apply_cancel batch_update_status_from
  cancels-IsUnique ids by_requester rows h =
      batch-IsUnique ids requester_end cancel_by_requester_from rows h
  cancels-IsUnique ids by_indexer rows h =
      batch-IsUnique ids (λ _. canceled_by_indexer) cancel_by_indexer_from rows h

  cancel_step-IsUnique :
      (id : ℕ) (did : Bool) (cancel : Option CancelKind) (rows : List Agreement)
      → IsUnique rows
      → IsUnique (after rows (cancel_step now id did cancel rows))
  unfolding apply_cancel
  cancel_step-IsUnique id did none rows h = h
  cancel_step-IsUnique id did (some kind) rows h =
      bind-IsUnique rows (apply_cancel now id kind rows) _ h
        (bind-IsUnique rows (batch_apply_cancel now (id ∷ []) kind rows) _ h
          (cancels-IsUnique (id ∷ []) kind rows h) (λ mid x u. u))
        paired
    where
      paired :
          (mid : List Agreement) (x : Bool)
          → IsUnique mid
          → IsUnique (
              after {X = ReconciliationOutcome} mid (
                if did && not x
                then err no_records_updated
                else ok (mid, record { did_accept = did; did_cancel = x })))
      paired mid x u = elim (Bool-cases (did && not x)) [ inl e ↦ rw e u | inr e ↦ rw e u ]

  pub reconcile-IsUnique :
      (id : ℕ) (seen : Bool) (cancel : Option CancelKind) (rows : List Agreement)
      → IsUnique rows
      → IsUnique (after rows (apply_reconciliation now id seen cancel rows))
  unfolding apply_reconciliation
  reconcile-IsUnique id true cancel rows h =
      bind-IsUnique rows (update_status_from now id accepted_on_chain accept_from rows) _ h
        (one-IsUnique id accepted_on_chain accept_from rows h)
        (λ mid x u. cancel_step-IsUnique id x cancel mid u)
  reconcile-IsUnique id false cancel rows h = cancel_step-IsUnique id false cancel rows h

  paired-IsUnique :
      (items : List ReconciliationItem) (rows : List Agreement) (outcomes : Outcomes)
      → IsUnique rows
      → IsUnique (after rows (apply_paired now items rows outcomes))
  unfolding apply_paired
  paired-IsUnique [] rows outcomes h = h
  paired-IsUnique (item ∷ items) rows outcomes h = elim (Bool-cases (is_paired item)) [
    | inr single ↦ rw (single, apply_paired) (paired-IsUnique items rows outcomes h)
    | inl paired ↦
        rw (paired, apply_paired)
          (bind-IsUnique rows
            (update_status_from now item.agreement_id accepted_on_chain accept_from rows) _ h
            (one-IsUnique item.agreement_id accepted_on_chain accept_from rows h)
            (λ mid x u.
              bind-IsUnique mid (cancel_step now item.agreement_id x item.cancel mid) _ u
                (cancel_step-IsUnique item.agreement_id x item.cancel mid u)
                (λ end o v.
                  paired-IsUnique items end (alter item.agreement_id (λ _. o) outcomes) v)))
  ]

-- Writes of other columns.
pub by_id-IsUnique :
    (id : ℕ) (f : Agreement → Agreement)
    → ((a : Agreement) → Shrinks a (f a))
    → (rows : List Agreement) → IsUnique rows
    → IsUnique (update (has_id id) f rows)
by_id-IsUnique id f s rows h = update-IsUnique (has_id id) f (λ a _. s a) rows h

audits-IsUnique :
    (items : List ReconciliationItem) (outcomes : Outcomes) (rows : List Agreement)
    → IsUnique rows
    → IsUnique (persist_audits items outcomes rows)
unfolding persist_audits persist_accept_audit persist_cancel_audit
audits-IsUnique [] outcomes rows h = h
audits-IsUnique (item ∷ items) outcomes rows h =
    audits-IsUnique items outcomes _ (cancelled o.did_cancel _ (accepted o.did_accept rows h))
  where
    o : ReconciliationOutcome
    o = outcome_of item.agreement_id outcomes

    id : ℕ
    id = item.agreement_id

    accepted :
        (b : Bool) (rows : List Agreement)
        → IsUnique rows
        → IsUnique (if b then persist_accept_audit id item.audit rows else rows)
    accepted false rows u = u
    accepted true rows u =
        elim (Bool-cases (is_none item.audit.accepted_at && is_none item.audit.accepted_tx)) [
          | inl e ↦ rw e u
          | inr e ↦ rw e (by_id-IsUnique id _ (λ a. kept a _ refl refl refl) rows u)
        ]

    cancelled :
        (b : Bool) (rows : List Agreement)
        → IsUnique rows
        → IsUnique (if b then persist_cancel_audit id item.audit rows else rows)
    cancelled false rows u = u
    cancelled true rows u =
        elim (Bool-cases (
          is_none item.audit.canceled_at
          && is_none item.audit.canceled_by
          && is_none item.audit.canceled_tx)) [
            | inl e ↦ rw e u
            | inr e ↦ rw e (by_id-IsUnique id _ (λ a. kept a _ refl refl refl) rows u)
          ]

pub batch_reconcile-IsUnique :
    (now : ℕ) (items : List ReconciliationItem) (rows : List Agreement)
    → IsUnique rows
    → IsUnique (after rows (apply_reconciliation_batch now items rows))
unfolding apply_reconciliation_batch batch_update_status_from
batch_reconcile-IsUnique now items rows h =
    let paired = apply_paired now items rows (default_outcomes items) in
    let accepted = paired >>= accept_phase now items in
    let by_us = accepted >>= cancel_phase now by_requester items in
    let by_them = by_us >>= cancel_phase now by_indexer items in
    bind-IsUnique rows by_them (audit_phase items) h
      (bind-IsUnique rows by_us (cancel_phase now by_indexer items) h
        (bind-IsUnique rows accepted (cancel_phase now by_requester items) h
          (bind-IsUnique rows paired (accept_phase now items) h
            (paired-IsUnique now items rows (default_outcomes items) h) accepts)
          (ends by_requester))
        (ends by_indexer))
      (λ mid outcomes u. audits-IsUnique items outcomes mid u)
  where
    accepts :
        (mid : List Agreement) (outcomes : Outcomes)
        → IsUnique mid
        → IsUnique (after mid (accept_phase now items (mid, outcomes)))
    accepts mid outcomes u =
        bind-IsUnique mid
          (batch_set_status now (ids_where is_accept_only items) (λ _. accepted_on_chain)
            accept_from mid)
          _ u
          (batch-IsUnique now (ids_where is_accept_only items) (λ _. accepted_on_chain) accept_from
            mid u)
          (λ end x v. v)

    ends :
        (kind : CancelKind) (mid : List Agreement) (outcomes : Outcomes)
        → IsUnique mid
        → IsUnique (after mid (cancel_phase now kind items (mid, outcomes)))
    ends kind mid outcomes u =
        bind-IsUnique mid (batch_apply_cancel now (ids_where (is_cancel_only kind) items) kind mid)
          _ u (cancels-IsUnique now (ids_where (is_cancel_only kind) items) kind mid u)
          (λ end x v. v)
