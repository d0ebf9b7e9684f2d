-- ===== src/Registry/Batch.antt =====
-- A batch of one reconciliation against a single one (dipper-pgregistry/src/postgres.rs).
use mathlib.Core.Path.{subst}
use dipper.Prelude.{
  ℕ, ◌≡◌, refl, ◌∙◌, ap, Bool, true, false, not, ◌&&◌, List, [], ◌∷◌, Option, none, some, arith,
  ◌⊎◌, inl, inr, ◌==◌, map, if◌then◌else◌, Bool-cases, All, select, ==_refl,
}
use dipper.Registry.Types.{
  Error, Status, accepted_on_chain, canceled_by_indexer, Agreement, Result, ok, err, ◌>>=◌,
}
use dipper.Registry.Transitions.{
  checked, is_empty, matches, batch_set_status, batch_update_status_from, cancel_by_requester_from,
  cancel_by_indexer_from,
}
use dipper.Registry.Reconcile.{
  CancelKind, by_requester, by_indexer, ReconciliationOutcome, ReconciliationAudit,
  ReconciliationItem, accept_from, requester_end, batch_apply_cancel, apply_cancel,
  apply_reconciliation, default_outcome, alter, alter_all, ids_where, apply_paired, persist_audits,
  default_outcomes, set_accepted, set_cancelled, accept_phase, cancel_phase, audit_phase,
  apply_reconciliation_batch,
}

-- The ids that a statement on one id returns are that id.
abbrev Only : ℕ → List ℕ → Type 0
Only id ids = All (λ x. (x == id) ≡ true) ids

select-Only :
    (id : ℕ) (from : Status → Bool) (rows : List Agreement)
    → Only id (map (λ (a : Agreement). a.id) (select (matches (id ∷ []) from) rows))
unfolding select
select-Only id from [] = tt
select-Only id from (r ∷ rows) = elim (Bool-cases (r.id == id)) [
  | inl hit ↦ elim (Bool-cases (from r.status)) [
    | inl y ↦ rw (hit, y) (hit, select-Only id from rows)
    | inr n ↦ rw (hit, n) (select-Only id from rows)
  ]
  | inr miss ↦ rw miss (select-Only id from rows)
]

batch_set_status-Only :
    (now id : ℕ) (status_sql : Agreement → Status) (from : Status → Bool)
    (rows rows' : List Agreement) (ids : List ℕ)
    → batch_set_status now (id ∷ []) status_sql from rows ≡ ok (rows', ids)
    → Only id ids
unfolding batch_set_status checked
batch_set_status-Only now id status_sql from rows rows' ids e =
    let same : map (λ (a : Agreement). a.id) (select (matches (id ∷ []) from) rows) ≡ ids =
      ground arith in
    subst (Only id) same (select-Only id from rows)

-- Flagging an outcome for each of those ids flags it if there is one.
alter_all-Only :
    (id : ℕ) (ids : List ℕ) (f : ReconciliationOutcome → ReconciliationOutcome)
    (o : ReconciliationOutcome)
    → ((x : ReconciliationOutcome) → f (f x) ≡ f x)
    → Only id ids
    → alter_all ids f ((id, o) ∷ []) ≡ (id, if not (is_empty ids) then f o else o) ∷ []
unfolding alter_all alter
alter_all-Only id [] f o twice only = refl
alter_all-Only id (x ∷ xs) f o twice only =
    let hit : (id == x) ≡ true = ground (arith, only.0) in
    rw hit (
      alter_all-Only id xs f (f o) twice only.1
      ∙ ap (λ y. (id, y) ∷ []) (settled (not (is_empty xs))))
  where
    settled : (b : Bool) → (if b then f (f o) else f o) ≡ f o
    settled true = twice o
    settled false = refl

-- Setting the one outcome of a page sets it.
alter-own :
    (id : ℕ) (o : ReconciliationOutcome)
    → alter id (λ _. o) ((id, default_outcome) ∷ []) ≡ (id, o) ∷ []
unfolding alter
alter-own id o = rw (==_refl id) refl

abbrev only_accept : Bool → ReconciliationOutcome
only_accept b = record { did_accept = b; did_cancel = false }

abbrev only_cancel : Bool → ReconciliationOutcome
only_cancel b = record { did_accept = false; did_cancel = b }

accept_flag :
    (b : Bool) → (if b then set_accepted default_outcome else default_outcome) ≡ only_accept b
accept_flag true = refl
accept_flag false = refl

cancel_flag :
    (b : Bool) → (if b then set_cancelled default_outcome else default_outcome) ≡ only_cancel b
cancel_flag true = refl
cancel_flag false = refl

Result-cases {ℓ} :
    {A : Type ℓ} (r : Result A) → ((a : A) × (r ≡ ok a)) ⊎ ((x : Error) × (r ≡ err x))
Result-cases (ok a) = inl (a, refl)
Result-cases (err x) = inr (x, refl)

module _ (now id : ℕ) (status_sql : Agreement → Status) (from : Status → Bool)
    (rows : List Agreement) where
  flagged :
      (flag : ReconciliationOutcome → ReconciliationOutcome) (rows' : List Agreement) (ids : List ℕ)
      → ((x : ReconciliationOutcome) → flag (flag x) ≡ flag x)
      → batch_set_status now (id ∷ []) status_sql from rows ≡ ok (rows', ids)
      → alter_all ids flag ((id, default_outcome) ∷ [])
        ≡ (id, if not (is_empty ids) then flag default_outcome else default_outcome) ∷ []
  flagged flag rows' ids twice e =
      alter_all-Only id ids flag default_outcome twice
        (batch_set_status-Only now id status_sql from rows rows' ids e)

-- Reconciling a page of one item is reconciling the item and persisting what the chain told of it.
pub apply_reconciliation_batch-single :
    (now id : ℕ) (seen : Bool) (cancel : Option CancelKind) (audit : ReconciliationAudit)
    (rows : List Agreement)
    → let item : ReconciliationItem = record {
      agreement_id = id;
      apply_accept = seen;
      cancel = cancel;
      audit = audit;
    } in
      apply_reconciliation_batch now (item ∷ []) rows ≡ (
        apply_reconciliation now id seen cancel rows >>= λ t.
        ok (persist_audits (item ∷ []) ((id, t.1) ∷ []) t.0, (id, t.1) ∷ []))
unfolding apply_reconciliation_batch apply_reconciliation apply_paired accept_phase cancel_phase
    audit_phase default_outcomes ids_where batch_set_status batch_update_status_from
    batch_apply_cancel alter_all
apply_reconciliation_batch-single now id false none audit rows = refl
apply_reconciliation_batch-single now id true none audit rows =
    elim (Result-cases (batch_set_status now (id ∷ []) (λ _. accepted_on_chain) accept_from rows)) [
      | inl ((rows', ids), e) ↦
          let item : ReconciliationItem = record {
            agreement_id = id;
            apply_accept = true;
            cancel = none;
            audit = audit;
          } in
          rw (e, apply_reconciliation_batch, apply_reconciliation)
            (ap (λ os. audit_phase (item ∷ []) (rows', os))
              (flagged now id (λ _. accepted_on_chain) accept_from rows set_accepted rows' ids
                  (λ x. refl) e
                ∙ ap (λ y. (id, y) ∷ []) (accept_flag (not (is_empty ids)))))
      | inr (x, e) ↦ rw (e, apply_reconciliation_batch, apply_reconciliation) refl
    ]
apply_reconciliation_batch-single now id false (some by_requester) audit rows =
    elim (Result-cases
      (batch_set_status now (id ∷ []) requester_end cancel_by_requester_from rows)) [
        | inl ((rows', ids), e) ↦
            let item : ReconciliationItem = record {
              agreement_id = id;
              apply_accept = false;
              cancel = some by_requester;
              audit = audit;
            } in
            rw (e, apply_reconciliation_batch, apply_reconciliation)
              (ap (λ os. audit_phase (item ∷ []) (rows', os))
                (flagged now id requester_end cancel_by_requester_from rows set_cancelled rows' ids
                    (λ x. refl) e
                  ∙ ap (λ y. (id, y) ∷ []) (cancel_flag (not (is_empty ids)))))
        | inr (x, e) ↦ rw (e, apply_reconciliation_batch, apply_reconciliation) refl
      ]
apply_reconciliation_batch-single now id false (some by_indexer) audit rows =
    elim (Result-cases
      (batch_set_status now (id ∷ []) (λ _. canceled_by_indexer) cancel_by_indexer_from rows)) [
        | inl ((rows', ids), e) ↦
            let item : ReconciliationItem = record {
              agreement_id = id;
              apply_accept = false;
              cancel = some by_indexer;
              audit = audit;
            } in
            rw (e, apply_reconciliation_batch, apply_reconciliation)
              (ap (λ os. audit_phase (item ∷ []) (rows', os))
                (flagged now id (λ _. canceled_by_indexer) cancel_by_indexer_from rows set_cancelled
                    rows' ids (λ x. refl) e
                  ∙ ap (λ y. (id, y) ∷ []) (cancel_flag (not (is_empty ids)))))
        | inr (x, e) ↦ rw (e, apply_reconciliation_batch, apply_reconciliation) refl
      ]
apply_reconciliation_batch-single now id true (some kind) audit rows =
    elim (Result-cases (batch_set_status now (id ∷ []) (λ _. accepted_on_chain) accept_from rows)) [
      | inl ((rows', ids), e) ↦ elim (Result-cases (apply_cancel now id kind rows')) [
        | inl ((rows'', did_cancel), e₂) ↦
            elim (Bool-cases (not (is_empty ids) && not did_cancel)) [
              | inl y ↦ rw (e, e₂, y, apply_reconciliation_batch, apply_reconciliation) refl
              | inr n ↦
                  let item : ReconciliationItem = record {
                    agreement_id = id;
                    apply_accept = true;
                    cancel = some kind;
                    audit = audit;
                  } in
                  let o : ReconciliationOutcome = record {
                    did_accept = not (is_empty ids);
                    did_cancel = did_cancel;
                  } in
                  rw (e, e₂, n, apply_reconciliation_batch, apply_reconciliation)
                    (ap (λ os. audit_phase (item ∷ []) (rows'', os)) (alter-own id o))
            ]
        | inr (x, e₂) ↦ rw (e, e₂, apply_reconciliation_batch, apply_reconciliation) refl
      ]
      | inr (x, e) ↦ rw (e, apply_reconciliation_batch, apply_reconciliation) refl
    ]
