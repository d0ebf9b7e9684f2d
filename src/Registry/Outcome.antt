-- ===== src/Registry/Outcome.antt =====
-- What a reconciliation of dipper-pgregistry/src/postgres.rs means for the one row it names.
use mathlib.Core.Path.{ap₂, subst}
use dipper.Prelude.{
  ℕ, ◌≡◌, refl, sym, ◌∙◌, Bool, true, false, not, ◌&&◌, List, Option, none, some, arith, inl, inr,
  if◌then◌else◌, Bool-cases, ◌==◌, ==_iff,
}
use dipper.Registry.Types.{
  Error, Status, Agreement, Result, ok, err, ◌>>=◌, unique_violation, no_records_updated,
  accepted_on_chain, canceled_by_indexer,
}
use dipper.Registry.Transitions.{
  set_status, batch_update_status_from, update_status_from, cancel_by_requester_from,
  cancel_by_indexer_from,
}
use dipper.Registry.Ends.{find}
use dipper.Registry.Reconcile.{
  CancelKind, by_requester, by_indexer, ReconciliationOutcome, accept_from, requester_end,
  apply_cancel, batch_apply_cancel, accept_step, cancel_step, apply_reconciliation,
}
use dipper.Registry.Rows.{PrimaryKey}
use dipper.Registry.PerRow.{Step, Step-trans, moved-Step, moved_error}

abbrev settle : Bool → List Agreement × Bool → Result (List Agreement × ReconciliationOutcome)
settle did_accept (rows, did_cancel) =
    if did_accept && not did_cancel
    then err no_records_updated
    else ok (rows, record { did_accept = did_accept; did_cancel = did_cancel })

abbrev accepted_row : ℕ → Bool → Agreement → Agreement
accepted_row now seen a =
    if seen && accept_from a.status then set_status now (λ _. accepted_on_chain) a else a

abbrev cancel_from : CancelKind → Status → Bool
cancel_from by_requester s = cancel_by_requester_from s
cancel_from by_indexer s = cancel_by_indexer_from s

abbrev cancel_end : CancelKind → Agreement → Status
cancel_end by_requester a = requester_end a
cancel_end by_indexer a = canceled_by_indexer

abbrev cancelled_row : ℕ → Option CancelKind → Agreement → Agreement
cancelled_row now none a = a
cancelled_row now (some kind) a =
    if cancel_from kind a.status then set_status now (cancel_end kind) a else a

-- The row after a reconciliation: the accept first, then the cancel, each where the status allows.
abbrev pub reconciled_row : ℕ → Bool → Option CancelKind → Agreement → Agreement
reconciled_row now seen cancel a = cancelled_row now cancel (accepted_row now seen a)

-- Which of the two moved it.
abbrev pub reconciled_outcome : ℕ → Bool → Option CancelKind → Agreement → ReconciliationOutcome
reconciled_outcome now seen cancel a = record {
  did_accept = seen && accept_from a.status;
  did_cancel = elim cancel [
    | none ↦ false
    | some kind ↦ cancel_from kind (accepted_row now seen a).status
  ];
}

module _ (now id : ℕ) (rows : List Agreement) {a : Agreement} (key : PrimaryKey rows)
    (e : find id rows ≡ some a) where
  accept_step-Step :
      (seen : Bool) {rows' : List Agreement} {moved : Bool}
      → accept_step now id seen rows ≡ ok (rows', moved)
      → (moved ≡ (seen && accept_from a.status)) × Step id rows (accepted_row now seen a) rows'
  unfolding update_status_from batch_update_status_from
  accept_step-Step false q = (
    cc,
    subst (λ xs. Step id rows a xs) (ground arith)
        (record { row = e; key = key; others = λ k other. refl }),
  )
  accept_step-Step true q = moved-Step now id (λ _. accepted_on_chain) accept_from rows key e q

  apply_cancel-Step :
      (kind : CancelKind) {rows' : List Agreement} {moved : Bool}
      → apply_cancel now id kind rows ≡ ok (rows', moved)
      → (moved ≡ cancel_from kind a.status) × Step id rows (cancelled_row now (some kind) a) rows'
  unfolding apply_cancel batch_apply_cancel batch_update_status_from
  apply_cancel-Step by_requester q =
      moved-Step now id requester_end cancel_by_requester_from rows key e q
  apply_cancel-Step by_indexer q =
      moved-Step now id (λ _. canceled_by_indexer) cancel_by_indexer_from rows key e q

  cancel_step-Step :
      (did_accept : Bool) (cancel : Option CancelKind) {rows' : List Agreement}
      {o : ReconciliationOutcome}
      → cancel_step now id did_accept cancel rows ≡ ok (rows', o)
      → (o.did_accept ≡ did_accept)
        × (o.did_cancel ≡ elim cancel [ none ↦ false | some kind ↦ cancel_from kind a.status ])
        × Step id rows (cancelled_row now cancel a) rows'
  cancel_step-Step did_accept none q = (
    ground arith,
    ground arith,
    subst (λ xs. Step id rows a xs) (ground arith)
        (record { row = e; key = key; others = λ k other. refl }),
  )
  cancel_step-Step did_accept (some kind) {rows'} {o} q = go (apply_cancel now id kind rows) refl q
    where
      go :
          (r : Result (List Agreement × Bool))
          → apply_cancel now id kind rows ≡ r
          → (r >>= settle did_accept) ≡ ok (rows', o)
          → (o.did_accept ≡ did_accept)
            × (o.did_cancel ≡ cancel_from kind a.status)
            × Step id rows (cancelled_row now (some kind) a) rows'
      go (ok (x, did_cancel)) q h =
          let (m, s) = apply_cancel-Step kind q in
          (
            ground arith,
            ground (arith, m),
            subst (λ xs. Step id rows (cancelled_row now (some kind) a) xs) (ground arith) s,
          )
      go (err x) q h = cc

apply_reconciliation-Step :
    (now id : ℕ) (seen : Bool) (cancel : Option CancelKind) (rows : List Agreement) (a : Agreement)
    (rows' : List Agreement) (o : ReconciliationOutcome)
    → PrimaryKey rows
    → find id rows ≡ some a
    → apply_reconciliation now id seen cancel rows ≡ ok (rows', o)
    → (o ≡ reconciled_outcome now seen cancel a)
      × Step id rows (reconciled_row now seen cancel a) rows'
unfolding apply_reconciliation
apply_reconciliation-Step now id seen cancel rows a rows' o key e =
    go (accept_step now id seen rows) refl
  where
    go :
        (r : Result (List Agreement × Bool))
        → accept_step now id seen rows ≡ r
        → (r >>= λ t. cancel_step now id (t.1) cancel (t.0)) ≡ ok (rows', o)
        → (o ≡ reconciled_outcome now seen cancel a)
          × Step id rows (reconciled_row now seen cancel a) rows'
    go (ok (x, did_accept)) q h =
        let (m, s) = accept_step-Step now id rows key e seen q in
        let (n, c, t) = cancel_step-Step now id x s.key s.row did_accept cancel h in
        (ap₂ (λ u v. record { did_accept = u; did_cancel = v }) (n ∙ m) c, Step-trans s t)
    go (err x) q h = cc

-- Under the primary key, a reconciliation that succeeds makes of the row it names what the accept
-- and then the cancel make of it, reports which of the two moved it, leaves every other row
-- found as it was, and keeps the primary key.
pub apply_reconciliation-row :
    (now id : ℕ) (seen : Bool) (cancel : Option CancelKind) (rows : List Agreement) (a : Agreement)
    (rows' : List Agreement) (o : ReconciliationOutcome) (k : ℕ)
    → PrimaryKey rows
    → find id rows ≡ some a
    → apply_reconciliation now id seen cancel rows ≡ ok (rows', o)
    → (o ≡ reconciled_outcome now seen cancel a)
      × (find k rows' ≡ (if id == k then some (reconciled_row now seen cancel a) else find k rows))
      × PrimaryKey rows'
apply_reconciliation-row now id seen cancel rows a rows' o k key e q =
    let (same, s) = apply_reconciliation-Step now id seen cancel rows a rows' o key e q in
    let at_k : find k rows'
        ≡ (if id == k then some (reconciled_row now seen cancel a) else find k rows) =
      elim (Bool-cases (id == k)) [
        | inl mine ↦ rw mine (
            subst (λ i. find i rows' ≡ some (reconciled_row now seen cancel a))
              ((==_iff id k).0 mine) s.row)
        | inr other ↦ rw other (s.others k other)
      ] in
    (same, at_k, s.key)

seen_accept-cancel_from :
    (now : ℕ) (seen : Bool) (kind : CancelKind) (a : Agreement)
    → (seen && accept_from a.status) ≡ true
    → cancel_from kind (accepted_row now seen a).status ≡ true
seen_accept-cancel_from now seen by_requester a h = rw h
seen_accept-cancel_from now seen by_indexer a h = rw h

-- Under the primary key, a reconciliation of a row on record fails only on the unique index of
-- active agreements. A paired accept and cancel never stops halfway: the status that the accept
-- leaves is one that either cancel starts from.
pub apply_reconciliation_error :
    (now id : ℕ) (seen : Bool) (cancel : Option CancelKind) (rows : List Agreement) (a : Agreement)
    (x : Error)
    → PrimaryKey rows
    → find id rows ≡ some a
    → apply_reconciliation now id seen cancel rows ≡ err x
    → x ≡ unique_violation
unfolding apply_reconciliation update_status_from batch_update_status_from apply_cancel
    batch_apply_cancel
apply_reconciliation_error now id seen cancel rows a x key e =
    go (accept_step now id seen rows) refl
  where
    kind_error :
        (kind : CancelKind) (xs : List Agreement) (y : Error)
        → apply_cancel now id kind xs ≡ err y
        → y ≡ unique_violation
    kind_error by_requester xs y q = moved_error now id requester_end cancel_by_requester_from xs q
    kind_error by_indexer xs y q =
        moved_error now id (λ _. canceled_by_indexer) cancel_by_indexer_from xs q

    accept_error : (b : Bool) (y : Error) → accept_step now id b rows ≡ err y → y ≡ unique_violation
    accept_error false y q = cc
    accept_error true y q = moved_error now id (λ _. accepted_on_chain) accept_from rows q

    settled :
        (kind : CancelKind) (xs : List Agreement) (did_accept : Bool)
        → (did_accept ≡ (seen && accept_from a.status))
        → Step id rows (accepted_row now seen a) xs
        → (r : Result (List Agreement × Bool)) → apply_cancel now id kind xs ≡ r
        → (r >>= settle did_accept) ≡ err x
        → x ≡ unique_violation
    settled kind xs did_accept m s (ok (ys, did_cancel)) q h =
        let (n, t) = apply_cancel-Step now id xs s.key s.row kind q in
        elim (Bool-cases did_accept) [
          | inl y ↦
              let paired = seen_accept-cancel_from now seen kind a (sym m ∙ y) in
              ground (arith, n, paired)
          | inr z ↦ ground arith
        ]
    settled kind xs did_accept m s (err y) q h = sym (ground arith) ∙ kind_error kind xs y q

    go :
        (r : Result (List Agreement × Bool))
        → accept_step now id seen rows ≡ r
        → (r >>= λ t. cancel_step now id (t.1) cancel (t.0)) ≡ err x
        → x ≡ unique_violation
    go (ok (xs, did_accept)) q h =
        let (m, s) = accept_step-Step now id rows key e seen q in
        elim cancel as (λ c. cancel_step now id did_accept c xs ≡ err x → x ≡ unique_violation) [
          | none ↦ λ k. cc
          | some kind ↦ λ k. settled kind xs did_accept m s (apply_cancel now id kind xs) refl k
        ]
          h
    go (err y) q h = sym (ground arith) ∙ accept_error seen y q
