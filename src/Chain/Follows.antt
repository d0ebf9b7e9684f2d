-- ===== src/Chain/Follows.antt =====
-- The reconciliation prepared from a snapshot, applied by the registry
-- (bin/dipper-service/src/network/service/chain_listener.rs, dipper-pgregistry/src/postgres.rs).
use mathlib.Core.Path.{subst}
use dipper.Prelude.{
  ℕ, ◌≡◌, ◌∙◌, ap, Bool, true, false, ◌||◌, List, some, String, arith, ◌==◌, if◌then◌else◌, is_some,
  ==_refl,
}
use dipper.Registry.Types.{
  Status, accepted_on_chain, canceled_by_indexer, is_created, is_expired, is_accepted_on_chain,
  is_cancelling, Agreement, ok,
}
use dipper.Registry.Reconcile.{ReconciliationOutcome, apply_reconciliation, requester_end}
use dipper.Registry.Outcome.{reconciled_row, apply_reconciliation-row}
use dipper.Registry.Rows.{PrimaryKey}
use dipper.Registry.Ends.{find}
use dipper.Chain.Snapshots.{
  AgreementState, not_accepted, accepted, canceled_by_service_provider, canceled_by_payer,
  AgreementStateSnapshot, Listening, queue_live_check, record_accept_of_cancelling,
  ended_but_accepted, applies_accept, cancel_kind, PreparedReconciliation, prepared, decided,
  after_record, after_check, prepare_reconciliation,
}

module _ (address_text : ℕ → String) where
  decided-prepared :
      (registry_answers : Bool) (snapshot : AgreementStateSnapshot) (agreement : Agreement)
      (l l' : Listening) (p : PreparedReconciliation)
      → decided address_text registry_answers snapshot agreement l ≡ (l', some (some p))
      → (p ≡ prepared address_text snapshot agreement)
        × ((applies_accept snapshot agreement || is_some (cancel_kind snapshot agreement)) ≡ true)
  unfolding decided
  decided-prepared registry_answers snapshot agreement l l' p h = ground arith

  abbrev Prepares : AgreementStateSnapshot → Agreement → PreparedReconciliation → Type 0
  Prepares snapshot agreement p =
      (p ≡ prepared address_text snapshot agreement)
      × ((applies_accept snapshot agreement || is_some (cancel_kind snapshot agreement)) ≡ true)

  after_record-Prepares :
      (registry_answers : Bool) (snapshot : AgreementStateSnapshot) (agreement : Agreement)
      (step : Listening × Bool) (l' : Listening) (p : PreparedReconciliation)
      → after_record address_text registry_answers snapshot agreement step ≡ (l', some (some p))
      → Prepares snapshot agreement p
  unfolding after_record
  after_record-Prepares registry_answers snapshot agreement (l, true) l' p h =
      decided-prepared registry_answers snapshot agreement l l' p h
  after_record-Prepares registry_answers snapshot agreement (l, false) l' p h = ground (arith, h)

  after_check-Prepares :
      (registry_answers : Bool) (snapshot : AgreementStateSnapshot) (agreement : Agreement)
      (step : Listening × Bool) (l' : Listening) (p : PreparedReconciliation)
      → after_check address_text registry_answers snapshot agreement step ≡ (l', some (some p))
      → Prepares snapshot agreement p
  unfolding after_check
  after_check-Prepares registry_answers snapshot agreement (l, true) l' p h =
      after_record-Prepares registry_answers snapshot agreement
        (record_accept_of_cancelling registry_answers snapshot agreement l) l' p h
  after_check-Prepares registry_answers snapshot agreement (l, false) l' p h = ground (arith, h)

  prepare_reconciliation-Prepares :
      (queue_answers registry_answers : Bool) (snapshot : AgreementStateSnapshot)
      (agreement : Agreement) (l l' : Listening) (p : PreparedReconciliation)
      → prepare_reconciliation address_text queue_answers registry_answers snapshot
          (some agreement)
          l
        ≡ (l', some (some p))
      → Prepares snapshot agreement p
  unfolding prepare_reconciliation
  prepare_reconciliation-Prepares queue_answers registry_answers snapshot agreement l l' p h =
      after_check-Prepares registry_answers snapshot agreement
        (if ended_but_accepted snapshot agreement
          then queue_live_check queue_answers snapshot l
          else (l, true))
        l' p h

-- The status that an agreement on chain calls for.
abbrev pub chain_status : AgreementState → Agreement → Status
chain_status not_accepted a = a.status
chain_status accepted a = accepted_on_chain
chain_status canceled_by_service_provider a = canceled_by_indexer
chain_status canceled_by_payer a = requester_end a

-- An agreement that can still be accepted or ended by the chain.
abbrev pub is_open : Status → Bool
is_open s = is_created s || is_expired s || is_accepted_on_chain s || is_cancelling s

follows :
    (now : ℕ) (snapshot : AgreementStateSnapshot) (a : Agreement)
    → is_open a.status ≡ true
    → (snapshot.accepted_at == 0) ≡ false
    → (applies_accept snapshot a || is_some (cancel_kind snapshot a)) ≡ true
    → (reconciled_row now (applies_accept snapshot a) (cancel_kind snapshot a) a).status
      ≡ chain_status snapshot.state a
follows now snapshot a open_ live applies = ground arith

-- When a snapshot of an agreement that is still open, and that was accepted on chain, leads to a
-- reconciliation and the registry applies it to the row that the agreement was read from, the row
-- then has the status that the chain calls for.
pub prepare_reconciliation-apply :
    (address_text : ℕ → String) (queue_answers registry_answers : Bool) (now : ℕ)
    (snapshot : AgreementStateSnapshot) (agreement : Agreement) (l l' : Listening)
    (p : PreparedReconciliation) (rows rows' : List Agreement) (o : ReconciliationOutcome)
    → prepare_reconciliation address_text queue_answers registry_answers snapshot (some agreement) l
      ≡ (l', some (some p))
    → is_open agreement.status ≡ true
    → (snapshot.accepted_at == 0) ≡ false
    → PrimaryKey rows
    → find agreement.id rows ≡ some agreement
    → apply_reconciliation now p.item.agreement_id p.item.apply_accept p.item.cancel rows
      ≡ ok (rows', o)
    → (row : Agreement) × (find agreement.id rows' ≡ some row)
      × (row.status ≡ chain_status snapshot.state agreement)
unfolding prepared
prepare_reconciliation-apply address_text queue_answers registry_answers now snapshot agreement l l'
      p rows rows' o e open_ live key found applied =
    let (same, applies) =
      prepare_reconciliation-Prepares address_text queue_answers registry_answers snapshot agreement
        l l' p e in
    let accepts = applies_accept snapshot agreement in
    let kind = cancel_kind snapshot agreement in
    let done : apply_reconciliation now agreement.id accepts kind rows ≡ ok (rows', o) =
      subst
        (λ x.
          apply_reconciliation now x.item.agreement_id x.item.apply_accept x.item.cancel rows
          ≡ ok (rows', o))
        same applied in
    let (told, at, keyed) =
      apply_reconciliation-row now agreement.id accepts kind rows agreement rows' o agreement.id key
        found done in
    (
      reconciled_row now accepts kind agreement,
      at
          ∙ ap
              (λ b.
                if b
                then some (reconciled_row now accepts kind agreement)
                else find agreement.id rows)
              (==_refl agreement.id),
      follows now snapshot agreement open_ live applies,
    )
