-- ===== src/Chain/LiveChecks.antt =====
-- The chain checks of ended agreements that the subgraph shows accepted, once per change
-- (LiveChecks of bin/dipper-service/src/network/service/chain_listener.rs).
use mathlib.Core.Path.{subst}
use dipper.Prelude.{
  ℕ, ◌≡◌, refl, sym, ◌∙◌, Bool, true, false, not, ◌&&◌, ◌||◌, List, some, String, inl, inr, ◌==◌,
  if◌then◌else◌, Bool-cases, exists, is_some, ==_refl,
}
use dipper.Registry.Types.{is_cancelling, Agreement}
use dipper.Registry.Ends.{record_accepted_audit, record_accept_and_cancel_audit}
use dipper.Chain.Snapshots.{
  is_canceled_state, reached_accepted, AgreementStateSnapshot, Listening, same_change, change_of,
  queue_live_check, record_accept_of_cancelling, ended_but_accepted, applies_accept, cancel_kind,
  already_terminal_cancel, decided, after_record, after_check, prepare_reconciliation,
  record_accept_and_cancel_from_chain,
}

-- What follows the live check leaves its jobs and changes alone.
abbrev Checks : Listening → Listening → Type 0
Checks l l' = (l'.jobs ≡ l.jobs) × (l'.queued ≡ l.queued)

abbrev early_end : Bool → Bool → Listening → List Agreement → Listening × Bool
early_end registry_answers early l rows =
    if early
    then (l, true)
    else if registry_answers
    then (record l { agreements = rows }, true)
    else (l, false)

early_end-Checks :
    (registry_answers early : Bool) (l : Listening) (rows : List Agreement)
    → Checks l (early_end registry_answers early l rows).0
early_end-Checks registry_answers true l rows = (refl, refl)
early_end-Checks true false l rows = (refl, refl)
early_end-Checks false false l rows = (refl, refl)

module _ (address_text : ℕ → String) (registry_answers : Bool) (snapshot : AgreementStateSnapshot)
    (agreement : Agreement) where
  record_accept_of_cancelling-Checks :
      (l : Listening)
      → Checks l (record_accept_of_cancelling registry_answers snapshot agreement l).0
  unfolding record_accept_of_cancelling
  record_accept_of_cancelling-Checks l =
      early_end-Checks registry_answers
        (not (is_cancelling agreement.status)
          || not (reached_accepted snapshot.state)
          || (snapshot.accepted_at == 0))
        l
        (record_accepted_audit agreement.id snapshot.accepted_at snapshot.accepted_tx l.agreements)

  record_accept_and_cancel-Checks :
      (l : Listening)
      → Checks l
          (record_accept_and_cancel_from_chain address_text registry_answers snapshot agreement l).0
  unfolding record_accept_and_cancel_from_chain
  record_accept_and_cancel-Checks l =
      early_end-Checks registry_answers (snapshot.accepted_at == 0) l
        (record_accept_and_cancel_audit agreement.id snapshot.accepted_at snapshot.accepted_tx
          snapshot.canceled_at (address_text snapshot.canceled_by) (some snapshot.canceled_tx)
          l.agreements).0

  decided-Checks :
      (l : Listening) → Checks l (decided address_text registry_answers snapshot agreement l).0
  unfolding decided
  decided-Checks l =
      elim (Bool-cases
        (applies_accept snapshot agreement || is_some (cancel_kind snapshot agreement))) [
          | inl y ↦ rw y (refl, refl)
          | inr n ↦
              elim (Bool-cases
                (already_terminal_cancel agreement && is_canceled_state snapshot.state)) [
                  | inl z ↦ rw (n, z) (record_accept_and_cancel-Checks l)
                  | inr z ↦ rw (n, z) (refl, refl)
                ]
        ]

  Checks-trans : (l l' l'' : Listening) → Checks l l' → Checks l' l'' → Checks l l''
  Checks-trans l l' l'' a b = (b.0 ∙ a.0, b.1 ∙ a.1)

  after_record-Checks :
      (step : Listening × Bool)
      → Checks step.0 (after_record address_text registry_answers snapshot agreement step).0
  unfolding after_record
  after_record-Checks (l, true) = decided-Checks l
  after_record-Checks (l, false) = (refl, refl)

  after_check-Checks :
      (step : Listening × Bool)
      → Checks step.0 (after_check address_text registry_answers snapshot agreement step).0
  unfolding after_check
  after_check-Checks (l, true) =
      let step = record_accept_of_cancelling registry_answers snapshot agreement l in
      Checks-trans l step.0 (after_record address_text registry_answers snapshot agreement step).0
        (record_accept_of_cancelling-Checks l) (after_record-Checks step)
  after_check-Checks (l, false) = (refl, refl)

-- A change whose check is queued gets no second one.
queue_live_check_known :
    (answers : Bool) (snapshot : AgreementStateSnapshot) (l : Listening)
    → exists (same_change (change_of snapshot)) l.queued ≡ true
    → queue_live_check answers snapshot l ≡ (l, true)
unfolding queue_live_check
queue_live_check_known answers snapshot l known = rw known refl

queue_live_check_notes :
    (snapshot : AgreementStateSnapshot) (l : Listening)
    → exists (same_change (change_of snapshot)) (queue_live_check true snapshot l).0.queued ≡ true
unfolding queue_live_check exists
queue_live_check_notes snapshot l =
    elim (Bool-cases (exists (same_change (change_of snapshot)) l.queued)) [
      | inl known ↦ rw (known, known) refl
      | inr new ↦
          rw (new, ==_refl snapshot.agreement_id, ==_refl snapshot.last_state_change_block) refl
    ]

-- Reading the same snapshot of the same agreement again, after a read that reached the queue,
-- queues no further job, whatever the queue and the registry answer then.
pub prepare_reconciliation-again :
    (address_text : ℕ → String) (registry_answers queue_answers' registry_answers' : Bool)
    (snapshot : AgreementStateSnapshot) (agreement : Agreement) (l : Listening)
    → let once =
        (prepare_reconciliation address_text true registry_answers snapshot (some agreement) l).0 in
      (prepare_reconciliation address_text queue_answers' registry_answers' snapshot
        (some agreement)
        once).0.jobs
      ≡ once.jobs
unfolding prepare_reconciliation
prepare_reconciliation-again address_text registry_answers queue_answers' registry_answers' snapshot
      agreement l =
    elim (Bool-cases (ended_but_accepted snapshot agreement)) [
      | inl ended ↦
          let step = queue_live_check true snapshot l in
          let once = (after_check address_text registry_answers snapshot agreement step).0 in
          let kept : Checks (step.0) once =
            after_check-Checks address_text registry_answers snapshot agreement step in
          let known : exists (same_change (change_of snapshot)) once.queued ≡ true =
            subst (λ c. exists (same_change (change_of snapshot)) c ≡ true) (sym kept.1)
              (queue_live_check_notes snapshot l) in
          rw (ended, queue_live_check_known queue_answers' snapshot once known)
            ((after_check-Checks address_text registry_answers' snapshot agreement (once, true)).0)
      | inr other ↦
          let once = (after_check address_text registry_answers snapshot agreement (l, true)).0 in
          rw other
            ((after_check-Checks address_text registry_answers' snapshot agreement (once, true)).0)
    ]
