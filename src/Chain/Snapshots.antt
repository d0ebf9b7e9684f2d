-- ===== src/Chain/Snapshots.antt =====
-- From a snapshot of an agreement on chain to a reconciliation: prepare_reconciliation and
-- LiveChecks of bin/dipper-service/src/network/service/chain_listener.rs, and the snapshots of
-- chain_events.rs beside it. Whether the queue and the registry answer is an argument, and the text
-- of an address a parameter.
use dipper.Prelude.{
  ℕ, Bool, true, false, not, ◌&&◌, ◌||◌, List, ◌∷◌, Option, none, some, String, ◌==◌, leb,
  if◌then◌else◌, select, exists, is_some,
}
use dipper.Registry.Types.{
  is_created, is_expired, is_rejected, is_canceled_by_requester, is_canceled_by_indexer,
  is_abandoned_by_indexer, is_cancelling, Agreement,
}
use dipper.Registry.Ends.{record_accepted_audit, record_accept_and_cancel_audit}
use dipper.Registry.Reconcile.{CancelKind, by_requester, by_indexer, ReconciliationItem}

pub data AgreementState : Type 0 where
  not_accepted accepted canceled_by_service_provider canceled_by_payer : AgreementState

abbrev pub is_canceled_state : AgreementState → Bool
is_canceled_state canceled_by_service_provider = true
is_canceled_state canceled_by_payer = true
is_canceled_state _ = false

abbrev pub reached_accepted : AgreementState → Bool
reached_accepted not_accepted = false
reached_accepted _ = true

pub record AgreementStateSnapshot : Type 0 where
  pub agreement_id : ℕ
  pub indexer : ℕ
  pub state : AgreementState
  pub canceled_by : ℕ
  pub last_state_change_block : ℕ
  pub accepted_at : ℕ
  pub accepted_tx : String
  pub canceled_at : ℕ
  pub canceled_tx : String

-- A job that checks an ended agreement on chain: its id and the accept that was seen.
abbrev pub LiveCheckJob : Type 0
LiveCheckJob = ℕ × Option (ℕ × String)

-- The worker's queue, the changes that checks were queued for, and the registry's agreements.
pub record Listening : Type 0 where
  pub jobs : List LiveCheckJob
  pub queued : List (ℕ × ℕ)
  pub agreements : List Agreement

abbrev pub same_change : ℕ × ℕ → ℕ × ℕ → Bool
same_change (id, block) (id', block') = (id == id') && (block == block')

abbrev pub change_of : AgreementStateSnapshot → ℕ × ℕ
change_of snapshot = (snapshot.agreement_id, snapshot.last_state_change_block)

abbrev pub chain_accept : AgreementStateSnapshot → Option (ℕ × String)
chain_accept snapshot =
    if snapshot.accepted_at == 0 then none else some (snapshot.accepted_at, snapshot.accepted_tx)

-- `LiveChecks::queue`; the answer is false for an error.
unfoldable pub queue_live_check : Bool → AgreementStateSnapshot → Listening → Listening × Bool
unfolding exists
queue_live_check queue_answers snapshot l =
    if exists (same_change (change_of snapshot)) l.queued
    then (l, true)
    else if queue_answers
    then (
      record l {
        jobs = (snapshot.agreement_id, chain_accept snapshot) ∷ l.jobs;
        queued = change_of snapshot ∷ l.queued;
      },
      true,
    )
    else (l, false)

unfoldable pub forget_before : ℕ → Listening → Listening
unfolding select
forget_before block l = record l { queued = select (λ change. leb block change.1) l.queued }

abbrev pub ended_but_accepted : AgreementStateSnapshot → Agreement → Bool
ended_but_accepted snapshot agreement =
    (is_rejected agreement.status || is_canceled_by_requester agreement.status)
    && reached_accepted snapshot.state
    && not (is_canceled_state snapshot.state)

unfoldable pub record_accept_of_cancelling :
    Bool → AgreementStateSnapshot → Agreement → Listening → Listening × Bool
unfolding record_accepted_audit
record_accept_of_cancelling registry_answers snapshot agreement l =
    if not (is_cancelling agreement.status)
      || not (reached_accepted snapshot.state)
      || (snapshot.accepted_at == 0)
    then (l, true)
    else if registry_answers
    then (
      record l {
        agreements =
            record_accepted_audit agreement.id snapshot.accepted_at snapshot.accepted_tx
              l.agreements;
      },
      true,
    )
    else (l, false)

abbrev pub withdrawn_offer : AgreementStateSnapshot → Bool
withdrawn_offer snapshot = is_canceled_state snapshot.state && (snapshot.accepted_at == 0)

abbrev pub applies_accept : AgreementStateSnapshot → Agreement → Bool
applies_accept snapshot agreement =
    (is_created agreement.status || is_expired agreement.status)
    && reached_accepted snapshot.state
    && not (withdrawn_offer snapshot)

abbrev pub already_terminal_cancel : Agreement → Bool
already_terminal_cancel agreement =
    is_canceled_by_requester agreement.status
    || is_canceled_by_indexer agreement.status
    || is_abandoned_by_indexer agreement.status

abbrev pub kind_of : AgreementState → Option CancelKind
kind_of canceled_by_payer = some by_requester
kind_of canceled_by_service_provider = some by_indexer
kind_of _ = none

abbrev pub cancel_kind : AgreementStateSnapshot → Agreement → Option CancelKind
cancel_kind snapshot agreement =
    if is_canceled_state snapshot.state && not (already_terminal_cancel agreement)
    then kind_of snapshot.state
    else none

abbrev pub then_some {ℓ} : {A : Type ℓ} → Bool → A → Option A
then_some b a = if b then some a else none

pub record PreparedReconciliation : Type 0 where
  pub item : ReconciliationItem
  pub agreement : Agreement
  pub indexer : ℕ

module _ (address_text : ℕ → String) where
  unfoldable pub record_accept_and_cancel_from_chain :
      Bool → AgreementStateSnapshot → Agreement → Listening → Listening × Bool
  unfolding record_accept_and_cancel_audit
  record_accept_and_cancel_from_chain registry_answers snapshot agreement l =
      if snapshot.accepted_at == 0
      then (l, true)
      else if registry_answers
      then (
        record l {
          agreements =
              (record_accept_and_cancel_audit agreement.id snapshot.accepted_at snapshot.accepted_tx
                snapshot.canceled_at (address_text snapshot.canceled_by) (some snapshot.canceled_tx)
                l.agreements).0;
        },
        true,
      )
      else (l, false)

  unfoldable pub prepared : AgreementStateSnapshot → Agreement → PreparedReconciliation
  prepared snapshot agreement =
      let accepts = applies_accept snapshot agreement in
      let cancel = cancel_kind snapshot agreement in
      let ends = is_some cancel in
      record {
        item = record {
          agreement_id = agreement.id;
          apply_accept = accepts;
          cancel = cancel;
          audit = record {
            accepted_at = then_some accepts snapshot.accepted_at;
            accepted_tx = then_some accepts snapshot.accepted_tx;
            canceled_at = then_some ends snapshot.canceled_at;
            canceled_by = then_some ends (address_text snapshot.canceled_by);
            canceled_tx = then_some ends snapshot.canceled_tx;
          };
        };
        agreement = agreement;
        indexer = snapshot.indexer;
      }

  -- After the live check and the record of an accept: the decision.
  unfoldable pub decided :
      Bool
      → AgreementStateSnapshot
      → Agreement
      → Listening
      → Listening × Option (Option PreparedReconciliation)
  unfolding record_accept_and_cancel_from_chain prepared
  decided registry_answers snapshot agreement l =
      if applies_accept snapshot agreement || is_some (cancel_kind snapshot agreement)
      then (l, some (some (prepared snapshot agreement)))
      else if already_terminal_cancel agreement && is_canceled_state snapshot.state
      then (let (l', recorded) =
            record_accept_and_cancel_from_chain registry_answers snapshot agreement l in
          (l', then_some recorded none))
      else (l, some none)

  -- The two calls before the decision, each with the error that ends the function there: `none`.
  unfoldable pub after_record :
      Bool
      → AgreementStateSnapshot
      → Agreement
      → Listening × Bool
      → Listening × Option (Option PreparedReconciliation)
  unfolding decided
  after_record registry_answers snapshot agreement (l, true) =
      decided registry_answers snapshot agreement l
  after_record registry_answers snapshot agreement (l, false) = (l, none)

  unfoldable pub after_check :
      Bool
      → AgreementStateSnapshot
      → Agreement
      → Listening × Bool
      → Listening × Option (Option PreparedReconciliation)
  unfolding record_accept_of_cancelling after_record
  after_check registry_answers snapshot agreement (l, true) =
      after_record registry_answers snapshot agreement
        (record_accept_of_cancelling registry_answers snapshot agreement l)
  after_check registry_answers snapshot agreement (l, false) = (l, none)

  unfoldable pub prepare_reconciliation :
      (queue_answers registry_answers : Bool)
      → AgreementStateSnapshot
      → Option Agreement
      → Listening
      → Listening × Option (Option PreparedReconciliation)
  unfolding queue_live_check after_check
  prepare_reconciliation queue_answers registry_answers snapshot none l = (l, some none)
  prepare_reconciliation queue_answers registry_answers snapshot (some agreement) l =
      after_check registry_answers snapshot agreement (
        if ended_but_accepted snapshot agreement
        then queue_live_check queue_answers snapshot l
        else (l, true))
