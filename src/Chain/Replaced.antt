-- ===== src/Chain/Replaced.antt =====
-- The cancels that follow an accept: finalize_reconciliation, execute_pending_cancellations and
-- start_replaced_cancel of bin/dipper-service/src/network/service/chain_listener.rs. The chain's
-- answers and the registry calls that lose their connection are arguments.
use dipper.Prelude.{
  ℕ, zero, suc, Bool, true, false, List, [], ◌∷◌, Option, none, some, String, if◌then◌else◌,
}
use dipper.Registry.Types.{
  is_expired, Agreement, Registry, no_records_updated, connection_lost, Result, ok, err,
}
use dipper.Registry.Ends.{find}
use dipper.Registry.Reconcile.{ReconciliationOutcome}
use dipper.Registry.Registration.{
  get_pending_cancellations_by_new_agreement, delete_pending_cancellation,
}
use dipper.Cancel.Dispatch.{
  AgreementOnChain, live, ChainClient, Faults, not_wanted, CancelStarted, Started, start_cancel,
  start_cancel_seen_live,
}
use dipper.Chain.Snapshots.{PreparedReconciliation}

-- What the cancel of one replaced agreement meets.
pub record ReplacedCancel : Type 0 where
  pub read_fault : Bool
  pub on_chain : Option AgreementOnChain
  pub chain : ChainClient
  pub faults : Faults
  pub delete_fault : Bool

-- What the cancels of one new agreement meet: whether the query is lost, and each old agreement.
pub record Replacement : Type 0 where
  pub query_fault : Bool
  pub cancel_of : ℕ → ReplacedCancel

abbrev pub is_live : AgreementOnChain → Bool
is_live live = true
is_live _ = false

abbrev pub expired_but_live : Option AgreementOnChain → Option Bool
expired_but_live none = none
expired_but_live (some on_chain) = some (is_live on_chain)

-- False when the old agreement could not be marked.
abbrev pub note_replaced_cancel : Result CancelStarted → Bool
note_replaced_cancel (ok started) = true
note_replaced_cancel (err no_records_updated) = true
note_replaced_cancel (err _) = false

abbrev pub with_rows : Registry → List Agreement → Registry
with_rows reg rows = record reg { agreements = rows }

abbrev pub noted_cancel : Registry → Started → Registry × Result Bool
noted_cancel reg started = (with_rows reg started.rows, ok (note_replaced_cancel started.reply))

module _ (manager : String) (hash_text : ℕ → String) (now : ℕ) where
  -- An expired one is read first.
  unfoldable pub cancel_found : ReplacedCancel → Agreement → Registry → Registry × Result Bool
  unfolding start_cancel start_cancel_seen_live
  cancel_found env old reg =
      if is_expired old.status
      then elim (expired_but_live env.on_chain) [
        | some true ↦ noted_cancel reg (
            start_cancel_seen_live manager hash_text now env.faults env.chain old not_wanted
              reg.agreements)
        | some false ↦ (reg, ok true)
        | none ↦ (reg, ok false)
      ]
      else noted_cancel reg
          (start_cancel manager hash_text now env.faults env.chain old not_wanted reg.agreements)

  unfoldable pub start_replaced_cancel : ReplacedCancel → ℕ → Registry → Registry × Result Bool
  unfolding find cancel_found
  start_replaced_cancel env old_agreement_id reg =
      if env.read_fault
      then (reg, err connection_lost)
      else elim (find old_agreement_id reg.agreements) [
        | none ↦ (reg, ok true)
        | some old ↦ cancel_found env old reg
      ]

  -- One pass of the loop, with the rest of it as a function of the registry and the failures.
  unfoldable pub after_replaced :
      Bool
      → (new old failures : ℕ) → (Registry → ℕ → Registry × Result ℕ)
      → Registry × Result Bool
      → Registry × Result ℕ
  unfolding delete_pending_cancellation
  after_replaced delete_fault new old failures rest (reg, ok true) =
      if delete_fault
      then (reg, err connection_lost)
      else rest (delete_pending_cancellation new old reg) failures
  after_replaced delete_fault new old failures rest (reg, ok false) = rest reg (suc failures)
  after_replaced delete_fault new old failures rest (reg, err e) = (reg, err e)

  unfoldable pub execute_each : Replacement → ℕ → List ℕ → Registry → ℕ → Registry × Result ℕ
  unfolding start_replaced_cancel after_replaced
  execute_each env new [] reg failures = (reg, ok failures)
  execute_each env new (old ∷ olds) reg failures =
      after_replaced (env.cancel_of old).delete_fault new old failures (execute_each env new olds)
        (start_replaced_cancel (env.cancel_of old) old reg)

  -- True for `Ok(())`.
  abbrev pub no_failures : Registry × Result ℕ → Registry × Bool
  no_failures (reg, ok zero) = (reg, true)
  no_failures (reg, ok (suc n)) = (reg, false)
  no_failures (reg, err e) = (reg, false)

  unfoldable pub execute_pending_cancellations : Replacement → ℕ → Registry → Registry × Bool
  unfolding execute_each get_pending_cancellations_by_new_agreement
  execute_pending_cancellations env new reg =
      if env.query_fault
      then (reg, false)
      else no_failures
          (execute_each env new (get_pending_cancellations_by_new_agreement new reg) reg 0)

  -- The rest of it only writes to the log.
  unfoldable pub finalize_reconciliation :
      Replacement → PreparedReconciliation → ReconciliationOutcome → Registry → Registry × Bool
  unfolding execute_pending_cancellations
  finalize_reconciliation env prep outcome reg =
      if outcome.did_accept
      then execute_pending_cancellations env prep.agreement.id reg
      else (reg, true)
