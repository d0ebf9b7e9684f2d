-- ===== src/Sweeps/Retry.antt =====
-- bin/dipper-service/src/network/service/cancel_retry.rs: one sweep over the agreements still being
-- cancelled. What a row meets (the chain's answers, the calls that lose their connection, the
-- service's clock) is an argument. `chain_now` is `none` when the chain's time could not be read.
use dipper.Prelude.{
  ℕ, zero, suc, ◌+◌, Bool, true, false, not, ◌||◌, List, [], ◌∷◌, Option, none, some, String,
  is_some, ltb, if◌then◌else◌,
}
use dipper.Registry.Types.{Agreement, Result, ok, err}
use dipper.Registry.Ends.{record_cancel_audit, record_cancel_check}
use dipper.Registry.Reconcile.{by_indexer, apply_reconciliation}
use dipper.Registry.Queries.{get_cancelling_agreements}
use dipper.Cancel.Dispatch.{
  ChainClientError, submit_failed, config_error, missing_terms_version_hash, cancel_not_confirmed,
  rpc_error, tx_dropped, tx_reverted, contract_revert, ChainClient, Faults, LiveCancel,
  nothing_live, ended_cancel, read_failed, cancel_failed, unconfirmed, cancel_if_live, CancelReason,
  not_wanted, abandoned_reason, reached, confirm_cancelled,
}
use dipper.Sweeps.Replace.{batch_size}

abbrev pub max_cancel_attempts : ℕ
max_cancel_attempts = 10

abbrev pub settle_minutes : ℕ
settle_minutes = 8

abbrev pub listener_grace : ℕ
listener_grace = 3600

-- What the retry of one row meets: `clock` is the service's, `now` the database's.
pub record RetryEnv : Type 0 where
  pub now : ℕ
  pub clock : ℕ
  pub chain : ChainClient
  pub faults : Faults
  pub reconcile_fault : Bool
  pub check_fault : Bool

-- A row of `CancellingAgreement` holds what its agreement holds.
abbrev pub accepted_on_chain : Agreement → Bool
accepted_on_chain a = is_some a.accepted_at

abbrev pub reason_of : Agreement → CancelReason
reason_of a = if a.abandoned then abandoned_reason else not_wanted

unfoldable pub failed_attempts : ChainClientError → ℕ
failed_attempts (tx_dropped false) = 0
failed_attempts (tx_dropped true) = 1
failed_attempts missing_terms_version_hash = max_cancel_attempts
failed_attempts submit_failed = 1
failed_attempts config_error = 1
failed_attempts cancel_not_confirmed = 1
failed_attempts rpc_error = 1
failed_attempts tx_reverted = 1
failed_attempts contract_revert = 1

abbrev pub attempts_of : Option ChainClientError → ℕ
attempts_of none = 0
attempts_of (some e) = failed_attempts e

-- The answer of the check only goes to the log.
abbrev pub checked_rows : Result (List Agreement × ℕ) → List Agreement → List Agreement
checked_rows (ok (rows', attempts)) rows = rows'
checked_rows (err e) rows = rows

unfoldable pub note_check :
    RetryEnv → ℕ → Option ChainClientError → Option Bool → List Agreement → List Agreement
unfolding failed_attempts record_cancel_check
note_check env id failure ended_at_check rows =
    checked_rows
      (reached env.check_fault
        (record_cancel_check env.now id (attempts_of failure) ended_at_check rows))
      rows

abbrev pub past_grace : ℕ → Agreement → Bool
past_grace clock a = elim a.ended_seen_at [
  | none ↦ false
  | some seen ↦ ltb (seen + listener_grace) clock
]

abbrev pub deadline_passed : Option ℕ → Agreement → Bool
deadline_passed none a = false
deadline_passed (some t) a = ltb a.terms.deadline t

unfoldable pub can_confirm : ℕ → Agreement → Option ℕ → Option ℕ → Bool
can_confirm clock a tx_hash chain_now =
    if accepted_on_chain a
    then is_some tx_hash || past_grace clock a
    else deadline_passed chain_now a

-- The indexer's id as a text, the manager's address and the text of a hash are the libraries'.
module _ (manager : String) (indexer_text hash_text : ℕ → String) where
  -- The audit stays when the reconciliation after it fails.
  unfoldable pub record_end_by_indexer :
      RetryEnv → Agreement → List Agreement → List Agreement × Bool
  unfolding record_cancel_audit apply_reconciliation
  record_end_by_indexer env a rows =
      if env.faults.audit_fault
      then (rows, false)
      else let audited =
          (record_cancel_audit a.id env.clock (indexer_text a.indexer_id) none rows).0 in
        elim (reached env.reconcile_fault
          (apply_reconciliation env.now a.id false (some by_indexer) audited)) [
            | ok (rows', outcome) ↦ (rows', true)
            | err e ↦ (audited, false)
          ]

  unfoldable pub confirm_if_over :
      RetryEnv → Agreement → Option ℕ → Bool → Option ℕ → List Agreement → List Agreement × Bool
  unfolding can_confirm record_end_by_indexer confirm_cancelled
  confirm_if_over env a tx_hash ended_by_it chain_now rows =
      let confirmed_by_it =
        if past_grace env.clock a then record_end_by_indexer env a rows else (rows, false) in
      let confirmed =
        confirm_cancelled manager hash_text env.now env.faults a (reason_of a) tx_hash rows in
      if can_confirm env.clock a tx_hash chain_now
      then (if ended_by_it then confirmed_by_it else confirmed)
      else (rows, false)

  abbrev pub noted_unless : RetryEnv → ℕ → List Agreement × Bool → List Agreement
  noted_unless env id (rows, true) = rows
  noted_unless env id (rows, false) = note_check env id none (some true) rows

  -- What follows the answer of the cancel.
  unfoldable pub after_cancel :
      RetryEnv → Agreement → Option ℕ → LiveCancel → List Agreement → List Agreement
  unfolding note_check confirm_if_over
  after_cancel env a chain_now read_failed rows = note_check env a.id none none rows
  after_cancel env a chain_now (unconfirmed tx_hash) rows = note_check env a.id none none rows
  after_cancel env a chain_now (nothing_live ended_by_it) rows =
      noted_unless env a.id (confirm_if_over env a none ended_by_it chain_now rows)
  after_cancel env a chain_now (ended_cancel tx_hash) rows =
      noted_unless env a.id (confirm_if_over env a tx_hash false chain_now rows)
  after_cancel env a chain_now (cancel_failed e) rows =
      note_check env a.id (some e) (some false) rows

  unfoldable pub retry_cancel : RetryEnv → Agreement → Option ℕ → List Agreement → List Agreement
  unfolding cancel_if_live after_cancel
  retry_cancel env a chain_now rows =
      after_cancel env a chain_now (cancel_if_live env.chain a).0 rows

  -- Time runs out before one of the rows, or not at all.
  unfoldable pub retry_each :
      (ℕ → RetryEnv) → ℕ → Option ℕ → List Agreement → List Agreement → List Agreement
  unfolding retry_cancel
  retry_each env zero chain_now listed rows = rows
  retry_each env (suc budget) chain_now [] rows = rows
  retry_each env (suc budget) chain_now (a ∷ listed) rows =
      retry_each env budget chain_now listed (retry_cancel (env a.id) a chain_now rows)

  abbrev pub any_unaccepted : List Agreement → Bool
  any_unaccepted [] = false
  any_unaccepted (a ∷ rest) = not (accepted_on_chain a) || any_unaccepted rest

  -- `budget` is how many rows the sweep gets to in its time. The chain's time is read only where
  -- an offer needs it.
  unfoldable pub retry_cancelling_agreements :
      ℕ
      → Bool
      → (ℕ → RetryEnv)
      → (budget : ℕ) (latest_block_timestamp : Option ℕ) → List Agreement
      → List Agreement
  unfolding get_cancelling_agreements retry_each
  retry_cancelling_agreements now true env budget latest_block_timestamp rows = rows
  retry_cancelling_agreements now false env budget latest_block_timestamp rows =
      let listed =
        get_cancelling_agreements now batch_size max_cancel_attempts settle_minutes rows in
      retry_each env budget (if any_unaccepted listed then latest_block_timestamp else none) listed
        rows
