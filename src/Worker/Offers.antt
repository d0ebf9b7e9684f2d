-- ===== src/Worker/Offers.antt =====
-- bin/dipper-service/src/worker/handlers/submit_offer.rs: the job that offers an agreement on chain, and
-- withdraws the offer of one that dipper cancelled. The agreement's id that its terms derive is the
-- chain library's, and what other writers do to the table while the offer is sent is an argument.
use dipper.Prelude.{ℕ, ◌*◌, Bool, true, false, ◌||◌, List, Option, none, some, ◌==◌, if◌then◌else◌}
use dipper.Registry.Types.{
  is_created, is_cancelling, is_canceled_by_requester, Status, Agreement, Result, ok, err,
}
use dipper.Registry.Transitions.{update_offer_tx_hash}
use dipper.Registry.Ends.{find}
use dipper.Cancel.Dispatch.{
  ChainClientError, submit_failed, config_error, missing_terms_version_hash, cancel_not_confirmed,
  rpc_error, tx_dropped, tx_reverted, contract_revert, ChainClient, LiveCancel, nothing_live,
  ended_cancel, read_failed, cancel_failed, unconfirmed, reached, cancel_if_live,
}
use dipper.Worker.Backoff.{second}
use dipper.Worker.Loop.{JobOutcome, done, fatal, retryable}

abbrev pub dropped_tx_retry_base : ℕ
dropped_tx_retry_base = 5 * second

abbrev pub transient_retry_base : ℕ
transient_retry_base = 30 * second

pub data OfferAnswer : Type 0 where
  offered : (tx_hash : Option ℕ) → OfferAnswer
  offer_failed : ChainClientError → OfferAnswer

pub record SubmitEnv : Type 0 where
  pub now : ℕ
  pub read_fault : Bool
  pub derived_id : ℕ
  pub answer : OfferAnswer
  pub meanwhile : List Agreement → List Agreement
  pub update_fault : Bool
  pub reread_fault : Bool
  pub chain : ChainClient

-- The table afterwards, the job's outcome, and whether the offer was sent.
pub record Submitted : Type 0 where
  pub rows : List Agreement
  pub reply : JobOutcome
  pub sent : Bool

abbrev pub dipper_cancelled : Status → Bool
dipper_cancelled s = is_cancelling s || is_canceled_by_requester s

unfoldable pub withdraw_failed : ChainClientError → JobOutcome
withdraw_failed missing_terms_version_hash = fatal
withdraw_failed submit_failed = retryable transient_retry_base
withdraw_failed config_error = retryable transient_retry_base
withdraw_failed cancel_not_confirmed = retryable transient_retry_base
withdraw_failed rpc_error = retryable transient_retry_base
withdraw_failed (tx_dropped receipt_checked) = retryable transient_retry_base
withdraw_failed tx_reverted = retryable transient_retry_base
withdraw_failed contract_revert = retryable transient_retry_base

unfoldable pub withdraw_reply : LiveCancel → JobOutcome
unfolding withdraw_failed
withdraw_reply (nothing_live by_indexer) = done
withdraw_reply (ended_cancel tx_hash) = done
withdraw_reply (cancel_failed e) = withdraw_failed e
withdraw_reply (unconfirmed tx_hash) = retryable transient_retry_base
withdraw_reply read_failed = retryable transient_retry_base

unfoldable pub withdraw_offer_if_stored : ChainClient → Agreement → JobOutcome
unfolding cancel_if_live withdraw_reply
withdraw_offer_if_stored chain a = withdraw_reply (cancel_if_live chain a).0

unfoldable pub offer_error : ChainClientError → JobOutcome
offer_error (tx_dropped receipt_checked) = retryable dropped_tx_retry_base
offer_error contract_revert = fatal
offer_error submit_failed = retryable transient_retry_base
offer_error config_error = retryable transient_retry_base
offer_error missing_terms_version_hash = retryable transient_retry_base
offer_error cancel_not_confirmed = retryable transient_retry_base
offer_error rpc_error = retryable transient_retry_base
offer_error tx_reverted = retryable transient_retry_base

abbrev pub kept_or : List Agreement → Result (List Agreement) → List Agreement
kept_or rows (ok rows') = rows'
kept_or rows (err e) = rows

unfoldable pub store_offer : SubmitEnv → ℕ → Option ℕ → List Agreement → List Agreement
unfolding update_offer_tx_hash
store_offer env id none rows = rows
store_offer env id (some tx_hash) rows =
    kept_or rows (reached env.update_fault (update_offer_tx_hash env.now id tx_hash rows))

unfoldable pub cancelled_meanwhile : Bool → ℕ → List Agreement → Option Agreement
unfolding find
cancelled_meanwhile true id rows = none
cancelled_meanwhile false id rows = elim (find id rows) [
  | none ↦ none
  | some a ↦ if dipper_cancelled a.status then some a else none
]

-- What follows the answer to the offer.
unfoldable pub after_answer : SubmitEnv → ℕ → OfferAnswer → List Agreement → Submitted
unfolding offer_error store_offer cancelled_meanwhile withdraw_offer_if_stored
after_answer env id (offer_failed e) rows = record {
  rows = rows;
  reply = offer_error e;
  sent = true;
}
after_answer env id (offered tx_hash) rows =
    let rows' = store_offer env id tx_hash rows in
    record {
      rows = rows';
      reply = elim (cancelled_meanwhile env.reread_fault id rows') [
        | none ↦ done
        | some a ↦ withdraw_offer_if_stored env.chain a
      ];
      sent = true;
    }

unfoldable pub take_step : SubmitEnv → ℕ → Option Agreement → List Agreement → Submitted
unfolding after_answer
take_step env id none rows = record { rows = rows; reply = done; sent = false }
take_step env id (some a) rows =
    if is_created a.status
    then (if env.derived_id == id
        then after_answer env id env.answer (env.meanwhile rows)
        else record { rows = rows; reply = fatal; sent = false })
    else if dipper_cancelled a.status
    then record { rows = rows; reply = withdraw_offer_if_stored env.chain a; sent = false }
    else record { rows = rows; reply = done; sent = false }

unfoldable pub submit_offer : SubmitEnv → ℕ → List Agreement → Submitted
unfolding find take_step
submit_offer env id rows =
    if env.read_fault
    then record { rows = rows; reply = fatal; sent = false }
    else take_step env id (find id rows) rows
