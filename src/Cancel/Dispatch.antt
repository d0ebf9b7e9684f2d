-- ===== src/Cancel/Dispatch.antt =====
-- bin/dipper-service/src/cancel_dispatch.rs: one cancel of one agreement, from the mark in the
-- registry through the chain to the confirmed end. The chain client is code that answers each
-- call; its answers are arguments (`none` for an error), and so is each registry call that
-- fails before it reaches the table.
use dipper.Prelude.{
  ℕ, Bool, true, false, List, Option, none, some, String, length, ◌==◌, if◌then◌else◌,
}
use dipper.Registry.Types.{
  Status, canceled_by_requester, abandoned_by_indexer, is_accepted_on_chain, is_rejected, Agreement,
  no_records_updated, connection_lost, Result, ok, err,
}
use dipper.Registry.Transitions.{
  mark_indexing_agreement_as_cancelling, mark_indexing_agreement_as_abandoning,
  mark_indexing_agreement_as_canceled_by_requester, mark_indexing_agreement_as_abandoned_by_indexer,
}
use dipper.Registry.Ends.{EndCorrection, record_cancel_audit, reopen_indexing_agreement_cancel}

pub data AgreementOnChain : Type 0 where
  live not_live ended_by_indexer : AgreementOnChain

-- The errors of the chain client, without the texts and hashes that are only logged.
pub data ChainClientError : Type 0 where
  submit_failed config_error missing_terms_version_hash cancel_not_confirmed rpc_error :
      ChainClientError
  tx_dropped : (receipt_checked : Bool) → ChainClientError
  tx_reverted contract_revert : ChainClientError

-- The answers of `agreement_on_chain` before and after the send, and of `cancel_via_manager`, whose
-- transaction may be unknown; `cancel_error` is its error when it fails.
pub record ChainClient : Type 0 where
  pub first_read : Option AgreementOnChain
  pub cancel_via_manager : Option (Option ℕ)
  pub cancel_error : ChainClientError
  pub second_read : Option AgreementOnChain

-- The registry calls that fail on the connection.
pub record Faults : Type 0 where
  pub mark_fault : Bool
  pub audit_fault : Bool
  pub end_fault : Bool

pub data LiveCancel : Type 0 where
  nothing_live : Bool → LiveCancel
  ended_cancel : Option ℕ → LiveCancel
  read_failed : LiveCancel
  cancel_failed : ChainClientError → LiveCancel
  unconfirmed : Option ℕ → LiveCancel

-- The stored terms hash when it has 32 bytes.
abbrev pub cancel_hash : Agreement → Option (List ℕ)
cancel_hash a = elim a.terms_version_hash [
  | none ↦ none
  | some h ↦ if length h == 32 then some h else none
]

abbrev pub read_after : Option ℕ → Option AgreementOnChain → LiveCancel
read_after tx_hash none = unconfirmed tx_hash
read_after tx_hash (some not_live) = ended_cancel tx_hash
read_after tx_hash (some ended_by_indexer) = nothing_live true
read_after tx_hash (some live) = cancel_failed cancel_not_confirmed

abbrev pub sent_cancel : ChainClientError → Option (Option ℕ) → Option AgreementOnChain → LiveCancel
sent_cancel e none read = cancel_failed e
sent_cancel e (some tx_hash) read = read_after tx_hash read

-- With whether a transaction was sent.
unfoldable pub cancel_agreement_on_chain : ChainClient → Agreement → LiveCancel × Bool
cancel_agreement_on_chain chain a = elim (cancel_hash a) [
  | none ↦ (cancel_failed missing_terms_version_hash, false)
  | some hash ↦ (sent_cancel chain.cancel_error chain.cancel_via_manager chain.second_read, true)
]

unfoldable pub if_live : ChainClient → Agreement → Option AgreementOnChain → LiveCancel × Bool
unfolding cancel_agreement_on_chain
if_live chain a none = (read_failed, false)
if_live chain a (some live) = cancel_agreement_on_chain chain a
if_live chain a (some ended_by_indexer) = (nothing_live true, false)
if_live chain a (some not_live) = (nothing_live false, false)

unfoldable pub cancel_if_live : ChainClient → Agreement → LiveCancel × Bool
unfolding if_live
cancel_if_live chain a = if_live chain a chain.first_read

pub data CancelReason : Type 0 where
  not_wanted abandoned_reason : CancelReason

abbrev pub ended_status : CancelReason → Status
ended_status not_wanted = canceled_by_requester
ended_status abandoned_reason = abandoned_by_indexer

pub data CancelStarted : Type 0 where
  ended not_live_started may_be_live : CancelStarted

-- A registry call behind a connection that may fail.
abbrev pub reached {ℓ} : {A : Type ℓ} → Bool → Result A → Result A
reached false r = r
reached true r = err connection_lost

unfoldable pub mark_cancelling :
    ℕ → Bool → CancelReason → ℕ → List Agreement → Result (List Agreement)
unfolding mark_indexing_agreement_as_cancelling mark_indexing_agreement_as_abandoning
mark_cancelling now fault not_wanted id rows =
    reached fault (mark_indexing_agreement_as_cancelling now id rows)
mark_cancelling now fault abandoned_reason id rows =
    reached fault (mark_indexing_agreement_as_abandoning now id rows)

unfoldable pub mark_ended : ℕ → Bool → CancelReason → ℕ → List Agreement → Result (List Agreement)
unfolding mark_indexing_agreement_as_canceled_by_requester
    mark_indexing_agreement_as_abandoned_by_indexer
mark_ended now fault not_wanted id rows =
    reached fault (mark_indexing_agreement_as_canceled_by_requester now id rows)
mark_ended now fault abandoned_reason id rows =
    reached fault (mark_indexing_agreement_as_abandoned_by_indexer now id rows)

-- The table afterwards, the answer, and whether a transaction was sent.
pub record Started : Type 0 where
  pub rows : List Agreement
  pub reply : Result CancelStarted
  pub sent : Bool

-- The manager's address and the text of a transaction hash are the configuration's and the
-- chain library's.
module _ (manager : String) (hash_text : ℕ → String) where
  -- A failed audit is only logged.
  unfoldable pub record_cancel : ℕ → Bool → ℕ → Option ℕ → List Agreement → List Agreement
  unfolding record_cancel_audit
  record_cancel now_secs true id tx_hash rows = rows
  record_cancel now_secs false id tx_hash rows =
      (record_cancel_audit id now_secs manager
        (elim tx_hash [ none ↦ none | some h ↦ some (hash_text h) ]) rows).0

  unfoldable pub recorded : ℕ → Bool → ℕ → Option ℕ → List Agreement → List Agreement
  unfolding record_cancel
  recorded now fault id none rows = rows
  recorded now fault id (some h) rows = record_cancel now fault id (some h) rows

  -- What the mark of the end reports.
  abbrev pub confirmed : List Agreement → Result (List Agreement) → List Agreement × Bool
  confirmed rows (ok rows') = (rows', true)
  confirmed rows (err no_records_updated) = (rows, true)
  confirmed rows (err _) = (rows, false)

  unfoldable pub confirm_cancelled :
      ℕ → Faults → Agreement → CancelReason → Option ℕ → List Agreement → List Agreement × Bool
  unfolding recorded mark_ended
  confirm_cancelled now faults a reason tx_hash rows =
      let rows' = recorded now faults.audit_fault a.id tx_hash rows in
      confirmed rows' (mark_ended now faults.end_fault reason a.id rows')

  abbrev pub end_of : List Agreement × Bool → List Agreement × CancelStarted
  end_of (rows, true) = (rows, ended)
  end_of (rows, false) = (rows, not_live_started)

  unfoldable pub finish_marked_cancel :
      ℕ
      → Faults
      → Agreement
      → CancelReason
      → LiveCancel
      → List Agreement
      → List Agreement × CancelStarted
  unfolding confirm_cancelled
  finish_marked_cancel now faults a reason (nothing_live by_indexer) rows = (rows, not_live_started)
  finish_marked_cancel now faults a reason read_failed rows = (rows, may_be_live)
  finish_marked_cancel now faults a reason (cancel_failed e) rows = (rows, may_be_live)
  finish_marked_cancel now faults a reason (unconfirmed tx_hash) rows = (rows, may_be_live)
  finish_marked_cancel now faults a reason (ended_cancel tx_hash) rows =
      if is_accepted_on_chain a.status
      then end_of (confirm_cancelled now faults a reason tx_hash rows)
      else (rows, not_live_started)

  unfoldable pub send_marked_cancel :
      ℕ → Faults → ChainClient → Agreement → CancelReason → List Agreement → Started
  unfolding cancel_if_live finish_marked_cancel
  send_marked_cancel now faults chain a reason rows =
      let (cancel, sent) = cancel_if_live chain a in
      let (rows', started) = finish_marked_cancel now faults a reason cancel rows in
      record { rows = rows'; reply = ok started; sent = sent }

  unfoldable pub start_cancel :
      ℕ → Faults → ChainClient → Agreement → CancelReason → List Agreement → Started
  unfolding mark_cancelling send_marked_cancel
  start_cancel now faults chain a reason rows =
      elim (mark_cancelling now faults.mark_fault reason a.id rows) [
        | err e ↦ record { rows = rows; reply = err e; sent = false }
        | ok rows' ↦ send_marked_cancel now faults chain a reason rows'
      ]

  unfoldable pub start_cancel_seen_live :
      ℕ → Faults → ChainClient → Agreement → CancelReason → List Agreement → Started
  unfolding mark_cancelling cancel_agreement_on_chain finish_marked_cancel
  start_cancel_seen_live now faults chain a reason rows =
      elim (mark_cancelling now faults.mark_fault reason a.id rows) [
        | err e ↦ record { rows = rows; reply = err e; sent = false }
        | ok rows' ↦
            let (cancel, sent) = cancel_agreement_on_chain chain a in
            let (rows'', started) = finish_marked_cancel now faults a reason cancel rows' in
            record { rows = rows''; reply = ok started; sent = sent }
      ]

pub data Reopen : Type 0 where
  reopened left unread : Reopen

abbrev pub reopened_rows :
    Result (List Agreement × Option EndCorrection)
    → List Agreement
    → Result (List Agreement × Reopen)
reopened_rows (ok (rows', correction)) rows = ok (rows', reopened)
reopened_rows (err no_records_updated) rows = ok (rows, left)
reopened_rows (err e) rows = err e

unfoldable pub reopen_if_live :
    ℕ
    → Bool
    → Option AgreementOnChain
    → Agreement
    → List Agreement
    → Result (List Agreement × Reopen)
unfolding reopen_indexing_agreement_cancel
reopen_if_live now fault (some live) a rows =
    reopened_rows (reached fault (reopen_indexing_agreement_cancel now a.id true rows)) rows
reopen_if_live now fault (some not_live) a rows = ok (rows, left)
reopen_if_live now fault (some ended_by_indexer) a rows = ok (rows, left)
reopen_if_live now fault none a rows =
    let retried =
      reopened_rows (reached fault (reopen_indexing_agreement_cancel now a.id false rows)) rows in
    if is_rejected a.status then retried else ok (rows, unread)
