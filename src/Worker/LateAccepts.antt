-- ===== src/Worker/LateAccepts.antt =====
-- bin/dipper-service/src/worker/handlers/cancel_rejected_agreement_on_chain.rs: the job that looks again at
-- an agreement which dipper ended and the chain reported accepted.
use dipper.Prelude.{ℕ, ◌*◌, Bool, ◌||◌, List, Option, none, some, String, if◌then◌else◌}
use dipper.Registry.Types.{
  is_rejected, is_cancelling, is_canceled_by_requester, Agreement, Result, ok, err,
}
use dipper.Registry.Ends.{find, record_accepted_audit}
use dipper.Cancel.Dispatch.{AgreementOnChain, Reopen, reopened, left, unread, reopen_if_live}
use dipper.Worker.Backoff.{second}
use dipper.Worker.Loop.{JobOutcome, done, deferred}

abbrev pub retry_delay : ℕ
retry_delay = 30 * second

abbrev pub chain_read_retry_delay : ℕ
chain_read_retry_delay = 300 * second

pub record ChainAccept : Type 0 where
  pub accepted_time : ℕ
  pub accepting_tx : String

pub record LateEnv : Type 0 where
  pub now : ℕ
  pub read_fault : Bool
  pub on_chain : Option AgreementOnChain
  pub reopen_fault : Bool
  pub audit_fault : Bool

unfoldable pub record_late_accept :
    LateEnv → ℕ → Option ChainAccept → List Agreement → List Agreement × JobOutcome
unfolding record_accepted_audit
record_late_accept env id none rows = (rows, done)
record_late_accept env id (some accept) rows =
    if env.audit_fault
    then (rows, deferred retry_delay)
    else (record_accepted_audit id accept.accepted_time accept.accepting_tx rows, done)

abbrev pub after_reopen :
    LateEnv
    → ℕ
    → Option ChainAccept
    → List Agreement
    → Result (List Agreement × Reopen)
    → List Agreement × JobOutcome
after_reopen env id accept rows (err e) = (rows, deferred retry_delay)
after_reopen env id accept rows (ok (rows', reopened)) = record_late_accept env id accept rows'
after_reopen env id accept rows (ok (rows', left)) = (rows', done)
after_reopen env id accept rows (ok (rows', unread)) = (rows', deferred chain_read_retry_delay)

unfoldable pub check_late_accept :
    LateEnv → ℕ → Option ChainAccept → List Agreement → List Agreement × JobOutcome
unfolding find reopen_if_live record_late_accept
check_late_accept env id accept rows =
    if env.read_fault then (rows, deferred retry_delay) else elim (find id rows) [
      | none ↦ (rows, done)
      | some a ↦
          if is_rejected a.status || is_canceled_by_requester a.status
          then after_reopen env id accept rows
              (reopen_if_live env.now env.reopen_fault env.on_chain a rows)
          else if is_cancelling a.status
          then record_late_accept env id accept rows
          else (rows, done)
    ]
