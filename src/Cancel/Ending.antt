-- ===== src/Cancel/Ending.antt =====
-- What a cancel of bin/dipper-service/src/cancel_dispatch.rs leaves in the registry.
use mathlib.Core.Path.{subst}
use dipper.Prelude.{ℕ, ◌≡◌, refl, false, List, some, String, arith, inl, inr, Bool-cases}
use dipper.Registry.Types.{
  Status, cancelling, is_accepted_on_chain, Agreement, Result, ok, err, no_records_updated,
  unique_violation, foreign_key_violation, too_large, connection_lost,
}
use dipper.Registry.Ends.{find}
use dipper.Registry.Rows.{PrimaryKey}
use dipper.Cancel.Dispatch.{
  ChainClient, Faults, LiveCancel, nothing_live, ended_cancel, read_failed, cancel_failed,
  unconfirmed, cancel_if_live, CancelReason, ended_status, CancelStarted, ended, not_live_started,
  may_be_live, mark_cancelling, mark_ended, recorded, confirmed, confirm_cancelled, end_of,
  finish_marked_cancel, Started, send_marked_cancel, start_cancel,
}
use dipper.Cancel.Marks.{At, mark_cancelling-At, mark_ended-At, mark_ended_found, recorded-At}

-- The status that a started cancel leaves its agreement at.
abbrev pub left_at : CancelReason → CancelStarted → Status
left_at reason ended = ended_status reason
left_at reason not_live_started = cancelling
left_at reason may_be_live = cancelling

module _ (manager : String) (hash_text : ℕ → String) (now : ℕ) (faults : Faults) (a : Agreement)
    (reason : CancelReason) where
  confirmed-At :
      (rows : List Agreement) (r : Result (List Agreement))
      → At a.id cancelling rows
      → mark_ended now faults.end_fault reason a.id rows ≡ r
      → At a.id
          (left_at reason (end_of manager hash_text (confirmed manager hash_text rows r)).1)
          (end_of manager hash_text (confirmed manager hash_text rows r)).0
  confirmed-At rows (ok rows') h q = mark_ended-At now a.id faults.end_fault reason rows h q
  confirmed-At rows (err no_records_updated) h q =
      absurd (mark_ended_found now a.id faults.end_fault reason rows h q)
  confirmed-At rows (err unique_violation) h q = h
  confirmed-At rows (err foreign_key_violation) h q = h
  confirmed-At rows (err too_large) h q = h
  confirmed-At rows (err connection_lost) h q = h

  finish_marked_cancel-At :
      (cancel : LiveCancel) (rows : List Agreement)
      → At a.id cancelling rows
      → At a.id
          (left_at reason
            (finish_marked_cancel manager hash_text now faults a reason cancel rows).1)
          (finish_marked_cancel manager hash_text now faults a reason cancel rows).0
  unfolding finish_marked_cancel confirm_cancelled
  finish_marked_cancel-At (nothing_live by_indexer) rows h = h
  finish_marked_cancel-At read_failed rows h = h
  finish_marked_cancel-At (cancel_failed e) rows h = h
  finish_marked_cancel-At (unconfirmed tx_hash) rows h = h
  finish_marked_cancel-At (ended_cancel tx_hash) rows h =
      elim (Bool-cases (is_accepted_on_chain a.status)) [
        | inl y ↦ rw y (
            confirmed-At (recorded manager hash_text now faults.audit_fault a.id tx_hash rows) _
              (recorded-At now a.id manager hash_text faults.audit_fault tx_hash rows h) refl)
        | inr n ↦ rw n h
      ]

-- A cancel that starts on an agreement on record leaves its row at the status that its answer
-- says, `Cancelling` unless it ended, whatever the chain answers and whichever later
-- registry call fails, and keeps the primary key.
pub start_cancel-row :
    (manager : String) (hash_text : ℕ → String) (now : ℕ) (faults : Faults) (chain : ChainClient)
    (a b : Agreement) (reason : CancelReason) (rows : List Agreement) (started : CancelStarted)
    → PrimaryKey rows
    → find a.id rows ≡ some b
    → (start_cancel manager hash_text now faults chain a reason rows).reply ≡ ok started
    → (c : Agreement) × (find a.id
          (start_cancel manager hash_text now faults chain a reason rows).rows
        ≡ some c)
      × (c.status ≡ left_at reason started)
      × PrimaryKey (start_cancel manager hash_text now faults chain a reason rows).rows
unfolding start_cancel send_marked_cancel
start_cancel-row manager hash_text now faults chain a b reason rows started key e =
    go (mark_cancelling now faults.mark_fault reason a.id rows) refl
  where
    go :
        (r : Result (List Agreement))
        → mark_cancelling now faults.mark_fault reason a.id rows ≡ r
        → let out : Started = elim r as (λ _. Started) [
          | err x ↦ record { rows = rows; reply = err x; sent = false }
          | ok rows' ↦ send_marked_cancel manager hash_text now faults chain a reason rows'
        ] in
          out.reply ≡ ok started
          → (c : Agreement) × (find a.id out.rows ≡ some c)
            × (c.status ≡ left_at reason started)
            × PrimaryKey out.rows
    go (err x) q h = absurd (cc h)
    go (ok rows') q h =
        let cancel = (cancel_if_live chain a).0 in
        let same : (finish_marked_cancel manager hash_text now faults a reason cancel rows').1
            ≡ started =
          ground arith in
        subst
          (λ t.
            At a.id (left_at reason t)
              (finish_marked_cancel manager hash_text now faults a reason cancel rows').0)
          same
          (finish_marked_cancel-At manager hash_text now faults a reason cancel rows'
            (mark_cancelling-At now a.id faults.mark_fault reason rows {a = b} key e q))
