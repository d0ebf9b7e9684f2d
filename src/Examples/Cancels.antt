-- ===== src/Examples/Cancels.antt =====
-- The theorems on cancels, on an accepted agreement whose cancel lands.
use dipper.Prelude.{ℕ, ◌≡◌, refl, false, some, String, arith, update, select, exists}
use dipper.Registry.Types.{Agreement}
use dipper.Registry.Transitions.{
  checked, unique_active, batch_set_status, batch_update_status_from, update_status_from,
  set_status_from, mark_indexing_agreement_as_cancelling,
  mark_indexing_agreement_as_canceled_by_requester,
}
use dipper.Registry.Ends.{find}
use dipper.Registry.Rows.{PrimaryKey}
use dipper.Cancel.Dispatch.{
  submit_failed, ChainClient, Faults, live, not_live, not_wanted, ended, mark_cancelling,
  start_cancel, send_marked_cancel, cancel_if_live, if_live, cancel_agreement_on_chain,
  finish_marked_cancel, confirm_cancelled, recorded, record_cancel, mark_ended,
}
use dipper.Cancel.Ending.{left_at, start_cancel-row}
use dipper.Cancel.Answers.{EndSeen, start_cancel_ended}
use dipper.Examples.Data.{accepted_3, agreements_0}

abbrev chain_1 : ChainClient
chain_1 = record {
  first_read = some live;
  cancel_via_manager = some (some 77);
  cancel_error = submit_failed;
  second_read = some not_live;
}

abbrev no_faults : Faults
no_faults = record { mark_fault = false; audit_fault = false; end_fault = false }

abbrev text : ℕ → String
text hash = "0xcancel"

key_0 : PrimaryKey agreements_0
key_0 = ground arith

start_cancel-row_example :
    (c : Agreement) × (find 3
        (start_cancel "manager" text 120 no_faults chain_1 accepted_3 not_wanted agreements_0).rows
      ≡ some c)
    × (c.status ≡ left_at not_wanted ended)
    × PrimaryKey
        (start_cancel "manager" text 120 no_faults chain_1 accepted_3 not_wanted agreements_0).rows
unfolding find start_cancel mark_cancelling mark_indexing_agreement_as_cancelling set_status_from
    update_status_from batch_update_status_from batch_set_status checked unique_active update select
    exists send_marked_cancel cancel_if_live if_live cancel_agreement_on_chain finish_marked_cancel
    confirm_cancelled mark_ended mark_indexing_agreement_as_canceled_by_requester recorded
    record_cancel
start_cancel-row_example =
    start_cancel-row "manager" text 120 no_faults chain_1 accepted_3 accepted_3 not_wanted
      agreements_0 ended key_0 refl refl

start_cancel_ended_example :
    (chain_1.first_read ≡ some live)
    × EndSeen chain_1 accepted_3
        (start_cancel "manager" text 120 no_faults chain_1 accepted_3 not_wanted agreements_0).sent
unfolding start_cancel mark_cancelling mark_indexing_agreement_as_cancelling set_status_from
    update_status_from batch_update_status_from batch_set_status checked unique_active update select
    exists send_marked_cancel cancel_if_live if_live cancel_agreement_on_chain finish_marked_cancel
    confirm_cancelled mark_ended mark_indexing_agreement_as_canceled_by_requester recorded
    record_cancel
start_cancel_ended_example =
    start_cancel_ended "manager" text 120 no_faults chain_1 accepted_3 not_wanted agreements_0 refl
