-- ===== src/Examples/Polls.antt =====
-- The theorems on polls of the chain listener, on concrete pages.
use text.Mathlib.Text.{◌==◌ as str_eq}
use dipper.Prelude.{
  ℕ, ◌*◌, ◌-◌, ◌≡◌, refl, true, false, [], ◌∷◌, Option, none, some, String, arith, if◌then◌else◌,
  ◌==◌, ltb, All, update, select, exists,
}
use dipper.Registry.Types.{Agreement, Registry, cancelling}
use dipper.Registry.Transitions.{
  is_active, checked, unique_active, set_status, batch_set_status, batch_update_status_from,
  update_status_from, set_status_from, mark_indexing_agreement_as_cancelling,
}
use dipper.Registry.Ends.{find}
use dipper.Registry.Rows.{PrimaryKey}
use dipper.Cancel.Dispatch.{
  rpc_error, ChainClient, mark_cancelling, start_cancel, send_marked_cancel, cancel_if_live,
  if_live, finish_marked_cancel,
}
use dipper.Chain.Cursor.{Cursor, at_block, max_cursor_hold}
use dipper.Chain.Snapshots.{AgreementStateSnapshot, accepted}
use dipper.Chain.Pages.{
  IndexingAgreementEntity, ChangedAgreementsResponse, ChangedAgreementsResult,
  get_changed_agreements, parse_snapshot, parse_failure_cursor, parse_entities, page_cursor,
  is_sorted_keyset, parse_state, parse_address_or_zero, pinned_block_holds, skew_is_fine,
}
use dipper.Chain.PageCursor.{NotLost, get_changed_agreements-NotLost}
use dipper.Chain.Turns.{ListenerConfig, PageTurn, ListenerState, settle_page}
use dipper.Chain.Holds.{settle_all, settle_page-hold}
use dipper.Chain.Settle.{Progress}
use dipper.Chain.Polls.{Poll, poll_all, poll_all-Progress}
use dipper.Chain.Window.{poll_all-stays}
use dipper.Chain.Replaced.{ReplacedCancel, start_replaced_cancel, cancel_found}
use dipper.Chain.LetGo.{start_replaced_cancel_inactive}
use dipper.Examples.Data.{accepted_3, agreements_0, registry_0}

abbrev number_of : String → Option ℕ
number_of s = if str_eq s "77" then some 77 else if str_eq s "78" then some 78 else none

abbrev entity_of : String → String → IndexingAgreementEntity
entity_of id state = record {
  id = id;
  indexer = "78";
  state = state;
  canceled_by = "0x";
  last_state_change_block = "77";
  accepted_at = "77";
  accepted_at_tx = "0xaa";
  canceled_at = "";
  canceled_at_tx = "";
}

-- The second entity is in a state that the listener does not know.
abbrev response_1 : ChangedAgreementsResponse
response_1 = record {
  block_number = 80;
  block_timestamp = some 1000;
  indexing_agreements = entity_of "77" "Accepted" ∷ entity_of "78" "Paused" ∷ [];
}

abbrev snapshot_77 : AgreementStateSnapshot
snapshot_77 = record {
  agreement_id = 77;
  indexer = 78;
  state = accepted;
  canceled_by = 0;
  last_state_change_block = 77;
  accepted_at = 77;
  accepted_tx = "0xaa";
  canceled_at = 0;
  canceled_tx = "";
}

abbrev page_1 : ChangedAgreementsResult
page_1 = record {
  snapshots = snapshot_77 ∷ [];
  latest_block = 80;
  latest_block_timestamp = some 1000;
  cursor = record { block = 77; id = some 77 };
}

get_changed_agreements-NotLost_example :
    All
      (λ e.
        NotLost
          (at_block 70)
          page_1.snapshots
          page_1.cursor
          (parse_snapshot number_of number_of number_of e)
          (parse_failure_cursor number_of number_of number_of e))
      response_1.indexing_agreements
unfolding get_changed_agreements parse_snapshot parse_failure_cursor parse_entities page_cursor
    is_sorted_keyset parse_state parse_address_or_zero pinned_block_holds skew_is_fine select
get_changed_agreements-NotLost_example =
    get_changed_agreements-NotLost number_of number_of number_of 1000 60 false (at_block 70) none
      response_1 page_1 refl

abbrev lost_chain : ChainClient
lost_chain = record {
  first_read = none;
  cancel_via_manager = none;
  cancel_error = rpc_error;
  second_read = none;
}

abbrev lost_cancel : ReplacedCancel
lost_cancel = record {
  read_fault = false;
  on_chain = none;
  chain = lost_chain;
  faults = record { mark_fault = false; audit_fault = false; end_fault = false };
  delete_fault = false;
}

abbrev hash_text : ℕ → String
hash_text hash = "0xcancel"

abbrev turn_at : ℕ → PageTurn
turn_at now = record {
  lookup_fault = false;
  prepare_answers = λ i. (true, true);
  stop_at = λ i. false;
  database_now = 120;
  batch_fault = false;
  replacement_of = λ new. record { query_fault = false; cancel_of = λ old. lost_cancel };
  now = now;
  now_secs = 1000;
  update_fault = false;
}

abbrev config_1 : ListenerConfig
config_1 = record {
  reorg_buffer_blocks = 20;
  chain_ts_drift_tolerance_secs = 60;
  bypass_chain_clock_defenses = false;
}

abbrev listener_at : Cursor → ListenerState
listener_at cursor = record {
  cursor = cursor;
  cursor_hold = none;
  last_persisted_timestamp = some 900;
  last_subgraph_head = 70;
  stall_count = 0;
  consecutive_failures = 2;
  stored = none;
  jobs = [];
  queued = [];
  registry = registry_0;
}

abbrev poll_1 : Poll
poll_1 = record { fetch = λ n from pinned. some page_1; turns = turn_at }

poll_all-Progress_example : Progress (listener_at (at_block 70)) (
    poll_all hash_text "manager" hash_text config_1
      (poll_1 ∷ poll_1 ∷ [])
      (listener_at (at_block 70)))
poll_all-Progress_example =
    poll_all-Progress hash_text "manager" hash_text config_1 (poll_1 ∷ poll_1 ∷ [])
      (listener_at (at_block 70)) tt

poll_all-stays_example :
    (poll_all hash_text "manager" hash_text config_1
      (poll_1 ∷ poll_1 ∷ [])
      (listener_at (at_block 90))).cursor
    ≡ at_block 90
poll_all-stays_example =
    poll_all-stays hash_text "manager" hash_text config_1 (poll_1 ∷ poll_1 ∷ [])
      (listener_at (at_block 90)) ((page_1, refl, refl), ((page_1, refl, refl), tt))

settle_page-hold_example :
    let held =
      settle_all config_1
        ((turn_at 5, page_1, 77 ∷ []) ∷ (turn_at 6, page_1, 77 ∷ []) ∷ [])
        (listener_at (at_block 70)) in
    (held.cursor ≡ at_block 70)
    × ((settle_page config_1 (turn_at (601 * 1000000000)) page_1 (77 ∷ []) held).0.cursor
        ≡ (if ltb (601 * 1000000000 - 5) max_cursor_hold then at_block 70 else page_1.cursor))
settle_page-hold_example =
    settle_page-hold config_1 (turn_at 5) (turn_at (601 * 1000000000)) page_1 page_1 (77 ∷ [])
      (77 ∷ []) ((turn_at 6, page_1, 77 ∷ []) ∷ []) (listener_at (at_block 70)) refl refl
      ((refl, refl), tt) refl refl

abbrev marked_3 : Agreement
marked_3 = set_status 120 (λ a. cancelling) accepted_3

key_0 : PrimaryKey agreements_0
key_0 = ground arith

abbrev registry_marked : Registry
registry_marked = record registry_0 {
  agreements = update (λ a. a.id == 3) (set_status 120 (λ a. cancelling)) agreements_0;
}

start_replaced_cancel_inactive_example : is_active marked_3.status ≡ false
unfolding find start_replaced_cancel cancel_found start_cancel mark_cancelling
    mark_indexing_agreement_as_cancelling set_status_from update_status_from
    batch_update_status_from batch_set_status checked unique_active update select exists
    send_marked_cancel cancel_if_live if_live finish_marked_cancel
start_replaced_cancel_inactive_example =
    start_replaced_cancel_inactive "manager" hash_text 120 lost_cancel 3 registry_0 registry_marked
      marked_3 key_0 refl refl
