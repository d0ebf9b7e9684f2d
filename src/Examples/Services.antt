-- ===== src/Examples/Services.antt =====
-- The theorems on the background services and on the jobs that offer and propose, on an agreement that nobody accepted in time, one being
-- cancelled, one whose indexer is silent, and an outage.
use dipper.Prelude.{
  ℕ, ◌*◌, ◌+◌, ◌%◌, ◌≤◌, ◌<◌, ◌≡◌, ◌≢◌, refl, Bool, true, false, ◌⊎◌, is_some, ◌&&◌, length, [],
  ◌∷◌, Option, none, some, String, pos, arith, leb, update, exists, select, Pointwise,
}
use dipper.Registry.Types.{
  cancelling, canceled_by_requester, expired, accepted_on_chain, rejected, capacity_exceeded,
  Agreement,
}
use dipper.Registry.Transitions.{checked, unique_active}
use dipper.Registry.Ends.{find}
use dipper.Registry.Rows.{PrimaryKey}
use dipper.Cancel.Dispatch.{submit_failed, ChainClient, Faults, live, not_live, cancel_hash}
use dipper.Sweeps.Replace.{Services}
use dipper.Sweeps.Retry.{RetryEnv, retry_cancel}
use dipper.Sweeps.RetryEnds.{MayEnd, statuses, retry_cancel_end}
use dipper.Sweeps.Expiration.{ExpireFaults, expiration_scan}
use dipper.Sweeps.Expires.{Expires, expiration_scan-Expires}
use dipper.Sweeps.Breaker.{
  UnreachablePolicy, UnreachableBreaker, hold, evaluate, progress_clock, default_breaker,
}
use dipper.Sweeps.Outages.{Cycle, run_cycles, progress_clock_bounds}
use dipper.Sweeps.Liveness.{
  CheckEnv, Checking, tolerance_duration, cancel_and_reassess, check_agreement,
}
use dipper.Sweeps.Abandons.{Stale, Spared, check_agreement-Spared}
use dipper.Sweeps.Replaces.{MayReplace, cancel_and_reassess_replaces}
use dipper.Registry.Declined.{
  Lookbacks, may_decline, updated_within, declined_now, window_of, declined_now-window,
}
use dipper.Registry.Listener.{
  ChainListenerStateRow, get_chain_listener_state, update_chain_listener_state,
  update_chain_listener_state-get,
}
use dipper.Sweeps.Reassignment.{ChainPool, duration_until_utc_hour, next_after, run_due_passes}
use dipper.Sweeps.Timing.{duration_until_utc_hour_lem, next_after_lem}
use dipper.Sweeps.Passes.{QueuedOnce, full_of, top_up_of, run_due_passes-OnceEach}
use dipper.Worker.Offers.{offered, SubmitEnv, submit_offer}
use dipper.Worker.OfferEnds.{DoneWith, submit_offer_done}
use dipper.Worker.Proposals.{
  proposal_rejected, ProposalMessage, ProposalEnv, Proposing, send_proposal,
}
use dipper.Worker.ProposalEnds.{Followed, send_proposal-Followed}
use dipper.Examples.Data.{created_1, accepted_3, agreements_0, registry_0}

abbrev quiet_chain : ChainClient
quiet_chain = record {
  first_read = some live;
  cancel_via_manager = some (some 77);
  cancel_error = submit_failed;
  second_read = some not_live;
}

abbrev faults_0 : Faults
faults_0 = record { mark_fault = false; audit_fault = false; end_fault = false }

abbrev text_of : ℕ → String
text_of n = "0xtext"

abbrev cancelling_3 : Agreement
cancelling_3 = record accepted_3 { status = cancelling }

abbrev retry_env : RetryEnv
retry_env = record {
  now = 900;
  clock = 900;
  chain = quiet_chain;
  faults = faults_0;
  reconcile_fault = false;
  check_fault = false;
}

retry_cancel_end_example :
    MayEnd retry_env cancelling_3 none
    ⊎ (statuses
          (retry_cancel "manager" text_of text_of retry_env cancelling_3 none (cancelling_3 ∷ []))
        ≡ statuses (cancelling_3 ∷ []))
retry_cancel_end_example =
    retry_cancel_end "manager" text_of text_of retry_env cancelling_3 none (cancelling_3 ∷ [])

abbrev expire_faults : ExpireFaults
expire_faults = record {
  mark_fault = false;
  delete_fault = true;
  request_fault = false;
  push_fault = false;
}

abbrev services_0 : Services
services_0 = record { registry = registry_0; pushed = [] }

key_0 : PrimaryKey services_0.registry.agreements
key_0 = ground arith

expiration_scan-Expires_example :
    Pointwise
      (Expires 900 60 500)
      agreements_0
      (expiration_scan 900 60 10
        (some 500)
        false
        (λ id. expire_faults)
        10
        services_0).registry.agreements
expiration_scan-Expires_example =
    expiration_scan-Expires 900 60 10 500 false (λ id. expire_faults) 10 services_0 key_0

-- More than half of the indexers.
abbrev half : ℕ → ℕ → Bool
half unreachable checked = leb checked (unreachable * 2)

abbrev outage_at : ℕ → Cycle
outage_at now = record { indexers = 10; unreachable = 9; now = now }

abbrev calm_at : ℕ → Cycle
calm_at now = record { indexers = 10; unreachable = 1; now = now }

progress_clock_bounds_example :
    (clock : ℕ) × (progress_clock
        (evaluate half 5 1000 10 1 2000 (
          run_cycles half 5 1000
            (outage_at 100 ∷ outage_at 700 ∷ calm_at 1300 ∷ calm_at 1600 ∷ [])
            default_breaker)).1
        (some 50)
      ≡ some clock)
    × (50 ≤ clock)
    × (clock ≤ 2000)
    × (clock ≤ 50 + 1000)
progress_clock_bounds_example =
    progress_clock_bounds half 5 1000
      (outage_at 100 ∷ outage_at 700 ∷ calm_at 1300 ∷ calm_at 1600 ∷ []) (calm_at 2000) 50
      (omega arith, (omega arith, (omega arith, (omega arith, tt)))) (omega arith) (omega arith)

abbrev tripped_breaker : UnreachableBreaker
tripped_breaker = record {
  tripped_since = some 100;
  quiet_cycles = 0;
  held_spans = record { from = 100; to = 1100 } ∷ [];
}

abbrev silent_3 : Agreement
silent_3 = record accepted_3 { last_block_height = some (pos 7); last_progress_at = some 100 }

abbrev check_env : CheckEnv
check_env = record {
  now = 200000;
  progress_fault = false;
  chain = quiet_chain;
  faults = faults_0;
  delete_fault = false;
  ended_fault = false;
  replace = record { request_fault = false; push_fault = false; queued_fault = false };
}

abbrev checking_0 : Checking
checking_0 = record { services = services_0; uncancellable = [] }

abbrev one_active : ℕ → Option ℕ
one_active deployment = some 1

abbrev answered : Option UnreachablePolicy
answered = none

check_agreement-Spared_example :
    (Stale (some 7) (some 7) (some 100) 200000 (tolerance_duration 30 one_active 4)
      × (answered ≢ some hold)
      × (is_some (cancel_hash silent_3) ≡ true))
    ⊎ Spared checking_0 (
        check_agreement "manager" text_of one_active 4 check_env silent_3
          (some 7)
          answered
          checking_0)
check_agreement-Spared_example =
    check_agreement-Spared "manager" text_of one_active 4 check_env silent_3 (some 7) answered
      checking_0

cancel_and_reassess_replaces_example :
    MayReplace "manager" text_of check_env accepted_3 agreements_0
    ⊎ ((cancel_and_reassess "manager" text_of check_env accepted_3 checking_0).services.pushed ≡ [])
cancel_and_reassess_replaces_example =
    cancel_and_reassess_replaces "manager" text_of check_env accepted_3 checking_0

-- Runs: the retry ends the agreement, the scan expires both created ones and queues their request
-- again, and the replacement of the silent one is queued.
retry_run :
    statuses
      (retry_cancel "manager" text_of text_of retry_env cancelling_3 none (cancelling_3 ∷ []))
    ≡ canceled_by_requester ∷ []
unfolding retry_cancel checked unique_active update exists select
retry_run = refl

scan_run :
    statuses
      (expiration_scan 900 60 10
        (some 500)
        false
        (λ id. expire_faults)
        10
        services_0).registry.agreements
    ≡ expired ∷ expired ∷ accepted_on_chain ∷ []
unfolding expiration_scan exists update
scan_run = refl

replace_run :
    length (cancel_and_reassess "manager" text_of check_env accepted_3 checking_0).services.pushed
    ≡ 1
unfolding cancel_and_reassess exists checked unique_active update select
replace_run = refl

abbrev submit_env : SubmitEnv
submit_env = record {
  now = 120;
  read_fault = false;
  derived_id = 1;
  answer = offered (some 55);
  meanwhile = λ rows. record created_1 { status = cancelling } ∷ [];
  update_fault = false;
  reread_fault = false;
  chain = quiet_chain;
}

-- Cancelled while its offer was sent, so that the offer is withdrawn.
submit_offer_done_example :
    DoneWith submit_env 1 (some created_1) (submit_offer submit_env 1 agreements_0)
unfolding find submit_offer update exists
submit_offer_done_example = submit_offer_done submit_env 1 agreements_0 refl

abbrev proposal_env : ProposalEnv
proposal_env = record {
  now = 120;
  read_fault = false;
  answer = proposal_rejected none;
  mark_fault = false;
  delete_fault = false;
  request_fault = false;
  push_fault = false;
}

abbrev message_1 : ProposalMessage
message_1 = record {
  agreement_id = 1;
  indexing_request_id = 7;
  deployment_id = 30;
  deployment_chain_id = 1;
}

abbrev proposing_0 : Proposing
proposing_0 = record { services = services_0; offers = [] }

send_proposal-Followed_example :
    Followed proposal_env message_1 proposing_0 (send_proposal proposal_env message_1 proposing_0).0
unfolding find send_proposal update exists
send_proposal-Followed_example = send_proposal-Followed proposal_env message_1 proposing_0 refl

abbrev lookbacks_1 : Lookbacks
lookbacks_1 = record {
  default_lookback_days = 30;
  price_lookback_days = 1;
  transient_lookback_minutes = 15;
  uncertain_lookback_days = 1;
}

abbrev declined_1 : Agreement
declined_1 = record created_1 { status = rejected; rejection_reason = some capacity_exceeded }

declined_now-window_example :
    declined_now 800 lookbacks_1 declined_1
    ≡ (may_decline declined_1 && updated_within 800 (window_of lookbacks_1 declined_1) declined_1)
declined_now-window_example = declined_now-window 800 lookbacks_1 declined_1

-- A block from 2 ^ 63 on, which the column holds as a negative number.
abbrev listener_1 : ChainListenerStateRow
listener_1 = record {
  listened_chain = 42161;
  block_number = 9223372036854775809;
  agreement_id = some 3;
  block_timestamp = none;
}

update_chain_listener_state-get_example :
    (get_chain_listener_state 42161 (update_chain_listener_state listener_1 []) ≡ some listener_1)
    × (get_chain_listener_state 1 (update_chain_listener_state listener_1 [])
        ≡ get_chain_listener_state 1 [])
update_chain_listener_state-get_example =
    update_chain_listener_state-get listener_1 [] 1 (omega arith, omega arith, λ t e. absurd (cc e))
      (omega arith) (ground arith)

abbrev pool_of : ℕ → Option ChainPool
pool_of chain = some (record { pool = 14 ∷ 15 ∷ []; unresponsive = 15 ∷ [] })

run_due_passes-OnceEach_example : QueuedOnce (some (9 ∷ [])) (
    run_due_passes true true
      (some (9 ∷ []))
      (full_of 900 lookbacks_1 [] pool_of 0 60 registry_0 false (λ id. false) 10)
      (top_up_of 900 lookbacks_1 [] pool_of 0 60 registry_0 false (λ id. false) 10)
      [])
run_due_passes-OnceEach_example =
    run_due_passes-OnceEach 900 lookbacks_1 [] pool_of 0 60 registry_0 true true false false
      (λ id. false) 10 10 (some (9 ∷ [])) (tt, tt)

next_after_lem_example :
    (350 < next_after 1 100 60 350)
    × ((next_after 1 100 60 350 ≡ 100 + 60) ⊎ (next_after 1 100 60 350 ≤ 350 + 60))
    × (k : ℕ) × (next_after 1 100 60 350 ≡ 100 + 60 + k * 60)
next_after_lem_example = next_after_lem 1 100 60 350 (omega arith)

duration_until_utc_hour_lem_example :
    ((84600 + duration_until_utc_hour 84600 2) % 86400 ≡ 2 * 3600)
    × (duration_until_utc_hour 84600 2 < 86400)
duration_until_utc_hour_lem_example = duration_until_utc_hour_lem 84600 2 (omega arith)
