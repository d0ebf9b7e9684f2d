-- ===== src/Sweeps/Liveness.antt =====
-- bin/dipper-service/src/network/service/liveness_checker.rs: one cycle, from the answers of the
-- indexers to the agreements that are abandoned and replaced. The answers, and the calls that
-- fail or run out of time and are taken as not carried out, are arguments.
use dipper.Prelude.{
  ℕ, ◌+◌, ◌*◌, ◌%◌, ◌^◌, min, max, Bool, true, false, List, [], ◌∷◌, Option, none, some, String,
  is_none, ltb, ◌==◌, if◌then◌else◌, any_eq, length, ℤ, as_u64, map, select, distinct,
}
use dipper.Registry.Types.{Agreement, Result, ok, err, no_records_updated}
use dipper.Registry.Ends.{record_cancel_check, update_agreement_sync_progress}
use dipper.Cancel.Dispatch.{
  ChainClient, Faults, abandoned_reason, CancelStarted, ended, not_live_started, may_be_live,
  cancel_hash, reached, mark_cancelling, send_marked_cancel,
}
use dipper.Sweeps.Replace.{Services, ReplaceFaults, with_agreements, replace_abandoned}
use dipper.Sweeps.Expiration.{drop_pairs}
use dipper.Sweeps.Breaker.{
  day_seconds, max_hold_of, UnreachablePolicy, hold, judge, progress_clock, UnreachableBreaker,
  evaluate,
}

pub data LivenessAction : Type 0 where
  initialize_tracking reset_progress : (block : ℕ) → LivenessAction
  within_tolerance cancel_and_replace : LivenessAction

-- A count is cast to 32 bits.
unfoldable pub tolerance_duration : ℕ → (ℕ → Option ℕ) → ℕ → ℕ
tolerance_duration deployment active_counts max_tolerance_days =
    let count : ℕ = elim (active_counts deployment) [ none ↦ 1 | some n ↦ n ] in
    max (min (count % 2 ^ 32) max_tolerance_days) 1 * day_seconds

-- No progress was seen: what is past the tolerance.
abbrev pub judged : (threshold now : ℕ) → Option ℕ → LivenessAction
judged threshold now none = within_tolerance
judged threshold now (some progress) =
    if ltb (progress + threshold) now then cancel_and_replace else within_tolerance

unfoldable pub decide_liveness_action :
    (last_block_height current_block last_progress_at : Option ℕ)
    → (now threshold : ℕ) → LivenessAction
decide_liveness_action none (some block) progress now threshold = initialize_tracking block
decide_liveness_action none none progress now threshold = initialize_tracking 0
decide_liveness_action (some last) none progress now threshold = judged threshold now progress
decide_liveness_action (some last) (some current) progress now threshold =
    if current == last then judged threshold now progress else reset_progress current

pub data Probe : Type 0 where
  reached_at : (heights : ℕ → Option ℕ) → Probe
  unreachable : Probe

abbrev pub probe_block : Probe → Agreement → Option ℕ
probe_block (reached_at heights) a = heights a.terms.subgraph_deployment_id
probe_block unreachable a = none

-- What the checks of one agreement meet.
pub record CheckEnv : Type 0 where
  pub now : ℕ
  pub progress_fault : Bool
  pub chain : ChainClient
  pub faults : Faults
  pub delete_fault : Bool
  pub ended_fault : Bool
  pub replace : ReplaceFaults

-- The services, and the agreements reported as impossible to cancel.
pub record Checking : Type 0 where
  pub services : Services
  pub uncancellable : List ℕ

unfoldable pub report_uncancellable : Agreement → List ℕ → List ℕ
report_uncancellable a ids = if any_eq a.id ids then ids else a.id ∷ ids

unfoldable pub record_progress : CheckEnv → Agreement → ℕ → Services → Services
unfolding update_agreement_sync_progress
record_progress env a height s =
    if env.progress_fault
    then s
    else with_agreements s
        (update_agreement_sync_progress a.id height env.now s.registry.agreements)

abbrev pub noted_end : Result (List Agreement × ℕ) → Services → Services × Bool
noted_end (ok (rows, attempts)) s = (with_agreements s rows, true)
noted_end (err no_records_updated) s = (s, true)
noted_end (err _) s = (s, false)

unfoldable pub note_seen_ended : CheckEnv → Agreement → Services → Services × Bool
unfolding record_cancel_check
note_seen_ended env a s =
    noted_end
      (reached env.ended_fault
        (record_cancel_check env.now a.id 0 (some true) s.registry.agreements))
      s

abbrev pub started_of : Result CancelStarted → Option CancelStarted
started_of (ok started) = some started
started_of (err e) = none

-- The block height as a row is read.
abbrev pub read_height : Option ℤ → Option ℕ
read_height none = none
read_height (some v) = some (as_u64 v)

abbrev pub graced : Option UnreachablePolicy → Option ℕ → Option ℕ
graced none progress = progress
graced (some policy) progress = progress_clock policy progress

abbrev pub policy_for : Probe → UnreachablePolicy → Option UnreachablePolicy
policy_for (reached_at heights) policy = none
policy_for unreachable policy = some policy

-- The agreements of each indexer. The source groups them in a hash map, whose order is open.
unfoldable pub group_by_indexer_id : List Agreement → List (ℕ × List Agreement)
unfolding distinct select
group_by_indexer_id rows =
    map (λ indexer. (indexer, select (λ a. a.indexer_id == indexer) rows))
      (distinct (map (λ a. a.indexer_id) rows))

abbrev pub count_unreachable : (ℕ → Probe) → List (ℕ × List Agreement) → ℕ
count_unreachable probes [] = 0
count_unreachable probes ((indexer, group) ∷ rest) =
    (elim (probes indexer) [ reached_at heights ↦ 0 | unreachable ↦ 1 ])
    + count_unreachable probes rest

module _ (manager : String) (hash_text : ℕ → String) where
  unfoldable pub start_abandoned_cancel :
      CheckEnv → Agreement → List Agreement → List Agreement × Option CancelStarted
  unfolding mark_cancelling send_marked_cancel
  start_abandoned_cancel env a rows =
      elim (mark_cancelling env.now env.faults.mark_fault abandoned_reason a.id rows) [
        | err e ↦ (rows, none)
        | ok rows' ↦
            let sent =
              send_marked_cancel manager hash_text env.now env.faults env.chain a abandoned_reason
                rows' in
            (sent.rows, started_of sent.reply)
      ]

  abbrev pub replace_if_noted : CheckEnv → Agreement → Services × Bool → Services
  replace_if_noted env a (s, true) = replace_abandoned env.replace a s
  replace_if_noted env a (s, false) = s

  -- What follows the start of the cancel.
  unfoldable pub after_start : CheckEnv → Agreement → Option CancelStarted → Services → Services
  unfolding replace_abandoned note_seen_ended drop_pairs
  after_start env a none s = s
  after_start env a (some ended) s =
      replace_abandoned env.replace a (drop_pairs env.delete_fault a.id s)
  after_start env a (some may_be_live) s = drop_pairs env.delete_fault a.id s
  after_start env a (some not_live_started) s =
      replace_if_noted env a (note_seen_ended env a (drop_pairs env.delete_fault a.id s))

  unfoldable pub cancel_and_reassess : CheckEnv → Agreement → Checking → Checking
  unfolding report_uncancellable start_abandoned_cancel after_start
  cancel_and_reassess env a c =
      let started = start_abandoned_cancel env a c.services.registry.agreements in
      if is_none (cancel_hash a)
      then record c { uncancellable = report_uncancellable a c.uncancellable }
      else record c {
        services = after_start env a started.1 (with_agreements c.services started.0);
      }

  -- The action, with the policy for an indexer that could not be reached.
  unfoldable pub act :
      CheckEnv → Agreement → LivenessAction → Option UnreachablePolicy → Checking → Checking
  unfolding record_progress cancel_and_reassess
  act env a (initialize_tracking height) policy c = record c {
    services = record_progress env a height c.services;
  }
  act env a (reset_progress height) policy c = record c {
    services = record_progress env a height c.services;
  }
  act env a within_tolerance policy c = c
  act env a cancel_and_replace (some hold) c = c
  act env a cancel_and_replace (some (judge held max_grace)) c = cancel_and_reassess env a c
  act env a cancel_and_replace none c = cancel_and_reassess env a c

  unfoldable pub check_agreement :
      (active_counts : ℕ → Option ℕ)
      → (max_tolerance_days : ℕ) → CheckEnv
      → Agreement
      → Option ℕ
      → Option UnreachablePolicy
      → Checking
      → Checking
  unfolding progress_clock tolerance_duration decide_liveness_action act
  check_agreement active_counts max_tolerance_days env a current policy c =
      act env a
        (decide_liveness_action (read_height a.last_block_height) current
          (graced policy a.last_progress_at) env.now
          (tolerance_duration a.terms.subgraph_deployment_id active_counts max_tolerance_days))
        policy c

  unfoldable pub check_indexer :
      (active_counts : ℕ → Option ℕ)
      → (max_tolerance_days : ℕ) → (ℕ → CheckEnv)
      → Probe
      → UnreachablePolicy
      → List Agreement
      → Checking
      → Checking
  unfolding check_agreement
  check_indexer active_counts max_tolerance_days env probe policy [] c = c
  check_indexer active_counts max_tolerance_days env probe policy (a ∷ rest) c =
      check_indexer active_counts max_tolerance_days env probe policy rest (
        check_agreement active_counts max_tolerance_days (env a.id) a (probe_block probe a)
          (policy_for probe policy) c)

  unfoldable pub check_groups :
      (active_counts : ℕ → Option ℕ)
      → (max_tolerance_days : ℕ) → (ℕ → CheckEnv)
      → (ℕ → Probe)
      → UnreachablePolicy
      → List (ℕ × List Agreement)
      → Checking
      → Checking
  unfolding check_indexer
  check_groups active_counts max_tolerance_days env probes policy [] c = c
  check_groups active_counts max_tolerance_days env probes policy ((indexer, group) ∷ rest) c =
      check_groups active_counts max_tolerance_days env probes policy rest
        (check_indexer active_counts max_tolerance_days env (probes indexer) policy group c)

-- One cycle: every indexer is asked before anything is done, for the breaker to see them all. An
-- error of either query, or no agreement, ends the cycle, which is `listed` then.
module _ (manager : String) (hash_text : ℕ → String) (reaches_fraction : ℕ → ℕ → Bool)
    (min_indexers max_tolerance_days : ℕ) where
  unfoldable pub liveness_cycle :
      ℕ
      → (listed : List Agreement) → (active_counts : ℕ → Option ℕ) → (ℕ → CheckEnv)
      → (ℕ → Probe)
      → UnreachableBreaker
      → Checking
      → UnreachableBreaker × Checking
  unfolding group_by_indexer_id evaluate check_groups
  liveness_cycle now [] active_counts env probes breaker c = (breaker, c)
  liveness_cycle now (a ∷ listed) active_counts env probes breaker c =
      let groups = group_by_indexer_id (a ∷ listed) in
      let (breaker', policy) =
        evaluate reaches_fraction min_indexers (max_hold_of max_tolerance_days) (length groups)
          (count_unreachable probes groups) now breaker in
      (
        breaker',
        check_groups manager hash_text active_counts max_tolerance_days env probes policy groups c,
      )
