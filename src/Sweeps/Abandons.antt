-- ===== src/Sweeps/Abandons.antt =====
-- Which agreements the liveness checker (bin/dipper-service/src/network/service/liveness_checker.rs)
-- abandons, and which it replaces.
use dipper.Prelude.{
  ℕ, ◌+◌, ◌<◌, ◌≡◌, ◌≢◌, refl, ap, true, Option, none, some, String, ◌⊎◌, inl, inr, Bool-cases,
  Option-cases, ltb, ltb→lt, ◌==◌, ==_iff, is_some,
}
use dipper.Registry.Types.{Agreement}
use dipper.Registry.Ends.{has_id, update_agreement_sync_progress}
use dipper.Cancel.Dispatch.{cancel_hash}
use dipper.Sweeps.Breaker.{UnreachablePolicy, hold, judge}
use dipper.Sweeps.RetryEnds.{statuses, update-statuses}
use dipper.Sweeps.Liveness.{
  LivenessAction, initialize_tracking, reset_progress, within_tolerance, cancel_and_replace,
  tolerance_duration, judged, decide_liveness_action, CheckEnv, Checking, record_progress,
  cancel_and_reassess, act, read_height, graced, check_agreement,
}

-- No progress was seen on the agreement for longer than tolerated.
abbrev pub Stale : (last current progress : Option ℕ) → (now threshold : ℕ) → Type 0
Stale last current progress now threshold =
    (height : ℕ) × (last ≡ some height)
    × ((current ≡ none) ⊎ (current ≡ some height))
    × (time : ℕ) × (progress ≡ some time)
    × (time + threshold < now)

judged-Stale :
    (threshold now : ℕ) (progress : Option ℕ)
    → judged threshold now progress ≡ cancel_and_replace
    → (time : ℕ) × (progress ≡ some time) × (time + threshold < now)
judged-Stale threshold now none e = absurd (cc e)
judged-Stale threshold now (some time) e = elim (Bool-cases (ltb (time + threshold) now)) [
  | inl y ↦ (time, refl, ltb→lt _ _ y)
  | inr n ↦ absurd (cc (rw n at e))
]

decide_liveness_action-Stale :
    (last current progress : Option ℕ) (now threshold : ℕ)
    → decide_liveness_action last current progress now threshold ≡ cancel_and_replace
    → Stale last current progress now threshold
unfolding decide_liveness_action
decide_liveness_action-Stale none none progress now threshold e = absurd (cc e)
decide_liveness_action-Stale none (some block) progress now threshold e = absurd (cc e)
decide_liveness_action-Stale (some last) none progress now threshold e =
    let (t, p, k) = judged-Stale threshold now progress e in (last, refl, inl refl, t, p, k)
decide_liveness_action-Stale (some last) (some current) progress now threshold e =
    elim (Bool-cases (current == last)) [
      | inl y ↦
          let (t, p, k) = judged-Stale threshold now progress (rw y at e) in
          (last, refl, inr (ap some ((==_iff current last).0 y)), t, p, k)
      | inr n ↦ absurd (cc (rw n at e))
    ]

-- Nothing is cancelled or replaced.
abbrev pub Spared : Checking → Checking → Type 0
Spared c c' =
    (statuses c'.services.registry.agreements ≡ statuses c.services.registry.agreements)
    × (c'.services.pushed ≡ c.services.pushed)

module _ (manager : String) (hash_text : ℕ → String) (env : CheckEnv) (a : Agreement) where
  record_progress-Spared :
      (height : ℕ) (c : Checking)
      → Spared c (record c { services = record_progress env a height c.services })
  unfolding record_progress update_agreement_sync_progress
  record_progress-Spared height c = elim (Bool-cases env.progress_fault) [
    | inl y ↦ rw y (refl, refl)
    | inr n ↦
        rw n (update-statuses (has_id a.id) _ (λ b. refl) c.services.registry.agreements, refl)
  ]

  cancel_and_reassess-Spared :
      (c : Checking)
      → (is_some (cancel_hash a) ≡ true) ⊎ Spared c (cancel_and_reassess manager hash_text env a c)
  unfolding cancel_and_reassess
  cancel_and_reassess-Spared c = elim (Option-cases (cancel_hash a)) [
    | inl n ↦ inr (rw n (refl, refl))
    | inr (hash, e) ↦ inl (ap (λ o. is_some o) e)
  ]

  or_Spared :
      {policy : Option UnreachablePolicy}
      → policy ≢ some hold
      → (c : Checking)
      → (is_some (cancel_hash a) ≡ true) ⊎ Spared c (cancel_and_reassess manager hash_text env a c)
      → ((cancel_and_replace ≡ cancel_and_replace)
          × (policy ≢ some hold)
          × (is_some (cancel_hash a) ≡ true))
        ⊎ Spared c (cancel_and_reassess manager hash_text env a c)
  or_Spared free c (inl h) = inl (refl, free, h)
  or_Spared free c (inr s) = inr s

  act-Spared :
      (action : LivenessAction) (policy : Option UnreachablePolicy) (c : Checking)
      → ((action ≡ cancel_and_replace) × (policy ≢ some hold) × (is_some (cancel_hash a) ≡ true))
        ⊎ Spared c (act manager hash_text env a action policy c)
  unfolding act
  act-Spared (initialize_tracking height) policy c = inr (record_progress-Spared height c)
  act-Spared (reset_progress height) policy c = inr (record_progress-Spared height c)
  act-Spared within_tolerance policy c = inr (refl, refl)
  act-Spared cancel_and_replace (some hold) c = inr (refl, refl)
  act-Spared cancel_and_replace (some (judge held g)) c =
      or_Spared (λ e. absurd (cc e)) c (cancel_and_reassess-Spared c)
  act-Spared cancel_and_replace none c =
      or_Spared (λ e. absurd (cc e)) c (cancel_and_reassess-Spared c)

-- A check of an agreement cancels or replaces something only if its last height is known and the
-- indexer shows none or the same, its last progress, with the breaker's grace, is further
-- back than the tolerance, the breaker does not hold, and there is a terms hash to cancel with.
pub check_agreement-Spared :
    (manager : String) (hash_text : ℕ → String) (active_counts : ℕ → Option ℕ)
    (max_tolerance_days : ℕ) (env : CheckEnv) (a : Agreement) (current : Option ℕ)
    (policy : Option UnreachablePolicy) (c : Checking)
    → (Stale
          (read_height a.last_block_height)
          current
          (graced policy a.last_progress_at)
          env.now
          (tolerance_duration a.terms.subgraph_deployment_id active_counts max_tolerance_days)
        × (policy ≢ some hold)
        × (is_some (cancel_hash a) ≡ true))
      ⊎ Spared c (
          check_agreement manager hash_text active_counts max_tolerance_days env a current policy c)
unfolding check_agreement
check_agreement-Spared manager hash_text active_counts max_tolerance_days env a current policy c =
    let threshold =
      tolerance_duration a.terms.subgraph_deployment_id active_counts max_tolerance_days in
    let action =
      decide_liveness_action (read_height a.last_block_height) current
        (graced policy a.last_progress_at) env.now threshold in
    elim (act-Spared manager hash_text env a action policy c) [
      | inl (e, free, h) ↦
          inl (decide_liveness_action-Stale _ current _ env.now threshold e, free, h)
      | inr s ↦ inr s
    ]
