-- ===== src/Sweeps/Replaces.antt =====
-- When the liveness checker (bin/dipper-service/src/network/service/liveness_checker.rs) queues a
-- replacement for an agreement.
use dipper.Prelude.{
  ℕ, ◌≡◌, refl, ap, Bool, true, false, List, Option, none, some, String, ◌⊎◌, inl, inr, Bool-cases,
  is_none,
}
use dipper.Registry.Types.{Agreement, Result, ok, err}
use dipper.Cancel.Dispatch.{
  LiveCancel, nothing_live, ended_cancel, read_failed, cancel_failed, unconfirmed, cancel_hash,
  cancel_if_live, abandoned_reason, CancelStarted, ended, not_live_started, may_be_live,
  mark_cancelling, finish_marked_cancel, send_marked_cancel,
}
use dipper.Sweeps.Replace.{Services, with_agreements}
use dipper.Sweeps.RetryEnds.{is_over, ShownOver, Answers, if_live-Answers}
use dipper.Sweeps.Expiration.{drop_pairs}
use dipper.Sweeps.Liveness.{
  CheckEnv, Checking, started_of, start_abandoned_cancel, after_start, cancel_and_reassess,
}

drop_pairs-pushed :
    (fault : Bool) (id : ℕ) (s : Services) → (drop_pairs fault id s).pushed ≡ s.pushed
unfolding drop_pairs
drop_pairs-pushed true id s = refl
drop_pairs-pushed false id s = refl

-- A cancel that does not leave the agreement possibly live rests on a read that shows it over.
finished_over :
    (manager : String) (hash_text : ℕ → String) (env : CheckEnv) (a : Agreement)
    (cancel : LiveCancel) (rows : List Agreement)
    → Answers env.chain cancel
    → ShownOver env.chain
      ⊎ ((finish_marked_cancel manager hash_text env.now env.faults a abandoned_reason cancel
            rows).1
          ≡ may_be_live)
unfolding finish_marked_cancel
finished_over manager hash_text env a (nothing_live b) rows h = inl h
finished_over manager hash_text env a (ended_cancel tx) rows (f, m, q) = inl (inr (f, ap is_over q))
finished_over manager hash_text env a read_failed rows h = inr refl
finished_over manager hash_text env a (cancel_failed e) rows h = inr refl
finished_over manager hash_text env a (unconfirmed tx) rows h = inr refl

module _ (manager : String) (hash_text : ℕ → String) (env : CheckEnv) (a : Agreement) where
  -- What a replacement rests on: the agreement was marked, and the chain shows it over.
  abbrev pub MayReplace : List Agreement → Type 0
  MayReplace rows =
      ShownOver env.chain
      × (rows' : List Agreement) × (mark_cancelling env.now env.faults.mark_fault abandoned_reason
            a.id rows
          ≡ ok rows')

  after_unmarked : (s : Services) → (after_start manager hash_text env a none s).pushed ≡ s.pushed
  unfolding after_start
  after_unmarked s = refl

  after_may_be_live :
      (o : Option CancelStarted) (s : Services)
      → o ≡ some may_be_live
      → (after_start manager hash_text env a o s).pushed ≡ s.pushed
  unfolding after_start
  after_may_be_live none s e = refl
  after_may_be_live (some ended) s e = absurd (cc e)
  after_may_be_live (some not_live_started) s e = absurd (cc e)
  after_may_be_live (some may_be_live) s e = drop_pairs-pushed env.delete_fault a.id s

  started_replaces :
      (c : Checking)
      → let started =
          start_abandoned_cancel manager hash_text env a c.services.registry.agreements in
        MayReplace c.services.registry.agreements
        ⊎ ((after_start manager hash_text env a started.1
              (with_agreements c.services started.0)).pushed
            ≡ c.services.pushed)
  unfolding start_abandoned_cancel send_marked_cancel cancel_if_live
  started_replaces c =
      go
        (mark_cancelling env.now env.faults.mark_fault abandoned_reason a.id
          c.services.registry.agreements)
        refl
    where
      go :
          (r : Result (List Agreement))
          → mark_cancelling env.now env.faults.mark_fault abandoned_reason a.id
              c.services.registry.agreements
            ≡ r
          → let started : List Agreement × Option CancelStarted =
              elim r as (λ _. List Agreement × Option CancelStarted) [
                | err e ↦ (c.services.registry.agreements, none)
                | ok rows' ↦
                    let sent =
                      send_marked_cancel manager hash_text env.now env.faults env.chain a
                        abandoned_reason rows' in
                    (sent.rows, started_of sent.reply)
              ] in
            MayReplace c.services.registry.agreements
            ⊎ ((after_start manager hash_text env a started.1
                  (with_agreements c.services started.0)).pushed
                ≡ c.services.pushed)
      go (err e) q =
          inr (after_unmarked (with_agreements c.services c.services.registry.agreements))
      go (ok rows') q =
          elim (finished_over manager hash_text env a (cancel_if_live env.chain a).0 rows'
            (if_live-Answers env.chain a env.chain.first_read refl)) [
              | inl over ↦ inl (over, rows', q)
              | inr m ↦ inr (after_may_be_live _ _ (ap some m))
            ]

-- A stale agreement's replacement is queued only after its mark as abandoned, and only where the
-- chain shows the agreement over, in the read before the cancel or in the one after it; in every
-- other case, a failed call or an unconfirmed cancel included, no job is pushed.
pub cancel_and_reassess_replaces :
    (manager : String) (hash_text : ℕ → String) (env : CheckEnv) (a : Agreement) (c : Checking)
    → MayReplace manager hash_text env a c.services.registry.agreements
      ⊎ ((cancel_and_reassess manager hash_text env a c).services.pushed ≡ c.services.pushed)
unfolding cancel_and_reassess
cancel_and_reassess_replaces manager hash_text env a c =
    elim (Bool-cases (is_none (cancel_hash a))) [
      | inl y ↦ inr (rw y refl)
      | inr n ↦ rw n (started_replaces manager hash_text env a c)
    ]
