-- ===== src/Worker/OfferEnds.antt =====
-- When the job that offers an agreement (bin/dipper-service/src/worker/handlers/submit_offer.rs) is done.
use dipper.Prelude.{
  ℕ, ◌≡◌, refl, sym, ap, ◌∙◌, true, false, ◌||◌, List, Option, none, some, ◌⊎◌, inl, inr,
  Bool-cases, ◌==◌, ==_iff,
}
use dipper.Registry.Types.{is_created, is_cancelling, is_canceled_by_requester, Agreement}
use dipper.Registry.Ends.{find}
use dipper.Cancel.Dispatch.{
  ChainClientError, submit_failed, config_error, missing_terms_version_hash, cancel_not_confirmed,
  rpc_error, tx_dropped, tx_reverted, contract_revert, ChainClient, LiveCancel, nothing_live,
  ended_cancel, read_failed, cancel_failed, unconfirmed, cancel_if_live,
}
use dipper.Worker.Loop.{JobOutcome, done}
use dipper.Worker.Offers.{
  OfferAnswer, offered, offer_failed, SubmitEnv, Submitted, dipper_cancelled, withdraw_failed,
  withdraw_reply, withdraw_offer_if_stored, offer_error, store_offer, cancelled_meanwhile,
  after_answer, take_step, submit_offer,
}
use dipper.Sweeps.RetryEnds.{is_over, ShownOver, Answers, if_live-Answers}

withdraw_failed_done : (e : ChainClientError) → withdraw_failed e ≡ done → ⊥
unfolding withdraw_failed
withdraw_failed_done submit_failed h = cc h
withdraw_failed_done config_error h = cc h
withdraw_failed_done missing_terms_version_hash h = cc h
withdraw_failed_done cancel_not_confirmed h = cc h
withdraw_failed_done rpc_error h = cc h
withdraw_failed_done (tx_dropped receipt_checked) h = cc h
withdraw_failed_done tx_reverted h = cc h
withdraw_failed_done contract_revert h = cc h

offer_error_done : (e : ChainClientError) → offer_error e ≡ done → ⊥
unfolding offer_error
offer_error_done submit_failed h = cc h
offer_error_done config_error h = cc h
offer_error_done missing_terms_version_hash h = cc h
offer_error_done cancel_not_confirmed h = cc h
offer_error_done rpc_error h = cc h
offer_error_done (tx_dropped receipt_checked) h = cc h
offer_error_done tx_reverted h = cc h
offer_error_done contract_revert h = cc h

withdraw_reply_over :
    (chain : ChainClient) (c : LiveCancel)
    → Answers chain c
    → withdraw_reply c ≡ done
    → ShownOver chain
unfolding withdraw_reply
withdraw_reply_over chain (nothing_live b) h e = h
withdraw_reply_over chain (ended_cancel tx) (f, m, q) e = inr (f, ap is_over q)
withdraw_reply_over chain (cancel_failed x) h e = absurd (withdraw_failed_done x e)
withdraw_reply_over chain (unconfirmed tx) h e = absurd (cc e)
withdraw_reply_over chain read_failed h e = absurd (cc e)

withdrawn :
    (chain : ChainClient) (a : Agreement)
    → withdraw_offer_if_stored chain a ≡ done
    → ShownOver chain
unfolding withdraw_offer_if_stored cancel_if_live
withdrawn chain a e =
    withdraw_reply_over chain (cancel_if_live chain a).0
      (if_live-Answers chain a chain.first_read refl) e

-- An offer that went out for an agreement that was created and has the id that its terms derive.
abbrev pub OfferMade : SubmitEnv → ℕ → Option Agreement → Type 0
OfferMade env id found =
    (a : Agreement) × (found ≡ some a) × (is_created a.status ≡ true) × (env.derived_id ≡ id)

-- Neither to offer nor to withdraw.
abbrev pub NothingToDo : Option Agreement → Type 0
NothingToDo found =
    (a : Agreement)
    → found ≡ some a
    → (is_created a.status || (is_cancelling a.status || is_canceled_by_requester a.status)) ≡ false

-- The row with the id is not one that dipper cancels or cancelled.
abbrev pub NotCancelled : ℕ → List Agreement → Type 0
NotCancelled id rows =
    (a : Agreement)
    → find id rows ≡ some a
    → (is_cancelling a.status || is_canceled_by_requester a.status) ≡ false

-- The offer was sent and answered without an error, and its row, unless reading it again failed,
-- was not cancelled.
abbrev pub Offering : SubmitEnv → ℕ → Submitted → Type 0
Offering env id out =
    (out.sent ≡ true)
    × ((tx : Option ℕ) × (env.answer ≡ offered tx))
    × ((env.reread_fault ≡ true) ⊎ NotCancelled id out.rows)

abbrev pub DoneWith : SubmitEnv → ℕ → Option Agreement → Submitted → Type 0
DoneWith env id found out =
    ShownOver env.chain
    ⊎ (OfferMade env id found × Offering env id out)
    ⊎ ((out.sent ≡ false) × NothingToDo found)

idle :
    (a : Agreement)
    → is_created a.status ≡ false
    → dipper_cancelled a.status ≡ false
    → NothingToDo (some a)
idle a c w b e =
    let same : a ≡ b = cc e in
    ap (λ (x : Agreement). is_created x.status || dipper_cancelled x.status) (sym same)
    ∙ rw (c, w) refl

module _ (env : SubmitEnv) (id : ℕ) where
  not_cancelled :
      (rows : List Agreement)
      → cancelled_meanwhile env.reread_fault id rows ≡ none
      → (env.reread_fault ≡ true) ⊎ NotCancelled id rows
  unfolding cancelled_meanwhile
  not_cancelled rows h = elim (Bool-cases env.reread_fault) [
    | inl y ↦ inl y
    | inr n ↦ inr (λ a e. go a e (Bool-cases (dipper_cancelled a.status)) (rw n at h))
  ]
    where
      go :
          (a : Agreement)
          → find id rows ≡ some a
          → (dipper_cancelled a.status ≡ true) ⊎ (dipper_cancelled a.status ≡ false)
          → cancelled_meanwhile false id rows ≡ none
          → dipper_cancelled a.status ≡ false
      go a e (inl w) k = absurd (cc (rw (cancelled_meanwhile, e, w) at k))
      go a e (inr w) k = w

  after_answer_done :
      (answer : OfferAnswer) (rows : List Agreement)
      → env.answer ≡ answer
      → (after_answer env id answer rows).reply ≡ done
      → ShownOver env.chain ⊎ Offering env id (after_answer env id answer rows)
  unfolding after_answer
  after_answer_done (offer_failed e) rows same h = absurd (offer_error_done e h)
  after_answer_done (offered tx) rows same h =
      let rows' = store_offer env id tx rows in
      elim (go (cancelled_meanwhile env.reread_fault id rows') h) [
        | inl over ↦ inl over
        | inr free ↦ inr (refl, (tx, same), not_cancelled rows' free)
      ]
    where
      go :
          (o : Option Agreement)
          → let reply : JobOutcome = elim o as (λ _. JobOutcome) [
            | none ↦ done
            | some a ↦ withdraw_offer_if_stored env.chain a
          ] in
            reply ≡ done → ShownOver env.chain ⊎ (o ≡ none)
      go none h = inr refl
      go (some a) h = inl (withdrawn env.chain a h)

  made :
      (a : Agreement) (rows : List Agreement)
      → is_created a.status ≡ true
      → env.derived_id ≡ id
      → (after_answer env id env.answer rows).reply ≡ done
      → DoneWith env id (some a) (after_answer env id env.answer rows)
  made a rows c d h = elim (after_answer_done env.answer rows refl h) [
    | inl over ↦ inl over
    | inr free ↦ inr (inl ((a, refl, c, d), free))
  ]

  next_step_done :
      (found : Option Agreement) (rows : List Agreement)
      → (take_step env id found rows).reply ≡ done
      → DoneWith env id found (take_step env id found rows)
  unfolding take_step
  next_step_done none rows h = inr (inr (refl, λ a e. absurd (cc e)))
  next_step_done (some a) rows h = elim (Bool-cases (is_created a.status)) [
    | inl c ↦ elim (Bool-cases (env.derived_id == id)) [
      | inl d ↦
          rw (c, d)
            (made a (env.meanwhile rows) c ((==_iff env.derived_id id).0 d) (rw (c, d) at h))
      | inr d ↦ absurd (cc (rw (c, d) at h))
    ]
    | inr c ↦ elim (Bool-cases (dipper_cancelled a.status)) [
      | inl w ↦ rw (c, w) (inl (withdrawn env.chain a (rw (c, w) at h)))
      | inr w ↦ rw (c, w) (inr (inr (refl, idle a c w)))
    ]
  ]

-- A job to offer an agreement that is done either sent nothing and has nothing to do, or rests on a
-- read of the chain that shows the agreement over, so that nothing is left to withdraw, or sent
-- the offer of a created agreement with the id that its terms derive, which the chain client
-- answered without an error, and then, unless reading the row again failed, leaves a row that
-- dipper neither is cancelling nor cancelled, whatever other writers did while the offer was sent.
pub submit_offer_done :
    (env : SubmitEnv) (id : ℕ) (rows : List Agreement)
    → (submit_offer env id rows).reply ≡ done
    → DoneWith env id (find id rows) (submit_offer env id rows)
unfolding submit_offer
submit_offer_done env id rows h = elim (Bool-cases env.read_fault) [
  | inl y ↦ absurd (cc (rw y at h))
  | inr n ↦ rw n (next_step_done env id (find id rows) rows (rw n at h))
]
