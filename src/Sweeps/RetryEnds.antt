-- ===== src/Sweeps/RetryEnds.antt =====
-- What the cancel retry (bin/dipper-service/src/network/service/cancel_retry.rs) takes for the end of
-- an agreement.
use dipper.Prelude.{
  ℕ, ◌≡◌, ◌∙◌, ap, refl, Bool, true, false, ◌||◌, is_some, List, [], ◌∷◌, map, Option, none, some,
  String, ◌⊎◌, inl, inr, Bool-cases, update,
}
use dipper.Registry.Types.{Status, is_cancelling, Agreement, Result, ok, err, no_records_updated}
use dipper.Registry.Transitions.{at_status}
use dipper.Registry.Ends.{record_cancel_check, checked_row, find_at}
use dipper.Cancel.Dispatch.{
  AgreementOnChain, live, not_live, ended_by_indexer, ChainClientError, missing_terms_version_hash,
  ChainClient, LiveCancel, nothing_live, ended_cancel, read_failed, cancel_failed, unconfirmed,
  cancel_hash, read_after, sent_cancel, cancel_agreement_on_chain, if_live, cancel_if_live, reached,
}
use dipper.Sweeps.Retry.{
  RetryEnv, accepted_on_chain, past_grace, deadline_passed, can_confirm, checked_rows, attempts_of,
  note_check, confirm_if_over, noted_unless, after_cancel, retry_cancel,
}

abbrev pub statuses : List Agreement → List Status
statuses = map (λ a. a.status)

pub update-statuses :
    (p : Agreement → Bool) (f : Agreement → Agreement)
    → ((a : Agreement) → (f a).status ≡ a.status)
    → (rows : List Agreement) → statuses (update p f rows) ≡ statuses rows
unfolding update
update-statuses p f same [] = refl
update-statuses p f same (a ∷ rest) = elim (Bool-cases (p a)) [
  | inl y ↦ rw y (cc (same a, update-statuses p f same rest))
  | inr n ↦ rw n (cc (update-statuses p f same rest))
]

record_cancel_check-statuses :
    (now id n : ℕ) (e : Option Bool) (fault : Bool) (rows : List Agreement)
    → statuses (checked_rows (reached fault (record_cancel_check now id n e rows)) rows)
      ≡ statuses rows
unfolding record_cancel_check checked_row
record_cancel_check-statuses now id n e true rows = refl
record_cancel_check-statuses now id n e false rows = go (find_at id is_cancelling rows)
  where
    go :
        (o : Option Agreement)
        → let out : Result (List Agreement × ℕ) = elim o as (λ _. Result (List Agreement × ℕ)) [
          | none ↦ err no_records_updated
          | some a ↦ ok (
            update (at_status id is_cancelling) (checked_row now n e) rows,
            (checked_row now n e a).cancel_attempts,
          )
        ] in
          statuses (checked_rows out rows) ≡ statuses rows
    go none = refl
    go (some a) =
        update-statuses (at_status id is_cancelling) (checked_row now n e) (λ b. refl) rows

note_check-statuses :
    (env : RetryEnv) (id : ℕ) (failure : Option ChainClientError) (e : Option Bool)
    (rows : List Agreement)
    → statuses (note_check env id failure e rows) ≡ statuses rows
unfolding note_check
note_check-statuses env id failure e rows =
    record_cancel_check-statuses env.now id (attempts_of failure) e env.check_fault rows

abbrev pub is_over : Option AgreementOnChain → Bool
is_over none = false
is_over (some live) = false
is_over (some not_live) = true
is_over (some ended_by_indexer) = true

-- A read before the cancel or the one after it shows the agreement over.
abbrev pub ShownOver : ChainClient → Type 0
ShownOver chain =
    (is_over chain.first_read ≡ true)
    ⊎ ((chain.first_read ≡ some live) × (is_over chain.second_read ≡ true))

-- A cancel of this sweep that was mined with a known hash, and after which it was over.
abbrev pub OwnCancel : ChainClient → Type 0
OwnCancel chain =
    (h : ℕ) × (chain.cancel_via_manager ≡ some (some h)) × (chain.second_read ≡ some not_live)

-- What an answer of the cancel rests on.
abbrev pub Answers : ChainClient → LiveCancel → Type 0
Answers chain (nothing_live b) = ShownOver chain
Answers chain (ended_cancel tx) =
    (chain.first_read ≡ some live)
    × (chain.cancel_via_manager ≡ some tx)
    × (chain.second_read ≡ some not_live)
Answers chain read_failed = Unit
Answers chain (cancel_failed e) = Unit
Answers chain (unconfirmed tx) = Unit

module _ (chain : ChainClient) where
  read_after-Answers :
      (tx : Option ℕ) (r : Option AgreementOnChain)
      → chain.first_read ≡ some live
      → chain.cancel_via_manager ≡ some tx
      → chain.second_read ≡ r
      → Answers chain (read_after tx r)
  read_after-Answers tx none f m q = tt
  read_after-Answers tx (some not_live) f m q = (f, m, q)
  read_after-Answers tx (some ended_by_indexer) f m q = inr (f, ap is_over q)
  read_after-Answers tx (some live) f m q = tt

  sent_cancel-Answers :
      (m : Option (Option ℕ))
      → chain.first_read ≡ some live
      → chain.cancel_via_manager ≡ m
      → Answers chain (sent_cancel chain.cancel_error m chain.second_read)
  sent_cancel-Answers none f q = tt
  sent_cancel-Answers (some tx) f q = read_after-Answers tx chain.second_read f q refl

  pub if_live-Answers :
      (a : Agreement) (r : Option AgreementOnChain)
      → chain.first_read ≡ r
      → Answers chain (if_live chain a r).0
  unfolding if_live cancel_agreement_on_chain
  if_live-Answers a none q = tt
  if_live-Answers a (some not_live) q = inl (ap is_over q)
  if_live-Answers a (some ended_by_indexer) q = inl (ap is_over q)
  if_live-Answers a (some live) q = go (cancel_hash a)
    where
      go :
          (o : Option (List ℕ))
          → let out : LiveCancel × Bool = elim o as (λ _. LiveCancel × Bool) [
            | none ↦ (cancel_failed missing_terms_version_hash, false)
            | some hash ↦
                (sent_cancel chain.cancel_error chain.cancel_via_manager chain.second_read, true)
          ] in
            Answers chain out.0
      go none = tt
      go (some hash) = sent_cancel-Answers chain.cancel_via_manager q refl

-- What the end of a row in the registry rests on.
abbrev pub MayEnd : RetryEnv → Agreement → Option ℕ → Type 0
MayEnd env a chain_now =
    ShownOver env.chain
    × (((accepted_on_chain a ≡ true) × (OwnCancel env.chain ⊎ (past_grace env.clock a ≡ true)))
        ⊎ ((accepted_on_chain a ≡ false) × (deadline_passed chain_now a ≡ true)))

module _ (env : RetryEnv) (a : Agreement) (chain_now : Option ℕ) where
  can_confirm-MayEnd :
      (tx : Option ℕ)
      → ShownOver env.chain
      → ((h : ℕ) → tx ≡ some h → OwnCancel env.chain)
      → can_confirm env.clock a tx chain_now ≡ true
      → MayEnd env a chain_now
  unfolding can_confirm
  can_confirm-MayEnd tx over own c = (
    over,
    elim (Bool-cases (accepted_on_chain a)) [
      | inl y ↦ inl (y, by_tx tx own (rw y at c))
      | inr n ↦ inr (n, rw n at c)
    ],
  )
    where
      by_tx :
          (tx : Option ℕ)
          → ((h : ℕ) → tx ≡ some h → OwnCancel env.chain)
          → (is_some tx || past_grace env.clock a) ≡ true
          → OwnCancel env.chain ⊎ (past_grace env.clock a ≡ true)
      by_tx none own e = inr e
      by_tx (some h) own e = inl (own h refl)

module _ (manager : String) (indexer_text hash_text : ℕ → String) (env : RetryEnv) (a : Agreement)
    (chain_now : Option ℕ) (rows : List Agreement) where
  confirm_if_over-statuses :
      (tx : Option ℕ) (by_it : Bool)
      → ShownOver env.chain
      → ((h : ℕ) → tx ≡ some h → OwnCancel env.chain)
      → MayEnd env a chain_now
        ⊎ (statuses (
              noted_unless manager indexer_text hash_text env a.id
                (confirm_if_over manager indexer_text hash_text env a tx by_it chain_now rows))
            ≡ statuses rows)
  unfolding confirm_if_over
  confirm_if_over-statuses tx by_it over own =
      elim (Bool-cases (can_confirm env.clock a tx chain_now)) [
        | inl y ↦ inl (can_confirm-MayEnd env a chain_now tx over own y)
        | inr n ↦ inr (rw n (note_check-statuses env a.id none (some true) rows))
      ]

  after_cancel-statuses :
      (c : LiveCancel)
      → Answers env.chain c
      → MayEnd env a chain_now
        ⊎ (statuses (after_cancel manager indexer_text hash_text env a chain_now c rows)
            ≡ statuses rows)
  unfolding after_cancel
  after_cancel-statuses (nothing_live b) h =
      confirm_if_over-statuses none b h (λ x q. absurd (cc q))
  after_cancel-statuses (ended_cancel tx) (f, m, q) =
      confirm_if_over-statuses tx false (inr (f, ap is_over q)) (λ x e. (x, m ∙ ap some e, q))
  after_cancel-statuses read_failed h = inr (note_check-statuses env a.id none none rows)
  after_cancel-statuses (unconfirmed tx) h = inr (note_check-statuses env a.id none none rows)
  after_cancel-statuses (cancel_failed e) h =
      inr (note_check-statuses env a.id (some e) (some false) rows)

-- A retry changes the status of a row only where the chain shows the agreement over, in a read
-- before the cancel or in the one after it, and nothing can bring it back: an accepted one that
-- this sweep's own cancel ended, or that was first seen ended more than an hour ago, or one never
-- accepted whose deadline is before the chain's time.
pub retry_cancel_end :
    (manager : String) (indexer_text hash_text : ℕ → String) (env : RetryEnv) (a : Agreement)
    (chain_now : Option ℕ) (rows : List Agreement)
    → MayEnd env a chain_now
      ⊎ (statuses (retry_cancel manager indexer_text hash_text env a chain_now rows)
          ≡ statuses rows)
unfolding retry_cancel cancel_if_live
retry_cancel_end manager indexer_text hash_text env a chain_now rows =
    after_cancel-statuses manager indexer_text hash_text env a chain_now rows
      (cancel_if_live env.chain a).0 (if_live-Answers env.chain a env.chain.first_read refl)
