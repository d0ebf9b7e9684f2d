-- ===== src/Cancel/Answers.antt =====
-- When a cancel of bin/dipper-service/src/cancel_dispatch.rs says that the agreement ended, and when
-- it sends nothing.
use dipper.Prelude.{
  ℕ, ◌≡◌, refl, ap, Bool, true, false, List, Option, none, some, String, arith, inl, inr,
  Bool-cases, is_some,
}
use dipper.Registry.Types.{Error, is_accepted_on_chain, Agreement, Result, ok, err}
use dipper.Cancel.Dispatch.{
  AgreementOnChain, live, not_live, ended_by_indexer, missing_terms_version_hash, ChainClient,
  Faults, LiveCancel, nothing_live, ended_cancel, read_failed, cancel_failed, unconfirmed,
  cancel_hash, read_after, sent_cancel, cancel_agreement_on_chain, if_live, cancel_if_live,
  CancelReason, ended, mark_cancelling, finish_marked_cancel, Started, send_marked_cancel,
  start_cancel, start_cancel_seen_live,
}

-- What an answer `Ended` rests on.
pub record EndSeen (chain : ChainClient) (a : Agreement) (sent : Bool) : Type 0 where
  pub was_accepted : is_accepted_on_chain a.status ≡ true
  pub was_sent : sent ≡ true
  pub has_hash : is_some (cancel_hash a) ≡ true
  pub mined : is_some chain.cancel_via_manager ≡ true
  pub over : chain.second_read ≡ some not_live

finish_ended :
    (manager : String) (hash_text : ℕ → String) (now : ℕ) (faults : Faults) (a : Agreement)
    (reason : CancelReason) (cancel : LiveCancel) (rows : List Agreement)
    → (finish_marked_cancel manager hash_text now faults a reason cancel rows).1 ≡ ended
    → (is_accepted_on_chain a.status ≡ true) × (x : Option ℕ) × (cancel ≡ ended_cancel x)
unfolding finish_marked_cancel
finish_ended manager hash_text now faults a reason (nothing_live by_indexer) rows h = cc h
finish_ended manager hash_text now faults a reason read_failed rows h = cc h
finish_ended manager hash_text now faults a reason (cancel_failed e) rows h = cc h
finish_ended manager hash_text now faults a reason (unconfirmed x) rows h = cc h
finish_ended manager hash_text now faults a reason (ended_cancel x) rows h =
    elim (Bool-cases (is_accepted_on_chain a.status)) [
      | inl y ↦ (y, x, refl)
      | inr n ↦ absurd (cc (rw n at h))
    ]

cancel_ended :
    (chain : ChainClient) (a : Agreement) (x : Option ℕ)
    → (cancel_agreement_on_chain chain a).0 ≡ ended_cancel x
    → is_accepted_on_chain a.status ≡ true
    → EndSeen chain a (cancel_agreement_on_chain chain a).1
unfolding cancel_agreement_on_chain
cancel_ended chain a x h y = go (cancel_hash a) refl h
  where
    read :
        (tx : Option ℕ) (r : Option AgreementOnChain)
        → read_after tx r ≡ ended_cancel x
        → r ≡ some not_live
    read tx none k = cc k
    read tx (some not_live) k = refl
    read tx (some ended_by_indexer) k = cc k
    read tx (some live) k = cc k

    sent :
        (m : Option (Option ℕ))
        → sent_cancel chain.cancel_error m chain.second_read ≡ ended_cancel x
        → (is_some m ≡ true) × (chain.second_read ≡ some not_live)
    sent none k = cc k
    sent (some tx) k = (refl, read tx chain.second_read k)

    go :
        (o : Option (List ℕ))
        → cancel_hash a ≡ o
        → let out : LiveCancel × Bool = elim o as (λ _. LiveCancel × Bool) [
          | none ↦ (cancel_failed missing_terms_version_hash, false)
          | some hash ↦
              (sent_cancel chain.cancel_error chain.cancel_via_manager chain.second_read, true)
        ] in
          out.0 ≡ ended_cancel x → EndSeen chain a out.1
    go none q k = cc k
    go (some hash) q k =
        let (m, r) = sent chain.cancel_via_manager k in
        record {
          was_accepted = y;
          was_sent = refl;
          has_hash = ap (λ o. is_some o) q;
          mined = m;
          over = r;
        }

if_live_ended :
    (chain : ChainClient) (a : Agreement) (x : Option ℕ) (r : Option AgreementOnChain)
    → (if_live chain a r).0 ≡ ended_cancel x
    → is_accepted_on_chain a.status ≡ true
    → (r ≡ some live) × EndSeen chain a (if_live chain a r).1
unfolding if_live
if_live_ended chain a x none h y = absurd (cc h)
if_live_ended chain a x (some live) h y = (refl, cancel_ended chain a x h y)
if_live_ended chain a x (some ended_by_indexer) h y = absurd (cc h)
if_live_ended chain a x (some not_live) h y = absurd (cc h)

-- A cancel answers `Ended` only for an agreement that was accepted, that the chain showed live
-- before, that has a terms hash of 32 bytes to send, whose cancel was sent and mined, and that
-- the chain showed over, and not by its indexer, afterwards.
pub start_cancel_ended :
    (manager : String) (hash_text : ℕ → String) (now : ℕ) (faults : Faults) (chain : ChainClient)
    (a : Agreement) (reason : CancelReason) (rows : List Agreement)
    → (start_cancel manager hash_text now faults chain a reason rows).reply ≡ ok ended
    → (chain.first_read ≡ some live)
      × EndSeen chain a (start_cancel manager hash_text now faults chain a reason rows).sent
unfolding start_cancel send_marked_cancel cancel_if_live
start_cancel_ended manager hash_text now faults chain a reason rows =
    go (mark_cancelling now faults.mark_fault reason a.id rows)
  where
    go :
        (r : Result (List Agreement))
        → let out : Started = elim r as (λ _. Started) [
          | err x ↦ record { rows = rows; reply = err x; sent = false }
          | ok rows' ↦ send_marked_cancel manager hash_text now faults chain a reason rows'
        ] in
          out.reply ≡ ok ended → (chain.first_read ≡ some live) × EndSeen chain a out.sent
    go (err x) h = absurd (cc h)
    go (ok rows') h =
        let (y, x, c) =
          finish_ended manager hash_text now faults a reason (cancel_if_live chain a).0 rows'
            (ground arith) in
        if_live_ended chain a x chain.first_read c y

pub start_cancel_unmarked :
    (manager : String) (hash_text : ℕ → String) (now : ℕ) (faults : Faults) (chain : ChainClient)
    (a : Agreement) (reason : CancelReason) (rows : List Agreement) (x : Error)
    → mark_cancelling now faults.mark_fault reason a.id rows ≡ err x
    → ((start_cancel manager hash_text now faults chain a reason rows).reply ≡ err x)
      × ((start_cancel manager hash_text now faults chain a reason rows).sent ≡ false)
      × ((start_cancel manager hash_text now faults chain a reason rows).rows ≡ rows)
unfolding start_cancel send_marked_cancel
start_cancel_unmarked manager hash_text now faults chain a reason rows x e =
    rw (start_cancel, e) (refl, refl, refl)

-- A cancel answers an error only when its mark failed with it.
pub start_cancel_error :
    (manager : String) (hash_text : ℕ → String) (now : ℕ) (faults : Faults) (chain : ChainClient)
    (a : Agreement) (reason : CancelReason) (rows : List Agreement) (x : Error)
    → (start_cancel manager hash_text now faults chain a reason rows).reply ≡ err x
    → mark_cancelling now faults.mark_fault reason a.id rows ≡ err x
unfolding start_cancel send_marked_cancel
start_cancel_error manager hash_text now faults chain a reason rows x =
    go (mark_cancelling now faults.mark_fault reason a.id rows)
  where
    go :
        (r : Result (List Agreement))
        → let out : Started = elim r as (λ _. Started) [
          | err y ↦ record { rows = rows; reply = err y; sent = false }
          | ok rows' ↦ send_marked_cancel manager hash_text now faults chain a reason rows'
        ] in
          out.reply ≡ err x → r ≡ err x
    go (err y) h = ground arith
    go (ok rows') h = absurd (cc h)

-- Where the chain shows the agreement live, reading it first changes nothing: `start_cancel` is
-- `start_cancel_seen_live`.
pub start_cancel_live :
    (manager : String) (hash_text : ℕ → String) (now : ℕ) (faults : Faults) (chain : ChainClient)
    (a : Agreement) (reason : CancelReason) (rows : List Agreement)
    → chain.first_read ≡ some live
    → start_cancel manager hash_text now faults chain a reason rows
      ≡ start_cancel_seen_live manager hash_text now faults chain a reason rows
unfolding start_cancel start_cancel_seen_live send_marked_cancel cancel_if_live if_live
start_cancel_live manager hash_text now faults chain a reason rows seen = rw seen
