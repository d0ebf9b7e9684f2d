-- ===== src/Chain/LetGo.antt =====
-- When the cancel of a replaced agreement is done with (start_replaced_cancel of
-- bin/dipper-service/src/network/service/chain_listener.rs).
use mathlib.Core.Path.{subst}
use dipper.Prelude.{
  ℕ, ◌≡◌, refl, sym, ◌∙◌, ap, Bool, true, false, List, some, String, arith, inl, inr, ==_iff,
  Bool-cases, Option-cases,
}
use dipper.Registry.Types.{
  is_expired, cancelling, Agreement, Registry, Result, ok, err, no_records_updated,
  unique_violation, foreign_key_violation, too_large, connection_lost,
}
use dipper.Registry.Transitions.{is_active, cancelling_from, mark_indexing_agreement_as_cancelling}
use dipper.Registry.Ends.{find}
use dipper.Registry.Rows.{PrimaryKey, find-id}
use dipper.Registry.PerRow.{set_status_from_error}
use dipper.Cancel.Dispatch.{
  live, ChainClient, Faults, not_wanted, CancelStarted, ended, not_live_started, may_be_live,
  Started, mark_cancelling, cancel_agreement_on_chain, start_cancel, start_cancel_seen_live,
}
use dipper.Cancel.Ending.{left_at, start_cancel-row}
use dipper.Cancel.Answers.{start_cancel_unmarked, start_cancel_error, start_cancel_live}
use dipper.Chain.Replaced.{
  ReplacedCancel, expired_but_live, note_replaced_cancel, cancel_found, start_replaced_cancel,
}

left_at_inactive : (started : CancelStarted) → is_active (left_at not_wanted started) ≡ false
left_at_inactive ended = refl
left_at_inactive not_live_started = refl
left_at_inactive may_be_live = refl

-- A mark that finds nothing to update leaves no active row.
unmarked_inactive :
    (now : ℕ) (fault : Bool) (id : ℕ) (rows : List Agreement) {b : Agreement}
    → PrimaryKey rows
    → find id rows ≡ some b
    → mark_cancelling now fault not_wanted id rows ≡ err no_records_updated
    → is_active b.status ≡ false
unfolding mark_cancelling mark_indexing_agreement_as_cancelling
unmarked_inactive now true id rows key e h = absurd (cc h)
unmarked_inactive now false id rows {b} key e h = elim (Bool-cases (cancelling_from b.status)) [
  | inl y ↦ absurd (cc (set_status_from_error now id cancelling cancelling_from rows key e y h))
  | inr n ↦ ground (arith, n)
]

module _ (manager : String) (hash_text : ℕ → String) (now : ℕ) (faults : Faults)
    (chain : ChainClient) (a : Agreement) (rows : List Agreement) (key : PrimaryKey rows)
    (e : find a.id rows ≡ some a) where
  started_inactive :
      (b : Agreement)
      → note_replaced_cancel
          (start_cancel manager hash_text now faults chain a not_wanted rows).reply
        ≡ true
      → find a.id (start_cancel manager hash_text now faults chain a not_wanted rows).rows ≡ some b
      → is_active b.status ≡ false
  started_inactive b =
      go (start_cancel manager hash_text now faults chain a not_wanted rows).reply refl
    where
      go :
          (reply : Result CancelStarted)
          → (start_cancel manager hash_text now faults chain a not_wanted rows).reply ≡ reply
          → note_replaced_cancel reply ≡ true
          → find a.id (start_cancel manager hash_text now faults chain a not_wanted rows).rows
            ≡ some b
          → is_active b.status ≡ false
      go (ok started) q done at =
          let (c, found, status, keyed) =
            start_cancel-row manager hash_text now faults chain a a not_wanted rows started key e
              q in
          let same : c ≡ b = cc (found, at) in
          subst (λ x. is_active x.status ≡ false) same
            (ap is_active status ∙ left_at_inactive started)
      go (err no_records_updated) q done at =
          let mark =
            start_cancel_error manager hash_text now faults chain a not_wanted rows
              no_records_updated q in
          let (answer, unsent, kept) =
            start_cancel_unmarked manager hash_text now faults chain a not_wanted rows
              no_records_updated mark in
          unmarked_inactive now faults.mark_fault a.id rows key (ap (find a.id) (sym kept) ∙ at)
            mark
      go (err unique_violation) q done at = cc done
      go (err foreign_key_violation) q done at = cc done
      go (err too_large) q done at = cc done
      go (err connection_lost) q done at = cc done

-- A cancel of an agreement seen live is one whose first read shows it live.
abbrev seeing_live : ChainClient → ChainClient
seeing_live chain = record chain { first_read = some live }

module _ (manager : String) (hash_text : ℕ → String) (now : ℕ) (env : ReplacedCancel)
    (a : Agreement) (reg : Registry) (key : PrimaryKey reg.agreements)
    (e : find a.id reg.agreements ≡ some a) where
  seen_live_inactive :
      (b : Agreement)
      → note_replaced_cancel
          (start_cancel_seen_live manager hash_text now env.faults env.chain a not_wanted
            reg.agreements).reply
        ≡ true
      → find a.id
          (start_cancel_seen_live manager hash_text now env.faults env.chain a not_wanted
            reg.agreements).rows
        ≡ some b
      → is_active b.status ≡ false
  unfolding start_cancel_seen_live cancel_agreement_on_chain
  seen_live_inactive b done at =
      let same =
        start_cancel_live manager hash_text now env.faults (seeing_live env.chain) a not_wanted
          reg.agreements refl in
      started_inactive manager hash_text now env.faults (seeing_live env.chain) a reg.agreements key
        e b (ap (λ (s : Started). note_replaced_cancel s.reply) same ∙ done)
        (ap (λ (s : Started). find a.id s.rows) same ∙ at)

  cancel_found_inactive :
      (reg' : Registry) (b : Agreement)
      → cancel_found manager hash_text now env a reg ≡ (reg', ok true)
      → find a.id reg'.agreements ≡ some b
      → is_active b.status ≡ false
  unfolding cancel_found
  cancel_found_inactive reg' b h at = elim (Bool-cases (is_expired a.status)) [
    | inl y ↦ elim (Option-cases (expired_but_live env.on_chain)) [
      | inl unread ↦ absurd (cc (rw (y, unread) at h))
      | inr (true, seen) ↦
          let q = rw (y, seen) at h in
          seen_live_inactive b (cc q)
            (subst (λ (r : Registry). find a.id r.agreements ≡ some b) (sym (ap (λ t. t.0) q)) at)
      | inr (false, seen) ↦
          let q = rw (y, seen) at h in
          let same : a ≡ b = cc (
            e,
            subst (λ (r : Registry). find a.id r.agreements ≡ some b) (sym (ap (λ t. t.0) q)) at,
          ) in
          subst (λ (x : Agreement). is_active x.status ≡ false) same (ground (arith, y))
    ]
    | inr n ↦
        let q = rw n at h in
        started_inactive manager hash_text now env.faults env.chain a reg.agreements key e b (cc q)
          (subst (λ (r : Registry). find a.id r.agreements ≡ some b) (sym (ap (λ t. t.0) q)) at)
  ]

-- Under the primary key, when a replaced agreement is done with, so that its pending cancellation
-- goes, and it is on record, then it is neither created nor accepted on chain, whatever the
-- chain answers and whichever registry call fails.
pub start_replaced_cancel_inactive :
    (manager : String) (hash_text : ℕ → String) (now : ℕ) (env : ReplacedCancel) (old : ℕ)
    (reg reg' : Registry) (b : Agreement)
    → PrimaryKey reg.agreements
    → start_replaced_cancel manager hash_text now env old reg ≡ (reg', ok true)
    → find old reg'.agreements ≡ some b
    → is_active b.status ≡ false
unfolding start_replaced_cancel
start_replaced_cancel_inactive manager hash_text now env old reg reg' b key h at =
    elim (Bool-cases env.read_fault) [
      | inl y ↦ absurd (cc (rw y at h))
      | inr n ↦ elim (Option-cases (find old reg.agreements)) [
        | inl e ↦
            let q = rw (n, e) at h in
            absurd (
              cc (
                e,
                subst (λ (r : Registry). find old r.agreements ≡ some b) (sym (ap (λ t. t.0) q)) at,
              ))
        | inr (a, e) ↦
            let own : a.id ≡ old = (==_iff a.id old).0 (find-id old reg.agreements {b = a} e) in
            cancel_found_inactive manager hash_text now env a reg key
              (subst (λ k. find k reg.agreements ≡ some a) (sym own) e) reg' b (rw (n, e) at h)
              (subst (λ k. find k reg'.agreements ≡ some b) (sym own) at)
      ]
    ]
