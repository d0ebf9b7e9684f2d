-- ===== src/Worker/ProposalEnds.antt =====
-- When the job that proposes an agreement to its indexer is done
-- (bin/dipper-service/src/worker/handlers/send_indexing_agreement_proposal.rs).
use mathlib.Core.Path.{subst}
use dipper.Prelude.{
  ℕ, ◌≡◌, refl, sym, ap, ◌∙◌, Bool, true, false, List, ◌∷◌, Option, none, some, ◌⊎◌, inl, inr,
  Bool-cases, ◌==◌, if◌then◌else◌, update, exists,
}
use dipper.Registry.Types.{
  RejectionReason, is_created, Agreement, Registry, ok, err, no_records_updated,
}
use dipper.Registry.Transitions.{
  at_status, update_or_fail, mark_indexing_agreement_as_rejected,
  mark_indexing_agreement_as_unresponsive,
}
use dipper.Registry.Ends.{find}
use dipper.Registry.Rows.{find-id, find-update, written, option_map}
use dipper.Registry.Registration.{delete_pending_cancellations_by_new_agreement}
use dipper.Cancel.Dispatch.{reached}
use dipper.Sweeps.Replace.{Services, with_agreements}
use dipper.Sweeps.Expiration.{drop_pairs}
use dipper.Worker.Loop.{done}
use dipper.Worker.Proposals.{
  ProposalAnswer, proposal_accepted, no_outcome, proposal_failed, proposal_rejected,
  ProposalMessage, ProposalEnv, Proposing, queue_reassessment, marked_and_reassess,
  mark_rejected_and_reassess, mark_failed_and_reassess, after_proposal, propose_found,
  send_proposal,
}

-- No row that the id names is created.
abbrev pub NotCreated : ℕ → List Agreement → Type 0
NotCreated id rows = (b : Agreement) → find id rows ≡ some b → is_created b.status ≡ false

update-NotCreated :
    (id : ℕ) (f : Agreement → Agreement) (rows : List Agreement)
    → ((a : Agreement) → (f a).id ≡ a.id)
    → ((a : Agreement) → is_created (f a).status ≡ false)
    → NotCreated id (update (at_status id is_created) f rows)
update-NotCreated id f rows keeps ends b e =
    go (find id rows) refl (sym (find-update (at_status id is_created) f keeps id rows) ∙ e)
  where
    go :
        (o : Option Agreement)
        → find id rows ≡ o
        → option_map (written (at_status id is_created) f) o ≡ some b
        → is_created b.status ≡ false
    go none q k = absurd (cc k)
    go (some a) q k =
        let mine : (a.id == id) ≡ true = find-id id rows {b = a} q in
        elim (Bool-cases (is_created a.status)) [
          | inl c ↦
              let same : f a ≡ b = cc (rw (mine, c) at k) in
              ap (λ (x : Agreement). is_created x.status) (sym same) ∙ ends a
          | inr n ↦
              let same : a ≡ b = cc (rw (mine, n) at k) in
              ap (λ (x : Agreement). is_created x.status) (sym same) ∙ n
        ]

queue_reassessment-rows :
    (env : ProposalEnv) (m : ProposalMessage) (s : Services)
    → (queue_reassessment env m s).0.registry ≡ s.registry
unfolding queue_reassessment
queue_reassessment-rows env m s = elim (Bool-cases env.request_fault) [
  | inl y ↦ rw y refl
  | inr n ↦ elim (Bool-cases env.push_fault) [ inl y ↦ rw (n, y) refl | inr k ↦ rw (n, k) refl ]
]

marked-NotCreated :
    (env : ProposalEnv) (m : ProposalMessage) (fault found : Bool) (rows : List Agreement)
    (s : Services)
    → NotCreated m.agreement_id rows
    → let out =
        marked_and_reassess env m
          (reached fault (if found then ok rows else err no_records_updated))
          s in
      out.1 ≡ done → NotCreated m.agreement_id out.0.registry.agreements
unfolding marked_and_reassess drop_pairs delete_pending_cancellations_by_new_agreement
marked-NotCreated env m true found rows s h d = absurd (cc d)
marked-NotCreated env m false false rows s h d = absurd (cc d)
marked-NotCreated env m false true rows s h d = elim (Bool-cases env.delete_fault) [
  | inl y ↦ absurd (cc (rw y at d))
  | inr n ↦ rw n (
      subst (NotCreated m.agreement_id)
        (sym (
          ap (λ (r : Registry). r.agreements)
            (queue_reassessment-rows env m
              (drop_pairs false m.agreement_id (with_agreements s rows)))))
        h)
]

module _ (env : ProposalEnv) (m : ProposalMessage) (p : Proposing) where
  mark_rejected-NotCreated :
      (reason : RejectionReason)
      → let out = mark_rejected_and_reassess env m reason p.services in
        out.1 ≡ done → NotCreated m.agreement_id out.0.registry.agreements
  unfolding mark_rejected_and_reassess mark_indexing_agreement_as_rejected update_or_fail
  mark_rejected-NotCreated reason =
      let rows = p.services.registry.agreements in
      marked-NotCreated env m env.mark_fault (exists (at_status m.agreement_id is_created) rows) _
        p.services (update-NotCreated m.agreement_id _ rows (λ a. refl) (λ a. refl))

  mark_failed-NotCreated :
      let out = mark_failed_and_reassess env m p.services in
      out.1 ≡ done → NotCreated m.agreement_id out.0.registry.agreements
  unfolding mark_failed_and_reassess mark_indexing_agreement_as_unresponsive update_or_fail
  mark_failed-NotCreated =
      let rows = p.services.registry.agreements in
      marked-NotCreated env m env.mark_fault (exists (at_status m.agreement_id is_created) rows) _
        p.services (update-NotCreated m.agreement_id _ rows (λ a. refl) (λ a. refl))

  -- Its offer is queued, or it is no longer created.
  abbrev pub Followed : Proposing → Type 0
  Followed p' =
      (p'.offers ≡ m.agreement_id ∷ p.offers)
      ⊎ NotCreated m.agreement_id p'.services.registry.agreements

  after_proposal-Followed :
      (answer : ProposalAnswer)
      → (after_proposal env m answer p).1 ≡ done
      → Followed (after_proposal env m answer p).0
  unfolding after_proposal
  after_proposal-Followed proposal_accepted h = elim (Bool-cases env.push_fault) [
    | inl y ↦ absurd (cc (rw y at h))
    | inr n ↦ rw n (inl refl)
  ]
  after_proposal-Followed (proposal_rejected reason) h = inr (mark_rejected-NotCreated _ h)
  after_proposal-Followed no_outcome h = inr (mark_rejected-NotCreated _ h)
  after_proposal-Followed proposal_failed h = inr (mark_failed-NotCreated h)

  propose_found-Followed :
      (found : Option Agreement)
      → find m.agreement_id p.services.registry.agreements ≡ found
      → (propose_found env m found p).1 ≡ done
      → Followed (propose_found env m found p).0
  unfolding propose_found
  propose_found-Followed none q h = inr (λ b e. absurd (cc (q, e)))
  propose_found-Followed (some a) q h = elim (Bool-cases (is_created a.status)) [
    | inl y ↦ rw y (after_proposal-Followed env.answer (rw y at h))
    | inr n ↦ rw n (
        inr (λ b e.
          let same : a ≡ b = cc (q, e) in
          ap (λ (x : Agreement). is_created x.status) (sym same) ∙ n))
  ]

-- A job to propose an agreement that is done leaves nothing stuck: the job to offer the agreement is
-- queued, or no created agreement has its id, since it was marked rejected or unresponsive, was
-- no longer created before, or is not on record.
pub send_proposal-Followed :
    (env : ProposalEnv) (m : ProposalMessage) (p : Proposing)
    → (send_proposal env m p).1 ≡ done
    → Followed env m p (send_proposal env m p).0
unfolding send_proposal
send_proposal-Followed env m p h = elim (Bool-cases env.read_fault) [
  | inl y ↦ absurd (cc (rw y at h))
  | inr n ↦ rw n (
      propose_found-Followed env m p (find m.agreement_id p.services.registry.agreements) refl
        (rw n at h))
]
