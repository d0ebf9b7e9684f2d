-- ===== src/Worker/Proposals.antt =====
-- bin/dipper-service/src/worker/handlers/send_indexing_agreement_proposal.rs: the job that proposes an
-- agreement to its indexer. The indexer's answer is an argument; a number that names no reason
-- is `none`.
use dipper.Prelude.{ℕ, Bool, false, List, ◌∷◌, Option, none, some, if◌then◌else◌}
use dipper.Registry.Types.{
  RejectionReason, unspecified, is_created, Agreement, IndexingRequest, Result, ok, err,
}
use dipper.Registry.Transitions.{
  mark_indexing_agreement_as_rejected, mark_indexing_agreement_as_unresponsive,
}
use dipper.Registry.Ends.{find}
use dipper.Registry.Requests.{get_indexing_request_by_id}
use dipper.Cancel.Dispatch.{reached}
use dipper.Sweeps.Replace.{Services, with_push, with_agreements}
use dipper.Sweeps.Expiration.{drop_pairs}
use dipper.Worker.Loop.{JobOutcome, done, fatal}

pub data ProposalAnswer : Type 0 where
  proposal_accepted no_outcome proposal_failed : ProposalAnswer
  proposal_rejected : (reason : Option RejectionReason) → ProposalAnswer

pub record ProposalMessage : Type 0 where
  pub agreement_id : ℕ
  pub indexing_request_id : ℕ
  pub deployment_id : ℕ
  pub deployment_chain_id : ℕ

pub record ProposalEnv : Type 0 where
  pub now : ℕ
  pub read_fault : Bool
  pub answer : ProposalAnswer
  pub mark_fault : Bool
  pub delete_fault : Bool
  pub request_fault : Bool
  pub push_fault : Bool

-- The services, and the agreements whose `submit_offer` job was pushed, the newest first.
pub record Proposing : Type 0 where
  pub services : Services
  pub offers : List ℕ

abbrev pub default_max_candidates : ℕ
default_max_candidates = 3

abbrev pub candidates_of : Option IndexingRequest → ℕ
candidates_of none = default_max_candidates
candidates_of (some r) = r.num_candidates

unfoldable pub queue_reassessment : ProposalEnv → ProposalMessage → Services → Services × JobOutcome
unfolding get_indexing_request_by_id
queue_reassessment env m s =
    if env.request_fault then (s, fatal) else if env.push_fault then (s, fatal) else (
      with_push s (record {
        request_id = m.indexing_request_id;
        deployment_id = m.deployment_id;
        chain_id = m.deployment_chain_id;
        num_candidates =
            candidates_of (get_indexing_request_by_id m.indexing_request_id s.registry.requests);
      }),
      done,
    )

-- What follows the mark, rejected or unresponsive.
unfoldable pub marked_and_reassess :
    ProposalEnv → ProposalMessage → Result (List Agreement) → Services → Services × JobOutcome
unfolding drop_pairs queue_reassessment
marked_and_reassess env m (err e) s = (s, fatal)
marked_and_reassess env m (ok rows) s =
    let marked = with_agreements s rows in
    if env.delete_fault
    then (marked, fatal)
    else queue_reassessment env m (drop_pairs false m.agreement_id marked)

abbrev pub reason_or_unspecified : Option RejectionReason → RejectionReason
reason_or_unspecified none = unspecified
reason_or_unspecified (some reason) = reason

unfoldable pub mark_rejected_and_reassess :
    ProposalEnv → ProposalMessage → RejectionReason → Services → Services × JobOutcome
unfolding mark_indexing_agreement_as_rejected marked_and_reassess
mark_rejected_and_reassess env m reason s =
    marked_and_reassess env m
      (reached env.mark_fault (
        mark_indexing_agreement_as_rejected env.now m.agreement_id (some reason)
          s.registry.agreements))
      s

unfoldable pub mark_failed_and_reassess :
    ProposalEnv → ProposalMessage → Services → Services × JobOutcome
unfolding mark_indexing_agreement_as_unresponsive marked_and_reassess
mark_failed_and_reassess env m s =
    marked_and_reassess env m
      (reached env.mark_fault
        (mark_indexing_agreement_as_unresponsive env.now m.agreement_id s.registry.agreements))
      s

abbrev pub with_services : Proposing → Services × JobOutcome → Proposing × JobOutcome
with_services p (s, outcome) = (record p { services = s }, outcome)

unfoldable pub after_proposal :
    ProposalEnv → ProposalMessage → ProposalAnswer → Proposing → Proposing × JobOutcome
unfolding mark_rejected_and_reassess mark_failed_and_reassess
after_proposal env m proposal_accepted p =
    if env.push_fault then (p, fatal) else (record p { offers = m.agreement_id ∷ p.offers }, done)
after_proposal env m (proposal_rejected reason) p =
    with_services p (mark_rejected_and_reassess env m (reason_or_unspecified reason) p.services)
after_proposal env m no_outcome p =
    with_services p (mark_rejected_and_reassess env m unspecified p.services)
after_proposal env m proposal_failed p = with_services p (mark_failed_and_reassess env m p.services)

unfoldable pub propose_found :
    ProposalEnv → ProposalMessage → Option Agreement → Proposing → Proposing × JobOutcome
unfolding after_proposal
propose_found env m none p = (p, done)
propose_found env m (some a) p =
    if is_created a.status then after_proposal env m env.answer p else (p, done)

unfoldable pub send_proposal : ProposalEnv → ProposalMessage → Proposing → Proposing × JobOutcome
unfolding find propose_found
send_proposal env m p =
    if env.read_fault
    then (p, fatal)
    else propose_found env m (find m.agreement_id p.services.registry.agreements) p
