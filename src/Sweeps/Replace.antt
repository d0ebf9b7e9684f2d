-- ===== src/Sweeps/Replace.antt =====
-- Queueing the replacement of an agreement: replace_abandoned and its parts in liveness_checker.rs,
-- replace_ended_abandoned and reassess_freed_requests in cancel_retry.rs, both of
-- bin/dipper-service/src/network/service. A call that fails or runs out of time is taken as not
-- carried out; which do is an argument.
use dipper.Prelude.{ℕ, ◌*◌, Bool, true, false, List, [], ◌∷◌, Option, none, some, if◌then◌else◌}
use dipper.Registry.Types.{is_open, Agreement, IndexingRequest, Registry}
use dipper.Registry.Ends.{mark_replacement_queued}
use dipper.Registry.Requests.{get_indexing_request_by_id}
use dipper.Registry.Queries.{
  get_ended_agreements_awaiting_replacement,
  get_short_requests_on_deployments_with_ended_agreements,
}

-- The job that `reassess_indexing_request` pushes, at background priority.
pub record Reassessment : Type 0 where
  pub request_id : ℕ
  pub deployment_id : ℕ
  pub chain_id : ℕ
  pub num_candidates : ℕ

-- The database, and the jobs pushed so far, the newest first.
pub record Services : Type 0 where
  pub registry : Registry
  pub pushed : List Reassessment

pub record ReplaceFaults : Type 0 where
  pub request_fault : Bool
  pub push_fault : Bool
  pub queued_fault : Bool

unfoldable pub open_request : IndexingRequest → Option IndexingRequest
open_request r = if is_open r.status then some r else none

-- `none` for an error.
unfoldable pub abandoned_request :
    Bool → Agreement → List IndexingRequest → Option (Option IndexingRequest)
unfolding get_indexing_request_by_id open_request
abandoned_request true a requests = none
abandoned_request false a requests =
    elim (get_indexing_request_by_id a.indexing_request_id requests) [
      | none ↦ some none
      | some r ↦ some (open_request r)
    ]

abbrev pub reassessment_of : Agreement → IndexingRequest → Reassessment
reassessment_of a r = record {
  request_id = a.indexing_request_id;
  deployment_id = a.terms.subgraph_deployment_id;
  chain_id = a.terms.chain_id;
  num_candidates = r.num_candidates;
}

abbrev pub with_push : Services → Reassessment → Services
with_push s job = record s { pushed = job ∷ s.pushed }

-- With whether the replacement is dealt with.
unfoldable pub queue_replacement : ReplaceFaults → Agreement → Services → Services × Bool
unfolding abandoned_request
queue_replacement faults a s = elim (abandoned_request faults.request_fault a s.registry.requests) [
  | none ↦ (s, false)
  | some none ↦ (s, true)
  | some (some r) ↦
      if faults.push_fault then (s, false) else (with_push s (reassessment_of a r), true)
]

abbrev pub with_agreements : Services → List Agreement → Services
with_agreements s rows = record s { registry = record s.registry { agreements = rows } }

abbrev pub note_queued : Bool → Agreement → Services × Bool → Services
note_queued fault a (s, false) = s
note_queued fault a (s, true) =
    if fault then s else with_agreements s (mark_replacement_queued a.id s.registry.agreements)

unfoldable pub replace_abandoned : ReplaceFaults → Agreement → Services → Services
unfolding queue_replacement mark_replacement_queued
replace_abandoned faults a s = note_queued faults.queued_fault a (queue_replacement faults a s)

abbrev pub batch_size : ℕ
batch_size = 50

unfoldable pub replace_each : (ℕ → ReplaceFaults) → List Agreement → Services → Services
unfolding replace_abandoned
replace_each faults [] s = s
replace_each faults (a ∷ rest) s = replace_each faults rest (replace_abandoned (faults a.id) a s)

unfoldable pub replace_ended_abandoned : Bool → (ℕ → ReplaceFaults) → Services → Services
unfolding get_ended_agreements_awaiting_replacement replace_each
replace_ended_abandoned true faults s = s
replace_ended_abandoned false faults s =
    replace_each faults (get_ended_agreements_awaiting_replacement batch_size s.registry.agreements)
      s

abbrev pub sweep_interval : ℕ
sweep_interval = 300

abbrev pub freed_window_secs : ℕ
freed_window_secs = 2 * sweep_interval

abbrev pub freed_batch_size : ℕ
freed_batch_size = 500

abbrev pub freed_job : IndexingRequest → Reassessment
freed_job r = record {
  request_id = r.id;
  deployment_id = r.deployment_id;
  chain_id = r.deployment_chain_id;
  num_candidates = r.num_candidates;
}

unfoldable pub push_each : (ℕ → Bool) → List IndexingRequest → List Reassessment → List Reassessment
push_each push_fault [] jobs = jobs
push_each push_fault (r ∷ rest) jobs =
    push_each push_fault rest (if push_fault r.id then jobs else freed_job r ∷ jobs)

unfoldable pub reassess_freed_requests : ℕ → Bool → (ℕ → Bool) → Services → Services
unfolding get_short_requests_on_deployments_with_ended_agreements push_each
reassess_freed_requests now true push_fault s = s
reassess_freed_requests now false push_fault s = record s {
  pushed =
      push_each push_fault
        (get_short_requests_on_deployments_with_ended_agreements now freed_window_secs
          freed_batch_size s.registry)
        s.pushed;
}
