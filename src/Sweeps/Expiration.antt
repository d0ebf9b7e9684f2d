-- ===== src/Sweeps/Expiration.antt =====
-- bin/dipper-service/src/network/service/expiration.rs: one scan that expires the agreements nobody
-- accepted in time. A call that fails or runs out of time is taken as not carried out. The
-- service may be stopped between two agreements, so a scan gets to some number of them.
use dipper.Prelude.{
  ℕ, zero, suc, ◌-◌, Bool, true, false, List, [], ◌∷◌, Option, none, some, if◌then◌else◌,
}
use dipper.Registry.Types.{Agreement, IndexingRequest, Result, ok, err}
use dipper.Registry.Transitions.{mark_indexing_agreement_as_expired}
use dipper.Registry.Registration.{delete_pending_cancellations_by_new_agreement}
use dipper.Registry.Requests.{get_indexing_request_by_id}
use dipper.Registry.Queries.{get_expired_created_agreements}
use dipper.Cancel.Dispatch.{reached}
use dipper.Sweeps.Replace.{Services, reassessment_of, with_push, with_agreements}

pub record ExpireFaults : Type 0 where
  pub mark_fault : Bool
  pub delete_fault : Bool
  pub request_fault : Bool
  pub push_fault : Bool

unfoldable pub drop_pairs : Bool → ℕ → Services → Services
unfolding delete_pending_cancellations_by_new_agreement
drop_pairs fault id s =
    if fault
    then s
    else record s { registry = delete_pending_cancellations_by_new_agreement id s.registry }

abbrev pub push_for : Bool → Agreement → Option IndexingRequest → Services → Services
push_for fault a none s = s
push_for fault a (some r) s = if fault then s else with_push s (reassessment_of a r)

-- What follows the mark.
unfoldable pub after_mark : ExpireFaults → Agreement → Result (List Agreement) → Services → Services
unfolding drop_pairs get_indexing_request_by_id
after_mark faults a (err e) s = s
after_mark faults a (ok rows) s =
    let cleaned = drop_pairs faults.delete_fault a.id (with_agreements s rows) in
    if faults.request_fault
    then cleaned
    else push_for faults.push_fault a
        (get_indexing_request_by_id a.indexing_request_id s.registry.requests) cleaned

unfoldable pub expire_agreement : ℕ → ExpireFaults → Agreement → Services → Services
unfolding mark_indexing_agreement_as_expired after_mark
expire_agreement now faults a s =
    after_mark faults a
      (reached faults.mark_fault
        (mark_indexing_agreement_as_expired now a.id s.registry.agreements))
      s

unfoldable pub expire_each :
    ℕ → (ℕ → ExpireFaults) → (budget : ℕ) → List Agreement → Services → Services
unfolding expire_agreement
expire_each now faults zero listed s = s
expire_each now faults (suc budget) [] s = s
expire_each now faults (suc budget) (a ∷ listed) s =
    expire_each now faults budget listed (expire_agreement now (faults a.id) a s)

-- `chain_ts` is `none` while no chain time is on record. Subtraction stops at 0, as
-- `saturating_sub` does.
unfoldable pub expiration_scan :
    ℕ
    → (grace batch_size : ℕ) → Option ℕ
    → (query_fault : Bool) → (ℕ → ExpireFaults)
    → (budget : ℕ) → Services
    → Services
unfolding get_expired_created_agreements expire_each
expiration_scan now grace batch_size none query_fault faults budget s = s
expiration_scan now grace batch_size (some chain_ts) true faults budget s = s
expiration_scan now grace batch_size (some chain_ts) false faults budget s =
    expire_each now faults budget
      (get_expired_created_agreements batch_size (chain_ts - grace) s.registry.agreements) s
