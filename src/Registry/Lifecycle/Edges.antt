-- ===== src/Registry/Lifecycle/Edges.antt =====
-- The statuses that each write starts from (dipper-pgregistry/src/postgres.rs), as edges.
use mathlib.Core.Path.{subst}
use dipper.Prelude.{ℕ, ◌≡◌, sym, Bool, true, arith, inl, inr, Bool-cases, &&_parts, ◌==◌}
use dipper.Registry.Types.{
  Status, canceled_by_requester, canceled_by_indexer, accepted_on_chain, abandoned_by_indexer,
  cancelling, Agreement,
}
use dipper.Registry.Transitions.{
  at_status, cancel_by_requester_from, cancel_by_indexer_from, cancelling_from,
}
use dipper.Registry.Ends.{reopen_from}
use dipper.Registry.Reconcile.{accept_from, requester_end}
use dipper.Registry.Lifecycle.Moves.{
  ◌⟶◌, ignored, declined, lapsed, accept, revive, start_created, start_accepted, start_rejected,
  start_expired, reopen, end_created, end_accepted, end_rejected, end_cancelling, indexer_ended,
  indexer_ended_first, abandon_created, abandon_accepted, abandon_rejected, abandon_cancelling,
  ◌⟶*◌, here, next, Evolves, Evolves-refl, Tables-refl, Tables-trans, update-Evolves,
  update_or_fail-Evolves, set_status-Evolves, bind-Evolves, batch_set_status-Evolves,
  update_status_from-Evolves, set_status_from-Evolves,
}

pub ruleset edges = (
  ignored, declined, lapsed, accept, revive, start_created, start_accepted, start_rejected,
  start_expired, reopen, end_created, end_accepted, end_rejected, end_cancelling, indexer_ended,
  indexer_ended_first, abandon_created, abandon_accepted, abandon_rejected, abandon_cancelling,
)

pub accept_edge : (s : Status) → accept_from s ≡ true → s ⟶ accepted_on_chain
accept_edge s h = grind (arith, edges)

pub requester_edge : (s : Status) → cancel_by_requester_from s ≡ true → s ⟶ canceled_by_requester
requester_edge s h = grind (arith, edges)

pub abandon_edge : (s : Status) → cancel_by_requester_from s ≡ true → s ⟶ abandoned_by_indexer
abandon_edge s h = grind (arith, edges)

pub requester_end_edge :
    (a : Agreement) → cancel_by_requester_from a.status ≡ true → a.status ⟶ requester_end a
requester_end_edge a h = elim (Bool-cases a.abandoned) [
  | inl e ↦ rw e (abandon_edge a.status h)
  | inr e ↦ rw e (requester_edge a.status h)
]

pub indexer_edge : (s : Status) → cancel_by_indexer_from s ≡ true → s ⟶ canceled_by_indexer
indexer_edge s h = grind (arith, edges)

pub cancelling_edge : (s : Status) → cancelling_from s ≡ true → s ⟶ cancelling
cancelling_edge s h = grind (arith, edges)

pub reopen_edge : (s : Status) → reopen_from s ≡ true → s ⟶ cancelling
reopen_edge s h = grind (arith, edges)

-- A row whose keys, terms and status are the old ones.
pub unmoved :
    (a b : Agreement)
    → b.id ≡ a.id
    → b.indexing_request_id ≡ a.indexing_request_id
    → b.deployment_id ≡ a.deployment_id
    → b.indexer_id ≡ a.indexer_id
    → b.terms ≡ a.terms
    → b.status ≡ a.status
    → Evolves a b
unmoved a b i r d x t s = record {
  same_id = i;
  same_request = r;
  same_deployment = d;
  same_indexer = x;
  same_terms = t;
  along = subst (λ k. a.status ⟶* k) (sym s) here;
}

-- A row whose keys and terms are the old ones, moved along one edge.
pub moved :
    (a b : Agreement)
    → b.id ≡ a.id
    → b.indexing_request_id ≡ a.indexing_request_id
    → b.deployment_id ≡ a.deployment_id
    → b.indexer_id ≡ a.indexer_id
    → b.terms ≡ a.terms
    → a.status ⟶ b.status
    → Evolves a b
moved a b i r d x t e = record {
  same_id = i;
  same_request = r;
  same_deployment = d;
  same_indexer = x;
  same_terms = t;
  along = next e here;
}

-- The status that a condition of the form `id = … AND status IN …` found.
pub at_status-from :
    (id : ℕ) (from : Status → Bool) (a : Agreement)
    → at_status id from a ≡ true
    → from a.status ≡ true
at_status-from id from a h = (&&_parts (a.id == id) (from a.status) h).1
