-- ===== src/Registry/Lifecycle/Inserts.antt =====
-- What the INSERT statements of dipper-pgregistry/src/postgres.rs find and do.
use dipper.Registry.Registration.{has_request_id}
use dipper.Registry.Transitions.{unique_active}
use dipper.Prelude.{
  ℕ, ◌≡◌, true, false, List, [], ◌∷◌, some, arith, inl, inr, Bool-cases, exists, ◌==◌,
}
use dipper.Registry.Types.{Agreement, Registry, ok}
use dipper.Registry.Transitions.{checked}
use dipper.Registry.Ends.{has_id, find}
use dipper.Registry.Registration.{insert_agreement, insert_pending}

pub find-exists :
    (id : ℕ) (rows : List Agreement) {a : Agreement}
    → find id rows ≡ some a
    → exists (has_id id) rows ≡ true
unfolding find exists
find-exists id [] e = cc
find-exists id (r ∷ rs) {a} e = elim (Bool-cases (r.id == id)) [
  | inl hit ↦ rw hit
  | inr miss ↦ rw miss (find-exists id rs {a = a} (rw miss at e))
]

-- What an INSERT that succeeded found and did.
pub record Inserted (a : Agreement) (reg reg' : Registry) : Type 0 where
  pub new_id : exists (has_id a.id) reg.agreements ≡ false
  pub has_request : exists (has_request_id a.indexing_request_id) reg.requests ≡ true
  pub unique : unique_active (a ∷ reg.agreements) ≡ true
  pub added : reg'.agreements ≡ a ∷ reg.agreements
  pub requests_kept : reg'.requests ≡ reg.requests
  pub pending_kept : reg'.pending_cancellations ≡ reg.pending_cancellations

pub insert_agreement-Inserted :
    (a : Agreement) (reg : Registry) {reg' : Registry}
    → insert_agreement a reg ≡ ok reg'
    → Inserted a reg reg'
unfolding insert_agreement checked
insert_agreement-Inserted a reg e = ground arith

pub insert_pending-agreements :
    (new old : ℕ) (reg : Registry) {reg' : Registry}
    → insert_pending new old reg ≡ ok reg'
    → reg'.agreements ≡ reg.agreements
unfolding insert_pending
insert_pending-agreements new old reg e = ground arith
