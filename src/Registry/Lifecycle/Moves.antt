-- ===== src/Registry/Lifecycle/Moves.antt =====
-- Single-row and batched status writes of dipper-pgregistry/src/postgres.rs, against the diagram
-- of the statuses.
use dipper.Prelude.{
  ℕ, ◌≡◌, refl, Bool, true, false, List, [], ◌∷◌, inl, inr, if◌then◌else◌, Bool-cases, ◌∙◌,
  &&_parts, any_eq, Pointwise, update, update-Pointwise, exists,
}
use dipper.Registry.Types.{
  Status, created, unresponsive, canceled_by_requester, canceled_by_indexer, expired,
  accepted_on_chain, rejected, abandoned_by_indexer, cancelling, Agreement, Result, ok, err, after,
  after_write, ◌>>=◌, no_records_updated,
}
use dipper.Registry.Transitions.{
  checked, is_empty, unique_active, update_status_from, batch_update_status_from, batch_set_status,
  update_or_fail, matches, set_status, set_status_from,
}

-- The diagram: who ends where.
infix 40 ◌⟶◌
pub data ◌⟶◌ : Status → Status → Type 0 where
  ignored : created ⟶ unresponsive
  declined : created ⟶ rejected
  lapsed : created ⟶ expired
  accept : created ⟶ accepted_on_chain
  revive : expired ⟶ accepted_on_chain
  start_created : created ⟶ cancelling
  start_accepted : accepted_on_chain ⟶ cancelling
  start_rejected : rejected ⟶ cancelling
  start_expired : expired ⟶ cancelling
  reopen : canceled_by_requester ⟶ cancelling
  end_created : created ⟶ canceled_by_requester
  end_accepted : accepted_on_chain ⟶ canceled_by_requester
  end_rejected : rejected ⟶ canceled_by_requester
  end_cancelling : cancelling ⟶ canceled_by_requester
  indexer_ended : accepted_on_chain ⟶ canceled_by_indexer
  indexer_ended_first : cancelling ⟶ canceled_by_indexer
  abandon_created : created ⟶ abandoned_by_indexer
  abandon_accepted : accepted_on_chain ⟶ abandoned_by_indexer
  abandon_rejected : rejected ⟶ abandoned_by_indexer
  abandon_cancelling : cancelling ⟶ abandoned_by_indexer

infix 40 ◌⟶*◌
pub data ◌⟶*◌ : Status → Status → Type 0 where
  here : {s : Status} → s ⟶* s
  next : {s t u : Status} → s ⟶ t → t ⟶* u → s ⟶* u

pub ⟶*-trans : {s t u : Status} → s ⟶* t → t ⟶* u → s ⟶* u
⟶*-trans here q = q
⟶*-trans (next e p) q = next e (⟶*-trans p q)

-- What no write changes of a row, and how its status may move.
pub record Evolves (a b : Agreement) : Type 0 where
  pub same_id : b.id ≡ a.id
  pub same_request : b.indexing_request_id ≡ a.indexing_request_id
  pub same_deployment : b.deployment_id ≡ a.deployment_id
  pub same_indexer : b.indexer_id ≡ a.indexer_id
  pub same_terms : b.terms ≡ a.terms
  pub along : a.status ⟶* b.status

pub Evolves-refl : (a : Agreement) → Evolves a a
Evolves-refl a = record {
  same_id = refl;
  same_request = refl;
  same_deployment = refl;
  same_indexer = refl;
  same_terms = refl;
  along = here;
}

pub Evolves-trans : (a b c : Agreement) → Evolves a b → Evolves b c → Evolves a c
Evolves-trans a b c p q = record {
  same_id = q.same_id ∙ p.same_id;
  same_request = q.same_request ∙ p.same_request;
  same_deployment = q.same_deployment ∙ p.same_deployment;
  same_indexer = q.same_indexer ∙ p.same_indexer;
  same_terms = q.same_terms ∙ p.same_terms;
  along = ⟶*-trans p.along q.along;
}

pub Tables-refl : (rows : List Agreement) → Pointwise Evolves rows rows
Tables-refl [] = tt
Tables-refl (a ∷ rest) = (Evolves-refl a, Tables-refl rest)

pub Tables-trans :
    (xs ys zs : List Agreement)
    → Pointwise Evolves xs ys
    → Pointwise Evolves ys zs
    → Pointwise Evolves xs zs
Tables-trans [] [] [] p q = tt
Tables-trans [] [] (c ∷ zs) p q = absurd q
Tables-trans [] (b ∷ ys) zs p q = absurd p
Tables-trans (a ∷ xs) [] zs p q = absurd p
Tables-trans (a ∷ xs) (b ∷ ys) [] p q = absurd q
Tables-trans (a ∷ xs) (b ∷ ys) (c ∷ zs) p q =
    (Evolves-trans a b c p.0 q.0, Tables-trans xs ys zs p.1 q.1)

-- An UPDATE that leaves a row's keys and terms alone and moves its status by an edge.
module _ (p : Agreement → Bool) (f : Agreement → Agreement)
    (keeps : (a : Agreement) → p a ≡ true → Evolves a (f a)) where
  pub update-Evolves : (rows : List Agreement) → Pointwise Evolves rows (update p f rows)
  update-Evolves rows = update-Pointwise Evolves p f Evolves-refl keeps rows

  pub update_or_fail-Evolves :
      (rows : List Agreement) → Pointwise Evolves rows (after_write rows (update_or_fail p f rows))
  unfolding update_or_fail
  update_or_fail-Evolves rows = elim (Bool-cases (exists p rows)) [
    | inl found ↦ rw found (update-Evolves rows)
    | inr missing ↦ rw missing (Tables-refl rows)
  ]

pub set_status-Evolves :
    (now : ℕ) (status_sql : Agreement → Status) (a : Agreement)
    → a.status ⟶ status_sql a
    → Evolves a (set_status now status_sql a)
set_status-Evolves now status_sql a e = record {
  same_id = refl;
  same_request = refl;
  same_deployment = refl;
  same_indexer = refl;
  same_terms = refl;
  along = next e here;
}

-- A step that may fail, then another on what it left.
pub bind-Evolves :
    {X Y : Type 0} (rows : List Agreement) (m : Result (List Agreement × X))
    (k : List Agreement × X → Result (List Agreement × Y))
    → Pointwise Evolves rows (after rows m)
    → ((mid : List Agreement) (x : X) → Pointwise Evolves mid (after mid (k (mid, x))))
    → Pointwise Evolves rows (after rows (m >>= k))
bind-Evolves {Y} rows (err e) k h g = Tables-refl rows
bind-Evolves {Y} rows (ok (mid, x)) k h g = last (k (mid, x)) (g mid x)
  where
    last :
        (r : Result (List Agreement × Y))
        → Pointwise Evolves mid (after mid r)
        → Pointwise Evolves rows (after rows r)
    last (ok (end, y)) q = Tables-trans rows mid end h q
    last (err e) q = Tables-refl rows

module _ (now : ℕ) (ids : List ℕ) (status_sql : Agreement → Status) (from : Status → Bool)
    (edge : (a : Agreement) → from a.status ≡ true → a.status ⟶ status_sql a) where
  pub batch_set_status-Evolves :
      (rows : List Agreement)
      → Pointwise Evolves rows (after rows (batch_set_status now ids status_sql from rows))
  unfolding batch_set_status checked
  batch_set_status-Evolves rows = elim (Bool-cases (is_empty ids)) [
    | inl none_given ↦ rw none_given (Tables-refl rows)
    | inr given ↦ rw given elim (Bool-cases (unique_active written)) [
      | inl u ↦ rw u (update-Evolves (matches ids from) (set_status now status_sql) keeps rows)
      | inr d ↦ rw d (Tables-refl rows)
    ]
  ]
    where
      written : List Agreement
      written = update (matches ids from) (set_status now status_sql) rows

      keeps : (a : Agreement) → matches ids from a ≡ true → Evolves a (set_status now status_sql a)
      keeps a h =
          set_status-Evolves now status_sql a
            (edge a (&&_parts (any_eq a.id ids) (from a.status) h).1)

module _ (now id : ℕ) (new : Status) (from : Status → Bool)
    (edge : (a : Agreement) → from a.status ≡ true → a.status ⟶ new) where
  pub update_status_from-Evolves :
      (rows : List Agreement)
      → Pointwise Evolves rows (after rows (update_status_from now id new from rows))
  unfolding update_status_from batch_update_status_from
  update_status_from-Evolves rows =
      bind-Evolves rows (batch_set_status now (id ∷ []) (λ _. new) from rows) _
        (batch_set_status-Evolves now (id ∷ []) (λ _. new) from edge rows)
        (λ mid x. Tables-refl mid)

  pub set_status_from-Evolves :
      (rows : List Agreement)
      → Pointwise Evolves rows (after_write rows (set_status_from now id new from rows))
  unfolding set_status_from
  set_status_from-Evolves rows =
      moved (update_status_from now id new from rows) (update_status_from-Evolves rows)
    where
      moved :
          (r : Result (List Agreement × Bool))
          → Pointwise Evolves rows (after rows r)
          → Pointwise Evolves rows (
              after_write rows
                (r >>= λ (rows', updated). if updated then ok rows' else err no_records_updated))
      moved (ok (rows', true)) h = h
      moved (ok (rows', false)) h = Tables-refl rows
      moved (err e) h = Tables-refl rows
