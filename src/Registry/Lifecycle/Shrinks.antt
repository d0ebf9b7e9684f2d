-- ===== src/Registry/Lifecycle/Shrinks.antt =====
-- Writes of dipper-pgregistry/src/postgres.rs that wake no row keep the partial unique index of
-- active agreements.
use mathlib.Core.Path.{subst}
use dipper.Prelude.{
  ◌≡◌, refl, Bool, true, false, List, [], ◌∷◌, arith, inl, inr, Bool-cases, Pointwise, update,
  exists, update-Pointwise,
}
use dipper.Registry.Types.{Agreement, Result, ok, err, after, after_write, ◌>>=◌}
use dipper.Registry.Transitions.{is_active, conflicts, unique_active, update_or_fail}

abbrev pub IsUnique : List Agreement → Type 0
IsUnique rows = unique_active rows ≡ true

-- The keys stay, and the row becomes active only if it was.
pub record Shrinks (a b : Agreement) : Type 0 where
  same_deployment : b.deployment_id ≡ a.deployment_id
  same_indexer : b.indexer_id ≡ a.indexer_id
  not_woken : is_active b.status ≡ true → is_active a.status ≡ true

conflicts-Shrinks :
    (a a' b b' : Agreement)
    → Shrinks a a'
    → Shrinks b b'
    → conflicts a' b' ≡ true
    → conflicts a b ≡ true
conflicts-Shrinks a a' b b' p q h = ground (arith, p.not_woken, q.not_woken)

exists-Shrinks :
    (a a' : Agreement) (rows rows' : List Agreement)
    → Shrinks a a'
    → Pointwise Shrinks rows rows'
    → exists (conflicts a) rows ≡ false
    → exists (conflicts a') rows' ≡ false
unfolding exists
exists-Shrinks a a' [] [] p q h = refl
exists-Shrinks a a' [] (b' ∷ rows') p q h = absurd q
exists-Shrinks a a' (b ∷ rows) [] p q h = absurd q
exists-Shrinks a a' (b ∷ rows) (b' ∷ rows') p q h =
    ground (arith, conflicts-Shrinks a a' b b' p q.0, exists-Shrinks a a' rows rows' p q.1)

IsUnique-Shrinks :
    (rows rows' : List Agreement) → Pointwise Shrinks rows rows' → IsUnique rows → IsUnique rows'
unfolding unique_active
IsUnique-Shrinks [] [] q h = refl
IsUnique-Shrinks [] (b' ∷ rows') q h = absurd q
IsUnique-Shrinks (b ∷ rows) [] q h = absurd q
IsUnique-Shrinks (b ∷ rows) (b' ∷ rows') q h =
    ground (arith, exists-Shrinks b b' rows rows' q.0 q.1, IsUnique-Shrinks rows rows' q.1)

-- An UPDATE that keeps the keys and wakes no row.
module _ (p : Agreement → Bool) (f : Agreement → Agreement)
    (shrinks : (a : Agreement) → p a ≡ true → Shrinks a (f a)) where
  pub update-IsUnique : (rows : List Agreement) → IsUnique rows → IsUnique (update p f rows)
  update-IsUnique rows h =
      IsUnique-Shrinks rows (update p f rows)
        (update-Pointwise Shrinks p f
          (λ a. record { same_deployment = refl; same_indexer = refl; not_woken = λ x. x }) shrinks
          rows)
        h

  pub update_or_fail-IsUnique :
      (rows : List Agreement)
      → IsUnique rows
      → IsUnique (after_write rows (update_or_fail p f rows))
  unfolding update_or_fail
  update_or_fail-IsUnique rows h = elim (Bool-cases (exists p rows)) [
    | inl found ↦ rw found (update-IsUnique rows h)
    | inr missing ↦ rw missing h
  ]

-- A row put to sleep, and a row whose status stays.
pub asleep :
    (a b : Agreement)
    → b.deployment_id ≡ a.deployment_id
    → b.indexer_id ≡ a.indexer_id
    → is_active b.status ≡ false
    → Shrinks a b
asleep a b d i s = record { same_deployment = d; same_indexer = i; not_woken = λ w. cc }

pub kept :
    (a b : Agreement)
    → b.deployment_id ≡ a.deployment_id
    → b.indexer_id ≡ a.indexer_id
    → b.status ≡ a.status
    → Shrinks a b
kept a b d i s = record {
  same_deployment = d;
  same_indexer = i;
  not_woken = λ w. subst (λ k. is_active k ≡ true) s w;
}

pub bind-IsUnique :
    {X Y : Type 0} (rows : List Agreement) (m : Result (List Agreement × X))
    (k : List Agreement × X → Result (List Agreement × Y))
    → IsUnique rows
    → IsUnique (after rows m)
    → ((mid : List Agreement) (x : X) → IsUnique mid → IsUnique (after mid (k (mid, x))))
    → IsUnique (after rows (m >>= k))
bind-IsUnique {Y} rows (err e) k u h g = u
bind-IsUnique {Y} rows (ok (mid, x)) k u h g = last (k (mid, x)) (g mid x h)
  where
    last : (r : Result (List Agreement × Y)) → IsUnique (after mid r) → IsUnique (after rows r)
    last (ok (end, y)) q = q
    last (err e) q = u
