-- ===== src/Prelude/Table.antt =====
-- A database table as the list of its rows, and the SQL statements that the registry and the job
-- queue send to it. `p` is a statement's WHERE clause, `f` its SET clause, read on the old row.
use mathlib.Core.Path.{◌≡◌}
use mathlib.Core.Bool.{Bool, true, false, ◌||◌}
use mathlib.Core.List.{List, [], ◌∷◌}
use dipper.Prelude.Tests.{if◌then◌else◌, Bool-cases}
use dipper.Prelude.Lists.{Pointwise}
use mathlib.Core.Logic.{inl, inr}

module _ {ℓ} {A : Type ℓ} where
  -- UPDATE … SET f WHERE p
  unfoldable pub update : (A → Bool) → (A → A) → List A → List A
  update p f [] = []
  update p f (r ∷ rs) = (if p r then f r else r) ∷ update p f rs

  -- SELECT … WHERE p
  unfoldable pub select : (A → Bool) → List A → List A
  select p [] = []
  select p (r ∷ rs) = if p r then r ∷ select p rs else select p rs

  -- DELETE … WHERE p
  unfoldable pub delete : (A → Bool) → List A → List A
  delete p [] = []
  delete p (r ∷ rs) = if p r then delete p rs else r ∷ delete p rs

  -- EXISTS (SELECT … WHERE p)
  unfoldable pub exists : (A → Bool) → List A → Bool
  exists p [] = false
  exists p (r ∷ rs) = p r || exists p rs

  pub update-Pointwise :
      (R : A → A → Type 0) (p : A → Bool) (f : A → A)
      → ((r : A) → R r r)
      → ((r : A) → p r ≡ true → R r (f r))
      → (rs : List A) → Pointwise R rs (update p f rs)
  unfolding update
  update-Pointwise R p f same moved [] = tt
  update-Pointwise R p f same moved (r ∷ rs) = elim (Bool-cases (p r)) [
    | inl e ↦ rw e (moved r e, update-Pointwise R p f same moved rs)
    | inr e ↦ rw e (same r, update-Pointwise R p f same moved rs)
  ]
