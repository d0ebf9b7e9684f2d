-- ===== src/Prelude/Order.antt =====
-- ORDER BY, DISTINCT and LIMIT of the SQL statements, on lists of rows. Rows of one key keep their
-- order, which SQL leaves open.
use Prim.Native.Nat.{ℕ, zero, suc}
use mathlib.Core.Path.{◌≡◌}
use mathlib.Core.Logic.{inl, inr}
use mathlib.Core.Bool.{Bool, true}
use mathlib.Core.Option.{Option, none, some}
use mathlib.Core.List.{List, [], ◌∷◌}
use dipper.Prelude.Tests.{if◌then◌else◌, leb, Bool-cases}
use dipper.Prelude.Lists.{take, any_eq, All}
use dipper.Prelude.Table.{select}

module _ {ℓ} {A : Type ℓ} (key : A → ℕ) where
  unfoldable pub insert_by : A → List A → List A
  insert_by a [] = a ∷ []
  insert_by a (x ∷ xs) = if leb (key a) (key x) then a ∷ x ∷ xs else x ∷ insert_by a xs

  -- ORDER BY key ASC
  unfoldable pub order_by : List A → List A
  unfolding insert_by
  order_by [] = []
  order_by (x ∷ xs) = insert_by x (order_by xs)

-- LIMIT CASE WHEN n > 0 THEN n ELSE NULL END
abbrev pub limit_if_positive {ℓ} : {A : Type ℓ} → ℕ → List A → List A
limit_if_positive zero xs = xs
limit_if_positive (suc n) xs = take (suc n) xs

-- DISTINCT on numbers
unfoldable pub distinct : List ℕ → List ℕ
distinct [] = []
distinct (x ∷ xs) = let rest = distinct xs in if any_eq x rest then rest else x ∷ rest

-- The place of a nullable time in an order with NULLS FIRST.
abbrev pub nulls_first : Option ℕ → ℕ
nulls_first none = 0
nulls_first (some t) = suc t

-- What holds of the rows holds of those that a query picks.
module _ {ℓ} {A : Type ℓ} (P : A → Type 0) where
  pub All-select :
      (p : A → Bool) (xs : List A) → All P xs → All (λ x. P x × (p x ≡ true)) (select p xs)
  unfolding select
  All-select p [] h = tt
  All-select p (x ∷ xs) (h, rest) = elim (Bool-cases (p x)) [
    | inl y ↦ rw y ((h, y), All-select p xs rest)
    | inr n ↦ rw n (All-select p xs rest)
  ]

  pub All-take : (n : ℕ) (xs : List A) → All P xs → All P (take n xs)
  All-take zero xs h = tt
  All-take (suc n) [] h = tt
  All-take (suc n) (x ∷ xs) (h, rest) = (h, All-take n xs rest)

  pub All-limit_if_positive : (n : ℕ) (xs : List A) → All P xs → All P (limit_if_positive n xs)
  All-limit_if_positive zero xs h = h
  All-limit_if_positive (suc n) xs h = All-take (suc n) xs h

  module _ (key : A → ℕ) where
    All-insert_by : (x : A) (xs : List A) → P x → All P xs → All P (insert_by key x xs)
    unfolding insert_by
    All-insert_by x [] h rest = (h, tt)
    All-insert_by x (y ∷ ys) h (k, rest) = elim (Bool-cases (leb (key x) (key y))) [
      | inl e ↦ rw e (h, (k, rest))
      | inr e ↦ rw e (k, All-insert_by x ys h rest)
    ]

    pub All-order_by : (xs : List A) → All P xs → All P (order_by key xs)
    unfolding order_by
    All-order_by [] h = tt
    All-order_by (x ∷ xs) (h, rest) = All-insert_by x (order_by key xs) h (All-order_by xs rest)
