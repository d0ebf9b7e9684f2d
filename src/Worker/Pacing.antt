-- ===== src/Worker/Pacing.antt =====
-- The caps on offers in flight (bin/dipper-service/src/worker/handlers/reassess_indexing_request.rs).
-- Counts are far below 2 ^ 64, so their sums do not overflow.
use Prim.Native.Nat.{◌-◌, ◌%◌}
use dipper.Prelude.{
  ℕ, suc, ◌+◌, ◌≤◌, ◌<◌, ◌≡◌, refl, ◌∙◌, ap, Bool, false, ◌&&◌, ◌||◌, List, [], ◌∷◌, Option, none,
  some, min, ltb, leb, arith, inl, inr, ◌==◌, if◌then◌else◌, Bool-cases, length, ==_iff,
}

-- `Vec::sort`.
unfoldable pub insert : ℕ → List ℕ → List ℕ
insert a [] = a ∷ []
insert a (x ∷ xs) = if leb a x then a ∷ x ∷ xs else x ∷ insert a xs

unfoldable pub sort : List ℕ → List ℕ
unfolding insert
sort [] = []
sort (x ∷ xs) = insert x (sort xs)

-- Whether a cap, if any, is reached.
abbrev pub reaches : Option ℕ → ℕ → Bool
reaches none n = false
reaches (some cap) n = leb cap n

-- A map of counts, 0 where it has no entry, and `*entry(id).or_insert(0) += 1`.
abbrev pub bump : ℕ → (ℕ → ℕ) → ℕ → ℕ
bump id counts k = if id == k then suc (counts k) else counts k

module _ (in_flight_per_indexer : ℕ → ℕ) (global_in_flight : ℕ)
    (per_indexer_cap global_cap : Option ℕ) where
  abbrev pub withholds : (ℕ → ℕ) → ℕ → ℕ → Bool
  withholds admitted_per_indexer admitted_total id =
      reaches global_cap (global_in_flight + admitted_total)
      || reaches per_indexer_cap (in_flight_per_indexer id + admitted_per_indexer id)

  unfoldable pub admit : List ℕ → (ℕ → ℕ) → ℕ → List ℕ
  admit [] admitted_per_indexer admitted_total = []
  admit (id ∷ ids) admitted_per_indexer admitted_total =
      let skipped = admit ids admitted_per_indexer admitted_total in
      let taken = admit ids (bump id admitted_per_indexer) (suc admitted_total) in
      if withholds admitted_per_indexer admitted_total id then skipped else id ∷ taken

unfoldable pub plan_capped_additions : List ℕ → (ℕ → ℕ) → ℕ → Option ℕ → Option ℕ → List ℕ × ℕ
unfolding sort admit
plan_capped_additions candidates in_flight_per_indexer global_in_flight per_indexer_cap global_cap =
    let sorted = sort candidates in
    let admitted =
      admit in_flight_per_indexer global_in_flight per_indexer_cap global_cap sorted (λ _. 0) 0 in
    (admitted, length sorted - length admitted)

unfoldable pub reserved_cancel_count : ℕ → ℕ → ℕ → ℕ
reserved_cancel_count cancels total_adds admitted_adds =
    min cancels total_adds - min cancels admitted_adds

unfoldable pub should_defer_saturated : ℕ → Option ℕ → ℕ → ℕ → Bool
should_defer_saturated global_in_flight none num_candidates active_count = false
should_defer_saturated global_in_flight (some cap) num_candidates active_count =
    leb cap global_in_flight && ltb active_count num_candidates

-- The bytes of the request's id.
abbrev pub sum : List ℕ → ℕ
sum [] = 0
sum (b ∷ bytes) = b + sum bytes

unfoldable pub pacing_defer_delay : List ℕ → ℕ
pacing_defer_delay bytes = 12 + sum bytes % 7

abbrev pub count : ℕ → List ℕ → ℕ
count id [] = 0
count id (x ∷ xs) = if x == id then suc (count id xs) else count id xs

length-insert : (a : ℕ) (xs : List ℕ) → length (insert a xs) ≡ suc (length xs)
unfolding insert
length-insert a [] = refl
length-insert a (x ∷ xs) = elim (Bool-cases (leb a x)) [
  | inl e ↦ rw e
  | inr e ↦ rw (e, length-insert a xs)
]

pub length-sort : (xs : List ℕ) → length (sort xs) ≡ length xs
unfolding sort
length-sort [] = refl
length-sort (x ∷ xs) = length-insert x (sort xs) ∙ ap suc (length-sort xs)

module _ (in_flight : ℕ → ℕ) (global : ℕ) (per_cap global_cap : Option ℕ) where
  pub length-admit :
      (ids : List ℕ) (per : ℕ → ℕ) (total : ℕ)
      → length (admit in_flight global per_cap global_cap ids per total) ≤ length ids
  unfolding admit
  length-admit [] per total = omega arith
  length-admit (id ∷ ids) per total =
      elim (Bool-cases (withholds in_flight global per_cap global_cap per total id)) [
        | inl y ↦ rw y (omega (arith, length-admit ids per total))
        | inr n ↦ rw n (omega (arith, length-admit ids (bump id per) (suc total)))
      ]

pub admit_global :
    (in_flight : ℕ → ℕ) (global cap : ℕ) (per_cap : Option ℕ) (ids : List ℕ) (per : ℕ → ℕ)
    (total : ℕ)
    → length (admit in_flight global per_cap (some cap) ids per total) ≤ cap - (global + total)
unfolding admit
admit_global in_flight global cap per_cap [] per total = omega arith
admit_global in_flight global cap per_cap (id ∷ ids) per total =
    elim (Bool-cases (withholds in_flight global per_cap (some cap) per total id)) [
      | inl y ↦ rw y (admit_global in_flight global cap per_cap ids per total)
      | inr n ↦
          let room : global + total < cap = ground (arith, n) in
          rw n (
            omega (
              arith,
              room,
              admit_global in_flight global cap per_cap ids (bump id per) (suc total),
            ))
    ]

one_more :
    (cap f p f' p' : ℕ)
    → f ≡ f'
    → p ≡ p'
    → (c : ℕ) → f + p < cap
    → c ≤ cap - (f' + suc p')
    → suc c ≤ cap - (f' + p')
one_more cap f p f' p' e g c h k = omega (arith, e, g, h, k)

pub admit_per :
    (in_flight : ℕ → ℕ) (global cap : ℕ) (global_cap : Option ℕ) (k : ℕ) (ids : List ℕ)
    (per : ℕ → ℕ) (total : ℕ)
    → count k (admit in_flight global (some cap) global_cap ids per total)
      ≤ cap - (in_flight k + per k)
unfolding admit
admit_per in_flight global cap global_cap k [] per total = omega arith
admit_per in_flight global cap global_cap k (id ∷ ids) per total =
    elim (Bool-cases (withholds in_flight global (some cap) global_cap per total id)) [
      | inl y ↦ rw y (admit_per in_flight global cap global_cap k ids per total)
      | inr n ↦
          let room : in_flight id + per id < cap = ground (arith, n) in
          let rest = admit_per in_flight global cap global_cap k ids (bump id per) (suc total) in
          elim (Bool-cases (id == k)) [
            | inl same ↦
                rw (n, same)
                  (one_more cap (in_flight id) (per id) (in_flight k) (per k)
                    (ap in_flight ((==_iff id k).0 same)) (ap per ((==_iff id k).0 same)) _ room
                    (rw same at rest))
            | inr other ↦ rw (n, other) (rw other at rest)
          ]
    ]
