-- ===== src/Registry/Targets.antt =====
-- What setting a target leaves of the open requests (dipper-pgregistry/src/postgres.rs).
use mathlib.Core.Path.{subst}
use dipper.Prelude.{
  ℕ, suc, ◌≤◌, ◌≡◌, refl, sym, ◌∙◌, ap, ◌||◌, ==_iff, Bool, true, false, ◌&&◌, [], ◌∷◌, Option,
  none, some, ◌==◌, ltb, arith, ◌⊎◌, inl, inr, if◌then◌else◌, Bool-cases, update, exists, ==_refl,
}
use dipper.Registry.Types.{canceled, IndexingRequest, ok}
use dipper.Registry.Registration.{has_request_id}
use dipper.Registry.Requests.{
  Key, is_open_for, find_open, new_request, Requests, SetTargetOutcome, set_target,
  set_indexing_target_candidates,
}

-- The open requests of a key. The partial unique index uniq_open_indexing_requests keeps it to one.
unfoldable pub open_count : Key → Requests → ℕ
open_count key [] = 0
open_count key (r ∷ rows) =
    if is_open_for key r then suc (open_count key rows) else open_count key rows

find_open-none : (key : Key) (rows : Requests) → find_open key rows ≡ none → open_count key rows ≡ 0
unfolding find_open open_count
find_open-none key [] e = refl
find_open-none key (r ∷ rows) e = elim (Bool-cases (is_open_for key r)) [
  | inl y ↦ absurd (cc (rw y at e))
  | inr n ↦ rw n (find_open-none key rows (rw n at e))
]

find_open-some :
    (key : Key) (rows : Requests) {r : IndexingRequest}
    → find_open key rows ≡ some r
    → open_count key rows ≤ 1
    → open_count key rows ≡ 1
unfolding find_open open_count
find_open-some key [] e h = absurd (cc e)
find_open-some key (x ∷ rows) {r} e h = elim (Bool-cases (is_open_for key x)) [
  | inl y ↦ ground (arith, y, h)
  | inr n ↦ rw n (find_open-some key rows {r = r} (rw n at e) (rw n at h))
]

if_le : (c : Bool) (a b : ℕ) → a ≤ b → (if c then suc a else a) ≤ (if c then suc b else b)
if_le true a b h = omega (arith, h)
if_le false a b h = h

le_if : (c : Bool) (a b : ℕ) → a ≤ b → a ≤ (if c then suc b else b)
le_if true a b h = omega (arith, h)
le_if false a b h = h

module _ (now : ℕ) where
  abbrev cancel : IndexingRequest → IndexingRequest
  cancel x = record x { status = canceled; updated_at = now }

  cancelled_not_open : (key : Key) (x : IndexingRequest) → is_open_for key (cancel x) ≡ false
  cancelled_not_open key x = ground arith

  cancelled_le :
      (key : Key) (p : IndexingRequest → Bool) (rows : Requests)
      → open_count key (update p cancel rows) ≤ open_count key rows
  unfolding open_count update
  cancelled_le key p [] = omega arith
  cancelled_le key p (x ∷ rows) = elim (Bool-cases (p x)) [
    | inl y ↦
        rw (y, cancelled_not_open key x)
          (le_if (is_open_for key x) (open_count key (update p cancel rows)) (open_count key rows)
            (cancelled_le key p rows))
    | inr n ↦ rw n (
        if_le (is_open_for key x) (open_count key (update p cancel rows)) (open_count key rows)
          (cancelled_le key p rows))
  ]

  cancelled_none :
      (key : Key) (rows : Requests) {r : IndexingRequest}
      → find_open key rows ≡ some r
      → open_count key rows ≤ 1
      → open_count key (update (has_request_id r.id) cancel rows) ≡ 0
  unfolding find_open open_count update
  cancelled_none key [] e h = absurd (cc e)
  cancelled_none key (x ∷ rows) {r} e h = elim (Bool-cases (is_open_for key x)) [
    | inl y ↦
        let same : x ≡ r = ground (arith, y) in
        let hit : (x.id == r.id) ≡ true = subst (λ z. (x.id == z.id) ≡ true) same (==_refl x.id) in
        let rest : open_count key rows ≤ 0 = ground (arith, y, h) in
        let less = cancelled_le key (has_request_id r.id) rows in
        rw (hit, cancelled_not_open key x) (omega (arith, rest, less))
    | inr n ↦
        let rest = cancelled_none key rows {r = r} (rw n at e) (rw n at h) in
        elim (Bool-cases (x.id == r.id)) [
          | inl hit ↦ rw (hit, cancelled_not_open key x) rest
          | inr miss ↦ rw (miss, n) rest
        ]
  ]

  module _ (n : ℕ) where
    abbrev retarget : IndexingRequest → IndexingRequest
    retarget x = record x { num_candidates = n; updated_at = now }

    retargeted_count :
        (key : Key) (p : IndexingRequest → Bool) (rows : Requests)
        → open_count key (update p retarget rows) ≡ open_count key rows
    unfolding open_count update
    retargeted_count key p [] = refl
    retargeted_count key p (x ∷ rows) = elim (Bool-cases (p x)) [
      | inl y ↦ rw (y, retargeted_count key p rows)
      | inr m ↦ rw (m, retargeted_count key p rows)
    ]

    retargeted_find :
        (key : Key) (rows : Requests) {r : IndexingRequest}
        → find_open key rows ≡ some r
        → (s : IndexingRequest) × (find_open key (update (has_request_id r.id) retarget rows)
            ≡ some s)
          × (s.num_candidates ≡ n)
          × (s.id ≡ r.id)
    unfolding find_open update
    retargeted_find key [] e = absurd (cc e)
    retargeted_find key (x ∷ rows) {r} e = elim (Bool-cases (is_open_for key x)) [
      | inl y ↦
          let same : x ≡ r = ground (arith, y) in
          let hit : (x.id == r.id) ≡ true =
            subst (λ z. (x.id == z.id) ≡ true) same (==_refl x.id) in
          (retarget x, rw (hit, y), refl, ap (λ (z : IndexingRequest). z.id) same)
      | inr m ↦
          let (s, found, t, u) = retargeted_find key rows {r = r} (rw m at e) in
          elim (Bool-cases (x.id == r.id)) [
            | inl hit ↦ (s, rw (hit, m) found, t, u)
            | inr miss ↦ (s, rw (miss, m) found, t, u)
          ]
    ]

abbrev asks_none : Key → IndexingRequest → Bool
asks_none key r = is_open_for key r && r.num_candidates == 0

count_zero :
    (key : Key) (rows : Requests) → open_count key rows ≡ 0 → exists (asks_none key) rows ≡ false
unfolding open_count exists
count_zero key [] h = refl
count_zero key (x ∷ rows) h = elim (Bool-cases (is_open_for key x)) [
  | inl y ↦ absurd (omega (arith, rw y at h))
  | inr n ↦ rw n (count_zero key rows (rw n at h))
]

count_one :
    (key : Key) (rows : Requests) {r : IndexingRequest}
    → find_open key rows ≡ some r
    → open_count key rows ≤ 1
    → exists (asks_none key) rows ≡ (r.num_candidates == 0)
unfolding open_count exists find_open
count_one key [] e h = absurd (cc e)
count_one key (x ∷ rows) {r} e h = elim (Bool-cases (is_open_for key x)) [
  | inl y ↦
      let same : x ≡ r = ground (arith, y) in
      let rest = count_zero key rows (ground (arith, y, h)) in
      rw (y, rest)
        (subst (λ z. ((x.num_candidates == 0) || false) ≡ (z.num_candidates == 0)) same
          (ground arith))
  | inr n ↦ rw n (count_one key rows {r = r} (rw n at e) (rw n at h))
]

-- At most one request of the key is open, and it asks for some candidates.
pub record Settled (key : Key) (rows : Requests) : Type 0 where
  pub once : open_count key rows ≤ 1
  pub wanted : exists (asks_none key) rows ≡ false

abbrev pub TargetIs : Key → ℕ → Requests → Type 0
TargetIs key n rows =
    ((n ≡ 0) × (open_count key rows ≡ 0))
    ⊎ ((r : IndexingRequest) × (find_open key rows ≡ some r)
        × (r.num_candidates ≡ n)
        × ((n == 0) ≡ false)
        × (open_count key rows ≡ 1))

TargetIs-Settled : (key : Key) (n : ℕ) (rows : Requests) → TargetIs key n rows → Settled key rows
TargetIs-Settled key n rows (inl (z, c)) = record {
  once = omega (arith, c);
  wanted = count_zero key rows c;
}
TargetIs-Settled key n rows (inr (r, found, same, some_wanted, c)) = record {
  once = omega (arith, c);
  wanted =
      count_one key rows {r = r} found (omega (arith, c)) ∙ ap (λ k. k == 0) same ∙ some_wanted;
}

module _ (new_id now : ℕ) (key : Key) (n : ℕ) (rows : Requests) (s : Settled key rows) where
  set_target-TargetIs :
      (o : Option IndexingRequest)
      → find_open key rows ≡ o
      → {rows' : Requests} {outcome : SetTargetOutcome}
      → set_target new_id now key n rows o ≡ ok (rows', outcome)
      → TargetIs key n rows'
  unfolding set_target find_open open_count
  set_target-TargetIs none f {rows'} e = elim (Bool-cases (n == 0)) [
    | inl z ↦
        let same : rows ≡ rows' = ground (arith, z) in
        subst (TargetIs key n) same (inl ((==_iff n 0).0 z, find_open-none key rows f))
    | inr nz ↦ elim (Bool-cases (exists (has_request_id new_id) rows)) [
      | inl taken ↦ absurd (cc (rw (nz, taken) at e))
      | inr fresh ↦
          let added : new_request new_id now key n ∷ rows ≡ rows' = ground (arith, nz, fresh) in
          let hit : is_open_for key (new_request new_id now key n) ≡ true = ground arith in
          subst (TargetIs key n) added (
            inr
              (new_request new_id now key n, rw hit, refl, nz, rw (hit, find_open-none key rows f)))
    ]
  ]
  set_target-TargetIs (some r) f {rows'} e = elim (Bool-cases (r.num_candidates == n)) [
    | inl same ↦
        let kept : rows ≡ rows' = ground (arith, same) in
        let num = (==_iff r.num_candidates n).0 same in
        let wants : (r.num_candidates == 0) ≡ false =
          sym (count_one key rows {r = r} f s.once) ∙ s.wanted in
        subst (TargetIs key n) kept (
          inr (
            r,
            f,
            num,
            subst (λ k. (k == 0) ≡ false) num wants,
            find_open-some key rows {r = r} f s.once,
          ))
    | inr moved ↦ elim (Bool-cases (n == 0)) [
      | inl z ↦
          let done : update (has_request_id r.id) (cancel now) rows ≡ rows' =
            ground (arith, moved, z) in
          subst (TargetIs key n) done
            (inl ((==_iff n 0).0 z, cancelled_none now key rows {r = r} f s.once))
      | inr nz ↦
          let done : update (has_request_id r.id) (retarget now n) rows ≡ rows' =
            ground (arith, moved, nz) in
          let (x, found, num, same_id) = retargeted_find now n key rows {r = r} f in
          subst (TargetIs key n) done (
            inr (
              x,
              found,
              num,
              nz,
              retargeted_count now n key (has_request_id r.id) rows
                  ∙ find_open-some key rows {r = r} f s.once,
            ))
    ]
  ]

-- Setting the target of a key with at most one open request, which asks for some candidates,
-- leaves none open where the target is zero, and otherwise one that asks for exactly that many
-- candidates; the key keeps at most one open request, which asks for some.
pub set_indexing_target_candidates-target :
    (new_id now : ℕ) (key : Key) (n : ℕ) (rows rows' : Requests) (outcome : SetTargetOutcome)
    → Settled key rows
    → set_indexing_target_candidates new_id now key n rows ≡ ok (rows', outcome)
    → TargetIs key n rows' × Settled key rows'
unfolding set_indexing_target_candidates
set_indexing_target_candidates-target new_id now key n rows rows' outcome s e =
    elim (Bool-cases (ltb 2147483647 n)) [
      | inl y ↦ absurd (cc (rw y at e))
      | inr fits ↦
          let t =
            set_target-TargetIs new_id now key n rows s (find_open key rows) refl (rw fits at e) in
          (t, TargetIs-Settled key n rows' t)
    ]
