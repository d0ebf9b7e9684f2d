-- ===== src/Registry/Rows.antt =====
-- Lemmas on the rows of dipper_reg_indexing_agreements: what a statement of
-- dipper-pgregistry/src/postgres.rs does to the row that an id names.
use mathlib.Core.Path.{ap₂, subst}
use dipper.Prelude.{
  ℕ, ◌≡◌, refl, ◌∙◌, ap, Bool, true, false, not, ◌||◌, List, [], ◌∷◌, Option, none, some, arith,
  inl, inr, map, if◌then◌else◌, Bool-cases, update, select, exists, ◌==◌, ==_iff, NotIn, Distinct,
}
use dipper.Registry.Types.{Agreement}
use dipper.Registry.Transitions.{is_empty}
use dipper.Registry.Ends.{find}

abbrev pub ids_of : List Agreement → List ℕ
ids_of rows = map (λ (a : Agreement). a.id) rows

-- The primary key of the table.
abbrev pub PrimaryKey : List Agreement → Type 0
PrimaryKey rows = Distinct (ids_of rows)

abbrev pub option_map : (Agreement → Agreement) → Option Agreement → Option Agreement
option_map f none = none
option_map f (some a) = some (f a)

abbrev pub written : (Agreement → Bool) → (Agreement → Agreement) → Agreement → Agreement
written p f a = if p a then f a else a

-- An UPDATE that keeps ids acts on whatever row an id names.
pub find-update :
    (p : Agreement → Bool) (f : Agreement → Agreement)
    → ((a : Agreement) → (f a).id ≡ a.id)
    → (k : ℕ) (rows : List Agreement)
    → find k (update p f rows) ≡ option_map (written p f) (find k rows)
unfolding find update
find-update p f keeps k [] = refl
find-update p f keeps k (r ∷ rows) = elim (Bool-cases (p r)) [
  | inl e ↦ elim (Bool-cases (r.id == k)) [
    | inl hit ↦
        let moved : ((f r).id == k) ≡ true = ap (λ i. i == k) (keeps r) ∙ hit in
        rw (e, moved, hit) (rw e)
    | inr miss ↦
        let moved : ((f r).id == k) ≡ false = ap (λ i. i == k) (keeps r) ∙ miss in
        rw (e, moved, miss) (find-update p f keeps k rows)
  ]
  | inr e ↦ elim (Bool-cases (r.id == k)) [
    | inl hit ↦ rw (e, hit) (rw e)
    | inr miss ↦ rw (e, miss) (find-update p f keeps k rows)
  ]
]

-- A condition that asks for the id `id`.
abbrev pub Asks : ℕ → (Agreement → Bool) → Type 0
Asks id p = (r : Agreement) → (r.id == id) ≡ false → p r ≡ false

NotIn-exists :
    (id : ℕ) (p : Agreement → Bool) (rows : List Agreement)
    → Asks id p
    → NotIn id (ids_of rows)
    → exists p rows ≡ false
unfolding exists
NotIn-exists id p [] asks h = refl
NotIn-exists id p (r ∷ rows) asks h =
    let other : (r.id == id) ≡ false = ground (arith, h.0) in
    rw (asks r other) (NotIn-exists id p rows asks h.1)

-- Under the primary key, a condition on one id reads the row that the id names.
pub exists-find :
    (id : ℕ) (p : Agreement → Bool) (rows : List Agreement) {a : Agreement}
    → Asks id p
    → PrimaryKey rows
    → find id rows ≡ some a
    → exists p rows ≡ p a
unfolding exists find
exists-find id p [] asks k e = cc
exists-find id p (r ∷ rows) {a} asks k e = elim (Bool-cases (r.id == id)) [
  | inl hit ↦
      let same : r ≡ a = ground (arith, hit) in
      let rest : exists p rows ≡ false =
        NotIn-exists id p rows asks
          (subst (λ i. NotIn i (ids_of rows)) ((==_iff r.id id).0 hit) k.0) in
      rw rest (
        subst (λ x. (p r || false) ≡ p x) same
          (elim (Bool-cases (p r)) [ inl y ↦ rw y | inr y ↦ rw y ]))
  | inr miss ↦ rw (asks r miss) (exists-find id p rows {a = a} asks k.1 (rw miss at e))
]

pub find-id :
    (k : ℕ) (rows : List Agreement) {b : Agreement} → find k rows ≡ some b → (b.id == k) ≡ true
unfolding find
find-id k [] e = cc
find-id k (r ∷ rows) {b} e = elim (Bool-cases (r.id == k)) [
  | inl hit ↦ let same : r ≡ b = ground (arith, hit) in subst (λ x. (x.id == k) ≡ true) same hit
  | inr miss ↦ find-id k rows {b = b} (rw miss at e)
]

pub is_empty-select :
    (p : Agreement → Bool) (rows : List Agreement)
    → not (is_empty (map (λ (a : Agreement). a.id) (select p rows))) ≡ exists p rows
unfolding select exists
is_empty-select p [] = refl
is_empty-select p (r ∷ rows) = ground (arith, is_empty-select p rows)

pub ids_of-update :
    (p : Agreement → Bool) (f : Agreement → Agreement)
    → ((a : Agreement) → (f a).id ≡ a.id)
    → (rows : List Agreement) → ids_of (update p f rows) ≡ ids_of rows
unfolding update
ids_of-update p f keeps [] = refl
ids_of-update p f keeps (r ∷ rows) = elim (Bool-cases (p r)) [
  | inl e ↦ rw e (ap₂ (λ x xs. x ∷ xs) (keeps r) (ids_of-update p f keeps rows))
  | inr e ↦ rw e (ap (λ xs. r.id ∷ xs) (ids_of-update p f keeps rows))
]

-- A statement on the row that one id names leaves what another id names.
pub find-update_other :
    (id : ℕ) (p : Agreement → Bool) (f : Agreement → Agreement)
    → Asks id p
    → ((a : Agreement) → (f a).id ≡ a.id)
    → (rows : List Agreement) (k : ℕ) → (id == k) ≡ false
    → find k (update p f rows) ≡ find k rows
find-update_other id p f asks keeps rows k other =
    find-update p f keeps k rows ∙ go (find k rows) refl
  where
    go : (o : Option Agreement) → find k rows ≡ o → option_map (written p f) o ≡ o
    go none e = refl
    go (some b) e =
        let there = find-id k rows {b = b} e in
        let missed : p b ≡ false = asks b (ground (arith, there)) in rw missed
