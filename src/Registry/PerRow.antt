-- ===== src/Registry/PerRow.antt =====
-- What a single-row statement of dipper-pgregistry/src/postgres.rs does to the row it names.
use mathlib.Core.Path.{subst}
use dipper.Prelude.{
  ℕ, ◌≡◌, refl, sym, ◌∙◌, ap, Bool, true, false, not, List, [], ◌∷◌, some, arith, map,
  if◌then◌else◌, update, select, ◌==◌, Distinct,
}
use dipper.Registry.Types.{
  Error, Status, Agreement, Result, ok, err, ◌>>=◌, unique_violation, no_records_updated,
}
use dipper.Registry.Transitions.{
  checked, is_empty, matches, set_status, batch_set_status, batch_update_status_from,
  update_status_from, set_status_from,
}
use dipper.Registry.Ends.{find}
use dipper.Registry.Rows.{
  Asks, find-id, PrimaryKey, option_map, written, find-update, exists-find, is_empty-select,
  ids_of-update, find-update_other,
}

-- What a statement that moves the row named `id` does to a table under its primary key: `moved`
-- tells whether the row's status allowed it, and every other row stays.
pub record Step (id : ℕ) (rows : List Agreement) (b : Agreement) (rows' : List Agreement)
    : Type 0 where
  pub row : find id rows' ≡ some b
  pub key : PrimaryKey rows'
  pub others : (k : ℕ) → (id == k) ≡ false → find k rows' ≡ find k rows

-- The last steps of `update_status_from` and of a paired cancel.
abbrev report : List Agreement × List ℕ → Result (List Agreement × Bool)
report (rows, ids) = ok (rows, not (is_empty ids))

pub moved_error :
    (now id : ℕ) (status_sql : Agreement → Status) (from : Status → Bool) (rows : List Agreement)
    {x : Error}
    → (batch_set_status now (id ∷ []) status_sql from rows >>= report) ≡ err x
    → x ≡ unique_violation
unfolding batch_set_status checked
moved_error now id status_sql from rows q = ground arith

module _ (now id : ℕ) (status_sql : Agreement → Status) (from : Status → Bool)
    (rows : List Agreement) {a : Agreement} (key : PrimaryKey rows)
    (e : find id rows ≡ some a) where
  batch_set_status-Step :
      {rows' : List Agreement} {ids : List ℕ}
      → batch_set_status now (id ∷ []) status_sql from rows ≡ ok (rows', ids)
      → (not (is_empty ids) ≡ from a.status)
        × Step id rows (if from a.status then set_status now status_sql a else a) rows'
  unfolding batch_set_status checked
  batch_set_status-Step {rows'} {ids} q =
      let p = matches (id ∷ []) from in
      let f = set_status now status_sql in
      let asks : Asks id p = λ r miss. rw miss in
      let keeps : (b : Agreement) → (f b).id ≡ b.id = λ b. refl in
      let out : (update p f rows ≡ rows') × (map (λ (b : Agreement). b.id) (select p rows) ≡ ids) =
        ground arith in
      let mine : p a ≡ from a.status = rw (find-id id rows {b = a} e) in
      let step : Step id rows (if from a.status then f a else a) (update p f rows) = record {
        row =
            find-update p f keeps id rows
            ∙ ap (option_map (written p f)) e
            ∙ ap (λ c. some (if c then f a else a)) mine;
        key = subst Distinct (sym (ids_of-update p f keeps rows)) key;
        others = λ k other. find-update_other id p f asks keeps rows k other;
      } in
      (
        subst (λ xs. not (is_empty xs) ≡ from a.status) (out.1)
            (is_empty-select p rows ∙ exists-find id p rows asks key e ∙ mine),
        subst (λ xs. Step id rows (if from a.status then f a else a) xs) (out.0) step,
      )

  pub moved-Step :
      {rows' : List Agreement} {moved : Bool}
      → (batch_set_status now (id ∷ []) status_sql from rows >>= report) ≡ ok (rows', moved)
      → (moved ≡ from a.status)
        × Step id rows (if from a.status then set_status now status_sql a else a) rows'
  moved-Step {rows'} {moved} = go (batch_set_status now (id ∷ []) status_sql from rows) refl
    where
      go :
          (r : Result (List Agreement × List ℕ))
          → batch_set_status now (id ∷ []) status_sql from rows ≡ r
          → (r >>= report) ≡ ok (rows', moved)
          → (moved ≡ from a.status)
            × Step id rows (if from a.status then set_status now status_sql a else a) rows'
      go (ok (x, ids)) q h =
          let (m, s) = batch_set_status-Step q in
          (
            sym (ground arith) ∙ m,
            subst (λ xs. Step id rows (if from a.status then set_status now status_sql a else a) xs)
                (ground arith) s,
          )
      go (err x) q h = cc

pub Step-trans :
    {id : ℕ} {rows rows₁ rows₂ : List Agreement} {b c : Agreement}
    → Step id rows b rows₁
    → Step id rows₁ c rows₂
    → Step id rows c rows₂
Step-trans s t = record {
  row = t.row;
  key = t.key;
  others = λ k other. t.others k other ∙ s.others k other;
}

-- A single-row transition that succeeds found the row at an allowed status and moved it.
pub set_status_from-Step :
    (now id : ℕ) (status : Status) (from : Status → Bool) (rows : List Agreement) {a : Agreement}
    → PrimaryKey rows
    → find id rows ≡ some a
    → {rows' : List Agreement} → set_status_from now id status from rows ≡ ok rows'
    → (from a.status ≡ true) × Step id rows (set_status now (λ _. status) a) rows'
unfolding set_status_from update_status_from batch_update_status_from
set_status_from-Step now id status from rows {a} key e {rows'} =
    go (batch_set_status now (id ∷ []) (λ _. status) from rows >>= report) refl
  where
    go :
        (r : Result (List Agreement × Bool))
        → (batch_set_status now (id ∷ []) (λ _. status) from rows >>= report) ≡ r
        → (r >>= λ t. if t.1 then ok (t.0) else err no_records_updated) ≡ ok rows'
        → (from a.status ≡ true) × Step id rows (set_status now (λ _. status) a) rows'
    go (ok (x, true)) q h =
        let (m, s) = moved-Step now id (λ _. status) from rows key e q in
        (
          sym m,
          subst (λ xs. Step id rows (set_status now (λ _. status) a) xs) (ground arith)
              (subst (λ c. Step id rows (if c then set_status now (λ _. status) a else a) x) (sym m)
                s),
        )
    go (ok (x, false)) q h = absurd (cc h)
    go (err y) q h = absurd (cc h)

-- The other way round, it fails on an allowed status only through the unique index.
pub set_status_from_error :
    (now id : ℕ) (status : Status) (from : Status → Bool) (rows : List Agreement) {a : Agreement}
    → PrimaryKey rows
    → find id rows ≡ some a
    → from a.status ≡ true
    → {x : Error} → set_status_from now id status from rows ≡ err x
    → x ≡ unique_violation
unfolding set_status_from update_status_from batch_update_status_from
set_status_from_error now id status from rows {a} key e f {x} =
    go (batch_set_status now (id ∷ []) (λ _. status) from rows >>= report) refl
  where
    go :
        (r : Result (List Agreement × Bool))
        → (batch_set_status now (id ∷ []) (λ _. status) from rows >>= report) ≡ r
        → (r >>= λ t. if t.1 then ok (t.0) else err no_records_updated) ≡ err x
        → x ≡ unique_violation
    go (ok (xs, true)) q h = absurd (cc h)
    go (ok (xs, false)) q h =
        let (m, s) = moved-Step now id (λ _. status) from rows key e q in cc (m, f)
    go (err y) q h = sym (ground arith) ∙ moved_error now id (λ _. status) from rows q

-- One UPDATE of the row that an id names.
pub update-Step :
    (id : ℕ) (p : Agreement → Bool) (f : Agreement → Agreement) (rows : List Agreement)
    {a : Agreement}
    → Asks id p
    → ((b : Agreement) → (f b).id ≡ b.id)
    → PrimaryKey rows
    → find id rows ≡ some a
    → Step id rows (written p f a) (update p f rows)
update-Step id p f rows asks keeps key e = record {
  row = find-update p f keeps id rows ∙ ap (option_map (written p f)) e;
  key = subst Distinct (sym (ids_of-update p f keeps rows)) key;
  others = λ k other. find-update_other id p f asks keeps rows k other;
}
