-- ===== src/Queue/Ids.antt =====
-- The ids of the rows and the guards of the job queue (dipper-pgmq/src/postgres.rs).
use mathlib.Core.Path.{subst}
use dipper.Prelude.{
  ℕ, ◌≡◌, refl, ap, Bool, true, false, not, ◌&&◌, List, [], ◌∷◌, map, arith, inl, inr, ◌==◌,
  if◌then◌else◌, any_eq, NotIn, Distinct, All, Bool-cases, update, delete, exists, ==_iff,
  NotIn-any_eq, any_eq-NotIn,
}
use dipper.Queue.Jobs.{Job}
use dipper.Queue.Store.{Guard, has_job_id, guarded, requeued_row, requeue, holds}

abbrev pub job_ids : List Job → List ℕ
job_ids rows = map (λ (j : Job). j.id) rows

abbrev pub drop_id : ℕ → List ℕ → List ℕ
drop_id id [] = []
drop_id id (x ∷ xs) = if x == id then drop_id id xs else x ∷ drop_id id xs

pub any_eq-drop_id :
    (i id : ℕ) (xs : List ℕ) → any_eq i (drop_id id xs) ≡ (not (i == id) && any_eq i xs)
any_eq-drop_id i id [] = ground arith
any_eq-drop_id i id (x ∷ xs) = elim (Bool-cases (x == id)) [
  | inl e ↦ rw (e, any_eq-drop_id i id xs) (ground arith)
  | inr e ↦ rw (e, any_eq-drop_id i id xs) (ground arith)
]

pub Distinct-drop_id : (id : ℕ) (xs : List ℕ) → Distinct xs → Distinct (drop_id id xs)
Distinct-drop_id id [] d = tt
Distinct-drop_id id (x ∷ xs) d = elim (Bool-cases (x == id)) [
  | inl e ↦ rw e (Distinct-drop_id id xs d.1)
  | inr e ↦
      let out : any_eq x (drop_id id xs) ≡ false =
        rw (any_eq-drop_id x id xs, any_eq-NotIn x xs d.0) (ground arith) in
      rw e (NotIn-any_eq x (drop_id id xs) out, Distinct-drop_id id xs d.1)
]

pub guarded-delete :
    (id : ℕ) (gs : List Guard) → guarded (delete (holds id) gs) ≡ drop_id id (guarded gs)
unfolding delete
guarded-delete id [] = refl
guarded-delete id (g ∷ gs) = elim (Bool-cases (g.job.id == id)) [
  | inl e ↦ rw e (guarded-delete id gs)
  | inr e ↦ rw e (ap (λ xs. g.job.id ∷ xs) (guarded-delete id gs))
]

pub job_ids-delete :
    (id : ℕ) (rows : List Job) → job_ids (delete (has_job_id id) rows) ≡ drop_id id (job_ids rows)
unfolding delete
job_ids-delete id [] = refl
job_ids-delete id (j ∷ rows) = elim (Bool-cases (j.id == id)) [
  | inl e ↦ rw e (job_ids-delete id rows)
  | inr e ↦ rw e (ap (λ xs. j.id ∷ xs) (job_ids-delete id rows))
]

pub job_ids-requeue :
    (now id at : ℕ) (count : Bool) (rows : List Job)
    → job_ids (requeue now id at count rows) ≡ job_ids rows
unfolding requeue update requeued_row
job_ids-requeue now id at count [] = refl
job_ids-requeue now id at count (j ∷ rows) = elim (Bool-cases (j.id == id)) [
  | inl e ↦ rw e (ap (λ xs. j.id ∷ xs) (job_ids-requeue now id at count rows))
  | inr e ↦ rw e (ap (λ xs. j.id ∷ xs) (job_ids-requeue now id at count rows))
]

pub exists-job_ids :
    (id : ℕ) (rows : List Job) → exists (has_job_id id) rows ≡ any_eq id (job_ids rows)
unfolding exists
exists-job_ids id [] = refl
exists-job_ids id (j ∷ rows) = ground (arith, exists-job_ids id rows)

-- Under the primary key, what one row with an id satisfies, every row with that id does.
module _ (i : ℕ) (p : Job → Bool) where
  NotIn-All :
      (rows : List Job)
      → NotIn i (job_ids rows)
      → (exists (λ r. r.id == i && p r) rows ≡ false)
        × All (λ r. (r.id == i && not (p r)) ≡ false) rows
  unfolding exists
  NotIn-All [] h = (refl, tt)
  NotIn-All (r ∷ rows) h =
      let other : (r.id == i) ≡ false = ground (arith, h.0) in
      let rest = NotIn-All rows h.1 in rw other (rest.0, (refl, rest.1))

  pub exists-All :
      (rows : List Job)
      → Distinct (job_ids rows)
      → exists (λ r. r.id == i && p r) rows ≡ true
      → All (λ r. (r.id == i && not (p r)) ≡ false) rows
  unfolding exists
  exists-All [] d e = tt
  exists-All (r ∷ rows) d e = elim (Bool-cases (r.id == i)) [
    | inl hit ↦
        let away = subst (λ x. NotIn x (job_ids rows)) ((==_iff r.id i).0 hit) d.0 in
        let rest = NotIn-All rows away in (ground (arith, rest.0, hit), rest.1)
    | inr miss ↦ rw miss (refl, exists-All rows d.1 (rw miss at e))
  ]
