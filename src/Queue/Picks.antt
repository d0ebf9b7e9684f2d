-- ===== src/Queue/Picks.antt =====
-- Which job a pop of dipper-pgmq/src/postgres.rs picks.
use mathlib.Core.Path.{subst}
use mathlib.Core.List.{Mem, mem-cons_self, mem-cons_of_mem}
use dipper.Prelude.{
  ℕ, ◌≡◌, refl, sym, ◌∙◌, Bool, true, false, ◌&&◌, List, [], ◌∷◌, Option, none, some, ltb, arith,
  inl, inr, ◌==◌, if◌then◌else◌, any_eq, All, Bool-cases, exists, ltb_ℤ,
}
use dipper.Queue.Jobs.{Job, leads, JobPriority, sweep, background, interactive, priority_to_i16}
use dipper.Queue.Store.{is_ready, leading, next_job}
use dipper.Queue.Ids.{job_ids}

abbrev pub rank : JobPriority → ℕ
rank sweep = 0
rank background = 1
rank interactive = 2

ltb-rank :
    (p q : JobPriority) → ltb_ℤ (priority_to_i16 p) (priority_to_i16 q) ≡ ltb (rank p) (rank q)
ltb-rank sweep sweep = refl
ltb-rank sweep background = refl
ltb-rank sweep interactive = refl
ltb-rank background sweep = refl
ltb-rank background background = refl
ltb-rank background interactive = refl
ltb-rank interactive sweep = refl
ltb-rank interactive background = refl
ltb-rank interactive interactive = refl

-- The order of `leads`, on numbers.
abbrev pub before : ℕ → ℕ → ℕ → ℕ → ℕ → ℕ → Bool
before p c i q d k =
    if ltb q p
    then true
    else if ltb p q
    then false
    else if ltb c d
    then true
    else if ltb d c
    then false
    else ltb i k

before_asym : (p c i q d k : ℕ) → before p c i q d k ≡ true → before q d k p c i ≡ false
before_asym p c i q d k h = ground arith

before_negtrans :
    (p c i q d k r e l : ℕ)
    → before p c i q d k ≡ false
    → before q d k r e l ≡ false
    → before p c i r e l ≡ false
before_negtrans p c i q d k r e l h g = ground arith

pub leads-before :
    (j k : Job)
    → leads j k ≡ before (rank j.priority) j.created_at j.id (rank k.priority) k.created_at k.id
leads-before j k = rw (ltb-rank k.priority j.priority, ltb-rank j.priority k.priority)

leads_asym : (j k : Job) → leads j k ≡ true → leads k j ≡ false
leads_asym j k h =
    leads-before k j
    ∙ before_asym (rank j.priority) j.created_at j.id (rank k.priority) k.created_at k.id
        (sym (leads-before j k) ∙ h)

leads_negtrans : (j k l : Job) → leads j k ≡ false → leads k l ≡ false → leads j l ≡ false
leads_negtrans j k l h g =
    leads-before j l
    ∙ before_negtrans (rank j.priority) j.created_at j.id (rank k.priority) k.created_at k.id
        (rank l.priority) l.created_at l.id (sym (leads-before j k) ∙ h)
        (sym (leads-before k l) ∙ g)

leads_irrefl : (j : Job) → leads j j ≡ false
leads_irrefl j = elim (Bool-cases (leads j j)) [ inl e ↦ leads_asym j j e | inr e ↦ e ]

-- `j` is ready, and no ready row comes before it.
pub record Leads (now : ℕ) (locked : List ℕ) (rows : List Job) (j : Job) : Type 0 where
  pub ready : is_ready now locked j ≡ true
  pub among : Mem j rows
  pub on_record : any_eq j.id (job_ids rows) ≡ true
  pub picked : exists (λ r. r.id == j.id && is_ready now locked r) rows ≡ true
  pub first : All (λ r. is_ready now locked r ≡ true → leads r j ≡ false) rows

module _ (now : ℕ) (locked : List ℕ) where
  after_other :
      (r k : Job) (rows : List Job)
      → leads k r ≡ false
      → All (λ x. is_ready now locked x ≡ true → leads x k ≡ false) rows
      → All (λ x. is_ready now locked x ≡ true → leads x r ≡ false) rows
  after_other r k [] h all = tt
  after_other r k (x ∷ rows) h all =
      ((λ y. leads_negtrans x k r (all.0 y) h), after_other r k rows h all.1)

  none_ready :
      (r : Job) (rows : List Job)
      → All (λ x. is_ready now locked x ≡ false) rows
      → All (λ x. is_ready now locked x ≡ true → leads x r ≡ false) rows
  none_ready r [] all = tt
  none_ready r (x ∷ rows) all = ((λ y. ground (arith, all.0)), none_ready r rows all.1)

  pub next_job-none :
      (rows : List Job)
      → next_job now locked rows ≡ none
      → All (λ x. is_ready now locked x ≡ false) rows
  unfolding next_job
  next_job-none [] e = tt
  next_job-none (r ∷ rows) e = elim (Bool-cases (is_ready now locked r)) [
    | inl y ↦ absurd (cc (rw y at e))
    | inr z ↦ (z, next_job-none rows (rw z at e))
  ]

  -- The job that a pop takes is ready, on record, and comes before every other ready one.
  pub next_job-Leads :
      (rows : List Job) (j : Job) → next_job now locked rows ≡ some j → Leads now locked rows j
  unfolding next_job exists
  next_job-Leads [] j e = cc
  next_job-Leads (r ∷ rows) j e = elim (Bool-cases (is_ready now locked r)) [
    | inl y ↦
        let chosen : leading r (next_job now locked rows) ≡ j = ground (arith, y) in
        go (λ k q. next_job-Leads rows k q) y (next_job now locked rows) refl chosen
    | inr z ↦
        let rest = next_job-Leads rows j (rw z at e) in
        record {
          ready = rest.ready;
          among = mem-cons_of_mem r rest.among;
          on_record = rw rest.on_record (ground arith);
          picked = rw rest.picked (ground arith);
          first = ((λ y. ground arith), rest.first);
        }
  ]
    where
      mine :
          is_ready now locked r ≡ true
          → All (λ x. is_ready now locked x ≡ true → leads x r ≡ false) rows
          → Leads now locked (r ∷ rows) r
      mine y rest = record {
        ready = y;
        among = mem-cons_self;
        on_record = ground arith;
        picked = ground (arith, y);
        first = ((λ _. leads_irrefl r), rest);
      }

      go :
          ((k : Job) → next_job now locked rows ≡ some k → Leads now locked rows k)
          → is_ready now locked r ≡ true
          → (o : Option Job) → next_job now locked rows ≡ o
          → leading r o ≡ j
          → Leads now locked (r ∷ rows) j
      go ih y none q c =
          subst (Leads now locked (r ∷ rows)) c (mine y (none_ready r rows (next_job-none rows q)))
      go ih y (some k) q c =
          let rest = ih k q in
          elim (Bool-cases (leads k r)) [
            | inl lead ↦ subst (Leads now locked (r ∷ rows)) (rw lead at c) (record {
              ready = rest.ready;
              among = mem-cons_of_mem r rest.among;
              on_record = rw rest.on_record (ground arith);
              picked = rw rest.picked (ground arith);
              first = ((λ _. leads_asym k r lead), rest.first);
            })
            | inr behind ↦
                subst (Leads now locked (r ∷ rows)) (rw behind at c)
                  (mine y (after_other r k rows behind rest.first))
          ]
