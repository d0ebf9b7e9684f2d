-- ===== src/Queue/Ready.antt =====
-- Which job is next in the job queue, written out apart from the statement of the pop
-- (dipper-pgmq/src/postgres.rs).
use mathlib.Core.List.{Mem}
use dipper.Prelude.{
  ℕ, ◌≤◌, ◌<◌, ◌≡◌, ◌≢◌, refl, sym, ◌∙◌, true, false, List, [], ◌∷◌, ltb, leb, arith, ◌⊎◌, inl, inr,
  any_eq, NotIn, NotIn-any_eq, All, Bool-cases,
}
use dipper.Queue.Jobs.{JobStatus, queued, running, failed, is_queued, Job, leads}
use dipper.Queue.Store.{PgQueue, guarded, is_ready}
use dipper.Queue.Picks.{rank, leads-before, Leads}

-- Queued, due, and held by no guard.
abbrev pub Ready : (now : ℕ) (locked : List ℕ) → Job → Type 0
Ready now locked j = (j.status ≡ queued) × (j.scheduled_for ≤ now) × NotIn j.id locked

abbrev pub Unready : (now : ℕ) (locked : List ℕ) → Job → Type 0
Unready now locked j = (j.status ≢ queued) ⊎ (now < j.scheduled_for) ⊎ (any_eq j.id locked ≡ true)

-- By priority, the highest first, then by creation, then by id.
abbrev pub NoLater : Job → Job → Type 0
NoLater j r =
    (rank r.priority < rank j.priority)
    ⊎ ((rank r.priority ≡ rank j.priority) × (j.created_at < r.created_at))
    ⊎ ((rank r.priority ≡ rank j.priority) × (j.created_at ≡ r.created_at) × (j.id ≤ r.id))

-- `j` is a row on record that is ready, and no later than each that is.
abbrev pub IsNext : ℕ → PgQueue → Job → Type 0
IsNext now q j =
    Mem j q.rows
    × Ready now (guarded q.guards) j
    × All (λ r. Unready now (guarded q.guards) r ⊎ NoLater j r) q.rows

queued_of : (s : JobStatus) → is_queued s ≡ true → s ≡ queued
queued_of queued h = refl
queued_of running h = cc h
queued_of failed h = cc h

not_queued : (s : JobStatus) → is_queued s ≡ false → s ≢ queued
not_queued queued h = λ e. absurd (cc h)
not_queued running h = λ e. cc e
not_queued failed h = λ e. cc e

pub is_ready-Ready :
    (now : ℕ) (locked : List ℕ) (j : Job) → is_ready now locked j ≡ true → Ready now locked j
is_ready-Ready now locked j h =
    let status : is_queued j.status ≡ true = ground (arith, h) in
    let free : any_eq j.id locked ≡ false = ground (arith, h) in
    (queued_of j.status status, ground (arith, h), NotIn-any_eq j.id locked free)

pub is_ready-Unready :
    (now : ℕ) (locked : List ℕ) (j : Job) → is_ready now locked j ≡ false → Unready now locked j
is_ready-Unready now locked j h = elim (Bool-cases (is_queued j.status)) [
  | inr n ↦ inl (not_queued j.status n)
  | inl y ↦ elim (Bool-cases (any_eq j.id locked)) [
    | inl held ↦ inr (inr held)
    | inr free ↦
        let late : leb j.scheduled_for now ≡ false = ground (arith, rw (y, free) at h) in
        inr (inl (ground arith))
  ]
]

before-NoLater : (j r : Job) → leads r j ≡ false → NoLater j r
before-NoLater j r h =
    let b = sym (leads-before r j) ∙ h in
    elim (Bool-cases (ltb (rank r.priority) (rank j.priority))) [
      | inl y ↦ inl (ground arith)
      | inr n ↦ elim (Bool-cases (ltb j.created_at r.created_at)) [
        | inl y ↦ inr (inl (ground arith, ground arith))
        | inr m ↦ inr (inr (ground arith, ground arith, ground arith))
      ]
    ]

pub All-Unready :
    (now : ℕ) (locked : List ℕ) (rows : List Job)
    → All (λ r. is_ready now locked r ≡ false) rows
    → All (Unready now locked) rows
All-Unready now locked [] h = tt
All-Unready now locked (r ∷ rows) (h, rest) =
    (is_ready-Unready now locked r h, All-Unready now locked rows rest)

no_later :
    (now : ℕ) (locked : List ℕ) (j : Job) (rows : List Job)
    → All (λ r. is_ready now locked r ≡ true → leads r j ≡ false) rows
    → All (λ r. Unready now locked r ⊎ NoLater j r) rows
no_later now locked j [] h = tt
no_later now locked j (r ∷ rows) (h, rest) = (
  elim (Bool-cases (is_ready now locked r)) [
    | inl y ↦ inr (before-NoLater j r (h y))
    | inr n ↦ inl (is_ready-Unready now locked r n)
  ],
  no_later now locked j rows rest,
)

pub Leads-IsNext :
    (now : ℕ) (q : PgQueue) (j : Job) → Leads now (guarded q.guards) q.rows j → IsNext now q j
Leads-IsNext now q j l = (
  l.among,
  is_ready-Ready now (guarded q.guards) j l.ready,
  no_later now (guarded q.guards) j q.rows l.first,
)
