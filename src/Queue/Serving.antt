-- ===== src/Queue/Serving.antt =====
-- The order in which the job queue serves its jobs, and how a job spends its attempts
-- (dipper-pgmq/src/postgres.rs and queue.rs).
use dipper.Prelude.{
  ◌⊎◌, ℕ, ◌+◌, ◌<◌, ◌≡◌, refl, sym, ◌∙◌, ap, Bool, true, false, List, [], ◌∷◌, Option, none, some,
  String, ltb, leb, arith, suc, inl, inr, if◌then◌else◌, All, Bool-cases,
}
use dipper.Queue.Jobs.{queued, running, failed, Job}
use dipper.Queue.Store.{
  Guard, PgQueue, guarded, next_job, Popped, empty, undecodable, popped, pop, requeued_row,
}
use dipper.Queue.Picks.{next_job-Leads, next_job-none}
use dipper.Queue.Ready.{Unready, IsNext, All-Unready, Leads-IsNext}

-- What a pop of the next job answers and leaves: the guard shows that very row, set running.
abbrev pub guard_of : ℕ → Job → Guard
guard_of now j = record { job = record j { status = running; updated_at = now } }

abbrev pub taken : ℕ → PgQueue → Job → PgQueue × Popped
taken now q j = (record q { guards = guard_of now j ∷ q.guards }, popped (guard_of now j))

-- The three ends of a pop: nothing is ready, the next job does not decode, or it is taken.
abbrev pub Ends : (String → Bool) → ℕ → PgQueue → PgQueue × Popped → Type 0
Ends decodes now q r =
    (All (Unready now (guarded q.guards)) q.rows × (r ≡ (q, empty)))
    ⊎ ((j : Job) × IsNext now q j × (decodes j.descriptor ≡ false) × (r ≡ (q, undecodable)))
    ⊎ ((j : Job) × IsNext now q j × (r ≡ taken now q j))

pub pop-Ends :
    (decodes : String → Bool) (now : ℕ) (q : PgQueue) → Ends decodes now q (pop decodes now q)
unfolding pop
pop-Ends decodes now q = go (next_job now (guarded q.guards) q.rows) refl
  where
    go :
        (o : Option Job)
        → next_job now (guarded q.guards) q.rows ≡ o
        → Ends decodes now q (elim o as (λ _. PgQueue × Popped) [
          | none ↦ (q, empty)
          | some j ↦ if decodes j.descriptor then taken now q j else (q, undecodable)
        ])
    go none e = inl (
      All-Unready now (guarded q.guards) q.rows (next_job-none now (guarded q.guards) q.rows e),
      refl,
    )
    go (some j) e =
        let next = Leads-IsNext now q j (next_job-Leads now (guarded q.guards) q.rows j e) in
        elim (Bool-cases (decodes j.descriptor)) [
          | inl y ↦ rw y (inr (inr (j, next, refl)))
          | inr n ↦ inr (inl (j, next, n, rw n refl))
        ]

-- A pop that returns a guard took one of the rows on record, queued, due and held by no other
-- guard; no other such row has a higher priority, or the same one and an earlier place by creation
-- and id; the guard shows that very row set running, with its attempts and the rest as they were,
-- and the committed rows stand.
pub pop-first :
    (decodes : String → Bool) (now : ℕ) (q q' : PgQueue) (g : Guard)
    → pop decodes now q ≡ (q', popped g)
    → (j : Job) × IsNext now q j
      × (g.job ≡ record j { status = running; updated_at = now })
      × (q' ≡ record q { guards = g ∷ q.guards })
pop-first decodes now q q' g h = go (pop-Ends decodes now q)
  where
    go :
        Ends decodes now q (pop decodes now q)
        → (j : Job) × IsNext now q j
          × (g.job ≡ record j { status = running; updated_at = now })
          × (q' ≡ record q { guards = g ∷ q.guards })
    go (inl (idle, e)) = absurd (cc (ap (λ t. t.1) (sym e ∙ h)))
    go (inr (inl (j, next, n, e))) = absurd (cc (ap (λ t. t.1) (sym e ∙ h)))
    go (inr (inr (j, next, e))) =
        let eq : taken now q j ≡ (q', popped g) = sym e ∙ h in
        let same : guard_of now j ≡ g = cc (ap (λ t. t.1) eq) in
        (
          j,
          next,
          sym (ap (λ (x : Guard). x.job) same),
          sym (ap (λ t. t.0) eq) ∙ ap (λ x. record q { guards = x ∷ q.guards }) same,
        )

-- What a guard reports of an execution: a failure or a deferral, each with the time of the
-- transaction and the one to run again at.
pub data Attempt : Type 0 where
  failure deferral : ℕ → ℕ → Attempt

abbrev pub after_attempts : List Attempt → Job → Job
after_attempts [] j = j
after_attempts (failure now at ∷ rest) j = after_attempts rest (requeued_row now at true j)
after_attempts (deferral now at ∷ rest) j = after_attempts rest (requeued_row now at false j)

abbrev pub failures : List Attempt → ℕ
failures [] = 0
failures (failure now at ∷ rest) = suc (failures rest)
failures (deferral now at ∷ rest) = failures rest

-- A queued job that is attempted with fewer failures than its limit leaves, and any number of
-- deferrals, is queued again with only the failures counted.
pub after_attempts-queued :
    (history : List Attempt) (j : Job)
    → j.status ≡ queued
    → j.attempt_count + failures history < j.max_attempts
    → ((after_attempts history j).status ≡ queued)
      × ((after_attempts history j).attempt_count ≡ j.attempt_count + failures history)
unfolding requeued_row
after_attempts-queued [] j e h = (e, omega arith)
after_attempts-queued (failure now at ∷ rest) j e h =
    let more : ltb (j.attempt_count + 1) j.max_attempts ≡ true = ground (arith, h) in
    let under : leb j.max_attempts (j.attempt_count + 1) ≡ false = ground (arith, h) in
    let next = requeued_row now at true j in
    let again : next.status ≡ queued = rw under in
    let (s, c) = after_attempts-queued rest next again (omega (arith, h)) in (s, omega (arith, c))
after_attempts-queued (deferral now at ∷ rest) j e h =
    let (s, c) = after_attempts-queued rest (requeued_row now at false j) refl (omega (arith, h)) in
    (s, omega (arith, c))

after_attempts-max_attempts :
    (history : List Attempt) (j : Job) → (after_attempts history j).max_attempts ≡ j.max_attempts
unfolding requeued_row
after_attempts-max_attempts [] j = refl
after_attempts-max_attempts (failure now at ∷ rest) j =
    after_attempts-max_attempts rest (requeued_row now at true j)
after_attempts-max_attempts (deferral now at ∷ rest) j =
    after_attempts-max_attempts rest (requeued_row now at false j)

-- The failure that reaches the limit of a job, after any history that leaves it one attempt, sets
-- it failed for good and does not move the time it was scheduled for.
pub last_failure :
    (history : List Attempt) (j : Job) (now at : ℕ)
    → j.status ≡ queued
    → suc (j.attempt_count + failures history) ≡ j.max_attempts
    → let last = requeued_row now at true (after_attempts history j) in
      (last.status ≡ failed)
      × (last.attempt_count ≡ j.max_attempts)
      × (last.scheduled_for ≡ (after_attempts history j).scheduled_for)
unfolding requeued_row
last_failure history j now at e h =
    let count = (after_attempts-queued history j e (omega (arith, h))).1 in
    let limit = after_attempts-max_attempts history j in
    (ground (arith, count, limit, h), omega (arith, count, h), ground (arith, count, limit, h))
