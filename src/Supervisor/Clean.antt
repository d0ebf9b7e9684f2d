-- ===== src/Supervisor/Clean.antt =====
-- When the supervisor's exit is clean (bin/dipper-service/src/supervisor.rs).
use dipper.Prelude.{
  ℕ, suc, ◌+◌, ◌≡◌, refl, sym, ◌∙◌, ap, true, false, List, [], ◌∷◌, Option, none, some, arith, inl,
  inr, ◌==◌, Bool-cases, length, take, All,
}
use mathlib.Core.Logic.{◌↔◌}
use dipper.Supervisor.Drain.{
  TaskEnd, completed, failed, panicked, Wake, finished, requested, Cause, task_failed,
  task_panicked, task_exited, clean, exit_of, supervise,
}
use dipper.Supervisor.Teardown.{
  ends_until, failure_among, first_failure, verdict, teardown, outcome, supervise-outcome,
}

failure_among-none :
    (ends : List (ℕ × TaskEnd)) → failure_among ends ≡ none → All (λ e. e.1 ≡ completed) ends
unfolding failure_among
failure_among-none [] h = tt
failure_among-none ((id, completed) ∷ ends) h = (refl, failure_among-none ends h)
failure_among-none ((id, failed) ∷ ends) h = cc h
failure_among-none ((id, panicked) ∷ ends) h = cc h

first_failure-none :
    (first : Option Cause) (ends : List (ℕ × TaskEnd))
    → first_failure first ends ≡ none
    → (first ≡ none) × All (λ e. e.1 ≡ completed) ends
unfolding first_failure
first_failure-none none ends h = (refl, failure_among-none ends h)
first_failure-none (some cause) ends h = absurd (cc h)

exit_of_clean : (first : Option Cause) → exit_of first ≡ clean → first ≡ none
exit_of_clean none h = refl
exit_of_clean (some cause) h = ground arith

verdict_clean :
    (tasks : ℕ) (first : Option Cause) (ends : List (ℕ × TaskEnd))
    → verdict tasks first ends ≡ clean
    → (first ≡ none) × (length ends ≡ tasks) × All (λ e. e.1 ≡ completed) ends
unfolding verdict
verdict_clean tasks first ends h = elim (Bool-cases (length ends == tasks)) [
  | inl all ↦
      let (start, quiet) =
        first_failure-none first ends
          (exit_of_clean (first_failure first ends) (ground (arith, h, all))) in
      (start, ground (arith, all), quiet)
  | inr some_run ↦ ground (arith, h, some_run)
]

-- A teardown that each task took part in, and without a failure.
abbrev pub Quiet : ℕ → List (ℕ × TaskEnd) → Type 0
Quiet tasks ends = (length ends ≡ tasks) × All (λ e. e.1 ≡ completed) ends

-- The first event asks for shutdown, and each of the tasks then ends well in time.
abbrev pub OrderlyStop : ℕ → ℕ → List (ℕ × Wake) → Type 0
OrderlyStop grace tasks [] = ⊥
OrderlyStop grace tasks ((at, requested) ∷ events) =
    Quiet tasks (take tasks (ends_until (at + grace) events))
OrderlyStop grace tasks ((at, finished id end) ∷ events) = ⊥

first_failure-quiet :
    (ends : List (ℕ × TaskEnd)) → All (λ e. e.1 ≡ completed) ends → first_failure none ends ≡ none
unfolding first_failure failure_among
first_failure-quiet [] quiet = refl
first_failure-quiet ((id, completed) ∷ ends) quiet = first_failure-quiet ends quiet.1
first_failure-quiet ((id, failed) ∷ ends) quiet = ground (arith, quiet.0)
first_failure-quiet ((id, panicked) ∷ ends) quiet = ground (arith, quiet.0)

verdict-Quiet :
    (tasks : ℕ) (ends : List (ℕ × TaskEnd)) → Quiet tasks ends → verdict tasks none ends ≡ clean
unfolding verdict
verdict-Quiet tasks ends (all, quiet) =
    let full : (length ends == tasks) ≡ true = ground (arith, all) in
    rw (full, first_failure-quiet ends quiet) refl

-- A teardown that begins with a failure is not clean.
teardown-dirty :
    (until left : ℕ) (cause : Cause) (rest : List (ℕ × Wake))
    → some (teardown until left (some cause) rest) ≡ some clean
    → ⊥
unfolding teardown
teardown-dirty until left cause rest e =
    let some_none =
      (verdict_clean left (some cause) (take left (ends_until until rest)) (ground (arith, e))).0 in
    ground arith

outcome_clean :
    (grace tasks : ℕ) (events : List (ℕ × Wake))
    → outcome grace events (suc tasks) ≡ some clean
    → OrderlyStop grace (suc tasks) events
unfolding outcome teardown
outcome_clean grace tasks [] e = ground arith
outcome_clean grace tasks ((at, requested) ∷ rest) e =
    let (start, all, quiet) =
      verdict_clean (suc tasks) none (take (suc tasks) (ends_until (at + grace) rest))
        (ground (arith, e)) in
    (all, quiet)
outcome_clean grace tasks ((at, finished id completed) ∷ rest) e =
    teardown-dirty (at + grace) tasks (task_exited id) rest e
outcome_clean grace tasks ((at, finished id failed) ∷ rest) e =
    teardown-dirty (at + grace) tasks (task_failed id) rest e
outcome_clean grace tasks ((at, finished id panicked) ∷ rest) e =
    teardown-dirty (at + grace) tasks (task_panicked id) rest e

clean_outcome :
    (grace tasks : ℕ) (events : List (ℕ × Wake))
    → OrderlyStop grace (suc tasks) events
    → outcome grace events (suc tasks) ≡ some clean
unfolding outcome teardown
clean_outcome grace tasks [] stop = elim stop [ ]
clean_outcome grace tasks ((at, requested) ∷ rest) stop =
    ap some (verdict-Quiet (suc tasks) (take (suc tasks) (ends_until (at + grace) rest)) stop)
clean_outcome grace tasks ((at, finished id end) ∷ rest) stop = elim stop [ ]

-- With a task in the tree and no shutdown requested yet, the exit is clean if and only if the
-- request comes before any task ends and then every task ends by the deadline without an error or
-- a panic.
pub supervise_clean :
    (grace now : ℕ) (events : List (ℕ × Wake)) (tasks : ℕ)
    → (supervise grace now events (suc tasks) false ≡ some clean)
      ↔ OrderlyStop grace (suc tasks) events
supervise_clean grace now events tasks =
    let same = supervise-outcome grace now events (suc tasks) in
    (
      (λ h. outcome_clean grace tasks events (sym same ∙ h)),
      λ stop. same ∙ clean_outcome grace tasks events stop,
    )
