-- ===== src/Worker/Backoff.antt =====
-- How long the worker waits between attempts (bin/dipper-service/src/worker/result.rs and
-- service.rs). A `Duration` is a number of nanoseconds, up to its largest value.
use mathlib.Core.Path.{subst}
use Prim.Native.Nat.{◌*◌, ◌^◌}
use dipper.Prelude.{
  ℕ, zero, suc, ◌+◌, ◌≤◌, ◌<◌, ◌≡◌, refl, sym, true, false, min, ltb, arith, ◌⊎◌, inl, inr,
  if◌then◌else◌, Bool-cases,
}

abbrev pub second : ℕ
second = 1000000000

-- `Duration::MAX`, 2 ^ 64 seconds less a nanosecond.
abbrev pub duration_max : ℕ
duration_max = 18446744073709551615999999999

unfoldable pub calculate_backoff_delay : ℕ → ℕ → ℕ
calculate_backoff_delay base_delay attempt =
    if ltb attempt 5 then min (base_delay * 2 ^ attempt) duration_max else 300 * second

abbrev pub max_retries_per_window : ℕ
max_retries_per_window = 64

-- `left` iterations of the loop are still to run.
unfoldable pub retries_from : ℕ → ℕ → ℕ → ℕ → ℕ → ℕ
unfolding calculate_backoff_delay
retries_from window base_delay zero retries elapsed = max_retries_per_window
retries_from window base_delay (suc left) retries elapsed =
    let next = min (elapsed + calculate_backoff_delay base_delay retries) duration_max in
    let rest = retries_from window base_delay left (suc retries) next in
    if ltb window next then retries else rest

unfoldable pub retries_within_window : ℕ → ℕ → ℕ
unfolding retries_from
retries_within_window window base_delay = retries_from window base_delay max_retries_per_window 0 0

-- The time that `n` retries take together.
unfoldable pub total_wait : ℕ → ℕ → ℕ
unfolding calculate_backoff_delay
total_wait base_delay zero = 0
total_wait base_delay (suc n) = total_wait base_delay n + calculate_backoff_delay base_delay n

abbrev pub Fits : ℕ → ℕ → ℕ → Type 0
unfolding total_wait
Fits window base_delay r =
    (r ≤ max_retries_per_window)
    × (total_wait base_delay r ≤ window)
    × ((r ≡ max_retries_per_window) ⊎ (window < total_wait base_delay (suc r)))

min_over : (w x m : ℕ) → ltb w (min x m) ≡ true → w < x
min_over w x m h = ground arith

min_fits : (w x m : ℕ) → w < m → ltb w (min x m) ≡ false → (min x m ≡ x) × (x ≤ w)
min_fits w x m f h = (ground arith, ground arith)

module _ (window base_delay : ℕ) (finite : window < duration_max) where
  retries_from-Fits :
      (left retries : ℕ)
      → retries + left ≡ max_retries_per_window
      → total_wait base_delay retries ≤ window
      → Fits window base_delay
          (retries_from window base_delay left retries (total_wait base_delay retries))
  unfolding retries_from total_wait
  retries_from-Fits zero retries h w =
      let last : retries ≡ max_retries_per_window = omega (arith, h) in
      subst (λ n. Fits window base_delay n) last (omega (arith, last), w, inl last)
  retries_from-Fits (suc left) retries h w =
      let wait = calculate_backoff_delay base_delay retries in
      let next = min (total_wait base_delay retries + wait) duration_max in
      elim (Bool-cases (ltb window next)) [
        | inl over ↦ rw over (
          omega (arith, h),
          w,
          inr (min_over window (total_wait base_delay retries + wait) duration_max over),
        )
        | inr fits ↦
            let (exact, fit) =
              min_fits window (total_wait base_delay retries + wait) duration_max finite fits in
            rw fits (
              subst
                (λ e. Fits window base_delay (retries_from window base_delay left (suc retries) e))
                (sym exact) (retries_from-Fits left (suc retries) (omega (arith, h)) fit))
      ]

-- The retries that a window is given are at most 64, their waits together fit in the window, and
-- one retry more would not, unless 64 is what stopped the count.
pub retries_within_window_lem :
    (window base_delay : ℕ)
    → window < duration_max
    → (retries_within_window window base_delay ≤ max_retries_per_window)
      × (total_wait base_delay (retries_within_window window base_delay) ≤ window)
      × ((retries_within_window window base_delay ≡ max_retries_per_window)
          ⊎ (window < total_wait base_delay (suc (retries_within_window window base_delay))))
unfolding retries_within_window total_wait
retries_within_window_lem window base_delay finite =
    retries_from-Fits window base_delay finite max_retries_per_window 0 refl (omega arith)
