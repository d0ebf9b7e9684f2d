-- ===== src/Worker/Warnings.antt =====
-- How the worker paces its re-subscriptions and its warnings about the notification connection
-- (bin/dipper-service/src/worker/service.rs). An `Instant` is a number of nanoseconds on the
-- monotonic clock, so a difference of a later and an earlier one does not stop at 0.
use Prim.Native.Nat.{◌*◌, ◌^◌, ◌-◌}
use dipper.Prelude.{
  ℕ, ◌+◌, Bool, true, false, not, ◌&&◌, Option, none, some, min, leb, if◌then◌else◌,
}
use dipper.Worker.Backoff.{second}

abbrev pub u32_max : ℕ
u32_max = 4294967295

-- `saturating_add(1)` of a `u32`.
abbrev pub saturating_inc : ℕ → ℕ
saturating_inc n = min (n + 1) u32_max

abbrev pub resubscribe_base_delay : ℕ
resubscribe_base_delay = 1 * second

abbrev pub resubscribe_max_delay : ℕ
resubscribe_max_delay = 30 * second

abbrev pub resubscribe_stable_period : ℕ
resubscribe_stable_period = resubscribe_max_delay

abbrev pub resubscribe_max_doublings : ℕ
resubscribe_max_doublings = 5

pub record ResubscribeBackoff : Type 0 where
  pub failures : ℕ
  pub next_attempt : Option ℕ
  pub subscribed_at : Option ℕ

-- `is_none_or` of a bound on `now`.
abbrev pub reached_by : Option ℕ → ℕ → Bool
reached_by none now = true
reached_by (some at) now = leb at now

abbrev pub is_due : ResubscribeBackoff → ℕ → Bool
is_due b now = reached_by b.next_attempt now

unfoldable pub delay : ℕ → ℕ
delay failures =
    min (resubscribe_base_delay * 2 ^ min (failures - 1) resubscribe_max_doublings)
      resubscribe_max_delay

-- `is_some_and` of an age.
abbrev pub held_for : ℕ → Option ℕ → ℕ → Bool
held_for period none now = false
held_for period (some at) now = leb period (now - at)

unfoldable pub record_failure : ℕ → ResubscribeBackoff → ResubscribeBackoff
unfolding delay
record_failure now b =
    let failures =
      saturating_inc
        (if held_for resubscribe_stable_period b.subscribed_at now then 0 else b.failures) in
    record { failures = failures; next_attempt = some (now + delay failures); subscribed_at = none }

unfoldable pub record_success : ℕ → ResubscribeBackoff → ResubscribeBackoff
record_success now b = record b { next_attempt = none; subscribed_at = some now }

unfoldable pub should_resubscribe : Bool → Bool → ResubscribeBackoff → ℕ → Bool
should_resubscribe listener_present listener_failed_this_tick backoff now =
    not listener_present && not listener_failed_this_tick && is_due backoff now

abbrev pub warn_cooldown : ℕ
warn_cooldown = 60 * second

pub record WarnPacer : Type 0 where
  pub last_warned : Option ℕ
  pub announced : Bool
  pub failures_since_warning : ℕ
  pub failures_since_success : ℕ

-- `is_none_or` of an age.
abbrev pub cooled : Option ℕ → ℕ → Bool
cooled none now = true
cooled (some last) now = leb warn_cooldown (now - last)

unfoldable pub warn_failure : ℕ → WarnPacer → WarnPacer × Option ℕ
warn_failure now p =
    let since = saturating_inc p.failures_since_warning in
    let counted = record p {
      failures_since_warning = since;
      failures_since_success = saturating_inc p.failures_since_success;
    } in
    if cooled p.last_warned now
    then (
      record counted { last_warned = some now; announced = true; failures_since_warning = 0 },
      some since,
    )
    else (counted, none)

unfoldable pub take_announced : WarnPacer → WarnPacer × Option ℕ
take_announced p = (
  record p { failures_since_success = 0; announced = false },
  if p.announced then some p.failures_since_success else none,
)
