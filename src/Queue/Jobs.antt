-- ===== src/Queue/Jobs.antt =====
-- A row of pgmq_queue with its statuses and priorities (dipper-pgmq/src/postgres.rs), the builder
-- of a job and the queue's settings (dipper-pgmq/src/queue.rs).
use dipper.Prelude.{
  ℕ, ◌+◌, Bool, true, false, Option, none, some, String, min, ℤ, pos, negsuc, ltb_ℤ, ltb, leb, ◌==◌,
  if◌then◌else◌,
}

-- `#[repr(i16)]`, and `From<i16>`.
pub data JobPriority : Type 0 where
  sweep background interactive : JobPriority

abbrev pub priority_to_i16 : JobPriority → ℤ
priority_to_i16 sweep = negsuc 0
priority_to_i16 background = pos 0
priority_to_i16 interactive = pos 1

abbrev pub priority_from_i16 : ℤ → JobPriority
priority_from_i16 (negsuc n) = sweep
priority_from_i16 (pos n) = if n == 0 then background else interactive

-- `#[repr(i32)]`, and `From<i32>`.
pub data JobStatus : Type 0 where
  queued running failed : JobStatus

abbrev pub job_status_to_i32 : JobStatus → ℤ
job_status_to_i32 queued = pos 0
job_status_to_i32 running = negsuc 0
job_status_to_i32 failed = pos 1

abbrev pub job_status_from_i32 : ℤ → JobStatus
job_status_from_i32 (negsuc n) = running
job_status_from_i32 (pos n) = if n == 0 then queued else failed

abbrev pub is_queued : JobStatus → Bool
is_queued queued = true
is_queued _ = false

-- The text of the descriptor stands as it is stored.
pub record Job : Type 0 where
  pub id : ℕ
  pub created_at : ℕ
  pub updated_at : ℕ
  pub scheduled_for : ℕ
  pub status : JobStatus
  pub max_attempts : ℕ
  pub attempt_count : ℕ
  pub priority : JobPriority
  pub descriptor : String

-- `ORDER BY priority DESC, created_at, id`.
abbrev pub leads : Job → Job → Bool
leads j k =
    if ltb_ℤ (priority_to_i16 k.priority) (priority_to_i16 j.priority)
    then true
    else if ltb_ℤ (priority_to_i16 j.priority) (priority_to_i16 k.priority)
    then false
    else if ltb j.created_at k.created_at
    then true
    else if ltb k.created_at j.created_at
    then false
    else ltb j.id k.id

abbrev pub default_max_attempts : ℕ
default_max_attempts = 3

-- `value.saturating_add(1).try_into().unwrap_or(i32::MAX)` of a `u32`.
abbrev pub attempts_of_retries : ℕ → ℕ
attempts_of_retries value =
    let attempts = min (value + 1) 4294967295 in
    if leb attempts 2147483647 then attempts else 2147483647

pub record JobBuilder : Type 0 where
  pub desc : String
  pub builder_max_attempts : Option ℕ
  pub schedule : Option ℕ
  pub builder_priority : JobPriority

abbrev pub new_job : String → JobBuilder
new_job desc = record {
  desc = desc;
  builder_max_attempts = none;
  schedule = none;
  builder_priority = background;
}

abbrev pub with_priority : JobPriority → JobBuilder → JobBuilder
with_priority p b = record b { builder_priority = p }

abbrev pub max_retries : ℕ → JobBuilder → JobBuilder
max_retries value b = record b { builder_max_attempts = some (attempts_of_retries value) }

abbrev pub schedule_at : ℕ → JobBuilder → JobBuilder
schedule_at at b = record b { schedule = some at }
