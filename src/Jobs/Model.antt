-- ===== src/Jobs/Model.antt =====
-- src/infrastructure/jobs/models.py. Timestamps are counted in ticks: the code only compares them
-- and adds to them. `max_attempts` is only compared with `attempt_count`, which is not negative.
use core_engine_ge_m.Base.{ℕ, String, Bool, true, false, Option, Map, Json}

pub data JobState : Type 0 where
  pending running retryable succeeded failed cancelled : JobState

-- `state in TERMINAL_STATES`
abbrev pub is_terminal : JobState → Bool
is_terminal succeeded = true
is_terminal failed = true
is_terminal cancelled = true
is_terminal _ = false

-- `state is JobState.RUNNING`
abbrev pub is_running : JobState → Bool
is_running running = true
is_running _ = false

-- `state in (JobState.PENDING, JobState.RETRYABLE)`
abbrev pub is_waiting : JobState → Bool
is_waiting pending = true
is_waiting retryable = true
is_waiting _ = false

pub record Job : Type 0 where
  pub job_id : String
  pub job_type : String
  pub idempotency_key : Option String
  pub submission_id : Option String
  pub bidder_id : Option String
  pub stage : Option String
  pub correlation_id : Option String
  pub payload : Map String Json
  pub state : JobState
  pub attempt_count : ℕ
  pub max_attempts : ℕ
  pub leased_by : Option String
  pub lease_expires_at : Option ℕ
  pub retry_at : Option ℕ
  pub last_error : Option String
  pub last_error_kind : Option String
  pub created_at : ℕ
  pub updated_at : ℕ
