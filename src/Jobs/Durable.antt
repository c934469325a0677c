-- ===== src/Jobs/Durable.antt =====
-- src/infrastructure/jobs/durable.py, over the queue in memory and the job table that
-- `InMemoryJobRepository` of src/infrastructure/persistence/memory.py keeps.
mod Tests
pub mod Mirror
pub mod Calls
pub mod Recovery
pub mod Trace
use core_engine_ge_m.Base.{
  ℕ, suc, String, Bool, true, false, Option, none, some, List, [], ◌∷◌, Map, lookup, insert,
  string_eq, Json, Outcome, ok, raised, if◌then◌else◌, leb,
}
use core_engine_ge_m.Jobs.Model.{
  JobState, pending, running, retryable, succeeded, failed, cancelled, Job,
}
use core_engine_ge_m.Jobs.Queue.{Queue, QueueError}
use core_engine_ge_m.Jobs.Queue
use core_engine_ge_m.Jobs.Lease
use core_engine_ge_m.Jobs.Lease.{Failure}

-- `ProcessingJobRecord` of src/infrastructure/persistence/records.py.
pub record JobRecord : Type 0 where
  pub job_id : String
  pub idempotency_key : Option String
  pub submission_id : Option String
  pub bidder_id : Option String
  pub job_type : String
  pub stage : Option String
  pub correlation_id : Option String
  pub payload : Map String Json
  pub state : String
  pub attempt_count : ℕ
  pub max_attempts : ℕ
  pub leased_by : Option String
  pub lease_expires_at : Option ℕ
  pub retry_at : Option ℕ
  pub last_error : Option String
  pub last_error_kind : Option String
  pub created_at : ℕ
  pub updated_at : ℕ

-- `job.state.value`
abbrev pub state_value : JobState → String
state_value pending = "PENDING"
state_value running = "RUNNING"
state_value retryable = "RETRYABLE"
state_value succeeded = "SUCCEEDED"
state_value failed = "FAILED"
state_value cancelled = "CANCELLED"

abbrev pub record_of : Job → JobRecord
record_of job = record {
  job_id = job.job_id;
  idempotency_key = job.idempotency_key;
  submission_id = job.submission_id;
  bidder_id = job.bidder_id;
  job_type = job.job_type;
  stage = job.stage;
  correlation_id = job.correlation_id;
  payload = job.payload;
  state = state_value job.state;
  attempt_count = job.attempt_count;
  max_attempts = job.max_attempts;
  leased_by = job.leased_by;
  lease_expires_at = job.lease_expires_at;
  retry_at = job.retry_at;
  last_error = job.last_error;
  last_error_kind = job.last_error_kind;
  created_at = job.created_at;
  updated_at = job.updated_at;
}

-- A queue's exception, or the `ValidationError` of a record that allows less than one attempt.
pub data DurableError : Type 0 where
  from_queue : QueueError → DurableError
  validation_error : DurableError

-- `to_job_record`: the record's field has `ge=1`.
abbrev pub to_job_record : Job → Outcome DurableError JobRecord
to_job_record job = if leb 1 job.max_attempts then ok (record_of job) else raised validation_error

pub record JobTable : Type 0 where
  pub jobs : Map String JobRecord
  pub jobs_by_idem : Map String String

-- `InMemoryJobRepository.save`
abbrev pub index_key : Option String → String → Map String String → Map String String
index_key none id m = m
index_key (some key) id m = insert key id m

abbrev pub save : JobRecord → JobTable → JobTable
save r t = record {
  jobs = insert r.job_id r t.jobs;
  jobs_by_idem = index_key r.idempotency_key r.job_id t.jobs_by_idem;
}

pub record Durable : Type 0 where
  pub queue : Queue
  pub table : JobTable

abbrev pub Answer : Type 0 → Type 0
Answer A = Durable × Outcome DurableError A

saved : {A : Type 0} → Queue → JobTable → A → Outcome DurableError JobRecord → Answer A
saved q t a (ok r) = (record { queue = q; table = save r t }, ok a)
saved q t a (raised e) = (record { queue = q; table = t }, raised e)

-- `_mirror(result)`, and then `return result`.
mirror : Queue → JobTable → Job → Answer Job
unfolding saved
mirror q t job = saved q t job (to_job_record job)

-- The queue's answer is mirrored, and its exception passes through.
pub mirrored : JobTable → Queue × Outcome QueueError Job → Answer Job
unfolding mirror
mirrored t (q, ok job) = mirror q t job
mirrored t (q, raised e) = (record { queue = q; table = t }, raised (from_queue e))

pub enqueue : Job → Durable → Answer Job
unfolding mirrored
enqueue job d = mirrored d.table (Queue.enqueue job d.queue)

claim_mirrored : JobTable → Queue × Outcome QueueError (Option Job) → Answer (Option Job)
unfolding saved
claim_mirrored t (q, ok (some job)) = saved q t (some job) (to_job_record job)
claim_mirrored t (q, ok none) = (record { queue = q; table = t }, ok none)
claim_mirrored t (q, raised e) = (record { queue = q; table = t }, raised (from_queue e))

pub claim : String → ℕ → ℕ → Durable → Answer (Option Job)
unfolding claim_mirrored
claim worker lease_seconds now d =
    claim_mirrored d.table (Queue.claim worker lease_seconds now d.queue)

passed : {A : Type 0} → JobTable → Queue × Outcome QueueError A → Answer A
passed t (q, ok a) = (record { queue = q; table = t }, ok a)
passed t (q, raised e) = (record { queue = q; table = t }, raised (from_queue e))

-- The one change that is not mirrored.
pub renew_lease : String → String → ℕ → ℕ → Durable → Answer Bool
unfolding passed
renew_lease id worker lease_seconds now d =
    passed d.table (Lease.renew_lease id worker lease_seconds now d.queue)

pub ack : String → String → ℕ → ℕ → Durable → Answer Job
unfolding mirrored
ack id worker checked_at now d = mirrored d.table (Lease.ack id worker checked_at now d.queue)

pub fail : String → String → Failure → ℕ → ℕ → Durable → Answer Job
unfolding mirrored
fail id worker f checked_at now d = mirrored d.table (Lease.fail id worker f checked_at now d.queue)

pub cancel : String → ℕ → Durable → Answer Job
unfolding mirrored
cancel id now d = mirrored d.table (Lease.cancel id now d.queue)

-- The loop that mirrors the recovered jobs; an exception ends it.
mirror_all : Queue → List Job → JobTable → List Job → Answer (List Job)
mirror_all q recovered t [] = (record { queue = q; table = t }, ok recovered)
mirror_all q recovered t (job ∷ jobs) = elim (to_job_record job) [
  | ok r ↦ mirror_all q recovered (save r t) jobs
  | raised e ↦ (record { queue = q; table = t }, raised e)
]

pub recover_stale : ℕ → Durable → Answer (List Job)
unfolding mirror_all
recover_stale now d =
    let (q, recovered) = Lease.recover_stale now d.queue in mirror_all q recovered d.table recovered

pub get : String → Durable → Option Job
get id d = Lease.get id d.queue

pub find_by_idempotency_key : String → Durable → Answer (Option Job)
unfolding passed
find_by_idempotency_key key d = passed d.table (Lease.find_by_idempotency_key key d.queue)
