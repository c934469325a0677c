-- ===== src/Processing/StageJobs.antt =====
-- src/infrastructure/processing.py: `enqueue_stage_job`. The canonical encoding and the digest are
-- those of `json` and `hashlib`.
pub mod Known
use core_engine_ge_m.Base.{
  ℕ, String, Option, none, some, [], ◌∷◌, Map, Json, object, JsonFields, end, field, Outcome, ok,
  raised, string_eq,
}
use core_engine_ge_m.Jobs.Model.{Job, pending}
use core_engine_ge_m.Jobs.Queue
use core_engine_ge_m.Jobs.Queue.{Queue, QueueError}
use core_engine_ge_m.Jobs.Idempotency.{make_idempotency_key}
use core_engine_ge_m.Jobs.Durable.{JobRecord, DurableError, to_job_record}
use core_engine_ge_m.Pipeline.{stage_eq}
use core_engine_ge_m.Store.{Store}
use core_engine_ge_m.Store.Events.{save_job}
use core_engine_ge_m.Processing.Transactions.{Failed, from_body}
use core_engine_ge_m.Processing.{ProcessingError, from_job, from_queue, Body, transact}

-- `payload or {}` as the value that is encoded
abbrev pub object_fields : Map String Json → JsonFields
object_fields [] = end
object_fields ((key, v) ∷ payload) = field key v (object_fields payload)

module _ (dumps : Json → String) (sha256 : String → String)
    (submission_id stage bidder_id job_id : String) (payload : Map String Json)
    (correlation_id : Option String) (now : ℕ) where
  unfoldable pub stage_job : Job
  stage_job = record {
    job_id = job_id;
    job_type = stage;
    idempotency_key =
        some
          (make_idempotency_key dumps sha256 submission_id stage (object (object_fields payload)));
    submission_id = some submission_id;
    bidder_id = some bidder_id;
    stage = some stage;
    correlation_id = correlation_id;
    payload = payload;
    state = pending;
    attempt_count = 0;
    max_attempts = 3;
    leased_by = none;
    lease_expires_at = none;
    retry_at = none;
    last_error = none;
    last_error_kind = none;
    created_at = now;
    updated_at = now;
  }

  unfoldable pub save_stage_job : Outcome DurableError JobRecord → Body Unit
  save_stage_job (raised e) s = (s, raised (from_job e))
  save_stage_job (ok r) s = (save_job r s, ok tt)

  -- The job is saved in a transaction of its own, then enqueued, and returned whatever the queue
  -- returned.
  unfoldable pub answered :
      Store → Queue × Outcome QueueError Job → Store × Queue × Outcome (Failed ProcessingError) Job
  unfolding stage_job
  answered s (q, ok _) = (s, q, ok stage_job)
  answered s (q, raised e) = (s, q, raised (from_body (from_queue e)))

  unfoldable pub enqueued :
      Queue
      → Store × Outcome (Failed ProcessingError) (Unit {0})
      → Store × Queue × Outcome (Failed ProcessingError) Job
  unfolding answered stage_job
  enqueued q (s, raised e) = (s, q, raised e)
  enqueued q (s, ok _) = answered s (Queue.enqueue stage_job q)

  unfoldable pub enqueue_stage_job :
      Store → Queue → Store × Queue × Outcome (Failed ProcessingError) Job
  unfolding enqueued transact save_stage_job stage_job
  enqueue_stage_job s q = enqueued q (transact (save_stage_job (to_job_record stage_job)) s)
