-- ===== src/Worker.antt =====
-- src/application/worker.py: `SubmissionWorker` over the queue in memory. What validating a job's
-- payload and the application service make of it is a parameter, which may answer differently each
-- time that it is asked.
pub mod Failures
pub mod Drains
mod Tests
use Prim.Native.String.{◌++◌}
use core_engine_ge_m.Base.{
  ℕ, zero, suc, String, Bool, true, false, Option, none, some, List, [], ◌∷◌, ◌==◌, string_eq,
  Outcome, ok, raised, if◌then◌else◌, pos, not,
}
use core_engine_ge_m.Jobs.Model.{JobState, retryable, failed, Job}
use core_engine_ge_m.Jobs.Queue.{Queue, QueueError, claim}
use core_engine_ge_m.Jobs.Lease.{Failure, ack, fail}
use core_engine_ge_m.Worker.Failures.{
  Exc, FailureKind, programming_error, kind_name, permanent_validation, RetryPolicy,
  FailureDecision, decide_failure,
}

-- What one round reads off the clock: when it claims, and twice when it finishes.
pub record Readings : Type 0 where
  pub claimed_at : ℕ
  pub checked_at : ℕ
  pub finished_at : ℕ

pub record JobResult : Type 0 where
  pub bidder_id : String
  pub snapshot_id : String

-- The dictionaries that `_process` returns.
pub data WorkOutcome : Type 0 where
  unsupported : (job_id error_kind : String) → WorkOutcome
  failed_job :
      (job_id : String) (state : JobState) (error error_kind : String) (can_be_retried : Bool)
      → WorkOutcome
  succeeded_job : (job_id bidder_id snapshot_id : String) → WorkOutcome

pub data WorkerError : Type 0 where
  from_queue : QueueError → WorkerError
  from_job : Exc → WorkerError

abbrev pub Round : Type 0 → Type 0
Round A = Queue × Outcome WorkerError A

-- `raise` for a bug, and otherwise the answer.
abbrev pub is_bug : FailureKind → Bool
is_bug programming_error = true
is_bug _ = false

abbrev pub state_after : Bool → JobState
state_after true = retryable
state_after false = failed

abbrev pub told : FailureDecision → Failure
told d = record {
  error = d.text;
  error_kind = kind_name d.kind;
  can_be_retried = d.can_be_retried;
  retry_delay_seconds = pos d.retry_delay;
}

abbrev pub unsupported_failure : (String → String) → Job → Failure
unsupported_failure repr job = record {
  error = "Unsupported job type " ++ repr job.job_type ++ ".";
  error_kind = kind_name permanent_validation;
  can_be_retried = false;
  retry_delay_seconds = pos 0;
}

-- An exception of the queue's method passes through, and otherwise the answer is this.
unfoldable pub finish :
    {A : Type 0} → Queue × Outcome QueueError Job → Outcome WorkerError A → Round A
finish (q, raised e) answer = (q, raised (from_queue e))
finish (q, ok _) answer = (q, answer)

unfoldable pub done : Round WorkOutcome → Round (Option WorkOutcome)
done (q, ok o) = (q, ok (some o))
done (q, raised e) = (q, raised e)

unfoldable pub prepend : WorkOutcome → Round (List WorkOutcome) → Round (List WorkOutcome)
prepend o (q, ok outcomes) = (q, ok (o ∷ outcomes))
prepend o (q, raised e) = (q, raised e)

unfoldable pub prepended :
    WorkOutcome → Option (Round (List WorkOutcome)) → Option (Round (List WorkOutcome))
unfolding prepend
prepended o none = none
prepended o (some r) = some (prepend o r)

unfoldable pub go_on :
    Round (Option WorkOutcome)
    → (Queue → Option (Round (List WorkOutcome)))
    → Option (Round (List WorkOutcome))
go_on (q, raised e) more = some (q, raised e)
go_on (q, ok none) more = some (q, ok [])
go_on (q, ok (some o)) more = prepended o (more q)

-- `repr` spells the type of a job in a message.
module _ (repr : String → String) (process : ℕ → Job → Outcome Exc JobResult) (clock : ℕ → Readings)
    (worker_id : String) (policy : RetryPolicy) (lease_seconds : ℕ) where
  unfoldable pub refuse : Readings → Job → Queue → Round WorkOutcome
  refuse at job q =
      finish
        (fail job.job_id worker_id (unsupported_failure repr job) at.checked_at at.finished_at q)
        (ok (unsupported job.job_id (kind_name permanent_validation)))

  unfoldable pub give_up :
      Readings → Job → Exc → Queue → Outcome Exc FailureDecision → Round WorkOutcome
  give_up at job exc q (raised e) = (q, raised (from_job e))
  give_up at job exc q (ok d) =
      finish (fail job.job_id worker_id (told d) at.checked_at at.finished_at q) (
        if is_bug d.kind
        then raised (from_job exc)
        else ok (
            failed_job job.job_id (state_after d.can_be_retried) d.text (kind_name d.kind)
              d.can_be_retried))

  unfoldable pub conclude : Readings → Job → Queue → Outcome Exc JobResult → Round WorkOutcome
  conclude at job q (raised exc) =
      give_up at job exc q (decide_failure policy exc job.attempt_count)
  conclude at job q (ok r) =
      finish (ack job.job_id worker_id at.checked_at at.finished_at q)
        (ok (succeeded_job job.job_id r.bidder_id r.snapshot_id))

  -- `_process`
  unfoldable pub process_job : ℕ → Job → Queue → Round WorkOutcome
  process_job n job q =
      if not (job.job_type == "COMPLIANCE_RUN")
      then refuse (clock n) job q
      else conclude (clock n) job q (process n job)

  unfoldable pub run_claimed :
      ℕ → Queue × Outcome QueueError (Option Job) → Round (Option WorkOutcome)
  run_claimed n (q, raised e) = (q, raised (from_queue e))
  run_claimed n (q, ok none) = (q, ok none)
  run_claimed n (q, ok (some job)) = done (process_job n job q)

  -- The round of this number.
  unfoldable pub run_once : ℕ → Queue → Round (Option WorkOutcome)
  run_once n q = run_claimed n (claim worker_id lease_seconds (clock n).claimed_at q)

  -- The loop of `run_until_empty`, at most `fuel` times from round `n`: `none` when that is too few.
  unfoldable pub run_until_empty : ℕ → ℕ → Queue → Option (Round (List WorkOutcome))
  run_until_empty zero n q = none
  run_until_empty (suc fuel) n q = go_on (run_once n q) (λ r. run_until_empty fuel (suc n) r)
