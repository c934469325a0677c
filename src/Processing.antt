-- ===== src/Processing.antt =====
-- src/infrastructure/processing.py and `audit_event` of src/infrastructure/audit.py: the coordinator
-- that moves a submission along. An operation takes what its call reads off the clock, the event
-- IDs that `uuid` makes up for it, and for a document what `_persist_document_binary` answers.
pub mod Transactions
pub mod Artifacts
pub mod Ingest
pub mod Advance
pub mod StageJobs
pub mod Atomic
pub mod Trace
mod Tests
use core_engine_ge_m.Base.{
  ℕ, ◌+◌, String, Bool, true, false, Option, none, some, List, [], ◌∷◌, Map, map, Json, JsonItems,
  nil, cons, text, array, Outcome, ok, raised, if◌then◌else◌, contains, lookup, string_eq,
}
use core_engine_ge_m.Jobs.Model.{Job, pending}
use core_engine_ge_m.Jobs.Queue
use core_engine_ge_m.Jobs.Queue.{Queue, QueueError}
use core_engine_ge_m.Jobs.Idempotency.{make_idempotency_key}
use core_engine_ge_m.Jobs.Durable.{JobRecord, DurableError, to_job_record}
use core_engine_ge_m.Pipeline.{
  ProcessingStage, ingested, normalized, verified, ai_analyzed, explanation_ready, complete, failed,
  linear_stages, stage_eq, stage_name, TransitionError, validate_transition,
}
use core_engine_ge_m.Store.{Store, StoreError}
use core_engine_ge_m.Store.Records.{
  BidderRecord, SubmissionRecord, DocumentRecord, AuditEventRecord, OutboxEventRecord,
}
use core_engine_ge_m.Store.Entities.{
  add_bidder, get_bidder, add_submission, get_submission, save_submission, add_document,
}
use core_engine_ge_m.Store.Events.{add_audit, add_outbox, save_job}
use core_engine_ge_m.Processing.Transactions.{Failed, within, new_uow, UnitOfWork}

pub data ProcessingError : Type 0 where
  from_store : StoreError → ProcessingError
  from_pipeline : TransitionError → ProcessingError
  from_job : DurableError → ProcessingError
  from_queue : QueueError → ProcessingError
  -- The submission is unknown; its stage is no value of `ProcessingStage`.
  lookup_error value_error : ProcessingError

abbrev pub Body : Type 0 → Type 0
Body A = Store → Store × Outcome ProcessingError A

-- One call of a repository after the other: an exception ends the body.
unfoldable pub and_then :
    {A B : Type 0}
    → Store × Outcome ProcessingError A
    → (A → Body B)
    → Store × Outcome ProcessingError B
and_then (s, ok a) f = f a s
and_then (s, raised e) f = (s, raised e)

unfoldable pub call :
    {A : Type 0} → Store × Outcome StoreError A → Store × Outcome ProcessingError A
call (s, ok a) = (s, ok a)
call (s, raised e) = (s, raised (from_store e))

-- `uow = self._uow_factory()` and `with uow: ...`
unfoldable pub transact : {A : Type 0} → Body A → Store → Store × Outcome (Failed ProcessingError) A
transact body s = let (u, answer) = within body (new_uow s) in (u.store, answer)

unfoldable pub audit_event :
    (event_id aggregate_type aggregate_id event_type : String) (payload : Map String Json)
    (correlation_id : Option String) (created_at : ℕ)
    → AuditEventRecord
audit_event event_id aggregate_type aggregate_id event_type payload correlation_id created_at =
    record {
      event_id = event_id;
      aggregate_type = aggregate_type;
      aggregate_id = aggregate_id;
      event_type = event_type;
      payload = payload;
      correlation_id = correlation_id;
      created_at = created_at;
    }
