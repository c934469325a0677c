-- ===== src/Processing/Advance.antt =====
-- src/infrastructure/processing.py: `advance_stage`, `fail_submission` and `resume`.
pub mod Moves
use core_engine_ge_m.Base.{
  ℕ, ◌+◌, String, Bool, true, false, Option, none, some, List, [], ◌∷◌, Map, map, Json, JsonItems,
  nil, cons, text, array, Outcome, ok, raised, if◌then◌else◌, contains, lookup, ◌==◌, string_eq,
}
use core_engine_ge_m.Jobs.Model.{Job, pending}
use core_engine_ge_m.Jobs.Queue
use core_engine_ge_m.Jobs.Queue.{Queue, QueueError}
use core_engine_ge_m.Jobs.Idempotency.{make_idempotency_key}
use core_engine_ge_m.Jobs.Durable.{JobRecord, DurableError, to_job_record}
use core_engine_ge_m.Pipeline.{
  ProcessingStage, ingested, normalized, verified, ai_analyzed, explanation_ready, complete, failed,
  linear_stages, stage_eq, stage_name, TransitionError, validate_transition,
}
use core_engine_ge_m.Store.{Store, StoreError}
use core_engine_ge_m.Store.Records.{
  BidderRecord, SubmissionRecord, DocumentRecord, AuditEventRecord, OutboxEventRecord,
}
use core_engine_ge_m.Store.Entities.{
  add_bidder, get_bidder, add_submission, get_submission, save_submission, add_document,
}
use core_engine_ge_m.Store.Events.{add_audit, add_outbox, save_job}
use core_engine_ge_m.Processing.Transactions.{Failed, within, new_uow, UnitOfWork}
use core_engine_ge_m.Processing.{
  ProcessingError, from_store, from_pipeline, from_job, from_queue, lookup_error, value_error, Body,
  and_then, call, transact, audit_event,
}

-- `_COMPLETABLE_STAGES`
abbrev pub completable_stages : List ProcessingStage
completable_stages =
    ingested ∷ normalized ∷ verified ∷ ai_analyzed ∷ explanation_ready ∷ complete ∷ []

-- `ProcessingStage(submission.stage)`
abbrev stage_in : List ProcessingStage → String → Option ProcessingStage
stage_in [] name = none
stage_in (s ∷ stages) name = if stage_name s == name then some s else stage_in stages name

unfoldable pub stage_of : String → Option ProcessingStage
stage_of name = stage_in (failed ∷ linear_stages) name

abbrev pub advanced : ProcessingStage → ℕ → SubmissionRecord → SubmissionRecord
advanced target now submission = record submission {
  stage = stage_name target;
  last_completed_stage =
      if contains target completable_stages
      then some (stage_name target)
      else submission.last_completed_stage;
  updated_at = now;
  last_error = none;
  last_error_kind = none;
}

module _ (submission_id : String) (target : ProcessingStage) (correlation_id : Option String)
    (event_id : String) (now : ℕ) where
  abbrev pub advanced_event : SubmissionRecord → AuditEventRecord
  unfolding audit_event
  advanced_event submission =
      audit_event event_id "SUBMISSION" submission_id "STAGE_ADVANCED"
        (("from", text submission.stage) ∷ ("to", text (stage_name target)) ∷ []) correlation_id now

  unfoldable pub save_advanced :
      SubmissionRecord → Outcome TransitionError ProcessingStage → Body SubmissionRecord
  save_advanced submission (raised e) s = (s, raised (from_pipeline e))
  save_advanced submission (ok _) s =
      and_then (call (save_submission (advanced target now submission) s)) (λ _ t.
        and_then (call (add_audit (advanced_event submission) t))
          (λ _ u. (u, ok (advanced target now submission))))

  unfoldable pub advance_from : SubmissionRecord → Option ProcessingStage → Body SubmissionRecord
  advance_from submission none s = (s, raised value_error)
  advance_from submission (some current) s =
      save_advanced submission (validate_transition current target) s

  unfoldable pub advance_found : Option SubmissionRecord → Body SubmissionRecord
  advance_found none s = (s, raised lookup_error)
  advance_found (some submission) s = advance_from submission (stage_of submission.stage) s

  unfoldable pub advance_stage : Store → Store × Outcome (Failed ProcessingError) SubmissionRecord
  advance_stage s = transact (λ t. advance_found (get_submission submission_id t) t) s

abbrev pub failed_submission : String → String → ℕ → SubmissionRecord → SubmissionRecord
failed_submission error error_kind now submission = record submission {
  stage = stage_name failed;
  attempt_count = submission.attempt_count + 1;
  last_error = some error;
  last_error_kind = some error_kind;
  updated_at = now;
}

module _ (submission_id error error_kind : String) (correlation_id : Option String)
    (event_id : String) (now : ℕ) where
  abbrev pub failed_event : AuditEventRecord
  unfolding audit_event
  failed_event =
      audit_event event_id "SUBMISSION" submission_id "STAGE_FAILED"
        (("error", text error) ∷ ("error_kind", text error_kind) ∷ []) correlation_id now

  unfoldable pub fail_found : Option SubmissionRecord → Body SubmissionRecord
  fail_found none s = (s, raised lookup_error)
  fail_found (some submission) s =
      and_then (call (save_submission (failed_submission error error_kind now submission) s))
        (λ _ t.
          and_then (call (add_audit failed_event t))
            (λ _ u. (u, ok (failed_submission error error_kind now submission))))

  unfoldable pub fail_submission : Store → Store × Outcome (Failed ProcessingError) SubmissionRecord
  fail_submission s = transact (λ t. fail_found (get_submission submission_id t) t) s

-- `resume`
unfoldable pub resumed : Option SubmissionRecord → Outcome ProcessingError SubmissionRecord
resumed none = raised lookup_error
resumed (some submission) = ok submission

unfoldable pub resume : String → Store → Outcome ProcessingError SubmissionRecord
unfolding resumed
resume submission_id s = resumed (get_submission submission_id s)
