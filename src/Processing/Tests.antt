-- ===== src/Processing/Tests.antt =====
-- The coordinator at concrete stores.
use core_engine_ge_m.Base.{
  ◌≡◌, refl, Json, String, true, false, none, some, [], ◌∷◌, lookup, insert, string_eq, ok, raised,
  arith,
}
use core_engine_ge_m.Pipeline.{
  ingested, normalized, complete, failed, stage_eq, validate_transition, invalid_state_transition,
}
use core_engine_ge_m.Store.{Store, empty_store, missing_reference, duplicate_record}
use core_engine_ge_m.Store.Records.{SubmissionRecord}
use core_engine_ge_m.Store.Entities.{
  add_bidder, get_bidder, add_submission, add_document, get_submission,
}
use core_engine_ge_m.Store.Events.{add_audit, add_outbox, save_job}
use core_engine_ge_m.Store.Linked.{empty-IsLinked}
use core_engine_ge_m.Processing.{from_store, and_then, call, transact, audit_event}
use core_engine_ge_m.Processing.Transactions.{
  from_body, already_active, within, entered, begin, commit, rollback, exit, new_uow, within_lem,
}
use core_engine_ge_m.Processing.Ingest.{
  IngestedDocument, new_submission, register_body, register_bidder, ensure_bidder, add_documents,
  ingest_body, ingest_submission,
}
use core_engine_ge_m.Processing.Ingest.Success.{ingested_store, ingest_succeeds}
use core_engine_ge_m.Jobs.Tests.{queued, first_job}
use core_engine_ge_m.Jobs.Durable.{record_of}
use core_engine_ge_m.Jobs.Idempotency.{make_idempotency_key}
use core_engine_ge_m.Processing.StageJobs.{stage_job, enqueue_stage_job}
use core_engine_ge_m.Processing.StageJobs.Known.{enqueue_stage_job_known}
use core_engine_ge_m.Processing.Ingest.Refusal.{ingest_refuses}
use core_engine_ge_m.Processing.Advance.{fail_submission, failed_submission, failed_event}
use core_engine_ge_m.Processing.Advance.Moves.{
  rewritten, AdvancesAs, advance_stage_lem, fail_submission_lem,
}
use core_engine_ge_m.Processing.Artifacts.{Bytes, Artifacts, make_artifact_id, put, get_blob}
use core_engine_ge_m.Processing.Artifacts.Contents.{IsAddressed, put_get}
use core_engine_ge_m.Processing.Trace.{IsStaged, ingests, Reach, here, next, Reach-IsStaged}

code : Unit {0}
unfolding lookup insert add_bidder add_submission add_document add_audit add_outbox get_bidder
    get_submission and_then call transact audit_event within entered begin commit rollback exit
    register_body register_bidder ensure_bidder add_documents ingest_body ingest_submission
code = tt

abbrev document : String → IngestedDocument
document id = record {
  document_id = id;
  document_type = "GST";
  metadata = [];
  artifact_id = none;
  content_hash = none;
}

abbrev one_ingested : Store
one_ingested =
    (ingest_submission "B1" "S1" (document "D1" ∷ []) none "evt:1" "evt:2" 5 empty_store).0

abbrev stored : SubmissionRecord
stored = new_submission "B1" "S1" none 5

-- The second document has the ID of the first, and nothing of the call is kept.
ingest_twice :
    ingest_submission "B1" "S1"
      (document "D1" ∷ document "D1" ∷ [])
      none
      "evt:1"
      "evt:2"
      5
      empty_store
    ≡ (empty_store, raised (from_body (from_store duplicate_record)))
unfolding code
ingest_twice = refl

within_lem_example :
    (within
        (λ s. add_submission stored s)
        (record { store = empty_store; snapshot = none; active = false })
      ≡ (new_uow empty_store, raised (from_body missing_reference)))
    × (within
          (λ s. add_submission stored s)
          (record { store = empty_store; snapshot = none; active = true })
        ≡ (record { store = empty_store; snapshot = none; active = true }, raised already_active))
unfolding code
within_lem_example = within_lem (λ s. add_submission stored s) empty_store none

-- The second document takes the ID of the first.
ingest_refuses_example :
    ingest_submission "B1" "S1"
      (document "D1" ∷ document "D1" ∷ [])
      none
      "evt:1"
      "evt:2"
      5
      empty_store
    ≡ (empty_store, raised (from_body (from_store duplicate_record)))
unfolding code
ingest_refuses_example =
    ingest_refuses "B1" "S1" (document "D1" ∷ document "D1" ∷ []) none "evt:1" "evt:2" 5 empty_store
      refl

empty-IsStaged : IsStaged empty_store
unfolding lookup
empty-IsStaged = record { linked = empty-IsLinked; staged = λ k r found. absurd (ground arith) }

path_to_one : Reach empty_store one_ingested
path_to_one = next here (ingests "B1" "S1" (document "D1" ∷ []) none "evt:1" "evt:2" 5)

one_ingested-IsStaged : IsStaged one_ingested
one_ingested-IsStaged =
    Reach-IsStaged {s = empty_store} {t = one_ingested} empty-IsStaged path_to_one

Reach-IsStaged_example : IsStaged one_ingested
Reach-IsStaged_example =
    Reach-IsStaged {s = empty_store} {t = one_ingested} empty-IsStaged path_to_one

advance_stage_lem_example : AdvancesAs "S1" normalized none "evt:3" 9 one_ingested stored ingested
unfolding code
advance_stage_lem_example =
    advance_stage_lem "S1" normalized none "evt:3" 9 one_ingested stored ingested
      one_ingested-IsStaged.linked refl refl refl

fail_submission_lem_example :
    (fail_submission "S1" "boom" "PROGRAMMING_ERROR" none "evt:3" 9 one_ingested ≡ (
      rewritten
          (failed_submission "boom" "PROGRAMMING_ERROR" 9 stored)
          (failed_event "S1" "boom" "PROGRAMMING_ERROR" none "evt:3" 9)
          one_ingested,
      ok (failed_submission "boom" "PROGRAMMING_ERROR" 9 stored),
    ))
    × (validate_transition complete failed ≡ raised invalid_state_transition)
unfolding code
fail_submission_lem_example =
    fail_submission_lem "S1" "boom" "PROGRAMMING_ERROR" none "evt:3" 9 one_ingested stored
      one_ingested-IsStaged.linked refl refl

-- A digest that is one text for every content: the theorem asks nothing of it.
abbrev same_digest : Bytes → String
same_digest content = "00"

abbrev no_artifacts : Artifacts
no_artifacts = record { blobs = []; records = [] }

no_artifacts-IsAddressed : IsAddressed same_digest no_artifacts
unfolding lookup
no_artifacts-IsAddressed = record { matches = λ id. tt }

put_get_example :
    IsAddressed same_digest (put same_digest (1 ∷ 2 ∷ []) none [] 5 no_artifacts).0
    × ((put same_digest (1 ∷ 2 ∷ []) none [] 5 no_artifacts).1.artifact_id
        ≡ make_artifact_id same_digest (1 ∷ 2 ∷ []))
    × ((stored : Bytes) × (get_blob
            (put same_digest (1 ∷ 2 ∷ []) none [] 5 no_artifacts).1.artifact_id
            (put same_digest (1 ∷ 2 ∷ []) none [] 5 no_artifacts).0
          ≡ some stored)
        × (make_artifact_id same_digest stored ≡ make_artifact_id same_digest (1 ∷ 2 ∷ [])))
put_get_example = put_get same_digest (1 ∷ 2 ∷ []) none [] 5 no_artifacts no_artifacts-IsAddressed

ingest_succeeds_example :
    ingest_submission "B1" "S1"
      (document "D1" ∷ document "D2" ∷ [])
      none
      "evt:1"
      "evt:2"
      5
      empty_store
    ≡ (
      ingested_store "B1" "S1"
          (document "D1" ∷ document "D2" ∷ [])
          none
          "evt:1"
          "evt:2"
          5
          empty_store,
      ok stored,
    )
unfolding code
ingest_succeeds_example =
    ingest_succeeds "B1" "S1" (document "D1" ∷ document "D2" ∷ []) none "evt:1" "evt:2" 5
      empty_store refl (refl, (refl, tt)) refl refl

-- The queue has a job for the key, and the new job is saved and returned without being queued.
abbrev no_text : Json → String
no_text j = ""

abbrev digest_one : String → String
digest_one content = "1"

enqueue_stage_job_known_example :
    enqueue_stage_job no_text digest_one "S1" "AI_ANALYSIS" "B1" "job-9" [] none 20 empty_store
      queued
    ≡ (
      save_job
          (record_of (stage_job no_text digest_one "S1" "AI_ANALYSIS" "B1" "job-9" [] none 20))
          empty_store,
      queued,
      ok (stage_job no_text digest_one "S1" "AI_ANALYSIS" "B1" "job-9" [] none 20),
    )
unfolding lookup make_idempotency_key
enqueue_stage_job_known_example =
    enqueue_stage_job_known no_text digest_one "S1" "AI_ANALYSIS" "B1" "job-9" [] none 20
      empty_store queued "job-1" first_job refl refl refl
