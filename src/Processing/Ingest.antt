-- ===== src/Processing/Ingest.antt =====
-- src/infrastructure/processing.py: `register_bidder` and `ingest_submission`.
pub mod Success
pub mod Refusal
use core_engine_ge_m.Base.{
  ℕ, String, Option, none, some, List, [], ◌∷◌, Map, Json, JsonItems, nil, cons, text, array,
  Outcome, ok, string_eq,
}
use core_engine_ge_m.Pipeline.{ingested, stage_eq, stage_name}
use core_engine_ge_m.Store.{Store}
use core_engine_ge_m.Store.Records.{
  BidderRecord, SubmissionRecord, DocumentRecord, AuditEventRecord, OutboxEventRecord,
}
use core_engine_ge_m.Store.Entities.{add_bidder, get_bidder, add_submission, add_document}
use core_engine_ge_m.Store.Events.{add_audit, add_outbox}
use core_engine_ge_m.Processing.Transactions.{Failed}
use core_engine_ge_m.Processing.{ProcessingError, Body, and_then, call, transact, audit_event}

abbrev pub new_bidder : String → ℕ → BidderRecord
new_bidder bidder_id now = record { bidder_id = bidder_id; created_at = now; updated_at = now }

unfoldable pub register_body : String → String → ℕ → Option BidderRecord → Body BidderRecord
register_body bidder_id event_id now (some existing) s = (s, ok existing)
register_body bidder_id event_id now none s =
    and_then (call (add_bidder (new_bidder bidder_id now) s)) (λ added t.
      and_then
        (call (add_audit (audit_event event_id "BIDDER" bidder_id "BIDDER_CREATED" [] none now) t))
        (λ _ u. (u, ok added)))

unfoldable pub register_bidder :
    String → String → ℕ → Store → Store × Outcome (Failed ProcessingError) BidderRecord
register_bidder bidder_id event_id now s =
    transact (λ t. register_body bidder_id event_id now (get_bidder bidder_id t) t) s

-- `content` is in the answer of `_persist_document_binary`.
pub record IngestedDocument : Type 0 where
  pub document_id : String
  pub document_type : String
  pub metadata : Map String Json
  pub artifact_id : Option String
  pub content_hash : Option String

abbrev pub document_record : String → String → ℕ → IngestedDocument → DocumentRecord
document_record bidder_id submission_id now doc = record {
  document_id = doc.document_id;
  submission_id = some submission_id;
  bidder_id = bidder_id;
  document_type = doc.document_type;
  artifact_id = doc.artifact_id;
  content_hash = doc.content_hash;
  metadata = doc.metadata;
  created_at = now;
}

-- `if uow.repos.bidders.get(bidder_id) is None: ...`
unfoldable pub ensure_bidder : String → ℕ → Option BidderRecord → Body Unit
ensure_bidder bidder_id now (some existing) s = (s, ok tt)
ensure_bidder bidder_id now none s =
    and_then (call (add_bidder (new_bidder bidder_id now) s)) (λ added t. (t, ok tt))

-- The loop over the documents.
unfoldable pub add_documents : String → String → ℕ → List IngestedDocument → Body Unit
add_documents bidder_id submission_id now [] s = (s, ok tt)
add_documents bidder_id submission_id now (doc ∷ docs) s =
    and_then (call (add_document (document_record bidder_id submission_id now doc) s))
      (λ added t. add_documents bidder_id submission_id now docs t)

abbrev pub new_submission : String → String → Option String → ℕ → SubmissionRecord
new_submission bidder_id submission_id correlation_id now = record {
  submission_id = submission_id;
  bidder_id = bidder_id;
  stage = stage_name ingested;
  last_completed_stage = none;
  correlation_id = correlation_id;
  attempt_count = 0;
  last_error = none;
  last_error_kind = none;
  created_at = now;
  updated_at = now;
}

abbrev document_ids : List IngestedDocument → JsonItems
document_ids [] = nil
document_ids (d ∷ docs) = cons (text d.document_id) (document_ids docs)

abbrev pub ingested_event :
    String → String → String → List IngestedDocument → Option String → ℕ → AuditEventRecord
unfolding audit_event
ingested_event event_id bidder_id submission_id docs correlation_id now =
    audit_event event_id "SUBMISSION" submission_id "SUBMISSION_INGESTED"
      (("bidder_id", text bidder_id) ∷ ("document_ids", array (document_ids docs)) ∷ [])
      correlation_id now

abbrev pub ingested_outbox : String → String → ℕ → OutboxEventRecord
ingested_outbox event_id submission_id now = record {
  event_id = event_id;
  aggregate_type = "SUBMISSION";
  aggregate_id = submission_id;
  event_type = "SUBMISSION_INGESTED";
  payload = ("submission_id", text submission_id) ∷ [];
  created_at = now;
  published_at = none;
  attempts = 0;
}

module _ (bidder_id submission_id : String) (docs : List IngestedDocument)
    (correlation_id : Option String) (audit_id outbox_id : String) (now : ℕ) where
  unfoldable pub ingest_body : Body SubmissionRecord
  ingest_body s = and_then (ensure_bidder bidder_id now (get_bidder bidder_id s) s) (λ _ t.
      and_then (call (add_submission (new_submission bidder_id submission_id correlation_id now) t))
        (λ submission u. and_then (add_documents bidder_id submission_id now docs u) (λ _ v.
          and_then
            (call (
              add_audit (ingested_event audit_id bidder_id submission_id docs correlation_id now)
                v))
            (λ _ w.
              and_then (call (add_outbox (ingested_outbox outbox_id submission_id now) w))
                (λ _ x. (x, ok submission))))))

  unfoldable pub ingest_submission :
      Store → Store × Outcome (Failed ProcessingError) SubmissionRecord
  ingest_submission s = transact ingest_body s
