-- ===== src/Store/Records.antt =====
-- src/infrastructure/persistence/records.py: the rows of the durable tables. The record of a job
-- stands in Jobs/Durable.antt.
use core_engine_ge_m.Base.{ℕ, String, Bool, Option, List, Map, Json, Float}

pub record BidderRecord : Type 0 where
  pub bidder_id : String
  pub created_at : ℕ
  pub updated_at : ℕ

pub record SubmissionRecord : Type 0 where
  pub submission_id : String
  pub bidder_id : String
  pub stage : String
  pub last_completed_stage : Option String
  pub correlation_id : Option String
  pub attempt_count : ℕ
  pub last_error : Option String
  pub last_error_kind : Option String
  pub created_at : ℕ
  pub updated_at : ℕ

pub record DocumentRecord : Type 0 where
  pub document_id : String
  pub submission_id : Option String
  pub bidder_id : String
  pub document_type : String
  pub artifact_id : Option String
  pub content_hash : Option String
  pub metadata : Map String Json
  pub created_at : ℕ

pub record EvidenceRecord : Type 0 where
  pub evidence_id : String
  pub bidder_id : String
  pub document_id : String
  pub field_name : String
  pub document_type : Option String
  pub value : Json
  pub confidence : Option Float
  pub page : Option ℕ
  pub bbox : Option (List Float)
  pub missing_reason : Option String
  pub created_at : ℕ

pub record VerificationRecord : Type 0 where
  pub verification_id : String
  pub bidder_id : String
  pub capability : String
  pub source : String
  pub queried_identifier : Option String
  pub status : String
  pub «data» : Map String Json
  pub query : Option (Map String Json)
  pub raw_response : Json
  pub retrieved_at : ℕ
  pub latency_ms : Option ℕ
  pub correlation_id : Option String
  pub transport_status_code : Option ℕ
  pub evidence_id : Option String
  pub document_id : Option String
  pub created_at : ℕ

pub record ComplianceResultRecord : Type 0 where
  pub result_id : String
  pub submission_id : String
  pub bidder_id : String
  pub requirement_id : String
  pub capability : String
  pub status : String
  pub reason : String
  pub expected : Json
  pub actual : Json
  pub rule_id : Option String
  pub evidence_refs : List String
  pub verification_refs : List String
  pub flags : List String
  pub created_at : ℕ
  pub updated_at : ℕ

pub record FindingRecord : Type 0 where
  pub finding_id : String
  pub bidder_id : String
  pub finding_type : String
  pub flag_id : Option String
  pub payload : Map String Json
  pub evidence_refs : List String
  pub verification_refs : List String
  pub related_bidder_ids : List String
  pub created_at : ℕ

pub record ExplanationRecord : Type 0 where
  pub explanation_id : String
  pub bidder_id : String
  pub flag_id : String
  pub flag_active : Bool
  pub finding_refs : List String
  pub concise_text : String
  pub detailed_text : Option String
  pub grounding : List (Map String Json)
  pub generation : Map String Json
  pub created_at : ℕ
  pub schema_version : Option ℕ
  pub grounding_version : Option ℕ
  pub validation_status : Option String
  pub fallback_used : Option Bool
  pub input_hash : Option String
  pub evidence_refs : List String
  pub verification_refs : List String
  pub document_refs : List String
  pub comparison_refs : List String
  pub trace_refs : List String
  pub content : Option (Map String Json)
  pub uncertainties : List String
  pub review_actions : List String

pub record AuditEventRecord : Type 0 where
  pub event_id : String
  pub aggregate_type : String
  pub aggregate_id : String
  pub event_type : String
  pub payload : Map String Json
  pub correlation_id : Option String
  pub created_at : ℕ

pub record OutboxEventRecord : Type 0 where
  pub event_id : String
  pub aggregate_type : String
  pub aggregate_id : String
  pub event_type : String
  pub payload : Map String Json
  pub created_at : ℕ
  pub published_at : Option ℕ
  pub attempts : ℕ

pub record FlagStateRecord : Type 0 where
  pub bidder_id : String
  pub flag_id : String
  pub is_set : Bool
  pub source : Option String
  pub finding_refs : List String
  pub evidence_refs : List String
  pub verification_refs : List String
  pub correlation_id : Option String
  pub updated_at : ℕ

pub record FlagSnapshotRecord : Type 0 where
  pub snapshot_id : String
  pub bidder_id : String
  pub snapshot_version : String
  pub flags : Map String Bool
  pub provenance : Map String (Map String Json)
  pub content_hash : String
  pub correlation_id : Option String
  pub created_at : ℕ
