-- ===== src/Rules/Model.antt =====
-- src/compliance_engine/models: requirement.py, evidence.py, verification.py and result.py.
use core_engine_ge_m.Base.{
  ℕ, String, Bool, Option, none, some, List, [], ◌∷◌, Map, Json, Float, if◌then◌else◌, ◌&&◌, ◌==◌,
  string_eq,
}
use core_engine_ge_m.Flags.{FlagError}

pub data Applicability : Type 0 where
  applicable not_applicable unknown : Applicability

pub record Requirement : Type 0 where
  pub requirement_id : String
  pub capability : String
  pub description : String
  pub mandatory : Bool
  pub applicability : Applicability
  pub operator : Option String
  pub expected : Json
  pub parameters : Map String Json
  pub required_evidence : List String
  pub required_source : Option String
  pub rule_id : String

pub record Evidence : Type 0 where
  pub evidence_id : String
  pub bidder_id : String
  pub document_id : String
  pub document_type : String
  pub field_name : String
  pub value : Json
  pub confidence : Option Float
  pub page : Option ℕ
  pub bbox : Option (List Float)
  pub missing_reason : Option String

pub data VerificationStatus : Type 0 where
  verified not_found invalid inactive unavailable error : VerificationStatus

pub record Verification : Type 0 where
  pub verification_id : String
  pub bidder_id : String
  pub capability : String
  pub source : String
  pub queried_identifier : Option String
  pub status : VerificationStatus
  pub «data» : Map String Json
  pub retrieved_at : ℕ
  pub evidence_id : Option String
  pub document_id : Option String
  pub query : Option (Map String Json)
  pub raw_response : Json
  pub latency_ms : Option ℕ
  pub correlation_id : Option String
  pub transport_status_code : Option ℕ

pub data ComplianceStatus : Type 0 where
  pass fail missing unverifiable inapplicable warning not_checked : ComplianceStatus

-- `actual` is nothing, or the status and the data of a verification.
pub data Actual : Type 0 where
  nothing : Actual
  reported : VerificationStatus → Map String Json → Actual

pub record ComplianceResult : Type 0 where
  pub requirement_id : String
  pub capability : String
  pub status : ComplianceStatus
  pub reason : String
  pub expected : Json
  pub actual : Actual
  pub evidence_refs : List String
  pub verification_refs : List String
  pub flags : List String
  pub rule_id : String

-- The exceptions of a rule: a key that a table does not have, an argument that is missing, an attribute
-- of `None`, parameters that the model refuses, an ID that is no flag's, or one of the provider.
pub data RuleError : Type 0 where
  key_error value_error attribute_error invalid_parameters : RuleError
  flag_error : FlagError → RuleError
  from_provider : String → RuleError

-- `next((item for item in evidence if ...), None)`
abbrev pub first_field : String → String → List Evidence → Option Evidence
first_field document_type field_name [] = none
first_field document_type field_name (item ∷ items) =
    let rest = first_field document_type field_name items in
    if item.document_type == document_type && item.field_name == field_name then some item else rest

-- `verification.model_copy(update={"evidence_id": ..., "document_id": ...})`
abbrev pub linked : Evidence → Verification → Verification
linked item v = record v {
  evidence_id = some item.evidence_id;
  document_id = some item.document_id;
}

pub record IdentityFinding : Type 0 where
  pub flag_id : String
  pub capability : String
  pub message : String
  pub evidence_refs : List String
  pub compared_values : List Json
  pub normalized_values : List String
  pub left_document_id : String
  pub right_document_id : String

pub record EngineResult : Type 0 where
  pub bidder_id : Option String
  pub submission_id : Option String
  pub evaluated_at : ℕ
  pub compliance_results : List ComplianceResult
  pub identity_findings : List IdentityFinding
  pub verification_records : List Verification
