-- ===== src/Scoring/Model.antt =====
-- src/ai_verification/document_scoring/models.py, and of src/ai_verification/models/contracts.py and
-- evidence_quality/state.py what the scoring reads.
use core_engine_ge_m.Base.{
  ◌≡◌, ◌↔◌, ℕ, String, Bool, true, false, Option, List, [], ◌∷◌, Outcome, ok, raised, ◌==◌, nat_eq,
  Equality, arith, Float, contains, select,
}
use core_engine_ge_m.Flags.{FlagError}
use core_engine_ge_m.Flags.Model.{FlagSeverity}

pub data DocumentPriority : Type 0 where
  critical high medium low unknown : DocumentPriority

pub data TrafficLight : Type 0 where
  red yellow green : TrafficLight

-- `DocumentScoreReason`, in the order of the spelling.
pub data Reason : Type 0 where
  compliance_failed compliance_missing compliance_unverifiable compliance_warning : Reason
  document_missing evidence_quality_degraded evidence_quality_unknown : Reason
  low_evidence_confidence material_finding no_evidence no_material_issues : Reason
  unknown_document_type verification_failed verification_unavailable verified : Reason

abbrev pub place : Reason → ℕ
place compliance_failed = 0
place compliance_missing = 1
place compliance_unverifiable = 2
place compliance_warning = 3
place document_missing = 4
place evidence_quality_degraded = 5
place evidence_quality_unknown = 6
place low_evidence_confidence = 7
place material_finding = 8
place no_evidence = 9
place no_material_issues = 10
place unknown_document_type = 11
place verification_failed = 12
place verification_unavailable = 13
place verified = 14

abbrev pub all_reasons : List Reason
all_reasons =
    compliance_failed ∷ compliance_missing ∷ compliance_unverifiable ∷ compliance_warning
    ∷ document_missing ∷ evidence_quality_degraded ∷ evidence_quality_unknown
    ∷ low_evidence_confidence ∷ material_finding ∷ no_evidence ∷ no_material_issues
    ∷ unknown_document_type ∷ verification_failed ∷ verification_unavailable ∷ verified ∷ []

abbrev pub same_reason : Reason → Reason → Bool
same_reason a b = place a == place b

pub same_reason_iff : (a b : Reason) → (same_reason a b ≡ true) ↔ (a ≡ b)
same_reason_iff a b = ground arith

instance abbrev pub reason_eq : Equality Reason
reason_eq = record { equals = same_reason; equals_iff = same_reason_iff }

-- `tuple(sorted(reasons))`
abbrev pub sorted_reasons : List Reason → List Reason
sorted_reasons reasons = select (λ r. contains r reasons) all_reasons

pub record DocumentInput : Type 0 where
  pub document_id : String
  pub document_type : String

pub record DocumentImportance {ℓ} (F : Type ℓ) : Type ℓ where
  pub priority : DocumentPriority
  pub weight : F

pub record DocumentScoreDetail {ℓ} (F : Type ℓ) : Type ℓ where
  pub document_id : Option String
  pub document_type : String
  pub source_document_types : List String
  pub priority : DocumentPriority
  pub weight : F
  pub present : Bool
  pub evidence_count : ℕ
  pub average_evidence_confidence : Option F
  pub compliance_statuses : List String
  pub verification_statuses : List String
  pub finding_flag_ids : List String
  pub reasons : List Reason
  pub score : F

pub record BidderDocumentScore {ℓ} (F : Type ℓ) : Type ℓ where
  pub bidder_id : String
  pub submission_id : Option String
  pub score : F
  pub category : TrafficLight
  pub documents : List (DocumentScoreDetail F)
  pub reason_codes : List Reason
  pub summary : String

-- An ID that is no flag's, and the `ValidationError` of a score that is out of range.
pub data ScoringError : Type 0 where
  flag_error : FlagError → ScoringError
  validation_error : ScoringError

-- A model that pydantic checks: itself, or the error.
abbrev pub checked {ℓ} : {A : Type ℓ} → Bool → A → Outcome ScoringError A
checked true a = ok a
checked false a = raised validation_error

pub data QualityState : Type 0 where
  good degraded unknown : QualityState

-- Of the trace of a finding, the IDs of the two documents.
pub record VerificationFinding : Type 0 where
  pub finding_id : String
  pub bidder_id : String
  pub flag_id : String
  pub severity : FlagSeverity
  pub confidence : Float
  pub explanation : String
  pub evidence_refs : List String
  pub verification_refs : List String
  pub related_bidder_ids : List String
  pub trace : Option (String × String)
