-- ===== src/Quality/Model.antt =====
-- The signals and the assessments of src/ai_verification/evidence_quality: signals.py, state.py and
-- assessment.py.
use core_engine_ge_m.Base.{
  ◌≡◌, ◌↔◌, ℕ, String, Bool, true, ◌||◌, Option, List, ◌==◌, nat_eq, Equality, Outcome, ok, raised,
  if◌then◌else◌, arith,
}
use core_engine_ge_m.Scoring.Numbers.{Floats}
use core_engine_ge_m.Scoring.Model.{QualityState}

pub data QualityReason : Type 0 where
  ocr_low ocr_missing field_confidence_low field_confidence_missing : QualityReason
  document_text_missing required_field_missing : QualityReason
  document_type_confidence_low metadata_incomplete : QualityReason

abbrev pub rank : QualityReason → ℕ
rank ocr_low = 0
rank ocr_missing = 1
rank field_confidence_low = 2
rank field_confidence_missing = 3
rank document_text_missing = 4
rank required_field_missing = 5
rank document_type_confidence_low = 6
rank metadata_incomplete = 7

pub rank_iff : (a b : QualityReason) → ((rank a == rank b) ≡ true) ↔ (a ≡ b)
rank_iff a b = ground arith

instance abbrev pub quality_reason_eq : Equality QualityReason
quality_reason_eq = record { equals = λ a b. rank a == rank b; equals_iff = rank_iff }

pub record OcrQualitySignals {ℓ} (F : Type ℓ) : Type ℓ where
  pub ocr_confidence : Option F
  pub ocr_text_present : Bool

pub record FieldQualitySignals {ℓ} (F : Type ℓ) : Type ℓ where
  pub field_confidence : Option F
  pub required_fields_missing : List String

pub record MetadataReliabilitySignals {ℓ} (F : Type ℓ) : Type ℓ where
  pub document_type_confidence : Option F
  pub metadata_present : Bool

pub record CompletenessSignals : Type 0 where
  pub required_fields : List String
  pub required_fields_present : List String
  pub required_fields_missing : List String
  pub raw_text_present : Bool
  pub metadata_present : Bool

pub record DocumentQualitySignals {ℓ} (F : Type ℓ) : Type ℓ where
  pub ocr : OcrQualitySignals F
  pub fields : FieldQualitySignals F
  pub metadata : MetadataReliabilitySignals F
  pub completeness : CompletenessSignals

pub record QualityComponentScores {ℓ} (F : Type ℓ) : Type ℓ where
  pub ocr_quality : F
  pub field_quality : F
  pub completeness : F
  pub metadata_reliability : F

pub record EvidenceQualityAssessment {ℓ} (F : Type ℓ) : Type ℓ where
  pub state : QualityState
  pub quality_score : F
  pub components : QualityComponentScores F
  pub reasons : List QualityReason

-- The `ValueError` of a number that is out of range.
pub data QualityError : Type 0 where
  value_error : QualityError

module _ {ℓ} {F : Type ℓ} ⦃d : Floats F⦄ where
  -- `_validate_bounded_unit_float`
  unfoldable pub bounded : F → Outcome QualityError F
  bounded value =
      if d.is_nan value
        || (d.is_infinite value || (d.lt value (d.float "0.0") || d.lt (d.float "1.0") value))
      then raised value_error
      else ok value
