-- ===== src/Quality.antt =====
-- src/ai_verification/evidence_quality: the scores of scoring.py, and of evaluator.py
-- `evaluate_signals`.
pub mod Model
pub mod States
pub mod Documents
mod Tests
use core_engine_ge_m.Base.{
  ℕ, length, String, Bool, true, false, not, ◌&&◌, Option, none, some, List, [], ◌∷◌, ◌++◌, Outcome,
  ok, raised, ◌>>=◌, any, contains, if◌then◌else◌,
}
use core_engine_ge_m.Scoring.Numbers.{Floats}
use core_engine_ge_m.Scoring.Model.{QualityState, good, degraded, unknown}
use core_engine_ge_m.Scoring.Document.{is_none}
use core_engine_ge_m.Quality.Model.{
  QualityReason, quality_reason_eq, ocr_low, ocr_missing, field_confidence_low,
  field_confidence_missing, document_text_missing, required_field_missing,
  document_type_confidence_low, metadata_incomplete, DocumentQualitySignals, CompletenessSignals,
  EvidenceQualityAssessment, QualityError, bounded,
}

-- `CRITICAL_UNKNOWN_REASONS`
abbrev pub is_critical : QualityReason → Bool
is_critical document_text_missing = true
is_critical metadata_incomplete = true
is_critical _ = false

-- `if ...: reasons.append(...)`, in front of those that follow
abbrev pub flagged : Bool → QualityReason → List QualityReason → List QualityReason
flagged true reason rest = reason ∷ rest
flagged false reason rest = rest

-- The reasons that are not seen yet, each once, in their order.
unfoldable pub unseen : List QualityReason → List QualityReason → List QualityReason
unseen seen [] = []
unseen seen (reason ∷ reasons) =
    let dropped = unseen seen reasons in
    let kept = unseen (reason ∷ seen) reasons in
    if contains reason seen then dropped else reason ∷ kept

abbrev pub completeness_reasons : CompletenessSignals → List QualityReason
completeness_reasons c = flagged (not c.raw_text_present) document_text_missing (
    flagged (not (is_none c.required_fields_missing)) required_field_missing
      (flagged (not c.metadata_present) metadata_incomplete []))

abbrev pub with_reasons {ℓ} :
    {F : Type ℓ}
    → List QualityReason
    → Outcome QualityError F
    → Outcome QualityError (F × List QualityReason)
with_reasons reasons (ok score) = ok (score, reasons)
with_reasons reasons (raised e) = raised e

module _ {ℓ} {F : Type ℓ} ⦃d : Floats F⦄ where
  -- A confidence that is reported, 0.5 for what is there without one, and 0.0 for what is not.
  abbrev pub known_or_default : Option F → Bool → F
  known_or_default (some confidence) present = confidence
  known_or_default none true = d.float "0.5"
  known_or_default none false = d.float "0.0"

  abbrev pub is_low : F → Bool
  is_low confidence = d.lt confidence (d.float "0.85")

  -- `return _validate_bounded_unit_float(score), reasons`
  abbrev pub bounded_with : List QualityReason → F → Outcome QualityError (F × List QualityReason)
  bounded_with reasons value = with_reasons reasons (bounded value)

  unfoldable pub ocr_quality_score : DocumentQualitySignals F → Outcome QualityError F
  ocr_quality_score s = bounded (known_or_default s.ocr.ocr_confidence s.ocr.ocr_text_present)

  abbrev pub ocr_reasons : Option F → List QualityReason
  ocr_reasons none = ocr_missing ∷ []
  ocr_reasons (some confidence) = flagged (is_low confidence) ocr_low []

  abbrev pub field_reasons : Option F → List String → List QualityReason
  field_reasons (some confidence) missing = flagged (is_low confidence) field_confidence_low []
  field_reasons none missing =
      field_confidence_missing ∷ flagged (not (is_none missing)) required_field_missing []

  abbrev pub field_score : DocumentQualitySignals F → F
  field_score s =
      known_or_default s.fields.field_confidence (is_none s.fields.required_fields_missing)

  unfoldable pub field_quality_score :
      DocumentQualitySignals F → Outcome QualityError (F × List QualityReason)
  field_quality_score s =
      bounded_with (field_reasons s.fields.field_confidence s.fields.required_fields_missing)
        (field_score s)

  abbrev pub present_ratio : List String → List String → F
  present_ratio [] present = d.float "1.0"
  present_ratio (field ∷ fields) present =
      d.over (d.whole (length present)) (d.whole (length (field ∷ fields)))

  abbrev pub bonus : String → Bool → F
  bonus amount true = d.float amount
  bonus amount false = d.float "0.0"

  abbrev pub complete_score : CompletenessSignals → F
  complete_score c =
      d.plus
        (d.plus
          (d.times (d.float "0.85") (present_ratio c.required_fields c.required_fields_present))
          (bonus "0.10" c.raw_text_present))
        (bonus "0.05" c.metadata_present)

  unfoldable pub completeness_score :
      DocumentQualitySignals F → Outcome QualityError (F × List QualityReason)
  completeness_score s =
      bounded_with (completeness_reasons s.completeness) (complete_score s.completeness)

  abbrev pub metadata_reasons : Option F → List QualityReason
  metadata_reasons none = []
  metadata_reasons (some confidence) = flagged (is_low confidence) document_type_confidence_low []

  abbrev pub metadata_score : DocumentQualitySignals F → F
  metadata_score s =
      known_or_default s.metadata.document_type_confidence s.metadata.metadata_present

  unfoldable pub metadata_reliability_score :
      DocumentQualitySignals F → Outcome QualityError (F × List QualityReason)
  metadata_reliability_score s =
      bounded_with (metadata_reasons s.metadata.document_type_confidence) (metadata_score s)

  unfoldable pub overall_quality_score : F → F → F → F → Outcome QualityError F
  overall_quality_score ocr field completeness metadata = bounded (
      d.plus
        (d.plus (d.plus (d.times (d.float "0.30") ocr) (d.times (d.float "0.30") field))
          (d.times (d.float "0.25") completeness))
        (d.times (d.float "0.15") metadata))

  -- `_derive_state`
  unfoldable pub derive_state : F → List QualityReason → QualityState
  derive_state overall reasons =
      if any is_critical reasons
      then unknown
      else if not (is_low overall) && is_none reasons
      then good
      else degraded

  abbrev pub assessment : F → F → F → F → F → List QualityReason → EvidenceQualityAssessment F
  assessment ocr field completeness metadata overall reasons = record {
    state = derive_state overall reasons;
    quality_score = overall;
    components = record {
      ocr_quality = ocr;
      field_quality = field;
      completeness = completeness;
      metadata_reliability = metadata;
    };
    reasons = reasons;
  }

  unfoldable pub evaluate_signals :
      DocumentQualitySignals F → Outcome QualityError (EvidenceQualityAssessment F)
  evaluate_signals s = ocr_quality_score s >>= λ ocr.
      (field_quality_score s >>= λ field.
      (completeness_score s >>= λ complete.
      (metadata_reliability_score s >>= λ metadata.
      (overall_quality_score ocr field.0 complete.0 metadata.0 >>= λ overall. ok (
        assessment ocr field.0 complete.0 metadata.0 overall (
          unseen []
            (ocr_reasons s.ocr.ocr_confidence ++ (field.1 ++ (complete.1 ++ metadata.1)))))))))
