-- ===== src/Quality/Tests.antt =====
-- Assessments with floats that are whole ten-thousandths: signals whose only lack is the confidence in
-- the type of the document, and a document of the default evaluator.
use core_engine_ge_m.Base.{
  ℕ, ◌+◌, ◌-◌, ◌*◌, ◌/◌, ◌≡◌, ◌↔◌, refl, String, Bool, true, false, not, ◌&&◌, Option, none, some,
  [], ◌∷◌, Map, lookup, string_eq, ok, ltb, if◌then◌else◌,
}
use core_engine_ge_m.Scoring.Numbers.{Floats}
use core_engine_ge_m.Scoring.Model.{good, degraded, unknown}
use core_engine_ge_m.Scoring.Document.{is_none}
use core_engine_ge_m.Quality.Model.{
  DocumentQualitySignals, EvidenceQualityAssessment, QualityError, bounded,
  field_confidence_missing,
}
use core_engine_ge_m.Quality.{
  is_low, unseen, ocr_quality_score, field_quality_score, completeness_score,
  metadata_reliability_score, overall_quality_score, derive_state, evaluate_signals,
}
use core_engine_ge_m.Quality.States.{is_readable, is_flawless, evaluate_signals_lem}
use core_engine_ge_m.Quality.Documents.{
  DocumentMeta, TextStore, default_required_metadata_fields, is_given, raw_text_present,
  build_signals_for_document, evaluate_for_document, should_allow_semantic_finding,
  evaluate_for_document_lem,
}

abbrev literals : Map String ℕ
literals =
    ("1.0", 10000)
    ∷ ("0.85", 8500)
    ∷ ("0.5", 5000)
    ∷ ("0.50", 5000)
    ∷ ("0.30", 3000)
    ∷ ("0.25", 2500)
    ∷ ("0.15", 1500)
    ∷ ("0.10", 1000)
    ∷ ("0.05", 500)
    ∷ []

abbrev read : Option ℕ → ℕ
read none = 0
read (some n) = n

instance abbrev parts : Floats ℕ
parts = record {
  float = λ s. read (lookup s literals);
  whole = λ n. n * 10000;
  plus = λ a b. a + b;
  minus = λ a b. a - b;
  times = λ a b. a * b / 10000;
  over = λ a b. a * 10000 / b;
  sum = λ xs. 0;
  lt = ltb;
  is_nan = λ a. false;
  is_infinite = λ a. false;
  round_to = λ n a. a;
  fixed = λ n a. "";
}

abbrev signals : DocumentQualitySignals ℕ
signals = record {
  ocr = record { ocr_confidence = some 8500; ocr_text_present = true };
  fields = record { field_confidence = some 8500; required_fields_missing = [] };
  metadata = record { document_type_confidence = none; metadata_present = true };
  completeness = record {
    required_fields = "issuer" ∷ [];
    required_fields_present = "issuer" ∷ [];
    required_fields_missing = [];
    raw_text_present = true;
    metadata_present = true;
  };
}

abbrev assessed : EvidenceQualityAssessment ℕ
assessed = record {
  state = degraded;
  quality_score = 8350;
  components = record {
    ocr_quality = 8500;
    field_quality = 8500;
    completeness = 10000;
    metadata_reliability = 5000;
  };
  reasons = [];
}

signals-assessed : evaluate_signals signals ≡ ok assessed
unfolding evaluate_signals ocr_quality_score field_quality_score completeness_score
    metadata_reliability_score overall_quality_score derive_state unseen bounded lookup
signals-assessed = refl

evaluate_signals_lem_example :
    ((assessed.state ≡ unknown) ↔ (is_readable signals ≡ false))
    × ((is_none assessed.reasons ≡ true) ↔ (is_flawless signals ≡ true))
    × ((assessed.state ≡ good)
        ↔ ((is_flawless signals ≡ true) × (is_low assessed.quality_score ≡ false)))
evaluate_signals_lem_example = evaluate_signals_lem signals assessed signals-assessed

abbrev meta : DocumentMeta ℕ
meta = record {
  document_type = "OEM";
  evidence_id = none;
  ocr_confidence = 9000;
  document_type_confidence = 9000;
  issuer = some "Acme";
  authorization_number = some "A1";
  issue_date = some "2024-01-01";
  valid_until = none;
  bidder_name = none;
  territory = some "India";
}

abbrev texts : TextStore QualityError
texts = some (λ document_id. ok (some "An authorization."))

abbrev nowhere : String → Bool
nowhere name = false

abbrev found : EvidenceQualityAssessment ℕ
found = record {
  state = degraded;
  quality_score = 8050;
  components = record {
    ocr_quality = 9000;
    field_quality = 5000;
    completeness = 10000;
    metadata_reliability = 9000;
  };
  reasons = field_confidence_missing ∷ [];
}

document-found :
    evaluate_for_document nowhere texts default_required_metadata_fields "D1" (some meta) ≡ ok found
unfolding evaluate_for_document build_signals_for_document evaluate_signals ocr_quality_score
    field_quality_score completeness_score metadata_reliability_score overall_quality_score
    derive_state unseen bounded lookup
document-found = refl

evaluate_for_document_lem_example :
    (found.state
      ≡ (if raw_text_present texts "D1" && is_given (some meta) then degraded else unknown))
    × (should_allow_semantic_finding found ≡ (
        (raw_text_present texts "D1" && is_given (some meta))
        && not (ltb found.quality_score (parts.float "0.50"))))
evaluate_for_document_lem_example =
    evaluate_for_document_lem nowhere texts default_required_metadata_fields "D1" (some meta) found
      document-found
