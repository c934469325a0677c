-- ===== src/Scoring.antt =====
-- src/ai_verification/document_scoring/engine.py: `DocumentScoringEngine`. The floats are a parameter, as
-- are the methods `strip` and `upper` of `str` and how `str` spells a whole number.
pub mod Numbers
pub mod Model
pub mod Policy
pub mod Document
pub mod Reasons
pub mod Lights
pub mod Bounds
pub mod Returns
mod Tests
use Prim.Native.Nat.{Ordering}
use Prim.Native.String
use core_engine_ge_m.Base.{
  ℕ, length, String, Bool, true, false, not, ◌&&◌, ◌||◌, ◌==◌, string_eq, Option, none, some, List,
  [], ◌∷◌, ◌++◌, map, Map, lookup, insert, Outcome, ok, raised, ◌>>=◌, any, select, contains,
  if◌then◌else◌,
}
use core_engine_ge_m.Rules.Model.{
  Applicability, applicable, not_applicable, unknown, Requirement, Evidence, Verification,
  ComplianceStatus, inapplicable, pass, fail, missing, unverifiable, warning, not_checked,
  ComplianceResult, IdentityFinding,
}
use core_engine_ge_m.Scoring.Numbers.{in_score_range, Floats}
use core_engine_ge_m.Scoring.Model.{
  ScoringError, checked, DocumentPriority, critical, high, medium, low, TrafficLight, red, yellow,
  green, Reason, reason_eq, all_reasons, sorted_reasons, compliance_failed, compliance_missing,
  document_missing, material_finding, verification_failed, DocumentInput, DocumentScoreDetail,
  BidderDocumentScore, QualityState, VerificationFinding,
}
use core_engine_ge_m.Scoring.Policy.{
  DocumentScoringPolicy, join, or_else, normalize_document_type, expected_documents_for,
}
use core_engine_ge_m.Scoring.Document.{add_all, is_none, score_document, score_missing}

abbrev pub is_not_applicable : Applicability → Bool
is_not_applicable not_applicable = true
is_not_applicable _ = false

abbrev pub is_inapplicable : ComplianceStatus → Bool
is_inapplicable inapplicable = true
is_inapplicable _ = false

abbrev pub is_critical : DocumentPriority → Bool
is_critical critical = true
is_critical _ = false

abbrev pub is_high : DocumentPriority → Bool
is_high high = true
is_high _ = false

-- `_index_evidence`
abbrev pub evidence_of : String → List Evidence → List Evidence
evidence_of document_id evidence = select (λ item. item.document_id == document_id) evidence

abbrev pub spell_light : TrafficLight → String
spell_light red = "RED"
spell_light yellow = "YELLOW"
spell_light green = "GREEN"

-- What a run is given beside the documents. Of an assessment of quality only its state is read.
pub record Sources : Type 0 where
  pub requirements : List Requirement
  pub evidence : List Evidence
  pub compliance_results : List ComplianceResult
  pub verification_records : List Verification
  pub findings : List VerificationFinding
  pub identity_findings : List IdentityFinding
  pub quality_by_document_id : Map String QualityState

-- `sorted` of strings
abbrev pub insert_sorted : String → List String → List String
insert_sorted key [] = key ∷ []
insert_sorted key (k ∷ keys) =
    let rest = insert_sorted key keys in
    elim (String.compare key k) [
      | Ordering.lt ↦ key ∷ k ∷ keys
      | Ordering.eq ↦ key ∷ k ∷ keys
      | Ordering.gt ↦ k ∷ rest
    ]

abbrev pub suffix : List String → String
suffix [] = ""
suffix (t ∷ ts) = String.◌++◌ "; priority issues: " (join ", " (t ∷ ts))

module _ {ℓ} {F : Type ℓ} ⦃d : Floats F⦄ where
  abbrev pub is_missing : DocumentScoreDetail F → Bool
  is_missing item = contains document_missing item.reasons

  -- `_has_material_finding`
  abbrev pub has_material_finding : DocumentScoreDetail F → Bool
  has_material_finding item = contains material_finding item.reasons

  abbrev pub has_failed : DocumentScoreDetail F → Bool
  has_failed item =
      contains compliance_failed item.reasons
      || (contains compliance_missing item.reasons
          || (contains verification_failed item.reasons || has_material_finding item))

  -- `_weighted_score`
  abbrev pub weights : List (DocumentScoreDetail F) → F
  weights details = d.sum (map (λ item. item.weight) details)

  unfoldable pub weighted_score : List (DocumentScoreDetail F) → F
  weighted_score details =
      if not (d.lt (d.float "0.0") (weights details))
      then d.float "0.0"
      else d.over (d.sum (map (λ item. d.times item.score item.weight) details)) (weights details)

  -- `_categorize`
  unfoldable pub is_red : DocumentScoringPolicy F → F → List (DocumentScoreDetail F) → Bool
  is_red policy score details =
      d.lt score policy.red_threshold
      || (any (λ item. is_critical item.priority && is_missing item) details
          || (any (λ item. is_high item.priority && is_missing item) details
              || (any (λ item. is_critical item.priority && has_failed item) details
                  || (any (λ item. is_high item.priority && has_failed item) details
                      || any has_material_finding details))))

  unfoldable pub categorize :
      DocumentScoringPolicy F → F → List (DocumentScoreDetail F) → TrafficLight
  categorize policy score details =
      if is_red policy score details
      then red
      else if d.lt score policy.yellow_threshold
          || any (λ item. item.document_type == "UNKNOWN") details
      then yellow
      else green

  -- `{reason for detail in details for reason in detail.reasons}`
  abbrev pub reasons_of : List (DocumentScoreDetail F) → List Reason
  reasons_of [] = []
  reasons_of (item ∷ items) = item.reasons ++ reasons_of items

  -- `_summary`
  abbrev pub blocking : List (DocumentScoreDetail F) → List String
  blocking [] = []
  blocking (item ∷ items) =
      let rest = blocking items in
      if is_missing item || has_material_finding item
      then insert_sorted item.document_type rest
      else rest

  unfoldable pub summary :
      (ℕ → String) → String → F → TrafficLight → List (DocumentScoreDetail F) → String
  summary decimal bidder_id score category details = join "" (
      "Bidder "
      ∷ bidder_id
      ∷ ": "
      ∷ spell_light category
      ∷ " document score "
      ∷ d.fixed 2 score
      ∷ "/100 across "
      ∷ decimal (length details)
      ∷ " document type(s)"
      ∷ suffix (blocking details)
      ∷ "."
      ∷ [])

  module _ (strip upper : String → String) (policy : DocumentScoringPolicy F) where
    unfoldable pub canonical_type : String → String
    canonical_type document_type =
        let canonical = normalize_document_type strip upper policy document_type in
        elim (lookup canonical policy.document_importance) [
          | none ↦ "UNKNOWN"
          | some importance ↦ canonical
        ]

    -- `_expected_types`
    abbrev pub expected_by_requirements : List Requirement → List String
    expected_by_requirements [] = []
    expected_by_requirements (requirement ∷ requirements) =
        let rest = expected_by_requirements requirements in
        if is_not_applicable requirement.applicability
        then rest
        else expected_documents_for strip upper policy requirement.capability ++ rest

    abbrev pub expected_by_results : List ComplianceResult → List String
    expected_by_results [] = []
    expected_by_results (result ∷ results) =
        let rest = expected_by_results results in
        if is_inapplicable result.status
        then rest
        else expected_documents_for strip upper policy result.capability ++ rest

    unfoldable pub expected_types : List Requirement → List ComplianceResult → List String
    expected_types requirements results =
        add_all
          (map canonical_type
            (expected_by_requirements requirements ++ expected_by_results results))
          []

    abbrev pub empty_result : String → Option String → BidderDocumentScore F
    empty_result bidder_id submission_id = record {
      bidder_id = bidder_id;
      submission_id = submission_id;
      score = d.float "0.0";
      category = red;
      documents = [];
      reason_codes = document_missing ∷ [];
      summary =
          String.◌++◌ "Bidder "
            (String.◌++◌ bidder_id ": RED document score 0.00/100; no documents were scored.");
    }

    abbrev pub score_one : Sources → DocumentInput → Outcome ScoringError (DocumentScoreDetail F)
    score_one given document =
        score_document strip upper policy document (canonical_type document.document_type)
          (evidence_of document.document_id given.evidence) given.compliance_results
          given.verification_records given.findings given.identity_findings
          (lookup document.document_id given.quality_by_document_id)

    unfoldable pub score_documents :
        Sources → List DocumentInput → Outcome ScoringError (List (DocumentScoreDetail F))
    score_documents given [] = ok []
    score_documents given (document ∷ documents) = score_one given document >>= λ one.
        (score_documents given documents >>= λ others. ok (one ∷ others))

    -- `sorted(expected_types - present_types)`
    abbrev pub absent_types : List String → List DocumentInput → List String
    absent_types expected documents =
        select (λ t. not (contains t (map (λ x. canonical_type x.document_type) documents)))
          expected

    abbrev pub all_details :
        List String
        → List DocumentInput
        → List (DocumentScoreDetail F)
        → List (DocumentScoreDetail F)
    all_details expected documents details =
        details ++ map (score_missing strip upper policy) (absent_types expected documents)

    -- `decimal` spells a whole number.
    module _ (decimal : ℕ → String) where
      abbrev pub bidder_score :
          String → Option String → List (DocumentScoreDetail F) → BidderDocumentScore F
      bidder_score bidder_id submission_id details =
          let final_score = weighted_score details in
          let category = categorize policy final_score details in
          record {
            bidder_id = bidder_id;
            submission_id = submission_id;
            score = d.round_to 2 final_score;
            category = category;
            documents = details;
            reason_codes = sorted_reasons (reasons_of details);
            summary = summary decimal bidder_id final_score category details;
          }

      -- What `BidderDocumentScore` checks of its score.
      abbrev pub checked_score :
          BidderDocumentScore F → Outcome ScoringError (BidderDocumentScore F)
      checked_score result = checked (in_score_range result.score) result

      unfoldable pub score :
          String
          → Option String
          → List DocumentInput
          → Sources
          → Outcome ScoringError (BidderDocumentScore F)
      score bidder_id submission_id documents given =
          let expected = expected_types given.requirements given.compliance_results in
          let scored = score_documents given documents >>= λ details.
          checked_score
            (bidder_score bidder_id submission_id (all_details expected documents details)) in
          if is_none documents && is_none expected
          then ok (empty_result bidder_id submission_id)
          else scored
