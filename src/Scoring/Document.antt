-- ===== src/Scoring/Document.antt =====
-- src/ai_verification/document_scoring/engine.py: `_score_document` and `_score_missing`. A score is kept
-- with the reasons that were found for it.
use Prim.Native.Nat.{Ordering}
use Prim.Native.String
use core_engine_ge_m.Base.{
  String, Bool, true, false, not, ◌&&◌, ◌||◌, ◌==◌, string_eq, Option, none, some, List, [], ◌∷◌,
  map, Outcome, ok, raised, ◌>>=◌, any, select, contains, length, if◌then◌else◌, Float,
}
use core_engine_ge_m.Flags.{FlagError, get_flag_definition}
use core_engine_ge_m.Flags.Model.{FlagDefinition, FlagSeverity, high, critical}
use core_engine_ge_m.Rules.Model.{
  Evidence, VerificationStatus, verified as verified_status, not_found, invalid, inactive,
  unavailable, error, Verification, ComplianceStatus, pass, fail, missing, unverifiable,
  inapplicable, warning, not_checked, ComplianceResult, IdentityFinding,
}
use core_engine_ge_m.Scoring.Numbers.{in_score_range, Floats, clamp}
use core_engine_ge_m.Scoring.Model.{
  ScoringError, flag_error, checked, Reason, compliance_failed, compliance_missing,
  compliance_unverifiable, compliance_warning, document_missing, evidence_quality_degraded,
  evidence_quality_unknown, low_evidence_confidence, material_finding, no_evidence,
  no_material_issues, unknown_document_type, verification_failed, verification_unavailable,
  verified, reason_eq, sorted_reasons, DocumentInput, DocumentScoreDetail, QualityState, good,
  degraded, unknown, VerificationFinding,
}
use core_engine_ge_m.Scoring.Policy.{DocumentScoringPolicy, importance_for, expected_documents_for}

-- `sorted(set)` of strings: each stands once, in the order of the spelling.
abbrev pub add_sorted : String → List String → List String
add_sorted key [] = key ∷ []
add_sorted key (k ∷ keys) =
    let rest = add_sorted key keys in
    elim (String.compare key k) [
      | Ordering.lt ↦ key ∷ k ∷ keys
      | Ordering.eq ↦ k ∷ keys
      | Ordering.gt ↦ k ∷ rest
    ]

abbrev pub add_all : List String → List String → List String
add_all [] set = set
add_all (key ∷ keys) set = add_all keys (add_sorted key set)

abbrev pub value_of_status : ComplianceStatus → String
value_of_status pass = "PASS"
value_of_status fail = "FAIL"
value_of_status missing = "MISSING"
value_of_status unverifiable = "UNVERIFIABLE"
value_of_status inapplicable = "NOT_APPLICABLE"
value_of_status warning = "WARNING"
value_of_status not_checked = "NOT_CHECKED"

abbrev pub value_of_verification : VerificationStatus → String
value_of_verification verified_status = "VERIFIED"
value_of_verification not_found = "NOT_FOUND"
value_of_verification invalid = "INVALID"
value_of_verification inactive = "INACTIVE"
value_of_verification unavailable = "UNAVAILABLE"
value_of_verification error = "ERROR"

abbrev pub is_verified : VerificationStatus → Bool
is_verified verified_status = true
is_verified _ = false

abbrev pub all_verified : List Verification → Bool
all_verified [] = true
all_verified (v ∷ vs) = is_verified v.status && all_verified vs

-- `_MATERIAL_SEVERITIES`
abbrev pub is_material : FlagSeverity → Bool
is_material critical = true
is_material high = true
is_material _ = false

abbrev pub is_none {ℓ} : {A : Type ℓ} → List A → Bool
is_none [] = true
is_none (x ∷ xs) = false

-- `_flags_for_type`
abbrev pub traces : String → Option (String × String) → Bool
traces document_id none = false
traces document_id (some (left, right)) = left == document_id || right == document_id

abbrev pub meets : List String → List Evidence → Bool
meets refs evidence = any (λ item. contains item.evidence_id refs) evidence

unfoldable pub finding_flags : String → List Evidence → List VerificationFinding → List String
finding_flags document_id evidence [] = []
finding_flags document_id evidence (finding ∷ findings) =
    let rest = finding_flags document_id evidence findings in
    if meets finding.evidence_refs evidence || traces document_id finding.trace
    then finding.flag_id ∷ rest
    else rest

unfoldable pub identity_flags : List Evidence → List IdentityFinding → List String
identity_flags evidence [] = []
identity_flags evidence (finding ∷ findings) =
    let rest = identity_flags evidence findings in
    if meets finding.evidence_refs evidence then finding.flag_id ∷ rest else rest

-- The flags of a list of results, in their order.
abbrev pub result_flags : List ComplianceResult → List String → List String
result_flags [] flags = flags
result_flags (result ∷ results) flags = result_flags results (add_all result.flags flags)

abbrev pub confidences : List Evidence → List Float
confidences [] = []
confidences (item ∷ items) = elim item.confidence [
  | none ↦ confidences items
  | some c ↦ c ∷ confidences items
]

-- What is left of the score, and the reasons.
pub record Tally {ℓ} (F : Type ℓ) : Type ℓ where
  pub score : F
  pub reasons : List Reason

module _ {ℓ} {F : Type ℓ} ⦃d : Floats F⦄ where
  -- `score -= ...` and `reasons.add(...)`
  abbrev pub less : String → Tally F → Tally F
  less deduction t = record t { score = d.minus t.score (d.float deduction) }

  abbrev pub because : Reason → Tally F → Tally F
  because reason t = record t { reasons = reason ∷ t.reasons }

  abbrev pub weigh_evidence : List Evidence → Tally F → Tally F
  weigh_evidence [] t = because no_evidence (less "35.0" t)
  weigh_evidence (item ∷ items) t = t

  abbrev pub weigh_type : String → Tally F → Tally F
  weigh_type canonical t = if canonical == "UNKNOWN" then because unknown_document_type t else t

  abbrev pub average_of : List Float → Option F
  average_of [] = none
  average_of (c ∷ cs) =
      some (d.round_to 4 (d.over (d.sum (map d.float (c ∷ cs))) (d.whole (length (c ∷ cs)))))

  abbrev pub weigh_confidence : F → Option F → Tally F → Tally F
  weigh_confidence minimum none t = t
  weigh_confidence minimum (some average) t =
      if d.lt average minimum then because low_evidence_confidence (less "15.0" t) else t

  -- `_COMPLIANCE_DEDUCTIONS`, and the reason
  abbrev pub weigh_status : ComplianceStatus → Tally F → Tally F
  weigh_status fail t = because compliance_failed (less "60.0" t)
  weigh_status missing t = because compliance_missing (less "45.0" t)
  weigh_status unverifiable t = because compliance_unverifiable (less "30.0" t)
  weigh_status warning t = because compliance_warning (less "20.0" t)
  weigh_status not_checked t = less "20.0" t
  weigh_status pass t = less "0.0" t
  weigh_status inapplicable t = less "0.0" t

  abbrev pub weigh_results : List ComplianceResult → Tally F → Tally F
  weigh_results [] t = t
  weigh_results (result ∷ results) t = weigh_results results (weigh_status result.status t)

  -- `_VERIFICATION_DEDUCTIONS`, and the reason
  abbrev pub weigh_verification : VerificationStatus → Tally F → Tally F
  weigh_verification invalid t = because verification_failed (less "45.0" t)
  weigh_verification inactive t = because verification_failed (less "45.0" t)
  weigh_verification not_found t = because verification_failed (less "40.0" t)
  weigh_verification unavailable t = because verification_unavailable (less "30.0" t)
  weigh_verification error t = because verification_unavailable (less "30.0" t)
  weigh_verification verified_status t = less "0.0" t

  abbrev pub weigh_verifications : List Verification → Tally F → Tally F
  weigh_verifications [] t = t
  weigh_verifications (v ∷ vs) t = weigh_verifications vs (weigh_verification v.status t)

  abbrev pub weigh_severity : FlagSeverity → Tally F → Tally F
  weigh_severity severity t =
      if is_material severity then because material_finding (less "25.0" t) else t

  -- An ID that is no flag's ends the scoring.
  abbrev pub weigh_flag :
      Outcome FlagError FlagDefinition → Tally F → Outcome ScoringError (Tally F)
  weigh_flag (raised e) t = raised (flag_error e)
  weigh_flag (ok definition) t = ok (weigh_severity definition.severity t)

  unfoldable pub weigh_flags : List String → Tally F → Outcome ScoringError (Tally F)
  weigh_flags [] t = ok t
  weigh_flags (flag_id ∷ flag_ids) t =
      weigh_flag (get_flag_definition flag_id) t >>= weigh_flags flag_ids

  -- `_QUALITY_DEDUCTIONS`, and the reason
  abbrev pub weigh_quality : Option QualityState → Tally F → Tally F
  weigh_quality none t = t
  weigh_quality (some good) t = less "0.0" t
  weigh_quality (some degraded) t = because evidence_quality_degraded (less "15.0" t)
  weigh_quality (some unknown) t = because evidence_quality_unknown (less "25.0" t)

  -- The reasons that are given when there is no other. The second never is, where the first was.
  abbrev pub note_clean : Tally F → Tally F
  note_clean t =
      if not (d.lt t.score (d.float "80.0")) && is_none t.reasons
      then because no_material_issues t
      else t

  abbrev pub note_verified : List Verification → Tally F → Tally F
  note_verified verifications t =
      if not (is_none verifications) && (all_verified verifications && is_none t.reasons)
      then because verified t
      else t

  -- What `DocumentScoreDetail` checks of its score.
  abbrev pub checked_detail : DocumentScoreDetail F → Outcome ScoringError (DocumentScoreDetail F)
  checked_detail item = checked (in_score_range item.score) item

  abbrev pub full : Tally F
  full = record { score = d.float "100.0"; reasons = [] }

  module _ (strip upper : String → String) (policy : DocumentScoringPolicy F) where
    -- `_results_for_type` and `_verifications_for_type`
    abbrev pub concerns : String → String → Bool
    concerns canonical capability =
        contains canonical (expected_documents_for strip upper policy capability)

    abbrev pub results_for_type : String → List ComplianceResult → List ComplianceResult
    results_for_type canonical results = select (λ r. concerns canonical r.capability) results

    abbrev pub verifications_for_type : String → List Verification → List Verification
    verifications_for_type canonical records = select (λ v. concerns canonical v.capability) records

    -- All but the flags.
    unfoldable pub weigh :
        String → List Evidence → List ComplianceResult → List Verification → Tally F → Tally F
    weigh canonical evidence results verifications t = weigh_verifications verifications (
        weigh_results results (
          weigh_confidence policy.minimum_evidence_confidence (average_of (confidences evidence))
            (weigh_type canonical (weigh_evidence evidence t))))

    abbrev pub detail :
        DocumentInput
        → String
        → List Evidence
        → List ComplianceResult
        → List Verification
        → List String
        → Tally F
        → DocumentScoreDetail F
    detail document canonical evidence results verifications flags t =
        let importance = importance_for strip upper policy canonical in
        record {
          document_id = some document.document_id;
          document_type = canonical;
          source_document_types = document.document_type ∷ [];
          priority = importance.priority;
          weight = importance.weight;
          present = true;
          evidence_count = length evidence;
          average_evidence_confidence = average_of (confidences evidence);
          compliance_statuses = add_all (map (λ r. value_of_status r.status) results) [];
          verification_statuses =
              add_all (map (λ v. value_of_verification v.status) verifications) [];
          finding_flag_ids = flags;
          reasons = sorted_reasons t.reasons;
          score = d.round_to 2 (clamp t.score);
        }

    -- The part after the flags.
    abbrev pub settle :
        DocumentInput
        → String
        → List Evidence
        → List ComplianceResult
        → List Verification
        → List String
        → Option QualityState
        → Tally F
        → DocumentScoreDetail F
    settle document canonical evidence results verifications flags quality t =
        detail document canonical evidence results verifications flags
          (note_verified verifications (note_clean (weigh_quality quality t)))

    unfoldable pub score_typed :
        DocumentInput
        → String
        → List Evidence
        → List ComplianceResult
        → List Verification
        → List String
        → Option QualityState
        → Outcome ScoringError (DocumentScoreDetail F)
    score_typed document canonical evidence results verifications flags quality =
        weigh_flags flags (weigh canonical evidence results verifications full) >>= λ t.
        checked_detail (settle document canonical evidence results verifications flags quality t)

    unfoldable pub score_document :
        DocumentInput
        → String
        → List Evidence
        → List ComplianceResult
        → List Verification
        → List VerificationFinding
        → List IdentityFinding
        → Option QualityState
        → Outcome ScoringError (DocumentScoreDetail F)
    score_document document canonical evidence results records findings identity quality =
        let mine = results_for_type canonical results in
        score_typed document canonical evidence mine (verifications_for_type canonical records)
          (result_flags mine (
            add_all (identity_flags evidence identity)
              (add_all (finding_flags document.document_id evidence findings) [])))
          quality

    unfoldable pub score_missing : String → DocumentScoreDetail F
    score_missing document_type =
        let importance = importance_for strip upper policy document_type in
        record {
          document_id = none;
          document_type = document_type;
          source_document_types = [];
          priority = importance.priority;
          weight = importance.weight;
          present = false;
          evidence_count = 0;
          average_evidence_confidence = none;
          compliance_statuses = [];
          verification_statuses = [];
          finding_flag_ids = [];
          reasons = sorted_reasons (document_missing ∷ no_evidence ∷ []);
          score = d.float "0.0";
        }
