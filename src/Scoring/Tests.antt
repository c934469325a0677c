-- ===== src/Scoring/Tests.antt =====
-- A bidder's documents, with floats that are whole hundredths.
use Prim.Native.Nat.{◌/◌}
use core_engine_ge_m.Base.{
  ℕ, ◌+◌, ◌-◌, ◌*◌, ◌≡◌, refl, String, true, false, Option, none, some, List, [], ◌∷◌, null, text,
  Map, lookup, insert, string_eq, ◌==◌, inl, ok, ltb, if◌then◌else◌, arith,
}
use core_engine_ge_m.Rules.Model.{Evidence, ComplianceResult, fail, nothing}
use core_engine_ge_m.Scoring.Numbers.{Floats, IsOrdered, clamp}
use core_engine_ge_m.Scoring.Model.{
  DocumentInput, DocumentScoreDetail, BidderDocumentScore, red, critical, compliance_failed,
  material_finding,
}
use core_engine_ge_m.Scoring.Policy.{
  default_policy, normalize_document_type, importance_for, expected_documents_for,
}
use core_engine_ge_m.Scoring.Document.{
  concerns, finding_flags, identity_flags, weigh, weigh_flags, score_typed, score_document,
  score_missing,
}
use core_engine_ge_m.Scoring.{
  Sources, score, score_documents, canonical_type, expected_types, weighted_score, categorize,
  is_red, summary,
}
use core_engine_ge_m.Scoring.Lights.{failure_is_red, is_weighty}
use core_engine_ge_m.Scoring.Returns.{IsKnown, score_lem, Scores}
use core_engine_ge_m.Flags.{flags, registry_from, get_flag_definition}
use core_engine_ge_m.Flags.Model.{flag, high}

-- The literals of the code.
abbrev hundredths : Map String ℕ
hundredths =
    ("100.0", 10000)
    ∷ ("80.0", 8000)
    ∷ ("60.0", 6000)
    ∷ ("50.0", 5000)
    ∷ ("45.0", 4500)
    ∷ ("40.0", 4000)
    ∷ ("35.0", 3500)
    ∷ ("30.0", 3000)
    ∷ ("25.0", 2500)
    ∷ ("20.0", 2000)
    ∷ ("15.0", 1500)
    ∷ ("1.0", 100)
    ∷ ("0.8", 80)
    ∷ ("0.70", 70)
    ∷ ("0.55", 55)
    ∷ ("0.25", 25)
    ∷ []

abbrev read : Option ℕ → ℕ
read none = 0
read (some n) = n

abbrev total : List ℕ → ℕ
total [] = 0
total (x ∷ xs) = x + total xs

instance abbrev cents : Floats ℕ
cents = record {
  float = λ s. read (lookup s hundredths);
  whole = λ n. n * 100;
  plus = λ a b. a + b;
  minus = λ a b. a - b;
  times = λ a b. a * b;
  over = λ a b. a / b;
  sum = total;
  lt = ltb;
  is_nan = λ a. false;
  is_infinite = λ a. false;
  round_to = λ n a. a;
  fixed = λ n a. "";
}

cents-IsOrdered : IsOrdered ℕ
unfolding lookup
cents-IsOrdered = record {
  lt_asym = λ x y h. ground arith;
  zero-lt = refl;
  round_mono = λ n x y h. h;
  round-zero = refl;
  round-hundred = refl;
}

abbrev same : String → String
same s = s

abbrev blank : ℕ → String
blank n = ""

abbrev document : DocumentInput
document = record { document_id = "D1"; document_type = "gst certificate" }

abbrev item : Evidence
item = record {
  evidence_id = "E1";
  bidder_id = "B1";
  document_id = "D1";
  document_type = "GST";
  field_name = "gstin";
  value = text "27AAAAA0000A1Z5";
  confidence = none;
  page = none;
  bbox = none;
  missing_reason = none;
}

abbrev failed : ComplianceResult
failed = record {
  requirement_id = "R1";
  capability = "GST";
  status = fail;
  reason = "";
  expected = null;
  actual = nothing;
  evidence_refs = [];
  verification_refs = [];
  flags = "GST_INACTIVE" ∷ [];
  rule_id = "GST_REGISTRATION_001";
}

abbrev given : Sources
given = record {
  requirements = [];
  evidence = item ∷ [];
  compliance_results = failed ∷ [];
  verification_records = [];
  findings = [];
  identity_findings = [];
  quality_by_document_id = [];
}

abbrev upper : String → String
upper s = if s == "gst certificate" then "GST CERTIFICATE" else s

typed : canonical_type {F = ℕ} same upper default_policy "gst certificate" ≡ "GST"
unfolding canonical_type normalize_document_type lookup
typed = refl

abbrev detail : DocumentScoreDetail ℕ
detail = record {
  document_id = some "D1";
  document_type = "GST";
  source_document_types = "gst certificate" ∷ [];
  priority = critical;
  weight = 100;
  present = true;
  evidence_count = 1;
  average_evidence_confidence = none;
  compliance_statuses = "FAIL" ∷ [];
  verification_statuses = [];
  finding_flag_ids = "GST_INACTIVE" ∷ [];
  reasons = compliance_failed ∷ material_finding ∷ [];
  score = 1500;
}

abbrev result : BidderDocumentScore ℕ
result = record {
  bidder_id = "B1";
  submission_id = none;
  score = 1500;
  category = red;
  documents = detail ∷ [];
  reason_codes = compliance_failed ∷ material_finding ∷ [];
  summary = "Bidder B1: RED document score /100 across  document type(s); priority issues: GST.";
}

ran : score same upper default_policy blank "B1" none (document ∷ []) given ≡ ok result
unfolding score score_documents score_document score_typed weigh weigh_flags canonical_type
    normalize_document_type importance_for expected_documents_for expected_types weighted_score
    categorize is_red summary lookup finding_flags identity_flags clamp score_missing
    get_flag_definition flags registry_from insert
ran = refl

concerned :
    concerns {F = ℕ} same upper default_policy
      (canonical_type {F = ℕ} same upper default_policy "gst certificate")
      "GST"
    ≡ true
unfolding canonical_type normalize_document_type expected_documents_for lookup
concerned = refl

weighty :
    is_weighty
      (importance_for {F = ℕ} same upper default_policy
        (canonical_type {F = ℕ} same upper default_policy "gst certificate")).priority
    ≡ true
unfolding canonical_type normalize_document_type importance_for lookup
weighty = refl

failure_is_red_example : result.category ≡ red
failure_is_red_example =
    failure_is_red same upper default_policy blank "B1" none (document ∷ []) given result document
      failed ran (inl refl) (inl refl) refl concerned weighty

inactive : IsKnown "GST_INACTIVE"
unfolding get_flag_definition flags registry_from lookup insert
inactive = (
  flag "GST_INACTIVE" high "GST / GSTN" "GST registration inactive" "GST registration inactive",
  refl,
)

score_lem_example : Scores {F = ℕ} same upper default_policy blank "B1" none (document ∷ []) given
score_lem_example =
    score_lem cents-IsOrdered same upper default_policy blank "B1" none (document ∷ []) given
      (tt, tt, ((inactive, tt), tt))
