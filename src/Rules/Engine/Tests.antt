-- ===== src/Rules/Engine/Tests.antt =====
-- The engine with two providers, on a tender of four requirements.
use mathlib.Core.List.{Perm}
use core_engine_ge_m.Base.{
  ◌≡◌, refl, String, Bool, true, Option, none, some, List, [], ◌∷◌, Json, null, text, bool, Map,
  map, lookup, insert, string_eq, Outcome, ok, raised, Bool-cases, inl, inr, ◌==◌, All,
}
use core_engine_ge_m.Rules.Model.{
  Requirement, applicable, Evidence, Verification, verified, RuleError, ComplianceResult,
  EngineResult, nothing, linked, unverifiable,
}
use core_engine_ge_m.Rules.Calls.{Provider, track}
use core_engine_ge_m.Rules.Executor.{Rule, execute, execute_as, apply_rule}
use core_engine_ge_m.Rules.Gst
use core_engine_ge_m.Rules.Gst.{gst_rule}
use core_engine_ge_m.Rules.GstReturns.{gst_return_rule}
use core_engine_ge_m.Rules.Pan.{pan_rule}
use core_engine_ge_m.Rules.Udyam.{udyam_rule}
use core_engine_ge_m.Rules.Mca.{mca_rule}
use core_engine_ge_m.Rules.Engine.{
  run, group, evaluate_groups, group_results, results_without_provider, first_bidder, engine_result,
}
use core_engine_ge_m.Rules.Engine.Single.{verdict}
use core_engine_ge_m.Rules.Engine.Complete.{Has, run_complete}
use core_engine_ge_m.Rules.Engine.Backed.{IsBackedIf, Backed}
use core_engine_ge_m.Rules.Engine.Verified.{
  gst-IsBacked, gst_return-IsBacked, pan-IsBacked, udyam-IsBacked, mca-IsBacked,
}
use core_engine_ge_m.Rules.Engine.Audit.{run-Backed}

abbrev requirement : String → String → String → Requirement
requirement requirement_id capability rule_id = record {
  requirement_id = requirement_id;
  capability = capability;
  description = "";
  mandatory = true;
  applicability = applicable;
  operator = none;
  expected = null;
  parameters = [];
  required_evidence = [];
  required_source = none;
  rule_id = rule_id;
}

abbrev requirements : List Requirement
requirements =
    requirement "R1" "GST" "GST_REGISTRATION_001"
    ∷ requirement "R2" "UDYAM" "UDYAM_REGISTRATION_001"
    ∷ requirement "R3" "GST" "OTHER"
    ∷ []

abbrev gstin : Evidence
gstin = record {
  evidence_id = "E1";
  bidder_id = "B1";
  document_id = "D1";
  document_type = "GST";
  field_name = "gstin";
  value = text "27AAAAA0000A1Z5";
  confidence = none;
  page = none;
  bbox = none;
  missing_reason = none;
}

abbrev answer : Verification
answer = record {
  verification_id = "V1";
  bidder_id = "B1";
  capability = "GST";
  source = "GSTN";
  queried_identifier = none;
  status = verified;
  «data» = [];
  retrieved_at = 5;
  evidence_id = none;
  document_id = none;
  query = none;
  raw_response = null;
  latency_ms = none;
  correlation_id = none;
  transport_status_code = none;
}

abbrev str : Json → String
str (text s) = s
str _ = ""

abbrev same : String → String
same s = s

abbrev as_bool : Json → Option Bool
as_bool (bool b) = some b
as_bool _ = none

abbrev rules : Map String Rule
rules =
    ("GST_REGISTRATION_001", gst_rule str)
    ∷ ("GST_RETURN_FILING_001", gst_return_rule str)
    ∷ ("PAN_VALIDATION_001", pan_rule str)
    ∷ ("UDYAM_REGISTRATION_001", udyam_rule str)
    ∷ ("MCA21_REGISTRATION_001", mca_rule str str same as_bool)
    ∷ []

abbrev gstn : Provider
gstn bidder_id identifier options = ok answer

abbrev providers : Map String Provider
providers = ("GST", gstn) ∷ []

rules-IsBacked : (id : String) → IsBackedIf (lookup id rules)
unfolding lookup
rules-IsBacked id = elim (Bool-cases ("GST_REGISTRATION_001" == id)) [
  | inl a ↦ rw a (gst-IsBacked str)
  | inr b ↦ rw b (elim (Bool-cases ("GST_RETURN_FILING_001" == id)) [
    | inl a ↦ rw a (gst_return-IsBacked str)
    | inr c ↦ rw c (elim (Bool-cases ("PAN_VALIDATION_001" == id)) [
      | inl a ↦ rw a (pan-IsBacked str)
      | inr d ↦ rw d (elim (Bool-cases ("UDYAM_REGISTRATION_001" == id)) [
        | inl a ↦ rw a (udyam-IsBacked str)
        | inr e ↦ rw e (elim (Bool-cases ("MCA21_REGISTRATION_001" == id)) [
          | inl a ↦ rw a (mca-IsBacked str str same as_bool)
          | inr f ↦ rw f tt
        ])
      ])
    ])
  ])
]

abbrev value_of : Outcome RuleError ComplianceResult → ComplianceResult
value_of (ok r) = r
value_of (raised e) = record {
  requirement_id = "";
  capability = "";
  status = unverifiable;
  reason = "";
  expected = null;
  actual = nothing;
  evidence_refs = [];
  verification_refs = [];
  flags = [];
  rule_id = "";
}

abbrev value : Requirement → ComplianceResult
value q = value_of (verdict same rules providers (gstin ∷ []) q)

Has-values : All (Has same rules providers (gstin ∷ []) value) requirements
unfolding lookup execute_as apply_rule track Gst.evaluate
Has-values = (refl, (refl, (refl, tt)))

run_complete_example :
    (result : EngineResult) × (run same rules providers (gstin ∷ []) requirements (some "S1") 7
      ≡ ok result)
    × Perm result.compliance_results (map value requirements)
    × (result.bidder_id ≡ first_bidder (gstin ∷ []))
    × (result.submission_id ≡ some "S1")
run_complete_example =
    run_complete same rules providers (gstin ∷ []) value requirements (some "S1") 7 Has-values

-- The result of the group of GST comes first.
abbrev result : EngineResult
result = engine_result (gstin ∷ []) (some "S1") 7 (
  value (requirement "R1" "GST" "GST_REGISTRATION_001")
      ∷ value (requirement "R3" "GST" "OTHER")
      ∷ value (requirement "R2" "UDYAM" "UDYAM_REGISTRATION_001")
      ∷ [],
  linked gstin answer ∷ [],
)

ran : run same rules providers (gstin ∷ []) requirements (some "S1") 7 ≡ ok result
unfolding run group evaluate_groups group_results results_without_provider execute execute_as
    apply_rule track Gst.evaluate lookup insert
ran = refl

run-Backed_example : All (Backed result.verification_records) result.compliance_results
unfolding lookup execute_as apply_rule track Gst.evaluate
run-Backed_example =
    run-Backed same rules rules-IsBacked providers (gstin ∷ []) requirements (some "S1") 7 result
      ran
