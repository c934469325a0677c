-- ===== src/Rules/Tests.antt =====
-- The executor and the rules at concrete evidence.
use core_engine_ge_m.Base.{
  ◌≡◌, ◌↔◌, refl, String, Bool, true, Option, none, some, [], ◌∷◌, Json, null, text, bool, Map,
  lookup, string_eq, ok, raised, Bool-cases, inl, inr, ◌==◌,
}
use core_engine_ge_m.Rules.Model.{
  Requirement, applicable, Evidence, Verification, verified, pass, fail, key_error, first_field,
  linked,
}
use core_engine_ge_m.Rules.Calls.{Provider, done, track, answered_result}
use core_engine_ge_m.Rules.Registered.{company_under_liquidation_registered}
use core_engine_ge_m.Rules.Executor.{Rule, plain_result, execute}
use core_engine_ge_m.Rules.Executor.Aligned.{KeepsId, Aligned, execute-Aligned}
use core_engine_ge_m.Rules.Passing.{Passes, Answered}
use core_engine_ge_m.Rules.Gst
use core_engine_ge_m.Rules.Gst.Passing.{Says, Passes-iff}
use core_engine_ge_m.Rules.GstReturns
use core_engine_ge_m.Rules.GstReturns.Reasons.{Asked, evaluate_lem}
use core_engine_ge_m.Rules.Pan
use core_engine_ge_m.Rules.Udyam
use core_engine_ge_m.Rules.Mca
use core_engine_ge_m.Rules.Mca.{read_parameters}
use core_engine_ge_m.Rules.Company.{Cleared}
use core_engine_ge_m.Rules.Registrations.{registrations_pass}

abbrev requirement : Requirement
requirement = record {
  requirement_id = "R1";
  capability = "GST";
  description = "GST registration";
  mandatory = true;
  applicability = applicable;
  operator = none;
  expected = null;
  parameters = [];
  required_evidence = [];
  required_source = none;
  rule_id = "GST_REGISTRATION_001";
}

abbrev gstin : Evidence
gstin = record {
  evidence_id = "E1";
  bidder_id = "B1";
  document_id = "D1";
  document_type = "GST";
  field_name = "gstin";
  value = text "27AAAAA0000A1Z5";
  confidence = none;
  page = none;
  bbox = none;
  missing_reason = none;
}

abbrev answer : Map String Json → Verification
answer fields = record {
  verification_id = "V1";
  bidder_id = "B1";
  capability = "GST";
  source = "GSTN";
  queried_identifier = none;
  status = verified;
  «data» = fields;
  retrieved_at = 5;
  evidence_id = none;
  document_id = none;
  query = none;
  raw_response = null;
  latency_ms = none;
  correlation_id = none;
  transport_status_code = none;
}

abbrev str : Json → String
str (text s) = s
str _ = ""

abbrev provider : Map String Json → Provider
provider fields bidder_id id options = ok (answer fields)

abbrev pan : Evidence
pan = record gstin { document_type = "PAN"; field_name = "pan_number"; value = text "AAAAA0000A" }

Passes-iff_example :
    Passes (track (some (provider [])) (Gst.evaluate str true (gstin ∷ []) requirement) [])
    ↔ Answered (provider []) str [] (first_field "GST" "gstin" (gstin ∷ [])) (Says verified)
Passes-iff_example = Passes-iff (provider []) str requirement [] (gstin ∷ [])

abbrev quote : Json → String
quote v = str v

abbrev same : String → String
same s = s

abbrev as_bool : Json → Option Bool
as_bool (bool b) = some b
as_bool _ = none

registrations_pass_example :
    (Passes (track (some (provider [])) (Pan.evaluate str true (pan ∷ []) requirement) [])
      ↔ Answered (provider []) str [] (first_field "PAN" "pan_number" (pan ∷ [])) (Says verified))
    × (Passes (track (some (provider [])) (Udyam.evaluate str true (pan ∷ []) requirement) [])
        ↔ Answered
            (provider [])
            str
            []
            (first_field "UDYAM" "udyam_registration_number" (pan ∷ []))
            (Says verified))
    × (Passes (
          track
            (some (provider []))
            (Mca.evaluate str quote same as_bool true (pan ∷ []) requirement)
            [])
        ↔ Cleared (provider []) str quote same as_bool requirement [] (pan ∷ []))
registrations_pass_example =
    registrations_pass (provider []) str quote same as_bool requirement [] (pan ∷ [])

-- A verified company under liquidation fails where the tender requires an active one.
liquidated :
    (track
      (some (provider (("company_status", text "UNDER_LIQUIDATION") ∷ [])))
      (Mca.evaluate str quote same as_bool true
        (record gstin { document_type = "MCA"; field_name = "cin" } ∷ [])
        (record requirement { parameters = ("required_status", text "ACTIVE") ∷ [] }))
      []).1
    ≡ ok (
        answered_result requirement fail
          "MCA21 company status UNDER_LIQUIDATION does not match the required status ACTIVE." gstin
          (answer (("company_status", text "UNDER_LIQUIDATION") ∷ []))
          ("COMPANY_UNDER_LIQUIDATION" ∷ []))
unfolding track Mca.evaluate read_parameters lookup
liquidated = rw company_under_liquidation_registered refl

-- The provider answers VERIFIED with a filing status of its own: the rule raises.
asked :
    Asked
      (provider (("filing_status", text "LATE") ∷ []))
      str
      requirement
      []
      (gstin ∷ [])
      gstin
      (answer (("filing_status", text "LATE") ∷ []))
asked = record { found = refl; valued = refl; answers = refl }

evaluate_lem_example :
    ((track
        (some (provider (("filing_status", text "LATE") ∷ [])))
        (GstReturns.evaluate str true (gstin ∷ []) requirement)
        []).0
      ≡ linked gstin (answer (("filing_status", text "LATE") ∷ [])) ∷ [])
    × ((track
          (some (provider (("filing_status", text "LATE") ∷ [])))
          (GstReturns.evaluate str true (gstin ∷ []) requirement)
          []).1
        ≡ raised key_error)
unfolding lookup
evaluate_lem_example =
    evaluate_lem (provider (("filing_status", text "LATE") ∷ [])) str requirement [] (gstin ∷ [])
      gstin (answer (("filing_status", text "LATE") ∷ [])) asked

abbrev passing : Rule
passing = record {
  required_providers = [];
  evaluate = λ given evidence r. done (ok (plain_result pass "passed" r));
}

passing-KeepsId : (id : String) → KeepsId none (lookup id (("GST_REGISTRATION_001", passing) ∷ []))
unfolding lookup track
passing-KeepsId id = elim (Bool-cases ("GST_REGISTRATION_001" == id)) [
  | inl found ↦ rw found (λ evidence r records. refl)
  | inr other ↦ rw other tt
]

execute-Aligned_example :
    Aligned (requirement ∷ record requirement { requirement_id = "R2"; rule_id = "OTHER" } ∷ []) (
      execute same
        (gstin ∷ [])
        none
        (("GST_REGISTRATION_001", passing) ∷ [])
        (requirement ∷ record requirement { requirement_id = "R2"; rule_id = "OTHER" } ∷ [])
        [])
execute-Aligned_example =
    execute-Aligned same (gstin ∷ []) none (("GST_REGISTRATION_001", passing) ∷ [])
      (requirement ∷ record requirement { requirement_id = "R2"; rule_id = "OTHER" } ∷ []) []
      passing-KeepsId
