-- ===== src/Rules/Gst.antt =====
-- src/compliance_engine/rules/gst.py: `GSTRegistrationRule`, for a requirement that is there. How `str`
-- spells a value is a parameter.
pub mod Passing
use core_engine_ge_m.Base.{String, Bool, List, [], ◌∷◌, Json, Outcome, ok, raised}
use core_engine_ge_m.Rules.Model.{
  Requirement, Evidence, VerificationStatus, verified, not_found, invalid, inactive, unavailable,
  error, Verification, ComplianceStatus, pass, fail, unverifiable, reported, ComplianceResult,
  RuleError, first_field, linked,
}
use core_engine_ge_m.Rules.Calls.{Calls, done, register, provided, query_field, missing_result}
use core_engine_ge_m.Rules.Executor.{Rule}

-- `_PROVIDER_TO_COMPLIANCE`
abbrev pub provider_to_compliance : VerificationStatus → ComplianceStatus
provider_to_compliance verified = pass
provider_to_compliance inactive = fail
provider_to_compliance invalid = fail
provider_to_compliance not_found = unverifiable
provider_to_compliance unavailable = unverifiable
provider_to_compliance error = unverifiable

-- `_reason`: only a verified answer passes, so each status has its text.
abbrev pub reason_of : VerificationStatus → String
reason_of verified =
    "GST registration was verified as valid and active by the authoritative source."
reason_of inactive = "GST registration is inactive according to the authoritative source."
reason_of invalid = "GSTIN is invalid according to the authoritative source."
reason_of not_found =
    "GSTIN was not found in the authoritative source, so registration could not be verified."
reason_of unavailable =
    "The GST verification source is unavailable, so registration could not be verified."
reason_of error =
    "The GST verification source returned an error, so registration could not be verified."

abbrev pub verified_result : Requirement → Evidence → Verification → ComplianceResult
verified_result requirement gstin v = record {
  requirement_id = requirement.requirement_id;
  capability = requirement.capability;
  status = provider_to_compliance v.status;
  reason = reason_of v.status;
  expected = requirement.expected;
  actual = reported v.status v.«data»;
  evidence_refs = gstin.evidence_id ∷ [];
  verification_refs = v.verification_id ∷ [];
  flags = [];
  rule_id = requirement.rule_id;
}

-- An exception of the provider goes on to the caller.
abbrev pub conclude : Requirement → Evidence → Outcome RuleError Verification → Calls
conclude requirement gstin (raised e) = done (raised e)
conclude requirement gstin (ok v) =
    register (linked gstin v) (done (ok (verified_result requirement gstin (linked gstin v))))

abbrev pub missing : Requirement → String → List String → Calls
missing requirement reason evidence_refs =
    done (ok (missing_result requirement reason evidence_refs ("GSTIN_MISSING" ∷ [])))

unfoldable pub evaluate : (Json → String) → Bool → List Evidence → Requirement → Calls
evaluate str given evidence requirement = provided given (
    query_field str []
      (missing requirement "GSTIN evidence is missing, so GST registration cannot be evaluated." [])
      (λ gstin.
        missing requirement
          "GSTIN evidence is present but the extracted value is null, so GST registration cannot be evaluated."
          (gstin.evidence_id ∷ []))
      (conclude requirement) (first_field "GST" "gstin" evidence))

-- `GSTRegistrationRule`
abbrev pub gst_rule : (Json → String) → Rule
gst_rule str = record { required_providers = "GST" ∷ []; evaluate = evaluate str }
