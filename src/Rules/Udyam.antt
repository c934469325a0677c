-- ===== src/Rules/Udyam.antt =====
-- src/compliance_engine/rules/udyam.py: `UdyamRegistrationRule`, for a requirement that is there. How `str`
-- spells a value is a parameter.
use core_engine_ge_m.Base.{
  String, Bool, Option, none, some, List, [], ◌∷◌, Json, Outcome, ok, raised, ◌>>=◌,
}
use core_engine_ge_m.Rules.Model.{
  Requirement, Evidence, VerificationStatus, verified, not_found, invalid, inactive, unavailable,
  error, Verification, ComplianceStatus, pass, fail, unverifiable, RuleError, first_field,
}
use core_engine_ge_m.Rules.Calls.{
  Calls, done, provided, query_field, checked_flags, required_field_missing, answered_result,
}
use core_engine_ge_m.Rules.Executor.{Rule}

-- `_PROVIDER_TO_COMPLIANCE`
abbrev pub provider_to_compliance : VerificationStatus → ComplianceStatus
provider_to_compliance verified = pass
provider_to_compliance inactive = fail
provider_to_compliance invalid = fail
provider_to_compliance not_found = unverifiable
provider_to_compliance unavailable = unverifiable
provider_to_compliance error = unverifiable

-- `_FLAG_BY_STATUS`
abbrev pub flag_by_status : VerificationStatus → Option String
flag_by_status verified = none
flag_by_status inactive = some "UDYAM_INACTIVE"
flag_by_status invalid = some "UDYAM_INVALID"
flag_by_status not_found = some "UDYAM_NOT_FOUND"
flag_by_status unavailable = some "UDYAM_VERIFICATION_UNAVAILABLE"
flag_by_status error = some "UDYAM_VERIFICATION_UNAVAILABLE"

-- `_REASONS`
abbrev pub reason_of : VerificationStatus → String
reason_of verified =
    "Udyam registration was verified successfully by the authoritative source and is active."
reason_of inactive = "Udyam registration is inactive according to the authoritative source."
reason_of invalid = "Udyam registration number is invalid according to the authoritative source."
reason_of not_found =
    "Udyam registration was not found in the authoritative source, so it could not be verified."
reason_of unavailable =
    "The Udyam verification source is unavailable, so registration validity could not be confirmed."
reason_of error =
    "The Udyam verification source returned an error, so registration validity could not be confirmed."

-- An exception of the provider goes on to the caller.
abbrev pub conclude : Requirement → Evidence → Outcome RuleError Verification → Calls
conclude requirement udyam (raised e) = done (raised e)
conclude requirement udyam (ok v) = done (
    checked_flags (flag_by_status v.status) >>= λ flags. ok (
      answered_result requirement (provider_to_compliance v.status) (reason_of v.status) udyam v
        flags))

unfoldable pub evaluate : (Json → String) → Bool → List Evidence → Requirement → Calls
evaluate str given evidence requirement = provided given (
    query_field str []
      (required_field_missing requirement
        "Udyam registration evidence is missing, so validity cannot be evaluated." [])
      (λ udyam.
        required_field_missing requirement
          "Udyam registration evidence is present but the extracted value is null, so validity cannot be evaluated."
          (udyam.evidence_id ∷ []))
      (conclude requirement) (first_field "UDYAM" "udyam_registration_number" evidence))

-- `UdyamRegistrationRule`
abbrev pub udyam_rule : (Json → String) → Rule
udyam_rule str = record { required_providers = "UDYAM" ∷ []; evaluate = evaluate str }
