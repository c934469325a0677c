-- ===== src/Rules/Pan.antt =====
-- src/compliance_engine/rules/pan.py: `PANValidationRule`, for a requirement that is there. How `str`
-- spells a value is a parameter.
use core_engine_ge_m.Base.{
  String, Bool, Option, none, some, List, [], ◌∷◌, Json, Outcome, ok, raised, ◌>>=◌,
}
use core_engine_ge_m.Rules.Model.{
  Requirement, Evidence, VerificationStatus, verified, not_found, invalid, inactive, unavailable,
  error, Verification, ComplianceStatus, pass, fail, unverifiable, RuleError, first_field,
}
use core_engine_ge_m.Rules.Calls.{
  Calls, done, provided, query_field, checked_flags, required_field_missing, answered_result,
}
use core_engine_ge_m.Rules.Executor.{Rule}

-- `_PROVIDER_TO_COMPLIANCE`
abbrev pub provider_to_compliance : VerificationStatus → ComplianceStatus
provider_to_compliance verified = pass
provider_to_compliance inactive = fail
provider_to_compliance invalid = fail
provider_to_compliance not_found = unverifiable
provider_to_compliance unavailable = unverifiable
provider_to_compliance error = unverifiable

-- `_FLAG_BY_STATUS`
abbrev pub flag_by_status : VerificationStatus → Option String
flag_by_status verified = none
flag_by_status inactive = some "PAN_INACTIVE"
flag_by_status invalid = some "PAN_INVALID"
flag_by_status not_found = some "PAN_NOT_FOUND"
flag_by_status unavailable = some "PAN_VERIFICATION_UNAVAILABLE"
flag_by_status error = some "PAN_VERIFICATION_UNAVAILABLE"

-- `_REASONS`
abbrev pub reason_of : VerificationStatus → String
reason_of verified = "PAN was verified successfully by the authoritative source and is active."
reason_of inactive = "PAN is inactive according to the authoritative source."
reason_of invalid = "PAN is invalid according to the authoritative source."
reason_of not_found = "PAN was not found in the authoritative source, so it could not be verified."
reason_of unavailable =
    "The PAN verification source is unavailable, so PAN validity could not be confirmed."
reason_of error =
    "The PAN verification source returned an error, so PAN validity could not be confirmed."

-- An exception of the provider goes on to the caller.
abbrev pub conclude : Requirement → Evidence → Outcome RuleError Verification → Calls
conclude requirement pan (raised e) = done (raised e)
conclude requirement pan (ok v) = done (
    checked_flags (flag_by_status v.status) >>= λ flags. ok (
      answered_result requirement (provider_to_compliance v.status) (reason_of v.status) pan v
        flags))

unfoldable pub evaluate : (Json → String) → Bool → List Evidence → Requirement → Calls
evaluate str given evidence requirement = provided given (
    query_field str []
      (required_field_missing requirement
        "PAN evidence is missing, so PAN validity cannot be evaluated." [])
      (λ pan.
        required_field_missing requirement
          "PAN evidence is present but the extracted value is null, so PAN validity cannot be evaluated."
          (pan.evidence_id ∷ []))
      (conclude requirement) (first_field "PAN" "pan_number" evidence))

-- `PANValidationRule`
abbrev pub pan_rule : (Json → String) → Rule
pan_rule str = record { required_providers = "PAN_INCOME_TAX" ∷ []; evaluate = evaluate str }
