-- ===== src/Rules/GstReturns.antt =====
-- src/compliance_engine/rules/gst_return_filing.py: `GSTReturnFilingRule`, for a
-- requirement that is there. How `str` spells a value is a parameter.
pub mod Reasons
use core_engine_ge_m.Base.{
  String, Bool, true, false, not, ◌&&◌, Option, none, some, List, [], ◌∷◌, Json, null, text, Map,
  lookup, ◌==◌, string_eq, Outcome, ok, raised, if◌then◌else◌,
}
use core_engine_ge_m.Rules.Model.{
  Requirement, Evidence, VerificationStatus, verified, not_found, invalid, inactive, unavailable,
  error, Verification, ComplianceStatus, pass, fail, unverifiable, inapplicable, warning,
  not_checked, nothing, reported, ComplianceResult, RuleError, key_error, first_field, linked,
}
use core_engine_ge_m.Rules.Gst.{provider_to_compliance}
use core_engine_ge_m.Rules.Calls.{
  Calls, done, register, provided, query_field, missing_result, is_null, checked_flags,
}
use core_engine_ge_m.Rules.Executor.{Rule}

-- `filing_status == text` for a value that may not be a string, or not there
abbrev pub is_text : String → Option Json → Bool
is_text name (some (text s)) = s == name
is_text name _ = false

-- `_derive_compliance_status`
abbrev pub filing_outcome : Option Json → ComplianceStatus
filing_outcome filing_status =
    if is_text "FILED" filing_status
    then pass
    else if is_text "NOT_FILED" filing_status
    then fail
    else unverifiable

abbrev pub derive_status : VerificationStatus → Option Json → ComplianceStatus
derive_status verified filing_status = filing_outcome filing_status
derive_status status filing_status = provider_to_compliance status

-- The keys of `_REASONS` that are statuses of a verification.
abbrev pub provider_reason : VerificationStatus → Outcome RuleError String
provider_reason not_found =
    ok
      "The GSTIN was not found in the authoritative source, so the return-filing status could not be verified."
provider_reason invalid =
    ok
      "The GSTIN is invalid according to the authoritative source, so the return-filing status could not be verified."
provider_reason unavailable =
    ok "The GST return-filing source is unavailable, so the return status could not be verified."
provider_reason error =
    ok "The GST return-filing source returned an error, so the return status could not be verified."
provider_reason verified = raised key_error
provider_reason inactive = raised key_error

-- `_reason`
abbrev pub reason_for : VerificationStatus → ComplianceStatus → Outcome RuleError String
reason_for status pass = ok "The GST return was verified as filed by the authoritative source."
reason_for status fail = ok "The GST return was verified as NOT filed by the authoritative source."
reason_for status _ = provider_reason status

-- `_flags`
abbrev pub unverifiable_flag : VerificationStatus → String
unverifiable_flag unavailable = "GST_VERIFICATION_UNAVAILABLE"
unverifiable_flag _ = "GST_RETURN_EVIDENCE_MISSING"

abbrev pub flags_for : VerificationStatus → ComplianceStatus → Outcome RuleError (List String)
flags_for status fail = checked_flags (some "GST_RETURN_COMPLIANCE_ISSUE")
flags_for status unverifiable = checked_flags (some (unverifiable_flag status))
flags_for status _ = ok []

-- `_filter_value`: the first field of that name with a value, then the parameter, then "ALL".
abbrev pub parameter_value : (Json → String) → Option Json → String
parameter_value str none = "ALL"
parameter_value str (some v) = if is_null v then "ALL" else str v

unfoldable pub filter_value : (Json → String) → Requirement → String → List Evidence → String
filter_value str requirement field_name [] =
    parameter_value str (lookup field_name requirement.parameters)
filter_value str requirement field_name (item ∷ items) =
    let rest = filter_value str requirement field_name items in
    if item.document_type == "GST" && item.field_name == field_name && not (is_null item.value)
    then str item.value
    else rest

abbrev pub filing_result :
    Requirement
    → Evidence
    → Verification
    → ComplianceStatus
    → String
    → List String
    → ComplianceResult
filing_result requirement gstin v status reason flags = record {
  requirement_id = requirement.requirement_id;
  capability = requirement.capability;
  status = status;
  reason = reason;
  expected = requirement.expected;
  actual = reported v.status v.«data»;
  evidence_refs = gstin.evidence_id ∷ [];
  verification_refs = v.verification_id ∷ [];
  flags = flags;
  rule_id = requirement.rule_id;
}

-- The reason is looked up before the flags.
abbrev pub explained :
    Requirement
    → Evidence
    → Verification
    → ComplianceStatus
    → Outcome RuleError String
    → Outcome RuleError (List String)
    → Outcome RuleError ComplianceResult
explained requirement gstin v status (raised e) flags = raised e
explained requirement gstin v status (ok reason) (raised e) = raised e
explained requirement gstin v status (ok reason) (ok flags) =
    ok (filing_result requirement gstin v status reason flags)

-- The status that the rule derives from an answer.
abbrev pub status_of : Verification → ComplianceStatus
status_of v = derive_status v.status (lookup "filing_status" v.«data»)

abbrev pub result_of : Requirement → Evidence → Verification → Outcome RuleError ComplianceResult
result_of requirement gstin v =
    explained requirement gstin v (status_of v) (reason_for v.status (status_of v))
      (flags_for v.status (status_of v))

-- An exception of the provider goes on to the caller.
abbrev pub conclude : Requirement → Evidence → Outcome RuleError Verification → Calls
conclude requirement gstin (raised e) = done (raised e)
conclude requirement gstin (ok v) =
    register (linked gstin v) (done (result_of requirement gstin (linked gstin v)))

abbrev pub missing : Requirement → String → List String → Calls
missing requirement reason evidence_refs =
    done (ok (missing_result requirement reason evidence_refs []))

-- The keyword arguments of the query.
unfoldable pub filters : (Json → String) → Requirement → List Evidence → Map String String
filters str requirement evidence =
    ("financial_year", filter_value str requirement "financial_year" evidence)
    ∷ ("return_type", filter_value str requirement "return_type" evidence)
    ∷ []

unfoldable pub evaluate : (Json → String) → Bool → List Evidence → Requirement → Calls
evaluate str given evidence requirement = provided given (
    query_field str (filters str requirement evidence)
      (missing requirement
        "GSTIN evidence is missing, so GST return-filing status cannot be evaluated." [])
      (λ gstin.
        missing requirement
          "GSTIN evidence is present but the extracted value is null, so GST return-filing status cannot be evaluated."
          (gstin.evidence_id ∷ []))
      (conclude requirement) (first_field "GST" "gstin" evidence))

-- `GSTReturnFilingRule`
abbrev pub gst_return_rule : (Json → String) → Rule
gst_return_rule str = record {
  required_providers = "GST_RETURN_FILING" ∷ [];
  evaluate = evaluate str;
}
