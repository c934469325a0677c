-- ===== src/Rules/Mca.antt =====
-- src/compliance_engine/rules/mca.py: `McaRegistrationRule`, for a requirement that is there. Parameters
-- are how `str` and `repr` spell a value, `str.upper`, and the Booleans that pydantic reads from a value.
use core_engine_ge_m.Base.{
  String, Bool, true, false, ◌&&◌, ◌==◌, string_eq, Option, none, some, List, [], ◌∷◌, Json, null,
  text, Map, lookup, Outcome, ok, raised, ◌>>=◌, contains, if◌then◌else◌,
}
use Prim.Native.String.{◌++◌}
use core_engine_ge_m.Rules.Model.{
  Requirement, Evidence, VerificationStatus, verified, not_found, invalid, inactive, unavailable,
  error, Verification, ComplianceStatus, pass, fail, unverifiable, inapplicable, ComplianceResult,
  RuleError, invalid_parameters, linked,
}
use core_engine_ge_m.Rules.Calls.{
  Calls, done, provided, is_null, query_field, checked_flags, required_field_missing,
  answered_result,
}
use core_engine_ge_m.Rules.Executor.{Rule, plain_result}

pub record McaParameters : Type 0 where
  pub require_registration : Option Bool
  pub required_status : Option String

-- `extra="forbid"`
abbrev pub only_known : Map String Json → Bool
only_known [] = true
only_known (entry ∷ entries) =
    contains entry.0 ("require_registration" ∷ "required_status" ∷ []) && only_known entries

abbrev pub optional_text : Option Json → Outcome RuleError (Option String)
optional_text none = ok none
optional_text (some null) = ok none
optional_text (some (text s)) = ok (some s)
optional_text (some _) = raised invalid_parameters

-- `_PROVIDER_TO_COMPLIANCE`
abbrev pub provider_to_compliance : VerificationStatus → ComplianceStatus
provider_to_compliance verified = pass
provider_to_compliance inactive = fail
provider_to_compliance invalid = fail
provider_to_compliance not_found = unverifiable
provider_to_compliance unavailable = unverifiable
provider_to_compliance error = unverifiable

-- `_FLAG_BY_STATUS`
abbrev pub flag_by_status : VerificationStatus → Option String
flag_by_status verified = none
flag_by_status inactive = some "COMPANY_INACTIVE"
flag_by_status invalid = some "CIN_INVALID"
flag_by_status not_found = some "CIN_NOT_FOUND"
flag_by_status unavailable = some "MCA_VERIFICATION_UNAVAILABLE"
flag_by_status error = some "MCA_VERIFICATION_UNAVAILABLE"

-- `_STATUS_FLAG_BY_REPORTED.get(..., "COMPANY_INACTIVE")`
abbrev pub flag_by_reported : String → String
flag_by_reported reported =
    if reported == "STRIKE_OFF"
    then "COMPANY_STRIKE_OFF"
    else if reported == "UNDER_LIQUIDATION"
    then "COMPANY_UNDER_LIQUIDATION"
    else "COMPANY_INACTIVE"

-- `_reason`
abbrev pub reason_of : VerificationStatus → String
reason_of verified = "MCA21 company registration was verified as active."
reason_of inactive = "MCA21 company registration is inactive (strike-off/liquidation)."
reason_of invalid = "CIN is invalid according to the authoritative source."
reason_of not_found = "CIN was not found in the MCA21 registry."
reason_of unavailable = "MCA21 verification source is unavailable."
reason_of error = "MCA21 verification source returned an error."

abbrev pub mca_doc_types : List String
mca_doc_types = "MCA" ∷ "MCA21" ∷ "MCA21_REGISTRATION" ∷ "COMPANY_REGISTRATION" ∷ []

-- `_find_cin_evidence`
abbrev pub find_cin_evidence : (String → String) → List Evidence → Option Evidence
find_cin_evidence upper [] = none
find_cin_evidence upper (item ∷ items) =
    let rest = find_cin_evidence upper items in
    if contains (upper item.document_type) mca_doc_types && item.field_name == "cin"
    then some item
    else rest

module _ (str repr : Json → String) (upper : String → String) (as_bool : Json → Option Bool) where
  abbrev pub optional_bool : Option Json → Outcome RuleError (Option Bool)
  optional_bool none = ok none
  optional_bool (some null) = ok none
  optional_bool (some v) = elim (as_bool v) [
    | none ↦ raised invalid_parameters
    | some b ↦ ok (some b)
  ]

  abbrev pub read_fields : Map String Json → Outcome RuleError McaParameters
  read_fields fields = optional_bool (lookup "require_registration" fields) >>= λ require.
      (optional_text (lookup "required_status" fields) >>= λ required.
      ok (record { require_registration = require; required_status = required }))

  -- `McaParameters(**(requirement.parameters or {}))`
  unfoldable pub read_parameters : Map String Json → Outcome RuleError McaParameters
  read_parameters fields =
      if only_known fields then read_fields fields else raised invalid_parameters

  -- The status that the source reports, if it is not the required one.
  abbrev pub contradiction : Option String → Option Json → Option Json
  contradiction none reported = none
  contradiction (some required) none = none
  contradiction (some required) (some reported) =
      if is_null reported then none else if str reported == required then none else some reported

  abbrev pub required_text : Option String → String
  required_text none = ""
  required_text (some required) = repr (text required)

  -- The check of the required status is made on a status that passes.
  abbrev pub contradicted : ComplianceStatus → McaParameters → Verification → Option Json
  contradicted pass params v =
      contradiction params.required_status (lookup "company_status" v.«data»)
  contradicted _ params v = none

  abbrev pub judge :
      McaParameters
      → Requirement
      → Evidence
      → Verification
      → Option Json
      → Outcome RuleError ComplianceResult
  judge params requirement cin v none = checked_flags (flag_by_status v.status) >>= λ flags. ok (
      answered_result requirement (provider_to_compliance v.status) (reason_of v.status) cin v
        flags)
  judge params requirement cin v (some reported) =
      checked_flags (some (flag_by_reported (str reported))) >>= λ flags. ok (
        answered_result requirement fail
          ("MCA21 company status "
            ++ repr reported
            ++ " does not match the required status "
            ++ required_text params.required_status
            ++ ".")
          cin v flags)

  -- The answer that is linked to the evidence is not registered.
  abbrev pub conclude :
      McaParameters → Requirement → Evidence → Outcome RuleError Verification → Calls
  conclude params requirement cin (raised e) = done (raised e)
  conclude params requirement cin (ok v) = done (
      judge params requirement cin (linked cin v)
        (contradicted (provider_to_compliance v.status) params v))

  abbrev pub missing : Requirement → List String → Calls
  missing requirement evidence_refs =
      required_field_missing requirement
        "MCA21/CIN evidence is missing, so company registration cannot be evaluated." evidence_refs

  abbrev pub evaluate_required : McaParameters → List Evidence → Requirement → Option Bool → Calls
  evaluate_required params evidence requirement (some false) = done (
      ok (
        plain_result inapplicable "MCA21 registration is not required for this tender."
          requirement))
  evaluate_required params evidence requirement _ =
      query_field str [] (missing requirement [])
        (λ cin. missing requirement (cin.evidence_id ∷ [])) (conclude params requirement)
        (find_cin_evidence upper evidence)

  abbrev pub evaluate_with : List Evidence → Requirement → Outcome RuleError McaParameters → Calls
  evaluate_with evidence requirement (raised e) = done (raised e)
  evaluate_with evidence requirement (ok params) =
      evaluate_required params evidence requirement params.require_registration

  unfoldable pub evaluate : Bool → List Evidence → Requirement → Calls
  evaluate given evidence requirement =
      provided given (evaluate_with evidence requirement (read_parameters requirement.parameters))

  -- `McaRegistrationRule`
  abbrev pub mca_rule : Rule
  mca_rule = record { required_providers = "MCA21" ∷ []; evaluate = evaluate }
