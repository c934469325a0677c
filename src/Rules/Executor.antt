-- ===== src/Rules/Executor.antt =====
-- src/compliance_engine/rules/base.py and executor.py: `RequirementExecutor`. The rules are the table of
-- the caller.
pub mod Aligned
use core_engine_ge_m.Base.{
  String, Bool, true, false, Option, none, some, List, [], ◌∷◌, Map, lookup, string_eq, Outcome, ok,
  raised,
}
use Prim.Native.String.{◌++◌}
use core_engine_ge_m.Rules.Model.{
  Applicability, Requirement, applicable, not_applicable, unknown, Evidence, Verification,
  ComplianceStatus, inapplicable, unverifiable, not_checked, nothing, ComplianceResult, RuleError,
}
use core_engine_ge_m.Rules.Calls.{Provider, Calls, Tracked, track}

-- `evaluate` is told whether there is a provider, and gives the calls that it makes on it.
pub record Rule : Type 0 where
  pub required_providers : List String
  pub evaluate : Bool → List Evidence → Requirement → Calls

abbrev pub is_given : Option Provider → Bool
is_given none = false
is_given (some provider) = true

-- The three results that the executor writes itself.
abbrev pub plain_result : ComplianceStatus → String → Requirement → ComplianceResult
plain_result status reason requirement = record {
  requirement_id = requirement.requirement_id;
  capability = requirement.capability;
  status = status;
  reason = reason;
  expected = requirement.expected;
  actual = nothing;
  evidence_refs = [];
  verification_refs = [];
  flags = [];
  rule_id = requirement.rule_id;
}

abbrev pub result_first :
    ComplianceResult → Tracked (List ComplianceResult) → Tracked (List ComplianceResult)
result_first r (records, ok rs) = (records, ok (r ∷ rs))
result_first r (records, raised e) = (records, raised e)

-- One round of the loop, and the rounds that are left.
abbrev pub result_then :
    Tracked ComplianceResult
    → (List Verification → Tracked (List ComplianceResult))
    → Tracked (List ComplianceResult)
result_then (records, raised e) rest = (records, raised e)
result_then (records, ok r) rest = result_first r (rest records)

-- `repr` spells the ID of a rule in a message.
module _ (repr : String → String) (evidence : List Evidence) (provider : Option Provider) where
  unfoldable pub apply_rule :
      Requirement → Option Rule → List Verification → Tracked ComplianceResult
  apply_rule requirement none records = (
    records,
    ok (
        plain_result not_checked
          ("No rule implementation found for rule_id=" ++ repr requirement.rule_id ++ ".")
          requirement),
  )
  apply_rule requirement (some rule) records =
      track provider (rule.evaluate (is_given provider) evidence requirement) records

  unfoldable pub execute_as :
      Applicability → Map String Rule → Requirement → List Verification → Tracked ComplianceResult
  execute_as not_applicable rules requirement records = (
    records,
    ok (
        plain_result inapplicable "Requirement is not applicable to this bidder or tender."
          requirement),
  )
  execute_as unknown rules requirement records = (
    records,
    ok (
        plain_result unverifiable "Requirement applicability is unknown; verification deferred."
          requirement),
  )
  execute_as applicable rules requirement records =
      apply_rule requirement (lookup requirement.rule_id rules) records

  -- The loop of `execute`: the first exception ends it.
  unfoldable pub execute :
      Map String Rule → List Requirement → List Verification → Tracked (List ComplianceResult)
  execute rules [] records = (records, ok [])
  execute rules (requirement ∷ requirements) records =
      result_then (execute_as requirement.applicability rules requirement records)
        (execute rules requirements)
