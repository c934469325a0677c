-- ===== src/Rules/Engine.antt =====
-- src/compliance_engine/engine.py: `ComplianceEngine`, with the rules and the providers that it is given.
-- `repr` spells a string in a message.
pub mod Single
pub mod Grouped
pub mod Complete
pub mod Backed
pub mod Sources
pub mod Verified
pub mod Trails
pub mod Audit
mod Tests
use core_engine_ge_m.Base.{
  ℕ, String, Bool, true, false, Option, none, some, List, [], ◌∷◌, ◌++◌, map, Map, lookup, insert,
  string_eq, Outcome, ok, raised, ◌>>=◌, select, if◌then◌else◌,
}
use Prim.Native.String
use core_engine_ge_m.Rules.Model.{
  Applicability, Requirement, applicable, not_applicable, unknown, Evidence, Verification,
  unverifiable, ComplianceResult, RuleError, EngineResult,
}
use core_engine_ge_m.Rules.Calls.{Provider, Tracked}
use core_engine_ge_m.Rules.Executor.{Rule, plain_result, execute}

-- `grouped[requirement.capability].append(requirement)`
abbrev pub append_to : Option (List Requirement) → Requirement → List Requirement
append_to none requirement = requirement ∷ []
append_to (some requirements) requirement = requirements ++ requirement ∷ []

-- The groups by capability, on top of those so far.
unfoldable pub group :
    List Requirement → Map String (List Requirement) → Map String (List Requirement)
group [] groups = groups
group (requirement ∷ requirements) groups = group requirements (
    insert requirement.capability (append_to (lookup requirement.capability groups) requirement)
      groups)

-- The three lists that the requirements of a capability without a provider are sorted into.
pub data Need : Type 0 where
  withheld provider_free provider_needed : Need

abbrev pub is_empty {ℓ} : {A : Type ℓ} → List A → Bool
is_empty [] = true
is_empty (x ∷ xs) = false

abbrev pub need_of_rule : Option Rule → Need
need_of_rule none = provider_needed
need_of_rule (some rule) =
    if is_empty rule.required_providers then provider_free else provider_needed

abbrev pub need_as : Applicability → Option Rule → Need
need_as not_applicable rule = withheld
need_as unknown rule = withheld
need_as applicable rule = need_of_rule rule

abbrev pub is_need : Need → Need → Bool
is_need withheld withheld = true
is_need provider_free provider_free = true
is_need provider_needed provider_needed = true
is_need _ _ = false

-- What a group gives: its results, and the verifications that were kept.
abbrev pub Evaluated : Type 0
Evaluated = Outcome RuleError (List ComplianceResult × List Verification)

abbrev pub with_records : Tracked (List ComplianceResult) → Evaluated
with_records (records, raised e) = raised e
with_records (records, ok rs) = ok (rs, records)

abbrev pub first_bidder : List Evidence → Option String
first_bidder [] = none
first_bidder (item ∷ items) = some item.bidder_id

abbrev pub engine_result :
    List Evidence → Option String → ℕ → List ComplianceResult × List Verification → EngineResult
engine_result evidence submission_id now found = record {
  bidder_id = first_bidder evidence;
  submission_id = submission_id;
  evaluated_at = now;
  compliance_results = found.0;
  identity_findings = [];
  verification_records = found.1;
}

module _ (repr : String → String) (rules : Map String Rule) (providers : Map String Provider) where
  abbrev pub need_of : Requirement → Need
  need_of requirement = need_as requirement.applicability (lookup requirement.rule_id rules)

  abbrev pub no_provider_result : Requirement → ComplianceResult
  no_provider_result requirement =
      plain_result unverifiable
        (String.◌++◌ "No verification provider is registered for capability "
          (String.◌++◌ (repr requirement.capability) "; the requirement could not be verified."))
        requirement

  -- `_results_for_capability_without_provider`: an empty list has no results.
  unfoldable pub results_without_provider :
      List Evidence → List Requirement → Outcome RuleError (List ComplianceResult)
  results_without_provider evidence requirements =
      (execute repr [] none rules (select (λ q. is_need withheld (need_of q)) requirements) []).1
      >>= λ first.
          ((execute repr evidence none rules
              (select (λ q. is_need provider_free (need_of q)) requirements) []).1
            >>= λ second. ok (
                first
                ++ (second
                    ++ map no_provider_result
                        (select (λ q. is_need provider_needed (need_of q)) requirements))))

  -- A group runs under a tracking provider that starts with no records.
  unfoldable pub group_results : List Evidence → Option Provider → List Requirement → Evaluated
  group_results evidence none requirements =
      results_without_provider evidence requirements >>= λ rs. ok (rs, [])
  group_results evidence (some provider) requirements =
      with_records (execute repr evidence (some provider) rules requirements [])

  -- `_evaluate_requirements`, from the groups on. `_validate_providers` has no effect.
  unfoldable pub evaluate_groups : List Evidence → Map String (List Requirement) → Evaluated
  evaluate_groups evidence [] = ok ([], [])
  evaluate_groups evidence (entry ∷ groups) =
      group_results evidence (lookup entry.0 providers) entry.1 >>= λ one.
      (evaluate_groups evidence groups >>= λ others. ok (one.0 ++ others.0, one.1 ++ others.1))

  unfoldable pub run :
      List Evidence → List Requirement → Option String → ℕ → Outcome RuleError EngineResult
  run evidence requirements submission_id now =
      evaluate_groups evidence (group requirements []) >>= λ found.
      ok (engine_result evidence submission_id now found)
