-- ===== src/Rules/Engine/Single.antt =====
-- What the engine makes of one requirement by itself, and that the executor makes the same of it among
-- others.
use core_engine_ge_m.Base.{
  ◌≡◌, refl, ◌∙◌, String, Option, none, some, List, [], ◌∷◌, map, Map, lookup, string_eq, Outcome,
  ok, raised, All, arith,
}
use core_engine_ge_m.Rules.Model.{
  Applicability, Requirement, applicable, not_applicable, unknown, Evidence, Verification,
  ComplianceResult, RuleError,
}
use core_engine_ge_m.Rules.Calls.{
  Provider, Calls, done, verify, register, ask, kept, replace_last, Tracked, track,
}
use core_engine_ge_m.Rules.Executor.{
  Rule, is_given, apply_rule, execute_as, result_first, result_then, execute,
}
use core_engine_ge_m.Rules.Engine.{
  Need, withheld, provider_free, provider_needed, need_of, no_provider_result,
}

-- The outcome of a rule does not depend on the records that were kept before it.
track-outcome :
    (provider : Option Provider) (calls : Calls) (before others : List Verification)
    → (track provider calls before).1 ≡ (track provider calls others).1
unfolding track
track-outcome provider (done o) before others = refl
track-outcome provider (verify bidder_id identifier options next) before others =
    let answer = ask provider bidder_id identifier options in
    track-outcome provider (next answer) (kept before answer) (kept others answer)
track-outcome provider (register v next) before others =
    track-outcome provider next (replace_last v before) (replace_last v others)

module _ (repr : String → String) (rules : Map String Rule) where
  apply_rule-outcome :
      (evidence : List Evidence) (provider : Option Provider) (requirement : Requirement)
      (o : Option Rule) (before others : List Verification)
      → (apply_rule repr evidence provider requirement o before).1
        ≡ (apply_rule repr evidence provider requirement o others).1
  unfolding apply_rule
  apply_rule-outcome evidence provider requirement none before others = refl
  apply_rule-outcome evidence provider requirement (some rule) before others =
      track-outcome provider (rule.evaluate (is_given provider) evidence requirement) before others

  pub execute_as-outcome :
      (evidence : List Evidence) (provider : Option Provider) (a : Applicability)
      (requirement : Requirement) (before others : List Verification)
      → (execute_as repr evidence provider a rules requirement before).1
        ≡ (execute_as repr evidence provider a rules requirement others).1
  unfolding execute_as
  execute_as-outcome evidence provider not_applicable requirement before others = refl
  execute_as-outcome evidence provider unknown requirement before others = refl
  execute_as-outcome evidence provider applicable requirement before others =
      apply_rule-outcome evidence provider requirement (lookup requirement.rule_id rules) before
        others

  -- One requirement, executed with no records.
  abbrev pub alone :
      List Evidence → Option Provider → Requirement → Outcome RuleError ComplianceResult
  alone evidence provider requirement =
      (execute_as repr evidence provider requirement.applicability rules requirement []).1

  result_first-ok :
      (r : ComplianceResult) (rs : List ComplianceResult) (t : Tracked (List ComplianceResult))
      → t.1 ≡ ok rs
      → (result_first r t).1 ≡ ok (r ∷ rs)
  result_first-ok r rs (records, ok xs) h = ground arith
  result_first-ok r rs (records, raised e) h = cc

  result_then-ok :
      (r : ComplianceResult) (rs : List ComplianceResult) (t : Tracked ComplianceResult)
      (rest : List Verification → Tracked (List ComplianceResult))
      → t.1 ≡ ok r
      → ((records : List Verification) → (rest records).1 ≡ ok rs)
      → (result_then t rest).1 ≡ ok (r ∷ rs)
  result_then-ok r rs (records, ok x) rest h k =
      rw (← unwrap x r h) (result_first-ok x rs (rest records) (k records))
    where
      unwrap :
          (x r : ComplianceResult)
          → ◌≡◌ {A = Outcome RuleError ComplianceResult} (ok x) (ok r)
          → x ≡ r
      unwrap x r h = cc
  result_then-ok r rs (records, raised e) rest h k = cc

  -- If each requirement by itself has a result, the executor returns those results.
  pub execute-alone :
      (evidence : List Evidence) (provider : Option Provider)
      (value : Requirement → ComplianceResult) (requirements : List Requirement)
      (records : List Verification)
      → All (λ q. alone evidence provider q ≡ ok (value q)) requirements
      → (execute repr evidence provider rules requirements records).1 ≡ ok (map value requirements)
  unfolding execute
  execute-alone evidence provider value [] records h = refl
  execute-alone evidence provider value (q ∷ qs) records (h, hs) =
      result_then-ok (value q) (map value qs)
        (execute_as repr evidence provider q.applicability rules q records)
        (execute repr evidence provider rules qs)
        (execute_as-outcome evidence provider q.applicability q records [] ∙ h)
        (λ left. execute-alone evidence provider value qs left hs)

  -- What the engine is to make of a requirement: where its capability has a provider, what its rule
  -- returns with it; where it has none, what the executor returns without evidence if the requirement
  -- does not apply or may not, what the rule returns without a provider if it needs none, and
  -- otherwise that it cannot be verified.
  module _ (providers : Map String Provider) (evidence : List Evidence) where
    abbrev pub without_provider : Need → Requirement → Outcome RuleError ComplianceResult
    without_provider withheld requirement = alone [] none requirement
    without_provider provider_free requirement = alone evidence none requirement
    without_provider provider_needed requirement =
        ok (no_provider_result repr rules providers requirement)

    abbrev pub verdict_by : Option Provider → Requirement → Outcome RuleError ComplianceResult
    verdict_by none requirement =
        without_provider (need_of repr rules providers requirement) requirement
    verdict_by (some provider) requirement = alone evidence (some provider) requirement

    abbrev pub verdict : Requirement → Outcome RuleError ComplianceResult
    verdict requirement = verdict_by (lookup requirement.capability providers) requirement
