-- ===== src/Rules/Executor/Aligned.antt =====
-- The executor has one result for each requirement, in their order.
use core_engine_ge_m.Base.{
  ◌≡◌, refl, String, Option, none, some, List, [], ◌∷◌, map, Map, lookup, string_eq, ok, raised,
  arith,
}
use core_engine_ge_m.Rules.Model.{
  Applicability, Requirement, applicable, not_applicable, unknown, Evidence, Verification,
  ComplianceResult,
}
use core_engine_ge_m.Rules.Calls.{Provider, Tracked, track}
use core_engine_ge_m.Rules.Executor.{
  Rule, is_given, apply_rule, execute_as, result_first, result_then, execute,
}

-- There is a result, and it is that of the requirement.
abbrev pub Fits : Requirement → Tracked ComplianceResult → Type 0
Fits requirement (records, raised e) = ⊥
Fits requirement (records, ok r) = r.requirement_id ≡ requirement.requirement_id

abbrev pub KeepsId : Option Provider → Option Rule → Type 0
KeepsId provider none = Unit
KeepsId provider (some rule) =
    (evidence : List Evidence) (requirement : Requirement) (records : List Verification)
    → Fits requirement
        (track provider (rule.evaluate (is_given provider) evidence requirement) records)

abbrev pub Aligned : List Requirement → Tracked (List ComplianceResult) → Type 0
Aligned requirements (records, raised e) = ⊥
Aligned requirements (records, ok rs) =
    map (λ r. r.requirement_id) rs ≡ map (λ q. q.requirement_id) requirements

module _ (repr : String → String) (evidence : List Evidence) (provider : Option Provider)
    (rules : Map String Rule) where
  apply_rule-Fits :
      (requirement : Requirement) (o : Option Rule) (records : List Verification)
      → KeepsId provider o
      → Fits requirement (apply_rule repr evidence provider requirement o records)
  unfolding apply_rule
  apply_rule-Fits requirement none records k = refl
  apply_rule-Fits requirement (some rule) records k = k evidence requirement records

  execute_as-Fits :
      (a : Applicability) (requirement : Requirement) (records : List Verification)
      → KeepsId provider (lookup requirement.rule_id rules)
      → Fits requirement (execute_as repr evidence provider a rules requirement records)
  unfolding execute_as
  execute_as-Fits not_applicable requirement records k = refl
  execute_as-Fits unknown requirement records k = refl
  execute_as-Fits applicable requirement records k =
      apply_rule-Fits requirement (lookup requirement.rule_id rules) records k

  first-Aligned :
      (requirement : Requirement) (requirements : List Requirement) (r : ComplianceResult)
      (rest : Tracked (List ComplianceResult))
      → r.requirement_id ≡ requirement.requirement_id
      → Aligned requirements rest
      → Aligned (requirement ∷ requirements) (result_first r rest)
  first-Aligned requirement requirements r (records, raised e) f a = absurd a
  first-Aligned requirement requirements r (records, ok rs) f a = ground arith

  join-Aligned :
      (requirement : Requirement) (requirements : List Requirement) (o : Tracked ComplianceResult)
      (rest : List Verification → Tracked (List ComplianceResult))
      → Fits requirement o
      → ((records : List Verification) → Aligned requirements (rest records))
      → Aligned (requirement ∷ requirements) (result_then o rest)
  join-Aligned requirement requirements (records, raised e) rest f a = absurd f
  join-Aligned requirement requirements (records, ok r) rest f a =
      first-Aligned requirement requirements r (rest records) f (a records)

  -- If every rule of the table returns a result, for the requirement that it is asked about, then
  -- `execute` returns one result for each requirement, in their order, those that do not apply and
  -- those without a rule included.
  pub execute-Aligned :
      (requirements : List Requirement) (records : List Verification)
      → ((id : String) → KeepsId provider (lookup id rules))
      → Aligned requirements (execute repr evidence provider rules requirements records)
  unfolding execute
  execute-Aligned [] records k = refl
  execute-Aligned (requirement ∷ requirements) records k =
      join-Aligned requirement requirements
        (execute_as repr evidence provider requirement.applicability rules requirement records)
        (execute repr evidence provider rules requirements)
        (execute_as-Fits requirement.applicability requirement records (k requirement.rule_id))
        (λ left. execute-Aligned requirements left k)
