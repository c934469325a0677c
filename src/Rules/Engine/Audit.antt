-- ===== src/Rules/Engine/Audit.antt =====
-- The audit trail of a run: what passes is backed by a record.
use core_engine_ge_m.Base.{
  Among-append_left, Among-append_right, ℕ, ◌≡◌, refl, sym, subst, ap, ◌∙◌, inl, inr, String, true,
  false, Option, none, some, List, [], ◌∷◌, ◌++◌, map, Map, lookup, string_eq, ok, raised,
  Bool-cases, All, select, arith,
}
use mathlib.Core.List.{append_assoc, append-nil}
use core_engine_ge_m.Rules.Model.{
  Applicability, Requirement, applicable, not_applicable, unknown, Evidence, Verification,
  ComplianceResult, EngineResult,
}
use core_engine_ge_m.Rules.Calls.{Provider, Tracked}
use core_engine_ge_m.Rules.Executor.{
  Rule, apply_rule, execute_as, execute, result_then, result_first,
}
use core_engine_ge_m.Rules.Engine.{
  group, need_as, is_need, need_of, no_provider_result, results_without_provider, group_results,
  evaluate_groups, run, withheld, provider_free, provider_needed,
}
use core_engine_ge_m.Rules.Engine.Backed.{Backed, Grows, IsBackedIf, Backing-mono, All-Backed-mono}
use core_engine_ge_m.Rules.Engine.Trails.{
  Grown, ok-injective, then-inv, BackedAll, BackedRun, joined-BackedAll, unrecorded-BackedRun,
  with_records-BackedRun, both-BackedRun, result-Backed,
}

module _ (repr : String → String) (rules : Map String Rule)
    (backed : (id : String) → IsBackedIf (lookup id rules)) where
  apply_rule-Grows :
      (evidence : List Evidence) (provider : Provider) (requirement : Requirement) (o : Option Rule)
      (before : List Verification)
      → IsBackedIf o
      → Grows before (apply_rule repr evidence (some provider) requirement o before)
  unfolding apply_rule
  apply_rule-Grows evidence provider requirement none before b = record {
    new = [];
    grown = sym (append-nil before);
    backs = tt;
  }
  apply_rule-Grows evidence provider requirement (some rule) before b =
      b.grows provider evidence requirement before

  execute_as-Grows :
      (evidence : List Evidence) (provider : Provider) (a : Applicability)
      (requirement : Requirement) (before : List Verification)
      → Grows before (execute_as repr evidence (some provider) a rules requirement before)
  unfolding execute_as
  execute_as-Grows evidence provider not_applicable requirement before = record {
    new = [];
    grown = sym (append-nil before);
    backs = tt;
  }
  execute_as-Grows evidence provider unknown requirement before = record {
    new = [];
    grown = sym (append-nil before);
    backs = tt;
  }
  execute_as-Grows evidence provider applicable requirement before =
      apply_rule-Grows evidence provider requirement (lookup requirement.rule_id rules) before
        (backed requirement.rule_id)

  first-Grown :
      (before kept new : List Verification) (r : ComplianceResult)
      (u : Tracked (List ComplianceResult))
      → kept ≡ before ++ new
      → Backed new r
      → Grown kept u
      → Grown before (result_first r u)
  first-Grown before kept new r (records, raised e) k b g = record {
    new = new ++ g.new;
    grown = g.grown ∙ ap (λ l. l ++ g.new) k ∙ append_assoc before new g.new;
    backs = λ rs h. cc;
  }
  first-Grown before kept new r (records, ok rs) k b g = record {
    new = new ++ g.new;
    grown = g.grown ∙ ap (λ l. l ++ g.new) k ∙ append_assoc before new g.new;
    backs = λ xs h. subst (All (Backed (new ++ g.new))) (ok-injective (r ∷ rs) xs h) (
      Backing-mono new (new ++ g.new) r (λ v. Among-append_left v new g.new) r.status b,
      All-Backed-mono g.new (new ++ g.new) rs (λ v. Among-append_right v new g.new)
          (g.backs rs refl),
    );
  }

  join-Grown :
      (before : List Verification) (t : Tracked ComplianceResult)
      (rest : List Verification → Tracked (List ComplianceResult))
      → Grows before t
      → ((records : List Verification) → Grown records (rest records))
      → Grown before (result_then t rest)
  join-Grown before (records, raised e) rest g k = record {
    new = g.new;
    grown = g.grown;
    backs = λ rs h. cc;
  }
  join-Grown before (records, ok r) rest g k =
      first-Grown before records g.new r (rest records) g.grown g.backs (k records)

  execute-Grown :
      (evidence : List Evidence) (provider : Provider) (qs : List Requirement)
      (before : List Verification)
      → Grown before (execute repr evidence (some provider) rules qs before)
  unfolding execute
  execute-Grown evidence provider [] before = record {
    new = [];
    grown = sym (append-nil before);
    backs = λ rs h. subst (All (Backed [])) (ok-injective [] rs h) tt;
  }
  execute-Grown evidence provider (q ∷ qs) before =
      join-Grown before (execute_as repr evidence (some provider) q.applicability rules q before)
        (execute repr evidence (some provider) rules qs)
        (execute_as-Grows evidence provider q.applicability q before)
        (execute-Grown evidence provider qs)

  -- Without a provider nothing passes: what does not apply, or may not, has another status, and every
  -- rule of the table needs a provider.
  withheld_plain :
      (evidence : List Evidence) (q : Requirement) (a : Applicability) (o : Option Rule)
      (before : List Verification) (r : ComplianceResult)
      → is_need withheld (need_as a o) ≡ true
      → (execute_as repr evidence none a rules q before).1 ≡ ok r
      → Backed [] r
  unfolding execute_as
  withheld_plain evidence q not_applicable o before r w h =
      subst (Backed []) (ok-injective _ r h) tt
  withheld_plain evidence q unknown o before r w h = subst (Backed []) (ok-injective _ r h) tt
  withheld_plain evidence q applicable none before r w h = cc
  withheld_plain evidence q applicable (some rule) before r w h = ground arith

  execute-withheld :
      (evidence : List Evidence) (qs : List Requirement) (before : List Verification)
      (rs : List ComplianceResult)
      → All (λ q. is_need withheld (need_as q.applicability (lookup q.rule_id rules)) ≡ true) qs
      → (execute repr evidence none rules qs before).1 ≡ ok rs
      → All (Backed []) rs
  unfolding execute
  execute-withheld evidence [] before rs w h = subst (All (Backed [])) (ok-injective [] rs h) tt
  execute-withheld evidence (q ∷ qs) before rs w h =
      let (r, xs, e, f, k) =
        then-inv (execute_as repr evidence none q.applicability rules q before)
          (execute repr evidence none rules qs) rs h in
      rw k (
        withheld_plain evidence q q.applicability (lookup q.rule_id rules) before r w.0 e,
        execute-withheld evidence qs _ xs w.1 f,
      )

  no_free :
      (a : Applicability) (o : Option Rule)
      → IsBackedIf o
      → is_need provider_free (need_as a o) ≡ false
  no_free not_applicable o b = refl
  no_free unknown o b = refl
  no_free applicable none b = refl
  no_free applicable (some rule) b = rw b.needs_provider refl

  module _ (providers : Map String Provider) where
    none_free :
        (qs : List Requirement)
        → select (λ q. is_need provider_free (need_of repr rules providers q)) qs ≡ []
    none_free [] = refl
    none_free (q ∷ qs) =
        rw (no_free q.applicability (lookup q.rule_id rules) (backed q.rule_id)) (none_free qs)

    withheld_chosen :
        (qs : List Requirement)
        → All
            (λ q. is_need withheld (need_as q.applicability (lookup q.rule_id rules)) ≡ true)
            (select (λ q. is_need withheld (need_of repr rules providers q)) qs)
    withheld_chosen [] = tt
    withheld_chosen (q ∷ qs) =
        elim (Bool-cases (is_need withheld (need_of repr rules providers q))) [
          | inl same ↦ rw same (same, withheld_chosen qs)
          | inr other ↦ rw other (withheld_chosen qs)
        ]

    unmet_plain :
        (qs : List Requirement) → All (Backed []) (map (no_provider_result repr rules providers) qs)
    unmet_plain [] = tt
    unmet_plain (q ∷ qs) = (tt, unmet_plain qs)

    without-Backed :
        (evidence : List Evidence) (qs : List Requirement)
        → BackedAll (results_without_provider repr rules providers evidence qs)
    unfolding results_without_provider execute
    without-Backed evidence qs = rw (none_free qs) (
        joined-BackedAll
          (execute repr [] none rules
            (select (λ q. is_need withheld (need_of repr rules providers q)) qs) []).1
          (map (no_provider_result repr rules providers)
            (select (λ q. is_need provider_needed (need_of repr rules providers q)) qs))
          (λ rs.
            execute-withheld [] (select (λ q. is_need withheld (need_of repr rules providers q)) qs)
              [] rs (withheld_chosen qs))
          (unmet_plain (select (λ q. is_need provider_needed (need_of repr rules providers q)) qs)))

    group_results-Backed :
        (evidence : List Evidence) (o : Option Provider) (qs : List Requirement)
        → BackedRun (group_results repr rules providers evidence o qs)
    unfolding group_results
    group_results-Backed evidence none qs =
        unrecorded-BackedRun (results_without_provider repr rules providers evidence qs)
          (without-Backed evidence qs)
    group_results-Backed evidence (some provider) qs =
        with_records-BackedRun (execute repr evidence (some provider) rules qs [])
          (execute-Grown evidence provider qs [])

    evaluate_groups-Backed :
        (evidence : List Evidence) (groups : Map String (List Requirement))
        → BackedRun (evaluate_groups repr rules providers evidence groups)
    unfolding evaluate_groups
    evaluate_groups-Backed evidence [] = tt
    evaluate_groups-Backed evidence (entry ∷ groups) =
        both-BackedRun
          (group_results repr rules providers evidence (lookup entry.0 providers) entry.1)
          (evaluate_groups repr rules providers evidence groups)
          (group_results-Backed evidence (lookup entry.0 providers) entry.1)
          (evaluate_groups-Backed evidence groups)

    -- The audit trail of a run is sound, when every rule of the table needs a provider and what it
    -- passes is backed by what it has queried: of the results that the run returns, each that passes
    -- refers to a record of the run's trail that says VERIFIED.
    pub run-Backed :
        (evidence : List Evidence) (requirements : List Requirement) (submission_id : Option String)
        (now : ℕ) (result : EngineResult)
        → run repr rules providers evidence requirements submission_id now ≡ ok result
        → All (Backed result.verification_records) result.compliance_results
    unfolding run
    run-Backed evidence requirements submission_id now result h =
        result-Backed evidence submission_id now
          (evaluate_groups repr rules providers evidence (group requirements [])) result h
          (evaluate_groups-Backed evidence (group requirements []))
