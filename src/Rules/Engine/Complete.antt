-- ===== src/Rules/Engine/Complete.antt =====
-- The engine has one result for each requirement, the one that the requirement has by itself.
use mathlib.Core.List.{Perm, perm_middle, map-append}
use mathlib.Core.List.Perm
use core_engine_ge_m.Base.{
  ℕ, ◌≡◌, refl, subst, String, true, Option, none, some, List, [], ◌∷◌, ◌++◌, map, Map, lookup,
  string_eq, Outcome, ok, raised, Bool-cases, inl, inr, select, All, arith,
}
use core_engine_ge_m.Rules.Model.{
  Requirement, Evidence, Verification, ComplianceResult, RuleError, EngineResult,
}
use core_engine_ge_m.Rules.Calls.{Provider, Tracked}
use core_engine_ge_m.Rules.Executor.{Rule, execute}
use core_engine_ge_m.Rules.Engine.{
  group, Need, withheld, provider_free, provider_needed, is_need, need_of, no_provider_result,
  with_records, first_bidder, engine_result, results_without_provider, group_results,
  evaluate_groups, run,
}
use core_engine_ge_m.Rules.Engine.Single.{execute-alone, without_provider, verdict_by, verdict}
use core_engine_ge_m.Rules.Engine.Grouped.{joined, joined-group, Sorted, group-Sorted}

is_need-eq : (m n : Need) → is_need m n ≡ true → n ≡ m
is_need-eq m n h = ground arith

module _ (need : Requirement → Need) where
  abbrev chosen : Need → List Requirement → List Requirement
  chosen n requirements = select (λ q. is_need n (need q)) requirements

  All-chosen :
      (W : Need → Requirement → Outcome RuleError ComplianceResult)
      (value : Requirement → ComplianceResult) (n : Need) (qs : List Requirement)
      → All (λ q. W (need q) q ≡ ok (value q)) qs
      → All (λ q. W n q ≡ ok (value q)) (chosen n qs)
  All-chosen W value n [] h = tt
  All-chosen W value n (q ∷ qs) h = elim (Bool-cases (is_need n (need q))) [
    | inl same ↦ rw same (
      subst (λ k. W k q ≡ ok (value q)) (is_need-eq n (need q) same) h.0,
      All-chosen W value n qs h.1,
    )
    | inr other ↦ rw other (All-chosen W value n qs h.1)
  ]

  sorted_into :
      (q : Requirement) (qs : List Requirement) (n : Need)
      → need q ≡ n
      → Perm (chosen withheld qs ++ (chosen provider_free qs ++ chosen provider_needed qs)) qs
      → Perm
          (chosen withheld (q ∷ qs)
            ++ (chosen provider_free (q ∷ qs) ++ chosen provider_needed (q ∷ qs)))
          (q ∷ qs)
  sorted_into q qs withheld e p = rw e (Perm.cons q p)
  sorted_into q qs provider_free e p = rw e (
      Perm.trans
        (perm_middle (chosen withheld qs) (chosen provider_free qs ++ chosen provider_needed qs))
        (Perm.cons q p))
  sorted_into q qs provider_needed e p = rw e (
      Perm.trans
        (Perm.append_left (chosen withheld qs)
          (perm_middle (chosen provider_free qs) (chosen provider_needed qs)))
        (Perm.trans
          (perm_middle (chosen withheld qs) (chosen provider_free qs ++ chosen provider_needed qs))
          (Perm.cons q p)))

  chosen-perm :
      (qs : List Requirement)
      → Perm (chosen withheld qs ++ (chosen provider_free qs ++ chosen provider_needed qs)) qs
  chosen-perm [] = Perm.refl _
  chosen-perm (q ∷ qs) = sorted_into q qs (need q) refl (chosen-perm qs)

module _ (repr : String → String) (rules : Map String Rule) (providers : Map String Provider)
    (evidence : List Evidence) (value : Requirement → ComplianceResult) where
  -- The requirement by itself has this result.
  abbrev pub Has : Requirement → Type 0
  Has q = verdict repr rules providers evidence q ≡ ok (value q)

  needed-values :
      (qs : List Requirement)
      → All
          (λ q. without_provider repr rules providers evidence provider_needed q ≡ ok (value q))
          qs
      → map (no_provider_result repr rules providers) qs ≡ map value qs
  needed-values [] h = refl
  needed-values (q ∷ qs) h = ground (arith, needed-values qs h.1)

  without-perm :
      (qs : List Requirement)
      → All (λ q. verdict_by repr rules providers evidence none q ≡ ok (value q)) qs
      → (rs : List ComplianceResult) × (results_without_provider repr rules providers evidence qs
          ≡ ok rs)
        × Perm rs (map value qs)
  unfolding results_without_provider
  without-perm qs h =
      let need = need_of repr rules providers in
      let W = without_provider repr rules providers evidence in
      let held = chosen need withheld qs in
      let free = chosen need provider_free qs in
      let needed = chosen need provider_needed qs in
      let first =
        execute-alone repr rules [] none value held [] (All-chosen need W value withheld qs h) in
      let second =
        execute-alone repr rules evidence none value free []
          (All-chosen need W value provider_free qs h) in
      let third = needed-values needed (All-chosen need W value provider_needed qs h) in
      let parts : map value (held ++ (free ++ needed))
          ≡ map value held ++ (map value free ++ map value needed) =
        simp map-append in
      (
        map value held ++ (map value free ++ map value needed),
        rw (first, second, third) refl,
        subst (λ l. Perm l (map value qs)) parts (Perm.map value (chosen-perm need qs)),
      )

  -- The results of a group, whatever records it keeps.
  with_records-ok :
      (t : Tracked (List ComplianceResult)) (rs : List ComplianceResult)
      → t.1 ≡ ok rs
      → (vs : List Verification) × (with_records t ≡ ok (rs, vs))
  with_records-ok (records, ok xs) rs h = (records, ground arith)
  with_records-ok (records, raised e) rs h = cc

  group_results-perm :
      (o : Option Provider) (qs : List Requirement)
      → All (λ q. verdict_by repr rules providers evidence o q ≡ ok (value q)) qs
      → (rs : List ComplianceResult) × (vs : List Verification) × (group_results repr rules
            providers evidence o qs
          ≡ ok (rs, vs))
        × Perm rs (map value qs)
  unfolding group_results
  group_results-perm none qs h = let (rs, e, p) = without-perm qs h in (rs, [], rw e refl, p)
  group_results-perm (some provider) qs h =
      let e = execute-alone repr rules evidence (some provider) value qs [] h in
      let (vs, f) =
        with_records-ok (execute repr evidence (some provider) rules qs []) (map value qs) e in
      (map value qs, vs, f, Perm.refl _)

  All-verdict_by :
      (k : String) (qs : List Requirement)
      → All (λ q. (q.capability ≡ k) × Has q) qs
      → All (λ q. verdict_by repr rules providers evidence (lookup k providers) q ≡ ok (value q)) qs
  All-verdict_by k [] h = tt
  All-verdict_by k (q ∷ qs) ((e, v), h) = (
    subst (λ c. verdict_by repr rules providers evidence (lookup c providers) q ≡ ok (value q)) e v,
    All-verdict_by k qs h,
  )

  evaluate_groups-perm :
      (groups : Map String (List Requirement))
      → Sorted Has groups
      → (rs : List ComplianceResult) × (vs : List Verification) × (evaluate_groups repr rules
            providers evidence groups
          ≡ ok (rs, vs))
        × Perm rs (map value (joined groups))
  unfolding evaluate_groups
  evaluate_groups-perm [] s = ([], [], refl, Perm.refl _)
  evaluate_groups-perm (entry ∷ groups) s =
      let (rs, vs, e, p) =
        group_results-perm (lookup entry.0 providers) entry.1
          (All-verdict_by entry.0 entry.1 s.0) in
      let (others, more, f, q) = evaluate_groups-perm groups s.1 in
      (rs ++ others, vs ++ more, rw (e, f) refl, rw map-append (Perm.append p q))

  -- A run of the engine is complete: if each requirement by itself has a result, the run returns
  -- exactly those results, one for each requirement, in some order, under the bidder of the first
  -- piece of evidence and the submission ID that it is given.
  pub run_complete :
      (requirements : List Requirement) (submission_id : Option String) (now : ℕ)
      → All Has requirements
      → (result : EngineResult) × (run repr rules providers evidence requirements submission_id now
          ≡ ok result)
        × Perm result.compliance_results (map value requirements)
        × (result.bidder_id ≡ first_bidder evidence)
        × (result.submission_id ≡ submission_id)
  unfolding run
  run_complete requirements submission_id now h =
      let (rs, vs, e, p) =
        evaluate_groups-perm (group requirements []) (group-Sorted Has requirements [] h tt) in
      (
        engine_result evidence submission_id now (rs, vs),
        rw e refl,
        Perm.trans p (Perm.map value (joined-group requirements)),
        refl,
        refl,
      )
