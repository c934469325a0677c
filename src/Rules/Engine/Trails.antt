-- ===== src/Rules/Engine/Trails.antt =====
-- How the results of several evaluations and groups are backed together.
use core_engine_ge_m.Base.{
  Among-append_left, Among-append_right, All-append, ℕ, ◌≡◌, refl, sym, subst, String, Option, List,
  [], ◌∷◌, ◌++◌, string_eq, Outcome, ok, raised, ◌>>=◌, All,
}
use core_engine_ge_m.Rules.Model.{Evidence, Verification, ComplianceResult, RuleError, EngineResult}
use core_engine_ge_m.Rules.Calls.{Tracked}
use core_engine_ge_m.Rules.Executor.{result_then, result_first}
use core_engine_ge_m.Rules.Engine.{Evaluated, with_records, engine_result}
use core_engine_ge_m.Rules.Engine.Backed.{Backed, All-Backed-mono}

-- The records grow, and what they grow by backs each result.
pub record Grown (before : List Verification) (t : Tracked (List ComplianceResult)) : Type 0 where
  pub new : List Verification
  pub grown : t.0 ≡ before ++ new
  pub backs : (rs : List ComplianceResult) → t.1 ≡ ok rs → All (Backed new) rs

pub ok-injective : {A : Type 0} (x y : A) → ◌≡◌ {A = Outcome RuleError A} (ok x) (ok y) → x ≡ y
ok-injective x y h = cc

pub first-inv :
    (r : ComplianceResult) (u : Tracked (List ComplianceResult)) (rs : List ComplianceResult)
    → (result_first r u).1 ≡ ok rs
    → (xs : List ComplianceResult) × (u.1 ≡ ok xs) × (rs ≡ r ∷ xs)
first-inv r (records, ok xs) rs h = (xs, refl, sym (ok-injective (r ∷ xs) rs h))
first-inv r (records, raised e) rs h = cc

pub then-inv :
    (t : Tracked ComplianceResult) (rest : List Verification → Tracked (List ComplianceResult))
    (rs : List ComplianceResult)
    → (result_then t rest).1 ≡ ok rs
    → (r : ComplianceResult) × (xs : List ComplianceResult) × (t.1 ≡ ok r)
      × ((rest t.0).1 ≡ ok xs)
      × (rs ≡ r ∷ xs)
then-inv (records, ok r) rest rs h =
    let (xs, e, f) = first-inv r (rest records) rs h in (r, xs, refl, e, f)
then-inv (records, raised e) rest rs h = cc

-- What a group without a provider gives, and what a group gives with the records that it kept.
abbrev pub BackedAll : Outcome RuleError (List ComplianceResult) → Type 0
BackedAll (raised e) = Unit
BackedAll (ok rs) = All (Backed []) rs

abbrev pub BackedRun : Evaluated → Type 0
BackedRun (raised e) = Unit
BackedRun (ok (rs, vs)) = All (Backed vs) rs

pub joined-BackedAll :
    (one : Outcome RuleError (List ComplianceResult)) (third : List ComplianceResult)
    → ((rs : List ComplianceResult) → one ≡ ok rs → All (Backed []) rs)
    → All (Backed []) third
    → BackedAll (one >>= λ first. ok (first ++ third))
joined-BackedAll (raised e) third h k = tt
joined-BackedAll (ok first) third h k = All-append (Backed []) first third (h first refl) k

pub unrecorded-BackedRun :
    (o : Outcome RuleError (List ComplianceResult))
    → BackedAll o
    → BackedRun (o >>= λ rs. ok (rs, []))
unrecorded-BackedRun (raised e) h = tt
unrecorded-BackedRun (ok rs) h = h

pub with_records-BackedRun :
    (t : Tracked (List ComplianceResult)) → Grown [] t → BackedRun (with_records t)
with_records-BackedRun (records, raised e) g = tt
with_records-BackedRun (records, ok rs) g =
    subst (λ vs. All (Backed vs) rs) (sym g.grown) (g.backs rs refl)

pub both-BackedRun :
    (one others : Evaluated)
    → BackedRun one
    → BackedRun others
    → BackedRun (one >>= λ a. (others >>= λ b. ok (a.0 ++ b.0, a.1 ++ b.1)))
both-BackedRun (raised e) others h k = tt
both-BackedRun (ok one) (raised e) h k = tt
both-BackedRun (ok (rs, vs)) (ok (xs, ws)) h k =
    All-append (Backed (vs ++ ws)) rs xs
      (All-Backed-mono vs (vs ++ ws) rs (λ v. Among-append_left v vs ws) h)
      (All-Backed-mono ws (vs ++ ws) xs (λ v. Among-append_right v vs ws) k)

pub result-Backed :
    (evidence : List Evidence) (submission_id : Option String) (now : ℕ) (o : Evaluated)
    (result : EngineResult)
    → (o >>= λ found. ok (engine_result evidence submission_id now found)) ≡ ok result
    → BackedRun o
    → All (Backed result.verification_records) result.compliance_results
result-Backed evidence submission_id now (raised e) result h b = cc
result-Backed evidence submission_id now (ok (rs, vs)) result h b =
    subst (λ x. All (Backed x.verification_records) x.compliance_results)
      (ok-injective (engine_result evidence submission_id now (rs, vs)) result h) b
