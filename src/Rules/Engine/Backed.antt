-- ===== src/Rules/Engine/Backed.antt =====
-- What it is for a result that passes to be backed by a record of the audit trail.
use core_engine_ge_m.Base.{
  Among, ◌≡◌, true, false, Option, none, some, List, [], ◌∷◌, ◌++◌, string_eq, Outcome, ok, raised,
  All,
}
use core_engine_ge_m.Rules.Model.{
  Requirement, Evidence, Verification, verified, ComplianceStatus, pass, fail, missing,
  unverifiable, inapplicable, warning, not_checked, ComplianceResult, RuleError,
}
use core_engine_ge_m.Rules.Calls.{Provider, Tracked, track}
use core_engine_ge_m.Rules.Executor.{Rule}
use core_engine_ge_m.Rules.Engine.{is_empty}

-- A record of the trail says VERIFIED, and the result refers to it alone.
pub record Backing (records : List Verification) (r : ComplianceResult) : Type 0 where
  pub answer : Verification
  pub is_kept : Among answer records
  pub verifies : answer.status ≡ verified
  pub refers : r.verification_refs ≡ answer.verification_id ∷ []

-- A result of this status is backed, if it is PASS.
abbrev pub BackedAs : ComplianceStatus → List Verification → ComplianceResult → Type 0
BackedAs pass records r = Backing records r
BackedAs _ records r = Unit

abbrev pub Backed : List Verification → ComplianceResult → Type 0
Backed records r = BackedAs r.status records r

abbrev pub BackedOutcome : List Verification → Outcome RuleError ComplianceResult → Type 0
BackedOutcome records (raised e) = Unit
BackedOutcome records (ok r) = Backed records r

-- The records grow, and what they grow by backs the outcome.
pub record Grows (before : List Verification) (t : Tracked ComplianceResult) : Type 0 where
  pub new : List Verification
  pub grown : t.0 ≡ before ++ new
  pub backs : BackedOutcome new t.1

-- A rule that needs a provider, and whose results are backed by what it gets from it.
pub record IsBacked (rule : Rule) : Type 0 where
  pub needs_provider : is_empty rule.required_providers ≡ false
  pub grows :
      (provider : Provider) (evidence : List Evidence) (requirement : Requirement)
      (before : List Verification)
      → Grows before (track (some provider) (rule.evaluate true evidence requirement) before)

abbrev pub IsBackedIf : Option Rule → Type 0
IsBackedIf none = Unit
IsBackedIf (some rule) = IsBacked rule

pub Backing-mono :
    (xs ys : List Verification) (r : ComplianceResult)
    → ((v : Verification) → Among v xs → Among v ys)
    → (s : ComplianceStatus) → BackedAs s xs r
    → BackedAs s ys r
Backing-mono xs ys r grow pass b = record {
  answer = b.answer;
  is_kept = grow b.answer b.is_kept;
  verifies = b.verifies;
  refers = b.refers;
}
Backing-mono xs ys r grow fail b = tt
Backing-mono xs ys r grow missing b = tt
Backing-mono xs ys r grow unverifiable b = tt
Backing-mono xs ys r grow inapplicable b = tt
Backing-mono xs ys r grow warning b = tt
Backing-mono xs ys r grow not_checked b = tt

pub All-Backed-mono :
    (xs ys : List Verification) (rs : List ComplianceResult)
    → ((v : Verification) → Among v xs → Among v ys)
    → All (Backed xs) rs
    → All (Backed ys) rs
All-Backed-mono xs ys [] grow h = tt
All-Backed-mono xs ys (r ∷ rs) grow h =
    (Backing-mono xs ys r grow r.status h.0, All-Backed-mono xs ys rs grow h.1)
