-- ===== src/Rules/Engine/Sources.antt =====
-- How the records grow under a rule that queries one field.
use mathlib.Core.List.{append-nil}
use core_engine_ge_m.Base.{
  ◌≡◌, refl, sym, String, Bool, true, false, Option, none, some, List, [], ◌∷◌, ◌++◌, Json, Map,
  string_eq, Outcome, ok, raised, ◌>>=◌, inl,
}
use core_engine_ge_m.Rules.Model.{
  Requirement, Evidence, verified, Verification, ComplianceStatus, pass, fail, missing,
  unverifiable, inapplicable, warning, not_checked, ComplianceResult, RuleError,
}
use core_engine_ge_m.Rules.Calls.{
  Provider, Calls, done, is_null, kept, query_value, query_field, track, required_field_missing,
  missing_result, checked_flag, answered_result,
}
use core_engine_ge_m.Rules.Engine.Backed.{BackedOutcome, Grows}

-- An end of the evaluation that adds no record.
pub ends-Grows :
    (provider : Provider) (o : Outcome RuleError ComplianceResult) (before : List Verification)
    → BackedOutcome [] o
    → Grows before (track (some provider) (done o) before)
unfolding track
ends-Grows provider o before b = record { new = []; grown = sym (append-nil before); backs = b }

pub missing-Backed :
    (requirement : Requirement) (reason : String) (refs : List String)
    (o : Outcome RuleError String)
    → BackedOutcome [] (o >>= λ flag. ok (missing_result requirement reason refs (flag ∷ [])))
missing-Backed requirement reason refs (raised e) = tt
missing-Backed requirement reason refs (ok flag) = tt

pub missing-Grows :
    (provider : Provider) (requirement : Requirement) (reason : String) (refs : List String)
    (before : List Verification)
    → Grows before (track (some provider) (required_field_missing requirement reason refs) before)
missing-Grows provider requirement reason refs before =
    ends-Grows provider _ before
      (missing-Backed requirement reason refs (checked_flag "REQUIRED_FIELD_MISSING"))

-- A result for an answer: it may pass if the answer is VERIFIED.
pub answered-Backed :
    (requirement : Requirement) (c : ComplianceStatus) (reason : String) (item : Evidence)
    (v : Verification) (flags : Outcome RuleError (List String))
    → (c ≡ pass → v.status ≡ verified)
    → BackedOutcome (v ∷ []) (flags >>= λ fs. ok (answered_result requirement c reason item v fs))
answered-Backed requirement c reason item v (raised e) h = tt
answered-Backed requirement pass reason item v (ok fs) h = record {
  answer = v;
  is_kept = inl refl;
  verifies = h refl;
  refers = refl;
}
answered-Backed requirement fail reason item v (ok fs) h = tt
answered-Backed requirement missing reason item v (ok fs) h = tt
answered-Backed requirement unverifiable reason item v (ok fs) h = tt
answered-Backed requirement inapplicable reason item v (ok fs) h = tt
answered-Backed requirement warning reason item v (ok fs) h = tt
answered-Backed requirement not_checked reason item v (ok fs) h = tt

module _ (provider : Provider) (str : Json → String) (options : Map String String) (absent : Calls)
    (null_value : Evidence → Calls) (answered : Evidence → Outcome RuleError Verification → Calls)
    (before : List Verification) where
  answer-Grows :
      (item : Evidence) (o : Outcome RuleError Verification)
      → ((e : RuleError) → Grows before (track (some provider) (answered item (raised e)) before))
      → ((v : Verification)
          → Grows before (track (some provider) (answered item (ok v)) (before ++ v ∷ [])))
      → Grows before (track (some provider) (answered item o) (kept before o))
  answer-Grows item (raised e) r a = r e
  answer-Grows item (ok v) r a = a v

  value-Grows :
      (item : Evidence) (b : Bool)
      → Grows before (track (some provider) (null_value item) before)
      → ((e : RuleError) → Grows before (track (some provider) (answered item (raised e)) before))
      → ((v : Verification)
          → Grows before (track (some provider) (answered item (ok v)) (before ++ v ∷ [])))
      → Grows before
          (track (some provider) (query_value str options null_value answered item b) before)
  unfolding track
  value-Grows item true n r a = n
  value-Grows item false n r a =
      answer-Grows item (provider item.bidder_id (str item.value) options) r a

  pub query-Grows :
      (field : Option Evidence)
      → Grows before (track (some provider) absent before)
      → ((item : Evidence) → Grows before (track (some provider) (null_value item) before))
      → ((item : Evidence) (e : RuleError)
          → Grows before (track (some provider) (answered item (raised e)) before))
      → ((item : Evidence) (v : Verification)
          → Grows before (track (some provider) (answered item (ok v)) (before ++ v ∷ [])))
      → Grows before
          (track (some provider) (query_field str options absent null_value answered field) before)
  query-Grows none m n r a = m
  query-Grows (some item) m n r a = value-Grows item (is_null item.value) (n item) (r item) (a item)
