-- ===== src/Rules/Engine/Verified.antt =====
-- The rules that query a registration pass only what their provider has verified.
use core_engine_ge_m.Base.{
  ◌≡◌, refl, String, Bool, true, false, Option, none, some, List, [], ◌∷◌, ◌++◌, Json, lookup,
  string_eq, Outcome, ok, raised, arith,
}
use core_engine_ge_m.Rules.Model.{
  Requirement, Evidence, VerificationStatus, verified, not_found, invalid, inactive, unavailable,
  error, Verification, ComplianceStatus, pass, fail, ComplianceResult, RuleError, first_field,
  linked,
}
use core_engine_ge_m.Rules.Calls.{
  Provider, done, register, track, checked_flags, replace_last-append,
}
use core_engine_ge_m.Rules.Gst
use core_engine_ge_m.Rules.GstReturns
use core_engine_ge_m.Rules.Pan
use core_engine_ge_m.Rules.Udyam
use core_engine_ge_m.Rules.Mca
use core_engine_ge_m.Rules.Engine.Backed.{BackedOutcome, Grows, IsBacked}
use core_engine_ge_m.Rules.Engine.Sources.{ends-Grows, missing-Grows, answered-Backed, query-Grows}

-- The end for an answer that is kept.
kept-Grows :
    (provider : Provider) (o : Outcome RuleError ComplianceResult) (before : List Verification)
    (v : Verification)
    → BackedOutcome (v ∷ []) o
    → Grows before (track (some provider) (done o) (before ++ v ∷ []))
unfolding track
kept-Grows provider o before v b = record { new = v ∷ []; grown = refl; backs = b }

-- The end for an answer that a linked one replaces.
linked-Grows :
    (provider : Provider) (o : Outcome RuleError ComplianceResult) (before : List Verification)
    (v w : Verification)
    → BackedOutcome (w ∷ []) o
    → Grows before (track (some provider) (register w (done o)) (before ++ v ∷ []))
unfolding track
linked-Grows provider o before v w b = record {
  new = w ∷ [];
  grown = replace_last-append v w before;
  backs = b;
}

gst_passing : (s : VerificationStatus) → Gst.provider_to_compliance s ≡ pass → s ≡ verified
gst_passing s h = ground arith

pan_passing : (s : VerificationStatus) → Pan.provider_to_compliance s ≡ pass → s ≡ verified
pan_passing s h = ground arith

udyam_passing : (s : VerificationStatus) → Udyam.provider_to_compliance s ≡ pass → s ≡ verified
udyam_passing s h = ground arith

mca_passing : (s : VerificationStatus) → Mca.provider_to_compliance s ≡ pass → s ≡ verified
mca_passing s h = ground arith

filing_passing :
    (s : VerificationStatus) (o : Option Json) → GstReturns.derive_status s o ≡ pass → s ≡ verified
filing_passing verified o h = refl
filing_passing not_found o h = cc
filing_passing invalid o h = cc
filing_passing inactive o h = cc
filing_passing unavailable o h = cc
filing_passing error o h = cc

pub gst-IsBacked : (str : Json → String) → IsBacked (Gst.gst_rule str)
unfolding Gst.evaluate
gst-IsBacked str = record {
  needs_provider = refl;
  grows = λ provider evidence requirement before.
      query-Grows provider str [] _ _ (Gst.conclude requirement) before
        (first_field "GST" "gstin" evidence) (ends-Grows provider _ before tt)
        (λ item. ends-Grows provider _ before tt)
        (λ item e. ends-Grows provider (raised e) before tt)
        (λ item v. linked-Grows provider _ before v (linked item v) (
          answered-Backed requirement (Gst.provider_to_compliance v.status) (Gst.reason_of v.status)
            item (linked item v) (ok []) (gst_passing v.status)));
}

explained-Backed :
    (requirement : Requirement) (item : Evidence) (v : Verification) (c : ComplianceStatus)
    (reason : Outcome RuleError String) (flags : Outcome RuleError (List String))
    → (c ≡ pass → v.status ≡ verified)
    → BackedOutcome (v ∷ []) (GstReturns.explained requirement item v c reason flags)
explained-Backed requirement item v c (raised e) flags h = tt
explained-Backed requirement item v c (ok reason) (raised e) h = tt
explained-Backed requirement item v c (ok reason) (ok flags) h =
    answered-Backed requirement c reason item v (ok flags) h

pub gst_return-IsBacked : (str : Json → String) → IsBacked (GstReturns.gst_return_rule str)
unfolding GstReturns.evaluate
gst_return-IsBacked str = record {
  needs_provider = refl;
  grows = λ provider evidence requirement before.
      query-Grows provider str (GstReturns.filters str requirement evidence) _ _
        (GstReturns.conclude requirement) before (first_field "GST" "gstin" evidence)
        (ends-Grows provider _ before tt) (λ item. ends-Grows provider _ before tt)
        (λ item e. ends-Grows provider (raised e) before tt)
        (λ item v. linked-Grows provider _ before v (linked item v) (
          explained-Backed requirement item (linked item v) _ _ _
            (filing_passing v.status (lookup "filing_status" v.«data»))));
}

pub pan-IsBacked : (str : Json → String) → IsBacked (Pan.pan_rule str)
unfolding Pan.evaluate
pan-IsBacked str = record {
  needs_provider = refl;
  grows = λ provider evidence requirement before.
      query-Grows provider str [] _ _ (Pan.conclude requirement) before
        (first_field "PAN" "pan_number" evidence) (missing-Grows provider requirement _ _ before)
        (λ item. missing-Grows provider requirement _ _ before)
        (λ item e. ends-Grows provider (raised e) before tt)
        (λ item v. kept-Grows provider _ before v (
          answered-Backed requirement (Pan.provider_to_compliance v.status) (Pan.reason_of v.status)
            item v (checked_flags (Pan.flag_by_status v.status)) (pan_passing v.status)));
}

pub udyam-IsBacked : (str : Json → String) → IsBacked (Udyam.udyam_rule str)
unfolding Udyam.evaluate
udyam-IsBacked str = record {
  needs_provider = refl;
  grows = λ provider evidence requirement before.
      query-Grows provider str [] _ _ (Udyam.conclude requirement) before
        (first_field "UDYAM" "udyam_registration_number" evidence)
        (missing-Grows provider requirement _ _ before)
        (λ item. missing-Grows provider requirement _ _ before)
        (λ item e. ends-Grows provider (raised e) before tt)
        (λ item v. kept-Grows provider _ before v (
          answered-Backed requirement (Udyam.provider_to_compliance v.status)
            (Udyam.reason_of v.status) item v (checked_flags (Udyam.flag_by_status v.status))
            (udyam_passing v.status)));
}

module _ (str repr : Json → String) (upper : String → String) (as_bool : Json → Option Bool) where
  judge-Backed :
      (params : Mca.McaParameters) (requirement : Requirement) (item : Evidence) (v : Verification)
      (o : Option Json)
      → BackedOutcome
          (v ∷ [])
          (Mca.judge str repr upper as_bool params requirement item (linked item v) o)
  judge-Backed params requirement item v none =
      answered-Backed requirement (Mca.provider_to_compliance v.status) (Mca.reason_of v.status)
        item v (checked_flags (Mca.flag_by_status v.status)) (mca_passing v.status)
  judge-Backed params requirement item v (some reported) =
      answered-Backed requirement fail _ item v
        (checked_flags (some (Mca.flag_by_reported (str reported)))) (λ h. cc)

  query_cin-Grows :
      (provider : Provider) (params : Mca.McaParameters) (evidence : List Evidence)
      (requirement : Requirement) (before : List Verification)
      → Grows before (
          track
            (some provider)
            (Mca.evaluate_required str repr upper as_bool params evidence requirement none)
            before)
  query_cin-Grows provider params evidence requirement before =
      query-Grows provider str [] _ _ (Mca.conclude str repr upper as_bool params requirement)
        before (Mca.find_cin_evidence upper evidence)
        (missing-Grows provider requirement _ _ before)
        (λ item. missing-Grows provider requirement _ _ before)
        (λ item e. ends-Grows provider (raised e) before tt)
        (λ item v. kept-Grows provider _ before v (judge-Backed params requirement item v _))

  required-Grows :
      (provider : Provider) (params : Mca.McaParameters) (evidence : List Evidence)
      (requirement : Requirement) (before : List Verification) (require : Option Bool)
      → Grows before (
          track
            (some provider)
            (Mca.evaluate_required str repr upper as_bool params evidence requirement require)
            before)
  required-Grows provider params evidence requirement before none =
      query_cin-Grows provider params evidence requirement before
  required-Grows provider params evidence requirement before (some true) =
      query_cin-Grows provider params evidence requirement before
  required-Grows provider params evidence requirement before (some false) =
      ends-Grows provider _ before tt

  with-Grows :
      (provider : Provider) (evidence : List Evidence) (requirement : Requirement)
      (before : List Verification) (o : Outcome RuleError Mca.McaParameters)
      → Grows before (
          track
            (some provider)
            (Mca.evaluate_with str repr upper as_bool evidence requirement o)
            before)
  with-Grows provider evidence requirement before (raised e) =
      ends-Grows provider (raised e) before tt
  with-Grows provider evidence requirement before (ok params) =
      required-Grows provider params evidence requirement before params.require_registration

  pub mca-IsBacked : IsBacked (Mca.mca_rule str repr upper as_bool)
  unfolding Mca.evaluate
  mca-IsBacked = record {
    needs_provider = refl;
    grows = λ provider evidence requirement before.
        with-Grows provider evidence requirement before
          (Mca.read_parameters str repr upper as_bool requirement.parameters);
  }
