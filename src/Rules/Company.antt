-- ===== src/Rules/Company.antt =====
-- When the rule for MCA21 passes.
use core_engine_ge_m.Base.{
  ◌≡◌, ◌↔◌, refl, String, Bool, true, false, Option, none, some, List, [], Json, lookup, string_eq,
  Outcome, ok, raised, Bool-cases, inl, inr, ◌==◌,
}
use core_engine_ge_m.Rules.Model.{
  Requirement, Evidence, VerificationStatus, verified, not_found, invalid, inactive, unavailable,
  error, Verification, pass, fail, RuleError, linked,
}
use core_engine_ge_m.Rules.Calls.{Provider, track, kept}
use core_engine_ge_m.Rules.Registered.{
  one_flag, company_inactive_registered, cin_invalid_registered, cin_not_found_registered,
  mca_verification_unavailable_registered, company_strike_off_registered,
  company_under_liquidation_registered,
}
use core_engine_ge_m.Rules.Passing.{Passes, Answered, query_field-Passes}
use core_engine_ge_m.Rules.Flagged.{Known, flagged-Passes, iff_trans, missing_Decides}
use core_engine_ge_m.Rules.Mca
use core_engine_ge_m.Rules.Mca.{
  judge, evaluate_with, evaluate_required, McaParameters, contradiction, contradicted,
  find_cin_evidence, read_parameters,
}

mca-Known : (s : VerificationStatus) → Known (Mca.flag_by_status s)
mca-Known verified = (_, refl)
mca-Known inactive = one_flag _ company_inactive_registered
mca-Known invalid = one_flag _ cin_invalid_registered
mca-Known not_found = one_flag _ cin_not_found_registered
mca-Known unavailable = one_flag _ mca_verification_unavailable_registered
mca-Known error = one_flag _ mca_verification_unavailable_registered

module _ (provider : Provider) (str repr : Json → String) (upper : String → String)
    (as_bool : Json → Option Bool) (requirement : Requirement) (records : List Verification) where
  -- VERIFIED, and not with another company status than the required one.
  abbrev pub Agrees : McaParameters → Evidence → Verification → Type 0
  Agrees params item v =
      (v.status ≡ verified)
      × (contradiction str repr upper as_bool params.required_status
            (lookup "company_status" v.«data»)
          ≡ none)

  reported-Known : (s : String) → Known (some (Mca.flag_by_reported s))
  reported-Known s = elim (Bool-cases (s == "STRIKE_OFF")) [
    | inl e ↦ rw e (one_flag _ company_strike_off_registered)
    | inr e ↦ rw e (elim (Bool-cases (s == "UNDER_LIQUIDATION")) [
      | inl f ↦ rw f (one_flag _ company_under_liquidation_registered)
      | inr f ↦ rw f (one_flag _ company_inactive_registered)
    ])
  ]

  judge-Passes :
      (params : McaParameters) (item : Evidence) (v : Verification) (o : Option Json)
      → Passes (kept records (ok v), judge str repr upper as_bool params requirement item v o)
        ↔ ((o ≡ none) × (Mca.provider_to_compliance v.status ≡ pass))
  judge-Passes params item v none =
      iff_trans
        (flagged-Passes (kept records (ok v)) requirement (Mca.provider_to_compliance v.status)
          (Mca.reason_of v.status) item v (Mca.flag_by_status v.status) (mca-Known v.status))
        (λ h. (refl, h), λ h. h.1)
  judge-Passes params item v (some reported) =
      iff_trans
        (flagged-Passes (kept records (ok v)) requirement fail _ item v
          (some (Mca.flag_by_reported (str reported))) (reported-Known (str reported)))
        (λ h. cc, λ h. cc)

  contradicted-none :
      (params : McaParameters) (v : Verification) (s : VerificationStatus)
      → ((contradicted str repr upper as_bool (Mca.provider_to_compliance s) params v ≡ none)
          × (Mca.provider_to_compliance s ≡ pass))
        ↔ ((s ≡ verified)
            × (contradiction str repr upper as_bool params.required_status
                  (lookup "company_status" v.«data»)
                ≡ none))
  contradicted-none params v verified = (λ h. (refl, h.0), λ h. (h.1, refl))
  contradicted-none params v not_found = (λ h. cc, λ h. cc)
  contradicted-none params v invalid = (λ h. cc, λ h. cc)
  contradicted-none params v inactive = (λ h. cc, λ h. cc)
  contradicted-none params v unavailable = (λ h. cc, λ h. cc)
  contradicted-none params v error = (λ h. cc, λ h. cc)

  -- The registration is not waived.
  abbrev pub is_waived : Option Bool → Bool
  is_waived (some false) = true
  is_waived _ = false

  -- The parameters are valid and do not waive the registration, and the provider's answer for the CIN
  -- agrees with them.
  pub record Cleared (evidence : List Evidence) : Type 0 where
    pub params : McaParameters
    pub reads : read_parameters str repr upper as_bool requirement.parameters ≡ ok params
    pub wanted : is_waived params.require_registration ≡ false
    pub answered : Answered provider str [] (find_cin_evidence upper evidence) (Agrees params)

  query-Passes :
      (params : McaParameters) (evidence : List Evidence)
      → Passes (
          track
            (some provider)
            (evaluate_required str repr upper as_bool params evidence requirement none)
            records)
        ↔ Answered provider str [] (find_cin_evidence upper evidence) (Agrees params)
  unfolding track
  query-Passes params evidence =
      query_field-Passes provider str [] (Agrees params) _ _
        (Mca.conclude str repr upper as_bool params requirement) records
        (find_cin_evidence upper evidence)
        (missing_Decides provider str requirement records (Agrees params) _ _
          (Mca.conclude str repr upper as_bool params requirement) (λ item e. refl)
          (λ item v.
            iff_trans
              (judge-Passes params item (linked item v) (
                contradicted str repr upper as_bool (Mca.provider_to_compliance v.status) params v))
              (contradicted-none params v v.status)))

  required-Passes :
      (params : McaParameters) (evidence : List Evidence) (require : Option Bool)
      → Passes (
          track
            (some provider)
            (evaluate_required str repr upper as_bool params evidence requirement require)
            records)
        ↔ ((is_waived require ≡ false)
            × Answered provider str [] (find_cin_evidence upper evidence) (Agrees params))
  unfolding track
  required-Passes params evidence none =
      iff_trans (query-Passes params evidence) (λ a. (refl, a), λ h. h.1)
  required-Passes params evidence (some true) =
      iff_trans (query-Passes params evidence) (λ a. (refl, a), λ h. h.1)
  required-Passes params evidence (some false) = (λ h. cc, λ h. cc)

  with-Passes :
      (evidence : List Evidence) (o : Outcome RuleError McaParameters)
      → read_parameters str repr upper as_bool requirement.parameters ≡ o
      → Passes (
          track
            (some provider)
            (evaluate_with str repr upper as_bool evidence requirement o)
            records)
      → Cleared evidence
  unfolding track
  with-Passes evidence (raised e) reads p = absurd p
  with-Passes evidence (ok params) reads p =
      let (wanted, answered) = (required-Passes params evidence params.require_registration).0 p in
      record { params = params; reads = reads; wanted = wanted; answered = answered }

  pub mca-Passes :
      (evidence : List Evidence)
      → Passes (
          track
            (some provider)
            (Mca.evaluate str repr upper as_bool true evidence requirement)
            records)
        ↔ Cleared evidence
  unfolding Mca.evaluate
  mca-Passes evidence = (
    with-Passes evidence (read_parameters str repr upper as_bool requirement.parameters) refl,
    λ c. rw c.reads (
        (required-Passes c.params evidence c.params.require_registration).1 (c.wanted, c.answered)),
  )
