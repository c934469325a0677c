-- ===== src/Rules/Registrations.antt =====
-- When the rules for PAN, Udyam and MCA21 pass.
use core_engine_ge_m.Base.{
  ◌≡◌, ◌↔◌, refl, String, Bool, true, Option, some, List, [], Json, string_eq, ok, arith,
}
use core_engine_ge_m.Rules.Model.{
  Requirement, Evidence, VerificationStatus, verified, not_found, invalid, inactive, unavailable,
  error, Verification, pass, first_field,
}
use core_engine_ge_m.Rules.Calls.{Provider, track, kept}
use core_engine_ge_m.Rules.Registered.{
  one_flag, pan_inactive_registered, pan_invalid_registered, pan_not_found_registered,
  pan_verification_unavailable_registered, udyam_inactive_registered, udyam_invalid_registered,
  udyam_not_found_registered, udyam_verification_unavailable_registered,
}
use core_engine_ge_m.Rules.Passing.{Passes, Answered, query_field-Passes}
use core_engine_ge_m.Rules.Gst.Passing.{Says}
use core_engine_ge_m.Rules.Flagged.{Known, flagged-Passes, iff_trans, missing_Decides}
use core_engine_ge_m.Rules.Company.{Cleared, mca-Passes}
use core_engine_ge_m.Rules.Pan
use core_engine_ge_m.Rules.Udyam
use core_engine_ge_m.Rules.Mca
use core_engine_ge_m.Rules.Mca.{
  judge, evaluate_with, evaluate_required, McaParameters, contradiction, contradicted,
  find_cin_evidence, read_parameters,
}

pan-Known : (s : VerificationStatus) → Known (Pan.flag_by_status s)
pan-Known verified = (_, refl)
pan-Known inactive = one_flag _ pan_inactive_registered
pan-Known invalid = one_flag _ pan_invalid_registered
pan-Known not_found = one_flag _ pan_not_found_registered
pan-Known unavailable = one_flag _ pan_verification_unavailable_registered
pan-Known error = one_flag _ pan_verification_unavailable_registered

udyam-Known : (s : VerificationStatus) → Known (Udyam.flag_by_status s)
udyam-Known verified = (_, refl)
udyam-Known inactive = one_flag _ udyam_inactive_registered
udyam-Known invalid = one_flag _ udyam_invalid_registered
udyam-Known not_found = one_flag _ udyam_not_found_registered
udyam-Known unavailable = one_flag _ udyam_verification_unavailable_registered
udyam-Known error = one_flag _ udyam_verification_unavailable_registered

pan_passing : (s : VerificationStatus) → (Pan.provider_to_compliance s ≡ pass) ↔ (s ≡ verified)
pan_passing s = ground arith

udyam_passing : (s : VerificationStatus) → (Udyam.provider_to_compliance s ≡ pass) ↔ (s ≡ verified)
udyam_passing s = ground arith

module _ (provider : Provider) (str : Json → String) (requirement : Requirement)
    (records : List Verification) where
  pan-Passes :
      (evidence : List Evidence)
      → Passes (track (some provider) (Pan.evaluate str true evidence requirement) records)
        ↔ Answered provider str [] (first_field "PAN" "pan_number" evidence) (Says verified)
  unfolding Pan.evaluate track
  pan-Passes evidence =
      query_field-Passes provider str [] (Says verified) _ _ (Pan.conclude requirement) records
        (first_field "PAN" "pan_number" evidence)
        (missing_Decides provider str requirement records (Says verified) _ _
          (Pan.conclude requirement) (λ item e. refl)
          (λ item v.
            iff_trans
              (flagged-Passes (kept records (ok v)) requirement
                (Pan.provider_to_compliance v.status) (Pan.reason_of v.status) item v
                (Pan.flag_by_status v.status) (pan-Known v.status))
              (pan_passing v.status)))

  udyam-Passes :
      (evidence : List Evidence)
      → Passes (track (some provider) (Udyam.evaluate str true evidence requirement) records)
        ↔ Answered provider str []
            (first_field "UDYAM" "udyam_registration_number" evidence)
            (Says verified)
  unfolding Udyam.evaluate track
  udyam-Passes evidence =
      query_field-Passes provider str [] (Says verified) _ _ (Udyam.conclude requirement) records
        (first_field "UDYAM" "udyam_registration_number" evidence)
        (missing_Decides provider str requirement records (Says verified) _ _
          (Udyam.conclude requirement) (λ item e. refl)
          (λ item v.
            iff_trans
              (flagged-Passes (kept records (ok v)) requirement
                (Udyam.provider_to_compliance v.status) (Udyam.reason_of v.status) item v
                (Udyam.flag_by_status v.status) (udyam-Known v.status))
              (udyam_passing v.status)))

module _ (provider : Provider) (str repr : Json → String) (upper : String → String)
    (as_bool : Json → Option Bool) (requirement : Requirement) (records : List Verification) where
  -- When the rules for PAN, Udyam and MCA21 pass, each with whatever records were kept before. Those
  -- for PAN and Udyam pass exactly when the evidence has the number with a value and the provider
  -- answers VERIFIED for it. That for MCA21 passes exactly when its parameters are valid and do not
  -- waive the registration, the evidence has a CIN with a value, and the provider answers VERIFIED for
  -- it, without a company status other than the one that the parameters require, if they do.
  pub registrations_pass :
      (evidence : List Evidence)
      → (Passes (track (some provider) (Pan.evaluate str true evidence requirement) records)
          ↔ Answered provider str [] (first_field "PAN" "pan_number" evidence) (Says verified))
        × (Passes (track (some provider) (Udyam.evaluate str true evidence requirement) records)
            ↔ Answered provider str []
                (first_field "UDYAM" "udyam_registration_number" evidence)
                (Says verified))
        × (Passes (
              track
                (some provider)
                (Mca.evaluate str repr upper as_bool true evidence requirement)
                records)
            ↔ Cleared provider str repr upper as_bool requirement records evidence)
  registrations_pass evidence = (
    pan-Passes provider str requirement records evidence,
    udyam-Passes provider str requirement records evidence,
    mca-Passes provider str repr upper as_bool requirement records evidence,
  )
