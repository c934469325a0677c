-- ===== src/Rules/Gst/Passing.antt =====
-- When the GST registration rule passes.
use core_engine_ge_m.Base.{◌≡◌, ◌↔◌, String, true, some, List, [], Json, arith}
use core_engine_ge_m.Rules.Model.{
  Requirement, Evidence, VerificationStatus, verified, Verification, pass, first_field,
}
use core_engine_ge_m.Rules.Calls.{Provider, track}
use core_engine_ge_m.Rules.Passing.{Passes, Answered, query_field-Passes}
use core_engine_ge_m.Rules.Gst.{provider_to_compliance, conclude, missing, evaluate}

-- The answer has this status.
abbrev pub Says : VerificationStatus → Evidence → Verification → Type 0
Says status item v = v.status ≡ status

pub only_verified : (s : VerificationStatus) → (provider_to_compliance s ≡ pass) ↔ (s ≡ verified)
only_verified s = ground arith

module _ (provider : Provider) (str : Json → String) (requirement : Requirement)
    (records : List Verification) where
  -- The GST registration rule passes exactly when the evidence has a GSTIN with a value and the
  -- provider answers VERIFIED for it. So an absent GSTIN, a provider that raises, is unavailable,
  -- errs or does not know the GSTIN, never passes.
  pub Passes-iff :
      (evidence : List Evidence)
      → Passes (track (some provider) (evaluate str true evidence requirement) records)
        ↔ Answered provider str [] (first_field "GST" "gstin" evidence) (Says verified)
  unfolding evaluate track
  Passes-iff evidence =
      query_field-Passes provider str [] (Says verified)
        (missing requirement "GSTIN evidence is missing, so GST registration cannot be evaluated."
          [])
        _ (conclude requirement) records (first_field "GST" "gstin" evidence)
        (record {
          absent_fails = λ h. cc;
          null_fails = λ item h. cc;
          raised_fails = λ item e h. absurd h;
          decides = λ item v. only_verified v.status;
        })
