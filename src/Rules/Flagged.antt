-- ===== src/Rules/Flagged.antt =====
-- What the rules that check their flags against the registry share in their proofs.
use core_engine_ge_m.Base.{
  ◌≡◌, ◌↔◌, String, Option, some, List, [], ◌∷◌, Json, string_eq, Outcome, ok, raised, ◌>>=◌,
}
use core_engine_ge_m.Rules.Model.{
  Requirement, Evidence, Verification, ComplianceStatus, pass, RuleError,
}
use core_engine_ge_m.Rules.Calls.{
  Provider, Calls, done, track, kept, checked_flags, required_field_missing, answered_result,
}
use core_engine_ge_m.Rules.Registered.{required_field_missing_registered}
use core_engine_ge_m.Rules.Passing.{Passes, Decides}

-- The flag is registered, if there is one.
abbrev pub Known : Option String → Type 0
Known o = (flags : List String) × (checked_flags o ≡ ok flags)

pub missing_fails :
    (provider : Option Provider) (records : List Verification) (requirement : Requirement)
    (reason : String) (refs : List String)
    → ¬ Passes (track provider (required_field_missing requirement reason refs) records)
unfolding track
missing_fails provider records requirement reason refs h =
    let h' = rw required_field_missing_registered at h in cc

pub flagged-Passes :
    (records : List Verification) (requirement : Requirement) (c : ComplianceStatus)
    (reason : String) (item : Evidence) (v : Verification) (o : Option String)
    → Known o
    → Passes (
      records,
      checked_flags o >>= λ flags. ok (answered_result requirement c reason item v flags),
    )
      ↔ (c ≡ pass)
flagged-Passes records requirement c reason item v o (flags, e) = rw e (λ h. h, λ h. h)

pub iff_trans {ℓ κ μ} : {A : Type ℓ} {B : Type κ} {C : Type μ} → A ↔ B → B ↔ C → A ↔ C
iff_trans p q = (λ a. q.0 (p.0 a), λ c. p.1 (q.1 c))

module _ (provider : Provider) (str : Json → String) (requirement : Requirement)
    (records : List Verification) where
  -- A rule that reports a missing field, and passes an exception on.
  pub missing_Decides :
      (Good : Evidence → Verification → Type 0) (reason : String) (null_reason : String)
      (answered : Evidence → Outcome RuleError Verification → Calls)
      → ((item : Evidence) (e : RuleError) → answered item (raised e) ≡ done (raised e))
      → ((item : Evidence) (v : Verification)
          → Passes (track (some provider) (answered item (ok v)) (kept records (ok v)))
            ↔ Good item v)
      → Decides provider str [] Good
          (required_field_missing requirement reason [])
          (λ item. required_field_missing requirement null_reason (item.evidence_id ∷ []))
          answered
          records
  unfolding track
  missing_Decides Good reason null_reason answered raises decides = record {
    absent_fails = missing_fails (some provider) records requirement reason [];
    null_fails = λ item.
        missing_fails (some provider) records requirement null_reason (item.evidence_id ∷ []);
    raised_fails = λ item e. rw (raises item e) (λ h. absurd h);
    decides = decides;
  }
