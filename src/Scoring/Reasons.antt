-- ===== src/Scoring/Reasons.antt =====
-- A reason that was added to the tally of a document stays to its detail.
use core_engine_ge_m.Base.{
  ◌≡◌, subst, String, true, Option, none, some, List, [], ◌∷◌, inl, inr, Outcome, ok, raised,
  >>=-eq-ok, contains, Bool-cases, arith,
}
use core_engine_ge_m.Flags.{FlagError, get_flag_definition}
use core_engine_ge_m.Flags.Model.{FlagDefinition, FlagSeverity}
use core_engine_ge_m.Rules.Model.{
  VerificationStatus, verified as verified_status, not_found, invalid, inactive, unavailable, error,
  Verification, ComplianceStatus, pass, fail, missing, unverifiable, inapplicable, warning,
  not_checked, ComplianceResult,
}
use core_engine_ge_m.Scoring.Numbers.{Floats}
use core_engine_ge_m.Scoring.Model.{
  ScoringError, Reason, compliance_failed, compliance_missing, compliance_unverifiable,
  compliance_warning, verification_failed, verification_unavailable, evidence_quality_degraded,
  evidence_quality_unknown, material_finding, reason_eq, QualityState, good, degraded, unknown,
}
use core_engine_ge_m.Scoring.Document.{
  Tally, less, because, weigh_status, weigh_results, weigh_verification, weigh_verifications,
  weigh_severity, weigh_flag, weigh_flags, weigh_quality, note_clean, note_verified, is_material,
}

module _ {F : Type 0} ⦃d : Floats F⦄ (x : Reason) where
  abbrev pub Told : Tally F → Type 0
  Told t = contains x t.reasons ≡ true

  pub because-Told : (r : Reason) (t : Tally F) → Told t → Told (because r t)
  because-Told r t h = ground arith

  pub status-Told : (s : ComplianceStatus) (t : Tally F) → Told t → Told (weigh_status s t)
  status-Told pass t h = h
  status-Told fail t h = because-Told compliance_failed t h
  status-Told missing t h = because-Told compliance_missing t h
  status-Told unverifiable t h = because-Told compliance_unverifiable t h
  status-Told inapplicable t h = h
  status-Told warning t h = because-Told compliance_warning t h
  status-Told not_checked t h = h

  pub results-Told : (rs : List ComplianceResult) (t : Tally F) → Told t → Told (weigh_results rs t)
  results-Told [] t h = h
  results-Told (r ∷ rs) t h = results-Told rs (weigh_status r.status t) (status-Told r.status t h)

  verification-Told :
      (s : VerificationStatus) (t : Tally F) → Told t → Told (weigh_verification s t)
  verification-Told verified_status t h = h
  verification-Told not_found t h = because-Told verification_failed t h
  verification-Told invalid t h = because-Told verification_failed t h
  verification-Told inactive t h = because-Told verification_failed t h
  verification-Told unavailable t h = because-Told verification_unavailable t h
  verification-Told error t h = because-Told verification_unavailable t h

  pub verifications-Told :
      (vs : List Verification) (t : Tally F) → Told t → Told (weigh_verifications vs t)
  verifications-Told [] t h = h
  verifications-Told (v ∷ vs) t h =
      verifications-Told vs (weigh_verification v.status t) (verification-Told v.status t h)

  severity-Told : (s : FlagSeverity) (t : Tally F) → Told t → Told (weigh_severity s t)
  severity-Told s t h = elim (Bool-cases (is_material s)) [
    | inl e ↦ rw e (because-Told material_finding (less "25.0" t) h)
    | inr e ↦ rw e h
  ]

  flag-Told :
      (o : Outcome FlagError FlagDefinition) (t u : Tally F)
      → weigh_flag o t ≡ ok u
      → Told t
      → Told u
  flag-Told (raised e) t u h k = cc
  flag-Told (ok definition) t u h k = subst Told (same h) (severity-Told definition.severity t k)
    where
      same : {a b : Tally F} → ◌≡◌ {A = Outcome ScoringError (Tally F)} (ok a) (ok b) → a ≡ b
      same h = cc

  pub flags-Told :
      (flag_ids : List String) (t u : Tally F) → weigh_flags flag_ids t ≡ ok u → Told t → Told u
  unfolding weigh_flags
  flags-Told [] t u h k = subst Told (same h) k
    where
      same : {a b : Tally F} → ◌≡◌ {A = Outcome ScoringError (Tally F)} (ok a) (ok b) → a ≡ b
      same h = cc
  flags-Told (flag_id ∷ flag_ids) t u h k =
      let (v, e, f) =
        >>=-eq-ok (weigh_flag (get_flag_definition flag_id) t) (weigh_flags flag_ids) u h in
      flags-Told flag_ids v u f (flag-Told (get_flag_definition flag_id) t v e k)

  quality-Told : (q : Option QualityState) (t : Tally F) → Told t → Told (weigh_quality q t)
  quality-Told none t h = h
  quality-Told (some good) t h = h
  quality-Told (some degraded) t h = because-Told evidence_quality_degraded t h
  quality-Told (some unknown) t h = because-Told evidence_quality_unknown t h

  note_clean-Told : (t : Tally F) → Told t → Told (note_clean t)
  note_clean-Told t h = ground arith

  note_verified-Told : (vs : List Verification) (t : Tally F) → Told t → Told (note_verified vs t)
  note_verified-Told vs t h = ground arith

  -- What is told before the flags is told after them.
  pub noted-Told :
      (vs : List Verification) (q : Option QualityState) (t : Tally F)
      → Told t
      → Told (note_verified vs (note_clean (weigh_quality q t)))
  noted-Told vs q t h =
      note_verified-Told vs (note_clean (weigh_quality q t))
        (note_clean-Told (weigh_quality q t) (quality-Told q t h))
