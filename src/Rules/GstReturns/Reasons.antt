-- ===== src/Rules/GstReturns/Reasons.antt =====
-- Which answers of the provider the return-filing rule has a result for.
use core_engine_ge_m.Base.{
  ◌≡◌, refl, String, Bool, true, false, Option, some, List, [], ◌∷◌, ◌++◌, Json, lookup, string_eq,
  Outcome, ok, raised, arith, Bool-cases, inl, inr, if◌then◌else◌,
}
use core_engine_ge_m.Rules.Model.{
  Requirement, Evidence, VerificationStatus, verified, not_found, invalid, inactive, unavailable,
  error, Verification, ComplianceStatus, pass, fail, missing, unverifiable, inapplicable, warning,
  not_checked, ComplianceResult, RuleError, key_error, first_field, linked,
}
use core_engine_ge_m.Rules.Calls.{Provider, is_null, track, replace_last-append}
use core_engine_ge_m.Rules.Registered.{
  gst_return_compliance_issue_registered, gst_verification_unavailable_registered,
  gst_return_evidence_missing_registered, one_flag,
}
use core_engine_ge_m.Rules.GstReturns.{
  is_text, derive_status, reason_for, flags_for, filters, filing_result, status_of, result_of,
  evaluate,
}

-- A VERIFIED answer whose filing status is neither FILED nor NOT_FILED.
abbrev pub unrecognised : VerificationStatus → Option Json → Bool
unrecognised verified filing_status =
    if is_text "FILED" filing_status
    then false
    else if is_text "NOT_FILED" filing_status
    then false
    else true
unrecognised _ filing_status = false

reason_for-cases :
    (s : VerificationStatus) (o : Option Json)
    → (unrecognised s o ≡ true → reason_for s (derive_status s o) ≡ raised key_error)
      × (unrecognised s o ≡ false → (r : String) × (reason_for s (derive_status s o) ≡ ok r))
reason_for-cases not_found o = (λ h. ground arith, λ h. (_, refl))
reason_for-cases invalid o = (λ h. ground arith, λ h. (_, refl))
reason_for-cases inactive o = (λ h. ground arith, λ h. (_, refl))
reason_for-cases unavailable o = (λ h. ground arith, λ h. (_, refl))
reason_for-cases error o = (λ h. ground arith, λ h. (_, refl))
reason_for-cases verified o = elim (Bool-cases (is_text "FILED" o)) [
  | inl filed ↦ rw filed (λ h. ground arith, λ h. (_, refl))
  | inr other ↦ elim (Bool-cases (is_text "NOT_FILED" o)) [
    | inl late ↦ rw (other, late) (λ h. ground arith, λ h. (_, refl))
    | inr odd ↦ rw (other, odd) (λ h. refl, λ h. ground arith)
  ]
]

-- Whatever flag it names is registered.
flags_for-ok :
    (s : VerificationStatus) (c : ComplianceStatus)
    → (flags : List String) × (flags_for s c ≡ ok flags)
flags_for-ok s fail = one_flag _ gst_return_compliance_issue_registered
flags_for-ok unavailable unverifiable = one_flag _ gst_verification_unavailable_registered
flags_for-ok verified unverifiable = one_flag _ gst_return_evidence_missing_registered
flags_for-ok not_found unverifiable = one_flag _ gst_return_evidence_missing_registered
flags_for-ok invalid unverifiable = one_flag _ gst_return_evidence_missing_registered
flags_for-ok inactive unverifiable = one_flag _ gst_return_evidence_missing_registered
flags_for-ok error unverifiable = one_flag _ gst_return_evidence_missing_registered
flags_for-ok s pass = (_, refl)
flags_for-ok s missing = (_, refl)
flags_for-ok s inapplicable = (_, refl)
flags_for-ok s warning = (_, refl)
flags_for-ok s not_checked = (_, refl)

module _ (provider : Provider) (str : Json → String) (requirement : Requirement)
    (records : List Verification) where
  -- The evidence has a GSTIN with a value, and this is the provider's answer for it.
  pub record Asked (evidence : List Evidence) (gstin : Evidence) (v : Verification) : Type 0 where
    pub found : first_field "GST" "gstin" evidence ≡ some gstin
    pub valued : is_null gstin.value ≡ false
    pub answers :
        provider gstin.bidder_id (str gstin.value) (filters str requirement evidence) ≡ ok v

  evaluate-Asked :
      (evidence : List Evidence) (gstin : Evidence) (v : Verification)
      → Asked evidence gstin v
      → track (some provider) (evaluate str true evidence requirement) records
        ≡ (records ++ linked gstin v ∷ [], result_of requirement gstin (linked gstin v))
  unfolding evaluate track
  evaluate-Asked evidence gstin v a =
      rw (a.found, a.valued, track, a.answers, replace_last-append v (linked gstin v) records) refl

  -- A `KeyError` if there is no reason to give, and otherwise the result with some reason.
  abbrev pub Judges : Evidence → Verification → Bool → Outcome RuleError ComplianceResult → Type 0
  Judges gstin v true o = o ≡ raised key_error
  Judges gstin v false o =
      (reason : String) × (flags : List String) × (flags_for v.status (status_of v) ≡ ok flags)
      × (o ≡ ok (filing_result requirement gstin (linked gstin v) (status_of v) reason flags))

  judged :
      (gstin : Evidence) (v : Verification) (b : Bool)
      → unrecognised v.status (lookup "filing_status" v.«data») ≡ b
      → Judges gstin v b (result_of requirement gstin (linked gstin v))
  judged gstin v true h =
      let cases = reason_for-cases v.status (lookup "filing_status" v.«data») in rw (cases.0 h) refl
  judged gstin v false h =
      let cases = reason_for-cases v.status (lookup "filing_status" v.«data») in
      let (reason, e) = cases.1 h in
      let (flags, f) = flags_for-ok v.status (status_of v) in (reason, flags, f, rw (e, f) refl)

  -- When the evidence has a GSTIN with a value and the provider answers for it, the return-filing
  -- rule records the answer, linked to the evidence. It then raises `KeyError` exactly when the
  -- answer is VERIFIED with a filing status other than FILED and NOT_FILED; otherwise its result has
  -- the status that it derives from the answer, with registered flags, and refers to the evidence and
  -- to the verification.
  pub evaluate_lem :
      (evidence : List Evidence) (gstin : Evidence) (v : Verification)
      → Asked evidence gstin v
      → ((track (some provider) (evaluate str true evidence requirement) records).0
          ≡ records ++ linked gstin v ∷ [])
        × Judges gstin v
            (unrecognised v.status (lookup "filing_status" v.«data»))
            (track (some provider) (evaluate str true evidence requirement) records).1
  evaluate_lem evidence gstin v a =
      rw (evaluate-Asked evidence gstin v a)
        (refl, judged gstin v (unrecognised v.status (lookup "filing_status" v.«data»)) refl)
