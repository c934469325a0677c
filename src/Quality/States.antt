-- ===== src/Quality/States.antt =====
-- What the state of an assessment says of the signals.
use core_engine_ge_m.Base.{
  ◌≡◌, ◌↔◌, refl, subst, Bool, true, false, not, ◌&&◌, ◌||◌, Option, none, some, List, [], ◌∷◌,
  ◌++◌, String, Outcome, ok, raised, ◌>>=◌, any, contains, arith,
}
use core_engine_ge_m.Scoring.Numbers.{Floats}
use core_engine_ge_m.Scoring.Model.{good, unknown}
use core_engine_ge_m.Scoring.Document.{is_none}
use core_engine_ge_m.Quality.Model.{
  QualityReason, quality_reason_eq, ocr_low, field_confidence_low, document_type_confidence_low,
  DocumentQualitySignals, CompletenessSignals, EvidenceQualityAssessment, QualityError, bounded,
}
use core_engine_ge_m.Scoring.Lights.{ok-injective}
use core_engine_ge_m.Quality.{
  with_reasons, field_score, complete_score, metadata_score, is_critical, unseen, flagged, is_low,
  ocr_reasons, field_reasons, completeness_reasons, metadata_reasons, ocr_quality_score,
  field_quality_score, completeness_score, metadata_reliability_score, overall_quality_score,
  derive_state, assessment, evaluate_signals,
}

contains-any :
    (p : QualityReason → Bool) (r : QualityReason) (seen : List QualityReason)
    → contains r seen ≡ true
    → p r ≡ true
    → any p seen ≡ true
contains-any p r [] h k = cc
contains-any p r (x ∷ xs) h k =
    ground (arith, contains-any p r xs, quality_reason_eq.equals_iff x r)

-- A reason that holds of `p` is left, or was seen.
any-unseen :
    (p : QualityReason → Bool) (seen reasons : List QualityReason)
    → (any p (unseen seen reasons) || any p seen) ≡ (any p reasons || any p seen)
unfolding unseen
any-unseen p seen [] = refl
any-unseen p seen (r ∷ rs) =
    ground (arith, any-unseen p seen rs, any-unseen p (r ∷ seen) rs, contains-any p r seen)

none-unseen : (reasons : List QualityReason) → is_none (unseen [] reasons) ≡ is_none reasons
unfolding unseen
none-unseen [] = refl
none-unseen (r ∷ rs) = refl

any-append :
    (p : QualityReason → Bool) (xs ys : List QualityReason)
    → any p (xs ++ ys) ≡ (any p xs || any p ys)
any-append p [] ys = refl
any-append p (x ∷ xs) ys = ground (arith, any-append p xs ys)

none-append : (xs ys : List QualityReason) → is_none (xs ++ ys) ≡ (is_none xs && is_none ys)
none-append [] ys = refl
none-append (x ∷ xs) ys = refl

flagged-none : (b : Bool) (r : QualityReason) → is_none (flagged b r []) ≡ not b
flagged-none b r = ground arith

flagged-critical :
    (b : Bool) (r : QualityReason)
    → is_critical r ≡ false
    → any is_critical (flagged b r []) ≡ false
flagged-critical b r h = ground arith

complete-none :
    (c : CompletenessSignals)
    → is_none (completeness_reasons c)
      ≡ (is_none c.required_fields_missing && (c.raw_text_present && c.metadata_present))
complete-none c = ground arith

complete-critical :
    (c : CompletenessSignals)
    → any is_critical (completeness_reasons c) ≡ not (c.raw_text_present && c.metadata_present)
complete-critical c = ground arith

module _ {F : Type 0} ⦃d : Floats F⦄ where
  -- A confidence that is reported and not low, and one that is not reported or not low.
  abbrev pub is_confident : Option F → Bool
  is_confident none = false
  is_confident (some c) = not (is_low c)

  abbrev pub is_undoubted : Option F → Bool
  is_undoubted none = true
  is_undoubted (some c) = not (is_low c)

  -- The text and the metadata of the document are there.
  abbrev pub is_readable : DocumentQualitySignals F → Bool
  is_readable s = s.completeness.raw_text_present && s.completeness.metadata_present

  -- Nothing is missing, and no confidence is low; only that in the type of the document may be absent.
  abbrev pub is_flawless : DocumentQualitySignals F → Bool
  is_flawless s =
      is_confident s.ocr.ocr_confidence
      && (is_confident s.fields.field_confidence
          && (is_undoubted s.metadata.document_type_confidence
              && (is_none s.completeness.required_fields_missing && is_readable s)))

  given_reasons : DocumentQualitySignals F → List QualityReason
  given_reasons s =
      ocr_reasons s.ocr.ocr_confidence
      ++ (field_reasons s.fields.field_confidence s.fields.required_fields_missing
          ++ (completeness_reasons s.completeness
              ++ metadata_reasons s.metadata.document_type_confidence))

  ocr-none : (c : Option F) → is_none (ocr_reasons c) ≡ is_confident c
  ocr-none none = refl
  ocr-none (some c) = flagged-none (is_low c) ocr_low

  ocr-critical : (c : Option F) → any is_critical (ocr_reasons c) ≡ false
  ocr-critical none = refl
  ocr-critical (some c) = flagged-critical (is_low c) ocr_low refl

  field-none :
      (c : Option F) (missing : List String) → is_none (field_reasons c missing) ≡ is_confident c
  field-none none missing = refl
  field-none (some c) missing = flagged-none (is_low c) field_confidence_low

  field-critical :
      (c : Option F) (missing : List String) → any is_critical (field_reasons c missing) ≡ false
  field-critical none [] = refl
  field-critical none (x ∷ xs) = refl
  field-critical (some c) missing = flagged-critical (is_low c) field_confidence_low refl

  metadata-none : (c : Option F) → is_none (metadata_reasons c) ≡ is_undoubted c
  metadata-none none = refl
  metadata-none (some c) = flagged-none (is_low c) document_type_confidence_low

  metadata-critical : (c : Option F) → any is_critical (metadata_reasons c) ≡ false
  metadata-critical none = refl
  metadata-critical (some c) = flagged-critical (is_low c) document_type_confidence_low refl

  given-none : (s : DocumentQualitySignals F) → is_none (given_reasons s) ≡ is_flawless s
  unfolding given_reasons
  given-none s =
      let o = ocr_reasons s.ocr.ocr_confidence in
      let f = field_reasons s.fields.field_confidence s.fields.required_fields_missing in
      let c = completeness_reasons s.completeness in
      let m = metadata_reasons s.metadata.document_type_confidence in
      ground (
        arith,
        none-append o (f ++ (c ++ m)),
        none-append f (c ++ m),
        none-append c m,
        ocr-none s.ocr.ocr_confidence,
        field-none s.fields.field_confidence s.fields.required_fields_missing,
        complete-none s.completeness,
        metadata-none s.metadata.document_type_confidence,
      )

  given-critical :
      (s : DocumentQualitySignals F) → any is_critical (given_reasons s) ≡ not (is_readable s)
  unfolding given_reasons
  given-critical s =
      let o = ocr_reasons s.ocr.ocr_confidence in
      let f = field_reasons s.fields.field_confidence s.fields.required_fields_missing in
      let c = completeness_reasons s.completeness in
      let m = metadata_reasons s.metadata.document_type_confidence in
      ground (
        arith,
        any-append is_critical o (f ++ (c ++ m)),
        any-append is_critical f (c ++ m),
        any-append is_critical c m,
        ocr-critical s.ocr.ocr_confidence,
        field-critical s.fields.field_confidence s.fields.required_fields_missing,
        complete-critical s.completeness,
        metadata-critical s.metadata.document_type_confidence,
      )

  derive_state-cases :
      (overall : F) (reasons : List QualityReason)
      → ((derive_state overall reasons ≡ unknown) ↔ (any is_critical reasons ≡ true))
        × ((derive_state overall reasons ≡ good)
            ↔ ((is_none reasons ≡ true) × (is_low overall ≡ false)))
  unfolding derive_state
  derive_state-cases overall reasons = ground arith

  -- An assessment is settled by its score and its reasons, and has the reasons that are given.
  Settled : List QualityReason → EvidenceQualityAssessment F → Type 0
  Settled given a =
      (a.state ≡ derive_state a.quality_score a.reasons) × (a.reasons ≡ unseen [] given)

  assessment-Settled :
      (ocr field complete metadata : F) (given : List QualityReason) (m : Outcome QualityError F)
      (a : EvidenceQualityAssessment F)
      → (m >>= λ overall. ok (assessment ocr field complete metadata overall (unseen [] given)))
        ≡ ok a
      → Settled given a
  unfolding Settled
  assessment-Settled ocr field complete metadata given (ok overall) a h =
      subst
        (λ b. (b.state ≡ derive_state b.quality_score b.reasons) × (b.reasons ≡ unseen [] given))
        (ok-injective _ a h) (refl, refl)
  assessment-Settled ocr field complete metadata given (raised e) a h = cc

  assessments-Settled :
      (o f c m : Outcome QualityError F) (overall : F → F → F → F → Outcome QualityError F)
      (os fs cs ms : List QualityReason) (a : EvidenceQualityAssessment F)
      → (o >>= λ ocr.
          (with_reasons fs f >>= λ field.
          (with_reasons cs c >>= λ complete.
          (with_reasons ms m >>= λ metadata.
          (overall ocr field.0 complete.0 metadata.0 >>= λ score. ok (
            assessment ocr field.0 complete.0 metadata.0 score
              (unseen [] (os ++ (field.1 ++ (complete.1 ++ metadata.1))))))))))
        ≡ ok a
      → Settled (os ++ (fs ++ (cs ++ ms))) a
  assessments-Settled (ok o) (ok f) (ok c) (ok m) overall os fs cs ms a h =
      assessment-Settled o f c m (os ++ (fs ++ (cs ++ ms))) (overall o f c m) a h
  assessments-Settled (ok o) (ok f) (ok c) (raised e) overall os fs cs ms a h = cc
  assessments-Settled (ok o) (ok f) (raised e) m overall os fs cs ms a h = cc
  assessments-Settled (ok o) (raised e) c m overall os fs cs ms a h = cc
  assessments-Settled (raised e) f c m overall os fs cs ms a h = cc

  evaluate_signals-Settled :
      (s : DocumentQualitySignals F) (a : EvidenceQualityAssessment F)
      → evaluate_signals s ≡ ok a
      → Settled (given_reasons s) a
  unfolding evaluate_signals ocr_quality_score field_quality_score completeness_score
      metadata_reliability_score given_reasons
  evaluate_signals-Settled s a h =
      assessments-Settled (ocr_quality_score s) (bounded (field_score s))
        (bounded (complete_score s.completeness)) (bounded (metadata_score s)) overall_quality_score
        (ocr_reasons s.ocr.ocr_confidence)
        (field_reasons s.fields.field_confidence s.fields.required_fields_missing)
        (completeness_reasons s.completeness) (metadata_reasons s.metadata.document_type_confidence)
        a h

  -- An assessment is UNKNOWN exactly when the text or the metadata of the document is missing; it has
  -- no reason exactly when nothing is missing, the confidences of the text and of the fields are
  -- reported and none is low; and it is GOOD exactly when it has no reason and its score is not
  -- below 0.85.
  pub evaluate_signals_lem :
      (s : DocumentQualitySignals F) (a : EvidenceQualityAssessment F)
      → evaluate_signals s ≡ ok a
      → ((a.state ≡ unknown) ↔ (is_readable s ≡ false))
        × ((is_none a.reasons ≡ true) ↔ (is_flawless s ≡ true))
        × ((a.state ≡ good) ↔ ((is_flawless s ≡ true) × (is_low a.quality_score ≡ false)))
  unfolding Settled
  evaluate_signals_lem s a h =
      let (e, k) = evaluate_signals-Settled s a h in
      let (u, g) = derive_state-cases a.quality_score a.reasons in
      let crit = any-unseen is_critical [] (given_reasons s) in
      let none = none-unseen (given_reasons s) in ground (arith, given-none s, given-critical s)
