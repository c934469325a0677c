-- ===== src/Scoring/Lights.antt =====
-- A failed requirement is not hidden by the weighted score.
use core_engine_ge_m.Base.{
  ◌≡◌, refl, subst, String, Bool, true, false, ◌||◌, ◌&&◌, Option, List, [], ◌∷◌, map, string_eq,
  Among, Among-append_left, inl, inr, Outcome, ok, ◌>>=◌, >>=-eq-ok, ℕ, any, contains, select,
  Bool-cases, arith,
}
use core_engine_ge_m.Rules.Model.{
  Evidence, Verification, ComplianceStatus, fail, ComplianceResult, IdentityFinding,
}
use core_engine_ge_m.Scoring.Numbers.{Floats}
use core_engine_ge_m.Scoring.Model.{
  red, DocumentPriority, Reason, compliance_failed, reason_eq, sorted_reasons, checked,
  DocumentInput, DocumentScoreDetail, BidderDocumentScore, QualityState, VerificationFinding,
}
use core_engine_ge_m.Scoring.Policy.{DocumentScoringPolicy, importance_for}
use core_engine_ge_m.Scoring.Document.{
  Tally, weigh_status, weigh_results, weigh_flags, weigh, full, concerns, results_for_type,
  verifications_for_type, finding_flags, identity_flags, result_flags, add_all, weigh_confidence,
  weigh_type, weigh_evidence, average_of, confidences, settle, checked_detail, score_typed,
  score_document, score_missing,
}
use core_engine_ge_m.Scoring.Reasons.{
  Told, results-Told, verifications-Told, flags-Told, noted-Told,
}
use core_engine_ge_m.Scoring.{
  Sources, is_critical, is_high, has_failed, is_red, categorize, canonical_type, score_documents,
  score_one, all_details, bidder_score, weighted_score, absent_types, checked_score, expected_types,
  score,
}

Among-select :
    {A : Type 0} (p : A → Bool) (a : A) (xs : List A)
    → p a ≡ true
    → Among a xs
    → Among a (select p xs)
Among-select p a [] h m = absurd m
Among-select p a (x ∷ xs) h (inl e) = rw (← e, h) (inl refl)
Among-select p a (x ∷ xs) h (inr m) = elim (Bool-cases (p x)) [
  | inl k ↦ rw k (inr (Among-select p a xs h m))
  | inr k ↦ rw k (Among-select p a xs h m)
]

any-Among :
    {A : Type 0} (p : A → Bool) (a : A) (xs : List A) → p a ≡ true → Among a xs → any p xs ≡ true
any-Among p a [] h m = absurd m
any-Among p a (x ∷ xs) h (inl e) = rw (← e, h) refl
any-Among p a (x ∷ xs) h (inr m) = ground (arith, any-Among p a xs h m)

sorted-failed :
    (rs : List Reason)
    → contains compliance_failed rs ≡ true
    → contains compliance_failed (sorted_reasons rs) ≡ true
sorted-failed rs h = rw h refl

pub ok-injective : {E A : Type 0} (x y : A) → ◌≡◌ {A = Outcome E A} (ok x) (ok y) → x ≡ y
ok-injective x y h = cc

pub checked_ok : {A : Type 0} (b : Bool) (x : A) → b ≡ true → checked b x ≡ ok x
checked_ok b x h = rw h refl

pub checked-eq-ok : {A : Type 0} (b : Bool) (x y : A) → checked b x ≡ ok y → (b ≡ true) × (x ≡ y)
checked-eq-ok true x y h = (refl, ok-injective x y h)
checked-eq-ok false x y h = cc

-- The priority is one at which a failure is decisive.
abbrev pub is_weighty : DocumentPriority → Bool
is_weighty p = is_critical p || is_high p

module _ {F : Type 0} ⦃d : Floats F⦄ where
  -- A failed result leaves its reason.
  fail-Told :
      (s : ComplianceStatus) (t : Tally F) → s ≡ fail → Told compliance_failed (weigh_status s t)
  fail-Told s t e = rw e refl

  failed-Told :
      (r : ComplianceResult) (rs : List ComplianceResult) (t : Tally F)
      → r.status ≡ fail
      → Among r rs
      → Told compliance_failed (weigh_results rs t)
  failed-Told r [] t e m = absurd m
  failed-Told r (x ∷ rs) t e (inl k) =
      results-Told compliance_failed rs (weigh_status x.status t)
        (fail-Told x.status t (subst (λ y. y.status ≡ fail) k e))
  failed-Told r (x ∷ rs) t e (inr m) = failed-Told r rs (weigh_status x.status t) e m

  blocks :
      (policy : DocumentScoringPolicy F) (final : F) (item : DocumentScoreDetail F)
      (details : List (DocumentScoreDetail F))
      → Among item details
      → has_failed item ≡ true
      → is_weighty item.priority ≡ true
      → categorize policy final details ≡ red
  unfolding categorize is_red
  blocks policy final item details m f w = elim (Bool-cases (is_critical item.priority)) [
    | inl c ↦
        let a =
          any-Among (λ x. is_critical x.priority && has_failed x) item details (rw (c, f) refl) m in
        ground arith
    | inr c ↦
        let a =
          any-Among (λ x. is_high x.priority && has_failed x) item details (rw (rw c at w, f) refl)
            m in
        ground arith
  ]

  module _ (strip upper : String → String) (policy : DocumentScoringPolicy F) where
    failed-detail :
        (document : DocumentInput) (canonical : String) (evidence : List Evidence)
        (results : List ComplianceResult) (records : List Verification)
        (findings : List VerificationFinding) (identity : List IdentityFinding)
        (quality : Option QualityState) (item : DocumentScoreDetail F) (r : ComplianceResult)
        → score_document strip upper policy document canonical evidence results records findings
            identity quality
          ≡ ok item
        → Among r results
        → r.status ≡ fail
        → concerns strip upper policy canonical r.capability ≡ true
        → (has_failed item ≡ true)
          × (item.priority ≡ (importance_for strip upper policy canonical).priority)
    unfolding score_document score_typed weigh
    failed-detail document canonical evidence results records findings identity quality item r h m e
          c =
        let mine = results_for_type strip upper policy canonical results in
        let mine_records = verifications_for_type strip upper policy canonical records in
        let flags = result_flags mine (
          add_all (identity_flags evidence identity)
            (add_all (finding_flags document.document_id evidence findings) [])) in
        let start =
          weigh_confidence policy.minimum_evidence_confidence (average_of (confidences evidence))
            (weigh_type canonical (weigh_evidence evidence full)) in
        let told = verifications-Told compliance_failed mine_records (weigh_results mine start) (
          failed-Told r mine start e (
            Among-select (λ x. concerns strip upper policy canonical x.capability) r results c
              m)) in
        let before = weigh strip upper policy canonical evidence mine mine_records full in
        let (t, g, k) =
          >>=-eq-ok (weigh_flags flags before)
            (λ t. checked_detail (
              settle strip upper policy document canonical evidence mine mine_records flags quality
                t))
            item h in
        let noted =
          noted-Told compliance_failed mine_records quality t
            (flags-Told compliance_failed flags before t g told) in
        subst
          (λ x.
            (has_failed x ≡ true)
            × (x.priority ≡ (importance_for strip upper policy canonical).priority))
          (checked-eq-ok _ _ item k).1 (rw (sorted-failed _ noted) refl, refl)

    -- Each document that is scored has its detail.
    score_documents-Among :
        (given : Sources) (document : DocumentInput) (documents : List DocumentInput)
        (details : List (DocumentScoreDetail F))
        → score_documents strip upper policy given documents ≡ ok details
        → Among document documents
        → (item : DocumentScoreDetail F) × Among item details
          × (score_one strip upper policy given document ≡ ok item)
    unfolding score_documents
    score_documents-Among given document [] details h m = absurd m
    score_documents-Among given document (x ∷ xs) details h m =
        let (one, e, f) =
          >>=-eq-ok (score_one strip upper policy given x)
            (λ one. (score_documents strip upper policy given xs >>= λ others. ok (one ∷ others)))
            details h in
        let (others, g, k) =
          >>=-eq-ok (score_documents strip upper policy given xs) (λ others. ok (one ∷ others))
            details f in
        rw (← ok-injective (one ∷ others) details k) (elim m [
          | inl same ↦ (one, inl refl, rw same e)
          | inr later ↦
              let (item, a, s) = score_documents-Among given document xs others g later in
              (item, inr a, s)
        ])

    module _ (decimal : ℕ → String) where
      scored_red :
          (bidder_id : String) (submission_id : Option String) (documents : List DocumentInput)
          (expected : List String) (item : DocumentScoreDetail F)
          (details : List (DocumentScoreDetail F))
          → Among item details
          → has_failed item ≡ true
          → is_weighty item.priority ≡ true
          → (bidder_score strip upper policy decimal bidder_id submission_id
              (all_details strip upper policy expected documents details)).category
            ≡ red
      scored_red bidder_id submission_id documents expected item details m f w =
          blocks policy (weighted_score (all_details strip upper policy expected documents details))
            item (all_details strip upper policy expected documents details)
            (Among-append_left item details
              (map (score_missing strip upper policy)
                (absent_types strip upper policy expected documents))
              m)
            f w

      -- A failed requirement is never hidden by the weighted score: when a document is of a type whose
      -- priority is CRITICAL or HIGH, and a FAIL of the compliance engine is about a capability that
      -- this type of document is expected for, the category of the bidder is RED, whatever the other
      -- documents and results are.
      pub failure_is_red :
          (bidder_id : String) (submission_id : Option String) (documents : List DocumentInput)
          (given : Sources) (result : BidderDocumentScore F) (document : DocumentInput)
          (r : ComplianceResult)
          → score strip upper policy decimal bidder_id submission_id documents given ≡ ok result
          → Among document documents
          → Among r given.compliance_results
          → r.status ≡ fail
          → concerns strip upper policy
              (canonical_type strip upper policy document.document_type)
              r.capability
            ≡ true
          → is_weighty
              (importance_for strip upper policy
                (canonical_type strip upper policy document.document_type)).priority
            ≡ true
          → result.category ≡ red
      unfolding score
      failure_is_red bidder_id submission_id [] given result document r h m n e c w = absurd m
      failure_is_red bidder_id submission_id (x ∷ xs) given result document r h m n e c w =
          let expected =
            expected_types strip upper policy given.requirements given.compliance_results in
          let (details, g, k) =
            >>=-eq-ok (score_documents strip upper policy given (x ∷ xs))
              (λ details. checked_score strip upper policy decimal (
                bidder_score strip upper policy decimal bidder_id submission_id
                  (all_details strip upper policy expected (x ∷ xs) details)))
              result h in
          let (item, a, s) = score_documents-Among given document (x ∷ xs) details g m in
          let (f, p) = failed-detail document _ _ _ _ _ _ _ item r s n e c in
          subst (λ y. y.category ≡ red) (checked-eq-ok _ _ result k).1
            (scored_red bidder_id submission_id (x ∷ xs) expected item details a f (rw p w))
