-- ===== src/Scoring/Returns.antt =====
-- How the scoring ends where the flags are those of the registry.
use core_engine_ge_m.Base.{
  raised, ◌⊎◌, false, ◌&&◌, ◌≡◌, refl, String, Bool, true, false, List, [], ◌∷◌, Option, ok, ℕ, All,
  All-select, lookup, string_eq, Bool-cases, inl, inr, if◌then◌else◌,
}
use Prim.Native.Nat.{Ordering}
use Prim.Native.String
use core_engine_ge_m.Flags.{get_flag_definition}
use core_engine_ge_m.Flags.Model.{FlagDefinition}
use core_engine_ge_m.Rules.Model.{Evidence, ComplianceResult, IdentityFinding}
use core_engine_ge_m.Scoring.Numbers.{in_score_range, Floats, IsOrdered}
use core_engine_ge_m.Scoring.Model.{
  DocumentInput, DocumentScoreDetail, BidderDocumentScore, validation_error, VerificationFinding,
}
use core_engine_ge_m.Scoring.Policy.{DocumentScoringPolicy}
use core_engine_ge_m.Scoring.Document.{
  Tally, is_none, full, weigh, weigh_severity, weigh_flags, settle, score_typed, score_document,
  concerns, results_for_type, verifications_for_type, result_flags, add_sorted, add_all,
  identity_flags, finding_flags,
}
use core_engine_ge_m.Scoring.{
  Sources, evidence_of, canonical_type, score_one, score_documents, all_details, bidder_score,
  weighted_score, expected_types, empty_result, score,
}
use core_engine_ge_m.Scoring.Bounds.{
  Within, zero-Within, in_score_range-Within, settled-checked, details-Within,
}

-- The registry has the flag.
abbrev pub IsKnown : String → Type 0
IsKnown flag_id = (e : FlagDefinition) × (get_flag_definition flag_id ≡ ok e)

placed-IsKnown :
    (o : Ordering) (key k : String) (keys rest : List String)
    → IsKnown key
    → All IsKnown (k ∷ keys)
    → All IsKnown rest
    → All IsKnown
        (elim o [ Ordering.lt ↦ key ∷ k ∷ keys | Ordering.eq ↦ k ∷ keys | Ordering.gt ↦ k ∷ rest ])
placed-IsKnown Ordering.lt key k keys rest h a r = (h, a)
placed-IsKnown Ordering.eq key k keys rest h a r = a
placed-IsKnown Ordering.gt key k keys rest h a r = (a.0, r)

add_sorted-IsKnown :
    (key : String) (set : List String)
    → IsKnown key
    → All IsKnown set
    → All IsKnown (add_sorted key set)
add_sorted-IsKnown key [] h k = (h, tt)
add_sorted-IsKnown key (x ∷ xs) h k =
    placed-IsKnown (String.compare key x) key x xs (add_sorted key xs) h k
      (add_sorted-IsKnown key xs h k.1)

add_all-IsKnown :
    (keys set : List String) → All IsKnown keys → All IsKnown set → All IsKnown (add_all keys set)
add_all-IsKnown [] set h k = k
add_all-IsKnown (key ∷ keys) set h k =
    add_all-IsKnown keys (add_sorted key set) h.1 (add_sorted-IsKnown key set h.0 k)

All-if :
    (b : Bool) (key : String) (rest : List String)
    → IsKnown key
    → All IsKnown rest
    → All IsKnown (if b then key ∷ rest else rest)
All-if true key rest h k = (h, k)
All-if false key rest h k = k

finding_flags-IsKnown :
    (document_id : String) (evidence : List Evidence) (findings : List VerificationFinding)
    → All (λ x. IsKnown x.flag_id) findings
    → All IsKnown (finding_flags document_id evidence findings)
unfolding finding_flags
finding_flags-IsKnown document_id evidence [] h = tt
finding_flags-IsKnown document_id evidence (x ∷ xs) h =
    All-if _ x.flag_id _ h.0 (finding_flags-IsKnown document_id evidence xs h.1)

identity_flags-IsKnown :
    (evidence : List Evidence) (findings : List IdentityFinding)
    → All (λ x. IsKnown x.flag_id) findings
    → All IsKnown (identity_flags evidence findings)
unfolding identity_flags
identity_flags-IsKnown evidence [] h = tt
identity_flags-IsKnown evidence (x ∷ xs) h =
    All-if _ x.flag_id _ h.0 (identity_flags-IsKnown evidence xs h.1)

result_flags-IsKnown :
    (results : List ComplianceResult) (flags : List String)
    → All (λ r. All IsKnown r.flags) results
    → All IsKnown flags
    → All IsKnown (result_flags results flags)
result_flags-IsKnown [] flags h k = k
result_flags-IsKnown (r ∷ rs) flags h k =
    result_flags-IsKnown rs (add_all r.flags flags) h.1 (add_all-IsKnown r.flags flags h.0 k)

-- The flags that a run meets are those of the registry.
abbrev pub HasKnownFlags : Sources → Type 0
HasKnownFlags given =
    All (λ x. IsKnown x.flag_id) given.findings
    × All (λ x. IsKnown x.flag_id) given.identity_findings
    × All (λ r. All IsKnown r.flags) given.compliance_results

module _ {F : Type 0} ⦃d : Floats F⦄ where
  weigh_flags-returns :
      (flags : List String) (t : Tally F)
      → All IsKnown flags
      → (u : Tally F) × (weigh_flags flags t ≡ ok u)
  unfolding weigh_flags
  weigh_flags-returns [] t h = (t, refl)
  weigh_flags-returns (f ∷ fs) t h =
      let (u, e) = weigh_flags-returns fs (weigh_severity h.0.0.severity t) h.1 in (u, rw (h.0.1) e)

  module _ (strip upper : String → String) (policy : DocumentScoringPolicy F) (decimal : ℕ → String)
      (bidder_id : String) (submission_id : Option String) (documents : List DocumentInput)
      (given : Sources) where
    -- The details of all documents, those that are missing included.
    abbrev pub details_of : List (DocumentScoreDetail F) → List (DocumentScoreDetail F)
    details_of details =
        all_details strip upper policy
          (expected_types strip upper policy given.requirements given.compliance_results) documents
          details

    -- What the scoring gives: a result whose scores are in range, or the `ValidationError` of a
    -- weighted score that is not.
    abbrev pub Scores : Type 0
    Scores =
        ((result : BidderDocumentScore F) × (score strip upper policy decimal bidder_id
              submission_id documents given
            ≡ ok result)
          × Within result.score
          × All (λ x. Within x.score) result.documents)
        ⊎ ((details : List (DocumentScoreDetail F)) × (score_documents strip upper policy given
                documents
              ≡ ok details)
            × (in_score_range (d.round_to 2 (weighted_score (details_of details))) ≡ false)
            × (score strip upper policy decimal bidder_id submission_id documents given
                ≡ raised validation_error))

    abbrev is_idle : Bool
    is_idle =
        is_none documents
        && is_none (expected_types strip upper policy given.requirements given.compliance_results)

  module _ (laws : IsOrdered F) (strip upper : String → String)
      (policy : DocumentScoringPolicy F) where
    score_one-returns :
        (given : Sources) (document : DocumentInput)
        → HasKnownFlags given
        → (item : DocumentScoreDetail F) × (score_one strip upper policy given document ≡ ok item)
    unfolding score_document score_typed
    score_one-returns given document h =
        let canonical = canonical_type strip upper policy document.document_type in
        let evidence = evidence_of document.document_id given.evidence in
        let mine = results_for_type strip upper policy canonical given.compliance_results in
        let records =
          verifications_for_type strip upper policy canonical given.verification_records in
        let first = add_all (finding_flags document.document_id evidence given.findings) [] in
        let second = add_all (identity_flags evidence given.identity_findings) first in
        let known =
          result_flags-IsKnown mine second
            (All-select (λ r. All IsKnown r.flags)
              (λ r. concerns strip upper policy canonical r.capability) given.compliance_results
              h.2)
            (add_all-IsKnown (identity_flags evidence given.identity_findings) first
              (identity_flags-IsKnown evidence given.identity_findings h.1)
              (add_all-IsKnown (finding_flags document.document_id evidence given.findings) []
                (finding_flags-IsKnown document.document_id evidence given.findings h.0) tt)) in
        let (t, e) =
          weigh_flags-returns (result_flags mine second)
            (weigh strip upper policy canonical evidence mine records full) known in
        (
          settle strip upper policy document canonical evidence mine records
              (result_flags mine second) (lookup document.document_id given.quality_by_document_id)
              t,
          rw e (
              settled-checked laws strip upper policy document canonical evidence mine records
                (result_flags mine second)
                (lookup document.document_id given.quality_by_document_id) t),
        )

    score_documents-returns :
        (given : Sources) (documents : List DocumentInput)
        → HasKnownFlags given
        → (details : List (DocumentScoreDetail F)) × (score_documents strip upper policy given
              documents
            ≡ ok details)
    unfolding score_documents
    score_documents-returns given [] h = ([], refl)
    score_documents-returns given (x ∷ xs) h =
        let (one, e) = score_one-returns given x h in
        let (others, f) = score_documents-returns given xs h in (one ∷ others, rw (e, f) refl)

    module _ (decimal : ℕ → String) (bidder_id : String) (submission_id : Option String)
        (documents : List DocumentInput) (given : Sources) where
      scores_of :
          (details : List (DocumentScoreDetail F))
          → score_documents strip upper policy given documents ≡ ok details
          → is_idle strip upper policy decimal bidder_id submission_id documents given ≡ false
          → Scores strip upper policy decimal bidder_id submission_id documents given
      unfolding score
      scores_of details e busy =
          elim (Bool-cases (
            in_score_range (
              d.round_to 2 (
                weighted_score (
                  details_of strip upper policy decimal bidder_id submission_id documents given
                    details))))) [
                      | inl fit ↦ inl (
                        bidder_score strip upper policy decimal bidder_id submission_id (
                            details_of strip upper policy decimal bidder_id submission_id documents
                              given details),
                        rw (busy, e, fit) refl,
                        in_score_range-Within
                            (d.round_to 2 (
                              weighted_score (
                                details_of strip upper policy decimal bidder_id submission_id
                                  documents given details)))
                            fit,
                        details-Within laws strip upper policy given documents _ details e,
                      )
                      | inr out ↦ inr (details, e, out, rw (busy, e, out) refl)
                    ]

      -- When every flag that the findings, the identity findings and the results name is one of the
      -- registry, then for floats that are ordered the scoring of a bidder either returns a result, or
      -- raises a ValidationError because the weighted score of the documents, which have all been
      -- scored, rounds to a float that is out of range. In a result the score of the bidder and that of
      -- every document, an expected one that is missing included, is neither below 0.0 nor above 100.0,
      -- whatever is deducted.
      pub score_lem :
          HasKnownFlags given
          → Scores strip upper policy decimal bidder_id submission_id documents given
      unfolding score
      score_lem h =
          elim (Bool-cases
            (is_idle strip upper policy decimal bidder_id submission_id documents given)) [
              | inl idle ↦ inl (
                empty_result strip upper policy bidder_id submission_id,
                rw idle refl,
                zero-Within laws,
                tt,
              )
              | inr busy ↦
                  let (details, e) = score_documents-returns given documents h in
                  scores_of details e busy
            ]
