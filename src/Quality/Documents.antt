-- ===== src/Quality/Documents.antt =====
-- src/ai_verification/evidence_quality/document_meta_evaluator.py: `DocumentMetaQualityEvaluator`, on
-- `DocumentMeta` of src/ai_verification/cross_bidder/document_artifact_store.py; and gating.py. What
-- the store of artifacts answers is a parameter, and so is what `getattr` finds on a model of pydantic
-- beyond its fields.
use core_engine_ge_m.Base.{
  ◌≡◌, ◌≢◌, ◌↔◌, refl, String, Bool, true, false, not, ◌&&◌, ◌==◌, string_eq, Option, none, some,
  List, [], ◌∷◌, Map, lookup, contains, select, Outcome, ok, raised, if◌then◌else◌, arith,
}
use core_engine_ge_m.Scoring.Numbers.{Floats}
use core_engine_ge_m.Scoring.Model.{QualityState, good, degraded, unknown}
use core_engine_ge_m.Quality.Model.{DocumentQualitySignals, EvidenceQualityAssessment, QualityError}
use core_engine_ge_m.Quality.{evaluate_signals}
use core_engine_ge_m.Quality.States.{is_flawless, evaluate_signals_lem}

-- A date is kept as it is spelled.
pub record DocumentMeta {ℓ} (F : Type ℓ) : Type ℓ where
  pub document_type : String
  pub evidence_id : Option String
  pub ocr_confidence : F
  pub document_type_confidence : F
  pub issuer : Option String
  pub authorization_number : Option String
  pub issue_date : Option String
  pub valid_until : Option String
  pub bidder_name : Option String
  pub territory : Option String

abbrev pub default_required_metadata_fields : List String
default_required_metadata_fields =
    "issuer" ∷ "authorization_number" ∷ "issue_date" ∷ "territory" ∷ []

abbrev pub is_given {ℓ} : {A : Type ℓ} → Option A → Bool
is_given none = false
is_given (some a) = true

-- `get_raw_text` of the store, where there is one, may raise.
abbrev pub TextStore : Type 0 → Type 0
TextStore E = Option (String → Outcome E (Option String))

abbrev pub has_text : {E : Type 0} → Outcome E (Option String) → Bool
has_text (raised e) = false
has_text (ok none) = false
has_text (ok (some raw)) = not (raw == "")

abbrev pub raw_text_present : {E : Type 0} → TextStore E → String → Bool
raw_text_present none document_id = false
raw_text_present (some get_raw_text) document_id = has_text (get_raw_text document_id)

state_between :
    (q : QualityState) (r : Bool)
    → (q ≡ unknown) ↔ (r ≡ false)
    → q ≢ good
    → q ≡ (if r then degraded else unknown)
state_between q r u g = ground arith

module _ {F : Type 0} ⦃d : Floats F⦄ where
  -- Which fields of the model are not `None`.
  abbrev pub attributes : DocumentMeta F → Map String Bool
  attributes meta =
      ("document_type", true)
      ∷ ("evidence_id", is_given meta.evidence_id)
      ∷ ("ocr_confidence", true)
      ∷ ("document_type_confidence", true)
      ∷ ("issuer", is_given meta.issuer)
      ∷ ("authorization_number", is_given meta.authorization_number)
      ∷ ("issue_date", is_given meta.issue_date)
      ∷ ("valid_until", is_given meta.valid_until)
      ∷ ("bidder_name", is_given meta.bidder_name)
      ∷ ("territory", is_given meta.territory)
      ∷ []

  abbrev pub ocr_confidence_of : Option (DocumentMeta F) → Option F
  ocr_confidence_of none = none
  ocr_confidence_of (some meta) = some meta.ocr_confidence

  abbrev pub type_confidence_of : Option (DocumentMeta F) → Option F
  type_confidence_of none = none
  type_confidence_of (some meta) = some meta.document_type_confidence

  -- A finding of the semantic layer is only let through above a minimum of quality.
  unfoldable pub should_allow_semantic_finding : EvidenceQualityAssessment F → Bool
  should_allow_semantic_finding a = elim a.state [
    | good ↦ true
    | degraded ↦ not (d.lt a.quality_score (d.float "0.50"))
    | unknown ↦ false
  ]

  -- A finding of the layers below is always let through.
  abbrev pub should_allow_exact_reuse : EvidenceQualityAssessment F → Bool
  should_allow_exact_reuse a = true

  allowed_between :
      (a : EvidenceQualityAssessment F) (r : Bool)
      → a.state ≡ (if r then degraded else unknown)
      → should_allow_semantic_finding a ≡ (r && not (d.lt a.quality_score (d.float "0.50")))
  unfolding should_allow_semantic_finding
  allowed_between a true h = rw h refl
  allowed_between a false h = rw h refl

  unconfident_flawed :
      (s : DocumentQualitySignals F) → s.fields.field_confidence ≡ none → is_flawless s ≡ false
  unconfident_flawed s h = rw h (ground arith)

  module _ (inherited : String → Bool) where
    -- `getattr(meta, name, None) is not None`
    abbrev pub has_attribute : DocumentMeta F → String → Bool
    has_attribute meta name = elim (lookup name (attributes meta)) [
      | none ↦ inherited name
      | some present ↦ present
    ]

    abbrev pub present_fields : Option (DocumentMeta F) → List String → List String
    present_fields none required = []
    present_fields (some meta) required = select (has_attribute meta) required

    abbrev pub missing_fields : Option (DocumentMeta F) → List String → List String
    missing_fields meta required =
        select (λ name. not (contains name (present_fields meta required))) required

    module _ {E : Type 0} where
      unfoldable pub build_signals_for_document :
          String → Option (DocumentMeta F) → TextStore E → List String → DocumentQualitySignals F
      build_signals_for_document document_id meta store required = record {
        ocr = record {
          ocr_confidence = ocr_confidence_of meta;
          ocr_text_present = raw_text_present store document_id;
        };
        fields = record {
          field_confidence = none;
          required_fields_missing = missing_fields meta required;
        };
        metadata = record {
          document_type_confidence = type_confidence_of meta;
          metadata_present = is_given meta;
        };
        completeness = record {
          required_fields = required;
          required_fields_present = present_fields meta required;
          required_fields_missing = missing_fields meta required;
          raw_text_present = raw_text_present store document_id;
          metadata_present = is_given meta;
        };
      }

      unfoldable pub evaluate_for_document :
          TextStore E
          → List String
          → String
          → Option (DocumentMeta F)
          → Outcome QualityError (EvidenceQualityAssessment F)
      evaluate_for_document store required document_id meta =
          evaluate_signals (build_signals_for_document document_id meta store required)

      -- The evaluator that the engine uses by default never finds the evidence of a document GOOD: where
      -- the text and the metadata of the document are there its state is DEGRADED, otherwise UNKNOWN.
      -- A semantic finding is then allowed exactly when both are there and the score is not below 0.50.
      pub evaluate_for_document_lem :
          (store : TextStore E) (required : List String) (document_id : String)
          (meta : Option (DocumentMeta F)) (a : EvidenceQualityAssessment F)
          → evaluate_for_document store required document_id meta ≡ ok a
          → (a.state
              ≡ (if raw_text_present store document_id && is_given meta then degraded else unknown))
            × (should_allow_semantic_finding a ≡ (
                (raw_text_present store document_id && is_given meta)
                && not (d.lt a.quality_score (d.float "0.50"))))
      unfolding evaluate_for_document build_signals_for_document should_allow_semantic_finding
      evaluate_for_document_lem store required document_id meta a h =
          let s = build_signals_for_document document_id meta store required in
          let (u, f, g) = evaluate_signals_lem s a h in
          let e =
            state_between a.state (raw_text_present store document_id && is_given meta) u
              (λ k. ground (arith, unconfident_flawed s refl)) in
          (e, allowed_between a (raw_text_present store document_id && is_given meta) e)
