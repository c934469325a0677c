-- ===== src/Scoring/Bounds.antt =====
-- The score of a document lies within its range.
use core_engine_ge_m.Base.{
  ◌≡◌, subst, String, arith, true, false, List, [], ◌∷◌, map, Option, ok, ◌>>=◌, >>=-eq-ok, All,
  All-append, Bool-cases, inl, inr,
}
use core_engine_ge_m.Rules.Model.{Evidence, Verification, ComplianceResult}
use core_engine_ge_m.Scoring.Numbers.{in_score_range, Floats, IsOrdered, clamp, clamp_low}
use core_engine_ge_m.Scoring.Model.{DocumentInput, DocumentScoreDetail, QualityState}
use core_engine_ge_m.Scoring.Policy.{DocumentScoringPolicy}
use core_engine_ge_m.Scoring.Document.{
  Tally, full, weigh, weigh_flags, settle, checked_detail, score_typed, score_document,
  score_missing,
}
use core_engine_ge_m.Scoring.Lights.{ok-injective, checked-eq-ok, checked_ok}
use core_engine_ge_m.Scoring.{Sources, score_one, score_documents, absent_types, all_details}

module _ {F : Type 0} ⦃d : Floats F⦄ where
  -- Neither below 0.0 nor above 100.0, as `DocumentScore` demands.
  abbrev pub Within : F → Type 0
  Within y = (d.lt y (d.float "0.0") ≡ false) × (d.lt (d.float "100.0") y ≡ false)

  Within-in_score_range : (y : F) → Within y → in_score_range y ≡ true
  Within-in_score_range y h = ground (arith, h.0, h.1)

  pub in_score_range-Within : (y : F) → in_score_range y ≡ true → Within y
  in_score_range-Within y h = ground arith

  module _ (laws : IsOrdered F) where
    lt_irrefl : (x : F) → d.lt x x ≡ false
    lt_irrefl x = elim (Bool-cases (d.lt x x)) [ inl e ↦ laws.lt_asym x x e | inr e ↦ e ]

    pub zero-Within : Within (d.float "0.0")
    zero-Within = (lt_irrefl (d.float "0.0"), laws.lt_asym _ _ laws.zero-lt)

    clamp_low-Within : (m : F) → d.lt (d.float "100.0") m ≡ false → Within (clamp_low m)
    clamp_low-Within m h = elim (Bool-cases (d.lt (d.float "0.0") m)) [
      | inl e ↦ rw e (laws.lt_asym (d.float "0.0") m e, h)
      | inr e ↦ rw e zero-Within
    ]

    clamp-Within : (s : F) → Within (clamp s)
    unfolding clamp
    clamp-Within s = elim (Bool-cases (d.lt s (d.float "100.0"))) [
      | inl e ↦ rw e (clamp_low-Within s (laws.lt_asym s (d.float "100.0") e))
      | inr e ↦ rw e (clamp_low-Within (d.float "100.0") (lt_irrefl (d.float "100.0")))
    ]

    rounded-Within : (s : F) → Within s → Within (d.round_to 2 s)
    rounded-Within s (low, high) = (
      subst (λ z. d.lt (d.round_to 2 s) z ≡ false) laws.round-zero
          (laws.round_mono 2 (d.float "0.0") s low),
      subst (λ z. d.lt z (d.round_to 2 s) ≡ false) laws.round-hundred
          (laws.round_mono 2 s (d.float "100.0") high),
    )

    module _ (strip upper : String → String) (policy : DocumentScoringPolicy F) where
      settled-Within :
          (document : DocumentInput) (canonical : String) (evidence : List Evidence)
          (results : List ComplianceResult) (records : List Verification) (flags : List String)
          (quality : Option QualityState) (t : Tally F)
          → Within
              (settle strip upper policy document canonical evidence results records flags quality
                t).score
      settled-Within document canonical evidence results records flags quality t =
          rounded-Within _ (clamp-Within _)

      pub settled-checked :
          (document : DocumentInput) (canonical : String) (evidence : List Evidence)
          (results : List ComplianceResult) (records : List Verification) (flags : List String)
          (quality : Option QualityState) (t : Tally F)
          → checked_detail (
              settle strip upper policy document canonical evidence results records flags quality t)
            ≡ ok (
                settle strip upper policy document canonical evidence results records flags quality
                  t)
      settled-checked document canonical evidence results records flags quality t =
          let item =
            settle strip upper policy document canonical evidence results records flags quality t in
          checked_ok (in_score_range item.score) item (
            Within-in_score_range item.score
              (settled-Within document canonical evidence results records flags quality t))

      typed-Within :
          (document : DocumentInput) (canonical : String) (evidence : List Evidence)
          (results : List ComplianceResult) (records : List Verification) (flags : List String)
          (quality : Option QualityState) (item : DocumentScoreDetail F)
          → score_typed strip upper policy document canonical evidence results records flags quality
            ≡ ok item
          → Within item.score
      unfolding score_typed
      typed-Within document canonical evidence results records flags quality item h =
          let (t, g, k) =
            >>=-eq-ok
              (weigh_flags flags (weigh strip upper policy canonical evidence results records full))
              (λ t. checked_detail (
                settle strip upper policy document canonical evidence results records flags quality
                  t))
              item h in
          subst (λ x. Within x.score) (checked-eq-ok _ _ item k).1
            (settled-Within document canonical evidence results records flags quality t)

      documents-Within :
          (given : Sources) (documents : List DocumentInput)
          (details : List (DocumentScoreDetail F))
          → score_documents strip upper policy given documents ≡ ok details
          → All (λ x. Within x.score) details
      unfolding score_documents score_document
      documents-Within given [] details h =
          subst (All (λ x. Within x.score)) (ok-injective [] details h) tt
      documents-Within given (x ∷ xs) details h =
          let (one, e, f) =
            >>=-eq-ok (score_one strip upper policy given x)
              (λ one. (score_documents strip upper policy given xs >>= λ others. ok (one ∷ others)))
              details h in
          let (others, g, k) =
            >>=-eq-ok (score_documents strip upper policy given xs) (λ others. ok (one ∷ others))
              details f in
          subst (All (λ y. Within y.score)) (ok-injective (one ∷ others) details k)
            (typed-Within _ _ _ _ _ _ _ one e, documents-Within given xs others g)

      missing-Within :
          (types : List String)
          → All (λ x. Within x.score) (map (score_missing strip upper policy) types)
      unfolding score_missing
      missing-Within [] = tt
      missing-Within (t ∷ ts) = (zero-Within, missing-Within ts)

      pub details-Within :
          (given : Sources) (documents : List DocumentInput) (expected : List String)
          (details : List (DocumentScoreDetail F))
          → score_documents strip upper policy given documents ≡ ok details
          → All (λ x. Within x.score) (all_details strip upper policy expected documents details)
      details-Within given documents expected details h =
          All-append (λ x. Within x.score) details
            (map (score_missing strip upper policy)
              (absent_types strip upper policy expected documents))
            (documents-Within given documents details h)
            (missing-Within (absent_types strip upper policy expected documents))
