-- ===== src/Store/Linked.antt =====
-- The references between the tables: what a row names is there, whatever repository is called.
pub mod Writes
pub mod Outcomes
use core_engine_ge_m.Base.{
  ◌≡◌, refl, String, Bool, true, false, not, ◌&&◌, Option, none, some, List, [], ◌∷◌, Map, lookup,
  insert, lookup-insert, lookup-insert_cases, Equality, ◌==◌, string_eq, pair_eq, triple_eq,
  ==-self, Bool-cases, inl, inr, arith, if◌then◌else◌, ok, raised, ap, subst,
}
use core_engine_ge_m.Store.{Store, empty_store, is_some, has, has_all, optional}
use core_engine_ge_m.Store.Records.{
  BidderRecord, SubmissionRecord, DocumentRecord, EvidenceRecord, VerificationRecord,
  ComplianceResultRecord, FindingRecord, ExplanationRecord, FlagStateRecord, FlagSnapshotRecord,
}
use core_engine_ge_m.Store.Entities.{
  add_bidder, add_submission, save_submission, add_document, add_evidence, save_verification,
  save_compliance_result, save_finding, save_explanation,
}
use core_engine_ge_m.Store.Events.{save_state, save_snapshot}

pub has_grow {κ} :
    {V : Type κ} (j k : String) (v : V) (t : Map String V)
    → has j t ≡ true
    → has j (insert k v t) ≡ true
has_grow j k v t h = elim (Bool-cases (k == j)) [
  | inl same ↦ rw (lookup-insert k j v t, same) refl
  | inr other ↦ rw (lookup-insert k j v t, other) h
]

has_all_grow {κ} :
    {V : Type κ} (ks : List String) (k : String) (v : V) (t : Map String V)
    → has_all ks t ≡ true
    → has_all ks (insert k v t) ≡ true
has_all_grow [] k v t h = refl
has_all_grow (j ∷ js) k v t h = ground (arith, has_grow j k v t, has_all_grow js k v t)

module _ {ℓ κ ι} {K : Type ℓ} {W : Type ι} {V : Type κ} ⦃e : Equality K⦄ where
  -- Every row of the first table names only rows of the second.
  abbrev pub Refers : (W → List String) → Map K W → Map String V → Type (ℓ ⊔ ι)
  Refers refs s t = (k : K) (r : W) → lookup k s ≡ some r → has_all (refs r) t ≡ true

  pub Refers-grow :
      (refs : W → List String) (s : Map K W) (t : Map String V) (k : String) (v : V)
      → Refers refs s t
      → Refers refs s (insert k v t)
  Refers-grow refs s t k v h j r found = has_all_grow (refs r) k v t (h j r found)

  pub Refers-put :
      (refs : W → List String) (s : Map K W) (t : Map String V) (k : K) (w : W)
      → Refers refs s t
      → has_all (refs w) t ≡ true
      → Refers refs (insert k w s) t
  Refers-put refs s t k w h new j r found = elim (lookup-insert_cases k j w r s found) [
    | inl (same, e') ↦ subst (λ x. has_all (refs x) t ≡ true) e' new
    | inr (other, old) ↦ h j r old
  ]

abbrev pub one : String → List String
one a = a ∷ []

pub record IsLinked (s : Store) : Type 0 where
  pub submission_bidder : Refers (λ r. one r.bidder_id) s.submissions s.bidders
  pub document_bidder : Refers (λ r. one r.bidder_id) s.documents s.bidders
  pub document_submission : Refers (λ r. optional r.submission_id) s.documents s.submissions
  pub evidence_bidder : Refers (λ r. one r.bidder_id) s.evidence s.bidders
  pub evidence_document : Refers (λ r. one r.document_id) s.evidence s.documents
  pub verification_bidder : Refers (λ r. one r.bidder_id) s.verifications s.bidders
  pub verification_evidence : Refers (λ r. optional r.evidence_id) s.verifications s.evidence
  pub verification_document : Refers (λ r. optional r.document_id) s.verifications s.documents
  pub result_bidder : Refers (λ r. one r.bidder_id) s.compliance_results s.bidders
  pub finding_bidder : Refers (λ r. one r.bidder_id) s.findings s.bidders
  pub explanation_bidder : Refers (λ r. one r.bidder_id) s.explanations s.bidders
  pub explanation_findings : Refers (λ r. r.finding_refs) s.explanations s.findings
  pub state_bidder : Refers (λ r. one r.bidder_id) s.flag_states s.bidders
  pub snapshot_bidder : Refers (λ r. one r.bidder_id) s.flag_snapshots s.bidders
  -- A submission stands under its own ID.
  pub submission_named :
      (k : String) (r : SubmissionRecord) → lookup k s.submissions ≡ some r → r.submission_id ≡ k

pub empty-IsLinked : IsLinked empty_store
unfolding lookup
empty-IsLinked = record {
  submission_bidder = λ k r h. ground arith;
  document_bidder = λ k r h. ground arith;
  document_submission = λ k r h. ground arith;
  evidence_bidder = λ k r h. ground arith;
  evidence_document = λ k r h. ground arith;
  verification_bidder = λ k r h. ground arith;
  verification_evidence = λ k r h. ground arith;
  verification_document = λ k r h. ground arith;
  result_bidder = λ k r h. ground arith;
  finding_bidder = λ k r h. ground arith;
  explanation_bidder = λ k r h. ground arith;
  explanation_findings = λ k r h. ground arith;
  state_bidder = λ k r h. ground arith;
  snapshot_bidder = λ k r h. ground arith;
  submission_named = λ k r h. ground arith;
}

pub one-has {κ} :
    {V : Type κ} (k : String) (t : Map String V) → has k t ≡ true → has_all (one k) t ≡ true
one-has k t h = ground arith
