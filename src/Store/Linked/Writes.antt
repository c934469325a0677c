-- ===== src/Store/Linked/Writes.antt =====
-- A row whose references are there may be written to its table.
use core_engine_ge_m.Base.{
  ◌≡◌, true, lookup, insert, string_eq, pair_eq, triple_eq, lookup-insert_cases, ◌∙◌, sym, ap, inl,
  inr, String, some,
}
use core_engine_ge_m.Store.{Store, has_all, optional}
use core_engine_ge_m.Store.Records.{BidderRecord, SubmissionRecord, DocumentRecord, EvidenceRecord}
use core_engine_ge_m.Store.Linked.{IsLinked, Refers-grow, Refers-put, one}

module _ (s : Store) (l : IsLinked s) where
  pub put_bidder :
      (r : BidderRecord) → IsLinked (record s { bidders = insert r.bidder_id r s.bidders })
  put_bidder r = record {
    submission_bidder =
        Refers-grow (λ x. one x.bidder_id) s.submissions s.bidders r.bidder_id r
          l.submission_bidder;
    document_bidder =
        Refers-grow (λ x. one x.bidder_id) s.documents s.bidders r.bidder_id r l.document_bidder;
    document_submission = l.document_submission;
    evidence_bidder =
        Refers-grow (λ x. one x.bidder_id) s.evidence s.bidders r.bidder_id r l.evidence_bidder;
    evidence_document = l.evidence_document;
    verification_bidder =
        Refers-grow (λ x. one x.bidder_id) s.verifications s.bidders r.bidder_id r
          l.verification_bidder;
    verification_evidence = l.verification_evidence;
    verification_document = l.verification_document;
    result_bidder =
        Refers-grow (λ x. one x.bidder_id) s.compliance_results s.bidders r.bidder_id r
          l.result_bidder;
    finding_bidder =
        Refers-grow (λ x. one x.bidder_id) s.findings s.bidders r.bidder_id r l.finding_bidder;
    explanation_bidder =
        Refers-grow (λ x. one x.bidder_id) s.explanations s.bidders r.bidder_id r
          l.explanation_bidder;
    explanation_findings = l.explanation_findings;
    state_bidder =
        Refers-grow (λ x. one x.bidder_id) s.flag_states s.bidders r.bidder_id r l.state_bidder;
    snapshot_bidder =
        Refers-grow (λ x. one x.bidder_id) s.flag_snapshots s.bidders r.bidder_id r
          l.snapshot_bidder;
    submission_named = l.submission_named;
  }

  pub put_submission :
      (r : SubmissionRecord)
      → has_all (one r.bidder_id) s.bidders ≡ true
      → IsLinked (record s { submissions = insert r.submission_id r s.submissions })
  put_submission r b = record {
    submission_bidder =
        Refers-put (λ x. one x.bidder_id) s.submissions s.bidders r.submission_id r
          l.submission_bidder b;
    document_bidder = l.document_bidder;
    document_submission =
        Refers-grow (λ x. optional x.submission_id) s.documents s.submissions r.submission_id r
          l.document_submission;
    evidence_bidder = l.evidence_bidder;
    evidence_document = l.evidence_document;
    verification_bidder = l.verification_bidder;
    verification_evidence = l.verification_evidence;
    verification_document = l.verification_document;
    result_bidder = l.result_bidder;
    finding_bidder = l.finding_bidder;
    explanation_bidder = l.explanation_bidder;
    explanation_findings = l.explanation_findings;
    state_bidder = l.state_bidder;
    snapshot_bidder = l.snapshot_bidder;
    submission_named = named r;
  }
    where
      named :
          (r : SubmissionRecord) (k : String) (x : SubmissionRecord)
          → lookup k (insert r.submission_id r s.submissions) ≡ some x
          → x.submission_id ≡ k
      named r k x found = elim (lookup-insert_cases r.submission_id k r x s.submissions found) [
        | inl (same, e) ↦ sym (ap (λ y. y.submission_id) e) ∙ same
        | inr (other, old) ↦ l.submission_named k x old
      ]

  pub put_document :
      (r : DocumentRecord)
      → has_all (one r.bidder_id) s.bidders ≡ true
      → has_all (optional r.submission_id) s.submissions ≡ true
      → IsLinked (record s { documents = insert r.document_id r s.documents })
  put_document r b m = record {
    submission_bidder = l.submission_bidder;
    document_bidder =
        Refers-put (λ x. one x.bidder_id) s.documents s.bidders r.document_id r l.document_bidder b;
    document_submission =
        Refers-put (λ x. optional x.submission_id) s.documents s.submissions r.document_id r
          l.document_submission m;
    evidence_bidder = l.evidence_bidder;
    evidence_document =
        Refers-grow (λ x. one x.document_id) s.evidence s.documents r.document_id r
          l.evidence_document;
    verification_bidder = l.verification_bidder;
    verification_evidence = l.verification_evidence;
    verification_document =
        Refers-grow (λ x. optional x.document_id) s.verifications s.documents r.document_id r
          l.verification_document;
    result_bidder = l.result_bidder;
    finding_bidder = l.finding_bidder;
    explanation_bidder = l.explanation_bidder;
    explanation_findings = l.explanation_findings;
    state_bidder = l.state_bidder;
    snapshot_bidder = l.snapshot_bidder;
    submission_named = l.submission_named;
  }

  pub put_evidence :
      (r : EvidenceRecord)
      → has_all (one r.bidder_id) s.bidders ≡ true
      → has_all (one r.document_id) s.documents ≡ true
      → IsLinked (record s { evidence = insert r.evidence_id r s.evidence })
  put_evidence r b d = record {
    submission_bidder = l.submission_bidder;
    document_bidder = l.document_bidder;
    document_submission = l.document_submission;
    evidence_bidder =
        Refers-put (λ x. one x.bidder_id) s.evidence s.bidders r.evidence_id r l.evidence_bidder b;
    evidence_document =
        Refers-put (λ x. one x.document_id) s.evidence s.documents r.evidence_id r
          l.evidence_document d;
    verification_bidder = l.verification_bidder;
    verification_evidence =
        Refers-grow (λ x. optional x.evidence_id) s.verifications s.evidence r.evidence_id r
          l.verification_evidence;
    verification_document = l.verification_document;
    result_bidder = l.result_bidder;
    finding_bidder = l.finding_bidder;
    explanation_bidder = l.explanation_bidder;
    explanation_findings = l.explanation_findings;
    state_bidder = l.state_bidder;
    snapshot_bidder = l.snapshot_bidder;
    submission_named = l.submission_named;
  }
