-- ===== src/Store/Linked/Outcomes.antt =====
-- A row of what was found out about a bidder may be written when its references are there.
use core_engine_ge_m.Base.{◌≡◌, true, insert, string_eq, pair_eq, triple_eq}
use core_engine_ge_m.Store.{Store, has_all, optional}
use core_engine_ge_m.Store.Records.{
  VerificationRecord, ComplianceResultRecord, FindingRecord, ExplanationRecord, FlagStateRecord,
  FlagSnapshotRecord,
}
use core_engine_ge_m.Store.Linked.{IsLinked, Refers-grow, Refers-put, one}

module _ (s : Store) (l : IsLinked s) where
  pub put_verification :
      (r : VerificationRecord)
      → has_all (one r.bidder_id) s.bidders ≡ true
      → has_all (optional r.evidence_id) s.evidence ≡ true
      → has_all (optional r.document_id) s.documents ≡ true
      → IsLinked (record s { verifications = insert r.verification_id r s.verifications })
  put_verification r b e d = record {
    submission_bidder = l.submission_bidder;
    document_bidder = l.document_bidder;
    document_submission = l.document_submission;
    evidence_bidder = l.evidence_bidder;
    evidence_document = l.evidence_document;
    verification_bidder =
        Refers-put (λ x. one x.bidder_id) s.verifications s.bidders r.verification_id r
          l.verification_bidder b;
    verification_evidence =
        Refers-put (λ x. optional x.evidence_id) s.verifications s.evidence r.verification_id r
          l.verification_evidence e;
    verification_document =
        Refers-put (λ x. optional x.document_id) s.verifications s.documents r.verification_id r
          l.verification_document d;
    result_bidder = l.result_bidder;
    finding_bidder = l.finding_bidder;
    explanation_bidder = l.explanation_bidder;
    explanation_findings = l.explanation_findings;
    state_bidder = l.state_bidder;
    snapshot_bidder = l.snapshot_bidder;
    submission_named = l.submission_named;
  }

  pub put_result :
      (r : ComplianceResultRecord)
      → has_all (one r.bidder_id) s.bidders ≡ true
      → IsLinked (record s {
        compliance_results =
            insert (r.submission_id, r.bidder_id, r.requirement_id) r s.compliance_results;
      })
  put_result r b = record {
    submission_bidder = l.submission_bidder;
    document_bidder = l.document_bidder;
    document_submission = l.document_submission;
    evidence_bidder = l.evidence_bidder;
    evidence_document = l.evidence_document;
    verification_bidder = l.verification_bidder;
    verification_evidence = l.verification_evidence;
    verification_document = l.verification_document;
    result_bidder =
        Refers-put (λ x. one x.bidder_id) s.compliance_results s.bidders
          (r.submission_id, r.bidder_id, r.requirement_id) r l.result_bidder b;
    finding_bidder = l.finding_bidder;
    explanation_bidder = l.explanation_bidder;
    explanation_findings = l.explanation_findings;
    state_bidder = l.state_bidder;
    snapshot_bidder = l.snapshot_bidder;
    submission_named = l.submission_named;
  }

  pub put_finding :
      (r : FindingRecord)
      → has_all (one r.bidder_id) s.bidders ≡ true
      → IsLinked (record s { findings = insert r.finding_id r s.findings })
  put_finding r b = record {
    submission_bidder = l.submission_bidder;
    document_bidder = l.document_bidder;
    document_submission = l.document_submission;
    evidence_bidder = l.evidence_bidder;
    evidence_document = l.evidence_document;
    verification_bidder = l.verification_bidder;
    verification_evidence = l.verification_evidence;
    verification_document = l.verification_document;
    result_bidder = l.result_bidder;
    finding_bidder =
        Refers-put (λ x. one x.bidder_id) s.findings s.bidders r.finding_id r l.finding_bidder b;
    explanation_bidder = l.explanation_bidder;
    explanation_findings =
        Refers-grow (λ x. x.finding_refs) s.explanations s.findings r.finding_id r
          l.explanation_findings;
    state_bidder = l.state_bidder;
    snapshot_bidder = l.snapshot_bidder;
    submission_named = l.submission_named;
  }

  pub put_explanation :
      (r : ExplanationRecord)
      → has_all (one r.bidder_id) s.bidders ≡ true
      → has_all (r.finding_refs) s.findings ≡ true
      → IsLinked (record s { explanations = insert r.explanation_id r s.explanations })
  put_explanation r b g = record {
    submission_bidder = l.submission_bidder;
    document_bidder = l.document_bidder;
    document_submission = l.document_submission;
    evidence_bidder = l.evidence_bidder;
    evidence_document = l.evidence_document;
    verification_bidder = l.verification_bidder;
    verification_evidence = l.verification_evidence;
    verification_document = l.verification_document;
    result_bidder = l.result_bidder;
    finding_bidder = l.finding_bidder;
    explanation_bidder =
        Refers-put (λ x. one x.bidder_id) s.explanations s.bidders r.explanation_id r
          l.explanation_bidder b;
    explanation_findings =
        Refers-put (λ x. x.finding_refs) s.explanations s.findings r.explanation_id r
          l.explanation_findings g;
    state_bidder = l.state_bidder;
    snapshot_bidder = l.snapshot_bidder;
    submission_named = l.submission_named;
  }

  pub put_state :
      (r : FlagStateRecord)
      → has_all (one r.bidder_id) s.bidders ≡ true
      → IsLinked (record s { flag_states = insert (r.bidder_id, r.flag_id) r s.flag_states })
  put_state r b = record {
    submission_bidder = l.submission_bidder;
    document_bidder = l.document_bidder;
    document_submission = l.document_submission;
    evidence_bidder = l.evidence_bidder;
    evidence_document = l.evidence_document;
    verification_bidder = l.verification_bidder;
    verification_evidence = l.verification_evidence;
    verification_document = l.verification_document;
    result_bidder = l.result_bidder;
    finding_bidder = l.finding_bidder;
    explanation_bidder = l.explanation_bidder;
    explanation_findings = l.explanation_findings;
    state_bidder =
        Refers-put (λ x. one x.bidder_id) s.flag_states s.bidders (r.bidder_id, r.flag_id) r
          l.state_bidder b;
    snapshot_bidder = l.snapshot_bidder;
    submission_named = l.submission_named;
  }

  pub put_snapshot :
      (r : FlagSnapshotRecord)
      → has_all (one r.bidder_id) s.bidders ≡ true
      → IsLinked (record s { flag_snapshots = insert r.snapshot_id r s.flag_snapshots })
  put_snapshot r b = record {
    submission_bidder = l.submission_bidder;
    document_bidder = l.document_bidder;
    document_submission = l.document_submission;
    evidence_bidder = l.evidence_bidder;
    evidence_document = l.evidence_document;
    verification_bidder = l.verification_bidder;
    verification_evidence = l.verification_evidence;
    verification_document = l.verification_document;
    result_bidder = l.result_bidder;
    finding_bidder = l.finding_bidder;
    explanation_bidder = l.explanation_bidder;
    explanation_findings = l.explanation_findings;
    state_bidder = l.state_bidder;
    snapshot_bidder =
        Refers-put (λ x. one x.bidder_id) s.flag_snapshots s.bidders r.snapshot_id r
          l.snapshot_bidder b;
    submission_named = l.submission_named;
  }
