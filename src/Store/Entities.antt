-- ===== src/Store/Entities.antt =====
-- src/infrastructure/persistence/memory.py: the repositories of the entities that a submission
-- leads to, in the order in which they refer to one another.
use core_engine_ge_m.Base.{
  String, Bool, false, not, ◌&&◌, Option, none, some, List, lookup, insert, values, select, ◌==◌,
  string_eq, triple_eq, ok, if◌then◌else◌,
}
use core_engine_ge_m.Store.{Store, Call, has, has_all, optional, missing, duplicate}
use core_engine_ge_m.Store.Records.{
  BidderRecord, SubmissionRecord, DocumentRecord, EvidenceRecord, VerificationRecord,
  ComplianceResultRecord, FindingRecord, ExplanationRecord,
}

-- `InMemoryBidderRepository`
unfoldable pub add_bidder : BidderRecord → Store → Call BidderRecord
add_bidder r s =
    if has r.bidder_id s.bidders
    then duplicate s
    else (record s { bidders = insert r.bidder_id r s.bidders }, ok r)

unfoldable pub get_bidder : String → Store → Option BidderRecord
get_bidder id s = lookup id s.bidders

-- `InMemorySubmissionRepository`
unfoldable pub add_submission : SubmissionRecord → Store → Call SubmissionRecord
add_submission r s =
    if not (has r.bidder_id s.bidders)
    then missing s
    else if has r.submission_id s.submissions
    then duplicate s
    else (record s { submissions = insert r.submission_id r s.submissions }, ok r)

unfoldable pub get_submission : String → Store → Option SubmissionRecord
get_submission id s = lookup id s.submissions

-- The bidder is only looked for when the submission is new.
unfoldable pub save_submission : SubmissionRecord → Store → Call SubmissionRecord
save_submission r s =
    if not (has r.submission_id s.submissions) && not (has r.bidder_id s.bidders)
    then missing s
    else (record s { submissions = insert r.submission_id r s.submissions }, ok r)

unfoldable pub submissions_by_bidder : String → Store → List SubmissionRecord
submissions_by_bidder bidder_id s = select (λ r. r.bidder_id == bidder_id) (values s.submissions)

-- `InMemoryDocumentRepository`
unfoldable pub add_document : DocumentRecord → Store → Call DocumentRecord
add_document r s =
    if not (has r.bidder_id s.bidders)
    then missing s
    else if has r.document_id s.documents
    then duplicate s
    else if not (has_all (optional r.submission_id) s.submissions)
    then missing s
    else (record s { documents = insert r.document_id r s.documents }, ok r)

unfoldable pub get_document : String → Store → Option DocumentRecord
get_document id s = lookup id s.documents

-- `r.submission_id == submission_id`, where the row may have none
abbrev pub is_at : Option String → String → Bool
is_at none id = false
is_at (some key) id = key == id

unfoldable pub documents_by_submission : String → Store → List DocumentRecord
documents_by_submission submission_id s =
    select (λ r. is_at r.submission_id submission_id) (values s.documents)

unfoldable pub documents_by_bidder : String → Store → List DocumentRecord
documents_by_bidder bidder_id s = select (λ r. r.bidder_id == bidder_id) (values s.documents)

-- `InMemoryEvidenceRepository`
unfoldable pub add_evidence : EvidenceRecord → Store → Call EvidenceRecord
add_evidence r s =
    if not (has r.bidder_id s.bidders)
    then missing s
    else if not (has r.document_id s.documents)
    then missing s
    else if has r.evidence_id s.evidence
    then duplicate s
    else (record s { evidence = insert r.evidence_id r s.evidence }, ok r)

unfoldable pub get_evidence : String → Store → Option EvidenceRecord
get_evidence id s = lookup id s.evidence

unfoldable pub evidence_by_bidder : String → Store → List EvidenceRecord
evidence_by_bidder bidder_id s = select (λ r. r.bidder_id == bidder_id) (values s.evidence)

unfoldable pub evidence_by_document : String → Store → List EvidenceRecord
evidence_by_document document_id s = select (λ r. r.document_id == document_id) (values s.evidence)

-- `InMemoryVerificationRepository`
unfoldable pub save_verification : VerificationRecord → Store → Call VerificationRecord
save_verification r s =
    if not (has r.bidder_id s.bidders)
    then missing s
    else if not (has_all (optional r.evidence_id) s.evidence)
    then missing s
    else if not (has_all (optional r.document_id) s.documents)
    then missing s
    else (record s { verifications = insert r.verification_id r s.verifications }, ok r)

unfoldable pub get_verification : String → Store → Option VerificationRecord
get_verification id s = lookup id s.verifications

unfoldable pub verifications_by_bidder : String → Store → List VerificationRecord
verifications_by_bidder bidder_id s =
    select (λ r. r.bidder_id == bidder_id) (values s.verifications)

-- `InMemoryComplianceResultRepository`
unfoldable pub save_compliance_result : ComplianceResultRecord → Store → Call ComplianceResultRecord
save_compliance_result r s = if not (has r.bidder_id s.bidders) then missing s else (
  record s {
    compliance_results =
        insert (r.submission_id, r.bidder_id, r.requirement_id) r s.compliance_results;
  },
  ok r,
)

unfoldable pub get_compliance_result :
    String → String → String → Store → Option ComplianceResultRecord
get_compliance_result submission_id bidder_id requirement_id s =
    lookup (submission_id, bidder_id, requirement_id) s.compliance_results

-- By the bidder of the key.
unfoldable pub compliance_results_by_bidder : String → Store → List ComplianceResultRecord
compliance_results_by_bidder bidder_id s =
    values (select (λ e. e.0.1 == bidder_id) s.compliance_results)

-- `InMemoryFindingRepository`
unfoldable pub save_finding : FindingRecord → Store → Call FindingRecord
save_finding r s =
    if not (has r.bidder_id s.bidders)
    then missing s
    else (record s { findings = insert r.finding_id r s.findings }, ok r)

unfoldable pub get_finding : String → Store → Option FindingRecord
get_finding id s = lookup id s.findings

unfoldable pub findings_by_bidder : String → Store → List FindingRecord
findings_by_bidder bidder_id s = select (λ r. r.bidder_id == bidder_id) (values s.findings)

unfoldable pub findings_by_flag : String → String → Store → List FindingRecord
findings_by_flag bidder_id flag_id s =
    select (λ r. r.bidder_id == bidder_id && is_at r.flag_id flag_id) (values s.findings)

-- `InMemoryExplanationRepository`
unfoldable pub save_explanation : ExplanationRecord → Store → Call ExplanationRecord
save_explanation r s =
    if not (has r.bidder_id s.bidders)
    then missing s
    else if not (has_all r.finding_refs s.findings)
    then missing s
    else (record s { explanations = insert r.explanation_id r s.explanations }, ok r)

unfoldable pub get_explanation : String → Store → Option ExplanationRecord
get_explanation id s = lookup id s.explanations

unfoldable pub explanations_by_flag : String → String → Store → List ExplanationRecord
explanations_by_flag bidder_id flag_id s =
    select (λ r. r.bidder_id == bidder_id && r.flag_id == flag_id) (values s.explanations)

unfoldable pub explanations_by_bidder : String → Store → List ExplanationRecord
explanations_by_bidder bidder_id s = select (λ r. r.bidder_id == bidder_id) (values s.explanations)
