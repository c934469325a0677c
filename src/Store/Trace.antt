-- ===== src/Store/Trace.antt =====
-- Every sequence of calls on the repositories.
pub mod Checks
pub mod Kept
use core_engine_ge_m.Base.{
  ℕ, ◌+◌, ◌≡◌, refl, String, Bool, true, false, not, ◌&&◌, Option, none, some, List, [], ◌∷◌, ◌++◌,
  Map, lookup, insert, any, ◌==◌, Equality, string_eq, pair_eq, triple_eq, Bool-cases, Option-cases,
  inl, inr, arith, if◌then◌else◌, ok, raised, sym, ap, ◌∙◌, subst,
}
use core_engine_ge_m.Jobs.Durable.{JobRecord, index_key}
use core_engine_ge_m.Store.{Store, is_some, has, has_all, optional, missing, duplicate}
use core_engine_ge_m.Store.Records.{
  BidderRecord, SubmissionRecord, DocumentRecord, EvidenceRecord, VerificationRecord,
  ComplianceResultRecord, FindingRecord, ExplanationRecord, AuditEventRecord, OutboxEventRecord,
  FlagStateRecord, FlagSnapshotRecord,
}
use core_engine_ge_m.Store.Entities.{
  add_bidder, add_submission, save_submission, add_document, add_evidence, save_verification,
  save_compliance_result, save_finding, save_explanation,
}
use core_engine_ge_m.Store.Events.{
  save_job, add_audit, add_outbox, attempted, record_attempt, publish, mark_published, save_state,
  save_snapshot,
}
use core_engine_ge_m.Store.Linked.{IsLinked, one, one-has}
use core_engine_ge_m.Store.Linked.Writes.{put_bidder, put_submission, put_document, put_evidence}
use core_engine_ge_m.Store.Linked.Outcomes.{
  put_verification, put_result, put_finding, put_explanation, put_state, put_snapshot,
}

-- A submission that is saved again keeps its bidder, as every caller of `save` has it.
abbrev pub SameBidder : SubmissionRecord → Option SubmissionRecord → Type 0
SameBidder r none = Unit
SameBidder r (some old) = r.bidder_id ≡ old.bidder_id

pub data Step (s : Store) : Store → Type 0 where
  adds_bidder : (r : BidderRecord) → Step s (add_bidder r s).0
  adds_submission : (r : SubmissionRecord) → Step s (add_submission r s).0
  saves_submission :
      (r : SubmissionRecord)
      → SameBidder r (lookup r.submission_id s.submissions)
      → Step s (save_submission r s).0
  adds_document : (r : DocumentRecord) → Step s (add_document r s).0
  adds_evidence : (r : EvidenceRecord) → Step s (add_evidence r s).0
  saves_verification : (r : VerificationRecord) → Step s (save_verification r s).0
  saves_result : (r : ComplianceResultRecord) → Step s (save_compliance_result r s).0
  saves_finding : (r : FindingRecord) → Step s (save_finding r s).0
  saves_explanation : (r : ExplanationRecord) → Step s (save_explanation r s).0
  saves_job : (r : JobRecord) → Step s (save_job r s)
  adds_audit : (r : AuditEventRecord) → Step s (add_audit r s).0
  adds_outbox : (r : OutboxEventRecord) → Step s (add_outbox r s).0
  attempts : (event_id : String) → Step s (record_attempt event_id s).0
  publishes : (event_id : String) (at : ℕ) → Step s (mark_published event_id at s).0
  saves_state : (r : FlagStateRecord) → Step s (save_state r s).0
  saves_snapshot : (r : FlagSnapshotRecord) → Step s (save_snapshot r s).0

pub data Reach (s : Store) : Store → Type 0 where
  here : Reach s s
  next : {t u : Store} → Reach s t → Step t u → Reach s u

-- What a call may do to the tables, with what it has checked.
pub data Write (s : Store) : Store → Type 0 where
  nothing : Write s s
  bidder :
      (r : BidderRecord)
      → has r.bidder_id s.bidders ≡ false
      → Write s (record s { bidders = insert r.bidder_id r s.bidders })
  submission :
      (r : SubmissionRecord)
      → has_all (one r.bidder_id) s.bidders ≡ true
      → Write s (record s { submissions = insert r.submission_id r s.submissions })
  document :
      (r : DocumentRecord)
      → has_all (one r.bidder_id) s.bidders ≡ true
      → has r.document_id s.documents ≡ false
      → has_all (optional r.submission_id) s.submissions ≡ true
      → Write s (record s { documents = insert r.document_id r s.documents })
  evidence :
      (r : EvidenceRecord)
      → has_all (one r.bidder_id) s.bidders ≡ true
      → has_all (one r.document_id) s.documents ≡ true
      → has r.evidence_id s.evidence ≡ false
      → Write s (record s { evidence = insert r.evidence_id r s.evidence })
  verification :
      (r : VerificationRecord)
      → has_all (one r.bidder_id) s.bidders ≡ true
      → has_all (optional r.evidence_id) s.evidence ≡ true
      → has_all (optional r.document_id) s.documents ≡ true
      → Write s (record s { verifications = insert r.verification_id r s.verifications })
  result :
      (r : ComplianceResultRecord)
      → has_all (one r.bidder_id) s.bidders ≡ true
      → Write s (record s {
        compliance_results =
            insert (r.submission_id, r.bidder_id, r.requirement_id) r s.compliance_results;
      })
  finding :
      (r : FindingRecord)
      → has_all (one r.bidder_id) s.bidders ≡ true
      → Write s (record s { findings = insert r.finding_id r s.findings })
  explanation :
      (r : ExplanationRecord)
      → has_all (one r.bidder_id) s.bidders ≡ true
      → has_all r.finding_refs s.findings ≡ true
      → Write s (record s { explanations = insert r.explanation_id r s.explanations })
  job :
      (r : JobRecord)
      → Write s (record s {
        jobs = insert r.job_id r s.jobs;
        jobs_by_idem = index_key r.idempotency_key r.job_id s.jobs_by_idem;
      })
  audit : (r : AuditEventRecord) → Write s (record s { audit_events = s.audit_events ++ r ∷ [] })
  event :
      (r : OutboxEventRecord)
      → has r.event_id s.outbox ≡ false
      → Write s (record s { outbox = insert r.event_id r s.outbox })
  event_again :
      (event_id : String) (old new : OutboxEventRecord)
      → lookup event_id s.outbox ≡ some old
      → ((at : ℕ) → old.published_at ≡ some at → new.published_at ≡ some at)
      → Write s (record s { outbox = insert event_id new s.outbox })
  state :
      (r : FlagStateRecord)
      → has_all (one r.bidder_id) s.bidders ≡ true
      → Write s (record s { flag_states = insert (r.bidder_id, r.flag_id) r s.flag_states })
  snapshot :
      (r : FlagSnapshotRecord)
      → has_all (one r.bidder_id) s.bidders ≡ true
      → Write s (record s { flag_snapshots = insert r.snapshot_id r s.flag_snapshots })

-- The tables of the jobs, the audit log and the outbox stand outside the references.
relink :
    (s : Store) (jobs : Map String JobRecord) (keys : Map String String)
    (events : List AuditEventRecord) (outbox : Map String OutboxEventRecord)
    → IsLinked s
    → IsLinked
        (record s { jobs = jobs; jobs_by_idem = keys; audit_events = events; outbox = outbox })
relink s jobs keys events outbox l = record {
  submission_bidder = l.submission_bidder;
  document_bidder = l.document_bidder;
  document_submission = l.document_submission;
  evidence_bidder = l.evidence_bidder;
  evidence_document = l.evidence_document;
  verification_bidder = l.verification_bidder;
  verification_evidence = l.verification_evidence;
  verification_document = l.verification_document;
  result_bidder = l.result_bidder;
  finding_bidder = l.finding_bidder;
  explanation_bidder = l.explanation_bidder;
  explanation_findings = l.explanation_findings;
  state_bidder = l.state_bidder;
  snapshot_bidder = l.snapshot_bidder;
  submission_named = l.submission_named;
}

Write-IsLinked : {s t : Store} → Write s t → IsLinked s → IsLinked t
Write-IsLinked nothing l = l
Write-IsLinked {s} (bidder r new) l = put_bidder s l r
Write-IsLinked {s} (submission r b) l = put_submission s l r b
Write-IsLinked {s} (document r b new m) l = put_document s l r b m
Write-IsLinked {s} (evidence r b d new) l = put_evidence s l r b d
Write-IsLinked {s} (verification r b e d) l = put_verification s l r b e d
Write-IsLinked {s} (result r b) l = put_result s l r b
Write-IsLinked {s} (finding r b) l = put_finding s l r b
Write-IsLinked {s} (explanation r b f) l = put_explanation s l r b f
Write-IsLinked {s} (job r) l = relink s _ _ s.audit_events s.outbox l
Write-IsLinked {s} (audit r) l = relink s s.jobs s.jobs_by_idem _ s.outbox l
Write-IsLinked {s} (event r new) l = relink s s.jobs s.jobs_by_idem s.audit_events _ l
Write-IsLinked {s} (event_again event_id old new found kept) l =
    relink s s.jobs s.jobs_by_idem s.audit_events _ l
Write-IsLinked {s} (state r b) l = put_state s l r b
Write-IsLinked {s} (snapshot r b) l = put_snapshot s l r b
