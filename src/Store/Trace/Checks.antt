-- ===== src/Store/Trace/Checks.antt =====
-- Each call makes one of the writes, after its checks; so the references hold after any calls.
use core_engine_ge_m.Base.{
  ℕ, ◌≡◌, refl, String, true, Option, none, some, lookup, insert, any, ◌==◌, string_eq, pair_eq,
  triple_eq, Bool-cases, Option-cases, inl, inr, arith, ok, sym, ap, subst,
}
use core_engine_ge_m.Store.{Store, is_some, has, has_all, optional}
use core_engine_ge_m.Store.Records.{
  BidderRecord, SubmissionRecord, DocumentRecord, EvidenceRecord, VerificationRecord,
  ComplianceResultRecord, FindingRecord, ExplanationRecord, AuditEventRecord, OutboxEventRecord,
  FlagStateRecord, FlagSnapshotRecord,
}
use core_engine_ge_m.Store.Entities.{
  add_bidder, add_submission, save_submission, add_document, add_evidence, save_verification,
  save_compliance_result, save_finding, save_explanation,
}
use core_engine_ge_m.Store.Events.{
  save_job, add_audit, add_outbox, attempted, record_attempt, publish, mark_published, save_state,
  save_snapshot,
}
use core_engine_ge_m.Store.Linked.{IsLinked, one-has}
use core_engine_ge_m.Store.Trace.{
  SameBidder, Step, adds_bidder, adds_submission, saves_submission, adds_document, adds_evidence,
  saves_verification, saves_result, saves_finding, saves_explanation, saves_job, adds_audit,
  adds_outbox, attempts, publishes, saves_state, saves_snapshot, Reach, here, next, Write, nothing,
  bidder, submission, document, evidence, verification, result, finding, explanation, job, audit,
  event, event_again, state, snapshot, Write-IsLinked,
}

add_bidder-Write : (s : Store) (r : BidderRecord) → Write s (add_bidder r s).0
unfolding add_bidder
add_bidder-Write s r = elim (Bool-cases (has r.bidder_id s.bidders)) [
  | inl new ↦ rw new nothing
  | inr new ↦ rw new (bidder r new)
]

add_submission-Write : (s : Store) (r : SubmissionRecord) → Write s (add_submission r s).0
unfolding add_submission
add_submission-Write s r = elim (Bool-cases (has r.bidder_id s.bidders)) [
  | inr b ↦ rw b nothing
  | inl b ↦ rw b (elim (Bool-cases (has r.submission_id s.submissions)) [
    | inl new ↦ rw new nothing
    | inr new ↦ rw new (submission r (one-has r.bidder_id s.bidders b))
  ])
]

add_document-Write : (s : Store) (r : DocumentRecord) → Write s (add_document r s).0
unfolding add_document
add_document-Write s r = elim (Bool-cases (has r.bidder_id s.bidders)) [
  | inr b ↦ rw b nothing
  | inl b ↦ rw b (elim (Bool-cases (has r.document_id s.documents)) [
    | inl new ↦ rw new nothing
    | inr new ↦ rw new (elim (Bool-cases (has_all (optional r.submission_id) s.submissions)) [
      | inr m ↦ rw m nothing
      | inl m ↦ rw m (document r (one-has r.bidder_id s.bidders b) new m)
    ])
  ])
]

add_evidence-Write : (s : Store) (r : EvidenceRecord) → Write s (add_evidence r s).0
unfolding add_evidence
add_evidence-Write s r = elim (Bool-cases (has r.bidder_id s.bidders)) [
  | inr b ↦ rw b nothing
  | inl b ↦ rw b (elim (Bool-cases (has r.document_id s.documents)) [
    | inr d ↦ rw d nothing
    | inl d ↦ rw d (elim (Bool-cases (has r.evidence_id s.evidence)) [
      | inl new ↦ rw new nothing
      | inr new ↦
          rw new
            (evidence r (one-has r.bidder_id s.bidders b) (one-has r.document_id s.documents d) new)
    ])
  ])
]

save_verification-Write : (s : Store) (r : VerificationRecord) → Write s (save_verification r s).0
unfolding save_verification
save_verification-Write s r = elim (Bool-cases (has r.bidder_id s.bidders)) [
  | inr b ↦ rw b nothing
  | inl b ↦ rw b (elim (Bool-cases (has_all (optional r.evidence_id) s.evidence)) [
    | inr e ↦ rw e nothing
    | inl e ↦ rw e (elim (Bool-cases (has_all (optional r.document_id) s.documents)) [
      | inr d ↦ rw d nothing
      | inl d ↦ rw d (verification r (one-has r.bidder_id s.bidders b) e d)
    ])
  ])
]

save_compliance_result-Write :
    (s : Store) (r : ComplianceResultRecord) → Write s (save_compliance_result r s).0
unfolding save_compliance_result
save_compliance_result-Write s r = elim (Bool-cases (has r.bidder_id s.bidders)) [
  | inr b ↦ rw b nothing
  | inl b ↦ rw b (result r (one-has r.bidder_id s.bidders b))
]

save_finding-Write : (s : Store) (r : FindingRecord) → Write s (save_finding r s).0
unfolding save_finding
save_finding-Write s r = elim (Bool-cases (has r.bidder_id s.bidders)) [
  | inr b ↦ rw b nothing
  | inl b ↦ rw b (finding r (one-has r.bidder_id s.bidders b))
]

save_state-Write : (s : Store) (r : FlagStateRecord) → Write s (save_state r s).0
unfolding save_state
save_state-Write s r = elim (Bool-cases (has r.bidder_id s.bidders)) [
  | inr b ↦ rw b nothing
  | inl b ↦ rw b (state r (one-has r.bidder_id s.bidders b))
]

save_snapshot-Write : (s : Store) (r : FlagSnapshotRecord) → Write s (save_snapshot r s).0
unfolding save_snapshot
save_snapshot-Write s r = elim (Bool-cases (has r.bidder_id s.bidders)) [
  | inr b ↦ rw b nothing
  | inl b ↦ rw b (snapshot r (one-has r.bidder_id s.bidders b))
]

save_explanation-Write : (s : Store) (r : ExplanationRecord) → Write s (save_explanation r s).0
unfolding save_explanation
save_explanation-Write s r = elim (Bool-cases (has r.bidder_id s.bidders)) [
  | inr b ↦ rw b nothing
  | inl b ↦ rw b (elim (Bool-cases (has_all r.finding_refs s.findings)) [
    | inr g ↦ rw g nothing
    | inl g ↦ rw g (explanation r (one-has r.bidder_id s.bidders b) g)
  ])
]

add_audit-Write : (s : Store) (r : AuditEventRecord) → Write s (add_audit r s).0
unfolding add_audit
add_audit-Write s r = elim (Bool-cases (any (λ e. e.event_id == r.event_id) s.audit_events)) [
  | inl new ↦ rw new nothing
  | inr new ↦ rw new (audit r)
]

add_outbox-Write : (s : Store) (r : OutboxEventRecord) → Write s (add_outbox r s).0
unfolding add_outbox
add_outbox-Write s r = elim (Bool-cases (has r.event_id s.outbox)) [
  | inl new ↦ rw new nothing
  | inr new ↦ rw new (event r new)
]

attempted-Write :
    (s : Store) (event_id : String) (o : Option OutboxEventRecord)
    → lookup event_id s.outbox ≡ o
    → Write s (attempted event_id s o).0
unfolding attempted
attempted-Write s event_id none e = nothing
attempted-Write s event_id (some old) e = event_again event_id old _ e (λ at h. h)

publish-Write :
    (s : Store) (event_id : String) (at : ℕ) (o : Option OutboxEventRecord)
    → lookup event_id s.outbox ≡ o
    → Write s (publish event_id at s o).0
unfolding publish
publish-Write s event_id at none e = nothing
publish-Write s event_id at (some old) e = elim (Bool-cases (is_some old.published_at)) [
  | inl done ↦ rw done nothing
  | inr first ↦ rw first (event_again event_id old _ e (λ t h. ground arith))
]

save_submission-known :
    (s : Store) (r : SubmissionRecord)
    → has r.bidder_id s.bidders ≡ true
    → save_submission r s
      ≡ (record s { submissions = insert r.submission_id r s.submissions }, ok r)
unfolding save_submission
save_submission-known s r b = elim (Bool-cases (has r.submission_id s.submissions)) [
  | inl old ↦ rw old refl
  | inr new ↦ rw (new, b) refl
]

save_submission-Write :
    (s : Store) (r : SubmissionRecord)
    → IsLinked s
    → SameBidder r (lookup r.submission_id s.submissions)
    → Write s (save_submission r s).0
unfolding save_submission
save_submission-Write s r l same = elim (Bool-cases (has r.bidder_id s.bidders)) [
  | inl b ↦
      subst (λ c. Write s c.0) (sym (save_submission-known s r b))
        (submission r (one-has r.bidder_id s.bidders b))
  | inr n ↦ elim (Option-cases (lookup r.submission_id s.submissions)) [
    | inl new ↦ rw (new, n) nothing
    | inr (old, e) ↦ absurd (
        ground (
          arith,
          l.submission_bidder r.submission_id old e,
          ap (λ x. has x s.bidders) (rw e at same),
        ))
  ]
]

pub Step-Write : {s t : Store} → Step s t → IsLinked s → Write s t
unfolding record_attempt mark_published save_job
Step-Write {s} (adds_bidder r) l = add_bidder-Write s r
Step-Write {s} (adds_submission r) l = add_submission-Write s r
Step-Write {s} (adds_document r) l = add_document-Write s r
Step-Write {s} (adds_evidence r) l = add_evidence-Write s r
Step-Write {s} (saves_verification r) l = save_verification-Write s r
Step-Write {s} (saves_result r) l = save_compliance_result-Write s r
Step-Write {s} (saves_finding r) l = save_finding-Write s r
Step-Write {s} (saves_explanation r) l = save_explanation-Write s r
Step-Write {s} (adds_audit r) l = add_audit-Write s r
Step-Write {s} (adds_outbox r) l = add_outbox-Write s r
Step-Write {s} (saves_state r) l = save_state-Write s r
Step-Write {s} (saves_snapshot r) l = save_snapshot-Write s r
Step-Write {s} (saves_submission r same) l = save_submission-Write s r l same
Step-Write (saves_job r) l = job r
Step-Write {s} (attempts event_id) l = attempted-Write s event_id (lookup event_id s.outbox) refl
Step-Write {s} (publishes event_id at) l =
    publish-Write s event_id at (lookup event_id s.outbox) refl

pub Reach-IsLinked : {s t : Store} → IsLinked s → Reach s t → IsLinked t
Reach-IsLinked l here = l
Reach-IsLinked l (next path step) =
    let before = Reach-IsLinked l path in Write-IsLinked (Step-Write step before) before
