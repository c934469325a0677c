-- ===== src/Processing/Trace.antt =====
-- Every sequence of calls on the coordinator.
use core_engine_ge_m.Base.{
  ℕ, ◌≡◌, refl, String, Option, none, some, List, lookup, insert, string_eq, lookup-insert_cases,
  Outcome, ok, raised, ◌∙◌, ap, subst, Bool-cases, inl, inr, arith,
}
use core_engine_ge_m.Pipeline.{
  ProcessingStage, ingested, failed, stage_name, validate_transition, TransitionError,
}
use core_engine_ge_m.Store.{Store, has}
use core_engine_ge_m.Store.Records.{
  BidderRecord, SubmissionRecord, DocumentRecord, AuditEventRecord, OutboxEventRecord,
}
use core_engine_ge_m.Store.Entities.{
  add_bidder, add_submission, save_submission, add_document, get_submission,
}
use core_engine_ge_m.Store.Events.{add_audit, add_outbox}
use core_engine_ge_m.Store.Linked.{IsLinked}
use core_engine_ge_m.Store.Trace
use core_engine_ge_m.Store.Trace.{SameBidder}
use core_engine_ge_m.Store.Trace.Checks.{Reach-IsLinked}
use core_engine_ge_m.Processing.Atomic.{
  Leaves, and_then-Leaves, call-Leaves, transact-keeps, KeptByCalls, register_bidder-keeps,
  ingest_submission-keeps,
}
use core_engine_ge_m.Processing.Ingest.{IngestedDocument, register_bidder, ingest_submission}
use core_engine_ge_m.Processing.Advance.{
  stage_of, advanced, save_advanced, advance_from, advance_found, advance_stage, failed_submission,
  fail_found, fail_submission,
}
use core_engine_ge_m.Processing.Advance.Moves.{save_submission-existing}

abbrev pub HasStage : SubmissionRecord → Type 0
HasStage r = (st : ProcessingStage) × (r.stage ≡ stage_name st)

pub record IsStaged (s : Store) : Type 0 where
  pub linked : IsLinked s
  pub staged : (k : String) (r : SubmissionRecord) → lookup k s.submissions ≡ some r → HasStage r

-- A call that leaves the submissions alone.
same_submissions :
    (s t : Store) → IsStaged s → IsLinked t → t.submissions ≡ s.submissions → IsStaged t
same_submissions s t i l e = record {
  linked = l;
  staged = λ k r found. i.staged k r (subst (λ m. lookup k m ≡ some r) e found);
}

one-Step : (s t : Store) → IsStaged s → Trace.Step s t → IsLinked t
one-Step s t i step = Reach-IsLinked i.linked (Trace.next Trace.here step)

inserted :
    (s : Store) (r : SubmissionRecord)
    → IsStaged s
    → HasStage r
    → (k : String) (x : SubmissionRecord)
    → lookup k (insert r.submission_id r s.submissions) ≡ some x
    → HasStage x
inserted s r i st k x found = elim (lookup-insert_cases r.submission_id k r x s.submissions found) [
  | inl (same, e) ↦ subst (λ y. HasStage y) e st
  | inr (other, old) ↦ i.staged k x old
]

add_bidder-submissions :
    (r : BidderRecord) (s : Store) → (add_bidder r s).0.submissions ≡ s.submissions
unfolding add_bidder
add_bidder-submissions r s = ground arith

add_document-submissions :
    (r : DocumentRecord) (s : Store) → (add_document r s).0.submissions ≡ s.submissions
unfolding add_document
add_document-submissions r s = ground arith

add_audit-submissions :
    (r : AuditEventRecord) (s : Store) → (add_audit r s).0.submissions ≡ s.submissions
unfolding add_audit
add_audit-submissions r s = ground arith

add_outbox-submissions :
    (r : OutboxEventRecord) (s : Store) → (add_outbox r s).0.submissions ≡ s.submissions
unfolding add_outbox
add_outbox-submissions r s = ground arith

add_submission-IsStaged :
    (r : SubmissionRecord) (s : Store)
    → r.stage ≡ "INGESTED"
    → IsStaged s
    → IsStaged (add_submission r s).0
unfolding add_submission
add_submission-IsStaged r s e i = record {
  linked = one-Step s (add_submission r s).0 i (Trace.adds_submission r);
  staged = elim (Bool-cases (has r.bidder_id s.bidders)) [
    | inr unknown ↦ rw unknown i.staged
    | inl known ↦ elim (Bool-cases (has r.submission_id s.submissions)) [
      | inl taken ↦ rw (known, taken) i.staged
      | inr new ↦ rw (known, new) (inserted s r i (ingested, e))
    ]
  ];
}

kept : KeptByCalls IsStaged
kept = record {
  adds_bidder = λ r s i.
      same_submissions s _ i (one-Step s _ i (Trace.adds_bidder r)) (add_bidder-submissions r s);
  adds_submission = add_submission-IsStaged;
  adds_document = λ r s i.
      same_submissions s _ i (one-Step s _ i (Trace.adds_document r))
        (add_document-submissions r s);
  adds_audit = λ r s i.
      same_submissions s _ i (one-Step s _ i (Trace.adds_audit r)) (add_audit-submissions r s);
  adds_outbox = λ r s i.
      same_submissions s _ i (one-Step s _ i (Trace.adds_outbox r)) (add_outbox-submissions r s);
}

-- A submission that is rewritten under its own ID and bidder.
save_submission-IsStaged :
    (s : Store) (r old : SubmissionRecord)
    → IsStaged s
    → lookup r.submission_id s.submissions ≡ some old
    → r.bidder_id ≡ old.bidder_id
    → HasStage r
    → IsStaged (save_submission r s).0
save_submission-IsStaged s r old i found same st = record {
  linked = one-Step s (save_submission r s).0 i (Trace.saves_submission r (rw found same));
  staged = rw (save_submission-existing s r old found) (inserted s r i st);
}

module _ (submission_id : String) (s : Store) (i : IsStaged s) where
  named_lookup :
      (sub : SubmissionRecord)
      → lookup submission_id s.submissions ≡ some sub
      → lookup sub.submission_id s.submissions ≡ some sub
  named_lookup sub found =
      ap (λ k. lookup k s.submissions) (i.linked.submission_named submission_id sub found) ∙ found

  save_advanced-Leaves :
      (target : ProcessingStage) (correlation_id : Option String) (event_id : String) (now : ℕ)
      (sub : SubmissionRecord) (o : Outcome TransitionError ProcessingStage)
      → lookup submission_id s.submissions ≡ some sub
      → Leaves IsStaged (save_advanced submission_id target correlation_id event_id now sub o s)
  unfolding save_advanced
  save_advanced-Leaves target correlation_id event_id now sub (raised e) found = record {
    holds = i;
  }
  save_advanced-Leaves target correlation_id event_id now sub (ok t) found =
      and_then-Leaves IsStaged _ _
        (call-Leaves IsStaged _ (
          save_submission-IsStaged s (advanced target now sub) sub i (named_lookup sub found) refl
            (target, refl)))
        (λ a t j.
          and_then-Leaves IsStaged _ _ (call-Leaves IsStaged _ (kept.adds_audit _ t j))
            (λ b u j. record { holds = j }))

  advance_found-Leaves :
      (target : ProcessingStage) (correlation_id : Option String) (event_id : String) (now : ℕ)
      (o : Option SubmissionRecord)
      → lookup submission_id s.submissions ≡ o
      → Leaves IsStaged (advance_found submission_id target correlation_id event_id now o s)
  unfolding advance_found advance_from
  advance_found-Leaves target correlation_id event_id now none found = record { holds = i }
  advance_found-Leaves target correlation_id event_id now (some sub) found =
      from (stage_of sub.stage)
    where
      from :
          (o : Option ProcessingStage)
          → Leaves IsStaged (advance_from submission_id target correlation_id event_id now sub o s)
      from none = record { holds = i }
      from (some current) =
          save_advanced-Leaves target correlation_id event_id now sub
            (validate_transition current target) found

  fail_found-Leaves :
      (error error_kind : String) (correlation_id : Option String) (event_id : String) (now : ℕ)
      (o : Option SubmissionRecord)
      → lookup submission_id s.submissions ≡ o
      → Leaves IsStaged (fail_found submission_id error error_kind correlation_id event_id now o s)
  unfolding fail_found
  fail_found-Leaves error error_kind correlation_id event_id now none found = record { holds = i }
  fail_found-Leaves error error_kind correlation_id event_id now (some sub) found =
      and_then-Leaves IsStaged _ _
        (call-Leaves IsStaged _ (
          save_submission-IsStaged s (failed_submission error error_kind now sub) sub i
            (named_lookup sub found) refl (failed, refl)))
        (λ a t j.
          and_then-Leaves IsStaged _ _ (call-Leaves IsStaged _ (kept.adds_audit _ t j))
            (λ b u j. record { holds = j }))

pub data Step (s : Store) : Store → Type 0 where
  registers :
      (bidder_id event_id : String) (now : ℕ) → Step s (register_bidder bidder_id event_id now s).0
  ingests :
      (bidder_id submission_id : String) (docs : List IngestedDocument)
      (correlation_id : Option String) (audit_id outbox_id : String) (now : ℕ)
      → Step s
          (ingest_submission bidder_id submission_id docs correlation_id audit_id outbox_id now s).0
  advances :
      (submission_id : String) (target : ProcessingStage) (correlation_id : Option String)
      (event_id : String) (now : ℕ)
      → Step s (advance_stage submission_id target correlation_id event_id now s).0
  fails :
      (submission_id error error_kind : String) (correlation_id : Option String) (event_id : String)
      (now : ℕ)
      → Step s (fail_submission submission_id error error_kind correlation_id event_id now s).0

pub data Reach (s : Store) : Store → Type 0 where
  here : Reach s s
  next : {t u : Store} → Reach s t → Step t u → Reach s u

Step-IsStaged : {s t : Store} → Step s t → IsStaged s → IsStaged t
unfolding advance_stage fail_submission get_submission
Step-IsStaged {s} (registers bidder_id event_id now) i =
    register_bidder-keeps IsStaged kept bidder_id event_id now s i
Step-IsStaged {s} (ingests bidder_id submission_id docs correlation_id audit_id outbox_id now) i =
    ingest_submission-keeps IsStaged kept bidder_id submission_id docs correlation_id audit_id
      outbox_id now s i
Step-IsStaged {s} (advances submission_id target correlation_id event_id now) i =
    transact-keeps IsStaged _ s i (
      advance_found-Leaves submission_id s i target correlation_id event_id now
        (lookup submission_id s.submissions) refl)
Step-IsStaged {s} (fails submission_id error error_kind correlation_id event_id now) i =
    transact-keeps IsStaged _ s i (
      fail_found-Leaves submission_id s i error error_kind correlation_id event_id now
        (lookup submission_id s.submissions) refl)

-- From a store where it is so, whatever is called on the coordinator to register, ingest, advance or
-- fail, in any order and whether it raises or not, the references between the tables hold, and every
-- submission that is stored has a stage of the pipeline.
pub Reach-IsStaged : {s t : Store} → IsStaged s → Reach s t → IsStaged t
Reach-IsStaged i here = i
Reach-IsStaged i (next path step) = Step-IsStaged step (Reach-IsStaged i path)
