-- ===== src/Processing/Ingest/Refusal.antt =====
-- When a submission is not ingested.
use core_engine_ge_m.Base.{
  ℕ, ◌≡◌, refl, ◌∙◌, String, Bool, true, false, not, ◌&&◌, Option, List, [], ◌∷◌, Map, insert, any,
  ◌==◌, string_eq, Outcome, raised, Bool-cases, inl, inr, arith,
}
use core_engine_ge_m.Store.{Store, StoreError, duplicate_record, has}
use core_engine_ge_m.Store.Records.{
  SubmissionRecord, DocumentRecord, AuditEventRecord, OutboxEventRecord,
}
use core_engine_ge_m.Store.Entities.{add_submission, add_document}
use core_engine_ge_m.Store.Events.{add_audit, add_outbox}
use core_engine_ge_m.Processing.{ProcessingError, from_store, Body, and_then, call, audit_event}
use core_engine_ge_m.Processing.Transactions.{from_body}
use core_engine_ge_m.Processing.Advance.Moves.{add_audit-fresh, settle_raised}
use core_engine_ge_m.Processing.Ingest.{
  IngestedDocument, document_record, add_documents, ingested_event, ingested_outbox, ingest_body,
  ingest_submission,
}
use core_engine_ge_m.Processing.Ingest.Success.{
  bidders_with-has, and_then_ok, call_ok, ensure_bidder_lem, add_document_lem, add_documents_lem,
  add_submission_lem, AllNew, submission, with_bidder, with_submission, with_its_documents,
  with_audit, has_submission,
}

and_then_raised :
    {A B : Type 0} (c : Store × Outcome ProcessingError A) (f : A → Body B) (t : Store)
    (x : ProcessingError)
    → c ≡ (t, raised x)
    → and_then c f ≡ (t, raised x)
unfolding and_then
and_then_raised c f t x e = rw e refl

call_raised :
    {A B : Type 0} (c : Store × Outcome StoreError A) (f : A → Body B) (t : Store) (x : StoreError)
    → c ≡ (t, raised x)
    → and_then (call c) f ≡ (t, raised (from_store x))
unfolding and_then call
call_raised c f t x e = rw e refl

add_submission_taken :
    (r : SubmissionRecord) (s : Store)
    → has r.bidder_id s.bidders ≡ true
    → has r.submission_id s.submissions ≡ true
    → add_submission r s ≡ (s, raised duplicate_record)
unfolding add_submission
add_submission_taken r s b taken = rw (b, taken) refl

add_document_taken :
    (r : DocumentRecord) (s : Store)
    → has r.bidder_id s.bidders ≡ true
    → has r.document_id s.documents ≡ true
    → add_document r s ≡ (s, raised duplicate_record)
unfolding add_document
add_document_taken r s b taken = rw (b, taken) refl

add_audit_taken :
    (r : AuditEventRecord) (s : Store)
    → any (λ e. e.event_id == r.event_id) s.audit_events ≡ true
    → add_audit r s ≡ (s, raised duplicate_record)
unfolding add_audit
add_audit_taken r s taken = rw taken refl

add_outbox_taken :
    (r : OutboxEventRecord) (s : Store)
    → has r.event_id s.outbox ≡ true
    → add_outbox r s ≡ (s, raised duplicate_record)
unfolding add_outbox
add_outbox_taken r s taken = rw taken refl

module _ (bidder_id submission_id : String) (now : ℕ) where
  -- No ID of a document is taken, by a stored document or by one before it.
  abbrev pub all_new : List IngestedDocument → Map String DocumentRecord → Bool
  all_new [] documents = true
  all_new (doc ∷ docs) documents =
      let rest =
        all_new docs
          (insert doc.document_id (document_record bidder_id submission_id now doc) documents) in
      not (has doc.document_id documents) && rest

  all_new-AllNew :
      (docs : List IngestedDocument) (documents : Map String DocumentRecord)
      → all_new docs documents ≡ true
      → AllNew bidder_id submission_id now docs documents
  all_new-AllNew [] documents h = tt
  all_new-AllNew (doc ∷ docs) documents h = (ground arith, all_new-AllNew docs _ (ground arith))

  add_documents_taken :
      (docs : List IngestedDocument) (s : Store)
      → has bidder_id s.bidders ≡ true
      → has submission_id s.submissions ≡ true
      → all_new docs s.documents ≡ false
      → (t : Store) × (add_documents bidder_id submission_id now docs s
          ≡ (t, raised (from_store duplicate_record)))
  unfolding add_documents
  add_documents_taken [] s b m h = absurd (ground arith)
  add_documents_taken (doc ∷ docs) s b m h = elim (Bool-cases (has doc.document_id s.documents)) [
    | inl taken ↦ (s, call_raised _ _ s duplicate_record (add_document_taken _ s b taken))
    | inr new ↦
        let (t, e) =
          add_documents_taken docs
            (record s {
              documents =
                  insert doc.document_id (document_record bidder_id submission_id now doc)
                    s.documents;
            })
            b m (rw new at h) in
        (t, call_ok _ _ _ _ (add_document_lem bidder_id submission_id now doc s b m new) ∙ e)
  ]

module _ (bidder_id submission_id : String) (docs : List IngestedDocument)
    (correlation_id : Option String) (audit_id outbox_id : String) (now : ℕ) where
  -- The IDs of the submission, of its documents and of the two events are all new.
  abbrev pub is_new : Store → Bool
  is_new s =
      not (has submission_id s.submissions)
      && (all_new bidder_id submission_id now docs s.documents
          && (not (any (λ e. e.event_id == audit_id) s.audit_events)
              && not (has outbox_id s.outbox)))

  -- The body ends with an error, whatever it has written by then.
  Refused : Store → Type 0
  Refused s =
      (t : Store) × (ingest_body bidder_id submission_id docs correlation_id audit_id outbox_id now
          s
        ≡ (t, raised (from_store duplicate_record)))

  submission-Refused : (s : Store) → has submission_id s.submissions ≡ true → Refused s
  unfolding Refused ingest_body
  submission-Refused s taken = (
    with_bidder bidder_id submission_id docs correlation_id audit_id outbox_id now s,
    and_then_ok _ _ _ _ (ensure_bidder_lem bidder_id now s)
        ∙ call_raised _ _ _ _ (
            add_submission_taken
              (submission bidder_id submission_id docs correlation_id audit_id outbox_id now)
              (with_bidder bidder_id submission_id docs correlation_id audit_id outbox_id now s)
              (bidders_with-has bidder_id now s.bidders) taken),
  )

  documents-Refused :
      (s : Store)
      → has submission_id s.submissions ≡ false
      → all_new bidder_id submission_id now docs s.documents ≡ false
      → Refused s
  unfolding Refused ingest_body
  documents-Refused s new taken =
      let (t, e) =
        add_documents_taken bidder_id submission_id now docs
          (with_submission bidder_id submission_id docs correlation_id audit_id outbox_id now s)
          (bidders_with-has bidder_id now s.bidders)
          (has_submission bidder_id submission_id docs correlation_id audit_id outbox_id now s)
          taken in
      (
        t,
        and_then_ok _ _ _ _ (ensure_bidder_lem bidder_id now s)
            ∙ call_ok _ _ _ _ (
                add_submission_lem
                  (submission bidder_id submission_id docs correlation_id audit_id outbox_id now)
                  (with_bidder bidder_id submission_id docs correlation_id audit_id outbox_id now s)
                  (bidders_with-has bidder_id now s.bidders) new)
            ∙ and_then_raised _ _ t (from_store duplicate_record) e,
      )

  audit-Refused :
      (s : Store)
      → has submission_id s.submissions ≡ false
      → all_new bidder_id submission_id now docs s.documents ≡ true
      → any (λ e. e.event_id == audit_id) s.audit_events ≡ true
      → Refused s
  unfolding Refused ingest_body audit_event
  audit-Refused s new fresh taken = (
    with_its_documents bidder_id submission_id docs correlation_id audit_id outbox_id now s,
    and_then_ok _ _ _ _ (ensure_bidder_lem bidder_id now s)
        ∙ call_ok _ _ _ _ (
            add_submission_lem
              (submission bidder_id submission_id docs correlation_id audit_id outbox_id now)
              (with_bidder bidder_id submission_id docs correlation_id audit_id outbox_id now s)
              (bidders_with-has bidder_id now s.bidders) new)
        ∙ and_then_ok _ _ _ _ (
            add_documents_lem bidder_id submission_id now docs
              (with_submission bidder_id submission_id docs correlation_id audit_id outbox_id now s)
              (bidders_with-has bidder_id now s.bidders)
              (has_submission bidder_id submission_id docs correlation_id audit_id outbox_id now s)
              (all_new-AllNew bidder_id submission_id now docs s.documents fresh))
        ∙ call_raised _ _ _ _ (
            add_audit_taken
              (ingested_event audit_id bidder_id submission_id docs correlation_id now)
              (with_its_documents bidder_id submission_id docs correlation_id audit_id outbox_id now
                s)
              taken),
  )

  outbox-Refused :
      (s : Store)
      → has submission_id s.submissions ≡ false
      → all_new bidder_id submission_id now docs s.documents ≡ true
      → any (λ e. e.event_id == audit_id) s.audit_events ≡ false
      → has outbox_id s.outbox ≡ true
      → Refused s
  unfolding Refused ingest_body audit_event
  outbox-Refused s new fresh free taken = (
    with_audit bidder_id submission_id docs correlation_id audit_id outbox_id now s,
    and_then_ok _ _ _ _ (ensure_bidder_lem bidder_id now s)
        ∙ call_ok _ _ _ _ (
            add_submission_lem
              (submission bidder_id submission_id docs correlation_id audit_id outbox_id now)
              (with_bidder bidder_id submission_id docs correlation_id audit_id outbox_id now s)
              (bidders_with-has bidder_id now s.bidders) new)
        ∙ and_then_ok _ _ _ _ (
            add_documents_lem bidder_id submission_id now docs
              (with_submission bidder_id submission_id docs correlation_id audit_id outbox_id now s)
              (bidders_with-has bidder_id now s.bidders)
              (has_submission bidder_id submission_id docs correlation_id audit_id outbox_id now s)
              (all_new-AllNew bidder_id submission_id now docs s.documents fresh))
        ∙ call_ok _ _ _ _ (
            add_audit-fresh
              (with_its_documents bidder_id submission_id docs correlation_id audit_id outbox_id now
                s)
              (ingested_event audit_id bidder_id submission_id docs correlation_id now) free)
        ∙ call_raised _ _ _ _ (
            add_outbox_taken (ingested_outbox outbox_id submission_id now)
              (with_audit bidder_id submission_id docs correlation_id audit_id outbox_id now s)
              taken),
  )

  body-Refused : (s : Store) → is_new s ≡ false → Refused s
  body-Refused s h = elim (Bool-cases (has submission_id s.submissions)) [
    | inl taken ↦ submission-Refused s taken
    | inr new ↦ elim (Bool-cases (all_new bidder_id submission_id now docs s.documents)) [
      | inr some_taken ↦ documents-Refused s new some_taken
      | inl fresh ↦ elim (Bool-cases (any (λ e. e.event_id == audit_id) s.audit_events)) [
        | inl taken ↦ audit-Refused s new fresh taken
        | inr free ↦ outbox-Refused s new fresh free (ground arith)
      ]
    ]
  ]

  -- A submission is refused when any ID is taken, its own, that of a document, also by an earlier
  -- document of the same submission, or that of one of the two events: the call raises the error of a
  -- duplicate record, and whatever it has written before, the new bidder included, is rolled back. The
  -- binaries of the documents are not part of the store.
  pub ingest_refuses :
      (s : Store)
      → is_new s ≡ false
      → ingest_submission bidder_id submission_id docs correlation_id audit_id outbox_id now s
        ≡ (s, raised (from_body (from_store duplicate_record)))
  unfolding ingest_submission Refused
  ingest_refuses s h = let (t, e) = body-Refused s h in settle_raised _ s t _ e
