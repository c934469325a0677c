-- ===== src/Processing/Ingest/Success.antt =====
-- What a submission that is ingested leaves in the tables.
use core_engine_ge_m.Base.{
  ℕ, ◌≡◌, refl, ◌∙◌, String, true, false, Option, none, some, List, [], ◌∷◌, ◌++◌, Map, lookup,
  insert, lookup-insert_self, any, ◌==◌, string_eq, Outcome, ok, if◌then◌else◌, Bool-cases, inl,
  inr, arith,
}
use core_engine_ge_m.Store.{Store, StoreError, has}
use core_engine_ge_m.Store.Records.{
  BidderRecord, SubmissionRecord, DocumentRecord, OutboxEventRecord,
}
use core_engine_ge_m.Store.Entities.{add_bidder, get_bidder, add_submission, add_document}
use core_engine_ge_m.Store.Events.{add_outbox}
use core_engine_ge_m.Processing.{ProcessingError, Body, and_then, call, audit_event}
use core_engine_ge_m.Processing.Advance.Moves.{add_audit-fresh, settle_ok}
use core_engine_ge_m.Processing.Ingest.{
  new_bidder, ensure_bidder, IngestedDocument, document_record, add_documents, new_submission,
  ingested_event, ingested_outbox, ingest_body, ingest_submission,
}

-- The bidders once the bidder is there.
abbrev pub bidders_with : String → ℕ → Map String BidderRecord → Map String BidderRecord
bidders_with bidder_id now bidders =
    if has bidder_id bidders then bidders else insert bidder_id (new_bidder bidder_id now) bidders

pub bidders_with-has :
    (bidder_id : String) (now : ℕ) (bidders : Map String BidderRecord)
    → has bidder_id (bidders_with bidder_id now bidders) ≡ true
bidders_with-has bidder_id now bidders = elim (Bool-cases (has bidder_id bidders)) [
  | inl there ↦ rw there there
  | inr new ↦ rw (new, lookup-insert_self bidder_id (new_bidder bidder_id now) bidders) refl
]

add_bidder_lem :
    (r : BidderRecord) (s : Store)
    → has r.bidder_id s.bidders ≡ false
    → add_bidder r s ≡ (record s { bidders = insert r.bidder_id r s.bidders }, ok r)
unfolding add_bidder
add_bidder_lem r s new = rw new refl

pub and_then_ok :
    {A B : Type 0} (c : Store × Outcome ProcessingError A) (f : A → Body B) (t : Store) (a : A)
    → c ≡ (t, ok a)
    → and_then c f ≡ f a t
unfolding and_then
and_then_ok c f t a e = rw e refl

pub call_ok :
    {A B : Type 0} (c : Store × Outcome StoreError A) (f : A → Body B) (t : Store) (a : A)
    → c ≡ (t, ok a)
    → and_then (call c) f ≡ f a t
unfolding and_then call
call_ok c f t a e = rw e refl

pub ensure_bidder_lem :
    (bidder_id : String) (now : ℕ) (s : Store)
    → ensure_bidder bidder_id now (get_bidder bidder_id s) s
      ≡ (record s { bidders = bidders_with bidder_id now s.bidders }, ok tt)
unfolding get_bidder ensure_bidder
ensure_bidder_lem bidder_id now s = go (lookup bidder_id s.bidders) refl
  where
    go :
        (o : Option BidderRecord)
        → lookup bidder_id s.bidders ≡ o
        → ensure_bidder bidder_id now o s
          ≡ (record s { bidders = bidders_with bidder_id now s.bidders }, ok tt)
    go none e =
        let new : has bidder_id s.bidders ≡ false = rw e refl in
        rw new (call_ok _ _ _ _ (add_bidder_lem (new_bidder bidder_id now) s new))
    go (some r) e = rw e refl

module _ (bidder_id submission_id : String) (now : ℕ) where
  -- The documents of the submission go into the table one after the other, each under a new ID.
  abbrev pub with_documents :
      List IngestedDocument → Map String DocumentRecord → Map String DocumentRecord
  with_documents [] documents = documents
  with_documents (doc ∷ docs) documents =
      with_documents docs
        (insert doc.document_id (document_record bidder_id submission_id now doc) documents)

  abbrev pub AllNew : List IngestedDocument → Map String DocumentRecord → Type 0
  AllNew [] documents = Unit
  AllNew (doc ∷ docs) documents =
      (has doc.document_id documents ≡ false)
      × AllNew docs
          (insert doc.document_id (document_record bidder_id submission_id now doc) documents)

  pub add_document_lem :
      (doc : IngestedDocument) (s : Store)
      → has bidder_id s.bidders ≡ true
      → has submission_id s.submissions ≡ true
      → has doc.document_id s.documents ≡ false
      → add_document (document_record bidder_id submission_id now doc) s ≡ (
        record s {
          documents =
              insert doc.document_id (document_record bidder_id submission_id now doc) s.documents;
        },
        ok (document_record bidder_id submission_id now doc),
      )
  unfolding add_document
  add_document_lem doc s b m new = rw (b, m, new) refl

  pub add_documents_lem :
      (docs : List IngestedDocument) (s : Store)
      → has bidder_id s.bidders ≡ true
      → has submission_id s.submissions ≡ true
      → AllNew docs s.documents
      → add_documents bidder_id submission_id now docs s
        ≡ (record s { documents = with_documents docs s.documents }, ok tt)
  unfolding add_documents and_then call
  add_documents_lem [] s b m new = refl
  add_documents_lem (doc ∷ docs) s b m new = rw (add_document_lem doc s b m new.0) (
      add_documents_lem docs
        (record s {
          documents =
              insert doc.document_id (document_record bidder_id submission_id now doc) s.documents;
        })
        b m new.1)

pub add_submission_lem :
    (r : SubmissionRecord) (s : Store)
    → has r.bidder_id s.bidders ≡ true
    → has r.submission_id s.submissions ≡ false
    → add_submission r s ≡ (record s { submissions = insert r.submission_id r s.submissions }, ok r)
unfolding add_submission
add_submission_lem r s b new = rw (b, new) refl

add_outbox_lem :
    (r : OutboxEventRecord) (s : Store)
    → has r.event_id s.outbox ≡ false
    → add_outbox r s ≡ (record s { outbox = insert r.event_id r s.outbox }, ok r)
unfolding add_outbox
add_outbox_lem r s new = rw new refl

module _ (bidder_id submission_id : String) (docs : List IngestedDocument)
    (correlation_id : Option String) (audit_id outbox_id : String) (now : ℕ) where
  abbrev pub submission : SubmissionRecord
  submission = new_submission bidder_id submission_id correlation_id now

  -- The tables afterwards.
  abbrev pub ingested_store : Store → Store
  ingested_store s = record s {
    bidders = bidders_with bidder_id now s.bidders;
    submissions = insert submission_id submission s.submissions;
    documents = with_documents bidder_id submission_id now docs s.documents;
    audit_events =
        s.audit_events
        ++ ingested_event audit_id bidder_id submission_id docs correlation_id now ∷ [];
    outbox = insert outbox_id (ingested_outbox outbox_id submission_id now) s.outbox;
  }

  -- The store as the body of the call goes on.
  abbrev pub with_bidder : Store → Store
  with_bidder s = record s { bidders = bidders_with bidder_id now s.bidders }

  abbrev pub with_submission : Store → Store
  with_submission s = record (with_bidder s) {
    submissions = insert submission_id submission s.submissions;
  }

  abbrev pub with_its_documents : Store → Store
  with_its_documents s = record (with_submission s) {
    documents = with_documents bidder_id submission_id now docs s.documents;
  }

  abbrev pub with_audit : Store → Store
  with_audit s = record (with_its_documents s) {
    audit_events =
        s.audit_events
        ++ ingested_event audit_id bidder_id submission_id docs correlation_id now ∷ [];
  }

  pub has_submission : (s : Store) → has submission_id (with_submission s).submissions ≡ true
  has_submission s = ground (arith, lookup-insert_self submission_id submission s.submissions)

  ingest_body_lem :
      (s : Store)
      → has submission_id s.submissions ≡ false
      → AllNew bidder_id submission_id now docs s.documents
      → any (λ e. e.event_id == audit_id) s.audit_events ≡ false
      → has outbox_id s.outbox ≡ false
      → ingest_body bidder_id submission_id docs correlation_id audit_id outbox_id now s
        ≡ (ingested_store s, ok submission)
  unfolding ingest_body audit_event
  ingest_body_lem s new fresh audit event =
      and_then_ok _ _ _ _ (ensure_bidder_lem bidder_id now s)
      ∙ call_ok _ _ _ _ (
          add_submission_lem submission (with_bidder s) (bidders_with-has bidder_id now s.bidders)
            new)
      ∙ and_then_ok _ _ _ _ (
          add_documents_lem bidder_id submission_id now docs (with_submission s)
            (bidders_with-has bidder_id now s.bidders) (has_submission s) fresh)
      ∙ call_ok _ _ _ _ (
          add_audit-fresh (with_its_documents s)
            (ingested_event audit_id bidder_id submission_id docs correlation_id now) audit)
      ∙ call_ok _ _ _ _
          (add_outbox_lem (ingested_outbox outbox_id submission_id now) (with_audit s) event)

  -- A submission is ingested when its ID, those of its documents and those of the two events are new,
  -- whether or not the bidder is known: the call returns the submission, in the stage INGESTED, and
  -- keeps it with the bidder, every document, the audit event and an unpublished outbox event; the
  -- other tables are as they were.
  pub ingest_succeeds :
      (s : Store)
      → has submission_id s.submissions ≡ false
      → AllNew bidder_id submission_id now docs s.documents
      → any (λ e. e.event_id == audit_id) s.audit_events ≡ false
      → has outbox_id s.outbox ≡ false
      → ingest_submission bidder_id submission_id docs correlation_id audit_id outbox_id now s
        ≡ (ingested_store s, ok (new_submission bidder_id submission_id correlation_id now))
  unfolding ingest_submission
  ingest_succeeds s new fresh audit event =
      settle_ok _ s _ _ (ingest_body_lem s new fresh audit event)
