-- ===== src/Processing/Atomic.antt =====
-- A call of the coordinator as a whole: its writes are kept together or not at all, and what holds of
-- the store between calls of the repositories holds between its calls.
use core_engine_ge_m.Base.{
  ◌≡◌, refl, String, Option, none, some, List, [], ◌∷◌, Outcome, ok, raised, sym, ap, subst, ℕ,
}
use core_engine_ge_m.Store.{Store, StoreError}
use core_engine_ge_m.Store.Entities.{add_bidder, add_submission, add_document, get_bidder}
use core_engine_ge_m.Store.Events.{add_audit, add_outbox}
use core_engine_ge_m.Store.Records.{
  BidderRecord, SubmissionRecord, DocumentRecord, AuditEventRecord, OutboxEventRecord,
}
use core_engine_ge_m.Processing.{ProcessingError, Body, and_then, call, transact}
use core_engine_ge_m.Processing.Transactions.{from_body, within_lem, settled, wrapped}
use core_engine_ge_m.Processing.Ingest.{
  register_body, register_bidder, ensure_bidder, add_documents, ingest_body, ingest_submission,
  IngestedDocument,
}

pub transact_lem :
    {A : Type 0} (body : Body A) (s : Store)
    → transact body s ≡ ((settled s (body s)).0, wrapped (body s).1)
unfolding transact
transact_lem body s = ap (λ p. (p.0.store, p.1)) (within_lem body s none).0

pub settled_ok :
    {A : Type 0} (s : Store) (c : Store × Outcome ProcessingError A) (t : Store) (a : A)
    → c ≡ (t, ok a)
    → ((settled s c).0 ≡ t) × (wrapped c.1 ≡ ok a)
settled_ok s c t a e = rw e (refl, refl)

pub settled_raised :
    {A : Type 0} (s : Store) (c : Store × Outcome ProcessingError A) (t : Store)
    (x : ProcessingError)
    → c ≡ (t, raised x)
    → ((settled s c).0 ≡ s) × (wrapped c.1 ≡ raised (from_body x))
settled_raised s c t x e = rw e (refl, refl)

-- What holds of the store that a call leaves, whether it raises or not.
pub record Leaves {A : Type 0} (P : Store → Type 0) (c : Store × Outcome ProcessingError A)
    : Type 0 where
  pub holds : P c.0

pub and_then-Leaves :
    {A B : Type 0} (P : Store → Type 0) (c : Store × Outcome ProcessingError A) (f : A → Body B)
    → Leaves P c
    → ((a : A) (t : Store) → P t → Leaves P (f a t))
    → Leaves P (and_then c f)
unfolding and_then
and_then-Leaves P (t, ok a) f l rest = rest a t l.holds
and_then-Leaves P (t, raised e) f l rest = record { holds = l.holds }

pub call-Leaves :
    {A : Type 0} (P : Store → Type 0) (c : Store × Outcome StoreError A) → P c.0 → Leaves P (call c)
unfolding call
call-Leaves P (t, ok a) p = record { holds = p }
call-Leaves P (t, raised e) p = record { holds = p }

pub transact-keeps :
    {A : Type 0} (P : Store → Type 0) (body : Body A) (s : Store)
    → P s
    → Leaves P (body s)
    → P (transact body s).0
transact-keeps {A} P body s before l =
    subst (λ c. P c.0) (sym (transact_lem body s)) (split (body s) l.holds)
  where
    split : (c : Store × Outcome ProcessingError A) → P c.0 → P (settled s c).0
    split (t, ok a) p = p
    split (t, raised e) p = before

-- What each call that the coordinator makes keeps of the store.
pub record KeptByCalls (P : Store → Type 0) : Type 0 where
  pub adds_bidder : (r : BidderRecord) (s : Store) → P s → P (add_bidder r s).0
  pub adds_submission :
      (r : SubmissionRecord) (s : Store) → r.stage ≡ "INGESTED" → P s → P (add_submission r s).0
  pub adds_document : (r : DocumentRecord) (s : Store) → P s → P (add_document r s).0
  pub adds_audit : (r : AuditEventRecord) (s : Store) → P s → P (add_audit r s).0
  pub adds_outbox : (r : OutboxEventRecord) (s : Store) → P s → P (add_outbox r s).0

module _ (P : Store → Type 0) (kept : KeptByCalls P) where
  register_body-Leaves :
      (bidder_id event_id : String) (now : ℕ) (o : Option BidderRecord) (s : Store)
      → P s
      → Leaves P (register_body bidder_id event_id now o s)
  unfolding register_body
  register_body-Leaves bidder_id event_id now (some b) s p = record { holds = p }
  register_body-Leaves bidder_id event_id now none s p =
      and_then-Leaves P _ _ (call-Leaves P _ (kept.adds_bidder _ s p)) (λ a t p.
        and_then-Leaves P _ _ (call-Leaves P _ (kept.adds_audit _ t p))
          (λ b u p. record { holds = p }))

  ensure_bidder-Leaves :
      (bidder_id : String) (now : ℕ) (o : Option BidderRecord) (s : Store)
      → P s
      → Leaves P (ensure_bidder bidder_id now o s)
  unfolding ensure_bidder
  ensure_bidder-Leaves bidder_id now (some b) s p = record { holds = p }
  ensure_bidder-Leaves bidder_id now none s p =
      and_then-Leaves P _ _ (call-Leaves P _ (kept.adds_bidder _ s p))
        (λ a t p. record { holds = p })

  add_documents-Leaves :
      (bidder_id submission_id : String) (now : ℕ) (docs : List IngestedDocument) (s : Store)
      → P s
      → Leaves P (add_documents bidder_id submission_id now docs s)
  unfolding add_documents
  add_documents-Leaves bidder_id submission_id now [] s p = record { holds = p }
  add_documents-Leaves bidder_id submission_id now (doc ∷ docs) s p =
      and_then-Leaves P _ _ (call-Leaves P _ (kept.adds_document _ s p))
        (λ a t p. add_documents-Leaves bidder_id submission_id now docs t p)

  pub register_bidder-keeps :
      (bidder_id event_id : String) (now : ℕ) (s : Store)
      → P s
      → P (register_bidder bidder_id event_id now s).0
  unfolding register_bidder
  register_bidder-keeps bidder_id event_id now s p =
      transact-keeps P _ s p
        (register_body-Leaves bidder_id event_id now (get_bidder bidder_id s) s p)

  module _ (bidder_id submission_id : String) (docs : List IngestedDocument)
      (correlation_id : Option String) (audit_id outbox_id : String) (now : ℕ) where
    ingest_body-Leaves :
        (s : Store)
        → P s
        → Leaves P
            (ingest_body bidder_id submission_id docs correlation_id audit_id outbox_id now s)
    unfolding ingest_body
    ingest_body-Leaves s p =
        and_then-Leaves P _ _ (ensure_bidder-Leaves bidder_id now (get_bidder bidder_id s) s p)
          (λ a t p.
            and_then-Leaves P _ _ (call-Leaves P _ (kept.adds_submission _ t refl p)) (λ b u p.
              and_then-Leaves P _ _ (add_documents-Leaves bidder_id submission_id now docs u p)
                (λ c v p. and_then-Leaves P _ _ (call-Leaves P _ (kept.adds_audit _ v p)) (λ d w p.
                  and_then-Leaves P _ _ (call-Leaves P _ (kept.adds_outbox _ w p))
                    (λ e x p. record { holds = p })))))

    pub ingest_submission-keeps :
        (s : Store)
        → P s
        → P
            (ingest_submission bidder_id submission_id docs correlation_id audit_id outbox_id now
              s).0
    unfolding ingest_submission
    ingest_submission-keeps s p = transact-keeps P _ s p (ingest_body-Leaves s p)
