-- ===== src/Store/Trace/Kept.antt =====
-- What no call on the repositories undoes.
use core_engine_ge_m.Base.{
  ℕ, ◌≡◌, refl, String, true, false, Option, none, some, List, [], ◌∷◌, ◌++◌, Map, lookup, insert,
  lookup-insert, lookup-insert_self, ok, ◌==◌, string_eq, ==-eq, Bool-cases, Option-cases, inl, inr,
  arith, sym, ap, ◌∙◌, subst,
}
use core_engine_ge_m.Store.{Store, has, is_some}
use core_engine_ge_m.Store.Records.{AuditEventRecord, OutboxEventRecord}
use core_engine_ge_m.Store.Events.{publish, mark_published}
use core_engine_ge_m.Store.Linked.{IsLinked}
use core_engine_ge_m.Store.Trace.{
  publishes, Reach, here, next, Write, nothing, bidder, submission, document, evidence,
  verification, result, finding, explanation, job, audit, event, event_again, state, snapshot,
}
use core_engine_ge_m.Store.Trace.Checks.{Step-Write, Reach-IsLinked}

-- The rows of the first table stand unchanged in the second.
abbrev pub Keeps : {V : Type 0} → Map String V → Map String V → Type 0
Keeps s t = (k : String) (v : _) → lookup k s ≡ some v → lookup k t ≡ some v

abbrev pub PublishedAt : ℕ → Option OutboxEventRecord → Type 0
PublishedAt at none = ⊥
PublishedAt at (some e) = e.published_at ≡ some at

-- An event that is published stays so, with the time it was published at.
abbrev pub KeepsPublished : Map String OutboxEventRecord → Map String OutboxEventRecord → Type 0
KeepsPublished s t =
    (k : String) (at : ℕ) → PublishedAt at (lookup k s) → PublishedAt at (lookup k t)

pub record Kept (s t : Store) : Type 0 where
  pub audited : (more : List AuditEventRecord) × (t.audit_events ≡ s.audit_events ++ more)
  pub bidders : Keeps s.bidders t.bidders
  pub documents : Keeps s.documents t.documents
  pub evidence : Keeps s.evidence t.evidence
  pub published : KeepsPublished s.outbox t.outbox

append_nil : {A : Type 0} (xs : List A) → xs ++ [] ≡ xs
append_nil [] = refl
append_nil (x ∷ xs) = ap (λ l. x ∷ l) (append_nil xs)

append_assoc : {A : Type 0} (xs ys zs : List A) → (xs ++ ys) ++ zs ≡ xs ++ (ys ++ zs)
append_assoc [] ys zs = refl
append_assoc (x ∷ xs) ys zs = ap (λ l. x ∷ l) (append_assoc xs ys zs)

Keeps-insert :
    {V : Type 0} (k : String) (v : V) (s : Map String V) → has k s ≡ false → Keeps s (insert k v s)
Keeps-insert k v s new j w e = elim (Bool-cases (k == j)) [
  | inl same ↦ ground (arith, ==-eq k j same)
  | inr other ↦ ground (arith, lookup-insert k j v s)
]

published_insert :
    (k : String) (e : OutboxEventRecord) (s : Map String OutboxEventRecord)
    → ((at : ℕ) → PublishedAt at (lookup k s) → e.published_at ≡ some at)
    → KeepsPublished s (insert k e s)
published_insert k e s h j at p = elim (Bool-cases (k == j)) [
  | inl same ↦
      rw (lookup-insert k j e s, same)
        (h at (subst (λ i. PublishedAt at (lookup i s)) (sym (==-eq k j same)) p))
  | inr other ↦ rw (lookup-insert k j e s, other) p
]

same_log : (s : Store) → (more : List AuditEventRecord) × (s.audit_events ≡ s.audit_events ++ more)
same_log s = ([], sym (append_nil s.audit_events))

-- A write to the other tables.
Kept-else :
    (s t : Store)
    → t.audit_events ≡ s.audit_events
    → t.bidders ≡ s.bidders
    → t.documents ≡ s.documents
    → t.evidence ≡ s.evidence
    → t.outbox ≡ s.outbox
    → Kept s t
Kept-else s t a b d e o = record {
  audited = ([], a ∙ sym (append_nil s.audit_events));
  bidders = λ k v f. subst (λ x. lookup k x ≡ some v) (sym b) f;
  documents = λ k v f. subst (λ x. lookup k x ≡ some v) (sym d) f;
  evidence = λ k v f. subst (λ x. lookup k x ≡ some v) (sym e) f;
  published = λ k at p. subst (λ x. PublishedAt at (lookup k x)) (sym o) p;
}

Kept-trans : (s t u : Store) → Kept s t → Kept t u → Kept s u
Kept-trans s t u a b = record {
  audited = (
    a.audited.0 ++ b.audited.0,
    b.audited.1
        ∙ ap (λ l. l ++ b.audited.0) a.audited.1
        ∙ append_assoc s.audit_events a.audited.0 b.audited.0,
  );
  bidders = λ k v e. b.bidders k v (a.bidders k v e);
  documents = λ k v e. b.documents k v (a.documents k v e);
  evidence = λ k v e. b.evidence k v (a.evidence k v e);
  published = λ k at p. b.published k at (a.published k at p);
}

absent_unpublished :
    (k : String) (s : Map String OutboxEventRecord) (e : OutboxEventRecord)
    → has k s ≡ false
    → (at : ℕ) → PublishedAt at (lookup k s)
    → e.published_at ≡ some at
absent_unpublished k s e new at p = elim (Option-cases (lookup k s)) [
  | inl none' ↦ absurd (rw none' at p)
  | inr (r, found) ↦ ground arith
]

Write-Kept : {s t : Store} → Write s t → Kept s t
Write-Kept {s} {t} nothing = Kept-else s t refl refl refl refl refl
Write-Kept {s} {t} (submission r b) = Kept-else s t refl refl refl refl refl
Write-Kept {s} {t} (verification r b e d) = Kept-else s t refl refl refl refl refl
Write-Kept {s} {t} (result r b) = Kept-else s t refl refl refl refl refl
Write-Kept {s} {t} (finding r b) = Kept-else s t refl refl refl refl refl
Write-Kept {s} {t} (explanation r b f) = Kept-else s t refl refl refl refl refl
Write-Kept {s} {t} (job r) = Kept-else s t refl refl refl refl refl
Write-Kept {s} {t} (state r b) = Kept-else s t refl refl refl refl refl
Write-Kept {s} {t} (snapshot r b) = Kept-else s t refl refl refl refl refl
Write-Kept {s} (bidder r new) = record {
  audited = same_log s;
  bidders = Keeps-insert r.bidder_id r s.bidders new;
  documents = λ k v e. e;
  evidence = λ k v e. e;
  published = λ k at p. p;
}
Write-Kept {s} (document r b new m) = record {
  audited = same_log s;
  bidders = λ k v e. e;
  documents = Keeps-insert r.document_id r s.documents new;
  evidence = λ k v e. e;
  published = λ k at p. p;
}
Write-Kept {s} (evidence r b d new) = record {
  audited = same_log s;
  bidders = λ k v e. e;
  documents = λ k v e. e;
  evidence = Keeps-insert r.evidence_id r s.evidence new;
  published = λ k at p. p;
}
Write-Kept {s} (audit r) = record {
  audited = (r ∷ [], refl);
  bidders = λ k v e. e;
  documents = λ k v e. e;
  evidence = λ k v e. e;
  published = λ k at p. p;
}
Write-Kept {s} (event r new) = record {
  audited = same_log s;
  bidders = λ k v e. e;
  documents = λ k v e. e;
  evidence = λ k v e. e;
  published = published_insert r.event_id r s.outbox (absent_unpublished r.event_id s.outbox r new);
}
Write-Kept {s} (event_again event_id old new found keeps) = record {
  audited = same_log s;
  bidders = λ k v e. e;
  documents = λ k v e. e;
  evidence = λ k v e. e;
  published = published_insert event_id new s.outbox (λ at p. keeps at (rw found at p));
}

-- From a store whose references hold, whatever is called on the repositories, a submission that is
-- saved again keeping its bidder: the audit log is only appended to, no row of the bidders, the
-- documents or the evidence is lost or changed, and an outbox event that was published keeps the
-- time it was published at.
pub Reach-Kept : {s t : Store} → IsLinked s → Reach s t → Kept s t
Reach-Kept {s} l here = Kept-else s s refl refl refl refl refl
Reach-Kept {s} {t} l (next {t = m} path step) =
    Kept-trans s m t (Reach-Kept l path) (Write-Kept (Step-Write step (Reach-IsLinked l path)))

published_blocks :
    (event_id : String) (at then_ : ℕ) (s : Store) (o : Option OutboxEventRecord)
    → lookup event_id s.outbox ≡ o
    → PublishedAt then_ o
    → publish event_id at s o ≡ (s, ok false)
unfolding publish
published_blocks event_id at then_ s none e p = absurd p
published_blocks event_id at then_ s (some r) e p = rw p refl

publish-true :
    (event_id : String) (at : ℕ) (s : Store) (o : Option OutboxEventRecord)
    → (publish event_id at s o).1 ≡ ok true
    → PublishedAt at (lookup event_id (publish event_id at s o).0.outbox)
unfolding publish
publish-true event_id at s none h = ground arith
publish-true event_id at s (some r) h = elim (Bool-cases (is_some r.published_at)) [
  | inl done ↦ absurd (ground (arith, rw done at h))
  | inr first ↦ rw (first, lookup-insert_self event_id _ s.outbox) refl
]

-- An outbox event is published once: in a store whose references hold, after a call of
-- `mark_published` that returned `True`, and any calls on the repositories since, another one for the
-- event returns `False` and changes nothing.
pub published_once :
    (s t : Store) (event_id : String) (at later : ℕ)
    → IsLinked s
    → (mark_published event_id at s).1 ≡ ok true
    → Reach (mark_published event_id at s).0 t
    → mark_published event_id later t ≡ (t, ok false)
unfolding mark_published
published_once s t event_id at later l done path =
    published_blocks event_id later at t (lookup event_id t.outbox) refl (
      (Reach-Kept (Reach-IsLinked l (next here (publishes event_id at))) path).published event_id at
        (publish-true event_id at s (lookup event_id s.outbox) done))
