-- ===== src/Outbox/Relay.antt =====
-- What a round of the publisher does to each event.
use core_engine_ge_m.Base.{
  ℕ, zero, suc, ◌+◌, ◌≤◌, ◌≡◌, refl, ap, ◌∙◌, subst, String, Bool, true, false, List, [], ◌∷◌, Map,
  lookup, insert, values, lookup-insert, ◌==◌, string_eq, ==-self, Outcome, ok, raised,
  if◌then◌else◌, Bool-cases, Option-cases, inl, inr, arith, All, All-select,
}
use core_engine_ge_m.Store.{Store, StoreError, is_some, has}
use core_engine_ge_m.Store.Records.{OutboxEventRecord}
use core_engine_ge_m.Store.Events.{
  list_unpublished, sorted, insert_event, sorts_before, first_events, record_attempt, attempted,
  mark_published, publish,
}
use core_engine_ge_m.Processing.{ProcessingError, Body, and_then, call}
use core_engine_ge_m.Processing.Transactions.{settled, wrapped}
use core_engine_ge_m.Processing.Atomic.{transact_lem}
use core_engine_ge_m.Outbox.{tally, relay, publish_pending}

-- An event stands in the outbox under its own ID.
abbrev pub Held : Store → OutboxEventRecord → Type 0
Held s e = has e.event_id s.outbox ≡ true

has_kept :
    (k j : String) (e : OutboxEventRecord) (m : Map String OutboxEventRecord)
    → has j m ≡ true
    → has j (insert k e m) ≡ true
has_kept k j e m h = elim (Bool-cases (k == j)) [
  | inl same ↦ rw (lookup-insert k j e m, same) refl
  | inr other ↦ rw (lookup-insert k j e m, other) h
]

-- A call of the loop returns, and loses no event.
record Returns {A : Type 0} (s : Store) (c : Store × Outcome StoreError A) : Type 0 where
  pub answer : A
  pub returned : c.1 ≡ ok answer
  pub keeps : (j : String) → has j s.outbox ≡ true → has j c.0.outbox ≡ true

record_attempt-Returns :
    (s : Store) (e : OutboxEventRecord) → Held s e → Returns s (record_attempt e.event_id s)
unfolding record_attempt attempted
record_attempt-Returns s e h = elim (Option-cases (lookup e.event_id s.outbox)) [
  | inl none' ↦ absurd (ground (arith, h))
  | inr (r, found) ↦
      rw found
        (record { answer = tt; returned = refl; keeps = λ j k. has_kept e.event_id j _ s.outbox k })
]

mark_published-Returns :
    (s : Store) (e : OutboxEventRecord) (at : ℕ)
    → Held s e
    → Returns s (mark_published e.event_id at s)
unfolding mark_published publish
mark_published-Returns s e at h = elim (Option-cases (lookup e.event_id s.outbox)) [
  | inl none' ↦ absurd (ground (arith, h))
  | inr (r, found) ↦ elim (Bool-cases (is_some r.published_at)) [
    | inl already ↦
        rw (found, already) (record { answer = false; returned = refl; keeps = λ j k. k })
    | inr first ↦
        rw (found, first)
          (record {
            answer = true;
            returned = refl;
            keeps = λ j k. has_kept e.event_id j _ s.outbox k;
          })
  ]
]

Held-All :
    (s t : Store) (events : List OutboxEventRecord)
    → ((j : String) → has j s.outbox ≡ true → has j t.outbox ≡ true)
    → All (Held s) events
    → All (Held t) events
Held-All s t [] keeps h = tt
Held-All s t (e ∷ events) keeps h = (keeps e.event_id h.0, Held-All s t events keeps h.1)

-- Every entry is found by its key.
has_own :
    (m rest : Map String OutboxEventRecord)
    → ((j : String) → has j rest ≡ true → has j m ≡ true)
    → All (λ e. e.0 ≡ e.1.event_id) rest
    → All (λ e. has e.event_id m ≡ true) (values rest)
unfolding lookup
has_own m [] up named = tt
has_own m (entry ∷ rest) up named = (
  subst (λ k. has k m ≡ true) named.0 (up entry.0 (ground (arith, ==-self entry.0))),
  has_own m rest (λ j h. up j (ground arith)) named.1,
)

module _ (P : OutboxEventRecord → Type 0) where
  All-insert_event :
      (x : OutboxEventRecord) (xs : List OutboxEventRecord)
      → P x
      → All P xs
      → All P (insert_event x xs)
  unfolding insert_event
  All-insert_event x [] p h = (p, tt)
  All-insert_event x (y ∷ ys) p h = elim (Bool-cases (sorts_before y x)) [
    | inl later ↦ rw later (h.0, All-insert_event x ys p h.1)
    | inr now ↦ rw now (p, h)
  ]

  All-sorted : (xs : List OutboxEventRecord) → All P xs → All P (sorted xs)
  unfolding sorted
  All-sorted [] h = tt
  All-sorted (x ∷ xs) h = All-insert_event x (sorted xs) h.0 (All-sorted xs h.1)

  All-first_events : (n : ℕ) (xs : List OutboxEventRecord) → All P xs → All P (first_events n xs)
  unfolding first_events
  All-first_events zero xs h = tt
  All-first_events (suc n) [] h = tt
  All-first_events (suc n) (x ∷ xs) h = (h.0, All-first_events n xs h.1)

-- Every event of the outbox stands under its own ID.
abbrev pub IsNamed : Store → Type 0
IsNamed s = All (λ e. e.0 ≡ e.1.event_id) s.outbox

list_unpublished-Held :
    (limit : ℕ) (s : Store) → IsNamed s → All (Held s) (list_unpublished limit s)
unfolding list_unpublished
list_unpublished-Held limit s named = All-first_events (Held s) limit _ (
    All-sorted (Held s) _
      (All-select (Held s) _ (values s.outbox) (has_own s.outbox s.outbox (λ j h. h) named)))

settled_kept :
    (s : Store) (c : Store × Outcome ProcessingError ℕ) (m : ℕ) → c.1 ≡ ok m → (settled s c).0 ≡ c.0
settled_kept s (t, ok a) m e = refl
settled_kept s (t, raised x) m e = ground arith

module _ (raises : ℕ → OutboxEventRecord → Bool) (clock : ℕ → ℕ) where
  -- How many of the events the sink takes.
  abbrev pub accepted : ℕ → List OutboxEventRecord → ℕ
  accepted n [] = 0
  accepted n (e ∷ events) =
      let rest = accepted (suc n) events in if raises n e then rest else suc rest

  abbrev Counts : ℕ → Outcome ProcessingError ℕ → Type 0
  Counts bound o = (m : ℕ) × (o ≡ ok m) × (m ≤ bound)

  then-Counts :
      {A : Type 0} (s : Store) (c : Store × Outcome StoreError A) (f : A → Body ℕ) (bound : ℕ)
      → Returns s c
      → ((a : A) → Counts bound (f a c.0).1)
      → Counts bound (and_then (call c) f).1
  unfolding and_then call
  then-Counts s (t, ok a) f bound r h = h a
  then-Counts s (t, raised e) f bound r h = ground (arith, r.returned)

  widen : (a b : ℕ) (o : Outcome ProcessingError ℕ) → a ≤ b → Counts a o → Counts b o
  widen a b o le (m, e, h) = (m, e, omega arith)

  relay-fails :
      (n : ℕ) (e : OutboxEventRecord) (events : List OutboxEventRecord) (published : ℕ) (s : Store)
      → raises n e ≡ true
      → relay raises clock n (e ∷ events) published s
        ≡ and_then
            (call (record_attempt e.event_id s))
            (λ _ t. relay raises clock (suc n) events published t)
  unfolding relay
  relay-fails n e events published s h = ground arith

  relay-takes :
      (n : ℕ) (e : OutboxEventRecord) (events : List OutboxEventRecord) (published : ℕ) (s : Store)
      → raises n e ≡ false
      → relay raises clock n (e ∷ events) published s
        ≡ and_then
            (call (mark_published e.event_id (clock n) s))
            (λ marked t. relay raises clock (suc n) events (tally marked published) t)
  unfolding relay
  relay-takes n e events published s h = ground arith

  relay-empty :
      (n published : ℕ) (s : Store) → (relay raises clock n [] published s).1 ≡ ok published
  unfolding relay
  relay-empty n published s = refl

  relay-Counts :
      (n : ℕ) (events : List OutboxEventRecord) (published : ℕ) (s : Store)
      → All (Held s) events
      → Counts (published + accepted n events) (relay raises clock n events published s).1
  relay-Counts n [] published s h = (published, relay-empty n published s, omega arith)
  relay-Counts n (e ∷ events) published s h = elim (Bool-cases (raises n e)) [
    | inl fails ↦
        let r : Returns s (record_attempt e.event_id s) = record_attempt-Returns s e h.0 in
        rw (relay-fails n e events published s fails, fails)
          (then-Counts s (record_attempt e.event_id s)
            (λ _ t. relay raises clock (suc n) events published t)
            (published + accepted (suc n) events) r
            (λ a.
              relay-Counts (suc n) events published (record_attempt e.event_id s).0
                (Held-All s (record_attempt e.event_id s).0 events r.keeps h.1)))
    | inr taken ↦
        let r : Returns s (mark_published e.event_id (clock n) s) =
          mark_published-Returns s e (clock n) h.0 in
        rw (relay-takes n e events published s taken, taken)
          (then-Counts s (mark_published e.event_id (clock n) s)
            (λ marked t. relay raises clock (suc n) events (tally marked published) t)
            (published + suc (accepted (suc n) events)) r
            (λ marked.
              widen (tally marked published + accepted (suc n) events)
                (published + suc (accepted (suc n) events)) _ (ground arith)
                (relay-Counts (suc n) events (tally marked published)
                  (mark_published e.event_id (clock n) s).0
                  (Held-All s (mark_published e.event_id (clock n) s).0 events r.keeps h.1))))
  ]

  -- A round of the publisher never raises, whatever the sink does, when every event of the outbox
  -- stands under its own ID: it returns a count, which is no more than the number of the listed
  -- events that the sink took, and what it wrote is kept.
  pub publish_pending_returns :
      (limit : ℕ) (s : Store)
      → IsNamed s
      → (m : ℕ) × ((publish_pending raises clock limit s).1 ≡ ok m)
        × (m ≤ accepted 0 (list_unpublished limit s))
        × ((publish_pending raises clock limit s).0
            ≡ (relay raises clock 0 (list_unpublished limit s) 0 s).0)
  unfolding publish_pending
  publish_pending_returns limit s named =
      let (m, e, le) =
        relay-Counts 0 (list_unpublished limit s) 0 s (list_unpublished-Held limit s named) in
      (
        m,
        ap (λ c. c.1) (transact_lem (λ t. relay raises clock 0 (list_unpublished limit t) 0 t) s)
            ∙ ap wrapped e,
        omega (arith, le),
        ap (λ c. c.0) (transact_lem (λ t. relay raises clock 0 (list_unpublished limit t) 0 t) s)
            ∙ settled_kept s _ m e,
      )
