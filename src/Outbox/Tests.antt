-- ===== src/Outbox/Tests.antt =====
-- A round at a concrete store.
use core_engine_ge_m.Base.{
  ℕ, zero, ◌≡◌, ◌≤◌, refl, String, Bool, true, false, none, some, [], ◌∷◌, lookup, insert,
  string_eq, ok,
}
use core_engine_ge_m.Store.{Store, empty_store}
use core_engine_ge_m.Store.Records.{OutboxEventRecord}
use core_engine_ge_m.Store.Events.{
  list_unpublished, sorted, insert_event, first_events, record_attempt, attempted, mark_published,
  publish,
}
use core_engine_ge_m.Processing.{and_then, call, transact}
use core_engine_ge_m.Processing.Transactions.{within, entered, begin, exit, commit, rollback}
use core_engine_ge_m.Outbox.{relay, publish_pending}
use core_engine_ge_m.Outbox.Relay.{accepted, publish_pending_returns}

abbrev event : String → ℕ → OutboxEventRecord
event id at = record {
  event_id = id;
  aggregate_type = "SUBMISSION";
  aggregate_id = "S1";
  event_type = "SUBMISSION_INGESTED";
  payload = [];
  created_at = at;
  published_at = none;
  attempts = 0;
}

abbrev two_events : Store
two_events = record empty_store {
  outbox = ("evt:1", event "evt:1" 7) ∷ ("evt:2", event "evt:2" 5) ∷ [];
}

-- The sink raises at the first event of the round, which is the older one.
abbrev first_raises : ℕ → OutboxEventRecord → Bool
first_raises zero e = true
first_raises _ e = false

abbrev at_nine : ℕ → ℕ
at_nine n = 9

code : Unit {0}
unfolding lookup insert list_unpublished sorted insert_event first_events record_attempt attempted
    mark_published publish and_then call transact within entered begin exit commit rollback relay
    publish_pending
code = tt

one_relayed :
    (publish_pending first_raises at_nine 100 two_events).0.outbox
    ≡ ("evt:1", record (event "evt:1" 7) { published_at = some 9; attempts = 1 })
      ∷ ("evt:2", record (event "evt:2" 5) { attempts = 1 })
      ∷ []
unfolding code
one_relayed = refl

publish_pending_returns_example :
    (m : ℕ) × ((publish_pending first_raises at_nine 100 two_events).1 ≡ ok m)
    × (m ≤ accepted first_raises at_nine 0 (list_unpublished 100 two_events))
    × ((publish_pending first_raises at_nine 100 two_events).0
        ≡ (relay first_raises at_nine 0 (list_unpublished 100 two_events) 0 two_events).0)
publish_pending_returns_example =
    publish_pending_returns first_raises at_nine 100 two_events (refl, (refl, tt))
