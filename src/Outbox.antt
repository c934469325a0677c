-- ===== src/Outbox.antt =====
-- src/infrastructure/outbox.py: `OutboxPublisher`, which relays the events of the outbox. The sink is a
-- parameter: for the event and its place in the round, whether it raises.
pub mod Relay
mod Tests
use core_engine_ge_m.Base.{
  ℕ, zero, suc, ◌+◌, String, Bool, true, false, Option, none, some, List, [], ◌∷◌, Outcome, ok,
  raised, if◌then◌else◌,
}
use core_engine_ge_m.Store.{Store, StoreError}
use core_engine_ge_m.Store.Records.{OutboxEventRecord}
use core_engine_ge_m.Store.Events.{list_unpublished, record_attempt, mark_published}
use core_engine_ge_m.Processing.{ProcessingError, Body, and_then, call, transact}
use core_engine_ge_m.Processing.Transactions.{Failed}

-- `published += 1` when the event was marked.
abbrev pub tally : Bool → ℕ → ℕ
tally true published = published + 1
tally false published = published

module _ (raises : ℕ → OutboxEventRecord → Bool) (clock : ℕ → ℕ) where
  -- The loop over the events, from the place `n` of the round.
  unfoldable pub relay : ℕ → List OutboxEventRecord → ℕ → Body ℕ
  relay n [] published s = (s, ok published)
  relay n (event ∷ events) published s = elim (raises n event) [
    | true ↦
        and_then (call (record_attempt event.event_id s)) (λ _ t. relay (suc n) events published t)
    | false ↦
        and_then (call (mark_published event.event_id (clock n) s))
          (λ marked t. relay (suc n) events (tally marked published) t)
  ]

  unfoldable pub publish_pending : ℕ → Store → Store × Outcome (Failed ProcessingError) ℕ
  publish_pending limit s = transact (λ t. relay 0 (list_unpublished limit t) 0 t) s
