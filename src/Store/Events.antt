-- ===== src/Store/Events.antt =====
-- src/infrastructure/persistence/memory.py: the repositories of jobs, of the audit log, of the outbox
-- and of the flags.
use Prim.Native.String.{compare}
use Prim.Native.Nat.{Ordering}
use core_engine_ge_m.Base.{
  ℕ, zero, suc, ◌+◌, String, Bool, true, false, not, ◌&&◌, ◌||◌, Option, none, some, List, [], ◌∷◌,
  ◌++◌, lookup, insert, values, select, any, ◌==◌, string_eq, pair_eq, ok, if◌then◌else◌, ltb,
  nat_eq,
}
use core_engine_ge_m.Jobs.Durable.{JobRecord, index_key}
use core_engine_ge_m.Store.{Store, Call, has, missing, duplicate, is_some}
use core_engine_ge_m.Store.Entities.{is_at}
use core_engine_ge_m.Store.Records.{
  AuditEventRecord, OutboxEventRecord, FlagStateRecord, FlagSnapshotRecord,
}

-- `InMemoryJobRepository`
unfoldable pub save_job : JobRecord → Store → Store
save_job r s = record s {
  jobs = insert r.job_id r s.jobs;
  jobs_by_idem = index_key r.idempotency_key r.job_id s.jobs_by_idem;
}

unfoldable pub get_job : String → Store → Option JobRecord
get_job id s = lookup id s.jobs

unfoldable pub job_at : Option String → Store → Option JobRecord
job_at none s = none
job_at (some id) s = lookup id s.jobs

unfoldable pub job_by_idempotency_key : String → Store → Option JobRecord
unfolding job_at
job_by_idempotency_key key s = job_at (lookup key s.jobs_by_idem) s

unfoldable pub jobs_by_submission : String → Store → List JobRecord
jobs_by_submission submission_id s =
    select (λ r. is_at r.submission_id submission_id) (values s.jobs)

-- `InMemoryAuditRepository`
unfoldable pub add_audit : AuditEventRecord → Store → Call AuditEventRecord
add_audit r s =
    if any (λ e. e.event_id == r.event_id) s.audit_events
    then duplicate s
    else (record s { audit_events = s.audit_events ++ r ∷ [] }, ok r)

unfoldable pub audit_for : String → String → Store → List AuditEventRecord
audit_for aggregate_type aggregate_id s =
    select (λ e. e.aggregate_type == aggregate_type && e.aggregate_id == aggregate_id)
      s.audit_events

unfoldable pub audit_by_correlation : String → Store → List AuditEventRecord
audit_by_correlation correlation_id s =
    select (λ e. is_at e.correlation_id correlation_id) s.audit_events

-- `InMemoryOutboxRepository`
unfoldable pub add_outbox : OutboxEventRecord → Store → Call OutboxEventRecord
add_outbox r s =
    if has r.event_id s.outbox
    then duplicate s
    else (record s { outbox = insert r.event_id r s.outbox }, ok r)

-- `(e.created_at, e.event_id)` in the order of tuples
abbrev pub string_ltb : String → String → Bool
string_ltb a b = elim (compare a b) [ Ordering.lt ↦ true | _ ↦ false ]

abbrev pub sorts_before : OutboxEventRecord → OutboxEventRecord → Bool
sorts_before a b =
    ltb a.created_at b.created_at
    || a.created_at == b.created_at && string_ltb a.event_id b.event_id

unfoldable pub insert_event : OutboxEventRecord → List OutboxEventRecord → List OutboxEventRecord
insert_event e [] = e ∷ []
insert_event e (f ∷ events) =
    let rest = insert_event e events in if sorts_before f e then f ∷ rest else e ∷ f ∷ events

-- `sorted`, which is stable: the last of the list goes in first, before its equals.
unfoldable pub sorted : List OutboxEventRecord → List OutboxEventRecord
unfolding insert_event
sorted [] = []
sorted (e ∷ events) = insert_event e (sorted events)

-- `events[:limit]`
unfoldable pub first_events : ℕ → List OutboxEventRecord → List OutboxEventRecord
first_events zero events = []
first_events (suc n) [] = []
first_events (suc n) (e ∷ events) = e ∷ first_events n events

unfoldable pub list_unpublished : ℕ → Store → List OutboxEventRecord
unfolding sorted first_events
list_unpublished limit s =
    first_events limit (sorted (select (λ e. not (is_some e.published_at)) (values s.outbox)))

unfoldable pub attempted : String → Store → Option OutboxEventRecord → Call Unit
attempted event_id s none = missing s
attempted event_id s (some rec) = (
  record s { outbox = insert event_id (record rec { attempts = rec.attempts + 1 }) s.outbox },
  ok tt,
)

unfoldable pub record_attempt : String → Store → Call Unit
unfolding attempted
record_attempt event_id s = attempted event_id s (lookup event_id s.outbox)

unfoldable pub publish : String → ℕ → Store → Option OutboxEventRecord → Call Bool
publish event_id at s none = missing s
publish event_id at s (some rec) = if is_some rec.published_at then (s, ok false) else (
  record s {
    outbox =
        insert event_id (record rec { published_at = some at; attempts = rec.attempts + 1 })
          s.outbox;
  },
  ok true,
)

unfoldable pub mark_published : String → ℕ → Store → Call Bool
unfolding publish
mark_published event_id at s = publish event_id at s (lookup event_id s.outbox)

-- `InMemoryFlagRepository`
unfoldable pub save_state : FlagStateRecord → Store → Call FlagStateRecord
save_state r s =
    if not (has r.bidder_id s.bidders)
    then missing s
    else (record s { flag_states = insert (r.bidder_id, r.flag_id) r s.flag_states }, ok r)

unfoldable pub get_state : String → String → Store → Option FlagStateRecord
get_state bidder_id flag_id s = lookup (bidder_id, flag_id) s.flag_states

unfoldable pub list_states : String → Store → List FlagStateRecord
list_states bidder_id s = values (select (λ e. e.0.0 == bidder_id) s.flag_states)

unfoldable pub save_snapshot : FlagSnapshotRecord → Store → Call FlagSnapshotRecord
save_snapshot r s =
    if not (has r.bidder_id s.bidders)
    then missing s
    else (record s { flag_snapshots = insert r.snapshot_id r s.flag_snapshots }, ok r)

unfoldable pub get_snapshot : String → Store → Option FlagSnapshotRecord
get_snapshot snapshot_id s = lookup snapshot_id s.flag_snapshots

unfoldable pub list_snapshots : String → Store → List FlagSnapshotRecord
list_snapshots bidder_id s = select (λ r. r.bidder_id == bidder_id) (values s.flag_snapshots)
