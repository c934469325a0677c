-- ===== src/Store/Tests.antt =====
-- The repositories at concrete stores.
use core_engine_ge_m.Base.{◌≡◌, refl, false, none, [], ◌∷◌, lookup, insert, string_eq, ok, raised}
use core_engine_ge_m.Store.{Store, empty_store, missing_reference}
use core_engine_ge_m.Store.Records.{BidderRecord, SubmissionRecord, OutboxEventRecord}
use core_engine_ge_m.Store.Entities.{add_bidder, add_submission, save_submission}
use core_engine_ge_m.Store.Events.{
  add_outbox, mark_published, publish, list_unpublished, sorted, insert_event, first_events,
}
use core_engine_ge_m.Store.Linked.{IsLinked, empty-IsLinked}
use core_engine_ge_m.Store.Trace.{adds_bidder, adds_outbox, Reach, here, next}
use core_engine_ge_m.Store.Trace.Checks.{Reach-IsLinked}
use core_engine_ge_m.Store.Trace.Kept.{Kept, Reach-Kept, published_once}

abbrev first_bidder : BidderRecord
first_bidder = record { bidder_id = "B1"; created_at = 5; updated_at = 5 }

abbrev first_submission : SubmissionRecord
first_submission = record {
  submission_id = "S1";
  bidder_id = "B1";
  stage = "INGESTED";
  last_completed_stage = none;
  correlation_id = none;
  attempt_count = 0;
  last_error = none;
  last_error_kind = none;
  created_at = 5;
  updated_at = 5;
}

abbrev first_event : OutboxEventRecord
first_event = record {
  event_id = "evt:1";
  aggregate_type = "SUBMISSION";
  aggregate_id = "S1";
  event_type = "SUBMISSION_INGESTED";
  payload = [];
  created_at = 5;
  published_at = none;
  attempts = 0;
}

abbrev with_bidder : Store
with_bidder = record empty_store { bidders = ("B1", first_bidder) ∷ [] }

abbrev with_event : Store
with_event = record with_bidder { outbox = ("evt:1", first_event) ∷ [] }

code : Unit {0}
unfolding lookup insert add_bidder add_submission save_submission add_outbox mark_published publish
    list_unpublished sorted insert_event first_events
code = tt

orphan_submission :
    add_submission first_submission empty_store ≡ (empty_store, raised missing_reference)
unfolding code
orphan_submission = refl

-- A submission that is there may be saved under a bidder who is not.
saved_orphan :
    (save_submission
      (record first_submission { bidder_id = "B2" })
      (record with_bidder { submissions = ("S1", first_submission) ∷ [] })).0.submissions
    ≡ ("S1", record first_submission { bidder_id = "B2" }) ∷ []
unfolding code
saved_orphan = refl

one_unpublished : list_unpublished 100 with_event ≡ first_event ∷ []
unfolding code
one_unpublished = refl

path_to_event : Reach empty_store with_event
unfolding code
path_to_event = next (next here (adds_bidder first_bidder)) (adds_outbox first_event)

with_event-IsLinked : IsLinked with_event
with_event-IsLinked = Reach-IsLinked {s = empty_store} {t = with_event} empty-IsLinked path_to_event

Reach-Kept_example : Kept empty_store with_event
Reach-Kept_example = Reach-Kept {s = empty_store} {t = with_event} empty-IsLinked path_to_event

published_once_example :
    mark_published "evt:1" 9 (mark_published "evt:1" 7 with_event).0
    ≡ ((mark_published "evt:1" 7 with_event).0, ok false)
unfolding code
published_once_example =
    published_once with_event (mark_published "evt:1" 7 with_event).0 "evt:1" 7 9
      with_event-IsLinked refl here
