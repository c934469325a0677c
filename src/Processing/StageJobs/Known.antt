-- ===== src/Processing/StageJobs/Known.antt =====
-- `enqueue_stage_job` for a key that the queue has already.
use core_engine_ge_m.Base.{
  ℕ, ◌≡◌, refl, String, Option, none, some, Map, lookup, string_eq, Json, ok, object,
}
use core_engine_ge_m.Jobs.Model.{Job}
use core_engine_ge_m.Jobs.Queue
use core_engine_ge_m.Jobs.Queue.{Queue, enqueue_unseen, enqueue_keyed, existing}
use core_engine_ge_m.Jobs.Idempotency.{make_idempotency_key}
use core_engine_ge_m.Jobs.Durable.{record_of, to_job_record}
use core_engine_ge_m.Store.{Store}
use core_engine_ge_m.Store.Events.{save_job}
use core_engine_ge_m.Processing.{transact}
use core_engine_ge_m.Processing.Advance.Moves.{settle_ok}
use core_engine_ge_m.Processing.StageJobs.{
  object_fields, stage_job, save_stage_job, answered, enqueued, enqueue_stage_job,
}

module _ (dumps : Json → String) (sha256 : String → String)
    (submission_id stage bidder_id job_id : String) (payload : Map String Json)
    (correlation_id : Option String) (now : ℕ) where
  abbrev job : Job
  unfolding stage_job
  job = stage_job dumps sha256 submission_id stage bidder_id job_id payload correlation_id now

  enqueue_known :
      (q : Queue) (other : String) (old : Job)
      → lookup job_id q.jobs ≡ none
      → lookup
          (make_idempotency_key dumps sha256 submission_id stage (object (object_fields payload)))
          q.by_idempotency_key
        ≡ some other
      → lookup other q.jobs ≡ some old
      → Queue.enqueue job q ≡ (q, ok old)
  unfolding Queue.enqueue enqueue_unseen enqueue_keyed existing stage_job
  enqueue_known q other old new known there = rw (new, known, there) refl

  transacts :
      (s : Store)
      → transact
          (save_stage_job dumps sha256 submission_id stage bidder_id job_id payload correlation_id
            now
            (to_job_record job))
          s
        ≡ (save_job (record_of job) s, ok tt)
  unfolding save_stage_job stage_job
  transacts s = settle_ok _ s (save_job (record_of job) s) tt refl

  -- When the queue has a job for the key of a stage already, under another ID, `enqueue_stage_job`
  -- leaves the queue as it was and yet saves a record of the new job and returns that job, which the
  -- queue does not know.
  pub enqueue_stage_job_known :
      (s : Store) (q : Queue) (other : String) (old : Job)
      → lookup job_id q.jobs ≡ none
      → lookup
          (make_idempotency_key dumps sha256 submission_id stage (object (object_fields payload)))
          q.by_idempotency_key
        ≡ some other
      → lookup other q.jobs ≡ some old
      → enqueue_stage_job dumps sha256 submission_id stage bidder_id job_id payload correlation_id
          now s q
        ≡ (
          save_job
              (record_of (
                stage_job dumps sha256 submission_id stage bidder_id job_id payload correlation_id
                  now))
              s,
          q,
          ok (
              stage_job dumps sha256 submission_id stage bidder_id job_id payload correlation_id
                now),
        )
  unfolding enqueue_stage_job enqueued answered stage_job save_stage_job
  enqueue_stage_job_known s q other old new known there =
      rw (transacts s, enqueue_known q other old new known there) refl
