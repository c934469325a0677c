-- ===== src/Jobs/Tests.antt =====
-- Runs of the job queue, and the theorems at concrete queues.
use core_engine_ge_m.Base.{
  contains, ◌≡◌, refl, String, true, false, none, some, [], ◌∷◌, lookup, insert, delete, string_eq,
  arith, ok, raised, pos,
}
use core_engine_ge_m.Jobs.Model.{Job, pending, running, failed}
use core_engine_ge_m.Jobs.Queue.{
  Queue, empty, enqueue, claim, claim_scan, job_conflict, duplicate_job,
}
use core_engine_ge_m.Jobs.Lease.{
  ack, acked, fail, renew_lease, recover_stale, is_stale, cancel, pending_count,
}
use core_engine_ge_m.Jobs.Valid.{IsValid, empty-IsValid}
use core_engine_ge_m.Jobs.Valid.Enqueue.{IsAdmissible, enqueue-IsValid}
use core_engine_ge_m.Jobs.Claim.{ClaimsFirst, claim_picks_first}
use core_engine_ge_m.Jobs.Claim.Fair.{handed, handed_in_turn}
use core_engine_ge_m.Jobs.Trace.{enqueues, claims, acks, Reach, here, next, Reach-IsValid}
use core_engine_ge_m.Jobs.Trace.Terminal.{terminal_absorbs}
use core_engine_ge_m.Jobs.Ownership.{IsOwner, OwnerActs, owner_acts}
use core_engine_ge_m.Jobs.Recover.{Recovers, recover_stale_lem, none_stale_after, expiry_instant}

abbrev pub new_job : String → String → Job
new_job id key = record {
  job_id = id;
  job_type = "COMPLIANCE";
  idempotency_key = some key;
  submission_id = none;
  bidder_id = none;
  stage = none;
  correlation_id = none;
  payload = [];
  state = pending;
  attempt_count = 0;
  max_attempts = 1;
  leased_by = none;
  lease_expires_at = none;
  retry_at = none;
  last_error = none;
  last_error_kind = none;
  created_at = 10;
  updated_at = 10;
}

pub new_job-IsAdmissible : (id key : String) → IsAdmissible (new_job id key)
new_job-IsAdmissible id key = record {
  named = refl;
  leased = tt;
  retried = tt;
  budgeted = omega arith;
}

abbrev pub first_job : Job
first_job = new_job "job-1" "idem:1"

abbrev pub running_job : Job
running_job = record first_job {
  state = running;
  attempt_count = 1;
  leased_by = some "worker-1";
  lease_expires_at = some 160;
  updated_at = 100;
}

-- One job, claimed at 100 for 60 ticks.
abbrev pub queued : Queue
queued = record {
  jobs = ("job-1", first_job) ∷ [];
  pending = "job-1" ∷ [];
  by_idempotency_key = ("idem:1", "job-1") ∷ [];
}

abbrev pub leased : Queue
leased = record {
  jobs = ("job-1", running_job) ∷ [];
  pending = [];
  by_idempotency_key = ("idem:1", "job-1") ∷ [];
}

code : Unit {0}
unfolding enqueue claim claim_scan renew_lease ack fail cancel recover_stale lookup insert delete
    pending_count
code = tt

enqueue_first : enqueue first_job empty ≡ (queued, ok first_job)
unfolding code
enqueue_first = refl

-- The same key again gives the first job back.
enqueue_again : enqueue (new_job "job-2" "idem:1") queued ≡ (queued, ok first_job)
unfolding code
enqueue_again = refl

enqueue_duplicate : enqueue (new_job "job-1" "idem:2") queued ≡ (queued, raised duplicate_job)
unfolding code
enqueue_duplicate = refl

claim_first : claim "worker-1" 60 100 queued ≡ (leased, ok (some running_job))
unfolding code
claim_first = refl

ack_stranger : ack "job-1" "worker-2" 120 120 leased ≡ (leased, raised job_conflict)
unfolding code
ack_stranger = refl

pending_count-queued : pending_count queued ≡ ok 1
unfolding code
pending_count-queued = refl

path_to_leased : Reach empty leased
unfolding code
path_to_leased =
    next (next here (enqueues first_job (new_job-IsAdmissible "job-1" "idem:1")))
      (claims "worker-1" 60 100)

leased-IsValid : IsValid leased
leased-IsValid = Reach-IsValid {q = empty} {r = leased} empty-IsValid path_to_leased

pub queued-IsValid : IsValid queued
unfolding code
queued-IsValid =
    enqueue-IsValid empty empty-IsValid first_job (new_job-IsAdmissible "job-1" "idem:1")

Reach-IsValid_example : IsValid leased
Reach-IsValid_example = Reach-IsValid {q = empty} {r = leased} empty-IsValid path_to_leased

claim_picks_first_example : ClaimsFirst "worker-1" 60 100 queued
claim_picks_first_example = claim_picks_first "worker-1" 60 100 queued queued-IsValid

owner_acts_example : OwnerActs leased "job-1" "worker-1" 120 121 60 (record {
  error = "timeout";
  error_kind = "TRANSIENT";
  can_be_retried = true;
  retry_delay_seconds = pos 5;
})
owner_acts_example = owner_acts leased "job-1" "worker-1" 120 121 60 (record {
  error = "timeout";
  error_kind = "TRANSIENT";
  can_be_retried = true;
  retry_delay_seconds = pos 5;
})

-- The finished job, and what two calls later is left of it.
abbrev done : Queue
done = record leased { jobs = ("job-1", acked 121 running_job) ∷ [] }

done-IsValid : IsValid done
unfolding code
done-IsValid =
    Reach-IsValid {q = empty} {r = done} empty-IsValid
      (next path_to_leased (acks "job-1" "worker-1" 120 121))

terminal_absorbs_example :
    lookup "job-1" (claim "worker-2" 60 200 done).0.jobs ≡ some (acked 121 running_job)
unfolding code
terminal_absorbs_example =
    terminal_absorbs done (claim "worker-2" 60 200 done).0 "job-1" (acked 121 running_job)
      done-IsValid (next here (claims "worker-2" 60 200)) refl refl

recover_stale_lem_example : Recovers 160 leased
recover_stale_lem_example = recover_stale_lem 160 leased leased-IsValid

none_stale_after_example :
    is_stale 160 (record running_job {
      state = failed;
      leased_by = none;
      lease_expires_at = none;
      last_error = some "Lease expired after final attempt.";
      last_error_kind = some "TRANSIENT_INFRASTRUCTURE";
      updated_at = 160;
    })
    ≡ false
unfolding code
none_stale_after_example = none_stale_after 160 leased "job-1" _ leased-IsValid refl

pub leased-IsOwner : IsOwner leased "job-1" "worker-1" 160 running_job
unfolding code
leased-IsOwner = record { found = refl; runs = refl; holds = refl; lives = λ at e. ground arith }

expiry_instant_example :
    ((ack "job-1" "worker-1" 160 161 leased).1 ≡ ok (acked 161 running_job))
    × ((ack "job-1" "worker-1" 160 161 (recover_stale 160 leased).0).1 ≡ raised job_conflict)
expiry_instant_example =
    expiry_instant leased "job-1" "worker-1" 160 161 running_job leased-IsValid leased-IsOwner refl

handed_in_turn_example : contains "job-1" (handed (("worker-1", 60, 100) ∷ []) queued) ≡ true
unfolding code
handed_in_turn_example =
    handed_in_turn (("worker-1", 60, 100) ∷ []) queued "job-1" first_job [] [] queued-IsValid refl
      refl refl (omega arith)
