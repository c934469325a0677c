-- ===== src/Jobs/Durable/Trace.antt =====
-- Every sequence of calls on the durable queue, and what a renewal leaves behind.
use core_engine_ge_m.Base.{
  ℕ, ◌+◌, ◌≤◌, ◌≡◌, refl, String, true, some, lookup, string_eq, ok, lookup-insert_self, pos,
}
use core_engine_ge_m.Jobs.Model.{Job}
use core_engine_ge_m.Jobs.Lease
use core_engine_ge_m.Jobs.Lease.{Failure, put}
use core_engine_ge_m.Jobs.Valid.Enqueue.{IsAdmissible}
use core_engine_ge_m.Jobs.Ownership.{IsOwner, act-Allowed}
use core_engine_ge_m.Jobs.Durable.{
  Durable, enqueue, claim, renew_lease, passed, ack, fail, cancel, recover_stale,
}
use core_engine_ge_m.Jobs.Durable.Mirror.{IsMirrored}
use core_engine_ge_m.Jobs.Durable.Calls.{
  enqueue-IsMirrored, ack-IsMirrored, fail-IsMirrored, cancel-IsMirrored, claim-IsMirrored,
  renew_lease-IsMirrored,
}
use core_engine_ge_m.Jobs.Durable.Recovery.{recover_stale-IsMirrored}

pub data Step (d : Durable) : Durable → Type 0 where
  enqueues : (job : Job) → IsAdmissible job → 1 ≤ job.max_attempts → Step d (enqueue job d).0
  claims : (worker : String) (lease_seconds now : ℕ) → Step d (claim worker lease_seconds now d).0
  renews :
      (id worker : String) (lease_seconds now : ℕ)
      → Step d (renew_lease id worker lease_seconds now d).0
  acks : (id worker : String) (checked_at now : ℕ) → Step d (ack id worker checked_at now d).0
  fails :
      (id worker : String) (f : Failure) (checked_at now : ℕ)
      → Step d (fail id worker f checked_at now d).0
  cancels : (id : String) (now : ℕ) → Step d (cancel id now d).0
  recovers : (now : ℕ) → Step d (recover_stale now d).0

pub data Reach (d : Durable) : Durable → Type 0 where
  here : Reach d d
  next : {e f : Durable} → Reach d e → Step e f → Reach d f

Step-IsMirrored : {d e : Durable} → Step d e → IsMirrored d → IsMirrored e
Step-IsMirrored {d} (enqueues job fits a) m = enqueue-IsMirrored d m job fits a
Step-IsMirrored {d} (claims worker lease_seconds now) m =
    claim-IsMirrored d m worker lease_seconds now
Step-IsMirrored {d} (renews id worker lease_seconds now) m =
    renew_lease-IsMirrored d m id worker lease_seconds now
Step-IsMirrored {d} (acks id worker checked_at now) m = ack-IsMirrored d m id worker checked_at now
Step-IsMirrored {d} (fails id worker f checked_at now) m =
    fail-IsMirrored d m id worker f checked_at now
Step-IsMirrored {d} (cancels id now) m = cancel-IsMirrored d m id now
Step-IsMirrored {d} (recovers now) m = recover_stale-IsMirrored now d m

-- Whatever calls are made on a durable queue that is mirrored, in any order, it stays mirrored, when
-- the jobs that are enqueued are admissible and allow at least one attempt: the job table has a
-- record of every job of the queue, which agrees with the job in every column but
-- `lease_expires_at` and `updated_at`, and the queue is valid.
pub Reach-IsMirrored : {d e : Durable} → IsMirrored d → Reach d e → IsMirrored e
Reach-IsMirrored m here = m
Reach-IsMirrored m (next path step) = Step-IsMirrored step (Reach-IsMirrored m path)

renew_passed :
    (id worker : String) (lease_seconds now : ℕ) (d : Durable) (job : Job)
    → Lease.renew_lease id worker lease_seconds now d.queue ≡ (
      put id
          (record job { lease_expires_at = some (now + lease_seconds); updated_at = now })
          d.queue,
      ok true,
    )
    → renew_lease id worker lease_seconds now d ≡ (
      record d {
        queue =
            put id
              (record job { lease_expires_at = some (now + lease_seconds); updated_at = now })
              d.queue;
      },
      ok true,
    )
unfolding renew_lease passed
renew_passed id worker lease_seconds now d job e = rw e

-- A renewal is not mirrored: when the owner of a lease renews it, the queue has the new expiry and
-- the table has what it had before.
pub renewal_unmirrored :
    (d : Durable) (id worker : String) (lease_seconds now : ℕ) (job : Job)
    → IsOwner d.queue id worker now job
    → ((renew_lease id worker lease_seconds now d).1 ≡ ok true)
      × (lookup id (renew_lease id worker lease_seconds now d).0.queue.jobs
          ≡ some (record job { lease_expires_at = some (now + lease_seconds); updated_at = now }))
      × ((renew_lease id worker lease_seconds now d).0.table ≡ d.table)
renewal_unmirrored d id worker lease_seconds now job own =
    rw (renew_passed id worker lease_seconds now d job renewed)
      (refl, lookup-insert_self id _ d.queue.jobs, refl)
  where
    any_failure : Failure
    any_failure = record {
      error = "";
      error_kind = "";
      can_be_retried = true;
      retry_delay_seconds = pos 0;
    }

    renewed : Lease.renew_lease id worker lease_seconds now d.queue ≡ (
      put id
          (record job { lease_expires_at = some (now + lease_seconds); updated_at = now })
          d.queue,
      ok true,
    )
    renewed = (act-Allowed d.queue id worker now any_failure lease_seconds now job own).renews
