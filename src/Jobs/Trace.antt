-- ===== src/Jobs/Trace.antt =====
-- Every way a client can move the queue, as a step relation: any call, with any arguments and any
-- clock, in any order. A call runs under the queue's lock, so calls of several workers interleave
-- as whole steps.
pub mod Terminal
use core_engine_ge_m.Base.{
  ℕ, ◌+◌, ◌≤◌, ◌≡◌, refl, String, Bool, true, false, Option, none, some, List, [], ◌∷◌, lookup,
  insert, lookup-insert, count, ◌==◌, string_eq, ==-eq, Bool-cases, inl, inr, arith, if◌then◌else◌,
  not, sym, ◌∙◌, Distinct,
}
use text.Mathlib.TextEquality.{eq_iff}
use core_engine_ge_m.Jobs.Model.{
  JobState, is_terminal, is_running, is_waiting, pending, retryable, Job,
}
use core_engine_ge_m.Jobs.Queue.{
  Queue, empty, check_lease, known_key, enqueue, enqueue_new, existing, enqueue_keyed,
  enqueue_unseen, claim, claimed, is_claimable, is_holder, lapsed,
}
use core_engine_ge_m.Jobs.Lease.{
  Failure, retries, failed_attempt, acked, cancelled_job, push_if, put, renew_lease, renew_job, ack,
  ack_job, fail, fail_job, cancel, cancel_job, recover_stale, recover_items, visit, is_stale,
  spent_out, given_up, requeued, recovered_job,
}
use core_engine_ge_m.Jobs.Valid.{IsValid, IsSound, Slot, SlotIn, BudgetIn-le, empty-IsValid}
use core_engine_ge_m.Jobs.Valid.Lease.{
  renew_lease-IsValid, ack-IsValid, fail-IsValid, cancel-IsValid,
}
use core_engine_ge_m.Jobs.Valid.Enqueue.{IsAdmissible, enqueue-IsValid}
use core_engine_ge_m.Jobs.Valid.Recover.{recover_stale-IsValid}
use core_engine_ge_m.Jobs.Claim.{Choice, claim_picks_first}
use core_engine_ge_m.Jobs.Claim.Keeps.{claim-IsValid}

pub data Step (q : Queue) : Queue → Type 0 where
  enqueues : (job : Job) → IsAdmissible job → Step q (enqueue job q).0
  claims : (worker : String) (lease_seconds now : ℕ) → Step q (claim worker lease_seconds now q).0
  renews :
      (id worker : String) (lease_seconds now : ℕ)
      → Step q (renew_lease id worker lease_seconds now q).0
  acks : (id worker : String) (checked_at now : ℕ) → Step q (ack id worker checked_at now q).0
  fails :
      (id worker : String) (f : Failure) (checked_at now : ℕ)
      → Step q (fail id worker f checked_at now q).0
  cancels : (id : String) (now : ℕ) → Step q (cancel id now q).0
  recovers : (now : ℕ) → Step q (recover_stale now q).0

-- What a queue can become.
pub data Reach (q : Queue) : Queue → Type 0 where
  here : Reach q q
  next : {r s : Queue} → Reach q r → Step r s → Reach q s

pub Step-IsValid : {q r : Queue} → Step q r → IsValid q → IsValid r
Step-IsValid {q} (enqueues job fits) v = enqueue-IsValid q v job fits
Step-IsValid {q} (claims worker lease_seconds now) v = claim-IsValid worker lease_seconds now q v
Step-IsValid {q} (renews id worker lease_seconds now) v =
    renew_lease-IsValid q v id worker lease_seconds now
Step-IsValid {q} (acks id worker checked_at now) v = ack-IsValid q v id worker checked_at now
Step-IsValid {q} (fails id worker f checked_at now) v = fail-IsValid q v id worker f checked_at now
Step-IsValid {q} (cancels id now) v = cancel-IsValid q v id now
Step-IsValid {q} (recovers now) v = recover_stale-IsValid now q v

-- Whatever calls are made on a valid queue, in any order and whether they raise or not, it stays
-- valid, when the jobs that are enqueued are admissible: a waiting job stands in the deque once and
-- a running one not at all, leases are held by running jobs alone, no job has had more attempts than
-- it may, and an idempotency key leads to the only job that carries it.
pub Reach-IsValid : {q r : Queue} → IsValid q → Reach q r → IsValid r
Reach-IsValid v here = v
Reach-IsValid v (next path step) = Step-IsValid step (Reach-IsValid v path)
