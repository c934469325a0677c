-- ===== src/Jobs/Lease.antt =====
-- src/infrastructure/jobs/queue.py: the methods of `InMemoryJobQueue` that act on a job by its ID,
-- `recover_stale`, and the ones that only read.
use core_engine_ge_m.Base.{
  ℕ, suc, ◌+◌, String, Bool, true, false, not, ◌&&◌, Option, none, some, List, [], ◌∷◌, ◌++◌, Map,
  lookup, insert, values, if◌then◌else◌, leb, ltb, string_eq, Outcome, ok, raised, ◌>>=◌, ℤ,
  pos_part,
}
use core_engine_ge_m.Jobs.Model.{
  pending, retryable, succeeded, failed, cancelled, is_terminal, is_running, is_waiting, Job,
}
use core_engine_ge_m.Jobs.Queue.{
  QueueError, job_not_found, job_conflict, key_error, Queue, Call, lapsed, is_holder, check_lease,
}

-- `self._jobs[job_id] = job`
abbrev pub put : String → Job → Queue → Queue
put id job q = record q { jobs = insert id job q.jobs }

unfoldable pub renew_job : String → String → ℕ → ℕ → Queue → Option Job → Call Bool
renew_job id worker lease_seconds now q none = (q, ok false)
renew_job id worker lease_seconds now q (some job) =
    if not (is_running job.state)
    then (q, ok false)
    else if not (is_holder job.leased_by worker)
    then (q, ok false)
    else if lapsed job.lease_expires_at now
    then (q, ok false)
    else (
      put id (record job { lease_expires_at = some (now + lease_seconds); updated_at = now }) q,
      ok true,
    )

unfoldable pub renew_lease : String → String → ℕ → ℕ → Queue → Call Bool
unfolding renew_job
renew_lease id worker lease_seconds now q =
    renew_job id worker lease_seconds now q (lookup id q.jobs)

abbrev pub acked : ℕ → Job → Job
acked now job = record job {
  state = succeeded;
  leased_by = none;
  lease_expires_at = none;
  retry_at = none;
  updated_at = now;
}

unfoldable pub ack_job : String → String → ℕ → ℕ → Queue → Option Job → Call Job
unfolding check_lease
ack_job id worker checked_at now q none = (q, raised job_not_found)
ack_job id worker checked_at now q (some job) =
    if check_lease job worker checked_at
    then (put id (acked now job) q, ok (acked now job))
    else (q, raised job_conflict)

-- The clock is read twice: by `_check_lease`, and for `updated_at`.
unfoldable pub ack : String → String → ℕ → ℕ → Queue → Call Job
unfolding ack_job
ack id worker checked_at now q = ack_job id worker checked_at now q (lookup id q.jobs)

-- What `fail` is told of the attempt; the delay is signed.
pub record Failure : Type 0 where
  pub error : String
  pub error_kind : String
  pub can_be_retried : Bool
  pub retry_delay_seconds : ℤ

-- `can_retry`
abbrev pub retries : Failure → Job → Bool
retries f job = f.can_be_retried && ltb job.attempt_count job.max_attempts

abbrev pub failed_attempt : Failure → ℕ → Job → Job
failed_attempt f now job =
    let again = retries f job in
    record job {
      leased_by = none;
      lease_expires_at = none;
      last_error = some f.error;
      last_error_kind = some f.error_kind;
      updated_at = now;
      state = if again then retryable else failed;
      retry_at = if again then some (now + pos_part f.retry_delay_seconds) else none;
    }

-- `self._pending.append(job_id)` under a test
abbrev pub push_if : Bool → String → Queue → Queue
push_if true id q = record q { pending = q.pending ++ id ∷ [] }
push_if false id q = q

unfoldable pub fail_job : String → String → Failure → ℕ → ℕ → Queue → Option Job → Call Job
unfolding check_lease
fail_job id worker f checked_at now q none = (q, raised job_not_found)
fail_job id worker f checked_at now q (some job) =
    if check_lease job worker checked_at
    then (
      push_if (retries f job) id (put id (failed_attempt f now job) q),
      ok (failed_attempt f now job),
    )
    else (q, raised job_conflict)

unfoldable pub fail : String → String → Failure → ℕ → ℕ → Queue → Call Job
unfolding fail_job
fail id worker f checked_at now q = fail_job id worker f checked_at now q (lookup id q.jobs)

abbrev pub cancelled_job : ℕ → Job → Job
cancelled_job now job = record job {
  state = cancelled;
  leased_by = none;
  lease_expires_at = none;
  retry_at = none;
  updated_at = now;
}

unfoldable pub cancel_job : String → ℕ → Queue → Option Job → Call Job
cancel_job id now q none = (q, raised job_not_found)
cancel_job id now q (some job) =
    if is_terminal job.state
    then (q, raised job_conflict)
    else (put id (cancelled_job now job) q, ok (cancelled_job now job))

unfoldable pub cancel : String → ℕ → Queue → Call Job
unfolding cancel_job
cancel id now q = cancel_job id now q (lookup id q.jobs)

-- `job.lease_expires_at is None or job.lease_expires_at > now`, the test that skips a job
abbrev pub lease_open : Option ℕ → ℕ → Bool
lease_open none now = true
lease_open (some at) now = ltb now at

-- The two `continue` tests of `recover_stale`.
abbrev pub is_stale : ℕ → Job → Bool
is_stale now job = is_running job.state && not (lease_open job.lease_expires_at now)

abbrev pub spent_out : Job → Bool
spent_out job = leb job.max_attempts job.attempt_count

abbrev pub given_up : ℕ → Job → Job
given_up now job = record job {
  state = failed;
  leased_by = none;
  lease_expires_at = none;
  last_error = some "Lease expired after final attempt.";
  last_error_kind = some "TRANSIENT_INFRASTRUCTURE";
  updated_at = now;
}

abbrev pub requeued : ℕ → Job → Job
requeued now job = record job {
  state = pending;
  leased_by = none;
  lease_expires_at = none;
  retry_at = none;
  updated_at = now;
}

abbrev pub recovered_job : ℕ → Job → Job
recovered_job now job = if spent_out job then given_up now job else requeued now job

-- What the loop of `recover_stale` does to the queue at one of its items.
abbrev pub visit : ℕ → String → Job → Queue → Queue
visit now id job q =
    if is_stale now job
    then put id (recovered_job now job) (push_if (not (spent_out job)) id q)
    else q

-- The loop of `recover_stale` over the items that the queue had at its start.
unfoldable pub recover_items : ℕ → Map String Job → Queue → Queue × List Job
recover_items now [] q = (q, [])
recover_items now ((id, job) ∷ items) q =
    let (after, recovered) = recover_items now items (visit now id job q) in
    (after, if is_stale now job then recovered_job now job ∷ recovered else recovered)

unfoldable pub recover_stale : ℕ → Queue → Queue × List Job
unfolding recover_items
recover_stale now q = recover_items now q.jobs q

pub get : String → Queue → Option Job
get id q = lookup id q.jobs

unfoldable pub found : Queue → Option String → Queue × Outcome QueueError (Option Job)
found q none = (q, ok none)
found q (some id) = elim (lookup id q.jobs) [
  | none ↦ (q, raised key_error)
  | some job ↦ (q, ok (some job))
]

unfoldable pub find_by_idempotency_key : String → Queue → Call (Option Job)
unfolding found
find_by_idempotency_key key q = found q (lookup key q.by_idempotency_key)

pub list_jobs : Queue → List Job
list_jobs q = values q.jobs

-- The sum of `pending_count`; a queued ID with no job raises `KeyError`.
unfoldable pub count_waiting : Map String Job → List String → Outcome QueueError ℕ
count_waiting jobs [] = ok 0
count_waiting jobs (id ∷ ids) =
    let rest = count_waiting jobs ids in
    elim (lookup id jobs) [
      | none ↦ raised key_error
      | some job ↦ rest >>= λ n. ok (if is_waiting job.state then suc n else n)
    ]

unfoldable pub pending_count : Queue → Outcome QueueError ℕ
unfolding count_waiting
pending_count q = count_waiting q.jobs q.pending
