-- ===== src/Jobs/Queue.antt =====
-- src/infrastructure/jobs/queue.py: `InMemoryJobQueue`. A method takes the queue and what it reads
-- off the clock, and returns the queue it leaves behind with its value or its exception. Every
-- job handed out is a deep copy, so there is no aliasing to model; the lock makes each call atomic.
use core_engine_ge_m.Base.{
  ℕ, zero, suc, ◌+◌, String, Bool, true, false, not, Option, none, some, List, [], ◌∷◌, ◌++◌, Map,
  lookup, insert, length, if◌then◌else◌, leb, ltb, ◌==◌, string_eq, Outcome, ok, raised,
}
use core_engine_ge_m.Jobs.Model.{JobState, pending, running, retryable, is_running, is_waiting, Job}

pub data QueueError : Type 0 where
  job_not_found duplicate_job job_conflict : QueueError
  -- What Python itself raises when a queued ID has no job, or the deque is empty.
  key_error index_error : QueueError

pub record Queue : Type 0 where
  pub jobs : Map String Job
  pub pending : List String
  pub by_idempotency_key : Map String String

abbrev pub Call : Type 0 → Type 0
Call A = Queue × Outcome QueueError A

-- `InMemoryJobQueue()`
abbrev pub empty : Queue
empty = record { jobs = []; pending = []; by_idempotency_key = [] }

-- `job.lease_expires_at is not None and job.lease_expires_at < now`
abbrev pub lapsed : Option ℕ → ℕ → Bool
lapsed none now = false
lapsed (some at) now = ltb at now

-- `job.leased_by == worker_id`
abbrev pub is_holder : Option String → String → Bool
is_holder none worker = false
is_holder (some holder) worker = holder == worker

-- `_check_lease`: whether the call goes through; otherwise it raises `JobConflictError`.
unfoldable pub check_lease : Job → String → ℕ → Bool
check_lease job worker now =
    if not (is_running job.state)
    then false
    else if not (is_holder job.leased_by worker)
    then false
    else not (lapsed job.lease_expires_at now)

-- `key is not None and key in self._by_idempotency_key`, with the job ID that it stands for
abbrev pub known_key : Option String → Map String String → Option String
known_key none m = none
known_key (some key) m = lookup key m

abbrev pub register_key : Option String → String → Map String String → Map String String
register_key none id m = m
register_key (some key) id m = insert key id m

unfoldable pub enqueue_new : Job → Queue → Queue
enqueue_new job q = record {
  jobs = insert job.job_id job q.jobs;
  pending = if is_waiting job.state then q.pending ++ job.job_id ∷ [] else q.pending;
  by_idempotency_key = register_key job.idempotency_key job.job_id q.by_idempotency_key;
}

-- `self._jobs[existing_id]`
unfoldable pub existing : Queue → Option Job → Call Job
existing q (some job) = (q, ok job)
existing q none = (q, raised key_error)

unfoldable pub enqueue_keyed : Job → Queue → Option String → Call Job
unfolding enqueue_new existing
enqueue_keyed job q (some existing_id) = existing q (lookup existing_id q.jobs)
enqueue_keyed job q none = (enqueue_new job q, ok job)

unfoldable pub enqueue_unseen : Job → Queue → Option Job → Call Job
unfolding enqueue_keyed
enqueue_unseen job q (some _) = (q, raised duplicate_job)
enqueue_unseen job q none = enqueue_keyed job q (known_key job.idempotency_key q.by_idempotency_key)

unfoldable pub enqueue : Job → Queue → Call Job
unfolding enqueue_unseen
enqueue job q = enqueue_unseen job q (lookup job.job_id q.jobs)

-- `job.retry_at is not None and job.retry_at <= now`
abbrev pub retry_due : Option ℕ → ℕ → Bool
retry_due none now = false
retry_due (some at) now = leb at now

-- The two tests of the loop in `claim`.
abbrev pub claimable_in : JobState → Option ℕ → ℕ → Bool
claimable_in pending retry_at now = true
claimable_in retryable retry_at now = retry_due retry_at now
claimable_in _ retry_at now = false

abbrev pub is_claimable : ℕ → Job → Bool
is_claimable now job = claimable_in job.state job.retry_at now

-- The loop of `claim`, at most `rounds` times: the deque it leaves, and the ID it chose.
unfoldable pub claim_scan :
    ℕ → ℕ → Map String Job → List String → List String × Outcome QueueError (Option String)
claim_scan zero now jobs deque = (deque, ok none)
claim_scan (suc rounds) now jobs [] = ([], raised index_error)
claim_scan (suc rounds) now jobs (candidate ∷ rest) = elim (lookup candidate jobs) [
  | none ↦ (rest, raised key_error)
  | some job ↦
      if is_claimable now job
      then (rest, ok (some candidate))
      else claim_scan rounds now jobs (rest ++ candidate ∷ [])
]

abbrev pub claimed : String → ℕ → ℕ → Job → Job
claimed worker lease_seconds now job = record job {
  state = running;
  attempt_count = job.attempt_count + 1;
  leased_by = some worker;
  lease_expires_at = some (now + lease_seconds);
  updated_at = now;
}

unfoldable pub claim_job : String → ℕ → ℕ → Queue → String → Option Job → Call (Option Job)
claim_job worker lease_seconds now q id none = (q, raised key_error)
claim_job worker lease_seconds now q id (some job) =
    let job' = claimed worker lease_seconds now job in
    (record q { jobs = insert id job' q.jobs }, ok (some job'))

unfoldable pub claim_chosen :
    String → ℕ → ℕ → Queue → Outcome QueueError (Option String) → Call (Option Job)
unfolding claim_job
claim_chosen worker lease_seconds now q (raised e) = (q, raised e)
claim_chosen worker lease_seconds now q (ok none) = (q, ok none)
claim_chosen worker lease_seconds now q (ok (some id)) =
    claim_job worker lease_seconds now q id (lookup id q.jobs)

unfoldable pub claim : String → ℕ → ℕ → Queue → Call (Option Job)
unfolding claim_chosen
claim worker lease_seconds now q =
    let (deque, chosen) = claim_scan (length q.pending) now q.jobs q.pending in
    claim_chosen worker lease_seconds now (record q { pending = deque }) chosen
