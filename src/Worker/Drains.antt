-- ===== src/Worker/Drains.antt =====
-- The worker's loop comes to an end: every round that claims a job uses up one of its attempts.
use core_engine_ge_m.Base.{
  ℕ, zero, suc, ◌+◌, ◌-◌, ◌<◌, ◌≡◌, refl, ap, ◌∙◌, String, Bool, true, false, Option, none, some,
  List, [], ◌∷◌, Map, lookup, insert, ◌==◌, string_eq, Outcome, ok, raised, Bool-cases, inl, inr,
  arith,
}
use core_engine_ge_m.Jobs.Model.{
  JobState, pending, running, retryable, succeeded, failed, cancelled, Job,
}
use core_engine_ge_m.Jobs.Queue.{Queue, QueueError, claim, claimed, claimable_in, check_lease}
use core_engine_ge_m.Jobs.Lease.{
  Failure, ack, ack_job, fail, fail_job, acked, failed_attempt, push_if, retries, put,
}
use core_engine_ge_m.Jobs.Valid.{IsValid, BudgetIn}
use core_engine_ge_m.Jobs.Valid.Lease.{ack-IsValid, fail-IsValid}
use core_engine_ge_m.Jobs.Claim.{claim_picks_first}
use core_engine_ge_m.Jobs.Claim.Keeps.{claim-IsValid}
use core_engine_ge_m.Worker.Failures.{Exc, RetryPolicy, FailureDecision, decide_failure}
use core_engine_ge_m.Worker.{
  Readings, JobResult, WorkOutcome, WorkerError, Round, finish, refuse, give_up, conclude,
  process_job, done, run_claimed, run_once, prepend, prepended, go_on, run_until_empty,
}

-- The attempts that are left of a job, and of all jobs.
abbrev pub left_of : Job → ℕ
left_of job = job.max_attempts - job.attempt_count

unfoldable pub attempts_left : Map String Job → ℕ
attempts_left [] = 0
attempts_left (entry ∷ rest) = left_of entry.1 + attempts_left rest

attempts_left-insert :
    (id : String) (old new : Job) (jobs : Map String Job)
    → lookup id jobs ≡ some old
    → attempts_left (insert id new jobs) + left_of old ≡ attempts_left jobs + left_of new
unfolding attempts_left lookup insert
attempts_left-insert id old new [] found = ground arith
attempts_left-insert id old new (entry ∷ rest) found = elim (Bool-cases (entry.0 == id)) [
  | inl same ↦ ground (arith, rw same at found)
  | inr other ↦ ground (arith, attempts_left-insert id old new rest (rw other at found))
]

waiting_has_attempt :
    (state : JobState) (retry_at : Option ℕ) (used allowed now : ℕ)
    → BudgetIn state used allowed
    → claimable_in state retry_at now ≡ true
    → used < allowed
waiting_has_attempt pending retry_at used allowed now b h = b
waiting_has_attempt retryable retry_at used allowed now b h = b
waiting_has_attempt running retry_at used allowed now b h = ground arith
waiting_has_attempt succeeded retry_at used allowed now b h = ground arith
waiting_has_attempt failed retry_at used allowed now b h = ground arith
waiting_has_attempt cancelled retry_at used allowed now b h = ground arith

-- A claim leaves the queue as it was, or hands out a job and uses up an attempt.
abbrev Claims : Queue → Queue × Outcome QueueError (Option Job) → Type 0
Claims q (r, raised e) = ⊥
Claims q (r, ok none) = r ≡ q
Claims q (r, ok (some job)) = attempts_left r.jobs < attempts_left q.jobs

claim-Claims :
    (worker : String) (lease_seconds now : ℕ) (q : Queue)
    → IsValid q
    → Claims q (claim worker lease_seconds now q)
claim-Claims worker lease_seconds now q v = elim (claim_picks_first worker lease_seconds now q v) [
  | inr (idle, e) ↦ rw e refl
  | inl (c, e) ↦ rw e (
      ground (
        arith,
        attempts_left-insert c.id c.job (claimed worker lease_seconds now c.job) q.jobs c.found,
        waiting_has_attempt c.job.state c.job.retry_at c.job.attempt_count c.job.max_attempts now
            (v.sound c.id c.job c.found).budgeted c.ready,
      ))
]

ack-attempts :
    (id worker : String) (checked_at now : ℕ) (q : Queue) (o : Option Job)
    → lookup id q.jobs ≡ o
    → attempts_left (ack_job id worker checked_at now q o).0.jobs ≡ attempts_left q.jobs
unfolding ack_job
ack-attempts id worker checked_at now q none found = refl
ack-attempts id worker checked_at now q (some job) found =
    ground (arith, attempts_left-insert id job (acked now job) q.jobs found)

push_if-attempts : (b : Bool) (id : String) (q : Queue) → (push_if b id q).jobs ≡ q.jobs
push_if-attempts true id q = refl
push_if-attempts false id q = refl

failed_attempt-left :
    (f : Failure) (now : ℕ) (job : Job) → left_of (failed_attempt f now job) ≡ left_of job
failed_attempt-left f now job = ground arith

fail-attempts :
    (id worker : String) (f : Failure) (checked_at now : ℕ) (q : Queue) (o : Option Job)
    → lookup id q.jobs ≡ o
    → attempts_left (fail_job id worker f checked_at now q o).0.jobs ≡ attempts_left q.jobs
unfolding fail_job
fail-attempts id worker f checked_at now q none found = refl
fail-attempts id worker f checked_at now q (some job) found =
    elim (Bool-cases (check_lease job worker checked_at)) [
      | inr refused ↦ rw refused refl
      | inl owner ↦
          rw (owner, push_if-attempts (retries f job) id (put id (failed_attempt f now job) q))
            (ground (
              arith,
              attempts_left-insert id job (failed_attempt f now job) q.jobs found,
              failed_attempt-left f now job,
            ))
    ]

-- A queue that is valid and has as many attempts left.
record Settles {A : Type 0} (q : Queue) (c : Round A) : Type 0 where
  pub valid : IsValid c.0
  pub left : attempts_left c.0.jobs ≡ attempts_left q.jobs

finish-Settles :
    {A : Type 0} (q : Queue) (c : Queue × Outcome QueueError Job) (answer : Outcome WorkerError A)
    → IsValid c.0
    → attempts_left c.0.jobs ≡ attempts_left q.jobs
    → Settles q (finish c answer)
unfolding finish
finish-Settles q (r, ok job) answer v e = record { valid = v; left = e }
finish-Settles q (r, raised x) answer v e = record { valid = v; left = e }

ack-Settles :
    {A : Type 0} (id worker : String) (checked_at now : ℕ) (q : Queue)
    (answer : Outcome WorkerError A)
    → IsValid q
    → Settles q (finish (ack id worker checked_at now q) answer)
unfolding ack
ack-Settles id worker checked_at now q answer v =
    finish-Settles q _ answer (ack-IsValid q v id worker checked_at now)
      (ack-attempts id worker checked_at now q (lookup id q.jobs) refl)

fail-Settles :
    {A : Type 0} (id worker : String) (f : Failure) (checked_at now : ℕ) (q : Queue)
    (answer : Outcome WorkerError A)
    → IsValid q
    → Settles q (finish (fail id worker f checked_at now q) answer)
unfolding fail
fail-Settles id worker f checked_at now q answer v =
    finish-Settles q _ answer (fail-IsValid q v id worker f checked_at now)
      (fail-attempts id worker f checked_at now q (lookup id q.jobs) refl)

-- A round that was idle left the queue alone, and any other used up an attempt.
abbrev Moved : Queue → Round (Option WorkOutcome) → Type 0
Moved q (r, ok none) = r ≡ q
Moved q (r, ok (some o)) = attempts_left r.jobs < attempts_left q.jobs
Moved q (r, raised e) = attempts_left r.jobs < attempts_left q.jobs

record Advances (q : Queue) (c : Round (Option WorkOutcome)) : Type 0 where
  pub valid : IsValid c.0
  pub moved : Moved q c

done-Advances :
    (q r : Queue) (c : Round WorkOutcome)
    → Settles r c
    → attempts_left r.jobs < attempts_left q.jobs
    → Advances q (done c)
unfolding done
done-Advances q r (t, ok o) s less = record { valid = s.valid; moved = omega (arith, s.left) }
done-Advances q r (t, raised e) s less = record { valid = s.valid; moved = omega (arith, s.left) }

module _ (repr : String → String) (process : ℕ → Job → Outcome Exc JobResult) (clock : ℕ → Readings)
    (worker_id : String) (policy : RetryPolicy) (lease_seconds : ℕ) where
  give_up-Settles :
      (at : Readings) (job : Job) (exc : Exc) (q : Queue) (o : Outcome Exc FailureDecision)
      → IsValid q
      → Settles q (give_up repr process clock worker_id policy lease_seconds at job exc q o)
  unfolding give_up
  give_up-Settles at job exc q (raised e) v = record { valid = v; left = refl }
  give_up-Settles at job exc q (ok d) v =
      fail-Settles job.job_id worker_id _ at.checked_at at.finished_at q _ v

  conclude-Settles :
      (at : Readings) (job : Job) (q : Queue) (o : Outcome Exc JobResult)
      → IsValid q
      → Settles q (conclude repr process clock worker_id policy lease_seconds at job q o)
  unfolding conclude
  conclude-Settles at job q (raised exc) v =
      give_up-Settles at job exc q (decide_failure policy exc job.attempt_count) v
  conclude-Settles at job q (ok r) v =
      ack-Settles job.job_id worker_id at.checked_at at.finished_at q _ v

  process_job-Settles :
      (n : ℕ) (job : Job) (q : Queue)
      → IsValid q
      → Settles q (process_job repr process clock worker_id policy lease_seconds n job q)
  unfolding process_job refuse
  process_job-Settles n job q v = elim (Bool-cases (job.job_type == "COMPLIANCE_RUN")) [
    | inl known ↦ rw known (conclude-Settles (clock n) job q (process n job) v)
    | inr unknown ↦
        rw unknown
          (fail-Settles job.job_id worker_id _ (clock n).checked_at (clock n).finished_at q _ v)
  ]

  run_claimed-Advances :
      (n : ℕ) (q : Queue) (c : Queue × Outcome QueueError (Option Job))
      → IsValid c.0
      → Claims q c
      → Advances q (run_claimed repr process clock worker_id policy lease_seconds n c)
  unfolding run_claimed
  run_claimed-Advances n q (r, raised e) v h = absurd h
  run_claimed-Advances n q (r, ok none) v h = record { valid = v; moved = h }
  run_claimed-Advances n q (r, ok (some job)) v h =
      done-Advances q r _ (process_job-Settles n job r v) h

  run_once-Advances :
      (n : ℕ) (q : Queue)
      → IsValid q
      → Advances q (run_once repr process clock worker_id policy lease_seconds n q)
  unfolding run_once
  run_once-Advances n q v =
      run_claimed-Advances n q _ (claim-IsValid worker_id lease_seconds (clock n).claimed_at q v)
        (claim-Claims worker_id lease_seconds (clock n).claimed_at q v)

  -- Where the loop ends: in a valid queue, and unless it raised after a round that found no job.
  abbrev pub Idles : Round (List WorkOutcome) → Type 0
  Idles (q, raised e) = IsValid q
  Idles (q, ok outcomes) =
      IsValid q
      × ((n : ℕ) × (run_once repr process clock worker_id policy lease_seconds n q ≡ (q, ok none)))

  prepend-Idles : (o : WorkOutcome) (r : Round (List WorkOutcome)) → Idles r → Idles (prepend o r)
  unfolding prepend
  prepend-Idles o (q, ok outcomes) h = h
  prepend-Idles o (q, raised e) h = h

  abbrev Ends : Option (Round (List WorkOutcome)) → Type 0
  Ends r = (end : Round (List WorkOutcome)) × (r ≡ some end) × Idles end

  prepended-Ends :
      (o : WorkOutcome) (r : Option (Round (List WorkOutcome))) → Ends r → Ends (prepended o r)
  unfolding prepended
  prepended-Ends o none (end, e, h) = ground arith
  prepended-Ends o (some r) (end, e, h) = (prepend o r, refl, prepend-Idles o r (ground arith))

  go_on-Ends :
      (n : ℕ) (q : Queue) (c : Round (Option WorkOutcome))
      (more : Queue → Option (Round (List WorkOutcome)))
      → run_once repr process clock worker_id policy lease_seconds n q ≡ c
      → Advances q c
      → ((r : Queue) → IsValid r → attempts_left r.jobs < attempts_left q.jobs → Ends (more r))
      → Ends (go_on c more)
  unfolding go_on
  go_on-Ends n q (r, raised e) more same a rest = ((r, raised e), refl, a.valid)
  go_on-Ends n q (r, ok none) more same a rest = (
    (r, ok []),
    refl,
    (
      a.valid,
      (n, ap (run_once repr process clock worker_id policy lease_seconds n) a.moved ∙ same),
    ),
  )
  go_on-Ends n q (r, ok (some o)) more same a rest =
      prepended-Ends o (more r) (rest r a.valid a.moved)

  -- The loop of `run_until_empty` comes to an end on every valid queue: as many rounds as there are
  -- attempts left of all jobs together, and one more, are enough, however the jobs turn out. It ends
  -- in a valid queue, and unless it raises, after a round that found no job that could be claimed.
  pub run_until_empty_ends :
      (fuel n : ℕ) (q : Queue)
      → IsValid q
      → attempts_left q.jobs < fuel
      → (end : Round (List WorkOutcome)) × (run_until_empty repr process clock worker_id policy
            lease_seconds fuel n q
          ≡ some end)
        × Idles end
  unfolding run_until_empty
  run_until_empty_ends zero n q v h = ground arith
  run_until_empty_ends (suc fuel) n q v h =
      go_on-Ends n q _ _ refl (run_once-Advances n q v)
        (λ r w less. run_until_empty_ends fuel (suc n) r w (omega arith))
