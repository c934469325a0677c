-- ===== src/Jobs/Durable/Calls.antt =====
-- Each call on the durable queue keeps the mirror.
use core_engine_ge_m.Base.{
  ℕ, ◌+◌, ◌≤◌, ◌≡◌, refl, subst, String, Option, none, some, lookup, lookup-insert,
  lookup-insert_cases, string_eq, ==-eq, ◌==◌, inl, inr, Bool-cases, if◌then◌else◌,
}
use core_engine_ge_m.Jobs.Model.{is_running, Job}
use core_engine_ge_m.Jobs.Queue
use core_engine_ge_m.Jobs.Queue.{
  Queue, QueueError, check_lease, claimed, known_key, is_holder, lapsed,
}
use core_engine_ge_m.Jobs.Lease
use core_engine_ge_m.Jobs.Lease.{
  Failure, retries, failed_attempt, acked, cancelled_job, push_if, put, visit, is_stale, spent_out,
  recovered_job,
}
use core_engine_ge_m.Jobs.Valid.{IsValid}
use core_engine_ge_m.Jobs.Valid.Enqueue.{IsAdmissible, enqueue-IsValid}
use core_engine_ge_m.Jobs.Valid.Lease.{
  ack-IsValid, fail-IsValid, cancel-IsValid, renew_lease-IsValid,
}
use core_engine_ge_m.Jobs.Claim.{claim_picks_first}
use core_engine_ge_m.Jobs.Claim.Keeps.{claim-IsValid}
use core_engine_ge_m.Jobs.Durable.{
  JobRecord, Durable, saved, enqueue, claim, claim_mirrored, passed, renew_lease, ack, fail, cancel,
}
use core_engine_ge_m.Jobs.Durable.Mirror.{
  IsMirrored, Covers, at_table, mirrored-IsMirrored, written, Wrote-here, ack-Shape, fail-Shape,
  cancel-Shape, enqueue_unseen-Shape, le-leb,
}

module _ (d : Durable) (m : IsMirrored d) where
  open d use {queue, table}

  pub enqueue-IsMirrored :
      (job : Job) → IsAdmissible job → 1 ≤ job.max_attempts → IsMirrored (enqueue job d).0
  unfolding enqueue Queue.enqueue
  enqueue-IsMirrored job fits a =
      mirrored-IsMirrored queue table m _ (enqueue-IsValid queue m.valid job fits)
        (enqueue_unseen-Shape queue table m job a (lookup job.job_id queue.jobs))

  pub ack-IsMirrored :
      (id worker : String) (checked_at now : ℕ) → IsMirrored (ack id worker checked_at now d).0
  unfolding ack Lease.ack
  ack-IsMirrored id worker checked_at now =
      mirrored-IsMirrored queue table m _ (ack-IsValid queue m.valid id worker checked_at now)
        (ack-Shape queue table m id worker checked_at now _ refl)

  pub fail-IsMirrored :
      (id worker : String) (f : Failure) (checked_at now : ℕ)
      → IsMirrored (fail id worker f checked_at now d).0
  unfolding fail Lease.fail
  fail-IsMirrored id worker f checked_at now =
      mirrored-IsMirrored queue table m _ (fail-IsValid queue m.valid id worker f checked_at now)
        (fail-Shape queue table m id worker f checked_at now _ refl)

  pub cancel-IsMirrored : (id : String) (now : ℕ) → IsMirrored (cancel id now d).0
  unfolding cancel Lease.cancel
  cancel-IsMirrored id now =
      mirrored-IsMirrored queue table m _ (cancel-IsValid queue m.valid id now)
        (cancel-Shape queue table m id now _ refl)

  pub claim-IsMirrored :
      (worker : String) (lease_seconds now : ℕ) → IsMirrored (claim worker lease_seconds now d).0
  unfolding claim claim_mirrored saved
  claim-IsMirrored worker lease_seconds now =
      elim (claim_picks_first worker lease_seconds now queue m.valid) [
        | inr (_, e) ↦ rw e m
        | inl (c, e) ↦
            let job' : Job = claimed worker lease_seconds now c.job in
            rw e (
              rw (le-leb job' (m.allowed c.id c.job c.found)) (
                written queue table m _ job'
                  (rw e at (claim-IsValid worker lease_seconds now queue m.valid))
                  (Wrote-here queue table m c.id c.job job' _ refl c.found refl refl)))
      ]

  -- Only the two columns that `Covers` leaves out change.
  renewed_covered :
      (id : String) (job : Job) (until now : ℕ)
      → lookup id queue.jobs ≡ some job
      → IsValid (put id (record job { lease_expires_at = some until; updated_at = now }) queue)
      → IsMirrored (
          at_table
            (put id (record job { lease_expires_at = some until; updated_at = now }) queue)
            table)
  renewed_covered id job until now e v = record {
    valid = v;
    covered = λ i. rw (lookup-insert id i job' queue.jobs) (cover i);
    allowed = λ i j h. elim (lookup-insert_cases id i job' j queue.jobs h) [
      | inl (_, je) ↦ subst (λ (x : Job). 1 ≤ x.max_attempts) je (m.allowed id job e)
      | inr (_, old) ↦ m.allowed i j old
    ];
  }
    where
      job' : Job
      job' = record job { lease_expires_at = some until; updated_at = now }

      renewed-Covers : (r : Option JobRecord) → Covers (some job) r → Covers (some job') r
      renewed-Covers none h = h
      renewed-Covers (some r) h = h

      cover :
          (i : String)
          → Covers (if id == i then some job' else lookup i queue.jobs) (lookup i table.jobs)
      cover i = elim (Bool-cases (id == i)) [
        | inl same ↦ rw same (
            renewed-Covers (lookup i table.jobs) (
              rw (subst (λ x. lookup x queue.jobs ≡ some job) (==-eq id i same) e) at
                (m.covered i)))
        | inr other ↦ rw other (m.covered i)
      ]

  renew_job-IsMirrored :
      (id worker : String) (lease_seconds now : ℕ) (o : Option Job)
      → lookup id queue.jobs ≡ o
      → IsValid (Lease.renew_job id worker lease_seconds now queue o).0
      → IsMirrored (passed table (Lease.renew_job id worker lease_seconds now queue o)).0
  unfolding passed Lease.renew_job
  renew_job-IsMirrored id worker lease_seconds now none e v = m
  renew_job-IsMirrored id worker lease_seconds now (some job) e v =
      elim (Bool-cases (is_running job.state)) [
        | inr idle ↦ rw idle m
        | inl runs ↦ rw runs (elim (Bool-cases (is_holder job.leased_by worker)) [
          | inr other ↦ rw other m
          | inl mine ↦ rw mine (elim (Bool-cases (lapsed job.lease_expires_at now)) [
            | inl late ↦ rw late m
            | inr live ↦
                rw live
                  (renewed_covered id job (now + lease_seconds) now e (rw (runs, mine, live) at v))
          ])
        ])
      ]

  pub renew_lease-IsMirrored :
      (id worker : String) (lease_seconds now : ℕ)
      → IsMirrored (renew_lease id worker lease_seconds now d).0
  unfolding renew_lease Lease.renew_lease
  renew_lease-IsMirrored id worker lease_seconds now =
      renew_job-IsMirrored id worker lease_seconds now _ refl
        (renew_lease-IsValid queue m.valid id worker lease_seconds now)
