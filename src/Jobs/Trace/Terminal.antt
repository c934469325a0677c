-- ===== src/Jobs/Trace/Terminal.antt =====
-- A job that has ended stays as it is.
use core_engine_ge_m.Base.{
  ℕ, ◌+◌, ◌≡◌, refl, String, true, false, Option, none, some, [], ◌∷◌, Map, lookup, insert,
  lookup-insert, string_eq, inl, inr, arith, Distinct,
}
use text.Mathlib.TextEquality.{eq_iff}
use core_engine_ge_m.Jobs.Model.{JobState, is_terminal, is_running, Job}
use core_engine_ge_m.Jobs.Queue.{
  Queue, enqueue, enqueue_new, existing, enqueue_keyed, enqueue_unseen, claim, claimed,
  is_claimable,
}
use core_engine_ge_m.Jobs.Lease.{
  Failure, failed_attempt, acked, cancelled_job, renew_lease, renew_job, ack, ack_job, fail,
  fail_job, cancel, cancel_job, recover_stale, recover_items, visit, recovered_job,
}
use core_engine_ge_m.Jobs.Valid.{IsValid}
use core_engine_ge_m.Jobs.Claim.{claim_picks_first}
use core_engine_ge_m.Jobs.Valid.Recover.{Current, Current-self, visit-Current}
use core_engine_ge_m.Jobs.Trace.{
  Step, enqueues, claims, renews, acks, fails, cancels, recovers, Reach, here, next, Reach-IsValid,
}

module _ (q : Queue) (id : String) (job : Job) (at : lookup id q.jobs ≡ some job)
    (over : is_terminal job.state ≡ true) where
  -- What replaces a live job is under another ID.
  beside_live :
      (i : String) (j j' : Job)
      → lookup i q.jobs ≡ some j
      → is_terminal j.state ≡ false
      → lookup id (insert i j' q.jobs) ≡ some job
  beside_live i j j' e live = ground (arith, lookup-insert i id j' q.jobs, eq_iff i id)

  running_is_live : (s : JobState) → is_running s ≡ true → is_terminal s ≡ false
  running_is_live s h = ground arith

  enqueue_keeps : (new : Job) → lookup id (enqueue new q).0.jobs ≡ some job
  unfolding enqueue enqueue_unseen enqueue_keyed enqueue_new existing
  enqueue_keeps new = ground (arith, lookup-insert new.job_id id new q.jobs, eq_iff new.job_id id)

  renew_job_keeps :
      (i worker : String) (lease_seconds now : ℕ) (o : Option Job)
      → lookup i q.jobs ≡ o
      → lookup id (renew_job i worker lease_seconds now q o).0.jobs ≡ some job
  unfolding renew_job
  renew_job_keeps i worker lease_seconds now none e = at
  renew_job_keeps i worker lease_seconds now (some j) e = ground (
    arith,
    beside_live i j (record j { lease_expires_at = some (now + lease_seconds); updated_at = now })
        e,
  )

  ack_job_keeps :
      (i worker : String) (checked_at now : ℕ) (o : Option Job)
      → lookup i q.jobs ≡ o
      → lookup id (ack_job i worker checked_at now q o).0.jobs ≡ some job
  unfolding ack_job
  ack_job_keeps i worker checked_at now none e = at
  ack_job_keeps i worker checked_at now (some j) e = ground (arith, beside_live i j (acked now j) e)

  fail_job_keeps :
      (i worker : String) (f : Failure) (checked_at now : ℕ) (o : Option Job)
      → lookup i q.jobs ≡ o
      → lookup id (fail_job i worker f checked_at now q o).0.jobs ≡ some job
  unfolding fail_job
  fail_job_keeps i worker f checked_at now none e = at
  fail_job_keeps i worker f checked_at now (some j) e =
      ground (arith, beside_live i j (failed_attempt f now j) e)

  cancel_job_keeps :
      (i : String) (now : ℕ) (o : Option Job)
      → lookup i q.jobs ≡ o
      → lookup id (cancel_job i now q o).0.jobs ≡ some job
  unfolding cancel_job
  cancel_job_keeps i now none e = at
  cancel_job_keeps i now (some j) e = ground (arith, beside_live i j (cancelled_job now j) e)

  claimable-live : (j : Job) (now : ℕ) → is_claimable now j ≡ true → is_terminal j.state ≡ false
  claimable-live j now h = ground arith

  claim_keeps :
      (worker : String) (lease_seconds now : ℕ)
      → IsValid q
      → lookup id (claim worker lease_seconds now q).0.jobs ≡ some job
  claim_keeps worker lease_seconds now v = elim (claim_picks_first worker lease_seconds now q v) [
    | inl (c, e) ↦ rw e (
        beside_live c.id c.job (claimed worker lease_seconds now c.job) c.found
          (claimable-live c.job now c.ready))
    | inr (_, e) ↦ rw e at
  ]

  visit_keeps :
      (i : String) (j : Job) (now : ℕ)
      → lookup i q.jobs ≡ some j
      → lookup id (visit now i j q).jobs ≡ some job
  visit_keeps i j now e = ground (arith, beside_live i j (recovered_job now j) e)

recover_items_keeps :
    (id : String) (job : Job) (now : ℕ) (items : Map String Job) (q : Queue)
    → is_terminal job.state ≡ true
    → Distinct items
    → Current items q.jobs
    → lookup id q.jobs ≡ some job
    → lookup id (recover_items now items q).0.jobs ≡ some job
unfolding recover_items
recover_items_keeps id job now [] q over d c at = at
recover_items_keeps id job now ((i, j) ∷ items) q over d c at =
    recover_items_keeps id job now items (visit now i j q) over d.1
      (visit-Current now q i j items d.0 c.1) (visit_keeps q id job at over i j now c.0)

Step-keeps :
    {q r : Queue} (id : String) (job : Job)
    → Step q r
    → IsValid q
    → is_terminal job.state ≡ true
    → lookup id q.jobs ≡ some job
    → lookup id r.jobs ≡ some job
unfolding renew_lease ack fail cancel recover_stale
Step-keeps {q} id job (enqueues new fits) v over at = enqueue_keeps q id job at over new
Step-keeps {q} id job (claims worker lease_seconds now) v over at =
    claim_keeps q id job at over worker lease_seconds now v
Step-keeps {q} id job (renews i worker lease_seconds now) v over at =
    renew_job_keeps q id job at over i worker lease_seconds now _ refl
Step-keeps {q} id job (acks i worker checked_at now) v over at =
    ack_job_keeps q id job at over i worker checked_at now _ refl
Step-keeps {q} id job (fails i worker f checked_at now) v over at =
    fail_job_keeps q id job at over i worker f checked_at now _ refl
Step-keeps {q} id job (cancels i now) v over at = cancel_job_keeps q id job at over i now _ refl
Step-keeps {q} id job (recovers now) v over at =
    recover_items_keeps id job now q.jobs q over v.distinct (Current-self q.jobs v.distinct) at

-- A job that has succeeded, failed or been cancelled stays exactly as it is, whatever calls follow
-- on a valid queue, when the jobs that they enqueue are admissible.
pub terminal_absorbs :
    (q r : Queue) (id : String) (job : Job)
    → IsValid q
    → Reach q r
    → is_terminal job.state ≡ true
    → lookup id q.jobs ≡ some job
    → lookup id r.jobs ≡ some job
terminal_absorbs q r id job v here over at = at
terminal_absorbs q r id job v (next {r = m} path step) over at =
    Step-keeps id job step (Reach-IsValid v path) over (terminal_absorbs q m id job v path over at)
