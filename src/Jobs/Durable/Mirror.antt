-- ===== src/Jobs/Durable/Mirror.antt =====
-- The durable mirror follows the queue, but for the renewals of a lease.
use core_engine_ge_m.Base.{
  ℕ, ◌≤◌, ◌≡◌, refl, sym, ◌∙◌, subst, String, Bool, true, false, Option, none, some, lookup, insert,
  lookup-insert, string_eq, ==-eq, ◌==◌, inl, inr, Bool-cases, arith, Outcome, ok, raised,
  if◌then◌else◌, leb,
}
use core_engine_ge_m.Jobs.Model.{is_terminal, Job}
use core_engine_ge_m.Jobs.Queue
use core_engine_ge_m.Jobs.Queue.{
  Queue, QueueError, check_lease, claimed, known_key, is_holder, lapsed,
}
use core_engine_ge_m.Jobs.Lease
use core_engine_ge_m.Jobs.Lease.{
  Failure, retries, failed_attempt, acked, cancelled_job, push_if, put, visit, is_stale, spent_out,
  recovered_job,
}
use core_engine_ge_m.Jobs.Valid.{IsValid}
use core_engine_ge_m.Jobs.Durable.{
  JobRecord, record_of, JobTable, save, Durable, saved, mirror, mirrored,
}

-- A record without the two columns that a renewal moves.
abbrev pub unleased : JobRecord → JobRecord
unleased r = record r { lease_expires_at = none; updated_at = 0 }

-- A job of the queue has a record that says the same of it.
abbrev pub Covers : Option Job → Option JobRecord → Type 0
Covers none r = Unit
Covers (some job) none = ⊥
Covers (some job) (some r) = unleased r ≡ unleased (record_of job)

pub record IsMirrored (d : Durable) : Type 0 where
  pub valid : IsValid d.queue
  pub covered : (id : String) → Covers (lookup id d.queue.jobs) (lookup id d.table.jobs)
  pub allowed : (id : String) (job : Job) → lookup id d.queue.jobs ≡ some job → 1 ≤ job.max_attempts

-- The call wrote this one job, under its own ID.
pub record Wrote (q q' : Queue) (job : Job) : Type 0 where
  pub looks :
      (i : String) → lookup i q'.jobs ≡ (if job.job_id == i then some job else lookup i q.jobs)
  pub allows : 1 ≤ job.max_attempts

abbrev pub Shape : Queue → Queue × Outcome QueueError Job → Type 0
Shape q (q', ok job) = Wrote q q' job
Shape q (q', raised e) = q' ≡ q

abbrev pub at_table : Queue → JobTable → Durable
at_table q t = record { queue = q; table = t }

pub push_if_jobs : (b : Bool) (id : String) (q : Queue) → (push_if b id q).jobs ≡ q.jobs
push_if_jobs true id q = refl
push_if_jobs false id q = refl

pub le-leb : (job : Job) → 1 ≤ job.max_attempts → leb 1 job.max_attempts ≡ true
le-leb job h = ground arith

module _ (q : Queue) (t : JobTable) (m : IsMirrored (at_table q t)) where
  pub written :
      (q' : Queue) (job : Job)
      → IsValid q'
      → Wrote q q' job
      → IsMirrored (at_table q' (save (record_of job) t))
  written q' job v w = record {
    valid = v;
    covered = λ i. rw (w.looks i, lookup-insert job.job_id i (record_of job) t.jobs) (split i);
    allowed = λ i j e. allow i j (rw (w.looks i) at e);
  }
    where
      split :
          (i : String)
          → Covers
              (if job.job_id == i then some job else lookup i q.jobs)
              (if job.job_id == i then some (record_of job) else lookup i t.jobs)
      split i = elim (Bool-cases (job.job_id == i)) [
        | inl same ↦ rw same refl
        | inr other ↦ rw other (m.covered i)
      ]

      allow :
          (i : String) (j : Job)
          → (if job.job_id == i then some job else lookup i q.jobs) ≡ some j
          → 1 ≤ j.max_attempts
      allow i j e = elim (Bool-cases (job.job_id == i)) [
        | inl same ↦
            let e' : some job ≡ some j = rw same at e in
            let je : job ≡ j = cc in subst (λ (x : Job). 1 ≤ x.max_attempts) je w.allows
        | inr other ↦ m.allowed i j (rw other at e)
      ]

  pub mirrored-IsMirrored :
      (out : Queue × Outcome QueueError Job)
      → IsValid out.0
      → Shape q out
      → IsMirrored (mirrored t out).0
  unfolding mirrored mirror saved
  mirrored-IsMirrored (q', ok job) v w = rw (le-leb job w.allows) (written q' job v w)
  mirrored-IsMirrored (q', raised e) v w = subst (λ x. IsMirrored (at_table x t)) (sym w) m

  -- Each of the calls that answer with a job writes that one job, or raises and writes nothing.
  pub Wrote-here :
      (id : String) (job job' : Job) (q' : Queue)
      → q'.jobs ≡ insert id job' q.jobs
      → lookup id q.jobs ≡ some job
      → job'.job_id ≡ job.job_id
      → job'.max_attempts ≡ job.max_attempts
      → Wrote q q' job'
  Wrote-here id job job' q' e here n a = record {
    looks = λ i.
        rw e (lookup-insert id i job' q.jobs ∙ rw (sym (n ∙ (m.valid.sound id job here).named)));
    allows = rw a (m.allowed id job here);
  }

  pub ack-Shape :
      (id worker : String) (checked_at now : ℕ) (o : Option Job)
      → lookup id q.jobs ≡ o
      → Shape q (Lease.ack_job id worker checked_at now q o)
  unfolding Lease.ack_job
  ack-Shape id worker checked_at now none e = refl
  ack-Shape id worker checked_at now (some job) e =
      elim (Bool-cases (check_lease job worker checked_at)) [
        | inl mine ↦ rw mine (Wrote-here id job (acked now job) _ refl e refl refl)
        | inr not_mine ↦ rw not_mine refl
      ]

  pub fail-Shape :
      (id worker : String) (f : Failure) (checked_at now : ℕ) (o : Option Job)
      → lookup id q.jobs ≡ o
      → Shape q (Lease.fail_job id worker f checked_at now q o)
  unfolding Lease.fail_job
  fail-Shape id worker f checked_at now none e = refl
  fail-Shape id worker f checked_at now (some job) e =
      elim (Bool-cases (check_lease job worker checked_at)) [
        | inl mine ↦ rw mine (
            Wrote-here id job (failed_attempt f now job) _
              (push_if_jobs (retries f job) id (put id (failed_attempt f now job) q)) e refl refl)
        | inr not_mine ↦ rw not_mine refl
      ]

  pub cancel-Shape :
      (id : String) (now : ℕ) (o : Option Job)
      → lookup id q.jobs ≡ o
      → Shape q (Lease.cancel_job id now q o)
  unfolding Lease.cancel_job
  cancel-Shape id now none e = refl
  cancel-Shape id now (some job) e = elim (Bool-cases (is_terminal job.state)) [
    | inl over ↦ rw over refl
    | inr live ↦ rw live (Wrote-here id job (cancelled_job now job) _ refl e refl refl)
  ]

  existing-Shape :
      (id : String) (o : Option Job) → lookup id q.jobs ≡ o → Shape q (Queue.existing q o)
  unfolding Queue.existing
  existing-Shape id none e = refl
  existing-Shape id (some job) e = record {
    looks = λ i. same_or_kept i;
    allows = m.allowed id job e;
  }
    where
      same_or_kept :
          (i : String) → lookup i q.jobs ≡ (if job.job_id == i then some job else lookup i q.jobs)
      same_or_kept i = elim (Bool-cases (job.job_id == i)) [
        | inl same ↦ rw same (
            subst (λ x. lookup x q.jobs ≡ some job)
              (sym (m.valid.sound id job e).named ∙ ==-eq job.job_id i same) e)
        | inr other ↦ rw other refl
      ]

  enqueue_keyed-Shape :
      (job : Job)
      → 1 ≤ job.max_attempts
      → (o : Option String) → Shape q (Queue.enqueue_keyed job q o)
  unfolding Queue.enqueue_keyed Queue.enqueue_new
  enqueue_keyed-Shape job a none = record {
    looks = λ i. lookup-insert job.job_id i job q.jobs;
    allows = a;
  }
  enqueue_keyed-Shape job a (some id) = existing-Shape id (lookup id q.jobs) refl

  pub enqueue_unseen-Shape :
      (job : Job) → 1 ≤ job.max_attempts → (o : Option Job) → Shape q (Queue.enqueue_unseen job q o)
  unfolding Queue.enqueue_unseen
  enqueue_unseen-Shape job a none =
      enqueue_keyed-Shape job a (known_key job.idempotency_key q.by_idempotency_key)
  enqueue_unseen-Shape job a (some old) = refl
