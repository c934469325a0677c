-- ===== src/Jobs/Ownership.antt =====
-- Who may act on a running job: `renew_lease`, `ack` and `fail` against the holder of the lease.
use core_engine_ge_m.Base.{
  ℕ, ◌+◌, ◌≤◌, ◌≡◌, ◌⊎◌, ◌↔◌, refl, String, true, false, Option, none, some, lookup, string_eq,
  ==-self, Bool-cases, inl, inr, arith, sym, ◌∙◌, ok, raised,
}
use text.Mathlib.TextEquality.{eq_iff}
use core_engine_ge_m.Jobs.Model.{running, Job}
use core_engine_ge_m.Jobs.Queue.{
  Queue, QueueError, job_not_found, job_conflict, check_lease, is_holder, lapsed,
}
use core_engine_ge_m.Jobs.Lease.{
  Failure, retries, failed_attempt, acked, push_if, put, renew_lease, renew_job, ack, ack_job, fail,
  fail_job,
}

-- The worker holds the job's lease, and the lease has not run out at `now`.
pub record IsOwner (q : Queue) (id worker : String) (now : ℕ) (job : Job) : Type 0 where
  pub found : lookup id q.jobs ≡ some job
  pub runs : job.state ≡ running
  pub holds : job.leased_by ≡ some worker
  pub lives : (at : ℕ) → job.lease_expires_at ≡ some at → now ≤ at

lives_of : (o : Option ℕ) (now : ℕ) → lapsed o now ≡ false → (at : ℕ) → o ≡ some at → now ≤ at
lives_of none now h at e = cc
lives_of (some a) now h at e = ground arith

lapsed_of : (o : Option ℕ) (now : ℕ) → ((at : ℕ) → o ≡ some at → now ≤ at) → lapsed o now ≡ false
lapsed_of none now h = refl
lapsed_of (some a) now h = ground (arith, h a refl)

holder_iff : (o : Option String) (worker : String) → (is_holder o worker ≡ true) ↔ (o ≡ some worker)
holder_iff none worker = ground arith
holder_iff (some w) worker = ground (arith, eq_iff w worker)

pub check_lease_iff :
    (job : Job) (worker : String) (now : ℕ)
    → (check_lease job worker now ≡ true) ↔ (
        (job.state ≡ running)
        × (job.leased_by ≡ some worker)
        × (lapsed job.lease_expires_at now ≡ false))
unfolding check_lease
check_lease_iff job worker now = ground (arith, holder_iff job.leased_by worker)

module _ (q : Queue) (id worker : String) (now : ℕ) where
  owner_checked : (job : Job) → IsOwner q id worker now job → check_lease job worker now ≡ true
  owner_checked job o =
      (check_lease_iff job worker now).1
        (o.runs, o.holds, lapsed_of job.lease_expires_at now o.lives)

  checked-IsOwner :
      (job : Job)
      → lookup id q.jobs ≡ some job
      → check_lease job worker now ≡ true
      → IsOwner q id worker now job
  checked-IsOwner job e c =
      let (runs, holds, live) = (check_lease_iff job worker now).0 c in
      record {
        found = e;
        runs = runs;
        holds = holds;
        lives = lives_of job.lease_expires_at now live;
      }

  -- What each of the three calls does when it is allowed.
  pub record Allowed (f : Failure) (lease_seconds later : ℕ) (job : Job) : Type 0 where
    pub acks : ack id worker now later q ≡ (put id (acked later job) q, ok (acked later job))
    pub fails : fail id worker f now later q ≡ (
      push_if (retries f job) id (put id (failed_attempt f later job) q),
      ok (failed_attempt f later job),
    )
    pub renews : renew_lease id worker lease_seconds now q ≡ (
      put id (record job { lease_expires_at = some (now + lease_seconds); updated_at = now }) q,
      ok true,
    )

  -- And when it is not: an exception or `False`, and no change.
  pub record Refused (f : Failure) (lease_seconds later : ℕ) : Type 0 where
    pub why : QueueError
    pub acks : ack id worker now later q ≡ (q, raised why)
    pub fails : fail id worker f now later q ≡ (q, raised why)
    pub renews : renew_lease id worker lease_seconds now q ≡ (q, ok false)

  module _ (f : Failure) (lease_seconds later : ℕ) where
    pub act-Allowed : (job : Job) → IsOwner q id worker now job → Allowed f lease_seconds later job
    unfolding ack ack_job fail fail_job renew_lease renew_job
    act-Allowed job o = record {
      acks = rw (o.found, owner_checked job o);
      fails = rw (o.found, owner_checked job o);
      renews = rw o.found (
          ground
            (arith, o.runs, o.holds, lapsed_of job.lease_expires_at now o.lives, ==-self worker));
    }

    act-Refused :
        (o : Option Job)
        → lookup id q.jobs ≡ o
        → ((job : Job) → o ≡ some job → check_lease job worker now ≡ false)
        → Refused f lease_seconds later
    unfolding ack ack_job fail fail_job renew_lease renew_job check_lease
    act-Refused none e h = record { why = job_not_found; acks = rw e; fails = rw e; renews = rw e }
    act-Refused (some job) e h = record {
      why = job_conflict;
      acks = ground (arith, h job refl);
      fails = ground (arith, h job refl);
      renews = ground (arith, h job refl);
    }

-- The worker owns the job and each of the three calls does its update, or it owns none and each is
-- refused.
abbrev pub OwnerActs : Queue → String → String → ℕ → ℕ → ℕ → Failure → Type 0
OwnerActs q id worker now later lease_seconds f =
    ((job : Job) × IsOwner q id worker now job × Allowed q id worker now f lease_seconds later job)
    ⊎ (((job : Job) → ¬ IsOwner q id worker now job)
        × Refused q id worker now f lease_seconds later)

-- At any moment either the worker is the owner of the job, and `ack`, `fail` and `renew_lease` do
-- exactly their update and succeed, or it is not, and all three leave the queue as it is and
-- report an exception or `False`. The owner is the worker named on a RUNNING job's lease, until
-- the expiry and at it.
pub owner_acts :
    (q : Queue) (id worker : String) (now later lease_seconds : ℕ) (f : Failure)
    → OwnerActs q id worker now later lease_seconds f
owner_acts q id worker now later lease_seconds f = by_lookup (lookup id q.jobs) refl
  where
    refuse :
        (o : Option Job)
        → lookup id q.jobs ≡ o
        → ((job : Job) → o ≡ some job → check_lease job worker now ≡ false)
        → (((job : Job) → ¬ IsOwner q id worker now job)
            × Refused q id worker now f lease_seconds later)
    refuse o e h = (
      λ job own. cc (h job (sym e ∙ own.found), owner_checked q id worker now job own),
      act-Refused q id worker now f lease_seconds later o e h,
    )

    by_lookup :
        (o : Option Job)
        → lookup id q.jobs ≡ o
        → ((job : Job) × IsOwner q id worker now job
            × Allowed q id worker now f lease_seconds later job)
          ⊎ (((job : Job) → ¬ IsOwner q id worker now job)
              × Refused q id worker now f lease_seconds later)
    by_lookup none e = inr (refuse none e (λ job h. cc))
    by_lookup (some job) e = elim (Bool-cases (check_lease job worker now)) [
      | inl c ↦
          let own : IsOwner q id worker now job = checked-IsOwner q id worker now job e c in
          inl (job, own, act-Allowed q id worker now f lease_seconds later job own)
      | inr c ↦ inr (refuse (some job) e (λ j h. cc))
    ]
