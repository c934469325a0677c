-- ===== src/Jobs/Valid/Lease.antt =====
-- `renew_lease`, `ack`, `fail` and `cancel` keep the queue valid.
use core_engine_ge_m.Base.{
  ℕ, ◌+◌, ◌≡◌, refl, String, Bool, true, false, Option, none, some, [], ◌∷◌, ◌++◌, lookup, insert,
  count, string_eq, Bool-cases, inl, inr, arith, sym, subst,
}
use core_engine_ge_m.Jobs.Model.{JobState, running, is_terminal, is_running, Job}
use core_engine_ge_m.Jobs.Queue.{Queue, check_lease, is_holder, lapsed}
use core_engine_ge_m.Jobs.Lease.{
  renew_job, ack_job, fail_job, cancel_job, renew_lease, ack, acked, Failure, retries,
  failed_attempt, push_if, put, fail, cancelled_job, cancel,
}
use core_engine_ge_m.Jobs.Valid.{
  SlotIn-le, BudgetIn-le, SlotIn, LeaseIn, IsSound, IsValid, replace-IsValid, count-snoc,
  count-snoc_self,
}

-- Only a running job passes the test of `_check_lease`.
check_lease-running :
    (job : Job) (worker : String) (now : ℕ)
    → check_lease job worker now ≡ true
    → job.state ≡ running
unfolding check_lease
check_lease-running job worker now h = ground arith

is_running-eq : (s : JobState) → is_running s ≡ true → s ≡ running
is_running-eq s h = ground arith

lease-renewed :
    (s : JobState) (holder : Option String) (expiry : Option ℕ) (until : ℕ)
    → s ≡ running
    → LeaseIn s holder expiry
    → LeaseIn s holder (some until)
lease-renewed running none none until e h = h
lease-renewed running none (some at) until e h = h
lease-renewed running (some w) none until e h = tt
lease-renewed running (some w) (some at) until e h = tt
lease-renewed _ _ _ until e h = absurd (cc)

module _ (q : Queue) (v : IsValid q) (id : String) where
  module _ (job : Job) (here : lookup id q.jobs ≡ some job) where
    slot_here : SlotIn job.state (count id q.pending)
    slot_here = rw here at (v.slots id)

    ack_here : (now : ℕ) → IsValid (record q { jobs = insert id (acked now job) q.jobs })
    ack_here now =
        replace-IsValid q v id job (acked now job) q.pending here refl
          (record {
            named = s.named;
            leased = tt;
            retried = tt;
            budgeted = BudgetIn-le _ _ _ s.budgeted;
          })
          (SlotIn-le _ _ slot_here) (λ i _. refl)
      where
        s : IsSound id job
        s = v.sound id job here

    cancel_here : (now : ℕ) → IsValid (record q { jobs = insert id (cancelled_job now job) q.jobs })
    cancel_here now =
        replace-IsValid q v id job (cancelled_job now job) q.pending here refl
          (record {
            named = s.named;
            leased = tt;
            retried = tt;
            budgeted = BudgetIn-le _ _ _ s.budgeted;
          })
          (SlotIn-le _ _ slot_here) (λ i _. refl)
      where
        s : IsSound id job
        s = v.sound id job here

  ack_job-IsValid :
      (worker : String) (checked_at now : ℕ) (o : Option Job)
      → lookup id q.jobs ≡ o
      → IsValid (ack_job id worker checked_at now q o).0
  unfolding ack_job
  ack_job-IsValid worker checked_at now none here = v
  ack_job-IsValid worker checked_at now (some job) here =
      elim (Bool-cases (check_lease job worker checked_at)) [
        | inl yes' ↦ rw yes' (ack_here job here now)
        | inr no' ↦ rw no' v
      ]

  cancel_job-IsValid :
      (now : ℕ) (o : Option Job) → lookup id q.jobs ≡ o → IsValid (cancel_job id now q o).0
  unfolding cancel_job
  cancel_job-IsValid now none here = v
  cancel_job-IsValid now (some job) here = elim (Bool-cases (is_terminal job.state)) [
    | inl over ↦ rw over v
    | inr live ↦ rw live (cancel_here job here now)
  ]

  renew_here :
      (job : Job) (here : lookup id q.jobs ≡ some job) (now until : ℕ)
      → job.state ≡ running
      → IsValid (record q {
        jobs = insert id (record job { lease_expires_at = some until; updated_at = now }) q.jobs;
      })
  renew_here job here now until runs =
      replace-IsValid q v id job _ q.pending here refl
        (record {
          named = s.named;
          leased = lease-renewed job.state job.leased_by job.lease_expires_at until runs s.leased;
          retried = s.retried;
          budgeted = s.budgeted;
        })
        (slot_here job here) (λ i _. refl)
    where
      s : IsSound id job
      s = v.sound id job here

  renew_job-IsValid :
      (worker : String) (lease_seconds now : ℕ) (o : Option Job)
      → lookup id q.jobs ≡ o
      → IsValid (renew_job id worker lease_seconds now q o).0
  unfolding renew_job
  renew_job-IsValid worker lease_seconds now none here = v
  renew_job-IsValid worker lease_seconds now (some job) here =
      elim (Bool-cases (is_running job.state)) [
        | inr idle ↦ rw idle v
        | inl runs ↦ rw runs (elim (Bool-cases (is_holder job.leased_by worker)) [
          | inr other ↦ rw other v
          | inl mine ↦ rw mine (elim (Bool-cases (lapsed job.lease_expires_at now)) [
            | inl late ↦ rw late v
            | inr live ↦
                rw live
                  (renew_here job here now (now + lease_seconds) (is_running-eq job.state runs))
          ])
        ])
      ]

  retry_here :
      (job : Job) (here : lookup id q.jobs ≡ some job) (f : Failure) (now : ℕ)
      → job.state ≡ running
      → retries f job ≡ true
      → IsValid (record q {
        jobs = insert id (failed_attempt f now job) q.jobs;
        pending = q.pending ++ id ∷ [];
      })
  retry_here job here f now runs again =
      replace-IsValid q v id job (failed_attempt f now job) (q.pending ++ id ∷ []) here refl
        (rw again (record { named = s.named; leased = tt; retried = tt; budgeted = ground arith }))
        (rw again (omega (arith, count-snoc_self id q.pending, idle)))
        (λ i other. count-snoc i id q.pending other)
    where
      s : IsSound id job
      s = v.sound id job here

      idle : count id q.pending ≡ 0
      idle = rw runs at (slot_here job here)

  spent_here :
      (job : Job) (here : lookup id q.jobs ≡ some job) (f : Failure) (now : ℕ)
      → retries f job ≡ false
      → IsValid (record q { jobs = insert id (failed_attempt f now job) q.jobs })
  spent_here job here f now done =
      replace-IsValid q v id job (failed_attempt f now job) q.pending here refl
        (rw done (record {
          named = s.named;
          leased = tt;
          retried = tt;
          budgeted = BudgetIn-le _ _ _ s.budgeted;
        }))
        (rw done (SlotIn-le _ _ (slot_here job here))) (λ i _. refl)
    where
      s : IsSound id job
      s = v.sound id job here

  pushed :
      (job : Job) (f : Failure) (now : ℕ) {b : Bool}
      → b ≡ retries f job
      → IsValid (push_if b id (put id (failed_attempt f now job) q))
      → IsValid (push_if (retries f job) id (put id (failed_attempt f now job) q))
  pushed job f now e h =
      subst (λ b. IsValid (push_if b id (put id (failed_attempt f now job) q))) e h

  fail_job-IsValid :
      (worker : String) (f : Failure) (checked_at now : ℕ) (o : Option Job)
      → lookup id q.jobs ≡ o
      → IsValid (fail_job id worker f checked_at now q o).0
  unfolding fail_job
  fail_job-IsValid worker f checked_at now none here = v
  fail_job-IsValid worker f checked_at now (some job) here =
      elim (Bool-cases (check_lease job worker checked_at)) [
        | inr refused ↦ rw refused v
        | inl mine ↦ rw mine (elim (Bool-cases (retries f job)) [
          | inl again ↦
              pushed job f now (sym again)
                (retry_here job here f now (check_lease-running job worker checked_at mine) again)
          | inr done ↦ pushed job f now (sym done) (spent_here job here f now done)
        ])
      ]

module _ (q : Queue) (v : IsValid q) (id worker : String) where
  pub renew_lease-IsValid :
      (lease_seconds now : ℕ) → IsValid (renew_lease id worker lease_seconds now q).0
  unfolding renew_lease
  renew_lease-IsValid lease_seconds now =
      renew_job-IsValid q v id worker lease_seconds now (lookup id q.jobs) refl

  pub ack-IsValid : (checked_at now : ℕ) → IsValid (ack id worker checked_at now q).0
  unfolding ack
  ack-IsValid checked_at now = ack_job-IsValid q v id worker checked_at now (lookup id q.jobs) refl

  pub fail-IsValid :
      (f : Failure) (checked_at now : ℕ) → IsValid (fail id worker f checked_at now q).0
  unfolding fail
  fail-IsValid f checked_at now =
      fail_job-IsValid q v id worker f checked_at now (lookup id q.jobs) refl

pub cancel-IsValid : (q : Queue) → IsValid q → (id : String) (now : ℕ) → IsValid (cancel id now q).0
unfolding cancel
cancel-IsValid q v id now = cancel_job-IsValid q v id now (lookup id q.jobs) refl
