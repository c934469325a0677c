-- ===== src/Jobs/Durable/Recovery.antt =====
-- `recover_stale` keeps the mirror, and with it every call in any order.
use mathlib.Core.Option
use core_engine_ge_m.Base.{
  ℕ, ◌≤◌, ◌≡◌, ◌⊎◌, refl, sym, ◌∙◌, ap, subst, String, true, false, Option, none, some, List, [],
  ◌∷◌, Map, lookup, lookup-insert, string_eq, ==-eq, ==-self, ◌==◌, inl, inr, Bool-cases, arith,
  All, values, map, select,
}
use core_engine_ge_m.Jobs.Model.{Job}
use core_engine_ge_m.Jobs.Queue.{Queue}
use core_engine_ge_m.Jobs.Lease
use core_engine_ge_m.Jobs.Lease.{is_stale, recovered_job}
use core_engine_ge_m.Jobs.Valid.{IsValid}
use core_engine_ge_m.Jobs.Valid.Recover.{Current, Current-self, recover_stale-IsValid}
use core_engine_ge_m.Jobs.Recover.{after_recovery, recover_stale_lem}
use core_engine_ge_m.Jobs.Durable.{record_of, JobTable, save, Durable, mirror_all, recover_stale}
use core_engine_ge_m.Jobs.Durable.Mirror.{IsMirrored, Covers, at_table, le-leb}

data In (job : Job) : List Job → Type 0 where
  first : {jobs : List Job} (j : Job) → job ≡ j → In job (j ∷ jobs)
  later : {jobs : List Job} (j : Job) → In job jobs → In job (j ∷ jobs)

-- Under the ID either the record is right already, or the job is still to be mirrored.
Owed : Queue → JobTable → List Job → String → Type 0
Owed q t jobs id =
    Covers (lookup id q.jobs) (lookup id t.jobs)
    ⊎ ((job : Job) × (lookup id q.jobs ≡ some job) × In job jobs)

-- What is to be mirrored stands in the queue under its own ID, and may be recorded.
abbrev Placed : Queue → Job → Type 0
Placed q job = (lookup job.job_id q.jobs ≡ some job) × (1 ≤ job.max_attempts)

module _ (q : Queue) (v : IsValid q) where
  settle :
      (t : JobTable) (job : Job) (jobs : List Job) (id : String)
      → Placed q job
      → Owed q t (job ∷ jobs) id
      → Owed q (save (record_of job) t) jobs id
  unfolding Owed
  settle t job jobs id (at, a) owed = elim (Bool-cases (job.job_id == id)) [
    | inl same ↦ inl (
        rw (lookup-insert job.job_id id (record_of job) t.jobs) (
          rw same
            (rw (subst (λ x. lookup x q.jobs ≡ some job) (==-eq job.job_id id same) at) refl)))
    | inr other ↦ elim owed [
      | inl done ↦ inl (rw (lookup-insert job.job_id id (record_of job) t.jobs) (rw other done))
      | inr (j, e, m) ↦ inr (j, e, rest j e other m)
    ]
  ]
    where
      rest :
          (j : Job)
          → lookup id q.jobs ≡ some j
          → (job.job_id == id) ≡ false
          → In j (job ∷ jobs)
          → In j jobs
      rest j e other (first _ same) =
          let n : job.job_id ≡ id =
            sym (ap (λ (x : Job). x.job_id) same) ∙ (v.sound id j e).named in
          let clash : true ≡ false = sym (==-self id) ∙ subst (λ x. (x == id) ≡ false) n other in cc
      rest j e other (later _ m) = m

  mirror_all_step :
      (recovered : List Job) (t : JobTable) (job : Job) (jobs : List Job)
      → 1 ≤ job.max_attempts
      → mirror_all q recovered t (job ∷ jobs) ≡ mirror_all q recovered (save (record_of job) t) jobs
  unfolding mirror_all
  mirror_all_step recovered t job jobs a = ground (arith, le-leb job a)

  -- The loop mirrors every job of its list.
  mirror_all-Covers :
      (recovered : List Job) (t : JobTable) (jobs : List Job)
      → All (Placed q) jobs
      → ((id : String) → Owed q t jobs id)
      → (id : String)
      → Covers
          (lookup id (mirror_all q recovered t jobs).0.queue.jobs)
          (lookup id (mirror_all q recovered t jobs).0.table.jobs)
  unfolding mirror_all Owed
  mirror_all-Covers recovered t [] p owed id = elim (owed id) [
    | inl done ↦ done
    | inr (j, e, m) ↦ none_left j m
  ]
    where
      none_left : (j : Job) → In j [] → Covers (lookup id q.jobs) (lookup id t.jobs)
      none_left j m = elim m [ ]
  mirror_all-Covers recovered t (job ∷ jobs) p owed id =
      rw (mirror_all_step recovered t job jobs p.0.1) (
        mirror_all-Covers recovered (save (record_of job) t) jobs p.1
          (λ i. settle t job jobs i p.0 (owed i)) id)

  mirror_all-queue :
      (recovered : List Job) (t : JobTable) (jobs : List Job)
      → All (Placed q) jobs
      → (mirror_all q recovered t jobs).0.queue ≡ q
  unfolding mirror_all
  mirror_all-queue recovered t [] p = refl
  mirror_all-queue recovered t (job ∷ jobs) p =
      rw (mirror_all_step recovered t job jobs p.0.1)
        (mirror_all-queue recovered (save (record_of job) t) jobs p.1)

-- The jobs that `recover_stale` returns.
abbrev returned : ℕ → Map String Job → List Job
returned now items = map (recovered_job now) (select (is_stale now) (values items))

In-returned :
    (now : ℕ) (items : Map String Job) (id : String) (job : Job)
    → lookup id items ≡ some job
    → is_stale now job ≡ true
    → In (recovered_job now job) (returned now items)
unfolding lookup
In-returned now [] id job e s = cc
In-returned now ((i, j) ∷ items) id job e s = elim (Bool-cases (i == id)) [
  | inl same ↦
      let found : some j ≡ some job = rw same at e in
      let je : j ≡ job = cc in
      let stale : is_stale now j ≡ true = subst (λ (x : Job). is_stale now x ≡ true) (sym je) s in
      rw stale (first _ (ap (recovered_job now) (sym je)))
  | inr other ↦ elim (Bool-cases (is_stale now j)) [
    | inl stale ↦ rw stale (later _ (In-returned now items id job (rw other at e) s))
    | inr fresh ↦ rw fresh (In-returned now items id job (rw other at e) s)
  ]
]

module _ (now : ℕ) (q : Queue) (t : JobTable) (m : IsMirrored (at_table q t)) where
  after : Queue
  after = (Lease.recover_stale now q).0

  recover_after : IsValid after
  unfolding after
  recover_after = recover_stale-IsValid now q m.valid

  recovered-id : (job : Job) → (recovered_job now job).job_id ≡ job.job_id
  recovered-id job = ground arith

  recovered-max : (job : Job) → (recovered_job now job).max_attempts ≡ job.max_attempts
  recovered-max job = ground arith

  lookup-after :
      (id : String) (o : Option Job)
      → lookup id q.jobs ≡ o
      → lookup id after.jobs ≡ Option.map (after_recovery now) o
  unfolding after
  lookup-after id o e =
      (recover_stale_lem now q m.valid).0 id ∙ ap (Option.map (after_recovery now)) e

  Placed-one :
      (id : String) (job : Job)
      → lookup id q.jobs ≡ some job
      → is_stale now job ≡ true
      → Placed after (recovered_job now job)
  Placed-one id job e stale = (
    subst (λ x. lookup x after.jobs ≡ some (recovered_job now job))
        (sym (recovered-id job ∙ (m.valid.sound id job e).named))
        (lookup-after id (some job) e ∙ rw stale),
    rw (recovered-max job) (m.allowed id job e),
  )

  placed : (items : Map String Job) → Current items q.jobs → All (Placed after) (returned now items)
  placed [] c = tt
  placed ((i, j) ∷ items) c = elim (Bool-cases (is_stale now j)) [
    | inl stale ↦ rw stale (Placed-one i j c.0 stale, placed items c.1)
    | inr fresh ↦ rw fresh (placed items c.1)
  ]

  Owed-of :
      (id : String) (o : Option Job)
      → lookup id q.jobs ≡ o
      → Covers o (lookup id t.jobs)
      → Owed after t (returned now q.jobs) id
  unfolding Owed
  Owed-of id none e c = inl (rw (lookup-after id none e) c)
  Owed-of id (some job) e c = elim (Bool-cases (is_stale now job)) [
    | inl stale ↦ inr (
      recovered_job now job,
      lookup-after id (some job) e ∙ rw stale,
      In-returned now q.jobs id job e stale,
    )
    | inr fresh ↦ inl (rw (lookup-after id (some job) e) (rw fresh c))
  ]

  after-max : (job : Job) → (after_recovery now job).max_attempts ≡ job.max_attempts
  after-max job = ground arith

  after-allowed :
      (id : String) (job : Job) (o : Option Job)
      → lookup id q.jobs ≡ o
      → lookup id after.jobs ≡ some job
      → 1 ≤ job.max_attempts
  after-allowed id job none e h = cc (lookup-after id none e)
  after-allowed id job (some j) e h =
      let same : after_recovery now j ≡ job = cc (lookup-after id (some j) e) in
      subst (λ (x : Job). 1 ≤ x.max_attempts) same (rw (after-max j) (m.allowed id j e))

  recovered_with :
      (jobs : List Job) → jobs ≡ returned now q.jobs → IsMirrored (mirror_all after jobs t jobs).0
  recovered_with jobs e =
      let p : All (Placed after) jobs =
        rw e (placed q.jobs (Current-self q.jobs m.valid.distinct)) in
      let owed : (id : String) → Owed after t jobs id =
        λ id. rw e (Owed-of id (lookup id q.jobs) refl (m.covered id)) in
      let same : (mirror_all after jobs t jobs).0.queue ≡ after =
        mirror_all-queue after after-IsValid jobs t jobs p in
      record {
        valid = rw same after-IsValid;
        covered = mirror_all-Covers after after-IsValid jobs t jobs p owed;
        allowed = λ id job h. after-allowed id job (lookup id q.jobs) refl (rw same at h);
      }
    where
      after-IsValid : IsValid after
      after-IsValid = recover_after

pub recover_stale-IsMirrored :
    (now : ℕ) (d : Durable) → IsMirrored d → IsMirrored (recover_stale now d).0
unfolding recover_stale after
recover_stale-IsMirrored now d m =
    recovered_with now d.queue d.table m _ (recover_stale_lem now d.queue m.valid).2
