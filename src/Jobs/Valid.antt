-- ===== src/Jobs/Valid.antt =====
-- What holds of the job queue between two calls, and the one lemma through which every method that
-- rewrites a job keeps it.
pub mod Lease
pub mod Enqueue
pub mod Recover
use core_engine_ge_m.Base.{
  ◌+◌, arith, count-append, ==-self, List, [], ◌∷◌, ◌++◌, ℕ, ◌≤◌, ◌<◌, ◌≡◌, refl, String, false,
  Option, none, some, List, lookup, insert, lookup-insert, lookup-insert_cases, ◌∙◌, sym, ap, subst,
  Distinct, insert-Distinct, count, ◌==◌, string_eq, ==-eq, Bool-cases, inl, inr,
}
use core_engine_ge_m.Jobs.Model.{JobState, pending, running, retryable, Job}
use core_engine_ge_m.Jobs.Queue.{Queue, empty}

-- How often an ID may stand in the deque: once if its job waits, and not at all if it runs.
abbrev pub SlotIn : JobState → ℕ → Type 0
SlotIn pending n = n ≡ 1
SlotIn retryable n = n ≡ 1
SlotIn running n = n ≡ 0
SlotIn _ n = n ≤ 1

abbrev pub Slot : Option Job → ℕ → Type 0
Slot none n = n ≡ 0
Slot (some job) n = SlotIn job.state n

-- A running job has a holder and an expiry, and no other job has either.
abbrev pub LeaseIn : JobState → Option String → Option ℕ → Type 0
LeaseIn running (some _) (some _) = Unit
LeaseIn running _ _ = ⊥
LeaseIn _ none none = Unit
LeaseIn _ _ _ = ⊥

-- A job that waits for a retry has a time for it.
abbrev pub RetryIn : JobState → Option ℕ → Type 0
RetryIn retryable none = ⊥
RetryIn _ _ = Unit

-- A waiting job has an attempt left, and no job has had more than it may.
abbrev pub BudgetIn : JobState → ℕ → ℕ → Type 0
BudgetIn pending used allowed = used < allowed
BudgetIn retryable used allowed = used < allowed
BudgetIn _ used allowed = used ≤ allowed

pub record IsSound (id : String) (job : Job) : Type 0 where
  pub named : job.job_id ≡ id
  pub leased : LeaseIn job.state job.leased_by job.lease_expires_at
  pub retried : RetryIn job.state job.retry_at
  pub budgeted : BudgetIn job.state job.attempt_count job.max_attempts

abbrev pub HasKey : String → Option Job → Type 0
HasKey key none = ⊥
HasKey key (some job) = job.idempotency_key ≡ some key

pub record IsValid (q : Queue) : Type 0 where
  pub distinct : Distinct q.jobs
  pub slots : (id : String) → Slot (lookup id q.jobs) (count id q.pending)
  pub sound : (id : String) (job : Job) → lookup id q.jobs ≡ some job → IsSound id job
  -- A registered key leads to a job that carries it, and a job's key leads to that job.
  pub keyed :
      (key id : String) → lookup key q.by_idempotency_key ≡ some id → HasKey key (lookup id q.jobs)
  pub unique :
      (key id : String) (job : Job)
      → lookup id q.jobs ≡ some job
      → job.idempotency_key ≡ some key
      → lookup key q.by_idempotency_key ≡ some id

pub SlotIn-le : (s : JobState) (n : ℕ) → SlotIn s n → n ≤ 1
SlotIn-le pending n h = omega arith
SlotIn-le _ n h = omega arith

pub BudgetIn-le : (s : JobState) (used allowed : ℕ) → BudgetIn s used allowed → used ≤ allowed
BudgetIn-le pending used allowed h = omega arith
BudgetIn-le _ used allowed h = omega arith

pub count-snoc :
    (i id : String) (ids : List String) → (id == i) ≡ false → count i (ids ++ id ∷ []) ≡ count i ids
count-snoc i id ids h = ground (arith, count-append i ids (id ∷ []))

pub count-snoc_self :
    (id : String) (ids : List String) → count id (ids ++ id ∷ []) ≡ count id ids + 1
count-snoc_self id ids = ground (arith, count-append id ids (id ∷ []), ==-self id)

pub empty-IsValid : IsValid empty
unfolding lookup
empty-IsValid = record {
  distinct = tt;
  slots = λ id. refl;
  sound = λ id job h. cc;
  keyed = λ key id h. cc;
  unique = λ key id job h k. cc;
}

-- `job'` takes the place of `job`, and the deque becomes `deque`.
module _ (q : Queue) (v : IsValid q) (id : String) (job job' : Job) (deque : List String)
    (here : lookup id q.jobs ≡ some job) (same_key : job'.idempotency_key ≡ job.idempotency_key)
    (sound' : IsSound id job') (slot' : SlotIn job'.state (count id deque))
    (others : (i : String) → (id == i) ≡ false → count i deque ≡ count i q.pending) where
  abbrev q' : Queue
  q' = record q { jobs = insert id job' q.jobs; pending = deque }

  slots' : (i : String) → Slot (lookup i q'.jobs) (count i deque)
  slots' i = elim (Bool-cases (id == i)) [
    | inl same ↦ rw (lookup-insert id i job' q.jobs) (rw same (rw (==-eq id i same) at slot'))
    | inr other ↦ rw (lookup-insert id i job' q.jobs) (rw (other, others i other) (v.slots i))
  ]

  sound_all : (i : String) (j : Job) → lookup i q'.jobs ≡ some j → IsSound i j
  sound_all i j h = elim (lookup-insert_cases id i job' j q.jobs h) [
    | inl (same, e) ↦ subst (λ x. IsSound x j) same (subst (IsSound id) e sound')
    | inr (_, old) ↦ v.sound i j old
  ]

  keyed_all :
      (key i : String) → lookup key q.by_idempotency_key ≡ some i → HasKey key (lookup i q'.jobs)
  keyed_all key i h = elim (Bool-cases (id == i)) [
    | inl same ↦
        rw (lookup-insert id i job' q.jobs)
          (rw same (same_key ∙ rw here at (v.keyed key id (rw (← ==-eq id i same) at h))))
    | inr other ↦ rw (lookup-insert id i job' q.jobs) (rw other (v.keyed key i h))
  ]

  unique_all :
      (key i : String) (j : Job)
      → lookup i q'.jobs ≡ some j
      → j.idempotency_key ≡ some key
      → lookup key q.by_idempotency_key ≡ some i
  unique_all key i j h k = elim (lookup-insert_cases id i job' j q.jobs h) [
    | inl (same, e) ↦
        subst (λ x. lookup key q.by_idempotency_key ≡ some x) same
          (v.unique key id job here (sym same_key ∙ ap (λ (x : Job). x.idempotency_key) e ∙ k))
    | inr (_, old) ↦ v.unique key i j old k
  ]

  pub replace-IsValid : IsValid q'
  replace-IsValid = record {
    distinct = insert-Distinct id job' q.jobs v.distinct;
    slots = slots';
    sound = sound_all;
    keyed = keyed_all;
    unique = unique_all;
  }
