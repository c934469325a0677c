-- ===== src/Jobs/Valid/Recover.antt =====
-- `recover_stale` keeps the queue valid.
use core_engine_ge_m.Base.{
  ℕ, ◌≡◌, refl, String, true, false, none, some, [], ◌∷◌, ◌++◌, Map, lookup, insert, lookup-insert,
  Distinct, All, count, string_eq, ==-self, Bool-cases, inl, inr, arith,
}
use text.Mathlib.TextEquality.{eq_iff}
use core_engine_ge_m.Jobs.Model.{running, Job}
use core_engine_ge_m.Jobs.Queue.{Queue}
use core_engine_ge_m.Jobs.Lease.{
  is_stale, spent_out, given_up, requeued, visit, recover_items, recover_stale,
}
use core_engine_ge_m.Jobs.Valid.{
  SlotIn, SlotIn-le, BudgetIn-le, IsSound, IsValid, replace-IsValid, count-snoc, count-snoc_self,
}

-- The items are what the queue has under their IDs.
abbrev pub Current : Map String Job → Map String Job → Type 0
Current items jobs = All (λ e. lookup e.0 jobs ≡ some e.1) items

-- Writing another ID keeps it.
pub Current-insert :
    (items : Map String Job) (id : String) (job : Job) (jobs : Map String Job)
    → lookup id items ≡ none
    → Current items jobs
    → Current items (insert id job jobs)
unfolding lookup
Current-insert [] id job jobs absent c = tt
Current-insert ((i, j) ∷ items) id job jobs absent c = (
  ground (arith, lookup-insert id i job jobs, eq_iff id i, eq_iff i id, absent, c.0),
  Current-insert items id job jobs (ground (arith, absent)) c.1,
)

Current-cons :
    (items : Map String Job) (i : String) (j : Job) (jobs : Map String Job)
    → lookup i items ≡ none
    → Current items jobs
    → Current items ((i, j) ∷ jobs)
unfolding lookup
Current-cons [] i j jobs absent c = tt
Current-cons ((k, x) ∷ items) i j jobs absent c = (
  ground (arith, eq_iff i k, eq_iff k i, absent, c.0),
  Current-cons items i j jobs (ground (arith, absent)) c.1,
)

-- A dictionary is what it has under its own IDs.
pub Current-self : (jobs : Map String Job) → Distinct jobs → Current jobs jobs
unfolding lookup
Current-self [] d = tt
Current-self ((i, j) ∷ jobs) d =
    (rw (==-self i), Current-cons jobs i j jobs d.0 (Current-self jobs d.1))

is_stale-running : (now : ℕ) (job : Job) → is_stale now job ≡ true → job.state ≡ running
is_stale-running now job h = ground arith

module _ (now : ℕ) (q : Queue) (v : IsValid q) (id : String) (job : Job)
    (here : lookup id q.jobs ≡ some job) where
  s : IsSound id job
  s = v.sound id job here

  slot : SlotIn job.state (count id q.pending)
  slot = rw here at (v.slots id)

  gave_up : IsValid (record q { jobs = insert id (given_up now job) q.jobs })
  gave_up =
      replace-IsValid q v id job (given_up now job) q.pending here refl
        (record {
          named = s.named;
          leased = tt;
          retried = tt;
          budgeted = BudgetIn-le _ _ _ s.budgeted;
        })
        (SlotIn-le _ _ slot) (λ i _. refl)

  requeue :
      job.state ≡ running
      → spent_out job ≡ false
      → IsValid
          (record q { jobs = insert id (requeued now job) q.jobs; pending = q.pending ++ id ∷ [] })
  requeue runs left =
      replace-IsValid q v id job (requeued now job) (q.pending ++ id ∷ []) here refl
        (record { named = s.named; leased = tt; retried = tt; budgeted = ground arith })
        (omega (arith, count-snoc_self id q.pending, idle))
        (λ i other. count-snoc i id q.pending other)
    where
      idle : count id q.pending ≡ 0
      idle = rw runs at slot

  visit-IsValid : IsValid (visit now id job q)
  visit-IsValid = elim (Bool-cases (is_stale now job)) [
    | inr fresh ↦ rw fresh v
    | inl stale ↦ rw stale (elim (Bool-cases (spent_out job)) [
      | inl spent ↦ rw spent gave_up
      | inr left ↦ rw left (requeue (is_stale-running now job stale) left)
    ])
  ]

-- A visit changes nothing under another ID.
pub visit-Current :
    (now : ℕ) (q : Queue) (id : String) (job : Job) (items : Map String Job)
    → lookup id items ≡ none
    → Current items q.jobs
    → Current items (visit now id job q).jobs
visit-Current now q id job items absent c = elim (Bool-cases (is_stale now job)) [
  | inr fresh ↦ rw fresh c
  | inl stale ↦ rw stale (elim (Bool-cases (spent_out job)) [
    | inl spent ↦ rw spent (Current-insert items id (given_up now job) q.jobs absent c)
    | inr left ↦ rw left (Current-insert items id (requeued now job) q.jobs absent c)
  ])
]

recover_items-IsValid :
    (now : ℕ) (items : Map String Job) (q : Queue)
    → Distinct items
    → Current items q.jobs
    → IsValid q
    → IsValid (recover_items now items q).0
unfolding recover_items
recover_items-IsValid now [] q d c v = v
recover_items-IsValid now ((id, job) ∷ items) q d c v =
    recover_items-IsValid now items (visit now id job q) d.1
      (visit-Current now q id job items d.0 c.1) (visit-IsValid now q v id job c.0)

pub recover_stale-IsValid : (now : ℕ) (q : Queue) → IsValid q → IsValid (recover_stale now q).0
unfolding recover_stale
recover_stale-IsValid now q v =
    recover_items-IsValid now q.jobs q v.distinct (Current-self q.jobs v.distinct) v
