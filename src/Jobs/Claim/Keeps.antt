-- ===== src/Jobs/Claim/Keeps.antt =====
-- `claim` keeps the queue valid.
use core_engine_ge_m.Base.{
  ℕ, ◌+◌, ◌≤◌, ◌≡◌, refl, String, true, false, Option, ◌∷◌, ◌++◌, insert, count, count-append, ◌==◌,
  string_eq, ==-self, inl, inr, arith,
}
use core_engine_ge_m.Jobs.Model.{JobState, pending, retryable}
use core_engine_ge_m.Jobs.Queue.{Queue, claimable_in, claimed, claim}
use core_engine_ge_m.Jobs.Valid.{SlotIn, IsValid, IsSound, BudgetIn, replace-IsValid}
use core_engine_ge_m.Jobs.Claim.{Choice, claim_picks_first}

-- A claimable job waits, and has an attempt left.
claimable-waits :
    (s : JobState) (retry_at : Option ℕ) (now n : ℕ)
    → claimable_in s retry_at now ≡ true
    → SlotIn s n
    → n ≡ 1
claimable-waits pending retry_at now n h slot = slot
claimable-waits retryable retry_at now n h slot = slot
claimable-waits _ retry_at now n h slot = cc

claimable-budget :
    (s : JobState) (retry_at : Option ℕ) (now used allowed : ℕ)
    → claimable_in s retry_at now ≡ true
    → BudgetIn s used allowed
    → used + 1 ≤ allowed
claimable-budget pending retry_at now used allowed h b = omega arith
claimable-budget retryable retry_at now used allowed h b = omega arith
claimable-budget _ retry_at now used allowed h b = cc

module _ (worker : String) (lease_seconds now : ℕ) (q : Queue) (v : IsValid q)
    (c : Choice now q.jobs q.pending) where
  -- In a valid queue the chosen ID stood in the deque once.
  chosen_once : count c.id (c.after ++ c.before) ≡ 0
  chosen_once =
      let slot : SlotIn c.job.state (count c.id q.pending) = rw c.found at (v.slots c.id) in
      let once : count c.id q.pending ≡ 1 =
        claimable-waits c.job.state c.job.retry_at now _ c.ready slot in
      let split : count c.id (c.before ++ c.id ∷ c.after) ≡ 1 = rw c.split at once in
      ground (
        arith,
        split,
        count-append c.id c.before (c.id ∷ c.after),
        count-append c.id c.after c.before,
        ==-self c.id,
      )

  count-rotated :
      (i : String) → (c.id == i) ≡ false → count i (c.after ++ c.before) ≡ count i q.pending
  count-rotated i other = rw c.split (
      ground
        (arith, other, count-append i c.before (c.id ∷ c.after), count-append i c.after c.before))

  choice-IsValid : IsValid (record q {
    jobs = insert c.id (claimed worker lease_seconds now c.job) q.jobs;
    pending = c.after ++ c.before;
  })
  choice-IsValid =
      replace-IsValid q v c.id c.job (claimed worker lease_seconds now c.job) (c.after ++ c.before)
        c.found refl
        (record {
          named = s.named;
          leased = tt;
          retried = tt;
          budgeted = claimable-budget c.job.state c.job.retry_at now _ _ c.ready s.budgeted;
        })
        chosen_once count-rotated
    where
      s : IsSound c.id c.job
      s = v.sound c.id c.job c.found

pub claim-IsValid :
    (worker : String) (lease_seconds now : ℕ) (q : Queue)
    → IsValid q
    → IsValid (claim worker lease_seconds now q).0
claim-IsValid worker lease_seconds now q v = elim (claim_picks_first worker lease_seconds now q v) [
  | inl (c, e) ↦ rw e (choice-IsValid worker lease_seconds now q v c)
  | inr (idle, e) ↦ rw e v
]
