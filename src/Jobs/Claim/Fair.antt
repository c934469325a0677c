-- ===== src/Jobs/Claim/Fair.antt =====
-- A job that waits is handed out in its turn.
use mathlib.Core.List.{append_assoc}
use core_engine_ge_m.Base.{
  ℕ, ◌<◌, ◌≡◌, sym, ap, ◌∙◌, subst, String, true, false, Option, some, List, [], ◌∷◌, ◌++◌, lookup,
  insert, lookup-insert, ◌==◌, string_eq, ==-self, Bool-cases, inl, inr, arith, length, contains,
  Outcome, ok,
}
use core_engine_ge_m.Jobs.Model.{pending, Job}
use core_engine_ge_m.Jobs.Queue.{Queue, QueueError, claim, claimed}
use core_engine_ge_m.Jobs.Valid.{IsValid}
use core_engine_ge_m.Jobs.Claim.{Idle, AllIdle, Choice, claim_picks_first}
use core_engine_ge_m.Jobs.Claim.Keeps.{claim-IsValid}

-- The ID of the job that a claim hands out.
abbrev pub handed_id : Outcome QueueError (Option Job) → List String
handed_id (ok (some job)) = job.job_id ∷ []
handed_id _ = []

-- The IDs that these claims hand out, one after the other: worker, lease and time of each.
unfoldable pub handed : List (String × ℕ × ℕ) → Queue → List String
handed [] q = []
handed (call ∷ calls) q = let c = claim call.0 call.1 call.2 q in handed_id c.1 ++ handed calls c.0

module _ (now : ℕ) (q : Queue) (id : String) (job : Job) (found : lookup id q.jobs ≡ some job)
    (waits : job.state ≡ pending) where
  never-Idle : Idle now (lookup id q.jobs) → ⊥
  never-Idle h = ground (arith, rw found at h)

  -- What is passed over does not hold the job, so the job moves up.
  moves_up :
      (before : List String) (chosen : String) (after xs ys : List String)
      → before ++ chosen ∷ after ≡ xs ++ id ∷ ys
      → AllIdle now q.jobs before
      → (chosen == id) ≡ false
      → (zs : List String) × (after ≡ zs ++ id ∷ ys) × (length zs < length xs)
  moves_up [] chosen after [] ys e idle other = ground (arith, ==-self id)
  moves_up [] chosen after (x ∷ xs) ys e idle other = (xs, ground arith, omega arith)
  moves_up (b ∷ before) chosen after [] ys e idle other =
      let same : b ≡ id = ground arith in
      absurd (never-Idle (subst (λ i. Idle now (lookup i q.jobs)) same idle.0))
  moves_up (b ∷ before) chosen after (x ∷ xs) ys e idle other =
      let (zs, s, less) = moves_up before chosen after xs ys (ground arith) idle.1 other in
      (zs, s, omega arith)

  all_idle_absurd : (xs ys : List String) → AllIdle now q.jobs (xs ++ id ∷ ys) → ⊥
  all_idle_absurd [] ys h = never-Idle h.0
  all_idle_absurd (x ∷ xs) ys h = all_idle_absurd xs ys h.1

contains-append :
    (id : String) (xs ys : List String) → contains id ys ≡ true → contains id (xs ++ ys) ≡ true
contains-append id [] ys h = h
contains-append id (x ∷ xs) ys h = ground (arith, contains-append id xs ys h)

-- A PENDING job is handed out in its turn, whatever the workers, leases and times of the claims are:
-- on a valid queue, one claim more than there are IDs before the job in the deque is enough.
pub handed_in_turn :
    (calls : List (String × ℕ × ℕ)) (q : Queue) (id : String) (job : Job) (xs ys : List String)
    → IsValid q
    → lookup id q.jobs ≡ some job
    → job.state ≡ pending
    → q.pending ≡ xs ++ id ∷ ys
    → length xs < length calls
    → contains id (handed calls q) ≡ true
unfolding handed
handed_in_turn [] q id job xs ys v found waits split less = ground arith
handed_in_turn (call ∷ calls) q id job xs ys v found waits split less =
    elim (claim_picks_first call.0 call.1 call.2 q v) [
      | inr (idle, e) ↦
          absurd (all_idle_absurd call.2 q id job found waits xs ys (rw split at idle))
      | inl (c, e) ↦ elim (Bool-cases (c.id == id)) [
        | inl mine ↦ rw e (ground (arith, (v.sound c.id c.job c.found).named))
        | inr other ↦
            let (zs, up, nearer) =
              moves_up call.2 q id job found waits c.before c.id c.after xs ys (sym c.split ∙ split)
                c.passed other in
            contains-append id (handed_id (claim call.0 call.1 call.2 q).1)
              (handed calls (claim call.0 call.1 call.2 q).0)
              (handed_in_turn calls (claim call.0 call.1 call.2 q).0 id job zs (ys ++ c.before)
                (claim-IsValid call.0 call.1 call.2 q v) (rw e (still c other)) waits
                (rw e (ap (λ l. l ++ c.before) up ∙ append_assoc zs (id ∷ ys) c.before))
                (omega arith))
      ]
    ]
  where
    still :
        (c : Choice call.2 q.jobs q.pending)
        → (c.id == id) ≡ false
        → lookup id (insert c.id (claimed call.0 call.1 call.2 c.job) q.jobs) ≡ some job
    still c other =
        rw (lookup-insert c.id id (claimed call.0 call.1 call.2 c.job) q.jobs, other) found
