-- ===== src/Jobs/Claim.antt =====
-- What `claim` chooses: the first claimable ID of the deque, in queue order. The IDs passed over
-- are rotated behind the rest.
pub mod Keeps
pub mod Fair
use mathlib.Core.List.{append-nil, append_assoc}
use native.Mathlib.Nat.{zero-add, suc-add}
use core_engine_ge_m.Base.{
  ℕ, zero, suc, length-append, subst, ◌+◌, ◌≤◌, ◌≡◌, refl, String, Bool, true, false, Option, none,
  some, List, [], ◌∷◌, ◌++◌, Map, lookup, insert, length, count, count-append, All, ◌==◌, string_eq,
  ==-self, Bool-cases, Option-cases, inl, inr, ◌⊎◌, arith, if◌then◌else◌, Outcome, ok, ap, ◌∙◌, sym,
}
use core_engine_ge_m.Jobs.Model.{Job, JobState, pending, retryable, running}
use core_engine_ge_m.Jobs.Queue.{
  Queue, Call, is_claimable, claimable_in, claim_scan, claimed, claim_job, claim_chosen, claim,
}
use core_engine_ge_m.Jobs.Valid.{Slot, SlotIn, IsValid, IsSound, BudgetIn, replace-IsValid}

-- The ID has a job, which cannot be claimed now.
abbrev pub Idle : ℕ → Option Job → Type 0
Idle now none = ⊥
Idle now (some job) = is_claimable now job ≡ false

abbrev pub AllIdle : ℕ → Map String Job → List String → Type 0
AllIdle now jobs = All (λ id. Idle now (lookup id jobs))

-- The first claimable ID of a deque, and what stands before and behind it.
pub record Choice (now : ℕ) (jobs : Map String Job) (deque : List String) : Type 0 where
  pub before : List String
  pub id : String
  pub after : List String
  pub job : Job
  pub split : deque ≡ before ++ id ∷ after
  pub passed : AllIdle now jobs before
  pub found : lookup id jobs ≡ some job
  pub ready : is_claimable now job ≡ true

abbrev Known : Option Job → Type 0
Known none = ⊥
Known (some job) = Unit

module _ (now : ℕ) (jobs : Map String Job) where
  -- One round of the loop, at an ID that is passed over and at one that is chosen.
  scan_pass :
      (rounds : ℕ) (x : String) (rest : List String) (o : Option Job)
      → lookup x jobs ≡ o
      → Idle now o
      → claim_scan (suc rounds) now jobs (x ∷ rest) ≡ claim_scan rounds now jobs (rest ++ x ∷ [])
  unfolding claim_scan
  scan_pass rounds x rest none e h = absurd h
  scan_pass rounds x rest (some job) e h = ground arith

  scan_take :
      (rounds : ℕ) (x : String) (rest : List String) (job : Job)
      → lookup x jobs ≡ some job
      → is_claimable now job ≡ true
      → claim_scan (suc rounds) now jobs (x ∷ rest) ≡ (rest, ok (some x))
  unfolding claim_scan
  scan_take rounds x rest job e h = ground arith

  scan_done : (deque : List String) → claim_scan 0 now jobs deque ≡ (deque, ok none)
  unfolding claim_scan
  scan_done deque = refl

  claim_scan-idle :
      (xs ys : List String)
      → AllIdle now jobs xs
      → claim_scan (length xs) now jobs (xs ++ ys) ≡ (ys ++ xs, ok none)
  claim_scan-idle [] ys h = scan_done ys ∙ ap (λ l. (l, ok none)) (sym (append-nil ys))
  claim_scan-idle (x ∷ xs) ys h =
      scan_pass (length xs) x (xs ++ ys) (lookup x jobs) refl h.0
      ∙ rw append_assoc (claim_scan-idle xs (ys ++ x ∷ []) h.1 ∙ rw append_assoc)

  claim_scan-choice :
      (before : List String) (id : String) (after : List String) (job : Job) (more : ℕ)
      → AllIdle now jobs before
      → lookup id jobs ≡ some job
      → is_claimable now job ≡ true
      → claim_scan (length before + suc more) now jobs (before ++ id ∷ after)
        ≡ (after ++ before, ok (some id))
  claim_scan-choice [] id after job more h found ready =
      rw (zero-add, append-nil) (scan_take more id after job found ready)
  claim_scan-choice (x ∷ before) id after job more h found ready = rw suc-add (
      scan_pass (length before + suc more) x (before ++ id ∷ after) (lookup x jobs) refl h.0
      ∙ rw append_assoc (
          claim_scan-choice before id (after ++ x ∷ []) job more h.1 found ready ∙ rw append_assoc))

  -- A deque whose IDs all have jobs has a first claimable one, or none.
  choose :
      (deque : List String)
      → All (λ id. Known (lookup id jobs)) deque
      → Choice now jobs deque ⊎ AllIdle now jobs deque
  choose [] k = inr tt
  choose (x ∷ xs) k = choose_head x xs (lookup x jobs) refl k.0 (choose xs k.1)
    where
      choose_head :
          (x : String) (xs : List String) (o : Option Job)
          → lookup x jobs ≡ o
          → Known o
          → Choice now jobs xs ⊎ AllIdle now jobs xs
          → Choice now jobs (x ∷ xs) ⊎ AllIdle now jobs (x ∷ xs)
      choose_head x xs none e k rest = absurd k
      choose_head x xs (some job) e k rest = elim (Bool-cases (is_claimable now job)) [
        | inl ready ↦ inl (record {
          before = [];
          id = x;
          after = xs;
          job = job;
          split = refl;
          passed = tt;
          found = e;
          ready = ready;
        })
        | inr idle ↦ elim rest [
          | inr none' ↦ inr (rw e idle, none')
          | inl c ↦ inl (record {
            before = x ∷ c.before;
            id = c.id;
            after = c.after;
            job = c.job;
            split = ap (λ l. x ∷ l) c.split;
            passed = (rw e idle, c.passed);
            found = c.found;
            ready = c.ready;
          })
        ]
      ]

  Known-deque :
      (deque : List String)
      → ((id : String) → lookup id jobs ≡ none → count id deque ≡ 0)
      → All (λ id. Known (lookup id jobs)) deque
  Known-deque [] h = tt
  Known-deque (x ∷ xs) h =
      (known_head (lookup x jobs) refl, Known-deque xs (λ id e. ground (arith, h id e)))
    where
      known_head : (o : Option Job) → lookup x jobs ≡ o → Known o
      known_head none e = ground (arith, h x e, ==-self x)
      known_head (some job) e = tt

module _ (worker : String) (lease_seconds now : ℕ) (q : Queue) where
  claim_chosen-eq :
      (deque : List String) (id : String) (job : Job)
      → lookup id q.jobs ≡ some job
      → claim_chosen worker lease_seconds now (record q { pending = deque }) (ok (some id)) ≡ (
        record q {
          jobs = insert id (claimed worker lease_seconds now job) q.jobs;
          pending = deque;
        },
        ok (some (claimed worker lease_seconds now job)),
      )
  unfolding claim_chosen claim_job
  claim_chosen-eq deque id job e = rw e

  scan-Choice :
      (c : Choice now q.jobs q.pending)
      → claim_scan (length q.pending) now q.jobs q.pending ≡ (c.after ++ c.before, ok (some c.id))
  scan-Choice c =
      rw (c.split, length-append)
        (claim_scan-choice now q.jobs c.before c.id c.after c.job (length c.after) c.passed c.found
          c.ready)

  scan-idle :
      AllIdle now q.jobs q.pending
      → claim_scan (length q.pending) now q.jobs q.pending ≡ (q.pending, ok none)
  scan-idle h =
      subst (λ l. claim_scan (length q.pending) now q.jobs l ≡ (q.pending, ok none))
        (append-nil q.pending) (claim_scan-idle now q.jobs q.pending [] h)

  claim-Choice :
      (c : Choice now q.jobs q.pending)
      → claim worker lease_seconds now q ≡ (
        record q {
          jobs = insert c.id (claimed worker lease_seconds now c.job) q.jobs;
          pending = c.after ++ c.before;
        },
        ok (some (claimed worker lease_seconds now c.job)),
      )
  unfolding claim
  claim-Choice c = rw (scan-Choice c) (claim_chosen-eq (c.after ++ c.before) c.id c.job c.found)

  claim-idle : AllIdle now q.jobs q.pending → claim worker lease_seconds now q ≡ (q, ok none)
  unfolding claim claim_chosen
  claim-idle h = rw (scan-idle h)

-- The first claimable job of the deque becomes RUNNING under a lease of the worker, its attempts go
-- up by one, and the IDs before it are rotated behind the rest; or no job can be claimed.
abbrev pub ClaimsFirst : String → ℕ → ℕ → Queue → Type 0
ClaimsFirst worker lease_seconds now q =
    ((c : Choice now q.jobs q.pending) × (claim worker lease_seconds now q ≡ (
      record q {
        jobs = insert c.id (claimed worker lease_seconds now c.job) q.jobs;
        pending = c.after ++ c.before;
      },
      ok (some (claimed worker lease_seconds now c.job)),
    )))
    ⊎ (AllIdle now q.jobs q.pending × (claim worker lease_seconds now q ≡ (q, ok none)))

-- On a valid queue `claim` hands out the first claimable job of the deque: it becomes RUNNING under
-- a lease of the worker, its attempts go up by one, and the IDs before it are rotated behind the
-- rest. If no job of the deque can be claimed, the answer is `None` and the queue is as it was.
pub claim_picks_first :
    (worker : String) (lease_seconds now : ℕ) (q : Queue)
    → IsValid q
    → ClaimsFirst worker lease_seconds now q
claim_picks_first worker lease_seconds now q v =
    elim (choose now q.jobs q.pending (Known-deque now q.jobs q.pending absent)) [
      | inl c ↦ inl (c, claim-Choice worker lease_seconds now q c)
      | inr idle ↦ inr (idle, claim-idle worker lease_seconds now q idle)
    ]
  where
    absent : (id : String) → lookup id q.jobs ≡ none → count id q.pending ≡ 0
    absent id e = rw e at (v.slots id)
