-- ===== src/Jobs/Recover.antt =====
-- What `recover_stale` does to the whole queue, and the instant at which a lease runs out.
use mathlib.Core.Option
use mathlib.Core.List.{append-nil, append_assoc}
use text.Mathlib.TextEquality.{eq_iff}
use core_engine_ge_m.Base.{
  ℕ, ◌≡◌, refl, String, Bool, true, false, Option, none, some, List, [], ◌∷◌, ◌++◌, Map, lookup,
  lookup-insert, Distinct, values, select, map, ◌==◌, string_eq, ==-eq, ==-self, arith,
  if◌then◌else◌, not, ◌&&◌, sym, ◌∙◌, ok, raised, ap,
}
use core_engine_ge_m.Jobs.Model.{Job}
use core_engine_ge_m.Jobs.Queue.{Queue, job_conflict, check_lease}
use core_engine_ge_m.Jobs.Lease.{
  is_stale, spent_out, recovered_job, visit, recover_items, recover_stale, ack, ack_job, acked,
}
use core_engine_ge_m.Jobs.Valid.{IsValid}
use core_engine_ge_m.Jobs.Valid.Recover.{Current, Current-self, visit-Current}
use core_engine_ge_m.Jobs.Ownership.{IsOwner}

-- What becomes of one job.
abbrev pub after_recovery : ℕ → Job → Job
after_recovery now job = if is_stale now job then recovered_job now job else job

-- The IDs that go back into the deque, in the order of the dictionary.
pub requeued_ids : ℕ → Map String Job → List String
requeued_ids now [] = []
requeued_ids now ((id, job) ∷ jobs) =
    let rest = requeued_ids now jobs in
    if is_stale now job && not (spent_out job) then id ∷ rest else rest

abbrev or_else : Option Job → Option Job → Option Job
or_else (some a) b = some a
or_else none b = b

visit-lookup :
    (now : ℕ) (id i : String) (job : Job) (q : Queue)
    → lookup id q.jobs ≡ some job
    → lookup i (visit now id job q).jobs
      ≡ (if id == i then some (after_recovery now job) else lookup i q.jobs)
visit-lookup now id i job q e =
    ground (arith, lookup-insert id i (recovered_job now job) q.jobs, eq_iff id i)

merge :
    (f : Job → Job) (b : Bool) (o old : Option Job) (job : Job)
    → (b ≡ true → o ≡ none)
    → or_else (Option.map f o) (if b then some (f job) else old)
      ≡ or_else (Option.map f (if b then some job else o)) old
merge f true none old job h = refl
merge f true (some a) old job h = cc (h refl)
merge f false o old job h = refl

recover_items-lookup :
    (now : ℕ) (items : Map String Job) (q : Queue) (i : String)
    → Distinct items
    → Current items q.jobs
    → lookup i (recover_items now items q).0.jobs
      ≡ or_else (Option.map (after_recovery now) (lookup i items)) (lookup i q.jobs)
unfolding recover_items lookup
recover_items-lookup now [] q i d c = refl
recover_items-lookup now ((id, job) ∷ items) q i d c =
    recover_items-lookup now items (visit now id job q) i d.1
      (visit-Current now q id job items d.0 c.1)
    ∙ rw (visit-lookup now id i job q c.0) (
        merge (after_recovery now) (id == i) (lookup i items) (lookup i q.jobs) job
          (λ same. rw (==-eq id i same) at d.0))

recover_items-pending :
    (now : ℕ) (items : Map String Job) (q : Queue)
    → (recover_items now items q).0.pending ≡ q.pending ++ requeued_ids now items
unfolding recover_items requeued_ids
recover_items-pending now [] q = sym (append-nil q.pending)
recover_items-pending now ((id, job) ∷ items) q =
    recover_items-pending now items (visit now id job q)
    ∙ ground (arith, append_assoc q.pending (id ∷ []) (requeued_ids now items))

recover_items-keys :
    (now : ℕ) (items : Map String Job) (q : Queue)
    → (recover_items now items q).0.by_idempotency_key ≡ q.by_idempotency_key
unfolding recover_items
recover_items-keys now [] q = refl
recover_items-keys now ((id, job) ∷ items) q =
    recover_items-keys now items (visit now id job q) ∙ ground arith

recover_items-result :
    (now : ℕ) (items : Map String Job) (q : Queue)
    → (recover_items now items q).1 ≡ map (recovered_job now) (select (is_stale now) (values items))
unfolding recover_items
recover_items-result now [] q = refl
recover_items-result now ((id, job) ∷ items) q =
    ground (arith, recover_items-result now items (visit now id job q))

-- The whole effect of `recover_stale` on the jobs, the deque, the answer and the keys.
abbrev pub Recovers : ℕ → Queue → Type 0
Recovers now q =
    ((id : String)
      → lookup id (recover_stale now q).0.jobs ≡ Option.map (after_recovery now) (lookup id q.jobs))
    × ((recover_stale now q).0.pending ≡ q.pending ++ requeued_ids now q.jobs)
    × ((recover_stale now q).1 ≡ map (recovered_job now) (select (is_stale now) (values q.jobs)))
    × ((recover_stale now q).0.by_idempotency_key ≡ q.by_idempotency_key)

-- The whole effect of `recover_stale` on a valid queue. A running job whose lease has run out is
-- replaced, by a FAILED one if its attempts are used up and by a PENDING one otherwise, and every
-- other job is as it was; the IDs of the PENDING ones are appended to the deque; the jobs that
-- were replaced are returned; the idempotency keys are as they were.
pub recover_stale_lem : (now : ℕ) (q : Queue) → IsValid q → Recovers now q
unfolding recover_stale
recover_stale_lem now q v = (
  λ id.
      recover_items-lookup now q.jobs q id v.distinct (Current-self q.jobs v.distinct)
      ∙ absorb (lookup id q.jobs),
  recover_items-pending now q.jobs q,
  recover_items-result now q.jobs q,
  recover_items-keys now q.jobs q,
)
  where
    absorb :
        (o : Option Job)
        → or_else (Option.map (after_recovery now) o) o ≡ Option.map (after_recovery now) o
    absorb none = refl
    absorb (some job) = refl

after_recovery-fresh : (now : ℕ) (job : Job) → is_stale now (after_recovery now job) ≡ false
after_recovery-fresh now job = ground arith

-- After `recover_stale` on a valid queue no running job's lease has run out: running it again at the
-- same time finds nothing to recover.
pub none_stale_after :
    (now : ℕ) (q : Queue) (id : String) (job : Job)
    → IsValid q
    → lookup id (recover_stale now q).0.jobs ≡ some job
    → is_stale now job ≡ false
none_stale_after now q id job v e = from_map (lookup id q.jobs) ((recover_stale_lem now q v).0 id)
  where
    from_map :
        (o : Option Job)
        → lookup id (recover_stale now q).0.jobs ≡ Option.map (after_recovery now) o
        → is_stale now job ≡ false
    from_map none h = cc
    from_map (some j) h =
        let same : after_recovery now j ≡ job = cc in rw same at (after_recovery-fresh now j)

-- At the very instant at which a lease on a valid queue expires both sides have the job: its owner can still
-- acknowledge it, and `recover_stale` takes it away, after which the owner's call raises.
pub expiry_instant :
    (q : Queue) (id worker : String) (now later : ℕ) (job : Job)
    → IsValid q
    → IsOwner q id worker now job
    → job.lease_expires_at ≡ some now
    → ((ack id worker now later q).1 ≡ ok (acked later job))
      × ((ack id worker now later (recover_stale now q).0).1 ≡ raised job_conflict)
unfolding ack ack_job check_lease
expiry_instant q id worker now later job v own at =
    let taken : lookup id (recover_stale now q).0.jobs ≡ some (after_recovery now job) =
      (recover_stale_lem now q v).0 id ∙ ap (Option.map (after_recovery now)) own.found in
    (ground (arith, own.found, ==-self worker), ground (arith, taken))
