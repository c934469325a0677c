-- ===== src/Jobs/Valid/Enqueue.antt =====
-- `enqueue` keeps the queue valid.
use text.Mathlib.TextEquality.{eq_iff}
use core_engine_ge_m.Base.{
  lookup-insert_self, ◌≡◌, refl, String, false, Option, none, some, List, [], ◌∷◌, ◌++◌, lookup,
  insert, lookup-insert, lookup-insert_cases, insert-Distinct, count, ◌==◌, string_eq, ==-self,
  ==-eq, Bool-cases, inl, inr, arith, if◌then◌else◌, subst, ap, ◌∙◌,
}
use core_engine_ge_m.Jobs.Model.{JobState, pending, running, retryable, is_waiting, Job}
use core_engine_ge_m.Jobs.Queue.{
  Queue, known_key, register_key, enqueue_new, existing, enqueue_keyed, enqueue_unseen, enqueue,
}
use core_engine_ge_m.Jobs.Valid.{
  Slot, SlotIn, HasKey, IsSound, IsValid, count-snoc, count-snoc_self,
}

-- What `enqueue` may be given: a job that claims no more than a new job may.
abbrev pub IsAdmissible : Job → Type 0
IsAdmissible job = IsSound job.job_id job

module _ (q : Queue) (v : IsValid q) (job : Job) (fits : IsAdmissible job)
    (unseen : lookup job.job_id q.jobs ≡ none)
    (fresh : known_key job.idempotency_key q.by_idempotency_key ≡ none) where
  abbrev id : String
  id = job.job_id

  abbrev deque : List String
  deque = if is_waiting job.state then q.pending ++ id ∷ [] else q.pending

  absent : count id q.pending ≡ 0
  absent = rw unseen at (v.slots id)

  slot_new :
      (s : JobState)
      → SlotIn s (count id (if is_waiting s then q.pending ++ id ∷ [] else q.pending))
  slot_new pending = omega (arith, count-snoc_self id q.pending, absent)
  slot_new retryable = omega (arith, count-snoc_self id q.pending, absent)
  slot_new running = absent
  slot_new _ = omega (arith, absent)

  others :
      (s : JobState) (i : String)
      → (id == i) ≡ false
      → count i (if is_waiting s then q.pending ++ id ∷ [] else q.pending) ≡ count i q.pending
  others pending i h = count-snoc i id q.pending h
  others retryable i h = count-snoc i id q.pending h
  others _ i h = refl

  slots_new : (i : String) → Slot (lookup i (insert id job q.jobs)) (count i deque)
  slots_new i = elim (Bool-cases (id == i)) [
    | inl same ↦ rw (lookup-insert id i job q.jobs) (
        rw same
          (subst (λ x. SlotIn job.state (count x deque)) (==-eq id i same) (slot_new job.state)))
    | inr other ↦
        rw (lookup-insert id i job q.jobs) (rw (other, others job.state i other) (v.slots i))
  ]

  sound_new : (i : String) (j : Job) → lookup i (insert id job q.jobs) ≡ some j → IsSound i j
  sound_new i j h = elim (lookup-insert_cases id i job j q.jobs h) [
    | inl (same, e) ↦ subst (λ x. IsSound x j) same (subst (IsSound id) e fits)
    | inr (_, old) ↦ v.sound i j old
  ]

  abbrev keys' : (o : Option String) → List (String × String)
  keys' o = register_key o id q.by_idempotency_key

  -- An old key still leads to its job, which is not the new one.
  keyed_old :
      (key i : String)
      → lookup key q.by_idempotency_key ≡ some i
      → HasKey key (lookup i (insert id job q.jobs))
  keyed_old key i h = elim (Bool-cases (id == i)) [
    | inl same ↦ absurd (rw unseen at (rw (← ==-eq id i same) at (v.keyed key i h)))
    | inr other ↦ rw (lookup-insert id i job q.jobs) (rw other (v.keyed key i h))
  ]

  keyed_new :
      (o : Option String)
      → job.idempotency_key ≡ o
      → (key i : String) → lookup key (keys' o) ≡ some i
      → HasKey key (lookup i (insert id job q.jobs))
  keyed_new none e key i h = keyed_old key i h
  keyed_new (some k) e key i h = elim (lookup-insert_cases k key id i q.by_idempotency_key h) [
    | inl (same, at) ↦
        rw (← at) (rw (lookup-insert id id job q.jobs) (rw (==-self id) (e ∙ ap some same)))
    | inr (_, old) ↦ keyed_old key i old
  ]

  unique_new :
      (o : Option String)
      → job.idempotency_key ≡ o
      → known_key o q.by_idempotency_key ≡ none
      → (key i : String) (j : Job) → lookup i (insert id job q.jobs) ≡ some j
      → j.idempotency_key ≡ some key
      → lookup key (keys' o) ≡ some i
  unique_new none e f key i j h k = elim (lookup-insert_cases id i job j q.jobs h) [
    | inl (same, at) ↦ cc (ap (λ (x : Job). x.idempotency_key) at)
    | inr (_, old) ↦ v.unique key i j old k
  ]
  unique_new (some k₀) e f key i j h k = elim (lookup-insert_cases id i job j q.jobs h) [
    | inl (same, at) ↦
        let key_eq : k₀ ≡ key = cc (ap (λ (x : Job). x.idempotency_key) at) in
        rw key_eq (lookup-insert_self key id q.by_idempotency_key ∙ ap some same)
    | inr (_, old) ↦
        let known : lookup key q.by_idempotency_key ≡ some i = v.unique key i j old k in
        ground (arith, known, f, lookup-insert k₀ key id q.by_idempotency_key, eq_iff k₀ key)
  ]

  enqueue_new-IsValid : IsValid (enqueue_new job q)
  unfolding enqueue_new
  enqueue_new-IsValid = record {
    distinct = insert-Distinct id job q.jobs v.distinct;
    slots = slots_new;
    sound = sound_new;
    keyed = keyed_new job.idempotency_key refl;
    unique = unique_new job.idempotency_key refl fresh;
  }

module _ (q : Queue) (v : IsValid q) (job : Job) (fits : IsAdmissible job) where
  existing-IsValid : (o : Option Job) → IsValid (existing q o).0
  unfolding existing
  existing-IsValid none = v
  existing-IsValid (some found) = v

  enqueue_keyed-IsValid :
      lookup job.job_id q.jobs ≡ none
      → (o : Option String) → known_key job.idempotency_key q.by_idempotency_key ≡ o
      → IsValid (enqueue_keyed job q o).0
  unfolding enqueue_keyed
  enqueue_keyed-IsValid unseen none e = enqueue_new-IsValid q v job fits unseen e
  enqueue_keyed-IsValid unseen (some old) e = existing-IsValid (lookup old q.jobs)

  enqueue_unseen-IsValid :
      (o : Option Job) → lookup job.job_id q.jobs ≡ o → IsValid (enqueue_unseen job q o).0
  unfolding enqueue_unseen
  enqueue_unseen-IsValid none e = enqueue_keyed-IsValid e _ refl
  enqueue_unseen-IsValid (some old) e = v

  pub enqueue-IsValid : IsValid (enqueue job q).0
  unfolding enqueue
  enqueue-IsValid = enqueue_unseen-IsValid (lookup job.job_id q.jobs) refl
