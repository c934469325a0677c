-- ===== src/Jobs/Idempotency/Agreement.antt =====
-- Callers that race on one key agree on its job.
use text.Mathlib.TextEquality.{eq_iff}
use core_engine_ge_m.Base.{
  ℕ, ◌≡◌, ◌↔◌, refl, String, true, false, Option, none, some, List, [], ◌∷◌, lookup, lookup-insert,
  lookup-delete, lookup-insert_self, ◌==◌, string_eq, if◌then◌else◌, arith,
}
use core_engine_ge_m.Jobs.Idempotency.{
  IdempotencyRecord, Store, register, get_or_create, get_record, remove,
}

-- The calls of other workers that fall between two looks at the store, each under the lock.
abbrev pub Calls : Type 0
Calls = List (String × String × ℕ)

pub run : Calls → Store → Store
run [] store = store
run ((key, job_id, now) ∷ calls) store = run calls (get_or_create key job_id now store).0

-- A call keeps what a key stands for.
register_keeps :
    (key k job_id : String) (now : ℕ) (store : Store) (r : IdempotencyRecord)
    (o : Option IdempotencyRecord)
    → lookup k store ≡ o
    → lookup key store ≡ some r
    → lookup key (register k job_id now store o).0 ≡ some r
unfolding register
register_keeps key k job_id now store r (some old) e h = h
register_keeps key k job_id now store r none e h = ground (
  arith,
  eq_iff k key,
  lookup-insert k key (record { key = k; job_id = job_id; created_at = now }) store,
)

run_keeps :
    (key : String) (calls : Calls) (store : Store) (r : IdempotencyRecord)
    → lookup key store ≡ some r
    → lookup key (run calls store) ≡ some r
unfolding run get_or_create
run_keeps key [] store r h = h
run_keeps key ((k, job_id, now) ∷ calls) store r h =
    run_keeps key calls (get_or_create k job_id now store).0 r
      (register_keeps key k job_id now store r (lookup k store) refl h)

register_settles :
    (key job_id : String) (now : ℕ) (store : Store) (o : Option IdempotencyRecord)
    → lookup key store ≡ o
    → (r : IdempotencyRecord) × (lookup key (register key job_id now store o).0 ≡ some r)
      × (r.job_id ≡ (register key job_id now store o).1.0)
unfolding register
register_settles key job_id now store (some old) e = (old, e, refl)
register_settles key job_id now store none e = (_, lookup-insert_self key _ store, refl)

register_known :
    (key job_id : String) (now : ℕ) (store : Store) (r : IdempotencyRecord)
    → lookup key store ≡ some r
    → (get_or_create key job_id now store).1 ≡ (r.job_id, false)
unfolding get_or_create register
register_known key job_id now store r e = rw e

get_or_create-settles :
    (key job_id : String) (now : ℕ) (store : Store)
    → (r : IdempotencyRecord) × (lookup key (get_or_create key job_id now store).0 ≡ some r)
      × (r.job_id ≡ (get_or_create key job_id now store).1.0)
unfolding get_or_create
get_or_create-settles key job_id now store =
    register_settles key job_id now store (lookup key store) refl

created_iff :
    (key job_id : String) (now : ℕ) (store : Store)
    → ((get_or_create key job_id now store).1.1 ≡ true) ↔ (lookup key store ≡ none)
unfolding get_or_create register
created_iff key job_id now store = ground arith

remove_frees :
    (key other : String) (store : Store)
    → get_record other (remove key store) ≡ (if key == other then none else get_record other store)
unfolding remove get_record
remove_frees key other store = lookup-delete key other store

-- A call registers its key exactly when the store does not have it. Once it has answered, every
-- later call for that key gives the same job and says that it did not register it, whatever other
-- registrations have come between. Removing a key makes it free again, and no other key.
pub get_or_create_agrees :
    (key first second other : String) (then_ now : ℕ) (calls : Calls) (store : Store)
    → (((get_or_create key first then_ store).1.1 ≡ true) ↔ (lookup key store ≡ none))
      × ((get_or_create key second now (run calls (get_or_create key first then_ store).0)).1
          ≡ ((get_or_create key first then_ store).1.0, false))
      × (get_record other (remove key store)
          ≡ (if key == other then none else get_record other store))
get_or_create_agrees key first second other then_ now calls store =
    let (r, e, same) = get_or_create-settles key first then_ store in
    (
      created_iff key first then_ store,
      rw (register_known key second now _ r (run_keeps key calls _ r e)) (rw same),
      remove_frees key other store,
    )
