-- ===== src/Jobs/Idempotency/Tests.antt =====
-- The store of idempotency keys: the theorems at a concrete store.
use core_engine_ge_m.Base.{◌≡◌, ◌↔◌, true, false, none, [], ◌∷◌, lookup, string_eq}
use core_engine_ge_m.Jobs.Idempotency.{Store, get_or_create, get_record, remove}
use core_engine_ge_m.Jobs.Idempotency.Agreement.{run, get_or_create_agrees}

abbrev first_key : Store
first_key = ("idem:1", record { key = "idem:1"; job_id = "job-1"; created_at = 5 }) ∷ []

-- Two workers race on a key that the store does not have, and a third takes another in between.
get_or_create_agrees_example :
    (((get_or_create "idem:2" "job-2" 6 first_key).1.1 ≡ true) ↔ (lookup "idem:2" first_key ≡ none))
    × ((get_or_create "idem:2" "job-3" 8
          (run (("idem:3", "job-4", 7) ∷ []) (get_or_create "idem:2" "job-2" 6 first_key).0)).1
        ≡ ((get_or_create "idem:2" "job-2" 6 first_key).1.0, false))
    × (get_record "idem:1" (remove "idem:2" first_key) ≡ get_record "idem:1" first_key)
get_or_create_agrees_example =
    get_or_create_agrees "idem:2" "job-2" "job-3" "idem:1" 6 8 (("idem:3", "job-4", 7) ∷ [])
      first_key
