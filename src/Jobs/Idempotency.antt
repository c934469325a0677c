-- ===== src/Jobs/Idempotency.antt =====
-- src/infrastructure/jobs/idempotency.py: `InMemoryIdempotencyStore` and `make_idempotency_key`. The
-- canonical encoding and the digest are those of `json` and `hashlib`: the key takes them.
mod Tests
pub mod Agreement
use Prim.Native.String.{◌++◌}
use core_engine_ge_m.Base.{
  ℕ, String, Bool, true, false, Option, none, some, Map, lookup, insert, delete, string_eq, Json,
  number, text, object, end, field,
}

pub record IdempotencyRecord : Type 0 where
  pub key : String
  pub job_id : String
  pub created_at : ℕ

abbrev pub Store : Type 0
Store = Map String IdempotencyRecord

register : String → String → ℕ → Store → Option IdempotencyRecord → Store × (String × Bool)
register key job_id now store (some existing) = (store, (existing.job_id, false))
register key job_id now store none =
    (insert key (record { key = key; job_id = job_id; created_at = now }) store, (job_id, true))

-- The store afterwards, and the job ID that the key stands for with whether this call registered it.
pub get_or_create : String → String → ℕ → Store → Store × (String × Bool)
unfolding register
get_or_create key job_id now store = register key job_id now store (lookup key store)

pub get_record : String → Store → Option IdempotencyRecord
get_record key store = lookup key store

-- `delete`
pub remove : String → Store → Store
remove key store = delete key store

-- `dumps` is `json.dumps` with sorted keys, and `sha256` the hexadecimal digest of the UTF-8 bytes.
unfoldable pub make_idempotency_key :
    (dumps : Json → String) (sha256 : String → String) (submission_id stage : String)
    (logical_input : Json)
    → String
make_idempotency_key dumps sha256 submission_id stage logical_input =
    "idem:"
    ++ sha256 (
        dumps (
          object (
            field "schema_version" (number "1") (
              field "submission_id" (text submission_id)
                (field "stage" (text stage) (field "logical_input" logical_input end))))))
