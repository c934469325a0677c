-- ===== src/Processing/Artifacts.antt =====
-- src/infrastructure/artifacts/store.py and memory.py: `InMemoryArtifactStore`, and what the coordinator's
-- `_persist_document_binary` of src/infrastructure/processing.py makes of it. The digest is that of
-- `hashlib`, a parameter.
pub mod Contents
use Prim.Native.String.{◌++◌}
use core_engine_ge_m.Base.{
  ℕ, String, Bool, true, false, not, Option, none, some, List, Map, lookup, insert, delete,
  string_eq, Json, Outcome, ok, raised, if◌then◌else◌, length,
}
use core_engine_ge_m.Store.{has}

abbrev pub Bytes : Type 0
Bytes = List ℕ

pub record ArtifactRecord : Type 0 where
  pub artifact_id : String
  pub digest_algorithm : String
  pub content_hash : String
  pub size_bytes : ℕ
  pub content_type : Option String
  pub metadata : Map String Json
  pub created_at : ℕ

pub record Artifacts : Type 0 where
  pub blobs : Map String Bytes
  pub records : Map String ArtifactRecord

-- `delete` on a store that does not allow it.
pub data ArtifactError : Type 0 where
  permission_error : ArtifactError

module _ (sha256 : Bytes → String) where
  -- `content_hash` is `sha256`.
  abbrev pub make_artifact_id : Bytes → String
  make_artifact_id content = "sha256:" ++ sha256 content

  abbrev pub new_record : Bytes → Option String → Map String Json → ℕ → ArtifactRecord
  new_record content content_type metadata now = record {
    artifact_id = make_artifact_id content;
    digest_algorithm = "sha256";
    content_hash = sha256 content;
    size_bytes = length content;
    content_type = content_type;
    metadata = metadata;
    created_at = now;
  }

  unfoldable pub put_new :
      Bytes
      → Option String
      → Map String Json
      → ℕ
      → Artifacts
      → Option ArtifactRecord
      → Artifacts × ArtifactRecord
  put_new content content_type metadata now a (some existing) = (a, existing)
  put_new content content_type metadata now a none = (
    record {
      blobs = insert (make_artifact_id content) content a.blobs;
      records =
          insert (make_artifact_id content) (new_record content content_type metadata now)
            a.records;
    },
    new_record content content_type metadata now,
  )

  unfoldable pub put :
      Bytes → Option String → Map String Json → ℕ → Artifacts → Artifacts × ArtifactRecord
  unfolding put_new
  put content content_type metadata now a =
      put_new content content_type metadata now a (lookup (make_artifact_id content) a.records)

  -- `_persist_document_binary`, where the coordinator may have no artifact store.
  unfoldable pub persist_document_binary :
      Bytes
      → Map String Json
      → ℕ
      → Option Artifacts
      → Option Artifacts × (Option String × Option String)
  persist_document_binary content metadata now none = (none, (none, none))
  persist_document_binary content metadata now (some a) =
      let (b, r) = put content (some "application/octet-stream") metadata now a in
      (some b, (some r.artifact_id, some (sha256 content)))

unfoldable pub get_blob : String → Artifacts → Option Bytes
get_blob artifact_id a = lookup artifact_id a.blobs

unfoldable pub get_record : String → Artifacts → Option ArtifactRecord
get_record artifact_id a = lookup artifact_id a.records

unfoldable pub exists : String → Artifacts → Bool
exists artifact_id a = has artifact_id a.blobs

unfoldable pub delete_artifact : Bool → String → Artifacts → Artifacts × Outcome ArtifactError Bool
delete_artifact allowed artifact_id a =
    if not allowed
    then (a, raised permission_error)
    else if not (has artifact_id a.blobs)
    then (a, ok false)
    else (
      record { blobs = delete artifact_id a.blobs; records = delete artifact_id a.records },
      ok true,
    )
