-- ===== src/Processing/Artifacts/Contents.antt =====
-- What the artifact store holds under an ID hashes to it.
use Prim.Native.String.{◌++◌}
use core_engine_ge_m.Base.{
  ℕ, ◌≡◌, refl, subst, String, Bool, true, false, Option, none, some, Map, lookup, lookup-insert,
  lookup-delete, lookup-insert_self, ◌==◌, string_eq, ==-eq, Json, Bool-cases, inl, inr, arith,
}
use core_engine_ge_m.Store.{has}
use core_engine_ge_m.Processing.Artifacts.{
  Bytes, ArtifactRecord, Artifacts, make_artifact_id, new_record, put_new, put, get_blob,
  delete_artifact,
}

module _ (sha256 : Bytes → String) where
  -- A record stands beside each blob, and both say what the ID says.
  abbrev pub Matches : String → Option Bytes → Option ArtifactRecord → Type 0
  Matches id none none = Unit
  Matches id (some content) (some r) =
      (make_artifact_id sha256 content ≡ id)
      × (r.artifact_id ≡ id)
      × (make_artifact_id sha256 content ≡ "sha256:" ++ r.content_hash)
  Matches id _ _ = ⊥

  pub record IsAddressed (a : Artifacts) : Type 0 where
    pub matches : (id : String) → Matches id (lookup id a.blobs) (lookup id a.records)

  put_new-IsAddressed :
      (content : Bytes) (content_type : Option String) (metadata : Map String Json) (now : ℕ)
      (a : Artifacts) (o : Option ArtifactRecord)
      → IsAddressed a
      → IsAddressed (put_new sha256 content content_type metadata now a o).0
  unfolding put_new
  put_new-IsAddressed content content_type metadata now a (some existing) i = i
  put_new-IsAddressed content content_type metadata now a none i = record {
    matches = λ id. elim (Bool-cases (make_artifact_id sha256 content == id)) [
      | inl same ↦
          rw
            (
              lookup-insert (make_artifact_id sha256 content) id content a.blobs,
              lookup-insert (make_artifact_id sha256 content) id
                  (new_record sha256 content content_type metadata now) a.records,
              same,
            )
            (==-eq _ id same, ==-eq _ id same, refl)
      | inr other ↦
          rw
            (
              lookup-insert (make_artifact_id sha256 content) id content a.blobs,
              lookup-insert (make_artifact_id sha256 content) id
                  (new_record sha256 content content_type metadata now) a.records,
              other,
            )
            (i.matches id)
    ];
  }

  pub put-IsAddressed :
      (content : Bytes) (content_type : Option String) (metadata : Map String Json) (now : ℕ)
      (a : Artifacts)
      → IsAddressed a
      → IsAddressed (put sha256 content content_type metadata now a).0
  unfolding put
  put-IsAddressed content content_type metadata now a i =
      put_new-IsAddressed content content_type metadata now a
        (lookup (make_artifact_id sha256 content) a.records) i

  pub delete_artifact-IsAddressed :
      (allowed : Bool) (k : String) (a : Artifacts)
      → IsAddressed a
      → IsAddressed (delete_artifact allowed k a).0
  unfolding delete_artifact
  delete_artifact-IsAddressed false k a i = i
  delete_artifact-IsAddressed true k a i = elim (Bool-cases (has k a.blobs)) [
    | inr absent ↦ rw absent i
    | inl there ↦ rw there (record {
      matches = λ id. elim (Bool-cases (k == id)) [
        | inl same ↦ rw (lookup-delete k id a.blobs, lookup-delete k id a.records, same) tt
        | inr other ↦
            rw (lookup-delete k id a.blobs, lookup-delete k id a.records, other) (i.matches id)
      ];
    })
  ]

  found :
      (id : String) (b : Option Bytes) (r : Option ArtifactRecord) (x : ArtifactRecord)
      → Matches id b r
      → r ≡ some x
      → (content : Bytes) × (b ≡ some content)
        × (make_artifact_id sha256 content ≡ id)
        × (x.artifact_id ≡ id)
  found id none none x m e = ground arith
  found id none (some r) x m e = absurd m
  found id (some content) none x m e = absurd m
  found id (some content) (some r) x m e =
      let same : r ≡ x = cc in
      (content, refl, m.0, subst (λ (y : ArtifactRecord). y.artifact_id ≡ id) same m.1)

  put_new-found :
      (content : Bytes) (content_type : Option String) (metadata : Map String Json) (now : ℕ)
      (a : Artifacts) (o : Option ArtifactRecord)
      → IsAddressed a
      → lookup (make_artifact_id sha256 content) a.records ≡ o
      → (stored : Bytes) × (lookup
            (make_artifact_id sha256 content)
            (put_new sha256 content content_type metadata now a o).0.blobs
          ≡ some stored)
        × (make_artifact_id sha256 stored ≡ make_artifact_id sha256 content)
        × ((put_new sha256 content content_type metadata now a o).1.artifact_id
            ≡ make_artifact_id sha256 content)
  unfolding put_new
  put_new-found content content_type metadata now a none i e =
      (content, lookup-insert_self (make_artifact_id sha256 content) content a.blobs, refl, refl)
  put_new-found content content_type metadata now a (some existing) i e =
      found (make_artifact_id sha256 content) (lookup (make_artifact_id sha256 content) a.blobs)
        (lookup (make_artifact_id sha256 content) a.records) existing
        (i.matches (make_artifact_id sha256 content)) e

  -- What is put into a store where every blob stands under its digest, beside its record, can be got
  -- again: the record that `put` returns has the ID of the content, whether or
  -- not the store had it before, and under it the store then holds bytes with the digest of the
  -- content. The store stays such a store.
  pub put_get :
      (content : Bytes) (content_type : Option String) (metadata : Map String Json) (now : ℕ)
      (a : Artifacts)
      → IsAddressed a
      → IsAddressed (put sha256 content content_type metadata now a).0
        × ((put sha256 content content_type metadata now a).1.artifact_id
            ≡ make_artifact_id sha256 content)
        × ((stored : Bytes) × (get_blob
                (put sha256 content content_type metadata now a).1.artifact_id
                (put sha256 content content_type metadata now a).0
              ≡ some stored)
            × (make_artifact_id sha256 stored ≡ make_artifact_id sha256 content))
  unfolding put get_blob
  put_get content content_type metadata now a i =
      let (stored, there, same, named) =
        put_new-found content content_type metadata now a
          (lookup (make_artifact_id sha256 content) a.records) i refl in
      (put-IsAddressed content content_type metadata now a i, named, (stored, rw named there, same))
