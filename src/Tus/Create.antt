-- ===== src/Tus/Create.antt =====
-- What an upload is when it is made.
use alyx.Prelude.{
  ℕ, ◌≤◌, String, ◌≡◌, refl, Bool, ◌⊎◌, inl, inr, none, some, arith, ltb, ◌&&◌, [], eq_refl,
  Bool-cases, Option-cases,
}
use alyx.Map.{GoMap, lookup}
use alyx.Map.Laws.{lookup-insert}
use alyx.Tus.{Upload, BucketConfig, Config, State, ok, create_found, create_upload, temp_of}
use alyx.Tus.Progress.{InSync}

-- A new upload of the announced size that is in step with its empty temporary file.
pub record Created (cfg : Config) (bucket upload_id : String) (size : ℕ) (after : State)
    : Type 0 where
  pub upload : Upload
  pub bucket_cfg : BucketConfig
  pub bucket_found : lookup bucket cfg.buckets ≡ some bucket_cfg
  pub size_permitted : (bucket_cfg.max_file_size ≡ 0) ⊎ (size ≤ bucket_cfg.max_file_size)
  pub in_sync : InSync after upload []
  pub fields : (upload.id ≡ upload_id) × (upload.bucket ≡ bucket) × (upload.size ≡ size)

create_found-Created :
    (cfg : Config) (s : State) (bucket upload_id : String) (size : ℕ) (metadata : GoMap String)
    (fails : Bool) (b : BucketConfig) {n : ℕ}
    → lookup upload_id s.temp ≡ none
    → lookup bucket cfg.buckets ≡ some b
    → (create_found s (some b) bucket upload_id size metadata fails).1 ≡ ok n
    → Created cfg bucket upload_id size
        (create_found s (some b) bucket upload_id size metadata fails).0
unfolding create_found temp_of
create_found-Created cfg s bucket upload_id size metadata fails b fresh found h =
    elim (Bool-cases (ltb 0 b.max_file_size && ltb b.max_file_size size)) [
      | inl large ↦ let h' = rw large at h in cc
      | inr fits ↦ elim (Bool-cases fails) [
        | inl broke ↦ let h' = rw (fits, broke) at h in cc
        | inr worked ↦
            rw (fits, worked)
              (record {
                upload = record {
                  id = upload_id;
                  bucket = bucket;
                  filename = elim (lookup "filename" metadata) [ none ↦ "" | some f ↦ f ];
                  size = size;
                  offset = 0;
                  metadata = metadata;
                };
                bucket_cfg = b;
                bucket_found = found;
                size_permitted = ground arith;
                in_sync = record {
                  row = rw (lookup-insert, eq_refl upload_id);
                  stored = rw fresh;
                  synced = refl;
                };
                fields = (refl, refl, refl);
              })
      ]
    ]

-- Where `CreateUpload` succeeds under an id that has no temporary file, the bucket exists and
-- permits the size, and the table has a new upload of that id, bucket and size, at offset 0 and in
-- step with its temporary file.
pub create_upload-Created :
    (cfg : Config) (s : State) (bucket upload_id : String) (size : ℕ) (metadata : GoMap String)
    (fails : Bool) {n : ℕ}
    → lookup upload_id s.temp ≡ none
    → (create_upload cfg s bucket upload_id size metadata fails).1 ≡ ok n
    → Created cfg bucket upload_id size (create_upload cfg s bucket upload_id size metadata fails).0
unfolding create_upload
create_upload-Created cfg s bucket upload_id size metadata fails fresh h =
    elim (Option-cases (lookup bucket cfg.buckets)) [
      | inl e ↦ let h' = rw (e, create_found) at h in cc
      | inr (b, e) ↦
          rw e
            (create_found-Created cfg s bucket upload_id size metadata fails b fresh e (rw e at h))
    ]
