-- ===== src/Tus.antt =====
-- internal/storage/tus.go and tus_store.go: resumable uploads. The table of uploads is a map by
-- upload id (its primary key), the temporary files are a map by upload id, and what the backends
-- and the file table hold is a list. The outcome of each call to the file system, the database and
-- a backend is a flag of `Faults`; the schema, the MIME detection of net/http and the checksum are
-- `Config`. Sizes and offsets are never negative: the handlers refuse such headers.
pub mod Progress
pub mod Create
pub mod Broken
mod Tests
use alyx.Prelude.{
  ℕ, ◌+◌, String, Bool, true, false, not, ◌&&◌, Option, none, some, List, [], ◌∷◌, ◌++◌, ltb, ◌==◌,
  if◌then◌else◌, str_eq, length, take,
}
use alyx.Bytes.{Bytes}
use alyx.Map.{GoMap, lookup, insert, delete}
use alyx.Mime.{matches_mime_type}

-- Without the instants of the row: only the listing of expired uploads reads them.
pub record Upload : Type 0 where
  pub id : String
  pub bucket : String
  pub filename : String
  pub size : ℕ
  pub offset : ℕ
  pub metadata : GoMap String

-- What an upload reads of a bucket.
pub record BucketConfig : Type 0 where
  pub backend : String
  pub max_file_size : ℕ
  pub allowed_types : List Bytes

-- A file that a backend holds, with its row in the file table; the path is the name, and the
-- columns that finalizing an upload leaves at their zero value are left out.
pub record File : Type 0 where
  pub id : String
  pub bucket : String
  pub name : String
  pub mime_type : Bytes
  pub size : ℕ
  pub checksum : Bytes
  pub metadata : GoMap String
  pub content : Bytes

pub record Config : Type 0 where
  pub buckets : GoMap BucketConfig
  pub has_backend : String → Bool
  pub detect_content_type : Bytes → Bytes
  pub checksum : Bytes → Bytes

-- Which calls fail.
pub record Faults : Type 0 where
  pub open_fails : Bool  -- making the directory, or opening the temporary file
  pub copy_fails : Bool  -- io.Copy, after the bytes that it could write
  pub update_fails : Bool
  pub reopen_fails : Bool  -- opening, reading or rewinding the finished file
  pub put_fails : Bool
  pub create_fails : Bool
  pub delete_fails : Bool
  pub remove_fails : Bool

abbrev pub no_faults : Faults
no_faults = record {
  open_fails = false;
  copy_fails = false;
  update_fails = false;
  reopen_fails = false;
  put_fails = false;
  create_fails = false;
  delete_fails = false;
  remove_fails = false;
}

pub record State : Type 0 where
  pub uploads : GoMap Upload
  pub temp : GoMap Bytes
  pub files : List File

pub data Failure : Type 0 where
  bucket_not_found too_large not_found offset_mismatch io_error chunk_size_mismatch db_error
        backend_not_found type_not_allowed :
      Failure

pub data Result : Type 0 where
  ok : ℕ → Result
  err : Failure → Result

-- CreateUpload: the answer `ok 0` stands for the new upload, at offset 0.
unfoldable pub create_found :
    State → Option BucketConfig → String → String → ℕ → GoMap String → Bool → State × Result
create_found s none bucket upload_id size metadata fails = (s, err bucket_not_found)
create_found s (some cfg) bucket upload_id size metadata fails =
    if ltb 0 cfg.max_file_size && ltb cfg.max_file_size size
    then (s, err too_large)
    else if fails
    then (s, err db_error)
    else (
      record s {
        uploads =
            insert upload_id
              (record {
                id = upload_id;
                bucket = bucket;
                filename = elim (lookup "filename" metadata) [ none ↦ "" | some f ↦ f ];
                size = size;
                offset = 0;
                metadata = metadata;
              })
              s.uploads;
      },
      ok 0,
    )

-- TUSStore.Get: the row of the id, if it is of the bucket.
unfoldable pub in_bucket : String → Option Upload → Option Upload
in_bucket bucket none = none
in_bucket bucket (some upload) = if str_eq upload.bucket bucket then some upload else none

unfoldable pub get_upload : State → String → String → Option Upload
unfolding in_bucket
get_upload s bucket upload_id = in_bucket bucket (lookup upload_id s.uploads)

unfoldable pub get_upload_offset : State → String → String → Result
get_upload_offset s bucket upload_id = elim (get_upload s bucket upload_id) [
  | none ↦ err not_found
  | some u ↦ ok u.offset
]

abbrev pub or_empty : Option Bytes → Bytes
or_empty none = []
or_empty (some b) = b

-- The bytes of a temporary file; a file that is not there is made empty.
unfoldable pub temp_of : State → String → Bytes
temp_of s upload_id = or_empty (lookup upload_id s.temp)

abbrev any_matches : Bytes → List Bytes → Bool
any_matches mime [] = false
any_matches mime (p ∷ ps) =
    let rest = any_matches mime ps in if matches_mime_type mime p then true else rest

unfoldable pub type_allowed : BucketConfig → Bytes → Bool
type_allowed cfg mime =
    if ltb 0 (length cfg.allowed_types) then any_matches mime cfg.allowed_types else true

unfoldable pub finish_file : Config → Upload → String → Bytes → File
finish_file cfg upload file_id content = record {
  id = file_id;
  bucket = upload.bucket;
  name = if str_eq upload.filename "" then file_id else upload.filename;
  mime_type = cfg.detect_content_type (take 512 content);
  size = upload.size;
  checksum = cfg.checksum content;
  metadata = upload.metadata;
  content = content;
}

-- finalizeUpload from the bucket's configuration on; `none` is success.
unfoldable pub finalize_found :
    Config → Faults → State → Upload → String → Option BucketConfig → State × Option Failure
finalize_found cfg faults s upload file_id none = (s, some bucket_not_found)
finalize_found cfg faults s upload file_id (some bucket_cfg) =
    let content = temp_of s upload.id in
    let file = finish_file cfg upload file_id content in
    if not (cfg.has_backend bucket_cfg.backend)
    then (s, some backend_not_found)
    else if faults.reopen_fails
    then (s, some io_error)
    else if not (type_allowed bucket_cfg (cfg.detect_content_type (take 512 content)))
    then (s, some type_not_allowed)
    else if faults.put_fails
    then (s, some io_error)
    else if faults.create_fails
    then (s, some db_error)
    else if faults.delete_fails
    then (record s { files = file ∷ s.files }, some db_error)
    else if faults.remove_fails
    then (record s { files = file ∷ s.files; uploads = delete upload.id s.uploads }, some io_error)
    else (
      record {
        files = file ∷ s.files;
        uploads = delete upload.id s.uploads;
        temp = delete upload.id s.temp;
      },
      none,
    )

unfoldable pub finalize_upload : Config → Faults → State → Upload → String → State × Option Failure
unfolding finalize_found
finalize_upload cfg faults s upload file_id =
    finalize_found cfg faults s upload file_id (lookup upload.bucket cfg.buckets)

abbrev pub reply_of : ℕ → State × Option Failure → State × Result
reply_of new_offset (s, none) = (s, ok new_offset)
reply_of new_offset (s, some f) = (s, err f)

-- A chunk for an upload that was found: `written` are the bytes that io.Copy appended.
unfoldable pub chunk_found :
    Config → Faults → State → Option Upload → String → ℕ → Bytes → ℕ → State × Result
chunk_found cfg faults s none file_id offset written chunk_size = (s, err not_found)
chunk_found cfg faults s (some upload) file_id offset written chunk_size =
    let new_offset = offset + length written in
    let appended = record s { temp = insert upload.id (temp_of s upload.id ++ written) s.temp } in
    let moved = record appended {
      uploads = insert upload.id (record upload { offset = new_offset }) s.uploads;
    } in
    if not (offset == upload.offset)
    then (s, err offset_mismatch)
    else if faults.open_fails
    then (s, err io_error)
    else if faults.copy_fails
    then (appended, err io_error)
    else if not (length written == chunk_size)
    then (appended, err chunk_size_mismatch)
    else if faults.update_fails
    then (appended, err db_error)
    else if new_offset == upload.size
    then reply_of new_offset (finalize_upload cfg faults moved upload file_id)
    else (moved, ok new_offset)

-- `file_id` is the new id that a finalized file gets.
unfoldable pub upload_chunk :
    Config → Faults → State → String → String → String → ℕ → Bytes → ℕ → State × Result
unfolding chunk_found get_upload
upload_chunk cfg faults s bucket upload_id file_id offset written chunk_size =
    chunk_found cfg faults s (get_upload s bucket upload_id) file_id offset written chunk_size

-- CancelUpload: the row, then the temporary file. `none` is success.
unfoldable pub cancel_upload : Faults → State → String → String → State × Option Failure
unfolding get_upload
cancel_upload faults s bucket upload_id = elim (get_upload s bucket upload_id) [
  | none ↦ (s, some (if faults.delete_fails then db_error else not_found))
  | some u ↦
      if faults.delete_fails
      then (s, some db_error)
      else if faults.remove_fails
      then (record s { uploads = delete upload_id s.uploads }, some io_error)
      else (record s { uploads = delete upload_id s.uploads; temp = delete upload_id s.temp }, none)
]

unfoldable pub create_upload :
    Config → State → String → String → ℕ → GoMap String → Bool → State × Result
unfolding create_found
create_upload cfg s bucket upload_id size metadata fails =
    create_found s (lookup bucket cfg.buckets) bucket upload_id size metadata fails
