-- ===== src/Tus/Progress.antt =====
-- Chunks that arrive whole, in order, up to the announced size make the announced file.
use alyx.Prelude.{
  ℕ, ◌+◌, ◌<◌, String, ◌≡◌, ap, true, false, none, some, List, [], ◌∷◌, ◌++◌, arith, ◌==◌, eq_refl,
  length, length-append, take,
}
use alyx.Bytes.{Bytes}
use alyx.Map.{lookup, insert, delete}
use alyx.Map.Laws.{lookup-insert}
use alyx.Tus.{
  Upload, BucketConfig, Config, no_faults, State, Result, ok, err, temp_of, type_allowed,
  finish_file, chunk_found, upload_chunk, get_upload,
}

-- The upload is in the table under its id, and its temporary file holds `content`, as many bytes
-- as its offset says.
pub record InSync (s : State) (u : Upload) (content : Bytes) : Type 0 where
  pub row : lookup u.id s.uploads ≡ some u
  pub stored : temp_of s u.id ≡ content
  pub synced : length content ≡ u.offset

abbrev pub moved_to : Upload → ℕ → Upload
moved_to u n = record u { offset = n }

pub get_upload-row :
    (s : State) (u : Upload) → lookup u.id s.uploads ≡ some u → get_upload s u.bucket u.id ≡ some u
unfolding get_upload
get_upload-row s u e = rw (e, eq_refl u.bucket)

pub num_eq_refl : (n : ℕ) → (n == n) ≡ true
num_eq_refl n = ground arith

abbrev pub appended : State → Upload → Bytes → State
appended s u c = record s {
  temp = insert u.id (temp_of s u.id ++ c) s.temp;
  uploads = insert u.id (moved_to u (u.offset + length c)) s.uploads;
}

-- A whole chunk that does not reach the size is appended, and the offset follows.
pub chunk-short :
    (cfg : Config) (s : State) (u : Upload) (file_id : String) (c : Bytes)
    → lookup u.id s.uploads ≡ some u
    → ((u.offset + length c) == u.size) ≡ false
    → upload_chunk cfg no_faults s u.bucket u.id file_id u.offset c (length c)
      ≡ (appended s u c, ok (u.offset + length c))
unfolding upload_chunk chunk_found
chunk-short cfg s u file_id c row short =
    rw (get_upload-row s u row) (rw (num_eq_refl u.offset, num_eq_refl (length c), short))

pub appended-InSync :
    (s : State) (u : Upload) (content c : Bytes)
    → InSync s u content
    → InSync (appended s u c) (moved_to u (u.offset + length c)) (content ++ c)
unfolding temp_of
appended-InSync s u content c v = record {
  row = rw (lookup-insert, eq_refl u.id);
  stored = rw (lookup-insert, eq_refl u.id) (ap (λ b. b ++ c) v.stored);
  synced = omega (arith, length-append content c, v.synced);
}

-- What finalizing an upload relies on: its bucket, that bucket's backend, and a permitted type.
pub record CanFinish (cfg : Config) (u : Upload) (content : Bytes) : Type 0 where
  pub bucket_cfg : BucketConfig
  pub bucket_found : lookup u.bucket cfg.buckets ≡ some bucket_cfg
  pub backend_found : cfg.has_backend bucket_cfg.backend ≡ true
  pub allowed : type_allowed bucket_cfg (cfg.detect_content_type (take 512 content)) ≡ true

-- The file of an upload is in the table of files, and the upload is gone.
pub record Finished (cfg : Config) (before : State) (u : Upload) (file_id : String)
    (content : Bytes) (after : State) : Type 0 where
  pub files : after.files ≡ finish_file cfg u file_id content ∷ before.files
  pub row_gone : lookup u.id after.uploads ≡ none
  pub temp_gone : lookup u.id after.temp ≡ none

abbrev finished : Config → State → Upload → String → State
finished cfg s u file_id = record {
  files = finish_file cfg u file_id (temp_of s u.id) ∷ s.files;
  uploads = delete u.id s.uploads;
  temp = delete u.id s.temp;
}

abbrev pub after_reply : State × Result → (State → ℕ → State × Result) → State × Result
after_reply (s, ok n) next = next s n
after_reply (s, err f) next = (s, err f)

-- Whole chunks sent one after the other, each at the offset that the last reply gave.
pub send : Config → State → String → String → String → ℕ → List Bytes → State × Result
send cfg s bucket id file_id offset [] = (s, ok offset)
send cfg s bucket id file_id offset (c ∷ cs) =
    after_reply (upload_chunk cfg no_faults s bucket id file_id offset c (length c))
      (λ s' n. send cfg s' bucket id file_id n cs)

abbrev pub concat : List Bytes → Bytes
concat [] = []
concat (c ∷ cs) = c ++ concat cs

-- Chunks of which only the last reaches the size.
abbrev pub Fills : ℕ → ℕ → List Bytes → Type 0
Fills offset size [] = ⊥
Fills offset size (c ∷ []) = offset + length c ≡ size
Fills offset size (c ∷ d ∷ cs) =
    (offset + length c < size) × Fills (offset + length c) size (d ∷ cs)

-- The outcome of a completed transfer.
abbrev pub Done : Config → State → Upload → String → Bytes → State × Result → Type 0
Done cfg s u file_id content outcome =
    (outcome.1 ≡ ok u.size) × Finished cfg s u file_id content outcome.0
