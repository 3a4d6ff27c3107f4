-- ===== src/Tus/Broken.antt =====
-- What a chunk does that is cut short, or that runs past the announced size.
use alyx.Prelude.{
  ℕ, ◌+◌, ◌<◌, String, ◌≡◌, refl, ap, sym, subst, ◌∙◌, Bool, true, false, Option, none, some, List,
  [], ◌∷◌, ◌++◌, arith, ◌==◌, if◌then◌else◌, eq_refl, length, ◌⊎◌, inl, inr,
}
use alyx.Bytes.{Bytes}
use alyx.Map.{lookup, insert}
use alyx.Map.Laws.{lookup-insert}
use alyx.Tus.{
  Upload, Config, Faults, no_faults, State, ok, err, Failure, io_error, chunk_size_mismatch,
  temp_of, chunk_found, upload_chunk, get_upload, in_bucket,
}
use alyx.Tus.Progress.{InSync, moved_to, get_upload-row, num_eq_refl, appended, chunk-short}

-- The state after a chunk was written and then refused.
abbrev pub half_way : State → Upload → Bytes → State
half_way s u part = record s { temp = insert u.id (temp_of s u.id ++ part) s.temp }

-- Only io.Copy may fail.
abbrev pub broken_off : Bool → Faults
broken_off broke = record no_faults { copy_fails = broke }

abbrev pub refusal : Bool → Failure
refusal broke = if broke then io_error else chunk_size_mismatch

chunk-refused :
    (cfg : Config) (s : State) (u : Upload) (file_id : String) (part : Bytes) (chunk_size : ℕ)
    (broke : Bool)
    → lookup u.id s.uploads ≡ some u
    → (length part == chunk_size) ≡ false
    → upload_chunk cfg (broken_off broke) s u.bucket u.id file_id u.offset part chunk_size
      ≡ (half_way s u part, err (refusal broke))
unfolding upload_chunk chunk_found
chunk-refused cfg s u file_id part chunk_size true row cut =
    rw (get_upload-row s u row) (rw (num_eq_refl u.offset))
chunk-refused cfg s u file_id part chunk_size false row cut =
    rw (get_upload-row s u row) (rw (num_eq_refl u.offset, cut))

temp_of-appended :
    (s : State) (u : Upload) (c : Bytes) → temp_of (appended s u c) u.id ≡ temp_of s u.id ++ c
unfolding temp_of
temp_of-appended s u c = rw (lookup-insert, eq_refl u.id)

temp_of-half_way :
    (s : State) (u : Upload) (c : Bytes) → temp_of (half_way s u c) u.id ≡ temp_of s u.id ++ c
unfolding temp_of
temp_of-half_way s u c = rw (lookup-insert, eq_refl u.id)

-- A chunk of which only a part came, whether the copy fails or ends early, is refused and the
-- offset is unchanged, but the part stays in the temporary file. When the whole chunk is then sent
-- again at that offset it is accepted (here: without reaching the size), the offset moves by its
-- length, and the temporary file has the part and the whole chunk after its earlier content.
pub resent_chunk_doubles :
    (cfg : Config) (s : State) (u : Upload) (file_id : String) (content part chunk : Bytes)
    (broke : Bool)
    → InSync s u content
    → length part < length chunk
    → u.offset + length chunk < u.size
    → let refused =
        upload_chunk cfg (broken_off broke) s u.bucket u.id file_id u.offset part (length chunk) in
      let resent =
        upload_chunk cfg no_faults refused.0 u.bucket u.id file_id u.offset chunk (length chunk) in
      (refused.1 ≡ err (refusal broke))
      × (resent.1 ≡ ok (u.offset + length chunk))
      × (lookup u.id resent.0.uploads ≡ some (moved_to u (u.offset + length chunk)))
      × (temp_of resent.0 u.id ≡ (content ++ part) ++ chunk)
resent_chunk_doubles cfg s u file_id content part chunk broke v cut room =
    let refused = chunk-refused cfg s u file_id part (length chunk) broke v.row (ground arith) in
    let resent = chunk-short cfg (half_way s u part) u file_id chunk v.row (ground arith) in
    rw refused (
      rw resent (
        refl,
        refl,
        rw (lookup-insert, eq_refl u.id),
        temp_of-appended (half_way s u part) u chunk
            ∙ ap (λ b. b ++ chunk) (temp_of-half_way s u part ∙ ap (λ b. b ++ part) v.stored),
      ))

-- Past the announced size, an upload is never finished.
abbrev pub IsPast : State → String → Type 0
IsPast s id = (u : Upload) × (lookup id s.uploads ≡ some u) × (u.id ≡ id) × (u.size < u.offset)

pub record ChunkCall : Type 0 where
  pub faults : Faults
  pub bucket : String
  pub file_id : String
  pub offset : ℕ
  pub written : Bytes
  pub chunk_size : ℕ

abbrev pub call : Config → State → String → ChunkCall → State
call cfg s id c =
    (upload_chunk cfg c.faults s c.bucket id c.file_id c.offset c.written c.chunk_size).0

-- A chunk leaves the table of files, and leaves the row or moves its offset on.
chunk_found-IsPast :
    (cfg : Config) (s : State) (u : Upload) (c : ChunkCall)
    → u.size < u.offset
    → let s' = (chunk_found cfg c.faults s (some u) c.file_id c.offset c.written c.chunk_size).0 in
      (s'.files ≡ s.files)
      × ((s'.uploads ≡ s.uploads)
          ⊎ (s'.uploads ≡ insert u.id (moved_to u (u.offset + length c.written)) s.uploads))
unfolding chunk_found
chunk_found-IsPast cfg s u c h = ground arith

in_bucket-cases :
    (bucket : String) (u : Upload)
    → (in_bucket bucket (some u) ≡ none) ⊎ (in_bucket bucket (some u) ≡ some u)
unfolding in_bucket
in_bucket-cases bucket u = ground arith

upload_found :
    (s : State) (id bucket : String) (u : Upload)
    → lookup id s.uploads ≡ some u
    → (get_upload s bucket id ≡ none) ⊎ (get_upload s bucket id ≡ some u)
unfolding get_upload
upload_found s id bucket u row = rw row (in_bucket-cases bucket u)

abbrev Kept : Config → State → String → ChunkCall → Option Upload → Type 0
Kept cfg s id c found =
    let s' = (chunk_found cfg c.faults s found c.file_id c.offset c.written c.chunk_size).0 in
    (s'.files ≡ s.files) × IsPast s' id

Kept-none :
    (cfg : Config) (s : State) (id : String) (c : ChunkCall) → IsPast s id → Kept cfg s id c none
unfolding chunk_found
Kept-none cfg s id c p = (refl, p)

Kept-some :
    (cfg : Config) (s : State) (id : String) (c : ChunkCall) (u : Upload)
    → lookup id s.uploads ≡ some u
    → u.id ≡ id
    → u.size < u.offset
    → Kept cfg s id c (some u)
Kept-some cfg s id c u row own past =
    let (files, uploads) = chunk_found-IsPast cfg s u c past in
    (
      files,
      elim uploads [
        | inl same ↦ (u, rw same row, own, past)
        | inr moved ↦ (
          moved_to u (u.offset + length c.written),
          rw (moved, own, lookup-insert, eq_refl id),
          own,
          omega arith,
        )
      ],
    )

call-IsPast :
    (cfg : Config) (s : State) (id : String) (c : ChunkCall)
    → IsPast s id
    → ((call cfg s id c).files ≡ s.files) × IsPast (call cfg s id c) id
unfolding upload_chunk
call-IsPast cfg s id c (u, row, own, past) = elim (upload_found s id c.bucket u row) [
  | inl e ↦ subst (Kept cfg s id c) (sym e) (Kept-none cfg s id c (u, row, own, past))
  | inr e ↦ subst (Kept cfg s id c) (sym e) (Kept-some cfg s id c u row own past)
]

-- After any calls.
abbrev pub calls : Config → State → String → List ChunkCall → State
calls cfg s id [] = s
calls cfg s id (c ∷ cs) = calls cfg (call cfg s id c) id cs

-- Once the offset of an upload is past its announced size, no further chunk for it, of whatever
-- bytes, offset, bucket and outcome of the calls, adds a file, and the upload stays in the table.
pub calls-IsPast :
    (cfg : Config) (s : State) (id : String) (cs : List ChunkCall)
    → IsPast s id
    → ((calls cfg s id cs).files ≡ s.files) × IsPast (calls cfg s id cs) id
calls-IsPast cfg s id [] p = (refl, p)
calls-IsPast cfg s id (c ∷ cs) p =
    let (files, past) = call-IsPast cfg s id c p in
    let (rest, still) = calls-IsPast cfg (call cfg s id c) id cs past in (rest ∙ files, still)

-- A whole chunk that runs past the announced size is accepted all the same.
pub chunk_overshoots :
    (cfg : Config) (s : State) (u : Upload) (file_id : String) (content c : Bytes)
    → InSync s u content
    → u.size < u.offset + length c
    → let after = upload_chunk cfg no_faults s u.bucket u.id file_id u.offset c (length c) in
      (after.1 ≡ ok (u.offset + length c)) × IsPast after.0 u.id
chunk_overshoots cfg s u file_id content c v over =
    rw (chunk-short cfg s u file_id c v.row (ground arith))
      (refl, (moved_to u (u.offset + length c), rw (lookup-insert, eq_refl u.id), refl, over))
