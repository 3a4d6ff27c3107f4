-- ===== src/Tus/Tests.antt =====
-- Uploads, and the theorems about them at concrete inputs.
use alyx.Prelude.{◌≡◌, refl, true, false, some, List, [], ◌∷◌, ◌++◌, arith}
use alyx.Bytes.{Bytes}
use alyx.Map.{lookup}
use alyx.Tus.{
  Upload, BucketConfig, Config, no_faults, State, ok, err, temp_of, upload_chunk, create_upload,
}
use alyx.Tus.Progress.{InSync, moved_to}
use alyx.Tus.Create.{Created, create_upload-Created}
use alyx.Tus.Broken.{
  broken_off, refusal, IsPast, ChunkCall, calls, resent_chunk_doubles, calls-IsPast,
  chunk_overshoots,
}

abbrev docs : BucketConfig
docs = record { backend = "local"; max_file_size = 10; allowed_types = (b'*' ∷ []) ∷ [] }

abbrev cfg : Config
cfg = record {
  buckets = ("docs", docs) ∷ [];
  has_backend = λ b. true;
  detect_content_type = λ b. b't' ∷ [];
  checksum = λ b. b;
}

abbrev nothing : State
nothing = record { uploads = []; temp = []; files = [] }

abbrev five : Upload
five = record { id = "u"; bucket = "docs"; filename = ""; size = 5; offset = 0; metadata = [] }

abbrev started : State
started = record { uploads = ("u", five) ∷ []; temp = []; files = [] }

started-InSync : InSync started five []
unfolding lookup temp_of
started-InSync = record { row = refl; stored = refl; synced = refl }

create_upload-Created_example :
    Created cfg "docs" "u" 5 (create_upload cfg nothing "docs" "u" 5 [] false).0
create_upload-Created_example =
    create_upload-Created cfg nothing "docs" "u" 5 [] false {n = 0} (unfold lookup in refl)
      (unfold create_upload lookup in refl)

resent_chunk_doubles_example :
    let refused = upload_chunk cfg (broken_off true) started "docs" "u" "f" 0 (7 ∷ []) 2 in
    let resent = upload_chunk cfg no_faults refused.0 "docs" "u" "f" 0 (7 ∷ 8 ∷ []) 2 in
    (refused.1 ≡ err (refusal true))
    × (resent.1 ≡ ok 2)
    × (lookup "u" resent.0.uploads ≡ some (moved_to five 2))
    × (temp_of resent.0 "u" ≡ ([] ++ (7 ∷ [])) ++ (7 ∷ 8 ∷ []))
resent_chunk_doubles_example =
    resent_chunk_doubles cfg started five "f" [] (7 ∷ []) (7 ∷ 8 ∷ []) true started-InSync
      (omega arith) (omega arith)

abbrev six : Bytes
six = 1 ∷ 2 ∷ 3 ∷ 4 ∷ 5 ∷ 6 ∷ []

abbrev overshot : State
overshot = (upload_chunk cfg no_faults started "docs" "u" "f" 0 six 6).0

chunk_overshoots_example :
    ((upload_chunk cfg no_faults started "docs" "u" "f" 0 six 6).1 ≡ ok 6) × IsPast overshot "u"
chunk_overshoots_example = chunk_overshoots cfg started five "f" [] six started-InSync (omega arith)

abbrev more : List ChunkCall
more =
    record {
      faults = no_faults;
      bucket = "docs";
      file_id = "g";
      offset = 6;
      written = 9 ∷ [];
      chunk_size = 1;
    }
    ∷ []

calls-IsPast_example :
    ((calls cfg overshot "u" more).files ≡ overshot.files)
    × IsPast (calls cfg overshot "u" more) "u"
calls-IsPast_example = calls-IsPast cfg overshot "u" more chunk_overshoots_example.1
