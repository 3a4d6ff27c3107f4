-- ===== src/Mime/Tests.antt =====
-- MIME types against the patterns of a bucket.
use alyx.Prelude.{◌≡◌, refl, true, false, [], ◌∷◌}
use Prim.Native.Char.{code}
use Prim.Native.String.{String}
use alyx.Bytes.{Bytes}
use alyx.Mime.{matches_mime_type}

abbrev text : String → Bytes
text String.[] = []
text (String.◌∷◌ c s) = code c ∷ text s

patterns :
    (matches_mime_type (text "text/html; charset=utf-8") (text "text/html") ≡ true)
    × (matches_mime_type (text "image/png") (text "image/*") ≡ true)
    × (matches_mime_type (text "imagex/png") (text "image/*") ≡ false)
    × (matches_mime_type (text "video/mp4") (text "*") ≡ true)
    × (matches_mime_type (text "video/mp4") (text "video/mp") ≡ false)
unfolding matches_mime_type
patterns = (refl, refl, refl, refl, refl)
