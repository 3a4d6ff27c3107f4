-- ===== src/Mime.antt =====
-- `matchesMimeType` of internal/storage/service.go. Texts are lists of bytes. `strings.TrimSpace`
-- is modelled on ASCII: it strips tab, line feed, vertical tab, form feed, return and space.
mod Tests
use alyx.Prelude.{
  ℕ, ◌≡◌, Bool, true, false, not, ◌&&◌, ◌||◌, Option, none, some, List, [], ◌∷◌, ◌++◌, ◌==◌, leb,
  if◌then◌else◌,
}
use alyx.Bytes.{Bytes, bytes_eq}

-- strings.HasPrefix
unfoldable pub has_prefix : Bytes → Bytes → Bool
has_prefix s [] = true
has_prefix [] (p ∷ ps) = false
has_prefix (c ∷ s) (p ∷ ps) = c == p && has_prefix s ps

abbrev is_space : ℕ → Bool
is_space c = c == 32 || (leb 9 c && leb c 13)

unfoldable pub trim_left : Bytes → Bytes
trim_left [] = []
trim_left (c ∷ s) = let rest = trim_left s in if is_space c then rest else c ∷ s

abbrev push_unless_blank : ℕ → Bytes → Bytes
push_unless_blank c [] = if is_space c then [] else c ∷ []
push_unless_blank c (d ∷ r) = c ∷ d ∷ r

-- Without the spaces at the end.
unfoldable pub trim_right : Bytes → Bytes
trim_right [] = []
trim_right (c ∷ s) = push_unless_blank c (trim_right s)

-- mimeType[:idx], where idx is that of the first ';'; `none` if there is no ';'.
unfoldable pub before_semicolon : Bytes → Option Bytes
before_semicolon [] = none
before_semicolon (c ∷ s) =
    let rest = before_semicolon s in
    if c == b';' then some [] else elim rest [ none ↦ none | some r ↦ some (c ∷ r) ]

-- The part before "/*" of a pattern that ends so.
unfoldable pub wildcard_base : Bytes → Option Bytes
wildcard_base [] = none
wildcard_base (c ∷ s) =
    if bytes_eq (c ∷ s) (b'/' ∷ b'*' ∷ [])
    then some []
    else elim (wildcard_base s) [ none ↦ none | some r ↦ some (c ∷ r) ]

unfoldable pub base_mime_type : Bytes → Bytes
unfolding before_semicolon trim_left trim_right
base_mime_type mime = elim (before_semicolon mime) [
  | none ↦ mime
  | some b ↦ trim_right (trim_left b)
]

unfoldable pub matches_mime_type : Bytes → Bytes → Bool
unfolding bytes_eq has_prefix wildcard_base base_mime_type
matches_mime_type mime pattern_text =
    if bytes_eq pattern_text (b'*' ∷ b'/' ∷ b'*' ∷ []) || bytes_eq pattern_text (b'*' ∷ [])
    then true
    else elim (wildcard_base pattern_text) [
      | some prefix ↦ has_prefix (base_mime_type mime) (prefix ++ (b'/' ∷ []))
      | none ↦ bytes_eq (base_mime_type mime) pattern_text
    ]
