-- ===== src/Validation.antt =====
-- internal/database/validate.go: the errors of the input for a document. Texts are bytes. The
-- regular expressions and the floating-point numbers are parameters; the message of an error, a
-- text made of its field, its code and the bound, is left out.
pub mod Checks
pub mod Meets
pub mod Lists
pub mod Fields
pub mod Rules
pub mod Valid
mod Tests
use alyx.Prelude.{
  ℕ, String, Bool, true, false, not, ◌&&◌, ◌||◌, Option, none, some, List, [], ◌∷◌, ◌++◌, ◌==◌,
  length, if◌then◌else◌, str_eq,
}
use alyx.Prelude.Int.{ℤ, pos, lt_int, eq_int}
use alyx.Bytes.{Bytes, bytes_eq}
use alyx.Map.{GoMap, lookup}
use alyx.Schema.{FieldType, has_default}
use alyx.Schema

-- A decoded value; `other` is of any other Go type.
mutual
  pub data Value (F : Type 0) : Type 0 where
    null : Value F
    text : Bytes → Value F
    bytes : Bytes → Value F
    int : ℤ → Value F
    float : F → Value F
    array : Values F → Value F
    strings : List Bytes → Value F
    other : Value F

  pub data Values (F : Type 0) : Type 0 where
    nothing : Values F
    more : Value F → Values F → Values F

pub record Floats (F : Type 0) : Type 0 where
  pub of_int : ℤ → F
  pub less : F → F → Bool

pub record Regexes : Type 0 where
  pub uuid : Bytes → Bool
  pub short_id : Bytes → Bool
  pub email : Bytes → Bool
  pub url : Bytes → Bool
  pub date : Bytes → Bool
  pub compile : Bytes → Option (Bytes → Bool)

pub record SelectConfig : Type 0 where
  pub values : List Bytes
  pub max_select : ℤ

pub data Format : Type 0 where
  no_format email_format url_format uuid_format other_format : Format

pub record FieldValidation (F : Type 0) : Type 0 where
  pub min_length : Option ℤ
  pub max_length : Option ℤ
  pub min : Option F
  pub max : Option F
  pub format : Format
  pub pattern : Bytes
  pub enum : List Bytes

-- `base` has the fields that Schema reads.
pub record Field (F : Type 0) : Type 0 where
  pub base : Schema.Field
  pub on_update : String
  pub validate : Option (FieldValidation F)
  pub select : Option SelectConfig
  pub min_length : Option ℤ
  pub max_length : Option ℤ

pub record ValidationError : Type 0 where
  pub field : String
  pub code : String

-- errs.Add, if the test finds a fault.
abbrev pub check : Bool → String → String → List ValidationError
check fault field code = if fault then record { field = field; code = code } ∷ [] else []

abbrev pub error : String → String → List ValidationError
error field code = record { field = field; code = code } ∷ []

-- len(xs) == 0
abbrev pub is_nil : {A : Type 0} → List A → Bool
is_nil [] = true
is_nil (x ∷ xs) = false

unfoldable pub contains : List Bytes → Bytes → Bool
contains [] item = false
contains (v ∷ rest) item = let found = contains rest item in if bytes_eq v item then true else found

abbrev pub too_short : Option ℤ → Bytes → Bool
too_short none s = false
too_short (some m) s = lt_int (pos (length s)) m

abbrev pub too_long : Option ℤ → Bytes → Bool
too_long none s = false
too_long (some m) s = lt_int m (pos (length s))

unfoldable pub length_errors : String → Option ℤ → Option ℤ → Bytes → List ValidationError
length_errors name min max s =
    check (too_short min s) name "min_length" ++ check (too_long max s) name "max_length"

unfoldable pub string_item_errors : String → List Bytes → List Bytes → List ValidationError
unfolding contains
string_item_errors name values [] = []
string_item_errors name values (s ∷ rest) =
    check (not (contains values s)) name "invalid_select" ++ string_item_errors name values rest

-- The two tests of the number of selections, before those of the items.
unfoldable pub many_errors : String → ℤ → ℕ → List ValidationError → List ValidationError
many_errors name max_select n items =
    if eq_int max_select (pos 1)
    then error name "invalid_select"
    else if lt_int (pos 0) max_select && lt_int max_select (pos n)
    then error name "max_select"
    else items

-- The checks of the rules that read a text pass over any other value.
abbrev pub on_text : (Bytes → List ValidationError) → Option Bytes → List ValidationError
on_text errors none = []
on_text errors (some s) = errors s

abbrev pub compiled_errors : String → Option (Bytes → Bool) → Bytes → List ValidationError
compiled_errors name none s = []
compiled_errors name (some matches) s = check (not (matches s)) name "pattern"

abbrev pub format_errors : Regexes → String → Format → Bytes → List ValidationError
format_errors regexes name no_format s = []
format_errors regexes name email_format s = check (not (regexes.email s)) name "format_email"
format_errors regexes name url_format s = check (not (regexes.url s)) name "format_url"
format_errors regexes name uuid_format s = check (not (regexes.uuid s)) name "format_uuid"
format_errors regexes name other_format s = []
