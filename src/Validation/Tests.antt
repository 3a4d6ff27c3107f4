-- ===== src/Validation/Tests.antt =====
-- Input for a collection of posts, and the theorem at it.
use alyx.Prelude.{ℕ, ◌≡◌, ◌↔◌, refl, String, Bool, true, false, none, some, List, [], ◌∷◌, ltb}
use alyx.Prelude.Int.{pos}
use alyx.Bytes.{Bytes}
use alyx.Map.{GoMap, lookup}
use alyx.Query.{codes}
use alyx.Schema.{FieldType, has_default}
use alyx.Validation.{
  Value, null, text, float, Floats, Regexes, Field, ValidationError, length_errors,
}
use alyx.Validation.Checks.{
  to_string, validate_string, validate_int, type_errors, validate_field_value, field_errors,
  validate_input,
}
use alyx.Validation.Valid.{AllAccept, validate_input-AllAccept}

-- Floating-point numbers in tenths, and patterns that accept any text but the empty one.
abbrev tenths : Floats ℕ
tenths = record { of_int = λ n. 0; less = λ a b. ltb a b }

abbrev nonempty : Bytes → Bool
nonempty [] = false
nonempty (c ∷ cs) = true

abbrev regexes : Regexes
regexes = record {
  uuid = nonempty;
  short_id = nonempty;
  email = nonempty;
  url = nonempty;
  date = nonempty;
  compile = λ p. none;
}

abbrev field : String → FieldType → Field ℕ
field name type = record {
  base = record {
    name = name;
    type = type;
    primary = false;
    unique = false;
    nullable = false;
    index = false;
    default = "";
    references = "";
  };
  on_update = "";
  validate = none;
  select = none;
  min_length = some (pos 3);
  max_length = none;
}

abbrev fields : List (Field ℕ)
fields = field "title" FieldType.string ∷ field "views" FieldType.int ∷ []

abbrev errors : GoMap (Value ℕ) → List ValidationError
errors row = validate_input tenths regexes fields row true

-- A title that is too short, and no number of views.
two_errors :
    errors (("title", text (codes "ab")) ∷ [])
    ≡ record { field = "title"; code = "min_length" }
      ∷ record { field = "views"; code = "required" }
      ∷ []
unfolding validate_input field_errors validate_field_value type_errors validate_string to_string
    length_errors lookup has_default
two_errors = refl

-- Neither a required field that is null nor an integer with a fraction is an error.
no_errors : errors (("title", null) ∷ ("views", float 25) ∷ []) ≡ []
unfolding validate_input field_errors validate_field_value type_errors validate_int lookup
    has_default
no_errors = refl

validate_input-AllAccept_example :
    (validate_input tenths regexes fields (("title", text (codes "abc")) ∷ []) false ≡ [])
    ↔ AllAccept tenths regexes fields (("title", text (codes "abc")) ∷ []) false
validate_input-AllAccept_example =
    validate_input-AllAccept tenths regexes fields (("title", text (codes "abc")) ∷ []) false
