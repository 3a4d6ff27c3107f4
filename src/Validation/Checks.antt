-- ===== src/Validation/Checks.antt =====
-- The functions of internal/database/validate.go that read a value.
use alyx.Prelude.{
  ℕ, String, Bool, true, false, not, ◌&&◌, ◌||◌, Option, none, some, List, [], ◌∷◌, ◌++◌, length,
  if◌then◌else◌, str_eq,
}
use alyx.Bytes.{Bytes}
use alyx.Map.{GoMap, lookup}
use alyx.Schema.{FieldType, has_default}
use alyx.Validation.{
  Value, null, text, bytes, int, float, array, strings, other, Values, nothing, more, Floats,
  Regexes, SelectConfig, FieldValidation, Field, ValidationError, check, error, contains,
  length_errors, string_item_errors, many_errors, on_text, compiled_errors, format_errors, is_nil,
  Format,
}

module _ {F : Type 0} where
  unfoldable pub to_string : Value F → Option Bytes
  to_string (text s) = some s
  to_string (bytes s) = some s
  to_string _ = none

  -- Whether toInt, and toFloat, accept the value.
  abbrev pub is_number : Value F → Bool
  is_number (int n) = true
  is_number (float x) = true
  is_number _ = false

  abbrev pub string_errors : Field F → Option Bytes → List ValidationError
  string_errors f none = error f.base.name "invalid_type"
  string_errors f (some s) = length_errors f.base.name f.min_length f.max_length s

  unfoldable pub validate_string : Field F → Value F → List ValidationError
  unfolding to_string length_errors
  validate_string f v = string_errors f (to_string v)

  unfoldable pub validate_int : Field F → Value F → List ValidationError
  validate_int f v = check (not (is_number v)) f.base.name "invalid_type"

  unfoldable pub validate_float : Field F → Value F → List ValidationError
  validate_float f v = check (not (is_number v)) f.base.name "invalid_type"

  abbrev pub matching : Field F → String → (Bytes → Bool) → Option Bytes → List ValidationError
  matching f code regex none = error f.base.name "invalid_type"
  matching f code regex (some s) = check (not (regex s)) f.base.name code

  -- validateShortID, validateUUID, validateEmail, validateURL and validateDate.
  unfoldable pub validate_text : Field F → String → (Bytes → Bool) → Value F → List ValidationError
  unfolding to_string
  validate_text f code regex v = matching f code regex (to_string v)

  -- An item that is no string ends the loop.
  unfoldable pub item_errors : String → List Bytes → Values F → List ValidationError
  unfolding contains
  item_errors name values nothing = []
  item_errors name values (more (text s) rest) =
      check (not (contains values s)) name "invalid_select" ++ item_errors name values rest
  item_errors name values (more _ rest) = error name "invalid_type"

  abbrev pub count : Values F → ℕ
  count nothing = 0
  count (more v rest) = ℕ.suc (count rest)

  unfoldable pub select_errors : String → SelectConfig → Value F → List ValidationError
  unfolding item_errors string_item_errors many_errors contains
  select_errors name c (text s) = check (not (contains c.values s)) name "invalid_select"
  select_errors name c (array items) =
      many_errors name c.max_select (count items) (item_errors name c.values items)
  select_errors name c (strings items) =
      many_errors name c.max_select (length items) (string_item_errors name c.values items)
  select_errors name c _ = error name "invalid_type"

  abbrev pub select_with : String → Option SelectConfig → Value F → List ValidationError
  select_with name none v = []
  select_with name (some c) v = select_errors name c v

  unfoldable pub validate_select : Field F → Value F → List ValidationError
  unfolding select_errors
  validate_select f v = select_with f.base.name f.select v

  unfoldable pub validate_string_length :
      String → Value F → FieldValidation F → List ValidationError
  unfolding to_string length_errors
  validate_string_length name v rules =
      on_text (length_errors name rules.min_length rules.max_length) (to_string v)

  unfoldable pub validate_enum : String → Value F → FieldValidation F → List ValidationError
  unfolding to_string contains
  validate_enum name v rules =
      if is_nil rules.enum
      then []
      else on_text (λ s. check (not (contains rules.enum s)) name "enum") (to_string v)

module _ {F : Type 0} (floats : Floats F) where
  unfoldable pub to_float : Value F → Option F
  to_float (int n) = some (floats.of_int n)
  to_float (float x) = some x
  to_float _ = none

  abbrev pub below : Option F → F → Bool
  below none x = false
  below (some m) x = floats.less x m

  abbrev pub above : Option F → F → Bool
  above none x = false
  above (some m) x = floats.less m x

  abbrev pub range_errors : String → FieldValidation F → Option F → List ValidationError
  range_errors name rules none = []
  range_errors name rules (some x) =
      check (below rules.min x) name "min_value" ++ check (above rules.max x) name "max_value"

  unfoldable pub validate_numeric_range :
      String → Value F → FieldValidation F → List ValidationError
  unfolding to_float
  validate_numeric_range name v rules = range_errors name rules (to_float v)

module _ {F : Type 0} (regexes : Regexes) where
  unfoldable pub validate_pattern : String → Value F → FieldValidation F → List ValidationError
  unfolding to_string
  validate_pattern name v rules =
      if is_nil rules.pattern
      then []
      else on_text (compiled_errors name (regexes.compile rules.pattern)) (to_string v)

  unfoldable pub validate_format : String → Value F → Format → List ValidationError
  unfolding to_string
  validate_format name v format = on_text (format_errors regexes name format) (to_string v)

-- A value that the database or its default sets, whatever the input has.
abbrev pub is_set_by_database : {F : Type 0} → Field F → Bool
is_set_by_database f =
    (f.base.primary && str_eq f.base.default "auto")
    || (str_eq f.base.default "now" || str_eq f.on_update "now")

module _ {F : Type 0} (floats : Floats F) (regexes : Regexes) where
  unfoldable pub validate_with_rules : String → Value F → FieldValidation F → List ValidationError
  unfolding validate_string_length validate_numeric_range validate_pattern validate_enum
      validate_format
  validate_with_rules name v rules =
      validate_string_length name v rules
      ++ (validate_numeric_range floats name v rules
          ++ (validate_pattern regexes name v rules
              ++ (validate_enum name v rules ++ validate_format regexes name v rules.format)))

  abbrev pub rule_errors : String → Value F → Option (FieldValidation F) → List ValidationError
  rule_errors name v none = []
  rule_errors name v (some rules) = validate_with_rules name v rules

  unfoldable pub type_errors : Field F → FieldType → Value F → List ValidationError
  unfolding validate_string validate_int validate_float validate_text validate_select
  type_errors f FieldType.string v = validate_string f v
  type_errors f FieldType.text v = validate_string f v
  type_errors f FieldType.rich_text v = validate_string f v
  type_errors f FieldType.int v = validate_int f v
  type_errors f FieldType.float v = validate_float f v
  type_errors f FieldType.id v = validate_text f "invalid_id" regexes.short_id v
  type_errors f FieldType.uuid v = validate_text f "invalid_uuid" regexes.uuid v
  type_errors f FieldType.relation v = validate_text f "invalid_uuid" regexes.uuid v
  type_errors f FieldType.email v = validate_text f "invalid_email" regexes.email v
  type_errors f FieldType.url v = validate_text f "invalid_url" regexes.url v
  type_errors f FieldType.date v = validate_text f "invalid_date" regexes.date v
  type_errors f FieldType.select v = validate_select f v
  type_errors f _ v = []

  unfoldable pub validate_field_value : Field F → Value F → List ValidationError
  unfolding type_errors validate_with_rules
  validate_field_value f v = type_errors f f.base.type v ++ rule_errors f.base.name v f.validate

  abbrev pub given_errors : Field F → Bool → Option (Value F) → List ValidationError
  given_errors f is_create none =
      check (is_create && (not f.base.nullable && not (has_default f.base))) f.base.name "required"
  given_errors f is_create (some null) = []
  given_errors f is_create (some (text s)) = validate_field_value f (text s)
  given_errors f is_create (some (bytes s)) = validate_field_value f (bytes s)
  given_errors f is_create (some (int n)) = validate_field_value f (int n)
  given_errors f is_create (some (float x)) = validate_field_value f (float x)
  given_errors f is_create (some (array vs)) = validate_field_value f (array vs)
  given_errors f is_create (some (strings vs)) = validate_field_value f (strings vs)
  given_errors f is_create (some other) = validate_field_value f other

  unfoldable pub field_errors : Field F → Bool → Option (Value F) → List ValidationError
  unfolding validate_field_value has_default
  field_errors f is_create v = if is_set_by_database f then [] else given_errors f is_create v

  -- ValidateInput, of the fields in their order.
  unfoldable pub validate_input : List (Field F) → GoMap (Value F) → Bool → List ValidationError
  unfolding field_errors
  validate_input [] row is_create = []
  validate_input (f ∷ rest) row is_create =
      field_errors f is_create (lookup f.base.name row) ++ validate_input rest row is_create

-- OrderedFields
abbrev pub with_field : {F : Type 0} → Option (Field F) → List (Field F) → List (Field F)
with_field none rest = rest
with_field (some f) rest = f ∷ rest

unfoldable pub ordered_fields : {F : Type 0} → GoMap (Field F) → List String → List (Field F)
ordered_fields fields [] = []
ordered_fields fields (name ∷ order) = with_field (lookup name fields) (ordered_fields fields order)
