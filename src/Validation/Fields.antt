-- ===== src/Validation/Fields.antt =====
-- When the checks of a type, and of the rules of a field, find no error.
use alyx.Prelude.{◌≡◌, String, Bool, true, not, Option, none, some, List, length}
use alyx.Bytes.{Bytes}
use alyx.Validation.{
  Value, null, text, bytes, int, float, array, strings, other, Values, nothing, more, SelectConfig,
  Field, ValidationError, check, on_text, contains, string_item_errors,
}
use alyx.Validation.Checks.{
  to_string, is_number, validate_string, validate_text, item_errors, select_errors, select_with,
  count,
}
use alyx.Validation.Meets.{AtLeast, AtMost, IsText, IfText, IsNumber, ItemsAmong, IsSelection}
use alyx.Validation.Lists.{
  FreeIff, nil-FreeIff, error-FreeIff, both, check-FreeIff, not_iff, length_errors-FreeIff,
  Among-FreeIff, string_item_errors-FreeIff, many_errors-FreeIff,
}

module _ {F : Type 0} where
  -- Checks of a text, which a value of another kind fails or passes.
  pub on_text-FreeIff :
      (errors : Bytes → List ValidationError) (P : Bytes → Type 0)
      → ((s : Bytes) → FreeIff (errors s) (P s))
      → (v : Value F) → FreeIff (on_text errors (to_string v)) (IfText P v)
  unfolding to_string
  on_text-FreeIff errors P i null = nil-FreeIff
  on_text-FreeIff errors P i (text s) = i s
  on_text-FreeIff errors P i (bytes s) = i s
  on_text-FreeIff errors P i (int n) = nil-FreeIff
  on_text-FreeIff errors P i (float x) = nil-FreeIff
  on_text-FreeIff errors P i (array vs) = nil-FreeIff
  on_text-FreeIff errors P i (strings vs) = nil-FreeIff
  on_text-FreeIff errors P i other = nil-FreeIff

  pub validate_string-FreeIff :
      (f : Field F) (v : Value F)
      → FreeIff
          (validate_string f v)
          (IsText (λ s. AtLeast f.min_length s × AtMost f.max_length s) v)
  unfolding validate_string to_string
  validate_string-FreeIff f null = error-FreeIff _ _
  validate_string-FreeIff f (text s) = length_errors-FreeIff _ _ _ s
  validate_string-FreeIff f (bytes s) = length_errors-FreeIff _ _ _ s
  validate_string-FreeIff f (int n) = error-FreeIff _ _
  validate_string-FreeIff f (float x) = error-FreeIff _ _
  validate_string-FreeIff f (array vs) = error-FreeIff _ _
  validate_string-FreeIff f (strings vs) = error-FreeIff _ _
  validate_string-FreeIff f other = error-FreeIff _ _

  pub validate_text-FreeIff :
      (f : Field F) (code : String) (regex : Bytes → Bool) (v : Value F)
      → FreeIff (validate_text f code regex v) (IsText (λ s. regex s ≡ true) v)
  unfolding validate_text to_string
  validate_text-FreeIff f code regex null = error-FreeIff _ _
  validate_text-FreeIff f code regex (text s) = check-FreeIff _ _ _ (not_iff (regex s))
  validate_text-FreeIff f code regex (bytes s) = check-FreeIff _ _ _ (not_iff (regex s))
  validate_text-FreeIff f code regex (int n) = error-FreeIff _ _
  validate_text-FreeIff f code regex (float x) = error-FreeIff _ _
  validate_text-FreeIff f code regex (array vs) = error-FreeIff _ _
  validate_text-FreeIff f code regex (strings vs) = error-FreeIff _ _
  validate_text-FreeIff f code regex other = error-FreeIff _ _

  pub IsNumber-FreeIff :
      (name : String) (v : Value F)
      → FreeIff (check (not (is_number v)) name "invalid_type") (IsNumber v)
  IsNumber-FreeIff name null = error-FreeIff _ _
  IsNumber-FreeIff name (text s) = error-FreeIff _ _
  IsNumber-FreeIff name (bytes s) = error-FreeIff _ _
  IsNumber-FreeIff name (int n) = nil-FreeIff
  IsNumber-FreeIff name (float x) = nil-FreeIff
  IsNumber-FreeIff name (array vs) = error-FreeIff _ _
  IsNumber-FreeIff name (strings vs) = error-FreeIff _ _
  IsNumber-FreeIff name other = error-FreeIff _ _

  item_errors-FreeIff :
      (name : String) (values : List Bytes) (items : Values F)
      → FreeIff (item_errors name values items) (ItemsAmong values items)
  unfolding item_errors
  item_errors-FreeIff name values nothing = nil-FreeIff
  item_errors-FreeIff name values (more (text s) rest) =
      both (check (not (contains values s)) name "invalid_select") (item_errors name values rest)
        (Among-FreeIff values s name "invalid_select") (item_errors-FreeIff name values rest)
  item_errors-FreeIff name values (more null rest) = error-FreeIff _ _
  item_errors-FreeIff name values (more (bytes s) rest) = error-FreeIff _ _
  item_errors-FreeIff name values (more (int n) rest) = error-FreeIff _ _
  item_errors-FreeIff name values (more (float x) rest) = error-FreeIff _ _
  item_errors-FreeIff name values (more (array vs) rest) = error-FreeIff _ _
  item_errors-FreeIff name values (more (strings vs) rest) = error-FreeIff _ _
  item_errors-FreeIff name values (more other rest) = error-FreeIff _ _

  pub validate_select-FreeIff :
      (name : String) (c : Option SelectConfig) (v : Value F)
      → FreeIff (select_with name c v) (IsSelection c v)
  unfolding select_errors
  validate_select-FreeIff name none v = nil-FreeIff
  validate_select-FreeIff name (some c) (text s) = Among-FreeIff c.values s name "invalid_select"
  validate_select-FreeIff name (some c) (array items) =
      many_errors-FreeIff name c.max_select (count items) (item_errors name c.values items)
        (item_errors-FreeIff name c.values items)
  validate_select-FreeIff name (some c) (strings items) =
      many_errors-FreeIff name c.max_select (length items) (string_item_errors name c.values items)
        (string_item_errors-FreeIff name c.values items)
  validate_select-FreeIff name (some c) null = error-FreeIff _ _
  validate_select-FreeIff name (some c) (bytes s) = error-FreeIff _ _
  validate_select-FreeIff name (some c) (int n) = error-FreeIff _ _
  validate_select-FreeIff name (some c) (float x) = error-FreeIff _ _
  validate_select-FreeIff name (some c) other = error-FreeIff _ _
