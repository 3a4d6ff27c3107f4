-- ===== src/Validation/Rules.antt =====
-- When the rules of a field find no error.
use alyx.Prelude.{◌≡◌, ◌↔◌, refl, String, Bool, false, not, Option, none, some, List, [], ◌∷◌}
use alyx.Bytes.{Bytes}
use alyx.Validation.{
  Value, null, text, bytes, int, float, array, strings, other, Floats, Regexes, Format, no_format,
  email_format, url_format, uuid_format, other_format, FieldValidation, check, contains,
  compiled_errors, format_errors,
}
use alyx.Validation.Checks.{
  validate_string_length, validate_enum, to_float, below, above, range_errors,
  validate_numeric_range, validate_pattern, validate_format, validate_with_rules,
}
use alyx.Validation.Meets.{
  AtLeast, AtMost, Among, IfText, HasFormat, MatchesIf, HasPattern, InEnum, NotBelow, NotAbove,
  InRange,
}
use alyx.Validation.Lists.{
  FreeIff, nil-FreeIff, both, check-FreeIff, not_iff, length_errors-FreeIff, Among-FreeIff,
}
use alyx.Validation.Checks.{rule_errors}
use alyx.Validation.Fields.{on_text-FreeIff}

format_errors-FreeIff :
    (regexes : Regexes) (name : String) (format : Format) (s : Bytes)
    → FreeIff (format_errors regexes name format s) (HasFormat regexes format s)
format_errors-FreeIff regexes name no_format s = nil-FreeIff
format_errors-FreeIff regexes name email_format s = check-FreeIff _ _ _ (not_iff (regexes.email s))
format_errors-FreeIff regexes name url_format s = check-FreeIff _ _ _ (not_iff (regexes.url s))
format_errors-FreeIff regexes name uuid_format s = check-FreeIff _ _ _ (not_iff (regexes.uuid s))
format_errors-FreeIff regexes name other_format s = nil-FreeIff

compiled_errors-FreeIff :
    (name : String) (compiled : Option (Bytes → Bool)) (s : Bytes)
    → FreeIff (compiled_errors name compiled s) (MatchesIf compiled s)
compiled_errors-FreeIff name none s = nil-FreeIff
compiled_errors-FreeIff name (some matches) s = check-FreeIff _ _ _ (not_iff (matches s))

module _ {F : Type 0} where
  -- A text, when the rule asks for nothing.
  IfText-free : (P : Bytes → Type 0) (v : Value F) → ((s : Bytes) → P s) → FreeIff [] (IfText P v)
  IfText-free P null h = nil-FreeIff
  IfText-free P (text s) h = (λ e. h s, λ p. refl)
  IfText-free P (bytes s) h = (λ e. h s, λ p. refl)
  IfText-free P (int n) h = nil-FreeIff
  IfText-free P (float x) h = nil-FreeIff
  IfText-free P (array vs) h = nil-FreeIff
  IfText-free P (strings vs) h = nil-FreeIff
  IfText-free P other h = nil-FreeIff

  validate_enum-FreeIff :
      (name : String) (v : Value F) (rules : FieldValidation F)
      → FreeIff (validate_enum name v rules) (IfText (InEnum rules.enum) v)
  unfolding validate_enum
  validate_enum-FreeIff name v rules = by_enum rules.enum
    where
      by_enum :
          (values : List Bytes)
          → FreeIff
              (validate_enum name v (record rules { enum = values }))
              (IfText (InEnum values) v)
      by_enum [] = IfText-free (λ s. Unit) v (λ s. tt)
      by_enum (w ∷ values) =
          on_text-FreeIff (λ s. check (not (contains (w ∷ values) s)) name "enum")
            (Among (w ∷ values)) (λ s. Among-FreeIff (w ∷ values) s name "enum") v

  validate_pattern-FreeIff :
      (regexes : Regexes) (name : String) (v : Value F) (rules : FieldValidation F)
      → FreeIff
          (validate_pattern regexes name v rules)
          (IfText (HasPattern regexes rules.pattern) v)
  unfolding validate_pattern
  validate_pattern-FreeIff regexes name v rules = by_pattern rules.pattern
    where
      by_pattern :
          (p : Bytes)
          → FreeIff
              (validate_pattern regexes name v (record rules { pattern = p }))
              (IfText (HasPattern regexes p) v)
      by_pattern [] = IfText-free (λ s. Unit) v (λ s. tt)
      by_pattern (c ∷ cs) =
          on_text-FreeIff (compiled_errors name (regexes.compile (c ∷ cs)))
            (MatchesIf (regexes.compile (c ∷ cs)))
            (compiled_errors-FreeIff name (regexes.compile (c ∷ cs))) v

  module _ (floats : Floats F) where
    below_iff : (m : Option F) (x : F) → (below floats m x ≡ false) ↔ NotBelow floats m x
    below_iff none x = (λ e. tt, λ u. refl)
    below_iff (some m) x = (λ e. e, λ e. e)

    above_iff : (m : Option F) (x : F) → (above floats m x ≡ false) ↔ NotAbove floats m x
    above_iff none x = (λ e. tt, λ u. refl)
    above_iff (some m) x = (λ e. e, λ e. e)

    range-FreeIff :
        (name : String) (rules : FieldValidation F) (x : F)
        → FreeIff
            (range_errors floats name rules (some x))
            (NotBelow floats rules.min x × NotAbove floats rules.max x)
    range-FreeIff name rules x =
        both (check (below floats rules.min x) name "min_value")
          (check (above floats rules.max x) name "max_value")
          (check-FreeIff _ _ _ (below_iff rules.min x))
          (check-FreeIff _ _ _ (above_iff rules.max x))

    validate_numeric_range-FreeIff :
        (name : String) (v : Value F) (rules : FieldValidation F)
        → FreeIff
            (validate_numeric_range floats name v rules)
            (InRange floats rules.min rules.max v)
    unfolding validate_numeric_range to_float
    validate_numeric_range-FreeIff name null rules = nil-FreeIff
    validate_numeric_range-FreeIff name (text s) rules = nil-FreeIff
    validate_numeric_range-FreeIff name (bytes s) rules = nil-FreeIff
    validate_numeric_range-FreeIff name (int n) rules = range-FreeIff name rules (floats.of_int n)
    validate_numeric_range-FreeIff name (float x) rules = range-FreeIff name rules x
    validate_numeric_range-FreeIff name (array vs) rules = nil-FreeIff
    validate_numeric_range-FreeIff name (strings vs) rules = nil-FreeIff
    validate_numeric_range-FreeIff name other rules = nil-FreeIff

-- The value meets the rules of its field.
abbrev pub MeetsRules :
    {F : Type 0} → Floats F → Regexes → Option (FieldValidation F) → Value F → Type 0
MeetsRules floats regexes none v = Unit
MeetsRules floats regexes (some rules) v =
    IfText (λ s. AtLeast rules.min_length s × AtMost rules.max_length s) v
    × (InRange floats rules.min rules.max v
        × (IfText (HasPattern regexes rules.pattern) v
            × (IfText (InEnum rules.enum) v × IfText (HasFormat regexes rules.format) v)))

module _ {F : Type 0} (floats : Floats F) (regexes : Regexes) where
  validate_with_rules-FreeIff :
      (name : String) (v : Value F) (rules : FieldValidation F)
      → FreeIff
          (validate_with_rules floats regexes name v rules)
          (MeetsRules floats regexes (some rules) v)
  unfolding validate_with_rules validate_string_length validate_format
  validate_with_rules-FreeIff name v rules =
      both _ _
        (on_text-FreeIff _ _ (length_errors-FreeIff name rules.min_length rules.max_length) v)
        (both _ _ (validate_numeric_range-FreeIff floats name v rules) (
          both _ _ (validate_pattern-FreeIff regexes name v rules) (
            both _ _ (validate_enum-FreeIff name v rules)
              (on_text-FreeIff _ _ (format_errors-FreeIff regexes name rules.format) v))))

  pub rule_errors-FreeIff :
      (name : String) (v : Value F) (rules : Option (FieldValidation F))
      → FreeIff (rule_errors floats regexes name v rules) (MeetsRules floats regexes rules v)
  rule_errors-FreeIff name v none = nil-FreeIff
  rule_errors-FreeIff name v (some rules) = validate_with_rules-FreeIff name v rules
