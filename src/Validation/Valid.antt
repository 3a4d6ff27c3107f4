-- ===== src/Validation/Valid.antt =====
-- Which input is accepted.
use alyx.Prelude.{
  ◌⊎◌, ◌&&◌, ◌≡◌, ◌↔◌, inl, inr, refl, Bool, true, false, not, Option, none, some, List, [], ◌∷◌,
  Bool-cases,
}
use alyx.Schema.{FieldType}
use alyx.Validation.{
  Value, null, text, bytes, int, float, array, strings, other, Floats, Regexes, Field,
}
use alyx.Validation.Checks.{validate_int, validate_float, validate_select, type_errors}
use alyx.Validation.Meets.{MeetsType}
use alyx.Validation.Lists.{FreeIff, nil-FreeIff, both, check-FreeIff}
use alyx.Map.{GoMap, lookup}
use alyx.Schema.{has_default}
use alyx.Validation.Checks.{
  validate_field_value, is_set_by_database, given_errors, field_errors, validate_input,
}
use alyx.Validation.Fields.{
  validate_string-FreeIff, validate_text-FreeIff, IsNumber-FreeIff, validate_select-FreeIff,
}
use alyx.Validation.Rules.{MeetsRules, rule_errors-FreeIff}

-- A missing value has to be optional, or to be given by a default; null is always accepted.
abbrev pub Accepts : {F : Type 0} → Floats F → Regexes → Field F → Bool → Option (Value F) → Type 0
Accepts floats regexes f is_create none =
    is_create ≡ true → (f.base.nullable ≡ true) ⊎ (has_default f.base ≡ true)
Accepts floats regexes f is_create (some null) = Unit
Accepts floats regexes f is_create (some v) =
    MeetsType regexes f f.base.type v × MeetsRules floats regexes f.validate v

required_iff :
    (c n d : Bool) → ((c && (not n && not d)) ≡ false) ↔ (c ≡ true → (n ≡ true) ⊎ (d ≡ true))
required_iff false n d = (λ e. λ h. absurd (cc), λ h. refl)
required_iff true true d = (λ e. λ h. inl refl, λ h. refl)
required_iff true false true = (λ e. λ h. inr refl, λ h. refl)
required_iff true false false = (λ e. absurd (cc), λ h. absurd (neither (h refl)))
  where
    neither : (false ≡ true) ⊎ (false ≡ true) → ⊥
    neither (inl e) = cc
    neither (inr e) = cc

module _ {F : Type 0} (floats : Floats F) (regexes : Regexes) where
  type_errors-FreeIff :
      (f : Field F) (type : FieldType) (v : Value F)
      → FreeIff (type_errors floats regexes f type v) (MeetsType regexes f type v)
  unfolding type_errors validate_int validate_float validate_select
  type_errors-FreeIff f FieldType.string v = validate_string-FreeIff f v
  type_errors-FreeIff f FieldType.text v = validate_string-FreeIff f v
  type_errors-FreeIff f FieldType.rich_text v = validate_string-FreeIff f v
  type_errors-FreeIff f FieldType.int v = IsNumber-FreeIff f.base.name v
  type_errors-FreeIff f FieldType.float v = IsNumber-FreeIff f.base.name v
  type_errors-FreeIff f FieldType.id v = validate_text-FreeIff f "invalid_id" regexes.short_id v
  type_errors-FreeIff f FieldType.uuid v = validate_text-FreeIff f "invalid_uuid" regexes.uuid v
  type_errors-FreeIff f FieldType.relation v = validate_text-FreeIff f "invalid_uuid" regexes.uuid v
  type_errors-FreeIff f FieldType.email v = validate_text-FreeIff f "invalid_email" regexes.email v
  type_errors-FreeIff f FieldType.url v = validate_text-FreeIff f "invalid_url" regexes.url v
  type_errors-FreeIff f FieldType.date v = validate_text-FreeIff f "invalid_date" regexes.date v
  type_errors-FreeIff f FieldType.select v = validate_select-FreeIff f.base.name f.select v
  type_errors-FreeIff f FieldType.bool v = nil-FreeIff
  type_errors-FreeIff f FieldType.timestamp v = nil-FreeIff
  type_errors-FreeIff f FieldType.json v = nil-FreeIff
  type_errors-FreeIff f FieldType.blob v = nil-FreeIff
  type_errors-FreeIff f FieldType.file v = nil-FreeIff

  value-FreeIff :
      (f : Field F) (v : Value F)
      → FreeIff
          (validate_field_value floats regexes f v)
          (MeetsType regexes f f.base.type v × MeetsRules floats regexes f.validate v)
  unfolding validate_field_value
  value-FreeIff f v =
      both _ _ (type_errors-FreeIff f f.base.type v)
        (rule_errors-FreeIff floats regexes f.base.name v f.validate)

  given_errors-FreeIff :
      (f : Field F) (is_create : Bool) (v : Option (Value F))
      → FreeIff (given_errors floats regexes f is_create v) (Accepts floats regexes f is_create v)
  given_errors-FreeIff f is_create none =
      check-FreeIff _ _ _ (required_iff is_create f.base.nullable (has_default f.base))
  given_errors-FreeIff f is_create (some null) = nil-FreeIff
  given_errors-FreeIff f is_create (some (text s)) = value-FreeIff f (text s)
  given_errors-FreeIff f is_create (some (bytes s)) = value-FreeIff f (bytes s)
  given_errors-FreeIff f is_create (some (int n)) = value-FreeIff f (int n)
  given_errors-FreeIff f is_create (some (float x)) = value-FreeIff f (float x)
  given_errors-FreeIff f is_create (some (array vs)) = value-FreeIff f (array vs)
  given_errors-FreeIff f is_create (some (strings vs)) = value-FreeIff f (strings vs)
  given_errors-FreeIff f is_create (some other) = value-FreeIff f other

  -- Each field is set by the database itself, or accepts what the input has for it.
  abbrev pub AllAccept : List (Field F) → GoMap (Value F) → Bool → Type 0
  AllAccept [] row is_create = Unit
  AllAccept (f ∷ rest) row is_create =
      (is_set_by_database f ≡ false → Accepts floats regexes f is_create (lookup f.base.name row))
      × AllAccept rest row is_create

  field_errors-FreeIff :
      (f : Field F) (is_create : Bool) (v : Option (Value F))
      → FreeIff
          (field_errors floats regexes f is_create v)
          (is_set_by_database f ≡ false → Accepts floats regexes f is_create v)
  unfolding field_errors
  field_errors-FreeIff f is_create v = elim (Bool-cases (is_set_by_database f)) [
    | inl set ↦ rw set (λ e. λ h. absurd (cc), λ h. refl)
    | inr input ↦
        let i = given_errors-FreeIff f is_create v in rw input (λ e. λ h. i.0 e, λ h. i.1 (h refl))
  ]

  -- The input for a document has no error exactly if each field that the database does not set
  -- itself accepts what the input has for it: nothing, if the field is nullable or has a default
  -- or the document exists already; null; or a value that meets the field's type (the length of a
  -- text, the pattern of an identifier, address or date, the choices of a selection) and its rules.
  pub validate_input-AllAccept :
      (fields : List (Field F)) (row : GoMap (Value F)) (is_create : Bool)
      → (validate_input floats regexes fields row is_create ≡ []) ↔ AllAccept fields row is_create
  unfolding validate_input
  validate_input-AllAccept [] row is_create = nil-FreeIff
  validate_input-AllAccept (f ∷ rest) row is_create =
      both _ _ (field_errors-FreeIff f is_create (lookup f.base.name row))
        (validate_input-AllAccept rest row is_create)
