-- ===== src/Validation/Meets.antt =====
-- What a value of a field has to be, said without the functions that collect errors.
use alyx.Prelude.{ℕ, ◌≡◌, ◌≢◌, ◌⊎◌, Bool, true, false, Option, none, some, List, [], ◌∷◌, length}
use alyx.Prelude.Int.{ℤ, pos, lt_int, le_int}
use alyx.Bytes.{Bytes}
use alyx.Schema.{FieldType}
use alyx.Validation.{
  Value, text, bytes, int, float, array, strings, Values, nothing, more, Floats, Regexes,
  SelectConfig, Format, no_format, email_format, url_format, uuid_format, other_format, Field,
}
use alyx.Validation.Checks.{count}

abbrev pub AtLeast : Option ℤ → Bytes → Type 0
AtLeast none s = Unit
AtLeast (some m) s = le_int m (pos (length s)) ≡ true

abbrev pub AtMost : Option ℤ → Bytes → Type 0
AtMost none s = Unit
AtMost (some m) s = le_int (pos (length s)) m ≡ true

abbrev pub Among : List Bytes → Bytes → Type 0
Among [] s = ⊥
Among (v ∷ rest) s = (v ≡ s) ⊎ Among rest s

abbrev pub AllAmong : List Bytes → List Bytes → Type 0
AllAmong values [] = Unit
AllAmong values (s ∷ rest) = Among values s × AllAmong values rest

-- Not the one selection that has to be a string, and not more than allowed, if there is a bound.
abbrev pub Allowed : ℤ → ℕ → Type 0
Allowed max n = (max ≢ pos 1) × (lt_int (pos 0) max ≡ true → le_int (pos n) max ≡ true)

abbrev pub MatchesIf : Option (Bytes → Bool) → Bytes → Type 0
MatchesIf none s = Unit
MatchesIf (some matches) s = matches s ≡ true

module _ (regexes : Regexes) where
  abbrev pub HasFormat : Format → Bytes → Type 0
  HasFormat no_format s = Unit
  HasFormat email_format s = regexes.email s ≡ true
  HasFormat url_format s = regexes.url s ≡ true
  HasFormat uuid_format s = regexes.uuid s ≡ true
  HasFormat other_format s = Unit

  -- No pattern, or one that does not compile, asks for nothing.
  abbrev pub HasPattern : Bytes → Bytes → Type 0
  HasPattern [] s = Unit
  HasPattern (c ∷ cs) s = MatchesIf (regexes.compile (c ∷ cs)) s

abbrev pub InEnum : List Bytes → Bytes → Type 0
InEnum [] s = Unit
InEnum (v ∷ vs) s = Among (v ∷ vs) s

module _ {F : Type 0} where
  -- The value is a text with the property.
  abbrev pub IsText : (Bytes → Type 0) → Value F → Type 0
  IsText P (text s) = P s
  IsText P (bytes s) = P s
  IsText P _ = ⊥

  -- If the value is a text, it has the property.
  abbrev pub IfText : (Bytes → Type 0) → Value F → Type 0
  IfText P (text s) = P s
  IfText P (bytes s) = P s
  IfText P _ = Unit

  abbrev pub IsNumber : Value F → Type 0
  IsNumber (int n) = Unit
  IsNumber (float x) = Unit
  IsNumber _ = ⊥

  abbrev pub ItemsAmong : List Bytes → Values F → Type 0
  ItemsAmong values nothing = Unit
  ItemsAmong values (more (text s) rest) = Among values s × ItemsAmong values rest
  ItemsAmong values (more _ rest) = ⊥

  abbrev pub IsSelection : Option SelectConfig → Value F → Type 0
  IsSelection none v = Unit
  IsSelection (some c) (text s) = Among c.values s
  IsSelection (some c) (array items) =
      Allowed c.max_select (count items) × ItemsAmong c.values items
  IsSelection (some c) (strings items) =
      Allowed c.max_select (length items) × AllAmong c.values items
  IsSelection (some c) _ = ⊥

  module _ (regexes : Regexes) where
    abbrev pub MeetsType : Field F → FieldType → Value F → Type 0
    MeetsType f FieldType.string v = IsText (λ s. AtLeast f.min_length s × AtMost f.max_length s) v
    MeetsType f FieldType.text v = IsText (λ s. AtLeast f.min_length s × AtMost f.max_length s) v
    MeetsType f FieldType.rich_text v =
        IsText (λ s. AtLeast f.min_length s × AtMost f.max_length s) v
    MeetsType f FieldType.int v = IsNumber v
    MeetsType f FieldType.float v = IsNumber v
    MeetsType f FieldType.id v = IsText (λ s. regexes.short_id s ≡ true) v
    MeetsType f FieldType.uuid v = IsText (λ s. regexes.uuid s ≡ true) v
    MeetsType f FieldType.relation v = IsText (λ s. regexes.uuid s ≡ true) v
    MeetsType f FieldType.email v = IsText (λ s. regexes.email s ≡ true) v
    MeetsType f FieldType.url v = IsText (λ s. regexes.url s ≡ true) v
    MeetsType f FieldType.date v = IsText (λ s. regexes.date s ≡ true) v
    MeetsType f FieldType.select v = IsSelection f.select v
    MeetsType f _ v = Unit

  module _ (floats : Floats F) where
    abbrev pub NotBelow : Option F → F → Type 0
    NotBelow none x = Unit
    NotBelow (some m) x = floats.less x m ≡ false

    abbrev pub NotAbove : Option F → F → Type 0
    NotAbove none x = Unit
    NotAbove (some m) x = floats.less m x ≡ false

    abbrev pub InRange : Option F → Option F → Value F → Type 0
    InRange min max (int n) = NotBelow min (floats.of_int n) × NotAbove max (floats.of_int n)
    InRange min max (float x) = NotBelow min x × NotAbove max x
    InRange min max _ = Unit
