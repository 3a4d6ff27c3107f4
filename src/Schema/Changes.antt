-- ===== src/Schema/Changes.antt =====
-- internal/schema/differ.go: a change, and the changes of one field. The texts of a change (its
-- Description and String) are left out.
use alyx.Prelude.{
  String, Bool, true, false, not, ◌&&◌, Option, none, some, List, [], ◌∷◌, ◌++◌, if◌then◌else◌,
  str_eq,
}
use alyx.Schema.{FieldType, same_type, Field, Index, int, float, bool, blob}

pub data ChangeType : Type 0 where
  add_collection drop_collection add_field drop_field modify_field rename_field add_index drop_index
        modify_rules :
      ChangeType

pub record Change : Type 0 where
  pub type : ChangeType
  pub collection : String
  pub field : String
  pub old_field : Option Field
  pub new_field : Option Field
  pub index : Option Index
  pub safe : Bool
  pub requires_manual : Bool

-- A change of a collection as a whole, of one of its fields, or of one of its indexes.
abbrev pub of_collection : ChangeType → String → Bool → Bool → Change
of_collection type name safe manual = record {
  type = type;
  collection = name;
  field = "";
  old_field = none;
  new_field = none;
  index = none;
  safe = safe;
  requires_manual = manual;
}

abbrev pub of_field :
    ChangeType → String → String → Option Field → Option Field → Bool → Bool → Change
of_field type name field old new safe manual = record (of_collection type name safe manual) {
  field = field;
  old_field = old;
  new_field = new;
}

abbrev pub of_index : ChangeType → String → Index → Change
of_index type name idx = record (of_collection type name true false) { index = some idx }

abbrev pub is_text_type : FieldType → Bool
is_text_type int = false
is_text_type bool = false
is_text_type float = false
is_text_type blob = false
is_text_type _ = true

abbrev pub is_int_type : FieldType → Bool
is_int_type int = true
is_int_type bool = true
is_int_type _ = false

unfoldable pub are_types_compatible : FieldType → FieldType → Bool
are_types_compatible old new =
    if is_text_type old && is_text_type new
    then true
    else if is_int_type old && is_int_type new
    then true
    else false

unfoldable pub type_change : String → String → Field → Field → List Change
type_change name field old new =
    if not (same_type old.type new.type) && not (are_types_compatible old.type new.type)
    then of_field modify_field name field (some old) (some new) false true ∷ []
    else []

unfoldable pub null_change : String → String → Field → Field → List Change
null_change name field old new =
    if not old.primary && not new.primary
    then if old.nullable && not new.nullable
      then of_field modify_field name field (some old) (some new) false true ∷ []
      else if not old.nullable && new.nullable
      then of_field modify_field name field (some old) (some new) true false ∷ []
      else []
    else []

abbrev pub same_bool : Bool → Bool → Bool
same_bool true b = b
same_bool false b = not b

unfoldable pub unique_change : String → String → Field → Field → List Change
unique_change name field old new =
    if not old.primary && not new.primary && not (same_bool old.unique new.unique)
    then if old.unique && not new.unique
      then of_field modify_field name field (some old) (some new) true false ∷ []
      else if not old.unique && new.unique
      then of_field modify_field name field (some old) (some new) false true ∷ []
      else []
    else []

unfoldable pub reference_change : String → String → Field → Field → List Change
reference_change name field old new =
    if not (str_eq old.references new.references)
    then if not (str_eq old.references "") && not (str_eq new.references "")
      then of_field modify_field name field (some old) (some new) false true ∷ []
      else []
    else []

unfoldable pub diff_field : String → String → Field → Field → List Change
diff_field name field old new =
    type_change name field old new
    ++ null_change name field old new
    ++ unique_change name field old new
    ++ reference_change name field old new
