-- ===== src/Schema/Tests.antt =====
-- Diffs of small schemas, and the theorems at concrete inputs.
use alyx.Prelude.{
  ◌≡◌, refl, String, Bool, true, false, ◌||◌, none, some, List, [], ◌∷◌, Bool-cases, str_eq, inl,
  inr, subst,
}
use alyx.Map.{GoMap, IsMap, lookup, insert}
use alyx.Schema.{
  Field, Collection, Schema, FieldType, string, text, int, json, sqlite_type, has_default,
  same_type,
}
use alyx.Schema.Types.{same_column, compatible_iff_same_column}
use alyx.Schema.Changes.{
  Change, diff_field, type_change, null_change, unique_change, reference_change,
  are_types_compatible, ChangeType, add_field, modify_field, drop_collection, add_collection,
}
use alyx.Schema.Differ.{
  diff, diff_collection, diff_indexes, rules_change, rules_changed, each, drop_field_change,
  field_change, drop_collection_change, collection_change, dropped_collections, has_unsafe_changes,
  collect_all_indexes, declared_indexes, field_indexes, field_index, implied_index, index_name,
  index_change,
}
use alyx.Schema.Same.{IsSchema, diff_self}
use alyx.Schema.Safe.{FieldsFit, diff_safe}
use alyx.Schema.Parts.{some-inj}

abbrev field : String → FieldType → Field
field name type = record {
  name = name;
  type = type;
  primary = false;
  unique = false;
  nullable = false;
  index = true;
  default = "";
  references = "";
}

abbrev collection : GoMap Field → Collection
collection fields = record { name = "posts"; fields = fields; indexes = []; rules = none }

abbrev schema : String → Collection → Schema
schema name c = record { version = 1; collections = (name, c) ∷ [] }

abbrev first : Collection
first = collection (("title", field "title" string) ∷ [])

-- The title becomes a text, and a nullable author is added.
abbrev second : Collection
second = collection (
    ("title", field "title" text)
    ∷ ("author", record (field "author" string) { nullable = true; index = false })
    ∷ [])

abbrev third : Collection
third = collection (("title", field "title" int) ∷ [])

abbrev types : List Change → List (ChangeType × Bool)
types [] = []
types (c ∷ cs) = (c.type, c.safe) ∷ types cs

diffs :
    (types (diff (schema "posts" first) (schema "posts" second)) ≡ (add_field, true) ∷ [])
    × (types (diff (schema "posts" first) (schema "posts" third)) ≡ (modify_field, false) ∷ [])
    × (types (diff (schema "posts" first) (schema "pages" first))
        ≡ (drop_collection, false) ∷ (add_collection, true) ∷ [])
unfolding diff drop_collection_change collection_change dropped_collections lookup insert each
    diff_collection drop_field_change field_change diff_field type_change null_change unique_change
    reference_change are_types_compatible rules_change rules_changed diff_indexes
    collect_all_indexes declared_indexes field_indexes field_index implied_index index_name
    index_change has_default
diffs = (refl, refl, refl)

-- An index that keeps its name while its fields change gives no change.
abbrev indexed : List String → Bool → Collection
indexed fields unique = record first {
  indexes = record { name = "by_title"; fields = fields; unique = unique; order = "" } ∷ [];
}

redefined_index_is_missed :
    diff_indexes "posts" (indexed ("title" ∷ []) false) (indexed ("author" ∷ []) true) ≡ []
unfolding diff_indexes collect_all_indexes declared_indexes field_indexes field_index implied_index
    index_name index_change lookup insert each
redefined_index_is_missed = refl

first-IsSchema : IsSchema (schema "posts" first)
unfolding lookup
first-IsSchema = (
  (refl, tt),
  λ name c found. elim (Bool-cases (str_eq "posts" name)) [
    | inl same ↦
        let found' = rw same at found in subst (λ d. IsMap d.fields) (some-inj found') (refl, tt)
    | inr other ↦ let found' = rw other at found in cc
  ],
)

diff_self_example : diff (schema "posts" first) (schema "posts" first) ≡ []
diff_self_example = diff_self (schema "posts" first) first-IsSchema

safe_step : has_unsafe_changes (diff (schema "posts" first) (schema "posts" second)) ≡ false
unfolding has_unsafe_changes diff drop_collection_change collection_change dropped_collections
    lookup insert each diff_collection drop_field_change field_change diff_field type_change
    null_change unique_change reference_change are_types_compatible rules_change rules_changed
    diff_indexes collect_all_indexes declared_indexes field_indexes field_index implied_index
    index_name index_change has_default
safe_step = refl

posts-found : lookup "posts" (schema "posts" first).collections ≡ some first
unfolding lookup
posts-found = refl

diff_safe_example :
    (d : Collection) × (lookup "posts" (schema "posts" second).collections ≡ some d)
    × FieldsFit first d
diff_safe_example =
    diff_safe (schema "posts" first) (schema "posts" second) safe_step "posts" first posts-found

compatible_iff_same_column_example :
    (same_type string json || are_types_compatible string json)
    ≡ same_column (sqlite_type string) (sqlite_type json)
compatible_iff_same_column_example = compatible_iff_same_column string json

abbrev some_changes : List Change
some_changes = diff (schema "posts" first) (schema "posts" third)
