-- ===== src/Schema/Differ.antt =====
-- internal/schema/differ.go: the changes that lead from one schema to another. A `range` loop over
-- a map takes the order of the list.
use Prim.Native.String.{◌++◌ as append}
use alyx.Prelude.{
  String, Bool, true, false, not, ◌&&◌, ◌||◌, Option, none, some, List, [], ◌∷◌, ◌++◌, filter,
  if◌then◌else◌, str_eq,
}
use alyx.Map.{GoMap, lookup, insert}
use alyx.Schema.{Field, has_default, Index, Rules, Collection, Schema}
use alyx.Schema.Changes.{
  Change, ChangeType, add_collection, add_field, add_index, diff_field, drop_collection, drop_field,
  drop_index, modify_rules, of_collection, of_field, of_index,
}

-- for k, v := range m { changes = append(changes, f(k, v)...) }
unfoldable pub each {ℓ} : {V : Type ℓ} → (String → V → List Change) → GoMap V → List Change
each f [] = []
each f ((k, v) ∷ m) = f k v ++ each f m

-- The indexes of a collection by name: the declared ones, then those of its indexed fields.
unfoldable pub declared_indexes : List Index → GoMap Index → GoMap Index
declared_indexes [] found = found
declared_indexes (idx ∷ rest) found = declared_indexes rest (insert idx.name idx found)

unfoldable pub index_name : String → String → String
index_name collection field = append "idx_" (append collection (append "_" field))

abbrev pub add_unless_found : Index → Option Index → GoMap Index → GoMap Index
add_unless_found idx none found = insert idx.name idx found
add_unless_found idx (some other) found = found

unfoldable pub implied_index : String → Field → Index
implied_index collection field = record {
  name = index_name collection field.name;
  fields = field.name ∷ [];
  unique = false;
  order = "";
}

unfoldable pub field_index : String → Field → GoMap Index → GoMap Index
unfolding implied_index
field_index collection field found =
    let idx = implied_index collection field in
    if field.index && not field.primary && not field.unique
    then add_unless_found idx (lookup idx.name found) found
    else found

unfoldable pub field_indexes : String → GoMap Field → GoMap Index → GoMap Index
field_indexes collection [] found = found
field_indexes collection ((name, field) ∷ rest) found =
    field_indexes collection rest (field_index collection field found)

unfoldable pub collect_all_indexes : String → Collection → GoMap Index
collect_all_indexes name col = field_indexes name col.fields (declared_indexes col.indexes [])

unfoldable pub index_change : ChangeType → String → Index → Option Index → List Change
index_change type name idx none = of_index type name idx ∷ []
index_change type name idx (some other) = []

unfoldable pub diff_indexes : String → Collection → Collection → List Change
diff_indexes name old new =
    let old_indexes = collect_all_indexes name old in
    let new_indexes = collect_all_indexes name new in
    each (λ k idx. index_change drop_index name idx (lookup k new_indexes)) old_indexes
    ++ each (λ k idx. index_change add_index name idx (lookup k old_indexes)) new_indexes

unfoldable pub rules_changed : Option Rules → Option Rules → Bool
rules_changed none none = false
rules_changed none (some new) = true
rules_changed (some old) none = true
rules_changed (some old) (some new) =
    not (str_eq old.create new.create)
    || not (str_eq old.read new.read)
    || not (str_eq old.update new.update)
    || not (str_eq old.delete new.delete)

unfoldable pub drop_field_change : String → String → Field → Option Field → List Change
drop_field_change name field old none =
    of_field drop_field name field (some old) none false true ∷ []
drop_field_change name field old (some new) = []

unfoldable pub field_change : String → String → Option Field → Field → List Change
field_change name field none new =
    let safe = new.nullable || has_default new in
    of_field add_field name field none (some new) safe (not safe) ∷ []
field_change name field (some old) new = diff_field name field old new

unfoldable pub rules_change : String → Collection → Collection → List Change
rules_change name old new =
    if rules_changed old.rules new.rules
    then of_collection modify_rules name true false ∷ []
    else []

-- for fieldName := range old.Fields
abbrev pub dropped_fields : String → Collection → Collection → List Change
dropped_fields name old new =
    each (λ f field. drop_field_change name f field (lookup f new.fields)) old.fields

-- for fieldName, newField := range newCol.Fields
abbrev pub changed_fields : String → Collection → Collection → List Change
changed_fields name old new =
    each (λ f field. field_change name f (lookup f old.fields) field) new.fields

unfoldable pub diff_collection : String → Collection → Collection → List Change
diff_collection name old new =
    dropped_fields name old new
    ++ changed_fields name old new
    ++ diff_indexes name old new
    ++ rules_change name old new

unfoldable pub drop_collection_change : String → Option Collection → List Change
drop_collection_change name none = of_collection drop_collection name false true ∷ []
drop_collection_change name (some new) = []

abbrev pub note_dropped : String → Option Collection → GoMap Bool → GoMap Bool
note_dropped name none dropped = insert name true dropped
note_dropped name (some new) dropped = dropped

-- droppedCollections
unfoldable pub dropped_collections : GoMap Collection → GoMap Collection → GoMap Bool
dropped_collections [] new = []
dropped_collections ((name, col) ∷ old) new =
    note_dropped name (lookup name new) (dropped_collections old new)

abbrev pub is_set : Option Bool → Bool
is_set none = false
is_set (some b) = b

unfoldable pub collection_change : String → Bool → Option Collection → Collection → List Change
collection_change name dropped none new = of_collection add_collection name true false ∷ []
collection_change name dropped (some old) new =
    if not dropped then diff_collection name old new else []

-- for name := range old.Collections
abbrev pub lost_collections : GoMap Collection → GoMap Collection → List Change
lost_collections old new = each (λ name col. drop_collection_change name (lookup name new)) old

-- for name, newCol := range newSchema.Collections
abbrev pub changed_collections : GoMap Collection → GoMap Collection → List Change
changed_collections old new =
    let dropped = dropped_collections old new in
    each (λ name col. collection_change name (is_set (lookup name dropped)) (lookup name old) col)
      new

unfoldable pub diff : Schema → Schema → List Change
diff old new =
    lost_collections old.collections new.collections
    ++ changed_collections old.collections new.collections

unfoldable pub safe_changes : List Change → List Change
safe_changes changes = filter (λ c. c.safe) changes

unfoldable pub unsafe_changes : List Change → List Change
unsafe_changes changes = filter (λ c. not c.safe) changes

unfoldable pub has_unsafe_changes : List Change → Bool
has_unsafe_changes [] = false
has_unsafe_changes (c ∷ cs) = let rest = has_unsafe_changes cs in if not c.safe then true else rest
