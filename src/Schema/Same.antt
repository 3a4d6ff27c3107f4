-- ===== src/Schema/Same.antt =====
-- A schema does not differ from itself.
use alyx.Prelude.{◌≡◌, refl, String, Bool, false, Option, none, some, List, [], ◌∷◌, arith, eq_refl}
use alyx.Map.{GoMap, lookup, IsMap}
use alyx.Map.Laws.{insert-IsMap}
use alyx.Schema.{Field, Index, Rules, Collection, Schema}
use alyx.Schema.Changes.{
  diff_field, type_change, null_change, unique_change, reference_change, add_index, drop_index,
}
use alyx.Schema.Differ.{
  diff, diff_collection, diff_indexes, rules_change, rules_changed, collect_all_indexes,
  declared_indexes, field_indexes, field_index, implied_index, add_unless_found, drop_field_change,
  field_change, index_change, drop_collection_change, collection_change, is_set,
  dropped_collections,
}
use alyx.Schema.Parts.{each-nil}

-- The names of the collections are distinct, and so are the names of the fields of each.
abbrev pub IsSchema : Schema → Type 0
IsSchema s =
    IsMap s.collections
    × ((name : String) (c : Collection) → lookup name s.collections ≡ some c → IsMap c.fields)

diff_field_self : (name field : String) (f : Field) → diff_field name field f f ≡ []
unfolding diff_field type_change null_change unique_change reference_change
diff_field_self name field f = rw eq_refl (ground arith)

rules_changed_self : (r : Option Rules) → rules_changed r r ≡ false
unfolding rules_changed
rules_changed_self none = refl
rules_changed_self (some r) =
    rw (eq_refl r.create, eq_refl r.read, eq_refl r.update, eq_refl r.delete) refl

rules_change_self : (name : String) (c : Collection) → rules_change name c c ≡ []
unfolding rules_change
rules_change_self name c = rw (rules_changed_self c.rules) refl

declared_indexes-IsMap :
    (idxs : List Index) (found : GoMap Index) → IsMap found → IsMap (declared_indexes idxs found)
unfolding declared_indexes
declared_indexes-IsMap [] found h = h
declared_indexes-IsMap (idx ∷ idxs) found h =
    declared_indexes-IsMap idxs _ (insert-IsMap idx.name idx found h)

add_unless_found-IsMap :
    (idx : Index) (other : Option Index) (found : GoMap Index)
    → IsMap found
    → IsMap (add_unless_found idx other found)
add_unless_found-IsMap idx none found h = insert-IsMap idx.name idx found h
add_unless_found-IsMap idx (some other) found h = h

field_index-IsMap :
    (collection : String) (f : Field) (found : GoMap Index)
    → IsMap found
    → IsMap (field_index collection f found)
unfolding field_index
field_index-IsMap collection f found h =
    let added =
      add_unless_found-IsMap (implied_index collection f)
        (lookup (implied_index collection f).name found) found h in
    ground arith

field_indexes-IsMap :
    (collection : String) (fs : GoMap Field) (found : GoMap Index)
    → IsMap found
    → IsMap (field_indexes collection fs found)
unfolding field_indexes
field_indexes-IsMap collection [] found h = h
field_indexes-IsMap collection ((name, f) ∷ fs) found h =
    field_indexes-IsMap collection fs _ (field_index-IsMap collection f found h)

diff_indexes_self : (name : String) (c : Collection) → diff_indexes name c c ≡ []
unfolding diff_indexes collect_all_indexes index_change
diff_indexes_self name c =
    let indexes = field_indexes-IsMap name c.fields _ (declared_indexes-IsMap c.indexes [] tt) in
    rw
      (
        each-nil (λ k idx. index_change drop_index name idx (lookup k (collect_all_indexes name c)))
            _ indexes (λ k idx found. rw found refl),
        each-nil (λ k idx. index_change add_index name idx (lookup k (collect_all_indexes name c)))
            _ indexes (λ k idx found. rw found refl),
      )
      refl

diff_collection_self :
    (name : String) (c : Collection) → IsMap c.fields → diff_collection name c c ≡ []
unfolding diff_collection drop_field_change field_change
diff_collection_self name c fields =
    rw
      (
        each-nil (λ f field. drop_field_change name f field (lookup f c.fields)) c.fields fields
            (λ k f found. rw found refl),
        each-nil (λ f field. field_change name f (lookup f c.fields) field) c.fields fields
            (λ k f found. rw found (diff_field_self name k f)),
        diff_indexes_self name c,
        rules_change_self name c,
      )
      refl

collection_change_self :
    (name : String) (dropped : Bool) (c : Collection)
    → IsMap c.fields
    → collection_change name dropped (some c) c ≡ []
unfolding collection_change
collection_change_self name dropped c fields =
    let same = diff_collection_self name c fields in ground arith

-- No change leads from a schema to itself, if the names of its collections and of the fields of
-- each collection are distinct.
pub diff_self : (s : Schema) → IsSchema s → diff s s ≡ []
unfolding diff drop_collection_change
diff_self s (names, fields) =
    rw
      (
        each-nil (λ name col. drop_collection_change name (lookup name s.collections)) s.collections
            names (λ k c found. rw found refl),
        each-nil
            (λ name col.
              collection_change name
                (is_set (lookup name (dropped_collections s.collections s.collections)))
                (lookup name s.collections) col)
            s.collections names
            (λ k c found. rw found (collection_change_self k _ c (fields k c found))),
      )
      refl
