-- ===== src/Schema/Safe.antt =====
-- What a migration without unsafe changes keeps.
use alyx.Prelude.{
  ◌≡◌, refl, String, true, false, ◌||◌, ◌++◌, none, some, List, [], ◌∷◌, arith, inl, inr,
  Bool-cases, Option-cases, str_eq, eq_iff,
}
use alyx.Map.{GoMap, lookup}
use alyx.Map.Laws.{lookup-insert}
use alyx.Schema.{Field, has_default, Collection, Schema, sqlite_type}
use alyx.Schema.Types.{same_column, compatible_iff_same_column}
use alyx.Schema.Changes.{
  Change, diff_field, type_change, null_change, unique_change, reference_change,
}
use alyx.Schema.Differ.{
  diff, diff_collection, diff_indexes, rules_change, drop_field_change, field_change,
  dropped_fields, changed_fields, drop_collection_change, lost_collections, collection_change,
  dropped_collections, is_set, has_unsafe_changes,
}
use alyx.Schema.Parts.{append_safe, each_safe}

-- The rows of a field's column still fit: its type in SQLite stays, and unless it is a primary key
-- it does not become non-nullable or unique.
abbrev pub Fits : Field → Field → Type 0
Fits old new =
    (same_column (sqlite_type old.type) (sqlite_type new.type) ≡ true)
    × ((old.primary || new.primary) ≡ false → old.nullable ≡ true → new.nullable ≡ true)
    × ((old.primary || new.primary) ≡ false → new.unique ≡ true → old.unique ≡ true)

-- Every field stays and its rows fit, and a new field needs no value for the rows there are.
abbrev pub FieldsFit : Collection → Collection → Type 0
FieldsFit old new =
    ((name : String) (f : Field)
      → lookup name old.fields ≡ some f
      → (g : Field) × (lookup name new.fields ≡ some g) × Fits f g)
    × ((name : String) (g : Field)
        → lookup name new.fields ≡ some g
        → lookup name old.fields ≡ none
        → (g.nullable || has_default g) ≡ true)

type_change_safe :
    (name field : String) (old new : Field)
    → has_unsafe_changes (type_change name field old new) ≡ false
    → same_column (sqlite_type old.type) (sqlite_type new.type) ≡ true
unfolding type_change has_unsafe_changes
type_change_safe name field old new h = ground (arith, compatible_iff_same_column old.type new.type)

null_change_safe :
    (name field : String) (old new : Field)
    → has_unsafe_changes (null_change name field old new) ≡ false
    → (old.primary || new.primary) ≡ false
    → old.nullable ≡ true
    → new.nullable ≡ true
unfolding null_change has_unsafe_changes
null_change_safe name field old new h p n = ground arith

unique_change_safe :
    (name field : String) (old new : Field)
    → has_unsafe_changes (unique_change name field old new) ≡ false
    → (old.primary || new.primary) ≡ false
    → new.unique ≡ true
    → old.unique ≡ true
unfolding unique_change has_unsafe_changes
unique_change_safe name field old new h p u = ground arith

parts_safe :
    (xs bs cs ds : List Change)
    → has_unsafe_changes (xs ++ bs ++ cs ++ ds) ≡ false
    → (has_unsafe_changes xs ≡ false)
      × (has_unsafe_changes bs ≡ false)
      × (has_unsafe_changes cs ≡ false)
parts_safe xs bs cs ds h =
    let (abc, d) = append_safe (xs ++ bs ++ cs) ds h in
    let (ab, c) = append_safe (xs ++ bs) cs abc in let (a, b) = append_safe xs bs ab in (a, b, c)

diff_field_safe :
    (name field : String) (old new : Field)
    → has_unsafe_changes (diff_field name field old new) ≡ false
    → Fits old new
unfolding diff_field
diff_field_safe name field old new h =
    let (types, nulls, uniques) =
      parts_safe (type_change name field old new) (null_change name field old new)
        (unique_change name field old new) (reference_change name field old new) h in
    (
      type_change_safe name field old new types,
      null_change_safe name field old new nulls,
      unique_change_safe name field old new uniques,
    )

diff_collection_safe :
    (name : String) (old new : Collection)
    → has_unsafe_changes (diff_collection name old new) ≡ false
    → FieldsFit old new
unfolding diff_collection drop_field_change field_change has_unsafe_changes
diff_collection_safe name old new h =
    let (drops, fields, indexes) =
      parts_safe (dropped_fields name old new) (changed_fields name old new)
        (diff_indexes name old new) (rules_change name old new) h in
    (
      λ f x found. elim (Option-cases (lookup f new.fields)) [
        | inl gone ↦
            let round = rw gone at (
              each_safe (λ f field. drop_field_change name f field (lookup f new.fields)) old.fields
                f x drops found) in
            cc
        | inr (y, kept) ↦
            let round = rw found at (
              each_safe (λ f field. field_change name f (lookup f old.fields) field) new.fields f y
                fields kept) in
            (y, kept, diff_field_safe name f x y round)
      ],
      λ f y found fresh.
          let round = rw fresh at (
            each_safe (λ f field. field_change name f (lookup f old.fields) field) new.fields f y
              fields found) in
          ground arith,
    )

not_dropped :
    (name : String) (d : Collection) (old new : GoMap Collection)
    → lookup name new ≡ some d
    → is_set (lookup name (dropped_collections old new)) ≡ false
unfolding dropped_collections lookup
not_dropped name d [] new h = refl
not_dropped name d ((j, c) ∷ old) new h = elim (Option-cases (lookup j new)) [
  | inl gone ↦
      rw (gone, lookup-insert)
        (elim (Bool-cases (str_eq j name)) [
          | inl same ↦ let gone' = rw ((eq_iff j name).0 same) at gone in cc
          | inr other ↦ rw other (not_dropped name d old new h)
        ])
  | inr (e, kept) ↦ rw kept (not_dropped name d old new h)
]

-- If the changes between two schemas include no unsafe one, every collection of the old schema is
-- in the new one with all its fields; each field keeps its column type in SQLite and, unless it is
-- a primary key, becomes neither non-nullable nor unique; and each field that is new is nullable
-- or has a default.
pub diff_safe :
    (old new : Schema)
    → has_unsafe_changes (diff old new) ≡ false
    → (name : String) (c : Collection) → lookup name old.collections ≡ some c
    → (d : Collection) × (lookup name new.collections ≡ some d) × FieldsFit c d
unfolding diff drop_collection_change collection_change has_unsafe_changes
diff_safe old new h name c found =
    let (drops, changes) = append_safe (lost_collections old.collections new.collections) _ h in
    elim (Option-cases (lookup name new.collections)) [
      | inl gone ↦ let round = rw gone at (each_safe _ old.collections name c drops found) in cc
      | inr (d, kept) ↦
          let round = each_safe _ new.collections name d changes kept in
          let round' =
            rw (found, not_dropped name d old.collections new.collections kept) at round in
          (d, kept, diff_collection_safe name c d round')
    ]
