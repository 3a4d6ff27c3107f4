-- ===== src/Schema/Types.antt =====
-- The type changes that the differ counts as compatible, against the column types of SQLite.
use alyx.Prelude.{
  ◌≡◌, ◌<◌, refl, Bool, true, false, ◌||◌, ◌⊎◌, inl, inr, arith, if◌then◌else◌, ◌&&◌,
}
use alyx.Schema.{
  FieldType, SqliteType, number, same_type, sqlite_type, id, uuid, string, text, rich_text, int,
  float, bool, timestamp, json, blob, email, url, date, select, relation, file, text_column,
  integer_column, real_column, blob_column,
}
use alyx.Schema.Changes.{are_types_compatible, is_text_type, is_int_type}

abbrev pub same_column : SqliteType → SqliteType → Bool
same_column text_column text_column = true
same_column integer_column integer_column = true
same_column real_column real_column = true
same_column blob_column blob_column = true
same_column _ _ = false

-- The two groups of compatible types are the types of a text and of an integer column.
abbrev IsGrouped : FieldType → Bool → Bool → SqliteType → Type 0
IsGrouped t is_text is_int column =
    (is_text_type t ≡ is_text) × (is_int_type t ≡ is_int) × (sqlite_type t ≡ column)

abbrev Group : FieldType → Type 0
Group t =
    (IsGrouped t true false text_column × (number t < 13))
    ⊎ ((IsGrouped t false true integer_column × ((12 < number t) × (number t < 15)))
        ⊎ ((IsGrouped t false false real_column × (number t ≡ 15))
            ⊎ (IsGrouped t false false blob_column × (number t ≡ 16))))

group : (t : FieldType) → Group t
unfolding sqlite_type
group id = inl ((refl, refl, refl), omega arith)
group uuid = inl ((refl, refl, refl), omega arith)
group string = inl ((refl, refl, refl), omega arith)
group text = inl ((refl, refl, refl), omega arith)
group rich_text = inl ((refl, refl, refl), omega arith)
group int = inr (inl ((refl, refl, refl), (omega arith, omega arith)))
group bool = inr (inl ((refl, refl, refl), (omega arith, omega arith)))
group timestamp = inl ((refl, refl, refl), omega arith)
group json = inl ((refl, refl, refl), omega arith)
group email = inl ((refl, refl, refl), omega arith)
group url = inl ((refl, refl, refl), omega arith)
group date = inl ((refl, refl, refl), omega arith)
group select = inl ((refl, refl, refl), omega arith)
group relation = inl ((refl, refl, refl), omega arith)
group file = inl ((refl, refl, refl), omega arith)
group float = inr (inr (inl ((refl, refl, refl), refl)))
group blob = inr (inr (inr ((refl, refl, refl), refl)))

-- The tests on two types from their groups.
module _ (a b : FieldType) {ta ia tb ib : Bool} {ca cb : SqliteType} where
  of_groups :
      IsGrouped a ta ia ca
      → IsGrouped b tb ib cb
      → (same_type a b || (if ta && tb then true else if ia && ib then true else false))
        ≡ same_column ca cb
      → (same_type a b || are_types_compatible a b) ≡ same_column (sqlite_type a) (sqlite_type b)
  unfolding are_types_compatible
  of_groups (at, ai, ac) (bt, bi, bc) h = rw (at, ai, ac, bt, bi, bc) h

by_groups :
    (a b : FieldType)
    → Group a
    → Group b
    → (same_type a b || are_types_compatible a b) ≡ same_column (sqlite_type a) (sqlite_type b)
by_groups a b (inl (ga, na)) (inl (gb, nb)) = of_groups a b ga gb (ground arith)
by_groups a b (inl (ga, na)) (inr (inl (gb, nb))) = of_groups a b ga gb (ground arith)
by_groups a b (inl (ga, na)) (inr (inr (inl (gb, nb)))) = of_groups a b ga gb (ground arith)
by_groups a b (inl (ga, na)) (inr (inr (inr (gb, nb)))) = of_groups a b ga gb (ground arith)
by_groups a b (inr (inl (ga, na))) (inl (gb, nb)) = of_groups a b ga gb (ground arith)
by_groups a b (inr (inl (ga, na))) (inr (inl (gb, nb))) = of_groups a b ga gb (ground arith)
by_groups a b (inr (inl (ga, na))) (inr (inr (inl (gb, nb)))) = of_groups a b ga gb (ground arith)
by_groups a b (inr (inl (ga, na))) (inr (inr (inr (gb, nb)))) = of_groups a b ga gb (ground arith)
by_groups a b (inr (inr (inl (ga, na)))) (inl (gb, nb)) = of_groups a b ga gb (ground arith)
by_groups a b (inr (inr (inl (ga, na)))) (inr (inl (gb, nb))) = of_groups a b ga gb (ground arith)
by_groups a b (inr (inr (inl (ga, na)))) (inr (inr (inl (gb, nb)))) =
    of_groups a b ga gb (ground arith)
by_groups a b (inr (inr (inl (ga, na)))) (inr (inr (inr (gb, nb)))) =
    of_groups a b ga gb (ground arith)
by_groups a b (inr (inr (inr (ga, na)))) (inl (gb, nb)) = of_groups a b ga gb (ground arith)
by_groups a b (inr (inr (inr (ga, na)))) (inr (inl (gb, nb))) = of_groups a b ga gb (ground arith)
by_groups a b (inr (inr (inr (ga, na)))) (inr (inr (inl (gb, nb)))) =
    of_groups a b ga gb (ground arith)
by_groups a b (inr (inr (inr (ga, na)))) (inr (inr (inr (gb, nb)))) =
    of_groups a b ga gb (ground arith)

-- Two field types are the same or compatible exactly when SQLite stores them in columns of the
-- same type.
pub compatible_iff_same_column :
    (a b : FieldType)
    → (same_type a b || are_types_compatible a b) ≡ same_column (sqlite_type a) (sqlite_type b)
compatible_iff_same_column a b = by_groups a b (group a) (group b)
