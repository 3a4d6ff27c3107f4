-- ===== src/Query/Placeholders.antt =====
-- Every statement has as many placeholders as arguments.
use alyx.Prelude.{◌≡◌, List, length}
use alyx.Bytes.{Bytes}
use alyx.Query.{Arg, Format, QueryBuilder, Clause}
use alyx.Query.Build.{
  build, build_count, new_insert, insert_set_map, build_insert, new_update, update_set_map,
  build_update, new_delete, build_delete,
}
use alyx.Query.Questions.{questions}
use alyx.Query.Clauses.{PlainKeys}
use alyx.Query.Selects.{PlainQuery, PlainNumbers, rows-Balanced, total-Balanced}
use alyx.Query.Writes.{
  update_wheres, delete_wheres, insertion-Balanced, update-Balanced, deletion-Balanced,
}

-- The statements of the package: a query and its count, and an insertion, an update and a deletion
-- as their builders make them from keys with values and from equations.
pub data Statement (V : Type 0) : Type 0 where
  rows : QueryBuilder V → Statement V
  total : QueryBuilder V → Statement V
  insertion : Bytes → List (Bytes × Arg V) → Statement V
  update : Bytes → List (Bytes × Arg V) → List (Bytes × Arg V) → Statement V
  deletion : Bytes → List (Bytes × Arg V) → Statement V

abbrev pub statement : {V : Type 0} → Format V → Statement V → Clause V
statement fmt (rows q) = build fmt q
statement fmt (total q) = build_count fmt q
statement fmt (insertion table data_map) = build_insert (insert_set_map (new_insert table) data_map)
statement fmt (update table data_map wheres) =
    build_update (update_wheres (update_set_map (new_update table) data_map) wheres)
statement fmt (deletion table wheres) = build_delete (delete_wheres (new_delete table) wheres)

-- The names in a statement have no placeholder.
abbrev pub Plain : {V : Type 0} → Statement V → Type 0
Plain (rows q) = PlainQuery q
Plain (total q) = PlainQuery q
Plain (insertion table data_map) = (questions table ≡ 0) × PlainKeys data_map
Plain (update table data_map wheres) = (questions table ≡ 0) × PlainKeys data_map × PlainKeys wheres
Plain (deletion table wheres) = (questions table ≡ 0) × PlainKeys wheres

-- Every statement of the package has exactly as many placeholders as it has arguments, if the names
-- of tables and columns in it have no question mark.
pub statement-Balanced :
    {V : Type 0} (fmt : Format V) (s : Statement V)
    → PlainNumbers fmt
    → Plain s
    → questions (statement fmt s).0 ≡ length (statement fmt s).1
statement-Balanced fmt (rows q) n p = rows-Balanced fmt n q p
statement-Balanced fmt (total q) n p = total-Balanced fmt n q p
statement-Balanced fmt (insertion table entries) n p = insertion-Balanced table entries p.0 p.1
statement-Balanced fmt (update table entries wheres) n p =
    update-Balanced table entries wheres p.0 p.1 p.2
statement-Balanced fmt (deletion table wheres) n p = deletion-Balanced table wheres p.0 p.1
