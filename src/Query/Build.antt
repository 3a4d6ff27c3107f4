-- ===== src/Query/Build.antt =====
-- internal/database/query.go: the statements that the four builders make.
use alyx.Prelude.{String, Option, none, some, List, [], ◌∷◌, ◌++◌, map, ◌==◌, length, if◌then◌else◌}
use alyx.Prelude.Int.{ℤ, pos, lt_int}
use alyx.Bytes.{Bytes}
use alyx.Query.{
  codes, join, Arg, pattern_text, Format, Sort, SearchCondition, QueryBuilder, Clause, sql_order,
  question, build_filter, texts, arguments,
}

module _ {V : Type 0} (fmt : Format V) where
  -- Each field with the same pattern.
  unfoldable pub search_clauses : List Bytes → Bytes → List (Clause V)
  search_clauses [] value = []
  search_clauses (field ∷ rest) value =
      (field ++ codes " LIKE ?", pattern_text (codes "%" ++ (value ++ codes "%")) ∷ [])
      ∷ search_clauses rest value

  -- A search without fields gives no condition.
  unfoldable pub build_search_condition : Option SearchCondition → List (Clause V)
  build_search_condition none = []
  build_search_condition (some s) =
      if length s.fields == 0
      then []
      else (
        codes "(" ++ (join (codes " OR ") (texts (search_clauses s.fields s.value)) ++ codes ")"),
        arguments (search_clauses s.fields s.value),
      )
        ∷ []

  abbrev pub conditions : QueryBuilder V → List (Clause V)
  conditions q = map (build_filter fmt) q.filters ++ build_search_condition q.search

  unfoldable pub build_where_clause : QueryBuilder V → Clause V
  build_where_clause q = (join (codes " AND ") (texts (conditions q)), arguments (conditions q))

  -- sb.WriteString(" WHERE "), if the clause is not "".
  abbrev pub where_text : Bytes → Bytes
  where_text [] = []
  where_text (c ∷ clause) = codes " WHERE " ++ (c ∷ clause)

  abbrev pub where_args : Bytes → List (Arg V) → List (Arg V)
  where_args [] args = []
  where_args (c ∷ clause) args = args

  abbrev pub order_text : List Sort → List Bytes
  order_text [] = []
  order_text (s ∷ rest) = (s.field ++ (codes " " ++ sql_order s.order)) ∷ order_text rest

  abbrev pub sort_text : List Sort → Bytes
  sort_text [] = []
  sort_text (s ∷ rest) = codes " ORDER BY " ++ join (codes ", ") (order_text (s ∷ rest))

  abbrev pub number_text : String → ℤ → Bytes
  number_text keyword n = if lt_int (pos 0) n then codes keyword ++ fmt.decimal n else []

  unfoldable pub build : QueryBuilder V → Clause V
  unfolding build_where_clause build_search_condition search_clauses join
  build q =
      let (clause, args) = build_where_clause q in
      (
        codes "SELECT "
            ++ (join (codes ", ") q.selects
                ++ (codes " FROM "
                    ++ (q.table
                        ++ (where_text clause
                            ++ (sort_text q.sorts
                                ++ (number_text " LIMIT " q.limit
                                    ++ number_text " OFFSET " q.offset)))))),
        where_args clause args,
      )

  unfoldable pub build_count : QueryBuilder V → Clause V
  unfolding build_where_clause build_search_condition search_clauses join
  build_count q =
      let (clause, args) = build_where_clause q in
      (codes "SELECT COUNT(*) FROM " ++ (q.table ++ where_text clause), where_args clause args)

pub record InsertBuilder (V : Type 0) : Type 0 where
  pub table : Bytes
  pub fields : List Bytes
  pub values : List (Arg V)

pub record UpdateBuilder (V : Type 0) : Type 0 where
  pub table : Bytes
  pub sets : List Bytes
  pub values : List (Arg V)
  pub filters : List (Bytes × Arg V)

pub record DeleteBuilder (V : Type 0) : Type 0 where
  pub table : Bytes
  pub filters : List (Bytes × Arg V)

module _ {V : Type 0} where
  unfoldable pub new_insert : Bytes → InsertBuilder V
  new_insert table = record { table = table; fields = []; values = [] }

  unfoldable pub insert_set : InsertBuilder V → Bytes → Arg V → InsertBuilder V
  insert_set b field value = record b {
    fields = b.fields ++ (field ∷ []);
    values = b.values ++ (value ∷ []);
  }

  -- SetMap, in the order of the list.
  unfoldable pub insert_set_map : InsertBuilder V → List (Bytes × Arg V) → InsertBuilder V
  insert_set_map b [] = b
  insert_set_map b ((field, value) ∷ rest) = insert_set_map (insert_set b field value) rest

  unfoldable pub build_insert : InsertBuilder V → Clause V
  unfolding join
  build_insert b = (
    codes "INSERT INTO "
        ++ (b.table
            ++ (codes " ("
                ++ (join (codes ", ") b.fields
                    ++ (codes ") VALUES ("
                        ++ (join (codes ", ") (map (λ f. question) b.fields) ++ codes ")"))))),
    b.values,
  )

  unfoldable pub new_update : Bytes → UpdateBuilder V
  new_update table = record { table = table; sets = []; values = []; filters = [] }

  unfoldable pub update_set : UpdateBuilder V → Bytes → Arg V → UpdateBuilder V
  update_set b field value = record b {
    sets = b.sets ++ ((field ++ codes " = ?") ∷ []);
    values = b.values ++ (value ∷ []);
  }

  unfoldable pub update_set_map : UpdateBuilder V → List (Bytes × Arg V) → UpdateBuilder V
  update_set_map b [] = b
  update_set_map b ((field, value) ∷ rest) = update_set_map (update_set b field value) rest

  unfoldable pub update_where : UpdateBuilder V → Bytes → Arg V → UpdateBuilder V
  update_where b field value = record b { filters = b.filters ++ ((field, value) ∷ []) }

  -- The filters of an update or a deletion are equations.
  abbrev pub equations : List (Bytes × Arg V) → List (Clause V)
  equations [] = []
  equations ((field, value) ∷ rest) = (field ++ codes " = ?", value ∷ []) ∷ equations rest

  abbrev pub where_equations : List (Bytes × Arg V) → Bytes
  where_equations [] = []
  where_equations (f ∷ rest) =
      codes " WHERE " ++ join (codes " AND ") (texts (equations (f ∷ rest)))

  unfoldable pub build_update : UpdateBuilder V → Clause V
  unfolding join
  build_update b = (
    codes "UPDATE "
        ++ (b.table ++ (codes " SET " ++ (join (codes ", ") b.sets ++ where_equations b.filters))),
    b.values ++ arguments (equations b.filters),
  )

  unfoldable pub new_delete : Bytes → DeleteBuilder V
  new_delete table = record { table = table; filters = [] }

  unfoldable pub delete_where_eq : DeleteBuilder V → Bytes → Arg V → DeleteBuilder V
  delete_where_eq b field value = record b { filters = b.filters ++ ((field, value) ∷ []) }

  unfoldable pub build_delete : DeleteBuilder V → Clause V
  unfolding join
  build_delete b = (
    codes "DELETE FROM " ++ (b.table ++ where_equations b.filters),
    arguments (equations b.filters),
  )
