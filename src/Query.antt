-- ===== src/Query.antt =====
-- internal/database/query.go: SQL statements and their arguments. Texts are lists of bytes. The
-- arguments of a statement are `Arg`: a value, a list of values, or a pattern that the builder
-- makes itself. How fmt prints values and numbers is the record `Format`.
pub mod Build
pub mod Parse
pub mod Questions
pub mod Clauses
pub mod Selects
pub mod Writes
pub mod Placeholders
pub mod Injection
pub mod Occurs
mod Tests
use Prim.Native.Char.{code}
use alyx.Prelude.{
  ℕ, suc, String, Bool, true, false, Option, none, some, List, [], ◌∷◌, ◌++◌, map, ◌==◌, ltb,
  length, if◌then◌else◌, ◌≡◌, ◌+◌,
}
use alyx.Prelude.Int.{ℤ, pos, lt_int}
use alyx.Bytes.{Bytes, bytes_eq}

-- The bytes of a literal of the source.
abbrev pub codes : String → Bytes
codes String.[] = []
codes (String.◌∷◌ c s) = code c ∷ codes s

-- strings.Join
unfoldable pub join : Bytes → List Bytes → Bytes
join sep [] = []
join sep (x ∷ []) = x
join sep (x ∷ (y ∷ rest)) = x ++ (sep ++ join sep (y ∷ rest))

pub data FilterOp : Type 0 where
  eq ne gt gte lt lte like in_list contains is_null not_null : FilterOp
  unknown : Bytes → FilterOp

pub data SortOrder : Type 0 where
  asc desc : SortOrder

pub data Arg (V : Type 0) : Type 0 where
  one : V → Arg V
  many : List V → Arg V
  pattern_text : Bytes → Arg V

pub record Format (V : Type 0) : Type 0 where
  pub sprint : Arg V → Bytes  -- fmt.Sprint
  pub decimal : ℤ → Bytes  -- %d

pub record Filter (V : Type 0) : Type 0 where
  pub field : Bytes
  pub op : FilterOp
  pub value : Arg V

pub record Sort : Type 0 where
  pub field : Bytes
  pub order : SortOrder

pub record SearchCondition : Type 0 where
  pub fields : List Bytes
  pub value : Bytes

-- Without `args`, which each Build begins by clearing.
pub record QueryBuilder (V : Type 0) : Type 0 where
  pub table : Bytes
  pub selects : List Bytes
  pub filters : List (Filter V)
  pub sorts : List Sort
  pub limit : ℤ
  pub offset : ℤ
  pub search : Option SearchCondition

module _ {V : Type 0} where
  unfoldable pub new_query : Bytes → QueryBuilder V
  new_query table = record {
    table = table;
    selects = codes "*" ∷ [];
    filters = [];
    sorts = [];
    limit = pos 0;
    offset = pos 0;
    search = none;
  }

  unfoldable pub select : QueryBuilder V → List Bytes → QueryBuilder V
  select q fields = record q { selects = fields }

  unfoldable pub filter_by : QueryBuilder V → Bytes → FilterOp → Arg V → QueryBuilder V
  filter_by q field op value = record q {
    filters = q.filters ++ (record { field = field; op = op; value = value } ∷ []);
  }

  unfoldable pub where_eq : QueryBuilder V → Bytes → Arg V → QueryBuilder V
  unfolding filter_by
  where_eq q field value = filter_by q field eq value

  unfoldable pub search_or : QueryBuilder V → List Bytes → Bytes → QueryBuilder V
  search_or q fields value = record q { search = some (record { fields = fields; value = value }) }

  unfoldable pub sort_by : QueryBuilder V → Bytes → SortOrder → QueryBuilder V
  sort_by q field order = record q {
    sorts = q.sorts ++ (record { field = field; order = order } ∷ []);
  }

  unfoldable pub set_limit : QueryBuilder V → ℤ → QueryBuilder V
  set_limit q n = record q { limit = n }

  unfoldable pub set_offset : QueryBuilder V → ℤ → QueryBuilder V
  set_offset q n = record q { offset = n }

-- A piece of SQL with the arguments for its placeholders.
abbrev pub Clause : Type 0 → Type 0
Clause V = Bytes × List (Arg V)

abbrev pub sql_order : SortOrder → Bytes
sql_order asc = codes "ASC"
sql_order desc = codes "DESC"

abbrev pub question : Bytes
question = codes "?"

module _ {V : Type 0} (fmt : Format V) where
  -- fmt.Sprintf("<field> <op> ?", …) with one argument.
  abbrev pub compare_with : String → Filter V → Clause V
  compare_with op f = (f.field ++ codes op, f.value ∷ [])

  unfoldable pub build_in : Bytes → Arg V → Clause V
  build_in field (many values) = (
    field ++ (codes " IN (" ++ (join (codes ", ") (map (λ v. question) values) ++ codes ")")),
    map one values,
  )
  build_in field (one v) = (field ++ codes " = ?", one v ∷ [])
  build_in field (pattern_text p) = (field ++ codes " = ?", pattern_text p ∷ [])

  unfoldable pub build_op : FilterOp → Filter V → Clause V
  unfolding build_in
  build_op eq f = compare_with " = ?" f
  build_op ne f = compare_with " != ?" f
  build_op gt f = compare_with " > ?" f
  build_op gte f = compare_with " >= ?" f
  build_op lt f = compare_with " < ?" f
  build_op lte f = compare_with " <= ?" f
  build_op like f = compare_with " LIKE ?" f
  build_op contains f = (
    f.field ++ codes " LIKE ?",
    pattern_text (codes "%" ++ (fmt.sprint f.value ++ codes "%")) ∷ [],
  )
  build_op in_list f = build_in f.field f.value
  build_op is_null f = (f.field ++ codes " IS NULL", [])
  build_op not_null f = (f.field ++ codes " IS NOT NULL", [])
  build_op (unknown op) f = compare_with " = ?" f

  unfoldable pub build_filter : Filter V → Clause V
  unfolding build_op
  build_filter f = build_op f.op f

-- The conditions in order, and their arguments in the same order.
abbrev pub texts : {V : Type 0} → List (Clause V) → List Bytes
texts [] = []
texts ((sql, args) ∷ rest) = sql ∷ texts rest

abbrev pub arguments : {V : Type 0} → List (Clause V) → List (Arg V)
arguments [] = []
arguments ((sql, args) ∷ rest) = args ++ arguments rest
