-- ===== src/Query/Parse.antt =====
-- internal/database/query.go: the parsers of the query parameters that give filters and sorts.
use alyx.Prelude.{Option, none, some, List, [], ◌∷◌, ◌==◌, if◌then◌else◌}
use alyx.Bytes.{Bytes, bytes_eq}
use alyx.Query.{
  codes, FilterOp, eq, ne, gt, gte, lt, lte, like, in_list, contains, is_null, not_null, unknown,
  SortOrder, asc, desc, Arg, one, Filter,
}

unfoldable pub parse_sort_string : Bytes → Bytes × SortOrder
parse_sort_string [] = ([], asc)
parse_sort_string (c ∷ s) =
    if c == b'-' then (s, desc) else if c == b'+' then (s, asc) else (c ∷ s, asc)

-- The text before the first ':', and what follows it if there is one.
unfoldable pub cut_colon : Bytes → Bytes × Option Bytes
cut_colon [] = ([], none)
cut_colon (c ∷ s) =
    let (before, after) = cut_colon s in if c == b':' then ([], some s) else (c ∷ before, after)

-- FilterOp(…)
abbrev op_names : List (Bytes × FilterOp)
op_names =
    (codes "eq", eq)
    ∷ (codes "ne", ne)
    ∷ (codes "gt", gt)
    ∷ (codes "gte", gte)
    ∷ (codes "lt", lt)
    ∷ (codes "lte", lte)
    ∷ (codes "like", like)
    ∷ (codes "in", in_list)
    ∷ (codes "contains", contains)
    ∷ (codes "is_null", is_null)
    ∷ (codes "not_null", not_null)
    ∷ []

unfoldable pub op_in : List (Bytes × FilterOp) → Bytes → FilterOp
op_in [] text = unknown text
op_in ((name, op) ∷ rest) text = if bytes_eq name text then op else op_in rest text

unfoldable pub filter_op : Bytes → FilterOp
unfolding op_in
filter_op text = op_in op_names text

-- A filter of the query string carries a text; the value is nil if there is no second ':'.
pub data Parsed : Type 0 where
  invalid_format : Parsed
  filter : Bytes → FilterOp → Option Bytes → Parsed

unfoldable pub parse_rest : Bytes → Option Bytes → Parsed
unfolding cut_colon
parse_rest field none = invalid_format
parse_rest field (some rest) = let (op, value) = cut_colon rest in filter field (filter_op op) value

unfoldable pub parse_filter_string : Bytes → Parsed
unfolding parse_rest
parse_filter_string s = let (field, rest) = cut_colon s in parse_rest field rest

module _ {V : Type 0} (of_text : Bytes → V) (nil : V) where
  abbrev pub value_of : Option Bytes → Arg V
  value_of none = one nil
  value_of (some text) = one (of_text text)

  abbrev pub add_parsed : Parsed → Option (List (Filter V)) → Option (List (Filter V))
  add_parsed invalid_format rest = none
  add_parsed (filter field op value) none = none
  add_parsed (filter field op value) (some rest) =
      some (record { field = field; op = op; value = value_of value } ∷ rest)

  -- parseFilterOptions of server/handlers/handlers.go: the filters of a request, or the first error.
  unfoldable pub parse_filter_options : List Bytes → Option (List (Filter V))
  unfolding parse_filter_string
  parse_filter_options [] = some []
  parse_filter_options (s ∷ rest) = add_parsed (parse_filter_string s) (parse_filter_options rest)
