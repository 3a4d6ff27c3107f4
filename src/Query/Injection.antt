-- ===== src/Query/Injection.antt =====
-- What of a query parameter reaches the text of the statement.
use alyx.Prelude.{
  ◌≡◌, ◌≢◌, refl, sym, false, Option, none, some, List, [], ◌∷◌, ◌++◌, ◌==◌, map, subst, ◌⊎◌, inl,
  inr,
}
use alyx.Bytes.{Bytes}
use alyx.Query.{
  codes, join, FilterOp, eq, ne, gt, gte, lt, lte, like, in_list, contains, is_null, not_null,
  unknown, Arg, one, many, pattern_text, Format, Filter, QueryBuilder, Clause, build_filter,
  build_op, build_in, texts,
}
use alyx.Query.Build.{build_where_clause, build_search_condition, conditions, where_text, build}
use alyx.Query.Parse.{
  Parsed, invalid_format, cut_colon, filter, parse_rest, parse_filter_string, add_parsed,
  parse_filter_options,
}
use alyx.Query.Occurs.{
  OccursIn, OccursIn-left, OccursIn-right, Begins, behind, StandsBehind, Begins-StandsBehind,
  no_start, BeginsSome, join-StandsBehind,
}

abbrev pub NoColon : Bytes → Type 0
NoColon [] = Unit
NoColon (c ∷ cs) = ((c == b':') ≡ false) × NoColon cs

cut_colon-append : (s rest : Bytes) → NoColon s → cut_colon (s ++ (b':' ∷ rest)) ≡ (s, some rest)
unfolding cut_colon
cut_colon-append [] rest h = refl
cut_colon-append (c ∷ s) rest h = rw (h.0, cut_colon-append s rest h.1) refl

module _ {V : Type 0} (fmt : Format V) where
  build_in-Begins : (field : Bytes) (arg : Arg V) → Begins field (build_in fmt field arg).0
  unfolding build_in
  build_in-Begins field (many values) = (_, refl)
  build_in-Begins field (one v) = (_, refl)
  build_in-Begins field (pattern_text p) = (_, refl)

  build_op-Begins : (op : FilterOp) (f : Filter V) → Begins f.field (build_op fmt op f).0
  unfolding build_op
  build_op-Begins eq f = (_, refl)
  build_op-Begins ne f = (_, refl)
  build_op-Begins gt f = (_, refl)
  build_op-Begins gte f = (_, refl)
  build_op-Begins lt f = (_, refl)
  build_op-Begins lte f = (_, refl)
  build_op-Begins like f = (_, refl)
  build_op-Begins contains f = (_, refl)
  build_op-Begins in_list f = build_in-Begins f.field f.value
  build_op-Begins is_null f = (_, refl)
  build_op-Begins not_null f = (_, refl)
  build_op-Begins (unknown op) f = (_, refl)

-- A filter of the list has this field.
abbrev HasField : {V : Type 0} → Bytes → List (Filter V) → Type 0
HasField field [] = ⊥
HasField field (f ∷ fs) = (f.field ≡ field) ⊎ HasField field fs

-- The name begins a condition of the statement.
abbrev pub BeginsCondition : Bytes → Bytes → Type 0
BeginsCondition name sql =
    StandsBehind (codes " WHERE ") name sql ⊎ StandsBehind (codes " AND ") name sql

module _ {V : Type 0} (fmt : Format V) where
  texts-BeginsSome :
      (field : Bytes) (fs : List (Filter V)) (rest : List (Clause V))
      → HasField field fs
      → BeginsSome field (texts (map (build_filter fmt) fs ++ rest))
  unfolding build_filter
  texts-BeginsSome field [] rest h = absurd h
  texts-BeginsSome field (f ∷ fs) rest (inl e) =
      inl (subst (λ name. Begins name (build_op fmt f.op f).0) e (build_op-Begins fmt f.op f))
  texts-BeginsSome field (f ∷ fs) rest (inr h) = inr (texts-BeginsSome field fs rest h)

  where_text-BeginsCondition :
      (name clause : Bytes)
      → Begins name clause ⊎ StandsBehind (codes " AND ") name clause
      → BeginsCondition name (where_text fmt clause)
  where_text-BeginsCondition name [] (inl b) = absurd (no_start name b)
  where_text-BeginsCondition name [] (inr o) = inr o
  where_text-BeginsCondition name (c ∷ clause) (inl b) =
      inl (Begins-StandsBehind (codes " WHERE ") name (c ∷ clause) b)
  where_text-BeginsCondition name (c ∷ clause) (inr o) =
      inr (OccursIn-right (behind (codes " AND ") name) (codes " WHERE ") (c ∷ clause) o)

  -- What stands in the WHERE clause stands in the statement.
  build-OccursIn :
      (q : QueryBuilder V) (part : Bytes)
      → OccursIn part (where_text fmt (join (codes " AND ") (texts (conditions fmt q))))
      → OccursIn part (build fmt q).0
  unfolding build build_where_clause
  build-OccursIn q part o =
      let clause = join (codes " AND ") (texts (conditions fmt q)) in
      OccursIn-right part (codes "SELECT ") _ (
        OccursIn-right part (join (codes ", ") q.selects) _ (
          OccursIn-right part (codes " FROM ") _
            (OccursIn-right part q.table _ (OccursIn-left part (where_text fmt clause) _ o))))

  build-either :
      (q : QueryBuilder V) (name : Bytes)
      → BeginsCondition name (where_text fmt (join (codes " AND ") (texts (conditions fmt q))))
      → BeginsCondition name (build fmt q).0
  build-either q name (inl o) = inl (build-OccursIn q (behind (codes " WHERE ") name) o)
  build-either q name (inr o) = inr (build-OccursIn q (behind (codes " AND ") name) o)

  build-BeginsCondition :
      (q : QueryBuilder V) (field : Bytes)
      → HasField field q.filters
      → BeginsCondition field (build fmt q).0
  build-BeginsCondition q field h = build-either q field (
      where_text-BeginsCondition field (join (codes " AND ") (texts (conditions fmt q))) (
        join-StandsBehind (codes " AND ") field (texts (conditions fmt q))
          (texts-BeginsSome field q.filters (build_search_condition fmt q.search) h)))

abbrev pub IsGiven : Bytes → List Bytes → Type 0
IsGiven s [] = ⊥
IsGiven s (first ∷ rest) = (first ≡ s) ⊎ IsGiven s rest

abbrev HasName : Bytes → Parsed → Type 0
HasName field invalid_format = ⊥
HasName field (filter name op value) = name ≡ field

parsed-HasName :
    (field rest : Bytes)
    → NoColon field
    → HasName field (parse_filter_string (field ++ (b':' ∷ rest)))
unfolding parse_filter_string parse_rest
parsed-HasName field rest h = rw (cut_colon-append field rest h) refl

some-filters : {V : Type 0} (a b : List (Filter V)) → some a ≡ some b → a ≡ b
some-filters a b h = cc

module _ {V : Type 0} (of_text : Bytes → V) (nil : V) where
  add_parsed-HasField :
      (field : Bytes) (parsed : Parsed) (others : Option (List (Filter V))) (fs : List (Filter V))
      → HasName field parsed
      → add_parsed of_text nil parsed others ≡ some fs
      → HasField field fs
  add_parsed-HasField field invalid_format others fs n e = absurd n
  add_parsed-HasField field (filter name op value) none fs n e = absurd (cc)
  add_parsed-HasField field (filter name op value) (some rest) fs n e =
      subst (HasField field) (some-filters _ fs e) (inl n)

  -- A filter after the first.
  add_parsed-later :
      (field : Bytes) (parsed : Parsed) (others : Option (List (Filter V))) (fs : List (Filter V))
      → ((rest : List (Filter V)) → others ≡ some rest → HasField field rest)
      → add_parsed of_text nil parsed others ≡ some fs
      → HasField field fs
  add_parsed-later field invalid_format others fs n e = absurd (cc)
  add_parsed-later field (filter name op value) none fs n e = absurd (cc)
  add_parsed-later field (filter name op value) (some rest) fs n e =
      subst (HasField field) (some-filters _ fs e) (inr (n rest refl))

  options-HasField :
      (field rest : Bytes) (params : List Bytes) (fs : List (Filter V))
      → NoColon field
      → IsGiven (field ++ (b':' ∷ rest)) params
      → parse_filter_options of_text nil params ≡ some fs
      → HasField field fs
  unfolding parse_filter_options
  options-HasField field rest [] fs h g e = absurd g
  options-HasField field rest (s ∷ params) fs h (inl this) e =
      add_parsed-HasField field (parse_filter_string s) (parse_filter_options of_text nil params) fs
        (subst (λ t. HasName field (parse_filter_string t)) (sym this)
          (parsed-HasName field rest h))
        e
  options-HasField field rest (s ∷ params) fs h (inr g) e =
      add_parsed-later field (parse_filter_string s) (parse_filter_options of_text nil params) fs
        (λ others found. options-HasField field rest params others h g found) e

-- Let a filter parameter of a request begin with a text without a colon, and then a colon. Such a
-- parameter is not refused, and if none of the request's parameters is, then in the SELECT
-- statement of a query with their filters, whatever its table, fields, search and sorts, that text
-- stands as it is, unquoted, between WHERE or AND and the space before an operator.
pub filter_field_verbatim :
    {V : Type 0} (fmt : Format V) (of_text : Bytes → V) (nil : V) (params : List Bytes)
    (field rest : Bytes) (q : QueryBuilder V)
    → NoColon field
    → IsGiven (field ++ (b':' ∷ rest)) params
    → parse_filter_options of_text nil params ≡ some q.filters
    → (parse_filter_string (field ++ (b':' ∷ rest)) ≢ invalid_format)
      × BeginsCondition field (build fmt q).0
filter_field_verbatim fmt of_text nil params field rest q h g e = (
  λ refused. subst (HasName field) refused (parsed-HasName field rest h),
  build-BeginsCondition fmt q field
      (options-HasField of_text nil field rest params q.filters h g e),
)
