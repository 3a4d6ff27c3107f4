-- ===== src/Query/Tests.antt =====
-- Statements of the builders, and the theorems at concrete inputs.
use alyx.Prelude.{List, inl, inr, ◌≢◌, ◌≡◌, refl, some, [], ◌∷◌, ◌++◌, length}
use alyx.Prelude.Int.{pos}
use alyx.Bytes.{Bytes, bytes_eq}
use alyx.Query.{
  codes, join, eq, in_list, contains, is_null, desc, asc, one, many, Format, QueryBuilder,
  new_query, select, filter_by, where_eq, search_or, sort_by, set_limit, set_offset, build_filter,
  build_op, build_in,
}
use alyx.Query.Build.{build, build_where_clause, build_search_condition, search_clauses}
use alyx.Query.Parse.{
  parse_sort_string, parse_filter_string, filter, parse_rest, cut_colon, filter_op, op_in,
  invalid_format, parse_filter_options,
}
use alyx.Query.Questions.{questions}
use alyx.Query.Selects.{PlainNumbers}
use alyx.Query.Placeholders.{Statement, update, statement, statement-Balanced}
use alyx.Query.Injection.{BeginsCondition, filter_field_verbatim}

-- Values are texts; a number is printed as one letter.
abbrev toy : Format Bytes
toy = record { sprint = λ a. codes "v"; decimal = λ n. codes "9" }

toy-PlainNumbers : PlainNumbers toy
unfolding questions
toy-PlainNumbers n = refl

abbrev query : QueryBuilder Bytes
query =
    set_limit
      (sort_by
        (search_or
          (filter_by (where_eq (new_query (codes "posts")) (codes "author") (one (codes "x")))
            (codes "tag") in_list (many (codes "a" ∷ codes "b" ∷ [])))
          (codes "title" ∷ codes "body" ∷ []) (codes "antt"))
        (codes "created") desc)
      (pos 9)

built :
    (build toy query).0
    ≡ codes
        "SELECT * FROM posts WHERE author = ? AND tag IN (?, ?) AND (title LIKE ? OR body LIKE ?) ORDER BY created DESC LIMIT 9"
unfolding build build_where_clause build_search_condition search_clauses join build_filter build_op
    build_in new_query select filter_by where_eq search_or sort_by set_limit
built = refl

-- SQLite has no OFFSET without LIMIT.
offset_alone :
    (build toy (set_offset (new_query (codes "posts")) (pos 9))).0
    ≡ codes "SELECT * FROM posts OFFSET 9"
unfolding build build_where_clause build_search_condition search_clauses join build_filter build_op
    build_in new_query select filter_by where_eq search_or sort_by set_offset
offset_alone = refl

sorted :
    (parse_sort_string (codes "-name") ≡ (codes "name", desc))
    × (parse_sort_string (codes "name") ≡ (codes "name", asc))
unfolding parse_sort_string
sorted = (refl, refl)

filtered :
    (parse_filter_string (codes "tag:contains:a:b")
      ≡ filter (codes "tag") contains (some (codes "a:b")))
unfolding parse_filter_string parse_rest cut_colon filter_op op_in bytes_eq
filtered = refl

abbrev rename : Statement Bytes
rename =
    update (codes "posts") ((codes "title", one (codes "new")) ∷ [])
      ((codes "id", one (codes "7")) ∷ [])

statement-Balanced_example : questions (statement toy rename).0 ≡ length (statement toy rename).1
unfolding questions
statement-Balanced_example =
    statement-Balanced toy rename toy-PlainNumbers (refl, (refl, tt), (refl, tt))

-- The text of a request's filter, in the statement.
abbrev injected : Bytes
injected = codes "1=1 OR a"

abbrev params : List Bytes
params = codes "tag:eq:b" ∷ (injected ++ codes ":is_null") ∷ []

abbrev injected_query : QueryBuilder Bytes
injected_query = record query {
  filters =
      record { field = codes "tag"; op = eq; value = one (codes "b") }
      ∷ record { field = injected; op = is_null; value = one [] }
      ∷ [];
}

filter_field_verbatim_example :
    (parse_filter_string (injected ++ codes ":is_null") ≢ invalid_format)
    × BeginsCondition injected (build toy injected_query).0
unfolding parse_filter_options parse_filter_string parse_rest cut_colon filter_op op_in bytes_eq
filter_field_verbatim_example =
    filter_field_verbatim toy (λ t. t) [] params injected (codes "is_null") injected_query
      (refl, (refl, (refl, (refl, (refl, (refl, (refl, (refl, tt)))))))) (inr (inl refl)) refl
