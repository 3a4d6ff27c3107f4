-- ===== src/Query/Selects.antt =====
-- A query and its count have as many placeholders as arguments.
use alyx.Prelude.{◌≡◌, refl, ◌∙◌, String, List, [], ◌∷◌, ◌++◌, arith}
use alyx.Prelude.Int.{ℤ}
use alyx.Query.{SortOrder, codes, join, asc, desc, Format, Sort, QueryBuilder, sql_order}
use alyx.Query.Build.{
  build_where_clause, where_text, order_text, sort_text, number_text, build, build_count,
}
use alyx.Query.Questions.{
  questions, questions-append, after_plain, before_plain, questions-join, Balanced,
}
use alyx.Query.Clauses.{
  AllPlain, PlainFilters, PlainSorts, PlainSearch, all_questions-AllPlain, where-Balanced,
  where_text-args,
}

-- The names in a query have no placeholder.
abbrev pub PlainQuery : {V : Type 0} → QueryBuilder V → Type 0
PlainQuery q =
    (questions q.table ≡ 0)
    × AllPlain q.selects
    × PlainFilters q.filters
    × PlainSearch q.search
    × PlainSorts q.sorts

abbrev pub PlainNumbers : {V : Type 0} → Format V → Type 0
PlainNumbers fmt = (n : ℤ) → questions (fmt.decimal n) ≡ 0

sql_order-plain : (o : SortOrder) → questions (codes " " ++ sql_order o) ≡ 0
unfolding questions
sql_order-plain asc = refl
sql_order-plain desc = refl

select-plain : questions (codes "SELECT ") ≡ 0
unfolding questions
select-plain = refl

from-plain : questions (codes " FROM ") ≡ 0
unfolding questions
from-plain = refl

comma-plain : questions (codes ", ") ≡ 0
unfolding questions
comma-plain = refl

count-plain : questions (codes "SELECT COUNT(*) FROM ") ≡ 0
unfolding questions
count-plain = refl

order_text-AllPlain :
    {V : Type 0} (fmt : Format V) (sorts : List Sort)
    → PlainSorts sorts
    → AllPlain (order_text fmt sorts)
unfolding questions
order_text-AllPlain fmt [] h = tt
order_text-AllPlain fmt (s ∷ sorts) h =
    (before_plain s.field _ (sql_order-plain s.order) ∙ h.0, order_text-AllPlain fmt sorts h.1)

module _ {V : Type 0} (fmt : Format V) (numbers : PlainNumbers fmt) where
  sort_text-plain : (sorts : List Sort) → PlainSorts sorts → questions (sort_text fmt sorts) ≡ 0
  unfolding questions
  sort_text-plain [] h = refl
  sort_text-plain (s ∷ sorts) h = omega (
    arith,
    questions-append (codes " ORDER BY ") (join (codes ", ") (order_text fmt (s ∷ sorts))),
    questions-join (codes ", ") (order_text fmt (s ∷ sorts)) refl,
    all_questions-AllPlain (order_text fmt (s ∷ sorts)) (order_text-AllPlain fmt (s ∷ sorts) h),
  )

  number_text-plain :
      (keyword : String) (n : ℤ)
      → questions (codes keyword) ≡ 0
      → questions (number_text fmt keyword n) ≡ 0
  unfolding questions
  number_text-plain keyword n h =
      ground (arith, questions-append (codes keyword) (fmt.decimal n), numbers n)

  tail-plain :
      (q : QueryBuilder V)
      → PlainSorts q.sorts
      → questions (
          sort_text fmt q.sorts
          ++ (number_text fmt " LIMIT " q.limit ++ number_text fmt " OFFSET " q.offset))
        ≡ 0
  unfolding questions
  tail-plain q h =
      after_plain (sort_text fmt q.sorts) _ (sort_text-plain q.sorts h)
      ∙ after_plain (number_text fmt " LIMIT " q.limit) _ (number_text-plain " LIMIT " q.limit refl)
      ∙ number_text-plain " OFFSET " q.offset refl

  pub rows-Balanced : (q : QueryBuilder V) → PlainQuery q → Balanced (build fmt q)
  unfolding build
  rows-Balanced q (table, selects, filters, search, sorts) =
      after_plain (codes "SELECT ") _ select-plain
      ∙ after_plain (join (codes ", ") q.selects) _ (
          questions-join (codes ", ") q.selects comma-plain
          ∙ all_questions-AllPlain q.selects selects)
      ∙ after_plain (codes " FROM ") _ from-plain
      ∙ after_plain q.table _ table
      ∙ before_plain (where_text fmt (build_where_clause fmt q).0) _ (tail-plain q sorts)
      ∙ where_text-args fmt (build_where_clause fmt q).0 (build_where_clause fmt q).1
          (where-Balanced fmt q filters search)

  pub total-Balanced : (q : QueryBuilder V) → PlainQuery q → Balanced (build_count fmt q)
  unfolding build_count
  total-Balanced q (table, selects, filters, search, sorts) =
      after_plain (codes "SELECT COUNT(*) FROM ") _ count-plain
      ∙ after_plain q.table _ table
      ∙ where_text-args fmt (build_where_clause fmt q).0 (build_where_clause fmt q).1
          (where-Balanced fmt q filters search)
