-- ===== src/Query/Clauses.antt =====
-- The conditions of a statement have as many placeholders as arguments.
use alyx.Prelude.{
  ◌≡◌, refl, ◌∙◌, Option, none, some, List, [], ◌∷◌, ◌++◌, map, ◌==◌, length, length-map, arith,
  inl, inr, Bool-cases,
}
use alyx.Bytes.{Bytes}
use alyx.Query.{
  codes, join, FilterOp, eq, ne, gt, gte, lt, lte, like, in_list, contains, is_null, not_null,
  unknown, Arg, one, many, pattern_text, Format, Filter, Sort, SearchCondition, QueryBuilder,
  question, build_in, build_op, build_filter, texts,
}
use alyx.Query.Build.{
  search_clauses, build_search_condition, conditions, build_where_clause, where_text, where_args,
}
use alyx.Query.Questions.{
  questions, questions-append, all_questions, questions-join, all_questions-map, Balanced,
  AllBalanced, AllBalanced-append, texts-arguments,
}

abbrev pub AllPlain : List Bytes → Type 0
AllPlain [] = Unit
AllPlain (s ∷ rest) = (questions s ≡ 0) × AllPlain rest

abbrev pub PlainFilters : {V : Type 0} → List (Filter V) → Type 0
PlainFilters [] = Unit
PlainFilters (f ∷ rest) = (questions f.field ≡ 0) × PlainFilters rest

abbrev pub PlainSorts : List Sort → Type 0
PlainSorts [] = Unit
PlainSorts (s ∷ rest) = (questions s.field ≡ 0) × PlainSorts rest

abbrev pub PlainKeys : {V : Type 0} → List (Bytes × Arg V) → Type 0
PlainKeys [] = Unit
PlainKeys ((field, value) ∷ rest) = (questions field ≡ 0) × PlainKeys rest

abbrev pub PlainSearch : Option SearchCondition → Type 0
PlainSearch none = Unit
PlainSearch (some s) = AllPlain s.fields

pub all_questions-AllPlain : (xs : List Bytes) → AllPlain xs → all_questions xs ≡ 0
unfolding all_questions
all_questions-AllPlain [] h = refl
all_questions-AllPlain (x ∷ xs) h = omega (arith, h.0, all_questions-AllPlain xs h.1)

pub with_question :
    (field op : Bytes) → questions field ≡ 0 → questions op ≡ 1 → questions (field ++ op) ≡ 1
with_question field op h k = omega (arith, questions-append field op, h, k)

module _ {V : Type 0} (fmt : Format V) where
  build_in-Balanced :
      (field : Bytes) (value : Arg V) → questions field ≡ 0 → Balanced (build_in fmt field value)
  unfolding build_in questions
  build_in-Balanced field (many values) h =
      let marks = join (codes ", ") (map (λ v. question) values) in
      omega (
        arith,
        questions-append field (codes " IN (" ++ (marks ++ codes ")")),
        questions-append (codes " IN (") (marks ++ codes ")"),
        questions-append marks (codes ")"),
        questions-join (codes ", ") (map (λ v. question) values) refl,
        all_questions-map values,
        length-map values one,
        h,
      )
  build_in-Balanced field (one v) h = with_question field (codes " = ?") h refl
  build_in-Balanced field (pattern_text p) h = with_question field (codes " = ?") h refl

  build_op-Balanced :
      (op : FilterOp) (f : Filter V) → questions f.field ≡ 0 → Balanced (build_op fmt op f)
  unfolding build_op questions
  build_op-Balanced eq f h = with_question f.field (codes " = ?") h refl
  build_op-Balanced ne f h = with_question f.field (codes " != ?") h refl
  build_op-Balanced gt f h = with_question f.field (codes " > ?") h refl
  build_op-Balanced gte f h = with_question f.field (codes " >= ?") h refl
  build_op-Balanced lt f h = with_question f.field (codes " < ?") h refl
  build_op-Balanced lte f h = with_question f.field (codes " <= ?") h refl
  build_op-Balanced like f h = with_question f.field (codes " LIKE ?") h refl
  build_op-Balanced contains f h = with_question f.field (codes " LIKE ?") h refl
  build_op-Balanced in_list f h = build_in-Balanced f.field f.value h
  build_op-Balanced is_null f h = omega (arith, questions-append f.field (codes " IS NULL"), h)
  build_op-Balanced not_null f h = omega (arith, questions-append f.field (codes " IS NOT NULL"), h)
  build_op-Balanced (unknown op) f h = with_question f.field (codes " = ?") h refl

  filters-AllBalanced :
      (fs : List (Filter V)) → PlainFilters fs → AllBalanced (map (build_filter fmt) fs)
  unfolding build_filter
  filters-AllBalanced [] h = tt
  filters-AllBalanced (f ∷ fs) h = (build_op-Balanced f.op f h.0, filters-AllBalanced fs h.1)

  search-AllBalanced :
      (fields : List Bytes) (value : Bytes)
      → AllPlain fields
      → AllBalanced (search_clauses fmt fields value)
  unfolding search_clauses questions
  search-AllBalanced [] value h = tt
  search-AllBalanced (f ∷ fields) value h =
      (with_question f (codes " LIKE ?") h.0 refl, search-AllBalanced fields value h.1)

  condition-AllBalanced :
      (s : Option SearchCondition) → PlainSearch s → AllBalanced (build_search_condition fmt s)
  unfolding build_search_condition questions
  condition-AllBalanced none h = tt
  condition-AllBalanced (some s) h = elim (Bool-cases (length s.fields == 0)) [
    | inl empty ↦ rw empty tt
    | inr full ↦
        let clauses = search_clauses fmt s.fields s.value in
        let text = join (codes " OR ") (texts clauses) in
        rw full (
          omega (
            arith,
            questions-append (codes "(") (text ++ codes ")"),
            questions-append text (codes ")"),
            questions-join (codes " OR ") (texts clauses) refl,
            texts-arguments clauses (search-AllBalanced s.fields s.value h),
          ),
          tt,
        )
  ]

  pub where-Balanced :
      (q : QueryBuilder V)
      → PlainFilters q.filters
      → PlainSearch q.search
      → Balanced (build_where_clause fmt q)
  unfolding build_where_clause questions
  where-Balanced q h k =
      questions-join (codes " AND ") (texts (conditions fmt q)) refl
      ∙ texts-arguments (conditions fmt q) (
          AllBalanced-append (map (build_filter fmt) q.filters)
            (build_search_condition fmt q.search) (filters-AllBalanced q.filters h)
            (condition-AllBalanced q.search k))

  pub where_text-args :
      (clause : Bytes) (args : List (Arg V))
      → questions clause ≡ length args
      → questions (where_text fmt clause) ≡ length (where_args fmt clause args)
  unfolding questions
  where_text-args [] args h = refl
  where_text-args (c ∷ clause) args h =
      omega (arith, questions-append (codes " WHERE ") (c ∷ clause), h)
