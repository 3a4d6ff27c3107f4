-- ===== src/Deltas/Filters.antt =====
-- The tests of a filter that the deltas do not make.
use alyx.Prelude.{◌≡◌, refl, String, true, none, some, [], ◌∷◌}
use alyx.Bytes.{Bytes}
use alyx.Map.{lookup}
use alyx.Query.{FilterOp, one}
use alyx.Deltas.{
  Value, null, text, other, Filter, Row, is_set, match_value, matches_filter, convert_filter,
}

abbrev pub greater_than : {V : Type 0} → Value V → Filter V
greater_than bound = record {
  eq = null;
  ne = null;
  gt = bound;
  gte = null;
  lt = null;
  lte = null;
  like = null;
  in_list = none;
  contains = null;
}

-- A filter that asks for a field above a bound is a test `field > bound` of the query for the
-- snapshot, but every document that has the field passes it when a change is offered.
pub matches_filter-greater_than :
    {V : Type 0} (json : V → Bytes) (doc : Row V) (field : String) (name : Bytes)
    (bound found : Value V)
    → is_set bound ≡ true
    → lookup field doc ≡ some found
    → (convert_filter name (greater_than bound)
        ≡ record { field = name; op = FilterOp.gt; value = one bound } ∷ [])
      × (matches_filter json doc ((field, greater_than bound) ∷ []) ≡ true)
unfolding convert_filter matches_filter match_value
matches_filter-greater_than json doc field name null found s h = absurd (cc)
matches_filter-greater_than json doc field name (text t) found s h = (refl, rw h refl)
matches_filter-greater_than json doc field name (other v) found s h = (refl, rw h refl)
