-- ===== src/Deltas.antt =====
-- internal/realtime/broker.go: which documents a change of the database puts into a subscription
-- and takes out of it. A value of a document is a text or an `other`, whose JSON text is a
-- parameter; the rules engine and FindOne are parameters too.
pub mod Filters
pub mod Exact
pub mod View
pub mod Settled
mod Tests
use alyx.Prelude.{
  ℕ, String, Bool, true, false, not, ◌&&◌, ◌||◌, Option, none, some, List, [], ◌∷◌, ◌++◌, ◌==◌,
  if◌then◌else◌, length, str_eq,
}
use alyx.Bytes.{Bytes, bytes_eq}
use alyx.Map.{GoMap, lookup, insert, delete}
use alyx.Map.Laws.{is_some}
use alyx.Query.{FilterOp, Filter as QueryFilter, one, many}

pub data Operation : Type 0 where
  insert_op update_op delete_op : Operation
  other_op : String → Operation

pub record Change : Type 0 where
  pub collection : String
  pub operation : Operation
  pub doc_id : String

-- A Go value of type any: nil, a string, or anything else.
pub data Value (V : Type 0) : Type 0 where
  null : Value V
  text : Bytes → Value V
  other : V → Value V

-- A test that is not set is nil.
pub record Filter (V : Type 0) : Type 0 where
  pub eq : Value V
  pub ne : Value V
  pub gt : Value V
  pub gte : Value V
  pub lt : Value V
  pub lte : Value V
  pub like : Value V
  pub in_list : Option (List (Value V))
  pub contains : Value V

abbrev pub Row : Type 0 → Type 0
Row V = GoMap (Value V)

pub record Changes (V : Type 0) : Type 0 where
  pub inserts : List (Row V)
  pub updates : List (Row V)
  pub deletes : List String

abbrev pub no_changes : {V : Type 0} → Changes V
no_changes = record { inserts = []; updates = []; deletes = [] }

unfoldable pub is_empty : {V : Type 0} → Changes V → Bool
is_empty c = (length c.inserts == 0) && (length c.updates == 0) && (length c.deletes == 0)

-- What FindOne returns: the document, ErrNotFound or another error.
pub data Found (V : Type 0) : Type 0 where
  document : Row V → Found V
  not_found failed : Found V

abbrev pub DocIds : Type 0
DocIds = GoMap Unit

abbrev pub has : String → DocIds → Bool
has id ids = is_some (lookup id ids)

module _ {V : Type 0} where
  abbrev pub is_set : Value V → Bool
  is_set null = false
  is_set (text t) = true
  is_set (other v) = true

module _ {V : Type 0} (json : V → Bytes) where
  unfoldable pub to_string : Value V → Bytes
  to_string null = []
  to_string (text t) = t
  to_string (other v) = json v

  unfoldable pub equals : Value V → Value V → Bool
  unfolding to_string
  equals a b = bytes_eq (to_string a) (to_string b)

  unfoldable pub in_array : Value V → List (Value V) → Bool
  unfolding equals
  in_array v [] = false
  in_array v (first ∷ rest) = let found = in_array v rest in if equals v first then true else found

  abbrev pub in_given : Value V → Option (List (Value V)) → Bool
  in_given v none = true
  in_given v (some values) = in_array v values

  unfoldable pub match_value : Value V → Filter V → Bool
  unfolding equals in_array
  match_value v filter =
      if is_set filter.eq && not (equals v filter.eq)
      then false
      else if is_set filter.ne && equals v filter.ne
      then false
      else if not (in_given v filter.in_list)
      then false
      else true

  abbrev pub match_field : Option (Value V) → Filter V → Bool
  match_field none filter = false
  match_field (some v) filter = match_value v filter

  unfoldable pub matches_filter : Row V → GoMap (Filter V) → Bool
  unfolding match_value
  matches_filter doc [] = true
  matches_filter doc ((field, filter) ∷ rest) =
      let others = matches_filter doc rest in
      if not (match_field (lookup field doc) filter) then false else others

-- The tests of a filter as filters of the query for the snapshot.
module _ {V : Type 0} where
  abbrev pub when_set : Bytes → FilterOp → Value V → List (QueryFilter (Value V))
  when_set field op null = []
  when_set field op (text t) = record { field = field; op = op; value = one (text t) } ∷ []
  when_set field op (other v) = record { field = field; op = op; value = one (other v) } ∷ []

  abbrev pub when_given : Bytes → Option (List (Value V)) → List (QueryFilter (Value V))
  when_given field none = []
  when_given field (some values) =
      record { field = field; op = FilterOp.in_list; value = many values } ∷ []

  unfoldable pub convert_filter : Bytes → Filter V → List (QueryFilter (Value V))
  convert_filter field f =
      when_set field FilterOp.eq f.eq
      ++ (when_set field FilterOp.ne f.ne
          ++ (when_set field FilterOp.gt f.gt
              ++ (when_set field FilterOp.gte f.gte
                  ++ (when_set field FilterOp.lt f.lt
                      ++ (when_set field FilterOp.lte f.lte
                          ++ (when_set field FilterOp.like f.like
                              ++ (when_given field f.in_list
                                  ++ when_set field FilterOp.contains f.contains)))))))

-- What a subscription keeps of its documents, and what decides them.
pub record Live (V : Type 0) : Type 0 where
  pub filter : GoMap (Filter V)
  pub doc_ids : DocIds

-- The answer of the rules engine for the auth context of the subscription; `none` is an error. No
-- rules at all is the outer `none`.
abbrev pub Rules : Type 0 → Type 0
Rules V = Option (Row V → Option Bool)

abbrev pub granted : Option Bool → Bool
granted none = false
granted (some allowed) = allowed

module _ {V : Type 0} where
  unfoldable pub take_out : Live V → String → Bool → Live V × Changes V
  take_out sub id true = (
    record sub { doc_ids = delete id sub.doc_ids },
    record { inserts = []; updates = []; deletes = id ∷ [] },
  )
  take_out sub id false = (sub, no_changes)

  unfoldable pub handle_missing_doc : Live V → String → Bool → Live V × Changes V
  unfolding take_out
  handle_missing_doc sub id was_in_set = take_out sub id was_in_set

  unfoldable pub handle_delete : Live V → String → Live V × Changes V
  unfolding take_out
  handle_delete sub id = take_out sub id (has id sub.doc_ids)

  unfoldable pub compute_update_delta : Live V → String → Row V → Bool → Bool → Live V × Changes V
  compute_update_delta sub id doc true true =
      (sub, record { inserts = []; updates = doc ∷ []; deletes = [] })
  compute_update_delta sub id doc false true = (
    record sub { doc_ids = insert id tt sub.doc_ids },
    record { inserts = doc ∷ []; updates = []; deletes = [] },
  )
  compute_update_delta sub id doc true false = (
    record sub { doc_ids = delete id sub.doc_ids },
    record { inserts = []; updates = []; deletes = id ∷ [] },
  )
  compute_update_delta sub id doc false false = (sub, no_changes)

module _ {V : Type 0} (json : V → Bytes) (rules : Rules V) where
  unfoldable pub can_read_document : Row V → Bool
  can_read_document doc = elim rules [ none ↦ true | some evaluate ↦ granted (evaluate doc) ]

  -- matchesFilter && canReadDocument
  abbrev pub shown : GoMap (Filter V) → Row V → Bool
  shown filter doc = matches_filter json doc filter && can_read_document doc

  unfoldable pub handle_insert : Live V → String → Found V → Live V × Option (Changes V)
  handle_insert sub id not_found = (sub, some no_changes)
  handle_insert sub id failed = (sub, none)
  handle_insert sub id (document doc) =
      if shown sub.filter doc
      then (
        record sub { doc_ids = insert id tt sub.doc_ids },
        some (record { inserts = doc ∷ []; updates = []; deletes = [] }),
      )
      else (sub, some no_changes)

  abbrev pub returned : Live V × Changes V → Live V × Option (Changes V)
  returned (sub, delta) = (sub, some delta)

  unfoldable pub handle_update : Live V → String → Found V → Live V × Option (Changes V)
  unfolding handle_missing_doc compute_update_delta
  handle_update sub id not_found = returned (handle_missing_doc sub id (has id sub.doc_ids))
  handle_update sub id failed = (sub, none)
  handle_update sub id (document doc) =
      returned (compute_update_delta sub id doc (has id sub.doc_ids) (shown sub.filter doc))

  abbrev pub handle : Live V → Operation → String → Found V → Live V × Option (Changes V)
  handle sub insert_op id found = handle_insert sub id found
  handle sub update_op id found = handle_update sub id found
  handle sub delete_op id found = returned (handle_delete sub id)
  handle sub (other_op name) id found = (sub, some no_changes)

  -- `primary_key` tells whether the collection has one; an error is `none`.
  unfoldable pub calculate_delta : Bool → Live V → Change → Found V → Live V × Option (Changes V)
  unfolding handle_insert handle_update handle_delete
  calculate_delta primary_key sub change found =
      let handled = handle sub change.operation change.doc_id found in
      if not primary_key then (sub, some no_changes) else handled

  -- The changes that reach one active subscription, each with what FindOne returns at its turn; an
  -- error is logged and leaves the subscription as it is.
  unfoldable pub process : Bool → Live V → List (Change × Found V) → Live V
  unfolding calculate_delta
  process primary_key sub [] = sub
  process primary_key sub ((change, found) ∷ rest) =
      process primary_key (calculate_delta primary_key sub change found).0 rest
