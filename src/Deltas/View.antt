-- ===== src/Deltas/View.antt =====
-- What a client knows that applies the deltas to the ids of its snapshot.
use alyx.Prelude.{
  ◌≡◌, refl, String, Bool, true, false, Option, none, some, List, [], ◌∷◌, inl, inr, Bool-cases,
}
use alyx.Bytes.{Bytes}
use alyx.Map.{insert, delete}
use alyx.Deltas.{
  Operation, insert_op, update_op, delete_op, other_op, Change, Row, Changes, Found, document,
  not_found, failed, Live, Rules, DocIds, has, shown, handle_insert, handle_update, handle_delete,
  handle_missing_doc, take_out, compute_update_delta, handle, calculate_delta, process,
}
use alyx.Deltas.Exact.{has-insert, has-delete}

abbrev pub Same : DocIds → DocIds → Type 0
Same a b = (j : String) → has j a ≡ has j b

module _ {V : Type 0} (id_of : Row V → String) where
  abbrev pub insert_all : List (Row V) → DocIds → DocIds
  insert_all [] view = view
  insert_all (doc ∷ docs) view = insert_all docs (insert (id_of doc) tt view)

  abbrev pub delete_all : List String → DocIds → DocIds
  delete_all [] view = view
  delete_all (id ∷ ids) view = delete_all ids (delete id view)

  -- An update leaves the set of ids alone; after an error there is no delta.
  abbrev pub apply : Option (Changes V) → DocIds → DocIds
  apply none view = view
  apply (some delta) view = delete_all delta.deletes (insert_all delta.inserts view)

  -- FindOne returns the document that has the id.
  abbrev pub Named : String → Found V → Type 0
  Named id not_found = Unit
  Named id failed = Unit
  Named id (document doc) = id_of doc ≡ id

insert-Same : (id : String) (a b : DocIds) → Same a b → Same (insert id tt a) (insert id tt b)
insert-Same id a b s j = rw (has-insert id j a, has-insert id j b, s j) refl

delete-Same : (id : String) (a b : DocIds) → Same a b → Same (delete id a) (delete id b)
delete-Same id a b s j = rw (has-delete id j a, has-delete id j b, s j) refl

module _ {V : Type 0} (json : V → Bytes) (rules : Rules V) (id_of : Row V → String) where
  -- The view after the delta has the ids that the subscription has after the change.
  Follows : DocIds → Live V × Option (Changes V) → Type 0
  Follows view result = Same (apply id_of result.1 view) result.0.doc_ids

  module _ (sub : Live V) (view : DocIds) (s : Same view sub.doc_ids) (id : String) where
    handle_insert-Follows :
        (found : Found V)
        → Named id_of id found
        → Follows view (handle_insert json rules sub id found)
    unfolding handle_insert Follows
    handle_insert-Follows not_found n = s
    handle_insert-Follows failed n = s
    handle_insert-Follows (document doc) n = elim (Bool-cases (shown json rules sub.filter doc)) [
      | inl shows ↦ rw (shows, n) (insert-Same id view sub.doc_ids s)
      | inr hides ↦ rw hides s
    ]

    take_out-Follows :
        (was : Bool)
        → Same (apply id_of (some (take_out sub id was).1) view) (take_out sub id was).0.doc_ids
    unfolding take_out
    take_out-Follows true = delete-Same id view sub.doc_ids s
    take_out-Follows false = s

    compute_update_delta-Follows :
        (doc : Row V) (was now : Bool)
        → id_of doc ≡ id
        → Same
            (apply id_of (some (compute_update_delta sub id doc was now).1) view)
            (compute_update_delta sub id doc was now).0.doc_ids
    unfolding compute_update_delta
    compute_update_delta-Follows doc true true n = s
    compute_update_delta-Follows doc false true n = rw n (insert-Same id view sub.doc_ids s)
    compute_update_delta-Follows doc true false n = delete-Same id view sub.doc_ids s
    compute_update_delta-Follows doc false false n = s

    handle_update-Follows :
        (found : Found V)
        → Named id_of id found
        → Follows view (handle_update json rules sub id found)
    unfolding handle_update handle_missing_doc Follows
    handle_update-Follows not_found n = take_out-Follows (has id sub.doc_ids)
    handle_update-Follows failed n = s
    handle_update-Follows (document doc) n =
        compute_update_delta-Follows doc (has id sub.doc_ids) (shown json rules sub.filter doc) n

    handle-Follows :
        (op : Operation) (found : Found V)
        → Named id_of id found
        → Follows view (handle json rules sub op id found)
    unfolding handle_delete Follows
    handle-Follows insert_op found n = handle_insert-Follows found n
    handle-Follows update_op found n = handle_update-Follows found n
    handle-Follows delete_op found n = take_out-Follows (has id sub.doc_ids)
    handle-Follows (other_op name) found n = s

  calculate_delta-Follows :
      (primary_key : Bool) (sub : Live V) (view : DocIds) (change : Change) (found : Found V)
      → Same view sub.doc_ids
      → Named id_of change.doc_id found
      → Follows view (calculate_delta json rules primary_key sub change found)
  unfolding calculate_delta Follows
  calculate_delta-Follows true sub view change found s n =
      handle-Follows sub view s change.doc_id change.operation found n
  calculate_delta-Follows false sub view change found s n = s

  unfoldable pub follow : Bool → Live V → DocIds → List (Change × Found V) → DocIds
  unfolding calculate_delta
  follow primary_key sub view [] = view
  follow primary_key sub view ((change, found) ∷ rest) =
      let result = calculate_delta json rules primary_key sub change found in
      follow primary_key result.0 (apply id_of result.1 view) rest

  abbrev pub AllNamed : List (Change × Found V) → Type 0
  AllNamed [] = Unit
  AllNamed ((change, found) ∷ rest) = Named id_of change.doc_id found × AllNamed rest

  -- If a client starts with the ids of the subscription and receives every delta, then after any
  -- run of changes it has the ids that the subscription has, provided that each document that is
  -- fetched carries the id that was asked for.
  pub follow-process :
      (primary_key : Bool) (sub : Live V) (view : DocIds) (changes : List (Change × Found V))
      → Same view sub.doc_ids
      → AllNamed changes
      → Same
          (follow primary_key sub view changes)
          (process json rules primary_key sub changes).doc_ids
  unfolding follow process Follows
  follow-process primary_key sub view [] s n = s
  follow-process primary_key sub view ((change, found) ∷ rest) s (n, ns) =
      let result = calculate_delta json rules primary_key sub change found in
      follow-process primary_key result.0 (apply id_of result.1 view) rest
        (calculate_delta-Follows primary_key sub view change found s n) ns
