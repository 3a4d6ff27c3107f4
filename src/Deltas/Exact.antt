-- ===== src/Deltas/Exact.antt =====
-- The ids of a subscription after a change.
use alyx.Prelude.{
  ◌≡◌, refl, subst, String, Bool, true, false, ◌||◌, inl, inr, Bool-cases, if◌then◌else◌, str_eq,
  eq_iff, arith,
}
use alyx.Bytes.{Bytes}
use alyx.Map.{GoMap, insert, delete}
use alyx.Map.Laws.{lookup-insert, lookup-delete}
use alyx.Deltas.{
  Filter, Operation, insert_op, update_op, delete_op, other_op, Change, Row, Found, document,
  not_found, failed, Live, Rules, DocIds, has, shown, handle_insert, handle_update, handle_delete,
  handle_missing_doc, take_out, compute_update_delta, handle, calculate_delta,
}

pub has-insert :
    (id j : String) (ids : DocIds)
    → has j (insert id tt ids) ≡ (if str_eq id j then true else has j ids)
has-insert id j ids =
    rw lookup-insert
      (elim (Bool-cases (str_eq id j)) [ inl same ↦ rw same refl | inr other ↦ rw other refl ])

pub has-delete :
    (id j : String) (ids : DocIds)
    → has j (delete id ids) ≡ (if str_eq id j then false else has j ids)
has-delete id j ids =
    rw lookup-delete
      (elim (Bool-cases (str_eq id j)) [ inl same ↦ rw same refl | inr other ↦ rw other refl ])

-- What an id's membership is left at: `has j ids` is `was` at the id and stays elsewhere.
abbrev Kept : DocIds → DocIds → String → Bool → Type 0
Kept before after id now = (j : String) → has j after ≡ (if str_eq id j then now else has j before)

Kept-now :
    (before after : DocIds) (id : String) {now now' : Bool}
    → now ≡ now'
    → Kept before after id now
    → Kept before after id now'
Kept-now before after id e h = subst (Kept before after id) e h

has_self : (ids : DocIds) (id : String) (was : Bool) → has id ids ≡ was → Kept ids ids id was
has_self ids id was e j = elim (Bool-cases (str_eq id j)) [
  | inl same ↦ rw same (rw ((eq_iff id j).0 same) at e)
  | inr other ↦ rw other refl
]

-- The document is there, matches the filter, and may be read.
module _ {V : Type 0} (json : V → Bytes) (rules : Rules V) (filter : GoMap (Filter V)) where
  abbrev pub in_result : Found V → Bool
  in_result not_found = false
  in_result failed = false
  in_result (document doc) = shown json rules filter doc

module _ {V : Type 0} where
  abbrev pub fails : Found V → Bool
  fails not_found = false
  fails failed = true
  fails (document doc) = false

module _ {V : Type 0} (json : V → Bytes) (rules : Rules V) (sub : Live V) where
  -- Whether a change leaves its id in the subscription, if it was there or not.
  abbrev pub expected : Operation → Bool → Found V → Bool
  expected insert_op was found = was || in_result json rules sub.filter found
  expected update_op was found = if fails found then was else in_result json rules sub.filter found
  expected delete_op was found = false
  expected (other_op name) was found = was

  set_insert-Kept :
      (id : String) {now : Bool} → true ≡ now → Kept sub.doc_ids (insert id tt sub.doc_ids) id now
  set_insert-Kept id e =
      Kept-now sub.doc_ids (insert id tt sub.doc_ids) id e (λ j. has-insert id j sub.doc_ids)

  set_delete-Kept : (id : String) → Kept sub.doc_ids (delete id sub.doc_ids) id false
  set_delete-Kept id j = has-delete id j sub.doc_ids

  handle_insert-Kept :
      (id : String) (found : Found V)
      → Kept sub.doc_ids
          (handle_insert json rules sub id found).0.doc_ids
          id
          (has id sub.doc_ids || in_result json rules sub.filter found)
  unfolding handle_insert
  handle_insert-Kept id not_found = has_self sub.doc_ids id _ (ground arith)
  handle_insert-Kept id failed = has_self sub.doc_ids id _ (ground arith)
  handle_insert-Kept id (document doc) = elim (Bool-cases (shown json rules sub.filter doc)) [
    | inl shows ↦ rw shows (set_insert-Kept id (ground arith))
    | inr hides ↦ rw hides (has_self sub.doc_ids id _ (ground arith))
  ]

  take_out-Kept :
      (id : String) (was : Bool)
      → has id sub.doc_ids ≡ was
      → Kept sub.doc_ids (take_out sub id was).0.doc_ids id false
  unfolding take_out
  take_out-Kept id true e = set_delete-Kept id
  take_out-Kept id false e = has_self sub.doc_ids id false e

  compute_update_delta-Kept :
      (id : String) (doc : Row V) (was now : Bool)
      → has id sub.doc_ids ≡ was
      → Kept sub.doc_ids (compute_update_delta sub id doc was now).0.doc_ids id now
  unfolding compute_update_delta
  compute_update_delta-Kept id doc true true e = has_self sub.doc_ids id true e
  compute_update_delta-Kept id doc false true e = set_insert-Kept id refl
  compute_update_delta-Kept id doc true false e = set_delete-Kept id
  compute_update_delta-Kept id doc false false e = has_self sub.doc_ids id false e

  handle_update-Kept :
      (id : String) (found : Found V)
      → Kept sub.doc_ids
          (handle_update json rules sub id found).0.doc_ids
          id
          (expected update_op (has id sub.doc_ids) found)
  unfolding handle_update handle_missing_doc
  handle_update-Kept id not_found = take_out-Kept id (has id sub.doc_ids) refl
  handle_update-Kept id failed = has_self sub.doc_ids id _ refl
  handle_update-Kept id (document doc) =
      compute_update_delta-Kept id doc (has id sub.doc_ids) (shown json rules sub.filter doc) refl

  -- A change concerns one id only: an insertion adds it if the document is there, matches the
  -- filter and may be read; an update leaves it in exactly in that case, or as it was if the
  -- document cannot be fetched; a deletion takes it out. Every other id stays in or out.
  pub calculate_delta-exact :
      (change : Change) (found : Found V) (j : String)
      → has j (calculate_delta json rules true sub change found).0.doc_ids ≡ (
          if str_eq change.doc_id j
          then expected change.operation (has change.doc_id sub.doc_ids) found
          else has j sub.doc_ids)
  unfolding calculate_delta handle_delete
  calculate_delta-exact change found j = by_operation change.operation
    where
      by_operation :
          (op : Operation)
          → has j (handle json rules sub op change.doc_id found).0.doc_ids ≡ (
              if str_eq change.doc_id j
              then expected op (has change.doc_id sub.doc_ids) found
              else has j sub.doc_ids)
      by_operation insert_op = handle_insert-Kept change.doc_id found j
      by_operation update_op = handle_update-Kept change.doc_id found j
      by_operation delete_op = take_out-Kept change.doc_id (has change.doc_id sub.doc_ids) refl j
      by_operation (other_op name) = has_self sub.doc_ids change.doc_id _ refl j

  take_out-filter : (id : String) (was : Bool) → (take_out sub id was).0.filter ≡ sub.filter
  unfolding take_out
  take_out-filter id true = refl
  take_out-filter id false = refl

  compute_update_delta-filter :
      (id : String) (doc : Row V) (was now : Bool)
      → (compute_update_delta sub id doc was now).0.filter ≡ sub.filter
  unfolding compute_update_delta
  compute_update_delta-filter id doc true true = refl
  compute_update_delta-filter id doc true false = refl
  compute_update_delta-filter id doc false true = refl
  compute_update_delta-filter id doc false false = refl

  handle-filter :
      (op : Operation) (id : String) (found : Found V)
      → (handle json rules sub op id found).0.filter ≡ sub.filter
  unfolding handle_insert handle_update handle_delete handle_missing_doc
  handle-filter insert_op id not_found = refl
  handle-filter insert_op id failed = refl
  handle-filter insert_op id (document doc) = elim (Bool-cases (shown json rules sub.filter doc)) [
    | inl shows ↦ rw shows refl
    | inr hides ↦ rw hides refl
  ]
  handle-filter update_op id not_found = take_out-filter id (has id sub.doc_ids)
  handle-filter update_op id failed = refl
  handle-filter update_op id (document doc) =
      compute_update_delta-filter id doc (has id sub.doc_ids) (shown json rules sub.filter doc)
  handle-filter delete_op id found = take_out-filter id (has id sub.doc_ids)
  handle-filter (other_op name) id found = refl

  pub calculate_delta-filter :
      (change : Change) (found : Found V)
      → (calculate_delta json rules true sub change found).0.filter ≡ sub.filter
  unfolding calculate_delta
  calculate_delta-filter change found = handle-filter change.operation change.doc_id found
