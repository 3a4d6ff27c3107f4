-- ===== src/Query/Writes.antt =====
-- An insertion, an update and a deletion have as many placeholders as arguments.
use alyx.Prelude.{◌≡◌, refl, ◌∙◌, List, [], ◌∷◌, ◌++◌, map, length, length-append, arith}
use alyx.Bytes.{Bytes}
use alyx.Query.{codes, join, Arg, question, texts, arguments}
use alyx.Query.Build.{
  InsertBuilder, UpdateBuilder, DeleteBuilder, new_insert, insert_set, insert_set_map, build_insert,
  new_update, update_set, update_set_map, update_where, equations, where_equations, build_update,
  new_delete, delete_where_eq, build_delete,
}
use alyx.Query.Questions.{
  questions, questions-append, after_plain, before_plain, all_questions, all_questions-append,
  questions-join, all_questions-map, Balanced, AllBalanced, texts-arguments,
}
use alyx.Query.Clauses.{PlainKeys, with_question}

-- Where, called for each of the equations.
abbrev pub update_wheres : {V : Type 0} → UpdateBuilder V → List (Bytes × Arg V) → UpdateBuilder V
update_wheres b [] = b
update_wheres b ((field, value) ∷ rest) = update_wheres (update_where b field value) rest

abbrev pub delete_wheres : {V : Type 0} → DeleteBuilder V → List (Bytes × Arg V) → DeleteBuilder V
delete_wheres b [] = b
delete_wheres b ((field, value) ∷ rest) = delete_wheres (delete_where_eq b field value) rest

set-question : (field : Bytes) → questions field ≡ 0 → questions (field ++ codes " = ?") ≡ 1
unfolding questions
set-question field h = with_question field (codes " = ?") h refl

module _ {V : Type 0} where
  -- The fields of an insertion are plain and as many as its values.
  inserted :
      (b : InsertBuilder V) (entries : List (Bytes × Arg V))
      → length b.fields ≡ length b.values
      → all_questions b.fields ≡ 0
      → PlainKeys entries
      → let b' = insert_set_map b entries in
        (length b'.fields ≡ length b'.values) × (all_questions b'.fields ≡ 0) × (b'.table ≡ b.table)
  unfolding insert_set_map insert_set all_questions
  inserted b [] h k p = (h, k, refl)
  inserted b ((field, value) ∷ entries) h k p =
      inserted (insert_set b field value) entries
        (omega (arith, h, length-append b.fields (field ∷ []), length-append b.values (value ∷ [])))
        (omega (arith, k, p.0, all_questions-append b.fields (field ∷ []))) p.1

  insert-plain :
      (b : InsertBuilder V)
      → questions b.table ≡ 0
      → length b.fields ≡ length b.values
      → all_questions b.fields ≡ 0
      → Balanced (build_insert b)
  unfolding build_insert questions
  insert-plain b t h k =
      let marks = join (codes ", ") (map (λ f. question) b.fields) in
      let fields = join (codes ", ") b.fields in
      after_plain (codes "INSERT INTO ") _ refl
      ∙ after_plain b.table _ t
      ∙ after_plain (codes " (") _ refl
      ∙ after_plain fields _ (questions-join (codes ", ") b.fields refl ∙ k)
      ∙ after_plain (codes ") VALUES (") _ refl
      ∙ before_plain marks (codes ")") refl
      ∙ questions-join (codes ", ") (map (λ f. question) b.fields) refl
      ∙ all_questions-map b.fields
      ∙ h

  pub insertion-Balanced :
      (table : Bytes) (entries : List (Bytes × Arg V))
      → questions table ≡ 0
      → PlainKeys entries
      → Balanced (build_insert (insert_set_map (new_insert table) entries))
  unfolding new_insert all_questions
  insertion-Balanced table entries t p =
      let (h, k, e) = inserted (new_insert table) entries refl refl p in
      insert-plain (insert_set_map (new_insert table) entries) (rw e t) h k

  -- Each SET clause has the placeholder of its value; the equations come later.
  updated :
      (b : UpdateBuilder V) (entries : List (Bytes × Arg V))
      → all_questions b.sets ≡ length b.values
      → PlainKeys entries
      → let b' = update_set_map b entries in
        (all_questions b'.sets ≡ length b'.values) × (b'.table ≡ b.table) × (b'.filters ≡ b.filters)
  unfolding update_set_map update_set all_questions
  updated b [] h p = (h, refl, refl)
  updated b ((field, value) ∷ entries) h p =
      updated (update_set b field value) entries
        (omega (
          arith,
          h,
          set-question field p.0,
          length-append b.values (value ∷ []),
          all_questions-append b.sets ((field ++ codes " = ?") ∷ []),
        ))
        p.1

  PlainKeys-append :
      (fs gs : List (Bytes × Arg V)) → PlainKeys fs → PlainKeys gs → PlainKeys (fs ++ gs)
  PlainKeys-append [] gs h k = k
  PlainKeys-append (f ∷ fs) gs h k = (h.0, PlainKeys-append fs gs h.1 k)

  update_filtered :
      (b : UpdateBuilder V) (wheres : List (Bytes × Arg V))
      → PlainKeys b.filters
      → PlainKeys wheres
      → let b' = update_wheres b wheres in
        PlainKeys b'.filters × (b'.table ≡ b.table) × (b'.sets ≡ b.sets) × (b'.values ≡ b.values)
  unfolding update_where
  update_filtered b [] h p = (h, refl, refl, refl)
  update_filtered b ((field, value) ∷ wheres) h p =
      update_filtered (update_where b field value) wheres
        (PlainKeys-append b.filters ((field, value) ∷ []) h (p.0, tt)) p.1

  delete_filtered :
      (b : DeleteBuilder V) (wheres : List (Bytes × Arg V))
      → PlainKeys b.filters
      → PlainKeys wheres
      → let b' = delete_wheres b wheres in PlainKeys b'.filters × (b'.table ≡ b.table)
  unfolding delete_where_eq
  delete_filtered b [] h p = (h, refl)
  delete_filtered b ((field, value) ∷ wheres) h p =
      delete_filtered (delete_where_eq b field value) wheres
        (PlainKeys-append b.filters ((field, value) ∷ []) h (p.0, tt)) p.1

  equations-AllBalanced : (fs : List (Bytes × Arg V)) → PlainKeys fs → AllBalanced (equations fs)
  equations-AllBalanced [] p = tt
  equations-AllBalanced ((field, value) ∷ fs) p =
      (set-question field p.0, equations-AllBalanced fs p.1)

  where_equations-Balanced :
      (fs : List (Bytes × Arg V))
      → PlainKeys fs
      → questions (where_equations fs) ≡ length (arguments (equations fs))
  unfolding questions
  where_equations-Balanced [] p = refl
  where_equations-Balanced (f ∷ fs) p =
      after_plain (codes " WHERE ") _ refl
      ∙ questions-join (codes " AND ") (texts (equations (f ∷ fs))) refl
      ∙ texts-arguments (equations (f ∷ fs)) (equations-AllBalanced (f ∷ fs) p)

  update-plain :
      (b : UpdateBuilder V)
      → questions b.table ≡ 0
      → all_questions b.sets ≡ length b.values
      → PlainKeys b.filters
      → Balanced (build_update b)
  unfolding build_update questions
  update-plain b t h p =
      let sets = join (codes ", ") b.sets in
      after_plain (codes "UPDATE ") _ refl
      ∙ after_plain b.table _ t
      ∙ after_plain (codes " SET ") _ refl
      ∙ omega (
        arith,
        questions-append sets (where_equations b.filters),
        questions-join (codes ", ") b.sets refl,
        h,
        where_equations-Balanced b.filters p,
        length-append b.values (arguments (equations b.filters)),
      )

  pub update-Balanced :
      (table : Bytes) (entries wheres : List (Bytes × Arg V))
      → questions table ≡ 0
      → PlainKeys entries
      → PlainKeys wheres
      → Balanced (build_update (update_wheres (update_set_map (new_update table) entries) wheres))
  unfolding new_update all_questions
  update-Balanced table entries wheres t p k =
      let (h, e, f) = updated (new_update table) entries refl p in
      let b = update_set_map (new_update table) entries in
      let (g, e', s, v) = update_filtered b wheres (rw f tt) k in
      update-plain (update_wheres b wheres) (rw (e', e) t) (rw (s, v) h) g

  pub deletion-Balanced :
      (table : Bytes) (wheres : List (Bytes × Arg V))
      → questions table ≡ 0
      → PlainKeys wheres
      → Balanced (build_delete (delete_wheres (new_delete table) wheres))
  unfolding new_delete build_delete questions
  deletion-Balanced table wheres t k =
      let (g, e) = delete_filtered (new_delete table) wheres tt k in
      let b = delete_wheres (new_delete table) wheres in
      after_plain (codes "DELETE FROM ") _ refl
      ∙ after_plain b.table _ (rw e t)
      ∙ where_equations-Balanced b.filters g
