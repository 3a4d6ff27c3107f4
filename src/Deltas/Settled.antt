-- ===== src/Deltas/Settled.antt =====
-- A subscription against the database once the changes of a document are processed.
use alyx.Prelude.{
  ◌≡◌, refl, String, Bool, true, false, Option, none, some, List, [], ◌∷◌, inl, inr, Bool-cases,
  if◌then◌else◌, str_eq, eq_refl, eq_iff, sym, ap, ◌∙◌,
}
use alyx.Bytes.{Bytes}
use alyx.Map.{GoMap}
use alyx.Deltas.{
  Filter, Operation, insert_op, update_op, delete_op, other_op, Change, Found, document, not_found,
  failed, Live, Rules, has, calculate_delta, process,
}
use alyx.Deltas.Exact.{in_result, fails, expected, calculate_delta-exact, calculate_delta-filter}

abbrev pub there : {V : Type 0} → Found V → Bool
there not_found = false
there failed = false
there (document doc) = true

-- Whether a document is there after an operation on it; `none` if it cannot be applied.
abbrev pub after : Operation → Bool → Option Bool
after insert_op false = some true
after insert_op true = none
after update_op true = some true
after update_op false = none
after delete_op true = some false
after delete_op false = none
after (other_op name) was = none

abbrev pub next : Operation → Option Bool → Option Bool
next op none = none
next op (some was) = after op was

module _ {V : Type 0} (id : String) where
  abbrev pub history : Option Bool → List (Change × Found V) → Option Bool
  history was [] = was
  history was ((change, found) ∷ rest) =
      history (if str_eq change.doc_id id then next change.operation was else was) rest

  abbrev pub touched : List (Change × Found V) → Bool
  touched [] = false
  touched ((change, found) ∷ rest) =
      let later = touched rest in if str_eq change.doc_id id then true else later

  -- No read of the document fails, and the last one finds `now`.
  abbrev pub ReadsLast : Found V → List (Change × Found V) → Type 0
  ReadsLast now [] = Unit
  ReadsLast now ((change, found) ∷ rest) =
      (str_eq change.doc_id id ≡ true
        → (fails found ≡ false) × (touched rest ≡ false → found ≡ now))
      × ReadsLast now rest

  history-none : (rest : List (Change × Found V)) → history none rest ≡ none
  history-none [] = refl
  history-none ((change, found) ∷ rest) = elim (Bool-cases (str_eq change.doc_id id)) [
    | inl same ↦ rw same (history-none rest)
    | inr other ↦ rw other (history-none rest)
  ]

  history-untouched :
      (was : Option Bool) (rest : List (Change × Found V))
      → touched rest ≡ false
      → history was rest ≡ was
  history-untouched was [] h = refl
  history-untouched was ((change, found) ∷ rest) h = elim (Bool-cases (str_eq change.doc_id id)) [
    | inl same ↦ let h' = rw same at h in absurd (cc)
    | inr other ↦ let h' = rw other at h in rw other (history-untouched was rest h')
  ]

absent :
    {V : Type 0} (json : V → Bytes) (rules : Rules V) (filter : GoMap (Filter V)) (found : Found V)
    → there found ≡ false
    → in_result json rules filter found ≡ false
absent json rules filter not_found e = refl
absent json rules filter failed e = refl
absent json rules filter (document doc) e = absurd (cc)

module _ {V : Type 0} (json : V → Bytes) (rules : Rules V) (id : String) (now : Found V) where
  -- What holds between two changes: a document that is not there is not in the subscription, and
  -- if no change is left, the subscription is right.
  abbrev Ready : Live V → Bool → List (Change × Found V) → Type 0
  Ready sub was rest =
      (was ≡ false → has id sub.doc_ids ≡ false)
      × (touched id rest ≡ false → has id sub.doc_ids ≡ in_result json rules sub.filter now)

  member-same :
      (sub : Live V) (change : Change) (found : Found V) (op : Operation)
      → change.operation ≡ op
      → change.doc_id ≡ id
      → has id (calculate_delta json rules true sub change found).0.doc_ids
        ≡ expected json rules sub op (has id sub.doc_ids) found
  member-same sub change found op o e =
      rw (calculate_delta-exact json rules sub change found id, e, eq_refl id, o) refl

  -- After an operation that leaves the document there.
  Ready-there :
      (sub after : Live V) (found : Found V) (rest : List (Change × Found V))
      → after.filter ≡ sub.filter
      → has id after.doc_ids ≡ in_result json rules sub.filter found
      → (touched id rest ≡ false → found ≡ now)
      → Ready after true rest
  Ready-there sub after found rest f m l = (λ e. absurd (cc), λ t. rw f (rw (l t) at m))

  Ready-gone :
      (after : Live V) (rest : List (Change × Found V))
      → has id after.doc_ids ≡ false
      → history id (some false) rest ≡ some (there now)
      → Ready after false rest
  Ready-gone after rest m h = (
    λ e. m,
    λ t.
        m
        ∙ sym (
            absent json rules after.filter now
              (let h' = rw (history-untouched id (some false) rest t) at h in cc)),
  )

  -- One change of the document, at the head of its history.
  Ready-touched :
      (sub : Live V) (change : Change) (found : Found V) (rest : List (Change × Found V))
      (op : Operation) (was : Bool)
      → change.operation ≡ op
      → change.doc_id ≡ id
      → fails found ≡ false
      → (touched id rest ≡ false → found ≡ now)
      → history id (after op was) rest ≡ some (there now)
      → (was ≡ false → has id sub.doc_ids ≡ false)
      → (was' : Bool) × (history id (some was') rest ≡ some (there now))
        × Ready (calculate_delta json rules true sub change found).0 was' rest
  Ready-touched sub change found rest insert_op false o e f l h r = (
    true,
    h,
    Ready-there sub _ found rest (calculate_delta-filter json rules sub change found)
        (member-same sub change found insert_op o e ∙ rw (r refl) refl) l,
  )
  Ready-touched sub change found rest insert_op true o e f l h r =
      absurd (let h' = rw (history-none id rest) at h in cc)
  Ready-touched sub change found rest update_op false o e f l h r =
      absurd (let h' = rw (history-none id rest) at h in cc)
  Ready-touched sub change found rest update_op true o e f l h r = (
    true,
    h,
    Ready-there sub _ found rest (calculate_delta-filter json rules sub change found)
        (member-same sub change found update_op o e ∙ rw f refl) l,
  )
  Ready-touched sub change found rest delete_op false o e f l h r =
      absurd (let h' = rw (history-none id rest) at h in cc)
  Ready-touched sub change found rest delete_op true o e f l h r =
      (false, h, Ready-gone _ rest (member-same sub change found delete_op o e) h)
  Ready-touched sub change found rest (other_op name) was o e f l h r =
      absurd (let h' = rw (history-none id rest) at h in cc)

  Ready-other :
      (sub : Live V) (change : Change) (found : Found V) (rest : List (Change × Found V))
      (was : Bool)
      → str_eq change.doc_id id ≡ false
      → Ready sub was ((change, found) ∷ rest)
      → Ready (calculate_delta json rules true sub change found).0 was rest
  Ready-other sub change found rest was other (m, l) = (
    λ e. member ∙ m e,
    λ t. rw (calculate_delta-filter json rules sub change found) (member ∙ l (rw other t)),
  )
    where
      member :
          has id (calculate_delta json rules true sub change found).0.doc_ids ≡ has id sub.doc_ids
      member = rw (calculate_delta-exact json rules sub change found id, other) refl

  process-Ready :
      (sub : Live V) (was : Bool) (changes : List (Change × Found V))
      → history id (some was) changes ≡ some (there now)
      → ReadsLast id now changes
      → Ready sub was changes
      → has id (process json rules true sub changes).doc_ids
        ≡ in_result json rules (process json rules true sub changes).filter now
  unfolding process
  process-Ready sub was [] h r (m, l) = l refl
  process-Ready sub was ((change, found) ∷ rest) h (r, rs) (m, l) =
      let after = (calculate_delta json rules true sub change found).0 in
      elim (Bool-cases (str_eq change.doc_id id)) [
        | inl same ↦
            let (was', h', ready) =
              Ready-touched sub change found rest change.operation was refl
                ((eq_iff change.doc_id id).0 same) (r same).0 (r same).1 (rw same at h) m in
            process-Ready after was' rest h' rs ready
        | inr other ↦
            process-Ready after was rest (rw other at h) rs
              (Ready-other sub change found rest was other (m, l))
      ]

  process-filter :
      (sub : Live V) (changes : List (Change × Found V))
      → (process json rules true sub changes).filter ≡ sub.filter
  unfolding process
  process-filter sub [] = refl
  process-filter sub ((change, found) ∷ rest) =
      process-filter (calculate_delta json rules true sub change found).0 rest
      ∙ calculate_delta-filter json rules sub change found

  -- Let a subscription be right about a document: it has the id exactly if the document was there,
  -- matches the filter and may be read. If the changes of that document follow on each other from
  -- the state it was in to the state it is in now, no read of it fails, and its last change reads
  -- the state of now (which is the one before, if it has no change), then after all changes, its
  -- own and other documents', the subscription is right about it again.
  pub process-settled :
      (sub : Live V) (before : Found V) (changes : List (Change × Found V))
      → has id sub.doc_ids ≡ in_result json rules sub.filter before
      → history id (some (there before)) changes ≡ some (there now)
      → ReadsLast id now changes
      → (touched id changes ≡ false → before ≡ now)
      → has id (process json rules true sub changes).doc_ids ≡ in_result json rules sub.filter now
  process-settled sub before changes right h r same =
      process-Ready sub (there before) changes h r
        (λ e. right ∙ absent json rules sub.filter before e, λ t. rw (same t) at right)
      ∙ ap (λ filter. in_result json rules filter now) (process-filter sub changes)
