-- ===== src/Subscriptions/Find.antt =====
-- What the index holds after a run: for each collection and id the subscription that was last
-- added and not removed since.
use alyx.Prelude.{
  ◌≡◌, refl, sym, ap, ◌∙◌, String, true, ◌&&◌, Option, none, some, List, [], ◌∷◌, arith, ◌==◌, inl,
  inr, Bool-cases, Option-cases, if◌then◌else◌, length, str_eq, eq_iff,
}
use alyx.Map.{GoMap, lookup, delete}
use alyx.Map.Laws.{lookup-insert, lookup-delete}
use alyx.Subscriptions.{
  Subscription, SubscriptionIndex, Event, added, removed, or_nil, add, remove, remove_found, step,
  run,
}

abbrev pub find : SubscriptionIndex → String → String → Option Subscription
find idx collection id = lookup id (or_nil (lookup collection idx))

-- The last event that concerns the collection and id decides.
abbrev pub after : String → String → Option Subscription → Event → Option Subscription
after collection id found (added sub) =
    if str_eq sub.collection collection && str_eq sub.id id then some sub else found
after collection id found (removed sub) =
    if str_eq sub.collection collection && str_eq sub.id id then none else found

abbrev pub latest : String → String → Option Subscription → List Event → Option Subscription
latest collection id found [] = found
latest collection id found (e ∷ es) = latest collection id (after collection id found e) es

pub find-add :
    (idx : SubscriptionIndex) (sub : Subscription) (c i : String)
    → find (add idx sub) c i ≡ after c i (find idx c i) (added sub)
unfolding add
find-add idx sub c i = elim (Bool-cases (str_eq sub.collection c)) [
  | inl same ↦ rw (lookup-insert, same, lookup-insert, (eq_iff sub.collection c).0 same) refl
  | inr other ↦ rw (lookup-insert, other) refl
]

nil_of_length : {V : Type 0} (m : GoMap V) → (length m == 0) ≡ true → m ≡ []
nil_of_length [] h = refl
nil_of_length (e ∷ m) h = absurd (ground arith)

module _ (idx : SubscriptionIndex) (sub : Subscription) (subs : GoMap Subscription)
    (c : String) where
  -- The subscriptions of a collection after a removal; an empty map is taken out of the index.
  or_nil-remove_found :
      or_nil (lookup c (remove_found idx sub (some subs)))
      ≡ (if str_eq sub.collection c then delete sub.id subs else or_nil (lookup c idx))
  unfolding remove_found
  or_nil-remove_found = elim (Bool-cases (length (delete sub.id subs) == 0)) [
    | inl empty ↦
        rw (empty, lookup-delete)
          (elim (Bool-cases (str_eq sub.collection c)) [
            | inl same ↦ rw same (sym (nil_of_length (delete sub.id subs) empty))
            | inr other ↦ rw other refl
          ])
    | inr full ↦
        rw (full, lookup-insert)
          (elim (Bool-cases (str_eq sub.collection c)) [
            | inl same ↦ rw same refl
            | inr other ↦ rw other refl
          ])
  ]

  find-remove_found :
      (i : String)
      → lookup sub.collection idx ≡ some subs
      → find (remove_found idx sub (some subs)) c i ≡ after c i (find idx c i) (removed sub)
  find-remove_found i found = rw or_nil-remove_found (elim (Bool-cases (str_eq sub.collection c)) [
    | inl same ↦
        let found' = rw ((eq_iff sub.collection c).0 same) at found in
        rw (same, found', lookup-delete) refl
    | inr other ↦ rw other refl
  ])

find_missing :
    (idx : SubscriptionIndex) (sub : Subscription) (c i : String)
    → lookup sub.collection idx ≡ none
    → find (remove_found idx sub none) c i ≡ after c i (find idx c i) (removed sub)
unfolding remove_found lookup
find_missing idx sub c i missing = elim (Bool-cases (str_eq sub.collection c)) [
  | inl same ↦
      let missing' = rw ((eq_iff sub.collection c).0 same) at missing in
      rw (same, missing') (ground arith)
  | inr other ↦ rw other refl
]

pub find-remove :
    (idx : SubscriptionIndex) (sub : Subscription) (c i : String)
    → find (remove idx sub) c i ≡ after c i (find idx c i) (removed sub)
unfolding remove
find-remove idx sub c i = elim (Option-cases (lookup sub.collection idx)) [
  | inl missing ↦ rw missing (find_missing idx sub c i missing)
  | inr (subs, found) ↦ rw found (find-remove_found idx sub subs c i found)
]

-- After any run of additions and removals the index finds, for each collection and id, the
-- subscription that was last added under them, unless it was removed since.
pub find-run :
    (idx : SubscriptionIndex) (es : List Event) (c i : String)
    → find (run idx es) c i ≡ latest c i (find idx c i) es
unfolding run step
find-run idx [] c i = refl
find-run idx (added sub ∷ es) c i =
    find-run (add idx sub) es c i ∙ ap (λ f. latest c i f es) (find-add idx sub c i)
find-run idx (removed sub ∷ es) c i =
    find-run (remove idx sub) es c i ∙ ap (λ f. latest c i f es) (find-remove idx sub c i)
