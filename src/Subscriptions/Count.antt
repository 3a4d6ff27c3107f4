-- ===== src/Subscriptions/Count.antt =====
-- The index keeps no empty map, and how each operation changes its counts.
use alyx.Prelude.{
  ℕ, suc, ◌+◌, ◌<◌, ◌≡◌, refl, String, false, ◌==◌, Option, none, some, List, [], ◌∷◌, arith, inl,
  inr, Bool-cases, Option-cases, if◌then◌else◌, length, str_eq,
}
use alyx.Map.{GoMap, lookup, insert, delete, IsMap}
use alyx.Map.Laws.{lookup-insert, lookup-delete, insert-IsMap, delete-IsMap, length-insert, is_some}
use alyx.Map.Total.{total, total-insert, total-delete, weigh}
use alyx.Subscriptions.{
  Subscription, SubscriptionIndex, Event, added, removed, or_nil, new, add, remove, remove_found,
  step, run, count,
}
use alyx.Subscriptions.Find.{find}

abbrev pub Holds : Option (GoMap Subscription) → Type 0
Holds none = Unit
Holds (some subs) = IsMap subs × (0 < length subs)

-- The names are distinct, within a collection the ids are, and no collection is kept that has no
-- subscription.
abbrev pub IsIndex : SubscriptionIndex → Type 0
IsIndex idx = IsMap idx × ((c : String) → Holds (lookup c idx))

Holds-or_nil : (found : Option (GoMap Subscription)) → Holds found → IsMap (or_nil found)
Holds-or_nil none h = tt
Holds-or_nil (some subs) h = h.0

length-insert_pos :
    (k : String) (v : Subscription) (m : GoMap Subscription) → 0 < length (insert k v m)
unfolding insert
length-insert_pos k v [] = omega arith
length-insert_pos k v ((j, w) ∷ m) = ground arith

add-IsIndex : (idx : SubscriptionIndex) (sub : Subscription) → IsIndex idx → IsIndex (add idx sub)
unfolding add
add-IsIndex idx sub (d, h) = (
  insert-IsMap sub.collection _ idx d,
  λ c. rw lookup-insert (elim (Bool-cases (str_eq sub.collection c)) [
    | inl same ↦ rw same (
      insert-IsMap sub.id sub _ (Holds-or_nil _ (h sub.collection)),
      length-insert_pos sub.id sub (or_nil (lookup sub.collection idx)),
    )
    | inr other ↦ rw other (h c)
  ]),
)

left-Holds :
    (subs : GoMap Subscription) (id : String)
    → IsMap subs
    → (length (delete id subs) == 0) ≡ false
    → Holds (some (delete id subs))
left-Holds subs id d full = (delete-IsMap id subs d, ground arith)

remove_found-IsIndex :
    (idx : SubscriptionIndex) (sub : Subscription) (found : Option (GoMap Subscription))
    → IsIndex idx
    → Holds found
    → IsIndex (remove_found idx sub found)
unfolding remove_found
remove_found-IsIndex idx sub none h l = h
remove_found-IsIndex idx sub (some subs) (d, h) l =
    elim (Bool-cases (length (delete sub.id subs) == 0)) [
      | inl empty ↦ rw empty (
        delete-IsMap sub.collection idx d,
        λ c. rw lookup-delete (elim (Bool-cases (str_eq sub.collection c)) [
          | inl same ↦ rw same tt
          | inr other ↦ rw other (h c)
        ]),
      )
      | inr full ↦ rw full (
        insert-IsMap sub.collection _ idx d,
        λ c. rw lookup-insert (elim (Bool-cases (str_eq sub.collection c)) [
          | inl same ↦ rw same (left-Holds subs sub.id l.0 full)
          | inr other ↦ rw other (h c)
        ]),
      )
    ]

step-IsIndex : (idx : SubscriptionIndex) (e : Event) → IsIndex idx → IsIndex (step idx e)
unfolding step remove
step-IsIndex idx (added sub) h = add-IsIndex idx sub h
step-IsIndex idx (removed sub) h =
    remove_found-IsIndex idx sub (lookup sub.collection idx) h (h.1 sub.collection)

-- In every index that additions and removals lead to from a well-formed one, the names are
-- distinct, the ids within a collection are, and no collection is kept that has no subscription.
pub run-IsIndex : (idx : SubscriptionIndex) (es : List Event) → IsIndex idx → IsIndex (run idx es)
unfolding run
run-IsIndex idx [] h = h
run-IsIndex idx (e ∷ es) h = run-IsIndex (step idx e) es (step-IsIndex idx e h)

pub new-IsIndex : IsIndex new
unfolding new lookup
new-IsIndex = (tt, λ c. tt)

count-total : (idx : SubscriptionIndex) → count idx ≡ total length idx
unfolding count
count-total [] = refl
count-total ((c, subs) ∷ idx) = rw (count-total idx) refl

abbrev one : Subscription → ℕ
one sub = 1

total-length : (subs : GoMap Subscription) → total one subs ≡ length subs
total-length [] = refl
total-length ((k, s) ∷ subs) = omega (arith, total-length subs)

weigh-one : (found : Option Subscription) → weigh one found ≡ (if is_some found then 1 else 0)
weigh-one none = refl
weigh-one (some s) = refl

weigh-length : (found : Option (GoMap Subscription)) → weigh length found ≡ length (or_nil found)
weigh-length none = refl
weigh-length (some subs) = refl

abbrev pub key_of : Event → Subscription
key_of (added sub) = sub
key_of (removed sub) = sub

abbrev pub is_addition : Event → ℕ
is_addition (added sub) = 1
is_addition (removed sub) = 0

count-add :
    (idx : SubscriptionIndex) (sub : Subscription)
    → count (add idx sub) + (if is_some (find idx sub.collection sub.id) then 1 else 0)
      ≡ suc (count idx)
unfolding add
count-add idx sub =
    let subs = or_nil (lookup sub.collection idx) in
    let sum = total-insert length sub.collection (insert sub.id sub subs) idx in
    let sum' =
      rw (weigh-length (lookup sub.collection idx), length-insert sub.id sub subs) at sum in
    rw (count-total (insert sub.collection (insert sub.id sub subs) idx), count-total idx)
      (ground (arith, sum'))

count-remove_found :
    (idx : SubscriptionIndex) (sub : Subscription) (subs : GoMap Subscription)
    → IsMap idx
    → IsMap subs
    → lookup sub.collection idx ≡ some subs
    → count (remove_found idx sub (some subs)) + length subs
      ≡ count idx + length (delete sub.id subs)
unfolding remove_found
count-remove_found idx sub subs d d' found = elim (Bool-cases (length (delete sub.id subs) == 0)) [
  | inl empty ↦
      let sum = rw found at (total-delete length sub.collection idx d) in
      rw (empty, count-total (delete sub.collection idx), count-total idx) (ground (arith, sum))
  | inr full ↦
      let sum = rw found at (total-insert length sub.collection (delete sub.id subs) idx) in
      rw (full, count-total (insert sub.collection (delete sub.id subs) idx), count-total idx)
        (omega (arith, sum))
]

missing_count :
    (idx : SubscriptionIndex) (sub : Subscription)
    → count (remove_found idx sub none) + (if is_some (lookup sub.id (or_nil none)) then 1 else 0)
      ≡ count idx
unfolding remove_found lookup
missing_count idx sub = omega arith

count-remove :
    (idx : SubscriptionIndex) (sub : Subscription)
    → IsIndex idx
    → count (remove idx sub) + (if is_some (find idx sub.collection sub.id) then 1 else 0)
      ≡ count idx
unfolding remove
count-remove idx sub (d, h) = elim (Option-cases (lookup sub.collection idx)) [
  | inl missing ↦ rw missing (missing_count idx sub)
  | inr (subs, found) ↦
      let ids = rw found at (h sub.collection) in
      let sum = total-delete one sub.id subs ids.0 in
      let sum' =
        rw (total-length (delete sub.id subs), total-length subs, weigh-one (lookup sub.id subs)) at
          sum in
      rw found (omega (arith, sum', count-remove_found idx sub subs d ids.0 found))
]

-- In a well-formed index, an addition raises the total count by one, unless the collection has the
-- id already, and a removal lowers it by one, unless there is nothing under the collection and id.
pub count-step :
    (idx : SubscriptionIndex) (e : Event)
    → IsIndex idx
    → count (step idx e) + (if is_some (find idx (key_of e).collection (key_of e).id) then 1 else 0)
      ≡ count idx + is_addition e
unfolding step
count-step idx (added sub) h = omega (arith, count-add idx sub)
count-step idx (removed sub) h = omega (arith, count-remove idx sub h)
