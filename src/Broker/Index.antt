-- ===== src/Broker/Index.antt =====
-- The index against the subscriptions by id.
use alyx.Prelude.{
  ◌≡◌, refl, ◌∙◌, String, false, Option, none, some, inl, inr, Bool-cases, Option-cases,
  if◌then◌else◌, str_eq, eq_iff,
}
use alyx.Map.{GoMap, lookup, insert, delete}
use alyx.Map.Laws.{lookup-insert, lookup-delete}
use alyx.Subscriptions.{Subscription, SubscriptionIndex, add, remove}
use alyx.Subscriptions.Find.{find, find-add, find-remove}

-- A subscription, if its collection is this one.
abbrev pub at : String → Option Subscription → Option Subscription
at collection none = none
at collection (some sub) = if str_eq sub.collection collection then some sub else none

-- The index finds in a collection the subscriptions that stand under their ids and have it.
abbrev pub Matches : SubscriptionIndex → GoMap Subscription → Type 0
Matches idx subs = (c i : String) → find idx c i ≡ at c (lookup i subs)

abbrev pub Agrees : GoMap Subscription → Subscription → Type 0
Agrees subs sub =
    (other : Subscription) → lookup sub.id subs ≡ some other → other.collection ≡ sub.collection

pub add-Matches :
    (idx : SubscriptionIndex) (subs : GoMap Subscription) (sub : Subscription)
    → lookup sub.id subs ≡ none
    → Matches idx subs
    → Matches (add idx sub) (insert sub.id sub subs)
add-Matches idx subs sub new m c i =
    find-add idx sub c i
    ∙ rw (lookup-insert, m c i)
        (elim (Bool-cases (str_eq sub.id i)) [
          | inl same ↦
              let new' = rw ((eq_iff sub.id i).0 same) at new in
              rw (same, new')
                (elim (Bool-cases (str_eq sub.collection c)) [
                  | inl here ↦ rw here refl
                  | inr there ↦ rw there refl
                ])
          | inr other ↦ rw other (elim (Bool-cases (str_eq sub.collection c)) [
            | inl here ↦ rw here refl
            | inr there ↦ rw there refl
          ])
        ])

-- Nothing stands in a collection under the id of a subscription of another one.
at-other :
    (subs : GoMap Subscription) (sub : Subscription) (c : String)
    → Agrees subs sub
    → str_eq sub.collection c ≡ false
    → at c (lookup sub.id subs) ≡ none
at-other subs sub c a there = elim (Option-cases (lookup sub.id subs)) [
  | inl missing ↦ rw missing refl
  | inr (found, e) ↦ rw (e, a found e, there) refl
]

pub remove-Matches :
    (idx : SubscriptionIndex) (subs : GoMap Subscription) (sub : Subscription)
    → Agrees subs sub
    → Matches idx subs
    → Matches (remove idx sub) (delete sub.id subs)
remove-Matches idx subs sub a m c i =
    find-remove idx sub c i
    ∙ rw (lookup-delete, m c i)
        (elim (Bool-cases (str_eq sub.id i)) [
          | inl same ↦ rw same (elim (Bool-cases (str_eq sub.collection c)) [
            | inl here ↦ rw here refl
            | inr there ↦
                let gone = rw ((eq_iff sub.id i).0 same) at (at-other subs sub c a there) in
                rw there gone
          ])
          | inr other ↦ rw other (elim (Bool-cases (str_eq sub.collection c)) [
            | inl here ↦ rw here refl
            | inr there ↦ rw there refl
          ])
        ])

pub delete-Agrees :
    (subs : GoMap Subscription) (id : String) (sub : Subscription)
    → Agrees subs sub
    → Agrees (delete id subs) sub
delete-Agrees subs id sub a other h = elim (Bool-cases (str_eq id sub.id)) [
  | inl same ↦ let h' = rw (lookup-delete id sub.id subs, same) at h in absurd (cc)
  | inr differs ↦ a other (rw (lookup-delete id sub.id subs, differs) at h)
]

pub insert-Agrees :
    (subs : GoMap Subscription) (new sub : Subscription)
    → str_eq new.id sub.id ≡ false
    → Agrees subs sub
    → Agrees (insert new.id new subs) sub
insert-Agrees subs new sub differs a other h =
    a other (rw (lookup-insert new.id sub.id new subs, differs) at h)

pub some-injective : (a b : Subscription) → some a ≡ some b → a ≡ b
some-injective a b h = cc
