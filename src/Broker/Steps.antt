-- ===== src/Broker/Steps.antt =====
-- The broker's three records of a subscription, under each of its operations.
use alyx.Prelude.{
  ◌≤◌, ◌≡◌, subst, String, some, [], ◌∷◌, inl, inr, Bool-cases, Option-cases, str_eq, eq_iff,
  length,
}
use alyx.Map.{GoMap, lookup, insert, delete}
use alyx.Map.Laws.{lookup-insert, lookup-delete}
use alyx.Map.All.{AllValues, AllValues-insert, AllValues-delete, AllValues-map, AllValues-lookup}
use alyx.Subscriptions.{Subscription}
use alyx.Broker.{
  Broker, max_subscriptions, drop_subscription, drop_all, unregister_found, unregister_client,
}
use alyx.Broker.Index.{Matches, Agrees, remove-Matches, delete-Agrees, some-injective}

-- A client has at most a hundred subscriptions, and no other stands under the id of one of them.
abbrev pub Known : GoMap Subscription → GoMap Subscription → Type 0
Known subs mine = AllValues (Agrees subs) mine × (length mine ≤ max_subscriptions)

abbrev pub Keyed : GoMap Subscription → Type 0
Keyed subs = (i : String) (sub : Subscription) → lookup i subs ≡ some sub → sub.id ≡ i

abbrev pub IsConsistent : Broker → Type 0
IsConsistent b =
    Matches b.index b.subscriptions
    × Keyed b.subscriptions
    × AllValues (Known b.subscriptions) b.clients

pub delete-Keyed : (id : String) (subs : GoMap Subscription) → Keyed subs → Keyed (delete id subs)
delete-Keyed id subs k i sub h = elim (Bool-cases (str_eq id i)) [
  | inl same ↦ let h' = rw (lookup-delete id i subs, same) at h in absurd (cc)
  | inr other ↦ k i sub (rw (lookup-delete id i subs, other) at h)
]

pub insert-Keyed :
    (new : Subscription) (subs : GoMap Subscription) → Keyed subs → Keyed (insert new.id new subs)
insert-Keyed new subs k i sub h = elim (Bool-cases (str_eq new.id i)) [
  | inl same ↦
      let h' = rw (lookup-insert new.id i new subs, same) at h in
      let e = (eq_iff new.id i).0 same in
      subst {A = Subscription} (λ s. s.id ≡ i) (some-injective new sub h') e
  | inr other ↦ k i sub (rw (lookup-insert new.id i new subs, other) at h)
]

pub delete-Known :
    (id : String) (subs mine : GoMap Subscription) → Known subs mine → Known (delete id subs) mine
delete-Known id subs mine (h, l) =
    (AllValues-map (Agrees subs) (Agrees (delete id subs)) mine (delete-Agrees subs id) h, l)

pub put-IsConsistent :
    (b : Broker) (client : String) (mine : GoMap Subscription)
    → Known b.subscriptions mine
    → IsConsistent b
    → IsConsistent (record b { clients = insert client mine b.clients })
put-IsConsistent b client mine k (m, d, c) =
    (m, d, AllValues-insert (Known b.subscriptions) client mine b.clients k c)

pub drop_subscription-IsConsistent :
    (b : Broker) (sub : Subscription)
    → Agrees b.subscriptions sub
    → IsConsistent b
    → IsConsistent (drop_subscription b sub)
unfolding drop_subscription
drop_subscription-IsConsistent b sub a (m, d, c) = (
  remove-Matches b.index b.subscriptions sub a m,
  delete-Keyed sub.id b.subscriptions d,
  AllValues-map (Known b.subscriptions) (Known (delete sub.id b.subscriptions)) b.clients
      (delete-Known sub.id b.subscriptions) c,
)

drop_all-IsConsistent :
    (b : Broker) (mine : GoMap Subscription)
    → AllValues (Agrees b.subscriptions) mine
    → IsConsistent b
    → IsConsistent (drop_all b mine)
unfolding drop_all drop_subscription
drop_all-IsConsistent b [] a c = c
drop_all-IsConsistent b ((id, sub) ∷ rest) (a, as') c =
    drop_all-IsConsistent (drop_subscription b sub) rest
      (AllValues-map (Agrees b.subscriptions) (Agrees (delete sub.id b.subscriptions)) rest
        (delete-Agrees b.subscriptions sub.id) as')
      (drop_subscription-IsConsistent b sub a c)

pub unregister_client-IsConsistent :
    (b : Broker) (client : String) → IsConsistent b → IsConsistent (unregister_client b client)
unfolding unregister_client unregister_found
unregister_client-IsConsistent b client (m, d, c) = elim (Option-cases (lookup client b.clients)) [
  | inl missing ↦ rw missing (m, d, c)
  | inr (mine, found) ↦
      let known = AllValues-lookup (Known b.subscriptions) client mine b.clients found c in
      let (m', d', c') = drop_all-IsConsistent b mine known.0 (m, d, c) in
      rw found (m', d', AllValues-delete _ client (drop_all b mine).clients c')
]
