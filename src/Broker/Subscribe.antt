-- ===== src/Broker/Subscribe.antt =====
-- Subscribing, with the ways in which it fails.
use alyx.Prelude.{
  ◌≡◌, refl, String, Bool, true, false, none, inl, inr, Bool-cases, str_eq, eq_refl, arith, length,
  leb,
}
use alyx.Map.{GoMap, lookup, insert, delete}
use alyx.Map.Laws.{lookup-insert, length-insert}
use alyx.Map.All.{AllValues, AllValues-insert, AllValues-map2}
use alyx.Subscriptions.{Subscription, add}
use alyx.Broker.{
  Broker, max_subscriptions, drop_subscription, add_subscription, subscribe_added,
  subscribe_limited, subscribe,
}
use alyx.Broker.Index.{Agrees, add-Matches, insert-Agrees}
use alyx.Broker.Steps.{
  Known, IsConsistent, insert-Keyed, delete-Known, put-IsConsistent, drop_subscription-IsConsistent,
}
use alyx.Broker.Unsubscribe.{self-Agrees, delete-own}

-- uuid.New returns an id that no subscription of the broker or of a client has.
abbrev pub IsNewId : Broker → Subscription → Type 0
IsNewId b sub =
    (lookup sub.id b.subscriptions ≡ none)
    × AllValues (AllValues (λ other. str_eq sub.id other.id ≡ false)) b.clients

insert-Known :
    (subs : GoMap Subscription) (sub : Subscription) (mine : GoMap Subscription)
    → Known subs mine
    → AllValues (λ other. str_eq sub.id other.id ≡ false) mine
    → Known (insert sub.id sub subs) mine
insert-Known subs sub mine (h, l) n = (
  AllValues-map2 (Agrees subs) (λ other. str_eq sub.id other.id ≡ false)
      (Agrees (insert sub.id sub subs)) mine (λ other a d. insert-Agrees subs sub other d a) h n,
  l,
)

add-own :
    (subs mine : GoMap Subscription) (sub : Subscription)
    → leb max_subscriptions (length mine) ≡ false
    → Known (insert sub.id sub subs) mine
    → Known (insert sub.id sub subs) (insert sub.id sub mine)
add-own subs mine sub few (h, l) = (
  AllValues-insert (Agrees (insert sub.id sub subs)) sub.id sub mine
      (self-Agrees (insert sub.id sub subs) sub.id sub
        (rw (lookup-insert sub.id sub.id sub subs, eq_refl sub.id) refl) refl)
      h,
  ground (arith, length-insert sub.id sub mine),
)

-- With the subscription in all three places.
abbrev with_subscription : Broker → String → GoMap Subscription → Subscription → Broker
with_subscription b client mine sub = record b {
  clients = insert client mine b.clients;
  subscriptions = insert sub.id sub b.subscriptions;
  index = add b.index sub;
}

with_subscription-IsConsistent :
    (b : Broker) (client : String) (mine : GoMap Subscription) (sub : Subscription)
    → IsNewId b sub
    → Known (insert sub.id sub b.subscriptions) mine
    → IsConsistent b
    → IsConsistent (with_subscription b client mine sub)
with_subscription-IsConsistent b client mine sub (n, ns) k (m, d, c) = (
  add-Matches b.index b.subscriptions sub n m,
  insert-Keyed sub b.subscriptions d,
  AllValues-insert (Known (insert sub.id sub b.subscriptions)) client mine b.clients k (
      AllValues-map2 (Known b.subscriptions) (AllValues (λ other. str_eq sub.id other.id ≡ false))
        (Known (insert sub.id sub b.subscriptions)) b.clients (insert-Known b.subscriptions sub) c
        ns),
)

subscribe_added-IsConsistent :
    (b : Broker) (client : String) (mine : GoMap Subscription) (sub : Subscription) (found : Bool)
    → IsNewId b sub
    → Known (insert sub.id sub b.subscriptions) mine
    → IsConsistent b
    → IsConsistent (subscribe_added b client mine sub found).0
unfolding subscribe_added drop_subscription
subscribe_added-IsConsistent b client mine sub true n k c =
    with_subscription-IsConsistent b client mine sub n k c
subscribe_added-IsConsistent b client mine sub false n k c =
    let subs = insert sub.id sub b.subscriptions in
    let both = with_subscription b client mine sub in
    put-IsConsistent (drop_subscription both sub) client (delete sub.id mine)
      (delete-own (delete sub.id subs) mine sub.id (delete-Known sub.id subs mine k))
      (drop_subscription-IsConsistent both sub
        (self-Agrees subs sub.id sub
          (rw (lookup-insert sub.id sub.id sub b.subscriptions, eq_refl sub.id) refl) refl)
        (with_subscription-IsConsistent b client mine sub n k c))

pub subscribe-IsConsistent :
    (b : Broker) (client : String) (mine : GoMap Subscription) (sub : Subscription)
    (known found : Bool)
    → IsNewId b sub
    → AllValues (λ other. str_eq sub.id other.id ≡ false) mine
    → Known b.subscriptions mine
    → IsConsistent b
    → IsConsistent (subscribe b client mine sub known found).0
unfolding subscribe subscribe_limited add_subscription
subscribe-IsConsistent b client mine sub false found n own k c = c
subscribe-IsConsistent b client mine sub true found n own k c =
    elim (Bool-cases (leb max_subscriptions (length mine))) [
      | inl full ↦ rw full c
      | inr few ↦ rw few (
          subscribe_added-IsConsistent b client (insert sub.id sub mine) sub found n
            (add-own b.subscriptions mine sub few (insert-Known b.subscriptions sub mine k own)) c)
    ]
