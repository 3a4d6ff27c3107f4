-- ===== src/Broker.antt =====
-- internal/realtime/broker.go and client.go: the clients and their subscriptions, which the broker
-- keeps three times: with the client, by id, and in the index by collection. A client acts while it
-- is registered; an action of any other is left out. Deltas has the documents of a subscription.
pub mod Index
pub mod Steps
pub mod Unsubscribe
pub mod Subscribe
pub mod Consistent
mod Tests
use alyx.Prelude.{
  ℕ, String, Bool, true, false, not, Option, none, some, List, [], ◌∷◌, leb, if◌then◌else◌, length,
}
use alyx.Map.{GoMap, lookup, insert, delete}
use alyx.Subscriptions.{Subscription, SubscriptionIndex}
use alyx.Subscriptions

pub record Broker : Type 0 where
  pub clients : GoMap (GoMap Subscription)
  pub subscriptions : GoMap Subscription
  pub index : SubscriptionIndex

abbrev pub new_broker : Broker
new_broker = record { clients = []; subscriptions = []; index = Subscriptions.new }

abbrev pub max_subscriptions : ℕ
max_subscriptions = 100

pub data Subscribed : Type 0 where
  collection_not_found subscription_limit query_failed snapshot : Subscribed

unfoldable pub register_client : Broker → String → Broker
register_client b client = record b { clients = insert client [] b.clients }

-- delete(b.subscriptions, sub.ID); b.index.Remove(sub)
unfoldable pub drop_subscription : Broker → Subscription → Broker
unfolding Subscriptions.remove
drop_subscription b sub = record b {
  subscriptions = delete sub.id b.subscriptions;
  index = Subscriptions.remove b.index sub;
}

unfoldable pub drop_all : Broker → GoMap Subscription → Broker
unfolding drop_subscription
drop_all b [] = b
drop_all b ((id, sub) ∷ rest) = drop_all (drop_subscription b sub) rest

unfoldable pub unregister_found : Broker → String → Option (GoMap Subscription) → Broker
unfolding drop_all
unregister_found b client none = b
unregister_found b client (some subs) =
    let after = drop_all b subs in record after { clients = delete client after.clients }

unfoldable pub unregister_client : Broker → String → Broker
unfolding unregister_found
unregister_client b client = unregister_found b client (lookup client b.clients)

-- `none` is ErrSubscriptionLimit.
unfoldable pub add_subscription : GoMap Subscription → Subscription → Option (GoMap Subscription)
add_subscription subs sub =
    if leb max_subscriptions (length subs) then none else some (insert sub.id sub subs)

-- With the subscription in all three places; `found` tells whether the query for the snapshot
-- succeeds.
unfoldable pub subscribe_added :
    Broker → String → GoMap Subscription → Subscription → Bool → Broker × Subscribed
unfolding Subscriptions.add drop_subscription
subscribe_added b client subs sub found =
    let added = record b {
      clients = insert client subs b.clients;
      subscriptions = insert sub.id sub b.subscriptions;
      index = Subscriptions.add b.index sub;
    } in
    let dropped = drop_subscription added sub in
    if found then (added, snapshot) else (
      record dropped { clients = insert client (delete sub.id subs) dropped.clients },
      query_failed,
    )

unfoldable pub subscribe_limited :
    Broker → String → Option (GoMap Subscription) → Subscription → Bool → Broker × Subscribed
unfolding subscribe_added
subscribe_limited b client none sub found = (b, subscription_limit)
subscribe_limited b client (some subs) sub found = subscribe_added b client subs sub found

-- `known` tells whether the schema has the collection.
unfoldable pub subscribe :
    Broker → String → GoMap Subscription → Subscription → Bool → Bool → Broker × Subscribed
unfolding subscribe_limited add_subscription
subscribe b client subs sub known found =
    if not known
    then (b, collection_not_found)
    else subscribe_limited b client (add_subscription subs sub) sub found

abbrev pub drop_found : Broker → String → Option Subscription → Broker
drop_found b id none = b
drop_found b id (some sub) = record b {
  subscriptions = delete id b.subscriptions;
  index = Subscriptions.remove b.index sub;
}

unfoldable pub unsubscribe : Broker → String → Broker
unfolding Subscriptions.remove
unsubscribe b id = drop_found b id (lookup id b.subscriptions)

unfoldable pub handle_unsubscribe : Broker → String → GoMap Subscription → String → Broker
unfolding unsubscribe
handle_unsubscribe b client subs id =
    let after = unsubscribe b id in
    record after { clients = insert client (delete id subs) after.clients }

unfoldable pub unsubscribe_all : Broker → GoMap Subscription → Broker
unfolding unsubscribe
unsubscribe_all b [] = b
unsubscribe_all b ((id, sub) ∷ rest) = unsubscribe_all (unsubscribe b sub.id) rest

-- Close, of a client that has these subscriptions.
unfoldable pub close : Broker → String → GoMap Subscription → Broker
unfolding unsubscribe_all
close b client subs =
    let after = unsubscribe_all b subs in record after { clients = insert client [] after.clients }

pub data Action : Type 0 where
  asks : Subscription → Bool → Bool → Action
  leaves : String → Action
  closes : Action

unfoldable pub act : Broker → String → Option (GoMap Subscription) → Action → Broker
unfolding subscribe handle_unsubscribe close
act b client none action = b
act b client (some subs) (asks sub known found) = (subscribe b client subs sub known found).0
act b client (some subs) (leaves id) = handle_unsubscribe b client subs id
act b client (some subs) closes = close b client subs

pub data Event : Type 0 where
  registered unregistered : String → Event
  acts : String → Action → Event

unfoldable pub step : Broker → Event → Broker
unfolding register_client unregister_client act
step b (registered client) = register_client b client
step b (unregistered client) = unregister_client b client
step b (acts client action) = act b client (lookup client b.clients) action

unfoldable pub run : Broker → List Event → Broker
unfolding step
run b [] = b
run b (e ∷ es) = run (step b e) es
