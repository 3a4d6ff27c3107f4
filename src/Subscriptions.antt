-- ===== src/Subscriptions.antt =====
-- internal/realtime/index.go, and the subscriptions of types.go: which subscriptions a change of a
-- collection may concern. The filter, the auth context and the document ids of a subscription are
-- left out (Deltas has them): neither the index nor `new_subscription` reads them.
pub mod Find
pub mod Count
mod Tests
use alyx.Prelude.{
  ℕ, suc, ◌+◌, String, Bool, true, false, Option, none, some, List, [], ◌∷◌, ◌==◌, if◌then◌else◌,
  length, str_eq,
}
use alyx.Prelude.Int.{ℤ, pos, negsuc, lt_int, le_int}
use alyx.Map.{GoMap, lookup, insert, delete}

pub data SubscriptionState : Type 0 where
  active paused canceled : SubscriptionState

pub record Subscription : Type 0 where
  pub id : String
  pub client_id : String
  pub collection : String
  pub sort : List String
  pub limit : ℤ
  pub expand : List String
  pub state : SubscriptionState
  pub created_at : ℕ

pub record SubscribePayload : Type 0 where
  pub collection : String
  pub sort : List String
  pub limit : ℤ
  pub expand : List String

abbrev pub clamp_limit : ℤ → ℤ
clamp_limit limit =
    let limit' = if le_int limit (pos 0) then pos 100 else limit in
    if lt_int (pos 1000) limit' then pos 1000 else limit'

-- The id is set by the caller afterwards.
unfoldable pub new_subscription : String → SubscribePayload → ℕ → Subscription
new_subscription client_id payload now = record {
  id = "";
  client_id = client_id;
  collection = payload.collection;
  sort = payload.sort;
  limit = clamp_limit payload.limit;
  expand = payload.expand;
  state = active;
  created_at = now;
}

unfoldable pub matches_change : Subscription → String → Bool
matches_change s collection = str_eq s.collection collection

-- byCollection
abbrev pub SubscriptionIndex : Type 0
SubscriptionIndex = GoMap (GoMap Subscription)

unfoldable pub new : SubscriptionIndex
new = []

-- idx.byCollection[c], where a nil map reads as an empty one.
abbrev pub or_nil : Option (GoMap Subscription) → GoMap Subscription
or_nil none = []
or_nil (some subs) = subs

unfoldable pub add : SubscriptionIndex → Subscription → SubscriptionIndex
add idx sub = insert sub.collection (insert sub.id sub (or_nil (lookup sub.collection idx))) idx

unfoldable pub remove_found :
    SubscriptionIndex → Subscription → Option (GoMap Subscription) → SubscriptionIndex
remove_found idx sub none = idx
remove_found idx sub (some subs) =
    let left = delete sub.id subs in
    if length left == 0 then delete sub.collection idx else insert sub.collection left idx

unfoldable pub remove : SubscriptionIndex → Subscription → SubscriptionIndex
unfolding remove_found
remove idx sub = remove_found idx sub (lookup sub.collection idx)

abbrev pub values : GoMap Subscription → List Subscription
values [] = []
values ((key, sub) ∷ rest) = sub ∷ values rest

unfoldable pub get_candidates : SubscriptionIndex → String → List Subscription
get_candidates idx collection = values (or_nil (lookup collection idx))

unfoldable pub count : SubscriptionIndex → ℕ
count [] = 0
count ((collection, subs) ∷ rest) = length subs + count rest

abbrev pub size_of : Option (GoMap Subscription) → ℕ
size_of none = 0
size_of (some subs) = length subs

unfoldable pub collection_count : SubscriptionIndex → String → ℕ
collection_count idx collection = size_of (lookup collection idx)

pub data Event : Type 0 where
  added : Subscription → Event
  removed : Subscription → Event

unfoldable pub step : SubscriptionIndex → Event → SubscriptionIndex
step idx (added sub) = add idx sub
step idx (removed sub) = remove idx sub

unfoldable pub run : SubscriptionIndex → List Event → SubscriptionIndex
run idx [] = idx
run idx (e ∷ es) = run (step idx e) es
