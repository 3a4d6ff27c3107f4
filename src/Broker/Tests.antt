-- ===== src/Broker/Tests.antt =====
-- Two clients, and the invariant at their run.
use alyx.Prelude.{◌≡◌, refl, String, true, false, List, [], ◌∷◌}
use alyx.Prelude.Int.{pos}
use alyx.Map.{lookup, insert, delete}
use alyx.Subscriptions.{Subscription, active, add, remove, remove_found, new, count}
use alyx.Broker.{
  new_broker, Event, registered, acts, asks, leaves, run, register_client, act, step, subscribe,
  subscribe_limited, subscribe_added, add_subscription, drop_subscription, handle_unsubscribe,
  unsubscribe,
}
use alyx.Broker.Steps.{IsConsistent}
use alyx.Broker.Consistent.{run-IsConsistent}

abbrev posts : String → Subscription
posts id = record {
  id = id;
  client_id = "c1";
  collection = "posts";
  sort = [];
  limit = pos 100;
  expand = [];
  state = active;
  created_at = 0;
}

abbrev events : List Event
events =
    registered "c1"
    ∷ acts "c1" (asks (posts "s1") true true)
    ∷ acts "c1" (asks (posts "s2") true false)
    ∷ []

-- The second query fails, so that one subscription is left.
one_left : count (run new_broker events).index ≡ 1
unfolding run step act register_client subscribe subscribe_limited subscribe_added add_subscription
    drop_subscription add remove remove_found lookup insert delete count new
one_left = refl

-- Another client ends the subscription of the first: its owner is not asked for.
foreign_leave :
    count
      (run new_broker (
        registered "c1"
        ∷ registered "c2"
        ∷ acts "c1" (asks (posts "s1") true true)
        ∷ acts "c2" (leaves "s1")
        ∷ [])).index
    ≡ 0
unfolding run step act register_client subscribe subscribe_limited subscribe_added add_subscription
    drop_subscription handle_unsubscribe unsubscribe add remove remove_found lookup insert delete
    count new
foreign_leave = refl

run-IsConsistent_example : IsConsistent (run new_broker events)
unfolding run step act register_client subscribe subscribe_limited subscribe_added add_subscription
    drop_subscription add remove remove_found lookup insert delete new
run-IsConsistent_example =
    run-IsConsistent new_broker events (tt, ((refl, ((tt, tt))), ((refl, (((refl, tt), tt))), tt)))
      ((λ c i. refl), (λ i sub h. absurd (cc)), tt)
