-- ===== src/Broker/Consistent.antt =====
-- The broker's records agree after any run.
use alyx.Prelude.{◌≡◌, String, false, some, List, [], ◌∷◌, inl, inr, Option-cases, str_eq, arith}
use alyx.Map.{GoMap, lookup}
use alyx.Map.All.{AllValues, AllValues-lookup}
use alyx.Subscriptions.{Subscription}
use alyx.Broker.{
  Broker, register_client, Action, asks, leaves, closes, act, Event, registered, unregistered, acts,
  step, run,
}
use alyx.Broker.Steps.{Known, IsConsistent, put-IsConsistent, unregister_client-IsConsistent}
use alyx.Broker.Unsubscribe.{handle_unsubscribe-IsConsistent, close-IsConsistent}
use alyx.Broker.Subscribe.{IsNewId, subscribe-IsConsistent}

-- The ids that subscribers come with are new.
abbrev pub NewAction : Broker → Action → Type 0
NewAction b (asks sub known found) = IsNewId b sub
NewAction b (leaves id) = Unit
NewAction b closes = Unit

abbrev pub NewEvent : Broker → Event → Type 0
NewEvent b (registered client) = Unit
NewEvent b (unregistered client) = Unit
NewEvent b (acts client action) = NewAction b action

abbrev pub NewEvents : Broker → List Event → Type 0
NewEvents b [] = Unit
NewEvents b (e ∷ es) = NewEvent b e × NewEvents (step b e) es

act-IsConsistent :
    (b : Broker) (client : String) (action : Action)
    → NewAction b action
    → IsConsistent b
    → IsConsistent (act b client (lookup client b.clients) action)
unfolding act
act-IsConsistent b client action n (m, d, c) = elim (Option-cases (lookup client b.clients)) [
  | inl missing ↦ rw missing (m, d, c)
  | inr (mine, found) ↦ rw found (by_action mine found action n)
]
  where
    by_action :
        (mine : GoMap Subscription)
        → lookup client b.clients ≡ some mine
        → (action : Action) → NewAction b action
        → IsConsistent (act b client (some mine) action)
    by_action mine e (asks sub known found) n =
        subscribe-IsConsistent b client mine sub known found n
          (AllValues-lookup (AllValues (λ other. str_eq sub.id other.id ≡ false)) client mine
            b.clients e n.1)
          (AllValues-lookup (Known b.subscriptions) client mine b.clients e c) (m, d, c)
    by_action mine e (leaves id) n =
        handle_unsubscribe-IsConsistent b client mine id
          (AllValues-lookup (Known b.subscriptions) client mine b.clients e c) (m, d, c)
    by_action mine e closes n = close-IsConsistent b client mine (m, d, c)

step-IsConsistent :
    (b : Broker) (e : Event) → NewEvent b e → IsConsistent b → IsConsistent (step b e)
unfolding step register_client
step-IsConsistent b (registered client) n c = put-IsConsistent b client [] (tt, omega arith) c
step-IsConsistent b (unregistered client) n c = unregister_client-IsConsistent b client c
step-IsConsistent b (acts client action) n c = act-IsConsistent b client action n c

-- If the ids of the subscriptions are new when they are asked for, then after any run of clients
-- that come, subscribe (with or without success), unsubscribe, close and go: the index finds in a
-- collection exactly the subscriptions of the broker that have that collection, each stands under
-- its own id, no client has more than a hundred, and none has one whose id another collection has.
pub run-IsConsistent :
    (b : Broker) (es : List Event) → NewEvents b es → IsConsistent b → IsConsistent (run b es)
unfolding run
run-IsConsistent b [] n c = c
run-IsConsistent b (e ∷ es) (n, ns) c =
    run-IsConsistent (step b e) es ns (step-IsConsistent b e n c)
