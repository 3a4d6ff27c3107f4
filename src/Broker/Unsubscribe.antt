-- ===== src/Broker/Unsubscribe.antt =====
-- Unsubscribing, and closing a client.
use alyx.Prelude.{
  ◌≡◌, refl, sym, ap, ◌∙◌, subst, String, none, some, [], ◌∷◌, inl, inr, Option-cases, arith,
}
use alyx.Map.{GoMap, lookup, delete}
use alyx.Map.All.{AllValues-delete, length-delete-le}
use alyx.Subscriptions.{Subscription}
use alyx.Broker.{Broker, drop_subscription, unsubscribe, handle_unsubscribe, unsubscribe_all, close}
use alyx.Broker.Index.{Agrees, some-injective}
use alyx.Broker.Steps.{
  Known, IsConsistent, delete-Known, put-IsConsistent, drop_subscription-IsConsistent,
}

pub self-Agrees :
    (subs : GoMap Subscription) (id : String) (sub : Subscription)
    → lookup id subs ≡ some sub
    → sub.id ≡ id
    → Agrees subs sub
self-Agrees subs id sub found e other h =
    ap {A = Subscription} (λ s. s.collection)
      (some-injective other sub (sym h ∙ ap (λ i. lookup i subs) e ∙ found))

unsubscribe-drop :
    (b : Broker) (id : String) (sub : Subscription)
    → sub.id ≡ id
    → lookup id b.subscriptions ≡ some sub
    → unsubscribe b id ≡ drop_subscription b sub
unfolding unsubscribe drop_subscription
unsubscribe-drop b id sub e found = rw (found, e) refl

-- What an operation on the subscriptions keeps: they agree with those of every client.
unsubscribe-IsConsistent :
    (b : Broker) (id : String) → IsConsistent b → IsConsistent (unsubscribe b id)
unfolding unsubscribe
unsubscribe-IsConsistent b id (m, d, c) = elim (Option-cases (lookup id b.subscriptions)) [
  | inl missing ↦ subst IsConsistent (sym (unchanged missing)) (m, d, c)
  | inr (sub, found) ↦ subst IsConsistent (sym (unsubscribe-drop b id sub (d id sub found) found)) (
      drop_subscription-IsConsistent b sub
        (self-Agrees b.subscriptions id sub found (d id sub found)) (m, d, c))
]
  where
    unchanged : lookup id b.subscriptions ≡ none → unsubscribe b id ≡ b
    unchanged missing = rw missing refl

unsubscribe-Known :
    (b : Broker) (id : String) (mine : GoMap Subscription)
    → Known b.subscriptions mine
    → Known (unsubscribe b id).subscriptions mine
unfolding unsubscribe
unsubscribe-Known b id mine k = elim (Option-cases (lookup id b.subscriptions)) [
  | inl missing ↦ rw missing k
  | inr (sub, found) ↦ rw found (delete-Known id b.subscriptions mine k)
]

pub delete-own :
    (subs mine : GoMap Subscription) (id : String) → Known subs mine → Known subs (delete id mine)
delete-own subs mine id (h, l) =
    (AllValues-delete (Agrees subs) id mine h, omega (arith, l, length-delete-le id mine))

pub handle_unsubscribe-IsConsistent :
    (b : Broker) (client : String) (mine : GoMap Subscription) (id : String)
    → Known b.subscriptions mine
    → IsConsistent b
    → IsConsistent (handle_unsubscribe b client mine id)
unfolding handle_unsubscribe
handle_unsubscribe-IsConsistent b client mine id k c =
    put-IsConsistent (unsubscribe b id) client (delete id mine)
      (delete-own (unsubscribe b id).subscriptions mine id (unsubscribe-Known b id mine k))
      (unsubscribe-IsConsistent b id c)

unsubscribe_all-IsConsistent :
    (b : Broker) (mine : GoMap Subscription)
    → IsConsistent b
    → IsConsistent (unsubscribe_all b mine)
unfolding unsubscribe_all
unsubscribe_all-IsConsistent b [] c = c
unsubscribe_all-IsConsistent b ((id, sub) ∷ rest) c =
    unsubscribe_all-IsConsistent (unsubscribe b sub.id) rest (unsubscribe-IsConsistent b sub.id c)

pub close-IsConsistent :
    (b : Broker) (client : String) (mine : GoMap Subscription)
    → IsConsistent b
    → IsConsistent (close b client mine)
unfolding close
close-IsConsistent b client mine c =
    put-IsConsistent (unsubscribe_all b mine) client [] (tt, omega arith)
      (unsubscribe_all-IsConsistent b mine c)
