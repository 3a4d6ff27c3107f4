-- ===== src/Subscriptions/Tests.antt =====
-- A run of the index, and the theorems at concrete inputs.
use alyx.Prelude.{◌≡◌, refl, String, none, List, [], ◌∷◌}
use alyx.Prelude.Int.{ℤ, pos, negsuc}
use alyx.Map.{lookup, insert, delete}
use alyx.Subscriptions.{
  Subscription, SubscribePayload, Event, added, removed, new, add, remove, remove_found,
  get_candidates, collection_count, count, step, run, new_subscription,
}
use alyx.Subscriptions.Find.{find, latest, find-run}
use alyx.Subscriptions.Count.{IsIndex, run-IsIndex, new-IsIndex}

abbrev payload : String → ℤ → SubscribePayload
payload collection limit = record { collection = collection; sort = []; limit = limit; expand = [] }

abbrev subscription : String → String → Subscription
subscription collection id = record (new_subscription "client" (payload collection (pos 20)) 5) {
  id = id;
}

limits :
    ((new_subscription "client" (payload "posts" (negsuc 3)) 5).limit ≡ pos 100)
    × ((new_subscription "client" (payload "posts" (pos 2000)) 5).limit ≡ pos 1000)
    × ((new_subscription "client" (payload "posts" (pos 20)) 5).limit ≡ pos 20)
unfolding new_subscription
limits = (refl, refl, refl)

abbrev history : List Event
history =
    added (subscription "posts" "a")
    ∷ added (subscription "posts" "b")
    ∷ removed (subscription "posts" "a")
    ∷ added (subscription "users" "c")
    ∷ removed (subscription "users" "c")
    ∷ []

runs :
    (get_candidates (run new history) "posts" ≡ subscription "posts" "b" ∷ [])
    × (count (run new history) ≡ 1)
    × (collection_count (run new history) "users" ≡ 0)
    × (lookup "users" (run new history) ≡ none)
unfolding get_candidates count collection_count run new step add remove remove_found lookup insert
    delete new_subscription
runs = (refl, refl, refl, refl)

find-run_example :
    find (run new history) "posts" "b" ≡ latest "posts" "b" (find new "posts" "b") history
find-run_example = find-run new history "posts" "b"

run-IsIndex_example : IsIndex (run new history)
run-IsIndex_example = run-IsIndex new history new-IsIndex
