-- ===== src/Transactions/Tests.antt =====
-- Runs of the transaction manager, and its theorems at concrete inputs.
use alyx.Prelude.{ℕ, ◌+◌, ◌≤◌, ◌≡◌, refl, Bool, true, false, none, some, List, [], ◌∷◌}
use alyx.Map.{lookup, insert, delete}
use alyx.Transactions.{
  Manager, begin_call, commit_call, rollback_call, Event, begins, registers, commits, rolls_back,
  expired, closes, calls_database, not_found, new_manager, pick, begin_tx, register,
  register_picked, begin, take_out, lock_commit, lock_rollback, finish, finish_picked, after_lock,
  commit, rollback, get, all_to_roll_back, lock_close, finish_all, close, step, run,
}
use alyx.Transactions.Balance.{begins_of, ends_of, in_progress}
use alyx.Transactions.Finish.{ends-le-begins, ends-close}
use alyx.Transactions.Ids.{ended_not_found}

abbrev empty : Manager
empty = new_manager 300

-- Transaction 1 is committed though its timer fires afterwards; the timer of 2 takes it out while
-- 3 begins, and its rollback fails; 4 has begun but is not inserted.
abbrev session : List Event
session =
    begins (some 1)
    ∷ registers 0 "tx_a" 10
    ∷ begins (some 2)
    ∷ registers 0 "tx_b" 11
    ∷ commits "tx_a"
    ∷ expired "tx_a"
    ∷ begins (some 3)
    ∷ expired "tx_b"
    ∷ calls_database 1 false
    ∷ registers 0 "tx_c" 400
    ∷ calls_database 0 true
    ∷ begins (some 4)
    ∷ []

abbrev never : ℕ → Bool
never tx = false

session_calls :
    (close (run empty session) never).calls
    ≡ rollback_call 3 false
      ∷ begin_call 4
      ∷ rollback_call 2 true
      ∷ commit_call 1 false
      ∷ begin_call 3
      ∷ begin_call 2
      ∷ begin_call 1
      ∷ []
unfolding close finish_all all_to_roll_back lock_close run step begin_tx register register_picked
    pick lock_commit lock_rollback take_out finish finish_picked new_manager lookup insert delete
session_calls = refl

-- A Close between the two parts of a Begin leaves the transaction open in the closed manager.
begun_outlives_close :
    get (run (close (run empty (begins (some 1) ∷ [])) never) (registers 0 "tx_a" 10 ∷ [])) "tx_a"
    ≡ some 1
unfolding get close finish_all all_to_roll_back lock_close run step begin_tx register
    register_picked pick new_manager lookup insert
begun_outlives_close = refl

-- A timer that fires before the insertion finds nothing, and the transaction stays.
timer_too_early :
    get (run empty (begins (some 1) ∷ expired "tx_a" ∷ registers 0 "tx_a" 10 ∷ [])) "tx_a" ≡ some 1
unfolding get run step begin_tx register register_picked pick lock_rollback take_out new_manager
    lookup insert
timer_too_early = refl

-- The methods without another step in between.
abbrev two_begun : Manager
two_begun = (begin (begin empty (some 1) "tx_a" 10).0 (some 2) "tx_b" 20).0

abbrev both_ended : Manager
both_ended = (rollback (commit two_begun "tx_a" false).0 "tx_b" true).0

whole_methods :
    both_ended.calls ≡ rollback_call 2 true ∷ commit_call 1 false ∷ begin_call 2 ∷ begin_call 1 ∷ []
unfolding rollback commit begin begin_tx register register_picked pick lock_commit lock_rollback
    take_out after_lock finish finish_picked new_manager lookup insert delete
whole_methods = refl

ends-le-begins_example : ends_of 2 (run empty session).calls ≤ begins_of 2 (run empty session).calls
unfolding run step begin_tx register register_picked pick lock_commit lock_rollback take_out finish
    finish_picked new_manager lookup insert delete
ends-le-begins_example =
    ends-le-begins 300 session 2
      (tt, (refl, (tt, (refl, (tt, (tt, (tt, (tt, (tt, (refl, (tt, (tt, tt))))))))))))

ends-close_example :
    ends_of 3 (close (run empty session) never).calls + in_progress 3 (run empty session)
    ≡ begins_of 3 (close (run empty session) never).calls
unfolding run step begin_tx register register_picked pick lock_commit lock_rollback take_out finish
    finish_picked new_manager lookup insert delete
ends-close_example =
    ends-close 300 session never 3
      (tt, (refl, (tt, (refl, (tt, (tt, (tt, (tt, (tt, (refl, (tt, (tt, tt))))))))))))

ended_not_found_example :
    let after =
      run (step (run empty session) (rolls_back "tx_c")) (calls_database 0 false ∷ closes ∷ []) in
    (commit after "tx_c" false ≡ (after, not_found))
    × (rollback after "tx_c" false ≡ (after, not_found))
    × (get after "tx_c" ≡ none)
ended_not_found_example =
    ended_not_found (run empty session) "tx_c" (rolls_back "tx_c")
      (calls_database 0 false ∷ closes ∷ []) false refl (tt, (tt, tt))
