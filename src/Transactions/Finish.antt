-- ===== src/Transactions/Finish.antt =====
-- How often each transaction is ended.
use alyx.Prelude.{ℕ, ◌+◌, ◌≤◌, ◌≡◌, refl, Bool, List, [], ◌∷◌, arith}
use alyx.Map.{GoMap}
use alyx.Map.Total.{total}
use alyx.Transactions.{
  ActiveTransaction, rollback_call, Ending, Manager, Event, new_manager, pick, finish,
  finish_picked, all_to_roll_back, lock_close, finish_all, close, run,
}
use alyx.Transactions.Balance.{begins_of, ends_of, is_tx, in_progress, AllFresh, run_balance}

-- In any run from a new manager in which each id that is inserted is not in use, whatever parts of
-- beginnings, commits, rollbacks, timers and closings come in whatever order, and whichever of
-- their database calls fail, the database gets at most one call of Commit or Rollback for each
-- transaction that it began.
pub ends-le-begins :
    (timeout : ℕ) (es : List Event) (tx : ℕ)
    → AllFresh (new_manager timeout) es
    → let m = run (new_manager timeout) es in ends_of tx m.calls ≤ begins_of tx m.calls
ends-le-begins timeout es tx fresh = omega (arith, (run_balance timeout es fresh).balance tx)

module _ (tx : ℕ) (fails : ℕ → Bool) where
  -- The loop of Close makes the calls of just the entries that Close took out.
  ends_of-finish_all :
      (entries : GoMap ActiveTransaction) (others : List Ending) (m : Manager)
      → ends_of tx
          (finish_all entries fails (record m { ending = all_to_roll_back entries others })).calls
        ≡ total (is_tx tx) entries + ends_of tx m.calls
  unfolding finish_all finish pick finish_picked all_to_roll_back
  ends_of-finish_all [] others m = omega arith
  ends_of-finish_all ((tx_id, active) ∷ rest) others m = omega (
    arith,
    ends_of-finish_all rest others
        (record m { calls = rollback_call active.tx (fails active.tx) ∷ m.calls }),
  )

  begins_of-finish_all :
      (entries : GoMap ActiveTransaction) (others : List Ending) (m : Manager)
      → begins_of tx
          (finish_all entries fails (record m { ending = all_to_roll_back entries others })).calls
        ≡ begins_of tx m.calls
  unfolding finish_all finish pick finish_picked all_to_roll_back
  begins_of-finish_all [] others m = refl
  begins_of-finish_all ((tx_id, active) ∷ rest) others m =
      begins_of-finish_all rest others
        (record m { calls = rollback_call active.tx (fails active.tx) ∷ m.calls })

-- Let a run from a new manager in which each id that is inserted is not in use be followed by a
-- whole `Close`, whichever of its rollbacks fail. Then for each transaction the database got as
-- many calls of Commit and Rollback, failed ones included, as it was begun, less those that another
-- method had in its hands when Close came: begun and not yet inserted, or taken out and its call
-- not yet made.
pub ends-close :
    (timeout : ℕ) (es : List Event) (fails : ℕ → Bool) (tx : ℕ)
    → AllFresh (new_manager timeout) es
    → let m = run (new_manager timeout) es in
      ends_of tx (close m fails).calls + in_progress tx m ≡ begins_of tx (close m fails).calls
unfolding close lock_close
ends-close timeout es fails tx fresh =
    let m = run (new_manager timeout) es in
    omega (
      arith,
      (run_balance timeout es fresh).balance tx,
      ends_of-finish_all tx fails m.transactions m.ending (record m { transactions = [] }),
      begins_of-finish_all tx fails m.transactions m.ending (record m { transactions = [] }),
    )
