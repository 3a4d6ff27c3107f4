-- ===== src/Transactions.antt =====
-- internal/transactions/manager.go: database transactions that a client holds by an id. A handle
-- `tx` names one `*sql.Tx`. What the database answers (a handle or an error to BeginTx, an error or
-- none to Commit and Rollback), the new id and the clock are arguments; the calls that reach the
-- database are recorded with their failures. Begin calls BeginTx before it takes the lock, and the
-- other methods call the database after they release it. Each method is therefore composed of
-- parts that are steps of their own; `opening` and `ending` hold what a method has in its hands
-- between its parts. A timer may fire at any point of a run, also after `Stop`. That database/sql
-- rolls a transaction back by itself when the context of BeginTx ends is not modelled.
pub mod Balance
pub mod Finish
pub mod Ids
mod Tests
use alyx.Prelude.{
  ℕ, zero, suc, ◌+◌, String, Bool, true, false, Option, none, some, List, [], ◌∷◌, if◌then◌else◌,
}
use alyx.Map.{GoMap, lookup, insert, delete}

pub record ActiveTransaction : Type 0 where
  pub tx : ℕ
  pub created_at : ℕ

-- The flag tells whether the call failed.
pub data Call : Type 0 where
  begin_call : ℕ → Call
  commit_call : ℕ → Bool → Call
  rollback_call : ℕ → Bool → Call

-- What a method does with an entry that it took out.
pub data Ending : Type 0 where
  to_commit : ℕ → Ending
  to_roll_back : ℕ → Ending

pub record Manager : Type 0 where
  pub transactions : GoMap ActiveTransaction
  pub timeout : ℕ
  pub opening : List ℕ  -- from BeginTx, not yet in the map
  pub ending : List Ending  -- out of the map, not yet ended
  pub calls : List Call  -- to the database, newest first

pub data Reply : Type 0 where
  started : String → ℕ → Reply
  done : Reply
  not_found : Reply
  db_error : Reply

unfoldable pub new_manager : ℕ → Manager
new_manager timeout = record {
  transactions = [];
  timeout = timeout;
  opening = [];
  ending = [];
  calls = [];
}

-- The method that goes on next is any of those in progress: the one at a position of the list.
keep : {A : Type 0} → A → Option (A × List A) → Option (A × List A)
keep x none = none
keep x (some (y, rest)) = some (y, x ∷ rest)

unfoldable pub pick : {A : Type 0} → ℕ → List A → Option (A × List A)
unfolding keep
pick n [] = none
pick zero (x ∷ xs) = some (x, xs)
pick (suc n) (x ∷ xs) = keep x (pick n xs)

-- Begin up to the lock.
unfoldable pub begin_tx : Manager → Option ℕ → Manager
begin_tx m none = m
begin_tx m (some tx) = record m { opening = tx ∷ m.opening; calls = begin_call tx ∷ m.calls }

unfoldable pub register_picked : Manager → String → ℕ → Option (ℕ × List ℕ) → Manager
register_picked m tx_id now none = m
register_picked m tx_id now (some (tx, others)) = record m {
  transactions = insert tx_id (record { tx = tx; created_at = now }) m.transactions;
  opening = others;
}

-- Begin under the lock.
unfoldable pub register : Manager → ℕ → String → ℕ → Manager
unfolding register_picked pick
register m n tx_id now = register_picked m tx_id now (pick n m.opening)

unfoldable pub begin : Manager → Option ℕ → String → ℕ → Manager × Reply
unfolding begin_tx register
begin m none tx_id now = (begin_tx m none, db_error)
begin m (some tx) tx_id now =
    (register (begin_tx m (some tx)) 0 tx_id now, started tx_id (now + m.timeout))

-- The methods under the lock: whether the id was found, and if so its entry is taken out.
unfoldable pub take_out :
    Manager → String → (ℕ → Ending) → Option ActiveTransaction → Manager × Bool
take_out m tx_id ends none = (m, false)
take_out m tx_id ends (some active) = (
  record m { transactions = delete tx_id m.transactions; ending = ends active.tx ∷ m.ending },
  true,
)

unfoldable pub lock_commit : Manager → String → Manager × Bool
unfolding take_out
lock_commit m tx_id = take_out m tx_id to_commit (lookup tx_id m.transactions)

unfoldable pub lock_rollback : Manager → String → Manager × Bool
unfolding take_out
lock_rollback m tx_id = take_out m tx_id to_roll_back (lookup tx_id m.transactions)

abbrev pub made : Ending → Bool → Call
made (to_commit tx) fails = commit_call tx fails
made (to_roll_back tx) fails = rollback_call tx fails

unfoldable pub finish_picked : Manager → Bool → Option (Ending × List Ending) → Manager
finish_picked m fails none = m
finish_picked m fails (some (ending, others)) = record m {
  ending = others;
  calls = made ending fails ∷ m.calls;
}

-- The call of the database after the lock.
unfoldable pub finish : Manager → ℕ → Bool → Manager
unfolding finish_picked pick
finish m n fails = finish_picked m fails (pick n m.ending)

abbrev answer : Bool → Reply
answer fails = if fails then db_error else done

unfoldable pub after_lock : Manager × Bool → Reply → Bool → Manager × Reply
unfolding finish
after_lock (m, false) missing fails = (m, missing)
after_lock (m, true) missing fails = (finish m 0 fails, answer fails)

unfoldable pub commit : Manager → String → Bool → Manager × Reply
unfolding lock_commit after_lock
commit m tx_id fails = after_lock (lock_commit m tx_id) not_found fails

unfoldable pub rollback : Manager → String → Bool → Manager × Reply
unfolding lock_rollback after_lock
rollback m tx_id fails = after_lock (lock_rollback m tx_id) not_found fails

unfoldable pub auto_rollback : Manager → String → Bool → Manager × Reply
unfolding lock_rollback after_lock
auto_rollback m tx_id fails = after_lock (lock_rollback m tx_id) done fails

abbrev pub tx_found : Option ActiveTransaction → Option ℕ
tx_found none = none
tx_found (some active) = some active.tx

unfoldable pub get : Manager → String → Option ℕ
get m tx_id = tx_found (lookup tx_id m.transactions)

-- Close under the lock.
unfoldable pub all_to_roll_back : GoMap ActiveTransaction → List Ending → List Ending
all_to_roll_back [] others = others
all_to_roll_back ((tx_id, active) ∷ rest) others =
    to_roll_back active.tx ∷ all_to_roll_back rest others

unfoldable pub lock_close : Manager → Manager
unfolding all_to_roll_back
lock_close m = record m { transactions = []; ending = all_to_roll_back m.transactions m.ending }

-- The loop of Close after the lock: a rollback that fails is logged and the loop goes on.
unfoldable pub finish_all : GoMap ActiveTransaction → (ℕ → Bool) → Manager → Manager
unfolding finish
finish_all [] fails m = m
finish_all ((tx_id, active) ∷ rest) fails m = finish_all rest fails (finish m 0 (fails active.tx))

unfoldable pub close : Manager → (ℕ → Bool) → Manager
unfolding lock_close finish_all
close m fails = finish_all m.transactions fails (lock_close m)

-- The parts of the methods, in any order; `expired` is the timer's.
pub data Event : Type 0 where
  begins : Option ℕ → Event
  registers : ℕ → String → ℕ → Event
  commits : String → Event
  rolls_back : String → Event
  expired : String → Event
  closes : Event
  calls_database : ℕ → Bool → Event

unfoldable pub step : Manager → Event → Manager
unfolding begin_tx register lock_commit lock_rollback lock_close finish
step m (begins tx) = begin_tx m tx
step m (registers n tx_id now) = register m n tx_id now
step m (commits tx_id) = (lock_commit m tx_id).0
step m (rolls_back tx_id) = (lock_rollback m tx_id).0
step m (expired tx_id) = (lock_rollback m tx_id).0
step m closes = lock_close m
step m (calls_database n fails) = finish m n fails

unfoldable pub run : Manager → List Event → Manager
run m [] = m
run m (e ∷ es) = run (step m e) es
