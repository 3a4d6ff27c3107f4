-- ===== src/Transactions/Ids.antt =====
-- What a client finds under its id.
use alyx.Prelude.{
  ℕ, String, ◌≡◌, refl, ◌∙◌, Bool, true, false, Option, none, some, List, [], ◌∷◌, arith,
  if◌then◌else◌, str_eq, eq_iff,
}
use alyx.Map.{lookup}
use alyx.Map.Laws.{lookup-insert, lookup-delete}
use alyx.Transactions.{
  ActiveTransaction, Ending, Manager, Event, begins, registers, commits, rolls_back, expired,
  closes, calls_database, not_found, pick, begin_tx, register, register_picked, take_out,
  lock_commit, lock_rollback, finish, finish_picked, after_lock, commit, rollback, get, lock_close,
  step, run,
}

abbrev pub entry_of : String → Manager → Option ActiveTransaction
entry_of tx_id m = lookup tx_id m.transactions

-- The event that takes the id out.
abbrev pub IsEnd : String → Event → Type 0
IsEnd tx_id (commits k) = k ≡ tx_id
IsEnd tx_id (rolls_back k) = k ≡ tx_id
IsEnd tx_id (expired k) = k ≡ tx_id
IsEnd tx_id closes = Unit
IsEnd tx_id _ = ⊥

-- The event inserts nothing under the id.
abbrev pub Avoids : String → Event → Type 0
Avoids tx_id (registers n k now) = str_eq k tx_id ≡ false
Avoids tx_id _ = Unit

abbrev pub NeverRegistered : String → List Event → Type 0
NeverRegistered tx_id [] = Unit
NeverRegistered tx_id (e ∷ es) = Avoids tx_id e × NeverRegistered tx_id es

take_out-entry :
    (m : Manager) (k tx_id : String) (ends : ℕ → Ending) (found : Option ActiveTransaction)
    → lookup k m.transactions ≡ found
    → entry_of tx_id (take_out m k ends found).0
      ≡ (if str_eq k tx_id then none else entry_of tx_id m)
unfolding take_out
take_out-entry m k tx_id ends none e = ground (arith, eq_iff k tx_id)
take_out-entry m k tx_id ends (some a) e = lookup-delete k tx_id m.transactions

none_either_way :
    (b : Bool) (found : Option ActiveTransaction)
    → found ≡ none
    → (if b then none else found) ≡ none
none_either_way true found h = refl
none_either_way false found h = h

take_out-none :
    (m : Manager) (k tx_id : String) (ends : ℕ → Ending)
    → entry_of tx_id m ≡ none
    → entry_of tx_id (take_out m k ends (lookup k m.transactions)).0 ≡ none
take_out-none m k tx_id ends h =
    take_out-entry m k tx_id ends _ refl ∙ none_either_way (str_eq k tx_id) _ h

take_out-gone :
    (m : Manager) (k tx_id : String) (ends : ℕ → Ending)
    → k ≡ tx_id
    → entry_of tx_id (take_out m k ends (lookup k m.transactions)).0 ≡ none
take_out-gone m k tx_id ends same =
    take_out-entry m k tx_id ends _ refl ∙ rw ((eq_iff k tx_id).1 same)

register_picked-entry :
    (m : Manager) (k tx_id : String) (now : ℕ) (found : Option (ℕ × List ℕ))
    → str_eq k tx_id ≡ false
    → entry_of tx_id (register_picked m k now found) ≡ entry_of tx_id m
unfolding register_picked
register_picked-entry m k tx_id now none n = refl
register_picked-entry m k tx_id now (some (tx, others)) n =
    lookup-insert k tx_id _ m.transactions ∙ rw n

finish_picked-entry :
    (m : Manager) (tx_id : String) (fails : Bool) (found : Option (Ending × List Ending))
    → entry_of tx_id (finish_picked m fails found) ≡ entry_of tx_id m
unfolding finish_picked
finish_picked-entry m tx_id fails none = refl
finish_picked-entry m tx_id fails (some (e, others)) = refl

-- An id that is not in use stays so unless a transaction is inserted under it.
entry-step :
    (m : Manager) (tx_id : String) (e : Event)
    → Avoids tx_id e
    → entry_of tx_id m ≡ none
    → entry_of tx_id (step m e) ≡ none
unfolding step begin_tx register lock_commit lock_rollback lock_close finish lookup
entry-step m tx_id (begins none) n h = h
entry-step m tx_id (begins (some tx)) n h = h
entry-step m tx_id (registers i k now) n h =
    register_picked-entry m k tx_id now (pick i m.opening) n ∙ h
entry-step m tx_id (commits k) n h = take_out-none m k tx_id _ h
entry-step m tx_id (rolls_back k) n h = take_out-none m k tx_id _ h
entry-step m tx_id (expired k) n h = take_out-none m k tx_id _ h
entry-step m tx_id closes n h = refl
entry-step m tx_id (calls_database i fails) n h =
    finish_picked-entry m tx_id fails (pick i m.ending) ∙ h

entry-end :
    (m : Manager) (tx_id : String) (e : Event) → IsEnd tx_id e → entry_of tx_id (step m e) ≡ none
unfolding step lock_commit lock_rollback lock_close lookup
entry-end m tx_id (begins tx) h = absurd h
entry-end m tx_id (registers i k now) h = absurd h
entry-end m tx_id (commits k) h = take_out-gone m k tx_id _ h
entry-end m tx_id (rolls_back k) h = take_out-gone m k tx_id _ h
entry-end m tx_id (expired k) h = take_out-gone m k tx_id _ h
entry-end m tx_id closes h = refl
entry-end m tx_id (calls_database i fails) h = absurd h

entry-run :
    (m : Manager) (tx_id : String) (es : List Event)
    → NeverRegistered tx_id es
    → entry_of tx_id m ≡ none
    → entry_of tx_id (run m es) ≡ none
unfolding run
entry-run m tx_id [] n h = h
entry-run m tx_id (e ∷ es) n h = entry-run (step m e) tx_id es n.1 (entry-step m tx_id e n.0 h)

-- Once a commit, a rollback or the timer of an id, or a closing, has had the lock, and after any
-- further parts of methods that insert no transaction under that id, the id is unknown: `Commit`
-- and `Rollback` reply that it was not found and change nothing, and `Get` finds nothing.
pub ended_not_found :
    (m : Manager) (tx_id : String) (e : Event) (es : List Event) (fails : Bool)
    → IsEnd tx_id e
    → NeverRegistered tx_id es
    → let after = run (step m e) es in
      (commit after tx_id fails ≡ (after, not_found))
      × (rollback after tx_id fails ≡ (after, not_found))
      × (get after tx_id ≡ none)
unfolding commit rollback get lock_commit lock_rollback take_out after_lock
ended_not_found m tx_id e es fails h n =
    let gone = entry-run (step m e) tx_id es n (entry-end m tx_id e h) in
    (rw gone, rw gone, rw (gone, get))
