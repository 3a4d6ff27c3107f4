-- ===== src/Transactions/Balance.antt =====
-- The balance of each transaction: it is in one place, in the hands of a method, held or ended.
use alyx.Prelude.{
  ℕ, zero, suc, ◌+◌, String, ◌≡◌, refl, Bool, Option, none, some, List, [], ◌∷◌, arith, ◌==◌,
  if◌then◌else◌,
}
use alyx.Map.{GoMap, lookup, IsMap}
use alyx.Map.Laws.{insert-IsMap, delete-IsMap}
use alyx.Map.Total.{total, total-insert, total-delete}
use alyx.Transactions.{
  ActiveTransaction, Call, begin_call, commit_call, rollback_call, Ending, to_commit, to_roll_back,
  Manager, Event, begins, registers, commits, rolls_back, expired, closes, calls_database,
  new_manager, keep, pick, begin_tx, register, register_picked, take_out, lock_commit,
  lock_rollback, made, finish, finish_picked, all_to_roll_back, lock_close, step, run,
}

abbrev pub begins_of : ℕ → List Call → ℕ
begins_of tx [] = 0
begins_of tx (begin_call t ∷ calls) = (if t == tx then 1 else 0) + begins_of tx calls
begins_of tx (commit_call t fails ∷ calls) = begins_of tx calls
begins_of tx (rollback_call t fails ∷ calls) = begins_of tx calls

-- Calls of Commit and Rollback, failed or not.
abbrev pub ends_of : ℕ → List Call → ℕ
ends_of tx [] = 0
ends_of tx (begin_call t ∷ calls) = ends_of tx calls
ends_of tx (commit_call t fails ∷ calls) = (if t == tx then 1 else 0) + ends_of tx calls
ends_of tx (rollback_call t fails ∷ calls) = (if t == tx then 1 else 0) + ends_of tx calls

abbrev pub is_tx : ℕ → ActiveTransaction → ℕ
is_tx tx active = if active.tx == tx then 1 else 0

abbrev is_handle : ℕ → ℕ → ℕ
is_handle tx t = if t == tx then 1 else 0

abbrev pub is_ending : ℕ → Ending → ℕ
is_ending tx (to_commit t) = if t == tx then 1 else 0
is_ending tx (to_roll_back t) = if t == tx then 1 else 0

abbrev pub sum_of : {A : Type 0} → (A → ℕ) → List A → ℕ
sum_of f [] = 0
sum_of f (x ∷ xs) = f x + sum_of f xs

-- How often the manager holds the transaction.
abbrev held : ℕ → Manager → ℕ
held tx m = total (is_tx tx) m.transactions

-- How often a method has it in its hands, to insert it or to end it.
abbrev pub in_progress : ℕ → Manager → ℕ
in_progress tx m = sum_of (is_handle tx) m.opening + sum_of (is_ending tx) m.ending

pub record IsBalanced (m : Manager) : Type 0 where
  pub distinct : IsMap m.transactions
  pub balance : (tx : ℕ) → held tx m + in_progress tx m + ends_of tx m.calls ≡ begins_of tx m.calls

-- A new id is not in use.
abbrev pub IsFresh : Manager → Event → Type 0
IsFresh m (registers n tx_id now) = lookup tx_id m.transactions ≡ none
IsFresh m _ = Unit

abbrev pub AllFresh : Manager → List Event → Type 0
AllFresh m [] = Unit
AllFresh m (e ∷ es) = IsFresh m e × AllFresh (step m e) es

-- What was picked and what is left are what there was.
abbrev Parts : {A : Type 0} → List A → Option (A × List A) → Type 0
Parts xs none = Unit
Parts {A = A} xs (some (y, rest)) = (f : A → ℕ) → sum_of f xs ≡ f y + sum_of f rest

keep-Parts :
    {A : Type 0} (x : A) (xs : List A) (found : Option (A × List A))
    → Parts xs found
    → Parts (x ∷ xs) (keep x found)
unfolding keep
keep-Parts x xs none p = tt
keep-Parts x xs (some (y, rest)) p = λ f. omega (arith, p f)

pick-Parts : {A : Type 0} (n : ℕ) (xs : List A) → Parts xs (pick n xs)
unfolding pick
pick-Parts n [] = tt
pick-Parts zero (x ∷ xs) = λ f. refl
pick-Parts (suc n) (x ∷ xs) = keep-Parts x xs (pick n xs) (pick-Parts n xs)

register_picked-IsBalanced :
    (m : Manager) (tx_id : String) (now : ℕ) (found : Option (ℕ × List ℕ))
    → Parts m.opening found
    → lookup tx_id m.transactions ≡ none
    → IsBalanced m
    → IsBalanced (register_picked m tx_id now found)
unfolding register_picked
register_picked-IsBalanced m tx_id now none p fresh v = v
register_picked-IsBalanced m tx_id now (some (t, others)) p fresh v = record {
  distinct = insert-IsMap tx_id _ m.transactions v.distinct;
  balance = λ tx.
      let more =
        rw fresh at
          (total-insert (is_tx tx) tx_id (record { tx = t; created_at = now }) m.transactions) in
      omega (arith, v.balance tx, p (is_handle tx));
}

take_out-IsBalanced :
    (m : Manager) (tx_id : String) (ends : ℕ → Ending) (found : Option ActiveTransaction)
    → ((tx t : ℕ) → is_ending tx (ends t) ≡ is_handle tx t)
    → lookup tx_id m.transactions ≡ found
    → IsBalanced m
    → IsBalanced (take_out m tx_id ends found).0
unfolding take_out
take_out-IsBalanced m tx_id ends none same e v = v
take_out-IsBalanced m tx_id ends (some active) same e v = record {
  distinct = delete-IsMap tx_id m.transactions v.distinct;
  balance = λ tx.
      let gone = rw e at (total-delete (is_tx tx) tx_id m.transactions v.distinct) in
      omega (arith, same tx active.tx, v.balance tx);
}

module _ (tx : ℕ) where
  ends_of-made :
      (e : Ending) (fails : Bool) (calls : List Call)
      → ends_of tx (made e fails ∷ calls) ≡ is_ending tx e + ends_of tx calls
  ends_of-made (to_commit t) fails calls = refl
  ends_of-made (to_roll_back t) fails calls = refl

  begins_of-made :
      (e : Ending) (fails : Bool) (calls : List Call)
      → begins_of tx (made e fails ∷ calls) ≡ begins_of tx calls
  begins_of-made (to_commit t) fails calls = refl
  begins_of-made (to_roll_back t) fails calls = refl

finish_picked-IsBalanced :
    (m : Manager) (fails : Bool) (found : Option (Ending × List Ending))
    → Parts m.ending found
    → IsBalanced m
    → IsBalanced (finish_picked m fails found)
unfolding finish_picked
finish_picked-IsBalanced m fails none p v = v
finish_picked-IsBalanced m fails (some (e, others)) p v = record {
  distinct = v.distinct;
  balance = λ tx. omega (
    arith,
    v.balance tx,
    p (is_ending tx),
    ends_of-made tx e fails m.calls,
    begins_of-made tx e fails m.calls,
  );
}

pub sum_of-all_to_roll_back :
    (tx : ℕ) (entries : GoMap ActiveTransaction) (others : List Ending)
    → sum_of (is_ending tx) (all_to_roll_back entries others)
      ≡ total (is_tx tx) entries + sum_of (is_ending tx) others
unfolding all_to_roll_back
sum_of-all_to_roll_back tx [] others = omega arith
sum_of-all_to_roll_back tx ((tx_id, active) ∷ rest) others =
    omega (arith, sum_of-all_to_roll_back tx rest others)

-- Every part of a method keeps the balance of each transaction.
step-IsBalanced : (m : Manager) (e : Event) → IsFresh m e → IsBalanced m → IsBalanced (step m e)
unfolding step begin_tx register lock_commit lock_rollback lock_close finish
step-IsBalanced m (begins none) fresh v = v
step-IsBalanced m (begins (some t)) fresh v = record {
  distinct = v.distinct;
  balance = λ tx. omega (arith, v.balance tx);
}
step-IsBalanced m (registers n tx_id now) fresh v =
    register_picked-IsBalanced m tx_id now _ (pick-Parts n m.opening) fresh v
step-IsBalanced m (commits tx_id) fresh v =
    take_out-IsBalanced m tx_id to_commit _ (λ tx t. refl) refl v
step-IsBalanced m (rolls_back tx_id) fresh v =
    take_out-IsBalanced m tx_id to_roll_back _ (λ tx t. refl) refl v
step-IsBalanced m (expired tx_id) fresh v =
    take_out-IsBalanced m tx_id to_roll_back _ (λ tx t. refl) refl v
step-IsBalanced m closes fresh v = record {
  distinct = tt;
  balance = λ tx. omega (arith, v.balance tx, sum_of-all_to_roll_back tx m.transactions m.ending);
}
step-IsBalanced m (calls_database n fails) fresh v =
    finish_picked-IsBalanced m fails _ (pick-Parts n m.ending) v

run-IsBalanced :
    (m : Manager) (es : List Event) → AllFresh m es → IsBalanced m → IsBalanced (run m es)
unfolding run
run-IsBalanced m [] fresh v = v
run-IsBalanced m (e ∷ es) fresh v =
    run-IsBalanced (step m e) es fresh.1 (step-IsBalanced m e fresh.0 v)

new_manager-IsBalanced : (timeout : ℕ) → IsBalanced (new_manager timeout)
unfolding new_manager
new_manager-IsBalanced timeout = record { distinct = tt; balance = λ tx. refl }

pub run_balance :
    (timeout : ℕ) (es : List Event)
    → AllFresh (new_manager timeout) es
    → IsBalanced (run (new_manager timeout) es)
run_balance timeout es fresh =
    run-IsBalanced (new_manager timeout) es fresh (new_manager-IsBalanced timeout)
