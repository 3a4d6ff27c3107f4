-- ===== src/Webhooks/Retry/Picked.antt =====
-- The rows that a round picks: distinct rows of the queue, each of them due.
use alyx.Prelude.{
  ℕ, zero, suc, ◌≡◌, refl, String, true, List, [], ◌∷◌, inl, inr, arith, Bool-cases, leb, filter,
  take,
}
use alyx.Webhooks.Retry.{
  QueuedWebhook, format, is_open, is_due, insert_by_creation, sort_by_creation, picked,
}
use alyx.Webhooks.Retry.Rows.{IsNew, DistinctIds, Holds, str_eq_comm}

-- Rows of the queue that are still to be delivered.
abbrev pub AllOpen : List QueuedWebhook → List QueuedWebhook → Type 0
AllOpen [] rows = Unit
AllOpen (w ∷ todo) rows = (Holds w rows × (is_open w.status ≡ true)) × AllOpen todo rows

AllOpen-more :
    (todo : List QueuedWebhook) (row : QueuedWebhook) (rows : List QueuedWebhook)
    → AllOpen todo rows
    → AllOpen todo (row ∷ rows)
AllOpen-more [] row rows h = tt
AllOpen-more (w ∷ todo) row rows ((m, o), hs) = ((inr m, o), AllOpen-more todo row rows hs)

is_due-open : (now : ℕ) (row : QueuedWebhook) → is_due now row ≡ true → is_open row.status ≡ true
unfolding is_due
is_due-open now row h = ground arith

filter-AllOpen : (now : ℕ) (rows : List QueuedWebhook) → AllOpen (filter (is_due now) rows) rows
filter-AllOpen now [] = tt
filter-AllOpen now (row ∷ rows) =
    let rest = AllOpen-more (filter (is_due now) rows) row rows (filter-AllOpen now rows) in
    elim (Bool-cases (is_due now row)) [
      | inl due ↦ rw due ((inl refl, is_due-open now row due), rest)
      | inr later ↦ rw later rest
    ]

filter-IsNew :
    (now : ℕ) (id : String) (rows : List QueuedWebhook)
    → IsNew id rows
    → IsNew id (filter (is_due now) rows)
filter-IsNew now id [] h = tt
filter-IsNew now id (row ∷ rows) (h, hs) = elim (Bool-cases (is_due now row)) [
  | inl due ↦ rw due (h, filter-IsNew now id rows hs)
  | inr later ↦ rw later (filter-IsNew now id rows hs)
]

filter-DistinctIds :
    (now : ℕ) (rows : List QueuedWebhook)
    → DistinctIds rows
    → DistinctIds (filter (is_due now) rows)
filter-DistinctIds now [] h = tt
filter-DistinctIds now (row ∷ rows) (h, hs) = elim (Bool-cases (is_due now row)) [
  | inl due ↦ rw due (filter-IsNew now row.id rows h, filter-DistinctIds now rows hs)
  | inr later ↦ rw later (filter-DistinctIds now rows hs)
]

insert-AllOpen :
    (row : QueuedWebhook) (todo rows : List QueuedWebhook)
    → AllOpen (row ∷ todo) rows
    → AllOpen (insert_by_creation row todo) rows
unfolding insert_by_creation
insert-AllOpen row [] rows h = h
insert-AllOpen row (next ∷ rest) rows (h, (n, hs)) =
    elim (Bool-cases (leb row.created_at next.created_at)) [
      | inl first ↦ rw first (h, (n, hs))
      | inr after ↦ rw after (n, insert-AllOpen row rest rows (h, hs))
    ]

insert-IsNew :
    (id : String) (row : QueuedWebhook) (todo : List QueuedWebhook)
    → IsNew id (row ∷ todo)
    → IsNew id (insert_by_creation row todo)
unfolding insert_by_creation
insert-IsNew id row [] h = h
insert-IsNew id row (next ∷ rest) (h, (n, hs)) =
    elim (Bool-cases (leb row.created_at next.created_at)) [
      | inl first ↦ rw first (h, (n, hs))
      | inr after ↦ rw after (n, insert-IsNew id row rest (h, hs))
    ]

insert-DistinctIds :
    (row : QueuedWebhook) (todo : List QueuedWebhook)
    → DistinctIds (row ∷ todo)
    → DistinctIds (insert_by_creation row todo)
unfolding insert_by_creation
insert-DistinctIds row [] h = h
insert-DistinctIds row (next ∷ rest) ((h, hs), (n, ns)) =
    elim (Bool-cases (leb row.created_at next.created_at)) [
      | inl first ↦ rw first ((h, hs), (n, ns))
      | inr after ↦ rw after (
        insert-IsNew next.id row rest (str_eq_comm next.id row.id h, n),
        insert-DistinctIds row rest (hs, ns),
      )
    ]

sort-AllOpen :
    (todo rows : List QueuedWebhook) → AllOpen todo rows → AllOpen (sort_by_creation todo) rows
unfolding sort_by_creation
sort-AllOpen [] rows h = tt
sort-AllOpen (w ∷ todo) rows (h, hs) =
    insert-AllOpen w (sort_by_creation todo) rows (h, sort-AllOpen todo rows hs)

sort-IsNew :
    (id : String) (todo : List QueuedWebhook) → IsNew id todo → IsNew id (sort_by_creation todo)
unfolding sort_by_creation
sort-IsNew id [] h = tt
sort-IsNew id (w ∷ todo) (h, hs) =
    insert-IsNew id w (sort_by_creation todo) (h, sort-IsNew id todo hs)

sort-DistinctIds :
    (todo : List QueuedWebhook) → DistinctIds todo → DistinctIds (sort_by_creation todo)
unfolding sort_by_creation
sort-DistinctIds [] h = tt
sort-DistinctIds (w ∷ todo) (h, hs) =
    insert-DistinctIds w (sort_by_creation todo) (sort-IsNew w.id todo h, sort-DistinctIds todo hs)

take-AllOpen :
    (n : ℕ) (todo rows : List QueuedWebhook) → AllOpen todo rows → AllOpen (take n todo) rows
take-AllOpen zero todo rows h = tt
take-AllOpen (suc n) [] rows h = tt
take-AllOpen (suc n) (w ∷ todo) rows (h, hs) = (h, take-AllOpen n todo rows hs)

take-IsNew :
    (n : ℕ) (id : String) (todo : List QueuedWebhook) → IsNew id todo → IsNew id (take n todo)
take-IsNew zero id todo h = tt
take-IsNew (suc n) id [] h = tt
take-IsNew (suc n) id (w ∷ todo) (h, hs) = (h, take-IsNew n id todo hs)

take-DistinctIds :
    (n : ℕ) (todo : List QueuedWebhook) → DistinctIds todo → DistinctIds (take n todo)
take-DistinctIds zero todo h = tt
take-DistinctIds (suc n) [] h = tt
take-DistinctIds (suc n) (w ∷ todo) (h, hs) = (take-IsNew n w.id todo h, take-DistinctIds n todo hs)

pub picked-AllOpen : (now : ℕ) (rows : List QueuedWebhook) → AllOpen (picked now rows) rows
unfolding picked
picked-AllOpen now rows =
    let due = filter (is_due (format now)) rows in
    take-AllOpen 100 (sort_by_creation due) rows
      (sort-AllOpen due rows (filter-AllOpen (format now) rows))

pub picked-DistinctIds :
    (now : ℕ) (rows : List QueuedWebhook) → DistinctIds rows → DistinctIds (picked now rows)
unfolding picked
picked-DistinctIds now rows h =
    let due = filter (is_due (format now)) rows in
    take-DistinctIds 100 (sort_by_creation due)
      (sort-DistinctIds due (filter-DistinctIds (format now) rows h))
