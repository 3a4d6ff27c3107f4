-- ===== src/Webhooks/Retry/Ledger.antt =====
-- The dead letters against the rows of the queue, whatever the endpoints and the database answer.
use alyx.Prelude.{
  ℕ, ◌+◌, ◌<◌, ◌≡◌, true, List, [], ◌∷◌, ◌++◌, arith, length, inl, inr, subst, str_eq, eq_refl,
  String, Bool, false,
}
use alyx.Bytes.{Bytes}
use alyx.Map.{GoMap}
use alyx.Webhooks.Retry.{
  RetryConfig, QueuedWebhook, Store, Tick, update, process_queue, enqueue_webhook,
}
use alyx.Webhooks.Retry.Rows.{
  IsNew, DistinctIds, Holds, IsNew-Holds, str_eq_comm, update-new, total, total-update,
}
use alyx.Webhooks.Retry.Effects.{failures, Within}
use alyx.Webhooks.Retry.Rounds.{KeptBy, process_queue-keeps}

abbrev pub AllWithin : RetryConfig → List QueuedWebhook → Type 0
AllWithin config [] = Unit
AllWithin config (row ∷ rows) = Within config row × AllWithin config rows

-- As many dead letters as failed rows, and no open row without attempts left.
abbrev pub IsLedger : RetryConfig → Store → Type 0
IsLedger config store =
    AllWithin config store.queue × (length store.dlq ≡ total failures store.queue)

AllWithin-update :
    (config : RetryConfig) (change : QueuedWebhook → QueuedWebhook) (w : QueuedWebhook)
    (rows : List QueuedWebhook)
    → DistinctIds rows
    → Holds w rows
    → Within config (change w)
    → AllWithin config rows
    → AllWithin config (update w.id change rows)
unfolding update
AllWithin-update config change w [] d m c h = absurd m
AllWithin-update config change w (first ∷ rest) (n, d) (inl e) c (h, hs) =
    subst (λ r. Within config (change r) → AllWithin config (update r.id change (first ∷ rest))) e
      (λ c'. rw (eq_refl first.id, update-new first.id change rest n) (c', hs)) c
AllWithin-update config change w (first ∷ rest) (n, d) (inr m) c (h, hs) =
    rw (str_eq_comm w.id first.id (IsNew-Holds first.id w rest n m))
      (h, AllWithin-update config change w rest d m c hs)

IsLedger-KeptBy : (config : RetryConfig) → KeptBy config (IsLedger config)
IsLedger-KeptBy config before after w q m o (change, k, e, less, within, count) (ws, p) = (
  rw e (AllWithin-update config change w before.queue q m within ws),
  rw e (omega (arith, total-update failures change w before.queue q m, count, p)),
)

-- What happens to the queue: a delivery is put into it, or the worker ticks.
pub data Event : Type 0 where
  enqueued : String → String → String → Bytes → GoMap Bytes → ℕ → Bool → Event
  ticked : Tick → Event

unfoldable pub step : RetryConfig → Store → Event → Store
unfolding enqueue_webhook process_queue
step config store (enqueued id webhook_id url payload headers now fails) =
    enqueue_webhook id webhook_id url payload headers now fails store
step config store (ticked tick) = process_queue config tick store

unfoldable pub run : RetryConfig → Store → List Event → Store
unfolding step
run config store [] = store
run config store (e ∷ es) = run config (step config store e) es

-- uuid.New returns an id that no row has.
abbrev pub NewId : Store → Event → Type 0
NewId store (enqueued id webhook_id url payload headers now fails) = IsNew id store.queue
NewId store (ticked tick) = Unit

abbrev pub NewIds : RetryConfig → Store → List Event → Type 0
NewIds config store [] = Unit
NewIds config store (e ∷ es) = NewId store e × NewIds config (step config store e) es

IsNew-append :
    (id : String) (rows : List QueuedWebhook) (row : QueuedWebhook)
    → IsNew id rows
    → str_eq row.id id ≡ false
    → IsNew id (rows ++ (row ∷ []))
IsNew-append id [] row h e = (e, tt)
IsNew-append id (first ∷ rest) row (h, hs) e = (h, IsNew-append id rest row hs e)

append-DistinctIds :
    (rows : List QueuedWebhook) (row : QueuedWebhook)
    → IsNew row.id rows
    → DistinctIds rows
    → DistinctIds (rows ++ (row ∷ []))
append-DistinctIds [] row n d = (tt, tt)
append-DistinctIds (first ∷ rest) row (n, ns) (d, ds) = (
  IsNew-append first.id rest row d (str_eq_comm first.id row.id n),
  append-DistinctIds rest row ns ds,
)

append-AllWithin :
    (config : RetryConfig) (rows : List QueuedWebhook) (row : QueuedWebhook)
    → AllWithin config rows
    → Within config row
    → AllWithin config (rows ++ (row ∷ []))
append-AllWithin config [] row h w = (w, tt)
append-AllWithin config (first ∷ rest) row (h, hs) w = (h, append-AllWithin config rest row hs w)

total-append :
    (weight : QueuedWebhook → ℕ) (rows : List QueuedWebhook) (row : QueuedWebhook)
    → total weight (rows ++ (row ∷ [])) ≡ total weight rows + weight row
total-append weight [] row = omega arith
total-append weight (first ∷ rest) row = omega (arith, total-append weight rest row)

step-IsLedger :
    (config : RetryConfig) (store : Store) (e : Event)
    → 0 < config.max_attempts
    → NewId store e
    → DistinctIds store.queue
    → IsLedger config store
    → IsLedger config (step config store e) × DistinctIds (step config store e).queue
unfolding step enqueue_webhook
step-IsLedger config store (enqueued id webhook_id url payload headers now true) pos n d l = (l, d)
step-IsLedger config store (enqueued id webhook_id url payload headers now false) pos n d (ws, p) =
    (
      (
        append-AllWithin config store.queue _ ws (λ opened. pos),
        omega (arith, p, total-append failures store.queue _),
      ),
      append-DistinctIds store.queue _ n d,
    )
step-IsLedger config store (ticked tick) pos n d l =
    process_queue-keeps config (IsLedger config) tick store (IsLedger-KeptBy config) d l

-- If max_attempts is at least 1 and the generated ids are new, then after any sequence of
-- enqueued deliveries and ticks of the worker, whatever endpoints and database answer, there are
-- as many dead letters as failed rows, and each row that is open has fewer than max_attempts
-- attempts.
pub run-IsLedger :
    (config : RetryConfig) (events : List Event) (store : Store)
    → 0 < config.max_attempts
    → NewIds config store events
    → DistinctIds store.queue
    → IsLedger config store
    → IsLedger config (run config store events)
unfolding run
run-IsLedger config [] store pos n d l = l
run-IsLedger config (e ∷ es) store pos (n, ns) d l =
    let (l', d') = step-IsLedger config store e pos n d l in
    run-IsLedger config es (step config store e) pos ns d' l'
