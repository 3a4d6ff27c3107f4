-- ===== src/Webhooks/Retry/Rounds.antt =====
-- The loop over the picked rows, and the number of rounds that find work.
use alyx.Prelude.{
  ℕ, ◌<◌, ◌≤◌, ◌≡◌, ◌≢◌, refl, String, true, false, List, [], ◌∷◌, inl, inr, arith, length,
  Bool-cases, subst, sym,
}
use alyx.Webhooks.Retry.{
  RetryConfig, QueuedWebhook, Store, Reply, Tick, update, is_open, picked, retry_webhook, retry_all,
  process_queue,
}
use alyx.Webhooks.Retry.Rows.{
  IsNew, DistinctIds, Holds, total, total-update, Holds-update, update-DistinctIds,
}
use alyx.Webhooks.Retry.Picked.{AllOpen, picked-AllOpen, picked-DistinctIds}
use alyx.Webhooks.Retry.Effects.{
  remaining, Rewrites, Requested, retry_webhook-cases, retry_webhook-Rewrites,
}

pub AllOpen-update :
    (id : String) (change : QueuedWebhook → QueuedWebhook) (todo rows : List QueuedWebhook)
    → IsNew id todo
    → AllOpen todo rows
    → AllOpen todo (update id change rows)
AllOpen-update id change [] rows n h = tt
AllOpen-update id change (w ∷ todo) rows (n, ns) ((m, o), hs) =
    ((Holds-update w id change rows n m, o), AllOpen-update id change todo rows ns hs)

-- What a rewriting of an open row of the queue keeps, the whole loop keeps.
abbrev pub KeptBy : RetryConfig → (Store → Type 0) → Type 0
KeptBy config P =
    (before after : Store) (w : QueuedWebhook)
    → DistinctIds before.queue
    → Holds w before.queue
    → is_open w.status ≡ true
    → Rewrites config w before after
    → P before
    → P after

module _ (config : RetryConfig) (world : QueuedWebhook → Reply) (P : Store → Type 0) where
  pub retry_all-keeps :
      KeptBy config P
      → (todo : List QueuedWebhook) (store : Store) → DistinctIds todo
      → DistinctIds store.queue
      → AllOpen todo store.queue
      → P store
      → P (retry_all config world store todo)
        × DistinctIds (retry_all config world store todo).queue
  unfolding retry_all
  retry_all-keeps kept [] store d q h p = (p, q)
  retry_all-keeps kept (w ∷ todo) store (n, d) q ((m, o), h) p =
      let after = (retry_webhook config store (world w) w).0 in
      elim (retry_webhook-cases config store (world w) w o) [
        | inl same ↦
            subst
              (λ s.
                P (retry_all config world s todo)
                × DistinctIds (retry_all config world s todo).queue)
              (sym same) (retry_all-keeps kept todo store d q h p)
        | inr (change, k, e, less, within, count) ↦
            retry_all-keeps kept todo after d
              (rw e (update-DistinctIds w.id change store.queue k q))
              (rw e (AllOpen-update w.id change todo store.queue n h))
              (kept store after w q m o (change, k, e, less, within, count) p)
      ]

pub process_queue-keeps :
    (config : RetryConfig) (P : Store → Type 0) (tick : Tick) (store : Store)
    → KeptBy config P
    → DistinctIds store.queue
    → P store
    → P (process_queue config tick store) × DistinctIds (process_queue config tick store).queue
unfolding process_queue
process_queue-keeps config P tick store kept q p = elim (Bool-cases tick.query_fails) [
  | inl f ↦ rw f (p, q)
  | inr f ↦ rw f (
      retry_all-keeps config tick.world P kept (picked tick.at store.queue) store
        (picked-DistinctIds tick.at store.queue q) q (picked-AllOpen tick.at store.queue) p)
]

AtMost : RetryConfig → ℕ → Store → Type 0
AtMost config n store = total (remaining config) store.queue ≤ n

Rewrites-less :
    (config : RetryConfig) (before after : Store) (w : QueuedWebhook)
    → DistinctIds before.queue
    → Holds w before.queue
    → Rewrites config w before after
    → total (remaining config) after.queue < total (remaining config) before.queue
Rewrites-less config before after w q m (change, k, e, less, within, count) =
    rw e (omega (arith, total-update (remaining config) change w before.queue q m))

remaining-KeptBy : (config : RetryConfig) (n : ℕ) → KeptBy config (AtMost config n)
unfolding AtMost
remaining-KeptBy config n before after w q m o r p =
    omega (arith, Rewrites-less config before after w q m r)

-- The query returns, the writes succeed, and a request can be made.
abbrev pub Reliable : Tick → Type 0
Reliable tick =
    (tick.query_fails ≡ false)
    × ((w : QueuedWebhook)
        → ((tick.world w).write_fails ≡ false) × Requested (tick.world w).delivery)

unfoldable pub rounds : RetryConfig → List Tick → Store → Store
unfolding process_queue
rounds config [] store = store
rounds config (tick ∷ ticks) store = rounds config ticks (process_queue config tick store)

-- Each round is reliable and picks a row.
abbrev pub Busy : RetryConfig → List Tick → Store → Type 0
Busy config [] store = Unit
Busy config (tick ∷ ticks) store =
    (Reliable tick × (picked tick.at store.queue ≢ []))
    × Busy config ticks (process_queue config tick store)

retry_all-less :
    (config : RetryConfig) (tick : Tick) (todo : List QueuedWebhook) (store : Store)
    → Reliable tick
    → todo ≢ []
    → DistinctIds todo
    → DistinctIds store.queue
    → AllOpen todo store.queue
    → total (remaining config) (retry_all config tick.world store todo).queue
      < total (remaining config) store.queue
unfolding retry_all AtMost
retry_all-less config tick [] store r some d q h = absurd (some refl)
retry_all-less config tick (w ∷ todo) store (f, r) some (n, d) q ((m, o), h) =
    let after = (retry_webhook config store (tick.world w) w).0 in
    let (change, k, e, less, within, count) =
      retry_webhook-Rewrites config store (tick.world w) w (r w).1 o (r w).0 in
    let kept =
      retry_all-keeps config tick.world (AtMost config (total (remaining config) after.queue))
        (remaining-KeptBy config (total (remaining config) after.queue)) todo after d
        (rw e (update-DistinctIds w.id change store.queue k q))
        (rw e (AllOpen-update w.id change todo store.queue n h)) (omega arith) in
    omega
      (arith, kept.0, Rewrites-less config store after w q m (change, k, e, less, within, count))

process_queue-less :
    (config : RetryConfig) (tick : Tick) (store : Store)
    → Reliable tick
    → picked tick.at store.queue ≢ []
    → DistinctIds store.queue
    → total (remaining config) (process_queue config tick store).queue
      < total (remaining config) store.queue
unfolding process_queue
process_queue-less config tick store r some q = rw (r.0) (
    retry_all-less config tick (picked tick.at store.queue) store r some
      (picked-DistinctIds tick.at store.queue q) q (picked-AllOpen tick.at store.queue))

-- If no database call fails and each request can be made, then the number of rounds that pick a
-- row is at most the number of deliveries that the rows of the queue have left: one that is open
-- has max_attempts less its attempts, and at least one.
pub rounds-bounded :
    (config : RetryConfig) (ticks : List Tick) (store : Store)
    → DistinctIds store.queue
    → Busy config ticks store
    → length ticks ≤ total (remaining config) store.queue
rounds-bounded config [] store q b = omega arith
rounds-bounded config (tick ∷ ticks) store q ((r, some), b) =
    let after = process_queue config tick store in
    omega (
      arith,
      process_queue-less config tick store r some q,
      rounds-bounded config ticks after
          (process_queue-keeps config (λ s. Unit) tick store (λ _ _ _ _ _ _ _ _. tt) q tt).1 b,
    )
