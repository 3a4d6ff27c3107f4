-- ===== src/Webhooks/Retry/Effects.antt =====
-- What one retry does to the queue and to the dead letters.
use alyx.Prelude.{
  ℕ, suc, ◌+◌, ◌-◌, ◌<◌, ◌≡◌, refl, true, false, [], ◌∷◌, ◌⊎◌, inl, inr, arith, Bool-cases,
  if◌then◌else◌, leb, length, length-append,
}
use alyx.Webhooks.Retry.{
  RetryConfig, Status, pending, retrying, succeeded, failed, QueuedWebhook, LastError,
  request_failed, http_status, Store, Delivery, no_request, unreachable, answered, Reply, update,
  format, set_retrying, set_status, dead_letter, mark_success, move_to_dlq, schedule,
  calculate_next_retry, handle_retry_failure, is_success, handle_delivery, retry_webhook, is_open,
}
use alyx.Webhooks.Retry.Rows.{KeepsId}

-- How many deliveries a row has left.
abbrev pub remaining : RetryConfig → QueuedWebhook → ℕ
remaining config row = if is_open row.status then suc (config.max_attempts - suc row.attempt) else 0

abbrev pub failures_of : Status → ℕ
failures_of pending = 0
failures_of retrying = 0
failures_of succeeded = 0
failures_of failed = 1

abbrev pub failures : QueuedWebhook → ℕ
failures row = failures_of row.status

-- A row that is open has attempts left.
abbrev pub Within : RetryConfig → QueuedWebhook → Type 0
Within config row = is_open row.status ≡ true → row.attempt < config.max_attempts

-- One row is rewritten, with fewer deliveries left; a dead letter is added if it has failed.
abbrev pub Rewrites : RetryConfig → QueuedWebhook → Store → Store → Type 0
Rewrites config w before after =
    (change : QueuedWebhook → QueuedWebhook) × KeepsId change
    × (after.queue ≡ update w.id change before.queue)
    × (remaining config (change w) < remaining config w)
    × Within config (change w)
    × (length after.dlq + failures w ≡ length before.dlq + failures (change w))

open-failures : (row : QueuedWebhook) → is_open row.status ≡ true → failures row ≡ 0
unfolding is_open
open-failures row h = by_status row.status h
  where
    by_status : (s : Status) → is_open s ≡ true → failures_of s ≡ 0
    by_status pending h = refl
    by_status retrying h = refl
    by_status succeeded h = refl
    by_status failed h = absurd (ground arith)

-- A request could be made at all.
abbrev pub Requested : Delivery → Type 0
Requested no_request = ⊥
Requested (unreachable text) = Unit
Requested (answered code body) = Unit

Requested-cases : (delivery : Delivery) → Requested delivery ⊎ (delivery ≡ no_request)
Requested-cases no_request = inr refl
Requested-cases (unreachable text) = inl tt
Requested-cases (answered code body) = inl tt

module _ (config : RetryConfig) (store : Store) (reply : Reply) (w : QueuedWebhook) where
  mark_success-Rewrites :
      is_open w.status ≡ true
      → reply.write_fails ≡ false
      → Rewrites config w store (mark_success store reply w).0
  unfolding mark_success is_open
  mark_success-Rewrites o f =
      rw (f, o, open-failures w o)
        (
          set_status succeeded (format reply.now),
          λ row. refl,
          refl,
          omega arith,
          λ closed. absurd (ground arith),
          refl,
        )

  move_to_dlq-Rewrites :
      (attempts : ℕ) (error : LastError)
      → is_open w.status ≡ true
      → reply.write_fails ≡ false
      → Rewrites config w store (move_to_dlq store reply w attempts error).0
  unfolding move_to_dlq is_open
  move_to_dlq-Rewrites attempts error o f =
      rw (f, o, open-failures w o)
        (
          set_status failed (format reply.now),
          λ row. refl,
          refl,
          omega arith,
          λ closed. absurd (ground arith),
          omega (arith, length-append store.dlq (dead_letter w attempts error reply ∷ [])),
        )

  schedule-Rewrites :
      leb config.max_attempts (w.attempt + 1) ≡ false
      → is_open w.status ≡ true
      → reply.write_fails ≡ false
      → Rewrites config w store (schedule config store reply w (w.attempt + 1)).0
  unfolding schedule is_open
  schedule-Rewrites l o f =
      rw (f, o, open-failures w o)
        (
          set_retrying (w.attempt + 1)
              (format (calculate_next_retry config (w.attempt + 1) reply.retry_from))
              (format reply.now),
          λ row. refl,
          refl,
          ground arith,
          λ opened. ground arith,
          refl,
        )

  handle_retry_failure-Rewrites :
      (error : LastError)
      → is_open w.status ≡ true
      → reply.write_fails ≡ false
      → Rewrites config w store (handle_retry_failure config store reply w error).0
  unfolding handle_retry_failure
  handle_retry_failure-Rewrites error o f =
      elim (Bool-cases (leb config.max_attempts (w.attempt + 1))) [
        | inl over ↦ rw over (move_to_dlq-Rewrites (w.attempt + 1) error o f)
        | inr left ↦ rw left (schedule-Rewrites left o f)
      ]

  handle_delivery-Rewrites :
      (delivery : Delivery)
      → Requested delivery
      → is_open w.status ≡ true
      → reply.write_fails ≡ false
      → Rewrites config w store (handle_delivery config store reply w delivery).0
  unfolding handle_delivery
  handle_delivery-Rewrites no_request r o f = absurd r
  handle_delivery-Rewrites (unreachable text) r o f =
      handle_retry_failure-Rewrites (request_failed text) o f
  handle_delivery-Rewrites (answered code body) r o f = elim (Bool-cases (is_success code)) [
    | inl fine ↦ rw fine (mark_success-Rewrites o f)
    | inr wrong ↦ rw wrong (handle_retry_failure-Rewrites (http_status code body) o f)
  ]

  pub retry_webhook-Rewrites :
      Requested reply.delivery
      → is_open w.status ≡ true
      → reply.write_fails ≡ false
      → Rewrites config w store (retry_webhook config store reply w).0
  unfolding retry_webhook
  retry_webhook-Rewrites r o f = handle_delivery-Rewrites reply.delivery r o f

  handle_retry_failure-fails :
      (error : LastError)
      → reply.write_fails ≡ true
      → (handle_retry_failure config store reply w error).0 ≡ store
  unfolding handle_retry_failure move_to_dlq schedule
  handle_retry_failure-fails error f = ground arith

  handle_delivery-fails :
      (delivery : Delivery)
      → (reply.write_fails ≡ true) ⊎ (delivery ≡ no_request)
      → (handle_delivery config store reply w delivery).0 ≡ store
  unfolding handle_delivery mark_success
  handle_delivery-fails no_request h = refl
  handle_delivery-fails (unreachable text) (inl f) =
      handle_retry_failure-fails (request_failed text) f
  handle_delivery-fails (answered code body) (inl f) = elim (Bool-cases (is_success code)) [
    | inl fine ↦ rw (fine, f) refl
    | inr wrong ↦ rw wrong (handle_retry_failure-fails (http_status code body) f)
  ]
  handle_delivery-fails (unreachable text) (inr e) = absurd (cc)
  handle_delivery-fails (answered code body) (inr e) = absurd (cc)

  -- A retry changes nothing, or rewrites its row.
  pub retry_webhook-cases :
      is_open w.status ≡ true
      → ((retry_webhook config store reply w).0 ≡ store)
        ⊎ Rewrites config w store (retry_webhook config store reply w).0
  unfolding retry_webhook
  retry_webhook-cases o = elim (Bool-cases reply.write_fails) [
    | inl f ↦ inl (handle_delivery-fails reply.delivery (inl f))
    | inr f ↦ elim (Requested-cases reply.delivery) [
      | inl r ↦ inr (handle_delivery-Rewrites reply.delivery r o f)
      | inr unmade ↦ inl (handle_delivery-fails reply.delivery (inr unmade))
    ]
  ]
