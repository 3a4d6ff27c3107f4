-- ===== src/Webhooks/Retry/Tests.antt =====
-- A queue with one delivery, and the theorems at it.
use alyx.Prelude.{ℕ, ◌≡◌, ◌≤◌, ◌*◌, refl, false, none, List, [], ◌∷◌, arith, inl, filter}
use alyx.Webhooks.Retry.Rows.{Holds}
use alyx.Webhooks.Retry.{
  pending, QueuedWebhook, RetryConfig, default_retry_config, Reply, Store, Tick, Delivery,
  unreachable, no_request, picked, retry_all, process_queue, calculate_next_retry, second,
  enqueue_webhook, is_due, sort_by_creation, insert_by_creation, is_open, update, retry_webhook,
  handle_delivery, handle_retry_failure, schedule, move_to_dlq, DeadLetter,
}
use alyx.Webhooks.Retry.Rounds.{rounds, rounds-bounded}
use alyx.Webhooks.Retry.Ledger.{Event, enqueued, ticked, run, IsLedger, run-IsLedger}
use alyx.Webhooks.Retry.Stuck.{rounds-stuck}

abbrev empty : Store
empty = record { queue = []; dlq = [] }

abbrev reply : ℕ → Delivery → Reply
reply now delivery = record {
  delivery = delivery;
  retry_from = now;
  now = now;
  dlq_id = "dlq-1";
  write_fails = false;
}

abbrev tick : ℕ → Delivery → Tick
tick at delivery = record { at = at; query_fails = false; world = λ w. reply at delivery }

abbrev twice : RetryConfig
twice = record default_retry_config { max_attempts = 2 }

abbrev waiting : QueuedWebhook
waiting = record {
  id = "q-1";
  webhook_id = "w-1";
  endpoint_url = "https://a";
  payload = [];
  headers = [];
  attempt = 0;
  next_retry_at = none;
  status = pending;
  created_at = 7;
  updated_at = 7;
}

abbrev queued : Store
queued = record { queue = waiting ∷ []; dlq = [] }

abbrev events : List Event
events =
    enqueued "q-1" "w-1" "https://a" [] [] (7 * second) false
    ∷ ticked (tick (8 * second) (unreachable []))
    ∷ ticked (tick (11 * second) (unreachable []))
    ∷ []

-- The delays of the second and of the forty-first attempt.
delays :
    (calculate_next_retry default_retry_config 1 0 ≡ 2 * second)
    × (calculate_next_retry default_retry_config 40 0 ≡ 1073741824 * second)
unfolding calculate_next_retry
delays = (refl, refl)

attempts_of : List DeadLetter → List ℕ
attempts_of [] = []
attempts_of (letter ∷ rest) = letter.attempts ∷ attempts_of rest

gives_up : attempts_of (run twice empty events).dlq ≡ 2 ∷ []
unfolding run picked retry_all process_queue enqueue_webhook is_due sort_by_creation
    insert_by_creation is_open update retry_webhook handle_delivery handle_retry_failure schedule
    move_to_dlq attempts_of calculate_next_retry
gives_up = refl

rounds-bounded_example : 2 ≤ 2
unfolding picked retry_all process_queue is_due sort_by_creation insert_by_creation is_open update
    retry_webhook handle_delivery handle_retry_failure schedule move_to_dlq calculate_next_retry
rounds-bounded_example =
    rounds-bounded twice
      (tick (8 * second) (unreachable []) ∷ tick (11 * second) (unreachable []) ∷ []) queued
      (tt, tt)
      (
        ((refl, λ w. (refl, tt)), λ e. ground arith),
        (((refl, λ w. (refl, tt)), λ e. ground arith), tt),
      )

run-IsLedger_example : IsLedger twice (run twice empty events)
run-IsLedger_example =
    run-IsLedger twice events empty (omega arith) (tt, (tt, (tt, tt))) tt (tt, refl)

rounds-stuck_example : Holds waiting (
    filter
      (is_due 9)
      (rounds twice
        (tick (8 * second) no_request ∷ tick (9 * second) no_request ∷ [])
        queued).queue)
unfolding is_due is_open
rounds-stuck_example =
    rounds-stuck twice (tick (8 * second) no_request ∷ tick (9 * second) no_request ∷ []) queued
      waiting 8 9 (tt, tt) (inl refl) refl (omega arith) (refl, (refl, tt))
