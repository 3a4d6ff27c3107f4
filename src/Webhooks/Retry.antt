-- ===== src/Webhooks/Retry.antt =====
-- internal/webhooks/retry.go: the queue of failed deliveries and the worker that retries them. The
-- table of the queue is a list of rows, in the order in which SQLite leaves rows of one creation
-- time; instants in a row are seconds, as RFC 3339 cuts them. What the endpoint, the clocks, the
-- generator of ids and the database do in one retry is the record `Reply`.
pub mod Rows
pub mod Picked
pub mod Effects
pub mod Rounds
pub mod Ledger
pub mod Stuck
mod Tests
use Prim.Native.Nat.{◌^◌}
use alyx.Prelude.{
  ℕ, suc, ◌+◌, ◌*◌, ◌/◌, ◌%◌, ◌-◌, min, String, Bool, true, false, ◌&&◌, ◌||◌, not, Option, none,
  some, List, [], ◌∷◌, ◌++◌, ltb, leb, if◌then◌else◌, str_eq, take, filter, map, length,
}
use alyx.Bytes.{Bytes}
use alyx.Map.{GoMap}

pub record RetryConfig : Type 0 where
  pub max_attempts : ℕ
  pub base_delay : ℕ
  pub poll_interval : ℕ

abbrev pub second : ℕ
second = 1000000000

abbrev pub default_retry_config : RetryConfig
default_retry_config = record {
  max_attempts = 5;
  base_delay = 1 * second;
  poll_interval = 5 * second;
}

pub data Status : Type 0 where
  pending retrying succeeded failed : Status

pub record QueuedWebhook : Type 0 where
  pub id : String
  pub webhook_id : String
  pub endpoint_url : String
  pub payload : Bytes
  pub headers : GoMap Bytes
  pub attempt : ℕ
  pub next_retry_at : Option ℕ
  pub status : Status
  pub created_at : ℕ
  pub updated_at : ℕ

pub data LastError : Type 0 where
  request_failed : Bytes → LastError
  http_status : ℕ → Bytes → LastError

-- A row of _alyx_webhook_dlq.
pub record DeadLetter : Type 0 where
  pub id : String
  pub webhook_id : String
  pub endpoint_url : String
  pub payload : Bytes
  pub headers : GoMap Bytes
  pub attempts : ℕ
  pub last_error : LastError
  pub created_at : ℕ

pub record Store : Type 0 where
  pub queue : List QueuedWebhook
  pub dlq : List DeadLetter

pub data Delivery : Type 0 where
  no_request : Delivery  -- http.NewRequestWithContext fails
  unreachable : Bytes → Delivery
  answered : ℕ → Bytes → Delivery

pub record Reply : Type 0 where
  pub delivery : Delivery
  pub retry_from : ℕ  -- the clock as calculateNextRetry reads it
  pub now : ℕ
  pub dlq_id : String
  pub write_fails : Bool

pub data Problem : Type 0 where
  creating_request updating_queue marking_success moving_to_dlq : Problem

-- A time in RFC 3339.
abbrev pub format : ℕ → ℕ
format t = t / second

abbrev pub power_of_two : ℕ → ℕ
power_of_two ℕ.zero = 1
power_of_two (suc n) = 2 * power_of_two n

-- now.Add(delay), for the 64 bits of a delay, which is negative from 2 ^ 63 on; a time before the
-- epoch stops at 0.
abbrev pub add_delay : ℕ → ℕ → ℕ
add_delay now bits = if ltb bits (2 ^ 63) then now + bits else now - (2 ^ 64 - bits)

unfoldable pub calculate_next_retry : RetryConfig → ℕ → ℕ → ℕ
calculate_next_retry config attempt now =
    add_delay now ((config.base_delay * power_of_two (min attempt 30)) % 2 ^ 64)

-- UPDATE _alyx_webhook_queue SET … WHERE id = ?
unfoldable pub update :
    String → (QueuedWebhook → QueuedWebhook) → List QueuedWebhook → List QueuedWebhook
update id change [] = []
update id change (row ∷ rows) =
    let rest = update id change rows in if str_eq row.id id then change row ∷ rest else row ∷ rest

abbrev pub set_retrying : ℕ → ℕ → ℕ → QueuedWebhook → QueuedWebhook
set_retrying attempt next now row = record row {
  attempt = attempt;
  next_retry_at = some next;
  status = retrying;
  updated_at = now;
}

abbrev pub set_status : Status → ℕ → QueuedWebhook → QueuedWebhook
set_status status now row = record row { status = status; updated_at = now }

unfoldable pub mark_success : Store → Reply → QueuedWebhook → Store × Option Problem
mark_success store reply webhook = if reply.write_fails then (store, some marking_success) else (
  record store { queue = update webhook.id (set_status succeeded (format reply.now)) store.queue },
  none,
)

abbrev pub dead_letter : QueuedWebhook → ℕ → LastError → Reply → DeadLetter
dead_letter webhook attempts error reply = record {
  id = reply.dlq_id;
  webhook_id = webhook.webhook_id;
  endpoint_url = webhook.endpoint_url;
  payload = webhook.payload;
  headers = webhook.headers;
  attempts = attempts;
  last_error = error;
  created_at = format reply.now;
}

-- One transaction: both writes, or none.
unfoldable pub move_to_dlq : Store → Reply → QueuedWebhook → ℕ → LastError → Store × Option Problem
move_to_dlq store reply webhook attempts error =
    if reply.write_fails then (store, some moving_to_dlq) else (
      record {
        queue = update webhook.id (set_status failed (format reply.now)) store.queue;
        dlq = store.dlq ++ (dead_letter webhook attempts error reply ∷ []);
      },
      none,
    )

unfoldable pub schedule : RetryConfig → Store → Reply → QueuedWebhook → ℕ → Store × Option Problem
unfolding calculate_next_retry
schedule config store reply webhook attempt =
    if reply.write_fails then (store, some updating_queue) else (
      record store {
        queue =
            update webhook.id
              (set_retrying attempt (format (calculate_next_retry config attempt reply.retry_from))
                (format reply.now))
              store.queue;
      },
      none,
    )

unfoldable pub handle_retry_failure :
    RetryConfig → Store → Reply → QueuedWebhook → LastError → Store × Option Problem
unfolding move_to_dlq schedule
handle_retry_failure config store reply webhook error =
    let attempt = webhook.attempt + 1 in
    if leb config.max_attempts attempt
    then move_to_dlq store reply webhook attempt error
    else schedule config store reply webhook attempt

unfoldable pub is_success : ℕ → Bool
is_success code = leb 200 code && ltb code 300

unfoldable pub handle_delivery :
    RetryConfig → Store → Reply → QueuedWebhook → Delivery → Store × Option Problem
unfolding handle_retry_failure mark_success is_success
handle_delivery config store reply webhook no_request = (store, some creating_request)
handle_delivery config store reply webhook (unreachable text) =
    handle_retry_failure config store reply webhook (request_failed text)
handle_delivery config store reply webhook (answered code body) =
    if is_success code
    then mark_success store reply webhook
    else handle_retry_failure config store reply webhook (http_status code body)

unfoldable pub retry_webhook : RetryConfig → Store → Reply → QueuedWebhook → Store × Option Problem
unfolding handle_delivery
retry_webhook config store reply webhook = handle_delivery config store reply webhook reply.delivery

-- status IN ('pending', 'retrying')
unfoldable pub is_open : Status → Bool
is_open pending = true
is_open retrying = true
is_open succeeded = false
is_open failed = false

-- next_retry_at IS NULL OR next_retry_at <= ?
abbrev pub reached : Option ℕ → ℕ → Bool
reached none now = true
reached (some next) now = leb next now

unfoldable pub is_due : ℕ → QueuedWebhook → Bool
unfolding is_open
is_due now row = is_open row.status && reached row.next_retry_at now

-- ORDER BY created_at ASC
unfoldable pub insert_by_creation : QueuedWebhook → List QueuedWebhook → List QueuedWebhook
insert_by_creation row [] = row ∷ []
insert_by_creation row (next ∷ rest) =
    let after = insert_by_creation row rest in
    if leb row.created_at next.created_at then row ∷ (next ∷ rest) else next ∷ after

unfoldable pub sort_by_creation : List QueuedWebhook → List QueuedWebhook
unfolding insert_by_creation
sort_by_creation [] = []
sort_by_creation (row ∷ rows) = insert_by_creation row (sort_by_creation rows)

-- The rows that the query of processQueue returns.
unfoldable pub picked : ℕ → List QueuedWebhook → List QueuedWebhook
unfolding is_due sort_by_creation
picked now rows = take 100 (sort_by_creation (filter (is_due (format now)) rows))

-- The loop of processQueue: an error is logged, and the next row follows.
unfoldable pub retry_all :
    RetryConfig → (QueuedWebhook → Reply) → Store → List QueuedWebhook → Store
unfolding retry_webhook
retry_all config world store [] = store
retry_all config world store (webhook ∷ rest) =
    retry_all config world (retry_webhook config store (world webhook) webhook).0 rest

-- A tick of the worker: when it comes, and what the world answers.
pub record Tick : Type 0 where
  pub at : ℕ
  pub query_fails : Bool
  pub world : QueuedWebhook → Reply

unfoldable pub process_queue : RetryConfig → Tick → Store → Store
unfolding picked retry_all
process_queue config tick store =
    if tick.query_fails
    then store
    else retry_all config tick.world store (picked tick.at store.queue)

unfoldable pub enqueue_webhook :
    String → String → String → Bytes → GoMap Bytes → ℕ → Bool → Store → Store
enqueue_webhook id webhook_id endpoint_url payload headers now write_fails store =
    if write_fails then store else record store {
      queue =
          store.queue
          ++ (record {
            id = id;
            webhook_id = webhook_id;
            endpoint_url = endpoint_url;
            payload = payload;
            headers = headers;
            attempt = 0;
            next_retry_at = none;
            status = pending;
            created_at = format now;
            updated_at = format now;
          }
              ∷ []);
    }
