-- ===== src/RateLimit.antt =====
-- internal/server/ratelimit.go: one counter of admitted requests for each client key.
-- Instants and durations are nanoseconds, natural numbers; `now.Sub(t) >= w` is `t + w <= now`.
-- A call reads the clock when it creates a bucket and again when it has locked it, so `allow`
-- takes both readings. Each call and each sweep of `cleanupLoop` is one atomic step.
pub mod Steps
pub mod Bound
pub mod Exact
pub mod Isolation
mod Tests
use alyx.Prelude.{
  ℕ, ◌+◌, ◌*◌, ◌-◌, String, Bool, true, false, Option, none, some, List, [], ◌∷◌, ltb, leb,
  if◌then◌else◌, str_eq,
}
use alyx.Map.{GoMap, lookup, insert, delete_where}

-- config.RateLimitRule
pub record Rule : Type 0 where
  pub max : ℕ
  pub window : ℕ

pub record Bucket : Type 0 where
  pub tokens : ℕ
  pub last_refill : ℕ

pub record RateLimiter : Type 0 where
  pub buckets : GoMap Bucket
  pub rule : Rule

unfoldable pub new : Rule → RateLimiter
new rule = record { buckets = []; rule = rule }

-- The bucket of the key, or the full one that is put into the map.
unfoldable pub bucket_of : Rule → Option Bucket → ℕ → Bucket
bucket_of rule none created = record { tokens = rule.max; last_refill = created }
bucket_of rule (some b) created = b

unfoldable pub refill : Rule → Bucket → ℕ → Bucket
refill rule b now =
    if leb (b.last_refill + rule.window) now
    then record { tokens = rule.max; last_refill = now }
    else b

unfoldable pub spend : Bucket → Bucket × Bool
spend b = if ltb 0 b.tokens then (record b { tokens = b.tokens - 1 }, true) else (b, false)

-- What one request does to the bucket of its key.
unfoldable pub draw : Rule → Option Bucket → ℕ → ℕ → Bucket × Bool
unfolding bucket_of refill spend
draw rule found created now = spend (refill rule (bucket_of rule found created) now)

unfoldable pub allow : RateLimiter → String → ℕ → ℕ → RateLimiter × Bool
allow rl key created now =
    let (b, admitted) = draw rl.rule (lookup key rl.buckets) created now in
    (record rl { buckets = insert key b rl.buckets }, admitted)

-- The test of the cleanup loop: now.Sub(b.lastRefill) > rl.rule.Window*2.
unfoldable pub is_stale : Rule → ℕ → Bucket → Bool
is_stale rule now b = ltb (b.last_refill + rule.window * 2) now

unfoldable pub cleanup : RateLimiter → ℕ → RateLimiter
cleanup rl now = record rl { buckets = delete_where (is_stale rl.rule now) rl.buckets }

-- What the middleware reads of a request; `Header.Get` gives "" for a missing header.
pub record Request : Type 0 where
  pub remote_addr : String
  pub forwarded_for : String
  pub real_ip : String

pub data Outcome : Type 0 where
  too_many_requests : Outcome
  served : Outcome

unfoldable pub client_key : Request → String
client_key r =
    if str_eq r.real_ip ""
    then if str_eq r.forwarded_for "" then r.remote_addr else r.forwarded_for
    else r.real_ip

abbrev pub outcome : Bool → Outcome
outcome true = served
outcome false = too_many_requests

unfoldable pub middleware : RateLimiter → Request → ℕ → ℕ → RateLimiter × Outcome
unfolding client_key
middleware rl r created now =
    let (rl', admitted) = allow rl (client_key r) created now in (rl', outcome admitted)

-- A run: requests and sweeps in the order in which they take the lock.
pub data Event : Type 0 where
  request : String → ℕ → ℕ → Event
  sweep : ℕ → Event

unfoldable pub step : RateLimiter → Event → RateLimiter
step rl (request key created now) = (allow rl key created now).0
step rl (sweep now) = cleanup rl now

-- The replies that requests of one key get in a run, in order.
abbrev pub reply_to : String → RateLimiter → Event → List Bool → List Bool
reply_to key rl (request k created now) rest =
    if str_eq k key then (allow rl k created now).1 ∷ rest else rest
reply_to key rl (sweep now) rest = rest

unfoldable pub replies : String → RateLimiter → List Event → List Bool
replies key rl [] = []
replies key rl (e ∷ es) = reply_to key rl e (replies key (step rl e) es)
