-- ===== src/BruteForce.antt =====
-- internal/server/bruteforce.go: failed logins counted for each key, within a window that begins
-- at the first of them. Instants and durations are nanoseconds; `now.Sub(t) >= w` is
-- `t + w <= now`. A failure reads the clock when it makes a record and again when it has locked
-- it. Each call and each sweep of `cleanupLoop` is one atomic step.
pub mod Steps
pub mod Exact
pub mod Release
mod Tests
use alyx.Prelude.{
  ℕ, suc, ◌+◌, ◌*◌, String, Bool, true, false, Option, none, some, List, [], ◌∷◌, ltb, leb,
  if◌then◌else◌, str_eq,
}
use alyx.Map.{GoMap, lookup, insert, delete, delete_where}

pub record AttemptRecord : Type 0 where
  pub count : ℕ
  pub first_attempt : ℕ

pub record BruteForceProtector : Type 0 where
  pub attempts : GoMap AttemptRecord
  pub threshold : ℕ
  pub window : ℕ

unfoldable pub new : ℕ → ℕ → BruteForceProtector
new threshold window = record { attempts = []; threshold = threshold; window = window }

unfoldable pub record_of : Option AttemptRecord → ℕ → AttemptRecord
record_of none created = record { count = 0; first_attempt = created }
record_of (some r) created = r

-- A failure after the window begins a new one.
unfoldable pub tally : ℕ → AttemptRecord → ℕ → AttemptRecord
tally window r now =
    if leb (r.first_attempt + window) now
    then record { count = 1; first_attempt = now }
    else record r { count = r.count + 1 }

unfoldable pub record_failed_attempt : BruteForceProtector → String → ℕ → ℕ → BruteForceProtector
record_failed_attempt bfp key created now = record bfp {
  attempts =
      insert key (tally bfp.window (record_of (lookup key bfp.attempts) created) now) bfp.attempts;
}

unfoldable pub blocks : ℕ → ℕ → Option AttemptRecord → ℕ → Bool
blocks threshold window none now = false
blocks threshold window (some r) now =
    if leb (r.first_attempt + window) now then false else leb threshold r.count

unfoldable pub is_blocked : BruteForceProtector → String → ℕ → Bool
is_blocked bfp key now = blocks bfp.threshold bfp.window (lookup key bfp.attempts) now

unfoldable pub clear_attempts : BruteForceProtector → String → BruteForceProtector
clear_attempts bfp key = record bfp { attempts = delete key bfp.attempts }

-- The test of the cleanup loop.
unfoldable pub is_stale : ℕ → ℕ → AttemptRecord → Bool
is_stale window now r = ltb (r.first_attempt + window * 2) now

unfoldable pub cleanup : BruteForceProtector → ℕ → BruteForceProtector
cleanup bfp now = record bfp { attempts = delete_where (is_stale bfp.window now) bfp.attempts }

-- A run: failures, successes and sweeps in the order in which they take the lock.
pub data Event : Type 0 where
  failure : String → ℕ → ℕ → Event
  success : String → Event
  sweep : ℕ → Event

unfoldable pub step : BruteForceProtector → Event → BruteForceProtector
step bfp (failure key created now) = record_failed_attempt bfp key created now
step bfp (success key) = clear_attempts bfp key
step bfp (sweep now) = cleanup bfp now

unfoldable pub run : BruteForceProtector → List Event → BruteForceProtector
run bfp [] = bfp
run bfp (e ∷ es) = run (step bfp e) es
