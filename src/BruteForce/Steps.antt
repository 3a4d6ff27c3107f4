-- ===== src/BruteForce/Steps.antt =====
-- What one step does to the record of one key.
use alyx.Prelude.{ℕ, String, ◌≡◌, refl, Option, none, some, if◌then◌else◌, str_eq}
use alyx.Map.{lookup, IsMap}
use alyx.Map.Laws.{
  keep, lookup-insert, lookup-delete, lookup-delete_where, insert-IsMap, delete-IsMap,
  delete_where-IsMap,
}
use alyx.BruteForce.{
  AttemptRecord, BruteForceProtector, Event, failure, success, sweep, record_of, tally,
  record_failed_attempt, clear_attempts, is_stale, cleanup, step,
}

pub step-IsMap :
    (bfp : BruteForceProtector) (e : Event) → IsMap bfp.attempts → IsMap (step bfp e).attempts
unfolding step record_failed_attempt clear_attempts cleanup
step-IsMap bfp (failure k created now) h = insert-IsMap k _ bfp.attempts h
step-IsMap bfp (success k) h = delete-IsMap k bfp.attempts h
step-IsMap bfp (sweep now) h = delete_where-IsMap _ bfp.attempts h

pub window-step : (bfp : BruteForceProtector) (e : Event) → (step bfp e).window ≡ bfp.window
unfolding step record_failed_attempt clear_attempts cleanup
window-step bfp (failure k created now) = refl
window-step bfp (success k) = refl
window-step bfp (sweep now) = refl

pub threshold-step :
    (bfp : BruteForceProtector) (e : Event) → (step bfp e).threshold ≡ bfp.threshold
unfolding step record_failed_attempt clear_attempts cleanup
threshold-step bfp (failure k created now) = refl
threshold-step bfp (success k) = refl
threshold-step bfp (sweep now) = refl

abbrev pub record_for : String → BruteForceProtector → Option AttemptRecord
record_for key bfp = lookup key bfp.attempts

pub record_for-failure :
    (key k : String) (bfp : BruteForceProtector) (created now : ℕ)
    → record_for key (step bfp (failure k created now)) ≡ (
        if str_eq k key
        then some (tally bfp.window (record_of (record_for k bfp) created) now)
        else record_for key bfp)
unfolding step record_failed_attempt
record_for-failure key k bfp created now = lookup-insert k key _ bfp.attempts

pub record_for-success :
    (key k : String) (bfp : BruteForceProtector)
    → record_for key (step bfp (success k)) ≡ (if str_eq k key then none else record_for key bfp)
unfolding step clear_attempts
record_for-success key k bfp = lookup-delete k key bfp.attempts

pub record_for-sweep :
    (key : String) (bfp : BruteForceProtector) (now : ℕ)
    → IsMap bfp.attempts
    → record_for key (step bfp (sweep now)) ≡ keep (is_stale bfp.window now) (record_for key bfp)
unfolding step cleanup
record_for-sweep key bfp now h = lookup-delete_where _ key bfp.attempts h
