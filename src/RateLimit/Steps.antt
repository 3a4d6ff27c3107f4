-- ===== src/RateLimit/Steps.antt =====
-- What one step of the rate limiter does to the bucket of one key.
use alyx.Prelude.{ℕ, String, ◌≡◌, refl, Option, some, if◌then◌else◌, str_eq}
use alyx.Map.{lookup, IsMap}
use alyx.Map.Laws.{keep, lookup-insert, lookup-delete_where, insert-IsMap, delete_where-IsMap}
use alyx.RateLimit.{
  Bucket, RateLimiter, Event, request, sweep, draw, allow, cleanup, is_stale, step,
}

pub step-IsMap : (rl : RateLimiter) (e : Event) → IsMap rl.buckets → IsMap (step rl e).buckets
unfolding step allow cleanup
step-IsMap rl (request k created now) h = insert-IsMap k _ rl.buckets h
step-IsMap rl (sweep now) h = delete_where-IsMap _ rl.buckets h

pub rule-step : (rl : RateLimiter) (e : Event) → (step rl e).rule ≡ rl.rule
unfolding step allow cleanup
rule-step rl (request k created now) = refl
rule-step rl (sweep now) = refl

abbrev pub bucket_for : String → RateLimiter → Option Bucket
bucket_for key rl = lookup key rl.buckets

pub bucket_for-request :
    (key k : String) (rl : RateLimiter) (created now : ℕ)
    → bucket_for key (step rl (request k created now)) ≡ (
        if str_eq k key
        then some (draw rl.rule (bucket_for k rl) created now).0
        else bucket_for key rl)
unfolding step allow
bucket_for-request key k rl created now = lookup-insert k key _ rl.buckets

pub bucket_for-sweep :
    (key : String) (rl : RateLimiter) (now : ℕ)
    → IsMap rl.buckets
    → bucket_for key (step rl (sweep now)) ≡ keep (is_stale rl.rule now) (bucket_for key rl)
unfolding step cleanup
bucket_for-sweep key rl now h = lookup-delete_where _ key rl.buckets h

pub allow-draw :
    (rl : RateLimiter) (k : String) (created now : ℕ)
    → (allow rl k created now).1 ≡ (draw rl.rule (bucket_for k rl) created now).1
unfolding allow
allow-draw rl k created now = refl
