-- ===== src/RateLimit/Bound.antt =====
-- How many requests of one key are admitted in a stretch of time of one window.
use alyx.Prelude.{
  ℕ, ◌+◌, ◌*◌, ◌≤◌, ◌<◌, String, ◌≡◌, refl, Bool, Option, none, some, List, [], ◌∷◌, arith, ltb,
  if◌then◌else◌, str_eq, inl, inr, Bool-cases, eq_iff,
}
use alyx.Map.{IsMap}
use alyx.Map.Laws.{keep}
use alyx.RateLimit.Steps.{
  step-IsMap, rule-step, bucket_for, bucket_for-request, bucket_for-sweep, allow-draw,
}
use alyx.RateLimit.{
  Rule, Bucket, RateLimiter, Event, request, sweep, draw, is_stale, step, reply_to, replies,
}

-- The times of an event lie in the stretch of one window that begins at `start`.
abbrev pub During : ℕ → ℕ → Event → Type 0
During start window (request k created now) =
    (start ≤ created) × (created < start + window) × (start ≤ now) × (now < start + window)
During start window (sweep now) = now < start + window

abbrev pub AllDuring : ℕ → ℕ → List Event → Type 0
AllDuring start window [] = Unit
AllDuring start window (e ∷ es) = During start window e × AllDuring start window es

abbrev pub count_true : List Bool → ℕ
count_true [] = 0
count_true (b ∷ bs) = (if b then 1 else 0) + count_true bs

-- What the key can still draw within the stretch: its tokens, and a refill if one is due in it.
abbrev credit : Rule → Option Bucket → ℕ → ℕ
credit rule none start = rule.max
credit rule (some b) start = if ltb b.last_refill start then b.tokens + rule.max else b.tokens

draw-credit :
    (rule : Rule) (found : Option Bucket) (start created now : ℕ)
    → During start rule.window (request "" created now)
    → let (b, admitted) = draw rule found created now in
      (if admitted then 1 else 0) + credit rule (some b) start ≤ credit rule found start
unfolding draw
draw-credit rule none start created now h = ground arith
draw-credit rule (some b) start created now h = ground arith

keep-credit :
    (rule : Rule) (found : Option Bucket) (start now : ℕ)
    → now < start + rule.window
    → credit rule (keep (is_stale rule now) found) start ≤ credit rule found start
unfolding is_stale
keep-credit rule none start now h = omega arith
keep-credit rule (some b) start now h = ground arith

step-credit :
    (key : String) (rl : RateLimiter) (e : Event) (start : ℕ) (rest : List Bool)
    → IsMap rl.buckets
    → During start rl.rule.window e
    → count_true (reply_to key rl e rest) + credit rl.rule (bucket_for key (step rl e)) start
      ≤ credit rl.rule (bucket_for key rl) start + count_true rest
step-credit key rl (request k created now) start rest m h =
    rw bucket_for-request (elim (Bool-cases (str_eq k key)) [
      | inl same ↦
          rw (same, allow-draw, (eq_iff k key).0 same)
            (omega (arith, draw-credit rl.rule (bucket_for key rl) start created now h))
      | inr other ↦ rw other (omega arith)
    ])
step-credit key rl (sweep now) start rest m h =
    rw (bucket_for-sweep, m) (omega (arith, keep-credit rl.rule (bucket_for key rl) start now h))

admitted-le-credit :
    (key : String) (rl : RateLimiter) (es : List Event) (start : ℕ)
    → IsMap rl.buckets
    → AllDuring start rl.rule.window es
    → count_true (replies key rl es) ≤ credit rl.rule (bucket_for key rl) start
unfolding replies step
admitted-le-credit key rl [] start m h = omega arith
admitted-le-credit key rl (e ∷ es) start m h = omega (
  arith,
  step-credit key rl e start (replies key (step rl e) es) m h.0,
  rw rule-step at
      (admitted-le-credit key (step rl e) es start (step-IsMap rl e m) (rw rule-step h.1)),
)

-- Every bucket holds at most `max` tokens.
pub record IsValid (rl : RateLimiter) : Type 0 where
  pub distinct : IsMap rl.buckets
  pub filled : (key : String) (b : Bucket) → bucket_for key rl ≡ some b → b.tokens ≤ rl.rule.max

draw-filled :
    (rule : Rule) (found : Option Bucket) (created now : ℕ)
    → ((b : Bucket) → found ≡ some b → b.tokens ≤ rule.max)
    → (draw rule found created now).0.tokens ≤ rule.max
unfolding draw
draw-filled rule none created now h = ground arith
draw-filled rule (some b) created now h = ground (arith, h b refl)

keep-some :
    (p : Bucket → Bool) (found : Option Bucket) (b : Bucket)
    → keep p found ≡ some b
    → found ≡ some b
keep-some p none b h = h
keep-some p (some c) b h = ground arith

step-filled :
    (rl : RateLimiter) (e : Event)
    → IsValid rl
    → (key : String) (b : Bucket) → bucket_for key (step rl e) ≡ some b
    → b.tokens ≤ rl.rule.max
step-filled rl (request k created now) v key b h = elim (Bool-cases (str_eq k key)) [
  | inl same ↦
      let same_bucket : some (draw rl.rule (bucket_for k rl) created now).0 ≡ some b =
        rw (bucket_for-request, same) at h in
      ground (arith, draw-filled rl.rule (bucket_for k rl) created now (v.filled k))
  | inr other ↦ v.filled key b (rw (bucket_for-request, other) at h)
]
step-filled rl (sweep now) v key b h =
    v.filled key b (keep-some _ _ b (rw (bucket_for-sweep, v.distinct) at h))

-- A request or a sweep leaves the keys distinct and no bucket above its maximum.
pub step-IsValid : (rl : RateLimiter) (e : Event) → IsValid rl → IsValid (step rl e)
step-IsValid rl e v = record {
  distinct = step-IsMap rl e v.distinct;
  filled = λ key b h. rw rule-step (step-filled rl e v key b h);
}

credit-le-double :
    (rule : Rule) (found : Option Bucket) (start : ℕ)
    → ((b : Bucket) → found ≡ some b → b.tokens ≤ rule.max)
    → credit rule found start ≤ 2 * rule.max
credit-le-double rule none start h = omega arith
credit-le-double rule (some b) start h = ground (arith, h b refl)

-- In a run of requests and sweeps whose times all lie in one stretch of a window's length, in
-- whatever order, at most 2 * max requests of any one key are admitted.
pub admitted-le-double :
    (key : String) (rl : RateLimiter) (es : List Event) (start : ℕ)
    → IsValid rl
    → AllDuring start rl.rule.window es
    → count_true (replies key rl es) ≤ 2 * rl.rule.max
admitted-le-double key rl es start v h = omega (
  arith,
  admitted-le-credit key rl es start v.distinct h,
  credit-le-double rl.rule (bucket_for key rl) start (v.filled key),
)

-- A key with no bucket is granted at most `max` requests in such a stretch.
pub admitted-le-max :
    (key : String) (rl : RateLimiter) (es : List Event) (start : ℕ)
    → IsMap rl.buckets
    → bucket_for key rl ≡ none
    → AllDuring start rl.rule.window es
    → count_true (replies key rl es) ≤ rl.rule.max
admitted-le-max key rl es start m fresh h = rw fresh at (admitted-le-credit key rl es start m h)
