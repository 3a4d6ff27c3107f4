-- ===== src/RateLimit/Exact.antt =====
-- Exactly which requests are admitted before the next refill is due.
use alyx.Prelude.{
  ℕ, suc, ◌+◌, ◌-◌, ◌<◌, min, String, ◌≡◌, refl, ◌∙◌, true, Option, none, some, List, [], ◌∷◌,
  arith, ltb, if◌then◌else◌, str_eq, eq_iff, eq_refl, inl, inr, Bool-cases, length,
}
use alyx.Map.{IsMap}
use alyx.Map.Laws.{keep}
use alyx.RateLimit.{Rule, Bucket, RateLimiter, Event, request, sweep, draw, is_stale, step, replies}
use alyx.RateLimit.Steps.{
  step-IsMap, rule-step, bucket_for, bucket_for-request, bucket_for-sweep, allow-draw,
}
use alyx.RateLimit.Bound.{count_true}

abbrev pub AllBefore : ℕ → List Event → Type 0
AllBefore due [] = Unit
AllBefore due (request k created now ∷ es) = (now < due) × AllBefore due es
AllBefore due (sweep now ∷ es) = (now < due) × AllBefore due es

abbrev with_tokens : ℕ → ℕ → Option Bucket
with_tokens n t = some (record { tokens = n; last_refill = t })

-- A bucket that is not due for a refill gives one token if it has one.
draw-early :
    (rule : Rule) (n t created now : ℕ)
    → now < t + rule.window
    → draw rule (with_tokens n t) created now
      ≡ (record { tokens = n - 1; last_refill = t }, ltb 0 n)
unfolding draw
draw-early rule n t created now h = ground arith

keep-early :
    (rule : Rule) (n t now : ℕ)
    → now < t + rule.window
    → keep (is_stale rule now) (with_tokens n t) ≡ with_tokens n t
unfolding is_stale
keep-early rule n t now h = ground arith

-- A new bucket is a full one, created at the first reading of the clock.
draw-fresh :
    (rule : Rule) (created now : ℕ)
    → draw rule none created now ≡ draw rule (with_tokens rule.max created) created now
unfolding draw
draw-fresh rule created now = refl

min-grant : (n k c : ℕ) → c ≡ min (n - 1) k → (if ltb 0 n then 1 else 0) + c ≡ min n (suc k)
min-grant n k c h = ground arith

module _ (key : String) (rule : Rule) (t : ℕ) where
  drawn_early :
      (rl : RateLimiter) (k : String) (created now n : ℕ)
      → str_eq k key ≡ true
      → rl.rule ≡ rule
      → bucket_for key rl ≡ with_tokens n t
      → now < t + rule.window
      → draw rl.rule (bucket_for k rl) created now
        ≡ (record { tokens = n - 1; last_refill = t }, ltb 0 n)
  drawn_early rl k created now n same r b h =
      rw ((eq_iff k key).0 same) (rw (b, r) (draw-early rule n t created now h))

  -- Until the refill is due, the first `n` requests are admitted and no other.
  admitted_early :
      (rl : RateLimiter) (es : List Event) (n : ℕ)
      → IsMap rl.buckets
      → rl.rule ≡ rule
      → bucket_for key rl ≡ with_tokens n t
      → AllBefore (t + rule.window) es
      → count_true (replies key rl es) ≡ min n (length (replies key rl es))
  unfolding replies
  admitted_early rl [] n m r b h = omega arith
  admitted_early rl (request k created now ∷ es) n m r b h = elim (Bool-cases (str_eq k key)) [
    | inl same ↦
        let drawn = drawn_early rl k created now n same r b h.0 in
        rw (same, allow-draw, drawn)
          (min-grant n _ _ (
            admitted_early (step rl (request k created now)) es (n - 1) (step-IsMap rl _ m)
              (rw rule-step r) (rw (bucket_for-request, same, drawn) refl) h.1))
    | inr other ↦ rw other (
        admitted_early (step rl (request k created now)) es n (step-IsMap rl _ m) (rw rule-step r)
          (rw (bucket_for-request, other) b) h.1)
  ]
  admitted_early rl (sweep now ∷ es) n m r b h =
      admitted_early (step rl (sweep now)) es n (step-IsMap rl _ m) (rw rule-step r)
        (rw (bucket_for-sweep, m) (rw (b, r) (keep-early rule n t now h.0))) h.1

-- A key with no bucket: until a window has passed since its first request made one, exactly the
-- first `max` of its requests are admitted, whatever requests of other keys and sweeps there are.
pub admitted_fresh :
    (key : String) (rl : RateLimiter) (created now : ℕ) (es : List Event)
    → IsMap rl.buckets
    → bucket_for key rl ≡ none
    → AllBefore (created + rl.rule.window) (request key created now ∷ es)
    → let answers = replies key rl (request key created now ∷ es) in
      count_true answers ≡ min rl.rule.max (length answers)
unfolding replies
admitted_fresh key rl created now es m fresh h =
    let drawn : draw rl.rule (bucket_for key rl) created now
        ≡ (record { tokens = rl.rule.max - 1; last_refill = created }, ltb 0 rl.rule.max) =
      rw fresh
        (draw-fresh rl.rule created now ∙ draw-early rl.rule rl.rule.max created created now h.0) in
    rw (eq_refl, allow-draw, drawn)
      (min-grant rl.rule.max _ _ (
        admitted_early key rl.rule created (step rl (request key created now)) es (rl.rule.max - 1)
          (step-IsMap rl _ m) (rule-step rl _) (rw (bucket_for-request, eq_refl, drawn) refl) h.1))
