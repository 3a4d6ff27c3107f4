-- ===== src/RateLimit/Isolation.antt =====
-- The replies to one key do not depend on the requests of the others.
use alyx.Prelude.{
  ℕ, String, ◌≡◌, refl, false, List, [], ◌∷◌, if◌then◌else◌, str_eq, eq_iff, inl, inr, Bool-cases,
}
use alyx.Map.{IsMap}
use alyx.RateLimit.{allow, RateLimiter, Event, request, sweep, step, replies}
use alyx.RateLimit.Steps.{
  step-IsMap, rule-step, bucket_for, bucket_for-request, bucket_for-sweep, allow-draw,
}

-- The requests of one key, and the sweeps.
abbrev pub only : String → List Event → List Event
only key [] = []
only key (request k created now ∷ es) =
    if str_eq k key then request k created now ∷ only key es else only key es
only key (sweep now ∷ es) = sweep now ∷ only key es

-- Two limiters that treat the key alike.
record Agree (key : String) (a b : RateLimiter) : Type 0 where
  rules : a.rule ≡ b.rule
  found : bucket_for key a ≡ bucket_for key b
  left : IsMap a.buckets
  right : IsMap b.buckets

Agree-step :
    (key : String) (a b : RateLimiter) (e : Event) → Agree key a b → Agree key (step a e) (step b e)
Agree-step key a b (request k created now) h = record {
  rules = rw (rule-step a, rule-step b) h.rules;
  found =
      rw (bucket_for-request key k a, bucket_for-request key k b)
        (elim (Bool-cases (str_eq k key)) [
          | inl same ↦ rw (same, (eq_iff k key).0 same, h.rules, h.found)
          | inr other ↦ rw other h.found
        ]);
  left = step-IsMap a _ h.left;
  right = step-IsMap b _ h.right;
}
Agree-step key a b (sweep now) h = record {
  rules = rw (rule-step a, rule-step b) h.rules;
  found =
      rw (bucket_for-sweep key a now h.left, bucket_for-sweep key b now h.right, h.rules, h.found);
  left = step-IsMap a _ h.left;
  right = step-IsMap b _ h.right;
}

Agree-other :
    (key k : String) (a b : RateLimiter) (created now : ℕ)
    → str_eq k key ≡ false
    → Agree key a b
    → Agree key (step a (request k created now)) b
Agree-other key k a b created now other h = record {
  rules = rw rule-step h.rules;
  found = rw (bucket_for-request, other) h.found;
  left = step-IsMap a _ h.left;
  right = h.right;
}

same_reply :
    (key k : String) (a b : RateLimiter) (created now : ℕ)
    → k ≡ key
    → Agree key a b
    → (allow a k created now).1 ≡ (allow b k created now).1
same_reply key k a b created now e h =
    rw e (rw (allow-draw a, allow-draw b) (cc (h.rules, h.found)))

replies-Agree :
    (key : String) (a b : RateLimiter) (es : List Event)
    → Agree key a b
    → replies key a es ≡ replies key b (only key es)
unfolding replies
replies-Agree key a b [] h = refl
replies-Agree key a b (request k created now ∷ es) h = elim (Bool-cases (str_eq k key)) [
  | inl same ↦ rw same (
      cc (
        same_reply key k a b created now ((eq_iff k key).0 same) h,
        replies-Agree key (step a (request k created now)) (step b (request k created now)) es
            (Agree-step key a b _ h),
      ))
  | inr other ↦
      rw other (replies-Agree key (step a _) b es (Agree-other key k a b created now other h))
]
replies-Agree key a b (sweep now ∷ es) h =
    replies-Agree key (step a (sweep now)) (step b (sweep now)) es (Agree-step key a b _ h)

-- A key's requests get the replies that they would get if no other key had sent a request.
pub replies-only :
    (key : String) (rl : RateLimiter) (es : List Event)
    → IsMap rl.buckets
    → replies key rl es ≡ replies key rl (only key es)
replies-only key rl es m =
    replies-Agree key rl rl es (record { rules = refl; found = refl; left = m; right = m })
