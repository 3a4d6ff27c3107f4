-- ===== src/RateLimit/Tests.antt =====
-- Runs of the rate limiter, and its theorems at concrete inputs.
use alyx.Prelude.{◌*◌, ◌≤◌, min, ◌≡◌, refl, true, false, List, [], ◌∷◌, arith, length}
use alyx.Map.{lookup, insert, delete_where}
use alyx.RateLimit.{
  RateLimiter, Event, request, sweep, too_many_requests, new, draw, allow, cleanup, is_stale,
  middleware, client_key, step, replies,
}
use alyx.RateLimit.Bound.{IsValid, count_true, admitted-le-double}
use alyx.RateLimit.Exact.{admitted_fresh}
use alyx.RateLimit.Isolation.{only, replies-only}

abbrev two_per_ten : RateLimiter
two_per_ten = new (record { max = 2; window = 10 })

abbrev run : List Event
run =
    request "a" 100 100
    ∷ request "b" 101 101
    ∷ request "a" 102 102
    ∷ sweep 103
    ∷ request "a" 104 104
    ∷ []

-- Two requests pass, the third is refused; after the window the bucket is full again.
refused_third : replies "a" two_per_ten (run) ≡ true ∷ true ∷ false ∷ []
unfolding replies step new allow cleanup draw is_stale lookup insert delete_where
refused_third = refl

-- Across the refill at 110, three requests pass within ten units of time, one more than `max`.
double_burst :
    replies "a"
      (step two_per_ten (request "a" 100 100))
      (request "a" 109 109 ∷ request "a" 110 110 ∷ request "a" 111 111 ∷ request "a" 112 112 ∷ [])
    ≡ true ∷ true ∷ true ∷ false ∷ []
unfolding replies step new allow draw lookup insert
double_burst = refl

proxied :
    client_key (record { remote_addr = "10.0.0.1"; forwarded_for = "1.2.3.4"; real_ip = "" })
    ≡ "1.2.3.4"
unfolding client_key
proxied = refl

blocked :
    (middleware
      (new (record { max = 0; window = 10 }))
      (record { remote_addr = "10.0.0.1"; forwarded_for = ""; real_ip = "" })
      5
      5).1
    ≡ too_many_requests
unfolding middleware new allow draw lookup insert
blocked = refl

new-IsValid : IsValid two_per_ten
unfolding new lookup
new-IsValid = record { distinct = tt; filled = λ key b h. cc }

admitted-le-double_example : count_true (replies "a" two_per_ten run) ≤ 2 * 2
unfolding new
admitted-le-double_example = admitted-le-double "a" two_per_ten run 100 new-IsValid (omega arith)

abbrev later : List Event
later = request "b" 101 101 ∷ request "a" 102 102 ∷ sweep 103 ∷ request "a" 104 104 ∷ []

admitted_fresh_example :
    let answers = replies "a" two_per_ten (request "a" 100 100 ∷ later) in
    count_true answers ≡ min 2 (length answers)
unfolding new lookup
admitted_fresh_example = admitted_fresh "a" two_per_ten 100 100 later tt refl (omega arith)

replies-only_example : replies "a" two_per_ten run ≡ replies "a" two_per_ten (only "a" run)
unfolding new
replies-only_example = replies-only "a" two_per_ten run tt
