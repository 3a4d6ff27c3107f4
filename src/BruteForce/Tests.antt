-- ===== src/BruteForce/Tests.antt =====
-- Runs of the protector, and its theorems at concrete inputs.
use alyx.Prelude.{◌≡◌, refl, true, false, List, [], ◌∷◌, arith, leb}
use alyx.Map.{lookup, insert, delete, delete_where}
use alyx.BruteForce.{
  BruteForceProtector, Event, failure, success, sweep, new, record_of, tally, record_failed_attempt,
  blocks, is_blocked, clear_attempts, is_stale, cleanup, step, run,
}
use alyx.BruteForce.Exact.{failures, is_blocked-run}
use alyx.BruteForce.Release.{not_blocked_later}

abbrev two_in_ten : BruteForceProtector
two_in_ten = new 2 10

abbrev attack : List Event
attack = failure "b" 101 101 ∷ success "b" ∷ sweep 102 ∷ failure "a" 103 103 ∷ []

abbrev attacked : BruteForceProtector
attacked = run two_in_ten (failure "a" 100 100 ∷ attack)

blocked_then_free : (is_blocked attacked "a" 109 ≡ true) × (is_blocked attacked "a" 110 ≡ false)
unfolding is_blocked blocks run step record_failed_attempt clear_attempts cleanup is_stale record_of
    tally new lookup insert delete delete_where
blocked_then_free = (refl, refl)

is_blocked-run_example :
    is_blocked attacked "a" 109 ≡ leb 2 (failures "a" (failure "a" 100 100 ∷ attack))
unfolding new lookup
is_blocked-run_example =
    is_blocked-run "a" two_in_ten 100 100 attack 109 tt refl
      (omega arith, (omega arith, (refl, (omega arith, (omega arith, tt))))) (omega arith)

not_blocked_later_example : is_blocked attacked "a" 113 ≡ false
unfolding new lookup
not_blocked_later_example =
    not_blocked_later "a" two_in_ten (failure "a" 100 100 ∷ attack) 103 113 tt tt
      (
        λ e. (omega arith, omega arith),
        (λ e. (omega arith, omega arith), (λ e. (omega arith, omega arith), tt)),
      )
      (omega arith)
