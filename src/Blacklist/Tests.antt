-- ===== src/Blacklist/Tests.antt =====
-- Runs of the blacklist, and its theorems at concrete inputs.
use alyx.Prelude.{◌↔◌, ◌≡◌, refl, true, false, List, [], ◌∷◌, arith, none}
use alyx.Map.{lookup, insert, delete_where}
use alyx.Blacklist.{Event, revocation, sweep, new, revoke, in_force, is_revoked, cleanup, step, run}
use alyx.Blacklist.Exact.{NotOver, last_expiry, is_revoked-run}

abbrev history : List Event
history = revocation "t" 50 ∷ sweep 40 ∷ revocation "u" 60 ∷ sweep 55 ∷ []

revoked_until_expiry :
    (is_revoked (run new (revocation "t" 50 ∷ sweep 40 ∷ [])) "t" 50 ≡ true)
    × (is_revoked (run new history) "t" 56 ≡ false)
    × (is_revoked (run new history) "u" 56 ≡ true)
unfolding is_revoked in_force run step new revoke cleanup lookup insert delete_where
revoked_until_expiry = (refl, refl, refl)

is_revoked-run_example :
    (is_revoked (run new history) "u" 56 ≡ true) ↔ NotOver 56 (last_expiry "u" none history)
unfolding new lookup
is_revoked-run_example = is_revoked-run "u" 56 new history tt (omega arith, (omega arith, tt))
