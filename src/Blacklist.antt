-- ===== src/Blacklist.antt =====
-- internal/auth/blacklist.go: revoked tokens with the instant at which each expires by itself.
-- Instants are nanoseconds. Each call, and each sweep of the `cleanup` loop, is one atomic step.
pub mod Exact
mod Tests
use alyx.Prelude.{
  ℕ, String, Bool, true, false, Option, none, some, List, [], ◌∷◌, ltb, if◌then◌else◌, length,
}
use alyx.Map.{GoMap, lookup, insert, delete_where}

pub record TokenBlacklist : Type 0 where
  pub tokens : GoMap ℕ

unfoldable pub new : TokenBlacklist
new = record { tokens = [] }

unfoldable pub revoke : TokenBlacklist → String → ℕ → TokenBlacklist
revoke bl token expires_at = record { tokens = insert token expires_at bl.tokens }

-- now.After(expiresAt)
unfoldable pub is_expired : ℕ → ℕ → Bool
is_expired now expires_at = ltb expires_at now

unfoldable pub in_force : ℕ → Option ℕ → Bool
unfolding is_expired
in_force now none = false
in_force now (some expires_at) = if is_expired now expires_at then false else true

unfoldable pub is_revoked : TokenBlacklist → String → ℕ → Bool
is_revoked bl token now = in_force now (lookup token bl.tokens)

unfoldable pub cleanup : TokenBlacklist → ℕ → TokenBlacklist
cleanup bl now = record { tokens = delete_where (is_expired now) bl.tokens }

unfoldable pub count : TokenBlacklist → ℕ
count bl = length bl.tokens

pub data Event : Type 0 where
  revocation : String → ℕ → Event
  sweep : ℕ → Event

unfoldable pub step : TokenBlacklist → Event → TokenBlacklist
step bl (revocation token expires_at) = revoke bl token expires_at
step bl (sweep now) = cleanup bl now

unfoldable pub run : TokenBlacklist → List Event → TokenBlacklist
run bl [] = bl
run bl (e ∷ es) = run (step bl e) es
