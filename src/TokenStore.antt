-- ===== src/TokenStore.antt =====
-- internal/functions/token.go: short-lived tokens for calls from containers to the host.
-- Instants and durations are nanoseconds. The bytes that `rand.Read` yields, or its failure, and
-- the text of the clock that then replaces them are arguments. Each call, and each sweep of the
-- `cleanup` loop, is one atomic step.
pub mod Exact
mod Tests
use Prim.Native.Char.{Char}
use alyx.Prelude.{
  ℕ, ◌+◌, ◌/◌, ◌%◌, String, Bool, true, false, Option, none, some, List, [], ◌∷◌, ltb,
  if◌then◌else◌, length, get_or,
}
use alyx.Map.{GoMap, lookup, insert, delete, delete_where}

-- encoding/hex
abbrev hex_digits : List Char
hex_digits =
    "0" ∷ "1" ∷ "2" ∷ "3" ∷ "4" ∷ "5" ∷ "6" ∷ "7" ∷ "8" ∷ "9" ∷ "a" ∷ "b" ∷ "c" ∷ "d" ∷ "e" ∷ "f"
    ∷ []

unfoldable pub hex_encode : List ℕ → String
hex_encode [] = ""
hex_encode (b ∷ bs) =
    String.◌∷◌ (get_or hex_digits (b / 16) "0")
      (String.◌∷◌ (get_or hex_digits (b % 16) "0") (hex_encode bs))

-- A token entry holds only its `createdAt`.
pub record InternalTokenStore : Type 0 where
  pub tokens : GoMap ℕ
  pub ttl : ℕ

unfoldable pub new : ℕ → InternalTokenStore
new ttl = record { tokens = []; ttl = ttl }

-- The random bytes, or the clock's text where the source of randomness fails.
unfoldable pub token_of : Option (List ℕ) → List ℕ → String
token_of none clock_text = hex_encode clock_text
token_of (some bytes) clock_text = hex_encode bytes

unfoldable pub generate :
    InternalTokenStore → Option (List ℕ) → List ℕ → ℕ → InternalTokenStore × String
generate s random clock_text now =
    let token = token_of random clock_text in
    (record s { tokens = insert token now s.tokens }, token)

-- now.Sub(entry.createdAt) > s.ttl
unfoldable pub is_expired : ℕ → ℕ → ℕ → Bool
is_expired ttl now created_at = ltb (created_at + ttl) now

unfoldable pub check : InternalTokenStore → String → ℕ → Option ℕ → InternalTokenStore × Bool
check s token now none = (s, false)
check s token now (some created_at) =
    if is_expired s.ttl now created_at
    then (record s { tokens = delete token s.tokens }, false)
    else (s, true)

unfoldable pub validate : InternalTokenStore → String → ℕ → InternalTokenStore × Bool
unfolding check
validate s token now = check s token now (lookup token s.tokens)

unfoldable pub revoke : InternalTokenStore → String → InternalTokenStore
revoke s token = record s { tokens = delete token s.tokens }

unfoldable pub cleanup : InternalTokenStore → ℕ → InternalTokenStore
cleanup s now = record s { tokens = delete_where (is_expired s.ttl now) s.tokens }

unfoldable pub count : InternalTokenStore → ℕ
count s = length s.tokens

pub data Event : Type 0 where
  generation : Option (List ℕ) → List ℕ → ℕ → Event
  validation : String → ℕ → Event
  revocation : String → Event
  sweep : ℕ → Event

unfoldable pub step : InternalTokenStore → Event → InternalTokenStore
step s (generation random clock_text now) = (generate s random clock_text now).0
step s (validation token now) = (validate s token now).0
step s (revocation token) = revoke s token
step s (sweep now) = cleanup s now

unfoldable pub run : InternalTokenStore → List Event → InternalTokenStore
run s [] = s
run s (e ∷ es) = run (step s e) es
