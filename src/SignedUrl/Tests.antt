-- ===== src/SignedUrl/Tests.antt =====
-- Primitives that meet their laws, and the theorems about signed URLs at concrete inputs.
use alyx.Prelude.{ℕ, ◌+◌, ◌-◌, ◌≡◌, refl, ap, Option, none, some, [], ◌∷◌, ◌++◌, map, arith}
use alyx.Bytes.{Bytes, bytes_eq}
use alyx.SignedUrl.{
  bar, NoBar, to_second, Primitives, SignedUrlClaims, valid, expired_token, invalid_signature,
  invalid_token, split, sign, generate_signed_url, validate_signed_url,
}
use alyx.SignedUrl.RoundTrip.{verdict, validate-generate, validate-generate_bar}
use alyx.SignedUrl.Sound.{Accepted, validate-Accepted}

-- A code that moves every byte past the bar.
abbrev lift : Bytes → Bytes
lift b = map (λ c. c + 125) b

lift-NoBar : (b : Bytes) → NoBar (lift b)
lift-NoBar [] = tt
lift-NoBar (c ∷ b) = (ground arith, lift-NoBar b)

lower : Bytes → Bytes
lower [] = []
lower (c ∷ b) = (c - 125) ∷ lower b

lower-lift : (b : Bytes) → lower (lift b) ≡ b
unfolding lower
lower-lift [] = refl
lower-lift (c ∷ b) = rw (lower-lift b) (ap (λ d. d ∷ b) (omega arith))

abbrev parse_one : Bytes → Option ℕ
parse_one [] = none
parse_one (c ∷ _) = some (c - 125)

parse_one-format : (t : ℕ) → parse_one ((to_second t + 125) ∷ []) ≡ some (to_second t)
parse_one-format t = ap some (omega arith)

format-NoBar : (t : ℕ) → NoBar ((to_second t + 125) ∷ [])
format-NoBar t = (ground arith, tt)

abbrev toy : Primitives
toy = record {
  mac = λ key message. key ++ message;
  encode = lift;
  decode = λ b. some (lower b);
  format_time = λ t. (to_second t + 125) ∷ [];
  parse_time = parse_one;
  decode-encode = λ b. ap some (lower-lift b);
  encode-NoBar = lift-NoBar;
  parse-format = parse_one-format;
  format-NoBar = format-NoBar;
}

abbrev url : Bytes × ℕ
url = generate_signed_url toy (7 ∷ []) (1 ∷ 2 ∷ []) (3 ∷ []) (4 ∷ []) 2500000000 (5 ∷ []) 1000000000

abbrev claims : SignedUrlClaims
claims = record {
  file_id = 1 ∷ 2 ∷ [];
  bucket = 3 ∷ [];
  operation = 4 ∷ [];
  expires_at = 3000000000;
  user_id = 5 ∷ [];
}

-- The token that is to expire at 3.5 s is accepted at 3 s, and no longer at 3.2 s.
url_answers :
    (validate_signed_url toy (7 ∷ []) url.0 (1 ∷ 2 ∷ []) (3 ∷ []) 3000000000 ≡ valid claims)
    × (url.1 ≡ 3500000000)
    × (validate_signed_url toy (7 ∷ []) url.0 (1 ∷ 2 ∷ []) (3 ∷ []) 3200000000 ≡ expired_token)
    × (validate_signed_url toy (8 ∷ []) url.0 (1 ∷ 2 ∷ []) (3 ∷ []) 3000000000 ≡ invalid_signature)
unfolding validate_signed_url generate_signed_url sign split bytes_eq lower
url_answers = (refl, refl, refl, refl)

validate-generate_example :
    validate_signed_url toy (7 ∷ []) url.0 (1 ∷ 2 ∷ []) (3 ∷ []) 3200000000
    ≡ verdict (1 ∷ 2 ∷ []) (3 ∷ []) (4 ∷ []) url.1 (5 ∷ []) (1 ∷ 2 ∷ []) (3 ∷ []) 3200000000
validate-generate_example =
    validate-generate toy (7 ∷ []) (1 ∷ 2 ∷ []) (3 ∷ []) (4 ∷ []) (5 ∷ []) 2500000000 1000000000
      (1 ∷ 2 ∷ []) (3 ∷ []) 3200000000 (refl, (refl, tt)) (refl, tt) (refl, tt) (refl, tt)

abbrev barred : Bytes × ℕ
barred = generate_signed_url toy (7 ∷ []) (1 ∷ []) (3 ∷ []) (4 ∷ []) 25 (5 ∷ bar ∷ []) 10

validate-generate_bar_example :
    validate_signed_url toy (7 ∷ []) barred.0 (1 ∷ []) (3 ∷ []) 12 ≡ invalid_token
validate-generate_bar_example =
    validate-generate_bar toy (7 ∷ []) (1 ∷ []) (3 ∷ []) (4 ∷ []) (5 ∷ bar ∷ []) 25 10 (1 ∷ [])
      (3 ∷ []) 12 (omega arith)

validate-Accepted_example :
    (decoded : Bytes) × (toy.decode url.0 ≡ some decoded)
    × Accepted toy (7 ∷ []) (1 ∷ 2 ∷ []) (3 ∷ []) 3000000000 (split decoded) claims
validate-Accepted_example =
    validate-Accepted toy (7 ∷ []) (1 ∷ 2 ∷ []) (3 ∷ []) 3000000000 url.0 claims url_answers.0
