-- ===== src/SignedUrl.antt =====
-- internal/storage/signed.go: signed URLs for files. Texts are lists of bytes and instants are
-- nanoseconds. HMAC-SHA256, the URL-safe base64 codec and the RFC 3339 format of a time are the
-- record `Primitives`, with the laws that the code relies on.
pub mod Split
pub mod RoundTrip
pub mod Sound
mod Tests
use alyx.Prelude.{
  ℕ, zero, suc, ◌+◌, ◌*◌, ◌/◌, ◌≡◌, Bool, true, false, not, ◌&&◌, ◌||◌, Option, none, some, List,
  [], ◌∷◌, ◌++◌, ltb, ◌==◌, if◌then◌else◌,
}
use alyx.Bytes.{Bytes, bytes_eq}

-- '|'
abbrev pub bar : ℕ
bar = 124

abbrev pub NoBar : Bytes → Type 0
NoBar [] = Unit
NoBar (c ∷ cs) = ((c == bar) ≡ false) × NoBar cs

abbrev pub second : ℕ
second = 1000000000

-- RFC 3339 writes whole seconds.
abbrev pub to_second : ℕ → ℕ
to_second t = t / second * second

pub record Primitives : Type 0 where
  pub mac : Bytes → Bytes → Bytes  -- of a key and a message
  pub encode : Bytes → Bytes
  pub decode : Bytes → Option Bytes
  pub format_time : ℕ → Bytes
  pub parse_time : Bytes → Option ℕ
  pub decode-encode : (b : Bytes) → decode (encode b) ≡ some b
  pub encode-NoBar : (b : Bytes) → NoBar (encode b)
  pub parse-format : (t : ℕ) → parse_time (format_time t) ≡ some (to_second t)
  pub format-NoBar : (t : ℕ) → NoBar (format_time t)

pub record SignedUrlClaims : Type 0 where
  pub file_id : Bytes
  pub bucket : Bytes
  pub operation : Bytes
  pub expires_at : ℕ
  pub user_id : Bytes

pub data Outcome : Type 0 where
  valid : SignedUrlClaims → Outcome
  expired_token : Outcome
  invalid_signature : Outcome
  invalid_token : Outcome

abbrev pub extend_first : ℕ → List Bytes → List Bytes
extend_first c [] = (c ∷ []) ∷ []
extend_first c (part ∷ parts) = (c ∷ part) ∷ parts

-- strings.Split(s, "|")
unfoldable pub split : Bytes → List Bytes
split [] = [] ∷ []
split (c ∷ cs) = let parts = split cs in if c == bar then [] ∷ parts else extend_first c parts

-- fmt.Sprintf("%s|%s|%s|%s|%s", …)
abbrev pub payload : Bytes → Bytes → Bytes → Bytes → Bytes → Bytes
payload file_id bucket operation expires_at user_id =
    file_id ++ (bar ∷ (bucket ++ (bar ∷ (operation ++ (bar ∷ (expires_at ++ (bar ∷ user_id)))))))

module _ (lib : Primitives) (secret : Bytes) where
  unfoldable pub sign : Bytes → Bytes
  sign message = lib.encode (lib.mac secret message)

  -- The token and the expiry that are returned; `now` is the reading of the clock.
  unfoldable pub generate_signed_url : Bytes → Bytes → Bytes → ℕ → Bytes → ℕ → Bytes × ℕ
  generate_signed_url file_id bucket operation expiry user_id now =
      let expires_at = now + expiry in
      let message = payload file_id bucket operation (lib.format_time expires_at) user_id in
      (lib.encode (message ++ (bar ∷ sign message)), expires_at)

  -- From the parsing of the expiry on.
  unfoldable pub check_expiry : SignedUrlClaims → Option ℕ → ℕ → Outcome
  check_expiry claims none now = invalid_token
  check_expiry claims (some expires_at) now =
      if ltb expires_at now
      then expired_token
      else valid (record claims { expires_at = expires_at })

  unfoldable pub check_parts : List Bytes → Bytes → Bytes → ℕ → Outcome
  unfolding check_expiry
  check_parts (token_file_id ∷ token_bucket ∷ operation ∷ expires_at_str ∷ user_id ∷ signature ∷ [])
        file_id bucket now =
      if not (bytes_eq token_file_id file_id) || not (bytes_eq token_bucket bucket)
      then invalid_signature
      else if not (
          bytes_eq signature
            (sign (payload token_file_id token_bucket operation expires_at_str user_id)))
      then invalid_signature
      else check_expiry
          (record {
            file_id = token_file_id;
            bucket = token_bucket;
            operation = operation;
            expires_at = 0;
            user_id = user_id;
          })
          (lib.parse_time expires_at_str) now
  check_parts _ file_id bucket now = invalid_token

  unfoldable pub check_decoded : Option Bytes → Bytes → Bytes → ℕ → Outcome
  unfolding check_parts
  check_decoded none file_id bucket now = invalid_token
  check_decoded (some decoded) file_id bucket now = check_parts (split decoded) file_id bucket now

  unfoldable pub validate_signed_url : Bytes → Bytes → Bytes → ℕ → Outcome
  unfolding check_decoded
  validate_signed_url token file_id bucket now = check_decoded (lib.decode token) file_id bucket now

  -- handlers/files.go, validateToken: the claimed operation must be the one that is asked for.
  unfoldable pub validate_token : Bytes → Bytes → Bytes → Bytes → ℕ → Outcome
  validate_token token file_id bucket operation now =
      elim (validate_signed_url token file_id bucket now) [
        | valid claims ↦
            if not (bytes_eq claims.operation operation) then invalid_signature else valid claims
        | expired_token ↦ expired_token
        | invalid_signature ↦ invalid_signature
        | invalid_token ↦ invalid_token
      ]
