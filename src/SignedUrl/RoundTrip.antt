-- ===== src/SignedUrl/RoundTrip.antt =====
-- What happens to a token that was generated.
use alyx.Prelude.{
  ℕ, ◌+◌, ◌<◌, ◌≡◌, ◌≢◌, refl, not, ◌||◌, List, [], ◌∷◌, arith, ltb, if◌then◌else◌, length,
}
use alyx.Bytes.{Bytes, bytes_eq, bytes_eq_refl}
use alyx.SignedUrl.{
  NoBar, to_second, Primitives, Outcome, valid, expired_token, invalid_signature, invalid_token,
  payload, sign, generate_signed_url, check_parts, validate_signed_url,
}
use alyx.SignedUrl.Split.{split-payload, bars, length-split, bars-payload}

-- What a token of these fields that expires at `expires_at` is answered.
abbrev pub verdict : Bytes → Bytes → Bytes → ℕ → Bytes → Bytes → Bytes → ℕ → Outcome
verdict file_id bucket operation expires_at user_id asked_file asked_bucket now =
    if not (bytes_eq file_id asked_file) || not (bytes_eq bucket asked_bucket)
    then invalid_signature
    else if ltb (to_second expires_at) now
    then expired_token
    else valid (record {
      file_id = file_id;
      bucket = bucket;
      operation = operation;
      expires_at = to_second expires_at;
      user_id = user_id;
    })

check_parts-length :
    (lib : Primitives) (secret : Bytes) (parts : List Bytes) (file_id bucket : Bytes) (now : ℕ)
    → length parts ≢ 6
    → check_parts lib secret parts file_id bucket now ≡ invalid_token
unfolding check_parts
check_parts-length lib secret (a ∷ b ∷ c ∷ d ∷ e ∷ f ∷ []) file_id bucket now h = absurd (h refl)
check_parts-length lib secret _ file_id bucket now h = refl

module _ (lib : Primitives) (secret : Bytes) where
  module _ (file_id bucket operation user_id : Bytes) (expiry made : ℕ) where
    -- A token made of fields without a bar is answered, for any file, bucket and time: a signature
    -- error for another file or bucket; else that it has expired, from the nanosecond after the
    -- full second of its expiry; else its claims, the expiry cut to the full second.
    pub validate-generate :
        (asked_file asked_bucket : Bytes) (now : ℕ)
        → NoBar file_id
        → NoBar bucket
        → NoBar operation
        → NoBar user_id
        → let made_url =
            generate_signed_url lib secret file_id bucket operation expiry user_id made in
          validate_signed_url lib secret made_url.0 asked_file asked_bucket now
          ≡ verdict file_id bucket operation made_url.1 user_id asked_file asked_bucket now
    unfolding validate_signed_url generate_signed_url sign
    validate-generate asked_file asked_bucket now f b o u =
        rw (lib.decode-encode, split-payload, f, b, o, lib.format-NoBar, u, lib.encode-NoBar)
          (rw (bytes_eq_refl, lib.parse-format))

    -- A token with a bar in its file id, bucket, operation or user id is never accepted.
    pub validate-generate_bar :
        (asked_file asked_bucket : Bytes) (now : ℕ)
        → 0 < bars file_id + bars bucket + bars operation + bars user_id
        → let made_url =
            generate_signed_url lib secret file_id bucket operation expiry user_id made in
          validate_signed_url lib secret made_url.0 asked_file asked_bucket now ≡ invalid_token
    unfolding validate_signed_url generate_signed_url
    validate-generate_bar asked_file asked_bucket now h = rw lib.decode-encode (
        check_parts-length lib secret _ asked_file asked_bucket now (λ e. omega (
          arith,
          length-split _,
          bars-payload file_id bucket operation (lib.format_time (made + expiry)) user_id (
              sign lib secret
                (payload file_id bucket operation (lib.format_time (made + expiry)) user_id)),
        )))
