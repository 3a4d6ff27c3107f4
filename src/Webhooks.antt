-- ===== src/Webhooks.antt =====
-- internal/webhooks/verification.go, and handler.go up to the call of the function: which requests
-- to a webhook reach its function. HMAC, hexadecimal and the folding of a header's name to lower
-- case are the record `Primitives`, with the laws the code relies on. Error texts are constructors.
pub mod Accept
pub mod Guard
pub mod Retry
mod Tests
use alyx.Prelude.{
  ℕ, ◌≡◌, String, Bool, true, false, not, ◌&&◌, Option, none, some, List, [], ◌∷◌, ◌==◌, ltb,
  if◌then◌else◌, length, str_eq,
}
use alyx.Bytes.{Bytes, bytes_eq}
use alyx.Map.{GoMap, lookup}

-- '='
abbrev pub equals : ℕ
equals = 61

abbrev pub NoEquals : Bytes → Type 0
NoEquals [] = Unit
NoEquals (c ∷ cs) = ((c == equals) ≡ false) × NoEquals cs

pub record Primitives : Type 0 where
  pub hmac_sha256 : Bytes → Bytes → Bytes  -- of a key and a message
  pub hmac_sha1 : Bytes → Bytes → Bytes
  pub encode_hex : Bytes → Bytes
  pub decode_hex : Bytes → Option Bytes
  pub to_lower : String → String
  pub decode-encode : (b : Bytes) → decode_hex (encode_hex b) ≡ some b
  pub encode-NoEquals : (b : Bytes) → NoEquals (encode_hex b)

pub record WebhookVerification : Type 0 where
  pub type : String
  pub header : String
  pub secret : Bytes
  pub skip_invalid : Bool

pub record WebhookEndpoint : Type 0 where
  pub id : String
  pub path : String
  pub function_id : String
  pub methods : List String
  pub verification : Option WebhookVerification
  pub enabled : Bool

pub data Problem : Type 0 where
  unsupported_type invalid_format signature_mismatch : Problem

-- `error` is `none` where the source leaves it "".
pub record VerificationResult : Type 0 where
  pub valid : Bool
  pub error : Option Problem
  pub method : String

-- What follows the first '=', if there is one.
unfoldable pub after_equals : Bytes → Option Bytes
after_equals [] = none
after_equals (c ∷ cs) = if c == equals then some cs else after_equals cs

abbrev pub or_whole : Bytes → Option Bytes → Bytes
or_whole whole none = whole
or_whole whole (some part) = part

unfoldable pub actual_hex : Bytes → Bytes
actual_hex signature = or_whole signature (after_equals signature)

unfoldable pub compare_mac : String → Bytes → Option Bytes → VerificationResult
compare_mac method expected none = record {
  valid = false;
  error = some invalid_format;
  method = method;
}
compare_mac method expected (some actual) =
    if bytes_eq expected actual
    then record { valid = true; error = none; method = method }
    else record { valid = false; error = some signature_mismatch; method = method }

module _ (lib : Primitives) where
  unfoldable pub verify_signature : Option WebhookVerification → Bytes → Bytes → VerificationResult
  verify_signature none body signature = record { valid = true; error = none; method = "none" }
  verify_signature (some v) body signature =
      let actual = lib.decode_hex (actual_hex signature) in
      if str_eq v.type "hmac-sha256"
      then compare_mac "hmac-sha256" (lib.hmac_sha256 v.secret body) actual
      else if str_eq v.type "hmac-sha1"
      then compare_mac "hmac-sha1" (lib.hmac_sha1 v.secret body) actual
      else record { valid = false; error = some unsupported_type; method = v.type }

  -- The first header, in the order of the list, with that name in lower case; "" if there is none.
  unfoldable pub find_folded : String → GoMap Bytes → Bytes
  find_folded lower [] = []
  find_folded lower ((k, v) ∷ rest) =
      let found = find_folded lower rest in if str_eq (lib.to_lower k) lower then v else found

  -- headers[headerName], if it is there and not "".
  abbrev pub exact_or : Bytes → Option Bytes → Bytes
  exact_or other none = other
  exact_or other (some []) = other
  exact_or other (some (c ∷ cs)) = c ∷ cs

  unfoldable pub extract_signature : GoMap Bytes → String → Bytes
  extract_signature headers name =
      exact_or (find_folded (lib.to_lower name) headers) (lookup name headers)

pub record Request : Type 0 where
  pub path : String
  pub method : String
  pub headers : GoMap Bytes  -- the first value of each header
  pub query : GoMap Bytes
  pub body : Option Bytes  -- `none` if it cannot be read

pub record Payload : Type 0 where
  pub method : String
  pub path : String
  pub headers : GoMap Bytes
  pub body : Bytes
  pub query : GoMap Bytes
  pub verified : Bool
  pub webhook_id : String
  pub verification_error : Option Problem

pub data Outcome : Type 0 where
  not_found method_not_allowed unreadable_body invalid_signature : Outcome
  invoked : String → Payload → Outcome

abbrev any_equal : String → List String → Bool
any_equal method [] = false
any_equal method (allowed ∷ rest) =
    let found = any_equal method rest in if str_eq allowed method then true else found

unfoldable pub is_method_allowed : WebhookEndpoint → String → Bool
is_method_allowed endpoint method =
    if length endpoint.methods == 0 then true else any_equal method endpoint.methods

abbrev pub payload_of : WebhookEndpoint → Request → Bytes → VerificationResult → Payload
payload_of endpoint r body result = record {
  method = r.method;
  path = r.path;
  headers = r.headers;
  body = body;
  query = r.query;
  verified = result.valid;
  webhook_id = endpoint.id;
  verification_error = result.error;
}

module _ (lib : Primitives) where
  abbrev pub verified_by : Option WebhookVerification → Request → Bytes → VerificationResult
  verified_by none r body = record { valid = true; error = none; method = "none" }
  verified_by (some v) r body =
      verify_signature lib (some v) body (extract_signature lib r.headers v.header)

  -- The signature is needed: it is configured, and not to be passed on unverified.
  abbrev pub rejects : Option WebhookVerification → VerificationResult → Bool
  rejects none result = false
  rejects (some v) result = not result.valid && not v.skip_invalid

  unfoldable pub serve_read : WebhookEndpoint → Request → Option Bytes → Outcome
  serve_read endpoint r none = unreadable_body
  serve_read endpoint r (some body) =
      let result = verified_by endpoint.verification r body in
      if rejects endpoint.verification result
      then invalid_signature
      else invoked endpoint.function_id (payload_of endpoint r body result)

  -- ServeHTTP, given what the store has for the path.
  unfoldable pub serve_http : Option WebhookEndpoint → Request → Outcome
  unfolding serve_read is_method_allowed
  serve_http none r = not_found
  serve_http (some endpoint) r =
      if not (is_method_allowed endpoint r.method)
      then method_not_allowed
      else serve_read endpoint r r.body
