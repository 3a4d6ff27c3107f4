-- ===== src/Webhooks/Tests.antt =====
-- Primitives that meet their laws, and the theorems about webhooks at concrete inputs.
use alyx.Prelude.{
  ◌+◌, ◌-◌, ◌≡◌, refl, ap, String, true, false, none, some, [], ◌∷◌, ◌++◌, map, arith,
}
use alyx.Bytes.{Bytes, bytes_eq}
use alyx.Map.{lookup}
use alyx.Webhooks.{
  equals, NoEquals, Primitives, WebhookVerification, WebhookEndpoint, Request, Payload, invoked,
  method_not_allowed, invalid_signature, not_found, verify_signature, compare_mac, actual_hex,
  after_equals, extract_signature, find_folded, is_method_allowed, serve_http, serve_read,
  payload_of,
}
use alyx.Webhooks.Accept.{verify_signature-signed}
use alyx.Webhooks.Guard.{Guarded, serve_http-invoked}

-- A hexadecimal text that moves every byte past the =.
abbrev lift : Bytes → Bytes
lift b = map (λ c. c + 62) b

lift-NoEquals : (b : Bytes) → NoEquals (lift b)
lift-NoEquals [] = tt
lift-NoEquals (c ∷ b) = (ground arith, lift-NoEquals b)

abbrev lowered : Bytes → Bytes
lowered [] = []
lowered (c ∷ b) = (c - 62) ∷ lowered b

lowered-lift : (b : Bytes) → lowered (lift b) ≡ b
lowered-lift [] = refl
lowered-lift (c ∷ b) = rw (lowered-lift b) (ap (λ d. d ∷ b) (omega arith))

abbrev toy : Primitives
toy = record {
  hmac_sha256 = λ key message. key ++ message;
  hmac_sha1 = λ key message. message ++ key;
  encode_hex = lift;
  decode_hex = λ b. some (lowered b);
  to_lower = λ s. s;
  decode-encode = λ b. ap some (lowered-lift b);
  encode-NoEquals = lift-NoEquals;
}

abbrev signed : WebhookVerification
signed = record {
  type = "hmac-sha1";
  header = "X-Hub-Signature";
  secret = 9 ∷ [];
  skip_invalid = false;
}

abbrev endpoint : WebhookEndpoint
endpoint = record {
  id = "w1";
  path = "/hook";
  function_id = "f1";
  methods = "POST" ∷ [];
  verification = some signed;
  enabled = true;
}

-- The header carries s=<hex of 5 9>.
abbrev request : String → Bytes → Request
request method body = record {
  path = "/hook";
  method = method;
  headers = ("X-Hub-Signature", 115 ∷ equals ∷ 67 ∷ 71 ∷ []) ∷ [];
  query = [];
  body = some body;
}

abbrev payload : Payload
payload =
    payload_of endpoint (request "POST" (5 ∷ [])) (5 ∷ [])
      (record { valid = true; error = none; method = "hmac-sha1" })

delivered : serve_http toy (some endpoint) (request "POST" (5 ∷ [])) ≡ invoked "f1" payload
unfolding serve_http serve_read is_method_allowed verify_signature compare_mac actual_hex
    after_equals extract_signature find_folded lookup bytes_eq
delivered = refl

refused :
    (serve_http toy (some endpoint) (request "GET" (5 ∷ [])) ≡ method_not_allowed)
    × (serve_http toy (some endpoint) (request "POST" (6 ∷ [])) ≡ invalid_signature)
    × (serve_http toy none (request "POST" (5 ∷ [])) ≡ not_found)
unfolding serve_http serve_read is_method_allowed verify_signature compare_mac actual_hex
    after_equals extract_signature find_folded lookup bytes_eq
refused = (refl, refl, refl)

serve_http-invoked_example :
    (e : WebhookEndpoint) × (some endpoint ≡ some e)
    × Guarded toy (request "POST" (5 ∷ [])) "f1" payload e
serve_http-invoked_example =
    serve_http-invoked toy (request "POST" (5 ∷ [])) "f1" payload (some endpoint) delivered

verify_signature-signed_example :
    ((verify_signature toy (some signed) (5 ∷ []) (lift (5 ∷ 9 ∷ []))).valid ≡ true)
    × ((verify_signature toy
          (some signed)
          (5 ∷ [])
          ((115 ∷ []) ++ (equals ∷ lift (5 ∷ 9 ∷ [])))).valid
        ≡ true)
verify_signature-signed_example =
    verify_signature-signed toy signed (5 ∷ []) (5 ∷ 9 ∷ []) (115 ∷ []) refl (refl, tt)
