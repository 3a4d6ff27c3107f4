-- ===== src/Webhooks/Accept.antt =====
-- Which signatures the verification accepts.
use alyx.Prelude.{
  ◌≡◌, refl, sym, ap, ◌∙◌, String, true, Option, none, some, [], ◌∷◌, ◌++◌, ◌↔◌, inl, inr,
  Bool-cases, if◌then◌else◌, str_eq,
}
use alyx.Bytes.{Bytes, bytes_eq, bytes_eq_refl, eq_of_bytes_eq}
use alyx.Webhooks.{
  Primitives, WebhookVerification, equals, NoEquals, after_equals, actual_hex, compare_mac,
  verify_signature,
}

after_equals-none : (s : Bytes) → NoEquals s → after_equals s ≡ none
unfolding after_equals
after_equals-none [] h = refl
after_equals-none (c ∷ s) h = rw (h.0) (after_equals-none s h.1)

after_equals-some :
    (prefix s : Bytes) → NoEquals prefix → after_equals (prefix ++ (equals ∷ s)) ≡ some s
unfolding after_equals
after_equals-some [] s h = refl
after_equals-some (c ∷ prefix) s h = rw (h.0) (after_equals-some prefix s h.1)

actual_hex-raw : (s : Bytes) → NoEquals s → actual_hex s ≡ s
unfolding actual_hex
actual_hex-raw s h = rw (after_equals-none s h) refl

actual_hex-prefixed : (prefix s : Bytes) → NoEquals prefix → actual_hex (prefix ++ (equals ∷ s)) ≡ s
unfolding actual_hex
actual_hex-prefixed prefix s h = rw (after_equals-some prefix s h) refl

compare_mac_iff :
    (method : String) (expected : Bytes) (actual : Option Bytes)
    → ((compare_mac method expected actual).valid ≡ true) ↔ (actual ≡ some expected)
unfolding compare_mac
compare_mac_iff method expected none = (λ h. cc, λ h. cc)
compare_mac_iff method expected (some actual) = elim (Bool-cases (bytes_eq expected actual)) [
  | inl same ↦ (λ h. ap some (sym (eq_of_bytes_eq expected actual same)), λ h. rw same refl)
  | inr other ↦ (λ h. let h' = rw other at h in cc, λ h. let e = bytes_eq_refl expected in cc)
]

signed_iff :
    (method : String) (expected : Bytes) (actual : Option Bytes)
    → ((compare_mac method expected actual).valid ≡ true)
      ↔ ((mac : Bytes) × (some expected ≡ some mac) × (actual ≡ some mac))
signed_iff method expected actual = (
  λ h. (expected, refl, (compare_mac_iff method expected actual).0 h),
  λ (mac, e, a). (compare_mac_iff method expected actual).1 (a ∙ sym e),
)

module _ (lib : Primitives) where
  -- The code of the body under the secret, by the configured scheme.
  abbrev pub mac_of : WebhookVerification → Bytes → Option Bytes
  mac_of v body =
      if str_eq v.type "hmac-sha256"
      then some (lib.hmac_sha256 v.secret body)
      else if str_eq v.type "hmac-sha1"
      then some (lib.hmac_sha1 v.secret body)
      else none

  abbrev pub Signed : WebhookVerification → Bytes → Bytes → Type 0
  Signed v body signature =
      (mac : Bytes) × (mac_of v body ≡ some mac)
      × (lib.decode_hex (actual_hex signature) ≡ some mac)

  pub verify_signature-valid :
      (v : WebhookVerification) (body signature : Bytes)
      → ((verify_signature lib (some v) body signature).valid ≡ true) ↔ Signed v body signature
  unfolding verify_signature
  verify_signature-valid v body signature =
      let actual = lib.decode_hex (actual_hex signature) in
      elim (Bool-cases (str_eq v.type "hmac-sha256")) [
        | inl sha256 ↦ rw sha256 (signed_iff "hmac-sha256" (lib.hmac_sha256 v.secret body) actual)
        | inr no256 ↦ elim (Bool-cases (str_eq v.type "hmac-sha1")) [
          | inl sha1 ↦
              rw (no256, sha1) (signed_iff "hmac-sha1" (lib.hmac_sha1 v.secret body) actual)
          | inr no1 ↦ rw (no256, no1) (λ h. cc, λ (mac, e, a). cc)
        ]
      ]

  -- The code of the body as hexadecimal text is accepted for each known scheme, both alone and
  -- after a prefix and =.
  pub verify_signature-signed :
      (v : WebhookVerification) (body mac prefix : Bytes)
      → mac_of v body ≡ some mac
      → NoEquals prefix
      → ((verify_signature lib (some v) body (lib.encode_hex mac)).valid ≡ true)
        × ((verify_signature lib (some v) body (prefix ++ (equals ∷ lib.encode_hex mac))).valid
            ≡ true)
  verify_signature-signed v body mac prefix known h = (
    (verify_signature-valid v body (lib.encode_hex mac)).1 (
      mac,
      known,
      rw (actual_hex-raw (lib.encode_hex mac) (lib.encode-NoEquals mac)) (lib.decode-encode mac),
    ),
    (verify_signature-valid v body (prefix ++ (equals ∷ lib.encode_hex mac))).1 (
      mac,
      known,
      rw (actual_hex-prefixed prefix (lib.encode_hex mac) h) (lib.decode-encode mac),
    ),
  )
