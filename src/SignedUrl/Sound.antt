-- ===== src/SignedUrl/Sound.antt =====
-- Only a token that carries the right code for its own fields is accepted.
use alyx.Prelude.{
  ℕ, ◌≤◌, ◌≡◌, refl, true, Option, none, some, List, [], ◌∷◌, arith, inl, inr, Bool-cases,
  Option-cases,
}
use alyx.Bytes.{Bytes, bytes_eq, eq_of_bytes_eq}
use alyx.SignedUrl.{
  Primitives, SignedUrlClaims, valid, split, payload, sign, check_expiry, check_parts,
  validate_signed_url,
}

module _ (lib : Primitives) (secret : Bytes) (file_id bucket : Bytes) (now : ℕ) where
  -- The parts of an accepted token.
  pub record Accepted (parts : List Bytes) (claims : SignedUrlClaims) : Type 0 where
    pub expiry_text : Bytes
    pub parts_eq :
        parts
        ≡ file_id
          ∷ bucket
          ∷ claims.operation
          ∷ expiry_text
          ∷ claims.user_id
          ∷ sign lib secret (payload file_id bucket claims.operation expiry_text claims.user_id)
          ∷ []
    pub file_eq : claims.file_id ≡ file_id
    pub bucket_eq : claims.bucket ≡ bucket
    pub expiry_eq : lib.parse_time expiry_text ≡ some claims.expires_at
    pub in_time : now ≤ claims.expires_at

  check_expiry-valid :
      (found : SignedUrlClaims) (expiry : Option ℕ) (claims : SignedUrlClaims)
      → check_expiry lib secret found expiry now ≡ valid claims
      → (t : ℕ) × (expiry ≡ some t) × (now ≤ t) × (claims ≡ record found { expires_at = t })
  unfolding check_expiry
  check_expiry-valid found none claims h = cc
  check_expiry-valid found (some t) claims h = (t, refl, ground arith, ground arith)

  -- The fields of the claims, where the three tests have passed.
  accept :
      (a b c d e f : Bytes) (claims : SignedUrlClaims)
      → bytes_eq a file_id ≡ true
      → bytes_eq b bucket ≡ true
      → bytes_eq f (sign lib secret (payload a b c d e)) ≡ true
      → check_expiry lib secret
          (record { file_id = a; bucket = b; operation = c; expires_at = 0; user_id = e })
          (lib.parse_time d)
          now
        ≡ valid claims
      → Accepted (a ∷ b ∷ c ∷ d ∷ e ∷ f ∷ []) claims
  accept a b c d e f claims ea eb ef h =
      let (t, parsed, in_time, same) = check_expiry-valid _ (lib.parse_time d) claims h in
      let file_eq = eq_of_bytes_eq a file_id ea in
      let bucket_eq = eq_of_bytes_eq b bucket eb in
      rw same (record {
        expiry_text = d;
        parts_eq = cc (file_eq, bucket_eq, eq_of_bytes_eq f _ ef);
        file_eq = file_eq;
        bucket_eq = bucket_eq;
        expiry_eq = parsed;
        in_time = in_time;
      })

  check_parts-Accepted :
      (parts : List Bytes) (claims : SignedUrlClaims)
      → check_parts lib secret parts file_id bucket now ≡ valid claims
      → Accepted parts claims
  unfolding check_parts
  check_parts-Accepted (a ∷ b ∷ c ∷ d ∷ e ∷ f ∷ []) claims h =
      elim (Bool-cases (bytes_eq a file_id)) [
        | inr n ↦ let h' = rw n at h in cc
        | inl ea ↦ elim (Bool-cases (bytes_eq b bucket)) [
          | inr n ↦ let h' = rw (ea, n) at h in cc
          | inl eb ↦ elim (Bool-cases (bytes_eq f (sign lib secret (payload a b c d e)))) [
            | inr n ↦ let h' = rw (ea, eb, n) at h in cc
            | inl ef ↦ accept a b c d e f claims ea eb ef (rw (ea, eb, ef) at h)
          ]
        ]
      ]
  check_parts-Accepted _ claims h = cc

  -- A token is accepted for a file and a bucket only if it decodes to six parts: that file, that
  -- bucket, the claimed operation, an expiry, the claimed user, and last the signature under the
  -- secret of just these; the claims name that file and bucket, and their expiry is not past.
  pub validate-Accepted :
      (token : Bytes) (claims : SignedUrlClaims)
      → validate_signed_url lib secret token file_id bucket now ≡ valid claims
      → (decoded : Bytes) × (lib.decode token ≡ some decoded) × Accepted (split decoded) claims
  unfolding validate_signed_url
  validate-Accepted token claims h = elim (Option-cases (lib.decode token)) [
    | inl e ↦ let h' = rw e at h in cc
    | inr (decoded, e) ↦ (decoded, e, check_parts-Accepted (split decoded) claims (rw e at h))
  ]
