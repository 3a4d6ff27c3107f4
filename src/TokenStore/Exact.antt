-- ===== src/TokenStore/Exact.antt =====
-- A token is valid exactly while its last creation is at most `ttl` ago and not revoked since.
use alyx.Prelude.{
  ◌↔◌, ◌+◌, ℕ, ◌≤◌, String, ◌≡◌, refl, ◌∙◌, subst, Bool, true, false, Option, none, some, List, [],
  ◌∷◌, arith, not, if◌then◌else◌, str_eq, eq_iff, ◌⊎◌, inl, inr, Bool-cases,
}
use alyx.Map.{IsMap, lookup, delete}
use alyx.Map.Laws.{
  keep, lookup-insert, lookup-delete, lookup-delete_where, insert-IsMap, delete-IsMap,
  delete_where-IsMap,
}
use alyx.TokenStore.{
  InternalTokenStore, Event, generation, validation, revocation, sweep, token_of, generate,
  is_expired, check, validate, revoke, cleanup, step, run,
}

-- When the token was last created and not revoked since; `found` if the run does neither.
abbrev pub last_creation : String → Option ℕ → List Event → Option ℕ
last_creation token found [] = found
last_creation token found (generation random clock_text now ∷ es) =
    last_creation token (if str_eq (token_of random clock_text) token then some now else found) es
last_creation token found (validation t now ∷ es) = last_creation token found es
last_creation token found (revocation t ∷ es) =
    last_creation token (if str_eq t token then none else found) es
last_creation token found (sweep now ∷ es) = last_creation token found es

-- The clock readings that may delete a token are at most `now`.
abbrev pub CheckedBy : ℕ → List Event → Type 0
CheckedBy now [] = Unit
CheckedBy now (generation random clock_text at ∷ es) = CheckedBy now es
CheckedBy now (validation t at ∷ es) = (at ≤ now) × CheckedBy now es
CheckedBy now (revocation t ∷ es) = CheckedBy now es
CheckedBy now (sweep at ∷ es) = (at ≤ now) × CheckedBy now es

-- The last creation has not expired by the code's test.
abbrev alive : ℕ → ℕ → Option ℕ → Bool
alive ttl now none = false
alive ttl now (some created_at) = not (is_expired ttl now created_at)

alive-keep :
    (ttl now at : ℕ) (found : Option ℕ)
    → at ≤ now
    → alive ttl now (keep (is_expired ttl at) found) ≡ alive ttl now found
unfolding is_expired
alive-keep ttl now at none h = refl
alive-keep ttl now at (some c) h = ground arith

-- A validation changes nothing, or deletes its token, which has expired.
check-cases :
    (s : InternalTokenStore) (t : String) (at : ℕ) (found : Option ℕ)
    → ((check s t at found).0 ≡ s)
      ⊎ ((c : ℕ) × (found ≡ some c)
          × (is_expired s.ttl at c ≡ true)
          × ((check s t at found).0 ≡ record s { tokens = delete t s.tokens }))
unfolding check
check-cases s t at none = inl refl
check-cases s t at (some c) = elim (Bool-cases (is_expired s.ttl at c)) [
  | inl e ↦ inr (c, refl, e, rw e)
  | inr e ↦ inl (rw e)
]

not_alive :
    (ttl at now c : ℕ) → at ≤ now → is_expired ttl at c ≡ true → alive ttl now (some c) ≡ false
unfolding is_expired
not_alive ttl at now c h e = ground arith

-- A token that a validation deletes is not alive later.
alive-check :
    (s : InternalTokenStore) (token t : String) (at now : ℕ)
    → at ≤ now
    → alive s.ttl now (lookup token (validate s t at).0.tokens)
      ≡ alive s.ttl now (lookup token s.tokens)
unfolding validate
alive-check s token t at now h = elim (check-cases s t at (lookup t s.tokens)) [
  | inl same ↦ rw same
  | inr (c, found, expired, gone) ↦
      rw (gone, lookup-delete)
        (elim (Bool-cases (str_eq t token)) [
          | inl this ↦
              rw (this, ← (eq_iff t token).0 this, found, not_alive s.ttl at now c h expired)
          | inr other ↦ rw other
        ])
]

pub step-IsMap : (s : InternalTokenStore) (e : Event) → IsMap s.tokens → IsMap (step s e).tokens
unfolding step generate validate revoke cleanup
step-IsMap s (generation random clock_text now) h = insert-IsMap _ now s.tokens h
step-IsMap s (validation t now) h = elim (check-cases s t now (lookup t s.tokens)) [
  | inl same ↦ rw same h
  | inr (c, found, expired, gone) ↦ rw gone (delete-IsMap t s.tokens h)
]
step-IsMap s (revocation t) h = delete-IsMap t s.tokens h
step-IsMap s (sweep now) h = delete_where-IsMap _ s.tokens h

pub ttl-step : (s : InternalTokenStore) (e : Event) → (step s e).ttl ≡ s.ttl
unfolding step generate revoke cleanup validate
ttl-step s (generation random clock_text now) = refl
ttl-step s (validation t now) = elim (check-cases s t now (lookup t s.tokens)) [
  | inl same ↦ rw same
  | inr (c, found, expired, gone) ↦ rw gone
]
ttl-step s (revocation t) = refl
ttl-step s (sweep now) = refl

check-alive :
    (s : InternalTokenStore) (token : String) (now : ℕ) (found : Option ℕ)
    → (check s token now found).1 ≡ alive s.ttl now found
unfolding check
check-alive s token now none = refl
check-alive s token now (some c) = ground arith

validate-alive :
    (s : InternalTokenStore) (token : String) (now : ℕ)
    → (validate s token now).1 ≡ alive s.ttl now (lookup token s.tokens)
unfolding validate
validate-alive s token now = check-alive s token now (lookup token s.tokens)

module _ (token : String) (now ttl : ℕ) where
  abbrev alive_now : Option ℕ → Bool
  alive_now = alive ttl now

  alive-run :
      (s : InternalTokenStore) (es : List Event) (found : Option ℕ)
      → IsMap s.tokens
      → s.ttl ≡ ttl
      → CheckedBy now es
      → alive_now (lookup token s.tokens) ≡ alive_now found
      → alive_now (lookup token (run s es).tokens) ≡ alive_now (last_creation token found es)
  unfolding run step generate revoke cleanup
  alive-run s [] found m w h e = e
  alive-run s (generation random clock_text at ∷ es) found m w h e =
      alive-run (step s (generation random clock_text at)) es _
        (step-IsMap s (generation random clock_text at) m) w h
        (rw lookup-insert (elim (Bool-cases (str_eq (token_of random clock_text) token)) [
          | inl same ↦ rw same
          | inr other ↦ rw other e
        ]))
  alive-run s (validation t at ∷ es) found m w h e =
      alive-run (step s (validation t at)) es found (step-IsMap s (validation t at) m)
        (ttl-step s (validation t at) ∙ w) h.1
        (subst
            (λ k.
              alive k now (lookup token (validate s t at).0.tokens)
              ≡ alive k now (lookup token s.tokens))
            w (alive-check s token t at now h.0)
          ∙ e)
  alive-run s (revocation t ∷ es) found m w h e =
      alive-run (step s (revocation t)) es _ (step-IsMap s (revocation t) m) w h (
        rw lookup-delete
          (elim (Bool-cases (str_eq t token)) [ inl same ↦ rw same | inr other ↦ rw other e ]))
  alive-run s (sweep at ∷ es) found m w h e =
      alive-run (step s (sweep at)) es found (step-IsMap s (sweep at) m) w h.1
        (rw (lookup-delete_where, m) (rw w (alive-keep ttl now at (lookup token s.tokens) h.0 ∙ e)))

pub ttl-run : (s : InternalTokenStore) (es : List Event) → (run s es).ttl ≡ s.ttl
unfolding run
ttl-run s [] = refl
ttl-run s (e ∷ es) = ttl-run (step s e) es ∙ ttl-step s e

-- The last creation is there and at most `ttl` back.
abbrev pub IsYoung : ℕ → ℕ → Option ℕ → Type 0
IsYoung ttl now none = ⊥
IsYoung ttl now (some created_at) = now ≤ created_at + ttl

alive_iff : (ttl now : ℕ) (found : Option ℕ) → (alive ttl now found ≡ true) ↔ IsYoung ttl now found
unfolding is_expired
alive_iff ttl now none = (λ e. cc, λ h. absurd h)
alive_iff ttl now (some c) = ground arith

validate-alive-run :
    (token : String) (now : ℕ) (s : InternalTokenStore) (es : List Event)
    → IsMap s.tokens
    → CheckedBy now es
    → (validate (run s es) token now).1
      ≡ alive s.ttl now (last_creation token (lookup token s.tokens) es)
validate-alive-run token now s es m h =
    validate-alive (run s es) token now
    ∙ rw ttl-run (alive-run token now s.ttl s es (lookup token s.tokens) m refl h refl)

-- After any run of generations, validations, revocations and sweeps whose validations and sweeps
-- are no later than `now`, `Validate` accepts a token at `now` exactly when it was generated, has
-- not been revoked since its last generation, and that lies at most `ttl` back.
pub validate-run :
    (token : String) (now : ℕ) (s : InternalTokenStore) (es : List Event)
    → IsMap s.tokens
    → CheckedBy now es
    → ((validate (run s es) token now).1 ≡ true)
      ↔ IsYoung s.ttl now (last_creation token (lookup token s.tokens) es)
validate-run token now s es m h =
    rw (validate-alive-run token now s es m h)
      (alive_iff s.ttl now (last_creation token (lookup token s.tokens) es))
