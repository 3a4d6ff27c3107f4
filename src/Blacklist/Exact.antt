-- ===== src/Blacklist/Exact.antt =====
-- A token is revoked exactly from its revocation to its expiry; the sweeps change no answer.
use alyx.Prelude.{
  ◌↔◌, true, ℕ, suc, ◌≤◌, String, ◌≡◌, refl, ◌∙◌, Option, none, some, List, [], ◌∷◌, arith,
  if◌then◌else◌, str_eq, inl, inr, Bool-cases,
}
use alyx.Map.{IsMap, lookup}
use alyx.Map.Laws.{
  keep, is_some, lookup-insert, lookup-delete_where, insert-IsMap, delete_where-IsMap,
  length-insert,
}
use alyx.Blacklist.{
  TokenBlacklist, Event, revocation, sweep, revoke, is_expired, in_force, is_revoked, cleanup,
  count, step, run,
}

-- The expiry that the last revocation of the token gave, `found` if the run has none.
abbrev pub last_expiry : String → Option ℕ → List Event → Option ℕ
last_expiry token found [] = found
last_expiry token found (revocation t expires_at ∷ es) =
    last_expiry token (if str_eq t token then some expires_at else found) es
last_expiry token found (sweep now ∷ es) = last_expiry token found es

abbrev pub SweptBy : ℕ → List Event → Type 0
SweptBy now [] = Unit
SweptBy now (revocation t expires_at ∷ es) = SweptBy now es
SweptBy now (sweep at ∷ es) = (at ≤ now) × SweptBy now es

pub step-IsMap : (bl : TokenBlacklist) (e : Event) → IsMap bl.tokens → IsMap (step bl e).tokens
unfolding step revoke cleanup
step-IsMap bl (revocation t expires_at) h = insert-IsMap t expires_at bl.tokens h
step-IsMap bl (sweep now) h = delete_where-IsMap _ bl.tokens h

in_force-keep :
    (now at : ℕ) (found : Option ℕ)
    → at ≤ now
    → in_force now (keep (is_expired at) found) ≡ in_force now found
unfolding in_force
in_force-keep now at none h = refl
in_force-keep now at (some e) h = ground arith

in_force-run :
    (token : String) (now : ℕ) (bl : TokenBlacklist) (es : List Event) (found : Option ℕ)
    → IsMap bl.tokens
    → SweptBy now es
    → in_force now (lookup token bl.tokens) ≡ in_force now found
    → in_force now (lookup token (run bl es).tokens) ≡ in_force now (last_expiry token found es)
unfolding run step revoke cleanup
in_force-run token now bl [] found m s h = h
in_force-run token now bl (revocation t expires_at ∷ es) found m s h =
    in_force-run token now (revoke bl t expires_at) es _ (step-IsMap bl (revocation t expires_at) m)
      s
      (rw lookup-insert
        (elim (Bool-cases (str_eq t token)) [ inl same ↦ rw same | inr other ↦ rw other h ]))
in_force-run token now bl (sweep at ∷ es) found m s h =
    in_force-run token now (cleanup bl at) es found (step-IsMap bl (sweep at) m) s.1
      (rw (lookup-delete_where, m) (in_force-keep now at (lookup token bl.tokens) s.0 ∙ h))

-- The expiry of a revocation is not over yet.
abbrev pub NotOver : ℕ → Option ℕ → Type 0
NotOver now none = ⊥
NotOver now (some expires_at) = now ≤ expires_at

in_force_iff : (now : ℕ) (found : Option ℕ) → (in_force now found ≡ true) ↔ NotOver now found
unfolding in_force is_expired
in_force_iff now none = (λ e. cc, λ h. absurd h)
in_force_iff now (some e) = ground arith

-- After any run of revocations and sweeps, the last sweep no later than `now`, a token counts as
-- revoked at `now` exactly when the run, or the blacklist before it, has a revocation of it and
-- the last one gave an expiry of `now` or later.
pub is_revoked-run :
    (token : String) (now : ℕ) (bl : TokenBlacklist) (es : List Event)
    → IsMap bl.tokens
    → SweptBy now es
    → (is_revoked (run bl es) token now ≡ true)
      ↔ NotOver now (last_expiry token (lookup token bl.tokens) es)
unfolding is_revoked
is_revoked-run token now bl es m s =
    rw (in_force-run token now bl es (lookup token bl.tokens) m s refl)
      (in_force_iff now (last_expiry token (lookup token bl.tokens) es))

-- A revocation adds one entry for a new token, none for a known one.
pub count-revoke :
    (bl : TokenBlacklist) (token : String) (expires_at : ℕ)
    → count (revoke bl token expires_at)
      ≡ (if is_some (lookup token bl.tokens) then count bl else suc (count bl))
unfolding count revoke
count-revoke bl token expires_at = length-insert token expires_at bl.tokens
