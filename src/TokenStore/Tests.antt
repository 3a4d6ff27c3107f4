-- ===== src/TokenStore/Tests.antt =====
-- Runs of the token store, and its theorems at concrete inputs.
use alyx.Prelude.{◌↔◌, ◌≡◌, refl, true, false, none, some, List, [], ◌∷◌, arith}
use alyx.Map.{lookup, insert, delete, delete_where}
use alyx.TokenStore.{
  Event, generation, validation, revocation, sweep, new, token_of, hex_encode, generate, is_expired,
  validate, revoke, cleanup, step, run,
}
use alyx.TokenStore.Exact.{IsYoung, last_creation, validate-run}

abbrev history : List Event
history =
    generation (some (0xab ∷ 0x0f ∷ [])) [] 100
    ∷ validation "ab0f" 104
    ∷ sweep 105
    ∷ revocation "ffff"
    ∷ []

valid_until_ttl :
    ((validate (run (new 10) history) "ab0f" 110).1 ≡ true)
    × ((validate (run (new 10) history) "ab0f" 111).1 ≡ false)
unfolding validate run step new generate revoke cleanup token_of hex_encode is_expired lookup insert
    delete delete_where
valid_until_ttl = (refl, refl)

validate-run_example :
    ((validate (run (new 10) history) "ab0f" 110).1 ≡ true)
    ↔ IsYoung 10 110 (last_creation "ab0f" none history)
unfolding new lookup
validate-run_example = validate-run "ab0f" 110 (new 10) history tt (omega arith, (omega arith, tt))
