-- ===== src/BruteForce/Release.antt =====
-- A block ends: with the window, on success, and whatever the sweeps do.
use alyx.Prelude.{
  ℕ, ◌+◌, ◌≤◌, String, ◌≡◌, refl, Bool, true, false, Option, none, some, List, [], ◌∷◌, arith,
  if◌then◌else◌, str_eq, eq_iff, inl, inr, Bool-cases,
}
use alyx.Map.{IsMap, lookup}
use alyx.Map.Laws.{keep, lookup-delete, lookup-delete_where}
use alyx.BruteForce.{
  AttemptRecord, BruteForceProtector, Event, failure, success, sweep, record_of, tally, blocks,
  is_blocked, clear_attempts, is_stale, cleanup, step, run,
}
use alyx.BruteForce.Steps.{
  step-IsMap, record_for, record_for-failure, record_for-success, record_for-sweep,
}
use alyx.BruteForce.Exact.{window-run}

blocks-keep :
    (threshold window : ℕ) (found : Option AttemptRecord) (swept now : ℕ)
    → swept ≤ now
    → blocks threshold window (keep (is_stale window swept) found) now
      ≡ blocks threshold window found now
unfolding blocks is_stale
blocks-keep threshold window none swept now h = refl
blocks-keep threshold window (some r) swept now h = ground arith

-- A sweep changes no later answer.
pub is_blocked-cleanup :
    (bfp : BruteForceProtector) (key : String) (swept now : ℕ)
    → IsMap bfp.attempts
    → swept ≤ now
    → is_blocked (cleanup bfp swept) key now ≡ is_blocked bfp key now
unfolding is_blocked cleanup
is_blocked-cleanup bfp key swept now m h =
    rw (lookup-delete_where, m)
      (blocks-keep bfp.threshold bfp.window (lookup key bfp.attempts) swept now h)

-- A success lifts the block of its key at once, and of no other key.
pub is_blocked-clear_attempts :
    (bfp : BruteForceProtector) (key k : String) (now : ℕ)
    → is_blocked (clear_attempts bfp k) key now
      ≡ (if str_eq k key then false else is_blocked bfp key now)
unfolding is_blocked clear_attempts blocks
is_blocked-clear_attempts bfp key k now = rw lookup-delete (ground arith)

-- No failure of the key is recorded after `last`.
abbrev pub NoneAfter : String → ℕ → List Event → Type 0
NoneAfter key last [] = Unit
NoneAfter key last (failure k created now ∷ es) =
    (str_eq k key ≡ true → (created ≤ last) × (now ≤ last)) × NoneAfter key last es
NoneAfter key last (success k ∷ es) = NoneAfter key last es
NoneAfter key last (sweep now ∷ es) = NoneAfter key last es

abbrev pub BegunBy : ℕ → Option AttemptRecord → Type 0
BegunBy last none = Unit
BegunBy last (some r) = r.first_attempt ≤ last

tally-BegunBy :
    (window last : ℕ) (found : Option AttemptRecord) (created now : ℕ)
    → created ≤ last
    → now ≤ last
    → BegunBy last found
    → (tally window (record_of found created) now).first_attempt ≤ last
unfolding tally record_of
tally-BegunBy window last none created now c n h = ground arith
tally-BegunBy window last (some r) created now c n h = ground arith

keep-BegunBy :
    (last : ℕ) (p : AttemptRecord → Bool) (found : Option AttemptRecord)
    → BegunBy last found
    → BegunBy last (keep p found)
keep-BegunBy last p none h = tt
keep-BegunBy last p (some r) h = elim (Bool-cases (p r)) [
  | inl gone ↦ rw gone tt
  | inr kept ↦ rw kept h
]

blocks-BegunBy :
    (threshold window last : ℕ) (found : Option AttemptRecord) (now : ℕ)
    → BegunBy last found
    → last + window ≤ now
    → blocks threshold window found now ≡ false
unfolding blocks
blocks-BegunBy threshold window last none now h e = refl
blocks-BegunBy threshold window last (some r) now h e = ground arith

BegunBy-step :
    (key : String) (last : ℕ) (bfp : BruteForceProtector) (e : Event)
    → IsMap bfp.attempts
    → NoneAfter key last (e ∷ [])
    → BegunBy last (record_for key bfp)
    → BegunBy last (record_for key (step bfp e))
BegunBy-step key last bfp (failure k created now) m n h =
    rw record_for-failure (elim (Bool-cases (str_eq k key)) [
      | inl same ↦ rw same (
          tally-BegunBy bfp.window last (record_for k bfp) created now (n.0 same).0 (n.0 same).1
            (rw ((eq_iff k key).0 same) h))
      | inr other ↦ rw other h
    ])
BegunBy-step key last bfp (success k) m n h =
    rw record_for-success
      (elim (Bool-cases (str_eq k key)) [ inl same ↦ rw same tt | inr other ↦ rw other h ])
BegunBy-step key last bfp (sweep now) m n h =
    rw (record_for-sweep, m) (keep-BegunBy last _ (record_for key bfp) h)

BegunBy-run :
    (key : String) (last : ℕ) (bfp : BruteForceProtector) (es : List Event)
    → IsMap bfp.attempts
    → NoneAfter key last es
    → BegunBy last (record_for key bfp)
    → BegunBy last (record_for key (run bfp es))
unfolding run
BegunBy-run key last bfp [] m n h = h
BegunBy-run key last bfp (failure k created now ∷ es) m n h =
    BegunBy-run key last (step bfp _) es (step-IsMap bfp _ m) n.1
      (BegunBy-step key last bfp (failure k created now) m (n.0, tt) h)
BegunBy-run key last bfp (success k ∷ es) m n h =
    BegunBy-run key last (step bfp _) es (step-IsMap bfp _ m) n
      (BegunBy-step key last bfp (success k) m tt h)
BegunBy-run key last bfp (sweep now ∷ es) m n h =
    BegunBy-run key last (step bfp _) es (step-IsMap bfp _ m) n
      (BegunBy-step key last bfp (sweep now) m tt h)

-- No block outlives the window: whatever the run, a key is not blocked at `now` if its record at
-- the start (if it has one) began, and its failures in the run happened, at least a window before.
pub not_blocked_later :
    (key : String) (bfp : BruteForceProtector) (es : List Event) (last now : ℕ)
    → IsMap bfp.attempts
    → BegunBy last (record_for key bfp)
    → NoneAfter key last es
    → last + bfp.window ≤ now
    → is_blocked (run bfp es) key now ≡ false
unfolding is_blocked
not_blocked_later key bfp es last now m b n h =
    blocks-BegunBy (run bfp es).threshold (run bfp es).window last _ now
      (BegunBy-run key last bfp es m n b) (rw window-run h)
