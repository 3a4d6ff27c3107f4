-- ===== src/BruteForce/Exact.antt =====
-- Within one window a key is blocked exactly when its failures have reached the threshold.
use alyx.Prelude.{
  ℕ, suc, ◌+◌, ◌<◌, String, ◌≡◌, refl, ap, ◌∙◌, false, Option, none, some, List, [], ◌∷◌, arith,
  leb, if◌then◌else◌, str_eq, eq_iff, eq_refl, inl, inr, Bool-cases,
}
use alyx.Map.{IsMap}
use alyx.Map.Laws.{keep}
use alyx.BruteForce.{
  AttemptRecord, BruteForceProtector, Event, failure, success, sweep, record_of, tally, blocks,
  is_blocked, is_stale, step, run,
}
use alyx.BruteForce.Steps.{
  step-IsMap, window-step, threshold-step, record_for, record_for-failure, record_for-success,
  record_for-sweep,
}

-- Every reading of the clock is before `due`, and the key is not cleared.
abbrev pub Streak : String → ℕ → List Event → Type 0
Streak key due [] = Unit
Streak key due (failure k created now ∷ es) = (now < due) × Streak key due es
Streak key due (success k ∷ es) = (str_eq k key ≡ false) × Streak key due es
Streak key due (sweep now ∷ es) = (now < due) × Streak key due es

abbrev pub failures : String → List Event → ℕ
failures key [] = 0
failures key (failure k created now ∷ es) =
    let rest = failures key es in if str_eq k key then suc rest else rest
failures key (success k ∷ es) = failures key es
failures key (sweep now ∷ es) = failures key es

abbrev counted : ℕ → ℕ → Option AttemptRecord
counted n t = some (record { count = n; first_attempt = t })

tally-early :
    (window n t created now : ℕ)
    → now < t + window
    → tally window (record_of (counted n t) created) now
      ≡ record { count = n + 1; first_attempt = t }
unfolding tally record_of
tally-early window n t created now h = ground arith

tally-fresh :
    (window created now : ℕ)
    → now < created + window
    → tally window (record_of none created) now ≡ record { count = 1; first_attempt = created }
unfolding tally record_of
tally-fresh window created now h = ground arith

keep-early :
    (window n t now : ℕ) → now < t + window → keep (is_stale window now) (counted n t) ≡ counted n t
unfolding is_stale
keep-early window n t now h = ground arith

blocks-early :
    (threshold window n t now : ℕ)
    → now < t + window
    → blocks threshold window (counted n t) now ≡ leb threshold n
unfolding blocks
blocks-early threshold window n t now h = ground arith

module _ (key : String) (w t : ℕ) where
  record_for-run :
      (bfp : BruteForceProtector) (es : List Event) (n total : ℕ)
      → IsMap bfp.attempts
      → bfp.window ≡ w
      → record_for key bfp ≡ counted n t
      → Streak key (t + w) es
      → n + failures key es ≡ total
      → record_for key (run bfp es) ≡ counted total t
  unfolding run
  record_for-run bfp [] n total m ew er h e = er ∙ ap (λ k. counted k t) (omega arith)
  record_for-run bfp (failure k created now ∷ es) n total m ew er h e =
      elim (Bool-cases (str_eq k key)) [
        | inl same ↦
            record_for-run (step bfp (failure k created now)) es (n + 1) total (step-IsMap bfp _ m)
              (window-step bfp _ ∙ ew)
              (rw (record_for-failure, same)
                (rw ((eq_iff k key).0 same)
                  (rw (er, ew) (ap some (tally-early w n t created now h.0)))))
              h.1 (let e' = rw same at e in omega arith)
        | inr other ↦
            record_for-run (step bfp (failure k created now)) es n total (step-IsMap bfp _ m)
              (window-step bfp _ ∙ ew) (rw (record_for-failure, other) er) h.1 (rw other at e)
      ]
  record_for-run bfp (success k ∷ es) n total m ew er h e =
      record_for-run (step bfp (success k)) es n total (step-IsMap bfp _ m) (window-step bfp _ ∙ ew)
        (rw (record_for-success, h.0) er) h.1 e
  record_for-run bfp (sweep now ∷ es) n total m ew er h e =
      record_for-run (step bfp (sweep now)) es n total (step-IsMap bfp _ m) (window-step bfp _ ∙ ew)
        (rw (record_for-sweep, m) (rw (er, ew) (keep-early w n t now h.0))) h.1 e

pub threshold-run :
    (bfp : BruteForceProtector) (es : List Event) → (run bfp es).threshold ≡ bfp.threshold
unfolding run
threshold-run bfp [] = refl
threshold-run bfp (e ∷ es) = threshold-run (step bfp e) es ∙ threshold-step bfp e

pub window-run : (bfp : BruteForceProtector) (es : List Event) → (run bfp es).window ≡ bfp.window
unfolding run
window-run bfp [] = refl
window-run bfp (e ∷ es) = window-run (step bfp e) es ∙ window-step bfp e

-- A key without a record fails, and then any failures of any keys, successes of other keys and
-- sweeps follow before the window that this failure opened has passed. Until it has passed, the
-- key is blocked exactly when its failures are at least the threshold.
pub is_blocked-run :
    (key : String) (bfp : BruteForceProtector) (created first : ℕ) (es : List Event) (now : ℕ)
    → IsMap bfp.attempts
    → record_for key bfp ≡ none
    → Streak key (created + bfp.window) (failure key created first ∷ es)
    → now < created + bfp.window
    → is_blocked (run bfp (failure key created first ∷ es)) key now
      ≡ leb bfp.threshold (failures key (failure key created first ∷ es))
unfolding is_blocked run
is_blocked-run key bfp created first es now m fresh h early =
    let after = step bfp (failure key created first) in
    rw (threshold-run after es, threshold-step bfp, window-run after es, window-step bfp)
      (rw
        (record_for-run key bfp.window created after es 1 (suc (failures key es))
          (step-IsMap bfp _ m) (window-step bfp _)
          (rw (record_for-failure, eq_refl, fresh)
            (ap some (tally-fresh bfp.window created first h.0)))
          h.1 (omega arith))
        (rw eq_refl (blocks-early bfp.threshold bfp.window _ created now early)))
