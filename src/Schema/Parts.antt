-- ===== src/Schema/Parts.antt =====
-- The safe and the unsafe changes of a list.
use alyx.Prelude.{
  ◌+◌, ◌≡◌, refl, false, List, [], ◌∷◌, ◌++◌, ◌||◌, ◌↔◌, length, arith, ap, sym, inl, inr,
  Bool-cases, String, some, str_eq, eq_iff, eq_refl,
}
use alyx.Map.{GoMap, lookup, IsMap}
use alyx.Schema.Changes.{Change}
use alyx.Schema.Differ.{safe_changes, unsafe_changes, has_unsafe_changes, each}

length-parts :
    (cs : List Change) → length (safe_changes cs) + length (unsafe_changes cs) ≡ length cs
unfolding safe_changes unsafe_changes
length-parts [] = refl
length-parts (c ∷ cs) = ground (arith, length-parts cs)

has_unsafe_iff : (cs : List Change) → (has_unsafe_changes cs ≡ false) ↔ (unsafe_changes cs ≡ [])
unfolding has_unsafe_changes unsafe_changes
has_unsafe_iff [] = (λ h. refl, λ h. refl)
has_unsafe_iff (c ∷ cs) = ground (arith, has_unsafe_iff cs)

all_safe : (cs : List Change) → has_unsafe_changes cs ≡ false → safe_changes cs ≡ cs
unfolding has_unsafe_changes safe_changes
all_safe [] h = refl
all_safe (c ∷ cs) h = ground (arith, all_safe cs)

nil_of_length : (cs : List Change) → length cs ≡ 0 → cs ≡ []
nil_of_length [] h = refl
nil_of_length (c ∷ cs) h = absurd (omega arith)

-- Every change is listed as safe or as unsafe, never as both, and a list without unsafe changes
-- is the list of its safe ones, for which HasUnsafeChanges answers no.
pub changes-parted :
    (cs : List Change)
    → (length (safe_changes cs) + length (unsafe_changes cs) ≡ length cs)
      × ((has_unsafe_changes cs ≡ false) ↔ (unsafe_changes cs ≡ []))
      × ((has_unsafe_changes cs ≡ false) ↔ (safe_changes cs ≡ cs))
changes-parted cs = (
  length-parts cs,
  has_unsafe_iff cs,
  (
    all_safe cs,
    λ e.
        (has_unsafe_iff cs).1
          (nil_of_length (unsafe_changes cs) (omega (arith, length-parts cs, ap length e))),
  ),
)

pub some-inj {ℓ} : {V : Type ℓ} {v w : V} → some v ≡ some w → v ≡ w
some-inj h = cc

-- A list of changes has an unsafe one when one of its parts has.
pub has_unsafe-append :
    (xs ys : List Change)
    → has_unsafe_changes (xs ++ ys) ≡ (has_unsafe_changes xs || has_unsafe_changes ys)
unfolding has_unsafe_changes
has_unsafe-append [] ys = refl
has_unsafe-append (c ∷ xs) ys = ground (arith, has_unsafe-append xs ys)

pub append_safe :
    (xs ys : List Change)
    → has_unsafe_changes (xs ++ ys) ≡ false
    → (has_unsafe_changes xs ≡ false) × (has_unsafe_changes ys ≡ false)
append_safe xs ys h = ground (arith, has_unsafe-append xs ys)

module _ {ℓ} {V : Type ℓ} (f : String → V → List Change) where
  -- A loop without unsafe changes has none in any of its rounds.
  pub each_safe :
      (m : GoMap V) (k : String) (v : V)
      → has_unsafe_changes (each f m) ≡ false
      → lookup k m ≡ some v
      → has_unsafe_changes (f k v) ≡ false
  unfolding each lookup
  each_safe [] k v h found = cc
  each_safe ((j, w) ∷ m) k v h found = elim (Bool-cases (str_eq j k)) [
    | inl same ↦
        let value = rw same at found in
        rw (sym ((eq_iff j k).0 same), sym (some-inj value)) (append_safe (f j w) (each f m) h).0
    | inr other ↦ each_safe m k v (append_safe (f j w) (each f m) h).1 (rw other at found)
  ]

  -- A loop whose rounds give no change gives none.
  pub each-nil :
      (m : GoMap V)
      → IsMap m
      → ((k : String) (v : V) → lookup k m ≡ some v → f k v ≡ [])
      → each f m ≡ []
  unfolding each lookup
  each-nil [] d h = refl
  each-nil ((j, w) ∷ m) d h = rw (
    h j w (rw (eq_refl j) refl),
    each-nil m d.1 (λ k v found. h k v (elim (Bool-cases (str_eq j k)) [
      | inl same ↦ let gone = rw ((eq_iff j k).0 same) at (d.0) in cc
      | inr other ↦ rw other found
    ])),
  )
