-- ===== src/Map/Total.antt =====
-- Sums over the values of a map, such as len(m) or a count of the values with a property.
use alyx.Prelude.{
  ℕ, ◌+◌, String, ◌≡◌, refl, ap, Option, none, some, [], ◌∷◌, arith, str_eq, eq_iff, inl, inr,
  Bool-cases,
}
use alyx.Map.{GoMap, lookup, insert, delete, IsMap}

abbrev pub weigh {ℓ} : {V : Type ℓ} → (V → ℕ) → Option V → ℕ
weigh f none = 0
weigh f (some v) = f v

module _ {ℓ} {V : Type ℓ} (f : V → ℕ) where
  abbrev pub total : GoMap V → ℕ
  total [] = 0
  total ((key, value) ∷ rest) = f value + total rest

  -- A write replaces what the key had.
  pub total-insert :
      (key : String) (value : V) (m : GoMap V)
      → total (insert key value m) + weigh f (lookup key m) ≡ total m + f value
  unfolding insert lookup
  total-insert key value [] = omega arith
  total-insert key value ((this, found) ∷ rest) = elim (Bool-cases (str_eq this key)) [
    | inl same ↦ rw same (omega arith)
    | inr other ↦ rw other (omega (arith, total-insert key value rest))
  ]

  total-delete_absent :
      (key : String) (m : GoMap V) → lookup key m ≡ none → total (delete key m) ≡ total m
  unfolding delete lookup
  total-delete_absent key [] h = refl
  total-delete_absent key ((this, found) ∷ rest) h = elim (Bool-cases (str_eq this key)) [
    | inl same ↦ let h' = rw same at h in cc
    | inr other ↦ rw other (ap (λ n. f found + n) (total-delete_absent key rest (rw other at h)))
  ]

  -- A deletion takes away what the key had.
  pub total-delete :
      (key : String) (m : GoMap V)
      → IsMap m
      → total (delete key m) + weigh f (lookup key m) ≡ total m
  unfolding delete lookup
  total-delete key [] d = omega arith
  total-delete key ((this, found) ∷ rest) d = elim (Bool-cases (str_eq this key)) [
    | inl same ↦
        rw same
          (omega (arith, total-delete_absent key rest (rw ((eq_iff this key).0 same) at (d.0))))
    | inr other ↦ rw other (omega (arith, total-delete key rest d.1))
  ]
