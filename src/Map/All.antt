-- ===== src/Map/All.antt =====
-- What holds of each value of a map.
use alyx.Prelude.{
  ◌≤◌, ◌≡◌, subst, String, some, [], ◌∷◌, inl, inr, Bool-cases, str_eq, arith, length,
}
use alyx.Map.{GoMap, lookup, insert, delete}

module _ {V : Type 0} where
  abbrev pub AllValues : (V → Type 0) → GoMap V → Type 0
  AllValues P [] = Unit
  AllValues P ((key, v) ∷ rest) = P v × AllValues P rest

  pub AllValues-insert :
      (P : V → Type 0) (key : String) (v : V) (m : GoMap V)
      → P v
      → AllValues P m
      → AllValues P (insert key v m)
  unfolding insert
  AllValues-insert P key v [] p h = (p, tt)
  AllValues-insert P key v ((this, w) ∷ rest) p (q, h) = elim (Bool-cases (str_eq this key)) [
    | inl same ↦ rw same (p, h)
    | inr other ↦ rw other (q, AllValues-insert P key v rest p h)
  ]

  pub AllValues-delete :
      (P : V → Type 0) (key : String) (m : GoMap V) → AllValues P m → AllValues P (delete key m)
  unfolding delete
  AllValues-delete P key [] h = tt
  AllValues-delete P key ((this, w) ∷ rest) (q, h) = elim (Bool-cases (str_eq this key)) [
    | inl same ↦ rw same (AllValues-delete P key rest h)
    | inr other ↦ rw other (q, AllValues-delete P key rest h)
  ]

  pub AllValues-map :
      (P Q : V → Type 0) (m : GoMap V) → ((v : V) → P v → Q v) → AllValues P m → AllValues Q m
  AllValues-map P Q [] f h = tt
  AllValues-map P Q ((this, w) ∷ rest) f (p, h) = (f w p, AllValues-map P Q rest f h)

  pub AllValues-lookup :
      (P : V → Type 0) (key : String) (v : V) (m : GoMap V)
      → lookup key m ≡ some v
      → AllValues P m
      → P v
  unfolding lookup
  AllValues-lookup P key v [] e h = absurd (cc)
  AllValues-lookup P key v ((this, w) ∷ rest) e (p, h) = elim (Bool-cases (str_eq this key)) [
    | inl same ↦ let e' = rw same at e in subst P (cc) p
    | inr other ↦ AllValues-lookup P key v rest (rw other at e) h
  ]

pub length-delete-le : {V : Type 0} (key : String) (m : GoMap V) → length (delete key m) ≤ length m
unfolding delete
length-delete-le key [] = omega arith
length-delete-le key ((this, w) ∷ rest) = ground (arith, length-delete-le key rest)

pub AllValues-map2 :
    {V : Type 0} (P Q R : V → Type 0) (m : GoMap V)
    → ((v : V) → P v → Q v → R v)
    → AllValues P m
    → AllValues Q m
    → AllValues R m
AllValues-map2 P Q R [] f p q = tt
AllValues-map2 P Q R ((this, v) ∷ rest) f (p, ps) (q, qs) =
    (f v p q, AllValues-map2 P Q R rest f ps qs)
