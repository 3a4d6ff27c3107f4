-- ===== src/Map/Laws.antt =====
-- The laws of the map operations.
use alyx.Prelude.{
  suc, ◌≤◌, length, true, false, Bool, String, ◌≡◌, refl, Bool, true, false, Option, none, some, [],
  ◌∷◌, arith, inl, inr, Bool-cases, if◌then◌else◌, str_eq, eq_iff,
}
use alyx.Map.{GoMap, lookup, insert, delete, delete_where, IsMap}

-- What is left of a value when those that pass `p` are deleted.
abbrev pub keep {ℓ} : {V : Type ℓ} → (V → Bool) → Option V → Option V
keep p none = none
keep p (some v) = if p v then none else some v

module _ {ℓ} {V : Type ℓ} where
  pub lookup-insert :
      (key other : String) (value : V) (entries : GoMap V)
      → lookup other (insert key value entries)
        ≡ (if str_eq key other then some value else lookup other entries)
  unfolding insert lookup
  lookup-insert key other value [] = refl
  lookup-insert key other value ((this, found) ∷ rest) = ground (
    arith,
    lookup-insert key other value rest,
    eq_iff key other,
    eq_iff this other,
    eq_iff this key,
  )

  pub lookup-delete :
      (k j : String) (m : GoMap V)
      → lookup j (delete k m) ≡ (if str_eq k j then none else lookup j m)
  unfolding lookup delete
  lookup-delete k j [] = ground arith
  lookup-delete k j ((i, w) ∷ m) =
      ground (arith, eq_iff k j, eq_iff i k, eq_iff i j, lookup-delete k j m)

  pub lookup-delete_where :
      (p : V → Bool) (j : String) (m : GoMap V)
      → IsMap m
      → lookup j (delete_where p m) ≡ keep p (lookup j m)
  unfolding lookup delete_where
  lookup-delete_where p j [] h = refl
  lookup-delete_where p j ((i, w) ∷ m) h = ground (arith, eq_iff i j, lookup-delete_where p j m h.1)

  pub insert-IsMap : (k : String) (v : V) (m : GoMap V) → IsMap m → IsMap (insert k v m)
  unfolding insert lookup
  insert-IsMap k v [] h = (refl, tt)
  insert-IsMap k v ((i, w) ∷ m) h = elim (Bool-cases (str_eq i k)) [
    | inl same ↦ rw same (rw ((eq_iff i k).0 same) at (h.0), h.1)
    | inr other ↦
        rw other
          (ground (arith, lookup-insert k i v m, eq_iff i k, eq_iff k i), insert-IsMap k v m h.1)
  ]

  pub delete-IsMap : (k : String) (m : GoMap V) → IsMap m → IsMap (delete k m)
  unfolding delete
  delete-IsMap k [] h = tt
  delete-IsMap k ((i, w) ∷ m) h = ground (arith, lookup-delete k i m, delete-IsMap k m h.1)

  pub delete_where-IsMap : (p : V → Bool) (m : GoMap V) → IsMap m → IsMap (delete_where p m)
  unfolding delete_where
  delete_where-IsMap p [] h = tt
  delete_where-IsMap p ((i, w) ∷ m) h =
      ground (arith, lookup-delete_where p i m h.1, delete_where-IsMap p m h.1)

abbrev pub is_some {ℓ} : {A : Type ℓ} → Option A → Bool
is_some none = false
is_some (some a) = true

module _ {ℓ} {V : Type ℓ} where
  -- len(m) after a write: one more if the key is new.
  pub length-insert :
      (k : String) (v : V) (m : GoMap V)
      → length (insert k v m) ≡ (if is_some (lookup k m) then length m else suc (length m))
  unfolding insert lookup
  length-insert k v [] = refl
  length-insert k v ((i, w) ∷ m) = elim (Bool-cases (str_eq i k)) [
    | inl same ↦ rw same
    | inr other ↦ rw other (ground (arith, length-insert k v m))
  ]

  pub length-delete_where-le : (p : V → Bool) (m : GoMap V) → length (delete_where p m) ≤ length m
  unfolding delete_where
  length-delete_where-le p [] = omega arith
  length-delete_where-le p ((i, w) ∷ m) = ground (arith, length-delete_where-le p m)
