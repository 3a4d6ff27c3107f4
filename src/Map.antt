-- ===== src/Map.antt =====
-- Go's `map[string]V` as an association list with distinct keys. Go leaves the order of a `range`
-- loop open: the models either do not depend on it or name the list's order as the one taken.
pub mod Laws
pub mod All
pub mod Total
use alyx.Prelude.{String, ◌≡◌, Bool, Option, none, some, List, [], ◌∷◌, if◌then◌else◌, str_eq}

abbrev pub GoMap {ℓ} : Type ℓ → Type ℓ
GoMap V = List (String × V)

module _ {ℓ} {V : Type ℓ} where
  -- v, ok := m[key]
  unfoldable pub lookup : String → GoMap V → Option V
  lookup key [] = none
  lookup key ((this, found) ∷ rest) = if str_eq this key then some found else lookup key rest

  -- m[key] = value
  unfoldable pub insert : String → V → GoMap V → GoMap V
  insert key value [] = (key, value) ∷ []
  insert key value ((this, found) ∷ rest) =
      let after = insert key value rest in
      if str_eq this key then (key, value) ∷ rest else (this, found) ∷ after

  -- delete(m, k)
  unfoldable pub delete : String → GoMap V → GoMap V
  delete k [] = []
  delete k ((j, w) ∷ m) = let rest = delete k m in if str_eq j k then rest else (j, w) ∷ rest

  -- for k, v := range m { if p(v) { delete(m, k) } }
  unfoldable pub delete_where : (V → Bool) → GoMap V → GoMap V
  delete_where p [] = []
  delete_where p ((j, w) ∷ m) = let rest = delete_where p m in if p w then rest else (j, w) ∷ rest

  -- No key stands twice.
  abbrev pub IsMap : GoMap V → Type ℓ
  IsMap [] = Unit
  IsMap ((k, v) ∷ m) = (lookup k m ≡ none) × IsMap m
