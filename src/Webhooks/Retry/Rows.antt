-- ===== src/Webhooks/Retry/Rows.antt =====
-- The rows of the queue under an update by id.
use alyx.Prelude.{
  ℕ, ◌+◌, ◌≡◌, refl, sym, String, false, List, [], ◌∷◌, ◌⊎◌, inl, inr, arith, Bool-cases, subst,
  eq_refl, str_eq, eq_iff,
}
use alyx.Webhooks.Retry.{QueuedWebhook, update}

-- No row of the list has this id.
abbrev pub IsNew : String → List QueuedWebhook → Type 0
IsNew id [] = Unit
IsNew id (row ∷ rows) = (str_eq row.id id ≡ false) × IsNew id rows

-- The id is the primary key.
abbrev pub DistinctIds : List QueuedWebhook → Type 0
DistinctIds [] = Unit
DistinctIds (row ∷ rows) = IsNew row.id rows × DistinctIds rows

abbrev pub Holds : QueuedWebhook → List QueuedWebhook → Type 0
Holds row [] = ⊥
Holds row (first ∷ rest) = (first ≡ row) ⊎ Holds row rest

abbrev pub total : (QueuedWebhook → ℕ) → List QueuedWebhook → ℕ
total weight [] = 0
total weight (row ∷ rows) = weight row + total weight rows

-- An update keeps the id of the row.
abbrev pub KeepsId : (QueuedWebhook → QueuedWebhook) → Type 0
KeepsId change = (row : QueuedWebhook) → (change row).id ≡ row.id

pub str_eq_comm : (a b : String) → str_eq a b ≡ false → str_eq b a ≡ false
str_eq_comm a b h = ground (arith, eq_iff a b, eq_iff b a)

pub update-new :
    (id : String) (change : QueuedWebhook → QueuedWebhook) (rows : List QueuedWebhook)
    → IsNew id rows
    → update id change rows ≡ rows
unfolding update
update-new id change [] h = refl
update-new id change (row ∷ rows) (h, hs) = rw (h, update-new id change rows hs)

pub IsNew-Holds :
    (id : String) (row : QueuedWebhook) (rows : List QueuedWebhook)
    → IsNew id rows
    → Holds row rows
    → str_eq row.id id ≡ false
IsNew-Holds id row [] h e = absurd e
IsNew-Holds id row (first ∷ rest) (h, hs) (inl e) = subst (λ r. str_eq r.id id ≡ false) e h
IsNew-Holds id row (first ∷ rest) (h, hs) (inr m) = IsNew-Holds id row rest hs m

-- What an update adds to a sum over the rows.
pub total-update :
    (weight : QueuedWebhook → ℕ) (change : QueuedWebhook → QueuedWebhook) (row : QueuedWebhook)
    (rows : List QueuedWebhook)
    → DistinctIds rows
    → Holds row rows
    → total weight (update row.id change rows) + weight row
      ≡ total weight rows + weight (change row)
unfolding update
total-update weight change row [] d e = absurd e
total-update weight change row (first ∷ rest) (h, hs) (inl e) =
    subst
      (λ r.
        total weight (update r.id change (first ∷ rest)) + weight r
        ≡ total weight (first ∷ rest) + weight (change r))
      e (rw (eq_refl first.id, update-new first.id change rest h) (omega arith))
total-update weight change row (first ∷ rest) (h, hs) (inr m) =
    rw (str_eq_comm row.id first.id (IsNew-Holds first.id row rest h m))
      (omega (arith, total-update weight change row rest hs m))

pub Holds-update :
    (other : QueuedWebhook) (id : String) (change : QueuedWebhook → QueuedWebhook)
    (rows : List QueuedWebhook)
    → str_eq other.id id ≡ false
    → Holds other rows
    → Holds other (update id change rows)
unfolding update
Holds-update other id change [] h e = absurd e
Holds-update other id change (first ∷ rest) h (inl e) =
    rw (subst (λ r. str_eq r.id id ≡ false) (sym e) h) (inl e)
Holds-update other id change (first ∷ rest) h (inr m) = elim (Bool-cases (str_eq first.id id)) [
  | inl same ↦ rw same (inr (Holds-update other id change rest h m))
  | inr differs ↦ rw differs (inr (Holds-update other id change rest h m))
]

IsNew-update :
    (new id : String) (change : QueuedWebhook → QueuedWebhook) (rows : List QueuedWebhook)
    → KeepsId change
    → IsNew new rows
    → IsNew new (update id change rows)
unfolding update
IsNew-update new id change [] k h = tt
IsNew-update new id change (row ∷ rows) k (h, hs) = elim (Bool-cases (str_eq row.id id)) [
  | inl same ↦ rw same (rw (k row) h, IsNew-update new id change rows k hs)
  | inr differs ↦ rw differs (h, IsNew-update new id change rows k hs)
]

pub update-DistinctIds :
    (id : String) (change : QueuedWebhook → QueuedWebhook) (rows : List QueuedWebhook)
    → KeepsId change
    → DistinctIds rows
    → DistinctIds (update id change rows)
unfolding update
update-DistinctIds id change [] k h = tt
update-DistinctIds id change (row ∷ rows) k (h, hs) = elim (Bool-cases (str_eq row.id id)) [
  | inl same ↦
      rw same (
        rw (k row) (IsNew-update row.id id change rows k h),
        update-DistinctIds id change rows k hs,
      )
  | inr differs ↦
      rw differs (IsNew-update row.id id change rows k h, update-DistinctIds id change rows k hs)
]
