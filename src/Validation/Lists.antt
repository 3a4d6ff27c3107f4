-- ===== src/Validation/Lists.antt =====
-- When a list of errors is empty, piece by piece.
use alyx.Prelude.{
  ℕ, ◌≡◌, ◌≢◌, ◌↔◌, ◌⊎◌, inl, inr, refl, sym, ap, subst, String, Bool, true, false, not, Option,
  none, some, List, [], ◌∷◌, ◌++◌, arith, length, Bool-cases, ◌&&◌,
}
use alyx.Prelude.Int.{ℤ, pos, negsuc, lt_int, le_int, eq_int}
use alyx.Bytes.{Bytes, bytes_eq, bytes_eq_refl, eq_of_bytes_eq}
use alyx.Validation.{
  ValidationError, check, error, contains, too_short, too_long, length_errors, string_item_errors,
  many_errors,
}
use alyx.Validation.Meets.{AtLeast, AtMost, Among, AllAmong, Allowed}

-- There are no errors exactly if this holds.
abbrev pub FreeIff : List ValidationError → Type 0 → Type 0
FreeIff errors P = (errors ≡ []) ↔ P

pub nil-FreeIff : FreeIff [] Unit
nil-FreeIff = (λ e. tt, λ u. refl)

pub error-FreeIff : (field code : String) → FreeIff (error field code) ⊥
error-FreeIff field code = (λ e. cc, λ a. absurd a)

pub both :
    {P Q : Type 0} (xs ys : List ValidationError)
    → FreeIff xs P
    → FreeIff ys Q
    → FreeIff (xs ++ ys) (P × Q)
both [] ys p q = (λ e. (p.0 refl, q.0 e), λ h. q.1 h.1)
both (x ∷ xs) ys p q = (λ e. absurd (cc), λ h. let e = p.1 h.0 in absurd (cc))

pub check-FreeIff :
    {P : Type 0} (fault : Bool) (field code : String)
    → ((fault ≡ false) ↔ P)
    → FreeIff (check fault field code) P
check-FreeIff true field code i = (λ e. absurd (cc), λ p. let e = i.1 p in absurd (cc))
check-FreeIff false field code i = (λ e. i.0 refl, λ p. refl)

pub not_iff : (b : Bool) → (not b ≡ false) ↔ (b ≡ true)
not_iff true = (λ e. refl, λ e. refl)
not_iff false = (λ e. sym e, λ e. sym e)

pub le_iff : (a b : ℤ) → (lt_int a b ≡ false) ↔ (le_int b a ≡ true)
le_iff (pos a) (pos b) = ground arith
le_iff (pos a) (negsuc b) = ground arith
le_iff (negsuc a) (pos b) = ground arith
le_iff (negsuc a) (negsuc b) = ground arith

too_short_iff : (m : Option ℤ) (s : Bytes) → (too_short m s ≡ false) ↔ AtLeast m s
too_short_iff none s = (λ e. tt, λ u. refl)
too_short_iff (some m) s = le_iff (pos (length s)) m

too_long_iff : (m : Option ℤ) (s : Bytes) → (too_long m s ≡ false) ↔ AtMost m s
too_long_iff none s = (λ e. tt, λ u. refl)
too_long_iff (some m) s = le_iff m (pos (length s))

pub length_errors-FreeIff :
    (name : String) (min max : Option ℤ) (s : Bytes)
    → FreeIff (length_errors name min max s) (AtLeast min s × AtMost max s)
unfolding length_errors
length_errors-FreeIff name min max s =
    both (check (too_short min s) name "min_length") (check (too_long max s) name "max_length")
      (check-FreeIff (too_short min s) name "min_length" (too_short_iff min s))
      (check-FreeIff (too_long max s) name "max_length" (too_long_iff max s))

pub contains_iff : (values : List Bytes) (s : Bytes) → (contains values s ≡ true) ↔ Among values s
unfolding contains
contains_iff [] s = (λ e. cc, λ a. absurd a)
contains_iff (v ∷ rest) s = elim (Bool-cases (bytes_eq v s)) [
  | inl same ↦ rw same (λ e. inl (eq_of_bytes_eq v s same), λ a. refl)
  | inr other ↦
      rw other (λ e. inr ((contains_iff rest s).0 e), λ a. (contains_iff rest s).1 (later a other))
]
  where
    later : (v ≡ s) ⊎ Among rest s → bytes_eq v s ≡ false → Among rest s
    later (inl e) other = let r = bytes_eq_refl s in let o = rw e at other in absurd (cc)
    later (inr a) other = a

pub Among-FreeIff :
    (values : List Bytes) (s : Bytes) (name code : String)
    → FreeIff (check (not (contains values s)) name code) (Among values s)
Among-FreeIff values s name code = check-FreeIff (not (contains values s)) name code (
  λ e. (contains_iff values s).0 ((not_iff (contains values s)).0 e),
  λ a. (not_iff (contains values s)).1 ((contains_iff values s).1 a),
)

pub string_item_errors-FreeIff :
    (name : String) (values items : List Bytes)
    → FreeIff (string_item_errors name values items) (AllAmong values items)
unfolding string_item_errors
string_item_errors-FreeIff name values [] = nil-FreeIff
string_item_errors-FreeIff name values (s ∷ rest) =
    both (check (not (contains values s)) name "invalid_select")
      (string_item_errors name values rest) (Among-FreeIff values s name "invalid_select")
      (string_item_errors-FreeIff name values rest)

one_iff : (m : ℤ) → (eq_int m (pos 1) ≡ true) ↔ (m ≡ pos 1)
one_iff (pos n) =
    (λ h. ap pos (ground arith), λ e. subst (λ k. eq_int k (pos 1) ≡ true) (sym e) refl)
one_iff (negsuc n) = (λ h. absurd (cc), λ e. absurd (cc))

not_one : (m : ℤ) → eq_int m (pos 1) ≡ false → m ≢ pos 1
not_one m several e = let o = (one_iff m).1 e in absurd (cc)

over_iff :
    (m : ℤ) (n : ℕ)
    → ((lt_int (pos 0) m && lt_int m (pos n)) ≡ false)
      ↔ (lt_int (pos 0) m ≡ true → le_int (pos n) m ≡ true)
over_iff m n = elim (Bool-cases (lt_int (pos 0) m)) [
  | inl bound ↦ rw bound (λ e. λ b. (le_iff m (pos n)).0 e, λ f. (le_iff m (pos n)).1 (f refl))
  | inr free ↦ rw free (λ e. λ b. absurd (cc), λ f. refl)
]

pub many_errors-FreeIff :
    {P : Type 0} (name : String) (m : ℤ) (n : ℕ) (items : List ValidationError)
    → FreeIff items P
    → FreeIff (many_errors name m n items) (Allowed m n × P)
unfolding many_errors
many_errors-FreeIff name m n items i = elim (Bool-cases (eq_int m (pos 1))) [
  | inl one ↦ rw one (λ e. absurd (cc), λ h. absurd (h.0.0 ((one_iff m).0 one)))
  | inr several ↦ rw several (elim (Bool-cases (lt_int (pos 0) m && lt_int m (pos n))) [
    | inl over ↦ rw over (λ e. absurd (cc), λ h. let o = (over_iff m n).1 h.0.1 in absurd (cc))
    | inr within ↦
        rw within (λ e. ((not_one m several, (over_iff m n).0 within), i.0 e), λ h. i.1 h.1)
  ])
]
