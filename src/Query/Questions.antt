-- ===== src/Query/Questions.antt =====
-- How many placeholders a text has.
use alyx.Prelude.{
  ℕ, ◌+◌, ◌≡◌, refl, List, [], ◌∷◌, ◌++◌, map, ◌==◌, length, length-append, if◌then◌else◌, arith,
}
use alyx.Bytes.{Bytes}
use alyx.Query.{join, Clause, texts, arguments, question}

unfoldable pub questions : Bytes → ℕ
questions [] = 0
questions (c ∷ s) = (if c == b'?' then 1 else 0) + questions s

pub questions-append : (s t : Bytes) → questions (s ++ t) ≡ questions s + questions t
unfolding questions
questions-append [] t = omega arith
questions-append (c ∷ s) t = omega (arith, questions-append s t)

pub after_plain : (s t : Bytes) → questions s ≡ 0 → questions (s ++ t) ≡ questions t
after_plain s t h = omega (arith, questions-append s t, h)

pub before_plain : (s t : Bytes) → questions t ≡ 0 → questions (s ++ t) ≡ questions s
before_plain s t h = omega (arith, questions-append s t, h)

unfoldable pub all_questions : List Bytes → ℕ
all_questions [] = 0
all_questions (s ∷ rest) = questions s + all_questions rest

pub all_questions-append :
    (xs ys : List Bytes) → all_questions (xs ++ ys) ≡ all_questions xs + all_questions ys
unfolding all_questions
all_questions-append [] ys = omega arith
all_questions-append (x ∷ xs) ys = omega (arith, all_questions-append xs ys)

pub questions-join :
    (sep : Bytes) (xs : List Bytes) → questions sep ≡ 0 → questions (join sep xs) ≡ all_questions xs
unfolding join all_questions questions
questions-join sep [] h = refl
questions-join sep (x ∷ []) h = omega arith
questions-join sep (x ∷ (y ∷ xs)) h = omega (
  arith,
  h,
  questions-append x (sep ++ join sep (y ∷ xs)),
  questions-append sep (join sep (y ∷ xs)),
  questions-join sep (y ∷ xs) h,
)

-- One placeholder for each.
pub all_questions-map {ℓ} :
    {A : Type ℓ} (xs : List A) → all_questions (map (λ x. question) xs) ≡ length xs
unfolding all_questions questions
all_questions-map [] = refl
all_questions-map (x ∷ xs) = omega (arith, all_questions-map xs)

-- A clause has a placeholder for each of its arguments.
abbrev pub Balanced : {V : Type 0} → Clause V → Type 0
Balanced c = questions (c.0) ≡ length (c.1)

abbrev pub AllBalanced : {V : Type 0} → List (Clause V) → Type 0
AllBalanced [] = Unit
AllBalanced (c ∷ cs) = Balanced c × AllBalanced cs

pub AllBalanced-append :
    {V : Type 0} (xs ys : List (Clause V))
    → AllBalanced xs
    → AllBalanced ys
    → AllBalanced (xs ++ ys)
AllBalanced-append [] ys h k = k
AllBalanced-append (x ∷ xs) ys h k = (h.0, AllBalanced-append xs ys h.1 k)

pub texts-arguments :
    {V : Type 0} (cs : List (Clause V))
    → AllBalanced cs
    → all_questions (texts cs) ≡ length (arguments cs)
unfolding all_questions
texts-arguments [] h = refl
texts-arguments ((sql, args) ∷ cs) h =
    omega (arith, h.0, texts-arguments cs h.1, length-append args (arguments cs))
