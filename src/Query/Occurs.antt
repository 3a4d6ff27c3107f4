-- ===== src/Query/Occurs.antt =====
-- Where a name stands in the texts that the builders join.
use alyx.Prelude.{◌≡◌, refl, sym, ap, ◌∙◌, List, [], ◌∷◌, ◌++◌, ◌⊎◌, inl, inr}
use alyx.Bytes.{Bytes}
use alyx.Query.{join}

-- The text stands in the other as it is.
abbrev pub OccursIn : Bytes → Bytes → Type 0
OccursIn part whole = (before : Bytes) × (after : Bytes) × (whole ≡ before ++ (part ++ after))

append_assoc : (a b c : Bytes) → (a ++ b) ++ c ≡ a ++ (b ++ c)
append_assoc [] b c = refl
append_assoc (x ∷ a) b c = ap (λ r. x ∷ r) (append_assoc a b c)

pub OccursIn-left : (part a b : Bytes) → OccursIn part a → OccursIn part (a ++ b)
OccursIn-left part a b (before, after, e) = (
  before,
  after ++ b,
  ap (λ t. t ++ b) e
      ∙ append_assoc before (part ++ after) b
      ∙ ap (λ t. before ++ t) (append_assoc part after b),
)

pub OccursIn-right : (part a b : Bytes) → OccursIn part b → OccursIn part (a ++ b)
OccursIn-right part a b (before, after, e) =
    (a ++ before, after, ap (λ t. a ++ t) e ∙ sym (append_assoc a before (part ++ after)))

-- The text stands at the start of the other as it is, with a space behind it.
abbrev pub Begins : Bytes → Bytes → Type 0
Begins name whole = (tail : Bytes) × (whole ≡ name ++ (b' ' ∷ tail))

abbrev pub behind : Bytes → Bytes → Bytes
behind word name = word ++ (name ++ (b' ' ∷ []))

-- The text stands as it is right behind a word, with a space behind it.
abbrev pub StandsBehind : Bytes → Bytes → Bytes → Type 0
StandsBehind word name whole = OccursIn (behind word name) whole

pub Begins-StandsBehind :
    (word name rest : Bytes) → Begins name rest → StandsBehind word name (word ++ rest)
Begins-StandsBehind word name rest (tail, e) = (
  [],
  tail,
  ap (λ t. word ++ t) e
      ∙ sym (
          append_assoc word (name ++ (b' ' ∷ [])) tail
          ∙ ap (λ t. word ++ t) (append_assoc name (b' ' ∷ []) tail)),
)

Begins-append : (name a b : Bytes) → Begins name a → Begins name (a ++ b)
Begins-append name a b (tail, e) =
    (tail ++ b, ap (λ t. t ++ b) e ∙ append_assoc name (b' ' ∷ tail) b)

pub no_start : (name : Bytes) → Begins name [] → ⊥
no_start [] (tail, e) = absurd (cc)
no_start (c ∷ name) (tail, e) = absurd (cc)

-- A text of the list begins with the name.
abbrev pub BeginsSome : Bytes → List Bytes → Type 0
BeginsSome name [] = ⊥
BeginsSome name (x ∷ xs) = Begins name x ⊎ BeginsSome name xs

after_join :
    (sep name x rest : Bytes)
    → Begins name rest ⊎ StandsBehind sep name rest
    → StandsBehind sep name (x ++ (sep ++ rest))
after_join sep name x rest (inl b) =
    OccursIn-right (behind sep name) x (sep ++ rest) (Begins-StandsBehind sep name rest b)
after_join sep name x rest (inr o) =
    OccursIn-right (behind sep name) x (sep ++ rest) (OccursIn-right (behind sep name) sep rest o)

pub join-StandsBehind :
    (sep name : Bytes) (xs : List Bytes)
    → BeginsSome name xs
    → Begins name (join sep xs) ⊎ StandsBehind sep name (join sep xs)
unfolding join
join-StandsBehind sep name [] o = absurd o
join-StandsBehind sep name (x ∷ []) (inl b) = inl b
join-StandsBehind sep name (x ∷ []) (inr o) = absurd o
join-StandsBehind sep name (x ∷ (y ∷ rest)) (inl b) = inl (Begins-append name x _ b)
join-StandsBehind sep name (x ∷ (y ∷ rest)) (inr o) =
    inr (after_join sep name x _ (join-StandsBehind sep name (y ∷ rest) o))
