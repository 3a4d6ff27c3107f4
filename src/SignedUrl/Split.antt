-- ===== src/SignedUrl/Split.antt =====
-- Splitting at the bars takes apart what `payload` put together.
use alyx.Prelude.{
  ℕ, suc, length, inl, inr, Bool-cases, ◌<◌, ◌+◌, ◌≡◌, refl, ap, ◌∙◌, List, [], ◌∷◌, ◌++◌, arith,
  ◌==◌, if◌then◌else◌,
}
use mathlib.Core.List.{append_assoc}
use alyx.Bytes.{Bytes}
use alyx.SignedUrl.{bar, NoBar, split, extend_first, payload}

pub split-bar : (part rest : Bytes) → NoBar part → split (part ++ (bar ∷ rest)) ≡ part ∷ split rest
unfolding split
split-bar [] rest h = refl
split-bar (c ∷ part) rest h = rw (h.0, split-bar part rest h.1)

pub split-last : (part : Bytes) → NoBar part → split part ≡ part ∷ []
unfolding split
split-last [] h = refl
split-last (c ∷ part) h = rw (h.0, split-last part h.1)

pub split-payload :
    (a b c d e signature : Bytes)
    → NoBar a
    → NoBar b
    → NoBar c
    → NoBar d
    → NoBar e
    → NoBar signature
    → split (payload a b c d e ++ (bar ∷ signature)) ≡ a ∷ b ∷ c ∷ d ∷ e ∷ signature ∷ []
split-payload a b c d e signature na nb nc nd ne ns = simp append_assoc (
    split-bar a _ na
    ∙ ap (λ r. a ∷ r)
        (split-bar b _ nb
          ∙ ap (λ r. b ∷ r)
              (split-bar c _ nc
                ∙ ap (λ r. c ∷ r)
                    (split-bar d _ nd
                      ∙ ap (λ r. d ∷ r)
                          (split-bar e _ ne ∙ ap (λ r. e ∷ r) (split-last signature ns))))))

abbrev pub bars : Bytes → ℕ
bars [] = 0
bars (c ∷ cs) = (if c == bar then 1 else 0) + bars cs

bars-append : (a b : Bytes) → bars (a ++ b) ≡ bars a + bars b
bars-append [] b = omega arith
bars-append (c ∷ a) b = omega (arith, bars-append a b)

pub NoBar-bars : (a : Bytes) → NoBar a → bars a ≡ 0
NoBar-bars [] h = refl
NoBar-bars (c ∷ a) h = rw h.0 (omega (arith, NoBar-bars a h.1))

length-extend_first :
    (c : ℕ) (parts : List Bytes) → 0 < length parts → length (extend_first c parts) ≡ length parts
length-extend_first c [] h = absurd (omega arith)
length-extend_first c (p ∷ parts) h = refl

-- There is one part more than there are bars.
pub length-split : (s : Bytes) → length (split s) ≡ suc (bars s)
unfolding split
length-split [] = refl
length-split (c ∷ cs) = elim (Bool-cases (c == bar)) [
  | inl e ↦ rw e (omega (arith, length-split cs))
  | inr e ↦ rw e (
      omega
        (arith, length-split cs, length-extend_first c (split cs) (omega (arith, length-split cs))))
]

pub bars-payload :
    (a b c d e signature : Bytes)
    → bars (payload a b c d e ++ (bar ∷ signature))
      ≡ 5 + bars a + bars b + bars c + bars d + bars e + bars signature
bars-payload a b c d e signature = simp (append_assoc, bars-append) (omega arith)
