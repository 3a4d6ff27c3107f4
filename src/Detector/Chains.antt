-- ===== src/Detector/Chains.antt =====
-- Lists of changes whose ids grow.
use alyx.Prelude.{
  ℕ, zero, suc, ◌<◌, ◌≤◌, Bool, List, [], ◌∷◌, ◌++◌, ltb, leb, length, take, filter, arith,
  Bool-cases, inl, inr, lt→ltb, ltb→lt,
}
use alyx.Detector.{ChangeRow, max_id, broadcast_changes, mark_processed, fetched}

-- The ids grow, from above `low` on.
abbrev pub Grows : ℕ → List ChangeRow → Type 0
Grows low [] = Unit
Grows low (r ∷ rest) = (low < r.id) × Grows r.id rest

-- And the last is at most `high`.
abbrev pub Chain : ℕ → List ChangeRow → ℕ → Type 0
Chain low [] high = low ≤ high
Chain low (r ∷ rest) high = (low < r.id) × Chain r.id rest high

Grows-weaken : (low low' : ℕ) (rs : List ChangeRow) → low' ≤ low → Grows low rs → Grows low' rs
Grows-weaken low low' [] l h = tt
Grows-weaken low low' (r ∷ rest) l (h, hs) = (omega arith, hs)

pub filter-Grows :
    (p : ChangeRow → Bool) (low : ℕ) (rs : List ChangeRow) → Grows low rs → Grows low (filter p rs)
filter-Grows p low [] h = tt
filter-Grows p low (r ∷ rest) (h, hs) = elim (Bool-cases (p r)) [
  | inl kept ↦ rw kept (h, filter-Grows p r.id rest hs)
  | inr left ↦ rw left (filter-Grows p low rest (Grows-weaken r.id low rest (omega arith) hs))
]

above-Grows :
    (last low : ℕ) (rs : List ChangeRow)
    → Grows low rs
    → Grows last (filter (λ r. ltb last r.id) rs)
above-Grows last low [] h = tt
above-Grows last low (r ∷ rest) (h, hs) = elim (Bool-cases (ltb last r.id)) [
  | inl kept ↦ rw kept (ltb→lt last r.id kept, filter-Grows (λ r. ltb last r.id) r.id rest hs)
  | inr left ↦ rw left (above-Grows last r.id rest hs)
]

take-Grows : (n low : ℕ) (rs : List ChangeRow) → Grows low rs → Grows low (take n rs)
take-Grows zero low rs h = tt
take-Grows (suc n) low [] h = tt
take-Grows (suc n) low (r ∷ rest) (h, hs) = (h, take-Grows n r.id rest hs)

pub fetched-Grows :
    (last low : ℕ) (rows : List ChangeRow) → Grows low rows → Grows last (fetched last rows)
unfolding fetched
fetched-Grows last low rows h =
    filter-Grows (λ r. r.readable) last (take 1000 (filter (λ r. ltb last r.id) rows))
      (take-Grows 1000 last (filter (λ r. ltb last r.id) rows) (above-Grows last low rows h))

pub Grows-Chain : (last : ℕ) (rs : List ChangeRow) → Grows last rs → Chain last rs (max_id last rs)
unfolding max_id
Grows-Chain last [] h = omega arith
Grows-Chain last (r ∷ rest) (h, hs) = (h, rw (lt→ltb last r.id h) (Grows-Chain r.id rest hs))

pub mark_processed-Grows :
    (max low : ℕ) (rows : List ChangeRow) → Grows low rows → Grows low (mark_processed max rows)
unfolding mark_processed
mark_processed-Grows max low [] h = tt
mark_processed-Grows max low (r ∷ rest) (h, hs) = elim (Bool-cases (leb r.id max)) [
  | inl old ↦ rw old (h, mark_processed-Grows max r.id rest hs)
  | inr new ↦ rw new (h, mark_processed-Grows max r.id rest hs)
]

Chain-weaken :
    (low high high' : ℕ) (rs : List ChangeRow)
    → high ≤ high'
    → Chain low rs high
    → Chain low rs high'
Chain-weaken low high high' [] l h = omega arith
Chain-weaken low high high' (r ∷ rest) l (h, hs) = (h, Chain-weaken r.id high high' rest l hs)

snoc-Chain :
    (low high : ℕ) (rs : List ChangeRow) (r : ChangeRow)
    → high < r.id
    → Chain low rs high
    → Chain low (rs ++ (r ∷ [])) r.id
snoc-Chain low high [] r l h = (omega arith, omega arith)
snoc-Chain low high (s ∷ rest) r l (h, hs) = (h, snoc-Chain s.id high rest r l hs)

-- The changes taken, then those in the channel, then a new one.
pub put-Chain :
    (low high : ℕ) (old channel : List ChangeRow) (r : ChangeRow)
    → high < r.id
    → Chain low (old ++ channel) high
    → Chain low (old ++ (channel ++ (r ∷ []))) r.id
put-Chain low high [] channel r l h = snoc-Chain low high channel r l h
put-Chain low high (s ∷ old) channel r l (h, hs) = (h, put-Chain s.id high old channel r l hs)

pub take-Chain :
    (low high : ℕ) (old : List ChangeRow) (r : ChangeRow) (rest : List ChangeRow)
    → Chain low (old ++ (r ∷ rest)) high
    → Chain low ((old ++ (r ∷ [])) ++ rest) high
take-Chain low high [] r rest h = h
take-Chain low high (s ∷ old) r rest (h, hs) = (h, take-Chain s.id high old r rest hs)

pub broadcast-Chain :
    (size low high : ℕ) (old channel rs : List ChangeRow) (top : ℕ)
    → Chain low (old ++ channel) high
    → Chain high rs top
    → Chain low (old ++ broadcast_changes size channel rs) top
unfolding broadcast_changes
broadcast-Chain size low high old channel [] top h b =
    Chain-weaken low high top (old ++ channel) b h
broadcast-Chain size low high old channel (r ∷ rest) top h (b, bs) =
    elim (Bool-cases (ltb (length channel) size)) [
      | inl room ↦ rw room (
          broadcast-Chain size low r.id old (channel ++ (r ∷ [])) rest top
            (put-Chain low high old channel r b h) bs)
      | inr full ↦ rw full (
          broadcast-Chain size low r.id old channel rest top
            (Chain-weaken low high r.id (old ++ channel) (omega arith) h) bs)
    ]
