-- ===== src/RequestLog/Index.antt =====
-- The index arithmetic of the ring: where the i-th newest entry stands.
use native.Mathlib.Nat.{mod-eq_of_lt, add-mod_right}
use native.Mathlib.Decide.{dec_lt}
use alyx.Prelude.{ℕ, suc, ◌+◌, ◌-◌, ◌%◌, ◌≤◌, ◌<◌, ◌≡◌, ◌≢◌, ◌∙◌, ap, ◌⊎◌, inl, inr, arith}
use alyx.RequestLog.{newest_index}

module _ (head capacity i : ℕ) (fits : head < capacity) where
  newest_index-behind : i < head → newest_index head capacity i ≡ head - 1 - i
  newest_index-behind h =
      ap (λ k. k % capacity) (omega arith)
      ∙ add-mod_right (head - 1 - i) capacity
      ∙ mod-eq_of_lt (omega arith)

  newest_index-ahead :
      head ≤ i → i < capacity → newest_index head capacity i ≡ head + capacity - 1 - i
  newest_index-ahead h k = mod-eq_of_lt (omega arith)

  -- Inside the array.
  pub newest_index-lt : i < capacity → newest_index head capacity i < capacity
  newest_index-lt h = grind arith

index-cases :
    (head capacity i : ℕ)
    → head < capacity
    → i < capacity
    → ((i < head) × (newest_index head capacity i ≡ head - 1 - i))
      ⊎ ((head ≤ i) × (newest_index head capacity i ≡ head + capacity - 1 - i))
index-cases head capacity i h k = elim (dec_lt i head) [
  | yes p ↦ inl (p, newest_index-behind head capacity i h p)
  | no p ↦ inr (omega arith, newest_index-ahead head capacity i h (omega arith) k)
]

-- The slot after `head`.
next-cases :
    (head capacity : ℕ)
    → head < capacity
    → ((head + 1 < capacity) × ((head + 1) % capacity ≡ head + 1))
      ⊎ ((head + 1 ≡ capacity) × ((head + 1) % capacity ≡ 0))
next-cases head capacity h = grind arith

-- After a write the newest entry stands where `head` was,
pub newest_index-next_zero :
    (head capacity : ℕ) → head < capacity → newest_index ((head + 1) % capacity) capacity 0 ≡ head
newest_index-next_zero head capacity h = elim (next-cases head capacity h) [
  | inl (lt, e) ↦ rw e (newest_index-behind (head + 1) capacity 0 lt (omega arith) ∙ omega arith)
  | inr (eq, e) ↦
      rw e (newest_index-ahead 0 capacity 0 (omega arith) (omega arith) (omega arith) ∙ omega arith)
]

-- and every older one is one place further back;
pub newest_index-next_suc :
    (head capacity i : ℕ)
    → head < capacity
    → suc i < capacity
    → newest_index ((head + 1) % capacity) capacity (suc i) ≡ newest_index head capacity i
newest_index-next_suc head capacity i h k = elim (next-cases head capacity h) [
  | inl (lt, e) ↦ rw e (
      omega (
        arith,
        index-cases (head + 1) capacity (suc i) lt k,
        index-cases head capacity i h (omega arith),
      ))
  | inr (eq, e) ↦ rw e (
      omega (
        arith,
        index-cases 0 capacity (suc i) (omega arith) k,
        index-cases head capacity i h (omega arith),
      ))
]

-- none of those is overwritten.
pub newest_index-ne_head :
    (head capacity i : ℕ) → head < capacity → suc i < capacity → head ≢ newest_index head capacity i
newest_index-ne_head head capacity i h k =
    omega (arith, index-cases head capacity i h (omega arith))
