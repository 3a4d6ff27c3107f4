-- ===== src/RequestLog/Refine.antt =====
-- The store refines a bounded list: what was added since it was made or cleared, newest first,
-- cut off at the capacity.
use native.Mathlib.Nat.{mod-lt}
use alyx.Prelude.{
  ℕ, zero, suc, ◌+◌, ◌%◌, ◌≤◌, ◌<◌, min, ◌≡◌, refl, ◌∙◌, sym, subst, ap, List, [], ◌∷◌, arith, ltb,
  if◌then◌else◌, length, get_elem?, set, take, length-set, length-replicate, length-take,
  get_elem?-set_self, get_elem?-set_ne, get_elem?-take, take-nil,
}
use alyx.Prelude.Int.{ℤ, pos, negsuc}
use alyx.RequestLog.{
  Entry, zero_entry, Store, new_store, add, clear, newest_index, Op, added, cleared, run,
}
use alyx.RequestLog.Index.{newest_index-next_zero, newest_index-next_suc, newest_index-ne_head}

-- The store shows the list `l`, newest first.
pub record Shows (s : Store) (l : List Entry) : Type 0 where
  pub sized : length s.entries ≡ s.capacity
  pub head_fits : s.head < s.capacity
  pub counted : s.count ≡ length l
  pub bounded : length l ≤ s.capacity
  pub at :
      (i : ℕ)
      → i < length l
      → get_elem? s.entries (newest_index s.head s.capacity i) ≡ get_elem? l i

add-at :
    (s : Store) (l : List Entry) (e : Entry)
    → Shows s l
    → (i : ℕ) → i < s.capacity
    → i < suc (length l)
    → get_elem? (set s.entries s.head e) (newest_index ((s.head + 1) % s.capacity) s.capacity i)
      ≡ get_elem? (e ∷ l) i
add-at s l e v zero fits h =
    rw (newest_index-next_zero s.head s.capacity v.head_fits)
      (get_elem?-set_self s.entries s.head e (rw v.sized v.head_fits))
add-at s l e v (suc i) fits h = rw (newest_index-next_suc s.head s.capacity i v.head_fits fits) (
    get_elem?-set_ne s.entries e (newest_index-ne_head s.head s.capacity i v.head_fits fits)
    ∙ v.at i (omega arith))

add-count :
    (n capacity : ℕ) → n ≤ capacity → (if ltb n capacity then n + 1 else n) ≡ min capacity (suc n)
add-count n capacity h = ground arith

-- `Add` puts the entry in front and drops the oldest one beyond the capacity.
pub add-Shows :
    (s : Store) (l : List Entry) (e : Entry) → Shows s l → Shows (add s e) (take s.capacity (e ∷ l))
unfolding add
add-Shows s l e v = record {
  sized = length-set s.entries s.head e ∙ v.sized;
  head_fits = mod-lt (s.head + 1) (omega arith);
  counted = rw (v.counted, length-take) (add-count (length l) s.capacity v.bounded);
  bounded = omega (arith, length-take s.capacity (e ∷ l));
  at = λ i h.
      let short : i < min s.capacity (suc (length l)) = rw length-take at h in
      add-at s l e v i (omega arith) (omega arith)
      ∙ sym (get_elem?-take s.capacity (e ∷ l) i (omega arith));
}

empty-Shows :
    (entries : List Entry) (capacity : ℕ)
    → length entries ≡ capacity
    → 0 < capacity
    → Shows (record { entries = entries; capacity = capacity; head = 0; count = 0 }) []
empty-Shows entries capacity e h = record {
  sized = e;
  head_fits = h;
  counted = refl;
  bounded = omega arith;
  at = λ i lt. elim lt [ ];
}

pub clear-Shows : (s : Store) (l : List Entry) → Shows s l → Shows (clear s) []
unfolding clear
clear-Shows s l v = empty-Shows _ s.capacity (length-replicate s.capacity zero_entry) (omega arith)

pub new_store-Shows : (capacity : ℤ) → Shows (new_store capacity) []
unfolding new_store
new_store-Shows (pos zero) = empty-Shows _ 1000 (length-replicate 1000 zero_entry) (omega arith)
new_store-Shows (pos (suc n)) =
    empty-Shows _ (suc n) (length-replicate (suc n) zero_entry) (omega arith)
new_store-Shows (negsuc n) = empty-Shows _ 1000 (length-replicate 1000 zero_entry) (omega arith)

-- All that was added since the last `Clear`, newest first.
abbrev pub history : List Entry → List Op → List Entry
history l [] = l
history l (added e ∷ ops) = history (e ∷ l) ops
history l (cleared ∷ ops) = history [] ops

take-cons-take : (n : ℕ) (e : Entry) (l : List Entry) → take n (e ∷ take n l) ≡ take n (e ∷ l)
take-cons-take zero e l = refl
take-cons-take (suc n) e l = ap (λ r. e ∷ r) (take-take n l)
  where
    take-take : (n : ℕ) (l : List Entry) → take n (take (suc n) l) ≡ take n l
    take-take zero l = refl
    take-take (suc n) [] = refl
    take-take (suc n) (x ∷ l) = ap (λ r. x ∷ r) (take-take n l)

capacity-add : (s : Store) (e : Entry) → (add s e).capacity ≡ s.capacity
unfolding add
capacity-add s e = refl

capacity-clear : (s : Store) → (clear s).capacity ≡ s.capacity
unfolding clear
capacity-clear s = refl

run-Shows :
    (capacity : ℕ) (s : Store) (l : List Entry) (ops : List Op)
    → s.capacity ≡ capacity
    → Shows s (take capacity l)
    → Shows (run s ops) (take capacity (history l ops))
unfolding run
run-Shows capacity s l [] e v = v
run-Shows capacity s l (added x ∷ ops) e v =
    run-Shows capacity (add s x) (x ∷ l) ops (capacity-add s x ∙ e) (
      subst (Shows (add s x))
        (ap (λ c. take c (x ∷ take capacity l)) e ∙ take-cons-take capacity x l)
        (add-Shows s (take capacity l) x v))
run-Shows capacity s l (cleared ∷ ops) e v =
    run-Shows capacity (clear s) [] ops (capacity-clear s ∙ e)
      (rw take-nil (clear-Shows s (take capacity l) v))

-- After any additions and clearings of a new store, it shows the entries added since the last
-- clearing, newest first, the last `capacity` of them.
pub run-new_store :
    (capacity : ℤ) (ops : List Op)
    → let s = new_store capacity in Shows (run s ops) (take s.capacity (history [] ops))
run-new_store capacity ops =
    run-Shows (new_store capacity).capacity (new_store capacity) [] ops refl
      (rw take-nil (new_store-Shows capacity))
