-- ===== src/RequestLog/Query.antt =====
-- What `List` returns, and that it does not panic.
use native.Mathlib.Nat.{add-zero, zero-add}
use alyx.Prelude.{
  ℕ, zero, suc, ◌+◌, ◌≤◌, ◌<◌, ◌≡◌, refl, ◌∙◌, sym, ap, subst, inl, inr, Option, none, some, List,
  [], ◌∷◌, arith, ltb, Bool-cases, length, get_elem?, take, drop, filter, take_all, drop_all,
  take-nil, length-drop, length-take,
}
use alyx.Prelude.Int.{ℤ, pos, negsuc}
use alyx.RequestLog.{
  Entry, Store, FilterOptions, ListResult, Op, new_store, run, newest_index, matches_filter,
  collect, page_limit, page, result_of, finish, list, parse_pagination_params,
}
use alyx.RequestLog.Refine.{Shows, history, run-new_store}

abbrev pub selected : FilterOptions → List Entry → List Entry
selected opts l = filter (λ e. matches_filter e opts) l

collect-selected :
    (s : Store) (opts : FilterOptions) (i : ℕ) (l : List Entry)
    → ((j : ℕ)
        → j < length l
        → get_elem? s.entries (newest_index s.head s.capacity (i + j)) ≡ get_elem? l j)
    → collect s opts i (length l) ≡ some (selected opts l)
unfolding collect
collect-selected s opts i [] h = refl
collect-selected s opts i (x ∷ l) h =
    rw
      (subst (λ k. get_elem? s.entries (newest_index s.head s.capacity k) ≡ some x) (add-zero i)
        (h 0 (omega arith)))
      (rw (
        collect-selected s opts (i + 1) l (λ j lt.
          subst (λ k. get_elem? s.entries (newest_index s.head s.capacity k) ≡ get_elem? l j)
            (omega arith) (h (suc j) (omega arith)))))

-- A slice that is cut off at the end of the list is what `take` and `drop` give.
page-take-drop :
    (l : List Entry) (limit offset : ℕ)
    → page l limit (pos offset) ≡ some (take limit (drop offset l))
unfolding page
page-take-drop l limit offset = elim (Bool-cases (ltb (length l) offset)) [
  | inl past ↦
      let all : length l ≤ offset = ground arith in
      rw past (
        rw (drop_all offset l all, take-nil)
          (rw (drop_all (length l) l (omega arith)) (ap some (take-nil _))))
  | inr inside ↦ rw inside (elim (Bool-cases (ltb (length l) (offset + limit))) [
    | inl cut ↦
        let short : length l ≤ offset + limit = ground arith in
        rw cut (
          ap some (
            take_all _ (drop offset l) (omega (arith, length-drop offset l))
            ∙ sym (take_all limit (drop offset l) (omega (arith, length-drop offset l)))))
    | inr whole ↦ rw whole (ap (λ k. some (take k (drop offset l))) (omega arith))
  ])
]

-- The page of the selected entries that a query with a non-negative offset asks for.
abbrev pub page_of : FilterOptions → ℕ → List Entry → ListResult
page_of opts offset l = record {
  entries = take (page_limit opts.limit) (drop offset (selected opts l));
  total = length (selected opts l);
  limit = pos (page_limit opts.limit);
  offset = opts.offset;
}

list-page_of :
    (s : Store) (l : List Entry) (opts : FilterOptions) (offset : ℕ)
    → Shows s l
    → opts.offset ≡ pos offset
    → list s opts ≡ some (page_of opts offset l)
unfolding list
list-page_of s l opts offset v e =
    rw (v.counted, collect-selected s opts 0 l (λ j h. rw zero-add (v.at j h)))
      (ap (result_of (selected opts l) opts) (
        ap (page (selected opts l) (page_limit opts.limit)) e
        ∙ page-take-drop (selected opts l) (page_limit opts.limit) offset))

-- A query with a non-negative offset, after any additions and clearings, returns without a panic:
-- of the last `capacity` entries added since the last clearing, newest first, those that match the
-- filter are counted, and of these it returns the page of at most `page_limit` at the offset.
pub list-run :
    (capacity : ℤ) (ops : List Op) (opts : FilterOptions) (offset : ℕ)
    → opts.offset ≡ pos offset
    → let s = new_store capacity in
      list (run s ops) opts ≡ some (page_of opts offset (take s.capacity (history [] ops)))
list-run capacity ops opts offset e =
    list-page_of (run (new_store capacity) ops) _ opts offset (run-new_store capacity ops) e

-- A page has from 1 to 1000 places.
pub page_limit_bounds : (limit : ℤ) → (1 ≤ page_limit limit) × (page_limit limit ≤ 1000)
unfolding page_limit
page_limit_bounds (negsuc n) = omega arith
page_limit_bounds (pos zero) = omega arith
page_limit_bounds (pos (suc n)) = ground arith

-- The offset that the admin handler passes on is never negative.
parsed_offset :
    (limit offset : Option ℤ) (opts : FilterOptions) (n : ℕ)
    → opts.offset ≡ pos n
    → (k : ℕ) × ((parse_pagination_params limit offset opts).offset ≡ pos k)
unfolding parse_pagination_params
parsed_offset limit none opts n e = (n, e)
parsed_offset limit (some (pos k)) opts n e = (k, ground arith)
parsed_offset limit (some (negsuc k)) opts n e = (n, e)

-- Whatever paging parameters the admin handler gets, present, missing, negative or no numbers, the
-- query it makes returns, with at most 1000 entries.
pub list-parsed :
    (capacity : ℤ) (ops : List Op) (limit offset : Option ℤ) (opts : FilterOptions)
    → opts.offset ≡ pos 0
    → let query = parse_pagination_params limit offset opts in
      (r : ListResult) × (list (run (new_store capacity) ops) query ≡ some r)
      × (length r.entries ≤ 1000)
list-parsed capacity ops limit offset opts e =
    let (k, found) = parsed_offset limit offset opts 0 e in
    let query = parse_pagination_params limit offset opts in
    let shown = take (new_store capacity).capacity (history [] ops) in
    (
      page_of query k shown,
      list-run capacity ops query k found,
      omega (
        arith,
        length-take (page_limit query.limit) (drop k (selected query shown)),
        page_limit_bounds query.limit,
      ),
    )

finish_negative :
    (opts : FilterOptions) (n : ℕ) (found : Option (List Entry))
    → opts.offset ≡ negsuc n
    → finish opts found ≡ none
unfolding page
finish_negative opts n none e = refl
finish_negative opts n (some l) e = ap (result_of l opts) (ap (page l (page_limit opts.limit)) e)

-- A query with a negative offset panics on every store.
pub list_negative_offset :
    (s : Store) (opts : FilterOptions) (n : ℕ) → opts.offset ≡ negsuc n → list s opts ≡ none
unfolding list
list_negative_offset s opts n e = finish_negative opts n (collect s opts 0 s.count) e
