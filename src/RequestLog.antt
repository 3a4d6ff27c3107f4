-- ===== src/RequestLog.antt =====
-- internal/server/requestlog: the ring buffer of request logs (store.go) and the admin handler's
-- reading of its paging parameters (internal/server/handlers/logs.go). Each method holds the
-- store's lock throughout. Instants are nanoseconds, and 0 is Go's zero time. `none` where an
-- operation returns an `Option` stands for a run-time panic, an index or a slice out of range.
pub mod Index
pub mod Refine
pub mod Query
mod Tests
use alyx.Prelude.{
  ℕ, zero, suc, ◌+◌, ◌-◌, ◌%◌, String, Bool, true, false, not, ◌&&◌, Option, none, some, List, [],
  ◌∷◌, ltb, leb, ◌==◌, if◌then◌else◌, str_eq, starts_with, length, get_elem?, set, take, drop,
  replicate,
}
use alyx.Prelude.Int.{ℤ, pos, negsuc, lt_int, le_int, eq_int}
use alyx.Map.{GoMap}

-- `DurationMS`, the duration as a float for the JSON encoder, is left out: nothing reads it.
pub record Entry : Type 0 where
  pub id : String
  pub timestamp : ℕ
  pub method : String
  pub path : String
  pub query : String
  pub status : ℤ
  pub duration : ℕ
  pub bytes_in : ℤ
  pub bytes_out : ℕ
  pub client_ip : String
  pub user_agent : String
  pub user_id : String
  pub error : String
  pub error_code : String
  pub headers : GoMap String

abbrev pub zero_entry : Entry
zero_entry = record {
  id = "";
  timestamp = 0;
  method = "";
  path = "";
  query = "";
  status = pos 0;
  duration = 0;
  bytes_in = pos 0;
  bytes_out = 0;
  client_ip = "";
  user_agent = "";
  user_id = "";
  error = "";
  error_code = "";
  headers = [];
}

pub record Store : Type 0 where
  pub entries : List Entry
  pub capacity : ℕ
  pub head : ℕ
  pub count : ℕ

abbrev sized : ℕ → Store
sized n = record { entries = replicate n zero_entry; capacity = n; head = 0; count = 0 }

unfoldable pub new_store : ℤ → Store
new_store (pos zero) = sized 1000
new_store (pos (suc n)) = sized (suc n)
new_store (negsuc n) = sized 1000

-- `head` is in range whenever the store is reachable: a write out of range would panic.
unfoldable pub add : Store → Entry → Store
add s entry = record s {
  entries = set s.entries s.head entry;
  head = (s.head + 1) % s.capacity;
  count = if ltb s.count s.capacity then s.count + 1 else s.count;
}

unfoldable pub clear : Store → Store
clear s = record s { entries = replicate s.capacity zero_entry; head = 0; count = 0 }

pub record FilterOptions : Type 0 where
  pub method : String
  pub path : String
  pub exclude_path_prefix : String
  pub status : ℤ
  pub min_status : ℤ
  pub max_status : ℤ
  pub user_id : String
  pub since : ℕ
  pub until : ℕ
  pub limit : ℤ
  pub offset : ℤ

pub record ListResult : Type 0 where
  pub entries : List Entry
  pub total : ℕ
  pub limit : ℤ
  pub offset : ℤ

abbrev given : String → Bool
given s = not (str_eq s "")

abbrev non_zero : ℤ → Bool
non_zero n = not (eq_int n (pos 0))

unfoldable pub matches_string_filters : Entry → FilterOptions → Bool
matches_string_filters entry opts =
    if given opts.method && not (str_eq entry.method opts.method)
    then false
    else if given opts.path && not (str_eq entry.path opts.path)
    then false
    else if given opts.exclude_path_prefix && starts_with entry.path opts.exclude_path_prefix
    then false
    else if given opts.user_id && not (str_eq entry.user_id opts.user_id)
    then false
    else true

unfoldable pub matches_status_filters : Entry → FilterOptions → Bool
matches_status_filters entry opts =
    if non_zero opts.status && not (eq_int entry.status opts.status)
    then false
    else if non_zero opts.min_status && lt_int entry.status opts.min_status
    then false
    else if non_zero opts.max_status && lt_int opts.max_status entry.status
    then false
    else true

unfoldable pub matches_time_filters : Entry → FilterOptions → Bool
matches_time_filters entry opts =
    if not (opts.since == 0) && ltb entry.timestamp opts.since
    then false
    else if not (opts.until == 0) && ltb opts.until entry.timestamp
    then false
    else true

unfoldable pub matches_filter : Entry → FilterOptions → Bool
unfolding matches_string_filters matches_status_filters matches_time_filters
matches_filter entry opts =
    matches_string_filters entry opts
    && matches_status_filters entry opts
    && matches_time_filters entry opts

-- (s.head - 1 - i + s.capacity) % s.capacity, for i < s.count
abbrev pub newest_index : ℕ → ℕ → ℕ → ℕ
newest_index head capacity i = (head + capacity - 1 - i) % capacity

abbrev gather : FilterOptions → Option Entry → Option (List Entry) → Option (List Entry)
gather opts none rest = none
gather opts (some entry) none = none
gather opts (some entry) (some rest) =
    some (if matches_filter entry opts then entry ∷ rest else rest)

-- The loop of `List`, `rounds` to go.
unfoldable pub collect : Store → FilterOptions → ℕ → ℕ → Option (List Entry)
collect s opts i zero = some []
collect s opts i (suc rounds) =
    gather opts (get_elem? s.entries (newest_index s.head s.capacity i))
      (collect s opts (i + 1) rounds)

-- opts.Limit as `List` sets it.
unfoldable pub page_limit : ℤ → ℕ
page_limit (negsuc n) = 100
page_limit (pos zero) = 100
page_limit (pos (suc n)) = if ltb 1000 (suc n) then 1000 else suc n

-- filtered[start:end]
unfoldable pub page : List Entry → ℕ → ℤ → Option (List Entry)
page filtered limit (negsuc n) = none
page filtered limit (pos offset) =
    let total = length filtered in
    let start = if ltb total offset then total else offset in
    let end = if ltb total (start + limit) then total else start + limit in
    some (take (end - start) (drop start filtered))

abbrev pub result_of : List Entry → FilterOptions → Option (List Entry) → Option ListResult
result_of filtered opts none = none
result_of filtered opts (some entries) = some (record {
  entries = entries;
  total = length filtered;
  limit = pos (page_limit opts.limit);
  offset = opts.offset;
})

abbrev pub finish : FilterOptions → Option (List Entry) → Option ListResult
finish opts none = none
finish opts (some filtered) =
    result_of filtered opts (page filtered (page_limit opts.limit) opts.offset)

unfoldable pub list : Store → FilterOptions → Option ListResult
unfolding page page_limit collect
list s opts = finish opts (collect s opts 0 s.count)

-- handlers/logs.go, parsePaginationParams: `none` for a parameter that is missing or no number.
unfoldable pub parse_pagination_params : Option ℤ → Option ℤ → FilterOptions → FilterOptions
parse_pagination_params limit offset opts = record opts {
  limit = elim limit [ none ↦ opts.limit | some l ↦ if lt_int (pos 0) l then l else opts.limit ];
  offset = elim offset [
    | none ↦ opts.offset
    | some o ↦ if le_int (pos 0) o then o else opts.offset
  ];
}

-- What is done to a store after it is made.
pub data Op : Type 0 where
  added : Entry → Op
  cleared : Op

unfoldable pub run : Store → List Op → Store
run s [] = s
run s (added e ∷ ops) = run (add s e) ops
run s (cleared ∷ ops) = run (clear s) ops
