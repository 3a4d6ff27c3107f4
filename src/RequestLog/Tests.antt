-- ===== src/RequestLog/Tests.antt =====
-- Runs of the request log, and its theorems at concrete inputs.
use alyx.Prelude.{◌≤◌, String, ◌≡◌, refl, some, List, [], ◌∷◌, length, take}
use alyx.Prelude.Int.{pos, negsuc}
use alyx.RequestLog.{
  Entry, zero_entry, FilterOptions, ListResult, new_store, add, clear, matches_filter, list,
  parse_pagination_params, Op, added, cleared, run,
}
use alyx.RequestLog.Refine.{history}
use alyx.RequestLog.Query.{page_of, list-run, list-parsed}

abbrev hit : String → Entry
hit path = record zero_entry { path = path; status = pos 200 }

abbrev ops : List Op
ops = added (hit "/x") ∷ cleared ∷ added (hit "/a") ∷ added (hit "/b") ∷ added (hit "/c") ∷ []

abbrev all : FilterOptions
all = record {
  method = "";
  path = "";
  exclude_path_prefix = "/c";
  status = pos 0;
  min_status = pos 100;
  max_status = negsuc 0;
  user_id = "";
  since = 0;
  until = 0;
  limit = pos 0;
  offset = pos 0;
}

abbrev any_status : FilterOptions
any_status = record all { max_status = pos 0 }

-- A ring of two places keeps "/c" and "/b"; the query leaves out the paths that begin with "/c".
newest_two :
    list (run (new_store (pos 2)) ops) any_status
    ≡ some (record { entries = hit "/b" ∷ []; total = 1; limit = pos 100; offset = pos 0 })
unfolding list matches_filter run new_store add clear
newest_two = refl

-- A negative maximal status is a filter that no entry passes.
none_below_zero :
    list (run (new_store (pos 2)) ops) all
    ≡ some (record { entries = []; total = 0; limit = pos 100; offset = pos 0 })
unfolding list matches_filter run new_store add clear
none_below_zero = refl

list-run_example :
    list (run (new_store (pos 2)) ops) any_status
    ≡ some (page_of any_status 0 (take (new_store (pos 2)).capacity (history [] ops)))
list-run_example = list-run (pos 2) ops any_status 0 refl

list-parsed_example :
    let query = parse_pagination_params (some (negsuc 4)) (some (negsuc 0)) any_status in
    (r : ListResult) × (list (run (new_store (pos 2)) ops) query ≡ some r)
    × (length r.entries ≤ 1000)
list-parsed_example = list-parsed (pos 2) ops (some (negsuc 4)) (some (negsuc 0)) any_status refl
