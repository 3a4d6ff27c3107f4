-- ===== src/Deltas/Tests.antt =====
-- A subscription to published posts, and the theorems at it.
use alyx.Prelude.{ℕ, ◌≡◌, refl, String, true, false, some, List, [], ◌∷◌}
use alyx.Bytes.{Bytes, bytes_eq}
use alyx.Map.{lookup, insert}
use alyx.Query.{codes, FilterOp, one}
use alyx.Deltas.{
  insert_op, update_op, delete_op, Change, null, text, Filter, Row, Found, document, not_found,
  Live, Rules, has, process, calculate_delta, matches_filter, match_value, can_read_document,
  equals, to_string, handle_insert, handle_update, compute_update_delta, convert_filter,
}
use alyx.Deltas.Exact.{in_result, calculate_delta-exact}
use alyx.Deltas.View.{Same, follow, follow-process}
use alyx.Deltas.Settled.{process-settled}
use alyx.Deltas.Filters.{greater_than, matches_filter-greater_than}

abbrev json : ℕ → Bytes
json n = codes "1"

abbrev equal_to : Bytes → Filter ℕ
equal_to t = record (greater_than null) { eq = text t }

abbrev published : Live ℕ
published = record { filter = ("state", equal_to (codes "live")) ∷ []; doc_ids = [] }

abbrev post : Bytes → Row ℕ
post state = ("id", text (codes "p1")) ∷ ("state", text state) ∷ []

abbrev everyone : Rules ℕ
everyone = some (λ doc. some true)

abbrev id_of : Row ℕ → String
id_of doc = "p1"

-- A draft is made and published.
abbrev changes : List (Change × Found ℕ)
changes =
    (
      record { collection = "posts"; operation = insert_op; doc_id = "p1" },
      document (post (codes "draft")),
    )
    ∷ (
      record { collection = "posts"; operation = update_op; doc_id = "p1" },
      document (post (codes "live")),
    )
    ∷ []

shows_live : has "p1" (process json everyone true published changes).doc_ids ≡ true
unfolding process calculate_delta handle_insert handle_update compute_update_delta matches_filter
    match_value can_read_document equals to_string bytes_eq lookup insert
shows_live = refl

calculate_delta-exact_example :
    has "p1"
      (calculate_delta json everyone true published
        (record { collection = "posts"; operation = delete_op; doc_id = "p1" })
        not_found).0.doc_ids
    ≡ false
calculate_delta-exact_example =
    calculate_delta-exact json everyone published
      (record { collection = "posts"; operation = delete_op; doc_id = "p1" }) not_found "p1"

follow-process_example :
    Same
      (follow json everyone id_of true published [] changes)
      (process json everyone true published changes).doc_ids
follow-process_example =
    follow-process json everyone id_of true published [] changes (λ j. refl) (refl, (refl, tt))

process-settled_example :
    has "p1" (process json everyone true published changes).doc_ids
    ≡ in_result json everyone published.filter (document (post (codes "live")))
unfolding lookup
process-settled_example =
    process-settled json everyone "p1" (document (post (codes "live"))) published not_found changes
      refl refl ((λ e. (refl, λ t. absurd (cc)), (λ e. (refl, λ t. refl), tt))) (λ t. absurd (cc))

matches_filter-greater_than_example :
    (convert_filter {V = ℕ} (codes "state") (greater_than (text (codes "m")))
      ≡ record { field = codes "state"; op = FilterOp.gt; value = one (text (codes "m")) } ∷ [])
    × (matches_filter json (post (codes "a")) (("state", greater_than (text (codes "m"))) ∷ [])
        ≡ true)
unfolding lookup
matches_filter-greater_than_example =
    matches_filter-greater_than json (post (codes "a")) "state" (codes "state") (text (codes "m"))
      (text (codes "a")) refl refl
