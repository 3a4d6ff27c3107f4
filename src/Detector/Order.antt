-- ===== src/Detector/Order.antt =====
-- The order in which the broker takes changes.
use alyx.Prelude.{◌≡◌, refl, Bool, true, false, List, [], ◌∷◌, ◌++◌, if◌then◌else◌, not, ◌&&◌}
use alyx.Detector.{
  ChangeRow, ChangeDetector, Feed, Event, polled, cleaned, taken, written, poll, poll_found,
  take_from, step, run, fetched, max_id, mark_processed, cleanup_old_changes,
}
use alyx.Detector.Chains.{
  Grows, Chain, filter-Grows, fetched-Grows, Grows-Chain, mark_processed-Grows, take-Chain,
  broadcast-Chain,
}

-- The changes taken and then those in the channel have growing ids, up to the last id of the
-- detector, and so have the rows.
abbrev pub IsOrdered : Feed → Type 0
IsOrdered f =
    Chain 0 (f.consumed ++ f.detector.change_ch) f.detector.last_id × Grows 0 f.detector.rows

poll_found-IsOrdered :
    (d : ChangeDetector) (old : List ChangeRow) (mark_fails : Bool) (found : List ChangeRow)
    → Grows d.last_id found
    → Chain 0 (old ++ d.change_ch) d.last_id
    → Grows 0 d.rows
    → IsOrdered (record { detector = poll_found d mark_fails found; consumed = old })
poll_found-IsOrdered d old mark_fails [] g c h = (c, h)
poll_found-IsOrdered d old mark_fails (r ∷ rest) g c h =
    let top = max_id d.last_id (r ∷ rest) in
    (
      broadcast-Chain d.buffer_size 0 d.last_id old d.change_ch (r ∷ rest) top c
          (Grows-Chain d.last_id (r ∷ rest) g),
      rows mark_fails,
    )
  where
    rows :
        (fails : Bool)
        → Grows 0 (if fails then d.rows else mark_processed (max_id d.last_id (r ∷ rest)) d.rows)
    rows true = h
    rows false = mark_processed-Grows (max_id d.last_id (r ∷ rest)) 0 d.rows h

poll-IsOrdered :
    (d : ChangeDetector) (old : List ChangeRow) (query_fails mark_fails : Bool)
    → IsOrdered (record { detector = d; consumed = old })
    → IsOrdered (record { detector = poll d query_fails mark_fails; consumed = old })
unfolding poll
poll-IsOrdered d old true mark_fails o = o
poll-IsOrdered d old false mark_fails (c, h) =
    poll_found-IsOrdered d old mark_fails (fetched d.last_id d.rows)
      (fetched-Grows d.last_id 0 d.rows h) c h

-- A row that is written has an id above those of the rows that are there, as an INTEGER PRIMARY
-- KEY of SQLite gives it.
abbrev pub NewRow : Feed → Event → Type 0
NewRow f (polled query_fails mark_fails) = Unit
NewRow f (cleaned is_old) = Unit
NewRow f taken = Unit
NewRow f (written row) = Grows 0 (f.detector.rows ++ (row ∷ []))

abbrev pub NewRows : Feed → List Event → Type 0
NewRows f [] = Unit
NewRows f (e ∷ es) = NewRow f e × NewRows (step f e) es

take_from-IsOrdered :
    (f : Feed) (channel : List ChangeRow)
    → Chain 0 (f.consumed ++ channel) f.detector.last_id
    → Grows 0 f.detector.rows
    → f.detector.change_ch ≡ channel
    → IsOrdered (take_from f channel)
take_from-IsOrdered f [] c h e = (rw e c, h)
take_from-IsOrdered f (r ∷ rest) c h e = (take-Chain 0 f.detector.last_id f.consumed r rest c, h)

step-IsOrdered : (f : Feed) (e : Event) → NewRow f e → IsOrdered f → IsOrdered (step f e)
unfolding step cleanup_old_changes
step-IsOrdered f (polled query_fails mark_fails) n o =
    poll-IsOrdered f.detector f.consumed query_fails mark_fails o
step-IsOrdered f (cleaned is_old) n (c, h) =
    (c, filter-Grows (λ r. not (r.processed && is_old r)) 0 f.detector.rows h)
step-IsOrdered f taken n (c, h) = take_from-IsOrdered f f.detector.change_ch c h refl
step-IsOrdered f (written row) n (c, h) = (c, n)

-- If each row that is written has an id above the rows that are there, then after any run of polls,
-- failed ones too, of cleanups, of writes and of changes taken by the broker, the changes taken so far and then
-- those that wait in the channel have strictly growing ids, at most the last id of the detector:
-- no change is offered twice, and none after a later one.
pub run-IsOrdered : (f : Feed) (es : List Event) → NewRows f es → IsOrdered f → IsOrdered (run f es)
unfolding run
run-IsOrdered f [] n o = o
run-IsOrdered f (e ∷ es) (n, ns) o = run-IsOrdered (step f e) es ns (step-IsOrdered f e n o)
