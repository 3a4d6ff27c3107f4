-- ===== src/Detector/Tests.antt =====
-- A channel with room for one change, and the order at its run.
use alyx.Prelude.{ℕ, ◌≡◌, refl, true, false, List, [], ◌∷◌, arith}
use alyx.Deltas.{insert_op}
use alyx.Detector.{
  ChangeRow, Feed, Event, polled, cleaned, taken, written, step, run, poll, fetched, max_id,
  broadcast_changes, mark_processed, cleanup_old_changes,
}
use alyx.Detector.Order.{IsOrdered, run-IsOrdered}

abbrev row : ℕ → ChangeRow
row id = record {
  id = id;
  change = record { collection = "posts"; operation = insert_op; doc_id = "p" };
  readable = true;
  processed = false;
}

abbrev narrow : Feed
narrow = record {
  detector = record { last_id = 0; rows = []; change_ch = []; buffer_size = 1 };
  consumed = [];
}

abbrev events : List Event
events =
    written (row 1) ∷ written (row 2) ∷ polled false false ∷ taken ∷ polled false false ∷ taken ∷ []

ids : List ChangeRow → List ℕ
ids [] = []
ids (r ∷ rest) = r.id ∷ ids rest

-- The second change finds no room, and no later poll offers it.
second_is_lost :
    (ids (run narrow events).consumed ≡ 1 ∷ [])
    × ((run narrow events).detector.last_id ≡ 2)
    × ((run narrow events).detector.change_ch ≡ [])
unfolding run step poll fetched max_id broadcast_changes mark_processed ids
second_is_lost = (refl, refl, refl)

-- After a cleanup the id of a change is used again, and the new change is never offered.
reused_is_lost :
    (run narrow (
      written (row 1)
      ∷ polled false false
      ∷ taken
      ∷ cleaned (λ r. true)
      ∷ written (row 1)
      ∷ polled false false
      ∷ [])).detector.change_ch
    ≡ []
unfolding run step poll fetched max_id broadcast_changes mark_processed cleanup_old_changes
reused_is_lost = refl

run-IsOrdered_example : IsOrdered (run narrow events)
unfolding run step poll fetched max_id broadcast_changes mark_processed
run-IsOrdered_example =
    run-IsOrdered narrow events
      ((omega arith, tt), ((omega arith, (omega arith, tt)), (tt, (tt, (tt, (tt, tt))))))
      (omega arith, tt)
