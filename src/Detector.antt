-- ===== src/Detector.antt =====
-- internal/realtime/detector.go: polling the table of changes into the channel of the broker. The
-- rows stand in the order of their ids; a change in the channel keeps the id of its row. The channel
-- is its buffer: that a send to a full one, or to one of size 0, is handed straight to a receiver
-- that waits is not modelled.
pub mod Chains
pub mod Order
mod Tests
use alyx.Prelude.{
  ℕ, Bool, true, false, List, [], ◌∷◌, ◌++◌, ltb, leb, if◌then◌else◌, length, take, filter, not,
  ◌&&◌,
}
use alyx.Deltas.{Change}

-- `readable` tells whether scanChangeRow succeeds.
pub record ChangeRow : Type 0 where
  pub id : ℕ
  pub change : Change
  pub readable : Bool
  pub processed : Bool

pub record ChangeDetector : Type 0 where
  pub last_id : ℕ
  pub rows : List ChangeRow  -- the table _alyx_changes
  pub change_ch : List ChangeRow
  pub buffer_size : ℕ

-- The changes of fetchChanges.
unfoldable pub fetched : ℕ → List ChangeRow → List ChangeRow
fetched last_id rows = filter (λ r. r.readable) (take 1000 (filter (λ r. ltb last_id r.id) rows))

unfoldable pub max_id : ℕ → List ChangeRow → ℕ
max_id max [] = max
max_id max (r ∷ rest) = max_id (if ltb max r.id then r.id else max) rest

-- A change for which the channel has no room is dropped.
unfoldable pub broadcast_changes : ℕ → List ChangeRow → List ChangeRow → List ChangeRow
broadcast_changes size channel [] = channel
broadcast_changes size channel (r ∷ rest) =
    broadcast_changes size (if ltb (length channel) size then channel ++ (r ∷ []) else channel) rest

unfoldable pub mark_processed : ℕ → List ChangeRow → List ChangeRow
mark_processed max [] = []
mark_processed max (r ∷ rest) =
    let marked = mark_processed max rest in
    if leb r.id max then record r { processed = true } ∷ marked else r ∷ marked

abbrev pub poll_found : ChangeDetector → Bool → List ChangeRow → ChangeDetector
poll_found d mark_fails [] = d
poll_found d mark_fails (r ∷ rest) =
    let max = max_id d.last_id (r ∷ rest) in
    record d {
      last_id = max;
      change_ch = broadcast_changes d.buffer_size d.change_ch (r ∷ rest);
      rows = if mark_fails then d.rows else mark_processed max d.rows;
    }

unfoldable pub poll : ChangeDetector → Bool → Bool → ChangeDetector
unfolding fetched max_id broadcast_changes mark_processed
poll d query_fails mark_fails =
    let found = poll_found d mark_fails (fetched d.last_id d.rows) in
    if query_fails then d else found

-- `is_old` tells whether the timestamp of a row is before the cutoff.
unfoldable pub cleanup_old_changes : ChangeDetector → (ChangeRow → Bool) → ChangeDetector
cleanup_old_changes d is_old = record d {
  rows = filter (λ r. not (r.processed && is_old r)) d.rows;
}

-- What happens: the detector polls or cleans up, the broker takes a change, or a row is written.
pub data Event : Type 0 where
  polled : Bool → Bool → Event
  cleaned : (ChangeRow → Bool) → Event
  taken : Event
  written : ChangeRow → Event

-- The detector, with the changes that the broker has taken, in order.
pub record Feed : Type 0 where
  pub detector : ChangeDetector
  pub consumed : List ChangeRow

abbrev pub take_from : Feed → List ChangeRow → Feed
take_from f [] = f
take_from f (r ∷ rest) = record {
  detector = record f.detector { change_ch = rest };
  consumed = f.consumed ++ (r ∷ []);
}

unfoldable pub step : Feed → Event → Feed
unfolding poll cleanup_old_changes
step f (polled query_fails mark_fails) = record f {
  detector = poll f.detector query_fails mark_fails;
}
step f (cleaned is_old) = record f { detector = cleanup_old_changes f.detector is_old }
step f taken = take_from f f.detector.change_ch
step f (written row) = record f {
  detector = record f.detector { rows = f.detector.rows ++ (row ∷ []) };
}

unfoldable pub run : Feed → List Event → Feed
unfolding step
run f [] = f
run f (e ∷ es) = run (step f e) es
