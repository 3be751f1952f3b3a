-- ===== src/AggregateStore/Events/Snapshots.antt =====
-- snapshot.go and aggregatestore/events/snapshotstrategy.go. A time is a number.
use eventhorizon.Prelude.{ℕ, ◌+◌, String, Bool, false, Option, leb}
use eventhorizon.Errors.{Action}
use eventhorizon.Event.{Event}

pub record Snapshot (Any : Type 0) : Type 0 where
  pub version : ℕ
  pub aggregate_type : String
  pub timestamp : ℕ
  pub content : Any  -- State

-- The interface SnapshotStore of eventstore.go. No snapshot is a nil pointer with a nil error.
pub record SnapshotStore (Any S : Type 0) : Type 0 where
  pub load_snapshot : ℕ → Action S (Option (Snapshot Any))
  pub save_snapshot : ℕ → Snapshot Any → Action S (Unit {0})

pub data SnapshotStrategy : Type 0 where
  no_snapshot : SnapshotStrategy
  every_number_event period : ℕ → SnapshotStrategy

-- `event.Version() - last >= threshold` on ints, and likewise for times.
unfoldable pub should_take_snapshot : {Any : Type 0} → SnapshotStrategy → ℕ → ℕ → Event Any → Bool
should_take_snapshot no_snapshot last_version last_timestamp e = false
should_take_snapshot (every_number_event threshold) last_version last_timestamp e =
    leb (last_version + threshold) e.version
should_take_snapshot (period threshold) last_version last_timestamp e =
    leb (last_timestamp + threshold) e.timestamp
