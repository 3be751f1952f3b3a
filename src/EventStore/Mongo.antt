-- ===== src/EventStore/Mongo.antt =====
-- eventstore/mongodb_v2: the event store that keeps one document per event and one per stream, with a
-- global position in the stream `$all`. Client has what the code calls of the MongoDB driver;
-- Building, Saving and Cursor have the definitions, the others the proofs.
pub mod Client
pub mod Building
pub mod Saving
pub mod Cursor
pub mod Options
pub mod Making
pub mod Snapshots
pub mod Commit
pub mod Built
pub mod Committing
pub mod Atomic
pub mod Streams
pub mod Invariant
pub mod Records
pub mod Loading
pub mod Comparing
mod Tests
mod SnapshotTests
