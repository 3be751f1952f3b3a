-- ===== src/AggregateStore.antt =====
-- aggregatestore/: the two implementations of the aggregate store of aggregate.go.
pub mod Events
