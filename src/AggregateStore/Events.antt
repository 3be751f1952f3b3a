-- ===== src/AggregateStore/Events.antt =====
-- aggregatestore/events: aggregates that are built from their events. The definitions stand here and
-- in the children Base and Snapshots, the proofs in the others. A domain aggregate is an AggregateBase
-- with a state of its own; ApplyEvent, CreateSnapshot and ApplySnapshot are the application's. Which
-- of the interfaces VersionedAggregate and Snapshotable an aggregate implements is a Boolean of it.
pub mod Base
pub mod Snapshots
pub mod Replay
mod Tests
use eventhorizon.Prelude.{
  ℕ, ◌+◌, String, String-discrete, Bool, true, false, not, ◌&&◌, Option, none, some, List, [], ◌∷◌,
  map, ite, if◌then◌else◌,
}
use eventhorizon.Errors.{
  Operation, Err, Result, ok, err, panic, Action, sentinel, errors_is, wrap, errorf,
  aggregate_store_error, aggregate_not_registered, aggregate_not_found, aggregate_not_versioned,
  mismatched_event_type, wrap_err, ◌>>=◌,
}
use eventhorizon.Event.{Event}
use eventhorizon.Registry
use eventhorizon.Registry.{Registry}
use eventhorizon.EventStore.{EventStore}
use eventhorizon.AggregateStore.Events.Base.{
  AggregateBase, set_aggregate_version, clear_uncommitted_events, uncommitted_events,
}
use eventhorizon.AggregateStore.Events.Snapshots.{
  Snapshot, SnapshotStore, SnapshotStrategy, should_take_snapshot,
}

pub record Aggregate (Any D : Type 0) : Type 0 where
  pub base : AggregateBase Any
  pub domain : D
  pub versioned : Bool
  pub snapshotable : Bool

-- What the application implements for an aggregate with the domain state `D`.
pub record Domain (Any D : Type 0) : Type 0 where
  pub apply_event : Event Any → Action D (Unit {0})
  pub create_snapshot : Aggregate Any D → Snapshot Any
  pub apply_snapshot : Snapshot Any → D → D

pub record AggregateStore (Any D S : Type 0) : Type 0 where
  pub store : EventStore Any S
  pub snapshot_store : Option (SnapshotStore Any S)  -- `none` is isSnapshotStore = false
  pub snapshot_strategy : SnapshotStrategy
  pub aggregates : Registry String (ℕ → Aggregate Any D)
  pub domain : Domain Any D

module _ {Any D : Type 0} (dom : Domain Any D) where
  -- What the loop of `applyEvents` does with the result of ApplyEvent.
  applied :
      Event Any → Aggregate Any D → D → Result (Unit {0}) → Result (Unit {0}) × Aggregate Any D
  applied e a d (ok _) =
      (ok tt, record a { base = set_aggregate_version e.version a.base; domain = d })
  applied e a d (err x) = (err (wrap (errorf "could not apply event") x), record a { domain = d })
  applied e a d panic = (panic, record a { domain = d })

  -- The body of the loop, for an event that is not nil.
  apply_one : Event Any → Action (Aggregate Any D) (Unit {0})
  unfolding applied
  apply_one e a =
      ite (String-discrete e.aggregate_type a.base.t)
        (let (r, d) = dom.apply_event e a.domain in applied e a d r)
        (err (sentinel mismatched_event_type), a)

  unfoldable pub apply_events : List (Option (Event Any)) → Action (Aggregate Any D) (Unit {0})
  unfolding apply_one set_aggregate_version
  apply_events [] a = (ok tt, a)
  apply_events (none ∷ es) a = (panic, a)
  apply_events (some e ∷ es) a =
      let (r, b) = apply_one e a in
      elim r [ ok _ ↦ apply_events es b | err x ↦ (err x, b) | panic ↦ (panic, b) ]

module _ {Any D S : Type 0} (r : AggregateStore Any D S) where
  abbrev store_error : {A : Type 0} → Operation → String → ℕ → Result A → Result A
  store_error op t id = wrap_err (aggregate_store_error op t id)

  -- The rest of `Load` from the call of LoadFrom on.
  replay_events :
      String → ℕ → Aggregate Any D → List (Option (Event Any)) → Result (Aggregate Any D)
  replay_events t id a events =
      let (done, b) = apply_events r.domain events a in
      store_error Operation.load t id done >>= λ _. ok b

  replay : String → ℕ → ℕ → Aggregate Any D → Action S (Aggregate Any D)
  unfolding replay_events
  replay t id from_version a s =
      let (loaded, s') = r.store.load_from a.base.id from_version s in
      elim loaded [
        | ok events ↦ (replay_events t id a events, s')
        | err x ↦
            if errors_is x aggregate_not_found
            then (replay_events t id a [], s')
            else (err (wrap (aggregate_store_error Operation.load t id) x), s')
        | panic ↦ (panic, s')
      ]

  from_snapshot : Snapshot Any → Aggregate Any D → Aggregate Any D
  unfolding set_aggregate_version
  from_snapshot snapshot a = record a {
    base = set_aggregate_version snapshot.version a.base;
    domain = r.domain.apply_snapshot snapshot a.domain;
  }

  -- The part of `Load` that looks for a snapshot.
  load_from_snapshot :
      String → ℕ → SnapshotStore Any S → Aggregate Any D → Action S (Aggregate Any D)
  unfolding replay from_snapshot
  load_from_snapshot t id snapshots a s =
      let (loaded, s') = snapshots.load_snapshot id s in
      elim loaded [
        | ok none ↦ replay t id 1 a s'
        | ok (some snapshot) ↦ replay t id (snapshot.version + 1) (from_snapshot snapshot a) s'
        | err x ↦ (err (wrap (aggregate_store_error Operation.load t id) x), s')
        | panic ↦ (panic, s')
      ]

  -- `if sa, ok := a.(eh.Snapshotable); ok && r.isSnapshotStore`
  snapshots_for : Aggregate Any D → Option (SnapshotStore Any S)
  snapshots_for a = if a.snapshotable then r.snapshot_store else none

  load_created : String → ℕ → Option (ℕ → Aggregate Any D) → Action S (Aggregate Any D)
  unfolding load_from_snapshot snapshots_for
  load_created t id none s = (
    err (wrap (aggregate_store_error Operation.load t id) (sentinel aggregate_not_registered)),
    s,
  )
  load_created t id (some factory) s =
      let a = factory id in
      if a.versioned
      then (elim (snapshots_for a) [
        | none ↦ replay t id 1 a s
        | some snapshots ↦ load_from_snapshot t id snapshots a s
      ])
      else (
        err (wrap (aggregate_store_error Operation.load t id) (sentinel aggregate_not_versioned)),
        s,
      )

  unfoldable pub load : String → ℕ → Action S (Aggregate Any D)
  unfolding load_created
  load t id s = load_created t id (Registry.get r.aggregates t) s

  -- `takeSnapshot`, once a snapshot may have been loaded; `now` is time.Now().
  take_from :
      ℕ
      → SnapshotStore Any S
      → Aggregate Any D
      → Event Any
      → Option (Snapshot Any)
      → Action S (Unit {0})
  take_from now snapshots a last previous s =
      let version : ℕ = elim previous [ none ↦ 0 | some p ↦ p.version ] in
      let timestamp : ℕ = elim previous [ none ↦ now | some p ↦ p.timestamp ] in
      if should_take_snapshot r.snapshot_strategy version timestamp last
      then (let (saved, s') = snapshots.save_snapshot a.base.id (r.domain.create_snapshot a) s in
          (store_error Operation.save a.base.t a.base.id saved, s'))
      else (ok tt, s)

  pub take_snapshot : ℕ → Aggregate Any D → Event Any → Action S (Unit {0})
  unfolding take_from snapshots_for
  take_snapshot now a last s = elim (snapshots_for a) [
    | none ↦ (ok tt, s)
    | some snapshots ↦
        let (loaded, s') = snapshots.load_snapshot a.base.id s in
        elim loaded [
          | ok previous ↦ take_from now snapshots a last previous s'
          | err x ↦ (err (wrap (aggregate_store_error Operation.save a.base.t a.base.id) x), s')
          | panic ↦ (panic, s')
        ]
  ]

  pub last_of : Event Any → List (Event Any) → Event Any
  last_of e [] = e
  last_of e (d ∷ ds) = last_of d ds

  -- The rest of `Save` once the store has saved the events.
  after_save : ℕ → Event Any → List (Event Any) → Action (S × Aggregate Any D) (Unit {0})
  unfolding clear_uncommitted_events
  after_save now e es (s, a) =
      let cleared = record a { base = clear_uncommitted_events a.base } in
      let (done, b) = apply_events r.domain (map some (e ∷ es)) cleared in
      elim done [
        | ok _ ↦ (let (taken, s') = take_snapshot now b (last_of e es) s in (taken, (s', b)))
        | err x ↦ (err (wrap (aggregate_store_error Operation.save b.base.t b.base.id) x), (s, b))
        | panic ↦ (panic, (s, b))
      ]

  save_events : ℕ → List (Event Any) → Action (S × Aggregate Any D) (Unit {0})
  unfolding after_save
  save_events now [] (s, a) = (ok tt, (s, a))
  save_events now (e ∷ es) (s, a) =
      let (saved, s') = r.store.save (e ∷ es) a.base.v s in
      elim saved [
        | ok _ ↦ after_save now e es (s', a)
        | err x ↦ (err (wrap (aggregate_store_error Operation.save a.base.t a.base.id) x), (s', a))
        | panic ↦ (panic, (s', a))
      ]

  -- The aggregate is passed by reference: it comes back beside the store's state.
  unfoldable pub save : ℕ → Action (S × Aggregate Any D) (Unit {0})
  unfolding save_events
  save now (s, a) = if a.versioned then save_events now (uncommitted_events a.base) (s, a) else (
    err (
        wrap (aggregate_store_error Operation.save a.base.t a.base.id)
          (sentinel aggregate_not_versioned)),
    (s, a),
  )
