-- ===== src/EventStore/Memory.antt =====
-- eventstore/memory: the event store that keeps all streams in a map. The definitions stand here and
-- in the child Maintenance, the proofs in the other children. A method holds the mutex for its whole
-- body, so each is one step. A stored event that is nil is `none` (see RenameEvent).
pub mod Maintenance
pub mod Commit
pub mod Streams
pub mod Loading
pub mod Saving
pub mod Failing
pub mod Conflicts
pub mod Contract
mod Tests
use eventhorizon.Prelude.{
  ℕ, ◌+◌, zero, suc, String, String-discrete, ℕ_discrete, dec_lt, ◌≡◌, Option, none, some, List, [],
  ◌∷◌, ◌++◌, map, arith, ite, length, ◌==◌, ltb, if◌then◌else◌,
}
use eventhorizon.Prelude.Maps
use eventhorizon.Prelude.Maps.{Map}
use eventhorizon.Errors.{
  Sentinel, Operation, Wrapper, Err, Result, ok, err, panic, sentinel, wrap, wrap_err, errorf,
  event_store_error, event_handler_error, missing_events, mismatched_event_aggregate_ids,
  mismatched_event_aggregate_types, incorrect_event_version, event_conflict_from_other_save,
  aggregate_not_found, Action, ◌>>=◌,
}
use eventhorizon.Event.{Event, Codec, copy_event}
use eventhorizon.EventStore.{EventStore}

pub record AggregateRecord (Any : Type 0) : Type 0 where
  pub aggregate_id : ℕ
  pub version : ℕ
  pub events : List (Option (Event Any))

-- The field `db`.
abbrev pub Db : Type 0 → Type 0
Db Any = Map ℕ (AggregateRecord Any)

module _ {Any : Type 0} where
  unfoldable pub new_db : Db Any
  new_db = Maps.empty

  pub new_record : ℕ → List (Option (Event Any)) → AggregateRecord Any
  new_record id dbs = record { aggregate_id = id; version = length dbs; events = dbs }

  pub append_record : AggregateRecord Any → List (Option (Event Any)) → AggregateRecord Any
  append_record a dbs = record a { version = a.version + length dbs; events = a.events ++ dbs }

  -- The end of `save`: insert a new aggregate, or append to the one that is there.
  pub insert_or_append : ℕ → String → ℕ → List (Option (Event Any)) → Action (Db Any) (Unit {0})
  unfolding new_record append_record
  insert_or_append id at original dbs db =
      ite (ℕ_discrete original 0) (ok tt, Maps.insert ℕ_discrete id (new_record id dbs) db)
        (elim (db id) [
          | none ↦ (ok tt, db)
          | some a ↦
              ite (ℕ_discrete a.version original)
                (ok tt, Maps.insert ℕ_discrete id (append_record a dbs) db)
                (
                  err (
                      wrap (event_store_error Operation.save at id original)
                        (sentinel event_conflict_from_other_save)),
                  db,
                )
        ])

  pub store_built : ℕ → String → ℕ → Result (List (Option (Event Any))) → Action (Db Any) (Unit {0})
  unfolding insert_or_append
  store_built id at original (ok dbs) db = insert_or_append id at original dbs db
  store_built id at original (err x) db = (err x, db)
  store_built id at original panic db = (panic, db)

  module _ (c : Codec Any) where
    -- The loop of `save` over the events from the index `i` on: the checks, then the copy.
    pub build : ℕ → String → ℕ → ℕ → List (Event Any) → Result (List (Option (Event Any)))
    build id at original i [] = ok []
    build id at original i (e ∷ es) =
        let rest = build id at original (i + 1) es in
        let w = event_store_error Operation.save at id original in
        ite (ℕ_discrete e.aggregate_id id)
          (ite (String-discrete e.aggregate_type at)
            (ite (ℕ_discrete e.version (original + i + 1))
              (elim (copy_event c e) [
                | ok copied ↦ rest >>= λ dbs. ok (some copied ∷ dbs)
                | err x ↦ err (wrap w (wrap (errorf "could not copy event") x))
                | panic ↦ panic
              ])
              (err (wrap w (sentinel incorrect_event_version))))
            (err (wrap w (sentinel mismatched_event_aggregate_types))))
          (err (wrap w (sentinel mismatched_event_aggregate_ids)))

    -- The private method `save`; the public one is `save` below.
    unfoldable pub save_db : List (Event Any) → ℕ → Action (Db Any) (Unit {0})
    unfolding build store_built
    save_db [] original db =
        (err (wrap (event_store_error Operation.save "" 0 0) (sentinel missing_events)), db)
    save_db (e ∷ es) original db =
        store_built e.aggregate_id e.aggregate_type original
          (build e.aggregate_id e.aggregate_type original 0 (e ∷ es)) db

    -- The loop of LoadFrom. The result has the length of the stream: an event below the version
    -- leaves its place nil. A failed copy is nil, and the error path reads its aggregate type.
    load_events : ℕ → List (Option (Event Any)) → Result (List (Option (Event Any)))
    load_events version [] = ok []
    load_events version (none ∷ es) = panic
    load_events version (some e ∷ es) =
        let rest = load_events version es in
        if ltb e.version version
        then rest >>= (λ loaded. ok (none ∷ loaded))
        else elim (copy_event c e) [
          | ok copied ↦ rest >>= λ loaded. ok (some copied ∷ loaded)
          | err x ↦ panic
          | panic ↦ panic
        ]

    unfoldable pub load_from : ℕ → ℕ → Action (Db Any) (List (Option (Event Any)))
    unfolding load_events
    load_from id version db = elim (db id) [
      | none ↦
          (err (wrap (event_store_error Operation.load "" id 0) (sentinel aggregate_not_found)), db)
      | some a ↦ (load_events version a.events, db)
    ]

    unfoldable pub load : ℕ → Action (Db Any) (List (Option (Event Any)))
    unfolding load_from
    load id = load_from id 1

    -- The event handler acts on all that it can reach, this store included, hence on `Db Any × W`.
    module _ {W : Type 0} where
      publish :
          (Event Any → Action (Db Any × W) (Unit {0}))
          → List (Event Any)
          → Action (Db Any × W) (Unit {0})
      publish handle [] s = (ok tt, s)
      publish handle (e ∷ es) s =
          let (r, t) = handle e s in
          elim r [
            | ok _ ↦ publish handle es t
            | err x ↦ (err (wrap event_handler_error x), t)
            | panic ↦ (panic, t)
          ]

      publish_saved :
          Option (Event Any → Action (Db Any × W) (Unit {0}))
          → List (Event Any)
          → Result (Unit {0})
          → Db Any × W
          → Result (Unit {0}) × (Db Any × W)
      unfolding publish
      publish_saved none es r s = (r, s)
      publish_saved (some handle) es (ok _) s = publish handle es s
      publish_saved (some handle) es (err x) s = (err x, s)
      publish_saved (some handle) es panic s = (panic, s)

      -- The method `Save`: the handler sees the events after the store is unlocked.
      unfoldable pub save :
          Option (Event Any → Action (Db Any × W) (Unit {0}))
          → List (Event Any)
          → ℕ
          → Action (Db Any × W) (Unit {0})
      unfolding save_db publish_saved
      save event_handler es original (db, w) =
          let (r, db') = save_db es original db in publish_saved event_handler es r (db', w)

      -- The methods that a client calls, for a store that was made with no event handler.
      unfoldable pub memory_store : EventStore Any (Db Any × W)
      memory_store = record {
        save = save none;
        load_from = λ id version s. let (r, db) = load_from id version s.0 in (r, (db, s.1));
      }
