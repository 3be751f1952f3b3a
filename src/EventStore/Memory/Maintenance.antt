-- ===== src/EventStore/Memory/Maintenance.antt =====
-- eventstore/memory/eventmaintenance.go: replacing one event and renaming an event type.
pub mod Replacing
pub mod Renaming
use eventhorizon.Prelude.{
  ℕ, ◌+◌, zero, suc, String, String-discrete, ℕ_discrete, Option, none, some, List, [], ◌∷◌, ite,
  set, if◌then◌else◌, ◌==◌,
}
use eventhorizon.Prelude.Maps
use eventhorizon.Errors.{
  Operation, Result, ok, err, panic, sentinel, wrap, errorf, event_store_error, aggregate_not_found,
  event_not_found, Action, ◌>>=◌,
}
use eventhorizon.Event.{Event, Codec, copy_event, new_event, for_aggregate, with_metadata}
use eventhorizon.EventStore.Memory.{AggregateRecord, Db}

module _ {Any : Type 0} where
  -- The first index whose event has the version, -1 being `none`. A nil event has no version to read.
  find_version : ℕ → ℕ → List (Option (Event Any)) → Result (Option ℕ)
  find_version version i [] = ok none
  find_version version i (none ∷ es) = panic
  find_version version i (some e ∷ es) =
      let rest = find_version version (i + 1) es in
      ite (ℕ_discrete e.version version) (ok (some i)) rest

  put_at : Event Any → AggregateRecord Any → Result (Option ℕ) → Action (Db Any) (Unit {0})
  put_at e a (ok (some idx)) db = (
    ok tt,
    Maps.insert ℕ_discrete e.aggregate_id (record a { events = set a.events idx (some e) }) db,
  )
  put_at e a (ok none) db = (
    err (wrap (event_store_error Operation.replace "" e.aggregate_id 0) (sentinel event_not_found)),
    db,
  )
  put_at e a (err x) db = (err x, db)
  put_at e a panic db = (panic, db)

  replace_in : Event Any → AggregateRecord Any → Result (Event Any) → Action (Db Any) (Unit {0})
  unfolding find_version put_at
  replace_in e a (ok copied) db = put_at copied a (find_version e.version 0 a.events) db
  replace_in e a (err x) db = (
    err (
        wrap (event_store_error Operation.replace "" e.aggregate_id 0)
          (wrap (errorf "could not copy event") x)),
    db,
  )
  replace_in e a panic db = (panic, db)

  unfoldable pub replace : Codec Any → Event Any → Action (Db Any) (Unit {0})
  unfolding replace_in
  replace c e db = elim (db e.aggregate_id) [
    | none ↦ (
      err (
          wrap (event_store_error Operation.replace "" e.aggregate_id 0)
            (sentinel aggregate_not_found)),
      db,
    )
    | some a ↦ replace_in e a (copy_event c e) db
  ]

  -- The loop over the events of one aggregate. An event of another type is not written to the new
  -- slice, and stays nil there.
  rename_events : String → String → List (Option (Event Any)) → Result (List (Option (Event Any)))
  rename_events from to [] = ok []
  rename_events from to (none ∷ es) = panic
  rename_events from to (some e ∷ es) = do
    renamed ← rename_events from to es
    ok (
        ite (String-discrete e.event_type from)
          (some (
            new_event to e.payload e.timestamp (
              some (for_aggregate e.aggregate_type e.aggregate_id e.version)
              ∷ some (with_metadata e.metadata)
              ∷ [])))
          none
        ∷ renamed)

  -- The loop over the map, in the order `ids` that the runtime picks.
  rename_all : String → String → List ℕ → Db Any → Result (Db Any)
  unfolding rename_events
  rename_all from to [] db = ok Maps.empty
  rename_all from to (id ∷ ids) db = do
    updated ← rename_all from to ids db
    elim (db id) [
      | none ↦ ok updated
      | some a ↦ do
        events ← rename_events from to a.events
        ok (Maps.insert ℕ_discrete id (record a { events = events }) updated)
    ]

  -- maps.Copy(s.db, updated)
  copy_into : Result (Db Any) → Action (Db Any) (Unit {0})
  copy_into (ok updated) db = (ok tt, λ id. elim (updated id) [ none ↦ db id | some a ↦ some a ])
  copy_into (err x) db = (err x, db)
  copy_into panic db = (panic, db)

  unfoldable pub rename_event : List ℕ → String → String → Action (Db Any) (Unit {0})
  unfolding rename_all copy_into
  rename_event ids from to db = copy_into (rename_all from to ids db) db
