-- ===== src/EventStore/Mongo/Cursor.antt =====
-- eventstore/mongodb_v2: Load and LoadFrom.
use eventhorizon.Prelude.{
  ℕ, String, Bool, Option, none, some, List, [], ◌∷◌, if◌then◌else◌, length, leb,
}
use eventhorizon.Errors.{
  Operation, Err, Result, ok, err, panic, sentinel, wrap, errorf, event_store_error,
  aggregate_not_found, Action,
}
use eventhorizon.Errors.Actions.{◌>>=◌, lift, wrapped}
use eventhorizon.Event.{Event, new_event, for_aggregate, with_metadata}
use eventhorizon.EventStore.Mongo.Client.{Evt, Query, Driver}
use eventhorizon.EventStore.Mongo.Building.{BsonCodec, create_event_data}

unfoldable pub load_error : ℕ → String → Err → Err
load_error id what x = wrap (event_store_error Operation.load "" id 0) (wrap (errorf what) x)

module _ {Any : Type 0} where
  unfoldable pub some_loaded : ℕ → List (Event Any) → Result (List (Event Any))
  some_loaded id [] =
      err (wrap (event_store_error Operation.load "" id 0) (sentinel aggregate_not_found))
  some_loaded id (e ∷ es) = ok (e ∷ es)

  module _ (c : BsonCodec Any) where
    -- One turn of the loop of loadFromCursor, after the document is decoded.
    unfoldable pub decode_data : Evt Any → Result (Option Any)
    unfolding create_event_data
    decode_data e =
        if leb 1 (length e.raw_data)
        then elim (create_event_data c e.event_type) [
          | ok made ↦ elim (c.unmarshal e.raw_data made) [
            | ok filled ↦ ok (some filled)
            | err x ↦ err (wrap (errorf "could not unmarshal event data") x)
            | panic ↦ panic
          ]
          | err x ↦ err (wrap (errorf "could not create event data") x)
          | panic ↦ panic
        ]
        else ok none

    unfoldable pub to_event : Evt Any → Option Any → Event Any
    unfolding new_event for_aggregate with_metadata
    to_event e given = new_event e.event_type given e.timestamp (
        some (for_aggregate e.aggregate_type e.aggregate_id e.version)
        ∷ some (with_metadata e.metadata)
        ∷ [])

    -- The loop of loadFromCursor over the documents, each by what Decode makes of it.
    unfoldable pub load_documents : ℕ → List (Result (Evt Any)) → Result (List (Event Any))
    unfolding load_error decode_data to_event
    load_documents id [] = ok []
    load_documents id (err x ∷ docs) = err (load_error id "could not decode event" x)
    load_documents id (panic ∷ docs) = panic
    load_documents id (ok e ∷ docs) =
        let rest = load_documents id docs in
        elim (decode_data e) [
          | ok given ↦ elim rest [
            | ok es ↦ ok (to_event e given ∷ es)
            | err x ↦ err x
            | panic ↦ panic
          ]
          | err x ↦ err (wrap (event_store_error Operation.load e.aggregate_type id e.version) x)
          | panic ↦ panic
        ]

    module _ {S : Type 0} (d : Driver Any S) where
      unfoldable pub load_query : Query → Action S (List (Event Any))
      unfolding load_documents some_loaded
      load_query q =
          wrapped (event_store_error Operation.load "" q.aggregate_id 0)
            (wrapped (errorf "could not find event") (d.find_events q))
          >>= λ docs.
              (lift (load_documents q.aggregate_id docs) >>= λ es.
              lift (some_loaded q.aggregate_id es))

      unfoldable pub load : Bool → ℕ → Action S (List (Event Any))
      unfolding load_query
      load sort_events_on_db id =
          load_query (record { aggregate_id = id; from_version = none; sorted = sort_events_on_db })

      unfoldable pub load_from : Bool → ℕ → ℕ → Action S (List (Event Any))
      unfolding load_query
      load_from sort_events_on_db id version =
          load_query
            (record { aggregate_id = id; from_version = some version; sorted = sort_events_on_db })
