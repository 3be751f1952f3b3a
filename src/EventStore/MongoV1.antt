-- ===== src/EventStore/MongoV1.antt =====
-- eventstore/mongodb/eventstore.go: the event store with one document per aggregate, over a driver
-- that is given by its calls. The codec and the loops over the event handlers are those of
-- eventstore/mongodb_v2. `S` is the database with all that the handlers act on.
pub mod Saving
pub mod Documents
mod Tests
pub mod Invariant
use eventhorizon.Prelude.{
  ℕ, ◌+◌, String, String-discrete, ℕ_discrete, Bool, Option, none, some, List, [], ◌∷◌, ◌++◌,
  length, ltb, leb, ite, if◌then◌else◌,
}
use eventhorizon.Prelude.Maps.{Map}
use eventhorizon.Errors.{
  Err, Result, ok, err, panic, Action, Operation, sentinel, wrap, errorf, message, wrap_err,
  event_store_error, mismatched_event_aggregate_ids, mismatched_event_aggregate_types,
  incorrect_event_version, missing_events, aggregate_not_found, ◌>>=◌,
}
use eventhorizon.Event.{Event, new_event, for_aggregate, with_metadata}
use eventhorizon.EventStore.Mongo.Building.{BsonCodec, create_event_data}

pub record Evt (Any : Type 0) : Type 0 where
  pub event_type : String
  pub raw_data : List ℕ
  pub timestamp : ℕ
  pub aggregate_type : String
  pub aggregate_id : ℕ
  pub version : ℕ
  pub metadata : Option (Map String Any)

pub record AggregateRecord (Any : Type 0) : Type 0 where
  pub aggregate_id : ℕ
  pub version : ℕ
  pub events : List (Evt Any)

-- The calls of the driver: InsertOne; UpdateOne of the document with an ID and a version, which
-- pushes events and increments the version by their number, with its MatchedCount; FindOne.
pub record Driver (Any S : Type 0) : Type 0 where
  pub start_session : Action S (Unit {0})
  pub with_transaction : Action S (Unit {0}) → Action S (Unit {0})
  pub insert_one : AggregateRecord Any → Action S (Unit {0})
  pub update_one : ℕ → ℕ → List (Evt Any) → ℕ → Action S ℕ
  pub find_one : ℕ → Action S (AggregateRecord Any)
  pub is_no_documents : Err → Bool

module _ {Any : Type 0} (c : BsonCodec Any) where
  raw_data_of : Option Any → Result (List ℕ)
  raw_data_of none = ok []
  raw_data_of (some given) = wrap_err (errorf "could not marshal event data") (c.marshal given)

  unfoldable pub new_evt : Event Any → Result (Evt Any)
  unfolding raw_data_of
  new_evt e = raw_data_of e.payload >>= λ raw. ok (record {
    event_type = e.event_type;
    raw_data = raw;
    timestamp = e.timestamp;
    aggregate_type = e.aggregate_type;
    aggregate_id = e.aggregate_id;
    version = e.version;
    metadata = e.metadata;
  })

  -- The loop of Save over the events from the index `i` on.
  unfoldable pub build : ℕ → String → ℕ → ℕ → List (Event Any) → Result (List (Evt Any))
  unfolding new_evt
  build id at original i [] = ok []
  build id at original i (e ∷ es) =
      let rest = build id at original (i + 1) es in
      let w = event_store_error Operation.save at id original in
      ite (ℕ_discrete e.aggregate_id id)
        (ite (String-discrete e.aggregate_type at)
          (ite (ℕ_discrete e.version (original + i + 1))
            (wrap_err w (wrap_err (errorf "could not copy event") (new_evt e)) >>= λ made.
              rest >>= λ dbs. ok (made ∷ dbs))
            (err (wrap w (sentinel incorrect_event_version))))
          (err (wrap w (sentinel mismatched_event_aggregate_types))))
        (err (wrap w (sentinel mismatched_event_aggregate_ids)))

  -- One turn of the loop of LoadFrom: nil for an event below the version.
  unfoldable pub load_event : ℕ → ℕ → Evt Any → Result (Option (Event Any))
  unfolding create_event_data new_event for_aggregate with_metadata
  load_event id version e =
      let w = event_store_error Operation.load e.aggregate_type id e.version in
      let made_event : Option Any → Event Any = λ given. new_event e.event_type given e.timestamp (
        some (for_aggregate e.aggregate_type e.aggregate_id e.version)
        ∷ some (with_metadata e.metadata)
        ∷ []) in
      if ltb e.version version
      then ok none
      else if leb 1 (length e.raw_data)
      then (do
        made ←
            wrap_err w
              (wrap_err (errorf "could not create event data") (create_event_data c e.event_type))
        filled ←
            wrap_err w
              (wrap_err (errorf "could not unmarshal event data") (c.unmarshal e.raw_data made))
        ok (some (made_event (some filled))))
      else ok (some (made_event none))

  unfoldable pub load_events : ℕ → ℕ → List (Evt Any) → Result (List (Option (Event Any)))
  unfolding load_event
  load_events id version [] = ok []
  load_events id version (e ∷ es) =
      let rest = load_events id version es in
      load_event id version e >>= λ loaded. rest >>= λ events. ok (loaded ∷ events)

  module _ {S : Type 0} (d : Driver Any S) where
    -- Translate to our own not found error.
    not_found : Err → Err
    not_found x = if d.is_no_documents x then sentinel aggregate_not_found else x

    after_find : ℕ → ℕ → Result (AggregateRecord Any) × S → Result (List (Option (Event Any))) × S
    unfolding load_events not_found
    after_find id version (ok a, s) = (load_events id version a.events, s)
    after_find id version (err x, s) =
        (err (wrap (event_store_error Operation.load "" id 0) (not_found x)), s)
    after_find id version (panic, s) = (panic, s)

    unfoldable pub load_from : ℕ → ℕ → Action S (List (Option (Event Any)))
    unfolding after_find
    load_from id version s = after_find id version (d.find_one id s)

    unfoldable pub load : ℕ → Action S (List (Option (Event Any)))
    unfolding load_from
    load id = load_from id 1
