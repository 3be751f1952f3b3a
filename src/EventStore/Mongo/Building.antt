-- ===== src/EventStore/Mongo/Building.antt =====
-- eventstore/mongodb_v2: newEvt, the loop of Save that makes the documents, and the assignment of
-- positions.
use eventhorizon.Prelude.{
  ℕ, ◌+◌, suc, String, String-discrete, ℕ_discrete, Option, none, some, List, [], ◌∷◌, ite,
}
use eventhorizon.Prelude.Maps
use eventhorizon.Prelude.Maps.{Map}
use eventhorizon.Registry
use eventhorizon.Registry.{Registry}
use eventhorizon.Errors.{
  Operation, Result, ok, err, panic, sentinel, wrap, errorf, event_store_error,
  mismatched_event_aggregate_ids, mismatched_event_aggregate_types, incorrect_event_version,
  event_data_not_registered, ◌>>=◌,
}
use eventhorizon.Event.{Event}
use eventhorizon.EventStore.Mongo.Client.{Evt}

-- The registry of RegisterEventData, each factory by what it makes, the functions of codec/bson's
-- registry on event data, and a position as a metadata value.
pub record BsonCodec (Any : Type 0) : Type 0 where
  pub event_data_factories : Registry String Any
  pub marshal : Any → Result (List ℕ)
  pub unmarshal : List ℕ → Any → Result Any
  pub number : ℕ → Any

module _ {Any : Type 0} (c : BsonCodec Any) where
  unfoldable pub create_event_data : String → Result Any
  create_event_data event_type = elim (Registry.get c.event_data_factories event_type) [
    | none ↦ err (sentinel event_data_not_registered)
    | some made ↦ ok made
  ]

  unfoldable pub marshal_data : Option Any → Result (List ℕ)
  marshal_data none = ok []
  marshal_data (some given) = elim (c.marshal given) [
    | ok raw ↦ ok raw
    | err x ↦ err (
        wrap (event_store_error Operation.no_operation "" 0 0)
          (wrap (errorf "could not marshal event data") x))
    | panic ↦ panic
  ]

  -- maps.Clone, and an empty map for nil
  unfoldable pub metadata_of : Option (Map String Any) → Map String Any
  metadata_of none = Maps.empty
  metadata_of (some md) = md

  unfoldable pub new_evt : Event Any → Result (Evt Any)
  unfolding marshal_data metadata_of
  new_evt e = marshal_data e.payload >>= λ raw. ok (record {
    position = 0;
    event_type = e.event_type;
    timestamp = e.timestamp;
    aggregate_type = e.aggregate_type;
    aggregate_id = e.aggregate_id;
    version = e.version;
    raw_data = raw;
    metadata = some (metadata_of e.metadata);
  })

  -- The loop of Save over the events from the index `i` on.
  unfoldable pub build : ℕ → String → ℕ → ℕ → List (Event Any) → Result (List (Evt Any))
  unfolding new_evt
  build id at original i [] = ok []
  build id at original i (e ∷ es) =
      let rest = build id at original (i + 1) es in
      let w = event_store_error Operation.save at id original in
      ite (ℕ_discrete e.aggregate_id id)
        (ite (String-discrete e.aggregate_type at)
          (ite (ℕ_discrete e.version (original + i + 1))
            (new_evt e >>= λ made. rest >>= λ dbs. ok (made ∷ dbs))
            (err (wrap w (sentinel incorrect_event_version))))
          (err (wrap w (sentinel mismatched_event_aggregate_types))))
        (err (wrap w (sentinel mismatched_event_aggregate_ids)))

  -- event.Metadata["position"] = event.Position
  unfoldable pub note_position : ℕ → Option (Map String Any) → Option (Map String Any)
  unfolding metadata_of
  note_position p md = some (Maps.insert String-discrete "position" (c.number p) (metadata_of md))

  unfoldable pub at_position : ℕ → Evt Any → Evt Any
  unfolding note_position
  at_position p e = record e { position = p; metadata = note_position p e.metadata }

  -- The loop that assigns positions, after the position `previous`.
  unfoldable pub at_positions : ℕ → List (Evt Any) → List (Evt Any)
  unfolding at_position
  at_positions previous [] = []
  at_positions previous (e ∷ es) = at_position (suc previous) e ∷ at_positions (suc previous) es
