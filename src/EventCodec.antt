-- ===== src/EventCodec.antt =====
-- codec/json/event.go, and codec/bson/event.go, which differs in the library that it calls: an event
-- and the values of its context, as bytes. Bytes are numbers.
pub mod RoundTrip
use eventhorizon.Prelude.{ℕ, String, Option, none, some, List, [], ◌∷◌, length, leb, if◌then◌else◌}
use eventhorizon.Prelude.Maps.{Map}
use eventhorizon.Registry
use eventhorizon.Registry.{Registry}
use eventhorizon.Errors.{
  Result, ok, err, panic, sentinel, errorf, wrap_err, event_data_not_registered, ◌>>=◌,
}
use eventhorizon.Event.{Event, nil_uuid, new_event, for_aggregate, with_metadata}
use eventhorizon.Context.{
  Context, Uuid, Vals, ContextMarshalFunc, ContextUnmarshalFunc, marshal_context, unmarshal_context,
}

-- The event on the wire.
pub record WireEvent (Any : Type 0) : Type 0 where
  pub event_type : String
  pub raw_data : List ℕ
  pub timestamp : ℕ
  pub aggregate_type : String
  pub aggregate_id : String
  pub version : ℕ
  pub metadata : Option (Map String Any)
  pub context : Option Vals

-- The registry of RegisterEventData, each factory by what it makes, and what encoding/json, or the
-- registry of codec/bson, makes of event data and of events on the wire.
pub record Wire (Any : Type 0) : Type 0 where
  pub event_data_factories : Registry String Any
  pub marshal_data : Any → Result (List ℕ)
  pub unmarshal_data : List ℕ → Any → Result Any
  pub marshal_wire : WireEvent Any → Result (List ℕ)
  pub unmarshal_wire : List ℕ → Result (WireEvent Any)

module _ {Any : Type 0} (c : Wire Any) (u : Uuid) where
  raw_data_of : Option Any → Result (List ℕ)
  raw_data_of none = ok []
  raw_data_of (some given) = wrap_err (errorf "could not marshal event data") (c.marshal_data given)

  unfoldable pub wire_event : Event Any → Vals → List ℕ → WireEvent Any
  wire_event e vals raw = record {
    event_type = e.event_type;
    raw_data = raw;
    timestamp = e.timestamp;
    aggregate_type = e.aggregate_type;
    aggregate_id = u.print e.aggregate_id;
    version = e.version;
    metadata = e.metadata;
    context = some vals;
  }

  unfoldable pub marshal_event : List ContextMarshalFunc → Context → Event Any → Result (List ℕ)
  unfolding raw_data_of wire_event marshal_context
  marshal_event ms ctx e = do
    vals ← marshal_context ms ctx
    raw ← raw_data_of e.payload
    wrap_err (errorf "could not marshal event") (c.marshal_wire (wire_event e vals raw))

  made_data : String → Result Any
  made_data event_type = elim (Registry.get c.event_data_factories event_type) [
    | none ↦ err (sentinel event_data_not_registered)
    | some made ↦ ok made
  ]

  unfoldable pub read_data : WireEvent Any → Result (Option Any)
  unfolding made_data
  read_data w =
      if leb 1 (length w.raw_data)
      then (do
        made ← wrap_err (errorf "could not create event data") (made_data w.event_type)
        filled ←
            wrap_err (errorf "could not unmarshal event data") (c.unmarshal_data w.raw_data made)
        ok (some filled))
      else ok none

  -- An ID that is not a UUID becomes uuid.Nil.
  unfoldable pub read_id : String → ℕ
  read_id text = elim (u.parse text) [ none ↦ nil_uuid | some id ↦ id ]

  unfoldable pub event_of : WireEvent Any → Option Any → Event Any
  unfolding new_event for_aggregate with_metadata read_id
  event_of w given = new_event w.event_type given w.timestamp (
      some (for_aggregate w.aggregate_type (read_id w.aggregate_id) w.version)
      ∷ some (with_metadata w.metadata)
      ∷ [])

  unfoldable pub unmarshal_event :
      List ContextUnmarshalFunc → Context → List ℕ → Result (Event Any × Context)
  unfolding read_data event_of unmarshal_context
  unmarshal_event us ctx b = do
    w ← wrap_err (errorf "could not unmarshal event") (c.unmarshal_wire b)
    given ← read_data w
    ok (event_of w given, unmarshal_context us ctx w.context)
