-- ===== src/EventCodec/RoundTrip.antt =====
-- codec/json/event.go and codec/bson/event.go: an event is read back as it was written, under a copy
-- of its context.
use eventhorizon.Prelude.{
  ℕ, String, ◌≡◌, ◌≢◌, refl, ap, ◌∙◌, Option, none, some, List, [], length-ne-zero, arith,
}
use eventhorizon.Registry
use eventhorizon.Registry.{Registry}
use eventhorizon.Errors.{ok}
use eventhorizon.Event.{Event, new_event, for_aggregate, with_metadata}
use eventhorizon.Context.{
  Context, Uuid, Vals, ContextMarshalFunc, ContextUnmarshalFunc, marshal_context, unmarshal_context,
  copy_context,
}
use eventhorizon.EventCodec.{
  WireEvent, Wire, raw_data_of, wire_event, marshal_event, read_data, read_id, event_of,
  unmarshal_event,
}

module _ {Any : Type 0} (c : Wire Any) (u : Uuid) where
  -- What the application and the library have to provide for the data of an event: a factory, and
  -- bytes, at least one, that are read back into what the factory makes.
  abbrev pub KeepsData : String → Option Any → Type 0
  KeepsData event_type none = Unit
  KeepsData event_type (some given) =
      (made : Any) × (Registry.get c.event_data_factories event_type ≡ some made)
      × ((raw : List ℕ)
          → c.marshal_data given ≡ ok raw
          → (raw ≢ []) × (c.unmarshal_data raw made ≡ ok given))

  -- And for the event itself.
  abbrev pub KeepsWire : Type 0
  KeepsWire = (w : WireEvent Any) (b : List ℕ) → c.marshal_wire w ≡ ok b → c.unmarshal_wire b ≡ ok w

  read_back :
      (e : Event Any) (vals : Vals) (given : Option Any) (raw : List ℕ)
      → KeepsData e.event_type given
      → raw_data_of c u given ≡ ok raw
      → read_data c u (wire_event c u e vals raw) ≡ ok given
  unfolding raw_data_of read_data wire_event
  read_back e vals none raw h r = let empty : [] ≡ raw = cc in rw (← empty) refl
  read_back e vals (some given) raw (made, factory, kept) r =
      let (some_bytes, filled) = kept raw (ground arith) in
      ground (arith, length-ne-zero raw some_bytes, factory, filled)

  event_of-wire_event :
      (e : Event Any) (vals : Vals) (raw : List ℕ)
      → u.parse (u.print e.aggregate_id) ≡ some e.aggregate_id
      → event_of c u (wire_event c u e vals raw) e.payload ≡ e
  unfolding event_of wire_event read_id new_event for_aggregate with_metadata
  event_of-wire_event e vals raw trip = ground (arith, trip)

  marshal_event-ok :
      (ms : List ContextMarshalFunc) (from : Context) (e : Event Any) (b : List ℕ)
      → marshal_event c u ms from e ≡ ok b
      → (vals : Vals) × (raw : List ℕ) × (marshal_context ms from ≡ ok vals)
        × (raw_data_of c u e.payload ≡ ok raw)
        × (c.marshal_wire (wire_event c u e vals raw) ≡ ok b)
  unfolding marshal_event
  marshal_event-ok ms from e b h = ground arith

  unmarshal_event-ok :
      (us : List ContextUnmarshalFunc) (to : Context) (b : List ℕ) (w : WireEvent Any)
      (given : Option Any)
      → c.unmarshal_wire b ≡ ok w
      → read_data c u w ≡ ok given
      → unmarshal_event c u us to b ≡ ok (event_of c u w given, unmarshal_context us to w.context)
  unfolding unmarshal_event
  unmarshal_event-ok us to b w given h k = ground arith

  -- For UUIDs, data and events that are read back as they were written: the bytes that MarshalEvent
  -- makes are read as the same event, with the context that CopyContext makes.
  pub unmarshal-marshal_event :
      (ms : List ContextMarshalFunc) (us : List ContextUnmarshalFunc) (from to ctx : Context)
      (e : Event Any) (b : List ℕ)
      → u.parse (u.print e.aggregate_id) ≡ some e.aggregate_id
      → KeepsData e.event_type e.payload
      → KeepsWire
      → marshal_event c u ms from e ≡ ok b
      → copy_context ms us from to ≡ ok ctx
      → unmarshal_event c u us to b ≡ ok (e, ctx)
  unfolding copy_context wire_event
  unmarshal-marshal_event ms us from to ctx e b trip kept wired written copied =
      let (vals, raw, marshalled, raw_ok, on_wire) = marshal_event-ok ms from e b written in
      let w = wire_event c u e vals raw in
      let ctx_eq : unmarshal_context us to (some vals) ≡ ctx = ground arith in
      unmarshal_event-ok us to b w e.payload (wired w b on_wire)
        (read_back e vals e.payload raw kept raw_ok)
      ∙ ap (λ a. ok (a, unmarshal_context us to (some vals))) (event_of-wire_event e vals raw trip)
      ∙ ap (λ x. ok (e, x)) ctx_eq
