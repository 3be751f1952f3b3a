-- ===== src/EventBus/Tests.antt =====
-- codec/json/event.go and eventbus/local/eventbus.go: one event, written, published and handled.
use eventhorizon.Prelude.{
  ℕ, ℕ_discrete, ◌+◌, String, String-discrete, ◌≡◌, refl, true, false, none, some, List, [], ◌∷◌,
  ite, arith,
}
use eventhorizon.Prelude.Maps
use eventhorizon.Registry.{Registry}
use eventhorizon.Errors.{Result, ok, err, foreign}
use eventhorizon.Event.{Event}
use eventhorizon.Matcher.{match_aggregates}
use eventhorizon.Context.{Context, Uuid, background, marshalers, unmarshalers, copy_context}
use eventhorizon.EventCodec.{WireEvent, Wire, marshal_event, unmarshal_event}
use eventhorizon.EventCodec.RoundTrip.{KeepsWire, unmarshal-marshal_event}
use eventhorizon.EventBus.{EventCodec, Listener, Bus, handle}
use eventhorizon.EventBus.Delivery.{publish_all}

abbrev seven : Uuid
seven = record { print = λ id. "7"; parse = λ text. some 7 }

-- An event of an account, with no metadata and an empty context, as its numbers.
abbrev write_event : WireEvent ℕ → Result (List ℕ)
write_event w = elim w.metadata [
  | some md ↦ err (foreign 1)
  | none ↦ elim w.context [
    | none ↦ err (foreign 1)
    | some vals ↦ elim vals [
      | v ∷ vs ↦ err (foreign 1)
      | [] ↦
          ite (String-discrete w.event_type "opened")
            (ite (String-discrete w.aggregate_type "account")
              (ite (String-discrete w.aggregate_id "7") (ok (w.timestamp ∷ w.version ∷ w.raw_data))
                (err (foreign 1)))
              (err (foreign 1)))
            (err (foreign 1))
    ]
  ]
]

abbrev read_event : List ℕ → Result (WireEvent ℕ)
read_event (t ∷ v ∷ raw) = ok (record {
  event_type = "opened";
  raw_data = raw;
  timestamp = t;
  aggregate_type = "account";
  aggregate_id = "7";
  version = v;
  metadata = none;
  context = some [];
})
read_event _ = err (foreign 2)

abbrev read_number : List ℕ → ℕ → Result ℕ
read_number (n ∷ []) made = ok n
read_number _ made = err (foreign 3)

abbrev opened : Registry String ℕ
opened = record { items = Maps.insert String-discrete "opened" 0 Maps.empty; name = "event" }

abbrev wire : Wire ℕ
wire = record {
  event_data_factories = opened;
  marshal_data = λ n. ok (n ∷ []);
  unmarshal_data = read_number;
  marshal_wire = write_event;
  unmarshal_wire = read_event;
}

abbrev event : Event ℕ
event = record {
  event_type = "opened";
  payload = some 5;
  timestamp = 10;
  aggregate_type = "account";
  aggregate_id = 7;
  version = 1;
  metadata = none;
}

wire-KeepsWire : KeepsWire wire seven
wire-KeepsWire w b h = ground arith

unmarshal-marshal_event_example :
    unmarshal_event wire seven (unmarshalers seven) background (10 ∷ 1 ∷ 5 ∷ [])
    ≡ ok (event, background)
unfolding marshal_event copy_context marshalers unmarshalers String-discrete
unmarshal-marshal_event_example =
    unmarshal-marshal_event wire seven (marshalers seven) (unmarshalers seven) background background
      background event (10 ∷ 1 ∷ 5 ∷ []) refl
      (0, refl, λ raw h. let bytes : 5 ∷ [] ≡ raw = cc in ((λ z. cc), rw (← bytes) refl))
      wire-KeepsWire refl refl

-- The opening of the account 7 without data, as its time and its version.
abbrev write_opened : Event ℕ → Result (List ℕ)
write_opened e = elim e.metadata [
  | some md ↦ err (foreign 1)
  | none ↦ elim e.payload [
    | some given ↦ err (foreign 1)
    | none ↦
        ite (String-discrete e.event_type "opened")
          (ite (String-discrete e.aggregate_type "account")
            (ite (ℕ_discrete e.aggregate_id 7) (ok (e.timestamp ∷ e.version ∷ []))
              (err (foreign 1)))
            (err (foreign 1)))
          (err (foreign 1))
  ]
]

abbrev read_opened : List ℕ → Result (Event ℕ × Context)
read_opened (t ∷ v ∷ []) = ok (
  record {
    event_type = "opened";
    payload = none;
    timestamp = t;
    aggregate_type = "account";
    aggregate_id = 7;
    version = v;
    metadata = none;
  },
  background,
)
read_opened _ = err (foreign 2)

abbrev openings : EventCodec ℕ
openings = record { marshal_event = λ ctx e. write_opened e; unmarshal_event = read_opened }

-- A handler that adds up the versions that it sees.
abbrev counter : Listener ℕ ℕ
counter = record {
  matcher = match_aggregates ("account" ∷ []);
  handler = record { handler_type = "counter"; handle = λ ctx e w. (ok tt, w + e.version) };
}

abbrev quiet : Bus ℕ ℕ
quiet = record {
  group = record { bus = Maps.insert String-discrete "counter" [] Maps.empty; is_open = true };
  registered = λ t. false;
  listeners = counter ∷ [];
}

abbrev events : List (Event ℕ × Context)
events = (record event { payload = none }, background) ∷ []

abbrev published : Bus ℕ ℕ
published = (publish_all openings events quiet).1
