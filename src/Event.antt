-- ===== src/Event.antt =====
-- event.go: events, the options that NewEvent takes, and the factories of event data. `Any` is Go's
-- empty interface: what an application stores as event data and as metadata values. Event types,
-- aggregate types and metadata keys are texts, a UUID is a number and uuid.Nil is 0, a time is a
-- number. Versions are ints that never fall below 0 or reach 2^63, and are plain numbers here.
use eventhorizon.Prelude.{ℕ, String, ◌≡◌, refl, Option, none, some, List, [], ◌∷◌, ◌++◌, arith}
use eventhorizon.Prelude.Maps.{Map}
use eventhorizon.Errors.{
  Result, ok, err, sentinel, errorf, wrap_err, event_data_not_registered, ◌>>=◌,
}
use eventhorizon.Registry
use eventhorizon.Registry.{Registry}

abbrev pub nil_uuid : ℕ
nil_uuid = 0

pub record Event (Any : Type 0) : Type 0 where
  pub event_type : String
  pub payload : Option Any  -- Data(): nil is `none`
  pub timestamp : ℕ
  pub aggregate_type : String
  pub aggregate_id : ℕ
  pub version : ℕ
  pub metadata : Option (Map String Any)

abbrev pub EventOption : Type 0 → Type 0
EventOption Any = Event Any → Event Any

module _ {Any : Type 0} where
  unfoldable pub for_aggregate : String → ℕ → ℕ → EventOption Any
  for_aggregate aggregate_type aggregate_id version e = record e {
    aggregate_type = aggregate_type;
    aggregate_id = aggregate_id;
    version = version;
  }

  -- maps.Copy(dst, src)
  copy_map : Map String Any → Map String Any → Map String Any
  copy_map dst src k = elim (src k) [ none ↦ dst k | some v ↦ some v ]

  merge : Option (Map String Any) → Option (Map String Any) → Option (Map String Any)
  unfolding copy_map
  merge none md = md
  merge (some own) none = some own
  merge (some own) (some md) = some (copy_map own md)

  unfoldable pub with_metadata : Option (Map String Any) → EventOption Any
  unfolding merge
  with_metadata md e = record e { metadata = merge e.metadata md }

  apply_options : List (Option (EventOption Any)) → Event Any → Event Any
  apply_options [] e = e
  apply_options (none ∷ os) e = apply_options os e
  apply_options (some o ∷ os) e = apply_options os (o e)

  -- A nil option is skipped; the others run in order.
  unfoldable pub new_event : String → Option Any → ℕ → List (Option (EventOption Any)) → Event Any
  unfolding apply_options
  new_event event_type payload timestamp options = apply_options options (record {
    event_type = event_type;
    payload = payload;
    timestamp = timestamp;
    aggregate_type = "";
    aggregate_id = nil_uuid;
    version = 0;
    metadata = none;
  })

  apply_options-append :
      (os ps : List (Option (EventOption Any))) (e : Event Any)
      → apply_options (os ++ ps) e ≡ apply_options ps (apply_options os e)
  unfolding apply_options
  apply_options-append [] ps e = refl
  apply_options-append (none ∷ os) ps e = apply_options-append os ps e
  apply_options-append (some o ∷ os) ps e = apply_options-append os ps (o e)

  -- An option that comes last has the last word.
  pub new_event-append :
      (event_type : String) (payload : Option Any) (timestamp : ℕ)
      (os : List (Option (EventOption Any))) (o : EventOption Any)
      → new_event event_type payload timestamp (os ++ some o ∷ [])
        ≡ o (new_event event_type payload timestamp os)
  unfolding new_event
  new_event-append event_type payload timestamp os o = apply_options-append os (some o ∷ []) _

-- The registry that RegisterEventData fills, each factory by what a call of it returns, and the
-- copier.Copy(to, from) of github.com/jinzhu/copier.
pub record Codec (Any : Type 0) : Type 0 where
  pub event_data_factories : Registry String Any
  pub copy : Any → Any → Result Any

module _ {Any : Type 0} (c : Codec Any) where
  unfoldable pub create_event_data : String → Result Any
  create_event_data event_type = elim (Registry.get c.event_data_factories event_type) [
    | none ↦ err (sentinel event_data_not_registered)
    | some made ↦ ok made
  ]

  copy_data : String → Option Any → Result (Option Any)
  unfolding create_event_data
  copy_data event_type none = ok none
  copy_data event_type (some given) = do
    made ← wrap_err (errorf "could not create event data") (create_event_data event_type)
    copied ← wrap_err (errorf "could not copy event data") (c.copy made given)
    ok (some copied)

  -- copyEvent of eventstore/memory/eventstore.go and of outbox/memory/outbox.go, which are alike.
  unfoldable pub copy_event : Event Any → Result (Event Any)
  unfolding copy_data new_event for_aggregate with_metadata
  copy_event e = do
    copied ← copy_data e.event_type e.payload
    ok (
        new_event e.event_type copied e.timestamp (
          some (for_aggregate e.aggregate_type e.aggregate_id e.version)
          ∷ some (with_metadata e.metadata)
          ∷ []))

  -- What the application and copier have to provide for the data of one event: its factory is
  -- registered, and the copy that is made of the data is equal to it.
  abbrev pub CopiesData : String → Option Any → Type 0
  CopiesData event_type none = Unit
  CopiesData event_type (some given) =
      (made : Any) × (Registry.get c.event_data_factories event_type ≡ some made)
      × (c.copy made given ≡ ok given)

  abbrev pub Copies : Event Any → Type 0
  Copies e = CopiesData e.event_type e.payload

  copy_data_lem :
      (event_type : String) (payload : Option Any)
      → CopiesData event_type payload
      → copy_data event_type payload ≡ ok payload
  unfolding copy_data
  copy_data_lem event_type none h = refl
  copy_data_lem event_type (some given) h = ground arith

  -- A copy is equal to its event, metadata included.
  pub copy_event_lem : (e : Event Any) → Copies e → copy_event e ≡ ok e
  unfolding copy_event
  copy_event_lem e h = rw (copy_data_lem e.event_type e.payload h)

  -- Whatever the data, a copy keeps the event's place in its stream.
  pub copy_event_keeps :
      (e d : Event Any)
      → copy_event e ≡ ok d
      → (d.version ≡ e.version)
        × (d.aggregate_id ≡ e.aggregate_id)
        × (d.aggregate_type ≡ e.aggregate_type)
        × (d.event_type ≡ e.event_type)
  unfolding copy_event
  copy_event_keeps e d h = ground arith
