-- ===== src/EventStore/Mongo/Records.antt =====
-- eventstore/mongodb_v2: a document is read back as the event that it was made of, with its position
-- in its metadata.
use eventhorizon.Prelude.{
  ℕ, ◌+◌, suc, String, ◌≡◌, ◌≢◌, refl, Option, none, some, List, [], ◌∷◌, ◌++◌, length-ne-zero, All,
  arith,
}
use eventhorizon.Registry
use eventhorizon.Registry.{Registry}
use eventhorizon.Errors.{ok}
use eventhorizon.Event.{Event, new_event, for_aggregate, with_metadata}
use eventhorizon.EventStore.Mongo.Client.{Evt}
use eventhorizon.EventStore.Mongo.Building.{
  BsonCodec, create_event_data, marshal_data, metadata_of, new_evt, build, note_position,
  at_position, at_positions,
}
use eventhorizon.EventStore.Mongo.Built.{build-nil, build-cons}
use eventhorizon.EventStore.Mongo.Cursor.{decode_data, to_event}

module _ {Any : Type 0} (c : BsonCodec Any) where
  -- What the application and bson have to provide for the data of an event: a factory is registered,
  -- and the marshalled data, which is not empty, is read back into what the factory makes.
  abbrev pub StoresData : String → Option Any → Type 0
  StoresData event_type none = Unit
  StoresData event_type (some given) =
      (raw : List ℕ) × (made : Any) × (c.marshal given ≡ ok raw)
      × (raw ≢ [])
      × (Registry.get c.event_data_factories event_type ≡ some made)
      × (c.unmarshal raw made ≡ ok given)

  abbrev pub Stores : Event Any → Type 0
  Stores e = StoresData e.event_type e.payload

  -- The event, with its position in its metadata.
  unfoldable pub recorded : ℕ → Event Any → Event Any
  unfolding note_position
  recorded p e = record e { metadata = note_position c p e.metadata }

  unfoldable pub recorded_after : ℕ → List (Event Any) → List (Event Any)
  unfolding recorded
  recorded_after p [] = []
  recorded_after p (e ∷ es) = recorded (suc p) e ∷ recorded_after (suc p) es

  -- A document that is read as the event.
  abbrev pub IsRecord : Evt Any → Event Any → Type 0
  IsRecord d e = (decode_data c d ≡ ok e.payload) × (to_event c d e.payload ≡ e)

  abbrev pub AreRecords : List (Evt Any) → List (Event Any) → Type 0
  AreRecords [] [] = Unit
  AreRecords [] (e ∷ es) = ⊥
  AreRecords (d ∷ ds) [] = ⊥
  AreRecords (d ∷ ds) (e ∷ es) = IsRecord d e × AreRecords ds es

  pub AreRecords-append :
      (ds gs : List (Evt Any)) (es fs : List (Event Any))
      → AreRecords ds es
      → AreRecords gs fs
      → AreRecords (ds ++ gs) (es ++ fs)
  AreRecords-append [] gs [] fs h g = g
  AreRecords-append [] gs (e ∷ es) fs h g = absurd h
  AreRecords-append (d ∷ ds) gs [] fs h g = absurd h
  AreRecords-append (d ∷ ds) gs (e ∷ es) fs h g = (h.0, AreRecords-append ds gs es fs h.1 g)

  -- The document of an event whose data is marshalled to `raw`.
  abbrev made_of : Event Any → List ℕ → Evt Any
  made_of e raw = record {
    position = 0;
    event_type = e.event_type;
    timestamp = e.timestamp;
    aggregate_type = e.aggregate_type;
    aggregate_id = e.aggregate_id;
    version = e.version;
    raw_data = raw;
    metadata = some (metadata_of c e.metadata);
  }

  new_evt-made_of :
      (e : Event Any) (d : Evt Any)
      → new_evt c e ≡ ok d
      → (raw : List ℕ) × (marshal_data c e.payload ≡ ok raw) × (d ≡ made_of e raw)
  unfolding new_evt
  new_evt-made_of e d made = ground arith

  decode_data-marshal_data :
      (payload : Option Any) (raw : List ℕ) (d : Evt Any)
      → StoresData d.event_type payload
      → marshal_data c payload ≡ ok raw
      → d.raw_data ≡ raw
      → decode_data c d ≡ ok payload
  unfolding decode_data marshal_data create_event_data
  decode_data-marshal_data none raw d h m e = ground arith
  decode_data-marshal_data (some given) raw d (stored, made, h, full, factory, back) m e =
      ground (arith, length-ne-zero raw)

  new_evt-IsRecord :
      (p : ℕ) (e : Event Any) (d : Evt Any)
      → Stores e
      → new_evt c e ≡ ok d
      → IsRecord (at_position c p d) (recorded p e)
  unfolding at_position to_event recorded note_position metadata_of with_metadata for_aggregate
      new_event
  new_evt-IsRecord p e d h made =
      let (raw, marshalled, whole) = new_evt-made_of e d made in
      rw (whole) (decode_data-marshal_data e.payload raw _ h marshalled refl, refl)

  pub at_positions-AreRecords :
      (id : ℕ) (at : String) (original i p : ℕ) (es : List (Event Any)) (dbs : List (Evt Any))
      → All Stores es
      → build c id at original i es ≡ ok dbs
      → AreRecords (at_positions c p dbs) (recorded_after p es)
  unfolding at_positions recorded_after
  at_positions-AreRecords id at original i p [] dbs h built =
      let none_made = build-nil c id at original i dbs built in rw (none_made) tt
  at_positions-AreRecords id at original i p (e ∷ es) dbs h built =
      let later = at_positions-AreRecords id at original (i + 1) (suc p) es in
      let (made, rest, made_ok, rest_ok, own, kind, next, whole) =
        build-cons c id at original i e es dbs built in
      rw (whole) (new_evt-IsRecord (suc p) e made h.0 made_ok, later rest h.1 rest_ok)
