-- ===== src/EventStore/Memory/Loading.antt =====
-- What LoadFrom makes of a stream.
use eventhorizon.Prelude.{
  ℕ, suc, ◌≤◌, ◌≡◌, ◌∙◌, refl, Option, none, some, List, [], ◌∷◌, ◌++◌, map, arith, ap, ltb,
  if◌then◌else◌,
}
use eventhorizon.Errors.{ok}
use eventhorizon.Event.{Event, Codec, Copies, copy_event_lem}
use eventhorizon.EventStore.Memory.{AggregateRecord, Db, load_events, load_from, load}
use eventhorizon.EventStore.Memory.Streams.{IsStream, AllCopies}

module _ {Any : Type 0} where
  -- Every stored event is there, and its data can be copied.
  abbrev pub AllStored : Codec Any → List (Option (Event Any)) → Type 0
  AllStored c [] = Unit
  AllStored c (none ∷ es) = ⊥
  AllStored c (some e ∷ es) = Copies c e × AllStored c es

  pub AllStored-append :
      (c : Codec Any) (es ds : List (Option (Event Any)))
      → AllStored c es
      → AllStored c ds
      → AllStored c (es ++ ds)
  AllStored-append c [] ds h k = k
  AllStored-append c (none ∷ es) ds h k = absurd h
  AllStored-append c (some e ∷ es) ds h k = (h.0, AllStored-append c es ds h.1 k)

  pub AllStored-map :
      (c : Codec Any) (es : List (Event Any)) → AllCopies c es → AllStored c (map some es)
  AllStored-map c [] h = tt
  AllStored-map c (e ∷ es) h = (h.0, AllStored-map c es h.1)

  -- An event below the version leaves its place nil.
  abbrev pub from_version : ℕ → Option (Event Any) → Option (Event Any)
  from_version version none = none
  from_version version (some e) = if ltb e.version version then none else some e

  load_events_lem :
      (c : Codec Any) (version : ℕ) (es : List (Option (Event Any)))
      → AllStored c es
      → load_events c version es ≡ ok (map (from_version version) es)
  unfolding load_events
  load_events_lem c version [] h = refl
  load_events_lem c version (none ∷ es) h = absurd h
  load_events_lem c version (some e ∷ es) h =
      ground (arith, copy_event_lem c e h.0, load_events_lem c version es h.1)

  from_version-IsStream :
      (id v version : ℕ) (es : List (Option (Event Any)))
      → version ≤ suc v
      → IsStream id v es
      → map (from_version version) es ≡ es
  from_version-IsStream id v version [] le h = refl
  from_version-IsStream id v version (none ∷ es) le h = absurd h
  from_version-IsStream id v version (some e ∷ es) le h =
      ground (arith, from_version-IsStream id (suc v) version es (omega arith) h.2)

  -- LoadFrom returns one entry for each stored event: the event itself from the version on, and nil
  -- for each event below the version, so the result is never shorter than the stream. It changes nothing.
  pub load_from_lem :
      (c : Codec Any) (id version : ℕ) (db : Db Any) (a : AggregateRecord Any)
      → db id ≡ some a
      → AllStored c a.events
      → load_from c id version db ≡ (ok (map (from_version version) a.events), db)
  unfolding load_from
  load_from_lem c id version db a found h = ground (arith, load_events_lem c version a.events h)

  -- Load returns the stream as it is.
  pub load_lem :
      (c : Codec Any) (id : ℕ) (db : Db Any) (a : AggregateRecord Any)
      → db id ≡ some a
      → AllStored c a.events
      → IsStream id 0 a.events
      → load c id db ≡ (ok a.events, db)
  unfolding load
  load_lem c id db a found h s =
      load_from_lem c id 1 db a found h
      ∙ ap (λ es. (ok es, db)) (from_version-IsStream id 0 1 a.events (omega arith) s)
