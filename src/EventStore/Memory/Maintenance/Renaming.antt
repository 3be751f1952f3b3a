-- ===== src/EventStore/Memory/Maintenance/Renaming.antt =====
-- RenameEvent on a well-formed store: it renames, and it loses every event of another type.
use mathlib.Core.List.{Memᴰ}
use eventhorizon.Prelude.{
  ℕ, suc, String, String-discrete, ℕ_discrete, ◌≡◌, refl, ◌≢◌, Option, none, some, List, [], ◌∷◌,
  map, arith, ite, if_neg, Option-cases, inl, inr,
}
use eventhorizon.Prelude.Maps
use eventhorizon.Errors.{ok, panic}
use eventhorizon.Event.{Event, Codec, new_event, for_aggregate, with_metadata}
use eventhorizon.EventStore.Memory.{AggregateRecord, Db, load, load_from, load_events}
use eventhorizon.EventStore.Memory.Streams.{IsStream, Inv}
use eventhorizon.EventStore.Memory.Maintenance.{rename_events, rename_all, copy_into, rename_event}

module _ {Any : Type 0} (from to : String) where
  -- What becomes of a stored event.
  abbrev pub renamed : Option (Event Any) → Option (Event Any)
  renamed none = none
  renamed (some e) =
      ite (String-discrete e.event_type from) (some (record e { event_type = to })) none

  abbrev pub rename_record : AggregateRecord Any → AggregateRecord Any
  rename_record a = record a { events = map renamed a.events }

  rename_events_lem :
      (id v : ℕ) (es : List (Option (Event Any)))
      → IsStream id v es
      → rename_events from to es ≡ ok (map renamed es)
  unfolding rename_events new_event for_aggregate with_metadata
  rename_events_lem id v [] s = refl
  rename_events_lem id v (none ∷ es) s = absurd s
  rename_events_lem id v (some e ∷ es) s = rw (rename_events_lem id (suc v) es s.2)

  touched : List ℕ → Db Any → Db Any
  touched [] db = Maps.empty
  touched (id ∷ ids) db = elim (db id) [
    | none ↦ touched ids db
    | some a ↦ Maps.insert ℕ_discrete id (rename_record a) (touched ids db)
  ]

  rename_all_lem :
      (ids : List ℕ) (db : Db Any) → Inv db → rename_all from to ids db ≡ ok (touched ids db)
  unfolding rename_all touched
  rename_all_lem [] db v = refl
  rename_all_lem (id ∷ ids) db v = elim (Option-cases (db id)) [
    | inl gone ↦ ground (arith, rename_all_lem ids db v)
    | inr (a, found) ↦ ground (
      arith,
      rename_all_lem ids db v,
      rename_events_lem id 0 a.events (v.at_id id a found).stream,
    )
  ]

  touched_lem :
      (ids : List ℕ) (db : Db Any) (id : ℕ) (a : AggregateRecord Any)
      → Memᴰ id ids
      → db id ≡ some a
      → touched ids db id ≡ some (rename_record a)
  unfolding touched
  touched_lem [] db id a m found = elim m [ ]
  touched_lem (j ∷ ids) db id a (Memᴰ.head p) found = ground arith
  touched_lem (j ∷ ids) db id a (Memᴰ.tail m) found =
      ground (arith, touched_lem ids db id a m found)

  -- The event is renamed if it is of the type `from`, and no longer there otherwise.
  pub rename_event_lem :
      (ids : List ℕ) (db : Db Any) (id : ℕ) (a : AggregateRecord Any)
      → Inv db
      → Memᴰ id ids
      → db id ≡ some a
      → ((rename_event ids from to db).0 ≡ ok tt)
        × ((rename_event ids from to db).1 id ≡ some (rename_record a))
  unfolding rename_event copy_into
  rename_event_lem ids db id a v m found =
      rw (rename_all_lem ids db v, copy_into) (refl, rw (touched_lem ids db id a m found))

load_events_nil :
    {Any : Type 0} (c : Codec Any) (version : ℕ) (es : List (Option (Event Any)))
    → Memᴰ none es
    → load_events c version es ≡ panic
unfolding load_events
load_events_nil c version [] m = elim m [ ]
load_events_nil c version (none ∷ es) m = refl
load_events_nil c version (some e ∷ es) (Memᴰ.head p) = absurd (cc)
load_events_nil c version (some e ∷ es) (Memᴰ.tail m) =
    ground (arith, load_events_nil c version es m)

module _ {Any : Type 0} (c : Codec Any) (from to : String) where
  lost :
      (e : Event Any) (es : List (Option (Event Any)))
      → Memᴰ (some e) es
      → e.event_type ≢ from
      → Memᴰ none (map (renamed from to) es)
  lost e [] m other = elim m [ ]
  lost e (d ∷ es) (Memᴰ.head p) other = Memᴰ.head (rw (← p) (rw (if_neg _ other)))
  lost e (d ∷ es) (Memᴰ.tail m) other = Memᴰ.tail (lost e es m other)

  -- After RenameEvent has succeeded, loading an aggregate with an event of any other type panics: the
  -- event was replaced by nil.
  pub rename_event_loses :
      (ids : List ℕ) (db : Db Any) (id : ℕ) (a : AggregateRecord Any) (e : Event Any)
      → Inv db
      → Memᴰ id ids
      → db id ≡ some a
      → Memᴰ (some e) a.events
      → e.event_type ≢ from
      → ((rename_event ids from to db).0 ≡ ok tt)
        × ((load c id (rename_event ids from to db).1).0 ≡ panic)
  unfolding load
  rename_event_loses ids db id a e v m found there other =
      let (done, after) = rename_event_lem from to ids db id a v m found in
      (done, rw (after, load_from) (load_events_nil c 1 _ (lost e a.events there other)))
