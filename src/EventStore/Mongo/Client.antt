-- ===== src/EventStore/Mongo/Client.antt =====
-- The MongoDB driver as the event store calls it, a parameter: `Driver` has the calls and
-- `DriverLaws` what MongoDB documents of them. A state `S` is all that the calls reach.
use eventhorizon.Prelude.{
  ℕ, ◌+◌, String, ℕ_discrete, ◌≡◌, ◌≢◌, ◌<◌, Bool, true, ◌&&◌, Option, none, some, List, [], ◌∷◌,
  ◌++◌, map, ◌==◌, leb, if◌then◌else◌,
}
use eventhorizon.Prelude.Maps
use eventhorizon.Prelude.Maps.{Map}
use eventhorizon.Errors.{Err, Result, ok, Action}

-- evt. An absent RawData is the empty slice; the decoded `data` is a local value of the code.
pub record Evt (Any : Type 0) : Type 0 where
  pub position : ℕ
  pub event_type : String
  pub timestamp : ℕ
  pub aggregate_type : String
  pub aggregate_id : ℕ
  pub version : ℕ
  pub raw_data : List ℕ
  pub metadata : Option (Map String Any)

-- stream
pub record Stream : Type 0 where
  pub id : ℕ
  pub position : ℕ
  pub aggregate_type : String
  pub version : ℕ
  pub updated_at : ℕ

-- The filter and the options of Find.
pub record Query : Type 0 where
  pub aggregate_id : ℕ
  pub from_version : Option ℕ
  pub sorted : Bool

-- The types that an inserted ID has.
pub data InsertedId : Type 0 where
  int32 int64 : ℕ → InsertedId
  other : InsertedId

pub record Driver (Any S : Type 0) : Type 0 where
  pub start_session : Action S (Unit {0})
  pub with_transaction : Action S (Unit {0}) → Action S (Unit {0})
  -- FindOneAndUpdate of `$all` with $inc of the position, then Decode: the position before.
  pub increment_position : ℕ → Action S (Result ℕ)
  pub insert_events : List (Evt Any) → Action S (List InsertedId)
  pub insert_stream : Stream → Action S (Unit {0})
  pub is_duplicate_key_error : Err → Bool
  -- UpdateOne of the stream with the ID of the given one and with the given version: $set of position
  -- and time, $inc of the version. The result is MatchedCount.
  pub update_stream : Stream → ℕ → ℕ → Action S ℕ
  -- Find, and for each document that the cursor goes through what Decode makes of it.
  pub find_events : Query → Action S (List (Result (Evt Any)))

-- What the two collections hold, the events in the order of insertion.
pub record Collections (Any : Type 0) : Type 0 where
  pub position : ℕ
  pub streams : Map ℕ Stream
  pub events : List (Evt Any)

-- The update of a stream document.
unfoldable pub advance : Stream → ℕ → Stream → Stream
advance strm count old = record old {
  position = strm.position;
  version = old.version + count;
  updated_at = strm.updated_at;
}

selected : Query → ℕ → ℕ → Bool
selected q id version = elim q.from_version [
  | none ↦ id == q.aggregate_id
  | some from ↦ (id == q.aggregate_id) && leb from version
]

module _ {Any : Type 0} where
  unfoldable pub select : Query → List (Evt Any) → List (Evt Any)
  unfolding selected
  select q [] = []
  select q (e ∷ es) =
      let rest = select q es in if selected q e.aggregate_id e.version then e ∷ rest else rest

  unfoldable pub put_stream : ℕ → Stream → Collections Any → Collections Any
  put_stream id strm c = record c { streams = Maps.insert ℕ_discrete id strm c.streams }

  -- Versions that rise strictly, from above `v`.
  abbrev pub Rises : ℕ → List (Evt Any) → Type 0
  Rises v [] = Unit
  Rises v (e ∷ es) = (v < e.version) × Rises e.version es

  pub record DriverLaws {S : Type 0} (d : Driver Any S) : Type 0 where
    pub view : S → Collections Any
    pub started : (s : S) → view (d.start_session s).1 ≡ view s
    -- A transaction that succeeds is one run of the function, which the driver may repeat from the
    -- same data; any other is aborted and leaves no trace.
    pub committed :
        (f : Action S (Unit {0})) (s t : S)
        → d.with_transaction f s ≡ (ok tt, t)
        → (u v : S) × (view u ≡ view s) × (f u ≡ (ok tt, v)) × (view t ≡ view v)
    pub aborted :
        (f : Action S (Unit {0})) (s : S)
        → (d.with_transaction f s).0 ≢ ok tt
        → view (d.with_transaction f s).1 ≡ view s
    pub incremented :
        (n : ℕ) (s t : S) (found : Result ℕ)
        → d.increment_position n s ≡ (ok found, t)
        → ((p : ℕ) → found ≡ ok p → p ≡ (view s).position)
          × (view t ≡ record (view s) { position = (view s).position + n })
    pub not_incremented :
        (n : ℕ) (s : S)
        → ((found : Result ℕ) → (d.increment_position n s).0 ≢ ok found)
        → view (d.increment_position n s).1 ≡ view s
    pub inserted_events :
        (es : List (Evt Any)) (s t : S) (ids : List InsertedId)
        → d.insert_events es s ≡ (ok ids, t)
        → view t ≡ record (view s) { events = (view s).events ++ es }
    pub inserted_stream :
        (strm : Stream) (s t : S)
        → d.insert_stream strm s ≡ (ok tt, t)
        → ((view s).streams strm.id ≡ none) × (view t ≡ put_stream strm.id strm (view s))
    pub updated_stream :
        (strm : Stream) (version count n : ℕ) (s t : S)
        → d.update_stream strm version count s ≡ (ok n, t)
        → n ≢ 0
        → (old : Stream) × ((view s).streams strm.id ≡ some old)
          × (old.version ≡ version)
          × (view t ≡ put_stream strm.id (advance strm count old) (view s))
    -- A sort by version has one outcome where the versions differ. Without one the order is open.
    pub found_events :
        (q : Query) (v : ℕ) (s t : S) (docs : List (Result (Evt Any)))
        → d.find_events q s ≡ (ok docs, t)
        → q.sorted ≡ true
        → Rises v (select q (view s).events)
        → docs ≡ map ok (select q (view s).events)
    pub found_state : (q : Query) (s : S) → view (d.find_events q s).1 ≡ view s
