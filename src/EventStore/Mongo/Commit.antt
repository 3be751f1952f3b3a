-- ===== src/EventStore/Mongo/Commit.antt =====
-- eventstore/mongodb_v2: what a Save means, as a function on what the collections hold: `none` if the
-- stream is not at the original version.
use eventhorizon.Prelude.{
  ℕ, ◌+◌, ◌≡◌, ◌≢◌, ap, Option, none, some, List, [], ◌∷◌, ◌++◌, ite, length, ℕ_discrete, arith,
}
use eventhorizon.EventStore.Mongo.Client.{Evt, Stream, Collections, put_stream, advance}
use eventhorizon.EventStore.Mongo.Building.{BsonCodec, at_positions}
use eventhorizon.EventStore.Mongo.Saving.{last_stream}

-- The document that a stream gets, from the one that it has.
unfoldable pub next_stream : Stream → ℕ → ℕ → Option Stream → Option Stream
next_stream strm original count none = ite (ℕ_discrete original 0) (some strm) none
next_stream strm original count (some old) =
    ite (ℕ_discrete original 0) none
      (ite (ℕ_discrete old.version original) (some (advance strm count old)) none)

module _ {Any : Type 0} where
  unfoldable pub put_next : ℕ → Option Stream → Collections Any → Option (Collections Any)
  put_next id none c = none
  put_next id (some strm) c = some (put_stream id strm c)

  unfoldable pub commit_stream : Stream → ℕ → ℕ → Collections Any → Option (Collections Any)
  unfolding next_stream put_next
  commit_stream strm original count c =
      put_next strm.id (next_stream strm original count (c.streams strm.id)) c

  pub commit_stream-some :
      (strm : Stream) (original count : ℕ) (c : Collections Any) (old : Stream)
      → c.streams strm.id ≡ some old
      → old.version ≡ original
      → original ≢ 0
      → commit_stream strm original count c ≡ some (put_stream strm.id (advance strm count old) c)
  unfolding commit_stream
  commit_stream-some strm original count c old there same_version z = ground arith

  unfoldable pub add_events : List (Evt Any) → Collections Any → Collections Any
  add_events es c = record c { events = c.events ++ es }

  put_next-add_events :
      (id : ℕ) (strm : Option Stream) (es : List (Evt Any)) (c d : Collections Any)
      → put_next id strm c ≡ some d
      → put_next id strm (add_events es c) ≡ some (add_events es d)
  unfolding put_next add_events put_stream
  put_next-add_events id none es c d h = absurd cc
  put_next-add_events id (some strm) es c d h =
      ap (λ o. elim o [ none ↦ none | some x ↦ some (add_events es x) ]) h

  pub commit_stream-add_events :
      (strm : Stream) (original count : ℕ) (es : List (Evt Any)) (c d : Collections Any)
      → commit_stream strm original count c ≡ some d
      → commit_stream strm original count (add_events es c) ≡ some (add_events es d)
  unfolding commit_stream add_events
  commit_stream-add_events strm original count es c d h =
      put_next-add_events strm.id (next_stream strm original count (c.streams strm.id)) es c d h

  -- The documents are stored, unless the stream is not at the original version.
  unfoldable pub commit : List (Evt Any) → ℕ → Collections Any → Option (Collections Any)
  unfolding commit_stream add_events
  commit [] original c = none
  commit (e ∷ es) original c =
      commit_stream (last_stream e es) original (length (e ∷ es)) (add_events (e ∷ es) c)

  unfoldable pub reserve : ℕ → Collections Any → Collections Any
  reserve n c = record c { position = c.position + n }

  -- The documents get the positions after the global one, which moves past them.
  unfoldable pub commit_next :
      BsonCodec Any → List (Evt Any) → ℕ → Collections Any → Option (Collections Any)
  unfolding commit reserve at_positions
  commit_next c dbs original cs =
      commit (at_positions c cs.position dbs) original (reserve (length dbs) cs)
