-- ===== src/EventStore/Mongo/Streams.antt =====
-- eventstore/mongodb_v2: what holds of the collections between two calls of Save.
use eventhorizon.Prelude.{
  ℕ, ◌+◌, suc, ℕ_discrete, ◌≡◌, ◌≢◌, refl, subst, Option, none, some, true, List, [], ◌∷◌, ◌++◌,
  length, length-append, length-ne-zero, append-nil, arith,
}
use eventhorizon.Prelude.Maps
use eventhorizon.EventStore.Mongo.Client.{
  Evt, Stream, Query, Collections, select, put_stream, advance,
}
use eventhorizon.EventStore.Mongo.Building.{BsonCodec, at_positions}
use eventhorizon.EventStore.Mongo.Built.{
  IsNumbered, Ascends, Ascends-append, Ascends-weaken, at_positions-Ascends,
  at_positions-IsNumbered,
}
use eventhorizon.EventStore.Mongo.Saving.{last_stream}
use eventhorizon.EventStore.Mongo.Commit.{
  commit_stream, add_events, commit, reserve, commit_next, next_stream, put_next,
}

-- The query for the whole stream of an aggregate.
abbrev pub whole_stream : ℕ → Query
whole_stream id = record { aggregate_id = id; from_version = none; sorted = true }

abbrev pub stream_version : Option Stream → ℕ
stream_version none = 0
stream_version (some strm) = strm.version

module _ {Any : Type 0} where
  abbrev pub stream_of : ℕ → Collections Any → List (Evt Any)
  stream_of id cs = select (whole_stream id) cs.events

  -- The positions rise strictly up to the global one. The documents of each aggregate are numbered
  -- from 1, and its stream document has the number of the last; there is none before the first.
  pub record IsStored (cs : Collections Any) : Type 0 where
    pub ascends : Ascends 0 cs.events cs.position
    pub numbered : (id : ℕ) → IsNumbered id 0 (stream_of id cs)
    pub counted : (id : ℕ) → length (stream_of id cs) ≡ stream_version (cs.streams id)
    pub present : (id : ℕ) (strm : Stream) → cs.streams id ≡ some strm → strm.version ≢ 0

  pub reserve-IsStored : (n : ℕ) (cs : Collections Any) → IsStored cs → IsStored (reserve n cs)
  unfolding reserve
  reserve-IsStored n cs h = record {
    ascends = Ascends-weaken 0 cs.position (cs.position + n) cs.events h.ascends (omega arith);
    numbered = h.numbered;
    counted = h.counted;
    present = h.present;
  }

  select-append :
      (q : Query) (es fs : List (Evt Any)) → select q (es ++ fs) ≡ select q es ++ select q fs
  unfolding select
  select-append q [] fs = refl
  select-append q (e ∷ es) fs = ground (arith, select-append q es fs)

  select-own :
      (id v : ℕ) (es : List (Evt Any)) → IsNumbered id v es → select (whole_stream id) es ≡ es
  unfolding select
  select-own id v [] h = refl
  select-own id v (e ∷ es) h = ground (arith, select-own id (suc v) es h.2)

  select-foreign :
      (id j v : ℕ) (es : List (Evt Any))
      → id ≢ j
      → IsNumbered id v es
      → select (whole_stream j) es ≡ []
  unfolding select
  select-foreign id j v [] ne h = refl
  select-foreign id j v (e ∷ es) ne h = ground (arith, select-foreign id j (suc v) es ne h.2)

  IsNumbered-append :
      (id v : ℕ) (es fs : List (Evt Any))
      → IsNumbered id v es
      → IsNumbered id (v + length es) fs
      → IsNumbered id v (es ++ fs)
  IsNumbered-append id v [] fs h g = subst (λ n. IsNumbered id n fs) (omega arith) g
  IsNumbered-append id v (e ∷ es) fs h g = (
    h.0,
    h.1,
    IsNumbered-append id (suc v) es fs h.2 (subst (λ n. IsNumbered id n fs) (omega arith) g),
  )

  -- The stream record of the last document of a batch.
  last_stream_lem :
      (id v : ℕ) (e : Evt Any) (es : List (Evt Any))
      → IsNumbered id v (e ∷ es)
      → ((last_stream e es).id ≡ id) × ((last_stream e es).version ≡ v + length (e ∷ es))
  unfolding last_stream
  last_stream_lem id v e [] h = (h.0, omega (arith, h.1))
  last_stream_lem id v e (f ∷ es) h =
      let (own, last) = last_stream_lem id (suc v) f es h.2 in (own, omega (arith, last))

  next_stream-cases :
      (strm : Stream) (original count : ℕ) (found : Option Stream) (cs ds : Collections Any)
      → put_next strm.id (next_stream strm original count found) cs ≡ some ds
      → strm.version ≡ original + count
      → (put : Stream) × (ds ≡ put_stream strm.id put cs)
        × (stream_version found ≡ original)
        × (put.version ≡ original + count)
  unfolding next_stream put_next advance
  next_stream-cases strm original count none cs ds h v = elim (ℕ_discrete original 0) [
    | yes z ↦ (strm, ground arith, ground arith, v)
    | no z ↦ absurd (ground arith)
  ]
  next_stream-cases strm original count (some old) cs ds h v = elim (ℕ_discrete original 0) [
    | yes z ↦ absurd (ground arith)
    | no z ↦ elim (ℕ_discrete old.version original) [
      | yes w ↦ (advance strm count old, ground arith, w, omega (arith, w))
      | no w ↦ absurd (ground arith)
    ]
  ]

  pub stream_own :
      (id v : ℕ) (es dbs : List (Evt Any))
      → IsNumbered id v dbs
      → select (whole_stream id) (es ++ dbs) ≡ select (whole_stream id) es ++ dbs
  stream_own id v es dbs n = rw (select-append (whole_stream id) es dbs, select-own id v dbs n) refl

  stream_foreign :
      (id j v : ℕ) (es dbs : List (Evt Any))
      → id ≢ j
      → IsNumbered id v dbs
      → select (whole_stream j) (es ++ dbs) ≡ select (whole_stream j) es
  stream_foreign id j v es dbs ne n =
      rw (select-append (whole_stream j) es dbs, select-foreign id j v dbs ne n, append-nil) refl

  -- A batch in line for the stream of `id`, with positions after those that are there.
  batch-IsStored :
      (id p : ℕ) (put : Stream) (dbs : List (Evt Any)) (cs : Collections Any)
      → IsStored cs
      → dbs ≢ []
      → IsNumbered id (stream_version (cs.streams id)) dbs
      → put.version ≡ stream_version (cs.streams id) + length dbs
      → Ascends cs.position dbs p
      → IsStored (put_stream id put (add_events dbs (record cs { position = p })))
  unfolding put_stream add_events
  batch-IsStored id p put dbs cs h some_dbs n v up = record {
    ascends = Ascends-append 0 cs.position p cs.events dbs h.ascends up;
    numbered = λ j. elim (ℕ_discrete id j) [
      | yes e ↦
          subst (λ i. IsNumbered i 0 (select (whole_stream i) (cs.events ++ dbs))) e
            (rw (stream_own id _ cs.events dbs n) (
              IsNumbered-append id 0 (stream_of id cs) dbs (h.numbered id)
                (subst (λ m. IsNumbered id m dbs) (omega (arith, h.counted id)) n)))
      | no ne ↦ rw (stream_foreign id j _ cs.events dbs ne n) (h.numbered j)
    ];
    counted = λ j. elim (ℕ_discrete id j) [
      | yes e ↦
          subst
            (λ i.
              length (select (whole_stream i) (cs.events ++ dbs))
              ≡ stream_version (Maps.insert ℕ_discrete id put cs.streams i))
            e
            (rw (stream_own id _ cs.events dbs n, Maps.get-insert_self ℕ_discrete id put cs.streams)
              (omega (arith, length-append (stream_of id cs) dbs, h.counted id, v)))
      | no ne ↦
          rw
            (
              stream_foreign id j _ cs.events dbs ne n,
              Maps.get-insert_ne ℕ_discrete id j put cs.streams ne,
            )
            (h.counted j)
    ];
    present = λ j strm there. ground (arith, length-ne-zero dbs some_dbs, h.present j strm);
  }

  commit-IsStored :
      (id original : ℕ) (dbs : List (Evt Any)) (p : ℕ) (cs ds : Collections Any)
      → IsStored cs
      → IsNumbered id original dbs
      → Ascends cs.position dbs p
      → commit dbs original (record cs { position = p }) ≡ some ds
      → IsStored ds
  unfolding commit commit_stream
  commit-IsStored id original [] p cs ds h n up done = absurd cc
  commit-IsStored id original (e ∷ es) p cs ds h n up done =
      let (own, last) = last_stream_lem id original e es n in
      let strm = last_stream e es in
      let (put, whole, before, version) =
        next_stream-cases strm original (length (e ∷ es)) (cs.streams strm.id) _ ds done last in
      let before_own : stream_version (cs.streams id) ≡ original =
        subst (λ i. stream_version (cs.streams i) ≡ original) own before in
      rw (whole, own)
        (batch-IsStored id p put (e ∷ es) cs h (λ q. cc) (rw (before_own) n)
          (rw (before_own) version) up)

  module _ (c : BsonCodec Any) where
    pub commit_next-IsStored :
        (id original : ℕ) (dbs : List (Evt Any)) (cs ds : Collections Any)
        → IsStored cs
        → IsNumbered id original dbs
        → commit_next c dbs original cs ≡ some ds
        → IsStored ds
    unfolding commit_next reserve
    commit_next-IsStored id original dbs cs ds h n done =
        commit-IsStored id original (at_positions c cs.position dbs) (cs.position + length dbs) cs
          ds h (at_positions-IsNumbered c cs.position id original dbs n)
          (at_positions-Ascends c cs.position dbs) done
