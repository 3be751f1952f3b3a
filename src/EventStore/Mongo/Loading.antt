-- ===== src/EventStore/Mongo/Loading.antt =====
-- eventstore/mongodb_v2: Load and LoadFrom give back what was saved.
use eventhorizon.Prelude.{
  ℕ, suc, ◌≡◌, ◌<◌, refl, ap, sym, subst, ◌∙◌, inl, inr, Bool, true, false, Option, some, List, [],
  ◌∷◌, ◌++◌, map, leb, if◌then◌else◌, All, arith,
}
use eventhorizon.Errors.{Result, ok, Action}
use eventhorizon.Errors.Actions.{◌>>=◌, lift, wrapped}
use eventhorizon.Event.{Event}
use eventhorizon.EventStore.Mongo.Client.{
  Evt, Query, Driver, DriverLaws, Collections, Rises, select,
}
use eventhorizon.EventStore.Mongo.Building.{BsonCodec, at_positions}
use eventhorizon.EventStore.Mongo.Built.{IsNumbered, build-IsNumbered, at_positions-IsNumbered}
use eventhorizon.EventStore.Mongo.Saving.{GlobalPositionStrategy, save}
use eventhorizon.EventStore.Mongo.Commit.{commit_next, reserve}
use eventhorizon.EventStore.Mongo.Committing.{LeavesCollections}
use eventhorizon.EventStore.Mongo.Atomic.{Stored, save-Settled}
use eventhorizon.EventStore.Mongo.Cursor.{
  to_event, load_documents, some_loaded, load_query, load, load_from,
}
use eventhorizon.EventStore.Mongo.Streams.{IsStored, stream_of, whole_stream, stream_own}
use eventhorizon.EventStore.Mongo.Invariant.{commit-events, Stored-IsStored}
use eventhorizon.EventStore.Mongo.Records.{
  Stores, recorded_after, IsRecord, AreRecords, AreRecords-append, at_positions-AreRecords,
}

-- The query for the stream of an aggregate from a version on.
abbrev pub stream_from : ℕ → ℕ → Query
stream_from id v = record { aggregate_id = id; from_version = some v; sorted = true }

module _ {Any : Type 0} where
  IsNumbered-Rises : (id v : ℕ) (es : List (Evt Any)) → IsNumbered id v es → Rises v es
  IsNumbered-Rises id v [] h = tt
  IsNumbered-Rises id v (e ∷ es) h =
      (omega (arith, h.1), subst (λ n. Rises n es) (sym h.1) (IsNumbered-Rises id (suc v) es h.2))

  -- The documents from a version on.
  since_docs : ℕ → List (Evt Any) → List (Evt Any)
  since_docs v [] = []
  since_docs v (d ∷ ds) = let rest = since_docs v ds in if leb v d.version then d ∷ rest else rest

  unfoldable pub since : ℕ → List (Event Any) → List (Event Any)
  since v [] = []
  since v (e ∷ es) = let rest = since v es in if leb v e.version then e ∷ rest else rest

  select-since :
      (id v : ℕ) (es : List (Evt Any))
      → select (stream_from id v) es ≡ since_docs v (select (whole_stream id) es)
  unfolding select since_docs
  select-since id v [] = refl
  select-since id v (e ∷ es) = ground (arith, select-since id v es)

  Rises-weaken : (u v : ℕ) (es : List (Evt Any)) → u < suc v → Rises v es → Rises u es
  Rises-weaken u v [] h r = tt
  Rises-weaken u v (e ∷ es) h r = (omega (arith, r.0), r.1)

  since-Rises : (u v : ℕ) (es : List (Evt Any)) → Rises u es → Rises u (since_docs v es)
  unfolding since_docs
  since-Rises u v [] h = tt
  since-Rises u v (e ∷ es) h = ground (
    arith,
    since-Rises e.version v es h.1,
    Rises-weaken u e.version (since_docs v es) (omega (arith, h.0)),
  )

module _ {Any : Type 0} (c : BsonCodec Any) where
  load_documents_lem :
      (id : ℕ) (ds : List (Evt Any)) (es : List (Event Any))
      → AreRecords c ds es
      → load_documents c id (map ok ds) ≡ ok es
  unfolding load_documents
  load_documents_lem id [] [] h = refl
  load_documents_lem id [] (e ∷ es) h = absurd h
  load_documents_lem id (d ∷ ds) [] h = absurd h
  load_documents_lem id (d ∷ ds) (e ∷ es) h = ground (arith, h.0, load_documents_lem id ds es h.1)

  AreRecords-if :
      (b : Bool) (d : Evt Any) (ds : List (Evt Any)) (e : Event Any) (es : List (Event Any))
      → IsRecord c d e
      → AreRecords c ds es
      → AreRecords c (if b then d ∷ ds else ds) (if b then e ∷ es else es)
  AreRecords-if true d ds e es h g = (h, g)
  AreRecords-if false d ds e es h g = g

  since-AreRecords :
      (v : ℕ) (ds : List (Evt Any)) (es : List (Event Any))
      → AreRecords c ds es
      → AreRecords c (since_docs v ds) (since v es)
  unfolding since_docs since to_event
  since-AreRecords v [] [] h = tt
  since-AreRecords v [] (e ∷ es) h = absurd h
  since-AreRecords v (d ∷ ds) [] h = absurd h
  since-AreRecords v (d ∷ ds) (e ∷ es) h =
      let same : d.version ≡ e.version = ap (λ x. x.version) h.0.1 in
      subst
        (λ n.
          AreRecords c (if leb v n then d ∷ since_docs v ds else since_docs v ds)
            (since v (e ∷ es)))
        (sym same)
        (AreRecords-if (leb v e.version) d (since_docs v ds) e (since v es) h.0
          (since-AreRecords v ds es h.1))

  -- An aggregate whose documents are read as these events.
  abbrev pub Holds : Collections Any → ℕ → List (Event Any) → Type 0
  Holds cs id es = IsStored cs × AreRecords c (stream_of id cs) es

  module _ {S : Type 0} (d : Driver Any S) (l : DriverLaws d) where
    load_query_lem :
        (q : Query) (es : List (Event Any)) (s t : S) (docs : List (Result (Evt Any)))
        → docs ≡ map ok (select q (l.view s).events)
        → AreRecords c (select q (l.view s).events) es
        → d.find_events q s ≡ (ok docs, t)
        → load_query c d q s ≡ (some_loaded q.aggregate_id es, t)
    unfolding load_query wrapped lift ◌>>=◌
    load_query_lem q es s t docs same h found =
        rw (found, same, load_documents_lem q.aggregate_id (select q (l.view s).events) es h) refl

    pub load_lem :
        (id : ℕ) (es : List (Event Any)) (s t : S) (docs : List (Result (Evt Any)))
        → Holds (l.view s) id es
        → d.find_events (whole_stream id) s ≡ (ok docs, t)
        → load c d true id s ≡ (some_loaded id es, t)
    unfolding load
    load_lem id es s t docs (h, records) found =
        load_query_lem (whole_stream id) es s t docs
          (l.found_events (whole_stream id) 0 s t docs found refl
            (IsNumbered-Rises id 0 (stream_of id (l.view s)) (h.numbered id)))
          records found

    pub load_from_lem :
        (id v : ℕ) (es : List (Event Any)) (s t : S) (docs : List (Result (Evt Any)))
        → Holds (l.view s) id es
        → d.find_events (stream_from id v) s ≡ (ok docs, t)
        → load_from c d true id v s ≡ (some_loaded id (since v es), t)
    unfolding load_from
    load_from_lem id v es s t docs (h, records) found =
        load_query_lem (stream_from id v) (since v es) s t docs
          (l.found_events (stream_from id v) 0 s t docs found refl (
            subst (Rises 0) (sym (select-since id v (l.view s).events)) (
              since-Rises 0 v _ (IsNumbered-Rises id 0 (stream_of id (l.view s)) (h.numbered id)))))
          (subst (λ ds. AreRecords c ds (since v es)) (sym (select-since id v (l.view s).events))
            (since-AreRecords v _ es records))
          found

  Stored-Holds :
      (b : Event Any) (bs : List (Event Any)) (original : ℕ) (cs ds : Collections Any)
      (es : List (Event Any))
      → Holds cs b.aggregate_id es
      → All (Stores c) (b ∷ bs)
      → Stored c (b ∷ bs) original cs ds
      → Holds ds b.aggregate_id (es ++ recorded_after c cs.position (b ∷ bs))
  unfolding commit_next reserve
  Stored-Holds b bs original cs ds es (h, records) stores (dbs, built, done) =
      let id = b.aggregate_id in
      let n : IsNumbered id original dbs =
        subst (λ v. IsNumbered id v dbs) (omega arith)
          (build-IsNumbered c _ _ original 0 (b ∷ bs) dbs built).0 in
      let positioned = at_positions-IsNumbered c cs.position id original dbs n in
      let (same_events, _) = commit-events (at_positions c cs.position dbs) original _ ds done in
      (
        Stored-IsStored c (b ∷ bs) original cs ds h (dbs, built, done),
        rw
            (
              same_events,
              stream_own id original cs.events (at_positions c cs.position dbs) positioned,
            )
            (AreRecords-append c (stream_of id cs) _ es _ records (
              at_positions-AreRecords c id b.aggregate_type original 0 cs.position (b ∷ bs) dbs
                stores built)),
      )

  some_loaded_lem :
      (id : ℕ) (es : List (Event Any)) (f : Event Any) (fs : List (Event Any))
      → some_loaded id (es ++ f ∷ fs) ≡ ok (es ++ f ∷ fs)
  unfolding some_loaded
  some_loaded_lem id [] f fs = refl
  some_loaded_lem id (e ∷ es) f fs = refl

  module _ {S : Type 0} (d : Driver Any S) (l : DriverLaws d)
      (handler : Option (Event Any → Action S (Unit {0}))) (a : LeavesCollections d l handler)
      (after : Option (Event Any → Action S (Unit {0}))) (k : LeavesCollections d l after) where
    -- A Save that succeeds, with either strategy, appends its events, each with its position.
    pub save-Holds :
        (strategy : GlobalPositionStrategy) (b : Event Any) (bs : List (Event Any)) (original : ℕ)
        (es : List (Event Any)) (s t : S)
        → Holds (l.view s) b.aggregate_id es
        → All (Stores c) (b ∷ bs)
        → save d handler c strategy after (b ∷ bs) original s ≡ (ok tt, t)
        → Holds (l.view t) b.aggregate_id (es ++ recorded_after c (l.view s).position (b ∷ bs))
    save-Holds strategy b bs original es s t holds stores done =
        elim (save-Settled d l handler a c strategy after k (b ∷ bs) original s) [
          | inl stored ↦
              Stored-Holds b bs original (l.view s) (l.view t) es holds stores
                (subst (λ p. Stored c (b ∷ bs) original (l.view s) (l.view p.1)) done stored)
          | inr (failed, _) ↦ absurd (failed (ap (λ p. p.0) done))
        ]

    -- Over a driver that keeps its laws, with event handlers that leave the two collections alone,
    -- from collections that are in order: after a Save that succeeds, of events that the codec stores and reads back, a sorted Load whose
    -- query succeeds returns the events that were there, then those saved, with their positions.
    pub load-save_recorded :
        (strategy : GlobalPositionStrategy) (b : Event Any) (bs : List (Event Any)) (original : ℕ)
        (es : List (Event Any)) (s t u : S) (docs : List (Result (Evt Any)))
        → Holds (l.view s) b.aggregate_id es
        → All (Stores c) (b ∷ bs)
        → save d handler c strategy after (b ∷ bs) original s ≡ (ok tt, t)
        → d.find_events (whole_stream b.aggregate_id) t ≡ (ok docs, u)
        → load c d true b.aggregate_id t
          ≡ (ok (es ++ recorded_after c (l.view s).position (b ∷ bs)), u)
    unfolding recorded_after
    load-save_recorded strategy b bs original es s t u docs holds stores done found =
        load_lem d l b.aggregate_id (es ++ recorded_after c (l.view s).position (b ∷ bs)) t u docs
          (save-Holds strategy b bs original es s t holds stores done) found
        ∙ ap (λ r. (r, u)) (some_loaded_lem b.aggregate_id es _ _)
