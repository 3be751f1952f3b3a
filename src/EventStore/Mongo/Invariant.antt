-- ===== src/EventStore/Mongo/Invariant.antt =====
-- eventstore/mongodb_v2: every Save keeps the collections well-formed.
use eventhorizon.Prelude.{
  ℕ, ◌+◌, suc, ◌≡◌, refl, sym, subst, inl, inr, Option, some, none, List, [], ◌∷◌, ◌++◌, length,
  arith,
}
use eventhorizon.Errors.{Action}
use eventhorizon.Event.{Event}
use eventhorizon.EventStore.Mongo.Client.{Evt, Driver, DriverLaws, Collections, put_stream}
use eventhorizon.EventStore.Mongo.Building.{BsonCodec, at_position, at_positions}
use eventhorizon.EventStore.Mongo.Built.{build-IsNumbered, IsNumbered}
use eventhorizon.EventStore.Mongo.Saving.{in_tx, save}
use eventhorizon.EventStore.Mongo.Commit.{
  add_events, commit, commit_stream, put_next, reserve, commit_next,
}
use eventhorizon.EventStore.Mongo.Committing.{LeavesCollections}
use eventhorizon.EventStore.Mongo.Atomic.{Stored, save-Settled}
use eventhorizon.EventStore.Mongo.Streams.{IsStored, commit_next-IsStored}

module _ {Any : Type 0} where
  -- The positions are the numbers after `lo` up to `hi`, each once and in order.
  abbrev pub Consecutive : ℕ → List (Evt Any) → ℕ → Type 0
  Consecutive lo [] hi = lo ≡ hi
  Consecutive lo (e ∷ es) hi = (e.position ≡ suc lo) × Consecutive (suc lo) es hi

  abbrev pub IsGapless : Collections Any → Type 0
  IsGapless cs = Consecutive 0 cs.events cs.position

  Consecutive-append :
      (a b k : ℕ) (es fs : List (Evt Any))
      → Consecutive a es b
      → Consecutive b fs k
      → Consecutive a (es ++ fs) k
  Consecutive-append a b k [] fs h g = subst (λ n. Consecutive n fs k) (sym h) g
  Consecutive-append a b k (e ∷ es) fs h g = (h.0, Consecutive-append (suc a) b k es fs h.1 g)

  at_positions-Consecutive :
      (c : BsonCodec Any) (p : ℕ) (es : List (Evt Any))
      → Consecutive p (at_positions c p es) (p + length es)
  unfolding at_positions at_position
  at_positions-Consecutive c p [] = omega arith
  at_positions-Consecutive c p (e ∷ es) = (
    refl,
    subst (Consecutive (suc p) (at_positions c (suc p) es)) (omega arith)
        (at_positions-Consecutive c (suc p) es),
  )

  put_next-events :
      (id : ℕ) (put : _) (cs ds : Collections Any)
      → put_next id put cs ≡ some ds
      → (ds.events ≡ cs.events) × (ds.position ≡ cs.position)
  unfolding put_next put_stream
  put_next-events id none cs ds h = absurd cc
  put_next-events id (some put) cs ds h = (ground arith, ground arith)

  pub commit-events :
      (dbs : List (Evt Any)) (original : ℕ) (cs ds : Collections Any)
      → commit dbs original cs ≡ some ds
      → (ds.events ≡ cs.events ++ dbs) × (ds.position ≡ cs.position)
  unfolding commit commit_stream add_events
  commit-events [] original cs ds h = absurd cc
  commit-events (e ∷ es) original cs ds h = put_next-events _ _ _ ds h

  commit_next-IsGapless :
      (c : BsonCodec Any) (dbs : List (Evt Any)) (original : ℕ) (cs ds : Collections Any)
      → IsGapless cs
      → commit_next c dbs original cs ≡ some ds
      → IsGapless ds
  unfolding commit_next reserve
  commit_next-IsGapless c dbs original cs ds h done =
      let (same_events, same_position) =
        commit-events (at_positions c cs.position dbs) original _ ds done in
      rw (same_events, same_position)
        (Consecutive-append 0 cs.position _ cs.events _ h
          (at_positions-Consecutive c cs.position dbs))

  pub Stored-IsStored :
      (c : BsonCodec Any) (es : List (Event Any)) (original : ℕ) (cs ds : Collections Any)
      → IsStored cs
      → Stored c es original cs ds
      → IsStored ds
  Stored-IsStored c [] original cs ds h done = absurd done
  Stored-IsStored c (e ∷ es) original cs ds h (dbs, built, done) =
      commit_next-IsStored c e.aggregate_id original dbs cs ds h
        (subst (λ n. IsNumbered e.aggregate_id n dbs) (omega arith)
          (build-IsNumbered c _ _ original 0 (e ∷ es) dbs built).0)
        done

module _ {Any S : Type 0} (d : Driver Any S) (l : DriverLaws d)
    (handler : Option (Event Any → Action S (Unit {0}))) (a : LeavesCollections d l handler)
    (c : BsonCodec Any) (after : Option (Event Any → Action S (Unit {0})))
    (b : LeavesCollections d l after) where
  Stored-IsGapless :
      (es : List (Event Any)) (original : ℕ) (cs ds : Collections Any)
      → IsGapless cs
      → Stored c es original cs ds
      → IsGapless ds
  Stored-IsGapless [] original cs ds h done = absurd done
  Stored-IsGapless (e ∷ es) original cs ds h (dbs, built, done) =
      commit_next-IsGapless c dbs original cs ds h done

  -- Over a driver that keeps its laws, with event handlers that leave the two collections alone: with
  -- the first strategy, and whether it succeeds or fails, Save keeps the positions of all events the
  -- numbers from 1 to the position of the all-stream, each once and in order.
  pub save-IsGapless :
      (es : List (Event Any)) (original : ℕ) (s : S)
      → IsGapless (l.view s)
      → IsGapless (l.view (save d handler c in_tx after es original s).1)
  save-IsGapless es original s h = elim (save-Settled d l handler a c in_tx after b es original s) [
    | inl stored ↦ Stored-IsGapless es original (l.view s) _ h stored
    | inr (_, same) ↦ rw (same) h
  ]
