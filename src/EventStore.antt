-- ===== src/EventStore.antt =====
-- eventstore.go: the event store interface, and the implementations of it under eventstore/.
pub mod Memory
pub mod Mongo
pub mod MongoV1
pub mod Recorder
use eventhorizon.Prelude.{
  ℕ, suc, ◌+◌, String, ◌≡◌, ◌⊎◌, Bool, true, Option, some, List, [], ◌∷◌, ◌++◌, map, length, All,
  arith,
}
use eventhorizon.Errors.{Action, Err, ok, err, errors_is, aggregate_not_found}
use eventhorizon.Event.{Event}

-- The methods that the aggregate store calls, over a state `S` of the store and all that it reaches.
-- An event that is nil is `none`; the events to save come from aggregates and are not nil.
pub record EventStore (Any S : Type 0) : Type 0 where
  pub save : List (Event Any) → ℕ → Action S (Unit {0})
  pub load_from : ℕ → ℕ → Action S (List (Option (Event Any)))

module _ {Any : Type 0} where
  -- What a caller has to pass to Save: events of one aggregate, next in line after the version `v`.
  abbrev pub IsBatch : ℕ → String → ℕ → List (Event Any) → Type 0
  IsBatch id at v [] = Unit
  IsBatch id at v (e ∷ es) =
      (e.aggregate_id ≡ id)
      × (e.aggregate_type ≡ at)
      × (e.version ≡ suc v)
      × IsBatch id at (suc v) es

  pub IsBatch-snoc :
      (id : ℕ) (at : String) (v : ℕ) (es : List (Event Any)) (e : Event Any)
      → IsBatch id at v es
      → e.aggregate_id ≡ id
      → e.aggregate_type ≡ at
      → e.version ≡ suc (v + length es)
      → IsBatch id at v (es ++ e ∷ [])
  IsBatch-snoc id at v [] e b own kind next = (own, kind, omega arith, tt)
  IsBatch-snoc id at v (d ∷ es) e b own kind next =
      (b.0, b.1, b.2, IsBatch-snoc id at (suc v) es e b.3 own kind (omega arith))

  -- A load of the whole stream returns these events, and changes nothing. For an aggregate with no
  -- events a store may also answer that it is not found.
  abbrev pub Loads : {S : Type 0} → EventStore Any S → S → ℕ → List (Event Any) → Type 0
  Loads st s id es =
      (st.load_from id 1 s ≡ (ok (map some es), s))
      ⊎ ((x : Err) × (es ≡ [])
          × (errors_is x aggregate_not_found ≡ true)
          × (st.load_from id 1 s ≡ (err x, s)))

-- The contract of an event store: `Holds s id es` says that the stream of `id` is `es`.
pub record EventStoreLaws {Any S : Type 0} (st : EventStore Any S) : Type 1 where
  pub Holds : S → ℕ → List (Event Any) → Type 0
  -- The events that the store gives back as they were saved.
  pub Storable : Event Any → Type 0
  pub loads : (s : S) (id : ℕ) (es : List (Event Any)) → Holds s id es → Loads st s id es
  pub appends :
      (s : S) (id : ℕ) (at : String) (es : List (Event Any)) (d : Event Any) (ds : List (Event Any))
      → Holds s id es
      → IsBatch id at (length es) (d ∷ ds)
      → All Storable (d ∷ ds)
      → (st.save (d ∷ ds) (length es) s).0 ≡ ok tt
      → Holds (st.save (d ∷ ds) (length es) s).1 id (es ++ d ∷ ds)
