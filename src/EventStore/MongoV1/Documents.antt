-- ===== src/EventStore/MongoV1/Documents.antt =====
-- eventstore/mongodb/eventstore.go: what is relied on of the driver, and the documents that Save makes.
use eventhorizon.Prelude.{
  ℕ, ◌+◌, suc, String, ℕ_discrete, ◌≡◌, ◌≢◌, ◌∙◌, subst, none, some, List, [], ◌∷◌, ◌++◌, length,
  arith,
}
use eventhorizon.Prelude.Maps
use eventhorizon.Prelude.Maps.{Map}
use eventhorizon.Errors.{ok, Action}
use eventhorizon.Event.{Event}
use eventhorizon.EventStore.Mongo.Building.{BsonCodec}
use eventhorizon.EventStore.MongoV1.{Evt, AggregateRecord, Driver, new_evt, build}

module _ {Any : Type 0} where
  unfoldable pub pushed : List (Evt Any) → ℕ → AggregateRecord Any → AggregateRecord Any
  pushed dbs count r = record r { version = r.version + count; events = r.events ++ dbs }

  pub record DriverLaws {S : Type 0} (d : Driver Any S) : Type 0 where
    pub view : S → Map ℕ (AggregateRecord Any)
    pub started : (s : S) → view (d.start_session s).1 ≡ view s
    -- A transaction that succeeds is one run of the function; any other leaves no trace.
    pub committed :
        (f : Action S (Unit {0})) (s t : S)
        → d.with_transaction f s ≡ (ok tt, t)
        → (u v : S) × (view u ≡ view s) × (f u ≡ (ok tt, v)) × (view t ≡ view v)
    pub aborted :
        (f : Action S (Unit {0})) (s : S)
        → (d.with_transaction f s).0 ≢ ok tt
        → view (d.with_transaction f s).1 ≡ view s
    pub inserted :
        (r : AggregateRecord Any) (s : S)
        → (d.insert_one r s).0 ≡ ok tt
        → (view s r.aggregate_id ≡ none)
          × (view (d.insert_one r s).1 ≡ Maps.insert ℕ_discrete r.aggregate_id r (view s))
    pub not_inserted :
        (r : AggregateRecord Any) (s : S)
        → (d.insert_one r s).0 ≢ ok tt
        → view (d.insert_one r s).1 ≡ view s
    pub updated :
        (id version count n : ℕ) (dbs : List (Evt Any)) (s : S)
        → (d.update_one id version dbs count s).0 ≡ ok n
        → n ≢ 0
        → (old : AggregateRecord Any) × (view s id ≡ some old)
          × (old.version ≡ version)
          × (view (d.update_one id version dbs count s).1
              ≡ Maps.insert ℕ_discrete id (pushed dbs count old) (view s))
    pub not_updated :
        (id version count : ℕ) (dbs : List (Evt Any)) (s : S)
        → ((n : ℕ) → n ≢ 0 → (d.update_one id version dbs count s).0 ≢ ok n)
        → view (d.update_one id version dbs count s).1 ≡ view s

  -- Events of one aggregate, next in line after the version `v`.
  abbrev pub IsNumbered : ℕ → ℕ → List (Evt Any) → Type 0
  IsNumbered id v [] = Unit
  IsNumbered id v (e ∷ es) = (e.aggregate_id ≡ id) × (e.version ≡ suc v) × IsNumbered id (suc v) es

  pub IsNumbered-append :
      (id v n : ℕ) (es fs : List (Evt Any))
      → v + length es ≡ n
      → IsNumbered id v es
      → IsNumbered id n fs
      → IsNumbered id v (es ++ fs)
  IsNumbered-append id v n [] fs e h k =
      let same : n ≡ v = omega arith in subst (λ m. IsNumbered id m fs) same k
  IsNumbered-append id v n (x ∷ es) fs e h k =
      (h.0, h.1, IsNumbered-append id (suc v) n es fs (omega (arith, e)) h.2 k)

  -- The document of an aggregate: its own events, numbered from one, with their number as version.
  abbrev pub IsStream : ℕ → AggregateRecord Any → Type 0
  IsStream id r = (r.aggregate_id ≡ id) × IsNumbered id 0 r.events × (length r.events ≡ r.version)

  abbrev pub IsWellFormed : Map ℕ (AggregateRecord Any) → Type 0
  IsWellFormed m = (id : ℕ) (r : AggregateRecord Any) → m id ≡ some r → IsStream id r

  pub insert-IsWellFormed :
      (id : ℕ) (r : AggregateRecord Any) (m : Map ℕ (AggregateRecord Any))
      → IsWellFormed m
      → IsStream id r
      → IsWellFormed (Maps.insert ℕ_discrete id r m)
  insert-IsWellFormed id r m h own j q there = elim (ℕ_discrete id j) [
    | yes same ↦
        let is_r : r ≡ q = ground arith in
        subst (λ k. IsStream k q) same (subst (IsStream id) is_r own)
    | no other ↦ h j q (ground arith)
  ]

  module _ (c : BsonCodec Any) where
    new_evt_lem :
        (e : Event Any) (db : Evt Any)
        → new_evt c e ≡ ok db
        → (db.aggregate_id ≡ e.aggregate_id) × (db.version ≡ e.version)
    unfolding new_evt
    new_evt_lem e db h = ground arith

    build-cons :
        (id : ℕ) (at : String) (original i : ℕ) (e : Event Any) (es : List (Event Any))
        (dbs : List (Evt Any))
        → build c id at original i (e ∷ es) ≡ ok dbs
        → (made : Evt Any) × (rest : List (Evt Any)) × (new_evt c e ≡ ok made)
          × (build c id at original (i + 1) es ≡ ok rest)
          × (e.aggregate_id ≡ id)
          × (e.version ≡ original + i + 1)
          × (dbs ≡ made ∷ rest)
    unfolding build
    build-cons id at original i e es dbs h = ground arith

    pub build-IsNumbered :
        (id : ℕ) (at : String) (original i : ℕ) (es : List (Event Any)) (dbs : List (Evt Any))
        → build c id at original i es ≡ ok dbs
        → IsNumbered id (original + i) dbs
    unfolding build
    build-IsNumbered id at original i [] dbs h =
        let none_made : [] ≡ dbs = cc in rw (← none_made) tt
    build-IsNumbered id at original i (e ∷ es) dbs h =
        let later = build-IsNumbered id at original (i + 1) es in
        let (made, rest, made_ok, rest_ok, own, next, whole) =
          build-cons id at original i e es dbs h in
        let (same_id, same_version) = new_evt_lem e made made_ok in
        let shift : original + (i + 1) ≡ suc (original + i) = omega arith in
        rw (whole) (
          same_id ∙ own,
          same_version ∙ next ∙ omega arith,
          subst (λ v. IsNumbered id v rest) shift (later rest rest_ok),
        )
