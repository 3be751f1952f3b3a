-- ===== src/EventStore/MongoV1/Saving.antt =====
-- eventstore/mongodb/eventstore.go: Save.
use eventhorizon.Prelude.{ℕ, String, ℕ_discrete, Option, none, some, List, [], ◌∷◌, length, ite}
use eventhorizon.Errors.{
  err, Action, Operation, sentinel, wrap, errorf, event_store_error, missing_events,
}
use eventhorizon.Errors.Actions.{◌>>=◌, lift, wrapped}
use eventhorizon.Event.{Event}
use eventhorizon.EventStore.Mongo.Building.{BsonCodec}
use eventhorizon.EventStore.Mongo.Saving.{matched, handled_in_tx, handled_after_save}
use eventhorizon.EventStore.MongoV1.{Evt, Driver, build}

module _ {Any S : Type 0} (d : Driver Any S) where
  -- saveEvents: insert a new aggregate or append to an existing one.
  unfoldable pub save_events : ℕ → List (Evt Any) → ℕ → Action S (Unit {0})
  unfolding matched
  save_events id dbs original =
      ite (ℕ_discrete original 0)
        (wrapped (errorf "could not insert events (new)")
          (d.insert_one (record { aggregate_id = id; version = length dbs; events = dbs })))
        (wrapped (errorf "could not insert events (update)")
            (d.update_one id original dbs (length dbs))
          >>= matched)

  -- In a transaction if there is a handler to run in it.
  unfoldable pub save_by :
      Option (Event Any → Action S (Unit {0}))
      → ℕ
      → String
      → List (Event Any)
      → List (Evt Any)
      → ℕ
      → Action S (Unit {0})
  unfolding save_events handled_in_tx
  save_by none id at es dbs original =
      wrapped (event_store_error Operation.save at id original) (save_events id dbs original)
  save_by (some handle) id at es dbs original =
      let w = event_store_error Operation.save at id original in
      wrapped w (wrapped (errorf "could not start transaction") d.start_session) >>= λ _.
      wrapped w
        (d.with_transaction (save_events id dbs original >>= λ _. handled_in_tx (some handle) es))

  unfoldable pub save :
      BsonCodec Any
      → Option (Event Any → Action S (Unit {0}))
      → Option (Event Any → Action S (Unit {0}))
      → List (Event Any)
      → ℕ
      → Action S (Unit {0})
  unfolding build save_by handled_after_save
  save c handler_in_tx after [] original =
      lift (err (wrap (event_store_error Operation.save "" 0 0) (sentinel missing_events)))
  save c handler_in_tx after (e ∷ es) original =
      lift (build c e.aggregate_id e.aggregate_type original 0 (e ∷ es)) >>= λ dbs.
      (save_by handler_in_tx e.aggregate_id e.aggregate_type (e ∷ es) dbs original >>= λ _.
      handled_after_save after (e ∷ es))
