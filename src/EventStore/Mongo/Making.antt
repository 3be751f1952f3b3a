-- ===== src/EventStore/Mongo/Making.antt =====
-- eventstore/mongodb_v2: the constructor and Close. `Setup` has the driver's calls.
use eventhorizon.Prelude.{String, Bool, Option, List, if◌then◌else◌}
use eventhorizon.Errors.{Err, Result, ok, err, panic, message, errorf, wrap, Action}
use eventhorizon.Errors.Actions.{◌>>=◌, lift, wrapped}
use eventhorizon.EventStore.Mongo.Options.{Config, StoreOption, apply_options, default_config}

-- The calls of the constructor: Ping, CreateOne of an index of a collection by a key, FindOne and
-- InsertOne of `$all`.
pub record Setup (S : Type 0) : Type 0 where
  pub ping : Action S (Unit {0})
  pub create_index : String → String → Action S (Unit {0})
  pub find_all_stream : String → Action S (Unit {0})
  pub is_no_documents : Err → Bool
  pub insert_all_stream : String → Action S (Unit {0})

module _ {S : Type 0} (d : Setup S) where
  -- Make sure the $all stream exists.
  all_stream : String → Result (Unit {0}) × S → Result (Unit {0}) × S
  all_stream streams (ok _, s) = (ok tt, s)
  all_stream streams (err x, s) =
      if d.is_no_documents x
      then wrapped (errorf "could not create the $all stream document")
          (d.insert_all_stream streams) s
      else (err (wrap (errorf "could not find the $all stream document") x), s)
  all_stream streams (panic, s) = (panic, s)

  set_up : {H : Type 0} → Config H → Action S (Unit {0})
  unfolding all_stream
  set_up c = wrapped (errorf "could not connect to MongoDB") d.ping >>= λ _.
      (wrapped (errorf "could not ensure events index") (d.create_index c.events "aggregate_id")
        >>= λ _.
            (wrapped (errorf "could not ensure events index") (d.create_index c.events "version")
              >>= λ _.
                  (wrapped (errorf "could not ensure snapshot aggregate_id index")
                      (d.create_index c.snapshots "aggregate_id")
                    >>= λ _.
                        (wrapped (errorf "could not ensure snapshot version index")
                            (d.create_index c.snapshots "version")
                          >>= λ _. λ s. all_stream c.streams (d.find_all_stream c.streams s)))))

  -- newEventStoreWithClient; a nil client is false.
  unfoldable pub new_event_store_with_client :
      {H : Type 0} → Bool → List (Option (StoreOption H)) → Action S (Config H)
  unfolding set_up apply_options default_config
  new_event_store_with_client client options =
      if client
      then (lift (apply_options options default_config) >>= λ c. (set_up c >>= λ _. lift (ok c)))
      else lift (err (message "missing DB client"))

  -- Close; a client that the store was given stays open.
  unfoldable pub close : Bool → Action S (Unit {0}) → Action S (Unit {0})
  close external disconnect s = if external then (ok tt, s) else disconnect s
