-- ===== src/EventStore/Mongo/Saving.antt =====
-- eventstore/mongodb_v2: Save, with both ways to count the global position, and what it calls.
use eventhorizon.Prelude.{
  ℕ, String, ℕ_discrete, Bool, true, false, Option, none, some, List, [], ◌∷◌, ite, if◌then◌else◌,
  length,
}
use eventhorizon.Errors.{
  Operation, Result, ok, err, panic, sentinel, message, wrap, errorf, event_store_error,
  event_handler_error, missing_events, event_conflict_from_other_save, Action,
}
use eventhorizon.Errors.Actions.{◌>>=◌, lift, wrapped}
use eventhorizon.Event.{Event}
use eventhorizon.EventStore.Mongo.Client.{Evt, Stream, InsertedId, int32, int64, Driver}
use eventhorizon.EventStore.Mongo.Building.{BsonCodec, build, at_positions}

pub data GlobalPositionStrategy : Type 0 where
  in_tx outside_tx : GlobalPositionStrategy

-- The inner loop of verifyInsertedPositions.
unfoldable pub found_among : ℕ → List InsertedId → Result Bool
found_among position [] = ok false
found_among position (int32 pos ∷ ids) =
    let rest = found_among position ids in ite (ℕ_discrete position pos) (ok true) rest
found_among position (int64 pos ∷ ids) =
    let rest = found_among position ids in ite (ℕ_discrete position pos) (ok true) rest
found_among position (InsertedId.other ∷ ids) = err (message "unexpected inserted ID type")

unfoldable pub decoded_position : Result ℕ → Result ℕ
decoded_position (ok position) = ok position
decoded_position (err x) = err (wrap (errorf "could not decode global position") x)
decoded_position panic = panic

-- MatchedCount is 0 for a stream that is not at the original version.
unfoldable pub matched : {S : Type 0} → ℕ → Action S (Unit {0})
matched count =
    lift (ite (ℕ_discrete count 0) (err (sentinel event_conflict_from_other_save)) (ok tt))

module _ {Any : Type 0} where
  unfoldable pub verify_inserted_positions : List (Evt Any) → List InsertedId → Result (Unit {0})
  unfolding found_among
  verify_inserted_positions [] ids = ok tt
  verify_inserted_positions (e ∷ es) ids =
      let rest = verify_inserted_positions es ids in
      elim (found_among e.position ids) [
        | ok true ↦ rest
        | ok false ↦ err (message "inserted event not found in inserted IDs")
        | err x ↦ err x
        | panic ↦ panic
      ]

  -- The stream record of the last event.
  unfoldable pub last_stream : Evt Any → List (Evt Any) → Stream
  last_stream e [] = record {
    id = e.aggregate_id;
    position = e.position;
    aggregate_type = e.aggregate_type;
    version = e.version;
    updated_at = e.timestamp;
  }
  last_stream e (f ∷ es) = last_stream f es

  module _ {S : Type 0} where
    unfoldable pub handle_in_tx :
        (Event Any → Action S (Unit {0})) → List (Event Any) → Action S (Unit {0})
    handle_in_tx handle [] = lift (ok tt)
    handle_in_tx handle (e ∷ es) =
        wrapped (errorf "could not handle event in transaction") (handle e) >>= λ _.
        handle_in_tx handle es

    unfoldable pub handled_in_tx :
        Option (Event Any → Action S (Unit {0})) → List (Event Any) → Action S (Unit {0})
    unfolding handle_in_tx
    handled_in_tx none es = lift (ok tt)
    handled_in_tx (some handle) es = handle_in_tx handle es

    unfoldable pub handle_after_save :
        (Event Any → Action S (Unit {0})) → List (Event Any) → Action S (Unit {0})
    handle_after_save handle [] = lift (ok tt)
    handle_after_save handle (e ∷ es) =
        wrapped event_handler_error (handle e) >>= λ _. handle_after_save handle es

    unfoldable pub handled_after_save :
        Option (Event Any → Action S (Unit {0})) → List (Event Any) → Action S (Unit {0})
    unfolding handle_after_save
    handled_after_save none es = lift (ok tt)
    handled_after_save (some handle) es = handle_after_save handle es

  module _ {S : Type 0} (d : Driver Any S) where
    -- InsertOne of a new stream, or UpdateOne of the one at the original version.
    unfoldable pub stream_inserted : Result (Unit {0}) × S → Result (Unit {0}) × S
    stream_inserted (ok _, t) = (ok tt, t)
    stream_inserted (err x, t) = (
      err (
          if d.is_duplicate_key_error x
          then sentinel event_conflict_from_other_save
          else wrap (errorf "could not insert stream") x),
      t,
    )
    stream_inserted (panic, t) = (panic, t)

    unfoldable pub insert_new_stream : Stream → Action S (Unit {0})
    unfolding stream_inserted
    insert_new_stream strm s = stream_inserted (d.insert_stream strm s)

    unfoldable pub store_stream : Stream → ℕ → ℕ → Action S (Unit {0})
    unfolding insert_new_stream matched
    store_stream strm original count = ite (ℕ_discrete original 0) (insert_new_stream strm) (
        wrapped (errorf "could not update stream") (d.update_stream strm original count)
        >>= matched)

    -- updateStreamForEntity; with no events the last one is out of range.
    unfoldable pub update_stream_for_entity : List (Evt Any) → ℕ → Action S (Unit {0})
    unfolding store_stream last_stream
    update_stream_for_entity [] original s = (panic, s)
    update_stream_for_entity (e ∷ es) original s =
        store_stream (last_stream e es) original (length (e ∷ es)) s

    -- updateGlobalPosition, which is also how saveInTX starts.
    unfoldable pub update_global_position : ℕ → Action S ℕ
    unfolding decoded_position
    update_global_position event_count =
        wrapped (errorf "could not increment global position") (d.increment_position event_count)
        >>= λ found. lift (decoded_position found)

    unfoldable pub insert_verified : List (Evt Any) → Action S (Unit {0})
    unfolding verify_inserted_positions
    insert_verified dbs =
        wrapped (errorf "could not insert events") (d.insert_events dbs) >>= λ ids.
        lift (verify_inserted_positions dbs ids)

    module _ (handler_in_tx : Option (Event Any → Action S (Unit {0}))) where
      -- The function that saveOutsideTX gives to WithTransaction.
      unfoldable pub store_positioned : List (Event Any) → List (Evt Any) → ℕ → Action S (Unit {0})
      unfolding insert_verified update_stream_for_entity handled_in_tx
      store_positioned es dbs original = update_stream_for_entity dbs original >>= λ _.
          (insert_verified dbs >>= λ _. handled_in_tx handler_in_tx es)

      module _ (c : BsonCodec Any) where
        -- The function that saveInTX gives to WithTransaction.
        unfoldable pub store_in_tx : List (Event Any) → List (Evt Any) → ℕ → Action S (Unit {0})
        unfolding update_global_position at_positions insert_verified update_stream_for_entity
            handled_in_tx
        store_in_tx es dbs original = update_global_position (length dbs) >>= λ position.
            (insert_verified (at_positions c position dbs) >>= λ _.
            (update_stream_for_entity (at_positions c position dbs) original >>= λ _.
            handled_in_tx handler_in_tx es))

        unfoldable pub save_in_tx :
            ℕ → String → List (Event Any) → List (Evt Any) → ℕ → Action S (Unit {0})
        unfolding store_in_tx
        save_in_tx id at es dbs original =
            let w = event_store_error Operation.save at id original in
            wrapped w (wrapped (errorf "could not start transaction") d.start_session) >>= λ _.
            wrapped w (d.with_transaction (store_in_tx es dbs original))

        -- The rest of saveOutsideTX, after the position is known.
        unfoldable pub save_at :
            ℕ → String → List (Event Any) → List (Evt Any) → ℕ → ℕ → Action S (Unit {0})
        unfolding store_positioned at_positions
        save_at id at es dbs original position =
            let w = event_store_error Operation.save at id original in
            wrapped w (wrapped (errorf "could not start transaction") d.start_session) >>= λ _.
            wrapped w
              (d.with_transaction (store_positioned es (at_positions c position dbs) original))

        unfoldable pub save_outside_tx :
            ℕ → String → List (Event Any) → List (Evt Any) → ℕ → Action S (Unit {0})
        unfolding save_at update_global_position
        save_outside_tx id at es dbs original =
            wrapped (event_store_error Operation.save at id original)
              (update_global_position (length dbs))
            >>= save_at id at es dbs original

        unfoldable pub save_by :
            GlobalPositionStrategy
            → ℕ
            → String
            → List (Event Any)
            → List (Evt Any)
            → ℕ
            → Action S (Unit {0})
        unfolding save_in_tx save_outside_tx
        save_by GlobalPositionStrategy.in_tx = save_in_tx
        save_by GlobalPositionStrategy.outside_tx = save_outside_tx

        -- The end of Save, with the documents made.
        unfoldable pub save_records :
            GlobalPositionStrategy
            → Option (Event Any → Action S (Unit {0}))
            → Event Any
            → List (Event Any)
            → ℕ
            → List (Evt Any)
            → Action S (Unit {0})
        unfolding save_by handled_after_save
        save_records strategy after e es original dbs =
            save_by strategy e.aggregate_id e.aggregate_type (e ∷ es) dbs original >>= λ _.
            handled_after_save after (e ∷ es)

        unfoldable pub save :
            GlobalPositionStrategy
            → Option (Event Any → Action S (Unit {0}))
            → List (Event Any)
            → ℕ
            → Action S (Unit {0})
        unfolding build save_records
        save strategy after [] original =
            lift (err (wrap (event_store_error Operation.save "" 0 0) (sentinel missing_events)))
        save strategy after (e ∷ es) original =
            lift (build c e.aggregate_id e.aggregate_type original 0 (e ∷ es))
            >>= save_records strategy after e es original
