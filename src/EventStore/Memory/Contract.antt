-- ===== src/EventStore/Memory/Contract.antt =====
-- The memory store keeps the contract of an event store.
use eventhorizon.Prelude.{
  ℕ, String, ℕ_discrete, ◌≡◌, refl, sym, true, ap, ◌∙◌, ◌≢◌, ◌⊎◌, inl, inr, none, some, List, [],
  ◌∷◌, ◌++◌, map, length, length-map, length-ne-zero, append-ne-nil, All-append, subst,
}
use mathlib.Core.List.{map-append}
use eventhorizon.Prelude.Maps
use eventhorizon.Errors.{
  Err, Operation, ok, err, wrap, sentinel, event_store_error, errors_is, aggregate_not_found,
}
use eventhorizon.Event.{Event, Codec, Copies}
use eventhorizon.EventStore.{EventStoreLaws, IsBatch}
use eventhorizon.EventStore.Memory.{
  AggregateRecord, Db, new_record, append_record, save_db, load_from, load, save, memory_store,
}
use eventhorizon.EventStore.Memory.Commit.{ends_new, ends_append}
use eventhorizon.EventStore.Memory.Streams.{AllCopies, Inv, save_db-Inv}
use eventhorizon.EventStore.Memory.Loading.{AllStored-map, load_lem}
use eventhorizon.EventStore.Memory.Saving.{save_db_lem}

module _ {Any : Type 0} (c : Codec Any) where
  -- The stream of an aggregate that is there, or that is not and has no events.
  abbrev pub Stored : Db Any → ℕ → List (Event Any) → Type 0
  Stored db id es =
      ((es ≡ []) × (db id ≡ none))
      ⊎ ((a : AggregateRecord Any) × (db id ≡ some a) × (a.events ≡ map some es) × (es ≢ []))

  abbrev pub HoldsStream : Db Any → ℕ → List (Event Any) → Type 0
  HoldsStream db id es = Inv db × AllCopies c es × Stored db id es

  Stored-append :
      (db : Db Any) (es : List (Event Any)) (d : Event Any) (ds : List (Event Any))
      → HoldsStream db d.aggregate_id es
      → IsBatch d.aggregate_id d.aggregate_type (length es) (d ∷ ds)
      → AllCopies c (d ∷ ds)
      → Stored (save_db c (d ∷ ds) (length es) db).1 d.aggregate_id (es ++ d ∷ ds)
  unfolding new_record append_record
  Stored-append db es d ds (v, copies, inl (empty, gone)) batch new =
      let z : length es ≡ 0 = ap length empty in
      let e = ap (λ x. x ++ d ∷ ds) empty in
      rw
        (
          save_db_lem c d ds (length es) db batch new,
          ends_new d.aggregate_id d.aggregate_type (length es) (map some (d ∷ ds)) db z,
        )
        (inr (
          new_record d.aggregate_id (map some (d ∷ ds)),
          Maps.get-insert_self ℕ_discrete d.aggregate_id _ db,
          ap (map some) (sym e),
          append-ne-nil es d ds,
        ))
  Stored-append db es d ds (v, copies, inr (a, found, events, some_event)) batch new =
      let w = v.at_id d.aggregate_id a found in
      let count : a.version ≡ length es = w.counted ∙ ap length events ∙ length-map some es in
      rw
        (
          save_db_lem c d ds (length es) db batch new,
          ends_append d.aggregate_id d.aggregate_type (length es) (map some (d ∷ ds)) db a
              (length-ne-zero es some_event) found count,
        )
        (inr (
          append_record a (map some (d ∷ ds)),
          Maps.get-insert_self ℕ_discrete d.aggregate_id _ db,
          ap (λ x. x ++ map some (d ∷ ds)) events ∙ sym (map-append some es (d ∷ ds)),
          append-ne-nil es d ds,
        ))

  pub stored_loads :
      (db : Db Any) (id : ℕ) (es : List (Event Any))
      → HoldsStream db id es
      → (load c id db ≡ (ok (map some es), db))
        ⊎ ((x : Err) × (es ≡ [])
            × (errors_is x aggregate_not_found ≡ true)
            × (load c id db ≡ (err x, db)))
  unfolding load load_from errors_is
  stored_loads db id es (v, copies, inl (empty, gone)) = inr (
    wrap (event_store_error Operation.load "" id 0) (sentinel aggregate_not_found),
    empty,
    refl,
    rw (gone, load_from),
  )
  stored_loads db id es (v, copies, inr (a, found, events, _)) =
      let loaded =
        load_lem c id db a found (rw events (AllStored-map c es copies))
          (v.at_id id a found).stream in
      inl (loaded ∙ ap (λ x. (ok x, db)) events)

  -- A save of the next batch of a stream whose events can be copied leaves the old stream followed by
  -- the batch, and the store well formed.
  pub stored_appends :
      (db : Db Any) (id : ℕ) (at : String) (es : List (Event Any)) (d : Event Any)
      (ds : List (Event Any))
      → HoldsStream db id es
      → IsBatch id at (length es) (d ∷ ds)
      → AllCopies c (d ∷ ds)
      → HoldsStream (save_db c (d ∷ ds) (length es) db).1 id (es ++ d ∷ ds)
  stored_appends db id at es d ds holds batch new =
      let own = batch.0 in
      let batch' : IsBatch d.aggregate_id d.aggregate_type (length es) (d ∷ ds) =
        subst (λ t. IsBatch d.aggregate_id t (length es) (d ∷ ds)) (sym batch.1)
          (subst (λ i. IsBatch i at (length es) (d ∷ ds)) (sym own) batch) in
      (
        save_db-Inv c (d ∷ ds) (length es) db holds.0,
        All-append (Copies c) es (d ∷ ds) holds.1 new,
        subst (λ i. Stored (save_db c (d ∷ ds) (length es) db).1 i (es ++ d ∷ ds)) own
            (Stored-append db es d ds (rw own holds) batch' new),
      )

  module _ {W : Type 0} where
    -- The memory store, with no event handler, is an event store: a save adds its batch at the end of
    -- the stream, and a load returns the stream, for events whose data can be copied.
    pub memory_store_laws : EventStoreLaws (memory_store c {W = W})
    unfolding memory_store load save
    memory_store_laws = record {
      Holds = λ s id es. HoldsStream s.0 id es;
      Storable = Copies c;
      loads = λ s id es h. elim (stored_loads s.0 id es h) [
        | inl e ↦ inl (ap (λ p. (p.0, (p.1, s.1))) e)
        | inr (x, empty, not_found, e) ↦ inr (x, empty, not_found, ap (λ p. (p.0, (p.1, s.1))) e)
      ];
      appends = λ s id at es d ds h b k _. stored_appends s.0 id at es d ds h b k;
    }

    -- What the contract asks of a state and of an event, in the store's own terms.
    pub memory_store-Holds :
        (s : Db Any × W) (id : ℕ) (es : List (Event Any))
        → HoldsStream s.0 id es
        → memory_store_laws.Holds s id es
    unfolding memory_store_laws
    memory_store-Holds s id es h = h

  pub memory_store-Storable :
      (W : Type 0) (e : Event Any)
      → Copies c e
      → EventStoreLaws.Storable (memory_store_laws {W = W}) e
  unfolding memory_store_laws
  memory_store-Storable W e h = h
