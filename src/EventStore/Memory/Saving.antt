-- ===== src/EventStore/Memory/Saving.antt =====
-- What a save accepts, what it leaves behind, and what a later load returns.
use eventhorizon.Prelude.{
  ℕ, ◌+◌, ℕ_discrete, ◌≡◌, refl, ◌∙◌, ◌≢◌, Option-cases, inl, inr, Option, none, some, List, [],
  ◌∷◌, ◌++◌, map, arith, length,
}
use eventhorizon.Prelude.Maps
use eventhorizon.Errors.{
  Operation, Result, Result-cases, ok, err, panic, wrap, sentinel, event_store_error,
  event_conflict_from_other_save,
}
use eventhorizon.Event.{Event, Codec}
use eventhorizon.EventStore.{IsBatch}
use eventhorizon.EventStore.Memory.{
  AggregateRecord, Db, build, store_built, save_db, load, new_record, append_record,
  insert_or_append,
}
use eventhorizon.EventStore.Memory.Commit.{commit_cases, ends_new, ends_append, ends_conflict}
use eventhorizon.EventStore.Memory.Streams.{
  IsStream, IsWellFormed, AllCopies, Inv, build-IsBatch, build-ok, IsBatch-at, IsBatch-IsStream,
  IsStream-append, IsStream-at,
}
use eventhorizon.EventStore.Memory.Loading.{AllStored, AllStored-append, AllStored-map, load_lem}

module _ {Any : Type 0} (c : Codec Any) where
  -- The private save, if it returns an error or panics, has changed nothing.
  pub save_db_refused :
      (es : List (Event Any)) (original : ℕ) (db : Db Any)
      → (save_db c es original db).0 ≢ ok tt
      → (save_db c es original db).1 ≡ db
  unfolding save_db
  save_db_refused [] original db h = refl
  save_db_refused (e ∷ es) original db h =
      refused (build c e.aggregate_id e.aggregate_type original 0 (e ∷ es)) h
    where
      id : ℕ
      id = e.aggregate_id

      refused :
          (r : Result (List (Option (Event Any))))
          → (store_built id e.aggregate_type original r db).0 ≢ ok tt
          → (store_built id e.aggregate_type original r db).1 ≡ db
      refused (ok dbs) k =
          commit_cases id e.aggregate_type original dbs db (λ out. out.0 ≢ ok tt → out.1 ≡ db)
            (λ _ n. absurd (n refl)) (λ _ _ n. absurd (n refl)) (λ _ _ _ _ n. absurd (n refl))
            (λ _ _ _ _ n. refl) k
      refused (err x) k = refl
      refused panic k = refl

  -- A save that succeeds was given a batch: at least one event, all of one aggregate and type, with
  -- the versions that follow the original version one by one.
  pub save_db-IsBatch :
      (e : Event Any) (es : List (Event Any)) (original : ℕ) (db : Db Any)
      → (save_db c (e ∷ es) original db).0 ≡ ok tt
      → IsBatch e.aggregate_id e.aggregate_type original (e ∷ es)
  unfolding save_db store_built
  save_db-IsBatch e es original db h =
      elim (Result-cases (build c e.aggregate_id e.aggregate_type original 0 (e ∷ es))) [
        | inl (dbs, built) ↦
            IsBatch-at e.aggregate_id e.aggregate_type (original + 0) original (e ∷ es)
              (omega arith)
              (build-ok c e.aggregate_id e.aggregate_type original 0 (e ∷ es) dbs built)
        | inr (inl (x, failed)) ↦ absurd (ground arith)
        | inr (inr failed) ↦ absurd (ground arith)
      ]

  pub save_db_lem :
      (e : Event Any) (es : List (Event Any)) (original : ℕ) (db : Db Any)
      → IsBatch e.aggregate_id e.aggregate_type original (e ∷ es)
      → AllCopies c (e ∷ es)
      → save_db c (e ∷ es) original db
        ≡ insert_or_append e.aggregate_id e.aggregate_type original (map some (e ∷ es)) db
  unfolding save_db store_built
  save_db_lem e es original db b k = rw (
    build-IsBatch c e.aggregate_id e.aggregate_type original 0 (e ∷ es)
        (IsBatch-at e.aggregate_id e.aggregate_type original (original + 0) (e ∷ es) (omega arith)
          b)
        k,
    store_built,
  )

  -- The original version is the one that the store has: 0 for an aggregate that is not there.
  abbrev pub IsCurrent : ℕ → Option (AggregateRecord Any) → Type 0
  IsCurrent original none = original ≡ 0
  IsCurrent original (some a) = (original ≢ 0) × (a.version ≡ original) × AllStored c a.events

  -- The events of an aggregate before the save.
  abbrev pub history : Option (AggregateRecord Any) → List (Option (Event Any))
  history none = []
  history (some a) = a.events

  module _ (e : Event Any) (es : List (Event Any)) (original : ℕ) (db : Db Any)
      (batch : IsBatch e.aggregate_id e.aggregate_type original (e ∷ es))
      (copies : AllCopies c (e ∷ es)) where
    abbrev id : ℕ
    id = e.aggregate_id

    batch_IsStream : IsStream id original (map some (e ∷ es))
    batch_IsStream = IsBatch-IsStream id e.aggregate_type original (e ∷ es) batch

    load-insert :
        (a : AggregateRecord Any) (before : Db Any)
        → AllStored c a.events
        → IsStream id 0 a.events
        → load c id (Maps.insert ℕ_discrete id a before)
          ≡ (ok a.events, Maps.insert ℕ_discrete id a before)
    load-insert a before k s = load_lem c id _ a (Maps.get-insert_self ℕ_discrete id a before) k s

    pub saved_new :
        original ≡ 0
        → ((save_db c (e ∷ es) original db).0 ≡ ok tt)
          × ((load c id (save_db c (e ∷ es) original db).1).0 ≡ ok (map some (e ∷ es)))
    unfolding new_record
    saved_new z =
        rw (save_db_lem e es original db batch copies, ends_new id e.aggregate_type original _ db z)
          (
            refl,
            rw (
                load-insert (new_record id (map some (e ∷ es))) db (AllStored-map c (e ∷ es) copies)
                  (IsStream-at id original 0 (map some (e ∷ es)) z batch_IsStream)),
          )

    saved_some :
        (a : AggregateRecord Any)
        → db id ≡ some a
        → IsWellFormed a id
        → IsCurrent original (some a)
        → ((save_db c (e ∷ es) original db).0 ≡ ok tt)
          × ((load c id (save_db c (e ∷ es) original db).1).0 ≡ ok (a.events ++ map some (e ∷ es)))
    unfolding append_record
    saved_some a found w (old, same, stored) =
        rw
          (
            save_db_lem e es original db batch copies,
            ends_append id e.aggregate_type original _ db a old found same,
          )
          (
            refl,
            rw (
                load-insert (append_record a (map some (e ∷ es))) db
                  (AllStored-append c a.events (map some (e ∷ es)) stored
                    (AllStored-map c (e ∷ es) copies))
                  (IsStream-append id 0 a.events (map some (e ∷ es)) w.stream (
                    IsStream-at id original (0 + length a.events) (map some (e ∷ es))
                      (omega (arith, w.counted, same)) batch_IsStream))),
          )

    -- A batch for the version that the store has is saved, and a later load returns the events that
    -- were there before, then the batch, as they were saved.
    pub load-save_db :
        Inv db
        → IsCurrent original (db id)
        → ((save_db c (e ∷ es) original db).0 ≡ ok tt)
          × ((load c id (save_db c (e ∷ es) original db).1).0
              ≡ ok (history (db id) ++ map some (e ∷ es)))
    load-save_db v current = elim (Option-cases (db id)) [
      | inl gone ↦ rw gone (saved_new (rw gone at current))
      | inr (a, found) ↦ rw found (saved_some a found (v.at_id id a found) (rw found at current))
    ]

    -- A batch for another version than the stored one, and not for version 0, is refused with a
    -- conflict, and the store stays as it was.
    pub save_db_conflict :
        (a : AggregateRecord Any)
        → original ≢ 0
        → db id ≡ some a
        → a.version ≢ original
        → save_db c (e ∷ es) original db ≡ (
          err (
              wrap
                (event_store_error Operation.save e.aggregate_type id original)
                (sentinel event_conflict_from_other_save)),
          db,
        )
    save_db_conflict a old found other =
        save_db_lem e es original db batch copies
        ∙ ends_conflict id e.aggregate_type original _ db a old found other
