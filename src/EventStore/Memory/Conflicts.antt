-- ===== src/EventStore/Memory/Conflicts.antt =====
-- Writers that race for one aggregate. Beyond version 0 the loser is refused. At version 0, and for
-- an aggregate that is not there, the store accepts what it should refuse.
use eventhorizon.Prelude.{
  ℕ, suc, ◌+◌, String, ℕ_discrete, ◌≡◌, ◌≢◌, Option, none, some, List, ◌∷◌, map, arith, length, inl,
  inr, ◌∙◌,
}
use eventhorizon.Prelude.Maps
use eventhorizon.Errors.{Result, Result-cases, ok, err, panic}
use eventhorizon.Event.{Event, Codec}
use eventhorizon.EventStore.{IsBatch}
use eventhorizon.EventStore.Memory.{
  AggregateRecord, Db, build, store_built, save_db, load, append_record, insert_or_append,
}
use eventhorizon.EventStore.Memory.Commit.{commit_cases, ends_gone, ends_conflict}
use eventhorizon.EventStore.Memory.Streams.{AllCopies, build-IsStream}
use eventhorizon.EventStore.Memory.Saving.{save_db_lem, save_db_refused, saved_new}

module _ {Any : Type 0} where
  -- Beyond version 0, an end of `save` that succeeds on an aggregate that is there has added the
  -- records to its version.
  grown_end :
      (id : ℕ) (at : String) (original : ℕ) (dbs : List (Option (Event Any))) (db : Db Any)
      (a : AggregateRecord Any)
      → original ≢ 0
      → db id ≡ some a
      → (insert_or_append id at original dbs db).0 ≡ ok tt
      → (b : AggregateRecord Any) × ((insert_or_append id at original dbs db).1 id ≡ some b)
        × (b.version ≡ original + length dbs)
  unfolding append_record
  grown_end id at original dbs db a old found =
      commit_cases id at original dbs db
        (λ out.
          out.0 ≡ ok tt
          → (b : AggregateRecord Any) × (out.1 id ≡ some b) × (b.version ≡ original + length dbs))
        (λ z. absurd (old z)) (λ _ gone. absurd (cc))
        (λ x _ _ same k. (
          append_record x dbs,
          Maps.get-insert_self ℕ_discrete id (append_record x dbs) db,
          omega arith,
        ))
        (λ _ _ _ _ k. absurd (cc))

  stale_end :
      (id : ℕ) (at : String) (original : ℕ) (r : Result (List (Option (Event Any)))) (db : Db Any)
      (a : AggregateRecord Any)
      → original ≢ 0
      → db id ≡ some a
      → a.version ≢ original
      → (store_built id at original r db).0 ≢ ok tt
  unfolding store_built
  stale_end id at original (err x) db a old found other = λ k. cc
  stale_end id at original panic db a old found other = λ k. cc
  stale_end id at original (ok dbs) db a old found other =
      rw (ends_conflict id at original dbs db a old found other) (λ k. cc)

module _ {Any : Type 0} (c : Codec Any) where
  grown :
      (e : Event Any) (es : List (Event Any)) (original : ℕ) (db : Db Any) (a : AggregateRecord Any)
      → original ≢ 0
      → db e.aggregate_id ≡ some a
      → (save_db c (e ∷ es) original db).0 ≡ ok tt
      → (b : AggregateRecord Any) × ((save_db c (e ∷ es) original db).1 e.aggregate_id ≡ some b)
        × (b.version ≡ original + suc (length es))
  unfolding save_db store_built
  grown e es original db a old found h =
      elim (Result-cases (build c e.aggregate_id e.aggregate_type original 0 (e ∷ es))) [
        | inr (inl (x, failed)) ↦ absurd (ground arith)
        | inr (inr failed) ↦ absurd (ground arith)
        | inl (dbs, built) ↦
            let counted =
              (build-IsStream c e.aggregate_id e.aggregate_type original 0 (e ∷ es) dbs built).1 in
            let (b, there, version) =
              grown_end e.aggregate_id e.aggregate_type original dbs db a old found
                (rw (built, store_built) at h) in
            rw (built, store_built) (b, there, omega (arith, counted))
      ]

  stale :
      (f : Event Any) (fs : List (Event Any)) (original : ℕ) (db : Db Any) (a : AggregateRecord Any)
      → original ≢ 0
      → db f.aggregate_id ≡ some a
      → a.version ≢ original
      → (save_db c (f ∷ fs) original db).0 ≢ ok tt
  unfolding save_db
  stale f fs original db a =
      stale_end f.aggregate_id f.aggregate_type original
        (build c f.aggregate_id f.aggregate_type original 0 (f ∷ fs)) db a

  -- Of two writers that start from the same version of an aggregate, beyond version 0, the second to
  -- save is refused, whatever it saves, and the first one's events stay.
  pub second_writer_refused :
      (e f : Event Any) (es fs : List (Event Any)) (original : ℕ) (db : Db Any)
      (a : AggregateRecord Any)
      → original ≢ 0
      → db e.aggregate_id ≡ some a
      → f.aggregate_id ≡ e.aggregate_id
      → (save_db c (e ∷ es) original db).0 ≡ ok tt
      → let db' = (save_db c (e ∷ es) original db).1 in
        ((save_db c (f ∷ fs) original db').0 ≢ ok tt) × ((save_db c (f ∷ fs) original db').1 ≡ db')
  second_writer_refused e f es fs original db a old found same h =
      let (b, there, version) = grown e es original db a old found h in
      let refused = second b there version in
      (refused, save_db_refused c (f ∷ fs) original _ refused)
    where
      second :
          (b : AggregateRecord Any)
          → (save_db c (e ∷ es) original db).1 e.aggregate_id ≡ some b
          → b.version ≡ original + suc (length es)
          → (save_db c (f ∷ fs) original (save_db c (e ∷ es) original db).1).0 ≢ ok tt
      second b there version =
          stale f fs original (save_db c (e ∷ es) original db).1 b old (rw same there) (omega arith)

  module _ (e : Event Any) (es : List (Event Any)) (original : ℕ) (db : Db Any)
      (batch : IsBatch e.aggregate_id e.aggregate_type original (e ∷ es))
      (copies : AllCopies c (e ∷ es)) where
    -- A batch from version 0 is saved over the events that the aggregate has: no conflict is
    -- reported, and a later load returns the batch alone.
    pub creation_overwrites :
        (a : AggregateRecord Any)
        → db e.aggregate_id ≡ some a
        → original ≡ 0
        → ((save_db c (e ∷ es) original db).0 ≡ ok tt)
          × ((load c e.aggregate_id (save_db c (e ∷ es) original db).1).0 ≡ ok (map some (e ∷ es)))
    creation_overwrites a found z = saved_new c e es original db batch copies z

    -- A batch that continues an aggregate which is not there is reported as saved, and is dropped.
    pub missing_aggregate_drops :
        original ≢ 0 → db e.aggregate_id ≡ none → save_db c (e ∷ es) original db ≡ (ok tt, db)
    missing_aggregate_drops old gone =
        save_db_lem c e es original db batch copies
        ∙ ends_gone e.aggregate_id e.aggregate_type original (map some (e ∷ es)) db old gone
