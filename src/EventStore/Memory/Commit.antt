-- ===== src/EventStore/Memory/Commit.antt =====
-- The four ways in which `save` ends once it has built its records.
use eventhorizon.Prelude.{
  ℕ, String, ℕ_discrete, ◌≡◌, ◌≢◌, inl, inr, Option, none, some, List, arith, Option-cases,
}
use eventhorizon.Prelude.Maps
use eventhorizon.Errors.{
  Operation, Result, ok, err, wrap, sentinel, event_store_error, event_conflict_from_other_save,
}
use eventhorizon.Event.{Event}
use eventhorizon.EventStore.Memory.{
  AggregateRecord, Db, new_record, append_record, insert_or_append,
}

module _ {Any : Type 0} (id : ℕ) (at : String) (original : ℕ) (dbs : List (Option (Event Any)))
    (db : Db Any) where
  -- At version 0 the record is new, whatever was there.
  pub ends_new :
      original ≡ 0
      → insert_or_append id at original dbs db
        ≡ (ok tt, Maps.insert ℕ_discrete id (new_record id dbs) db)
  unfolding insert_or_append
  ends_new z = ground arith

  pub ends_gone : original ≢ 0 → db id ≡ none → insert_or_append id at original dbs db ≡ (ok tt, db)
  unfolding insert_or_append
  ends_gone z gone = ground arith

  pub ends_append :
      (a : AggregateRecord Any)
      → original ≢ 0
      → db id ≡ some a
      → a.version ≡ original
      → insert_or_append id at original dbs db
        ≡ (ok tt, Maps.insert ℕ_discrete id (append_record a dbs) db)
  unfolding insert_or_append
  ends_append a z found same = ground arith

  pub ends_conflict :
      (a : AggregateRecord Any)
      → original ≢ 0
      → db id ≡ some a
      → a.version ≢ original
      → insert_or_append id at original dbs db ≡ (
        err (
            wrap
              (event_store_error Operation.save at id original)
              (sentinel event_conflict_from_other_save)),
        db,
      )
  unfolding insert_or_append
  ends_conflict a z found other = ground arith

  -- To prove something of the outcome, prove it of the four.
  pub commit_cases {ℓ} :
      (P : Result (Unit {0}) × Db Any → Type ℓ)
      → (original ≡ 0 → P (ok tt, Maps.insert ℕ_discrete id (new_record id dbs) db))
      → (original ≢ 0 → db id ≡ none → P (ok tt, db))
      → ((a : AggregateRecord Any)
          → original ≢ 0
          → db id ≡ some a
          → a.version ≡ original
          → P (ok tt, Maps.insert ℕ_discrete id (append_record a dbs) db))
      → ((a : AggregateRecord Any)
          → original ≢ 0
          → db id ≡ some a
          → a.version ≢ original
          → P (
            err (
                wrap
                  (event_store_error Operation.save at id original)
                  (sentinel event_conflict_from_other_save)),
            db,
          ))
      → P (insert_or_append id at original dbs db)
  commit_cases P as_new as_gone as_append as_conflict = elim (ℕ_discrete original 0) [
    | yes z ↦ rw (ends_new z) (as_new z)
    | no z ↦ elim (Option-cases (db id)) [
      | inl gone ↦ rw (ends_gone z gone) (as_gone z gone)
      | inr (a, found) ↦ elim (ℕ_discrete a.version original) [
        | yes same ↦ rw (ends_append a z found same) (as_append a z found same)
        | no other ↦ rw (ends_conflict a z found other) (as_conflict a z found other)
      ]
    ]
  ]
