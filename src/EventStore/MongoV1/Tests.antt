-- ===== src/EventStore/MongoV1/Tests.antt =====
-- eventstore/mongodb over a driver whose database is one map and never fails.
use eventhorizon.Prelude.{
  ℕ, ℕ_discrete, String-discrete, ◌≡◌, ◌≢◌, refl, true, Option, none, some, List, [], ◌∷◌, ite,
  arith,
}
use eventhorizon.Prelude.Maps
use eventhorizon.Prelude.Maps.{Map}
use eventhorizon.Errors.{Result, ok, err, panic, foreign}
use eventhorizon.Errors.Actions.{◌>>=◌, lift, wrapped}
use eventhorizon.Samples.{opened, paid}
use eventhorizon.Samples.Mongo.{bson}
use eventhorizon.EventStore.MongoV1.{Evt, AggregateRecord, Driver, load}
use eventhorizon.EventStore.MongoV1.Saving.{save}
use eventhorizon.EventStore.MongoV1.Documents.{DriverLaws, pushed, IsWellFormed}
use eventhorizon.EventStore.MongoV1.Invariant.{save-IsWellFormed}

abbrev Documents : Type 0
Documents = Map ℕ (AggregateRecord ℕ)

abbrev finish : Documents → Result (Unit {0}) × Documents → Result (Unit {0}) × Documents
finish s (ok _, t) = (ok tt, t)
finish s (err x, t) = (err x, s)
finish s (panic, t) = (panic, s)

abbrev insert_if_new :
    AggregateRecord ℕ → Option (AggregateRecord ℕ) → Documents → Result (Unit {0}) × Documents
insert_if_new r none s = (ok tt, Maps.insert ℕ_discrete r.aggregate_id r s)
insert_if_new r (some _) s = (err (foreign 11000), s)

abbrev update_at :
    ℕ → ℕ → List (Evt ℕ) → ℕ → Option (AggregateRecord ℕ) → Documents → Result ℕ × Documents
update_at id version dbs count none s = (ok 0, s)
update_at id version dbs count (some old) s =
    ite (ℕ_discrete old.version version) (ok 1, Maps.insert ℕ_discrete id (pushed dbs count old) s)
      (ok 0, s)

abbrev find_in : Option (AggregateRecord ℕ) → Result (AggregateRecord ℕ)
find_in none = err (foreign 404)
find_in (some r) = ok r

abbrev server : Driver ℕ Documents
server = record {
  start_session = λ s. (ok tt, s);
  with_transaction = λ f s. finish s (f s);
  insert_one = λ r s. insert_if_new r (s r.aggregate_id) s;
  update_one = λ id version dbs count s. update_at id version dbs count (s id) s;
  find_one = λ id s. (find_in (s id), s);
  is_no_documents = λ x. true;
}

finish-ok :
    (s t : Documents) (p : Result (Unit {0}) × Documents) → finish s p ≡ (ok tt, t) → p ≡ (ok tt, t)
finish-ok s t (ok _, u) h = h
finish-ok s t (err x, u) h = absurd cc
finish-ok s t (panic, u) h = absurd cc

finish-fails :
    (s : Documents) (p : Result (Unit {0}) × Documents)
    → (finish s p).0 ≢ ok tt
    → (finish s p).1 ≡ s
finish-fails s (ok _, u) h = absurd (h refl)
finish-fails s (err x, u) h = refl
finish-fails s (panic, u) h = refl

inserted :
    (r : AggregateRecord ℕ) (o : Option (AggregateRecord ℕ)) (s : Documents)
    → (insert_if_new r o s).0 ≡ ok tt
    → (o ≡ none) × ((insert_if_new r o s).1 ≡ Maps.insert ℕ_discrete r.aggregate_id r s)
inserted r none s h = (refl, refl)
inserted r (some _) s h = absurd cc

not_inserted :
    (r : AggregateRecord ℕ) (o : Option (AggregateRecord ℕ)) (s : Documents)
    → (insert_if_new r o s).0 ≢ ok tt
    → (insert_if_new r o s).1 ≡ s
not_inserted r none s h = absurd (h refl)
not_inserted r (some _) s h = refl

updated :
    (id version count n : ℕ) (dbs : List (Evt ℕ)) (o : Option (AggregateRecord ℕ)) (s : Documents)
    → (update_at id version dbs count o s).0 ≡ ok n
    → n ≢ 0
    → (old : AggregateRecord ℕ) × (o ≡ some old)
      × (old.version ≡ version)
      × ((update_at id version dbs count o s).1
          ≡ Maps.insert ℕ_discrete id (pushed dbs count old) s)
updated id version count n dbs none s h some_n = absurd (some_n cc)
updated id version count n dbs (some old) s h some_n = elim (ℕ_discrete old.version version) [
  | yes same ↦ (old, refl, same, ground arith)
  | no other ↦ absurd (some_n (ground arith))
]

not_updated :
    (id version count : ℕ) (dbs : List (Evt ℕ)) (o : Option (AggregateRecord ℕ)) (s : Documents)
    → ((n : ℕ) → n ≢ 0 → (update_at id version dbs count o s).0 ≢ ok n)
    → (update_at id version dbs count o s).1 ≡ s
not_updated id version count dbs none s h = refl
not_updated id version count dbs (some old) s h = elim (ℕ_discrete old.version version) [
  | yes same ↦ absurd (h 1 (λ e. omega arith) (ground arith))
  | no other ↦ ground arith
]

abbrev server_laws : DriverLaws server
server_laws = record {
  view = λ s. s;
  started = λ s. refl;
  committed = λ f s t h. (s, t, refl, finish-ok s t (f s) h, refl);
  aborted = λ f s h. finish-fails s (f s) h;
  inserted = λ r s. inserted r (s r.aggregate_id) s;
  not_inserted = λ r s. not_inserted r (s r.aggregate_id) s;
  updated = λ id v count n dbs s. updated id v count n dbs (s id) s;
  not_updated = λ id v count dbs s. not_updated id v count dbs (s id) s;
}

abbrev fresh : Documents
fresh = Maps.empty

abbrev once : Documents
once = (save server bson none none (opened ∷ paid ∷ []) 0 fresh).1

opened_loads : (load bson server 7 once).0 ≡ ok (some opened ∷ some paid ∷ [])
unfolding load save String-discrete ℕ_discrete ◌>>=◌ lift wrapped
opened_loads = refl

save-IsWellFormed_example : IsWellFormed once
save-IsWellFormed_example =
    save-IsWellFormed server server_laws bson none none (opened ∷ paid ∷ []) 0 fresh tt tt
      (λ id r there. absurd cc)
