-- ===== src/EventStore/Memory/Streams.antt =====
-- Streams: the events of one aggregate, with versions that count up from one, and the invariant that
-- every save keeps them so.
use eventhorizon.Prelude.{
  ℕ, suc, ◌+◌, String, ℕ_discrete, ◌≡◌, refl, Option, none, some, List, [], ◌∷◌, ◌++◌, map, arith,
  length, All, length-append, subst, ◌∙◌, inl, inr,
}
use eventhorizon.Prelude.Maps
use eventhorizon.Errors.{Result-cases, ok}
use eventhorizon.Event.{Event, Codec, Copies, copy_event, copy_event_lem, copy_event_keeps}
use eventhorizon.EventStore.{IsBatch}
use eventhorizon.EventStore.Memory.{
  AggregateRecord, Db, build, new_record, append_record, insert_or_append, store_built, save_db,
  new_db,
}
use eventhorizon.EventStore.Memory.Commit.{commit_cases}

module _ {Any : Type 0} where
  -- The stored events of the aggregate `id`, after the version `v`.
  abbrev pub IsStream : ℕ → ℕ → List (Option (Event Any)) → Type 0
  IsStream id v [] = Unit
  IsStream id v (none ∷ es) = ⊥
  IsStream id v (some e ∷ es) = (e.aggregate_id ≡ id) × (e.version ≡ suc v) × IsStream id (suc v) es

  abbrev pub AllCopies : Codec Any → List (Event Any) → Type 0
  AllCopies c = All (Copies c)

  pub IsStream-at :
      (id v w : ℕ) (es : List (Option (Event Any))) → v ≡ w → IsStream id v es → IsStream id w es
  IsStream-at id v w es p = subst (λ u. IsStream id u es) p

  pub IsBatch-at :
      (id : ℕ) (at : String) (v w : ℕ) (es : List (Event Any))
      → v ≡ w
      → IsBatch id at v es
      → IsBatch id at w es
  IsBatch-at id at v w es p = subst (λ u. IsBatch id at u es) p

  pub IsBatch-IsStream :
      (id : ℕ) (at : String) (v : ℕ) (es : List (Event Any))
      → IsBatch id at v es
      → IsStream id v (map some es)
  IsBatch-IsStream id at v [] b = tt
  IsBatch-IsStream id at v (e ∷ es) b = (b.0, b.2, IsBatch-IsStream id at (suc v) es b.3)

  pub IsStream-append :
      (id v : ℕ) (es ds : List (Option (Event Any)))
      → IsStream id v es
      → IsStream id (v + length es) ds
      → IsStream id v (es ++ ds)
  IsStream-append id v [] ds h k = IsStream-at id (v + 0) v ds (omega arith) k
  IsStream-append id v (none ∷ es) ds h k = absurd h
  IsStream-append id v (some e ∷ es) ds h k = (
    h.0,
    h.1,
    IsStream-append id (suc v) es ds h.2
        (IsStream-at id (v + suc (length es)) (suc v + length es) ds (omega arith) k),
  )

  pub record IsWellFormed (a : AggregateRecord Any) (id : ℕ) : Type 0 where
    pub own_id : a.aggregate_id ≡ id
    pub counted : a.version ≡ length a.events
    pub stream : IsStream id 0 a.events

  pub record Inv (db : Db Any) : Type 0 where
    pub at_id : (id : ℕ) (a : AggregateRecord Any) → db id ≡ some a → IsWellFormed a id

  module _ (c : Codec Any) where
    -- A batch that is in order and can be copied is stored as it is.
    pub build-IsBatch :
        (id : ℕ) (at : String) (original i : ℕ) (es : List (Event Any))
        → IsBatch id at (original + i) es
        → AllCopies c es
        → build c id at original i es ≡ ok (map some es)
    unfolding build
    build-IsBatch id at original i [] b k = refl
    build-IsBatch id at original i (e ∷ es) b k =
        ground (arith, copy_event_lem c e k.0, build-IsBatch id at original (i + 1) es)

    -- What a successful `build` has checked of the first event, and what it stores for it.
    build-cons :
        (id : ℕ) (at : String) (original i : ℕ) (e : Event Any) (es : List (Event Any))
        (dbs : List (Option (Event Any)))
        → build c id at original i (e ∷ es) ≡ ok dbs
        → (d : Event Any) × (ds : List (Option (Event Any))) × (dbs ≡ some d ∷ ds)
          × (copy_event c e ≡ ok d)
          × (build c id at original (i + 1) es ≡ ok ds)
          × (e.aggregate_id ≡ id)
          × (e.aggregate_type ≡ at)
          × (e.version ≡ original + i + 1)
    unfolding build
    build-cons id at original i e es dbs h = elim (Result-cases (copy_event c e)) [
      | inr (inl (x, failed)) ↦ absurd (ground arith)
      | inr (inr failed) ↦ absurd (ground arith)
      | inl (d, copied) ↦ elim (Result-cases (build c id at original (i + 1) es)) [
        | inr (inl (x, failed)) ↦ absurd (ground arith)
        | inr (inr failed) ↦ absurd (ground arith)
        | inl (ds, built) ↦
            (d, ds, ground arith, copied, built, ground arith, ground arith, ground arith)
      ]
    ]

    -- What `build` accepts is a batch in order.
    pub build-ok :
        (id : ℕ) (at : String) (original i : ℕ) (es : List (Event Any))
        (dbs : List (Option (Event Any)))
        → build c id at original i es ≡ ok dbs
        → IsBatch id at (original + i) es
    build-ok id at original i [] dbs h = tt
    build-ok id at original i (e ∷ es) dbs h =
        let (d, ds, shape, copied, built, own_id, own_type, next) =
          build-cons id at original i e es dbs h in
        (
          own_id,
          own_type,
          omega arith,
          IsBatch-at id at (original + (i + 1)) (suc (original + i)) es (omega arith)
              (build-ok id at original (i + 1) es ds built),
        )

    -- What it stores is a stream of the same length.
    pub build-IsStream :
        (id : ℕ) (at : String) (original i : ℕ) (es : List (Event Any))
        (dbs : List (Option (Event Any)))
        → build c id at original i es ≡ ok dbs
        → IsStream id (original + i) dbs × (length dbs ≡ length es)
    unfolding build
    build-IsStream id at original i [] dbs h = let e : dbs ≡ [] = ground arith in rw e (tt, refl)
    build-IsStream id at original i (e ∷ es) dbs h =
        let (d, ds, shape, copied, built, own_id, own_type, next) =
          build-cons id at original i e es dbs h in
        let (rest, count) = build-IsStream id at original (i + 1) es ds built in
        let keeps = copy_event_keeps c e d copied in
        rw shape (
          (
            keeps.1 ∙ own_id,
            omega (arith, keeps.0),
            IsStream-at id (original + (i + 1)) (suc (original + i)) ds (omega arith) rest,
          ),
          omega arith,
        )

  pub insert-Inv :
      (id : ℕ) (a : AggregateRecord Any) (db : Db Any)
      → IsWellFormed a id
      → Inv db
      → Inv (Maps.insert ℕ_discrete id a db)
  insert-Inv id a db w v = record {
    at_id = λ j b h. elim (ℕ_discrete id j) [
      | yes p ↦
          let same : a ≡ b = ground arith in
          subst (λ x. IsWellFormed x j) same (subst (λ i. IsWellFormed a i) p w)
      | no p ↦ v.at_id j b (ground arith)
    ];
  }

  module _ (id : ℕ) (at : String) (original : ℕ) (dbs : List (Option (Event Any)))
      (db : Db Any) where
    insert_or_append-Inv :
        IsStream id original dbs → Inv db → Inv (insert_or_append id at original dbs db).1
    unfolding new_record append_record
    insert_or_append-Inv s v =
        commit_cases id at original dbs db (λ out. Inv out.1)
          (λ z. insert-Inv id _ db (created z) v) (λ z gone. v)
          (λ a z found same. insert-Inv id _ db (appended a found same) v) (λ a z found other. v)
      where
        created : original ≡ 0 → IsWellFormed (new_record id dbs) id
        created z = record {
          own_id = refl;
          counted = refl;
          stream = IsStream-at id original 0 dbs z s;
        }

        appended :
            (a : AggregateRecord Any)
            → db id ≡ some a
            → a.version ≡ original
            → IsWellFormed (append_record a dbs) id
        appended a found p =
            let w = v.at_id id a found in
            record {
              own_id = w.own_id;
              counted = omega (arith, w.counted, length-append a.events dbs);
              stream =
                  IsStream-append id 0 a.events dbs w.stream (
                    IsStream-at id original (0 + length a.events) dbs (omega (arith, w.counted)) s);
            }

  module _ (c : Codec Any) where
    -- Every save, refused or not, keeps each stream numbered from one without a gap, under its own
    -- aggregate's ID, and the record's version equal to the number of events.
    pub save_db-Inv :
        (es : List (Event Any)) (original : ℕ) (db : Db Any)
        → Inv db
        → Inv (save_db c es original db).1
    unfolding save_db
    save_db-Inv [] original db v = v
    save_db-Inv (e ∷ es) original db v =
        elim (Result-cases (build c e.aggregate_id e.aggregate_type original 0 (e ∷ es))) [
          | inr (inl (x, failed)) ↦ rw (failed, store_built) v
          | inr (inr failed) ↦ rw (failed, store_built) v
          | inl (dbs, built) ↦
              rw (built, store_built)
                (insert_or_append-Inv e.aggregate_id e.aggregate_type original dbs db
                  (IsStream-at e.aggregate_id (original + 0) original dbs (omega arith)
                    (build-IsStream c e.aggregate_id e.aggregate_type original 0 (e ∷ es) dbs
                      built).0)
                  v)
        ]

  pub new_db-Inv : Inv new_db
  unfolding new_db
  new_db-Inv = record { at_id = λ id a h. absurd (cc) }
