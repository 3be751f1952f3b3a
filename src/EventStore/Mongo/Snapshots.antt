-- ===== src/EventStore/Mongo/Snapshots.antt =====
-- eventstore/mongodb_v2: LoadSnapshot and SaveSnapshot. The collection of snapshots, gzip, JSON and
-- the factories of RegisterSnapshotData are parameters.
use mathlib.Core.List.{Memᴰ}
use eventhorizon.Prelude.{
  ℕ, String, String-discrete, ◌≡◌, ◌≤◌, ◌<◌, refl, sym, ap, subst, Bool, Option, none, some, List,
  [], ◌∷◌, ite, arith, if◌then◌else◌, All,
}
use eventhorizon.Errors.{
  Operation, Err, Result, ok, err, panic, message, errorf, wrap, event_store_error, Action,
}
use eventhorizon.Errors.Actions.{◌>>=◌, lift, wrapped, bind-ok, wrapped-ok, lift-ok}
use eventhorizon.AggregateStore.Events.Snapshots.{Snapshot}

-- SnapshotRecord
pub record SnapshotRecord : Type 0 where
  pub aggregate_id : ℕ
  pub raw_data : List ℕ
  pub timestamp : ℕ
  pub version : ℕ
  pub aggregate_type : String

pub record SnapshotCodec (Any : Type 0) : Type 0 where
  pub marshal : Snapshot Any → Result (List ℕ)  -- json.Marshal
  pub unmarshal : List ℕ → Any → Result (Snapshot Any)  -- json.Unmarshal, into that State
  pub compress : List ℕ → Result (List ℕ)
  pub decompress : List ℕ → Result (List ℕ)
  pub create_snapshot_data : ℕ → String → Result Any
  pub is_nil : Any → Bool

pub record SnapshotDriver (S : Type 0) : Type 0 where
  -- FindOne by the aggregate ID, with the highest version first, and what Decode makes of it.
  pub find_latest : ℕ → Action S (Result SnapshotRecord)
  pub is_no_documents : Err → Bool
  pub insert_one : SnapshotRecord → Action S (Unit {0})

pub record SnapshotDriverLaws {S : Type 0} (d : SnapshotDriver S) : Type 0 where
  pub view : S → List SnapshotRecord
  pub inserted :
      (r : SnapshotRecord) (s t : S) → d.insert_one r s ≡ (ok tt, t) → view t ≡ r ∷ view s
  pub found :
      (id : ℕ) (s t : S) (q : Result SnapshotRecord)
      → d.find_latest id s ≡ (ok q, t)
      → (r : SnapshotRecord) × (q ≡ ok r)
        × (r.aggregate_id ≡ id)
        × Memᴰ r (view s)
        × All (λ (o : SnapshotRecord). o.aggregate_id ≡ id → o.version ≤ r.version) (view s)

All-member : {A : Type 0} {x : A} (P : A → Type 0) (xs : List A) → All P xs → Memᴰ x xs → P x
All-member P [] h m = elim m [ ]
All-member P (y ∷ ys) h (Memᴰ.head e) = subst P (sym e) h.0
All-member P (y ∷ ys) h (Memᴰ.tail m) = All-member P ys h.1 m

module _ {Any S : Type 0} (c : SnapshotCodec Any) (d : SnapshotDriver S) where
  decoded : ℕ → Result SnapshotRecord → Result (Option (Snapshot Any))
  decoded id (err x) = err (
      wrap (event_store_error Operation.load_snapshot "" id 0)
        (wrap (errorf "could not decode snapshot") x))
  decoded id panic = panic
  decoded id (ok r) =
      let w = event_store_error Operation.load_snapshot "" id 0 in
      elim (c.create_snapshot_data r.aggregate_id r.aggregate_type) [
        | err x ↦ err (wrap w (wrap (errorf "could not decode snapshot") x))
        | panic ↦ panic
        | ok made ↦ elim (c.decompress r.raw_data) [
          | err x ↦ err (wrap w (wrap (errorf "could not decompress snapshot") x))
          | panic ↦ panic
          | ok raw ↦ elim (c.unmarshal raw made) [
            | err x ↦ err (wrap w (wrap (errorf "could not decode snapshot") x))
            | panic ↦ panic
            | ok snapshot ↦ ok (some snapshot)
          ]
        ]
      ]

  found_latest : ℕ → Result (Result SnapshotRecord) × S → Result (Option (Snapshot Any)) × S
  unfolding decoded
  found_latest id (ok q, s) = (decoded id q, s)
  found_latest id (err x, s) = (if d.is_no_documents x then ok none else err x, s)
  found_latest id (panic, s) = (panic, s)

  unfoldable pub load_snapshot : ℕ → Action S (Option (Snapshot Any))
  unfolding found_latest
  load_snapshot id s = found_latest id (d.find_latest id s)

  -- The record that SaveSnapshot makes, at the time `now`, of the compressed data.
  snapshot_record : ℕ → ℕ → Snapshot Any → List ℕ → SnapshotRecord
  snapshot_record id now snapshot raw = record {
    aggregate_id = id;
    raw_data = raw;
    timestamp = now;
    version = snapshot.version;
    aggregate_type = snapshot.aggregate_type;
  }

  compressed : ℕ → Result (List ℕ) → Result (List ℕ)
  compressed id (err x) = err x
  compressed id panic = panic
  compressed id (ok raw) = elim (c.compress raw) [
    | ok small ↦ ok small
    | err x ↦ err (
        wrap (event_store_error Operation.save_snapshot "" id 0)
          (wrap (errorf "could not compress snapshot") x))
    | panic ↦ panic
  ]

  insert_snapshot : ℕ → ℕ → Snapshot Any → Action S (Unit {0})
  unfolding compressed snapshot_record
  insert_snapshot id now snapshot = lift (compressed id (c.marshal snapshot)) >>= λ raw.
      wrapped (event_store_error Operation.save_snapshot "" id 0) (
        wrapped (errorf "could not save snapshot")
          (d.insert_one (snapshot_record id now snapshot raw)))

  unfoldable pub save_snapshot : ℕ → ℕ → Snapshot Any → Action S (Unit {0})
  unfolding insert_snapshot
  save_snapshot now id snapshot s =
      let w = event_store_error Operation.save_snapshot snapshot.aggregate_type id 0 in
      ite (String-discrete snapshot.aggregate_type "")
        (err (wrap w (message "aggregate type is empty")), s)
        (if c.is_nil snapshot.content
          then (err (wrap w (message "snapshots state is nil")), s)
          else insert_snapshot id now snapshot s)

  -- What JSON, gzip and the application have to provide for a snapshot.
  abbrev pub Restores : ℕ → Snapshot Any → Type 0
  Restores id snapshot =
      (made : Any) × (c.create_snapshot_data id snapshot.aggregate_type ≡ ok made)
      × ((raw small : List ℕ)
          → c.marshal snapshot ≡ ok raw
          → c.compress raw ≡ ok small
          → (c.decompress small ≡ ok raw) × (c.unmarshal raw made ≡ ok snapshot))

  module _ (l : SnapshotDriverLaws d) where
    save_snapshot-ok :
        (now id : ℕ) (snapshot : Snapshot Any) (s t : S)
        → save_snapshot now id snapshot s ≡ (ok tt, t)
        → insert_snapshot id now snapshot s ≡ (ok tt, t)
    unfolding save_snapshot
    save_snapshot-ok now id snapshot s t h = ground arith

    compressed-ok :
        (id : ℕ) (r : Result (List ℕ)) (small : List ℕ)
        → compressed id r ≡ ok small
        → (raw : List ℕ) × (r ≡ ok raw) × (c.compress raw ≡ ok small)
    unfolding compressed
    compressed-ok id (ok raw) small h = (raw, refl, ground arith)
    compressed-ok id (err x) small h = absurd cc
    compressed-ok id panic small h = absurd cc

    decoded-ok :
        (id : ℕ) (r : SnapshotRecord) (raw : List ℕ) (made : Any) (snapshot : Snapshot Any)
        → c.create_snapshot_data r.aggregate_id r.aggregate_type ≡ ok made
        → c.decompress r.raw_data ≡ ok raw
        → c.unmarshal raw made ≡ ok snapshot
        → decoded id (ok r) ≡ ok (some snapshot)
    unfolding decoded
    decoded-ok id r raw made snapshot factory small read = ground arith

    -- The record that a successful save leaves, before all others.
    saved_record :
        (now id : ℕ) (snapshot : Snapshot Any) (s t : S)
        → save_snapshot now id snapshot s ≡ (ok tt, t)
        → (raw : List ℕ) × (small : List ℕ) × (c.marshal snapshot ≡ ok raw)
          × (c.compress raw ≡ ok small)
          × (l.view t ≡ snapshot_record id now snapshot small ∷ l.view s)
    unfolding insert_snapshot
    saved_record now id snapshot s t h =
        let (small, v, packed, stored) =
          bind-ok (lift (compressed id (c.marshal snapshot))) _ s tt t
            (save_snapshot-ok now id snapshot s t h) in
        let (result, same) = lift-ok _ s small v packed in
        let (raw, marshalled, small_ok) = compressed-ok id (c.marshal snapshot) small result in
        let inserted = wrapped-ok _ _ v tt t (wrapped-ok _ _ v tt t stored) in
        (raw, small, marshalled, small_ok, rw (same) (l.inserted _ v t inserted))

    latest_is :
        (id : ℕ) (r n : SnapshotRecord) (others : List SnapshotRecord)
        → Memᴰ r (n ∷ others)
        → r.aggregate_id ≡ id
        → n.version ≤ r.version
        → All (λ (o : SnapshotRecord). o.aggregate_id ≡ id → o.version < n.version) others
        → r ≡ n
    latest_is id r n others (Memᴰ.head e) own le newer = e
    latest_is id r n others (Memᴰ.tail m) own le newer =
        absurd (omega (arith, le, All-member _ others newer m own))

    -- A saved snapshot that is newer than all others of its aggregate, and that the codec restores, is
    -- what LoadSnapshot returns if its query succeeds.
    pub load-save_snapshot :
        (now id : ℕ) (snapshot : Snapshot Any) (s t u : S) (q : Result SnapshotRecord)
        → Restores id snapshot
        → All
            (λ (o : SnapshotRecord). o.aggregate_id ≡ id → o.version < snapshot.version)
            (l.view s)
        → save_snapshot now id snapshot s ≡ (ok tt, t)
        → d.find_latest id t ≡ (ok q, u)
        → load_snapshot id t ≡ (ok (some snapshot), u)
    unfolding load_snapshot snapshot_record
    load-save_snapshot now id snapshot s t u q (made, factory, back) newer saved looked =
        let (raw, small, marshalled, packed, stored) = saved_record now id snapshot s t saved in
        let (r, is_r, own, member, latest) = l.found id t u q looked in
        let made_record = snapshot_record id now snapshot small in
        let same : r ≡ made_record =
          latest_is id r made_record (l.view s) (subst (Memᴰ r) stored member) own
            ((subst (All _) stored latest).0 refl) newer in
        let (unpacked, read) = back raw small marshalled packed in
        rw (looked, is_r, same)
          (ap (λ a. (a, u)) (decoded-ok id made_record raw made snapshot factory unpacked read))
