-- ===== src/EventStore/Memory/Maintenance/Replacing.antt =====
-- Replace on a well-formed store.
use native.Mathlib.Nat.{zero-add}
use eventhorizon.Prelude.{
  ℕ, zero, suc, ◌+◌, ◌-◌, ◌≤◌, ◌<◌, ℕ_discrete, ◌≡◌, refl, ◌⊎◌, inl, inr, Option, none, some, List,
  [], ◌∷◌, arith, length, set, dec_lt, dec_le, Option-cases,
}
use eventhorizon.Prelude.Maps
use eventhorizon.Errors.{
  Operation, Result-cases, ok, err, wrap, sentinel, event_store_error, event_not_found,
}
use eventhorizon.Event.{Event, Codec, Copies, copy_event, copy_event_lem, copy_event_keeps}
use eventhorizon.EventStore.Memory.{AggregateRecord, Db}
use eventhorizon.EventStore.Memory.Streams.{IsStream, IsWellFormed, Inv, insert-Inv}
use eventhorizon.EventStore.Memory.Maintenance.{find_version, put_at, replace_in, replace}

module _ {Any : Type 0} where
  -- In a stream the event of a version is where it should be.
  find_version-found :
      (version id v i : ℕ) (es : List (Option (Event Any)))
      → IsStream id v es
      → v < version
      → version ≤ v + length es
      → find_version version i es ≡ ok (some (i + (version - suc v)))
  unfolding find_version
  find_version-found version id v i [] s lo hi = absurd (omega arith)
  find_version-found version id v i (none ∷ es) s lo hi = absurd s
  find_version-found version id v i (some e ∷ es) s lo hi =
      ground (arith, find_version-found version id (suc v) (i + 1) es s.2)

  find_version-none :
      (version id v i : ℕ) (es : List (Option (Event Any)))
      → IsStream id v es
      → (version ≤ v) ⊎ (v + length es < version)
      → find_version version i es ≡ ok none
  unfolding find_version
  find_version-none version id v i [] s out = refl
  find_version-none version id v i (none ∷ es) s out = absurd s
  find_version-none version id v i (some e ∷ es) s out =
      ground (arith, find_version-none version id (suc v) (i + 1) es s.2)

  length-set :
      (es : List (Option (Event Any))) (i : ℕ) (x : Option (Event Any))
      → length (set es i x) ≡ length es
  length-set [] i x = refl
  length-set (y ∷ es) zero x = refl
  length-set (y ∷ es) (suc i) x = omega (arith, length-set es i x)

  set-IsStream :
      (id v i : ℕ) (es : List (Option (Event Any))) (e : Event Any)
      → IsStream id v es
      → e.aggregate_id ≡ id
      → e.version ≡ suc v + i
      → IsStream id v (set es i (some e))
  set-IsStream id v i [] e s own next = tt
  set-IsStream id v i (none ∷ es) e s own next = absurd s
  set-IsStream id v zero (some d ∷ es) e s own next = (own, omega arith, s.2)
  set-IsStream id v (suc i) (some d ∷ es) e s own next =
      (s.0, s.1, set-IsStream id (suc v) i es e s.2 own (omega arith))

  module _ (c : Codec Any) (e : Event Any) (db : Db Any) (a : AggregateRecord Any) (v : Inv db)
      (found : db e.aggregate_id ≡ some a) where
    -- Replace puts the event in the place of the stored one with its version, and changes no other.
    pub replace_lem :
        Copies c e
        → 0 < e.version
        → e.version ≤ a.version
        → replace c e db ≡ (
          ok tt,
          Maps.insert ℕ_discrete e.aggregate_id
              (record a { events = set a.events (e.version - 1) (some e) })
              db,
        )
    unfolding replace put_at
    replace_lem k lo hi =
        let w = v.at_id e.aggregate_id a found in
        ground (
          arith,
          copy_event_lem c e k,
          w.counted,
          find_version-found e.version e.aggregate_id 0 0 a.events w.stream,
        )

    -- It is refused if the aggregate has no event of that version.
    pub replace_missing :
        Copies c e
        → (e.version ≡ 0) ⊎ (a.version < e.version)
        → replace c e db ≡ (
          err (
              wrap
                (event_store_error Operation.replace "" e.aggregate_id 0)
                (sentinel event_not_found)),
          db,
        )
    unfolding replace put_at
    replace_missing k out =
        let w = v.at_id e.aggregate_id a found in
        ground (
          arith,
          copy_event_lem c e k,
          w.counted,
          find_version-none e.version e.aggregate_id 0 0 a.events w.stream,
        )

  module _ (c : Codec Any) (e : Event Any) (db : Db Any) (v : Inv db) where
    set-IsWellFormed :
        (d : Event Any) (a : AggregateRecord Any)
        → IsWellFormed a d.aggregate_id
        → 0 < d.version
        → IsWellFormed (record a { events = set a.events (d.version - 1) (some d) }) d.aggregate_id
    set-IsWellFormed d a w lo = record {
      own_id = w.own_id;
      counted = omega (arith, w.counted, length-set a.events (d.version - 1) (some d));
      stream = set-IsStream d.aggregate_id 0 (d.version - 1) a.events d w.stream refl (omega arith);
    }

    put_at-Inv :
        (d : Event Any) (a : AggregateRecord Any)
        → db d.aggregate_id ≡ some a
        → Inv (put_at d a (find_version d.version 0 a.events) db).1
    unfolding put_at
    put_at-Inv d a found =
        let w = v.at_id d.aggregate_id a found in
        let missing = find_version-none d.version d.aggregate_id 0 0 a.events w.stream in
        elim (dec_lt 0 d.version) [
          | no lo ↦ rw (missing (inl (omega arith)), put_at) v
          | yes lo ↦ elim (dec_le d.version (length a.events)) [
            | no hi ↦ rw (missing (inr (omega arith)), put_at) v
            | yes hi ↦
                rw
                  (
                    find_version-found d.version d.aggregate_id 0 0 a.events w.stream lo
                        (omega arith),
                    put_at,
                    zero-add,
                  )
                  (insert-Inv d.aggregate_id _ db (set-IsWellFormed d a w lo) v)
          ]
        ]

    replace_in-Inv :
        (a : AggregateRecord Any)
        → db e.aggregate_id ≡ some a
        → Inv (replace_in e a (copy_event c e) db).1
    unfolding replace_in
    replace_in-Inv a found = elim (Result-cases (copy_event c e)) [
      | inr (inl (x, failed)) ↦ rw (failed, replace_in) v
      | inr (inr failed) ↦ rw (failed, replace_in) v
      | inl (d, copied) ↦
          let (version, id, _, _) = copy_event_keeps c e d copied in
          rw (copied, replace_in) (rw (← version) (put_at-Inv d a (rw id found)))
    ]

    -- Whatever comes of a Replace, every stream stays in order.
    pub replace-Inv : Inv (replace c e db).1
    unfolding replace
    replace-Inv = elim (Option-cases (db e.aggregate_id)) [
      | inl gone ↦ rw (gone, replace) v
      | inr (a, found) ↦ rw (found, replace) (replace_in-Inv a found)
    ]
