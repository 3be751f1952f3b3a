-- ===== src/EventStore/Mongo/SnapshotTests.antt =====
-- eventstore/mongodb_v2: the options, and a snapshot in a collection that has room for one.
use mathlib.Core.List.{Memᴰ}
use eventhorizon.Prelude.{
  ℕ, ◌≤◌, String-discrete, ℕ_discrete, ◌≡◌, refl, sym, ap, true, false, some, List, [], ◌∷◌, ite,
  arith, map, All,
}
use eventhorizon.Errors.{Result, ok, err, message, foreign, Action, wrap, errorf}
use eventhorizon.Errors.Actions.{◌>>=◌, lift, wrapped}
use eventhorizon.AggregateStore.Events.Snapshots.{Snapshot}
use eventhorizon.EventStore.Mongo.Options.{
  Config, Call, event_handler, event_handler_in_tx, option_of, apply_options, default_config,
  IsValid, configured-IsValid,
}
use eventhorizon.EventStore.Mongo.Snapshots.{
  SnapshotRecord, SnapshotCodec, SnapshotDriver, SnapshotDriverLaws, load_snapshot, save_snapshot,
  load-save_snapshot,
}

-- Handlers are numbers.
abbrev handled : Config ℕ
handled = record default_config { event_handler_in_tx = some 1 }

two_handlers_refused :
    apply_options
      (map (λ (o : Call ℕ). some (option_of o)) (event_handler 1 ∷ event_handler_in_tx 2 ∷ []))
      default_config
    ≡ err (
        wrap
          (errorf "error while applying option")
          (message "another event handler is already set"))
unfolding apply_options option_of default_config
two_handlers_refused = refl

configured-IsValid_example : IsValid handled
unfolding apply_options option_of default_config
configured-IsValid_example = configured-IsValid (event_handler_in_tx 1 ∷ []) handled refl

abbrev snapshot : Snapshot ℕ
snapshot = record { version = 3; aggregate_type = "account"; timestamp = 100; content = 5 }

abbrev read_snapshot : List ℕ → ℕ → Result (Snapshot ℕ)
read_snapshot (v ∷ t ∷ n ∷ []) made =
    ok (record { version = v; aggregate_type = "account"; timestamp = t; content = n })
read_snapshot _ made = err (foreign 1)

abbrev plain : SnapshotCodec ℕ
plain = record {
  marshal = λ s. ok (s.version ∷ s.timestamp ∷ s.content ∷ []);
  unmarshal = read_snapshot;
  compress = ok;
  decompress = ok;
  create_snapshot_data = λ id t. ok 0;
  is_nil = λ n. false;
}

abbrev only : ℕ → List SnapshotRecord → Result (Result SnapshotRecord)
only id (r ∷ []) = ite (ℕ_discrete r.aggregate_id id) (ok (ok r)) (err (foreign 2))
only id _ = err (foreign 2)

abbrev insert_first : SnapshotRecord → Action (List SnapshotRecord) (Unit {0})
insert_first r [] = (ok tt, r ∷ [])
insert_first r (q ∷ qs) = (err (foreign 3), q ∷ qs)

abbrev one_place : SnapshotDriver (List SnapshotRecord)
one_place = record {
  find_latest = λ id s. (only id s, s);
  is_no_documents = λ x. true;
  insert_one = insert_first;
}

inserted :
    (r : SnapshotRecord) (s t : List SnapshotRecord)
    → one_place.insert_one r s ≡ (ok tt, t)
    → t ≡ r ∷ s
inserted r [] t h = sym (ap (λ p. p.1) h)
inserted r (q ∷ qs) t h = absurd cc

found :
    (id : ℕ) (s t : List SnapshotRecord) (q : Result SnapshotRecord)
    → one_place.find_latest id s ≡ (ok q, t)
    → (r : SnapshotRecord) × (q ≡ ok r)
      × (r.aggregate_id ≡ id)
      × Memᴰ r s
      × All (λ (o : SnapshotRecord). o.aggregate_id ≡ id → o.version ≤ r.version) s
found id [] t q h = absurd cc
found id (r ∷ []) t q h = elim (ℕ_discrete r.aggregate_id id) [
  | yes own ↦ (r, ground arith, own, Memᴰ.head refl, ((λ e. omega arith), tt))
  | no other ↦ absurd (ground arith)
]
found id (r ∷ o ∷ os) t q h = absurd cc

abbrev laws : SnapshotDriverLaws one_place
laws = record { view = λ s. s; inserted = inserted; found = found }

load-save_snapshot_example :
    load_snapshot plain one_place 7 (save_snapshot plain one_place 50 7 snapshot []).1
    ≡ (ok (some snapshot), (save_snapshot plain one_place 50 7 snapshot []).1)
unfolding save_snapshot String-discrete ℕ_discrete ◌>>=◌ lift wrapped
load-save_snapshot_example =
    load-save_snapshot plain one_place laws 50 7 snapshot [] _ _ _
      (
        0,
        refl,
        λ raw small m c. let bytes : 3 ∷ 100 ∷ 5 ∷ [] ≡ raw = cc in (sym c, rw (← bytes) refl),
      )
      tt refl refl
