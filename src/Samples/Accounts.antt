-- ===== src/Samples/Accounts.antt =====
-- An account that counts its events, kept in the memory store, and two events for it.
use eventhorizon.Prelude.{
  ℕ, suc, ◌≡◌, refl, String-discrete, ℕ_discrete, true, false, none, some, List, [], ◌∷◌, map,
}
use eventhorizon.Prelude.Maps
use eventhorizon.Errors.{ok}
use eventhorizon.Event.{Event, Codec}
use eventhorizon.EventStore.{EventStore}
use eventhorizon.EventStore.Memory.{AggregateRecord, Db, memory_store, save_db}
use eventhorizon.EventStore.Memory.Streams.{Inv}
use eventhorizon.Samples.{codec, opened, paid}
use eventhorizon.AggregateStore.Events.{Aggregate, Domain, AggregateStore, apply_events}
use eventhorizon.AggregateStore.Events.Snapshots.{no_snapshot}

abbrev pub counting : Domain ℕ ℕ
counting = record {
  apply_event = λ e d. (ok tt, suc d);
  create_snapshot =
      λ a. record { version = 0; aggregate_type = "account"; timestamp = 0; content = 0 };
  apply_snapshot = λ snapshot d. d;
}

abbrev pub account : ℕ → ℕ → Aggregate ℕ ℕ
account version count = record {
  base = record { id = 7; t = "account"; v = version; events = [] };
  domain = count;
  versioned = true;
  snapshotable = false;
}

abbrev pub factory : ℕ → Aggregate ℕ ℕ
factory id = record {
  base = record { id = id; t = "account"; v = 0; events = [] };
  domain = 0;
  versioned = true;
  snapshotable = false;
}

abbrev pub store : EventStore ℕ (Db ℕ × Unit {0})
store = memory_store codec

abbrev pub aggregates : AggregateStore ℕ ℕ (Db ℕ × Unit {0})
aggregates = record {
  store = memory_store codec;
  snapshot_store = none;
  snapshot_strategy = no_snapshot;
  aggregates = record { items = λ t. some factory; name = "aggregate" };
  domain = counting;
}

abbrev pub two : List (Event ℕ)
two = opened ∷ paid ∷ []

abbrev pub nothing : Db ℕ × Unit {0}
nothing = (Maps.empty, tt)

pub applied_two : apply_events counting (map some two) (factory 7) ≡ (ok tt, account 2 2)
unfolding apply_events String-discrete
applied_two = refl

pub saved_two : store.save two 0 nothing ≡ (ok tt, (store.save two 0 nothing).1)
unfolding memory_store save_db eventhorizon.EventStore.Memory.save ℕ_discrete String-discrete
    eventhorizon.Event.copy_event
saved_two = refl

pub nothing-Inv : Inv {Any = ℕ} Maps.empty
nothing-Inv = record { at_id = λ id a h. absurd (cc) }
