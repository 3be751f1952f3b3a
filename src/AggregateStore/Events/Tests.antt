-- ===== src/AggregateStore/Events/Tests.antt =====
-- An account that counts its events, kept in the memory store.
use eventhorizon.Prelude.{◌≡◌, refl, inl, some, [], ◌∷◌}
use eventhorizon.Errors.{ok}
use eventhorizon.EventStore.Memory.Contract.{
  memory_store_laws, memory_store-Holds, memory_store-Storable,
}
use eventhorizon.Samples.{codec, opened, paid}
use eventhorizon.Samples.Accounts.{
  account, factory, store, aggregates, two, nothing, applied_two, saved_two, nothing-Inv,
}
use eventhorizon.AggregateStore.Events.{apply_events, load, save}
use eventhorizon.AggregateStore.Events.Base.{append_event, IsConsistent, append_event-IsConsistent}
use eventhorizon.AggregateStore.Events.Replay.{load-save, with_uncommitted}

append_event-IsConsistent_example :
    let (e, b) = append_event "paid" (some 5) 100 [] (account 1 1).base in
    IsConsistent b
    × (b.events ≡ e ∷ [])
    × (e.version ≡ 2)
    × (e.aggregate_id ≡ 7)
    × (e.aggregate_type ≡ "account")
    × (b.id ≡ 7)
    × (b.t ≡ "account")
    × (b.v ≡ 1)
append_event-IsConsistent_example =
    append_event-IsConsistent "paid" (some 5) 100 [] (account 1 1).base tt

load-save_example :
    let s' = (store.save two 0 nothing).1 in
    (load aggregates "account" 7 nothing ≡ (ok (account 0 0), nothing))
    × (save aggregates 200 (nothing, with_uncommitted two (account 0 0))
        ≡ (ok tt, (s', account 2 2)))
    × (load aggregates "account" 7 s' ≡ (ok (account 2 2), s'))
    × (memory_store_laws codec).Holds s' 7 two
unfolding apply_events
load-save_example =
    load-save aggregates (memory_store_laws codec) "account" 7 factory refl refl refl refl refl refl
      200 nothing (store.save two 0 nothing).1 [] (account 0 0) (account 2 2) opened (paid ∷ [])
      (memory_store-Holds codec nothing 7 [] (nothing-Inv, tt, inl (refl, refl)), tt, refl)
      (refl, refl, refl, (refl, refl, refl, tt))
      (
        memory_store-Storable codec (Unit {0}) opened (0, refl, refl),
        (memory_store-Storable codec (Unit {0}) paid (0, refl, refl), tt),
      )
      saved_two applied_two
