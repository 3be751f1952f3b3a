-- ===== src/CommandHandler/Tests.antt =====
-- A command that opens an account and pays into it.
use eventhorizon.Prelude.{ℕ, suc, ℕ_discrete, ◌≡◌, refl, true, false, none, some, [], ◌∷◌, inl}
use eventhorizon.Prelude.Maps
use eventhorizon.Errors.{ok, err, Action, sentinel, lock_exists}
use eventhorizon.Command.{Command, check_command}
use eventhorizon.EventStore.Memory.Contract.{
  memory_store_laws, memory_store-Holds, memory_store-Storable,
}
use eventhorizon.AggregateStore.Events.{Aggregate, load, apply_events}
use eventhorizon.AggregateStore.Events.Replay.{with_uncommitted}
use eventhorizon.Samples.{codec, opened, paid}
use eventhorizon.Samples.Accounts.{
  account, factory, store, aggregates, two, nothing, applied_two, saved_two, nothing-Inv,
}
use eventhorizon.CommandHandler.{Handler, Bus, Locks, lock, handle_aggregate, lock_middleware}
use eventhorizon.CommandHandler.Dispatch.{command_appends}
use eventhorizon.CommandHandler.Locking.{lock_middleware_lem}

abbrev open_account : Command
open_account = record {
  aggregate_id = 7;
  aggregate_type = "account";
  command_type = "open";
  fields = [];
  validate = none;
}

passes : check_command (some open_account) ≡ ok tt
unfolding check_command ℕ_discrete
passes = refl

abbrev count : Handler ℕ
count ctx cmd s = (ok tt, suc s)

abbrev no_handlers : Bus ℕ
no_handlers = Maps.empty

abbrev open_and_pay : Command → Action (Aggregate ℕ ℕ) (Unit {0})
open_and_pay cmd a = (ok tt, with_uncommitted two a)

command_appends_example :
    let s' = (store.save two 0 nothing).1 in
    (handle_aggregate aggregates open_and_pay 200 "account" none (some open_account) nothing
      ≡ (ok tt, s'))
    × (memory_store_laws codec).Holds s' 7 two
    × (load aggregates "account" 7 s' ≡ (ok (account 2 2), s'))
unfolding apply_events
command_appends_example =
    command_appends aggregates open_and_pay (memory_store_laws codec) "account" open_account factory
      refl refl refl refl refl refl 200 nothing (store.save two 0 nothing).1 [] (account 0 0)
      (account 2 2) opened (paid ∷ []) passes
      (memory_store-Holds codec nothing 7 [] (nothing-Inv, tt, inl (refl, refl)), tt, refl)
      (refl, refl, refl, (refl, refl, refl, tt))
      (
        memory_store-Storable codec (Unit {0}) opened (0, refl, refl),
        (memory_store-Storable codec (Unit {0}) paid (0, refl, refl), tt),
      )
      refl saved_two applied_two

abbrev counting_handler : Handler (Locks × ℕ)
counting_handler ctx cmd s = (ok tt, (s.0, suc s.1))

abbrev unlocked_all : Locks
unlocked_all id = false

lock_middleware_lem_example :
    (unlocked_all 7 ≡ true
      → lock_middleware counting_handler none (some open_account) (unlocked_all, 3)
        ≡ (err (sentinel lock_exists), (unlocked_all, 3)))
    × (unlocked_all 7 ≡ false
        → ((lock 7 unlocked_all).1 7 ≡ true)
          × (lock_middleware counting_handler none (some open_account) (unlocked_all, 3)
              ≡ (ok tt, (unlocked_all, 4))))
lock_middleware_lem_example =
    lock_middleware_lem counting_handler none open_account unlocked_all 3 4 (ok tt) refl
