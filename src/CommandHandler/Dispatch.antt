-- ===== src/CommandHandler/Dispatch.antt =====
-- How a command gets to its handler and to its aggregate.
use eventhorizon.Prelude.{
  ℕ, String, String-discrete, ◌≡◌, refl, ◌∙◌, true, none, some, Option-cases, inl, inr, List, [],
  ◌∷◌, ◌++◌, map, All, ite, arith, length,
}
use eventhorizon.Errors.{ok, Action}
use eventhorizon.Registry
use eventhorizon.Event.{Event}
use eventhorizon.EventStore.{EventStoreLaws, IsBatch}
use eventhorizon.Command.{Command, check_command}
use eventhorizon.AggregateStore.Events.{Aggregate, AggregateStore, apply_events}
use eventhorizon.AggregateStore.Events
use eventhorizon.AggregateStore.Events.Replay.{IsLoaded, load-save, with_uncommitted}
use eventhorizon.CommandHandler.{
  Handler, Bus, guarded, set_handler, route, handle_on_bus, save_handled, after_load, dispatch,
  handle_aggregate,
}

guarded-passed :
    {S : Type 0} (run : Command → Action S (Unit {0})) (cmd : Command) (s : S)
    → check_command (some cmd) ≡ ok tt
    → guarded run none (some cmd) s ≡ run cmd s
unfolding guarded
guarded-passed run cmd s h = ground arith

-- Once a handler is set for a command type, the bus takes to it the commands of that type that pass
-- the check, and takes all others where it took them before.
pub handle_on_bus-set_handler :
    {S : Type 0} (handler : Handler S) (command_type : String) (bus : Bus S) (cmd : Command) (s : S)
    → (set_handler handler command_type bus).0 ≡ ok tt
    → check_command (some cmd) ≡ ok tt
    → handle_on_bus (set_handler handler command_type bus).1 none (some cmd) s
      ≡ ite
          (String-discrete command_type cmd.command_type)
          (handler none (some cmd) s)
          (handle_on_bus bus none (some cmd) s)
unfolding set_handler handle_on_bus route
handle_on_bus-set_handler handler command_type bus cmd s done passed =
    elim (Option-cases (bus command_type)) [
      | inr (other, there) ↦ absurd (ground arith)
      | inl gone ↦ elim (String-discrete command_type cmd.command_type) [
        | yes p ↦ ground arith
        | no n ↦ ground arith
      ]
    ]

module _ {Any D S : Type 0} (r : AggregateStore Any D S)
    (handle : Command → Action (Aggregate Any D) (Unit {0})) (laws : EventStoreLaws r.store)
    (t : String) (cmd : Command) (factory : ℕ → Aggregate Any D)
    (known : Registry.get r.aggregates t ≡ some factory) (plain : r.snapshot_store ≡ none)
    (versioned : (factory cmd.aggregate_id).versioned ≡ true)
    (own : (factory cmd.aggregate_id).base.id ≡ cmd.aggregate_id)
    (new : (factory cmd.aggregate_id).base.v ≡ 0)
    (empty : (factory cmd.aggregate_id).base.events ≡ []) where
  -- A command that passes the check, for an aggregate that the store holds, and that makes the
  -- aggregate append the next events of its stream: if the store takes the events and they can be
  -- applied, the handler succeeds, the store holds the old events and then the new ones, and the
  -- aggregate that loads from then on is the old one with the new events applied.
  pub command_appends :
      (now : ℕ) (s s' : S) (es : List (Event Any)) (a b : Aggregate Any D) (d : Event Any)
      (ds : List (Event Any))
      → check_command (some cmd) ≡ ok tt
      → IsLoaded r laws t cmd.aggregate_id factory known plain versioned own new empty s es a
      → IsBatch cmd.aggregate_id t (length es) (d ∷ ds)
      → All laws.Storable (d ∷ ds)
      → handle cmd a ≡ (ok tt, with_uncommitted (d ∷ ds) a)
      → r.store.save (d ∷ ds) (length es) s ≡ (ok tt, s')
      → apply_events r.domain (map some (d ∷ ds)) a ≡ (ok tt, b)
      → (handle_aggregate r handle now t none (some cmd) s ≡ (ok tt, s'))
        × laws.Holds s' cmd.aggregate_id (es ++ d ∷ ds)
        × (Events.load r t cmd.aggregate_id s' ≡ (ok b, s'))
  unfolding handle_aggregate dispatch after_load save_handled
  command_appends now s s' es a b d ds passed loaded batch storable handled saved applied =
      let (before, saves, after, holds) =
        load-save r laws t cmd.aggregate_id factory known plain versioned own new empty now s s' es
          a b d ds loaded batch storable saved applied in
      (
        guarded-passed (dispatch r handle now t) cmd s passed
            ∙ rw (before, after_load, handled, save_handled, saves) refl,
        holds,
        after,
      )
