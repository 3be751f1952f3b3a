-- ===== src/CommandHandler.antt =====
-- commandhandler.go, commandhandler/bus, commandhandler/aggregate, middleware.go, and the lock and
-- validate middleware. Of a context a handler reads whether it is done: `some` of its error. `S` is
-- all that the handlers act on.
pub mod Dispatch
pub mod Locking
mod Tests
use eventhorizon.Prelude.{
  ℕ, String, String-discrete, ℕ_discrete, Bool, true, false, Option, none, some, List, [], ◌∷◌, ite,
  if◌then◌else◌,
}
use eventhorizon.Prelude.Maps
use eventhorizon.Prelude.Maps.{Map}
use eventhorizon.Errors.{
  Err, Result, ok, err, panic, Action, sentinel, wrap, aggregate_error, validate_error,
  handler_already_set, handler_not_found, lock_exists, no_lock_exists,
}
use eventhorizon.Command.{Command, check_command}
use eventhorizon.AggregateStore.Events.{Aggregate, AggregateStore}
use eventhorizon.AggregateStore.Events

abbrev pub Handler : Type 0 → Type 0
Handler S = Option Err → Option Command → Action S (Unit {0})

-- The beginning of HandleCommand: a context that is done, or a command that does not pass the check,
-- ends it.
guarded : {S : Type 0} → (Command → Action S (Unit {0})) → Handler S
guarded run (some cause) cmd s = (err cause, s)
guarded run none none s = (check_command none, s)
guarded run none (some cmd) s = elim (check_command (some cmd)) [
  | ok _ ↦ run cmd s
  | err x ↦ (err x, s)
  | panic ↦ (panic, s)
]

-- The command bus: the map of handlers.
abbrev pub Bus : Type 0 → Type 0
Bus S = Map String (Handler S)

module _ {S : Type 0} where
  unfoldable pub new_bus : Bus S
  new_bus = Maps.empty

  unfoldable pub set_handler : Handler S → String → Action (Bus S) (Unit {0})
  set_handler handler command_type bus = elim (bus command_type) [
    | some _ ↦ (err (sentinel handler_already_set), bus)
    | none ↦ (ok tt, Maps.insert String-discrete command_type handler bus)
  ]

  route : Bus S → Command → Action S (Unit {0})
  route bus cmd s = elim (bus cmd.command_type) [
    | some handler ↦ handler none (some cmd) s
    | none ↦ (err (sentinel handler_not_found), s)
  ]

  unfoldable pub handle_on_bus : Bus S → Handler S
  unfolding guarded route
  handle_on_bus bus = guarded (route bus)

module _ {Any D S : Type 0} (r : AggregateStore Any D S)
    (handle : Command → Action (Aggregate Any D) (Unit {0})) where
  -- What follows the aggregate's own HandleCommand.
  save_handled : ℕ → Result (Unit {0}) × Aggregate Any D → Action S (Unit {0})
  save_handled now (ok _, a) s = let (saved, t) = Events.save r now (s, a) in (saved, t.0)
  save_handled now (err x, a) s = (err (wrap aggregate_error x), s)
  save_handled now (panic, a) s = (panic, s)

  after_load : ℕ → Command → Result (Aggregate Any D) × S → Result (Unit {0}) × S
  unfolding save_handled
  after_load now cmd (ok a, s) = save_handled now (handle cmd a) s
  after_load now cmd (err x, s) = (err x, s)
  after_load now cmd (panic, s) = (panic, s)

  dispatch : ℕ → String → Command → Action S (Unit {0})
  unfolding after_load
  dispatch now t cmd s = after_load now cmd (Events.load r t cmd.aggregate_id s)

  -- The aggregate command handler for the aggregate type `t`; `now` is the time of a snapshot.
  unfoldable pub handle_aggregate : ℕ → String → Handler S
  unfolding guarded dispatch
  handle_aggregate now t = guarded (dispatch now t)

-- LocalLock, by the IDs that are locked.
abbrev pub Locks : Type 0
Locks = ℕ → Bool

unfoldable pub lock : ℕ → Action Locks (Unit {0})
lock id locks =
    if locks id
    then (err (sentinel lock_exists), locks)
    else (ok tt, λ j. ite (ℕ_discrete id j) true (locks j))

unfoldable pub unlock : ℕ → Action Locks (Unit {0})
unlock id locks =
    if locks id
    then (ok tt, λ j. ite (ℕ_discrete id j) false (locks j))
    else (err (sentinel no_lock_exists), locks)

module _ {S : Type 0} where
  -- The deferred call, which runs also after a panic. An error of Unlock is only logged.
  unlocked : {A : Type 0} → ℕ → A × (Locks × S) → A × (Locks × S)
  unfolding unlock
  unlocked id (r, (locks, s)) = (r, ((unlock id locks).1, s))

  with_lock :
      Handler (Locks × S)
      → Option Err
      → Command
      → Result (Unit {0}) × Locks
      → S
      → Result (Unit {0}) × (Locks × S)
  unfolding unlocked
  with_lock h ctx cmd (ok _, locks) s = unlocked cmd.aggregate_id (h ctx (some cmd) (locks, s))
  with_lock h ctx cmd (err x, locks) s = (err x, (locks, s))
  with_lock h ctx cmd (panic, locks) s = (panic, (locks, s))

  -- A nil command has no aggregate ID to read.
  unfoldable pub lock_middleware : Handler (Locks × S) → Handler (Locks × S)
  unfolding lock with_lock
  lock_middleware h ctx none s = (panic, s)
  lock_middleware h ctx (some cmd) (locks, s) = with_lock h ctx cmd (lock cmd.aggregate_id locks) s

  -- A nil command is no command with validation.
  unfoldable pub validate_middleware : Handler S → Handler S
  validate_middleware h ctx none s = h ctx none s
  validate_middleware h ctx (some cmd) s = elim cmd.validate [
    | none ↦ h ctx (some cmd) s
    | some none ↦ h ctx (some cmd) s
    | some (some x) ↦ (err (wrap validate_error x), s)
  ]

-- The loop of applyMiddleware runs from the last middleware to the first.
unfoldable pub apply_middleware : {H : Type 0} → H → List (H → H) → H
apply_middleware h [] = h
apply_middleware h (m ∷ middleware) = m (apply_middleware h middleware)
