-- ===== src/EventBus/Delivery.antt =====
-- eventbus/local/eventbus.go: what is published is handled, in order, by the listeners that match.
use eventhorizon.Prelude.{ℕ, ◌≡◌, Bool, true, some, List, [], ◌∷◌, ◌++◌, length, ltb, if◌then◌else◌}
use eventhorizon.Errors.{Err, Result, ok, err, panic, Action, wrap, event_bus_error, errorf}
use eventhorizon.Errors.Actions.{◌>>=◌, lift}
use eventhorizon.Event.{Event}
use eventhorizon.Matcher.{matches}
use eventhorizon.Context.{Context}
use eventhorizon.EventBus.{EventCodec, Bus, Listener, handle_event, handle}

module _ {Any : Type 0} (codec : EventCodec Any) (copied : Context → Context) where
  -- The bytes are read as the events, under copies of their contexts.
  abbrev pub AreRead : List (List ℕ) → List (Event Any × Context) → Type 0
  AreRead [] [] = Unit
  AreRead [] (e ∷ es) = ⊥
  AreRead (b ∷ bs) [] = ⊥
  AreRead (b ∷ bs) ((e, ctx) ∷ es) = (codec.unmarshal_event b ≡ ok (e, copied ctx)) × AreRead bs es

  unfoldable pub received : List (Event Any × Context) → List (Event Any × Context)
  received [] = []
  received ((e, ctx) ∷ es) = (e, copied ctx) ∷ received es

-- The error channel has room for 100 errors; what does not fit is lost.
abbrev pub told : Err → List Err → List Err
told x errs =
    if ltb (length errs) 100
    then errs ++ wrap event_bus_error (wrap (errorf "could not handle event") x) ∷ []
    else errs

module _ {Any W : Type 0} (codec : EventCodec Any) where
  -- Events published one after the other, each under its context, until one fails.
  unfoldable pub publish_all : List (Event Any × Context) → Action (Bus Any W) (Unit {0})
  publish_all [] = lift (ok tt)
  publish_all ((e, ctx) ∷ es) = handle_event codec ctx e >>= λ _. publish_all es

  -- What one listener should do with events: those that match are handled, in order.
  unfoldable pub matching : Listener Any W → List (Event Any × Context) → List (Event Any × Context)
  matching n [] = []
  matching n ((e, ctx) ∷ es) =
      let rest = matching n es in if matches n.matcher (some e) then (e, ctx) ∷ rest else rest

  -- After a call of the handler a listener goes on with the rest; an error is told on the error
  -- channel, and only a panic is the end.
  unfoldable pub go_on :
      Result (Unit {0}) × W → List Err → Action (List Err × W) Bool → Result Bool × (List Err × W)
  go_on (ok _, w) errs rest = rest (errs, w)
  go_on (err x, w) errs rest = rest (told x errs, w)
  go_on (panic, w) errs rest = (panic, (errs, w))

  -- What a listener should do with the events that it handles: all of them, in order.
  unfoldable pub handle_each :
      Listener Any W → List (Event Any × Context) → Action (List Err × W) Bool
  unfolding go_on
  handle_each n [] s = (ok true, s)
  handle_each n ((e, ctx) ∷ es) (errs, w) = go_on (n.handler.handle ctx e w) errs (handle_each n es)
