-- ===== src/EventBus.antt =====
-- eventbus/local/eventbus.go: a bus sends each event, as bytes, to the channels of its group, and a
-- goroutine for each handler receives from the channel of its type. `W` is all that the handlers act
-- on. The channels are stored under the handlers' types; a group that is closed has no map. The error
-- log is left out; an error that finds errCh full is dropped.
pub mod Delivery
mod Tests
use eventhorizon.Prelude.{
  ℕ, String, String-discrete, Bool, true, false, Option, none, some, List, [], ◌∷◌, ◌++◌, length,
  ltb, ite, if◌then◌else◌,
}
use eventhorizon.Prelude.Maps
use eventhorizon.Prelude.Maps.{Map}
use eventhorizon.Errors.{
  Err, Result, ok, err, panic, Action, sentinel, wrap, errorf, event_bus_error, missing_matcher,
  missing_handler, handler_already_added,
}
use eventhorizon.Errors.Actions.{◌>>=◌, lift}
use eventhorizon.Event.{Event}
use eventhorizon.Matcher.{Matcher, matches}
use eventhorizon.Context.{Context}

-- DefaultQueueSize, and the capacity of errCh.
abbrev pub default_queue_size : ℕ
default_queue_size = 1000

abbrev pub error_size : ℕ
error_size = 100

-- `select { case c <- x: default: }`, for a channel of some capacity.
unfoldable pub send : {A : Type 0} → ℕ → A → List A → List A
send size x channel = if ltb (length channel) size then channel ++ x ∷ [] else channel

-- eventhorizon.EventCodec, under the contexts of the bus.
pub record EventCodec (Any : Type 0) : Type 0 where
  pub marshal_event : Context → Event Any → Result (List ℕ)
  pub unmarshal_event : List ℕ → Result (Event Any × Context)

pub record Handler (Any W : Type 0) : Type 0 where
  pub handler_type : String
  pub handle : Context → Event Any → Action W (Unit {0})

pub record Group : Type 0 where
  pub bus : Map String (List (List ℕ))
  pub is_open : Bool

unfoldable pub channel : String → Action Group (Unit {0})
channel id g = elim (g.bus id) [
  | some ch ↦ (ok tt, g)
  | none ↦
      if g.is_open
      then (ok tt, record g { bus = Maps.insert String-discrete id [] g.bus })
      else (panic, g)
]

publish_to : List ℕ → Option (List (List ℕ)) → Option (List (List ℕ))
unfolding send
publish_to b none = none
publish_to b (some ch) = some (send default_queue_size b ch)

-- The loop over the map; each channel has the same done to it.
unfoldable pub publish : List ℕ → Group → Group
unfolding publish_to
publish b g = record g { bus = λ id. publish_to b (g.bus id) }

-- close of the group; a second one closes nothing.
unfoldable pub close_group : Group → Group
close_group g = record g { bus = Maps.empty; is_open = false }

-- A goroutine of `handle`, which ends when an event cannot be read.
pub record Listener (Any W : Type 0) : Type 0 where
  pub matcher : Matcher Any
  pub handler : Handler Any W

pub record Bus (Any W : Type 0) : Type 0 where
  pub group : Group
  pub registered : String → Bool
  pub listeners : List (Listener Any W)

module _ {Any W : Type 0} where
  -- What follows the call of the group's channel.
  listen : Listener Any W → Bus Any W → Result (Unit {0}) × Group → Result (Unit {0}) × Bus Any W
  listen n b (ok _, g) = (
    ok tt,
    record b {
      group = g;
      registered = λ t. ite (String-discrete n.handler.handler_type t) true (b.registered t);
      listeners = b.listeners ++ n ∷ [];
    },
  )
  listen n b (err x, g) = (err x, record b { group = g })
  listen n b (panic, g) = (panic, record b { group = g })

  unfoldable pub add_handler :
      Option (Matcher Any) → Option (Handler Any W) → Action (Bus Any W) (Unit {0})
  unfolding listen channel
  add_handler none h b = (err (sentinel missing_matcher), b)
  add_handler (some m) none b = (err (sentinel missing_handler), b)
  add_handler (some m) (some h) b =
      if b.registered h.handler_type
      then (err (sentinel handler_already_added), b)
      else listen (record { matcher = m; handler = h }) b (channel h.handler_type b.group)

  module _ (codec : EventCodec Any) where
    publish_marshalled : Result (List ℕ) → Action (Bus Any W) (Unit {0})
    unfolding publish
    publish_marshalled (ok raw) b = (ok tt, record b { group = publish raw b.group })
    publish_marshalled (err x) b = (err (wrap (errorf "could not marshal event") x), b)
    publish_marshalled panic b = (panic, b)

    unfoldable pub handle_event : Context → Event Any → Action (Bus Any W) (Unit {0})
    unfolding publish_marshalled
    handle_event ctx event b = publish_marshalled (codec.marshal_event ctx event) b

    -- What follows a call of the handler: an error goes to errCh, a panic ends the program.
    unfoldable pub report : List Err → Result (Unit {0}) × W → Result (Unit {0}) × (List Err × W)
    unfolding send
    report errs (ok _, w) = (ok tt, (errs, w))
    report errs (err x, w) = (
      ok tt,
      (send error_size (wrap event_bus_error (wrap (errorf "could not handle event") x)) errs, w),
    )
    report errs (panic, w) = (panic, (errs, w))

    -- One turn of `handle`, after the event was read.
    unfoldable pub handle_read :
        Listener Any W → Event Any × Context → Action (List Err × W) (Unit {0})
    unfolding report
    handle_read n (event, ctx) (errs, w) =
        if matches n.matcher (some event)
        then report errs (n.handler.handle ctx event w)
        else (ok tt, (errs, w))

    unreadable : Err → Action (List Err × W) Bool
    unfolding send
    unreadable x (errs, w) = (
      ok false,
      (
        send error_size (wrap event_bus_error (wrap (errorf "could not unmarshal event") x)) errs,
        w,
      ),
    )

    -- A turn, before the turns of `rest`.
    after_read :
        Listener Any W
        → Action (List Err × W) Bool
        → Result (Event Any × Context)
        → Action (List Err × W) Bool
    unfolding handle_read unreadable
    after_read n rest (ok read) = handle_read n read >>= λ _. rest
    after_read n rest (err x) = unreadable x
    after_read n rest panic = lift panic

    -- The loop of `handle` over what it receives; false if it has ended, after which nobody receives
    -- from the channel.
    unfoldable pub handle : Listener Any W → List (List ℕ) → Action (List Err × W) Bool
    unfolding after_read
    handle n [] = lift (ok true)
    handle n (b ∷ bs) = after_read n (handle n bs) (codec.unmarshal_event b)
