-- ===== src/Namespace/Outboxes.antt =====
-- namespace/outbox.go: one outbox per namespace. `H` is what an application adds as a handler and `O`
-- an inner outbox, which acts on the world `W`. The goroutine that forwards errors is left out.
pub mod Calls
pub mod Serving
use eventhorizon.Prelude.{String, String-discrete, ◌≡◌, Option, none, some, List, [], ◌∷◌, ◌++◌}
use eventhorizon.Prelude.Maps
use eventhorizon.Prelude.Maps.{Map}
use eventhorizon.Errors.{
  Err, Result, ok, err, panic, Action, sentinel, wrap, errorf, missing_matcher, missing_handler,
  handler_already_added,
}
use eventhorizon.Errors.Actions.{◌>>=◌, lift, wrapped}
use eventhorizon.Event.{Event}
use eventhorizon.Matcher.{Matcher}
use eventhorizon.Context.{Context, background, with_namespace, from_context}

pub record MatcherHandler (Any H : Type 0) : Type 0 where
  pub matcher : Matcher Any
  pub handler : H

-- The methods of eventhorizon.Outbox.
pub record InnerOutbox (Any H O W : Type 0) : Type 0 where
  pub add_handler : O → MatcherHandler Any H → Action W (Unit {0})
  pub handle_event : O → Event Any → Action W (Unit {0})
  pub start : O → W → W

pub record Outboxes (Any H O W : Type 0) : Type 0 where
  pub outboxes : Map String O
  pub handlers : List (MatcherHandler Any H)
  pub handlers_by_type : Map String (MatcherHandler Any H)
  pub world : W

module _ {Any H O W : Type 0} (inner : InnerOutbox Any H O W) where
  -- AddHandler on the outbox of the context's namespace, if there is one.
  add_inner : Option O → MatcherHandler Any H → Action (Outboxes Any H O W) (Unit {0})
  add_inner none mh s = (ok tt, s)
  add_inner (some o) mh s =
      let (r, w) = inner.add_handler o mh s.world in (r, record s { world = w })

  pub add_new : String → String → MatcherHandler Any H → Action (Outboxes Any H O W) (Unit {0})
  unfolding add_inner
  add_new ns type mh s = add_inner (s.outboxes ns) mh (record s {
    handlers = s.handlers ++ mh ∷ [];
    handlers_by_type = Maps.insert String-discrete type mh s.handlers_by_type;
  })

  unfoldable pub add_handler :
      (H → String)
      → String
      → Option (Matcher Any)
      → Option H
      → Action (Outboxes Any H O W) (Unit {0})
  unfolding add_new
  add_handler type ns none h s = (err (sentinel missing_matcher), s)
  add_handler type ns (some m) none s = (err (sentinel missing_handler), s)
  add_handler type ns (some m) (some h) s = elim (s.handlers_by_type (type h)) [
    | some mh ↦ (err (sentinel handler_already_added), s)
    | none ↦ add_new ns (type h) (record { matcher = m; handler = h }) s
  ]

  -- The loop over the handlers for a new outbox.
  unfoldable pub add_each : O → List (MatcherHandler Any H) → Action W (Unit {0})
  add_each o [] = lift (ok tt)
  add_each o (h ∷ hs) =
      wrapped (errorf "could not add handler for outbox in namespace") (inner.add_handler o h)
      >>= λ _. add_each o hs

  -- What follows that loop: only an outbox with all handlers is started and stored.
  store_outbox :
      String
      → O
      → Outboxes Any H O W
      → Result (Unit {0}) × W
      → Result (Option O) × Outboxes Any H O W
  store_outbox ns o s (ok _, w) = (
    ok (some o),
    record s { outboxes = Maps.insert String-discrete ns o s.outboxes; world = inner.start o w },
  )
  store_outbox ns o s (err x, w) = (err x, record s { world = w })
  store_outbox ns o s (panic, w) = (panic, record s { world = w })

  pub new_outbox :
      String → Outboxes Any H O W → Result O × W → Result (Option O) × Outboxes Any H O W
  unfolding add_each store_outbox
  new_outbox ns s (ok o, w) = store_outbox ns o s (add_each o s.handlers w)
  new_outbox ns s (err x, w) =
      (err (wrap (errorf "could not create outbox for namespace") x), record s { world = w })
  new_outbox ns s (panic, w) = (panic, record s { world = w })

  module _ (factory : String → Action W O) where
    -- The block under the write lock, whose check does not assign what it finds.
    unfoldable pub outbox_locked : String → Action (Outboxes Any H O W) (Option O)
    unfolding new_outbox
    outbox_locked ns s = elim (s.outboxes ns) [
      | some o ↦ (ok none, s)
      | none ↦ new_outbox ns s (factory ns s.world)
    ]

    -- The two looks of one caller, with nobody in between.
    unfoldable pub outbox : String → Action (Outboxes Any H O W) (Option O)
    unfolding outbox_locked
    outbox ns s = elim (s.outboxes ns) [ some o ↦ (ok (some o), s) | none ↦ outbox_locked ns s ]

    handle_found : Event Any → Option O → Action (Outboxes Any H O W) (Unit {0})
    handle_found event none s = (panic, s)
    handle_found event (some o) s =
        let (r, w) = inner.handle_event o event s.world in (r, record s { world = w })

    unfoldable pub handle_event : Context → Event Any → Action (Outboxes Any H O W) (Unit {0})
    unfolding outbox handle_found from_context
    handle_event ctx event = outbox (from_context ctx) >>= handle_found event

    unfoldable pub pre_register_outbox : String → Action (Outboxes Any H O W) (Unit {0})
    unfolding outbox from_context with_namespace
    pre_register_outbox ns =
        outbox (from_context (with_namespace background ns)) >>= λ _. lift (ok tt)

  -- Start, over the outboxes in the order that the runtime picks.
  unfoldable pub start_each : List O → W → W
  start_each [] w = w
  start_each (o ∷ os) w = start_each os (inner.start o w)
