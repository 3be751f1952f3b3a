-- ===== src/Namespace/OutboxTests.antt =====
-- namespace/outbox.go with inner outboxes that only note their handlers.
use eventhorizon.Prelude.{
  ℕ, String, String-discrete, ◌≡◌, refl, sym, ap, none, some, List, [], ◌∷◌, ◌++◌,
}
use eventhorizon.Prelude.Maps
use eventhorizon.Errors.{Result, ok, Action}
use eventhorizon.Errors.Actions.{◌>>=◌, lift, wrapped}
use eventhorizon.Event.{Event}
use eventhorizon.Matcher.{match_aggregates}
use eventhorizon.Context.{Context, with_namespace, from_context, background}
use eventhorizon.Namespace.Outboxes.{
  MatcherHandler, InnerOutbox, Outboxes, add_handler, add_each, outbox, outbox_locked, handle_event,
}
use eventhorizon.Namespace.Outboxes.Calls.{
  InnerOutboxLaws, Call, adding, handling, added_by, run_call, run_calls,
}
use eventhorizon.Namespace.Outboxes.Serving.{run_calls-Serves}

abbrev Noted : Type 0
Noted = List (MatcherHandler ℕ String)

abbrev noting : InnerOutbox ℕ String (Unit {0}) Noted
noting = record {
  add_handler = λ o h w. (ok tt, w ++ h ∷ []);
  handle_event = λ o e w. (ok tt, w);
  start = λ o w. w;
}

abbrev empty_outbox : String → Action Noted (Unit {0})
empty_outbox ns w = (ok tt, [])

abbrev noting_laws : InnerOutboxLaws noting empty_outbox
noting_laws = record {
  registered = λ w o. w;
  added = λ o h w v e. sym (ap (λ p. p.1) e);
  handled = λ o p e w. refl;
  started = λ o p w. refl;
  fresh = λ ns o w v e. sym (ap (λ p. p.1) e);
}

abbrev tenant : Context
tenant = with_namespace background "tenant"

abbrev event : Event ℕ
event = record {
  event_type = "opened";
  payload = some 1;
  timestamp = 10;
  aggregate_type = "account";
  aggregate_id = 7;
  version = 1;
  metadata = none;
}

-- A handler before the first event of the namespace, and one after it.
abbrev calls : List (Call ℕ String)
calls =
    adding (some (match_aggregates ("account" ∷ []))) (some "mailer")
    ∷ handling event
    ∷ adding (some (match_aggregates [])) (some "counter")
    ∷ []

abbrev fresh : Outboxes ℕ String (Unit {0}) Noted
fresh = record { outboxes = Maps.empty; handlers = []; handlers_by_type = Maps.empty; world = [] }

abbrev run : Result (Unit {0}) × Outboxes ℕ String (Unit {0}) Noted
run = run_calls noting empty_outbox (λ h. h) tenant calls fresh

abbrev both : List (MatcherHandler ℕ String)
both =
    record { matcher = match_aggregates ("account" ∷ []); handler = "mailer" }
    ∷ record { matcher = match_aggregates []; handler = "counter" }
    ∷ []

run_calls-Serves_example :
    (run.1.handlers ≡ both)
    × ((o : Unit {0}) → run.1.outboxes "tenant" ≡ some o → run.1.world ≡ both)
unfolding run_calls run_call add_handler handle_event outbox outbox_locked add_each from_context
    with_namespace ◌>>=◌ lift wrapped String-discrete added_by
run_calls-Serves_example =
    run_calls-Serves noting empty_outbox (λ h. h) tenant noting_laws calls fresh run.1
      (λ o e. absurd cc) refl
