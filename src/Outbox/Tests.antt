-- ===== src/Outbox/Tests.antt =====
-- An outbox with one event for two handlers: one counts events, the other fails.
use mathlib.Core.List.{Memᴰ}
use eventhorizon.Prelude.{
  ℕ, suc, String, String-discrete, ℕ_discrete, ◌≡◌, ◌≤◌, arith, sym, ap, subst, refl, ◌⊎◌, true,
  false, none, some, List, [], ◌∷◌, ite, Option,
}
use eventhorizon.Prelude.Maps
use eventhorizon.Errors.{ok, err, message}
use eventhorizon.Matcher.{Matcher, match_events, matches}
use eventhorizon.Event.{Event}
use eventhorizon.Samples.{codec, paid}
use eventhorizon.Outbox.{
  Handler, MatcherHandler, OutboxDoc, Outbox, new_outbox, handle_event, process_full_outbox,
}
use eventhorizon.Outbox.Effects.{IsKept, IsBrought}
use eventhorizon.Outbox.Delivery.{Waits}
use eventhorizon.Outbox.Sweep.{sweep-Waits}
use eventhorizon.Outbox.Adding.{handle_event-Waits}

abbrev payments : Matcher ℕ
payments = match_events ("paid" ∷ [])

abbrev counter : Handler ℕ ℕ
counter = record { handler_type = "counter"; handle = λ event w. (ok tt, suc w) }

abbrev broken : Handler ℕ ℕ
broken = record { handler_type = "broken"; handle = λ event w. (err (message "broken"), w) }

abbrev two_handlers : List (MatcherHandler ℕ ℕ)
two_handlers =
    record { matcher = payments; handler = counter }
    ∷ record { matcher = payments; handler = broken }
    ∷ []

abbrev doc : Option ℕ → OutboxDoc ℕ
doc taken_at = record {
  doc_event = paid;
  handlers = "counter" ∷ "broken" ∷ [];
  created_at = 100;
  taken_at = taken_at;
}

abbrev holding : Option ℕ → Outbox ℕ ℕ
holding taken_at = record {
  docs = Maps.insert ℕ_discrete 1 (doc taken_at) Maps.empty;
  db = λ j. ite (ℕ_discrete 1 j) true false;
  handlers = two_handlers;
  handlers_by_type =
      Maps.insert String-discrete "broken" (record { matcher = payments; handler = broken })
        (Maps.insert String-discrete "counter" (record { matcher = payments; handler = counter })
          Maps.empty);
  watch = [];
  errors = [];
}

waits : Waits (holding none) 1 paid "counter"
unfolding ℕ_discrete
waits = (doc none, refl, refl, refl, Memᴰ.head refl)

-- The counter has counted.
abbrev HasCounted : ℕ → Type 0
HasCounted w = 1 ≤ w

the_handler : {A : Type 0} {a b : A} → some a ≡ some b → a ≡ b
the_handler h = cc

kept : IsKept (holding none).handlers_by_type HasCounted
kept n h known e w p = elim (String-discrete "broken" n) [
  | yes q ↦
      let own : record { matcher = payments; handler = broken } ≡ h = the_handler (ground arith) in
      subst (λ (g : MatcherHandler ℕ ℕ). HasCounted (g.handler.handle e w).1) own p
  | no q ↦ elim (String-discrete "counter" n) [
    | yes r ↦
        let own : record { matcher = payments; handler = counter } ≡ h =
          the_handler (ground arith) in
        subst (λ (g : MatcherHandler ℕ ℕ). HasCounted (g.handler.handle e w).1) own
          (omega (arith, p))
    | no r ↦ absurd (ground arith)
  ]
]

brought : IsBrought (holding none).handlers_by_type paid "counter" HasCounted
unfolding String-discrete
brought h known w v called =
    let own : record { matcher = payments; handler = counter } ≡ h = the_handler known in
    let counted : suc w ≡ v =
      ap (λ p. p.1)
        (subst (λ (g : MatcherHandler ℕ ℕ). g.handler.handle paid w ≡ (ok tt, v)) (sym own)
          called) in
    omega (arith, counted)

sweep-Waits_example :
    HasCounted (process_full_outbox (1 ∷ []) 200 (holding none, 0)).1.1
    ⊎ Waits (process_full_outbox (1 ∷ []) 200 (holding none, 0)).1.0 1 paid "counter"
sweep-Waits_example =
    sweep-Waits HasCounted (1 ∷ []) 200 1 (holding none) 0 paid "counter" kept brought waits

-- The sweep counts the event once, and keeps the document for the broken handler.
swept : (process_full_outbox (1 ∷ []) 200 (holding none, 0)).1.1 ≡ 1
unfolding process_full_outbox ℕ_discrete String-discrete matches
swept = refl

abbrev empty : Outbox ℕ ℕ
empty = record {
  docs = Maps.empty;
  db = λ id. false;
  handlers = [];
  handlers_by_type = Maps.empty;
  watch = [];
  errors = [];
}

empty_made : new_outbox ≡ empty
unfolding new_outbox
empty_made = refl

handle_event-Waits_example :
    ((handle_event codec 2 120 paid (holding none)).0 ≡ ok tt)
    × ((h : MatcherHandler ℕ ℕ)
        → Memᴰ h two_handlers
        → matches h.matcher (some paid) ≡ true
        → Waits (handle_event codec 2 120 paid (holding none)).1 2 paid h.handler.handler_type)
    × ((j : ℕ) (d : Event ℕ) (name : String)
        → Waits (holding none) j d name
        → Waits (handle_event codec 2 120 paid (holding none)).1 j d name)
unfolding ℕ_discrete
handle_event-Waits_example = handle_event-Waits codec 2 120 paid (holding none) (0, refl, refl) refl
