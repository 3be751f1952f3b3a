-- ===== src/Namespace/Outboxes/Serving.antt =====
-- namespace/outbox.go: the outbox of a namespace has the handlers that were added.

use eventhorizon.Prelude.{
  String, String-discrete, ◌≡◌, refl, sym, ap, ◌∙◌, subst, Option, none, some, List, [], ◌∷◌, ◌++◌,
  append_assoc, append-nil,
}
use eventhorizon.Prelude.Maps
use eventhorizon.Errors.{Result, ok, err, panic, Action}
use eventhorizon.Errors.Actions.{lift, bind-ok, wrapped-ok}
use eventhorizon.Event.{Event}
use eventhorizon.Context.{Context, from_context}
use eventhorizon.Namespace.Outboxes.Calls.{
  InnerOutboxLaws, Call, adding, handling, added_by, run_call, run_calls, outbox-some, outbox-none,
  added-new, run_call_handlers, added_by-cons,
}
use eventhorizon.Namespace.Outboxes.{
  MatcherHandler, InnerOutbox, Outboxes, add_inner, add_new, add_handler, add_each, store_outbox,
  new_outbox, outbox, handle_found, handle_event,
}

module _ {Any H O W : Type 0} (inner : InnerOutbox Any H O W) (factory : String → Action W O)
    (type : H → String) (ctx : Context) where
  abbrev ns : String
  ns = from_context ctx

  module _ (l : InnerOutboxLaws inner factory) where
    -- The outbox of the namespace, if there is one, has the handlers that were added, in order.
    abbrev pub Serves : Outboxes Any H O W → Type 0
    Serves s = (o : O) → s.outboxes ns ≡ some o → l.registered s.world o ≡ s.handlers

    add_each-registered :
        (o : O) (hs : List (MatcherHandler Any H)) (w v : W)
        → add_each inner o hs w ≡ (ok tt, v)
        → l.registered v o ≡ l.registered w o ++ hs
    unfolding add_each lift
    add_each-registered o [] w v h =
        ap (λ u. l.registered u o) (sym (ap (λ p. p.1) h)) ∙ sym (append-nil (l.registered w o))
    add_each-registered o (h ∷ hs) w v e =
        let (a, u, first, rest) = bind-ok _ _ w tt v e in
        let later = add_each-registered o hs u v rest in
        later
        ∙ ap (λ q. q ++ hs) (l.added o h w u (wrapped-ok _ _ w tt u first))
        ∙ append_assoc (l.registered w o) (h ∷ []) hs

    store_outbox-Serves :
        (o : O) (s : Outboxes Any H O W) (p : Result (Unit {0}) × W)
        → s.outboxes ns ≡ none
        → ((v : W) → p ≡ (ok tt, v) → l.registered v o ≡ s.handlers)
        → Serves (store_outbox inner ns o s p).1
    unfolding store_outbox
    store_outbox-Serves o s (ok _, w) absent all q there =
        subst (λ x. l.registered (inner.start o w) x ≡ s.handlers) (stored q there)
          (l.started o o w ∙ all w refl)
      where
        stored : (q : O) → Maps.insert String-discrete ns o s.outboxes ns ≡ some q → o ≡ q
        stored q there = let self = Maps.get-insert_self String-discrete ns o s.outboxes in cc
    store_outbox-Serves o s (err x, w) absent all q there = absurd cc
    store_outbox-Serves o s (panic, w) absent all q there = absurd cc

    new_outbox-Serves :
        (s : Outboxes Any H O W) (p : Result O × W)
        → s.outboxes ns ≡ none
        → ((o : O) (v : W) → p ≡ (ok o, v) → l.registered v o ≡ [])
        → Serves (new_outbox inner ns s p).1
    unfolding new_outbox
    new_outbox-Serves s (ok o, w) absent made q there =
        store_outbox-Serves o s (add_each inner o s.handlers w) absent
          (λ v e.
            add_each-registered o s.handlers w v e ∙ ap (λ q. q ++ s.handlers) (made o w refl))
          q there
    new_outbox-Serves s (err x, w) absent made q there = absurd cc
    new_outbox-Serves s (panic, w) absent made q there = absurd cc

    -- However the lookup ends.
    outbox-Serves :
        (f : Option O) (s : Outboxes Any H O W)
        → s.outboxes ns ≡ f
        → Serves s
        → Serves (outbox inner factory ns s).1
    outbox-Serves (some o) s stored h =
        subst (λ p. Serves p.1) (sym (outbox-some inner factory type ctx s o stored)) h
    outbox-Serves none s absent h =
        subst (λ p. Serves p.1) (sym (outbox-none inner factory type ctx s absent))
          (new_outbox-Serves s (factory ns s.world) absent (λ o v e. l.fresh ns o s.world v e))

    handle_found-Serves :
        (e : Event Any) (f : Option O) (s : Outboxes Any H O W)
        → Serves s
        → Serves (handle_found inner factory e f s).1
    unfolding handle_found
    handle_found-Serves e none s h q there = h q there
    handle_found-Serves e (some o) s h q there = l.handled o q e s.world ∙ h q there

    add_inner-Serves :
        (f : Option O) (mh : MatcherHandler Any H) (s t : Outboxes Any H O W)
        → s.outboxes ns ≡ f
        → ((o : O) → f ≡ some o → l.registered s.world o ++ mh ∷ [] ≡ s.handlers)
        → add_inner inner f mh s ≡ (ok tt, t)
        → Serves t
    unfolding add_inner
    add_inner-Serves none mh s t stored h e = λ q there.
        let same : s.outboxes ns ≡ some q = ap (λ p. p.1.outboxes ns) e ∙ there in absurd cc
    add_inner-Serves (some o) mh s t stored h e = subst Serves (ap (λ p. p.1) e) λ q there.
        let own : o ≡ q = cc in
        subst (λ x. l.registered (inner.add_handler o mh s.world).1 x ≡ s.handlers) own
          (l.added o mh s.world _
              (ap (λ r. (r, (inner.add_handler o mh s.world).1)) (ap (λ p. p.0) e))
            ∙ h o refl)

    run_call-Serves :
        (c : Call Any H) (s t : Outboxes Any H O W)
        → Serves s
        → run_call inner factory type ctx c s ≡ (ok tt, t)
        → Serves t
    unfolding run_call add_handler handle_event add_new
    run_call-Serves (adding none h) s t served e = absurd cc
    run_call-Serves (adding (some m) none) s t served e = absurd cc
    run_call-Serves (adding (some m) (some h)) s t served e =
        add_inner-Serves (s.outboxes ns) (record { matcher = m; handler = h }) _ t refl
          (λ o stored. ap (λ hs. hs ++ record { matcher = m; handler = h } ∷ []) (served o stored))
          (added-new inner factory type ctx m h s t e)
    run_call-Serves (handling e) s t served done =
        let (f, u, looked, handled) = bind-ok _ _ s tt t done in
        subst Serves (ap (λ p. p.1) handled) (
          handle_found-Serves e f u
            (subst (λ p. Serves p.1) looked (outbox-Serves (s.outboxes ns) s refl served)))

    -- If all calls under one context succeed, in any order of adding handlers and handling events,
    -- and the outbox of its namespace, if there was one, had the handlers added before: those that
    -- these calls add come after them, in order, and so they do in the outbox of the namespace, if
    -- there is one then.
    pub run_calls-Serves :
        (cs : List (Call Any H)) (s t : Outboxes Any H O W)
        → Serves s
        → run_calls inner factory type ctx cs s ≡ (ok tt, t)
        → (t.handlers ≡ s.handlers ++ added_by cs)
          × ((o : O) → t.outboxes ns ≡ some o → l.registered t.world o ≡ s.handlers ++ added_by cs)
    unfolding run_calls lift added_by
    run_calls-Serves [] s t h e =
        let kept : t.handlers ≡ s.handlers ++ [] =
          sym (ap (λ p. p.1.handlers) e) ∙ sym (append-nil s.handlers) in
        (kept, λ o there. subst Serves (ap (λ p. p.1) e) h o there ∙ kept)
    run_calls-Serves (c ∷ cs) s t h e =
        let (a, u, first, rest) = bind-ok _ _ s tt t e in
        let (all, served) = run_calls-Serves cs u t (run_call-Serves c s u h first) rest in
        let joined : u.handlers ++ added_by cs ≡ s.handlers ++ added_by (c ∷ cs) =
          ap (λ hs. hs ++ added_by cs) (run_call_handlers inner factory type ctx c s u first)
          ∙ append_assoc s.handlers (added_by (c ∷ [])) (added_by cs)
          ∙ ap (λ hs. s.handlers ++ hs) (added_by-cons inner factory type ctx c cs) in
        (all ∙ joined, λ o there. served o there ∙ joined)
