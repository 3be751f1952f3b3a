-- ===== src/Namespace/Outboxes/Calls.antt =====
-- namespace/outbox.go: calls under one context, and the handlers that they add.

use eventhorizon.Prelude.{
  String, ◌≡◌, refl, sym, ap, ◌∙◌, Option, none, some, List, [], ◌∷◌, ◌++◌, append-nil, arith,
}
use eventhorizon.Errors.{Result, ok, err, panic, Action}
use eventhorizon.Errors.Actions.{◌>>=◌, lift, bind-ok}
use eventhorizon.Event.{Event}
use eventhorizon.Matcher.{Matcher}
use eventhorizon.Context.{Context, from_context}
use eventhorizon.Namespace.Outboxes.{
  MatcherHandler, InnerOutbox, Outboxes, add_inner, add_new, add_handler, add_each, store_outbox,
  new_outbox, outbox_locked, outbox, handle_found, handle_event,
}

-- What is relied on of an inner outbox: `registered` is its list of handlers.
pub record InnerOutboxLaws {Any H O W : Type 0} (inner : InnerOutbox Any H O W)
    (factory : String → Action W O) : Type 0 where
  pub registered : W → O → List (MatcherHandler Any H)
  pub added :
      (o : O) (h : MatcherHandler Any H) (w v : W)
      → inner.add_handler o h w ≡ (ok tt, v)
      → registered v o ≡ registered w o ++ h ∷ []
  pub handled :
      (o p : O) (e : Event Any) (w : W) → registered (inner.handle_event o e w).1 p ≡ registered w p
  pub started : (o p : O) (w : W) → registered (inner.start o w) p ≡ registered w p
  pub fresh : (ns : String) (o : O) (w v : W) → factory ns w ≡ (ok o, v) → registered v o ≡ []

-- A call under one context.
pub data Call (Any H : Type 0) : Type 0 where
  adding : Option (Matcher Any) → Option H → Call Any H
  handling : Event Any → Call Any H

-- The handlers that calls of AddHandler bring, with their matchers.
unfoldable pub added_by : {Any H : Type 0} → List (Call Any H) → List (MatcherHandler Any H)
added_by [] = []
added_by (adding (some m) (some h) ∷ cs) = record { matcher = m; handler = h } ∷ added_by cs
added_by (_ ∷ cs) = added_by cs

module _ {Any H O W : Type 0} (inner : InnerOutbox Any H O W) (factory : String → Action W O)
    (type : H → String) (ctx : Context) where
  unfoldable pub run_call : Call Any H → Action (Outboxes Any H O W) (Unit {0})
  run_call (adding m h) = add_handler inner type (from_context ctx) m h
  run_call (handling e) = handle_event inner factory ctx e

  -- Calls one after the other, until one fails.
  unfoldable pub run_calls : List (Call Any H) → Action (Outboxes Any H O W) (Unit {0})
  unfolding run_call
  run_calls [] = lift (ok tt)
  run_calls (c ∷ cs) = run_call c >>= λ _. run_calls cs

  abbrev ns : String
  ns = from_context ctx

  pub outbox-some :
      (s : Outboxes Any H O W) (o : O)
      → s.outboxes ns ≡ some o
      → outbox inner factory ns s ≡ (ok (some o), s)
  unfolding outbox
  outbox-some s o stored = ground arith

  pub outbox-none :
      (s : Outboxes Any H O W)
      → s.outboxes ns ≡ none
      → outbox inner factory ns s ≡ new_outbox inner ns s (factory ns s.world)
  unfolding outbox outbox_locked
  outbox-none s absent = ground arith

  pub added-new :
      (m : Matcher Any) (h : H) (s t : Outboxes Any H O W)
      → add_handler inner type ns (some m) (some h) s ≡ (ok tt, t)
      → add_new inner ns (type h) (record { matcher = m; handler = h }) s ≡ (ok tt, t)
  unfolding add_handler
  added-new m h s t e = ground arith

  store_outbox_handlers :
      (o : O) (s : Outboxes Any H O W) (p : Result (Unit {0}) × W)
      → (store_outbox inner ns o s p).1.handlers ≡ s.handlers
  unfolding store_outbox
  store_outbox_handlers o s (ok _, w) = refl
  store_outbox_handlers o s (err x, w) = refl
  store_outbox_handlers o s (panic, w) = refl

  new_outbox_handlers :
      (s : Outboxes Any H O W) (p : Result O × W)
      → (new_outbox inner ns s p).1.handlers ≡ s.handlers
  unfolding new_outbox
  new_outbox_handlers s (ok o, w) = store_outbox_handlers o s (add_each inner o s.handlers w)
  new_outbox_handlers s (err x, w) = refl
  new_outbox_handlers s (panic, w) = refl

  outbox_handlers :
      (f : Option O) (s : Outboxes Any H O W)
      → s.outboxes ns ≡ f
      → (outbox inner factory ns s).1.handlers ≡ s.handlers
  outbox_handlers (some o) s stored = ap (λ p. p.1.handlers) (outbox-some s o stored)
  outbox_handlers none s absent =
      ap (λ p. p.1.handlers) (outbox-none s absent) ∙ new_outbox_handlers s (factory ns s.world)

  handle_found_handlers :
      (e : Event Any) (f : Option O) (s : Outboxes Any H O W)
      → (handle_found inner factory e f s).1.handlers ≡ s.handlers
  unfolding handle_found
  handle_found_handlers e none s = refl
  handle_found_handlers e (some o) s = refl

  add_inner_handlers :
      (f : Option O) (mh : MatcherHandler Any H) (s : Outboxes Any H O W)
      → (add_inner inner f mh s).1.handlers ≡ s.handlers
  unfolding add_inner
  add_inner_handlers none mh s = refl
  add_inner_handlers (some o) mh s = refl

  -- A call that succeeds adds its handler, and nothing else.
  pub run_call_handlers :
      (c : Call Any H) (s t : Outboxes Any H O W)
      → run_call c s ≡ (ok tt, t)
      → t.handlers ≡ s.handlers ++ added_by (c ∷ [])
  unfolding run_call add_handler handle_event add_new added_by
  run_call_handlers (adding none h) s t e = absurd cc
  run_call_handlers (adding (some m) none) s t e = absurd cc
  run_call_handlers (adding (some m) (some h)) s t e =
      ap (λ p. p.1.handlers) (sym (added-new m h s t e))
      ∙ add_inner_handlers (s.outboxes ns) (record { matcher = m; handler = h }) _
  run_call_handlers (handling e) s t done =
      let (f, u, looked, handled) = bind-ok _ _ s tt t done in
      ap (λ p. p.1.handlers) (sym handled)
      ∙ handle_found_handlers e f u
      ∙ ap (λ p. p.1.handlers) (sym looked)
      ∙ outbox_handlers (s.outboxes ns) s refl
      ∙ sym (append-nil s.handlers)

  pub added_by-cons :
      (c : Call Any H) (cs : List (Call Any H))
      → added_by (c ∷ []) ++ added_by cs ≡ added_by (c ∷ cs)
  unfolding added_by
  added_by-cons (adding none h) cs = refl
  added_by-cons (adding (some m) none) cs = refl
  added_by-cons (adding (some m) (some h)) cs = refl
  added_by-cons (handling e) cs = refl
