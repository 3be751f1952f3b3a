-- ===== src/Outbox/Adding.antt =====
-- Adding handlers and events to the outbox.
use mathlib.Core.List.{Memᴰ}
use eventhorizon.Prelude.{
  ℕ, String, String-discrete, ℕ_discrete, ◌≡◌, refl, sym, ap, ◌∙◌, ◌≢◌, ◌⊎◌, inl, inr, true, Option,
  none, some, Option-cases, Bool-cases, List, [], ◌∷◌, ◌++◌, arith, subst,
}
use eventhorizon.Prelude.Maps
use eventhorizon.Errors.{ok}
use eventhorizon.Event.{Event, Codec, Copies, copy_event_lem}
use eventhorizon.Matcher.{Matcher, matches}
use eventhorizon.Outbox.{
  Handler, MatcherHandler, Outbox, add, add_handler, handler_names, record_event, handle_event,
}
use eventhorizon.Outbox.Delivery.{Waits}

module _ {Any W : Type 0} where
  -- Every handler in the list is the one that is found under its type.
  abbrev pub IsRegistered : Outbox Any W → Type 0
  IsRegistered o =
      (h : MatcherHandler Any W)
      → Memᴰ h o.handlers
      → o.handlers_by_type h.handler.handler_type ≡ some h

  mem-snoc :
      (h k : MatcherHandler Any W) (hs : List (MatcherHandler Any W))
      → Memᴰ h (hs ++ k ∷ [])
      → Memᴰ h hs ⊎ (h ≡ k)
  mem-snoc h k [] (Memᴰ.head p) = inr p
  mem-snoc h k [] (Memᴰ.tail m) = elim m [ ]
  mem-snoc h k (x ∷ hs) (Memᴰ.head p) = inl (Memᴰ.head p)
  mem-snoc h k (x ∷ hs) (Memᴰ.tail m) = elim (mem-snoc h k hs m) [
    | inl i ↦ inl (Memᴰ.tail i)
    | inr p ↦ inr p
  ]

  not_both : (h : MatcherHandler Any W) → none ≢ some h
  not_both h = λ e. cc

  add-IsRegistered :
      (m : Matcher Any) (k : Handler Any W) (o : Outbox Any W)
      → IsRegistered o
      → IsRegistered (add m k o).1
  unfolding add
  add-IsRegistered m k o r = elim (Option-cases (o.handlers_by_type k.handler_type)) [
    | inr (h, there) ↦ rw (add, there) r
    | inl gone ↦
        rw (add, gone)
          (λ h i. elim (mem-snoc h (record { matcher = m; handler = k }) o.handlers i) [
            | inl old ↦
                Maps.get-insert_ne String-discrete k.handler_type h.handler.handler_type
                  (record { matcher = m; handler = k }) o.handlers_by_type
                  (λ q. not_both h (sym gone ∙ ap o.handlers_by_type q ∙ r h old))
                ∙ r h old
            | inr p ↦
                subst
                  (λ (x : MatcherHandler Any W).
                    Maps.insert String-discrete k.handler_type (record { matcher = m; handler = k })
                      o.handlers_by_type x.handler.handler_type
                    ≡ some x)
                  (sym p)
                  (Maps.get-insert_self String-discrete k.handler_type
                    (record { matcher = m; handler = k }) o.handlers_by_type)
          ])
  ]

  -- AddHandler, refused or not, keeps each handler in the list registered under its own type, so that
  -- no two of them have the same type.
  pub add_handler-IsRegistered :
      (m : Option (Matcher Any)) (k : Option (Handler Any W)) (o : Outbox Any W)
      → IsRegistered o
      → IsRegistered (add_handler m k o).1
  unfolding add_handler
  add_handler-IsRegistered none k o r = r
  add_handler-IsRegistered (some m) none o r = r
  add_handler-IsRegistered (some m) (some k) o r = add-IsRegistered m k o r

  named :
      (h : MatcherHandler Any W) (hs : List (MatcherHandler Any W)) (event : Event Any)
      → Memᴰ h hs
      → matches h.matcher (some event) ≡ true
      → Memᴰ h.handler.handler_type (handler_names hs event)
  unfolding handler_names
  named h [] event i m = elim i [ ]
  named h (k ∷ hs) event (Memᴰ.head p) m =
      let matching : matches k.matcher (some event) ≡ true =
        ap (λ (x : MatcherHandler Any W). matches x.matcher (some event)) (sym p) ∙ m in
      rw (handler_names, matching)
        (Memᴰ.head (ap (λ (x : MatcherHandler Any W). x.handler.handler_type) p))
  named h (k ∷ hs) event (Memᴰ.tail i) m =
      let rest = named h hs event i m in
      elim (Bool-cases (matches k.matcher (some event))) [
        | inl t ↦ rw (handler_names, t) (Memᴰ.tail rest)
        | inr f ↦ rw (handler_names, f) rest
      ]

  -- An event that can be copied is accepted, and waits for every handler that matches it; what waited
  -- before still waits, if the document gets an ID of its own.
  pub handle_event-Waits :
      (c : Codec Any) (id now : ℕ) (event : Event Any) (o : Outbox Any W)
      → Copies c event
      → o.docs id ≡ none
      → ((handle_event c id now event o).0 ≡ ok tt)
        × ((h : MatcherHandler Any W)
            → Memᴰ h o.handlers
            → matches h.matcher (some event) ≡ true
            → Waits (handle_event c id now event o).1 id event h.handler.handler_type)
        × ((j : ℕ) (d : Event Any) (name : String)
            → Waits o j d name
            → Waits (handle_event c id now event o).1 j d name)
  unfolding handle_event record_event
  handle_event-Waits c id now event o copies fresh = rw (copy_event_lem c event copies) (
    refl,
    λ h i m. (
      _,
      Maps.get-insert_self ℕ_discrete id _ o.docs,
      refl,
      ground arith,
      named h o.handlers event i m,
    ),
    λ j d name (doc, known, its, there, m). (doc, ground arith, its, ground arith, m),
  )
