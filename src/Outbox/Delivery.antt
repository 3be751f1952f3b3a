-- ===== src/Outbox/Delivery.antt =====
-- Delivery: what the processing of one document leaves of what its event waits for.
use mathlib.Core.List.{Memᴰ}
use eventhorizon.Prelude.{
  ℕ, String, ℕ_discrete, ◌≡◌, refl, sym, ap, ◌∙◌, ◌≢◌, ◌⊎◌, inl, inr, true, some, Bool-cases, List,
  length, arith, subst, dec_lt,
}
use eventhorizon.Prelude.Maps
use eventhorizon.Prelude.Maps.{Map}
use eventhorizon.Errors.{Result, Result-cases, ok, err, panic}
use eventhorizon.Event.{Event}
use eventhorizon.Outbox.{OutboxDoc, Outbox, without_all, run_handlers, settle, is_due, process_doc}
use eventhorizon.Outbox.Processing.{mem_dec, without_all-others, Sub, Sub-all, ran}
use eventhorizon.Outbox.Effects.{IsKept, IsBrought, run_handlers-keeps, ran-done}

the_same : (ps qs : List String) → ok ps ≡ ok qs → ps ≡ qs
the_same ps qs h = cc

the_doc : {Any : Type 0} {d e : OutboxDoc Any} → some d ≡ some e → d ≡ e
the_doc h = cc

module _ {Any W : Type 0} where
  -- The outbox still has to bring the event of the document to the handler of that name.
  abbrev pub Waits : Outbox Any W → ℕ → Event Any → String → Type 0
  Waits o id event name =
      (doc : OutboxDoc Any) × (o.docs id ≡ some doc)
      × (doc.doc_event ≡ event)
      × (o.db id ≡ true)
      × Memᴰ name doc.handlers

  settle-Waits :
      (id : ℕ) (doc : OutboxDoc Any) (r : Result (List String)) (o : Outbox Any W) (name : String)
      → o.docs id ≡ some doc
      → o.db id ≡ true
      → Memᴰ name doc.handlers
      → ((ps : List String) → r ≡ ok ps → Sub ps doc.handlers × (¬ Memᴰ name ps))
      → Waits (settle id doc r o).1 id doc.doc_event name
  unfolding settle
  settle-Waits id doc (err x) o name known there m f = (doc, known, refl, there, m)
  settle-Waits id doc panic o name known there m f = (doc, known, refl, there, m)
  settle-Waits id doc (ok ps) o name known there m f =
      let (sub, other) = f ps refl in
      elim (ℕ_discrete (length ps) (length doc.handlers)) [
        | yes all ↦ absurd (other (subst (Memᴰ name) (sym (Sub-all ps doc.handlers sub all)) m))
        | no some_left ↦ elim (dec_lt 0 (length ps)) [
          | yes p ↦ (
            record doc { handlers = without_all ps doc.handlers },
            ground arith,
            refl,
            ground arith,
            without_all-others ps name doc.handlers other m,
          )
          | no p ↦ (doc, ground arith, refl, ground arith, m)
        ]
      ]

  -- Settling a document leaves the others, and the handlers, as they were.
  settle-others :
      (id j : ℕ) (doc : OutboxDoc Any) (r : Result (List String)) (o : Outbox Any W)
      → id ≢ j
      → ((settle id doc r o).1.docs j ≡ o.docs j) × ((settle id doc r o).1.db j ≡ o.db j)
  unfolding settle
  settle-others id j doc (err x) o n = (refl, refl)
  settle-others id j doc panic o n = (refl, refl)
  settle-others id j doc (ok ps) o n = (ground arith, ground arith)

  settle_handlers :
      (id : ℕ) (doc : OutboxDoc Any) (r : Result (List String)) (o : Outbox Any W)
      → (settle id doc r o).1.handlers_by_type ≡ o.handlers_by_type
  unfolding settle
  settle_handlers id doc (err x) o = refl
  settle_handlers id doc panic o = refl
  settle_handlers id doc (ok ps) o = ground arith

  -- Something is true of the world, or the event still waits for the handler.
  abbrev pub DoneOrWaits : (W → Type 0) → ℕ → Event Any → String → Outbox Any W × W → Type 0
  DoneOrWaits P id event name s = P s.1 ⊎ Waits s.0 id event name

  pub process_doc-keeps :
      (P : W → Type 0) (id now : ℕ) (doc : OutboxDoc Any) (o : Outbox Any W) (w : W)
      → IsKept o.handlers_by_type P
      → P w
      → P (process_doc id now doc (o, w)).1.1
  unfolding process_doc
  process_doc-keeps P id now doc o w kept p = elim (Bool-cases (is_due now doc)) [
    | inr early ↦ rw early p
    | inl due ↦
        rw due
          (run_handlers-keeps P o.handlers_by_type doc.doc_event doc.handlers (o.errors, w) kept p)
  ]

  process_doc_self :
      (P : W → Type 0) (id now : ℕ) (doc : OutboxDoc Any) (o : Outbox Any W) (w : W) (name : String)
      → IsKept o.handlers_by_type P
      → IsBrought o.handlers_by_type doc.doc_event name P
      → o.docs id ≡ some doc
      → o.db id ≡ true
      → Memᴰ name doc.handlers
      → DoneOrWaits P id doc.doc_event name (process_doc id now doc (o, w)).1
  unfolding process_doc
  process_doc_self P id now doc o w name kept brought known there m =
      elim (Bool-cases (is_due now doc)) [
        | inr early ↦ rw early (inr (doc, known, refl, there, m))
        | inl due ↦
            let taken = record doc { taken_at = some now } in
            let (r, (errors, w')) =
              run_handlers o.handlers_by_type doc.doc_event doc.handlers (o.errors, w) in
            let o' = record o { docs = Maps.insert ℕ_discrete id taken o.docs; errors = errors } in
            let stays =
              settle-Waits id taken r o' name (Maps.get-insert_self ℕ_discrete id taken o.docs)
                there m in
            rw due (elim (Result-cases r) [
              | inl (ps, p) ↦ elim (mem_dec name ps) [
                | yes k ↦ inl (
                    ran-done P o.handlers_by_type doc.doc_event name doc.handlers (o.errors, w) ps
                      kept brought p k)
                | no k ↦
                    let sub =
                      ran o.handlers_by_type doc.doc_event doc.handlers (o.errors, w) ps p in
                    inr (
                      stays (λ qs q.
                        subst (λ x. Sub x doc.handlers × (¬ Memᴰ name x))
                          (the_same ps qs (sym p ∙ q)) (sub, k)))
              ]
              | inr (inl (x, p)) ↦ inr (stays (λ qs q. absurd (cc)))
              | inr (inr p) ↦ inr (stays (λ qs q. absurd (cc)))
            ])
      ]

  -- Processing one document leaves the others, and the handlers, as they were.
  process_doc-others :
      (id now j : ℕ) (doc : OutboxDoc Any) (o : Outbox Any W) (w : W)
      → id ≢ j
      → ((process_doc id now doc (o, w)).1.0.docs j ≡ o.docs j)
        × ((process_doc id now doc (o, w)).1.0.db j ≡ o.db j)
  unfolding process_doc
  process_doc-others id now j doc o w n = elim (Bool-cases (is_due now doc)) [
    | inr early ↦ rw early (refl, refl)
    | inl due ↦
        let taken = record doc { taken_at = some now } in
        let (r, (errors, w')) =
          run_handlers o.handlers_by_type doc.doc_event doc.handlers (o.errors, w) in
        let o' = record o { docs = Maps.insert ℕ_discrete id taken o.docs; errors = errors } in
        let (docs, db) = settle-others id j taken r o' n in
        rw due (docs ∙ Maps.get-insert_ne ℕ_discrete id j taken o.docs n, db)
  ]

  pub process_doc_handlers :
      (id now : ℕ) (doc : OutboxDoc Any) (o : Outbox Any W) (w : W)
      → (process_doc id now doc (o, w)).1.0.handlers_by_type ≡ o.handlers_by_type
  unfolding process_doc
  process_doc_handlers id now doc o w = elim (Bool-cases (is_due now doc)) [
    | inr early ↦ rw early refl
    | inl due ↦
        let taken = record doc { taken_at = some now } in
        let (r, (errors, w')) =
          run_handlers o.handlers_by_type doc.doc_event doc.handlers (o.errors, w) in
        rw due (
          settle_handlers id taken r
            (record o { docs = Maps.insert ℕ_discrete id taken o.docs; errors = errors }))
  ]

  -- Processing any document at any time: an event that waits for a handler still waits for it, unless
  -- what a call of that handler without an error brings about is now true.
  pub process_doc-Waits :
      (P : W → Type 0) (id now j : ℕ) (doc : OutboxDoc Any) (o : Outbox Any W) (w : W)
      (event : Event Any) (name : String)
      → IsKept o.handlers_by_type P
      → IsBrought o.handlers_by_type event name P
      → o.docs id ≡ some doc
      → Waits o j event name
      → DoneOrWaits P j event name (process_doc id now doc (o, w)).1
  process_doc-Waits P id now j doc o w event name kept brought known (d, found, its, there, m) =
      elim (ℕ_discrete id j) [
        | yes same ↦
            let this : d ≡ doc = the_doc (sym found ∙ sym (ap o.docs same) ∙ known) in
            let own : doc.doc_event ≡ event = ap (λ x. x.doc_event) (sym this) ∙ its in
            let self =
              process_doc_self P id now doc o w name kept
                (subst (λ e. IsBrought o.handlers_by_type e name P) (sym own) brought) known
                (ap o.db same ∙ there) (subst (λ x. Memᴰ name x.handlers) this m) in
            subst (λ k. DoneOrWaits P k event name (process_doc id now doc (o, w)).1) same
              (subst (λ e. DoneOrWaits P id e name (process_doc id now doc (o, w)).1) own self)
        | no n ↦
            let (docs, db) = process_doc-others id now j doc o w n in
            inr (d, docs ∙ found, its, db ∙ there, m)
      ]
