-- ===== src/Outbox/Sweep.antt =====
-- A whole sweep, and the processing of one event.
use eventhorizon.Prelude.{
  ℕ, ◌+◌, ◌≤◌, String, ◌≡◌, refl, sym, ◌∙◌, ◌⊎◌, inl, inr, ◌&&◌, some, Option-cases, Bool-cases,
  List, [], ◌∷◌, arith, subst,
}
use eventhorizon.Prelude.Maps.{Map}
use eventhorizon.Errors.{Result, ok, err, panic, Action}
use eventhorizon.Event.{Event}
use eventhorizon.Outbox.{
  MatcherHandler, OutboxDoc, Outbox, go_on, is_due, is_zero, before, process_doc,
  process_outbox_event, periodic_sweep_age,
}
use eventhorizon.Outbox.{process_full_outbox, is_swept}
use eventhorizon.Outbox.Effects.{IsKept, IsBrought}
use eventhorizon.Outbox.Delivery.{
  Waits, DoneOrWaits, process_doc-Waits, process_doc-keeps, process_doc_handlers,
}

-- A loop keeps what its turns keep.
go_on_keeps :
    {S : Type 0} (P : S → Type 0) (r : Result (Unit {0}) × S) (next : Action S (Unit {0}))
    → P r.1
    → ((s : S) → P s → P (next s).1)
    → P (go_on r next).1
unfolding go_on
go_on_keeps P (ok _, s) next p f = f s p
go_on_keeps P (err x, s) next p f = p
go_on_keeps P (panic, s) next p f = p

module _ {Any W : Type 0} where
  -- The handlers stay, and the event still waits for the handler if it is not done.
  abbrev Kept :
      Map String (MatcherHandler Any W)
      → (W → Type 0)
      → ℕ
      → Event Any
      → String
      → Outbox Any W × W
      → Type 0
  Kept by_type P id event name s = (s.0.handlers_by_type ≡ by_type) × DoneOrWaits P id event name s

  module _ (by_type : Map String (MatcherHandler Any W)) (P : W → Type 0) (event : Event Any)
      (name : String) (kept : IsKept by_type P) (brought : IsBrought by_type event name P) where
    process_doc-Kept :
        (id j now : ℕ) (doc : OutboxDoc Any) (o : Outbox Any W) (w : W)
        → o.docs j ≡ some doc
        → Kept by_type P id event name (o, w)
        → Kept by_type P id event name (process_doc j now doc (o, w)).1
    process_doc-Kept id j now doc o w known (same, inl done) = (
      process_doc_handlers j now doc o w ∙ same,
      inl (process_doc-keeps P j now doc o w (subst (λ b. IsKept b P) (sym same) kept) done),
    )
    process_doc-Kept id j now doc o w known (same, inr waits) = (
      process_doc_handlers j now doc o w ∙ same,
      process_doc-Waits P j now id doc o w event name (subst (λ b. IsKept b P) (sym same) kept)
          (subst (λ b. IsBrought b event name P) (sym same) brought) known waits,
    )

    sweep-Kept :
        (id now : ℕ) (ids : List ℕ) (s : Outbox Any W × W)
        → Kept by_type P id event name s
        → Kept by_type P id event name (process_full_outbox ids now s).1
    unfolding process_full_outbox
    sweep-Kept id now [] (o, w) k = k
    sweep-Kept id now (j ∷ ids) (o, w) k =
        let later = sweep-Kept id now ids in
        elim (Option-cases (o.docs j)) [
          | inl gone ↦ rw (process_full_outbox, gone) (later (o, w) k)
          | inr (doc, known) ↦ elim (Bool-cases (o.db j && is_swept now doc)) [
            | inr skipped ↦ rw (process_full_outbox, known, skipped) (later (o, w) k)
            | inl swept ↦
                rw (process_full_outbox, known, swept)
                  (go_on_keeps (Kept by_type P id event name) (process_doc j now doc (o, w))
                    (process_full_outbox ids now) (process_doc-Kept id j now doc o w known k) later)
          ]
        ]

  -- An event that waits for a handler, in a sweep over any documents in any order: let P be anything
  -- that every call of that handler with the event that returns no error makes true of the world, and
  -- that no call of a handler makes untrue again. After the sweep P is true, or the event still waits.
  pub sweep-Waits :
      (P : W → Type 0) (ids : List ℕ) (now id : ℕ) (o : Outbox Any W) (w : W) (event : Event Any)
      (name : String)
      → IsKept o.handlers_by_type P
      → IsBrought o.handlers_by_type event name P
      → Waits o id event name
      → P (process_full_outbox ids now (o, w)).1.1
        ⊎ Waits (process_full_outbox ids now (o, w)).1.0 id event name
  sweep-Waits P ids now id o w event name kept brought waits =
      (sweep-Kept o.handlers_by_type P event name kept brought id now ids (o, w)
        (refl, inr waits)).1

  -- The same for the event that is taken from the channel, or any other that is processed alone.
  pub process-Waits :
      (P : W → Type 0) (now id j : ℕ) (o : Outbox Any W) (w : W) (event : Event Any) (name : String)
      → IsKept o.handlers_by_type P
      → IsBrought o.handlers_by_type event name P
      → Waits o j event name
      → P (process_outbox_event id now (o, w)).1.1
        ⊎ Waits (process_outbox_event id now (o, w)).1.0 j event name
  unfolding process_outbox_event
  process-Waits P now id j o w event name kept brought waits = elim (Option-cases (o.docs id)) [
    | inl gone ↦ rw (process_outbox_event, gone) (inr waits)
    | inr (doc, known) ↦
        rw (process_outbox_event, known)
          (process_doc-Waits P id now j doc o w event name kept brought known waits)
  ]

  -- An event that was taken no longer ago than the sweep age is left alone: no handler sees it twice
  -- in that time.
  pub process_taken :
      (id now t : ℕ) (doc : OutboxDoc Any) (o : Outbox Any W) (w : W)
      → o.docs id ≡ some doc
      → doc.taken_at ≡ some t
      → now ≤ t + periodic_sweep_age
      → process_outbox_event id now (o, w) ≡ (ok tt, (o, w))
  unfolding process_outbox_event process_doc is_due is_zero before
  process_taken id now t doc o w known taken recent = ground arith
