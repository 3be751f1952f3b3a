-- ===== src/EventStore/MongoV1/Invariant.antt =====
-- eventstore/mongodb/eventstore.go: what every Save keeps.
use eventhorizon.Prelude.{
  ℕ, ℕ_discrete, String, ◌≡◌, inl, inr, refl, sym, ap, subst, Option, none, some, List, [], ◌∷◌,
  length, length-append, arith,
}
use eventhorizon.Errors.{
  Result, Result-cases, ok, err, panic, Action, errorf, event_handler_error, Operation,
  event_store_error,
}
use eventhorizon.Errors.Actions.{◌>>=◌, lift, wrapped}
use eventhorizon.Errors.Preserving.{
  Preserves, lift-Preserves, wrapped-Preserves, bind-Preserves, ite-Preserves,
}
use eventhorizon.Event.{Event}
use eventhorizon.EventStore.Mongo.Building.{BsonCodec}
use eventhorizon.EventStore.Mongo.Saving.{
  matched, handle_in_tx, handled_in_tx, handle_after_save, handled_after_save,
}
use eventhorizon.EventStore.MongoV1.{AggregateRecord, Driver, Evt, build}
use eventhorizon.EventStore.MongoV1.Saving.{save_events, save_by, save}
use eventhorizon.EventStore.MongoV1.Documents.{
  DriverLaws, pushed, IsNumbered, IsNumbered-append, IsStream, IsWellFormed, insert-IsWellFormed,
  build-IsNumbered,
}

module _ {Any S : Type 0} (d : Driver Any S) (l : DriverLaws d) where
  abbrev Stored : S → Type 0
  Stored s = IsWellFormed (l.view s)

  same-Stored : (s t : S) → l.view t ≡ l.view s → Stored s → Stored t
  same-Stored s t same h = subst IsWellFormed (sym same) h

  insert_one-Preserves :
      (r : AggregateRecord Any) → IsStream r.aggregate_id r → Preserves Stored (d.insert_one r)
  insert_one-Preserves r own s h = elim (Result-cases (d.insert_one r s).0) [
    | inl (x, done) ↦
        subst IsWellFormed (sym (l.inserted r s done).1)
          (insert-IsWellFormed r.aggregate_id r (l.view s) h own)
    | inr (inl (x, failed)) ↦ same-Stored s _ (l.not_inserted r s (λ e. cc)) h
    | inr (inr failed) ↦ same-Stored s _ (l.not_inserted r s (λ e. cc)) h
  ]

  pushed-IsStream :
      (id original : ℕ) (dbs : List (Evt Any)) (old : AggregateRecord Any)
      → IsStream id old
      → old.version ≡ original
      → IsNumbered id original dbs
      → IsStream id (pushed dbs (length dbs) old)
  unfolding pushed
  pushed-IsStream id original dbs old (own, in_order, count) at numbered = (
    own,
    IsNumbered-append id 0 original old.events dbs (omega (arith, count, at)) in_order numbered,
    omega (arith, length-append old.events dbs, count),
  )

  update_one-Preserves :
      (id original : ℕ) (dbs : List (Evt Any))
      → IsNumbered id original dbs
      → Preserves Stored (d.update_one id original dbs (length dbs))
  update_one-Preserves id original dbs numbered s h =
      let not_updated = l.not_updated id original (length dbs) dbs s in
      elim (Result-cases (d.update_one id original dbs (length dbs) s).0) [
        | inl (n, done) ↦ elim (ℕ_discrete n 0) [
          | yes zero ↦ same-Stored s _ (not_updated (λ m m_pos e. m_pos (cc))) h
          | no some_matched ↦
              let (old, there, at, put) =
                l.updated id original (length dbs) n dbs s done some_matched in
              subst IsWellFormed (sym put) (
                insert-IsWellFormed id _ (l.view s) h
                  (pushed-IsStream id original dbs old (h id old there) at numbered))
        ]
        | inr (inl (x, failed)) ↦ same-Stored s _ (not_updated (λ m m_pos e. cc)) h
        | inr (inr failed) ↦ same-Stored s _ (not_updated (λ m m_pos e. cc)) h
      ]

  save_events-Preserves :
      (id original : ℕ) (dbs : List (Evt Any))
      → IsNumbered id original dbs
      → Preserves Stored (save_events d id dbs original)
  unfolding save_events matched
  save_events-Preserves id original dbs numbered =
      ite-Preserves Stored (ℕ_discrete original 0) _ _
        (λ zero.
          wrapped-Preserves Stored (errorf "could not insert events (new)") _
            (insert_one-Preserves _ (refl, subst (λ n. IsNumbered id n dbs) zero numbered, refl)))
        (bind-Preserves Stored
          (wrapped (errorf "could not insert events (update)")
            (d.update_one id original dbs (length dbs)))
          matched
          (wrapped-Preserves Stored (errorf "could not insert events (update)") _
            (update_one-Preserves id original dbs numbered))
          (λ n. lift-Preserves Stored _))

  with_transaction-Preserves :
      (f : Action S (Unit {0})) → Preserves Stored f → Preserves Stored (d.with_transaction f)
  with_transaction-Preserves f k s h = elim (Result-cases (d.with_transaction f s).0) [
    | inl (x, done) ↦
        let (u, v, from, ran, at_end) =
          l.committed f s (d.with_transaction f s).1
            (ap (λ r. (r, (d.with_transaction f s).1)) done) in
        same-Stored v _ at_end (subst (λ p. Stored p.1) ran (k u (same-Stored s u from h)))
    | inr (inl (x, failed)) ↦ same-Stored s _ (l.aborted f s (λ e. cc)) h
    | inr (inr failed) ↦ same-Stored s _ (l.aborted f s (λ e. cc)) h
  ]

  -- A handler that leaves the documents alone.
  abbrev pub LeavesDocuments : Option (Event Any → Action S (Unit {0})) → Type 0
  LeavesDocuments none = Unit
  LeavesDocuments (some handle) = (e : Event Any) (s : S) → l.view (handle e s).1 ≡ l.view s

  handle_in_tx-Preserves :
      (handle : Event Any → Action S (Unit {0})) (es : List (Event Any))
      → ((e : Event Any) (s : S) → l.view (handle e s).1 ≡ l.view s)
      → Preserves Stored (handle_in_tx handle es)
  unfolding handle_in_tx
  handle_in_tx-Preserves handle [] a = lift-Preserves Stored (ok tt)
  handle_in_tx-Preserves handle (e ∷ es) a =
      let later = handle_in_tx-Preserves handle es a in
      bind-Preserves Stored (wrapped (errorf "could not handle event in transaction") (handle e)) _
        (wrapped-Preserves Stored _ (handle e) (λ s h. same-Stored s _ (a e s) h)) (λ x. later)

  handled_after_save-Preserves :
      (after : Option (Event Any → Action S (Unit {0}))) (es : List (Event Any))
      → LeavesDocuments after
      → Preserves Stored (handled_after_save after es)
  unfolding handled_after_save handle_after_save
  handled_after_save-Preserves none es a = lift-Preserves Stored (ok tt)
  handled_after_save-Preserves (some handle) es a = each es
    where
      each : (es : List (Event Any)) → Preserves Stored (handle_after_save handle es)
      each [] = lift-Preserves Stored (ok tt)
      each (e ∷ es) =
          let later = each es in
          bind-Preserves Stored (wrapped event_handler_error (handle e)) _
            (wrapped-Preserves Stored event_handler_error (handle e)
              (λ s h. same-Stored s _ (a e s) h))
            (λ x. later)

  save_by-Preserves :
      (handler : Option (Event Any → Action S (Unit {0}))) (id : ℕ) (at : String)
      (es : List (Event Any)) (dbs : List (Evt Any)) (original : ℕ)
      → LeavesDocuments handler
      → IsNumbered id original dbs
      → Preserves Stored (save_by d handler id at es dbs original)
  unfolding save_by handled_in_tx
  save_by-Preserves none id at es dbs original a numbered =
      wrapped-Preserves Stored (event_store_error Operation.save at id original) _
        (save_events-Preserves id original dbs numbered)
  save_by-Preserves (some handle) id at es dbs original a numbered =
      let w = event_store_error Operation.save at id original in
      bind-Preserves Stored
        (wrapped w (wrapped (errorf "could not start transaction") d.start_session)) _
        (wrapped-Preserves Stored w _ (
          wrapped-Preserves Stored (errorf "could not start transaction") d.start_session
            (λ s h. same-Stored s _ (l.started s) h)))
        (λ x. wrapped-Preserves Stored w _ (
          with_transaction-Preserves _ (
            bind-Preserves Stored (save_events d id dbs original) _
              (save_events-Preserves id original dbs numbered)
              (λ y. handle_in_tx-Preserves handle es a))))

  -- Whether Save succeeds or fails, in a transaction or not: each document keeps the events of its own
  -- aggregate, numbered from one without a gap, and their number as its version.
  pub save-IsWellFormed :
      (c : BsonCodec Any) (handler after : Option (Event Any → Action S (Unit {0})))
      (es : List (Event Any)) (original : ℕ) (s : S)
      → LeavesDocuments handler
      → LeavesDocuments after
      → IsWellFormed (l.view s)
      → IsWellFormed (l.view (save d c handler after es original s).1)
  unfolding save lift ◌>>=◌
  save-IsWellFormed c handler after [] original s a b h = h
  save-IsWellFormed c handler after (e ∷ es) original s a b h = built _ refl
    where
      built :
          (r : Result (List (Evt Any)))
          → build c e.aggregate_id e.aggregate_type original 0 (e ∷ es) ≡ r
          → IsWellFormed (
              l.view
                ((lift r >>= λ dbs.
                    (save_by d handler e.aggregate_id e.aggregate_type (e ∷ es) dbs original
                      >>= λ _. handled_after_save after (e ∷ es)))
                  s).1)
      built (ok dbs) made =
          let numbered : IsNumbered e.aggregate_id original dbs =
            subst (λ n. IsNumbered e.aggregate_id n dbs) (omega arith)
              (build-IsNumbered c e.aggregate_id e.aggregate_type original 0 (e ∷ es) dbs made) in
          bind-Preserves Stored
            (save_by d handler e.aggregate_id e.aggregate_type (e ∷ es) dbs original) _
            (save_by-Preserves handler e.aggregate_id e.aggregate_type (e ∷ es) dbs original a
              numbered)
            (λ x. handled_after_save-Preserves after (e ∷ es) b) s h
      built (err x) made = h
      built panic made = h
