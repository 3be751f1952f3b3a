-- ===== src/Projector/Streams.antt =====
-- A projector that handles the events of an aggregate one after another.
use eventhorizon.Prelude.{
  ℕ, String, suc, ◌+◌, ◌≤◌, ◌≡◌, refl, sym, ap, subst, ◌∙◌, ◌≢◌, ◌⊎◌, inl, inr, true, Option, some,
  List, [], ◌∷◌, arith, length,
}
use eventhorizon.Errors.{Err, Result, ok, err, panic, Action, errors_is, entity_not_found}
use eventhorizon.Event.{Event}
use eventhorizon.EventStore.{IsBatch}
use eventhorizon.Repo.{FindContext, Entity, RepoLaws}
use eventhorizon.Projector.{
  EventHandler, stored, update, version_of, finish, apply, get_or_create, find_context, attempt,
  retry_once, handle_event,
}

module _ {E S Any : Type 0} (ent : Entity E) (h : EventHandler E S Any) where
  -- The handler gets the events in this order, up to the first that it fails on.
  unfoldable pub handle_all : FindContext → (S → S) → List (Event Any) → Action S (Unit {0})
  handle_all ctx others [] s = (ok tt, s)
  handle_all ctx others (event ∷ events) s =
      let (r, t) = handle_event ent h ctx others (some event) s in
      let rest = handle_all ctx others events t in
      elim r [ ok u ↦ rest | err x ↦ (err x, t) | panic ↦ (panic, t) ]

  handle_all-step :
      (ctx : FindContext) (others : S → S) (event : Event Any) (events : List (Event Any)) (s t : S)
      → handle_event ent h ctx others (some event) s ≡ (ok tt, t)
      → handle_all ctx others (event ∷ events) s ≡ handle_all ctx others events t
  unfolding handle_all
  handle_all-step ctx others event events s t p =
      rw (handle_all, p) (ap (λ r. handle_all ctx others events r.1) p)

  -- The projector takes an entity through these events, to the version of each.
  pub data Folds (id : ℕ) : ℕ → E → List (Event Any) → E → Type 0 where
    stop : (v : ℕ) (e : E) → Folds id v e [] e
    step :
        (v : ℕ) (e : E) (event : Event Any) (events : List (Event Any)) (new last : E)
        → h.projector.project event e ≡ ok (some new)
        → ent.entity_id new ≡ id
        → ent.aggregate_version new ≡ some (suc v)
        → Folds id (suc v) new events last
        → Folds id v e (event ∷ events) last

  apply_next :
      (retry : Option (Action S (Unit {0}))) (event : Event Any) (id v : ℕ) (e new : E) (s : S)
      → ent.aggregate_version e ≡ some v
      → event.version ≡ suc v
      → h.projector.project event e ≡ ok (some new)
      → ent.entity_id new ≡ id
      → ent.aggregate_version new ≡ some (suc v)
      → (h.repo.save new s).0 ≡ ok tt
      → apply ent h retry event id e s ≡ (ok tt, (h.repo.save new s).1)
  unfolding apply finish update stored version_of
  apply_next retry event id v e new s known next p own w done = ground arith

  -- A new event is projected, whether the entity is there or the factory makes it.
  handle_found :
      (ctx : FindContext) (others : S → S) (event : Event Any) (e : E) (s : S)
      (t : Result (Unit {0}) × S)
      → ((retry : Option (Action S (Unit {0})))
          → apply ent h retry event (h.entity_lookup event) e s ≡ t)
      → (h.repo.find (find_context ent h ctx event) (h.entity_lookup event) s ≡ (ok e, s))
      → handle_event ent h ctx others (some event) s ≡ t
  unfolding handle_event attempt get_or_create
  handle_found ctx others event e s t applies found =
      rw found (applies (retry_once ent h ctx others event))

  handle_created :
      (ctx : FindContext) (others : S → S) (event : Event Any) (x : Err) (e : E) (s : S)
      (t : Result (Unit {0}) × S)
      → ((retry : Option (Action S (Unit {0})))
          → apply ent h retry event (h.entity_lookup event) e s ≡ t)
      → (h.repo.find (find_context ent h ctx event) (h.entity_lookup event) s ≡ (err x, s))
      → errors_is x entity_not_found ≡ true
      → h.factory ≡ some e
      → handle_event ent h ctx others (some event) s ≡ t
  unfolding handle_event attempt get_or_create
  handle_created ctx others event x e s t applies found gone factory =
      rw (found, gone, factory) (applies (retry_once ent h ctx others event))

  apply_old :
      (retry : Option (Action S (Unit {0}))) (event : Event Any) (id v : ℕ) (e : E) (s : S)
      → ent.aggregate_version e ≡ some v
      → event.version ≤ v
      → apply ent h retry event id e s ≡ (ok tt, s)
  unfolding apply
  apply_old retry event id v e s known old = ground arith

  module _ (laws : RepoLaws ent h.repo) where
    -- The entity that the next event of the aggregate meets.
    abbrev pub Current : S → ℕ → E → Type 0
    Current s id e =
        (laws.view s id ≡ ok e)
        ⊎ ((x : Err) × (laws.view s id ≡ err x)
            × (errors_is x entity_not_found ≡ true)
            × (h.factory ≡ some e))

    handle-Current :
        (ctx : FindContext) (others : S → S) (event : Event Any) (id : ℕ) (e : E) (s : S)
        (t : Result (Unit {0}) × S)
        → h.entity_lookup event ≡ id
        → Current s id e
        → ((retry : Option (Action S (Unit {0})))
            → apply ent h retry event (h.entity_lookup event) e s ≡ t)
        → handle_event ent h ctx others (some event) s ≡ t
    handle-Current ctx others event id e s t own (inl found) applies =
        handle_found ctx others event e s t applies (
          laws.finds (find_context ent h ctx event) (h.entity_lookup event) s
          ∙ ap (λ r. (r, s)) (ap (laws.view s) own ∙ found))
    handle-Current ctx others event id e s t own (inr (x, failed, gone, factory)) applies =
        handle_created ctx others event x e s t applies
          (laws.finds (find_context ent h ctx event) (h.entity_lookup event) s
            ∙ ap (λ r. (r, s)) (ap (laws.view s) own ∙ failed))
          gone factory

    -- An event whose version the entity already has, or has passed, is taken without a change.
    pub handle_old :
        (ctx : FindContext) (others : S → S) (event : Event Any) (v : ℕ) (e : E) (s : S)
        → Current s (h.entity_lookup event) e
        → ent.aggregate_version e ≡ some v
        → event.version ≤ v
        → handle_event ent h ctx others (some event) s ≡ (ok tt, s)
    handle_old ctx others event v e s c known old =
        handle-Current ctx others event (h.entity_lookup event) e s (ok tt, s) refl c
          (λ retry. apply_old retry event (h.entity_lookup event) v e s known old)

    -- Where the projector takes an entity, there or newly made, through the next events of its
    -- aggregate, and a Save of an entity with that ID succeeds in every state that the saves reach,
    -- the handler takes the events without an error; then the repository has the last entity, at
    -- version `v` plus their number, and answers for all other IDs as before.
    pub handle_all_lem :
        (ctx : FindContext) (others : S → S) (id : ℕ) (at : String) (v : ℕ)
        (events : List (Event Any)) (e last : E) (s : S)
        → ((event : Event Any) → h.entity_lookup event ≡ event.aggregate_id)
        → IsBatch id at v events
        → Folds id v e events last
        → ent.aggregate_version e ≡ some v
        → Current s id e
        → (Ready : S → Type 0) → Ready s
        → ((d : E) (u : S)
            → Ready u
            → ent.entity_id d ≡ id
            → ((h.repo.save d u).0 ≡ ok tt) × Ready (h.repo.save d u).1)
        → ((handle_all ctx others events s).0 ≡ ok tt)
          × Current (handle_all ctx others events s).1 id last
          × (ent.aggregate_version last ≡ some (v + length events))
          × ((j : ℕ) → id ≢ j → laws.view (handle_all ctx others events s).1 j ≡ laws.view s j)
    unfolding handle_all
    handle_all_lem ctx others id at v [] e last s own batch (Folds.stop _ _) known c Ready ready
          saves =
        (refl, c, known ∙ ap some (omega arith), λ j n. refl)
    handle_all_lem ctx others id at v (event ∷ events) e last s own batch
          (Folds.step _ _ _ _ new _ p named versioned folds) known c Ready ready saves =
        let (done, next) = saves new s ready named in
        let here : h.entity_lookup event ≡ id = own event ∙ batch.0 in
        let handled : handle_event ent h ctx others (some event) s
            ≡ (ok tt, (h.repo.save new s).1) =
          handle-Current ctx others event id e s (ok tt, (h.repo.save new s).1) here c
            (λ retry.
              apply_next retry event (h.entity_lookup event) v e new s known batch.2 p
                (named ∙ sym here) versioned done) in
        let found : laws.view (h.repo.save new s).1 id ≡ ok new =
          subst (λ i. laws.view (h.repo.save new s).1 i ≡ ok new) named
            (laws.save_self new s done) in
        let (r, cur, at_end, same) =
          handle_all_lem ctx others id at (suc v) events new last (h.repo.save new s).1 own batch.3
            folds versioned (inl found) Ready next saves in
        rw (handle_all-step ctx others event events s (h.repo.save new s).1 handled) (
          r,
          cur,
          at_end ∙ ap some (omega arith),
          λ j n. same j n ∙ laws.save_other new s j (λ q. n (sym named ∙ q)),
        )
