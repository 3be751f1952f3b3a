-- ===== src/EventStore/Mongo/Atomic.antt =====
-- eventstore/mongodb_v2: a Save stores all of its events, or none.
use eventhorizon.Prelude.{
  ℕ, String, ◌≡◌, ◌≢◌, refl, ap, subst, sym, ◌∙◌, ◌⊎◌, inl, inr, Option, some, List, [], ◌∷◌,
  length,
}
use eventhorizon.Errors.{
  Operation, Result, ok, err, panic, Wrapper, wrap_err, Action, event_store_error,
}
use eventhorizon.Errors.Actions.{◌>>=◌, lift, wrapped, bind-ok, wrapped-ok, bind-cases}
use eventhorizon.Event.{Event}
use eventhorizon.EventStore.Mongo.Client.{Evt, Driver, DriverLaws, Collections}
use eventhorizon.EventStore.Mongo.Building.{BsonCodec, build, at_positions}
use eventhorizon.EventStore.Mongo.Saving.{
  GlobalPositionStrategy, in_tx, outside_tx, update_global_position, store_in_tx, store_positioned,
  save_in_tx, save_outside_tx, save_at, save_by, handled_after_save, save_records, save,
}
use eventhorizon.EventStore.Mongo.Built.{build-IsNumbered}
use eventhorizon.EventStore.Mongo.Commit.{commit, commit_next, reserve}
use eventhorizon.EventStore.Mongo.Committing.{
  LeavesCollections, store_in_tx-commit_next, store_positioned-commit, update_global_position_lem,
  handled_after_save-state, update_global_position-state,
}

module _ {Any : Type 0} where
  -- What a failed Save may leave: positions that no event will have, with the second strategy.
  abbrev pub Unstored : GlobalPositionStrategy → ℕ → Collections Any → Collections Any → Type 0
  Unstored in_tx n before after = after ≡ before
  Unstored outside_tx n before after = (after ≡ before) ⊎ (after ≡ reserve n before)

  -- The whole batch is stored, at the original version.
  abbrev pub Stored :
      BsonCodec Any → List (Event Any) → ℕ → Collections Any → Collections Any → Type 0
  Stored c [] original before after = ⊥
  Stored c (e ∷ es) original before after =
      (dbs : List (Evt Any)) × (build c e.aggregate_id e.aggregate_type original 0 (e ∷ es)
        ≡ ok dbs)
      × (commit_next c dbs original before ≡ some after)

  Unstored-same :
      (strategy : GlobalPositionStrategy) (n : ℕ) (cs : Collections Any) → Unstored strategy n cs cs
  Unstored-same in_tx n cs = refl
  Unstored-same outside_tx n cs = inl refl

-- A batch is stored, or Save fails and leaves at most unused positions, `n` of them.
abbrev pub Settled :
    {Any S : Type 0} {d : Driver Any S} (l : DriverLaws d)
    → BsonCodec Any
    → GlobalPositionStrategy
    → List (Event Any)
    → ℕ
    → ℕ
    → S
    → Result (Unit {0}) × S
    → Type 0
Settled l c strategy es original n s p =
    Stored c es original (l.view s) (l.view p.1)
    ⊎ ((p.0 ≢ ok tt) × Unstored strategy n (l.view s) (l.view p.1))

module _ {Any S : Type 0} (d : Driver Any S) (l : DriverLaws d)
    (handler : Option (Event Any → Action S (Unit {0}))) (a : LeavesCollections d l handler)
    (c : BsonCodec Any) where
  transaction-ok :
      (f : Action S (Unit {0})) (s t : S) (cs : Option (Collections Any))
      → ((u v : S) → l.view u ≡ l.view s → f u ≡ (ok tt, v) → cs ≡ some (l.view v))
      → d.with_transaction f s ≡ (ok tt, t)
      → cs ≡ some (l.view t)
  transaction-ok f s t cs h done =
      let (u, v, from, ran, at_end) = l.committed f s t done in
      h u v from ran ∙ ap some (sym at_end)

  started-ok :
      (v w : Wrapper) (x : Unit {0}) (s u : S)
      → wrapped v (wrapped w d.start_session) s ≡ (ok x, u)
      → l.view u ≡ l.view s
  started-ok v w x s u h =
      ap l.view (sym (ap (λ p. p.1) (wrapped-ok w d.start_session s x u (wrapped-ok v _ s x u h))))
      ∙ l.started s

  save_in_tx-ok :
      (id : ℕ) (at : String) (es : List (Event Any)) (dbs : List (Evt Any)) (original : ℕ) (s t : S)
      → save_in_tx d handler c id at es dbs original s ≡ (ok tt, t)
      → commit_next c dbs original (l.view s) ≡ some (l.view t)
  unfolding save_in_tx
  save_in_tx-ok id at es dbs original s t h =
      let (x, u, started, rest) = bind-ok (wrapped _ (wrapped _ d.start_session)) _ s tt t h in
      transaction-ok (store_in_tx d handler c es dbs original) u t _
        (λ v w from ran.
          subst (λ y. commit_next c dbs original y ≡ some (l.view w))
            (from ∙ started-ok _ _ x s u started)
            (store_in_tx-commit_next d l handler a c es dbs original v w ran))
        (wrapped-ok _ _ u tt t rest)

  save_outside_tx-ok :
      (id : ℕ) (at : String) (es : List (Event Any)) (dbs : List (Evt Any)) (original : ℕ) (s t : S)
      → save_outside_tx d handler c id at es dbs original s ≡ (ok tt, t)
      → commit_next c dbs original (l.view s) ≡ some (l.view t)
  unfolding save_outside_tx save_at commit_next
  save_outside_tx-ok id at es dbs original s t h =
      let (p, u, counted, rest) =
        bind-ok (wrapped _ (update_global_position d (length dbs))) _ s tt t h in
      let (x, v, started, done) = bind-ok (wrapped _ (wrapped _ d.start_session)) _ u tt t rest in
      let (before, reserved) =
        update_global_position_lem d l (length dbs) s u p
          (wrapped-ok _ (update_global_position d (length dbs)) s p u counted) in
      transaction-ok (store_positioned d handler es (at_positions c p dbs) original) v t _
        (λ w y from ran.
          subst
            (λ q.
              commit (at_positions c q dbs) original (reserve (length dbs) (l.view s))
              ≡ some (l.view y))
            before
            (subst (λ z. commit (at_positions c p dbs) original z ≡ some (l.view y))
              (from ∙ started-ok _ _ x u v started ∙ reserved)
              (store_positioned-commit d l handler a es (at_positions c p dbs) original w y ran)))
        (wrapped-ok _ _ v tt t done)

  save_by-ok :
      (strategy : GlobalPositionStrategy) (id : ℕ) (at : String) (es : List (Event Any))
      (dbs : List (Evt Any)) (original : ℕ) (s t : S)
      → save_by d handler c strategy id at es dbs original s ≡ (ok tt, t)
      → commit_next c dbs original (l.view s) ≡ some (l.view t)
  unfolding save_by
  save_by-ok in_tx = save_in_tx-ok
  save_by-ok outside_tx = save_outside_tx-ok

  started-state :
      (v w : Wrapper) (s : S) → l.view (wrapped v (wrapped w d.start_session) s).1 ≡ l.view s
  unfolding wrapped
  started-state v w s = l.started s

  transaction-fails :
      (w : Wrapper) (f : Action S (Unit {0})) (s : S)
      → (wrapped w (d.with_transaction f) s).0 ≢ ok tt
      → l.view (wrapped w (d.with_transaction f) s).1 ≡ l.view s
  unfolding wrapped
  transaction-fails w f s h = l.aborted f s (λ e. h (ap (wrap_err w) e))

  -- A session, then a transaction, which fails.
  session-fails :
      (v w : Wrapper) (f : Action S (Unit {0})) (s : S)
      → ((wrapped v (wrapped w d.start_session) >>= λ _. wrapped v (d.with_transaction f)) s).0
        ≢ ok tt
      → l.view
          ((wrapped v (wrapped w d.start_session) >>= λ _. wrapped v (d.with_transaction f)) s).1
        ≡ l.view s
  session-fails v w f s h =
      elim (bind-cases (wrapped v (wrapped w d.start_session))
        (λ _. wrapped v (d.with_transaction f)) s) [
          | inl (_, _, same) ↦ ap l.view same ∙ started-state v w s
          | inr (x, u, started, rest) ↦
              ap (λ p. l.view p.1) rest
              ∙ transaction-fails v f u (λ e. h (ap (λ p. p.0) rest ∙ e))
              ∙ started-ok v w x s u started
        ]

  save_by-fails :
      (strategy : GlobalPositionStrategy) (id : ℕ) (at : String) (es : List (Event Any))
      (dbs : List (Evt Any)) (original : ℕ) (s : S)
      → (save_by d handler c strategy id at es dbs original s).0 ≢ ok tt
      → Unstored strategy
          (length dbs)
          (l.view s)
          (l.view (save_by d handler c strategy id at es dbs original s).1)
  unfolding save_by save_in_tx save_outside_tx save_at
  save_by-fails in_tx id at es dbs original s h = session-fails _ _ _ s h
  save_by-fails outside_tx id at es dbs original s h =
      elim (bind-cases
        (wrapped (event_store_error Operation.save at id original)
          (update_global_position d (length dbs)))
        (save_at d handler c id at es dbs original) s) [
          | inl (_, _, same) ↦
              subst (λ x. Unstored outside_tx (length dbs) (l.view s) (l.view x)) (sym same)
                (update_global_position-state d l _ (length dbs) s)
          | inr (p, u, counted, rest) ↦ inr (
              ap (λ q. l.view q.1) rest
              ∙ session-fails _ _ (store_positioned d handler es (at_positions c p dbs) original) u
                  (λ e. h (ap (λ q. q.0) rest ∙ e))
              ∙ (update_global_position_lem d l (length dbs) s u p
                  (wrapped-ok _ (update_global_position d (length dbs)) s p u counted)).1)
        ]

  module _ (strategy : GlobalPositionStrategy) (after : Option (Event Any → Action S (Unit {0})))
      (b : LeavesCollections d l after) where
    save_records-Settled :
        (e : Event Any) (es : List (Event Any)) (dbs : List (Evt Any)) (original : ℕ) (s : S)
        → build c e.aggregate_id e.aggregate_type original 0 (e ∷ es) ≡ ok dbs
        → Settled l c strategy
            (e ∷ es)
            original
            (length dbs)
            s
            (save_records d handler c strategy after e es original dbs s)
    unfolding save_records
    save_records-Settled e es dbs original s built =
        elim (bind-cases
          (save_by d handler c strategy e.aggregate_id e.aggregate_type (e ∷ es) dbs original)
          (λ _. handled_after_save after (e ∷ es)) s) [
            | inl (failed, still, same) ↦ inr (
              still tt,
              subst (λ x. Unstored strategy (length dbs) (l.view s) (l.view x)) (sym same)
                  (save_by-fails strategy _ _ (e ∷ es) dbs original s (failed tt)),
            )
            | inr (x, u, ran, rest) ↦ inl (
              dbs,
              built,
              save_by-ok strategy _ _ (e ∷ es) dbs original s u ran
                  ∙ ap some (
                      sym (
                        ap (λ p. l.view p.1) rest
                        ∙ handled_after_save-state d l after (e ∷ es) u b)),
            )
          ]

    -- With either strategy, Save stores the whole batch at its original version, or fails and leaves
    -- the collections as they were, up to positions that no event has, with the second strategy.
    pub save-Settled :
        (es : List (Event Any)) (original : ℕ) (s : S)
        → Settled l c strategy es original
            (length es)
            s
            (save d handler c strategy after es original s)
    unfolding save lift ◌>>=◌
    save-Settled [] original s = inr (λ e. cc, Unstored-same strategy 0 (l.view s))
    save-Settled (e ∷ es) original s =
        built_or_not (build c e.aggregate_id e.aggregate_type original 0 (e ∷ es)) refl
      where
        built_or_not :
            (r : Result (List (Evt Any)))
            → build c e.aggregate_id e.aggregate_type original 0 (e ∷ es) ≡ r
            → Settled l c strategy
                (e ∷ es)
                original
                (length (e ∷ es))
                s
                ((lift r >>= save_records d handler c strategy after e es original) s)
        built_or_not (ok dbs) built =
            subst
              (λ n.
                Settled l c strategy (e ∷ es) original n s
                  (save_records d handler c strategy after e es original dbs s))
              (build-IsNumbered c _ _ original 0 (e ∷ es) dbs built).1
              (save_records-Settled e es dbs original s built)
        built_or_not (err x) built = inr (λ e. cc, Unstored-same strategy _ (l.view s))
        built_or_not panic built = inr (λ e. cc, Unstored-same strategy _ (l.view s))
