-- ===== src/EventStore/Mongo/Committing.antt =====
-- eventstore/mongodb_v2: what the transactions of Save do to the collections.
use eventhorizon.Prelude.{
  ℕ, ◌≡◌, ◌≢◌, refl, ap, subst, sym, ◌∙◌, ◌⊎◌, inl, inr, Option, none, some, List, [], ◌∷◌, ite,
  length, ℕ_discrete, arith,
}
use eventhorizon.Errors.{
  event_handler_error, Wrapper, Result, ok, err, panic, Action, errorf, sentinel,
  event_conflict_from_other_save,
}
use eventhorizon.Errors.Actions.{
  ◌>>=◌, lift, wrapped, bind-ok, wrapped-ok, lift-ok, bind-cases, wrapped-fails,
}
use eventhorizon.Event.{Event}
use eventhorizon.EventStore.Mongo.Client.{Evt, Stream, Driver, DriverLaws}
use eventhorizon.EventStore.Mongo.Building.{BsonCodec, at_positions}
use eventhorizon.EventStore.Mongo.Saving.{
  last_stream, stream_inserted, decoded_position, insert_new_stream, matched, store_stream,
  update_stream_for_entity, insert_verified, update_global_position, handle_in_tx, handled_in_tx,
  handle_after_save, handled_after_save, store_in_tx, store_positioned,
}
use eventhorizon.EventStore.Mongo.Commit.{
  commit_stream, commit_stream-some, commit_stream-add_events, add_events, commit, reserve,
  commit_next,
}

module _ {Any : Type 0} {S : Type 0} (d : Driver Any S) (l : DriverLaws d) where
  stream_inserted-ok :
      (p : Result (Unit {0}) × S) (t : S) → stream_inserted d p ≡ (ok tt, t) → p ≡ (ok tt, t)
  unfolding stream_inserted
  stream_inserted-ok (ok _, u) t h = h
  stream_inserted-ok (err x, u) t h = absurd cc
  stream_inserted-ok (panic, u) t h = absurd cc

  updated_lem :
      (strm : Stream) (original count : ℕ) (s t : S)
      → original ≢ 0
      → (wrapped (errorf "could not update stream") (d.update_stream strm original count)
            >>= matched)
          s
        ≡ (ok tt, t)
      → commit_stream strm original count (l.view s) ≡ some (l.view t)
  unfolding commit_stream matched
  updated_lem strm original count s t z h =
      let (n, u, called, rest) =
        bind-ok (wrapped (errorf "could not update stream") (d.update_stream strm original count))
          matched s tt t h in
      let (count_ok, same) =
        lift-ok (ite (ℕ_discrete n 0) (err (sentinel event_conflict_from_other_save)) (ok tt)) u tt
          t rest in
      let some_matched : n ≢ 0 = λ e. ground arith in
      let (old, there, same_version, made) =
        l.updated_stream strm original count n s u (wrapped-ok _ _ s n u called) some_matched in
      rw (commit_stream-some strm original count (l.view s) old there same_version z, ← made, same)
        refl

  store_stream-commit_stream :
      (strm : Stream) (original count : ℕ) (s t : S)
      → store_stream d strm original count s ≡ (ok tt, t)
      → commit_stream strm original count (l.view s) ≡ some (l.view t)
  unfolding store_stream commit_stream insert_new_stream matched
  store_stream-commit_stream strm original count s t h = elim (ℕ_discrete original 0) [
    | yes z ↦
        let made =
          l.inserted_stream strm s t
            (stream_inserted-ok (d.insert_stream strm s) t (ground arith)) in
        ground (arith, made)
    | no z ↦ updated_lem strm original count s t z (ground arith)
  ]

  -- The events are stored first.
  update_after_insert :
      (dbs : List (Evt Any)) (original : ℕ) (s u t : S)
      → l.view u ≡ add_events dbs (l.view s)
      → update_stream_for_entity d dbs original u ≡ (ok tt, t)
      → commit dbs original (l.view s) ≡ some (l.view t)
  unfolding update_stream_for_entity commit
  update_after_insert [] original s u t stored h = absurd cc
  update_after_insert (e ∷ es) original s u t stored h =
      subst (λ x. commit_stream (last_stream e es) original (length (e ∷ es)) x ≡ some (l.view t))
        stored (store_stream-commit_stream (last_stream e es) original (length (e ∷ es)) u t h)

  -- The stream is updated first.
  insert_after_update :
      (dbs : List (Evt Any)) (original : ℕ) (s u t : S)
      → update_stream_for_entity d dbs original s ≡ (ok tt, u)
      → l.view t ≡ add_events dbs (l.view u)
      → commit dbs original (l.view s) ≡ some (l.view t)
  unfolding update_stream_for_entity commit
  insert_after_update [] original s u t h stored = absurd cc
  insert_after_update (e ∷ es) original s u t h stored = rw (stored) (
      commit_stream-add_events (last_stream e es) original (length (e ∷ es)) (e ∷ es) (l.view s)
        (l.view u) (store_stream-commit_stream (last_stream e es) original (length (e ∷ es)) s u h))

  insert_verified_lem :
      (dbs : List (Evt Any)) (s t : S)
      → insert_verified d dbs s ≡ (ok tt, t)
      → l.view t ≡ add_events dbs (l.view s)
  unfolding insert_verified add_events
  insert_verified_lem dbs s t h =
      let (ids, u, called, rest) = bind-ok _ _ s tt t h in
      let (_, same) = lift-ok _ u tt t rest in
      rw (← same) (l.inserted_events dbs s u ids (wrapped-ok _ _ s ids u called))

  decoded_position-ok : (found : Result ℕ) (p : ℕ) → decoded_position found ≡ ok p → found ≡ ok p
  unfolding decoded_position
  decoded_position-ok (ok q) p h = h
  decoded_position-ok (err x) p h = absurd cc
  decoded_position-ok panic p h = absurd cc

  pub update_global_position_lem :
      (n : ℕ) (s t : S) (p : ℕ)
      → update_global_position d n s ≡ (ok p, t)
      → (p ≡ (l.view s).position) × (l.view t ≡ reserve n (l.view s))
  unfolding update_global_position reserve
  update_global_position_lem n s t p h =
      let (found, u, called, rest) = bind-ok _ _ s p t h in
      let (decoded, same) = lift-ok _ u p t rest in
      let made = l.incremented n s u found (wrapped-ok _ _ s found u called) in
      let whole = decoded_position-ok found p decoded in (made.0 p whole, rw (← same) made.1)

  pub update_global_position-state :
      (w : Wrapper) (n : ℕ) (s : S)
      → (l.view (wrapped w (update_global_position d n) s).1 ≡ l.view s)
        ⊎ (l.view (wrapped w (update_global_position d n) s).1 ≡ reserve n (l.view s))
  unfolding update_global_position lift wrapped reserve
  update_global_position-state w n s =
      elim (bind-cases
        (wrapped (errorf "could not increment global position") (d.increment_position n))
        (λ found. lift (decoded_position found)) s) [
          | inl (failed, _, same) ↦ inl (
              ap l.view same
              ∙ l.not_incremented n s (wrapped-fails _ (d.increment_position n) s failed))
          | inr (found, u, called, rest) ↦ inr (
              ap (λ p. l.view p.1) rest
              ∙ (l.incremented n s u found (
                  wrapped-ok (errorf "could not increment global position") (d.increment_position n)
                    s found u called)).1)
        ]

  -- A handler that leaves the two collections alone.
  abbrev pub LeavesCollections : Option (Event Any → Action S (Unit {0})) → Type 0
  LeavesCollections none = Unit
  LeavesCollections (some handle) = (e : Event Any) (s : S) → l.view (handle e s).1 ≡ l.view s

  handle_in_tx_lem :
      (handle : Event Any → Action S (Unit {0})) (es : List (Event Any)) (s t : S)
      → ((e : Event Any) (s : S) → l.view (handle e s).1 ≡ l.view s)
      → handle_in_tx handle es s ≡ (ok tt, t)
      → l.view t ≡ l.view s
  unfolding handle_in_tx
  handle_in_tx_lem handle [] s t a h = let (_, same) = lift-ok (ok tt) s tt t h in rw same refl
  handle_in_tx_lem handle (e ∷ es) s t a h =
      let (_, u, called, rest) =
        bind-ok (wrapped (errorf "could not handle event in transaction") (handle e))
          (λ _. handle_in_tx handle es) s tt t h in
      let handled = ap (λ p. p.1) (wrapped-ok _ (handle e) s tt u called) in
      handle_in_tx_lem handle es u t a rest ∙ ap l.view (sym handled) ∙ a e s

  handled_in_tx_lem :
      (handler : Option (Event Any → Action S (Unit {0}))) (es : List (Event Any)) (s t : S)
      → LeavesCollections handler
      → handled_in_tx handler es s ≡ (ok tt, t)
      → l.view t ≡ l.view s
  unfolding handled_in_tx
  handled_in_tx_lem none es s t a h = let (_, same) = lift-ok (ok tt) s tt t h in rw same refl
  handled_in_tx_lem (some handle) es s t a h = handle_in_tx_lem handle es s t a h

  handle_after_save-state :
      (handle : Event Any → Action S (Unit {0})) (es : List (Event Any)) (s : S)
      → ((e : Event Any) (s : S) → l.view (handle e s).1 ≡ l.view s)
      → l.view (handle_after_save handle es s).1 ≡ l.view s
  unfolding handle_after_save lift wrapped
  handle_after_save-state handle [] s q = refl
  handle_after_save-state handle (e ∷ es) s q =
      let later = handle_after_save-state handle es in
      elim (bind-cases (wrapped event_handler_error (handle e)) (λ _. handle_after_save handle es)
        s) [
          | inl (_, _, same) ↦ ap l.view same ∙ q e s
          | inr (x, u, handled, rest) ↦
              ap (λ p. l.view p.1) rest
              ∙ later u q
              ∙ ap l.view
                  (sym (ap (λ p. p.1) (wrapped-ok event_handler_error (handle e) s x u handled)))
              ∙ q e s
        ]

  pub handled_after_save-state :
      (after : Option (Event Any → Action S (Unit {0}))) (es : List (Event Any)) (s : S)
      → LeavesCollections after
      → l.view (handled_after_save after es s).1 ≡ l.view s
  unfolding handled_after_save lift
  handled_after_save-state none es s q = refl
  handled_after_save-state (some handle) es s q = handle_after_save-state handle es s q

  module _ (handler : Option (Event Any → Action S (Unit {0})))
      (a : LeavesCollections handler) where
    pub store_positioned-commit :
        (es : List (Event Any)) (dbs : List (Evt Any)) (original : ℕ) (s t : S)
        → store_positioned d handler es dbs original s ≡ (ok tt, t)
        → commit dbs original (l.view s) ≡ some (l.view t)
    unfolding store_positioned commit
    store_positioned-commit es dbs original s t h =
        let (_, u, updated, rest) = bind-ok (update_stream_for_entity d dbs original) _ s tt t h in
        let (_, v, inserted, handled) =
          bind-ok (insert_verified d dbs) (λ _. handled_in_tx handler es) u tt t rest in
        insert_after_update dbs original s u t updated
          (handled_in_tx_lem handler es v t a handled ∙ insert_verified_lem dbs u v inserted)

    pub store_in_tx-commit_next :
        (c : BsonCodec Any) (es : List (Event Any)) (dbs : List (Evt Any)) (original : ℕ) (s t : S)
        → store_in_tx d handler c es dbs original s ≡ (ok tt, t)
        → commit_next c dbs original (l.view s) ≡ some (l.view t)
    unfolding store_in_tx commit_next
    store_in_tx-commit_next c es dbs original s t h =
        let (p, u, counted, rest) = bind-ok (update_global_position d (length dbs)) _ s tt t h in
        let (_, v, inserted, later) =
          bind-ok (insert_verified d (at_positions c p dbs)) _ u tt t rest in
        let (_, w, updated, handled) =
          bind-ok (update_stream_for_entity d (at_positions c p dbs) original)
            (λ _. handled_in_tx handler es) v tt t later in
        let (before, reserved) = update_global_position_lem (length dbs) s u p counted in
        let stored =
          update_after_insert (at_positions c p dbs) original u v w
            (insert_verified_lem (at_positions c p dbs) u v inserted) updated in
        rw (handled_in_tx_lem handler es w t a handled, ← reserved, ← before) stored
