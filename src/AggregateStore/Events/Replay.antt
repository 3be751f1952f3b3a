-- ===== src/AggregateStore/Events/Replay.antt =====
-- Replaying: what Load builds is the aggregate that was saved.
use mathlib.Core.List.{map-append}
use eventhorizon.Prelude.{
  ℕ, suc, ◌+◌, String, String-discrete, ◌≡◌, refl, sym, ap, ◌≢◌, ◌∙◌, inl, inr, true, Option, none,
  some, List, [], ◌∷◌, ◌++◌, map, arith, length, All, subst, if_pos, if_neg,
}
use eventhorizon.Errors.{Result, Result-cases, ok, err, panic, sentinel, mismatched_event_type}
use eventhorizon.Event.{Event}
use eventhorizon.Registry
use eventhorizon.EventStore.{EventStoreLaws, IsBatch, Loads}
use eventhorizon.AggregateStore.Events.Base.{clear_uncommitted_events, set_aggregate_version}
use eventhorizon.AggregateStore.Events.{
  Aggregate, AggregateStore, Domain, applied, apply_one, apply_events, replay, replay_events,
  snapshots_for, load, last_of, take_snapshot, save,
}

module _ {Any D : Type 0} (dom : Domain Any D) where
  -- What applying an event never changes.
  abbrev SameAggregate : Aggregate Any D → Aggregate Any D → Type 0
  SameAggregate a b =
      (b.base.id ≡ a.base.id)
      × (b.base.t ≡ a.base.t)
      × (b.base.events ≡ a.base.events)
      × (b.versioned ≡ a.versioned)
      × (b.snapshotable ≡ a.snapshotable)

  applied_keeps :
      (e : Event Any) (a : Aggregate Any D) (d : D) (x : Result (Unit {0}))
      → SameAggregate a (applied dom e a d x).1
  unfolding applied set_aggregate_version
  applied_keeps e a d (ok _) = (refl, refl, refl, refl, refl)
  applied_keeps e a d (err x) = (refl, refl, refl, refl, refl)
  applied_keeps e a d panic = (refl, refl, refl, refl, refl)

  apply_one_same :
      (e : Event Any) (a : Aggregate Any D)
      → e.aggregate_type ≡ a.base.t
      → apply_one dom e a
        ≡ applied dom e a (dom.apply_event e a.domain).1 (dom.apply_event e a.domain).0
  unfolding apply_one
  apply_one_same e a p =
      if_pos (String-discrete e.aggregate_type a.base.t) p
        (applied dom e a (dom.apply_event e a.domain).1 (dom.apply_event e a.domain).0)
        (err (sentinel mismatched_event_type), a)

  apply_one_other :
      (e : Event Any) (a : Aggregate Any D)
      → e.aggregate_type ≢ a.base.t
      → apply_one dom e a ≡ (err (sentinel mismatched_event_type), a)
  unfolding apply_one
  apply_one_other e a p =
      if_neg (String-discrete e.aggregate_type a.base.t) p
        (applied dom e a (dom.apply_event e a.domain).1 (dom.apply_event e a.domain).0)
        (err (sentinel mismatched_event_type), a)

  apply_one_keeps : (e : Event Any) (a : Aggregate Any D) → SameAggregate a (apply_one dom e a).1
  apply_one_keeps e a = elim (String-discrete e.aggregate_type a.base.t) [
    | yes p ↦
        rw (apply_one_same e a p)
          (applied_keeps e a (dom.apply_event e a.domain).1 (dom.apply_event e a.domain).0)
    | no p ↦ rw (apply_one_other e a p) (refl, refl, refl, refl, refl)
  ]

  applied_version :
      (e : Event Any) (a : Aggregate Any D) (d : D) (x : Result (Unit {0}))
      → (applied dom e a d x).0 ≡ ok tt
      → (applied dom e a d x).1.base.v ≡ e.version
  unfolding applied set_aggregate_version
  applied_version e a d (ok _) h = refl
  applied_version e a d (err x) h = absurd (cc)
  applied_version e a d panic h = absurd (cc)

  apply_one_version :
      (e : Event Any) (a : Aggregate Any D)
      → (apply_one dom e a).0 ≡ ok tt
      → (apply_one dom e a).1.base.v ≡ e.version
  apply_one_version e a = elim (String-discrete e.aggregate_type a.base.t) [
    | yes p ↦
        rw (apply_one_same e a p)
          (applied_version e a (dom.apply_event e a.domain).1 (dom.apply_event e a.domain).0)
    | no p ↦ rw (apply_one_other e a p) (λ h. absurd (cc))
  ]

  -- The loop goes on exactly if the event was applied.
  apply_events-cons :
      (e : Event Any) (es : List (Option (Event Any))) (a b : Aggregate Any D)
      → apply_events dom (some e ∷ es) a ≡ (ok tt, b)
      → ((apply_one dom e a).0 ≡ ok tt)
        × (apply_events dom (some e ∷ es) a ≡ apply_events dom es (apply_one dom e a).1)
  unfolding apply_events
  apply_events-cons e es a b h = elim (Result-cases (apply_one dom e a).0) [
    | inl (u, done) ↦ (done, rw (done, apply_events))
    | inr (inl (x, failed)) ↦ absurd (ground arith)
    | inr (inr failed) ↦ absurd (ground arith)
  ]

  pub apply_events-append :
      (es ds : List (Option (Event Any))) (a b : Aggregate Any D)
      → apply_events dom es a ≡ (ok tt, b)
      → apply_events dom (es ++ ds) a ≡ apply_events dom ds b
  unfolding apply_events
  apply_events-append [] ds a b h = ap (λ p. apply_events dom ds p.1) h
  apply_events-append (none ∷ es) ds a b h = absurd (cc)
  apply_events-append (some e ∷ es) ds a b h =
      let (done, step) = apply_events-cons e es a b h in
      rw (done, apply_events) (apply_events-append es ds (apply_one dom e a).1 b (sym step ∙ h))

  -- Applying a batch that follows the aggregate's version, if every event can be applied, leaves the
  -- aggregate at the version of the last one.
  pub apply_events_version :
      (id : ℕ) (at : String) (v : ℕ) (es : List (Event Any)) (a b : Aggregate Any D)
      → a.base.v ≡ v
      → IsBatch id at v es
      → apply_events dom (map some es) a ≡ (ok tt, b)
      → b.base.v ≡ v + length es
  unfolding apply_events
  apply_events_version id at v [] a b start k h =
      let same : a ≡ b = ap (λ p. p.1) h in
      omega (arith, ap (λ (x : Aggregate Any D). x.base.v) same)
  apply_events_version id at v (e ∷ es) a b start k h =
      let (done, step) = apply_events-cons e (map some es) a b h in
      let next : (apply_one dom e a).1.base.v ≡ suc v = apply_one_version e a done ∙ k.2 in
      omega (
        arith,
        apply_events_version id at (suc v) es (apply_one dom e a).1 b next k.3 (sym step ∙ h),
      )

  pub apply_events_keeps :
      (es : List (Option (Event Any))) (a b : Aggregate Any D)
      → apply_events dom es a ≡ (ok tt, b)
      → SameAggregate a b
  unfolding apply_events
  apply_events_keeps [] a b h = rw (ap (λ p. p.1) h) (refl, refl, refl, refl, refl)
  apply_events_keeps (none ∷ es) a b h = absurd (cc)
  apply_events_keeps (some e ∷ es) a b h =
      let (done, step) = apply_events-cons e es a b h in
      let (i, t, u, v, w) = apply_one_keeps e a in
      let (i', t', u', v', w') = apply_events_keeps es (apply_one dom e a).1 b (sym step ∙ h) in
      (i' ∙ i, t' ∙ t, u' ∙ u, v' ∙ v, w' ∙ w)

-- An aggregate whose command handler has appended these events.
abbrev pub with_uncommitted :
    {Any D : Type 0} → List (Event Any) → Aggregate Any D → Aggregate Any D
with_uncommitted es a = record a { base = record a.base { events = es } }

module _ {Any D S : Type 0} (r : AggregateStore Any D S) where
  replay_events_lem :
      (t : String) (id : ℕ) (a b : Aggregate Any D) (es : List (Option (Event Any)))
      → apply_events r.domain es a ≡ (ok tt, b)
      → replay_events r t id a es ≡ ok b
  unfolding replay_events
  replay_events_lem t id a b es h = rw h

  -- Load returns what replaying the stored events makes of a new aggregate, and changes nothing.
  load_replays :
      (t : String) (id : ℕ) (s : S) (factory : ℕ → Aggregate Any D) (es : List (Event Any))
      (a : Aggregate Any D)
      → Registry.get r.aggregates t ≡ some factory
      → r.snapshot_store ≡ none
      → (factory id).versioned ≡ true
      → (factory id).base.id ≡ id
      → Loads r.store s id es
      → apply_events r.domain (map some es) (factory id) ≡ (ok tt, a)
      → load r t id s ≡ (ok a, s)
  unfolding load replay replay_events snapshots_for
  load_replays t id s factory es a known plain versioned own (inl loaded) replayed =
      ground (arith, replay_events_lem t id (factory id) a (map some es) replayed)
  load_replays t id s factory es a known plain versioned own (inr (x, empty, not_found, loaded))
        replayed =
      ground (arith, replay_events_lem t id (factory id) a (map some es) replayed)

  -- With no snapshot store no snapshot is taken.
  take_snapshot-none :
      (now : ℕ) (a : Aggregate Any D) (last : Event Any) (s : S)
      → r.snapshot_store ≡ none
      → take_snapshot r now a last s ≡ (ok tt, s)
  unfolding take_snapshot snapshots_for
  take_snapshot-none now a last s plain = ground arith

  -- What the save leaves, if there is no snapshot store, the events are saved, and they can be applied.
  save_applies :
      (now : ℕ) (s s' : S) (a b : Aggregate Any D) (d : Event Any) (ds : List (Event Any))
      → r.snapshot_store ≡ none
      → a.versioned ≡ true
      → r.store.save (d ∷ ds) a.base.v s ≡ (ok tt, s')
      → apply_events r.domain (map some (d ∷ ds)) (with_uncommitted [] a) ≡ (ok tt, b)
      → save r now (s, with_uncommitted (d ∷ ds) a) ≡ (ok tt, (s', b))
  unfolding save clear_uncommitted_events
  save_applies now s s' a b d ds plain versioned saved applies =
      ground (arith, take_snapshot-none now b (last_of r d ds) s' plain)

  module _ (laws : EventStoreLaws r.store) (t : String) (id : ℕ) (factory : ℕ → Aggregate Any D)
      (known : Registry.get r.aggregates t ≡ some factory) (plain : r.snapshot_store ≡ none)
      (versioned : (factory id).versioned ≡ true) (own : (factory id).base.id ≡ id)
      (new : (factory id).base.v ≡ 0) (empty : (factory id).base.events ≡ []) where
    -- An aggregate whose stream the store holds, and which has been replayed from it.
    abbrev pub IsLoaded : S → List (Event Any) → Aggregate Any D → Type 0
    IsLoaded s es a =
        laws.Holds s id es
        × IsBatch id t 0 es
        × (apply_events r.domain (map some es) (factory id) ≡ (ok tt, a))

    -- A command that appends events in line after the loaded version: if the store takes them and
    -- they can be applied, Save succeeds, and the aggregate that it leaves is what a later Load
    -- returns. The store holds the old events, then the new ones.
    pub load-save :
        (now : ℕ) (s s' : S) (es : List (Event Any)) (a b : Aggregate Any D) (d : Event Any)
        (ds : List (Event Any))
        → IsLoaded s es a
        → IsBatch id t (length es) (d ∷ ds)
        → All laws.Storable (d ∷ ds)
        → r.store.save (d ∷ ds) (length es) s ≡ (ok tt, s')
        → apply_events r.domain (map some (d ∷ ds)) a ≡ (ok tt, b)
        → (load r t id s ≡ (ok a, s))
          × (save r now (s, with_uncommitted (d ∷ ds) a) ≡ (ok tt, (s', b)))
          × (load r t id s' ≡ (ok b, s'))
          × laws.Holds s' id (es ++ d ∷ ds)
    load-save now s s' es a b d ds (holds, batch, replayed) next storable saved applies =
        let (_, _, uncommitted, is_versioned, _) =
          apply_events_keeps r.domain (map some es) (factory id) a replayed in
        let version : a.base.v ≡ length es =
          omega
            (arith, apply_events_version r.domain id t 0 es (factory id) a new batch replayed) in
        let cleared : a ≡ with_uncommitted [] a =
          ap (λ x. with_uncommitted x a) (uncommitted ∙ empty) in
        let holds' : laws.Holds s' id (es ++ d ∷ ds) =
          subst (λ x. laws.Holds x id (es ++ d ∷ ds)) (ap (λ p. p.1) saved)
            (laws.appends s id t es d ds holds next storable (ap (λ p. p.0) saved)) in
        let replayed' : apply_events r.domain (map some (es ++ d ∷ ds)) (factory id) ≡ (ok tt, b) =
          rw map-append (
            apply_events-append r.domain (map some es) (map some (d ∷ ds)) (factory id) a replayed
            ∙ applies) in
        (
          load_replays t id s factory es a known plain versioned own (laws.loads s id es holds)
              replayed,
          save_applies now s s' a b d ds plain (is_versioned ∙ versioned) (rw version saved) (
              subst (λ x. apply_events r.domain (map some (d ∷ ds)) x ≡ (ok tt, b)) cleared
                applies),
          load_replays t id s' factory (es ++ d ∷ ds) b known plain versioned own
              (laws.loads s' id (es ++ d ∷ ds) holds') replayed',
          holds',
        )
