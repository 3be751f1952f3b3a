-- ===== src/Projector/Retrying.antt =====
-- What the event handler of a projector does with its one retry.
use eventhorizon.Prelude.{
  ℕ, suc, ◌≡◌, refl, ◌⊎◌, inl, inr, true, not, ◌&&◌, none, some, Option-cases, Bool-cases, arith,
  ltb, ◌==◌, dec_le,
}
use eventhorizon.Errors.{
  Err, Result, ok, err, panic, Action, sentinel, wrap, errorf, projector_error, errors_is,
  errors_is-wrap, entity_not_found, incorrect_entity_version, model_removed,
}
use eventhorizon.Event.{Event}
use eventhorizon.Repo.{FindContext, Entity}
use eventhorizon.Projector.{
  EventHandler, fail, or_retry, apply, get_or_create, find_context, attempt, retry_once,
  handle_event,
}

module _ {E S Any : Type 0} (ent : Entity E) (h : EventHandler E S Any) where
  -- The errors that a retry stands in for: the entity was not one version behind the event.
  abbrev pub IsMismatch : Result (Unit {0}) → Type 0
  IsMismatch r =
      (x : Err) × (r ≡ err x)
      × ((errors_is x incorrect_entity_version ≡ true) ⊎ (errors_is x model_removed ≡ true))

  -- With a retry left, a step does what it does without one, or fails on the version and retries.
  abbrev OrRetries :
      Action S (Unit {0}) → S → Result (Unit {0}) × S → Result (Unit {0}) × S → Type 0
  OrRetries retry s with_one without =
      (with_one ≡ without) ⊎ (IsMismatch without.0 × (with_one ≡ retry s))

  apply-OrRetries :
      (retry : Action S (Unit {0})) (event : Event Any) (id : ℕ) (e : E) (s : S)
      → OrRetries retry s (apply ent h (some retry) event id e s) (apply ent h none event id e s)
  unfolding apply or_retry fail
  apply-OrRetries retry event id e s = elim (Option-cases (ent.aggregate_version e)) [
    | inl free ↦ inl (ground arith)
    | inr (v, known) ↦ elim (dec_le event.version v) [
      | yes old ↦ inl (ground arith)
      | no new ↦
          let failed = projector_error h.projector.projector_type id v in
          elim (Bool-cases (not (event.version == suc v) && not h.use_irregular_versioning)) [
            | inl bad ↦ elim (Bool-cases (v == 0 && ltb 1 event.version)) [
              | inl gone ↦ inr (
                (
                  wrap failed (sentinel model_removed),
                  ground arith,
                  inr (errors_is-wrap failed model_removed),
                ),
                ground arith,
              )
              | inr wrong ↦ inr (
                (
                  wrap failed (sentinel incorrect_entity_version),
                  ground arith,
                  inl (errors_is-wrap failed incorrect_entity_version),
                ),
                ground arith,
              )
            ]
            | inr good ↦ inl (ground arith)
          ]
    ]
  ]

  get_or_create-OrRetries :
      (retry : Action S (Unit {0})) (event : Event Any) (id : ℕ) (found : Result E) (s : S)
      → OrRetries retry s
          (get_or_create ent h (some retry) event id found s)
          (get_or_create ent h none event id found s)
  unfolding get_or_create or_retry fail errors_is
  get_or_create-OrRetries retry event id (ok e) s = apply-OrRetries retry event id e s
  get_or_create-OrRetries retry event id panic s = inl refl
  get_or_create-OrRetries retry event id (err x) s =
      elim (Bool-cases (errors_is x entity_not_found)) [
        | inl gone ↦ elim (Option-cases h.factory) [
          | inl no_factory ↦ inl (ground arith)
          | inr (e, factory) ↦ rw (gone, factory) (apply-OrRetries retry event id e s)
        ]
        | inr other ↦ elim (Bool-cases (errors_is x incorrect_entity_version)) [
          | inl old ↦ inr (
            (
              wrap (projector_error h.projector.projector_type id 0)
                  (wrap (errorf "could not load entity with correct version") x),
              ground arith,
              inl old,
            ),
            ground arith,
          )
          | inr failed ↦ inl (ground arith)
        ]
      ]

  -- A handler with a retry handles an event in one attempt, or, if that fails because the entity is
  -- not one version behind the event, in a second and last attempt after its sleep.
  pub handle_event_lem :
      (ctx : FindContext) (others : S → S) (event : Event Any) (s : S)
      → h.use_retry_once ≡ true
      → (handle_event ent h ctx others (some event) s ≡ attempt ent h ctx none event s)
        ⊎ (IsMismatch (attempt ent h ctx none event s).0
            × (handle_event ent h ctx others (some event) s
                ≡ attempt ent h ctx none event (
                    others
                      (h.repo.find (find_context ent h ctx event) (h.entity_lookup event) s).1)))
  unfolding handle_event attempt retry_once
  handle_event_lem ctx others event s w =
      let (found, s') = h.repo.find (find_context ent h ctx event) (h.entity_lookup event) s in
      rw w (
        get_or_create-OrRetries (λ u. attempt ent h ctx none event (others u)) event
          (h.entity_lookup event) found s')
