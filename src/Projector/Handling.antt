-- ===== src/Projector/Handling.antt =====
-- What the event handler of a projector does with the events of one entity.
use eventhorizon.Prelude.{
  ℕ, String, suc, ◌≤◌, ◌<◌, ◌≡◌, refl, inl, inr, true, false, Option, none, some, Option-cases,
  Bool-cases, arith, dec_le, ℕ_discrete,
}
use eventhorizon.Errors.{
  Err, Result, ok, err, panic, errors_is, entity_not_found, incorrect_entity_version,
}
use eventhorizon.Event.{Event}
use eventhorizon.Repo.{FindContext, Entity}
use eventhorizon.Projector.{
  EventHandler, fail, stored, update, version_of, finish, or_retry, apply, get_or_create,
  find_context, attempt,
}

module _ {E S Any : Type 0} (ent : Entity E) (h : EventHandler E S Any) where
  -- What is stored in the repository has been put there by the repository's own Save or Remove.
  pub data Updated (event : Event Any) (s t : S) : Type 0 where
    saved :
        (e : E)
        → ent.entity_id e ≡ h.entity_lookup event
        → ((v : ℕ) → ent.aggregate_version e ≡ some v → v ≡ event.version)
        → h.repo.save e s ≡ (ok tt, t)
        → Updated event s t
    removed : h.repo.remove (h.entity_lookup event) s ≡ (ok tt, t) → Updated event s t

  stored-ok :
      (text : String) (id v : ℕ) (r : Result (Unit {0}) × S) (t : S)
      → stored ent h text id v r ≡ (ok tt, t)
      → r ≡ (ok tt, t)
  unfolding stored
  stored-ok text id v (ok tt, s) t p = p
  stored-ok text id v (err x, s) t p = absurd (cc)
  stored-ok text id v (panic, s) t p = p

  update-Updated :
      (event : Event Any) (v : ℕ) (new : Option E) (s t : S)
      → ((e : E) → new ≡ some e → (w : ℕ) → ent.aggregate_version e ≡ some w → w ≡ event.version)
      → update ent h (h.entity_lookup event) v new s ≡ (ok tt, t)
      → Updated event s t
  unfolding update
  update-Updated event v none s t q p = removed (
      stored-ok "could not remove" (h.entity_lookup event) v
        (h.repo.remove (h.entity_lookup event) s) t p)
  update-Updated event v (some e) s t q p =
      elim (ℕ_discrete (ent.entity_id e) (h.entity_lookup event)) [
        | yes same ↦ saved e same (q e refl) (
            stored-ok "could not save" (h.entity_lookup event) v (h.repo.save e s) t (ground arith))
        | no other ↦ absurd (ground arith)
      ]

  -- What an event came to, given the entity that it met: it was old and changed nothing, or it was
  -- projected. It then comes after the version of the entity, right after it unless the versioning is
  -- irregular, and what is stored has the version of the event.
  pub data Settled (event : Event Any) (e : E) (s t : S) : Type 0 where
    ignored :
        (v : ℕ) → ent.aggregate_version e ≡ some v → event.version ≤ v → s ≡ t → Settled event e s t
    projected :
        ((v : ℕ)
          → ent.aggregate_version e ≡ some v
          → (v < event.version) × (h.use_irregular_versioning ≡ false → event.version ≡ suc v))
        → Updated event s t
        → Settled event e s t

  version_of-some :
      (new : Option E) (w : Option ℕ)
      → version_of ent h new ≡ w
      → (e : E) → new ≡ some e
      → ent.aggregate_version e ≡ w
  unfolding version_of
  version_of-some none w p e q = absurd (cc)
  version_of-some (some d) w p e q = cc

  finish-Updated :
      (event : Event Any) (v : ℕ) (r : Result (Option E)) (s t : S)
      → finish ent h event (h.entity_lookup event) v r s ≡ (ok tt, t)
      → Updated event s t
  unfolding finish
  finish-Updated event v (err x) s t p = absurd (cc)
  finish-Updated event v panic s t p = absurd (cc)
  finish-Updated event v (ok new) s t p = elim (Option-cases (version_of ent h new)) [
    | inl free ↦
        update-Updated event v new s t
          (λ e q w known. absurd (cc (version_of-some new none free e q, known))) (ground arith)
    | inr (w, known) ↦ elim (ℕ_discrete w event.version) [
      | yes same ↦
          update-Updated event w new s t
            (λ e q u at. cc (version_of-some new (some w) known e q, at, same)) (ground arith)
      | no other ↦ absurd (ground arith)
    ]
  ]

  apply-Settled :
      (event : Event Any) (e : E) (s t : S) (version : Option ℕ)
      → ent.aggregate_version e ≡ version
      → apply ent h none event (h.entity_lookup event) e s ≡ (ok tt, t)
      → Settled event e s t
  unfolding apply or_retry
  apply-Settled event e s t none q p =
      projected (λ v known. absurd (cc))
        (finish-Updated event 0 (h.projector.project event e) s t (ground arith))
  apply-Settled event e s t (some v) q p = elim (dec_le event.version v) [
    | yes old ↦ ignored v q old (ground arith)
    | no new ↦ elim (ℕ_discrete event.version (suc v)) [
      | yes next ↦
          projected (λ w known. (ground arith, λ regular. ground arith))
            (finish-Updated event v (h.projector.project event e) s t (ground arith))
      | no gap ↦ elim (Bool-cases h.use_irregular_versioning) [
        | inl irregular ↦
            projected (λ w known. (ground arith, λ regular. absurd (cc)))
              (finish-Updated event v (h.projector.project event e) s t (ground arith))
        | inr regular ↦ absurd (ground arith)
      ]
    ]
  ]

  -- The entity that an event meets: what Find returns, or a new one where Find does not find it.
  pub data Meets (ctx : FindContext) (event : Event Any) (s : S) (e : E) (t : S) : Type 0 where
    there :
        h.repo.find (find_context ent h ctx event) (h.entity_lookup event) s ≡ (ok e, t)
        → Meets ctx event s e t
    created :
        (x : Err)
        → h.repo.find (find_context ent h ctx event) (h.entity_lookup event) s ≡ (err x, t)
        → errors_is x entity_not_found ≡ true
        → h.factory ≡ some e
        → Meets ctx event s e t

  get_or_create-Settled :
      (ctx : FindContext) (event : Event Any) (found : Result E) (s s' t : S)
      → h.repo.find (find_context ent h ctx event) (h.entity_lookup event) s ≡ (found, s')
      → get_or_create ent h none event (h.entity_lookup event) found s' ≡ (ok tt, t)
      → (e : E) × Meets ctx event s e s' × Settled event e s' t
  unfolding get_or_create or_retry fail
  get_or_create-Settled ctx event (ok e) s s' t q p =
      (e, there q, apply-Settled event e s' t (ent.aggregate_version e) refl p)
  get_or_create-Settled ctx event panic s s' t q p = absurd (cc)
  get_or_create-Settled ctx event (err x) s s' t q p =
      elim (Bool-cases (errors_is x entity_not_found)) [
        | inl gone ↦ elim (Option-cases h.factory) [
          | inl no_factory ↦ absurd (ground arith)
          | inr (e, factory) ↦ (
            e,
            created x q gone factory,
            apply-Settled event e s' t (ent.aggregate_version e) refl (ground arith),
          )
        ]
        | inr other ↦ elim (Bool-cases (errors_is x incorrect_entity_version)) [
          | inl old ↦ absurd (ground arith)
          | inr failed ↦ absurd (ground arith)
        ]
      ]

  -- If one pass succeeds, it met an entity, found or newly made, and the event was settled with it.
  pub attempt-Settled :
      (ctx : FindContext) (event : Event Any) (s t : S)
      → attempt ent h ctx none event s ≡ (ok tt, t)
      → (e : E) × (s' : S) × Meets ctx event s e s' × Settled event e s' t
  unfolding attempt
  attempt-Settled ctx event s t p =
      let (found, s') = h.repo.find (find_context ent h ctx event) (h.entity_lookup event) s in
      let (e, meets, settled) = get_or_create-Settled ctx event found s s' t refl p in
      (e, s', meets, settled)
