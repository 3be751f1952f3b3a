-- ===== src/Repo/Memory/Finding.antt =====
-- What Find of the memory repository returns, after a Save and after a Remove.
use eventhorizon.Prelude.{
  ℕ, ℕ_discrete, ◌≡◌, refl, ◌≢◌, true, some, Bool-cases, ◌⊎◌, List, ◌∷◌, arith, if_pos, if_neg,
  Option-cases, inl, inr,
}
use eventhorizon.Prelude.Maps
use eventhorizon.Prelude.Maps.{Map}
use eventhorizon.Errors.{
  Result, Err, Operation, ok, err, panic, wrap, sentinel, message, repo_error, Wrapper, wrap_err,
  model_not_set, ◌>>=◌,
}
use eventhorizon.Event.{nil_uuid}
use eventhorizon.Repo.{Entity}
use eventhorizon.Repo.Memory.{
  Json, MemoryRepo, remove, store, save_marshalled, save, unmarshal_for, find,
}
use eventhorizon.Repo.Memory.Order.{IsIndexed, remove_lem}

-- What JSON keeps: every entity is encoded, and decodes to itself.
pub record RoundTrips {E Bytes : Type 0} (json : Json E Bytes) : Type 0 where
  pub encode : E → Bytes
  pub encoded : (e : E) → json.marshal e ≡ ok (encode e)
  pub decoded : (e : E) → json.unmarshal (encode e) ≡ ok e

-- A list is put together from an entity and the rest of the list.
pub listed :
    {E : Type 0} (u : Result E) (t : Result (List E)) (es : List E)
    → (u >>= λ e. t >>= λ rest. ok (e ∷ rest)) ≡ ok es
    → (e : E) × (rest : List E) × (u ≡ ok e) × (t ≡ ok rest) × (es ≡ e ∷ rest)
listed (ok e) (ok rest) es h = (e, rest, refl, refl, cc)
listed (ok e) (err x) es h = absurd (cc)
listed (ok e) panic es h = absurd (cc)
listed (err x) t es h = absurd (cc)
listed panic t es h = absurd (cc)

pub wrapped_ok :
    {E : Type 0} (v w : Wrapper) (u : Result E) (e : E)
    → wrap_err v (wrap_err w u) ≡ ok e
    → u ≡ ok e
wrapped_ok v w (ok d) e h = h
wrapped_ok v w (err x) e h = absurd (cc)
wrapped_ok v w panic e h = absurd (cc)

module _ {E Bytes : Type 0} (json : Json E Bytes) where
  -- What Find returns depends on the factory and on the map at the ID, and on nothing else.
  pub found :
      (id : ℕ) (b : Bytes) (r : MemoryRepo Bytes)
      → r.factory_set ≡ true
      → r.db id ≡ some b
      → find json id r ≡ (unmarshal_for json Operation.find id b, r)
  unfolding find
  found id b r f h = ground arith

  pub found_same :
      (id : ℕ) (r r' : MemoryRepo Bytes)
      → r'.factory_set ≡ r.factory_set
      → r'.db id ≡ r.db id
      → (find json id r').0 ≡ (find json id r).0
  unfolding find
  found_same id r r' f h = elim (Option-cases (r.db id)) [
    | inl gone ↦ ground arith
    | inr (b, there) ↦ ground arith
  ]

  pub found_state : (id : ℕ) (r : MemoryRepo Bytes) → find json id r ≡ ((find json id r).0, r)
  unfolding find
  found_state id r = elim (Option-cases (r.db id)) [
    | inl gone ↦ ground arith
    | inr (b, there) ↦ ground arith
  ]

  -- An entity in the map is under its own ID.
  abbrev pub Keyed : Entity E → MemoryRepo Bytes → Type 0
  Keyed ent r =
      (id : ℕ) (b : Bytes) (e : E)
      → r.db id ≡ some b
      → json.unmarshal b ≡ ok e
      → ent.entity_id e ≡ id

  -- Find does not return what Remove has taken out, and answers for the other IDs as before.
  pub remove_self :
      (id : ℕ) (r : MemoryRepo Bytes) (e : E)
      → IsIndexed r
      → (find json id (remove id r).1).0 ≢ ok e
  unfolding find
  remove_self id r e w = elim (Option-cases (r.db id)) [
    | inl gone ↦ rw ((remove_lem id r w).1 gone) (λ h. ground arith)
    | inr (old, there) ↦
        let (rest, out, p) = (remove_lem id r w).0 (λ h. cc) in rw p (λ h. ground arith)
  ]

  pub remove_other :
      (id : ℕ) (r : MemoryRepo Bytes) (j : ℕ)
      → IsIndexed r
      → id ≢ j
      → (find json j (remove id r).1).0 ≡ (find json j r).0
  remove_other id r j w n = elim (Option-cases (r.db id)) [
    | inl gone ↦ rw ((remove_lem id r w).1 gone) refl
    | inr (old, there) ↦
        let (rest, out, p) = (remove_lem id r w).0 (λ h. cc) in
        rw p (
          found_same j r (record r { db = Maps.delete ℕ_discrete id r.db; ids = rest }) refl
            (ground arith))
  ]

module _ {E Bytes : Type 0} (json : Json E Bytes) (ent : Entity E) (trip : RoundTrips json) where
  pub saved :
      (e : E) (r : MemoryRepo Bytes)
      → r.factory_set ≡ true
      → ent.entity_id e ≢ nil_uuid
      → save json ent e r ≡ (ok tt, store (ent.entity_id e) (trip.encode e) r)
  unfolding save save_marshalled
  saved e r f n = rw (f, trip.encoded e) (if_neg (ℕ_discrete (ent.entity_id e) nil_uuid) n _ _)

  -- Save either stores the entity, in a repository that has its factory, or changes nothing.
  pub save_cases :
      (e : E) (r : MemoryRepo Bytes)
      → ((r.factory_set ≡ true)
          × (save json ent e r ≡ (ok tt, store (ent.entity_id e) (trip.encode e) r)))
        ⊎ ((x : Err) × (save json ent e r ≡ (err x, r)))
  unfolding save save_marshalled
  save_cases e r = elim (ℕ_discrete (ent.entity_id e) nil_uuid) [
    | yes p ↦ elim (Bool-cases r.factory_set) [
      | inl f ↦ inr (
        wrap (repo_error Operation.save nil_uuid) (message "missing entity ID"),
        rw f (if_pos (ℕ_discrete (ent.entity_id e) nil_uuid) p _ _),
      )
      | inr u ↦ inr (wrap (repo_error Operation.save nil_uuid) (sentinel model_not_set), rw u refl)
    ]
    | no n ↦ elim (Bool-cases r.factory_set) [
      | inl f ↦ inl (f, saved e r f n)
      | inr u ↦ inr (wrap (repo_error Operation.save nil_uuid) (sentinel model_not_set), rw u refl)
    ]
  ]

  pub save_self :
      (e : E) (r : MemoryRepo Bytes)
      → (save json ent e r).0 ≡ ok tt
      → (find json (ent.entity_id e) (save json ent e r).1).0 ≡ ok e
  unfolding store unmarshal_for
  save_self e r h = elim (save_cases e r) [
    | inl (f, p) ↦
        rw
          (
            p,
            found json (ent.entity_id e) (trip.encode e) (store (ent.entity_id e) (trip.encode e) r)
                f (Maps.get-insert_self ℕ_discrete (ent.entity_id e) (trip.encode e) r.db),
            trip.decoded e,
          )
          refl
    | inr (x, p) ↦ absurd (cc)
  ]

  pub save_other :
      (e : E) (r : MemoryRepo Bytes) (j : ℕ)
      → ent.entity_id e ≢ j
      → (find json j (save json ent e r).1).0 ≡ (find json j r).0
  unfolding store
  save_other e r j n = elim (save_cases e r) [
    | inl (f, p) ↦ rw p (
        found_same json j r (store (ent.entity_id e) (trip.encode e) r) refl
          (Maps.get-insert_ne ℕ_discrete (ent.entity_id e) j (trip.encode e) r.db n))
    | inr (x, p) ↦ rw p refl
  ]
