-- ===== src/Repo/Memory/Contract.antt =====
-- The memory repository as a repository: what is saved is found, and all that was saved is listed in
-- the order in which it first came.
use eventhorizon.Prelude.{
  ℕ, ℕ_discrete, ◌≡◌, refl, ap, ◌∙◌, true, none, some, Bool-cases, List, [], ◌∷◌, arith,
  Option-cases, All, inl, inr,
}
use eventhorizon.Errors.{
  Err, Operation, ok, err, wrap, sentinel, repo_error, errorf, wrap_err, entity_not_found,
  errors_is, errors_is-wrap,
}
use eventhorizon.Event.{nil_uuid}
use eventhorizon.Repo.{Entity, RepoLaws}
use eventhorizon.Repo.Memory.{
  Json, MemoryRepo, remove, store, save, unmarshal_for, with_found, find, collect, find_all,
  memory_repo,
}
use eventhorizon.Repo.Memory.Order.{IsIndexed, remove_lem, remove-IsIndexed, save-IsIndexed}
use eventhorizon.Repo.Memory.Finding.{
  RoundTrips, listed, wrapped_ok, found, found_state, Keyed, remove_self, remove_other, save_cases,
  save_self, save_other,
}

module _ {E Bytes : Type 0} (json : Json E Bytes) (ent : Entity E) (trip : RoundTrips json) where
  store-Keyed :
      (e : E) (r : MemoryRepo Bytes)
      → Keyed json ent r
      → Keyed json ent (store (ent.entity_id e) (trip.encode e) r)
  unfolding store
  store-Keyed e r k id b d at un = elim (ℕ_discrete (ent.entity_id e) id) [
    | yes q ↦
        let stored : some (trip.encode e) ≡ some b = ground arith in
        let bytes : trip.encode e ≡ b = cc in
        let same : json.unmarshal b ≡ ok e = rw (← bytes) (trip.decoded e) in
        let entity : d ≡ e = cc in ap ent.entity_id entity ∙ q
    | no q ↦ k id b d (ground arith) un
  ]

  save-Keyed :
      (e : E) (r : MemoryRepo Bytes) → Keyed json ent r → Keyed json ent (save json ent e r).1
  save-Keyed e r k = elim (save_cases json ent trip e r) [
    | inl (f, p) ↦ rw p (store-Keyed e r k)
    | inr (x, p) ↦ rw p k
  ]

  remove-Keyed :
      (id : ℕ) (r : MemoryRepo Bytes)
      → IsIndexed r
      → Keyed json ent r
      → Keyed json ent (remove id r).1
  remove-Keyed id r w k = elim (Option-cases (r.db id)) [
    | inl gone ↦ rw ((remove_lem id r w).1 gone) k
    | inr (old, there) ↦
        let (rest, out, e) = (remove_lem id r w).0 (λ h. cc) in
        rw e (λ j b d at un. k j b d (ground arith) un)
  ]

  -- Everything that is listed is an entity that Find returns.
  collect_found :
      (r : MemoryRepo Bytes)
      → r.factory_set ≡ true
      → Keyed json ent r
      → (ids : List ℕ) (es : List E) → collect json r.db ids ≡ ok es
      → All (λ e. (find json (ent.entity_id e) r).0 ≡ ok e) es
  unfolding collect with_found
  collect_found r f k [] [] h = tt
  collect_found r f k [] (e ∷ es) h = absurd (cc)
  collect_found r f k (id ∷ ids) es h =
      let later = collect_found r f k ids in
      elim (Option-cases (r.db id)) [
        | inl gone ↦ later es (ground arith)
        | inr (b, there) ↦
            let (e, rest, un, tail, split) =
              listed (unmarshal_for json Operation.find_all nil_uuid b) (collect json r.db ids) es
                (ground arith) in
            let decoded : json.unmarshal b ≡ ok e =
              wrapped_ok (repo_error Operation.find_all nil_uuid) (errorf "could not unmarshal")
                (json.unmarshal b) e un in
            rw split (
              ap (λ x. x.0)
                    (found json (ent.entity_id e) b r f (ap r.db (k id b e there decoded) ∙ there))
                  ∙ ap
                      (λ u.
                        wrap_err (repo_error Operation.find (ent.entity_id e))
                          (wrap_err (errorf "could not unmarshal") u))
                      decoded,
              later rest tail,
            )
      ]

  lists :
      (r : MemoryRepo Bytes) (es : List E)
      → IsIndexed r × Keyed json ent r
      → (find_all json r).0 ≡ ok es
      → All (λ e. (find json (ent.entity_id e) r).0 ≡ ok e) es
  unfolding find_all
  lists r es w h = elim (Bool-cases r.factory_set) [
    | inl f ↦ collect_found r f w.1 r.ids es (ground arith)
    | inr u ↦ absurd (ground arith)
  ]

  find_all_state : (r : MemoryRepo Bytes) → (find_all json r).1 ≡ r
  unfolding find_all
  find_all_state r = ground arith

  -- The memory repository keeps the contract of a repository, if JSON keeps the entities: its
  -- invariant is that the list of IDs goes with the map and each entity is under its own ID.
  pub memory_repo_laws : RepoLaws ent (memory_repo json ent)
  unfolding memory_repo
  memory_repo_laws = record {
    Holds = λ r. IsIndexed r × Keyed json ent r;
    view = λ r id. (find json id r).0;
    finds = λ ctx id r. found_state json id r;
    lists = lists;
    lists_state = find_all_state;
    save_holds = λ e r w. (save-IsIndexed json ent e r w.0, save-Keyed e r w.1);
    save_self = save_self json ent trip;
    save_other = save_other json ent trip;
    remove_holds = λ id r w. (remove-IsIndexed id r w.0, remove-Keyed id r w.0 w.1);
    remove_self = λ id r e w. remove_self json id r e w.0;
    remove_other = λ id r j w. remove_other json id r j w.0;
  }

  pub memory_repo-Holds :
      (r : MemoryRepo Bytes) → IsIndexed r → Keyed json ent r → memory_repo_laws.Holds r
  unfolding memory_repo_laws
  memory_repo-Holds r w k = (w, k)

  -- What the contract's view of an ID is, for an ID that the map has and for one that it has not.
  pub memory_repo-current :
      (id : ℕ) (e : E) (r : MemoryRepo Bytes)
      → r.factory_set ≡ true
      → r.db id ≡ some (trip.encode e)
      → memory_repo_laws.view r id ≡ ok e
  unfolding memory_repo_laws unmarshal_for
  memory_repo-current id e r f h = rw (found json id (trip.encode e) r f h, trip.decoded e) refl

  pub memory_repo-missing :
      (id : ℕ) (r : MemoryRepo Bytes)
      → r.factory_set ≡ true
      → r.db id ≡ none
      → (x : Err) × (memory_repo_laws.view r id ≡ err x) × (errors_is x entity_not_found ≡ true)
  unfolding memory_repo_laws find errors_is
  memory_repo-missing id r f h = (
    wrap (repo_error Operation.find id) (sentinel entity_not_found),
    ground arith,
    errors_is-wrap (repo_error Operation.find id) entity_not_found,
  )
