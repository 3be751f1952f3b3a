-- ===== src/Repo/Memory.antt =====
-- repo/memory: entities as JSON in a map, with the order of insertion in a list. Each method holds the
-- mutex for its whole body. json.Marshal and json.Unmarshal of the entities are parameters, with the
-- factory that gives Unmarshal its target inside the latter.
pub mod Order
pub mod Finding
pub mod Contract
pub mod Listing
mod Tests
use eventhorizon.Prelude.{
  ℕ, ◌+◌, String, ℕ_discrete, ◌≡◌, Bool, true, false, Option, none, some, List, [], ◌∷◌, ◌++◌, ite,
  if◌then◌else◌, ◌==◌,
}
use eventhorizon.Prelude.Maps
use eventhorizon.Prelude.Maps.{Map}
use eventhorizon.Errors.{
  Operation, Err, Result, ok, err, panic, Action, sentinel, message, wrap, wrap_err, errorf,
  repo_error, model_not_set, entity_not_found, ◌>>=◌,
}
use eventhorizon.Event.{nil_uuid}
use eventhorizon.Repo.{Entity, FindContext, Repo}

pub record Json (E Bytes : Type 0) : Type 0 where
  pub marshal : E → Result Bytes
  pub unmarshal : Bytes → Result E

pub record MemoryRepo (Bytes : Type 0) : Type 0 where
  pub db : Map ℕ Bytes
  pub ids : List ℕ
  pub factory_set : Bool  -- factoryFn != nil

-- `append(ids[:index], ids[index+1:]...)` at the first index of the ID; with no such index the
-- slice is out of range.
remove_id : ℕ → List ℕ → Result (List ℕ)
remove_id id [] = panic
remove_id id (d ∷ ids) =
    let rest = remove_id id ids in
    ite (ℕ_discrete id d) (ok ids) (rest >>= λ removed. ok (d ∷ removed))

module _ {Bytes : Type 0} where
  unfoldable pub new_repo : MemoryRepo Bytes
  new_repo = record { db = Maps.empty; ids = []; factory_set = false }

  unfoldable pub set_entity_factory : MemoryRepo Bytes → MemoryRepo Bytes
  set_entity_factory r = record r { factory_set = true }

  -- The rest of `Remove` once the entry is deleted from the map.
  without_id : MemoryRepo Bytes → Result (List ℕ) → Result (Unit {0}) × MemoryRepo Bytes
  without_id r (ok ids) = (ok tt, record r { ids = ids })
  without_id r (err x) = (err x, r)
  without_id r panic = (panic, r)

  unfoldable pub remove : ℕ → Action (MemoryRepo Bytes) (Unit {0})
  unfolding remove_id without_id
  remove id r = elim (r.db id) [
    | none ↦ (err (wrap (repo_error Operation.remove id) (sentinel entity_not_found)), r)
    | some b ↦ without_id (record r { db = Maps.delete ℕ_discrete id r.db }) (remove_id id r.ids)
  ]

  -- The end of `Save`: the ID is appended if the map does not have it.
  pub store : ℕ → Bytes → MemoryRepo Bytes → MemoryRepo Bytes
  store id b r = record r {
    db = Maps.insert ℕ_discrete id b r.db;
    ids = elim (r.db id) [ none ↦ r.ids ++ id ∷ [] | some _ ↦ r.ids ];
  }

  save_marshalled : ℕ → Result Bytes → Action (MemoryRepo Bytes) (Unit {0})
  unfolding store
  save_marshalled id (ok b) r = (ok tt, store id b r)
  save_marshalled id (err x) r =
      (err (wrap (repo_error Operation.save id) (wrap (errorf "could not marshal") x)), r)
  save_marshalled id panic r = (panic, r)

module _ {E Bytes : Type 0} (json : Json E Bytes) where
  pub unmarshal_for : Operation → ℕ → Bytes → Result E
  unmarshal_for op id b =
      wrap_err (repo_error op id) (wrap_err (errorf "could not unmarshal") (json.unmarshal b))

  unfoldable pub find : ℕ → Action (MemoryRepo Bytes) E
  unfolding unmarshal_for
  find id r =
      if r.factory_set
      then (elim (r.db id) [
        | none ↦ (err (wrap (repo_error Operation.find id) (sentinel entity_not_found)), r)
        | some b ↦ (unmarshal_for Operation.find id b, r)
      ])
      else (err (wrap (repo_error Operation.find id) (sentinel model_not_set)), r)

  -- A turn of the loop of FindAll, in front of the other turns. An ID that the map does not have is
  -- skipped.
  with_found : Option Bytes → Result (List E) → Result (List E)
  unfolding unmarshal_for
  with_found none rest = rest
  with_found (some b) rest = do
    entity ← unmarshal_for Operation.find_all nil_uuid b
    found ← rest
    ok (entity ∷ found)

  collect : Map ℕ Bytes → List ℕ → Result (List E)
  unfolding with_found
  collect db [] = ok []
  collect db (id ∷ ids) = with_found (db id) (collect db ids)

  unfoldable pub find_all : Action (MemoryRepo Bytes) (List E)
  unfolding collect
  find_all r =
      if r.factory_set
      then (collect r.db r.ids, r)
      else (err (wrap (repo_error Operation.find_all nil_uuid) (sentinel model_not_set)), r)

  module _ (ent : Entity E) where
    unfoldable pub save : E → Action (MemoryRepo Bytes) (Unit {0})
    unfolding save_marshalled
    save entity r =
        let id = ent.entity_id entity in
        if r.factory_set
        then ite (ℕ_discrete id nil_uuid)
            (err (wrap (repo_error Operation.save nil_uuid) (message "missing entity ID")), r)
            (save_marshalled id (json.marshal entity) r)
        else (err (wrap (repo_error Operation.save nil_uuid) (sentinel model_not_set)), r)

    -- The repository as an interface value: it does not look at the context.
    unfoldable pub memory_repo : Repo E (MemoryRepo Bytes)
    memory_repo = record {
      find = λ ctx id. find id;
      find_all = find_all;
      save = save;
      remove = remove;
    }
