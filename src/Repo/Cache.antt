-- ===== src/Repo/Cache.antt =====
-- repo/cache/repo.go: a repository with a cache in front, each method run to its end before the next
-- one starts.
pub mod Coherence
mod Tests
use eventhorizon.Prelude.{ℕ, ℕ_discrete, Option, none, some, List, [], ◌∷◌, ite}
use eventhorizon.Prelude.Maps
use eventhorizon.Prelude.Maps.{Map}
use eventhorizon.Errors.{Result, ok, err, panic, Action}
use eventhorizon.Event.{Event}
use eventhorizon.Repo.{Entity, FindContext, Repo}

-- The cache, beside the state of the repository behind it.
pub record Cached (E S : Type 0) : Type 0 where
  pub cache : Map ℕ E
  pub inner : S

module _ {E S : Type 0} where
  unfoldable pub new_repo : S → Cached E S
  new_repo s = record { cache = Maps.empty; inner = s }

  bust : ℕ → Cached E S → Cached E S
  bust id c = record c { cache = Maps.delete ℕ_discrete id c.cache }

  -- HandleEvent drops the entity that the event is about.
  unfoldable pub handle_event : {Any : Type 0} → Event Any → Action (Cached E S) (Unit {0})
  unfolding bust
  handle_event e c = (ok tt, bust e.aggregate_id c)

  fetched : ℕ → Cached E S → Result E → S → Result E × Cached E S
  fetched id c (ok entity) s =
      (ok entity, record { cache = Maps.insert ℕ_discrete id entity c.cache; inner = s })
  fetched id c (err x) s = (err x, record c { inner = s })
  fetched id c panic s = (panic, record c { inner = s })

module _ {E S : Type 0} (repo : Repo E S) where
  unfoldable pub find : FindContext → ℕ → Action (Cached E S) E
  unfolding fetched
  find ctx id c = elim (c.cache id) [
    | some entity ↦ (ok entity, c)
    | none ↦ (let (r, s) = repo.find ctx id c.inner in fetched id c r s)
  ]

  unfoldable pub remove : ℕ → Action (Cached E S) (Unit {0})
  unfolding bust
  remove id c = let (r, s) = repo.remove id c.inner in (r, record (bust id c) { inner = s })

cache_all : {E : Type 0} → Entity E → List E → Map ℕ E → Map ℕ E
cache_all ent [] cache = cache
cache_all ent (entity ∷ entities) cache =
    cache_all ent entities (Maps.insert ℕ_discrete (ent.entity_id entity) entity cache)

module _ {E S : Type 0} (ent : Entity E) where
  fetched_all : Cached E S → Result (List E) → S → Result (List E) × Cached E S
  unfolding cache_all
  fetched_all c (ok entities) s =
      (ok entities, record { cache = cache_all ent entities c.cache; inner = s })
  fetched_all c (err x) s = (err x, record c { inner = s })
  fetched_all c panic s = (panic, record c { inner = s })

  module _ (repo : Repo E S) where
    unfoldable pub find_all : Action (Cached E S) (List E)
    unfolding fetched_all
    find_all c = let (r, s) = repo.find_all c.inner in fetched_all c r s

    -- As Remove does, Save drops the cached entity first, then goes to the repository behind.
    unfoldable pub save : E → Action (Cached E S) (Unit {0})
    unfolding bust
    save entity c =
        let (r, s) = repo.save entity c.inner in
        (r, record (bust (ent.entity_id entity) c) { inner = s })
