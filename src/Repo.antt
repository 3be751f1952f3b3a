-- ===== src/Repo.antt =====
-- repo.go, entity.go and repo/version/context.go: the repository interface, over a state `S` of the
-- repository and all that it reaches, and what a context can ask of it.
pub mod Memory
pub mod Version
pub mod Cache
use eventhorizon.Prelude.{
  ℕ, String, ◌≡◌, ◌⊎◌, Bool, true, false, Option, none, some, List, ◌≢◌, All,
}
use eventhorizon.Errors.{Action, Result, ok}

-- EntityID, and AggregateVersion for an entity that is Versionable.
pub record Entity (E : Type 0) : Type 0 where
  pub entity_id : E → ℕ
  pub aggregate_version : E → Option ℕ

-- The values that a context carries for a Find: the min version, and whether it has a deadline.
pub record FindContext : Type 0 where
  pub min_version : Option ℕ
  pub has_deadline : Bool

-- context.Background()
abbrev pub background : FindContext
background = record { min_version = none; has_deadline = false }

-- NewContextWithMinVersion and NewContextWithMinVersionWait.
unfoldable pub with_min_version : ℕ → FindContext → FindContext
with_min_version v ctx = record ctx { min_version = some v }

unfoldable pub with_min_version_wait : ℕ → FindContext → FindContext
with_min_version_wait v ctx = record { min_version = some v; has_deadline = true }

pub record Repo (E S : Type 0) : Type 0 where
  pub find : FindContext → ℕ → Action S E
  pub find_all : Action S (List E)
  pub save : E → Action S (Unit {0})
  pub remove : ℕ → Action S (Unit {0})

-- The contract of a repository that answers at once, whatever the context. `Holds` is the invariant
-- of its states, and `view s id` is what a Find of the ID returns.
pub record RepoLaws {E S : Type 0} (ent : Entity E) (r : Repo E S) : Type 1 where
  pub Holds : S → Type 0
  pub view : S → ℕ → Result E
  pub finds : (ctx : FindContext) (id : ℕ) (s : S) → r.find ctx id s ≡ (view s id, s)
  pub lists :
      (s : S) (es : List E)
      → Holds s
      → (r.find_all s).0 ≡ ok es
      → All (λ e. view s (ent.entity_id e) ≡ ok e) es
  pub lists_state : (s : S) → (r.find_all s).1 ≡ s
  pub save_holds : (e : E) (s : S) → Holds s → Holds (r.save e s).1
  pub save_self :
      (e : E) (s : S) → (r.save e s).0 ≡ ok tt → view (r.save e s).1 (ent.entity_id e) ≡ ok e
  pub save_other : (e : E) (s : S) (j : ℕ) → ent.entity_id e ≢ j → view (r.save e s).1 j ≡ view s j
  pub remove_holds : (id : ℕ) (s : S) → Holds s → Holds (r.remove id s).1
  pub remove_self : (id : ℕ) (s : S) (e : E) → Holds s → view (r.remove id s).1 id ≢ ok e
  pub remove_other :
      (id : ℕ) (s : S) (j : ℕ) → Holds s → id ≢ j → view (r.remove id s).1 j ≡ view s j
