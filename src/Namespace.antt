-- ===== src/Namespace.antt =====
-- namespace/repo.go and namespace/eventstore.go: one instance per namespace, made
-- when the namespace is first seen. `H` is the interface value that an instance is, `none` for nil;
-- the factory acts on the world `W`. A lookup is two steps, since it takes the read lock and then, if
-- it found nothing, the write lock.
pub mod Lookups
pub mod Methods
pub mod Outboxes
mod Tests
mod OutboxTests
use eventhorizon.Prelude.{
  ℕ, String, String-discrete, ℕ_discrete, ◌≡◌, Option, none, some, List, [], ◌∷◌, ◌++◌, ite,
}
use eventhorizon.Prelude.Maps
use eventhorizon.Prelude.Maps.{Map}
use eventhorizon.Errors.{Err, Result, ok, err, panic, Action, wrap, errorf, message, ◌>>=◌}

abbrev pub Instances : Type 0 → Type 0
Instances H = Map String H

module _ {H W : Type 0} where
  -- What follows a call of the factory: only a new instance is stored.
  unfoldable pub install :
      String → String → Instances H → Result H × W → Result (Option H) × (Instances H × W)
  install what ns m (ok h, w) = (ok (some h), (Maps.insert String-discrete ns h m, w))
  install what ns m (err x, w) = (err (wrap (errorf what) x), (m, w))
  install what ns m (panic, w) = (panic, (m, w))

  module _ (factory : String → Action W H) where
    -- The block under the write lock in EventStore.eventStore, whose check assigns what it finds.
    unfoldable pub event_store_locked : String → Action (Instances H × W) (Option H)
    unfolding install
    event_store_locked ns (m, w) = elim (m ns) [
      | some h ↦ (ok (some h), (m, w))
      | none ↦ install "could not create event store for namespace" ns m (factory ns w)
    ]

    -- The one in Repo.repo, whose check does not: the variable has the nil of the first look.
    unfoldable pub repo_locked : String → Action (Instances H × W) (Option H)
    unfolding install
    repo_locked ns (m, w) = elim (m ns) [
      | some h ↦ (ok none, (m, w))
      | none ↦ install "could not create repo for namespace" ns m (factory ns w)
    ]

    -- The two steps of one caller, with nobody in between.
    unfoldable pub event_store : String → Action (Instances H × W) (Option H)
    unfolding event_store_locked
    event_store ns (m, w) = elim (m ns) [
      | some h ↦ (ok (some h), (m, w))
      | none ↦ event_store_locked ns (m, w)
    ]

    unfoldable pub repo : String → Action (Instances H × W) (Option H)
    unfolding repo_locked
    repo ns (m, w) = elim (m ns) [ some h ↦ (ok (some h), (m, w)) | none ↦ repo_locked ns (m, w) ]

  -- The loop of Close over the instances, in the order that the runtime picks. The errors are collected,
  -- and a panic ends it.
  close_each : (H → Action W (Unit {0})) → List H → Action W (List Err)
  close_each close [] w = (ok [], w)
  close_each close (h ∷ hs) w =
      let (r, v) = close h w in
      let (rest, u) = close_each close hs v in
      elim r [ ok _ ↦ (rest, u) | err x ↦ (rest >>= λ errs. ok (x ∷ errs), u) | panic ↦ (panic, v) ]

  unfoldable pub close : (H → Action W (Unit {0})) → List H → Action W (Unit {0})
  unfolding close_each
  close close_one hs w =
      let (r, u) = close_each close_one hs w in
      (r >>= λ errs. elim errs [ [] ↦ ok tt | x ∷ xs ↦ err (message "multiple errors") ], u)
