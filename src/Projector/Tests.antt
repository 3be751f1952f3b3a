-- ===== src/Projector/Tests.antt =====
-- A projector that sets the version of an item to that of the event, over a memory repository.
use eventhorizon.Prelude.{
  ℕ, ◌≡◌, refl, ◌≢◌, inr, true, false, none, some, [], ◌∷◌, arith, ℕ_discrete,
}
use eventhorizon.Prelude.Maps
use eventhorizon.Errors.{ok}
use eventhorizon.Samples.{Item, item, entity, json, json_trip, opened, paid}
use eventhorizon.Repo.{background, Repo, RepoLaws}
use eventhorizon.Repo.Memory.{MemoryRepo, memory_repo, save, find}
use eventhorizon.Repo.Memory.Contract.{memory_repo_laws, memory_repo-missing}
use eventhorizon.Projector.{
  Projector, EventHandler, attempt, new_event_handler, set_entity_factory, with_retry_once,
}
use eventhorizon.Projector.Handling.{Meets, Settled, attempt-Settled}
use eventhorizon.Projector.Streams.{Current, Folds, handle_all, handle_all_lem}

abbrev projector : Projector Item ℕ
projector = record {
  projector_type = "items";
  project = λ event e. ok (some (item e.item_id event.version));
}

abbrev repo : Repo Item (MemoryRepo Item)
repo = memory_repo json entity

abbrev laws : RepoLaws entity (memory_repo json entity)
laws = memory_repo_laws json entity json_trip

abbrev handler : EventHandler Item (MemoryRepo Item) ℕ
handler = record {
  projector = projector;
  repo = repo;
  factory = some (item 7 0);
  use_wait = false;
  use_retry_once = true;
  use_irregular_versioning = false;
  entity_lookup = λ event. event.aggregate_id;
}

handler_made :
    set_entity_factory (item 7 0) (new_event_handler projector repo (with_retry_once ∷ []))
    ≡ handler
unfolding set_entity_factory new_event_handler with_retry_once
handler_made = refl

abbrev fresh : MemoryRepo Item
fresh = record { db = Maps.empty; ids = []; factory_set = true }

abbrev holding : ℕ → MemoryRepo Item
holding v = record {
  db = Maps.insert ℕ_discrete 7 (item 7 v) Maps.empty;
  ids = 7 ∷ [];
  factory_set = true;
}

projected_one :
    attempt entity handler background none paid (holding 1)
    ≡ (ok tt, (repo.save (item 7 2) (holding 1)).1)
unfolding attempt memory_repo save find ℕ_discrete
projected_one = refl

attempt-Settled_example :
    (e : Item) × (t : MemoryRepo Item) × Meets entity handler background paid (holding 1) e t
    × Settled entity handler paid e t (repo.save (item 7 2) (holding 1)).1
attempt-Settled_example =
    attempt-Settled entity handler background paid (holding 1) (repo.save (item 7 2) (holding 1)).1
      projected_one

ready_save :
    (d : Item) (u : MemoryRepo Item)
    → u.factory_set ≡ true
    → d.item_id ≡ 7
    → ((repo.save d u).0 ≡ ok tt) × ((repo.save d u).1.factory_set ≡ true)
unfolding memory_repo save
ready_save d u f i = (ground arith, ground arith)

handle_all_lem_example :
    ((handle_all entity handler background (λ r. r) (opened ∷ paid ∷ []) fresh).0 ≡ ok tt)
    × Current entity handler laws
        (handle_all entity handler background (λ r. r) (opened ∷ paid ∷ []) fresh).1
        7
        (item 7 2)
    × (entity.aggregate_version (item 7 2) ≡ some 2)
    × ((j : ℕ)
        → 7 ≢ j
        → laws.view (handle_all entity handler background (λ r. r) (opened ∷ paid ∷ []) fresh).1 j
          ≡ laws.view fresh j)
handle_all_lem_example =
    handle_all_lem entity handler laws background (λ r. r) 7 "account" 0 (opened ∷ paid ∷ [])
      (item 7 0) (item 7 2) fresh (λ event. refl) (refl, refl, refl, (refl, refl, refl, tt))
      (Folds.step 0 (item 7 0) opened (paid ∷ []) (item 7 1) (item 7 2) refl refl refl (
        Folds.step 1 (item 7 1) paid [] (item 7 2) (item 7 2) refl refl refl
          (Folds.stop 2 (item 7 2))))
      refl (missing) (λ r. r.factory_set ≡ true) refl ready_save
  where
    missing : Current entity handler laws fresh 7 (item 7 0)
    missing =
        let (x, view, gone) = memory_repo-missing json entity json_trip 7 fresh refl refl in
        inr (x, view, gone, refl)
