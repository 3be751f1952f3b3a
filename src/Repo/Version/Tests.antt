-- ===== src/Repo/Version/Tests.antt =====
-- A Find that waits for version 2 of an item that something else saves during the wait.
use eventhorizon.Prelude.{ℕ, ◌≡◌, refl, ◌↔◌, true, false, some, List, [], ◌∷◌, arith, ℕ_discrete}
use eventhorizon.Prelude.Maps
use eventhorizon.Errors.{Result, ok, err, sentinel, context_deadline_exceeded}
use eventhorizon.Samples.{Item, item, entity, json}
use eventhorizon.Repo.{FindContext, background, with_min_version, with_min_version_wait}
use eventhorizon.Repo.Memory.{MemoryRepo, memory_repo}
use eventhorizon.Repo.Version.{Wait, retry, context_done, find}
use eventhorizon.Repo.Version.Waiting.{Reaches, find_iff, find-Returns}

abbrev holding : ℕ → MemoryRepo Item
holding v = record {
  db = Maps.insert ℕ_discrete 7 (item 7 v) Maps.empty;
  ids = 7 ∷ [];
  factory_set = true;
}

abbrev waits : List (Wait (MemoryRepo Item))
waits = retry (λ r. holding 2) ∷ context_done (sentinel context_deadline_exceeded) ∷ []

abbrev waiting : FindContext
waiting = record { min_version = some 2; has_deadline = true }

abbrev at_once : FindContext
at_once = record { min_version = some 2; has_deadline = false }

found :
    find entity (memory_repo json entity) waits waiting 7 (holding 1)
    ≡ some (ok (item 7 2), holding 2)
unfolding find memory_repo ℕ_discrete eventhorizon.Repo.Memory.find eventhorizon.Errors.errors_is
found = refl

find_iff_example :
    (find entity (memory_repo json entity) waits waiting 7 (holding 1)
      ≡ some (ok (item 7 2), holding 2))
    ↔ Reaches entity (memory_repo json entity) waiting 7 2 waits (holding 1) (item 7 2) (holding 2)
find_iff_example =
    find_iff entity (memory_repo json entity) waits waiting 7 2 (holding 1) (item 7 2) (holding 2)
      refl (omega arith) refl

find-Returns_example :
    (x : Result Item × MemoryRepo Item) × (find entity
        (memory_repo json entity)
        waits
        waiting
        7
        (holding 1)
      ≡ some x)
find-Returns_example =
    find-Returns entity (memory_repo json entity) (retry (λ r. holding 2) ∷ [])
      (sentinel context_deadline_exceeded) [] waiting 7 (holding 1)
