-- ===== src/Repo/Cache/Tests.antt =====
-- A cache in front of a memory repository with one item.
use eventhorizon.Prelude.{◌≡◌, refl, true, List, [], ◌∷◌}
use eventhorizon.Prelude.Maps
use eventhorizon.Samples.{Item, item, entity, json, json_trip}
use eventhorizon.Repo.{Repo, RepoLaws, background}
use eventhorizon.Repo.Memory.{MemoryRepo, memory_repo}
use eventhorizon.Repo.Memory.Contract.{memory_repo_laws, memory_repo-Holds}
use eventhorizon.Repo.Cache.{Cached}
use eventhorizon.Repo.Cache.Coherence.{
  Call, call_find, call_find_all, call_save, call_remove, direct_step, cached_step, answers,
  answers_same, IsCoherent,
}

abbrev repo : Repo Item (MemoryRepo Item)
repo = memory_repo json entity

abbrev laws : RepoLaws entity (memory_repo json entity)
laws = memory_repo_laws json entity json_trip

abbrev fresh : MemoryRepo Item
fresh = record { db = Maps.empty; ids = []; factory_set = true }

abbrev cached : Cached Item (MemoryRepo Item)
cached = record { cache = Maps.empty; inner = fresh }

cached-IsCoherent : IsCoherent entity repo laws cached
cached-IsCoherent = (
  λ id e h. absurd (cc),
  memory_repo-Holds json entity json_trip fresh
      (record { present = λ id m. elim m [ ]; listed = λ id h. absurd (h refl); distinct = tt })
      (λ id b e h un. absurd (cc)),
)

abbrev calls : List (Call Item)
calls =
    call_save (item 7 1)
    ∷ call_find background 7
    ∷ call_save (item 7 2)
    ∷ call_find background 7
    ∷ call_find_all
    ∷ call_remove 7
    ∷ []

answers_same_example :
    answers (cached_step entity repo) calls cached ≡ answers (direct_step repo) calls fresh
answers_same_example = answers_same entity repo laws calls cached cached-IsCoherent
