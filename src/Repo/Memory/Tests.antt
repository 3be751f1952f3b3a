-- ===== src/Repo/Memory/Tests.antt =====
-- The memory repository with one item, or two.
use eventhorizon.Prelude.{ℕ, ◌≡◌, refl, ◌≢◌, true, none, [], ◌∷◌, arith, ℕ_discrete}
use eventhorizon.Prelude.Maps
use eventhorizon.Errors.{ok}
use eventhorizon.Samples.{Item, item, entity, json, json_trip}
use eventhorizon.Repo.Memory.{MemoryRepo, new_repo, set_entity_factory, save, find, find_all}
use eventhorizon.Repo.Memory.Order.{IsIndexed, save-IsIndexed}
use eventhorizon.Repo.Memory.Listing.{find-save}

abbrev fresh : MemoryRepo Item
fresh = record { db = Maps.empty; ids = []; factory_set = true }

abbrev one_item : MemoryRepo Item
one_item = record {
  db = Maps.insert ℕ_discrete 7 (item 7 1) Maps.empty;
  ids = 7 ∷ [];
  factory_set = true;
}

fresh_made : set_entity_factory new_repo ≡ fresh
unfolding set_entity_factory new_repo
fresh_made = refl

fresh-IsIndexed : IsIndexed fresh
fresh-IsIndexed = record {
  present = λ id m. elim m [ ];
  listed = λ id h. absurd (h refl);
  distinct = tt;
}

one_item_made : (save json entity (item 7 1) fresh).1 ≡ one_item
unfolding save ℕ_discrete
one_item_made = refl

one_item-IsIndexed : IsIndexed one_item
one_item-IsIndexed =
    rw (← one_item_made) (save-IsIndexed json entity (item 7 1) fresh fresh-IsIndexed)

find-save_example :
    ((save json entity (item 8 1) one_item).0 ≡ ok tt)
    × ((find json 8 (save json entity (item 8 1) one_item).1).0 ≡ ok (item 8 1))
    × ((j : ℕ)
        → 8 ≢ j
        → (find json j (save json entity (item 8 1) one_item).1).0 ≡ (find json j one_item).0)
find-save_example = find-save json entity json_trip (item 8 1) one_item refl (omega arith)

listed_one : (find_all json one_item).0 ≡ ok (item 7 1 ∷ [])
unfolding find_all ℕ_discrete
listed_one = refl

absent : one_item.db 8 ≡ none
unfolding ℕ_discrete
absent = refl
