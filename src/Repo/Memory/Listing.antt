-- ===== src/Repo/Memory/Listing.antt =====
-- What Find and FindAll of the memory repository return after a Save and after a Remove.
use mathlib.Core.List.{Memᴰ}
use eventhorizon.Prelude.{
  ℕ, ℕ_discrete, ◌≡◌, refl, sym, ap, ◌∙◌, ◌≢◌, true, Option, none, some, List, [], ◌∷◌, ◌++◌, arith,
}
use eventhorizon.Prelude.Maps
use eventhorizon.Prelude.Maps.{Map}
use eventhorizon.Errors.{Result, Operation, ok}
use eventhorizon.Event.{nil_uuid}
use eventhorizon.Repo.{Entity}
use eventhorizon.Repo.Memory.{
  Json, MemoryRepo, store, save, remove, unmarshal_for, with_found, find, collect, find_all,
}
use eventhorizon.Repo.Memory.Order.{IsIndexed}
use eventhorizon.Repo.Memory.Finding.{
  RoundTrips, saved, save_self, save_other, remove_self, remove_other, listed,
}

module _ {E Bytes : Type 0} (json : Json E Bytes) where
  collect-cons :
      (db : Map ℕ Bytes) (id : ℕ) (ids : List ℕ)
      → collect json db (id ∷ ids) ≡ with_found json (db id) (collect json db ids)
  unfolding collect
  collect-cons db id ids = refl

  collect-insert :
      (id : ℕ) (b : Bytes) (db : Map ℕ Bytes) (ids : List ℕ)
      → ¬ Memᴰ id ids
      → collect json (Maps.insert ℕ_discrete id b db) ids ≡ collect json db ids
  unfolding collect
  collect-insert id b db [] n = refl
  collect-insert id b db (j ∷ ids) n =
      collect-cons (Maps.insert ℕ_discrete id b db) j ids
      ∙ ap (λ d. with_found json d (collect json (Maps.insert ℕ_discrete id b db) ids))
          (Maps.get-insert_ne ℕ_discrete id j b db (λ p. n (Memᴰ.head p)))
      ∙ ap (with_found json (db j)) (collect-insert id b db ids (λ m. n (Memᴰ.tail m)))
      ∙ sym (collect-cons db j ids)

  with_found-append :
      (d : Option Bytes) (rest : Result (List E)) (es : List E)
      → with_found json d rest ≡ ok es
      → (tail : List E) × (rest ≡ ok tail)
        × ((more : List E) → with_found json d (ok (tail ++ more)) ≡ ok (es ++ more))
  unfolding with_found
  with_found-append none rest es h = (es, h, λ more. refl)
  with_found-append (some b) rest es h =
      let (x, tail, u, t, split) =
        listed (unmarshal_for json Operation.find_all nil_uuid b) rest es h in
      (tail, t, λ more. rw (u, split) refl)

  -- One more ID at the end of the list is one more entity.
  collect-snoc :
      (db : Map ℕ Bytes) (ids : List ℕ) (id : ℕ) (b : Bytes) (e : E) (es : List E)
      → db id ≡ some b
      → json.unmarshal b ≡ ok e
      → collect json db ids ≡ ok es
      → collect json db (ids ++ id ∷ []) ≡ ok (es ++ e ∷ [])
  unfolding collect with_found unmarshal_for
  collect-snoc db [] id b e es there un h =
      let none_before : es ≡ [] = cc in rw (there, un, none_before) refl
  collect-snoc db (j ∷ ids) id b e es there un h =
      let (tail, t, grows) =
        with_found-append (db j) (collect json db ids) es (sym (collect-cons db j ids) ∙ h) in
      collect-cons db j (ids ++ id ∷ [])
      ∙ ap (with_found json (db j)) (collect-snoc db ids id b e tail there un t)
      ∙ grows (e ∷ [])

  -- After a Remove, refused or not, Find does not return an entity for that ID, and returns for every
  -- other ID what it did before.
  pub find-remove :
      (id : ℕ) (r : MemoryRepo Bytes) (e : E)
      → IsIndexed r
      → ((find json id (remove id r).1).0 ≢ ok e)
        × ((j : ℕ) → id ≢ j → (find json j (remove id r).1).0 ≡ (find json j r).0)
  find-remove id r e w = (remove_self json id r e w, λ j n. remove_other json id r j w n)

module _ {E Bytes : Type 0} (json : Json E Bytes) (ent : Entity E) (trip : RoundTrips json) where
  -- In a repository with its factory, saving an entity with an ID succeeds, the entity is what Find
  -- returns for its ID, and Find returns for every other ID what it did before.
  pub find-save :
      (e : E) (r : MemoryRepo Bytes)
      → r.factory_set ≡ true
      → ent.entity_id e ≢ nil_uuid
      → ((save json ent e r).0 ≡ ok tt)
        × ((find json (ent.entity_id e) (save json ent e r).1).0 ≡ ok e)
        × ((j : ℕ)
            → ent.entity_id e ≢ j
            → (find json j (save json ent e r).1).0 ≡ (find json j r).0)
  find-save e r f n =
      let done = ap (λ x. x.0) (saved json ent trip e r f n) in
      (done, save_self json ent trip e r done, save_other json ent trip e r)

  -- An entity that the repository did not have is listed by FindAll after all that it listed before.
  pub find_all-save_new :
      (e : E) (r : MemoryRepo Bytes) (es : List E)
      → IsIndexed r
      → r.factory_set ≡ true
      → ent.entity_id e ≢ nil_uuid
      → r.db (ent.entity_id e) ≡ none
      → (find_all json r).0 ≡ ok es
      → (find_all json (save json ent e r).1).0 ≡ ok (es ++ e ∷ [])
  unfolding find_all store
  find_all-save_new e r es w f n new h =
      let id = ent.entity_id e in
      let db = Maps.insert ℕ_discrete id (trip.encode e) r.db in
      let before : collect json r.db r.ids ≡ ok es = ground arith in
      let same = collect-insert json id (trip.encode e) r.db r.ids (λ m. w.present id m new) in
      rw (saved json ent trip e r f n, f, new)
        (collect-snoc json db r.ids id (trip.encode e) e es
          (Maps.get-insert_self ℕ_discrete id (trip.encode e) r.db) (trip.decoded e)
          (same ∙ before))
