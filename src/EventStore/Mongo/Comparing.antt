-- ===== src/EventStore/Mongo/Comparing.antt =====
-- eventstore/mongodb_v2 and compare.go: an event that comes back from the store compares as equal to
-- the one that was saved, if the position in its metadata is ignored.
use eventhorizon.Prelude.{
  ℕ, suc, String, ◌≡◌, refl, fun_ext, inl, inr, true, Option, none, some, List, [], ◌∷◌, map, arith,
}
use eventhorizon.Prelude.Maps.{Map}
use eventhorizon.Errors.{ok}
use eventhorizon.Event.{Event}
use eventhorizon.Compare.{
  DeepEqual, DeepEqualLaws, configure, zero_config, ignore_position_metadata, compared_metadata,
  without_position, compare_event_slices,
}
use eventhorizon.Compare.Same.{the_position, options}
use eventhorizon.Compare.Counting.{counted, map-counted_iff}
use eventhorizon.Compare.Slices.{compare_event_slices_lem}
use eventhorizon.EventStore.Mongo.Building.{BsonCodec, note_position, metadata_of}
use eventhorizon.EventStore.Mongo.Records.{recorded, recorded_after}

module _ {Any : Type 0} (c : BsonCodec Any) where
  noted-without_position :
      (p : ℕ) (md : Option (Map String Any))
      → without_position (note_position c p md) ≡ without_position md
  unfolding without_position note_position metadata_of
  noted-without_position p none = fun_ext λ k. ground arith
  noted-without_position p (some md) = fun_ext λ k. ground arith

  recorded_after-counted :
      (p : ℕ) (es : List (Event Any))
      → map
          (counted (configure (some ignore_position_metadata ∷ []) zero_config))
          (recorded_after c p es)
        ≡ map (counted (configure (some ignore_position_metadata ∷ []) zero_config)) es
  unfolding recorded_after recorded configure ignore_position_metadata compared_metadata
  recorded_after-counted p [] = refl
  recorded_after-counted p (e ∷ es) =
      rw (noted-without_position (suc p) e.metadata, recorded_after-counted (suc p) es) refl

  -- Events that a Save stored, as Load returns them.
  pub compare-recorded :
      (r : DeepEqual Any) (l : DeepEqualLaws r) (p : ℕ) (es : List (Event Any))
      → compare_event_slices r (recorded_after c p es) es (some ignore_position_metadata ∷ [])
        ≡ ok true
  unfolding options
  compare-recorded r l p es =
      elim (compare_event_slices_lem r l (recorded_after c p es) es (some the_position ∷ [])) [
        | inl (h, same) ↦ h
        | inr (h, differ) ↦ absurd (
            differ (
              (map-counted_iff (some the_position ∷ []) (recorded_after c p es) es).0
                (recorded_after-counted p es)))
      ]
