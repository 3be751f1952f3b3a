-- ===== src/Compare.antt =====
-- compare.go: the comparison of events, with options to leave fields out. Package reflect's DeepEqual
-- is a parameter, on event data and on metadata.
pub mod Same
pub mod Counting
pub mod Slices
mod Tests
use eventhorizon.Prelude.{
  ℕ, String, String-discrete, ℕ_discrete, ◌≡◌, ◌↔◌, Bool, true, false, Option, none, some, List, [],
  ◌∷◌, ite, if◌then◌else◌, length,
}
use eventhorizon.Prelude.Maps
use eventhorizon.Prelude.Maps.{Map}
use eventhorizon.Errors.{Result, ok, err, panic, message}
use eventhorizon.Event.{Event}

pub record CompareConfig : Type 0 where
  pub ignore_timestamp : Bool
  pub ignore_version : Bool
  pub ignore_position : Bool

abbrev pub CompareOption : Type 0
CompareOption = CompareConfig → CompareConfig

unfoldable pub ignore_timestamp : CompareOption
ignore_timestamp o = record o { ignore_timestamp = true }

unfoldable pub ignore_version : CompareOption
ignore_version o = record o { ignore_version = true }

unfoldable pub ignore_position_metadata : CompareOption
ignore_position_metadata o = record o { ignore_position = true }

-- `var opts CompareConfig`, and the loop over the options, which skips nil.
abbrev pub zero_config : CompareConfig
zero_config = record { ignore_timestamp = false; ignore_version = false; ignore_position = false }

unfoldable pub configure : List (Option CompareOption) → CompareConfig → CompareConfig
configure [] opts = opts
configure (none ∷ os) opts = configure os opts
configure (some o ∷ os) opts = configure os (o opts)

pub record DeepEqual (Any : Type 0) : Type 0 where
  pub same_data : Option Any → Option Any → Bool
  pub same_metadata : Option (Map String Any) → Option (Map String Any) → Bool

-- DeepEqual decides equality on data with no functions, cycles or NaN in it; a nil map is not an
-- empty one.
pub record DeepEqualLaws {Any : Type 0} (r : DeepEqual Any) : Type 0 where
  pub data_iff : (a b : Option Any) → (r.same_data a b ≡ true) ↔ (a ≡ b)
  pub metadata_iff : (a b : Option (Map String Any)) → (r.same_metadata a b ≡ true) ↔ (a ≡ b)

unfoldable pub unless_error : Result (Unit {0}) → Result Bool → Result Bool
unless_error (ok _) rest = rest
unless_error (err x) rest = ok false
unless_error panic rest = panic

module _ {Any : Type 0} where
  -- The loops that copy the metadata without the position; nil becomes an empty map.
  unfoldable pub without_position : Option (Map String Any) → Map String Any
  without_position none = Maps.empty
  without_position (some md) = Maps.delete String-discrete "position" md

  unfoldable pub compared_metadata : Bool → Option (Map String Any) → Option (Map String Any)
  unfolding without_position
  compared_metadata ignore md = if ignore then some (without_position md) else md

  module _ (r : DeepEqual Any) where
    compare_metadata : CompareConfig → Event Any → Event Any → Result (Unit {0})
    unfolding compared_metadata
    compare_metadata opts e1 e2 =
        if r.same_metadata (compared_metadata opts.ignore_position e1.metadata)
          (compared_metadata opts.ignore_position e2.metadata)
        then ok tt
        else err (message "incorrect event metadata")

    compare_versions : CompareConfig → Event Any → Event Any → Result (Unit {0})
    unfolding compare_metadata
    compare_versions opts e1 e2 =
        if opts.ignore_version
        then compare_metadata opts e1 e2
        else ite (ℕ_discrete e1.version e2.version) (compare_metadata opts e1 e2)
            (err (message "incorrect version"))

    compare_aggregates : CompareConfig → Event Any → Event Any → Result (Unit {0})
    unfolding compare_versions
    compare_aggregates opts e1 e2 =
        ite (String-discrete e1.aggregate_type e2.aggregate_type)
          (ite (ℕ_discrete e1.aggregate_id e2.aggregate_id) (compare_versions opts e1 e2)
            (err (message "incorrect aggregate ID")))
          (err (message "incorrect aggregate type"))

    compare_timestamps : CompareConfig → Event Any → Event Any → Result (Unit {0})
    unfolding compare_aggregates
    compare_timestamps opts e1 e2 =
        if opts.ignore_timestamp
        then compare_aggregates opts e1 e2
        else ite (ℕ_discrete e1.timestamp e2.timestamp) (compare_aggregates opts e1 e2)
            (err (message "incorrect timestamp"))

    -- CompareEvents, with the options applied.
    unfoldable pub compare_with : CompareConfig → Event Any → Event Any → Result (Unit {0})
    unfolding compare_timestamps
    compare_with opts e1 e2 =
        ite (String-discrete e1.event_type e2.event_type)
          (if r.same_data e1.payload e2.payload
            then compare_timestamps opts e1 e2
            else err (message "incorrect event data"))
          (err (message "incorrect event type"))

    unfoldable pub compare_events :
        Event Any → Event Any → List (Option CompareOption) → Result (Unit {0})
    unfolding compare_with configure
    compare_events e1 e2 options = compare_with (configure options zero_config) e1 e2

    -- The loop of CompareEventSlices, after the check of the lengths; an index out of range panics.
    unfoldable pub compare_each :
        List (Option CompareOption) → List (Event Any) → List (Event Any) → Result Bool
    unfolding compare_events unless_error
    compare_each options [] es = ok true
    compare_each options (e1 ∷ es1) [] = panic
    compare_each options (e1 ∷ es1) (e2 ∷ es2) =
        let rest = compare_each options es1 es2 in unless_error (compare_events e1 e2 options) rest

    unfoldable pub compare_event_slices :
        List (Event Any) → List (Event Any) → List (Option CompareOption) → Result Bool
    unfolding compare_each
    compare_event_slices es1 es2 options =
        ite (ℕ_discrete (length es1) (length es2)) (compare_each options es1 es2) (ok false)
