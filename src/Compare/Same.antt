-- ===== src/Compare/Same.antt =====
-- compare.go: when two events are the same, apart from what the options say to ignore.
use mathlib.Core.List.{Memᴰ}
use eventhorizon.Prelude.{String, ◌≡◌, ◌≢◌, Option, none, some, List, [], ◌∷◌}
use eventhorizon.Prelude.Maps.{Map}
use eventhorizon.Event.{Event}
use eventhorizon.Compare.{CompareOption, ignore_timestamp, ignore_version, ignore_position_metadata}

-- What a caller may ask to ignore.
pub data Ignoring : Type 0 where
  the_timestamp : Ignoring
  the_version : Ignoring
  the_position : Ignoring

-- The option of the package for it; nil is an option, too.
abbrev pub option : Ignoring → CompareOption
option the_timestamp = ignore_timestamp
option the_version = ignore_version
option the_position = ignore_position_metadata

unfoldable pub options : List (Option Ignoring) → List (Option CompareOption)
options [] = []
options (none ∷ is) = none ∷ options is
options (some i ∷ is) = some (option i) ∷ options is

-- Among the options is the one to ignore it.
abbrev pub Ignores : List (Option Ignoring) → Ignoring → Type 0
Ignores is i = Memᴰ (some i) is

module _ {Any : Type 0} where
  -- What metadata has at a key; nil has nothing.
  abbrev pub entry : Option (Map String Any) → String → Option Any
  entry none key = none
  entry (some md) key = md key

  -- The events are the same: the data, the type and the aggregate always count, timestamp and
  -- version if they are not ignored. The metadata is the same map, or is the same at each key but the
  -- position if that is ignored.
  abbrev pub IsSame : List (Option Ignoring) → Event Any → Event Any → Type 0
  IsSame is e1 e2 =
      (e1.event_type ≡ e2.event_type)
      × (e1.payload ≡ e2.payload)
      × (¬ Ignores is the_timestamp → e1.timestamp ≡ e2.timestamp)
      × (e1.aggregate_type ≡ e2.aggregate_type)
      × (e1.aggregate_id ≡ e2.aggregate_id)
      × (¬ Ignores is the_version → e1.version ≡ e2.version)
      × (¬ Ignores is the_position → e1.metadata ≡ e2.metadata)
      × ((key : String) → "position" ≢ key → entry e1.metadata key ≡ entry e2.metadata key)

  -- As many events in both, the same place by place.
  abbrev pub AllSame : List (Option Ignoring) → List (Event Any) → List (Event Any) → Type 0
  AllSame is [] [] = Unit
  AllSame is [] (e2 ∷ es2) = ⊥
  AllSame is (e1 ∷ es1) [] = ⊥
  AllSame is (e1 ∷ es1) (e2 ∷ es2) = IsSame is e1 e2 × AllSame is es1 es2
