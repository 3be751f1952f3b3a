-- ===== src/EventStore/Memory/Failing.antt =====
-- Save, as a client calls it, when it does not return nil: the event handler included.
use mathlib.Core.List.{Memᴰ}
use eventhorizon.Prelude.{◌≡◌, ◌≢◌, List}
use eventhorizon.Errors.{ok, Action}
use eventhorizon.Event.{Event, Codec}
use eventhorizon.EventStore.Memory.{Db}

module _ {Any W : Type 0} (c : Codec Any) where
  -- A call of the handler with one of the events did not return nil, and nothing came after it.
  abbrev pub IsEnd :
      (Event Any → Action (Db Any × W) (Unit {0})) → List (Event Any) → Db Any × W → Type 0
  IsEnd handle es t =
      (e : Event Any) × (s : Db Any × W) × Memᴰ e es
      × ((handle e s).0 ≢ ok tt)
      × ((handle e s).1 ≡ t)
