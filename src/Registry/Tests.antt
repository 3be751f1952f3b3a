-- ===== src/Registry/Tests.antt =====
-- A registry of numbers under texts.
use eventhorizon.Prelude.{ℕ, ◌≡◌, refl, none, String, String-discrete}
use eventhorizon.Errors.{ok}
use eventhorizon.Registry.{Registry, new, register}

abbrev types : Registry String ℕ
types = record { items = λ key. none; name = "event" }

types_made : new "event" ≡ types
unfolding new
types_made = refl

registered : (register String-discrete "" "opened" 1 types).0 ≡ ok tt
unfolding register String-discrete
registered = refl
