-- ===== src/Samples.antt =====
-- Values for the tests: events of an account 7 whose data are numbers, and items that a repository
-- keeps.
pub mod Accounts
pub mod Mongo
use eventhorizon.Prelude.{ℕ, refl, String, none, some}
use eventhorizon.Errors.{ok}
use eventhorizon.Event.{Event, Codec}
use eventhorizon.Repo.{Entity}
use eventhorizon.Repo.Memory.{Json}
use eventhorizon.Repo.Memory.Finding.{RoundTrips}

-- Each event type has a factory.
abbrev pub codec : Codec ℕ
codec = record {
  event_data_factories = record { items = λ _. some 0; name = "event" };
  copy = λ to from. ok from;
}

abbrev pub make : String → ℕ → Event ℕ
make event_type version = record {
  event_type = event_type;
  payload = some 5;
  timestamp = 100;
  aggregate_type = "account";
  aggregate_id = 7;
  version = version;
  metadata = none;
}

abbrev pub opened : Event ℕ
opened = make "opened" 1

abbrev pub paid : Event ℕ
paid = make "paid" 2

abbrev pub closed : Event ℕ
closed = make "closed" 3

pub record Item : Type 0 where
  pub item_id : ℕ
  pub item_version : ℕ

abbrev pub item : ℕ → ℕ → Item
item id version = record { item_id = id; item_version = version }

abbrev pub entity : Entity Item
entity = record { entity_id = λ e. e.item_id; aggregate_version = λ e. some e.item_version }

-- An encoding that keeps everything.
abbrev pub json : Json Item Item
json = record { marshal = ok; unmarshal = ok }

abbrev pub json_trip : RoundTrips json
json_trip = record { encode = λ e. e; encoded = λ e. refl; decoded = λ e. refl }
